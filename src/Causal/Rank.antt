-- ===== src/Causal/Rank.antt =====
-- crates/wayjournal-core/src/causal.rs: the order that `CausalGraph::new` returns, and when it
-- reports a cycle.
use wayjournal_build_attesta.Prelude.{
  ℕ, zero, suc, ◌≤◌, ◌<◌, ◌≡◌, refl, Bool, true, false, ◌||◌, none, some, List, [], ◌∷◌, arith, mem,
  ◌==◌, if◌then◌else◌, length, ok, is_some, Bool-cases, ◌⊎◌, inl, inr, Option-cases, subst,
}
use wayjournal_build_attesta.Ids.{RecordId}
use wayjournal_build_attesta.Causal.{CausalNode, CausalGraph, new}
use wayjournal_build_attesta.Causal.Index.{ids, node_of}
use wayjournal_build_attesta.Causal.Waiting.{
  missing, missing_pos, missing_witness, left, left-none, mem_of_left_zero, left_zero_of_mem,
}
use wayjournal_build_attesta.Causal.Drain.{IsDrained, Topological, popped}
use wayjournal_build_attesta.Causal.Order.{new-IsBuilt}

-- Where a parent was popped before, it has the smaller rank: how far from the end it stands.
abbrev rank_in : List RecordId → RecordId → ℕ
rank_in [] id = 0
rank_in (x ∷ done) id = if id == x then suc (length done) else rank_in done id

rank_in-le : (done : List RecordId) (id : RecordId) → rank_in done id ≤ length done
rank_in-le [] id = omega arith
rank_in-le (x ∷ done) id = ground (arith, rank_in-le done id)

pub mem_of_missing :
    (p : RecordId) (done ps : List RecordId)
    → missing done ps ≡ 0
    → mem p ps ≡ true
    → mem p done ≡ true
mem_of_missing p done ps h m = ground (arith, missing_pos p done ps)

module _ {ℓ} {T : Type ℓ} ⦃c : CausalNode T⦄ where
  pub mem-popped :
      (id : RecordId) (done : List RecordId) (out : List T)
      → mem id (popped done out) ≡ (mem id done || mem id (ids out))
  mem-popped id done [] = ground arith
  mem-popped id done (node ∷ out) = ground (arith, mem-popped id (c.record_id node ∷ done) out)

  -- the parents of the node with an id
  abbrev pub parents_in : RecordId → List T → List RecordId
  parents_in id nodes = elim (node_of id nodes) [ none ↦ [] | some node ↦ c.parents node ]

  -- A rank that grows from each node's parents to the node.
  abbrev pub Grows : List T → (RecordId → ℕ) → Type 0
  Grows nodes rank = (id p : RecordId) → mem p (parents_in id nodes) ≡ true → rank p < rank id

  pub mem-ids : (id : RecordId) (nodes : List T) → mem id (ids nodes) ≡ is_some (node_of id nodes)
  mem-ids id [] = refl
  mem-ids id (node ∷ nodes) = ground (arith, mem-ids id nodes)

  module _ (nodes out : List T) (rank : RecordId → ℕ) (grows : Grows nodes rank)
      (d : IsDrained nodes [] out)
      (there : (id : RecordId) (node : T) (p : RecordId)
        → node_of id nodes ≡ some node
        → mem p (c.parents node) ≡ true
        → mem p (ids nodes) ≡ true) where
    -- By induction on the rank: a node that is stuck waits for a stuck parent of smaller rank.
    all_popped :
        (bound : ℕ) (id : RecordId)
        → rank id < bound
        → mem id (ids nodes) ≡ true
        → mem id (popped [] out) ≡ true
    all_popped zero id h m = absurd (omega arith)
    all_popped (suc bound) id h m =
        go (all_popped bound) (mem id (popped [] out)) refl (Option-cases (node_of id nodes))
      where
        go :
            ((p : RecordId)
              → rank p < bound
              → mem p (ids nodes) ≡ true
              → mem p (popped [] out) ≡ true)
            → (b : Bool) → mem id (popped [] out) ≡ b
            → ((node_of id nodes ≡ none) ⊎ ((node : T) × (node_of id nodes ≡ some node)))
            → mem id (popped [] out) ≡ true
        go ih true e o = e
        go ih false e (inl absent) = ground (arith, mem-ids id nodes)
        go ih false e (inr (node, here)) =
            let (p, named, not_yet) =
              missing_witness (popped [] out) (c.parents node) (d.stuck id node here e) in
            ground (arith, ih p, grows id p, there id node p here named)

    pub none_left : left (popped [] out) nodes ≡ 0
    none_left =
        left_zero_of_mem (popped [] out) nodes
          (λ id m. all_popped (suc (rank id)) id (omega arith) m)

  module _ (nodes : List T) where
    abbrev RanksDone : List RecordId → Type ℓ
    RanksDone done =
        (id : RecordId) (node : T) (p : RecordId)
        → mem id done ≡ true
        → node_of id nodes ≡ some node
        → mem p (c.parents node) ≡ true
        → (mem p done ≡ true) × (rank_in done p < rank_in done id)

    RanksDone-cons :
        (done : List RecordId) (node : T)
        → node_of (c.record_id node) nodes ≡ some node
        → mem (c.record_id node) done ≡ false
        → missing done (c.parents node) ≡ 0
        → RanksDone done
        → RanksDone (c.record_id node ∷ done)
    RanksDone-cons done node here fresh none_missing r id other p m e named =
        elim (Bool-cases (id == c.record_id node)) [
          | inl same ↦
              let at : other ≡ node = ground arith in
              let before : mem p done ≡ true =
                mem_of_missing p done (c.parents node) none_missing
                  (subst (λ n. mem p (c.parents n) ≡ true) at named) in
              ground (arith, rank_in-le done p)
          | inr different ↦ ground (arith, r id other p)
        ]

    RanksDone-popped :
        (done : List RecordId) (out : List T)
        → Topological nodes done out
        → RanksDone done
        → RanksDone (popped done out)
    RanksDone-popped done [] t r = r
    RanksDone-popped done (node ∷ out) t r =
        RanksDone-popped (c.record_id node ∷ done) out t.3 (RanksDone-cons done node t.0 t.1 t.2 r)

  module _ (nodes : List T) (graph : CausalGraph T) (built : new nodes ≡ ok graph) where
    all_there : left (popped [] graph.ordered) nodes ≡ 0
    all_there =
        let b = new-IsBuilt nodes graph built in
        omega (arith, b.drains.size, b.complete, left-none nodes)

    -- The order of a graph that was built lists every node once, each after all of its parents, and
    -- nothing else.
    pub new-Topological :
        Topological nodes [] graph.ordered
        × (length graph.ordered ≡ length nodes)
        × ((id : RecordId) → mem id (ids nodes) ≡ true → mem id (ids graph.ordered) ≡ true)
    new-Topological =
        let b = new-IsBuilt nodes graph built in
        (
          b.drains.topological,
          b.complete,
          λ id m. ground (
            arith,
            mem_of_left_zero (popped [] graph.ordered) nodes id all_there m,
            mem-popped id [] graph.ordered,
          ),
        )

    -- A graph that was built is acyclic: there is a rank that grows from parents to children.
    pub new-Grows : (rank : RecordId → ℕ) × Grows nodes rank
    new-Grows =
        let b = new-IsBuilt nodes graph built in
        (
          rank_in (popped [] graph.ordered),
          λ id p named. elim (Option-cases (node_of id nodes)) [
            | inl absent ↦ absurd (ground (arith, absent, named))
            | inr (node, here) ↦
                (RanksDone-popped nodes [] graph.ordered b.drains.topological (λ i n q m e k. cc) id
                  node p
                  (mem_of_left_zero (popped [] graph.ordered) nodes id all_there
                    (ground (arith, mem-ids id nodes)))
                  here (ground (arith, here, named))).1
          ],
        )
