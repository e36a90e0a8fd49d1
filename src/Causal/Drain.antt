-- ===== src/Causal/Drain.antt =====
-- crates/wayjournal-core/src/causal.rs: the outer loop of `CausalGraph::new` ends within its fuel
-- with the nodes in topological order, as many as can be placed.
use wayjournal_build_attesta.Prelude.{
  ℕ, zero, suc, ◌+◌, ◌≤◌, ◌<◌, ◌≡◌, refl, true, false, Option, none, some, List, [], ◌∷◌, arith,
  mem, Distinct, nat_ord, length, ok, Option-cases, inl, inr, ◌≺◌, All,
}
use wayjournal_build_attesta.Ids.{RecordId}
use wayjournal_build_attesta.Collections.Map
use wayjournal_build_attesta.Collections.Map.{Map}
use wayjournal_build_attesta.Collections.Set.{IsOrdered}
use wayjournal_build_attesta.Causal.{CausalNode, children_of, drain, index}
use wayjournal_build_attesta.Causal.Index.{ids, node_of}
use wayjournal_build_attesta.Causal.Children.{names_parent}
use wayjournal_build_attesta.Causal.Release.{IsReleased, Positive, release_lem}
use wayjournal_build_attesta.Causal.Waiting.{
  missing, missing-cons, missing_pos, missing_of, is_ready, left, left-cons,
}

not-mem-above : (a : ℕ) (s : List ℕ) → All (λ b. a ≺ b) s → mem a s ≡ false
not-mem-above a [] h = refl
not-mem-above a (b ∷ s) h = ground (arith, not-mem-above a s)

-- the ids popped in the end, the last first
abbrev pub popped {ℓ} : {T : Type ℓ} ⦃c : CausalNode T⦄ → List RecordId → List T → List RecordId
popped done [] = done
popped ⦃c⦄ done (node ∷ rest) = popped (c.record_id node ∷ done) rest

module _ {ℓ} {T : Type ℓ} ⦃c : CausalNode T⦄ (nodes : List T) where
  -- Each is a node of the list that was not popped before it, and all of its parents were.
  abbrev pub Topological : List RecordId → List T → Type ℓ
  Topological done [] = Unit
  Topological done (node ∷ rest) =
      (node_of (c.record_id node) nodes ≡ some node)
      × (mem (c.record_id node) done ≡ false)
      × (missing done (c.parents node) ≡ 0)
      × Topological (c.record_id node ∷ done) rest

  -- The invariant of the outer loop.
  pub record IsWaiting (done ready : List RecordId) (indegree : Map RecordId ℕ) : Type ℓ where
    pub counts : (id : RecordId) → Map.get id indegree ≡ missing_of done (node_of id nodes)
    pub readies : (id : RecordId) → mem id ready ≡ is_ready done id (node_of id nodes)
    pub closed :
        (id : RecordId) (node : T)
        → mem id done ≡ true
        → node_of id nodes ≡ some node
        → missing done (c.parents node) ≡ 0
    pub ordered : IsOrdered ready

  -- What the outer loop returns: a node that is not there waits for a parent.
  pub record IsDrained (done : List RecordId) (out : List T) : Type ℓ where
    pub topological : Topological done out
    pub stuck :
        (id : RecordId) (node : T)
        → node_of id nodes ≡ some node
        → mem id (popped done out) ≡ false
        → 0 < missing (popped done out) (c.parents node)
    pub size : length out + left (popped done out) nodes ≡ left done nodes

  module _ (children : Map RecordId (List RecordId))
      (kid : (p id : RecordId)
        → mem id (children_of p children) ≡ names_parent p (node_of id nodes))
      (kids_distinct : (p : RecordId) → Distinct (children_of p children))
      (parents_distinct : (id : RecordId) (node : T)
        → node_of id nodes ≡ some node
        → Distinct (c.parents node)) where
    module _ (done : List RecordId) (id : RecordId) (ready : List RecordId)
        (indegree : Map RecordId ℕ) (w : IsWaiting done (id ∷ ready) indegree) where
      popped_fresh : mem id done ≡ false
      popped_fresh = ground (arith, w.readies id)

      children-Positive : Positive (children_of id children) indegree
      children-Positive j n m e = elim (Option-cases (node_of j nodes)) [
        | inl absent ↦ ground (arith, w.counts j)
        | inr (node, found) ↦
            ground (arith, w.counts j, kid id j, popped_fresh, missing_pos id done (c.parents node))
      ]

      module _ (ready' : List RecordId) (indegree' : Map RecordId ℕ)
          (r : IsReleased (children_of id children) ready indegree ready' indegree') where
        step_counts :
            (j : RecordId) → Map.get j indegree' ≡ missing_of (id ∷ done) (node_of j nodes)
        step_counts j = elim (Option-cases (node_of j nodes)) [
          | inl absent ↦ ground (arith, w.counts j, kid id j, r.counts j)
          | inr (node, found) ↦ ground (
            arith,
            w.counts j,
            kid id j,
            r.counts j,
            popped_fresh,
            missing-cons id done (c.parents node) (parents_distinct j node found),
          )
        ]

        step_readies : (j : RecordId) → mem j ready' ≡ is_ready (id ∷ done) j (node_of j nodes)
        step_readies j = elim (Option-cases (node_of j nodes)) [
          | inl absent ↦ ground (arith, w.readies j, w.counts j, kid id j, r.joined j)
          | inr (node, found) ↦ ground (
            arith,
            w.readies j,
            w.counts j,
            kid id j,
            r.joined j,
            popped_fresh,
            not-mem-above id ready w.ordered.0,
            w.closed j node,
            missing-cons id done (c.parents node) (parents_distinct j node found),
          )
        ]

        step_closed :
            (j : RecordId) (node : T)
            → mem j (id ∷ done) ≡ true
            → node_of j nodes ≡ some node
            → missing (id ∷ done) (c.parents node) ≡ 0
        step_closed j node m found = ground (
          arith,
          w.readies j,
          w.closed j node,
          popped_fresh,
          missing-cons id done (c.parents node) (parents_distinct j node found),
        )

        step-IsWaiting : IsWaiting (id ∷ done) ready' indegree'
        step-IsWaiting = record {
          counts = step_counts;
          readies = step_readies;
          closed = step_closed;
          ordered = r.ordered;
        }

    -- The node of an id that is ready.
    ready_node :
        (done : List RecordId) (id : RecordId) (ready : List RecordId) (indegree : Map RecordId ℕ)
        → IsWaiting done (id ∷ ready) indegree
        → (node : T) × (node_of id nodes ≡ some node) × (missing done (c.parents node) ≡ 0)
    ready_node done id ready indegree w = go (node_of id nodes) refl
      where
        go :
            (o : Option T)
            → node_of id nodes ≡ o
            → (node : T) × (node_of id nodes ≡ some node) × (missing done (c.parents node) ≡ 0)
        go none e = absurd (ground (arith, w.readies id, e))
        go (some node) e = (node, e, ground (arith, w.readies id, e))

    module _ (by_id : Map RecordId T)
        (found : (id : RecordId) → Map.get id by_id ≡ node_of id nodes)
        (distinct : Distinct (ids nodes))
        (own_id : (id : RecordId) (node : T)
          → node_of id nodes ≡ some node
          → c.record_id node ≡ id) where
      abbrev Drains : ℕ → List RecordId → List RecordId → Map RecordId ℕ → Type ℓ
      Drains fuel done ready indegree =
          (out : List T) × (drain by_id children fuel ready indegree ≡ ok out) × IsDrained done out

      drained_now :
          (fuel : ℕ) (done : List RecordId) (indegree : Map RecordId ℕ)
          → IsWaiting done [] indegree
          → Drains fuel done [] indegree
      unfolding drain
      drained_now fuel done indegree w = (
        [],
        refl,
        record {
          topological = tt;
          stuck = λ id node e m. ground (arith, w.readies id);
          size = omega arith;
        },
      )

      -- One round, and what the rounds after it return.
      drain_round :
          (fuel : ℕ) (done : List RecordId) (id : RecordId) (ready : List RecordId)
          (indegree : Map RecordId ℕ)
          → IsWaiting done (id ∷ ready) indegree
          → ((ready' : List RecordId) (indegree' : Map RecordId ℕ)
              → IsWaiting (id ∷ done) ready' indegree'
              → Drains fuel (id ∷ done) ready' indegree')
          → Drains (suc fuel) done (id ∷ ready) indegree
      unfolding drain index
      drain_round fuel done id ready indegree w later =
          let (node, here, none_missing) = ready_node done id ready indegree w in
          let same : c.record_id node ≡ id = own_id id node here in
          let fresh = popped_fresh done id ready indegree w in
          let (ready', indegree', runs, r) =
            release_lem (children_of id children) ready indegree (kids_distinct id) w.ordered.1
              (children-Positive done id ready indegree w) in
          let (out, rest, s) =
            later ready' indegree' (step-IsWaiting done id ready indegree w ready' indegree' r) in
          (
            node ∷ out,
            rw (found id, here, runs, rest, index, drain),
            record {
              topological = rw same (here, fresh, none_missing, s.topological);
              stuck = rw same s.stuck;
              size =
                  rw same (omega (arith, s.size, left-cons id done nodes node distinct here fresh));
            },
          )

      -- With a round for each node that is left, the loop ends, and it indexes nothing that is missing.
      pub drain_lem :
          (fuel : ℕ) (done ready : List RecordId) (indegree : Map RecordId ℕ)
          → left done nodes ≤ fuel
          → IsWaiting done ready indegree
          → Drains fuel done ready indegree
      drain_lem fuel done [] indegree h w = drained_now fuel done indegree w
      drain_lem zero done (id ∷ ready) indegree h w =
          let (node, here, _) = ready_node done id ready indegree w in
          absurd (
            omega (
              arith,
              left-cons id done nodes node distinct here (popped_fresh done id ready indegree w),
            ))
      drain_lem (suc fuel) done (id ∷ ready) indegree h w =
          drain_round fuel done id ready indegree w (λ ready' indegree' w'.
            drain_lem fuel (id ∷ done) ready' indegree'
              (omega (
                arith,
                left-cons id done nodes (ready_node done id ready indegree w).0 distinct
                    (ready_node done id ready indegree w).1 (popped_fresh done id ready indegree w),
              ))
              w')
