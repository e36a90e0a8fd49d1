-- ===== src/Causal/Errors.antt =====
-- crates/wayjournal-core/src/causal.rs: what each error of `CausalGraph::new` says of its input.
use wayjournal_build_attesta.Prelude.{
  ℕ, ◌+◌, ◌≤◌, ◌<◌, ◌≡◌, refl, Bool, true, false, not, Option, none, some, List, [], ◌∷◌, arith,
  mem, nat_ord, ◌==◌, length, Outcome, ok, err, fault, ◌>>=◌, require, ltb, compare, Ensures,
  returns, raises, Ensures-bind, Ensures-require, ◌⊎◌, inl, inr, if◌then◌else◌,
}
use wayjournal_build_attesta.Ids.{RecordId}
use wayjournal_build_attesta.Collections.Map
use wayjournal_build_attesta.Collections.Map.{Map, map_values, contains_key, get-insert}
use wayjournal_build_attesta.Collections.Sort.{sort_by, strictly_sorted}
use wayjournal_build_attesta.Causal.{
  CausalNode, CausalGraph, CausalError, too_many_operations, too_many_edges, invalid_parents,
  duplicate_record_id, dangling_parent, reachability_budget, cycle, new, edge_total, checked_add,
  check_edges, index_nodes, check_parents, check_all_parents, drain, max_causal_edges,
  max_causal_operations, usize_max, collect_children, initially_ready, parent_counts,
}
use wayjournal_build_attesta.Causal.Index.{
  ids, node_of, IsIndex, edge_count, index_nodes_lem, check_all_parents_lem,
}
use wayjournal_build_attesta.Causal.Start.{get-by_id}
use wayjournal_build_attesta.Causal.Waiting.{left-none}
use wayjournal_build_attesta.Causal.Drain.{IsDrained}
use wayjournal_build_attesta.Causal.Order.{Drained, drained, edge_total_lem}
use wayjournal_build_attesta.Causal.Rank.{Grows, none_left, mem-ids}

module _ {ℓ} {T : Type ℓ} ⦃c : CausalNode T⦄ where
  -- how often an id stands in the list
  abbrev pub count_id : RecordId → List T → ℕ
  count_id id [] = 0
  count_id id (node ∷ nodes) = (if c.record_id node == id then 1 else 0) + count_id id nodes

  -- Some node of the list has the id, and its parents satisfy `P`.
  abbrev pub SomeNode : (List RecordId → Type 0) → RecordId → List T → Type 0
  SomeNode P id [] = ⊥
  SomeNode P id (node ∷ nodes) =
      ((c.record_id node ≡ id) × P (c.parents node)) ⊎ SomeNode P id nodes

  -- What an error says of the nodes.
  abbrev pub Explains : List T → CausalError → Type 0
  Explains nodes (too_many_operations maximum actual) =
      (maximum ≡ max_causal_operations) × (actual ≡ length nodes) × (maximum < actual)
  Explains nodes (too_many_edges maximum actual) =
      (maximum ≡ max_causal_edges) × (maximum < edge_count nodes) × (actual ≤ edge_count nodes)
  Explains nodes (invalid_parents id) = SomeNode (λ ps. strictly_sorted ps ≡ false) id nodes
  Explains nodes (duplicate_record_id id) = 1 < count_id id nodes
  Explains nodes (dangling_parent id parent) =
      SomeNode (λ ps. mem parent ps ≡ true) id nodes × (mem parent (ids nodes) ≡ false)
  Explains nodes (reachability_budget maximum) = ⊥
  Explains nodes cycle = (rank : RecordId → ℕ) → ¬ Grows nodes rank

  edge_total-none :
      (total : ℕ) (nodes : List T)
      → edge_total total nodes ≡ none
      → usize_max < total + edge_count nodes
  unfolding edge_total checked_add
  edge_total-none total [] h = cc
  edge_total-none total (node ∷ nodes) h =
      ground (arith, edge_total-none (total + length (c.parents node)) nodes)

  check_edges-Ensures :
      (nodes : List T)
      → Ensures (Explains nodes) (λ (u : Unit {0}). Unit {0}) (check_edges (edge_total 0 nodes))
  unfolding check_edges
  check_edges-Ensures nodes = go (edge_total 0 nodes) refl
    where
      bounded :
          (n : ℕ) (b : Bool)
          → edge_total 0 nodes ≡ some n
          → not (ltb max_causal_edges n) ≡ b
          → Ensures
              (Explains nodes)
              (λ (u : Unit {0}). Unit {0})
              (require b (too_many_edges max_causal_edges n))
      bounded n true e h = returns tt
      bounded n false e h = raises (
        refl,
        ground (arith, edge_total_lem 0 nodes n e),
        ground (arith, edge_total_lem 0 nodes n e),
      )

      go :
          (o : Option ℕ)
          → edge_total 0 nodes ≡ o
          → Ensures (Explains nodes) (λ (u : Unit {0}). Unit {0}) (check_edges o)
      go none e =
          raises (
            refl,
            omega (arith, edge_total-none 0 nodes e),
            omega (arith, edge_total-none 0 nodes e),
          )
      go (some n) e = bounded n (not (ltb max_causal_edges n)) e refl

  module _ (nodes : List T) where
    abbrev Within : List T → Type 1
    Within rest =
        (P : List RecordId → Type 0) (id : RecordId) → SomeNode P id rest → SomeNode P id nodes

    index_nodes-Ensures :
        (rest : List T) (by_id : Map RecordId T)
        → Within rest
        → ((id : RecordId)
            → (if contains_key id by_id then 1 else 0) + count_id id rest ≤ count_id id nodes)
        → Ensures (Explains nodes) (λ (m : Map RecordId T). Unit {0}) (index_nodes by_id rest)
    unfolding index_nodes
    index_nodes-Ensures [] by_id within counted = returns tt
    index_nodes-Ensures (node ∷ rest) by_id within counted =
        Ensures-bind
          (require (strictly_sorted (c.parents node)) (invalid_parents (c.record_id node))) _
          (Ensures-require (strictly_sorted (c.parents node)) (invalid_parents (c.record_id node))
            (λ unsorted.
              within (λ ps. strictly_sorted ps ≡ false) (c.record_id node) (inl (refl, unsorted))))
          (λ u e sorted.
            Ensures-bind
              (require (not (contains_key (c.record_id node) by_id))
                (duplicate_record_id (c.record_id node)))
              _
              (Ensures-require (not (contains_key (c.record_id node) by_id))
                (duplicate_record_id (c.record_id node))
                (λ old. ground (arith, counted (c.record_id node), old)))
              (λ v e' new.
                index_nodes-Ensures rest (Map.insert (c.record_id node) node by_id)
                  (λ P id s. within P id (inr s))
                  (λ id.
                    unfold contains_key in
                    ground (arith, counted id, new, get-insert (c.record_id node) id node by_id))))

    module _ (by_id : Map RecordId T) (s : IsIndex [] nodes by_id) where
      not_indexed : (p : RecordId) → contains_key p by_id ≡ false → mem p (ids nodes) ≡ false
      unfolding contains_key
      not_indexed p h = ground (arith, h, get-by_id nodes by_id s p, mem-ids p nodes)

      check_parents-Ensures :
          (id : RecordId) (ps : List RecordId)
          → ((p : RecordId) → mem p ps ≡ true → SomeNode (λ qs. mem p qs ≡ true) id nodes)
          → Ensures (Explains nodes) (λ (u : Unit {0}). Unit {0}) (check_parents by_id id ps)
      unfolding check_parents
      check_parents-Ensures id [] named = returns tt
      check_parents-Ensures id (p ∷ ps) named =
          Ensures-bind (require (contains_key p by_id) (dangling_parent id p)) _
            (Ensures-require (contains_key p by_id) (dangling_parent id p)
              (λ absent. (named p (ground arith), not_indexed p absent)))
            (λ u e there. check_parents-Ensures id ps (λ q m. named q (ground arith)))

      check_all_parents-Ensures :
          (rest : List T)
          → Within rest
          → Ensures (Explains nodes) (λ (u : Unit {0}). Unit {0}) (check_all_parents by_id rest)
      unfolding check_all_parents
      check_all_parents-Ensures [] within = returns tt
      check_all_parents-Ensures (node ∷ rest) within =
          Ensures-bind (check_parents by_id (c.record_id node) (c.parents node)) _
            (check_parents-Ensures (c.record_id node) (c.parents node)
              (λ p m. within (λ qs. mem p qs ≡ true) (c.record_id node) (inl (refl, m))))
            (λ u e there. check_all_parents-Ensures rest (λ P id x. within P id (inr x)))

      module _ {u : Unit {0}} (there : check_all_parents by_id nodes ≡ ok u) where
        parents_listed :
            (id : RecordId) (node : T) (p : RecordId)
            → node_of id nodes ≡ some node
            → mem p (c.parents node) ≡ true
            → mem p (ids nodes) ≡ true
        unfolding contains_key
        parents_listed id node p here named = ground (
          arith,
          check_all_parents_lem by_id nodes there id node p here named,
          get-by_id nodes by_id s p,
          mem-ids p nodes,
        )

        cyclic :
            (out : List T)
            → IsDrained nodes [] out
            → (length out == length nodes) ≡ false
            → (rank : RecordId → ℕ) → ¬ Grows nodes rank
        cyclic out d short rank grows =
            ground (
              arith,
              none_left nodes out rank grows d parents_listed,
              d.size,
              left-none nodes,
              short,
            )

        after_checks :
            (d : Drained nodes by_id)
            → Ensures
                (Explains nodes)
                (λ (g : CausalGraph T). Unit {0})
                (drain by_id
                    (map_values (sort_by compare) (collect_children nodes []))
                    (length nodes)
                    (initially_ready (parent_counts by_id))
                    (parent_counts by_id)
                  >>= λ ordered. require (length ordered == length nodes) cycle >>= λ _.
                      ok (record { ordered = ordered; by_id = by_id }))
        after_checks (out, runs, d) = rw runs (
            Ensures-bind (require (length out == length nodes) cycle) _
              (Ensures-require (length out == length nodes) cycle (λ short. cyclic out d short))
              (λ _ _ _. returns tt))

    new_runs : Ensures (Explains nodes) (λ (g : CausalGraph T). Unit {0}) (new nodes)
    unfolding new
    new_runs =
        Ensures-bind
          (require (not (ltb max_causal_operations (length nodes)))
            (too_many_operations max_causal_operations (length nodes)))
          _
          (Ensures-require (not (ltb max_causal_operations (length nodes)))
            (too_many_operations max_causal_operations (length nodes))
            (λ many. (refl, refl, ground (arith, many))))
          (λ _ _ _.
            Ensures-bind (check_edges (edge_total 0 nodes)) _ (check_edges-Ensures nodes) (λ _ _ _.
              Ensures-bind (index_nodes [] nodes) _
                (index_nodes-Ensures nodes [] (λ P id x. x)
                  (λ id. unfold contains_key Map.get in ground arith))
                (λ by_id indexed _.
                  let s = index_nodes_lem nodes [] by_id indexed in
                  Ensures-bind (check_all_parents by_id nodes) _
                    (check_all_parents-Ensures by_id s nodes (λ P id x. x))
                    (λ _ there _. after_checks by_id s there (drained nodes by_id s)))))

    -- Building a graph never panics and never runs out of fuel: it succeeds, or its error says this of
    -- the nodes: too many nodes or edges, a node whose parents are not strictly sorted, an id that
    -- stands twice, a node that names a parent which is no node, or a cycle (no rank grows along the
    -- links).
    pub new_explained : Ensures (Explains nodes) (λ graph. new nodes ≡ ok graph) (new nodes)
    new_explained = with_equation (new nodes) refl new_runs
      where
        with_equation :
            (r : Outcome CausalError (CausalGraph T))
            → new nodes ≡ r
            → Ensures (Explains nodes) (λ (g : CausalGraph T). Unit {0}) r
            → Ensures (Explains nodes) (λ graph. new nodes ≡ ok graph) r
        with_equation (ok graph) e h = returns e
        with_equation (err x) e (raises q) = raises q
        with_equation fault e h = elim h [ ]
