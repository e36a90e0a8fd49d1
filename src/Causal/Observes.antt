-- ===== src/Causal/Observes.antt =====
-- crates/wayjournal-core/src/causal.rs: `observes` on a graph that was built.
use wayjournal_build_attesta.Prelude.{
  ℕ, ◌*◌, ◌≤◌, ◌≡◌, ◌↔◌, true, false, List, [], ◌∷◌, arith, length, ok, reverse, nat_ord,
}
use wayjournal_build_attesta.Ids.{RecordId}
use wayjournal_build_attesta.Collections.Map
use wayjournal_build_attesta.Collections.Map.{Map}
use wayjournal_build_attesta.Causal.{
  CausalNode, CausalGraph, new, observes, observes_bounded, parents_of, max_reachability_steps,
  max_causal_edges,
}
use wayjournal_build_attesta.Causal.Ancestry.{Ancestor, search_sound, mem-reverse, length-reverse}
use wayjournal_build_attesta.Causal.Completeness.{
  IsSearch, search_complete, search_within_budget, open_edges,
}
use wayjournal_build_attesta.Causal.Order.{new-IsBuilt}

module _ {ℓ} {T : Type ℓ} ⦃c : CausalNode T⦄ where
  start-IsSearch :
      (by_id : Map RecordId T) (observer candidate : RecordId)
      → IsSearch by_id observer candidate (reverse (parents_of observer by_id)) []
  start-IsSearch by_id observer candidate = record {
    missed = λ a m. cc;
    closed = λ v a m p. cc;
    started = λ a p. ground (arith, mem-reverse a (parents_of observer by_id));
  }

  -- Unless it exceeds its budget, a search answers `true` exactly for the ancestors of the observer.
  pub observes_bounded_iff :
      (graph : CausalGraph T) (observer candidate : RecordId) (budget : ℕ)
      → (observes_bounded graph observer candidate budget false).2 ≡ false
      → ((observes_bounded graph observer candidate budget false).0 ≡ true)
        ↔ Ancestor graph.by_id observer candidate
  unfolding observes_bounded
  observes_bounded_iff graph observer candidate budget within = (
    λ found.
        search_sound graph.by_id observer candidate budget
          (reverse (parents_of observer graph.by_id)) [] false
          (λ a m. Ancestor.parent (ground (arith, mem-reverse a (parents_of observer graph.by_id))))
          found,
    λ h.
        search_complete graph.by_id observer candidate budget
          (reverse (parents_of observer graph.by_id)) []
          (start-IsSearch graph.by_id observer candidate) h within,
  )

  parents_of-le-open_edges :
      (id : RecordId) (m : Map RecordId T) → length (parents_of id m) ≤ open_edges m []
  unfolding parents_of Map.get open_edges
  parents_of-le-open_edges id [] = omega arith
  parents_of-le-open_edges id ((j, node) ∷ m) = ground (arith, parents_of-le-open_edges id m)

  module _ (nodes : List T) (graph : CausalGraph T) (built : new nodes ≡ ok graph) where
    open_edges-le : open_edges graph.by_id [] ≤ max_causal_edges
    unfolding open_edges
    open_edges-le =
        let b = new-IsBuilt nodes graph built in omega (arith, b.indexed.edges, b.edge_bound)

    -- The edge bound of a graph that was built keeps one search far below a million steps.
    observes_within :
        (observer candidate : RecordId) (budget : ℕ)
        → 2 * max_causal_edges ≤ budget
        → (observes_bounded graph observer candidate budget false).2 ≡ false
    unfolding observes_bounded
    observes_within observer candidate budget h =
        search_within_budget graph.by_id candidate budget
          (reverse (parents_of observer graph.by_id)) [] false
          (omega (
            arith,
            open_edges-le,
            parents_of-le-open_edges observer graph.by_id,
            length-reverse (parents_of observer graph.by_id),
          ))

    -- In a graph that was built, `observes` holds exactly where the candidate is an ancestor of the
    -- observer: its million steps are never used up.
    pub observes_iff :
        (observer candidate : RecordId)
        → (observes graph observer candidate ≡ true) ↔ Ancestor graph.by_id observer candidate
    unfolding observes
    observes_iff observer candidate =
        observes_bounded_iff graph observer candidate max_reachability_steps
          (observes_within observer candidate max_reachability_steps (omega arith))
