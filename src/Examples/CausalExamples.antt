-- ===== src/Examples/CausalExamples.antt =====
-- crates/wayjournal-core/src/causal.rs: two branches of one history that meet again.
use wayjournal_build_attesta.Prelude.{
  ℕ, ◌≡◌, ◌↔◌, refl, true, false, List, [], ◌∷◌, mem, ok, err, length, Ensures, nat_ord,
}
use wayjournal_build_attesta.Ids.{RecordId}
use wayjournal_build_attesta.Causal.{
  CausalNode, CausalGraph, cycle, dangling_parent, new, observes, observes_bounded, check_edges,
  edge_total, checked_add, index_nodes, check_all_parents, parent_counts, collect_children,
  initially_ready, drain, index, release, search_ancestors, parents_of, push_child,
}
use wayjournal_build_attesta.Collections.Map
use wayjournal_build_attesta.Collections.Map.{map_values}
use wayjournal_build_attesta.Collections.Set
use wayjournal_build_attesta.Collections.Sort.{sort_by, strictly_sorted}
use wayjournal_build_attesta.Causal.Index.{ids}
use wayjournal_build_attesta.Causal.Ancestry.{Ancestor}
use wayjournal_build_attesta.Causal.Drain.{Topological}
use wayjournal_build_attesta.Causal.Rank.{Grows, new-Topological, new-Grows}
use wayjournal_build_attesta.Causal.Observes.{observes_iff, observes_bounded_iff}
use wayjournal_build_attesta.Causal.Errors.{Explains, new_explained}

abbrev Node : Type 0
Node = RecordId × List RecordId

instance abbrev node_causal : CausalNode Node
node_causal = record { record_id = λ n. n.0; parents = λ n. n.1 }

-- given out of order: 4 joins 2 and 3, which both follow 1
abbrev diamond : List Node
diamond = (4, 2 ∷ 3 ∷ []) ∷ (2, 1 ∷ []) ∷ (1, []) ∷ (3, 1 ∷ []) ∷ []

abbrev diamond_graph : CausalGraph Node
diamond_graph = record {
  ordered = (1, []) ∷ (2, 1 ∷ []) ∷ (3, 1 ∷ []) ∷ (4, 2 ∷ 3 ∷ []) ∷ [];
  by_id = (1, (1, [])) ∷ (2, (2, 1 ∷ [])) ∷ (3, (3, 1 ∷ [])) ∷ (4, (4, 2 ∷ 3 ∷ [])) ∷ [];
}

new-diamond : new diamond ≡ ok diamond_graph
unfolding new check_edges edge_total checked_add index_nodes check_all_parents parent_counts
    collect_children initially_ready drain index release Map.get Map.insert Map.contains_key
    Set.insert sort_by strictly_sorted map_values push_child
new-diamond = refl

new_cycle : new {T = Node} ((1, 2 ∷ []) ∷ (2, 1 ∷ []) ∷ []) ≡ err cycle
unfolding new check_edges edge_total checked_add index_nodes check_all_parents parent_counts
    collect_children initially_ready drain index release Map.get Map.insert Map.contains_key
    Set.insert sort_by strictly_sorted map_values push_child
new_cycle = refl

new_dangling : new {T = Node} ((1, 7 ∷ []) ∷ []) ≡ err (dangling_parent 1 7)
unfolding new check_edges edge_total checked_add index_nodes check_all_parents parent_counts
    collect_children initially_ready drain index release Map.get Map.insert Map.contains_key
    Set.insert sort_by strictly_sorted map_values push_child
new_dangling = refl

-- a search that is cut off says so
cut_off : observes_bounded diamond_graph 4 1 1 false ≡ (false, 0, true)
unfolding observes_bounded search_ancestors parents_of Map.get Set.contains Set.insert
cut_off = refl

new-Topological_example :
    Topological diamond [] diamond_graph.ordered
    × (length diamond_graph.ordered ≡ length diamond)
    × ((id : RecordId) → mem id (ids diamond) ≡ true → mem id (ids diamond_graph.ordered) ≡ true)
new-Topological_example = new-Topological diamond diamond_graph new-diamond

new-Grows_example : (rank : RecordId → ℕ) × Grows diamond rank
new-Grows_example = new-Grows diamond diamond_graph new-diamond

new_explained_example : Ensures (Explains diamond) (λ graph. new diamond ≡ ok graph) (new diamond)
new_explained_example = new_explained diamond

observes_iff_example : (observes diamond_graph 4 1 ≡ true) ↔ Ancestor diamond_graph.by_id 4 1
observes_iff_example = observes_iff diamond diamond_graph new-diamond 4 1

within_three : (observes_bounded diamond_graph 4 1 3 false).2 ≡ false
unfolding observes_bounded search_ancestors parents_of Map.get Set.contains Set.insert
within_three = refl

observes_bounded_iff_example :
    ((observes_bounded diamond_graph 4 1 3 false).0 ≡ true) ↔ Ancestor diamond_graph.by_id 4 1
observes_bounded_iff_example = observes_bounded_iff diamond_graph 4 1 3 within_three
