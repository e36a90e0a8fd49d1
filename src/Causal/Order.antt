-- ===== src/Causal/Order.antt =====
-- crates/wayjournal-core/src/causal.rs: `CausalGraph::new`, on every branch.
use wayjournal_build_attesta.Prelude.{
  ℕ, ◌+◌, ◌≤◌, ◌≡◌, refl, true, not, Option, none, some, List, [], ◌∷◌, arith, mem, Distinct,
  nat_ord, ◌==◌, length, ok, require, ok_parts, subst, compare, ltb, Bool-cases, inl, inr,
}
use wayjournal_build_attesta.Ids.{RecordId}
use wayjournal_build_attesta.Collections.Map.{Map, map_values, contains_key}
use wayjournal_build_attesta.Collections.Sort.{sort_by, strictly_sorted-Distinct}
use wayjournal_build_attesta.Causal.{
  CausalNode, CausalGraph, new, edge_total, checked_add, check_edges, index_nodes,
  check_all_parents, parent_counts, collect_children, initially_ready, drain, max_causal_edges,
  max_causal_operations,
}
use wayjournal_build_attesta.Causal.Index.{
  node_of, IsIndex, AllSorted, index_nodes_lem, check_all_parents_lem, require-eq-ok, edge_count,
}
use wayjournal_build_attesta.Causal.Children.{
  sorted_children, mem-children_of, Distinct-children_of,
}
use wayjournal_build_attesta.Causal.Waiting.{left-none}
use wayjournal_build_attesta.Causal.Drain.{IsDrained, drain_lem}
use wayjournal_build_attesta.Causal.Start.{get-by_id, start-IsWaiting}

module _ {ℓ} {T : Type ℓ} ⦃c : CausalNode T⦄ where
  own_id :
      (nodes : List T) (id : RecordId) (node : T)
      → node_of id nodes ≡ some node
      → c.record_id node ≡ id
  own_id [] id node e = cc
  own_id (first ∷ nodes) id node e = ground (arith, own_id nodes id node)

  sorted_parents :
      (nodes : List T)
      → AllSorted nodes
      → (id : RecordId) (node : T) → node_of id nodes ≡ some node
      → Distinct (c.parents node)
  sorted_parents [] h id node e = cc
  sorted_parents (first ∷ nodes) h id node e = elim (Bool-cases (c.record_id first == id)) [
    | inl same ↦
        let here : first ≡ node = ground arith in
        subst (λ n. Distinct (c.parents n)) here (strictly_sorted-Distinct (c.parents first) h.0)
    | inr other ↦ sorted_parents nodes h.1 id node (ground arith)
  ]

  -- After the checks, the loop runs to its end.
  abbrev pub Drained : List T → Map RecordId T → Type ℓ
  Drained nodes by_id =
      (out : List T) × (drain by_id (map_values (sort_by compare) (collect_children nodes []))
          (length nodes) (initially_ready (parent_counts by_id)) (parent_counts by_id)
        ≡ ok out)
      × IsDrained nodes [] out

  pub drained :
      (nodes : List T) (by_id : Map RecordId T) → IsIndex [] nodes by_id → Drained nodes by_id
  drained nodes by_id s =
      drain_lem nodes (sorted_children nodes s.sorted s.distinct)
        (mem-children_of nodes s.sorted s.distinct) (Distinct-children_of nodes s.sorted s.distinct)
        (sorted_parents nodes s.sorted) by_id (get-by_id nodes by_id s) s.distinct (own_id nodes)
        (length nodes) [] (initially_ready (parent_counts by_id)) (parent_counts by_id)
        (omega (arith, left-none nodes)) (start-IsWaiting nodes by_id s)

  -- What a successful construction has established.
  pub record IsBuilt (nodes : List T) (graph : CausalGraph T) : Type ℓ where
    pub indexed : IsIndex [] nodes graph.by_id
    pub parents_there :
        (id : RecordId) (node : T) (p : RecordId)
        → node_of id nodes ≡ some node
        → mem p (c.parents node) ≡ true
        → contains_key p graph.by_id ≡ true
    pub drains : IsDrained nodes [] graph.ordered
    pub complete : length graph.ordered ≡ length nodes
    pub edge_bound : edge_count nodes ≤ max_causal_edges

  pub edge_total_lem :
      (total : ℕ) (nodes : List T) (n : ℕ)
      → edge_total total nodes ≡ some n
      → n ≡ total + edge_count nodes
  unfolding edge_total checked_add
  edge_total_lem total [] n h = ground arith
  edge_total_lem total (node ∷ nodes) n h =
      ground (arith, edge_total_lem (total + length (c.parents node)) nodes n)

  check_edges_lem :
      (nodes : List T) {u : Unit {0}}
      → check_edges (edge_total 0 nodes) ≡ ok u
      → edge_count nodes ≤ max_causal_edges
  unfolding check_edges
  check_edges_lem nodes h = go (edge_total 0 nodes) refl
    where
      go : (o : Option ℕ) → edge_total 0 nodes ≡ o → edge_count nodes ≤ max_causal_edges
      go none e = absurd (ground (arith, h, e))
      go (some n) e = ground (arith, edge_total_lem 0 nodes n e, h, e)

  pub new-IsBuilt :
      (nodes : List T) (graph : CausalGraph T) → new nodes ≡ ok graph → IsBuilt nodes graph
  unfolding new
  new-IsBuilt nodes graph h =
      let (_, _, h1) = ok_parts (require (not (ltb max_causal_operations (length nodes))) _) _ h in
      let (_, edges, h2) = ok_parts (check_edges (edge_total 0 nodes)) _ h1 in
      let (by_id, indexed, h3) = ok_parts (index_nodes [] nodes) _ h2 in
      let (_, there, h4) = ok_parts (check_all_parents by_id nodes) _ h3 in
      let s = index_nodes_lem nodes [] by_id indexed in
      let (out, runs, d) = drained nodes by_id s in
      let (out', runs', h5) = ok_parts (drain by_id _ _ _ _) _ h4 in
      let (_, full, last) = ok_parts (require (length out' == length nodes) _) _ h5 in
      let same : out ≡ out' = cc in
      let built : record { ordered = out'; by_id = by_id } ≡ graph = cc in
      subst (IsBuilt nodes) built (record {
        indexed = s;
        parents_there = check_all_parents_lem by_id nodes there;
        drains = subst (IsDrained nodes []) same d;
        complete = ground (arith, require-eq-ok _ _ full);
        edge_bound = check_edges_lem nodes edges;
      })
