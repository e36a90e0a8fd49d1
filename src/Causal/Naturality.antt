-- ===== src/Causal/Naturality.antt =====
-- crates/wayjournal-core/src/causal.rs: a graph looks at the ids and the parents of its nodes only.
use wayjournal_build_attesta.Prelude.{
  ℕ, zero, suc, ◌+◌, ◌≡◌, refl, Bool, Option, none, some, List, [], ◌∷◌, ◌++◌, arith, map, nat_ord,
  ◌==◌, if◌then◌else◌, length, length-map, Outcome, ok, err, fault, ◌>>=◌, ◌>>◌, map_ok, require,
  ap, ◌∙◌, not, compare, ltb, reverse, Bool-cases, inl, inr, bind_same, bind_translated,
}
use wayjournal_build_attesta.Ids.{RecordId}
use wayjournal_build_attesta.Collections.Map
use wayjournal_build_attesta.Collections.Map.{Map, map_values, contains_key}
use wayjournal_build_attesta.Collections.Set
use wayjournal_build_attesta.Collections.Sort.{sort_by}
use wayjournal_build_attesta.Causal.{
  CausalNode, CausalGraph, CausalError, too_many_operations, cycle, new, edge_total, checked_add,
  check_edges, index_nodes, check_parents, check_all_parents, parent_counts, collect_children,
  initially_ready, drain, index, release, children_of, push_child, parents_of, search_ancestors,
  observes_bounded, max_causal_operations,
}

-- the value that a lookup finds, mapped
abbrev pub map_option {ℓ κ} : {V : Type ℓ} {W : Type κ} → (V → W) → Option V → Option W
map_option f none = none
map_option f (some v) = some (f v)

-- the end of `CausalGraph::new`, from each of its three intermediate results on
module _ {ℓ} {T : Type ℓ} ⦃c : CausalNode T⦄ where
  abbrev finish : ℕ → Map RecordId T → List T → Outcome CausalError (CausalGraph T)
  finish n by_id ordered =
      require (length ordered == n) cycle >> ok (record { ordered = ordered; by_id = by_id })

  abbrev arrange :
      ℕ
      → Map RecordId T
      → Map RecordId (List RecordId)
      → Map RecordId ℕ
      → Outcome CausalError (CausalGraph T)
  arrange n by_id children indegree =
      drain by_id children n (initially_ready indegree) indegree >>= finish n by_id

  abbrev connect : ℕ → List T → Map RecordId T → Outcome CausalError (CausalGraph T)
  connect n nodes by_id =
      check_all_parents by_id nodes
      >> arrange n by_id (map_values (sort_by compare) (collect_children nodes []))
          (parent_counts by_id)

module _ {ℓ κ} {T : Type ℓ} {U : Type κ} ⦃c : CausalNode T⦄ ⦃d : CausalNode U⦄ (f : T → U)
    (same_id : (x : T) → d.record_id (f x) ≡ c.record_id x)
    (same_parents : (x : T) → d.parents (f x) ≡ c.parents x) where
  get-map :
      (id : RecordId) (m : Map RecordId T)
      → Map.get id (map_values f m) ≡ map_option f (Map.get id m)
  unfolding Map.get map_values
  get-map id [] = refl
  get-map id ((j, x) ∷ m) = ground (arith, get-map id m)

  contains_key-map :
      (id : RecordId) (m : Map RecordId T) → contains_key id (map_values f m) ≡ contains_key id m
  unfolding contains_key
  contains_key-map id m = ground (arith, get-map id m)

  insert-map :
      (id : RecordId) (x : T) (m : Map RecordId T)
      → Map.insert id (f x) (map_values f m) ≡ map_values f (Map.insert id x m)
  unfolding Map.insert map_values
  insert-map id x [] = refl
  insert-map id x ((j, y) ∷ m) = ground (arith, insert-map id x m)

  edge_total-map :
      (total : ℕ) (nodes : List T) → edge_total total (map f nodes) ≡ edge_total total nodes
  unfolding edge_total checked_add
  edge_total-map total [] = refl
  edge_total-map total (x ∷ nodes) =
      ground (arith, same_parents x, edge_total-map (total + length (c.parents x)) nodes)

  index_nodes-map :
      (m : Map RecordId T) (nodes : List T)
      → index_nodes (map_values f m) (map f nodes) ≡ map_ok (map_values f) (index_nodes m nodes)
  unfolding index_nodes
  index_nodes-map m [] = refl
  index_nodes-map m (x ∷ nodes) =
      rw (same_id x, same_parents x, contains_key-map, insert-map)
        (ground (arith, index_nodes-map (Map.insert (c.record_id x) x m) nodes))

  check_parents-map :
      (m : Map RecordId T) (id : RecordId) (ps : List RecordId)
      → check_parents (map_values f m) id ps ≡ check_parents m id ps
  unfolding check_parents
  check_parents-map m id [] = refl
  check_parents-map m id (p ∷ ps) = ground (arith, contains_key-map p m, check_parents-map m id ps)

  check_all_parents-map :
      (m : Map RecordId T) (nodes : List T)
      → check_all_parents (map_values f m) (map f nodes) ≡ check_all_parents m nodes
  unfolding check_all_parents
  check_all_parents-map m [] = refl
  check_all_parents-map m (x ∷ nodes) =
      rw (same_id x, same_parents x, check_parents-map)
        (ground (arith, check_all_parents-map m nodes))

  parent_counts-map : (m : Map RecordId T) → parent_counts (map_values f m) ≡ parent_counts m
  unfolding parent_counts
  parent_counts-map [] = refl
  parent_counts-map ((j, x) ∷ m) = ground (arith, parent_counts-map m, same_parents x)

  collect_children-map :
      (nodes : List T) (m : Map RecordId (List RecordId))
      → collect_children (map f nodes) m ≡ collect_children nodes m
  unfolding collect_children
  collect_children-map [] m = refl
  collect_children-map (x ∷ nodes) m =
      collect_children-map nodes (push_child (d.record_id (f x)) (d.parents (f x)) m)
      ∙ ap (λ id. collect_children nodes (push_child id (d.parents (f x)) m)) (same_id x)
      ∙ ap (λ ps. collect_children nodes (push_child (c.record_id x) ps m)) (same_parents x)

  index-map :
      (id : RecordId) (m : Map RecordId T) → index id (map_values f m) ≡ map_ok f (index id m)
  unfolding index
  index-map id m = ground (arith, get-map id m)

  place-map :
      (x : T) (rest : Outcome CausalError (List T)) (rest' : Outcome CausalError (List U))
      → rest' ≡ map_ok (map f) rest
      → (rest' >>= λ ys. ok (f x ∷ ys)) ≡ map_ok (map f) (rest >>= λ ys. ok (x ∷ ys))
  place-map x (ok ys) rest' e = rw e
  place-map x (err z) rest' e = rw e
  place-map x fault rest' e = rw e

  round-map :
      (m : Map RecordId T) (children : Map RecordId (List RecordId)) (fuel : ℕ)
      (node : Outcome CausalError T)
      (released : Outcome CausalError (List RecordId × Map RecordId ℕ))
      → ((ready : List RecordId) (indegree : Map RecordId ℕ)
          → drain (map_values f m) children fuel ready indegree
            ≡ map_ok (map f) (drain m children fuel ready indegree))
      → (map_ok f node >>= λ y.
          released >>= λ (q, i). drain (map_values f m) children fuel q i >>= λ ys. ok (y ∷ ys))
        ≡ map_ok
            (map f)
            (node >>= λ y. released >>= λ (q, i). drain m children fuel q i >>= λ ys. ok (y ∷ ys))
  round-map m children fuel (ok x) (ok (q, i)) ih =
      place-map x (drain m children fuel q i) (drain (map_values f m) children fuel q i) (ih q i)
  round-map m children fuel (ok x) (err z) ih = refl
  round-map m children fuel (ok x) fault ih = refl
  round-map m children fuel (err z) released ih = refl
  round-map m children fuel fault released ih = refl

  drain-map :
      (m : Map RecordId T) (children : Map RecordId (List RecordId)) (fuel : ℕ)
      (ready : List RecordId) (indegree : Map RecordId ℕ)
      → drain (map_values f m) children fuel ready indegree
        ≡ map_ok (map f) (drain m children fuel ready indegree)
  unfolding drain
  drain-map m children fuel [] indegree = refl
  drain-map m children zero (id ∷ ready) indegree = refl
  drain-map m children (suc fuel) (id ∷ ready) indegree = rw index-map (
      round-map m children fuel (index id m) (release (children_of id children) ready indegree)
        (drain-map m children fuel))

  parents_of-map :
      (id : RecordId) (m : Map RecordId T) → parents_of id (map_values f m) ≡ parents_of id m
  unfolding parents_of
  parents_of-map id m = go (Map.get id m) refl
    where
      go : (o : Option T) → Map.get id m ≡ o → parents_of id (map_values f m) ≡ parents_of id m
      go none e = ground (arith, get-map id m, e)
      go (some x) e = ground (arith, get-map id m, e, same_parents x)

  search_ancestors-map :
      (m : Map RecordId T) (candidate : RecordId) (budget : ℕ) (pending visited : List RecordId)
      (exceeded : Bool)
      → search_ancestors (map_values f m) candidate budget pending visited exceeded
        ≡ search_ancestors m candidate budget pending visited exceeded
  unfolding search_ancestors
  search_ancestors-map m candidate budget [] visited exceeded = refl
  search_ancestors-map m candidate zero (current ∷ pending) visited exceeded = refl
  search_ancestors-map m candidate (suc budget) (current ∷ pending) visited exceeded =
      elim (Bool-cases (current == candidate)) [
        | inl same ↦ rw (same, search_ancestors)
        | inr other ↦
            rw (other, search_ancestors)
              (search_ancestors-map m candidate budget
                  (if Set.contains current visited
                    then pending
                    else reverse (parents_of current (map_values f m)) ++ pending)
                  (Set.insert current visited) exceeded
                ∙ ap
                    (λ ps.
                      search_ancestors m candidate budget
                        (if Set.contains current visited then pending else reverse ps ++ pending)
                        (Set.insert current visited) exceeded)
                    (parents_of-map current m))
      ]

  -- the graph of the mapped nodes
  abbrev pub map_graph : CausalGraph T → CausalGraph U
  map_graph graph = record { ordered = map f graph.ordered; by_id = map_values f graph.by_id }

  pub observes_bounded-map :
      (graph : CausalGraph T) (observer candidate : RecordId) (budget : ℕ) (exceeded : Bool)
      → observes_bounded (map_graph graph) observer candidate budget exceeded
        ≡ observes_bounded graph observer candidate budget exceeded
  unfolding observes_bounded
  observes_bounded-map graph observer candidate budget exceeded =
      rw (parents_of-map observer graph.by_id) (
        search_ancestors-map graph.by_id candidate budget
          (reverse (parents_of observer graph.by_id)) [] exceeded)

  finish-map :
      (n : ℕ) (by_id : Map RecordId T) (ordered : List T)
      → finish n (map_values f by_id) (map f ordered) ≡ map_ok map_graph (finish n by_id ordered)
  finish-map n by_id ordered =
      ap
        (λ l.
          require (l == n) cycle >> ok (map_graph (record { ordered = ordered; by_id = by_id })))
        (length-map f ordered)
      ∙ bind_same map_graph (require (length ordered == n) cycle)
          (λ _. ok (map_graph (record { ordered = ordered; by_id = by_id })))
          (λ _. ok (record { ordered = ordered; by_id = by_id })) (λ _. refl)

  arrange-map :
      (n : ℕ) (by_id : Map RecordId T) (children : Map RecordId (List RecordId))
      (indegree : Map RecordId ℕ)
      → arrange n (map_values f by_id) children indegree
        ≡ map_ok map_graph (arrange n by_id children indegree)
  arrange-map n by_id children indegree =
      ap (λ m. m >>= finish n (map_values f by_id))
        (drain-map by_id children n (initially_ready indegree) indegree)
      ∙ bind_translated map_graph (drain by_id children n (initially_ready indegree) indegree)
          (map f) (finish n (map_values f by_id)) (finish n by_id) (finish-map n by_id)

  connect-map :
      (n : ℕ) (nodes : List T) (by_id : Map RecordId T)
      → connect n (map f nodes) (map_values f by_id) ≡ map_ok map_graph (connect n nodes by_id)
  connect-map n nodes by_id =
      rw (check_all_parents-map by_id nodes, parent_counts-map by_id, collect_children-map nodes [])
        (bind_same map_graph (check_all_parents by_id nodes)
          (λ _.
            arrange n (map_values f by_id)
              (map_values (sort_by compare) (collect_children nodes [])) (parent_counts by_id))
          (λ _.
            arrange n by_id (map_values (sort_by compare) (collect_children nodes []))
              (parent_counts by_id))
          (λ _.
            arrange-map n by_id (map_values (sort_by compare) (collect_children nodes []))
              (parent_counts by_id)))

  build-map :
      (n : ℕ) (nodes : List T)
      → (index_nodes [] (map f nodes) >>= connect n (map f nodes))
        ≡ map_ok map_graph (index_nodes [] nodes >>= connect n nodes)
  unfolding map_values
  build-map n nodes =
      ap (λ m. m >>= connect n (map f nodes)) (index_nodes-map [] nodes)
      ∙ bind_translated map_graph (index_nodes [] nodes) (map_values f) (connect n (map f nodes))
          (connect n nodes) (connect-map n nodes)

  checked-map :
      (n : ℕ) (edges : Option ℕ) (nodes : List T)
      → (require (not (ltb max_causal_operations n)) (too_many_operations max_causal_operations n)
          >> (check_edges edges >> (index_nodes [] (map f nodes) >>= connect n (map f nodes))))
        ≡ map_ok map_graph (
            require
              (not (ltb max_causal_operations n))
              (too_many_operations max_causal_operations n)
            >> (check_edges edges >> (index_nodes [] nodes >>= connect n nodes)))
  checked-map n edges nodes =
      bind_same map_graph
        (require (not (ltb max_causal_operations n)) (too_many_operations max_causal_operations n))
        (λ _. check_edges edges >> (index_nodes [] (map f nodes) >>= connect n (map f nodes)))
        (λ _. check_edges edges >> (index_nodes [] nodes >>= connect n nodes))
        (λ _.
          bind_same map_graph (check_edges edges)
            (λ _. index_nodes [] (map f nodes) >>= connect n (map f nodes))
            (λ _. index_nodes [] nodes >>= connect n nodes) (λ _. build-map n nodes))

  -- A graph of mapped nodes is the mapped graph, and its errors are the same.
  pub new-map : (nodes : List T) → new (map f nodes) ≡ map_ok map_graph (new nodes)
  unfolding new
  new-map nodes =
      rw (length-map f nodes, edge_total-map 0 nodes)
        (checked-map (length nodes) (edge_total 0 nodes) nodes)
