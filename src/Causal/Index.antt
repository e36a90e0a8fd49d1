-- ===== src/Causal/Index.antt =====
-- crates/wayjournal-core/src/causal.rs: what the checks of `CausalGraph::new` establish.
use wayjournal_build_attesta.Prelude.{
  ℕ, suc, ◌+◌, ◌≡◌, refl, Bool, true, false, ◌||◌, not, Option, none, some, List, [], ◌∷◌, arith,
  mem, Distinct, nat_ord, ◌==◌, if◌then◌else◌, ok, require, length, All, map, ok_parts, subst,
}
use wayjournal_build_attesta.Ids.{RecordId}
use wayjournal_build_attesta.Collections.Map
use wayjournal_build_attesta.Collections.Map.{Map, contains_key, get-insert}
use wayjournal_build_attesta.Collections.Sort.{strictly_sorted}
use wayjournal_build_attesta.Causal.{CausalNode, index_nodes, check_parents, check_all_parents}
use wayjournal_build_attesta.Causal.Completeness.{open_edges}

pub require-eq-ok {ℓ} :
    {E : Type ℓ} (b : Bool) (e : E) {u : Unit {0}} → require b e ≡ ok u → b ≡ true
require-eq-ok true e h = refl
require-eq-ok false e h = cc

module _ {ℓ} {T : Type ℓ} ⦃c : CausalNode T⦄ where
  abbrev pub ids : List T → List RecordId
  ids nodes = map c.record_id nodes

  -- the first node with an id
  abbrev pub node_of : RecordId → List T → Option T
  node_of id [] = none
  node_of id (node ∷ nodes) = if c.record_id node == id then some node else node_of id nodes

  abbrev pub or_else : Option T → Option T → Option T
  or_else none other = other
  or_else (some node) other = some node

  -- the parent links of a list of nodes
  abbrev pub edge_count : List T → ℕ
  edge_count [] = 0
  edge_count (node ∷ nodes) = length (c.parents node) + edge_count nodes

  abbrev pub AllSorted : List T → Type 0
  AllSorted nodes = All (λ node. strictly_sorted (c.parents node) ≡ true) nodes

  -- `by_id` holds the nodes that it held, and those that were read.
  pub record IsIndex (before : Map RecordId T) (nodes : List T) (by_id : Map RecordId T)
      : Type ℓ where
    pub at_id : (id : RecordId) → Map.get id by_id ≡ or_else (Map.get id before) (node_of id nodes)
    pub fresh : (id : RecordId) → mem id (ids nodes) ≡ true → Map.get id before ≡ none
    pub distinct : Distinct (ids nodes)
    pub sorted : AllSorted nodes
    pub unique : Distinct (Map.keys before) → Distinct (Map.keys by_id)
    pub size : length by_id ≡ length before + length nodes
    pub edges : open_edges by_id [] ≡ open_edges before [] + edge_count nodes

  length-insert :
      (id : RecordId) (node : T) (m : Map RecordId T)
      → Map.get id m ≡ none
      → length (Map.insert id node m) ≡ suc (length m)
  unfolding Map.get Map.insert
  length-insert id node [] e = refl
  length-insert id node ((j, other) ∷ m) e = ground (arith, length-insert id node m)

  mem-keys-insert :
      (id j : RecordId) (node : T) (m : Map RecordId T)
      → mem j (Map.keys (Map.insert id node m)) ≡ ((j == id) || mem j (Map.keys m))
  unfolding Map.insert
  mem-keys-insert id j node [] = refl
  mem-keys-insert id j node ((k, other) ∷ m) = ground (arith, mem-keys-insert id j node m)

  not-mem-keys :
      (id : RecordId) (m : Map RecordId T) → Map.get id m ≡ none → mem id (Map.keys m) ≡ false
  unfolding Map.get
  not-mem-keys id [] e = refl
  not-mem-keys id ((j, other) ∷ m) e = ground (arith, not-mem-keys id m)

  Distinct-insert :
      (id : RecordId) (node : T) (m : Map RecordId T)
      → Map.get id m ≡ none
      → Distinct (Map.keys m)
      → Distinct (Map.keys (Map.insert id node m))
  unfolding Map.get Map.insert
  Distinct-insert id node [] e d = (refl, tt)
  Distinct-insert id node ((j, other) ∷ m) e d =
      ground (arith, Distinct-insert id node m, not-mem-keys id m, mem-keys-insert id j node m)

  open_edges-insert :
      (id : RecordId) (node : T) (m : Map RecordId T)
      → Map.get id m ≡ none
      → open_edges (Map.insert id node m) [] ≡ length (c.parents node) + open_edges m []
  unfolding Map.get Map.insert open_edges
  open_edges-insert id node [] e = refl
  open_edges-insert id node ((j, other) ∷ m) e = ground (arith, open_edges-insert id node m)

  node_of-none :
      (id : RecordId) (nodes : List T) → mem id (ids nodes) ≡ false → node_of id nodes ≡ none
  node_of-none id [] h = refl
  node_of-none id (node ∷ nodes) h = ground (arith, node_of-none id nodes)

  module _ (node : T) (nodes : List T) (before by_id : Map RecordId T)
      (sorted_parents : strictly_sorted (c.parents node) ≡ true)
      (absent : Map.get (c.record_id node) before ≡ none) where
    step-IsIndex :
        IsIndex (Map.insert (c.record_id node) node before) nodes by_id
        → IsIndex before (node ∷ nodes) by_id
    step-IsIndex s = record {
      at_id =
          λ id. ground (arith, s.at_id id, get-insert (c.record_id node) id node before, absent);
      fresh =
          λ id m. ground (arith, s.fresh id, get-insert (c.record_id node) id node before, absent);
      distinct = (
        ground (
          arith,
          s.fresh (c.record_id node),
          get-insert (c.record_id node) (c.record_id node) node before,
        ),
        s.distinct,
      );
      sorted = (sorted_parents, s.sorted);
      unique = λ d. s.unique (Distinct-insert (c.record_id node) node before absent d);
      size = omega (arith, s.size, length-insert (c.record_id node) node before absent);
      edges = omega (arith, s.edges, open_edges-insert (c.record_id node) node before absent);
    }

  empty-IsIndex : (m : Map RecordId T) → IsIndex m [] m
  empty-IsIndex m = record {
    at_id = λ id. ground arith;
    fresh = λ id h. cc;
    distinct = tt;
    sorted = tt;
    unique = λ d. d;
    size = omega arith;
    edges = omega arith;
  }

  pub index_nodes_lem :
      (nodes : List T) (before by_id : Map RecordId T)
      → index_nodes before nodes ≡ ok by_id
      → IsIndex before nodes by_id
  unfolding index_nodes
  index_nodes_lem [] before by_id h =
      let e : before ≡ by_id = cc in subst (IsIndex before []) e (empty-IsIndex before)
  index_nodes_lem (node ∷ nodes) before by_id h =
      let (u, sorted, h') = ok_parts (require (strictly_sorted (c.parents node)) _) _ h in
      let (v, new, rest) =
        ok_parts (require (not (contains_key (c.record_id node) before)) _) _ h' in
      step-IsIndex node nodes before by_id (require-eq-ok _ _ sorted)
        (unfold contains_key in ground (arith, require-eq-ok _ _ new))
        (index_nodes_lem nodes (Map.insert (c.record_id node) node before) by_id rest)

  -- Every parent that the checks looked up is the id of a node.
  check_parents_lem :
      (by_id : Map RecordId T) (id : RecordId) (ps : List RecordId) {u : Unit {0}}
      → check_parents by_id id ps ≡ ok u
      → (p : RecordId) → mem p ps ≡ true
      → contains_key p by_id ≡ true
  unfolding check_parents
  check_parents_lem by_id id [] h p m = cc
  check_parents_lem by_id id (q ∷ ps) h p m =
      let (v, there, rest) = ok_parts (require (contains_key q by_id) _) _ h in
      ground (arith, require-eq-ok _ _ there, check_parents_lem by_id id ps rest p)

  pub check_all_parents_lem :
      (by_id : Map RecordId T) (nodes : List T) {u : Unit {0}}
      → check_all_parents by_id nodes ≡ ok u
      → (id : RecordId) (node : T) (p : RecordId) → node_of id nodes ≡ some node
      → mem p (c.parents node) ≡ true
      → contains_key p by_id ≡ true
  unfolding check_all_parents
  check_all_parents_lem by_id [] h id node p e m = cc
  check_all_parents_lem by_id (first ∷ nodes) h id node p e m =
      let (v, these, rest) =
        ok_parts (check_parents by_id (c.record_id first) (c.parents first)) _ h in
      ground (
        arith,
        check_parents_lem by_id (c.record_id first) (c.parents first) these p,
        check_all_parents_lem by_id nodes rest id node p,
      )
