-- ===== src/Causal.antt =====
-- crates/wayjournal-core/src/causal.rs: the causal graph of a set of operations.
-- `drain` is the `while` loop of `CausalGraph::new`, on fuel; `release` is its inner loop.
pub mod Ancestry
pub mod Completeness
pub mod Index
pub mod Children
pub mod Release
pub mod Waiting
pub mod Drain
pub mod Start
pub mod Order
pub mod Rank
pub mod Observes
pub mod Errors
pub mod Naturality
use Prim.Native.Nat.{◌+◌}
use wayjournal_build_attesta.Prelude.{
  ℕ, zero, suc, ◌-◌, ◌^◌, ◌≡◌, Bool, true, false, not, ◌&&◌, Option, none, some, List, [], ◌∷◌,
  ◌++◌, ltb, ◌==◌, if◌then◌else◌, length, is_some, Outcome, ok, err, fault, ◌>>=◌, ◌>>◌, require,
  reverse, compare, nat_ord,
}
use wayjournal_build_attesta.Ids.{RecordId}
use wayjournal_build_attesta.Collections.Map
use wayjournal_build_attesta.Collections.Map.{Map, map_values, contains_key}
use wayjournal_build_attesta.Collections.Set
use wayjournal_build_attesta.Collections.Sort.{sort_by, strictly_sorted}

-- `trait CausalNode`
pub record CausalNode {ℓ} (T : Type ℓ) : Type ℓ where
  pub record_id : T → RecordId
  pub parents : T → List RecordId

pub data CausalError : Type 0 where
  too_many_operations : ℕ → ℕ → CausalError
  too_many_edges : ℕ → ℕ → CausalError
  invalid_parents : RecordId → CausalError
  duplicate_record_id : RecordId → CausalError
  dangling_parent : RecordId → RecordId → CausalError
  reachability_budget : ℕ → CausalError
  cycle : CausalError

abbrev pub max_causal_operations : ℕ
max_causal_operations = 4096

abbrev pub max_causal_edges : ℕ
max_causal_edges = 65536

abbrev pub max_reachability_steps : ℕ
max_reachability_steps = 1000000

abbrev pub usize_max : ℕ
usize_max = 2 ^ 64 - 1

-- `struct CausalGraph`
pub record CausalGraph {ℓ} (T : Type ℓ) : Type ℓ where
  pub ordered : List T
  pub by_id : Map RecordId T

-- `total.checked_add(node.parents().len())`
unfoldable pub checked_add : ℕ → ℕ → Option ℕ
checked_add a b = if ltb usize_max (a + b) then none else some (a + b)

-- `edges.is_none_or(..)` is an error, which shows `edges.unwrap_or(usize::MAX)`
unfoldable pub check_edges : Option ℕ → Outcome CausalError (Unit {0})
check_edges none = err (too_many_edges max_causal_edges usize_max)
check_edges (some edges) =
    require (not (ltb max_causal_edges edges)) (too_many_edges max_causal_edges edges)

-- `children.get(id)`, where an id with no entry has no children
unfoldable pub children_of : RecordId → Map RecordId (List RecordId) → List RecordId
children_of id children = elim (Map.get id children) [ none ↦ [] | some kids ↦ kids ]

-- `children.entry(*parent).or_default().push(child)`, for each parent of a node
unfoldable pub push_child :
    RecordId → List RecordId → Map RecordId (List RecordId) → Map RecordId (List RecordId)
unfolding children_of
push_child child [] children = children
push_child child (parent ∷ rest) children =
    push_child child rest (Map.insert parent (children_of parent children ++ child ∷ []) children)

-- the ids whose count is zero
unfoldable pub initially_ready : Map RecordId ℕ → List RecordId
initially_ready [] = []
initially_ready ((id, degree) ∷ rest) =
    let more = initially_ready rest in if degree == 0 then Set.insert id more else more

-- `for child in values`: a child's count falls by one, and a child with none left is ready.
-- `*degree -= 1` at 0 is a panic.
unfoldable pub release :
    List RecordId
    → List RecordId
    → Map RecordId ℕ
    → Outcome CausalError (List RecordId × Map RecordId ℕ)
release [] ready indegree = ok (ready, indegree)
release (child ∷ rest) ready indegree = elim (Map.get child indegree) [
  | none ↦ release rest ready indegree
  | some zero ↦ fault
  | some (suc left) ↦
      release rest (if left == 0 then Set.insert child ready else ready)
        (Map.insert child left indegree)
]

module _ {ℓ} {T : Type ℓ} ⦃c : CausalNode T⦄ where
  unfoldable pub edge_total : ℕ → List T → Option ℕ
  unfolding checked_add
  edge_total total [] = some total
  edge_total total (node ∷ nodes) = elim (checked_add total (length (c.parents node))) [
    | none ↦ none
    | some more ↦ edge_total more nodes
  ]

  -- the loop that fills `by_id`
  unfoldable pub index_nodes : Map RecordId T → List T → Outcome CausalError (Map RecordId T)
  index_nodes by_id [] = ok by_id
  index_nodes by_id (node ∷ nodes) = do
    require (strictly_sorted (c.parents node)) (invalid_parents (c.record_id node))
    require (not (contains_key (c.record_id node) by_id)) (duplicate_record_id (c.record_id node))
    index_nodes (Map.insert (c.record_id node) node by_id) nodes

  -- the two loops that look each parent up
  unfoldable pub check_parents :
      Map RecordId T → RecordId → List RecordId → Outcome CausalError (Unit {0})
  check_parents by_id id [] = ok tt
  check_parents by_id id (parent ∷ rest) = do
    require (contains_key parent by_id) (dangling_parent id parent)
    check_parents by_id id rest

  unfoldable pub check_all_parents : Map RecordId T → List T → Outcome CausalError (Unit {0})
  unfolding check_parents
  check_all_parents by_id [] = ok tt
  check_all_parents by_id (node ∷ nodes) = do
    check_parents by_id (c.record_id node) (c.parents node)
    check_all_parents by_id nodes

  unfoldable pub parent_counts : Map RecordId T → Map RecordId ℕ
  unfolding map_values
  parent_counts by_id = map_values (λ node. length (c.parents node)) by_id

  unfoldable pub collect_children :
      List T → Map RecordId (List RecordId) → Map RecordId (List RecordId)
  unfolding push_child
  collect_children [] children = children
  collect_children (node ∷ nodes) children =
      collect_children nodes (push_child (c.record_id node) (c.parents node) children)

  -- `by_id[&id]`
  unfoldable pub index : RecordId → Map RecordId T → Outcome CausalError T
  index id by_id = elim (Map.get id by_id) [ none ↦ fault | some node ↦ ok node ]

  -- `while let Some(id) = ready.pop_first()`: the nodes that are pushed, in order
  unfoldable pub drain :
      Map RecordId T
      → Map RecordId (List RecordId)
      → ℕ
      → List RecordId
      → Map RecordId ℕ
      → Outcome CausalError (List T)
  drain by_id children fuel [] indegree = ok []
  drain by_id children zero (id ∷ ready) indegree = fault
  drain by_id children (suc fuel) (id ∷ ready) indegree = do
    node ← index id by_id
    (ready', indegree') ← release (children_of id children) ready indegree
    rest ← drain by_id children fuel ready' indegree'
    ok (node ∷ rest)

  -- `CausalGraph::new`
  unfoldable pub new : List T → Outcome CausalError (CausalGraph T)
  new nodes = do
    require (not (ltb max_causal_operations (length nodes)))
        (too_many_operations max_causal_operations (length nodes))
    check_edges (edge_total 0 nodes)
    by_id ← index_nodes [] nodes
    check_all_parents by_id nodes
    let indegree = parent_counts by_id
    let children = map_values (sort_by compare) (collect_children nodes [])
    ordered ← drain by_id children (length nodes) (initially_ready indegree) indegree
    require (length ordered == length nodes) cycle
    ok (record { ordered = ordered; by_id = by_id })

  -- the parents of a node of the graph: none where no node has the id
  unfoldable pub parents_of : RecordId → Map RecordId T → List RecordId
  parents_of id by_id = elim (Map.get id by_id) [ none ↦ [] | some node ↦ c.parents node ]

  -- the loop of `observes_bounded`. The head of `pending` is the end of the vector, where it is
  -- popped and extended. The result is the answer, the budget that is left and `exceeded`.
  unfoldable pub search_ancestors :
      Map RecordId T → RecordId → ℕ → List RecordId → List RecordId → Bool → Bool × ℕ × Bool
  search_ancestors by_id candidate budget [] visited exceeded = (false, budget, exceeded)
  search_ancestors by_id candidate zero (current ∷ pending) visited exceeded = (false, 0, true)
  search_ancestors by_id candidate (suc budget) (current ∷ pending) visited exceeded =
      elim (current == candidate) [
        | true ↦ (true, budget, exceeded)
        | false ↦
            search_ancestors by_id candidate budget
              (if Set.contains current visited
                then pending
                else reverse (parents_of current by_id) ++ pending)
              (Set.insert current visited) exceeded
      ]

  -- `CausalGraph::observes_bounded`
  unfoldable pub observes_bounded : CausalGraph T → RecordId → RecordId → ℕ → Bool → Bool × ℕ × Bool
  observes_bounded graph observer candidate budget exceeded =
      search_ancestors graph.by_id candidate budget (reverse (parents_of observer graph.by_id)) []
        exceeded

  -- `CausalGraph::observes`
  unfoldable pub observes : CausalGraph T → RecordId → RecordId → Bool
  observes graph observer candidate =
      (observes_bounded graph observer candidate max_reachability_steps false).0
