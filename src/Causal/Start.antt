-- ===== src/Causal/Start.antt =====
-- crates/wayjournal-core/src/causal.rs: the counts and the ready ids before the loop.
use wayjournal_build_attesta.Prelude.{
  ℕ, ◌≡◌, refl, Bool, false, Option, none, some, List, [], ◌∷◌, arith, mem, Distinct, nat_ord, ◌==◌,
  length, Option-cases, inl, inr, ap,
}
use wayjournal_build_attesta.Ids.{RecordId}
use wayjournal_build_attesta.Collections.Map
use wayjournal_build_attesta.Collections.Map.{Map, map_values}
use wayjournal_build_attesta.Collections.Set.{IsOrdered, insert-IsOrdered}
use wayjournal_build_attesta.Causal.{CausalNode, parent_counts, initially_ready}
use wayjournal_build_attesta.Causal.Ancestry.{mem-insert}
use wayjournal_build_attesta.Causal.Index.{node_of, IsIndex}
use wayjournal_build_attesta.Causal.Waiting.{missing, missing_of, is_ready}
use wayjournal_build_attesta.Causal.Drain.{IsWaiting}

abbrev is_zero : Option ℕ → Bool
is_zero none = false
is_zero (some n) = n == 0

get-none : (id : RecordId) (m : Map RecordId ℕ) → mem id (Map.keys m) ≡ false → Map.get id m ≡ none
unfolding Map.get
get-none id [] h = refl
get-none id ((j, n) ∷ m) h = ground (arith, get-none id m)

mem-initially_ready :
    (id : RecordId) (m : Map RecordId ℕ)
    → Distinct (Map.keys m)
    → mem id (initially_ready m) ≡ is_zero (Map.get id m)
unfolding Map.get initially_ready
mem-initially_ready id [] d = refl
mem-initially_ready id ((j, n) ∷ m) d =
    ground (arith, mem-initially_ready id m, mem-insert j id (initially_ready m), get-none id m)

initially_ready-IsOrdered : (m : Map RecordId ℕ) → IsOrdered (initially_ready m)
unfolding initially_ready
initially_ready-IsOrdered [] = tt
initially_ready-IsOrdered ((j, n) ∷ m) =
    ground (arith, initially_ready-IsOrdered m, insert-IsOrdered j (initially_ready m))

missing-none : (ps : List RecordId) → missing [] ps ≡ length ps
missing-none [] = refl
missing-none (p ∷ ps) = omega (arith, missing-none ps)

module _ {ℓ} {T : Type ℓ} ⦃c : CausalNode T⦄ where
  abbrev parent_count : Option T → Option ℕ
  parent_count none = none
  parent_count (some node) = some (length (c.parents node))

  get-parent_counts :
      (id : RecordId) (m : Map RecordId T)
      → Map.get id (parent_counts m) ≡ parent_count (Map.get id m)
  unfolding Map.get parent_counts
  get-parent_counts id [] = refl
  get-parent_counts id ((j, node) ∷ m) = ground (arith, get-parent_counts id m)

  keys-parent_counts : (m : Map RecordId T) → Map.keys (parent_counts m) ≡ Map.keys m
  unfolding parent_counts
  keys-parent_counts [] = refl
  keys-parent_counts ((j, node) ∷ m) = ap (λ l. j ∷ l) (keys-parent_counts m)

  module _ (nodes : List T) (by_id : Map RecordId T) (s : IsIndex [] nodes by_id) where
    pub get-by_id : (id : RecordId) → Map.get id by_id ≡ node_of id nodes
    unfolding Map.get
    get-by_id id = s.at_id id

    start_counts :
        (id : RecordId) → Map.get id (parent_counts by_id) ≡ missing_of [] (node_of id nodes)
    start_counts id = elim (Option-cases (node_of id nodes)) [
      | inl absent ↦ ground (arith, get-parent_counts id by_id, get-by_id id)
      | inr (node, here) ↦
          ground (arith, get-parent_counts id by_id, get-by_id id, missing-none (c.parents node))
    ]

    Distinct-keys : Distinct (Map.keys (parent_counts by_id))
    Distinct-keys = rw keys-parent_counts (s.unique tt)

    start_readies :
        (id : RecordId)
        → mem id (initially_ready (parent_counts by_id)) ≡ is_ready [] id (node_of id nodes)
    start_readies id = elim (Option-cases (node_of id nodes)) [
      | inl absent ↦
          ground
            (arith, mem-initially_ready id (parent_counts by_id) Distinct-keys, start_counts id)
      | inr (node, here) ↦
          ground
            (arith, mem-initially_ready id (parent_counts by_id) Distinct-keys, start_counts id)
    ]

    -- The invariant holds before the first round.
    pub start-IsWaiting :
        IsWaiting nodes [] (initially_ready (parent_counts by_id)) (parent_counts by_id)
    start-IsWaiting = record {
      counts = start_counts;
      readies = start_readies;
      closed = λ id node m e. cc;
      ordered = initially_ready-IsOrdered (parent_counts by_id);
    }
