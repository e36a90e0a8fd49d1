-- ===== src/Causal/Completeness.antt =====
-- crates/wayjournal-core/src/causal.rs: a search that is not cut off finds every ancestor, and a
-- budget of the edges that are left is enough for it not to be cut off.
use wayjournal_build_attesta.Prelude.{
  ℕ, zero, suc, ◌+◌, ◌≤◌, ◌≡◌, refl, Bool, true, false, not, ◌&&◌, ◌||◌, List, [], ◌∷◌, ◌++◌, arith,
  mem, mem-append, reverse, length, length-append, nat_ord, ◌==◌, if◌then◌else◌, Bool-cases, inl,
  inr,
}
use wayjournal_build_attesta.Ids.{RecordId}
use wayjournal_build_attesta.Collections.Map
use wayjournal_build_attesta.Collections.Map.{Map}
use wayjournal_build_attesta.Collections.Set
use wayjournal_build_attesta.Causal.{CausalNode, parents_of, search_ancestors}
use wayjournal_build_attesta.Causal.Ancestry.{
  Ancestor, parent, further, mem-reverse, contains-eq-mem, mem-insert, length-reverse,
}

module _ {ℓ} {T : Type ℓ} ⦃c : CausalNode T⦄ where
  module _ (by_id : Map RecordId T) (observer candidate : RecordId) where
    -- What is visited is not the candidate, and a parent of what is visited is visited or pending.
    pub record IsSearch (pending visited : List RecordId) : Type 0 where
      pub missed : (a : RecordId) → mem a visited ≡ true → (a == candidate) ≡ false
      pub closed :
          (v a : RecordId)
          → mem v visited ≡ true
          → mem a (parents_of v by_id) ≡ true
          → (mem a visited || mem a pending) ≡ true
      pub started :
          (a : RecordId)
          → mem a (parents_of observer by_id) ≡ true
          → (mem a visited || mem a pending) ≡ true

    -- the pending ids after `current` was popped
    abbrev next_pending : RecordId → List RecordId → List RecordId → List RecordId
    next_pending current pending visited =
        if Set.contains current visited
        then pending
        else reverse (parents_of current by_id) ++ pending

    mem-next_pending :
        (a current : RecordId) (pending visited : List RecordId)
        → mem a (next_pending current pending visited)
          ≡ ((mem a (parents_of current by_id) && not (mem current visited)) || mem a pending)
    mem-next_pending a current pending visited = ground (
      arith,
      contains-eq-mem current visited,
      mem-append a (reverse (parents_of current by_id)) pending,
      mem-reverse a (parents_of current by_id),
    )

    step-IsSearch :
        (current : RecordId) (pending visited : List RecordId)
        → (current == candidate) ≡ false
        → IsSearch (current ∷ pending) visited
        → IsSearch (next_pending current pending visited) (Set.insert current visited)
    step-IsSearch current pending visited other s = record {
      missed = λ a m. ground (arith, mem-insert current a visited, s.missed a);
      closed = λ v a m p. ground (
        arith,
        mem-insert current a visited,
        mem-insert current v visited,
        s.closed v a,
        mem-next_pending a current pending visited,
      );
      started = λ a p. ground (
        arith,
        mem-insert current a visited,
        s.started a,
        mem-next_pending a current pending visited,
      );
    }

    -- Once nothing is pending, every ancestor was visited.
    ancestors_visited :
        (visited : List RecordId)
        → IsSearch [] visited
        → {a : RecordId} → Ancestor by_id observer a
        → mem a visited ≡ true
    ancestors_visited visited s (parent {id = a} p) = ground (arith, s.started a)
    ancestors_visited visited s (further {id = v} {above = a} h p) =
        ground (arith, s.closed v a, ancestors_visited visited s h)

    pub search_complete :
        (budget : ℕ) (pending visited : List RecordId)
        → IsSearch pending visited
        → Ancestor by_id observer candidate
        → (search_ancestors by_id candidate budget pending visited false).2 ≡ false
        → (search_ancestors by_id candidate budget pending visited false).0 ≡ true
    unfolding search_ancestors
    search_complete budget [] visited s h e =
        ground (arith, s.missed candidate, ancestors_visited visited s h)
    search_complete zero (current ∷ pending) visited s h e = cc
    search_complete (suc budget) (current ∷ pending) visited s h e =
        elim (Bool-cases (current == candidate)) [
          | inl same ↦ rw (same, search_ancestors)
          | inr other ↦
              rw (other, search_ancestors)
                (search_complete budget (next_pending current pending visited)
                  (Set.insert current visited) (step-IsSearch current pending visited other s) h
                  (rw (other, search_ancestors) at e))
        ]

  -- The parent links of the nodes that are not visited.
  unfoldable pub open_edges : Map RecordId T → List RecordId → ℕ
  open_edges [] visited = 0
  open_edges ((id, node) ∷ m) visited =
      (if mem id visited then 0 else length (c.parents node)) + open_edges m visited

  -- A first visit takes the links of its node out.
  open_edges-insert :
      (m : Map RecordId T) (current : RecordId) (visited : List RecordId)
      → (if mem current visited then 0 else length (parents_of current m))
          + open_edges m (Set.insert current visited)
        ≤ open_edges m visited
  unfolding open_edges parents_of Map.get
  open_edges-insert [] current visited = ground arith
  open_edges-insert ((id, node) ∷ m) current visited =
      ground (arith, open_edges-insert m current visited, mem-insert current id visited)

  pub search_within_budget :
      (by_id : Map RecordId T) (candidate : RecordId) (budget : ℕ) (pending visited : List RecordId)
      (exceeded : Bool)
      → length pending + open_edges by_id visited ≤ budget
      → (search_ancestors by_id candidate budget pending visited exceeded).2 ≡ exceeded
  unfolding search_ancestors
  search_within_budget by_id candidate budget [] visited exceeded h = refl
  search_within_budget by_id candidate zero (current ∷ pending) visited exceeded h =
      absurd (omega arith)
  search_within_budget by_id candidate (suc budget) (current ∷ pending) visited exceeded h =
      elim (Bool-cases (current == candidate)) [
        | inl same ↦ rw (same, search_ancestors)
        | inr other ↦
            rw (other, search_ancestors)
              (search_within_budget by_id candidate budget
                (next_pending by_id current candidate current pending visited)
                (Set.insert current visited) exceeded
                (ground (
                  arith,
                  open_edges-insert by_id current visited,
                  contains-eq-mem current visited,
                  length-append (reverse (parents_of current by_id)) pending,
                  length-reverse (parents_of current by_id),
                )))
      ]
