-- ===== src/Collections/Dedup.antt =====
-- `sort` and then `dedup` of a vector: its items, strictly ordered.
use Prim.Native.Nat.Ordering.{gt}
use wayjournal_build_attesta.Prelude.{
  ◌≡◌, refl, Bool, true, false, ◌||◌, List, [], ◌∷◌, arith, Ord, eqb, ◌≺◌, All, ◌∙◌, Bool-cases,
  inl, inr,
}
use wayjournal_build_attesta.Collections.Set
use wayjournal_build_attesta.Collections.Set.{IsOrdered, All-below}
use wayjournal_build_attesta.Collections.Sort.{insert_by, sort_by}

module _ {ℓ} {K : Type ℓ} ⦃o : Ord K⦄ where
  unfoldable pub sort : List K → List K
  unfolding sort_by
  sort s = sort_by o.cmp s

  -- what stays of the items after one that stays
  unfoldable pub dedup_after : K → List K → List K
  dedup_after k [] = []
  dedup_after k (j ∷ s) = elim (eqb k j) [ true ↦ dedup_after k s | false ↦ j ∷ dedup_after j s ]

  -- `dedup`: of neighbours that are equal the first stays
  unfoldable pub dedup : List K → List K
  unfolding dedup_after
  dedup [] = []
  dedup (k ∷ s) = k ∷ dedup_after k s

  abbrev at_most : K → K → Bool
  at_most k j = elim (o.cmp k j) [ gt ↦ false | _ ↦ true ]

  at_most-chain : (k j i : K) → at_most k j ≡ true → at_most j i ≡ true → at_most k i ≡ true
  at_most-chain k j i p q = ground (arith, o.chain k j i, o.same_of_eq k j, o.same_of_eq j i)

  abbrev IsAscending : List K → Type ℓ
  IsAscending [] = Unit
  IsAscending (k ∷ s) = All (λ j. at_most k j ≡ true) s × IsAscending s

  All-at_most :
      (k j : K) (s : List K)
      → at_most k j ≡ true
      → All (λ i. at_most j i ≡ true) s
      → All (λ i. at_most k i ≡ true) s
  All-at_most k j [] h a = tt
  All-at_most k j (i ∷ s) h a = (at_most-chain k j i h a.0, All-at_most k j s h a.1)

  All-insert_by :
      (k j : K) (s : List K)
      → at_most k j ≡ true
      → All (λ i. at_most k i ≡ true) s
      → All (λ i. at_most k i ≡ true) (insert_by o.cmp j s)
  unfolding insert_by
  All-insert_by k j [] h a = (h, tt)
  All-insert_by k j (i ∷ s) h a = ground (arith, All-insert_by k j s)

  insert_by-IsAscending : (k : K) (s : List K) → IsAscending s → IsAscending (insert_by o.cmp k s)
  unfolding insert_by
  insert_by-IsAscending k [] a = (tt, tt)
  insert_by-IsAscending k (j ∷ s) a =
      ground (
        arith,
        insert_by-IsAscending k s,
        All-insert_by j k s,
        All-at_most k j s,
        o.cmp_swapped k j,
      )

  sort-IsAscending : (s : List K) → IsAscending (sort s)
  unfolding sort sort_by
  sort-IsAscending [] = tt
  sort-IsAscending (k ∷ s) = insert_by-IsAscending k (sort s) (sort-IsAscending s)

  contains-insert_by :
      (z k : K) (s : List K) → Set.contains z (insert_by o.cmp k s) ≡ (eqb z k || Set.contains z s)
  unfolding insert_by Set.contains
  contains-insert_by z k [] = refl
  contains-insert_by z k (j ∷ s) = ground (arith, contains-insert_by z k s)

  contains-sort : (z : K) (s : List K) → Set.contains z (sort s) ≡ Set.contains z s
  unfolding sort sort_by Set.contains
  contains-sort z [] = refl
  contains-sort z (k ∷ s) = ground (arith, contains-insert_by z k (sort s), contains-sort z s)

  contains-dedup_after :
      (z k : K) (s : List K)
      → (eqb z k || Set.contains z (dedup_after k s)) ≡ (eqb z k || Set.contains z s)
  unfolding dedup_after Set.contains
  contains-dedup_after z k [] = refl
  contains-dedup_after z k (j ∷ s) =
      ground (arith, contains-dedup_after z k s, contains-dedup_after z j s, o.same_of_eq k j)

  contains-dedup : (z : K) (s : List K) → Set.contains z (dedup s) ≡ Set.contains z s
  unfolding dedup Set.contains
  contains-dedup z [] = refl
  contains-dedup z (k ∷ s) = contains-dedup_after z k s

  -- Sorting and removing duplicates keeps the items.
  pub contains-dedup-sort :
      (z : K) (s : List K) → Set.contains z (dedup (sort s)) ≡ Set.contains z s
  contains-dedup-sort z s = contains-dedup z (sort s) ∙ contains-sort z s

  dedup_after-IsOrdered :
      (k : K) (s : List K) → IsAscending (k ∷ s) → IsOrdered (k ∷ dedup_after k s)
  unfolding dedup_after
  dedup_after-IsOrdered k [] a = (tt, tt)
  dedup_after-IsOrdered k (j ∷ s) a = elim (Bool-cases (eqb k j)) [
    | inl e ↦ rw (e, dedup_after) (dedup_after-IsOrdered k s (a.0.1, a.1.1))
    | inr e ↦
        let below : k ≺ j = ground (arith, a.0.0, e) in
        let rest = dedup_after-IsOrdered j s a.1 in
        rw (e, dedup_after) ((below, All-below k j (dedup_after j s) below rest.0), rest)
  ]

  dedup-IsOrdered : (s : List K) → IsAscending s → IsOrdered (dedup s)
  unfolding dedup
  dedup-IsOrdered [] a = tt
  dedup-IsOrdered (k ∷ s) a = dedup_after-IsOrdered k s a

  pub dedup-sort-IsOrdered : (s : List K) → IsOrdered (dedup (sort s))
  dedup-sort-IsOrdered s = dedup-IsOrdered (sort s) (sort-IsAscending s)
