-- ===== src/Collections/Set.antt =====
-- `BTreeSet`: its items in order.
use Prim.Native.Nat.Ordering.{lt, eq, gt}
use wayjournal_build_attesta.Prelude.{
  ◌≡◌, refl, Bool, false, ◌||◌, List, [], ◌∷◌, arith, Ord, eqb, if◌then◌else◌, ◌≺◌, All,
}

module _ {ℓ} {K : Type ℓ} ⦃o : Ord K⦄ where
  unfoldable pub contains : K → List K → Bool
  contains k [] = false
  contains k (j ∷ s) = eqb k j || contains k s

  unfoldable pub insert : K → List K → List K
  insert k [] = k ∷ []
  insert k (j ∷ s) = elim (o.cmp k j) [ lt ↦ k ∷ j ∷ s | eq ↦ j ∷ s | gt ↦ j ∷ insert k s ]

  -- Strictly increasing: each item is below all that follow.
  abbrev pub IsOrdered : List K → Type ℓ
  IsOrdered [] = Unit
  IsOrdered (k ∷ s) = All (λ j. k ≺ j) s × IsOrdered s

  pub contains-insert : (k j : K) (s : List K) → contains j (insert k s) ≡ (eqb j k || contains j s)
  unfolding contains insert
  contains-insert k j [] = refl
  contains-insert k j (i ∷ s) = ground (arith, contains-insert k j s, o.same_of_eq k i)

  All-insert {κ} : (P : K → Type κ) (k : K) (s : List K) → P k → All P s → All P (insert k s)
  unfolding insert
  All-insert P k [] h a = (h, tt)
  All-insert P k (j ∷ s) h a = ground (arith, All-insert P k s)

  pub All-below : (k j : K) (s : List K) → k ≺ j → All (λ i. j ≺ i) s → All (λ i. k ≺ i) s
  All-below k j [] h a = tt
  All-below k j (i ∷ s) h a = (o.chain k j i h a.0, All-below k j s h a.1)

  pub insert-IsOrdered : (k : K) (s : List K) → IsOrdered s → IsOrdered (insert k s)
  unfolding insert
  insert-IsOrdered k [] h = (tt, tt)
  insert-IsOrdered k (j ∷ s) h =
      ground (
        arith,
        insert-IsOrdered k s,
        All-below k j s,
        All-insert (λ i. j ≺ i) k s,
        o.cmp_swapped k j,
      )

  unfoldable pub remove : K → List K → List K
  remove k [] = []
  remove k (j ∷ s) = let rest = remove k s in if eqb j k then rest else j ∷ rest
