-- ===== src/Collections/Sort.antt =====
-- Sorting of vectors and the order tests on adjacent items.
use Prim.Native.Nat.Ordering.{gt}
use wayjournal_build_attesta.Prelude.{
  ℕ, ◌≡◌, refl, Bool, true, false, ◌&&◌, List, [], ◌∷◌, arith, Ord, precedes, Ordering, mem,
  Distinct, compare, All, ◌≺◌, nat_ord,
}
use wayjournal_build_attesta.Collections.Set.{All-below}

module _ {ℓ} {A : Type ℓ} (cmp : A → A → Ordering) where
  unfoldable pub insert_by : A → List A → List A
  insert_by x [] = x ∷ []
  insert_by x (y ∷ ys) = elim (cmp x y) [ gt ↦ y ∷ insert_by x ys | _ ↦ x ∷ y ∷ ys ]

  -- `sort_by`: a stable sort. (`sort_unstable` agrees with it where equal items are the same.)
  unfoldable pub sort_by : List A → List A
  unfolding insert_by
  sort_by [] = []
  sort_by (x ∷ xs) = insert_by x (sort_by xs)

module _ {ℓ} {K : Type ℓ} ⦃o : Ord K⦄ where
  -- `windows(2).all(|pair| pair[0] < pair[1])`
  unfoldable pub strictly_sorted : List K → Bool
  strictly_sorted [] = true
  strictly_sorted (a ∷ []) = true
  strictly_sorted (a ∷ b ∷ s) = precedes a b && strictly_sorted (b ∷ s)

  -- Where each item is below the next, the first is below all.
  pub strictly_sorted-head :
      (k : K) (s : List K) → strictly_sorted (k ∷ s) ≡ true → All (λ j. k ≺ j) s
  unfolding strictly_sorted
  strictly_sorted-head k [] h = tt
  strictly_sorted-head k (j ∷ s) h = ground (arith, strictly_sorted-head j s, All-below k j s)

-- A strictly increasing list of numbers holds none twice.
not-mem-below : (a : ℕ) (s : List ℕ) → All (λ b. a ≺ b) s → mem a s ≡ false
not-mem-below a [] h = refl
not-mem-below a (b ∷ s) h = ground (arith, not-mem-below a s)

pub strictly_sorted-Distinct : (s : List ℕ) → strictly_sorted s ≡ true → Distinct s
unfolding strictly_sorted
strictly_sorted-Distinct [] h = tt
strictly_sorted-Distinct (a ∷ []) h = (refl, tt)
strictly_sorted-Distinct (a ∷ b ∷ s) h = ground (
  arith,
  strictly_sorted-Distinct (b ∷ s),
  not-mem-below a (b ∷ s),
  strictly_sorted-head a (b ∷ s),
)

mem-insert_by : (a b : ℕ) (s : List ℕ) → mem a (insert_by compare b s) ≡ (mem a (b ∷ s))
unfolding insert_by
mem-insert_by a b [] = refl
mem-insert_by a b (c ∷ s) = ground (arith, mem-insert_by a b s)

pub mem-sort_by : (a : ℕ) (s : List ℕ) → mem a (sort_by compare s) ≡ mem a s
unfolding sort_by
mem-sort_by a [] = refl
mem-sort_by a (b ∷ s) = ground (arith, mem-insert_by a b (sort_by compare s), mem-sort_by a s)

Distinct-insert_by :
    (a : ℕ) (s : List ℕ) → mem a s ≡ false → Distinct s → Distinct (insert_by compare a s)
unfolding insert_by
Distinct-insert_by a [] h d = (refl, tt)
Distinct-insert_by a (b ∷ s) h d = ground (arith, Distinct-insert_by a s, mem-insert_by b a s)

pub Distinct-sort_by : (s : List ℕ) → Distinct s → Distinct (sort_by compare s)
unfolding sort_by
Distinct-sort_by [] d = tt
Distinct-sort_by (a ∷ s) d =
    Distinct-insert_by a (sort_by compare s) (ground (arith, mem-sort_by a s))
      (Distinct-sort_by s d.1)
