-- ===== src/Capability/Checks.antt =====
-- crates/wayjournal-core/src/capability.rs: the tests that `negotiate_handshake` goes through, one by one.
use wayjournal_build_attesta.Prelude.{
  All, ◌⊎◌, ◌≡◌, refl, Bool, true, false, List, [], ◌∷◌, Ord, nat_ord, list_ord, arith, eqb,
  Outcome, ok, err, fault, ◌>>◌, require, Ensures, returns, raises, Ensures-bind, Ensures-require,
  Bool-cases, inl, inr, subst, sym,
}
use wayjournal_build_attesta.Ids.{Text, store_ord}
use wayjournal_build_attesta.Collections.Set
use wayjournal_build_attesta.Capability.{found_in, check_each}
use wayjournal_build_attesta.Capability.Intersection.{same_text, text_ord}

-- Every item of the list passes the test.
abbrev pub AllPass : (Text → Bool) → List Text → Type 0
AllPass passes xs = (x : Text) → found_in x xs ≡ true → passes x ≡ true

pub AllPass-cons :
    (passes : Text → Bool) (x : Text) (xs : List Text)
    → passes x ≡ true
    → AllPass passes xs
    → AllPass passes (x ∷ xs)
unfolding found_in Set.contains
AllPass-cons passes x xs h a z m = elim (Bool-cases (eqb z x)) [
  | inl e ↦ subst (λ w. passes w ≡ true) (sym (same_text z x e)) h
  | inr e ↦ a z (ground (arith, m, e))
]

pub found_in-head : (x : Text) (xs : List Text) → found_in x (x ∷ xs) ≡ true
unfolding found_in Set.contains
found_in-head x xs = ground (arith, text_ord.cmp_self x)

pub found_in-later :
    (z x : Text) (xs : List Text) → found_in z xs ≡ true → found_in z (x ∷ xs) ≡ true
unfolding found_in Set.contains
found_in-later z x xs m = ground (arith, m)

pub weaken {ℓ κ} :
    {E : Type ℓ} {Q : E → Type κ} {P R : Type 0} (m : Outcome E (Unit {0}))
    → Ensures Q (λ (u : Unit {0}). P) m
    → (P → R)
    → Ensures Q (λ (u : Unit {0}). R) m
weaken (ok u) (returns p) f = returns (f p)
weaken (err e) (raises q) f = raises q
weaken fault h f = elim h [ ]

module _ {ℓ κ} {E : Type ℓ} (Q : E → Type κ) (passes : Text → Bool) (error : Text → E) where
  Ensures-check_each :
      (xs : List Text)
      → ((x : Text) → found_in x xs ≡ true → passes x ≡ false → Q (error x))
      → Ensures Q (λ (u : Unit {0}). AllPass passes xs) (check_each passes error xs)
  unfolding check_each found_in Set.contains
  Ensures-check_each [] h = returns (λ x m. cc)
  Ensures-check_each (x ∷ xs) h =
      Ensures-bind (require (passes x) (error x)) (λ _. check_each passes error xs)
        (Ensures-require (passes x) (error x) (λ e. h x (found_in-head x xs) e))
        (λ u e p.
          weaken (check_each passes error xs)
            (Ensures-check_each xs (λ z m f. h z (found_in-later z x xs m) f))
            (AllPass-cons passes x xs p))

module _ {E B : Type 0} {Q : E → Type 0} {R : B → Type 0} where
  pub guarded :
      (b : Bool) (e : E) (k : Outcome E B)
      → (b ≡ false → Q e)
      → (b ≡ true → Ensures Q R k)
      → Ensures Q R (require b e >> k)
  guarded true e k fails passed = passed refl
  guarded false e k fails passed = raises (fails refl)

  pub each_passes :
      (passes : Text → Bool) (error : Text → E) (xs : List Text) (k : Outcome E B)
      → ((x : Text) → found_in x xs ≡ true → passes x ≡ false → Q (error x))
      → (AllPass passes xs → Ensures Q R k)
      → Ensures Q R (check_each passes error xs >> k)
  each_passes passes error xs k fails passed =
      Ensures-bind (check_each passes error xs) (λ _. k)
        (Ensures-check_each Q passes error xs fails) (λ u e p. passed p)

pub same_of_require {ℓ} : {K : Type ℓ} ⦃o : Ord K⦄ (x y : K) → eqb x y ≡ true → x ≡ y
same_of_require ⦃o⦄ x y h = ground (arith, o.same_of_eq x y)

pub eqb_same {ℓ} : {K : Type ℓ} ⦃o : Ord K⦄ (x y : K) → x ≡ y → eqb x y ≡ true
eqb_same ⦃o⦄ x y h = ground (arith, h, o.cmp_self x)

-- Membership, without a test.
abbrev pub IsIn : Text → List Text → Type 0
IsIn x [] = ⊥
IsIn x (y ∷ ys) = (x ≡ y) ⊎ IsIn x ys

pub found_in-IsIn : (x : Text) (xs : List Text) → found_in x xs ≡ true → IsIn x xs
unfolding found_in Set.contains
found_in-IsIn x [] h = cc
found_in-IsIn x (y ∷ ys) h = elim (Bool-cases (eqb x y)) [
  | inl same ↦ inl (same_of_require x y same)
  | inr other ↦ inr (found_in-IsIn x ys (ground (arith, h, other)))
]

IsIn-found_in : (x : Text) (xs : List Text) → IsIn x xs → found_in x xs ≡ true
unfolding found_in Set.contains
IsIn-found_in x [] h = absurd h
IsIn-found_in x (y ∷ ys) (inl same) = ground (arith, eqb_same x y same)
IsIn-found_in x (y ∷ ys) (inr later) = ground (arith, IsIn-found_in x ys later)

pub not_IsIn-found_in : (x : Text) (xs : List Text) → found_in x xs ≡ false → ¬ IsIn x xs
not_IsIn-found_in x xs h i = let there = IsIn-found_in x xs i in cc

pub All-AllPass :
    (passes : Text → Bool) (P : Text → Type 0) (xs : List Text)
    → AllPass passes xs
    → ((x : Text) → passes x ≡ true → P x)
    → All P xs
All-AllPass passes P [] a f = tt
All-AllPass passes P (x ∷ xs) a f = (
  f x (a x (found_in-head x xs)),
  All-AllPass passes P xs (λ z m. a z (found_in-later z x xs m)) f,
)

pub All-found_in :
    (P : Text → Type 0) (x : Text) (xs : List Text) → All P xs → found_in x xs ≡ true → P x
unfolding found_in Set.contains
All-found_in P x [] a h = cc
All-found_in P x (y ∷ ys) a h = elim (Bool-cases (eqb x y)) [
  | inl same ↦ subst P (sym (same_of_require x y same)) a.0
  | inr other ↦ All-found_in P x ys a.1 (ground (arith, h, other))
]
