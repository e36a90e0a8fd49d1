-- ===== src/Identity/First.antt =====
-- The first item of a sorted list is one of the items, and none is below it.
use Prim.Native.Nat.Ordering.{lt, eq, gt}
use wayjournal_build_attesta.Prelude.{
  ◌≡◌, refl, sym, List, [], ◌∷◌, arith, Ord, Ordering, nat_ord, list_ord, All, ◌≺◌, ◌⊎◌, inl, inr,
  subst,
}
use wayjournal_build_attesta.Ids.{Text}
use wayjournal_build_attesta.Collections.Sort.{insert_by, sort_by}

abbrev pub Among : {A : Type 0} → A → List A → Type 0
Among x [] = ⊥
Among x (y ∷ ys) = (x ≡ y) ⊎ Among x ys

abbrev text_ord : Ord Text
text_ord = list_ord

module _ {A : Type 0} (key : A → Text) where
  abbrev by_key : A → A → Ordering
  by_key a b = text_ord.cmp (key a) (key b)

  abbrev pub IsLeast : List A → A → Type 0
  IsLeast xs m = Among m xs × All (λ n. ¬ (key n ≺ key m)) xs

  abbrev HeadIsLeast : List A → List A → Type 0
  HeadIsLeast xs [] = xs ≡ []
  HeadIsLeast xs (m ∷ ms) = IsLeast xs m

  not_below_self : (x : A) → ¬ (key x ≺ key x)
  not_below_self x below = ground (arith, below, text_ord.cmp_self (key x))

  All-above :
      (x y : A) (xs : List A)
      → ((n : A) → key n ≺ key x → key n ≺ key y)
      → All (λ n. ¬ (key n ≺ key y)) xs
      → All (λ n. ¬ (key n ≺ key x)) xs
  All-above x y [] h a = tt
  All-above x y (n ∷ xs) h a = (λ below. a.0 (h n below), All-above x y xs h a.1)

  insert_by-HeadIsLeast :
      (x : A) (xs s : List A) → HeadIsLeast xs s → HeadIsLeast (x ∷ xs) (insert_by by_key x s)
  unfolding insert_by
  insert_by-HeadIsLeast x xs [] h =
      subst (λ l. IsLeast (x ∷ l) x) (sym h) (inl refl, (not_below_self x, tt))
  insert_by-HeadIsLeast x xs (y ∷ s) h = go (text_ord.cmp (key x) (key y)) refl
    where
      go :
          (o : Ordering)
          → text_ord.cmp (key x) (key y) ≡ o
          → HeadIsLeast (x ∷ xs) (elim o [ gt ↦ y ∷ insert_by by_key x s | _ ↦ x ∷ y ∷ s ])
      go gt e = (inr h.0, (λ below. ground (arith, below, e), h.1))
      go lt e = (
        inl refl,
        (
          not_below_self x,
          All-above x y xs (λ n below. text_ord.chain (key n) (key x) (key y) below e) h.1,
        ),
      )
      go eq e = (
        inl refl,
        (
          not_below_self x,
          All-above x y xs
              (λ n below. subst (λ k. key n ≺ k) (text_ord.same_of_eq (key x) (key y) e) below) h.1,
        ),
      )

  sort_by-HeadIsLeast : (xs : List A) → HeadIsLeast xs (sort_by by_key xs)
  unfolding sort_by
  sort_by-HeadIsLeast [] = refl
  sort_by-HeadIsLeast (x ∷ xs) =
      insert_by-HeadIsLeast x xs (sort_by by_key xs) (sort_by-HeadIsLeast xs)

  pub sort_by-IsLeast : (xs ms : List A) (m : A) → sort_by by_key xs ≡ m ∷ ms → IsLeast xs m
  sort_by-IsLeast xs ms m h = subst (HeadIsLeast xs) h (sort_by-HeadIsLeast xs)
