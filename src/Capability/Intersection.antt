-- ===== src/Capability/Intersection.antt =====
-- crates/wayjournal-core/src/capability.rs: `intersection` of two strictly sorted slices.
use Prim.Native.Nat.Ordering.{lt, eq, gt}
use wayjournal_build_attesta.Prelude.{
  ◌≡◌, refl, Bool, true, false, ◌&&◌, List, [], ◌∷◌, Ord, Ordering, nat_ord, list_ord, arith, eqb,
  All, ◌≺◌, ap, subst, sym, ◌∙◌, Bool-cases, inl, inr,
}
use wayjournal_build_attesta.Ids.{Text}
use wayjournal_build_attesta.Collections.Set
use wayjournal_build_attesta.Collections.Set.{All-below, IsOrdered}
use wayjournal_build_attesta.Collections.Sort.{strictly_sorted, strictly_sorted-head}
use wayjournal_build_attesta.Capability.{found_in, intersection}

abbrev pub text_ord : Ord Text
text_ord = list_ord

pub strictly_sorted-IsOrdered {ℓ} :
    {K : Type ℓ} ⦃o : Ord K⦄ (s : List K) → strictly_sorted s ≡ true → IsOrdered s
unfolding strictly_sorted
strictly_sorted-IsOrdered [] h = tt
strictly_sorted-IsOrdered (a ∷ []) h = (tt, tt)
strictly_sorted-IsOrdered (a ∷ b ∷ s) h =
    (strictly_sorted-head a (b ∷ s) h, strictly_sorted-IsOrdered (b ∷ s) (ground (arith, h)))

-- What is below every item is not among them.
not-found-below : (x : Text) (s : List Text) → All (λ y. x ≺ y) s → found_in x s ≡ false
unfolding found_in Set.contains
not-found-below x [] h = refl
not-found-below x (y ∷ s) h = ground (arith, not-found-below x s)

pub same_text : (z x : Text) → eqb z x ≡ true → z ≡ x
same_text z x e = ground (arith, text_ord.same_of_eq z x)

-- A list that starts below the other one shares its first item with none of it.
drop_first :
    (x z : Text) (left right : List Text)
    → All (λ y. x ≺ y) right
    → (found_in z left && found_in z right) ≡ (found_in z (x ∷ left) && found_in z right)
unfolding found_in Set.contains
drop_first x z left right h = elim (Bool-cases (eqb z x)) [
  | inl e ↦
      let gone : found_in z right ≡ false =
        subst (λ w. found_in w right ≡ false) (sym (same_text z x e)) (not-found-below x right h) in
      ground (arith, gone)
  | inr e ↦ ground (arith, e)
]

swap : (a b : Bool) → (a && b) ≡ (b && a)
swap a b = ground arith

intersection-cmp :
    (x y : Text) (left right : List Text) (o : Ordering)
    → text_ord.cmp x y ≡ o
    → intersection (x ∷ left) (y ∷ right) ≡ elim o [
      | lt ↦ intersection left (y ∷ right)
      | gt ↦ intersection (x ∷ left) right
      | eq ↦ x ∷ intersection left right
    ]
unfolding intersection
intersection-cmp x y left right o e =
    ap
      (λ p. elim p [
        | lt ↦ intersection left (y ∷ right)
        | gt ↦ intersection (x ∷ left) right
        | eq ↦ x ∷ intersection left right
      ])
      e

-- The intersection agrees with the two lists on one item.
abbrev Common : Text → List Text → List Text → Type 0
Common z l r = found_in z (intersection l r) ≡ (found_in z l && found_in z r)

both_first :
    (x y z : Text) (left right : List Text)
    → x ≡ y
    → Common z left right
    → found_in z (x ∷ intersection left right) ≡ (found_in z (x ∷ left) && found_in z (y ∷ right))
unfolding found_in Set.contains
both_first x y z left right same l = ground (arith, l, same)

-- The intersection holds what both sides hold.
pub intersection_lem :
    (left right : List Text)
    → IsOrdered left
    → IsOrdered right
    → (z : Text) → found_in z (intersection left right) ≡ (found_in z left && found_in z right)
unfolding found_in intersection Set.contains
intersection_lem [] right h k z = refl
intersection_lem (x ∷ left) [] h k z = ground arith
intersection_lem (x ∷ left) (y ∷ right) h k z =
    go (intersection_lem left (y ∷ right) h.1 k z) (intersection_lem (x ∷ left) right h k.1 z)
      (intersection_lem left right h.1 k.1 z) (text_ord.cmp x y) refl
  where
    go :
        Common z left (y ∷ right)
        → Common z (x ∷ left) right
        → Common z left right
        → (o : Ordering) → text_ord.cmp x y ≡ o
        → Common z (x ∷ left) (y ∷ right)
    go i j l lt e =
        ap (found_in z) (intersection-cmp x y left right lt e)
        ∙ (i ∙ drop_first x z left (y ∷ right) (e, All-below x y right e k.0))
    go i j l gt e =
        let below : y ≺ x = ground (arith, e, text_ord.cmp_swapped x y) in
        ap (found_in z) (intersection-cmp x y left right gt e)
        ∙ (j
            ∙ swap (found_in z (x ∷ left)) (found_in z right)
            ∙ drop_first y z right (x ∷ left) (below, All-below y x left below h.0)
            ∙ swap (found_in z (y ∷ right)) (found_in z (x ∷ left)))
    go i j l eq e =
        let same : x ≡ y = text_ord.same_of_eq x y e in
        ap (found_in z) (intersection-cmp x y left right eq e) ∙ both_first x y z left right same l
