-- ===== src/Prelude/Order.antt =====
-- `std::cmp::Ord`: what the collections rely on. `Ordering::reverse` is `swapped`, and `then_with` is
-- `lexicographic`, by which a derived `Ord` compares the fields of a struct.
use Prim.Native.Nat.{ℕ, compare, Ordering}
use Prim.Native.Nat.Ordering.{lt, eq, gt}
use mathlib.Core.Path.{◌≡◌, refl}
use mathlib.Core.Bool.{Bool, true, false}
use mathlib.Core.List.{List, [], ◌∷◌}
use native.Mathlib.Omega.{arith}

abbrev pub swapped : Ordering → Ordering
swapped lt = gt
swapped eq = eq
swapped gt = lt

abbrev pub lexicographic : Ordering → Ordering → Ordering
lexicographic lt second = lt
lexicographic eq second = second
lexicographic gt second = gt

pub record Ord {ℓ} (K : Type ℓ) : Type ℓ where
  pub cmp : K → K → Ordering
  pub cmp_swapped : (x y : K) → cmp y x ≡ swapped (cmp x y)
  pub cmp_self : (x : K) → cmp x x ≡ eq
  pub same_of_eq : (x y : K) → cmp x y ≡ eq → x ≡ y
  pub chain : (x y z : K) → cmp x y ≡ lt → cmp y z ≡ lt → cmp x z ≡ lt

-- `x < y`, as a statement and as a test; `x == y` as a test.
infix 50 ◌≺◌
abbrev pub ◌≺◌ {ℓ} : {K : Type ℓ} ⦃ord : Ord K⦄ → K → K → Type 0
◌≺◌ ⦃ord⦄ x y = ord.cmp x y ≡ lt

abbrev pub precedes {ℓ} : {K : Type ℓ} ⦃ord : Ord K⦄ → K → K → Bool
precedes ⦃ord⦄ x y = elim (ord.cmp x y) [ lt ↦ true | _ ↦ false ]

abbrev pub eqb {ℓ} : {K : Type ℓ} ⦃ord : Ord K⦄ → K → K → Bool
eqb ⦃ord⦄ x y = elim (ord.cmp x y) [ eq ↦ true | _ ↦ false ]

module _ (x y : ℕ) where
  pub compare-swapped : compare y x ≡ swapped (compare x y)
  compare-swapped = ground arith

  pub same_of_compare : compare x y ≡ eq → x ≡ y
  same_of_compare h = ground arith

  pub compare_chain : (z : ℕ) → compare x y ≡ lt → compare y z ≡ lt → compare x z ≡ lt
  compare_chain z h k = ground arith

pub compare_self : (x : ℕ) → compare x x ≡ eq
compare_self x = ground arith

instance abbrev pub nat_ord : Ord ℕ
nat_ord = record {
  cmp = compare;
  cmp_swapped = compare-swapped;
  cmp_self = compare_self;
  same_of_eq = same_of_compare;
  chain = compare_chain;
}

module _ {ℓ κ} {K : Type ℓ} {L : Type κ} ⦃first : Ord K⦄ ⦃second : Ord L⦄ where
  abbrev pub cmp_fields : K × L → K × L → Ordering
  cmp_fields (k, l) (k', l') = lexicographic (first.cmp k k') (second.cmp l l')

  pub cmp_fields-swapped : (x y : K × L) → cmp_fields y x ≡ swapped (cmp_fields x y)
  cmp_fields-swapped (k, l) (k', l') =
      ground (arith, first.cmp_swapped k k', second.cmp_swapped l l')

  pub cmp_fields_self : (x : K × L) → cmp_fields x x ≡ eq
  cmp_fields_self (k, l) = ground (arith, first.cmp_self k, second.cmp_self l)

  pub same_of_fields : (x y : K × L) → cmp_fields x y ≡ eq → x ≡ y
  same_of_fields (k, l) (k', l') h = ground (arith, first.same_of_eq k k', second.same_of_eq l l')

  pub fields_chain :
      (x y z : K × L) → cmp_fields x y ≡ lt → cmp_fields y z ≡ lt → cmp_fields x z ≡ lt
  fields_chain (k, l) (k', l') (k'', l'') p q = ground (
    arith,
    first.chain k k' k'',
    second.chain l l' l'',
    first.same_of_eq k k',
    first.same_of_eq k' k'',
  )

  instance abbrev pub pair_ord : Ord (K × L)
  pair_ord = record {
    cmp = cmp_fields;
    cmp_swapped = cmp_fields-swapped;
    cmp_self = cmp_fields_self;
    same_of_eq = same_of_fields;
    chain = fields_chain;
  }

-- A type whose values are told apart by a key is ordered by it.
module _ {ℓ κ} {A : Type ℓ} {K : Type κ} ⦃ord : Ord K⦄ (key : A → K)
    (key_injective : (x y : A) → key x ≡ key y → x ≡ y) where
  abbrev pub ord_by : Ord A
  ord_by = record {
    cmp = λ x y. ord.cmp (key x) (key y);
    cmp_swapped = λ x y. ord.cmp_swapped (key x) (key y);
    cmp_self = λ x. ord.cmp_self (key x);
    same_of_eq = λ x y h. key_injective x y (ord.same_of_eq (key x) (key y) h);
    chain = λ x y z. ord.chain (key x) (key y) (key z);
  }

-- `Ord` on vectors and on strings, byte by byte: a proper prefix comes first.
module _ {ℓ} {K : Type ℓ} ⦃ord : Ord K⦄ where
  abbrev pub cmp_items : List K → List K → Ordering
  cmp_items [] [] = eq
  cmp_items [] (y ∷ ys) = lt
  cmp_items (x ∷ xs) [] = gt
  cmp_items (x ∷ xs) (y ∷ ys) = lexicographic (ord.cmp x y) (cmp_items xs ys)

  pub cmp_items-swapped : (xs ys : List K) → cmp_items ys xs ≡ swapped (cmp_items xs ys)
  cmp_items-swapped [] [] = refl
  cmp_items-swapped [] (y ∷ ys) = refl
  cmp_items-swapped (x ∷ xs) [] = refl
  cmp_items-swapped (x ∷ xs) (y ∷ ys) = ground (arith, ord.cmp_swapped x y, cmp_items-swapped xs ys)

  pub cmp_items_self : (xs : List K) → cmp_items xs xs ≡ eq
  cmp_items_self [] = refl
  cmp_items_self (x ∷ xs) = ground (arith, ord.cmp_self x, cmp_items_self xs)

  pub same_of_items : (xs ys : List K) → cmp_items xs ys ≡ eq → xs ≡ ys
  same_of_items [] [] h = refl
  same_of_items [] (y ∷ ys) h = cc
  same_of_items (x ∷ xs) [] h = cc
  same_of_items (x ∷ xs) (y ∷ ys) h = ground (arith, ord.same_of_eq x y, same_of_items xs ys)

  pub items_chain :
      (xs ys zs : List K) → cmp_items xs ys ≡ lt → cmp_items ys zs ≡ lt → cmp_items xs zs ≡ lt
  items_chain [] [] zs p q = cc
  items_chain [] (y ∷ ys) [] p q = cc
  items_chain [] (y ∷ ys) (z ∷ zs) p q = refl
  items_chain (x ∷ xs) [] zs p q = cc
  items_chain (x ∷ xs) (y ∷ ys) [] p q = cc
  items_chain (x ∷ xs) (y ∷ ys) (z ∷ zs) p q =
      ground (arith, ord.chain x y z, items_chain xs ys zs, ord.same_of_eq x y, ord.same_of_eq y z)

  instance abbrev pub list_ord : Ord (List K)
  list_ord = record {
    cmp = cmp_items;
    cmp_swapped = cmp_items-swapped;
    cmp_self = cmp_items_self;
    same_of_eq = same_of_items;
    chain = items_chain;
  }
