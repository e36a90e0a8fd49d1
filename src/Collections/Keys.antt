-- ===== src/Collections/Keys.antt =====
-- The keys of an ordered map are an ordered set.
use wayjournal_build_attesta.Prelude.{
  ◌≡◌, refl, none, some, List, [], ◌∷◌, arith, Ord, eqb, ◌≺◌, All, sym, subst, Bool-cases, inl, inr,
}
use wayjournal_build_attesta.Collections.Map
use wayjournal_build_attesta.Collections.Map.{Map}
use wayjournal_build_attesta.Collections.Set
use wayjournal_build_attesta.Collections.Set.{IsOrdered, insert-IsOrdered}

module _ {ℓ} {K : Type ℓ} ⦃o : Ord K⦄ where
  All-remove {κ} : (P : K → Type κ) (k : K) (s : List K) → All P s → All P (Set.remove k s)
  unfolding Set.remove
  All-remove P k [] a = tt
  All-remove P k (j ∷ s) a = ground (arith, All-remove P k s a.1)

  pub remove-IsOrdered : (k : K) (s : List K) → IsOrdered s → IsOrdered (Set.remove k s)
  unfolding Set.remove
  remove-IsOrdered k [] h = tt
  remove-IsOrdered k (j ∷ s) h =
      ground (arith, remove-IsOrdered k s h.1, All-remove (λ i. j ≺ i) k s h.0)

module _ {ℓ κ} {K : Type ℓ} {V : Type κ} ⦃o : Ord K⦄ where
  pub keys-insert :
      (k : K) (v : V) (m : Map K V) → Map.keys (Map.insert k v m) ≡ Set.insert k (Map.keys m)
  unfolding Map.insert Set.insert
  keys-insert k v [] = refl
  keys-insert k v ((j, w) ∷ m) = ground (arith, keys-insert k v m, o.same_of_eq k j)

  pub keys-remove : (k : K) (m : Map K V) → Map.keys (Map.remove k m) ≡ Set.remove k (Map.keys m)
  unfolding Map.remove Set.remove
  keys-remove k [] = refl
  keys-remove k ((j, w) ∷ m) = ground (arith, keys-remove k m)

  pub insert-keys-IsOrdered :
      (k : K) (v : V) (m : Map K V)
      → IsOrdered (Map.keys m)
      → IsOrdered (Map.keys (Map.insert k v m))
  insert-keys-IsOrdered k v m h =
      subst IsOrdered (sym (keys-insert k v m)) (insert-IsOrdered k (Map.keys m) h)

  pub remove-keys-IsOrdered :
      (k : K) (m : Map K V) → IsOrdered (Map.keys m) → IsOrdered (Map.keys (Map.remove k m))
  remove-keys-IsOrdered k m h =
      subst IsOrdered (sym (keys-remove k m)) (remove-IsOrdered k (Map.keys m) h)

  -- Every value satisfies `P`.
  abbrev pub AllValues {μ} : (V → Type μ) → Map K V → Type μ
  AllValues P [] = Unit
  AllValues P ((k, v) ∷ m) = P v × AllValues P m

  pub AllValues-insert {μ} :
      (P : V → Type μ) (k : K) (v : V) (m : Map K V)
      → P v
      → AllValues P m
      → AllValues P (Map.insert k v m)
  unfolding Map.insert
  AllValues-insert P k v [] h a = (h, tt)
  AllValues-insert P k v ((j, w) ∷ m) h a = ground (arith, AllValues-insert P k v m h a.1)

  pub AllValues-get {μ} :
      (P : V → Type μ) (k : K) (v : V) (m : Map K V) → AllValues P m → Map.get k m ≡ some v → P v
  unfolding Map.get
  AllValues-get P k v [] a e = cc
  AllValues-get P k v ((j, w) ∷ m) a e = elim (Bool-cases (eqb j k)) [
    | inl same ↦ let here : w ≡ v = ground (arith, e, same) in subst P here a.0
    | inr other ↦ AllValues-get P k v m a.1 (ground (arith, e, other))
  ]

  -- A key that is below every key of a map is not in it.
  pub get-below : (k : K) (m : Map K V) → All (λ j. k ≺ j) (Map.keys m) → Map.get k m ≡ none
  unfolding Map.get
  get-below k [] a = refl
  get-below k ((j, v) ∷ m) a = ground (arith, get-below k m a.1, o.cmp_swapped k j)

  pub get-first : (k : K) (v : V) (m : Map K V) → Map.get k ((k, v) ∷ m) ≡ some v
  unfolding Map.get
  get-first k v m = ground (arith, o.cmp_self k)

  -- In an ordered map the first entry hides no other.
  pub get-later :
      (k j : K) (v w : V) (m : Map K V)
      → All (λ i. k ≺ i) (Map.keys m)
      → Map.get j m ≡ some w
      → Map.get j ((k, v) ∷ m) ≡ some w
  unfolding Map.get
  get-later k j v w m a e = elim (Bool-cases (eqb k j)) [
    | inl same ↦
        let here : k ≡ j = ground (arith, same, o.same_of_eq k j) in
        absurd (ground (arith, get-below k m a, here, e))
    | inr other ↦ ground (arith, other, e)
  ]
