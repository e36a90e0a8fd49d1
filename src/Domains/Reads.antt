-- ===== src/Domains/Reads.antt =====
-- crates/wayjournal-core/src/domains.rs: what the views show of a folded state.
use wayjournal_build_attesta.Prelude.{
  ◌≡◌, ◌↔◌, refl, true, false, Option, none, some, List, [], ◌∷◌, arith, Ord, nat_ord, pair_ord,
  list_ord, eqb, if◌then◌else◌, subst, sym, ap, Bool-cases, ◌∙◌, inl, inr, All, ◌≺◌,
}
use wayjournal_build_attesta.Ids.{Text, RecordId, entity_ord}
use wayjournal_build_attesta.Collections.Map
use wayjournal_build_attesta.Collections.Map.{Map, get-insert}
use wayjournal_build_attesta.Collections.Set
use wayjournal_build_attesta.Collections.Set.{IsOrdered}
use wayjournal_build_attesta.Collections.Dedup.{
  sort, dedup, contains-dedup-sort, dedup-sort-IsOrdered,
}
use wayjournal_build_attesta.Collections.Sort.{sort_by}
use wayjournal_build_attesta.Collections.Keys.{get-later, get-below, get-first}
use wayjournal_build_attesta.Domains.{
  ScalarValue, SetValue, ScalarField, SetField, scalar_ord, set_ord,
}
use wayjournal_build_attesta.Domains.Fold.{FoldState, entry_or}
use wayjournal_build_attesta.Domains.Entries.{active_at}
use wayjournal_build_attesta.Domains.WellFormed.{WellFormed, entry_or-IsOrdered}
use wayjournal_build_attesta.Domains.Views.{
  MvRegister, Values, converted, register, collect_values, values_of, locator_ord,
}

module _ {V T : Type 0} ⦃o : Ord T⦄ (convert : V → Option T) where
  -- An entry of the map is shown as `t`.
  abbrev pub Shown : Map RecordId V → T → Type 0
  Shown m t = (id : RecordId) × (v : V) × (Map.get id m ≡ some v) × (convert v ≡ some t)

  first_shown :
      (found : Option T) (t : T) (rest : List T)
      → Set.contains t rest ≡ false
      → Set.contains t (elim found [ none ↦ rest | some u ↦ u ∷ rest ]) ≡ true
      → found ≡ some t
  unfolding Set.contains
  first_shown none t rest gone c = ground (arith, c, gone)
  first_shown (some u) t rest gone c = ground (arith, c, gone, o.same_of_eq t u)

  converted_sound :
      (m : Map RecordId V)
      → IsOrdered (Map.keys m)
      → (t : T) → Set.contains t (converted convert m) ≡ true
      → Shown m t
  unfolding converted Set.contains
  converted_sound [] h t c = cc
  converted_sound ((k, v) ∷ m) h t c = elim (Bool-cases (Set.contains t (converted convert m))) [
    | inl there ↦
        let (id, w, e, s) = converted_sound m h.1 t there in (id, w, get-later k id v w m h.0 e, s)
    | inr gone ↦ (k, v, get-first k v m, first_shown (convert v) t (converted convert m) gone c)
  ]

  converted_complete :
      (m : Map RecordId V) (t : T) → Shown m t → Set.contains t (converted convert m) ≡ true
  unfolding converted Set.contains Map.get
  converted_complete [] t (id, v, e, s) = cc
  converted_complete ((k, w) ∷ m) t (id, v, e, s) = elim (Bool-cases (eqb k id)) [
    | inl same ↦ let here : w ≡ v = ground (arith, same, e) in ground (arith, s, here, o.cmp_self t)
    | inr other ↦
        let later = converted_complete m t (id, v, ground (arith, other, e), s) in
        ground (arith, later)
  ]

get-skip :
    (f g : SetField) (key j : Text) (adds : Map RecordId SetValue)
    (m : Map (SetField × Text) (Map RecordId SetValue))
    → eqb g f ≡ false
    → Map.get (f, key) (((g, j), adds) ∷ m) ≡ Map.get (f, key) m
unfolding Map.get
get-skip f g key j adds m other = ground (arith, other)

get-found :
    (f g : SetField) (key j : Text) (adds : Map RecordId SetValue)
    (m : Map (SetField × Text) (Map RecordId SetValue))
    → eqb g f ≡ true
    → Map.get (f, key) (((g, j), adds) ∷ m) ≡ (if eqb j key then some adds else Map.get (f, key) m)
unfolding Map.get
get-found f g key j adds m same = ground (arith, same)

abbrev text_ord : Ord Text
text_ord = list_ord

same_list {ℓ} :
    {T : Type ℓ} (l : List T)
    → (elim (elim l as (λ x. Option (List T)) [ [] ↦ none | v ∷ vs ↦ some (v ∷ vs) ]) [
      | none ↦ []
      | some k ↦ k
    ])
      ≡ l
same_list [] = refl
same_list (v ∷ vs) = refl

module _ {T : Type 0} ⦃o : Ord T⦄ (s : FoldState) where
  -- A register shows the values that are active in its field, strictly ordered.
  abbrev pub ShowsRegister : ScalarField → (ScalarValue → Option T) → MvRegister T → Type 0
  ShowsRegister f convert r =
      IsOrdered r.values
      × ((t : T)
          → (Set.contains t r.values ≡ true) ↔ (
              (id : RecordId) × (v : ScalarValue) × (active_at f id s.registers ≡ some v)
              × (convert v ≡ some t)))

  -- Under a key, the view of a set field shows the values that are active there, strictly ordered.
  abbrev pub ShowsValues : SetField → (SetValue → Option T) → Values T → Type 0
  ShowsValues f convert out =
      (key : Text)
      → IsOrdered (entry_or [] key out)
        × ((t : T)
            → (Set.contains t (entry_or [] key out) ≡ true) ↔ (
                (id : RecordId) × (v : SetValue) × (active_at (f, key) id s.adds ≡ some v)
                × (convert v ≡ some t)))

module _ {T : Type 0} ⦃o : Ord T⦄ (s : FoldState) (h : WellFormed s) where
  pub register_lem :
      (f : ScalarField) (convert : ScalarValue → Option T)
      → ShowsRegister s f convert (register s f convert)
  unfolding register
  register_lem f convert =
      let active = entry_or [] f s.registers in
      (
        dedup-sort-IsOrdered (converted convert active),
        λ t. (
          λ c.
              converted_sound convert active (entry_or-IsOrdered f s.registers h.0) t
                (sym (contains-dedup-sort t (converted convert active)) ∙ c),
          λ w.
              contains-dedup-sort t (converted convert active)
              ∙ converted_complete convert active t w,
        ),
      )

  -- what an entry adds to the value of a key
  abbrev shown :
      (SetValue → Option T) → Option (Map RecordId SetValue) → Option (List T) → Option (List T)
  shown convert none before = before
  shown convert (some adds) before = elim (dedup (sort (converted convert adds))) [
    | [] ↦ before
    | v ∷ vs ↦ some (v ∷ vs)
  ]

  -- the values of one key put in
  abbrev with_shown : (SetValue → Option T) → Map RecordId SetValue → Text → Values T → Values T
  with_shown convert adds j out = elim (dedup (sort (converted convert adds))) [
    | [] ↦ out
    | v ∷ vs ↦ Map.insert j (v ∷ vs) out
  ]

  get-with_shown :
      (convert : SetValue → Option T) (adds : Map RecordId SetValue) (j key : Text) (out : Values T)
      → Map.get key (with_shown convert adds j out)
        ≡ (if eqb j key then shown convert (some adds) (Map.get key out) else Map.get key out)
  get-with_shown convert adds j key out = go (dedup (sort (converted convert adds)))
    where
      go :
          (l : List T)
          → Map.get key (elim l [ [] ↦ out | v ∷ vs ↦ Map.insert j (v ∷ vs) out ]) ≡ (
              if eqb j key
              then elim l [ [] ↦ Map.get key out | v ∷ vs ↦ some (v ∷ vs) ]
              else Map.get key out)
      go [] = ground arith
      go (v ∷ vs) = get-insert j key (v ∷ vs) out

  merged :
      (f : SetField) (key : Text) (convert : SetValue → Option T) (g : SetField) (j : Text)
      (adds : Map RecordId SetValue) (m : Map (SetField × Text) (Map RecordId SetValue))
      (out : Values T)
      → eqb g f ≡ true
      → IsOrdered (Map.keys (((g, j), adds) ∷ m))
      → shown convert (Map.get (f, key) m) (Map.get key (with_shown convert adds j out))
        ≡ shown convert (Map.get (f, key) (((g, j), adds) ∷ m)) (Map.get key out)
  unfolding Map.get
  merged f key convert g j adds m out same k = elim (Bool-cases (eqb j key)) [
    | inl e ↦
        let here : g ≡ f = set_ord.same_of_eq g f (ground (arith, same)) in
        let there : j ≡ key = text_ord.same_of_eq j key (ground (arith, e)) in
        let gone : Map.get (f, key) m ≡ none =
          get-below (f, key) m
            (subst (λ x. All (λ i. x ≺ i) (Map.keys m))
              (ap (λ x. (x, j)) here ∙ ap (λ x. (f, x)) there) k.0) in
        ap (λ found. shown convert found (Map.get key (with_shown convert adds j out))) gone
        ∙ get-with_shown convert adds j key out
        ∙ ap (λ b. if b then shown convert (some adds) (Map.get key out) else Map.get key out) e
        ∙ sym (
            ap (λ found. shown convert found (Map.get key out))
              (get-found f g key j adds m same
                ∙ ap (λ b. if b then some adds else Map.get (f, key) m) e))
    | inr e ↦
        ap (shown convert (Map.get (f, key) m)) (
          get-with_shown convert adds j key out
          ∙ ap (λ b. if b then shown convert (some adds) (Map.get key out) else Map.get key out) e)
        ∙ sym (
            ap (λ found. shown convert found (Map.get key out))
              (get-found f g key j adds m same
                ∙ ap (λ b. if b then some adds else Map.get (f, key) m) e))
  ]

  get-collect_values :
      (f : SetField) (key : Text) (convert : SetValue → Option T)
      (m : Map (SetField × Text) (Map RecordId SetValue)) (out : Values T)
      → IsOrdered (Map.keys m)
      → Map.get key (collect_values f convert m out)
        ≡ shown convert (Map.get (f, key) m) (Map.get key out)
  unfolding collect_values Map.get
  get-collect_values f key convert [] out k = refl
  get-collect_values f key convert (((g, j), adds) ∷ m) out k = elim (Bool-cases (eqb g f)) [
    | inr other ↦
        rw (other, collect_values)
          (get-collect_values f key convert m out k.1
            ∙ ap (λ found. shown convert found (Map.get key out))
                (sym (get-skip f g key j adds m other)))
    | inl same ↦
        rw (same, collect_values)
          (get-collect_values f key convert m (with_shown convert adds j out) k.1
            ∙ merged f key convert g j adds m out same k)
  ]

  -- the values that are shown for a key
  abbrev listed : (SetValue → Option T) → Map RecordId SetValue → List T
  listed convert adds = dedup (sort (converted convert adds))

  listed-none : (convert : SetValue → Option T) → listed convert [] ≡ []
  unfolding dedup sort sort_by converted
  listed-none convert = refl

  entry-values_of :
      (f : SetField) (convert : SetValue → Option T) (key : Text)
      → entry_or [] key (values_of s f convert) ≡ listed convert (entry_or [] (f, key) s.adds)
  unfolding values_of entry_or Map.get
  entry-values_of f convert key =
      ap (λ found. elim found [ none ↦ [] | some l ↦ l ])
        (get-collect_values f key convert s.adds [] h.1.0)
      ∙ go (Map.get (f, key) s.adds)
    where
      go :
          (found : Option (Map RecordId SetValue))
          → (elim (shown convert found none) [ none ↦ [] | some l ↦ l ])
            ≡ listed convert (elim found [ none ↦ [] | some adds ↦ adds ])
      go none = sym (listed-none convert)
      go (some adds) = same_list (listed convert adds)

  pub values_lem :
      (f : SetField) (convert : SetValue → Option T)
      → ShowsValues s f convert (values_of s f convert)
  values_lem f convert key =
      let active = entry_or [] (f, key) s.adds in
      let e = entry-values_of f convert key in
      (
        subst IsOrdered (sym e) (dedup-sort-IsOrdered (converted convert active)),
        λ t. (
          λ c.
              converted_sound convert active (entry_or-IsOrdered (f, key) s.adds h.1) t (
                sym (ap (Set.contains t) e ∙ contains-dedup-sort t (converted convert active)) ∙ c),
          λ w.
              ap (Set.contains t) e
              ∙ contains-dedup-sort t (converted convert active)
              ∙ converted_complete convert active t w,
        ),
      )
