-- ===== src/Domains/Erasure.antt =====
-- crates/wayjournal-core/src/domains.rs: the validation state is the fold state with the values left
-- out, and every step keeps it so.
use wayjournal_build_attesta.Prelude.{
  ℕ, ◌≡◌, refl, ap, Bool, Option, none, some, List, [], ◌∷◌, Ord, nat_ord, pair_ord, list_ord,
  Outcome, ok, err, fault, map_ok, ◌∙◌, ◌>>◌, require, arith,
}
use wayjournal_build_attesta.Ids.{Text, RecordId, store_ord}
use wayjournal_build_attesta.Collections.Map
use wayjournal_build_attesta.Collections.Map.{Map, map_values}
use wayjournal_build_attesta.Collections.Set
use wayjournal_build_attesta.Collections.Keys.{keys-insert, keys-remove}
use wayjournal_build_attesta.Causal.{CausalNode, CausalGraph}
use wayjournal_build_attesta.Domains.{
  ScalarValue, SetValue, ScalarField, SetField, scalar_ord, set_ord, OperationKind, scalar_set,
  scalar_resolve, add, remove,
}
use wayjournal_build_attesta.Domains.Fold.{
  FoldState, ValidationFoldState, fold_state, validation_state, entry_or, update_entry,
  observed_ids, remove_registers, remove_adds, apply_kind, invalid_resolution,
  invalid_observed_remove, ensure_reachability_budget, same_ids,
}

abbrev map_option {ℓ κ} : {V : Type ℓ} {W : Type κ} → (V → W) → Option V → Option W
map_option f none = none
map_option f (some v) = some (f v)

module _ {ℓ κ μ} {K : Type ℓ} {V : Type κ} {W : Type μ} ⦃o : Ord K⦄ (f : V → W) where
  pub map_values-insert :
      (k : K) (v : V) (m : Map K V)
      → map_values f (Map.insert k v m) ≡ Map.insert k (f v) (map_values f m)
  unfolding Map.insert map_values
  map_values-insert k v [] = refl
  map_values-insert k v ((j, w) ∷ m) = ground (arith, map_values-insert k v m)

  pub entry_or-map_values :
      (d : V) (k : K) (m : Map K V) → entry_or (f d) k (map_values f m) ≡ f (entry_or d k m)
  unfolding entry_or Map.get map_values
  entry_or-map_values d k [] = refl
  entry_or-map_values d k ((j, w) ∷ m) = ground (arith, entry_or-map_values d k m)

  get-map_values : (k : K) (m : Map K V) → Map.get k (map_values f m) ≡ map_option f (Map.get k m)
  unfolding Map.get map_values
  get-map_values k [] = refl
  get-map_values k ((j, w) ∷ m) = ground (arith, get-map_values k m)

  pub update_entry-map_values :
      (g : V → V) (h : W → W) (k : K) (m : Map K V)
      → ((v : V) → f (g v) ≡ h (f v))
      → update_entry h k (map_values f m) ≡ map_values f (update_entry g k m)
  unfolding update_entry
  update_entry-map_values g h k m commutes = go (Map.get k m) refl
    where
      go :
          (found : Option V)
          → Map.get k m ≡ found
          → update_entry h k (map_values f m) ≡ map_values f (update_entry g k m)
      go none e = ground (arith, get-map_values k m, e)
      go (some v) e = ground (arith, get-map_values k m, e, map_values-insert k (g v) m, commutes v)

-- the ids of a state
abbrev pub erase : FoldState → ValidationFoldState
erase s = record { registers = map_values Map.keys s.registers; adds = map_values Map.keys s.adds }

module _ (s : FoldState) where
  register_ids-erase :
      (field : ScalarField)
      → validation_state.register_ids (erase s) field ≡ fold_state.register_ids s field
  register_ids-erase field = entry_or-map_values Map.keys [] field s.registers

  add_ids-erase :
      (field : SetField) (key : Text)
      → validation_state.add_ids (erase s) field key ≡ fold_state.add_ids s field key
  add_ids-erase field key = entry_or-map_values Map.keys [] (field, key) s.adds

  remove_register-erase :
      (field : ScalarField) (id : RecordId)
      → validation_state.remove_register (erase s) field id
        ≡ erase (fold_state.remove_register s field id)
  remove_register-erase field id =
      ap (λ m. record { registers = m; adds = map_values Map.keys s.adds })
        (update_entry-map_values Map.keys (Map.remove id) (Set.remove id) field s.registers
          (keys-remove id))

  remove_add-erase :
      (field : SetField) (key : Text) (id : RecordId)
      → validation_state.remove_add (erase s) field key id
        ≡ erase (fold_state.remove_add s field key id)
  remove_add-erase field key id =
      ap (λ m. record { registers = map_values Map.keys s.registers; adds = m })
        (update_entry-map_values Map.keys (Map.remove id) (Set.remove id) (field, key) s.adds
          (keys-remove id))

  insert_register-erase :
      (field : ScalarField) (id : RecordId) (value : ScalarValue)
      → validation_state.insert_register (erase s) field id value
        ≡ erase (fold_state.insert_register s field id value)
  insert_register-erase field id value = rw (
    register_ids-erase field,
    map_values-insert Map.keys field (Map.insert id value (entry_or [] field s.registers))
        s.registers,
    keys-insert id value (entry_or [] field s.registers),
  )

  insert_add-erase :
      (field : SetField) (key : Text) (id : RecordId) (value : SetValue)
      → validation_state.insert_add (erase s) field key id value
        ≡ erase (fold_state.insert_add s field key id value)
  insert_add-erase field key id value = rw (
    add_ids-erase field key,
    map_values-insert Map.keys (field, key) (Map.insert id value (entry_or [] (field, key) s.adds))
        s.adds,
    keys-insert id value (entry_or [] (field, key) s.adds),
  )

remove_registers-erase :
    (s : FoldState) (field : ScalarField) (ids : List RecordId)
    → remove_registers (erase s) field ids ≡ erase (remove_registers s field ids)
unfolding remove_registers
remove_registers-erase s field [] = refl
remove_registers-erase s field (id ∷ ids) =
    ap (λ t. remove_registers t field ids) (remove_register-erase s field id)
    ∙ remove_registers-erase (fold_state.remove_register s field id) field ids

remove_adds-erase :
    (s : FoldState) (field : SetField) (key : Text) (ids : List RecordId)
    → remove_adds (erase s) field key ids ≡ erase (remove_adds s field key ids)
unfolding remove_adds
remove_adds-erase s field key [] = refl
remove_adds-erase s field key (id ∷ ids) =
    ap (λ t. remove_adds t field key ids) (remove_add-erase s field key id)
    ∙ remove_adds-erase (fold_state.remove_add s field key id) field key ids

-- a register after the observed ids were taken out and a new one was put in
replace_register-erase :
    (s : FoldState) (field : ScalarField) (ids : List RecordId) (id : RecordId)
    (value : ScalarValue)
    → validation_state.insert_register (remove_registers (erase s) field ids) field id value
      ≡ erase (fold_state.insert_register (remove_registers s field ids) field id value)
replace_register-erase s field ids id value =
    ap (λ t. validation_state.insert_register t field id value) (remove_registers-erase s field ids)
    ∙ insert_register-erase (remove_registers s field ids) field id value

-- the same counters, with the values left out
abbrev pub erase_step : FoldState × ℕ × Bool → ValidationFoldState × ℕ × Bool
erase_step (s, budget, exceeded) = (erase s, budget, exceeded)

-- Two runs that go through the same tests.
guarded-erase :
    {E : Type 0} (first second : Outcome E (Unit {0})) (v : ValidationFoldState) (s : FoldState)
    (budget : ℕ) (exceeded : Bool)
    → v ≡ erase s
    → (first >> (second >> ok (v, budget, exceeded)))
      ≡ map_ok erase_step (first >> (second >> ok (s, budget, exceeded)))
guarded-erase (ok u) (ok w) v s budget exceeded e = ap (λ t. ok (t, budget, exceeded)) e
guarded-erase (ok u) (err x) v s budget exceeded e = refl
guarded-erase (ok u) fault v s budget exceeded e = refl
guarded-erase (err x) second v s budget exceeded e = refl
guarded-erase fault second v s budget exceeded e = refl

module _ {ℓ} {T : Type ℓ} ⦃c : CausalNode T⦄ (graph : CausalGraph T) (id : RecordId) (s : FoldState)
    (budget : ℕ) (exceeded : Bool) where
  -- A step of the validation is the step of the fold, with the values left out: the same error, or
  -- the same ids.
  pub apply_kind-erase :
      (kind : OperationKind)
      → apply_kind graph id kind (erase s) budget exceeded
        ≡ map_ok erase_step (apply_kind graph id kind s budget exceeded)
  unfolding apply_kind
  apply_kind-erase (scalar_set field value) =
      let (observed, budget', exceeded') =
        observed_ids graph id (fold_state.register_ids s field) budget exceeded in
      rw register_ids-erase (
        guarded-erase (ensure_reachability_budget exceeded') (ok tt)
          (validation_state.insert_register (remove_registers (erase s) field observed) field id
            value)
          (fold_state.insert_register (remove_registers s field observed) field id value) budget'
          exceeded' (replace_register-erase s field observed id value))
  apply_kind-erase (scalar_resolve field value candidates) =
      let (observed, budget', exceeded') =
        observed_ids graph id (fold_state.register_ids s field) budget exceeded in
      rw register_ids-erase (
        guarded-erase (ensure_reachability_budget exceeded')
          (require (same_ids observed candidates) (invalid_resolution id))
          (validation_state.insert_register (remove_registers (erase s) field candidates) field id
            value)
          (fold_state.insert_register (remove_registers s field candidates) field id value) budget'
          exceeded' (replace_register-erase s field candidates id value))
  apply_kind-erase (add field key value) =
      ap (λ t. ok (t, budget, exceeded)) (insert_add-erase s field key id value)
  apply_kind-erase (remove field key adds) =
      let (observed, budget', exceeded') =
        observed_ids graph id (fold_state.add_ids s field key) budget exceeded in
      rw add_ids-erase (
        guarded-erase (ensure_reachability_budget exceeded')
          (require (same_ids observed adds) (invalid_observed_remove id))
          (remove_adds (erase s) field key adds) (remove_adds s field key adds) budget' exceeded'
          (remove_adds-erase s field key adds))
