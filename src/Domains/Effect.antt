-- ===== src/Domains/Effect.antt =====
-- crates/wayjournal-core/src/domains.rs: what a step of the fold does to the active values.
use wayjournal_build_attesta.Prelude.{
  ℕ, ◌≡◌, ◌≢◌, refl, sym, Bool, true, false, none, some, List, [], Ord, nat_ord, pair_ord, list_ord,
  ok, ◌>>◌, require, arith, Bool-cases, inl, inr, mem, ◌↔◌, ok_parts, subst, is_some,
}
use wayjournal_build_attesta.Ids.{Text, RecordId}
use wayjournal_build_attesta.Collections.Map
use wayjournal_build_attesta.Collections.Map.{Map}
use wayjournal_build_attesta.Causal.{CausalNode, CausalGraph}
use wayjournal_build_attesta.Causal.Ancestry.{Ancestor}
use wayjournal_build_attesta.Domains.{
  ScalarValue, ScalarField, SetField, scalar_ord, set_ord, OperationKind, scalar_set,
  scalar_resolve, add, remove,
}
use wayjournal_build_attesta.Domains.Fold.{
  FoldState, fold_state, entry_or, invalid_resolution, invalid_observed_remove, observed_ids,
  remove_registers, remove_adds, apply_kind, ensure_reachability_budget, same_ids,
}
use wayjournal_build_attesta.Domains.Entries.{active_at, active_at-put, mem-keys}
use wayjournal_build_attesta.Domains.Observed.{observed_ids_iff}
use wayjournal_build_attesta.Domains.Removal.{
  pair_key, remove_registers-active, remove_registers-adds, remove_adds-active,
  remove_adds-registers, same_of_ok, ensured, required, same_ids-eq,
}

module _ {ℓ κ μ} {T : Type ℓ} ⦃c : CausalNode T⦄ {K : Type κ} {V : Type μ} ⦃o : Ord K⦄
    (by_id : Map RecordId T) (id : RecordId) (k : K) (before after : Map K (Map RecordId V)) where
  -- Nothing changes under any other key.
  abbrev pub Frame : Type (κ ⊔ μ)
  Frame = (j : K) (i : RecordId) → j ≢ k → active_at j i after ≡ active_at j i before

  -- Under the key, what the operation has observed is gone and what is concurrent to it stays.
  abbrev pub Clears : Type (ℓ ⊔ κ ⊔ μ)
  Clears =
      ((i : RecordId) → i ≢ id → Ancestor by_id id i → active_at k i after ≡ none)
      × ((i : RecordId)
          → i ≢ id
          → ¬ Ancestor by_id id i
          → active_at k i after ≡ active_at k i before)
      × Frame

-- The given ids are the active ones that the operation has observed.
abbrev pub NamesObserved {ℓ κ} :
    {T : Type ℓ} ⦃c : CausalNode T⦄ {V : Type κ}
    → Map RecordId T
    → RecordId
    → Map RecordId V
    → List RecordId
    → Type ℓ
NamesObserved by_id id active ids =
    (i : RecordId)
    → (mem i ids ≡ true) ↔ ((is_some (Map.get i active) ≡ true) × Ancestor by_id id i)

module _ {T : Type 0} ⦃c : CausalNode T⦄ (by_id : Map RecordId T) (id : RecordId)
    (s s' : FoldState) where
  -- what a successful operation of each kind does
  abbrev pub Effect : OperationKind → Type 0
  Effect (scalar_set f v) =
      (active_at f id s'.registers ≡ some v)
      × Clears by_id id f s.registers s'.registers
      × (s'.adds ≡ s.adds)
  Effect (scalar_resolve f v ids) =
      (active_at f id s'.registers ≡ some v)
      × Clears by_id id f s.registers s'.registers
      × (s'.adds ≡ s.adds)
      × NamesObserved by_id id (entry_or [] f s.registers) ids
  Effect (add f k v) =
      (active_at (f, k) id s'.adds ≡ some v)
      × ((i : RecordId) → i ≢ id → active_at (f, k) i s'.adds ≡ active_at (f, k) i s.adds)
      × Frame by_id id (f, k) s.adds s'.adds
      × (s'.registers ≡ s.registers)
  Effect (remove f k ids) =
      ((i : RecordId) → Ancestor by_id id i → active_at (f, k) i s'.adds ≡ none)
      × ((i : RecordId)
          → ¬ Ancestor by_id id i
          → active_at (f, k) i s'.adds ≡ active_at (f, k) i s.adds)
      × Frame by_id id (f, k) s.adds s'.adds
      × (s'.registers ≡ s.registers)
      × NamesObserved by_id id (entry_or [] (f, k) s.adds) ids

module _ {T : Type 0} ⦃c : CausalNode T⦄ (graph : CausalGraph T) (id : RecordId)
    (s : FoldState) where
  observed-NamesObserved :
      {V : Type 0} (active : Map RecordId V) (ids : List RecordId) (budget : ℕ) (exceeded : Bool)
      → (observed_ids graph id (Map.keys active) budget exceeded).2 ≡ false
      → (observed_ids graph id (Map.keys active) budget exceeded).0 ≡ ids
      → NamesObserved graph.by_id id active ids
  observed-NamesObserved active ids budget exceeded h e i =
      let found = observed_ids_iff graph id (Map.keys active) budget exceeded h i in
      (
        λ m.
            let (there, a) = found.0 (subst (λ l. mem i l ≡ true) (sym e) m) in
            (ground (arith, mem-keys i active), a),
        λ (m, a). subst (λ l. mem i l ≡ true) e (found.1 (ground (arith, mem-keys i active), a)),
      )

  replaced :
      (f : ScalarField) (v : ScalarValue) (ids : List RecordId)
      → NamesObserved graph.by_id id (entry_or [] f s.registers) ids
      → let s' = fold_state.insert_register (remove_registers s f ids) f id v in
        (active_at f id s'.registers ≡ some v)
        × Clears graph.by_id id f s.registers s'.registers
        × (s'.adds ≡ s.adds)
  replaced f v ids named =
      let r = (remove_registers s f ids).registers in
      (
        ground (arith, active_at-put f f id id r v, scalar_ord.cmp_self f),
        (
          λ i other a. elim (Bool-cases (mem i ids)) [
            | inl m ↦ ground (
              arith,
              active_at-put f f id i r v,
              remove_registers-active s f f ids i,
              scalar_ord.cmp_self f,
            )
            | inr m ↦ elim (Bool-cases (is_some (active_at f i s.registers))) [
              | inl there ↦ absurd (ground (arith, m, (named i).1 (there, a)))
              | inr gone ↦
                  ground
                    (arith, active_at-put f f id i r v, remove_registers-active s f f ids i, gone)
            ]
          ],
          λ i other no. elim (Bool-cases (mem i ids)) [
            | inl m ↦ absurd (no ((named i).0 m).1)
            | inr m ↦
                ground (arith, active_at-put f f id i r v, remove_registers-active s f f ids i, m)
          ],
          λ g i other. ground (
            arith,
            active_at-put f g id i r v,
            remove_registers-active s f g ids i,
            scalar_ord.same_of_eq f g,
          ),
        ),
        remove_registers-adds s f ids,
      )

  removed :
      (f : SetField) (k : Text) (ids : List RecordId)
      → NamesObserved graph.by_id id (entry_or [] (f, k) s.adds) ids
      → Effect graph.by_id id s (remove_adds s f k ids) (remove f k ids)
  removed f k ids named = (
    λ i a. elim (Bool-cases (mem i ids)) [
      | inl m ↦ ground (arith, remove_adds-active s f f k k ids i, pair_key.cmp_self (f, k))
      | inr m ↦ elim (Bool-cases (is_some (active_at (f, k) i s.adds))) [
        | inl there ↦ absurd (ground (arith, m, (named i).1 (there, a)))
        | inr gone ↦ ground (arith, remove_adds-active s f f k k ids i, gone)
      ]
    ],
    λ i no. elim (Bool-cases (mem i ids)) [
      | inl m ↦ absurd (no ((named i).0 m).1)
      | inr m ↦ ground (arith, remove_adds-active s f f k k ids i, m)
    ],
    λ (g, j) i other.
        ground (arith, remove_adds-active s f g k j ids i, pair_key.same_of_eq (f, k) (g, j)),
    remove_adds-registers s f k ids,
    named,
  )

  -- A step that succeeds has this effect. A set or a resolution leaves its own value and the values
  -- that are concurrent to it; a resolution or a removal names exactly the active values that it has
  -- observed; an addition adds its value, and a removal takes away what it has observed; nothing else
  -- changes.
  pub apply_kind-Effect :
      (kind : OperationKind) (budget : ℕ) (exceeded : Bool) (after : FoldState × ℕ × Bool)
      → apply_kind graph id kind s budget exceeded ≡ ok after
      → Effect graph.by_id id s after.0 kind
  unfolding apply_kind
  apply_kind-Effect (scalar_set f v) budget exceeded after h =
      let active = entry_or [] f s.registers in
      let run = observed_ids graph id (Map.keys active) budget exceeded in
      let (u, in_budget, e) =
        ok_parts (ensure_reachability_budget run.2)
          (λ _. ok (fold_state.insert_register (remove_registers s f run.0) f id v, run.1, run.2))
          h in
      let named =
        observed-NamesObserved active run.0 budget exceeded (ensured run.2 u in_budget) refl in
      subst (λ r. Effect graph.by_id id s r.0 (scalar_set f v))
        (same_of_ok (fold_state.insert_register (remove_registers s f run.0) f id v, run.1, run.2)
          after e)
        (replaced f v run.0 named)
  apply_kind-Effect (scalar_resolve f v ids) budget exceeded after h =
      let active = entry_or [] f s.registers in
      let run = observed_ids graph id (Map.keys active) budget exceeded in
      let result : FoldState × ℕ × Bool =
        (fold_state.insert_register (remove_registers s f ids) f id v, run.1, run.2) in
      let (u, in_budget, h') =
        ok_parts (ensure_reachability_budget run.2)
          (λ _. require (same_ids run.0 ids) (invalid_resolution id) >> ok result) h in
      let (w, same, e) =
        ok_parts (require (same_ids run.0 ids) (invalid_resolution id)) (λ _. ok result) h' in
      let named =
        observed-NamesObserved active ids budget exceeded (ensured run.2 u in_budget)
          (same_ids-eq run.0 ids (required (same_ids run.0 ids) (invalid_resolution id) w same)) in
      let (own, clears, adds) = replaced f v ids named in
      subst (λ r. Effect graph.by_id id s r.0 (scalar_resolve f v ids)) (same_of_ok result after e)
        (own, clears, adds, named)
  apply_kind-Effect (add f k v) budget exceeded after h =
      subst (λ r. Effect graph.by_id id s r.0 (add f k v))
        (same_of_ok (fold_state.insert_add s f k id v, budget, exceeded) after h)
        (
          ground (arith, active_at-put (f, k) (f, k) id id s.adds v, pair_key.cmp_self (f, k)),
          λ i other. ground (arith, active_at-put (f, k) (f, k) id i s.adds v),
          λ (g, j) i other.
              ground (
                arith,
                active_at-put (f, k) (g, j) id i s.adds v,
                pair_key.same_of_eq (f, k) (g, j),
              ),
          refl,
        )
  apply_kind-Effect (remove f k ids) budget exceeded after h =
      let active = entry_or [] (f, k) s.adds in
      let run = observed_ids graph id (Map.keys active) budget exceeded in
      let result : FoldState × ℕ × Bool = (remove_adds s f k ids, run.1, run.2) in
      let (u, in_budget, h') =
        ok_parts (ensure_reachability_budget run.2)
          (λ _. require (same_ids run.0 ids) (invalid_observed_remove id) >> ok result) h in
      let (w, same, e) =
        ok_parts (require (same_ids run.0 ids) (invalid_observed_remove id)) (λ _. ok result) h' in
      let named = observed-NamesObserved active ids budget exceeded (ensured run.2 u in_budget) (
        same_ids-eq run.0 ids
          (required (same_ids run.0 ids) (invalid_observed_remove id) w same)) in
      subst (λ r. Effect graph.by_id id s r.0 (remove f k ids)) (same_of_ok result after e)
        (removed f k ids named)
