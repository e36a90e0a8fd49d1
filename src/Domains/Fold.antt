-- ===== src/Domains/Fold.antt =====
-- crates/wayjournal-core/src/domains.rs: the fold of operations into active values, in full
-- (`FoldState`) and by ids alone (`ValidationFoldState`).
use wayjournal_build_attesta.Prelude.{
  ℕ, Bool, not, none, some, List, [], ◌∷◌, Ord, nat_ord, pair_ord, list_ord, eqb, Outcome, ok, err,
  ◌>>=◌, ◌>>◌, require, if◌then◌else◌,
}
use wayjournal_build_attesta.Ids.{Text, RecordId, LogicalStoreId, store_ord}
use wayjournal_build_attesta.Collections.Map
use wayjournal_build_attesta.Collections.Map.{Map}
use wayjournal_build_attesta.Collections.Set
use wayjournal_build_attesta.Causal.{
  CausalNode, CausalGraph, CausalError, reachability_budget, observes_bounded,
  max_reachability_steps,
}
use wayjournal_build_attesta.Domains.{
  ScalarValue, SetValue, ScalarField, SetField, scalar_ord, set_ord, OperationKind, scalar_set,
  scalar_resolve, add, remove, DomainOperation, operation_causal, header_causal,
}

pub data FoldError : Type 0 where
  causal : CausalError → FoldError
  wrong_entity : FoldError
  wrong_target : LogicalStoreId → LogicalStoreId → FoldError
  invalid_resolution : RecordId → FoldError
  invalid_observed_remove : RecordId → FoldError

-- `trait FoldAccumulator`, with `Default`
pub record FoldAccumulator (S : Type 0) : Type 0 where
  pub default : S
  pub register_ids : S → ScalarField → List RecordId
  pub remove_register : S → ScalarField → RecordId → S
  pub insert_register : S → ScalarField → RecordId → ScalarValue → S
  pub add_ids : S → SetField → Text → List RecordId
  pub remove_add : S → SetField → Text → RecordId → S
  pub insert_add : S → SetField → Text → RecordId → SetValue → S

-- Both accumulators are maps of ordered ids: `entry(key).or_default()`, and a change of what is there.
module _ {ℓ κ} {K : Type ℓ} {V : Type κ} ⦃o : Ord K⦄ where
  unfoldable pub entry_or : V → K → Map K V → V
  entry_or default key m = elim (Map.get key m) [ none ↦ default | some v ↦ v ]

  unfoldable pub update_entry : (V → V) → K → Map K V → Map K V
  update_entry f key m = elim (Map.get key m) [ none ↦ m | some v ↦ Map.insert key (f v) m ]

pub record FoldState : Type 0 where
  pub registers : Map ScalarField (Map RecordId ScalarValue)
  pub adds : Map (SetField × Text) (Map RecordId SetValue)

pub record ValidationFoldState : Type 0 where
  pub registers : Map ScalarField (List RecordId)
  pub adds : Map (SetField × Text) (List RecordId)

-- `impl FoldAccumulator for FoldState`
instance abbrev pub fold_state : FoldAccumulator FoldState
fold_state = record {
  default = record { registers = []; adds = [] };
  register_ids = λ s field. Map.keys (entry_or [] field s.registers);
  remove_register =
      λ s field id. record s { registers = update_entry (Map.remove id) field s.registers };
  insert_register = λ s field id value. record s {
    registers = Map.insert field (Map.insert id value (entry_or [] field s.registers)) s.registers;
  };
  add_ids = λ s field key. Map.keys (entry_or [] (field, key) s.adds);
  remove_add =
      λ s field key id. record s { adds = update_entry (Map.remove id) (field, key) s.adds };
  insert_add = λ s field key id value. record s {
    adds = Map.insert (field, key) (Map.insert id value (entry_or [] (field, key) s.adds)) s.adds;
  };
}

-- `impl FoldAccumulator for ValidationFoldState`
instance abbrev pub validation_state : FoldAccumulator ValidationFoldState
validation_state = record {
  default = record { registers = []; adds = [] };
  register_ids = λ s field. entry_or [] field s.registers;
  remove_register =
      λ s field id. record s { registers = update_entry (Set.remove id) field s.registers };
  insert_register = λ s field id value. record s {
    registers = Map.insert field (Set.insert id (entry_or [] field s.registers)) s.registers;
  };
  add_ids = λ s field key. entry_or [] (field, key) s.adds;
  remove_add =
      λ s field key id. record s { adds = update_entry (Set.remove id) (field, key) s.adds };
  insert_add = λ s field key id value. record s {
    adds = Map.insert (field, key) (Set.insert id (entry_or [] (field, key) s.adds)) s.adds;
  };
}

-- `ensure_reachability_budget`
unfoldable pub ensure_reachability_budget : Bool → Outcome FoldError (Unit {0})
ensure_reachability_budget exceeded =
    require (not exceeded) (causal (reachability_budget max_reachability_steps))

-- `&observed != candidates`
unfoldable pub same_ids : List RecordId → List RecordId → Bool
same_ids = eqb

module _ {S : Type 0} ⦃a : FoldAccumulator S⦄ where
  unfoldable pub remove_registers : S → ScalarField → List RecordId → S
  remove_registers s field [] = s
  remove_registers s field (id ∷ ids) = remove_registers (a.remove_register s field id) field ids

  unfoldable pub remove_adds : S → SetField → Text → List RecordId → S
  remove_adds s field key [] = s
  remove_adds s field key (id ∷ ids) = remove_adds (a.remove_add s field key id) field key ids

module _ {ℓ} {T : Type ℓ} ⦃c : CausalNode T⦄ (graph : CausalGraph T) where
  -- `ids.into_iter().filter(|candidate| graph.observes_bounded(..)).collect()`: the two counters
  -- are threaded through
  unfoldable pub observed_ids : RecordId → List RecordId → ℕ → Bool → List RecordId × ℕ × Bool
  observed_ids record_id [] budget exceeded = ([], budget, exceeded)
  observed_ids record_id (candidate ∷ rest) budget exceeded =
      let (seen, budget', exceeded') = observes_bounded graph record_id candidate budget exceeded in
      let (more, budget'', exceeded'') = observed_ids record_id rest budget' exceeded' in
      (if seen then candidate ∷ more else more, budget'', exceeded'')

  module _ {S : Type 0} ⦃a : FoldAccumulator S⦄ where
    -- `apply_operation`: the state and the two counters after it
    unfoldable pub apply_kind :
        RecordId → OperationKind → S → ℕ → Bool → Outcome FoldError (S × ℕ × Bool)
    apply_kind record_id (scalar_set field value) state budget exceeded = do
      let (observed, budget', exceeded') =
          observed_ids record_id (a.register_ids state field) budget exceeded
      ensure_reachability_budget exceeded'
      ok (
        a.insert_register (remove_registers state field observed) field record_id value,
        budget',
        exceeded',
      )
    apply_kind record_id (scalar_resolve field value candidates) state budget exceeded = do
      let (observed, budget', exceeded') =
          observed_ids record_id (a.register_ids state field) budget exceeded
      ensure_reachability_budget exceeded'
      require (same_ids observed candidates) (invalid_resolution record_id)
      ok (
        a.insert_register (remove_registers state field candidates) field record_id value,
        budget',
        exceeded',
      )
    apply_kind record_id (add field key value) state budget exceeded =
        ok (a.insert_add state field key record_id value, budget, exceeded)
    apply_kind record_id (remove field key adds) state budget exceeded = do
      let (observed, budget', exceeded') =
          observed_ids record_id (a.add_ids state field key) budget exceeded
      ensure_reachability_budget exceeded'
      require (same_ids observed adds) (invalid_observed_remove record_id)
      ok (remove_adds state field key adds, budget', exceeded')

    unfoldable pub apply_operation :
        DomainOperation → S → ℕ → Bool → Outcome FoldError (S × ℕ × Bool)
    apply_operation op state budget exceeded = apply_kind op.record_id op.kind state budget exceeded

    -- `apply_catalog_operation`
    unfoldable pub apply_catalog_operation :
        DomainOperation
        → Map LogicalStoreId S
        → ℕ
        → Bool
        → Outcome FoldError (Map LogicalStoreId S × ℕ × Bool)
    apply_catalog_operation op states budget exceeded = elim op.target [
      | none ↦ err wrong_entity
      | some target ↦ do
        (state, budget', exceeded') ←
            apply_operation op (entry_or a.default target states) budget exceeded
        ok (Map.insert target state states, budget', exceeded')
    ]
