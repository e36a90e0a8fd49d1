-- ===== src/Domains/Run.antt =====
-- crates/wayjournal-core/src/domains.rs: the folds over a whole set of operations.
use wayjournal_build_attesta.Prelude.{
  ℕ, Bool, true, false, ◌&&◌, Option, none, some, List, [], ◌∷◌, nat_ord, list_ord, eqb, Outcome,
  ok, ◌>>=◌, ◌>>◌, require, map_err, ◌==◌,
}
use wayjournal_build_attesta.Ids.{Text, ascii, EntityId, LogicalStoreId, store_ord}
use wayjournal_build_attesta.Collections.Map.{Map}
use wayjournal_build_attesta.Causal.{CausalGraph, new, max_reachability_steps}
use wayjournal_build_attesta.Domains.{
  DomainOperation, DomainOperationHeader, operation_causal, header_causal,
}
use wayjournal_build_attesta.Domains.Fold.{
  FoldError, causal, wrong_entity, FoldState, ValidationFoldState, fold_state, validation_state,
  apply_operation, apply_catalog_operation,
}

-- `op.domain.as_str() != expected_domain || Some(op.entity_id) != entity`, where `entity` is the
-- first operation's: of an empty list nothing is asked.
unfoldable pub belongs : Text → Option EntityId → Text → EntityId → Bool
belongs expected none domain entity = false
belongs expected (some first) domain entity = eqb domain expected && (entity == first)

unfoldable pub all_belong : Text → Option EntityId → List DomainOperation → Bool
unfolding belongs
all_belong expected entity [] = true
all_belong expected entity (op ∷ ops) =
    belongs expected entity op.domain op.entity_id && all_belong expected entity ops

abbrev pub first_entity : List DomainOperation → Option EntityId
first_entity [] = none
first_entity (op ∷ ops) = some op.entity_id

-- `for operation in graph.ordered()`
unfoldable pub apply_all :
    CausalGraph DomainOperation
    → List DomainOperation
    → FoldState
    → ℕ
    → Bool
    → Outcome FoldError FoldState
apply_all graph [] state budget exceeded = ok state
apply_all graph (op ∷ ops) state budget exceeded = do
  (state', budget', exceeded') ← apply_operation graph op state budget exceeded
  apply_all graph ops state' budget' exceeded'

-- `fn fold`
unfoldable pub fold : List DomainOperation → Text → Outcome FoldError FoldState
fold operations expected_domain = do
  graph ← map_err causal (new operations)
  require (all_belong expected_domain (first_entity operations) operations) wrong_entity
  apply_all graph graph.ordered fold_state.default max_reachability_steps false

unfoldable pub apply_all_catalogs :
    CausalGraph DomainOperation
    → List DomainOperation
    → Map LogicalStoreId FoldState
    → ℕ
    → Bool
    → Outcome FoldError (Map LogicalStoreId FoldState)
apply_all_catalogs graph [] states budget exceeded = ok states
apply_all_catalogs graph (op ∷ ops) states budget exceeded = do
  (states', budget', exceeded') ← apply_catalog_operation graph op states budget exceeded
  apply_all_catalogs graph ops states' budget' exceeded'

abbrev pub catalog_domain : Text
catalog_domain = ascii "wayjournal.catalog"

abbrev pub profile_domain : Text
profile_domain = ascii "wayjournal.profile"

-- the states of `fold_catalogs`, by target
unfoldable pub fold_targets :
    List DomainOperation → Outcome FoldError (Map LogicalStoreId FoldState)
fold_targets operations = do
  graph ← map_err causal (new operations)
  require (all_belong catalog_domain (first_entity operations) operations) wrong_entity
  apply_all_catalogs graph graph.ordered [] max_reachability_steps false

-- `FoldLoadError`
pub data FoldLoadError {ℓ} (E : Type ℓ) : Type ℓ where
  fold_failed : FoldError → FoldLoadError E
  load_failed : E → FoldLoadError E

unfoldable pub all_headers_belong : Text → Option EntityId → List DomainOperationHeader → Bool
unfolding belongs
all_headers_belong expected entity [] = true
all_headers_belong expected entity (op ∷ ops) =
    belongs expected entity op.domain op.entity_id && all_headers_belong expected entity ops

module _ {ℓ} {E : Type ℓ} (read : ℕ → Outcome E DomainOperation) where
  -- the loop of `validate_loaded_builtin_fold`: one of the two states is in use
  unfoldable pub validate_all :
      CausalGraph DomainOperationHeader
      → Bool
      → List DomainOperationHeader
      → ValidationFoldState
      → Map LogicalStoreId ValidationFoldState
      → ℕ
      → Bool
      → Outcome (FoldLoadError E) (Unit {0})
  validate_all graph is_catalog [] profile catalogs budget exceeded = ok tt
  validate_all graph is_catalog (header ∷ headers) profile catalogs budget exceeded = do
    operation ← map_err load_failed (read header.source)
    elim is_catalog [
      | true ↦ do
        (catalogs', budget', exceeded') ←
            map_err fold_failed (apply_catalog_operation graph operation catalogs budget exceeded)
        validate_all graph is_catalog headers profile catalogs' budget' exceeded'
      | false ↦ do
        (profile', budget', exceeded') ←
            map_err fold_failed (apply_operation graph operation profile budget exceeded)
        validate_all graph is_catalog headers profile' catalogs budget' exceeded'
    ]

  -- `validate_loaded_builtin_fold`
  unfoldable pub validate_loaded_builtin_fold :
      List DomainOperationHeader → Outcome (FoldLoadError E) (Unit {0})
  validate_loaded_builtin_fold [] = ok tt
  validate_loaded_builtin_fold (first ∷ rest) = do
    graph ← map_err (λ e. fold_failed (causal e)) (new (first ∷ rest))
    require (all_headers_belong first.domain (some first.entity_id) (first ∷ rest))
        (fold_failed wrong_entity)
    validate_all graph (eqb first.domain catalog_domain) graph.ordered validation_state.default []
        max_reachability_steps false
