-- ===== src/Domains/Views.antt =====
-- crates/wayjournal-core/src/domains.rs: what a folded state is read as, a profile or the entries of a
-- catalog.
use wayjournal_build_attesta.Prelude.{
  ℕ, ◌≡◌, Bool, true, false, Option, none, some, List, [], ◌∷◌, Ord, nat_ord, pair_ord, list_ord,
  ord_by, eqb, Outcome, ok, err, ◌>>=◌, arith, if◌then◌else◌, length, ltb, arith,
}
use wayjournal_build_attesta.Ids.{
  Text, RecordId, LogicalStoreId, QualifiedEntityRef, store_ord, entity_ord,
}
use wayjournal_build_attesta.Collections.Map
use wayjournal_build_attesta.Collections.Map.{Map}
use wayjournal_build_attesta.Collections.Dedup.{sort, dedup}
use wayjournal_build_attesta.Domains.{
  RemoteLocator, CatalogRelation, qualified, private_task_run_pair, ScalarValue, SetValue,
  ScalarField, SetField, scalar_ord, set_ord, DomainOperation,
}
use wayjournal_build_attesta.Domains.Fold.{
  FoldError, wrong_entity, wrong_target, FoldState, entry_or,
}
use wayjournal_build_attesta.Domains.Run.{fold, fold_targets, profile_domain}

-- the derived orders of the values
abbrev pub bool_rank : Bool → ℕ
bool_rank false = 0
bool_rank true = 1

pub bool_rank_injective : (a b : Bool) → bool_rank a ≡ bool_rank b → a ≡ b
bool_rank_injective a b h = ground arith

instance abbrev pub bool_ord : Ord Bool
bool_ord = ord_by bool_rank bool_rank_injective

abbrev pub locator_fields : RemoteLocator → Text × Bool
locator_fields r = (r.locator, r.requires_identity_validation)

pub locator_fields_injective : (r s : RemoteLocator) → locator_fields r ≡ locator_fields s → r ≡ s
locator_fields_injective r s h = ground arith

instance abbrev pub locator_ord : Ord RemoteLocator
locator_ord = ord_by locator_fields locator_fields_injective

-- A variant is below those that are declared after it.
abbrev pub relation_fields : CatalogRelation → ℕ × (QualifiedEntityRef × QualifiedEntityRef)
relation_fields (qualified r) = (0, (r, r))
relation_fields (private_task_run_pair task run) = (1, (task, run))

pub relation_fields_injective :
    (r s : CatalogRelation) → relation_fields r ≡ relation_fields s → r ≡ s
relation_fields_injective r s h = ground arith

instance abbrev pub relation_ord : Ord CatalogRelation
relation_ord = ord_by relation_fields relation_fields_injective

-- `struct MvRegister<T>`
pub record MvRegister {ℓ} (T : Type ℓ) : Type ℓ where
  pub values : List T

module _ {ℓ} {T : Type ℓ} where
  unfoldable pub is_conflicted : MvRegister T → Bool
  is_conflicted r = ltb 1 (length r.values)

  unfoldable pub resolved : MvRegister T → Option T
  resolved r = elim r.values [ [] ↦ none | x ∷ xs ↦ elim xs [ [] ↦ some x | y ∷ ys ↦ none ] ]

-- `type Values<T>`
abbrev pub Values : Type 0 → Type 0
Values T = Map Text (List T)

pub record AdvisoryProfile : Type 0 where
  pub display_name : MvRegister Text
  pub description : MvRegister Text
  pub application_identity : MvRegister Text
  pub recommended_remotes : Values RemoteLocator
  pub store_relations : Values QualifiedEntityRef
  pub capability_hints : Values Text
  pub actor_aliases : Values Text
  pub advisory_policy_hints : Values Text

pub record CatalogEntry : Type 0 where
  pub target : LogicalStoreId
  pub entry_name : MvRegister Text
  pub enabled : MvRegister Bool
  pub contextual_default_store : MvRegister LogicalStoreId
  pub aliases : Values Text
  pub candidate_remotes : Values RemoteLocator
  pub groups : Values Text
  pub store_relations : Values CatalogRelation

unfoldable pub implicit_destination : CatalogEntry → Option LogicalStoreId
unfolding resolved
implicit_destination entry = resolved entry.contextual_default_store

unfoldable pub alias_is_ambiguous : CatalogEntry → Text → Bool
alias_is_ambiguous entry alias = elim (Map.get alias entry.aliases) [
  | none ↦ false
  | some found ↦ ltb 1 (length found)
]

-- the closures that take one variant apart
abbrev pub scalar_text : ScalarValue → Option Text
scalar_text (ScalarValue.text v) = some v
scalar_text (ScalarValue.bool v) = none
scalar_text (ScalarValue.store v) = none

abbrev pub scalar_bool : ScalarValue → Option Bool
scalar_bool (ScalarValue.text v) = none
scalar_bool (ScalarValue.bool v) = some v
scalar_bool (ScalarValue.store v) = none

abbrev pub scalar_store : ScalarValue → Option LogicalStoreId
scalar_store (ScalarValue.text v) = none
scalar_store (ScalarValue.bool v) = none
scalar_store (ScalarValue.store v) = some v

abbrev pub set_text : SetValue → Option Text
set_text (SetValue.text v) = some v
set_text (SetValue.remote v) = none
set_text (SetValue.qualified v) = none
set_text (SetValue.relation v) = none

abbrev pub set_remote : SetValue → Option RemoteLocator
set_remote (SetValue.text v) = none
set_remote (SetValue.remote v) = some v
set_remote (SetValue.qualified v) = none
set_remote (SetValue.relation v) = none

abbrev pub set_qualified : SetValue → Option QualifiedEntityRef
set_qualified (SetValue.text v) = none
set_qualified (SetValue.remote v) = none
set_qualified (SetValue.qualified v) = some v
set_qualified (SetValue.relation v) = none

abbrev pub set_relation : SetValue → Option CatalogRelation
set_relation (SetValue.text v) = none
set_relation (SetValue.remote v) = none
set_relation (SetValue.qualified v) = none
set_relation (SetValue.relation v) = some v

module _ {V T : Type 0} where
  -- `values().filter_map(convert)`
  unfoldable pub converted : (V → Option T) → Map RecordId V → List T
  converted convert [] = []
  converted convert ((id, v) ∷ m) =
      let rest = converted convert m in elim (convert v) [ none ↦ rest | some t ↦ t ∷ rest ]

module _ {T : Type 0} ⦃o : Ord T⦄ where
  -- `register`
  unfoldable pub register : FoldState → ScalarField → (ScalarValue → Option T) → MvRegister T
  register state field convert = record {
    values = dedup (sort (converted convert (entry_or [] field state.registers)));
  }

  -- `collect` of the pairs that are left, one after the other
  unfoldable pub collect_values :
      SetField
      → (SetValue → Option T)
      → Map (SetField × Text) (Map RecordId SetValue)
      → Values T
      → Values T
  collect_values field convert [] out = out
  collect_values field convert (((candidate, key), adds) ∷ rest) out =
      collect_values field convert rest (
        if eqb candidate field
        then elim (dedup (sort (converted convert adds))) [
          | [] ↦ out
          | v ∷ vs ↦ Map.insert key (v ∷ vs) out
        ]
        else out)

  -- `values`
  unfoldable pub values_of : FoldState → SetField → (SetValue → Option T) → Values T
  values_of state field convert = collect_values field convert state.adds []

unfoldable pub profile_view : FoldState → AdvisoryProfile
profile_view state = record {
  display_name = register state ScalarField.display_name scalar_text;
  description = register state ScalarField.description scalar_text;
  application_identity = register state ScalarField.application scalar_text;
  recommended_remotes = values_of state SetField.remote set_remote;
  store_relations = values_of state SetField.relation set_qualified;
  capability_hints = values_of state SetField.capability set_text;
  actor_aliases = values_of state SetField.alias set_text;
  advisory_policy_hints = values_of state SetField.policy set_text;
}

-- `fold_profile`
unfoldable pub fold_profile : List DomainOperation → Outcome FoldError AdvisoryProfile
fold_profile operations = do state ← fold operations profile_domain; ok (profile_view state)

unfoldable pub catalog_entry : LogicalStoreId → FoldState → CatalogEntry
catalog_entry target state = record {
  target = target;
  entry_name = register state ScalarField.entry_name scalar_text;
  enabled = register state ScalarField.enabled scalar_bool;
  contextual_default_store = register state ScalarField.default_store scalar_store;
  aliases = values_of state SetField.alias set_text;
  candidate_remotes = values_of state SetField.remote set_remote;
  groups = values_of state SetField.group set_text;
  store_relations = values_of state SetField.relation set_relation;
}

-- `into_iter().map(..).collect()`
unfoldable pub catalog_entries : Map LogicalStoreId FoldState → Map LogicalStoreId CatalogEntry
catalog_entries [] = []
catalog_entries ((target, state) ∷ states) =
    (target, catalog_entry target state) ∷ catalog_entries states

-- `fold_catalogs`
unfoldable pub fold_catalogs :
    List DomainOperation → Outcome FoldError (Map LogicalStoreId CatalogEntry)
fold_catalogs operations = do states ← fold_targets operations; ok (catalog_entries states)

abbrev pub first_target : List DomainOperation → Option LogicalStoreId
first_target [] = none
first_target (op ∷ ops) = op.target

-- the first target of the operations that is not the expected one
unfoldable pub other_target : LogicalStoreId → List DomainOperation → Option LogicalStoreId
other_target expected [] = none
other_target expected (op ∷ ops) =
    let rest = other_target expected ops in
    elim op.target [ none ↦ rest | some actual ↦ if eqb actual expected then rest else some actual ]

-- `remove(&target).ok_or(FoldError::WrongEntity)`
abbrev pub entry_of : Option CatalogEntry → Outcome FoldError CatalogEntry
entry_of none = err wrong_entity
entry_of (some entry) = ok entry

-- `fold_catalog`
unfoldable pub fold_catalog : List DomainOperation → Outcome FoldError CatalogEntry
fold_catalog operations = elim (first_target operations) [
  | none ↦ err wrong_entity
  | some target ↦ elim (other_target target operations) [
    | some actual ↦ err (wrong_target target actual)
    | none ↦ fold_catalogs operations >>= λ entries. entry_of (Map.get target entries)
  ]
]
