-- ===== src/Domains.antt =====
-- crates/wayjournal-core/src/domains.rs: profile and catalog operations.
-- `Fold` is the step of the fold over a causal graph, `Run` the folds over a whole history; the
-- others hold proofs.
pub mod Fold
pub mod Run
pub mod Erasure
pub mod Steps
pub mod Refinement
pub mod Entries
pub mod Observed
pub mod Removal
pub mod Effect
pub mod WellFormed
pub mod Views
pub mod Reads
pub mod Shows
pub mod Antichain
use wayjournal_build_attesta.Prelude.{
  ℕ, ◌≡◌, Bool, true, false, Option, List, Ord, nat_ord, pair_ord, list_ord, ord_by, arith,
}
use wayjournal_build_attesta.Ids.{
  Text, RecordId, EntityId, DomainId, LogicalStoreId, QualifiedEntityRef, store_ord, entity_ord,
}
use wayjournal_build_attesta.Causal.{CausalNode}

pub record RemoteLocator : Type 0 where
  pub locator : Text
  pub requires_identity_validation : Bool

pub data CatalogRelation : Type 0 where
  qualified : QualifiedEntityRef → CatalogRelation
  private_task_run_pair : QualifiedEntityRef → QualifiedEntityRef → CatalogRelation

pub data ScalarValue : Type 0 where
  text : Text → ScalarValue
  bool : Bool → ScalarValue
  store : LogicalStoreId → ScalarValue

pub data SetValue : Type 0 where
  text : Text → SetValue
  remote : RemoteLocator → SetValue
  qualified : QualifiedEntityRef → SetValue
  relation : CatalogRelation → SetValue

pub data ScalarField : Type 0 where
  display_name description application entry_name enabled default_store : ScalarField

pub data SetField : Type 0 where
  remote relation capability alias policy group : SetField

-- The fields are ordered as they are declared.
abbrev pub scalar_rank : ScalarField → ℕ
scalar_rank display_name = 0
scalar_rank description = 1
scalar_rank application = 2
scalar_rank entry_name = 3
scalar_rank enabled = 4
scalar_rank default_store = 5

abbrev pub set_rank : SetField → ℕ
set_rank remote = 0
set_rank relation = 1
set_rank capability = 2
set_rank alias = 3
set_rank policy = 4
set_rank group = 5

pub scalar_rank_injective : (f g : ScalarField) → scalar_rank f ≡ scalar_rank g → f ≡ g
scalar_rank_injective f g h = ground arith

pub set_rank_injective : (f g : SetField) → set_rank f ≡ set_rank g → f ≡ g
set_rank_injective f g h = ground arith

instance abbrev pub scalar_ord : Ord ScalarField
scalar_ord = ord_by scalar_rank scalar_rank_injective

instance abbrev pub set_ord : Ord SetField
set_ord = ord_by set_rank set_rank_injective

pub data OperationKind : Type 0 where
  scalar_set : ScalarField → ScalarValue → OperationKind
  scalar_resolve : ScalarField → ScalarValue → List RecordId → OperationKind
  add : SetField → Text → SetValue → OperationKind
  remove : SetField → Text → List RecordId → OperationKind

pub record DomainOperation : Type 0 where
  pub record_id : RecordId
  pub entity_id : EntityId
  pub parents : List RecordId
  pub domain : DomainId
  pub target : Option LogicalStoreId
  pub kind : OperationKind

pub record DomainOperationHeader : Type 0 where
  pub source : ℕ
  pub record_id : RecordId
  pub entity_id : EntityId
  pub parents : List RecordId
  pub domain : DomainId

instance abbrev pub operation_causal : CausalNode DomainOperation
operation_causal = record { record_id = λ op. op.record_id; parents = λ op. op.parents }

instance abbrev pub header_causal : CausalNode DomainOperationHeader
header_causal = record { record_id = λ op. op.record_id; parents = λ op. op.parents }

-- `DomainOperation::into_header`
unfoldable pub into_header : DomainOperation → ℕ → DomainOperationHeader
into_header op source = record {
  source = source;
  record_id = op.record_id;
  entity_id = op.entity_id;
  parents = op.parents;
  domain = op.domain;
}
