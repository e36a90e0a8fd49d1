-- ===== src/Federation.antt =====
-- crates/wayjournal-core/src/federation.rs and revision.rs: what an admission checkpoint holds.
use wayjournal_build_attesta.Prelude.{
  ℕ, ◌≡◌, Bool, not, ◌||◌, ◌&&◌, ◌++◌, Ord, nat_ord, list_ord, pair_ord, ord_by, arith, length, leb,
  ◌==◌, if◌then◌else◌, Outcome, ok, err,
}
use wayjournal_build_attesta.Ids.{Text, ascii, Digest, LogicalStoreId, store_ord}
use wayjournal_build_attesta.Layout.{all_bytes, digit}

pub data GitObjectFormat : Type 0 where
  sha1 sha256 : GitObjectFormat

pub record GitOid : Type 0 where
  pub format : GitObjectFormat
  pub hex : Text

-- the derived orders
abbrev pub format_rank : GitObjectFormat → ℕ
format_rank sha1 = 0
format_rank sha256 = 1

abbrev pub oid_fields : GitOid → ℕ × Text
oid_fields oid = (format_rank oid.format, oid.hex)

pub oid_fields_injective : (a b : GitOid) → oid_fields a ≡ oid_fields b → a ≡ b
oid_fields_injective a b h = ground arith

instance abbrev pub oid_ord : Ord GitOid
oid_ord = ord_by oid_fields oid_fields_injective

-- `GitObjectFormat::as_str`
abbrev pub format_text : GitObjectFormat → Text
format_text sha1 = ascii "sha1"
format_text sha256 = ascii "sha256"

abbrev pub hex_len : GitObjectFormat → ℕ
hex_len sha1 = 40
hex_len sha256 = 64

pub data GitOidError : Type 0 where
  unsupported_format : Text → GitOidError
  non_canonical : Text → Text → GitOidError

abbrev pub oid_error_text : GitOidError → Text
oid_error_text (unsupported_format value) = ascii "unsupported Git object format: " ++ value
oid_error_text (non_canonical format value) =
    ascii "noncanonical " ++ format ++ ascii " object id: " ++ value

abbrev pub is_hex : ℕ → Bool
is_hex b = digit b || (leb 97 b && leb b 102)

-- `GitOid::parse`
unfoldable pub parse_oid : GitObjectFormat → Text → Outcome GitOidError GitOid
unfolding all_bytes
parse_oid format hex =
    if not (length hex == hex_len format) || not (all_bytes is_hex hex)
    then err (non_canonical (format_text format) hex)
    else ok (record { format = format; hex = hex })

pub data GitQuarantineReason : Type 0 where
  deletion modification rollback_non_ancestry missing_approved_ref invalid_commit_snapshot
        malformed_history path_collision uuid_collision idempotency_collision
        logical_identity_mismatch trust_mismatch unapproved_remote_ref unsafe_repository_state
        hostile_publication_state :
      GitQuarantineReason

-- `struct LocalTrustBinding(Digest)`
abbrev pub LocalTrustBinding : Type 0
LocalTrustBinding = Digest

-- `ApprovedRemoteLocator(String)` and `ApprovedRef(String)`
pub record ApprovedRemote : Type 0 where
  pub locator : Text
  pub reference : Text

pub data RevisionAlgorithm : Type 0 where
  wayjournal_blake3_framed_v1 waytask_blake3_framed_v1 : RevisionAlgorithm

pub record StoreRevisionRef : Type 0 where
  pub algorithm : RevisionAlgorithm
  pub digest : Digest

pub record AdmissionCheckpoint : Type 0 where
  pub logical_store_id : LogicalStoreId
  pub local_trust_binding : LocalTrustBinding
  pub approved_remote : ApprovedRemote
  pub accepted_commit : GitOid
  pub accepted_revision : StoreRevisionRef

abbrev pub remote_fields : ApprovedRemote → Text × Text
remote_fields r = (r.locator, r.reference)

pub remote_fields_injective : (r s : ApprovedRemote) → remote_fields r ≡ remote_fields s → r ≡ s
remote_fields_injective r s h = ground arith

instance abbrev pub remote_ord : Ord ApprovedRemote
remote_ord = ord_by remote_fields remote_fields_injective

abbrev pub algorithm_rank : RevisionAlgorithm → ℕ
algorithm_rank wayjournal_blake3_framed_v1 = 0
algorithm_rank waytask_blake3_framed_v1 = 1

abbrev pub revision_fields : StoreRevisionRef → ℕ × Digest
revision_fields r = (algorithm_rank r.algorithm, r.digest)

pub revision_fields_injective :
    (r s : StoreRevisionRef) → revision_fields r ≡ revision_fields s → r ≡ s
revision_fields_injective r s h = ground arith

instance abbrev pub revision_ord : Ord StoreRevisionRef
revision_ord = ord_by revision_fields revision_fields_injective

abbrev pub checkpoint_fields :
    AdmissionCheckpoint → LogicalStoreId × (Digest × (ApprovedRemote × (GitOid × StoreRevisionRef)))
checkpoint_fields c = (
  c.logical_store_id,
  (c.local_trust_binding, (c.approved_remote, (c.accepted_commit, c.accepted_revision))),
)

pub checkpoint_fields_injective :
    (c d : AdmissionCheckpoint) → checkpoint_fields c ≡ checkpoint_fields d → c ≡ d
checkpoint_fields_injective c d h = ground arith

-- `Eq` for checkpoints
instance abbrev pub checkpoint_ord : Ord AdmissionCheckpoint
checkpoint_ord = ord_by checkpoint_fields checkpoint_fields_injective

-- `X` is the executable of Git, a path and its open file.
pub record GitSyncRequest (X : Type 0) : Type 0 where
  pub executable : X
  pub local_trust : LocalTrustBinding
  pub approved_remote : ApprovedRemote
