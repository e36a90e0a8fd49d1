-- ===== src/Capability.antt =====
-- crates/wayjournal-core/src/capability.rs: offers, requirements and the handshake. What
-- `Store::admission_checkpoint` returns is an argument of `negotiate_handshake`.
pub mod Intersection
pub mod Checks
pub mod Offers
pub mod Negotiation
use wayjournal_build_attesta.Prelude.{
  ℕ, ◌≡◌, Bool, true, false, not, ◌&&◌, ◌||◌, Option, none, some, List, [], ◌∷◌, Ord, Ordering,
  nat_ord, list_ord, ltb, eqb, length, Outcome, ok, err, ◌>>=◌, ◌>>◌, require, map_err, ◌==◌,
}
use Prim.Native.Nat.Ordering.{lt, eq, gt}
use wayjournal_build_attesta.Ids.{Text, ascii, LogicalStoreId, Digest, store_ord}
use wayjournal_build_attesta.Federation.{AdmissionCheckpoint, LocalTrustBinding}
use wayjournal_build_attesta.Collections.Set
use wayjournal_build_attesta.Collections.Sort.{strictly_sorted}

-- `struct CapabilityId(String)` and `struct ProjectionId(String)`
abbrev pub CapabilityId : Type 0
CapabilityId = Text

abbrev pub ProjectionId : Type 0
ProjectionId = Text

abbrev pub max_capability_set_entries : ℕ
max_capability_set_entries = 64

abbrev pub git_union_cas_capability : CapabilityId
git_union_cas_capability = ascii "wayjournal.sync/git-union-cas-v1"

abbrev pub s5_capabilities : List CapabilityId
s5_capabilities =
    ascii "wayjournal.json/v1"
    ∷ ascii "wayjournal.record/v1"
    ∷ ascii "wayjournal.batch/v1"
    ∷ ascii "wayjournal.layout/v1"
    ∷ ascii "wayjournal.store/blake3-framed-v1"
    ∷ ascii "wayjournal.identity/v1"
    ∷ ascii "wayjournal.profile/v1"
    ∷ ascii "wayjournal.catalog/v1"
    ∷ ascii "wayjournal.admission-checkpoint/v1"
    ∷ git_union_cas_capability
    ∷ ascii "wayjournal.verified-proof/v1"
    ∷ ascii "wayjournal.revision-vector/v1"
    ∷ ascii "wayjournal.proof-vector/v1"
    ∷ ascii "wayjournal.projection-cache/v1"
    ∷ ascii "waytask.layout/v1"
    ∷ ascii "waytask.store/blake3-framed-v1"
    ∷ []

abbrev pub s5_projections : List ProjectionId
s5_projections =
    ascii "wayjournal.projection/proof-vector-v1"
    ∷ ascii "wayjournal.projection/revision-vector-v1"
    ∷ ascii "wayjournal.projection/verified-proof-v1"
    ∷ []

-- which of the four sets of an offer an error is about
pub data OfferSet : Type 0 where
  required_capabilities required_projections supported_capabilities supported_projections : OfferSet

-- the errors of the constructors; those of the JSON form are left out
pub data CapabilityOfferError : Type 0 where
  too_many_entries : OfferSet → CapabilityOfferError
  invalid_set_order : OfferSet → CapabilityOfferError
  unknown_local_capability : CapabilityId → CapabilityOfferError
  unknown_local_projection : ProjectionId → CapabilityOfferError

-- `binary_search(..).is_ok()` on a slice, and `contains` on one: whether the item is there. Every
-- slice that is searched is strictly sorted, where a binary search finds exactly what is there.
unfoldable pub found_in : Text → List Text → Bool
found_in = Set.contains

unfoldable pub known_capability : CapabilityId → Bool
known_capability capability = found_in capability s5_capabilities

unfoldable pub known_projection : ProjectionId → Bool
known_projection projection = found_in projection s5_projections

unfoldable pub validate_set : List Text → OfferSet → Outcome CapabilityOfferError (Unit {0})
validate_set values set =
    require (not (ltb max_capability_set_entries (length values))) (too_many_entries set)
    >> require (strictly_sorted values) (invalid_set_order set)

unfoldable pub validate_offer_sets :
    List CapabilityId
    → List ProjectionId
    → List CapabilityId
    → List ProjectionId
    → Outcome CapabilityOfferError (Unit {0})
validate_offer_sets rc rp sc sp = do
  validate_set rc required_capabilities
  validate_set rp required_projections
  validate_set sc supported_capabilities
  validate_set sp supported_projections

pub record CapabilityOffer : Type 0 where
  pub logical_store_id : LogicalStoreId
  pub required_capabilities : List CapabilityId
  pub required_projections : List ProjectionId
  pub supported_capabilities : List CapabilityId
  pub supported_projections : List ProjectionId

-- `CapabilityOffer::new`
unfoldable pub new_offer :
    LogicalStoreId
    → List CapabilityId
    → List ProjectionId
    → List CapabilityId
    → List ProjectionId
    → Outcome CapabilityOfferError CapabilityOffer
new_offer store rc rp sc sp = do
  validate_offer_sets rc rp sc sp
  ok (record {
    logical_store_id = store;
    required_capabilities = rc;
    required_projections = rp;
    supported_capabilities = sc;
    supported_projections = sp;
  })

pub record HandshakeRequirements : Type 0 where
  pub required_capabilities : List CapabilityId
  pub required_projections : List ProjectionId
  pub supported_capabilities : List CapabilityId
  pub supported_projections : List ProjectionId

-- a loop that refuses the first item that does not pass
unfoldable pub check_each {ℓ} :
    {E : Type ℓ} → (Text → Bool) → (Text → E) → List Text → Outcome E (Unit {0})
check_each passes error [] = ok tt
check_each passes error (x ∷ xs) = require (passes x) (error x) >> check_each passes error xs

-- `HandshakeRequirements::new`
unfoldable pub new_requirements :
    List CapabilityId
    → List ProjectionId
    → List CapabilityId
    → List ProjectionId
    → Outcome CapabilityOfferError HandshakeRequirements
new_requirements rc rp sc sp = do
  validate_offer_sets rc rp sc sp
  check_each known_capability unknown_local_capability rc
  check_each known_capability unknown_local_capability sc
  check_each known_projection unknown_local_projection rp
  check_each known_projection unknown_local_projection sp
  ok (record {
    required_capabilities = rc;
    required_projections = rp;
    supported_capabilities = sc;
    supported_projections = sp;
  })

-- `E` is what reading the checkpoint may fail with.
pub data NegotiationError {ℓ} (E : Type ℓ) : Type ℓ where
  checkpoint_authority : E → NegotiationError E
  missing_checkpoint expected_store_mismatch remote_store_mismatch trust_mismatch :
      NegotiationError E
  unknown_required_capability : CapabilityId → NegotiationError E
  unknown_required_projection : ProjectionId → NegotiationError E
  local_capability_requirement : CapabilityId → NegotiationError E
  remote_capability_requirement : CapabilityId → NegotiationError E
  local_projection_requirement : ProjectionId → NegotiationError E
  remote_projection_requirement : ProjectionId → NegotiationError E

pub record NegotiatedHandshake : Type 0 where
  pub checkpoint : AdmissionCheckpoint
  pub capabilities : List CapabilityId
  pub projections : List ProjectionId

unfoldable pub require_subset {ℓ} :
    {E : Type ℓ} → List Text → List Text → (Text → E) → Outcome E (Unit {0})
require_subset required supported error = check_each (λ x. found_in x supported) error required

-- the loop of `intersection`, on what is left from the two indices on
unfoldable pub intersection : List Text → List Text → List Text
intersection [] right = []
intersection (x ∷ left) [] = []
intersection (x ∷ left) (y ∷ right) = elim (list_ord.cmp x y) [
  | lt ↦ intersection left (y ∷ right)
  | gt ↦ intersection (x ∷ left) right
  | eq ↦ x ∷ intersection left right
]

-- `ok_or`
unfoldable pub ok_or {ℓ κ} : {E : Type ℓ} {A : Type κ} → E → Option A → Outcome E A
ok_or e none = err e
ok_or e (some a) = ok a

-- `negotiate_handshake`
unfoldable pub negotiate_handshake {ℓ} :
    {E : Type ℓ}
    → Outcome E (Option AdmissionCheckpoint)
    → LogicalStoreId
    → LocalTrustBinding
    → HandshakeRequirements
    → CapabilityOffer
    → Outcome (NegotiationError E) NegotiatedHandshake
negotiate_handshake admission_checkpoint expected_store expected_trust local remote = do
  read ← map_err checkpoint_authority admission_checkpoint
  checkpoint ← ok_or missing_checkpoint read
  require (eqb checkpoint.logical_store_id expected_store) expected_store_mismatch
  require (eqb remote.logical_store_id expected_store) remote_store_mismatch
  require (checkpoint.local_trust_binding == expected_trust) trust_mismatch
  check_each known_capability unknown_required_capability remote.required_capabilities
  check_each known_projection unknown_required_projection remote.required_projections
  require_subset local.required_capabilities remote.supported_capabilities
      local_capability_requirement
  require_subset remote.required_capabilities local.supported_capabilities
      remote_capability_requirement
  require_subset local.required_projections remote.supported_projections
      local_projection_requirement
  require_subset remote.required_projections local.supported_projections
      remote_projection_requirement
  ok (record {
    checkpoint = checkpoint;
    capabilities = intersection local.supported_capabilities remote.supported_capabilities;
    projections = intersection local.supported_projections remote.supported_projections;
  })

unfoldable pub supports_capability : NegotiatedHandshake → CapabilityId → Bool
supports_capability handshake capability = found_in capability handshake.capabilities

unfoldable pub supports_projection : NegotiatedHandshake → ProjectionId → Bool
supports_projection handshake projection = found_in projection handshake.projections

unfoldable pub supports_git_union_cas : NegotiatedHandshake → Bool
supports_git_union_cas handshake = found_in git_union_cas_capability handshake.capabilities
