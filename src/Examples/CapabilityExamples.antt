-- ===== src/Examples/CapabilityExamples.antt =====
-- crates/wayjournal-core/src/capability.rs: a negotiation between two sides that share one capability.
use wayjournal_build_attesta.Prelude.{
  ◌≡◌, refl, some, Option, [], ◌∷◌, Outcome, ok, err, Ensures, nat_ord, list_ord,
}
use wayjournal_build_attesta.Ids.{Text, ascii, LogicalStoreId, store_ord}
use wayjournal_build_attesta.Federation.{AdmissionCheckpoint, sha1, wayjournal_blake3_framed_v1}
use wayjournal_build_attesta.Collections.Set
use wayjournal_build_attesta.Collections.Sort.{strictly_sorted}
use wayjournal_build_attesta.Capability.{
  CapabilityOffer, HandshakeRequirements, negotiate_handshake, git_union_cas_capability, found_in,
  check_each, require_subset, intersection, ok_or, local_capability_requirement, new_offer,
  new_requirements, validate_offer_sets, validate_set, invalid_set_order, supported_capabilities,
  known_capability, known_projection,
}
use wayjournal_build_attesta.Capability.Offers.{
  ValidSets, Invalid, Constructed, new_offer-ValidSets, new_requirements-AreImplemented,
}
use wayjournal_build_attesta.Capability.Negotiation.{Agreed, Refused, negotiate_handshake-Agreed}

abbrev journal : LogicalStoreId
journal = record { store_uuid = 5; genesis_fingerprint = 9 }

abbrev accepted : AdmissionCheckpoint
accepted = record {
  logical_store_id = journal;
  local_trust_binding = 77;
  approved_remote = record {
    locator = ascii "file:///srv/journal";
    reference = ascii "refs/heads/main";
  };
  accepted_commit = record { format = sha1; hex = ascii "aa" };
  accepted_revision = record { algorithm = wayjournal_blake3_framed_v1; digest = 3 };
}

abbrev ours : HandshakeRequirements
ours = record {
  required_capabilities = git_union_cas_capability ∷ [];
  required_projections = [];
  supported_capabilities = ascii "wayjournal.batch/v1" ∷ git_union_cas_capability ∷ [];
  supported_projections = [];
}

abbrev theirs : CapabilityOffer
theirs = record {
  logical_store_id = journal;
  required_capabilities = [];
  required_projections = [];
  supported_capabilities = ascii "example.future/v9" ∷ git_union_cas_capability ∷ [];
  supported_projections = [];
}

abbrev read_accepted : Outcome Text (Option AdmissionCheckpoint)
read_accepted = ok (some accepted)

shared :
    negotiate_handshake read_accepted journal 77 ours theirs
    ≡ ok (record {
      checkpoint = accepted;
      capabilities = git_union_cas_capability ∷ [];
      projections = [];
    })
unfolding negotiate_handshake ok_or check_each require_subset found_in Set.contains intersection
shared = refl

not_offered :
    negotiate_handshake read_accepted journal 77 ours
      (record theirs { supported_capabilities = [] })
    ≡ err (local_capability_requirement git_union_cas_capability)
unfolding negotiate_handshake ok_or check_each require_subset found_in Set.contains intersection
not_offered = refl

ours_made :
    new_requirements ours.required_capabilities ours.required_projections
      ours.supported_capabilities ours.supported_projections
    ≡ ok ours
unfolding new_requirements validate_offer_sets validate_set strictly_sorted check_each
    known_capability known_projection found_in Set.contains
ours_made = refl

negotiate_handshake-Agreed_example :
    Ensures
      (Refused read_accepted journal 77 ours theirs)
      (Agreed read_accepted journal 77 ours theirs)
      (negotiate_handshake read_accepted journal 77 ours theirs)
unfolding strictly_sorted
negotiate_handshake-Agreed_example =
    negotiate_handshake-Agreed read_accepted journal 77 ours theirs (λ e. cc)
      (
        ours.required_capabilities, ours.required_projections, ours.supported_capabilities,
        ours.supported_projections, ours_made,
      )
      refl refl

-- a set that is out of order
unordered :
    new_offer journal [] [] (git_union_cas_capability ∷ ascii "wayjournal.batch/v1" ∷ []) []
    ≡ err (invalid_set_order supported_capabilities)
unfolding new_offer validate_offer_sets validate_set strictly_sorted
unordered = refl

new_offer-ValidSets_example :
    Ensures
      (Invalid [] [] (git_union_cas_capability ∷ []) [])
      (λ (offer : CapabilityOffer).
        (offer.logical_store_id ≡ journal)
        × (offer.required_capabilities ≡ [])
        × (offer.required_projections ≡ [])
        × (offer.supported_capabilities ≡ git_union_cas_capability ∷ [])
        × (offer.supported_projections ≡ [])
        × ValidSets [] [] (git_union_cas_capability ∷ []) [])
      (new_offer journal [] [] (git_union_cas_capability ∷ []) [])
new_offer-ValidSets_example = new_offer-ValidSets [] [] (git_union_cas_capability ∷ []) [] journal

new_requirements-AreImplemented_example :
    Ensures
      (Invalid [] [] (git_union_cas_capability ∷ []) [])
      (Constructed [] [] (git_union_cas_capability ∷ []) [])
      (new_requirements [] [] (git_union_cas_capability ∷ []) [])
new_requirements-AreImplemented_example =
    new_requirements-AreImplemented [] [] (git_union_cas_capability ∷ []) []
