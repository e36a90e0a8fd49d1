-- ===== src/Capability/Negotiation.antt =====
-- crates/wayjournal-core/src/capability.rs: what a handshake guarantees, and why one fails.
use wayjournal_build_attesta.Prelude.{
  sym, Bool, All, List, subst, Ensures-ok, ◌≡◌, ◌≢◌, refl, true, false, ◌&&◌, Option, none, some,
  nat_ord, list_ord, arith, eqb, Outcome, ok, err, fault, ◌>>=◌, ◌>>◌, require, map_err, Ensures,
  returns, raises, Ensures-bind, ◌==◌,
}
use wayjournal_build_attesta.Ids.{LogicalStoreId, store_ord}
use wayjournal_build_attesta.Federation.{AdmissionCheckpoint, LocalTrustBinding}
use wayjournal_build_attesta.Collections.Sort.{strictly_sorted}
use wayjournal_build_attesta.Capability.{
  CapabilityId, ProjectionId, CapabilityOffer, HandshakeRequirements, NegotiationError,
  checkpoint_authority, missing_checkpoint, expected_store_mismatch, remote_store_mismatch,
  trust_mismatch, unknown_required_capability, unknown_required_projection,
  local_capability_requirement, remote_capability_requirement, local_projection_requirement,
  remote_projection_requirement, NegotiatedHandshake, found_in, check_each, known_capability,
  known_projection, require_subset, intersection, ok_or, negotiate_handshake, supports_capability,
  supports_projection, new_requirements, s5_capabilities, s5_projections,
}
use wayjournal_build_attesta.Capability.Intersection.{intersection_lem, strictly_sorted-IsOrdered}
use wayjournal_build_attesta.Capability.Checks.{
  AllPass, guarded, each_passes, same_of_require, IsIn, All-AllPass, All-found_in,
}
use wayjournal_build_attesta.Capability.Offers.{
  Constructed, AreImplemented, Invalid, new_requirements-AreImplemented, known_capability-IsIn,
  known_projection-IsIn, not_IsIn-known_capability, not_IsIn-known_projection,
}

both_true : {found a : Bool} (b : Bool) → found ≡ (a && b) → found ≡ true → a ≡ true
both_true b e h = ground (arith, e, h)

module _ {E : Type 0} (admission_checkpoint : Outcome E (Option AdmissionCheckpoint))
    (expected_store : LogicalStoreId) (expected_trust : LocalTrustBinding)
    (local : HandshakeRequirements) (remote : CapabilityOffer) where
  -- what a handshake guarantees
  pub record Agreed (h : NegotiatedHandshake) : Type 0 where
    pub current : admission_checkpoint ≡ ok (some h.checkpoint)
    pub store : h.checkpoint.logical_store_id ≡ expected_store
    pub remote_store : remote.logical_store_id ≡ expected_store
    pub trust : h.checkpoint.local_trust_binding ≡ expected_trust
    pub capabilities :
        (c : CapabilityId)
        → supports_capability h c
          ≡ (found_in c local.supported_capabilities && found_in c remote.supported_capabilities)
    pub projections :
        (p : ProjectionId)
        → supports_projection h p
          ≡ (found_in p local.supported_projections && found_in p remote.supported_projections)
    pub implemented_capabilities :
        (c : CapabilityId) → supports_capability h c ≡ true → IsIn c s5_capabilities
    pub implemented_projections :
        (p : ProjectionId) → supports_projection h p ≡ true → IsIn p s5_projections
    pub known_capabilities : All (λ c. IsIn c s5_capabilities) remote.required_capabilities
    pub known_projections : All (λ p. IsIn p s5_projections) remote.required_projections
    pub local_known_capabilities : All (λ c. IsIn c s5_capabilities) local.required_capabilities
    pub local_known_projections : All (λ p. IsIn p s5_projections) local.required_projections
    pub local_capabilities :
        AllPass (λ c. found_in c remote.supported_capabilities) local.required_capabilities
    pub remote_capabilities :
        AllPass (λ c. found_in c local.supported_capabilities) remote.required_capabilities
    pub local_projections :
        AllPass (λ p. found_in p remote.supported_projections) local.required_projections
    pub remote_projections :
        AllPass (λ p. found_in p local.supported_projections) remote.required_projections

  -- what each error says
  abbrev pub Refused : NegotiationError E → Type 0
  Refused (checkpoint_authority e) = admission_checkpoint ≡ err e
  Refused missing_checkpoint = admission_checkpoint ≡ ok none
  Refused expected_store_mismatch =
      (checkpoint : AdmissionCheckpoint) × (admission_checkpoint ≡ ok (some checkpoint))
      × (eqb checkpoint.logical_store_id expected_store ≡ false)
  Refused remote_store_mismatch = (eqb remote.logical_store_id expected_store ≡ false)
  Refused trust_mismatch =
      (checkpoint : AdmissionCheckpoint) × (admission_checkpoint ≡ ok (some checkpoint))
      × ((checkpoint.local_trust_binding == expected_trust) ≡ false)
  Refused (unknown_required_capability c) =
      ((found_in c remote.required_capabilities ≡ true) × (¬ IsIn c s5_capabilities))
  Refused (unknown_required_projection p) =
      ((found_in p remote.required_projections ≡ true) × (¬ IsIn p s5_projections))
  Refused (local_capability_requirement c) =
      ((found_in c local.required_capabilities ≡ true)
        × (found_in c remote.supported_capabilities ≡ false))
  Refused (remote_capability_requirement c) =
      ((found_in c remote.required_capabilities ≡ true)
        × (found_in c local.supported_capabilities ≡ false))
  Refused (local_projection_requirement p) =
      ((found_in p local.required_projections ≡ true)
        × (found_in p remote.supported_projections ≡ false))
  Refused (remote_projection_requirement p) =
      ((found_in p remote.required_projections ≡ true)
        × (found_in p local.supported_projections ≡ false))

  -- `negotiate_handshake` once the checkpoint is read, from each of its tests on
  module _ (checkpoint : AdmissionCheckpoint) where
    abbrev negotiated : NegotiatedHandshake
    negotiated = record {
      checkpoint = checkpoint;
      capabilities = intersection local.supported_capabilities remote.supported_capabilities;
      projections = intersection local.supported_projections remote.supported_projections;
    }

    abbrev Run : Type 0
    Run = Outcome (NegotiationError E) NegotiatedHandshake

    abbrev after_lp : Run
    after_lp =
        check_each (λ p. found_in p local.supported_projections) remote_projection_requirement
          remote.required_projections
        >> ok negotiated

    abbrev after_rc : Run
    after_rc =
        check_each (λ p. found_in p remote.supported_projections) local_projection_requirement
          local.required_projections
        >> after_lp

    abbrev after_lc : Run
    after_lc =
        check_each (λ c. found_in c local.supported_capabilities) remote_capability_requirement
          remote.required_capabilities
        >> after_rc

    abbrev after_known : Run
    after_known =
        check_each (λ c. found_in c remote.supported_capabilities) local_capability_requirement
          local.required_capabilities
        >> after_lc

    abbrev after_kc : Run
    after_kc =
        check_each known_projection unknown_required_projection remote.required_projections
        >> after_known

    abbrev after_trust : Run
    after_trust =
        check_each known_capability unknown_required_capability remote.required_capabilities
        >> after_kc

    abbrev after_remote : Run
    after_remote =
        require (checkpoint.local_trust_binding == expected_trust) trust_mismatch >> after_trust

    abbrev after_store : Run
    after_store =
        require (eqb remote.logical_store_id expected_store) remote_store_mismatch >> after_remote

    abbrev identified : Run
    identified =
        require (eqb checkpoint.logical_store_id expected_store) expected_store_mismatch
        >> after_store

  module _ (not_fault : admission_checkpoint ≢ fault)
      (made : (rc : List CapabilityId) × (rp : List ProjectionId) × (sc : List CapabilityId)
        × (sp : List ProjectionId) × (new_requirements rc rp sc sp ≡ ok local))
      (remote_capabilities_sorted : strictly_sorted remote.supported_capabilities ≡ true)
      (remote_projections_sorted : strictly_sorted remote.supported_projections ≡ true) where
    -- what the constructor of the local requirements has checked of them
    local_Implemented :
        AreImplemented local.required_capabilities local.required_projections
          local.supported_capabilities local.supported_projections
    local_Implemented =
        let (rc, rp, sc, sp, run) = made in
        let (a, b, c, d, i) = Ensures-ok (
          subst (Ensures (Invalid rc rp sc sp) (Constructed rc rp sc sp)) run
            (new_requirements-AreImplemented rc rp sc sp)) in
        let lrp = local.required_projections in
        let lsc = local.supported_capabilities in
        let lsp = local.supported_projections in
        subst (λ x. AreImplemented x lrp lsc lsp) (sym a)
          (subst (λ x. AreImplemented rc x lsc lsp) (sym b)
            (subst (λ x. AreImplemented rc rp x lsp) (sym c)
              (subst (λ x. AreImplemented rc rp sc x) (sym d) i)))

    common_capabilities :
        (c : CapabilityId)
        → found_in c (intersection local.supported_capabilities remote.supported_capabilities)
          ≡ (found_in c local.supported_capabilities && found_in c remote.supported_capabilities)
    common_capabilities =
        intersection_lem local.supported_capabilities remote.supported_capabilities
          local_Implemented.0.2.1
          (strictly_sorted-IsOrdered remote.supported_capabilities remote_capabilities_sorted)

    common_projections :
        (p : ProjectionId)
        → found_in p (intersection local.supported_projections remote.supported_projections)
          ≡ (found_in p local.supported_projections && found_in p remote.supported_projections)
    common_projections =
        intersection_lem local.supported_projections remote.supported_projections
          local_Implemented.0.3.1
          (strictly_sorted-IsOrdered remote.supported_projections remote_projections_sorted)

    read_checkpoint :
        Ensures Refused
          (λ read. admission_checkpoint ≡ ok read)
          (map_err checkpoint_authority admission_checkpoint)
    read_checkpoint = go admission_checkpoint refl
      where
        go :
            (m : Outcome E (Option AdmissionCheckpoint))
            → admission_checkpoint ≡ m
            → Ensures Refused
                (λ read. admission_checkpoint ≡ ok read)
                (map_err checkpoint_authority m)
        go (ok read) e = returns e
        go (err x) e = raises e
        go fault e = absurd (not_fault e)

    present :
        (read : Option AdmissionCheckpoint)
        → admission_checkpoint ≡ ok read
        → Ensures Refused
            (λ checkpoint. admission_checkpoint ≡ ok (some checkpoint))
            (ok_or missing_checkpoint read)
    unfolding ok_or
    present none e = raises e
    present (some checkpoint) e = returns e

    identified-Agreed :
        (checkpoint : AdmissionCheckpoint)
        → admission_checkpoint ≡ ok (some checkpoint)
        → Ensures Refused Agreed (identified checkpoint)
    unfolding supports_capability supports_projection
    identified-Agreed cp current =
        guarded (eqb cp.logical_store_id expected_store) expected_store_mismatch (after_store cp)
          (λ f. (cp, current, f))
          (λ store.
            guarded (eqb remote.logical_store_id expected_store) remote_store_mismatch
              (after_remote cp) (λ f. f)
              (λ other.
                guarded (cp.local_trust_binding == expected_trust) trust_mismatch (after_trust cp)
                  (λ f. (cp, current, f))
                  (λ trust.
                    each_passes known_capability unknown_required_capability
                      remote.required_capabilities (after_kc cp)
                      (λ x m f. (m, not_IsIn-known_capability x f))
                      (λ kc.
                        each_passes known_projection unknown_required_projection
                          remote.required_projections (after_known cp)
                          (λ x m f. (m, not_IsIn-known_projection x f))
                          (λ kp.
                            each_passes (λ c. found_in c remote.supported_capabilities)
                              local_capability_requirement local.required_capabilities (after_lc cp)
                              (λ x m f. (m, f))
                              (λ lc.
                                each_passes (λ c. found_in c local.supported_capabilities)
                                  remote_capability_requirement remote.required_capabilities
                                  (after_rc cp) (λ x m f. (m, f))
                                  (λ rc.
                                    each_passes (λ p. found_in p remote.supported_projections)
                                      local_projection_requirement local.required_projections
                                      (after_lp cp) (λ x m f. (m, f))
                                      (λ lp.
                                        each_passes (λ p. found_in p local.supported_projections)
                                          remote_projection_requirement remote.required_projections
                                          (ok (negotiated cp)) (λ x m f. (m, f))
                                          (λ rp. returns (record {
                                            current = current;
                                            store =
                                                same_of_require cp.logical_store_id expected_store
                                                  store;
                                            remote_store =
                                                same_of_require remote.logical_store_id
                                                  expected_store other;
                                            trust = ground (arith, trust);
                                            capabilities = common_capabilities;
                                            projections = common_projections;
                                            implemented_capabilities = λ c h.
                                                All-found_in (λ x. IsIn x s5_capabilities) c
                                                  local.supported_capabilities local_Implemented.2
                                                  (both_true
                                                    (found_in c remote.supported_capabilities)
                                                    (common_capabilities c) h);
                                            implemented_projections = λ p h.
                                                All-found_in (λ x. IsIn x s5_projections) p
                                                  local.supported_projections local_Implemented.4
                                                  (both_true
                                                    (found_in p remote.supported_projections)
                                                    (common_projections p) h);
                                            known_capabilities =
                                                All-AllPass known_capability
                                                  (λ c. IsIn c s5_capabilities)
                                                  remote.required_capabilities kc
                                                  known_capability-IsIn;
                                            known_projections =
                                                All-AllPass known_projection
                                                  (λ p. IsIn p s5_projections)
                                                  remote.required_projections kp
                                                  known_projection-IsIn;
                                            local_known_capabilities = local_Implemented.1;
                                            local_known_projections = local_Implemented.3;
                                            local_capabilities = lc;
                                            remote_capabilities = rc;
                                            local_projections = lp;
                                            remote_projections = rp;
                                          }))))))))))

    -- Where the local requirements were made by their constructor, the supported sets of the offer are
    -- strictly sorted and reading the checkpoint does not panic, a negotiation ends with a handshake that
    -- is bound to the current checkpoint, to the expected store and trust, that supports exactly the
    -- capabilities and projections that both sides support, each of them implemented, and where every
    -- requirement of both sides is implemented and met by the other; or it ends with an error that is
    -- true of its input.
    pub negotiate_handshake-Agreed :
        Ensures Refused Agreed
          (negotiate_handshake admission_checkpoint expected_store expected_trust local remote)
    unfolding negotiate_handshake require_subset
    negotiate_handshake-Agreed =
        Ensures-bind (map_err checkpoint_authority admission_checkpoint)
          (λ read. ok_or missing_checkpoint read >>= identified) read_checkpoint
          (λ read e0 r.
            Ensures-bind (ok_or missing_checkpoint read) identified (present read r)
              (λ checkpoint e1 current. identified-Agreed checkpoint current))
