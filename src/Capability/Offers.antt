-- ===== src/Capability/Offers.antt =====
-- crates/wayjournal-core/src/capability.rs: what the constructors of offers and of requirements accept.
use wayjournal_build_attesta.Prelude.{
  ◌≡◌, ◌<◌, ◌≤◌, ◌⊎◌, inl, inr, refl, true, false, not, List, [], ◌∷◌, nat_ord, list_ord, arith,
  ltb, length, All, require, Ensures, returns, Ensures-bind, Ensures-require,
}
use wayjournal_build_attesta.Ids.{Text, LogicalStoreId}
use wayjournal_build_attesta.Collections.Set.{IsOrdered}
use wayjournal_build_attesta.Collections.Sort.{strictly_sorted}
use wayjournal_build_attesta.Capability.{
  CapabilityId, ProjectionId, OfferSet, CapabilityOffer, CapabilityOfferError,
  HandshakeRequirements, required_capabilities, required_projections, supported_capabilities,
  supported_projections, too_many_entries, invalid_set_order, unknown_local_capability,
  unknown_local_projection, max_capability_set_entries, validate_set, validate_offer_sets,
  new_offer, new_requirements, known_capability, known_projection, s5_capabilities, s5_projections,
}
use wayjournal_build_attesta.Capability.Intersection.{strictly_sorted-IsOrdered}
use wayjournal_build_attesta.Capability.Checks.{
  weaken, guarded, each_passes, IsIn, found_in-IsIn, not_IsIn-found_in, All-AllPass,
}

IsOrdered-strictly_sorted : (xs : List Text) → IsOrdered xs → strictly_sorted xs ≡ true
unfolding strictly_sorted
IsOrdered-strictly_sorted [] h = refl
IsOrdered-strictly_sorted (x ∷ []) h = refl
IsOrdered-strictly_sorted (x ∷ y ∷ xs) h =
    ground (arith, IsOrdered-strictly_sorted (y ∷ xs) h.1, h.0.0)

-- what a set must be
abbrev pub ValidSet : List Text → Type 0
ValidSet xs = (length xs ≤ 64) × IsOrdered xs

module _ (Q : CapabilityOfferError → Type 0) where
  validate_set-ValidSet :
      (xs : List Text) (set : OfferSet)
      → (64 < length xs → Q (too_many_entries set))
      → (¬ IsOrdered xs → Q (invalid_set_order set))
      → Ensures Q (λ (u : Unit {0}). ValidSet xs) (validate_set xs set)
  unfolding validate_set
  validate_set-ValidSet xs set many unordered =
      guarded (not (ltb max_capability_set_entries (length xs))) (too_many_entries set)
        (require (strictly_sorted xs) (invalid_set_order set)) (λ f. many (ground (arith, f)))
        (λ short.
          weaken (require (strictly_sorted xs) (invalid_set_order set))
            (Ensures-require (strictly_sorted xs) (invalid_set_order set)
              (λ f. unordered (λ o. let t = IsOrdered-strictly_sorted xs o in cc)))
            (λ sorted. (ground (arith, short), strictly_sorted-IsOrdered xs sorted)))

pub known_capability-IsIn : (c : CapabilityId) → known_capability c ≡ true → IsIn c s5_capabilities
unfolding known_capability
known_capability-IsIn c h = found_in-IsIn c s5_capabilities h

pub known_projection-IsIn : (p : ProjectionId) → known_projection p ≡ true → IsIn p s5_projections
unfolding known_projection
known_projection-IsIn p h = found_in-IsIn p s5_projections h

pub not_IsIn-known_capability :
    (c : CapabilityId) → known_capability c ≡ false → ¬ IsIn c s5_capabilities
unfolding known_capability
not_IsIn-known_capability c h = not_IsIn-found_in c s5_capabilities h

pub not_IsIn-known_projection :
    (p : ProjectionId) → known_projection p ≡ false → ¬ IsIn p s5_projections
unfolding known_projection
not_IsIn-known_projection p h = not_IsIn-found_in p s5_projections h

module _ (rc : List CapabilityId) (rp : List ProjectionId) (sc : List CapabilityId)
    (sp : List ProjectionId) where
  abbrev pub set_of : OfferSet → List Text
  set_of required_capabilities = rc
  set_of required_projections = rp
  set_of supported_capabilities = sc
  set_of supported_projections = sp

  -- Each of the four sets has at most 64 entries and is strictly ordered.
  abbrev pub ValidSets : Type 0
  ValidSets = ValidSet rc × ValidSet rp × ValidSet sc × ValidSet sp

  -- what each error says
  abbrev pub Invalid : CapabilityOfferError → Type 0
  Invalid (too_many_entries set) = 64 < length (set_of set)
  Invalid (invalid_set_order set) = ¬ IsOrdered (set_of set)
  Invalid (unknown_local_capability c) = (IsIn c rc ⊎ IsIn c sc) × (¬ IsIn c s5_capabilities)
  Invalid (unknown_local_projection p) = (IsIn p rp ⊎ IsIn p sp) × (¬ IsIn p s5_projections)

  validate_offer_sets-ValidSets :
      Ensures Invalid (λ (u : Unit {0}). ValidSets) (validate_offer_sets rc rp sc sp)
  unfolding validate_offer_sets
  validate_offer_sets-ValidSets =
      Ensures-bind (validate_set rc required_capabilities) _
        (validate_set-ValidSet Invalid rc required_capabilities (λ m. m) (λ o. o))
        (λ u e a.
          Ensures-bind (validate_set rp required_projections) _
            (validate_set-ValidSet Invalid rp required_projections (λ m. m) (λ o. o))
            (λ u e b.
              Ensures-bind (validate_set sc supported_capabilities) _
                (validate_set-ValidSet Invalid sc supported_capabilities (λ m. m) (λ o. o))
                (λ u e c.
                  weaken (validate_set sp supported_projections)
                    (validate_set-ValidSet Invalid sp supported_projections (λ m. m) (λ o. o))
                    (λ d. (a, b, c, d)))))

  -- An offer is made of exactly the given sets, each of which is strictly ordered and has at most 64
  -- entries; or the error names a set that has more entries or is not strictly ordered.
  pub new_offer-ValidSets :
      (store : LogicalStoreId)
      → Ensures Invalid
          (λ (offer : CapabilityOffer).
            (offer.logical_store_id ≡ store)
            × (offer.required_capabilities ≡ rc)
            × (offer.required_projections ≡ rp)
            × (offer.supported_capabilities ≡ sc)
            × (offer.supported_projections ≡ sp)
            × ValidSets)
          (new_offer store rc rp sc sp)
  unfolding new_offer
  new_offer-ValidSets store =
      Ensures-bind (validate_offer_sets rc rp sc sp) _ validate_offer_sets-ValidSets
        (λ u e v. returns (refl, refl, refl, refl, refl, v))

  -- The given sets are valid and every identifier of theirs is implemented.
  abbrev pub AreImplemented : Type 0
  AreImplemented =
      ValidSets
      × All (λ c. IsIn c s5_capabilities) rc
      × All (λ c. IsIn c s5_capabilities) sc
      × All (λ p. IsIn p s5_projections) rp
      × All (λ p. IsIn p s5_projections) sp

  -- The requirements hold the given sets, which are valid and implemented.
  abbrev pub Constructed : HandshakeRequirements → Type 0
  Constructed made =
      (made.required_capabilities ≡ rc)
      × (made.required_projections ≡ rp)
      × (made.supported_capabilities ≡ sc)
      × (made.supported_projections ≡ sp)
      × AreImplemented

  -- Local requirements are made of exactly the given sets, each of which is strictly ordered, has at
  -- most 64 entries and holds only identifiers that are implemented; or the error names a set that has
  -- more entries or is not strictly ordered, or an identifier of theirs that is not implemented.
  pub new_requirements-AreImplemented : Ensures Invalid Constructed (new_requirements rc rp sc sp)
  unfolding new_requirements
  new_requirements-AreImplemented =
      Ensures-bind (validate_offer_sets rc rp sc sp) _ validate_offer_sets-ValidSets (λ u e v.
        each_passes known_capability unknown_local_capability rc _
          (λ c m f. (inl (found_in-IsIn c rc m), not_IsIn-known_capability c f))
          (λ krc.
            each_passes known_capability unknown_local_capability sc _
              (λ c m f. (inr (found_in-IsIn c sc m), not_IsIn-known_capability c f))
              (λ ksc.
                each_passes known_projection unknown_local_projection rp _
                  (λ p m f. (inl (found_in-IsIn p rp m), not_IsIn-known_projection p f))
                  (λ krp.
                    each_passes known_projection unknown_local_projection sp _
                      (λ p m f. (inr (found_in-IsIn p sp m), not_IsIn-known_projection p f))
                      (λ ksp. returns (
                        refl,
                        refl,
                        refl,
                        refl,
                        (
                          v,
                          All-AllPass known_capability (λ c. IsIn c s5_capabilities) rc krc
                              known_capability-IsIn,
                          All-AllPass known_capability (λ c. IsIn c s5_capabilities) sc ksc
                              known_capability-IsIn,
                          All-AllPass known_projection (λ p. IsIn p s5_projections) rp krp
                              known_projection-IsIn,
                          All-AllPass known_projection (λ p. IsIn p s5_projections) sp ksp
                              known_projection-IsIn,
                        ),
                      ))))))
