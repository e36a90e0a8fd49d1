-- ===== src/Multi/Liveness.antt =====
-- crates/wayjournal-core/src/federation/multi.rs: what is authorised is synchronised.
use wayjournal_build_attesta.Prelude.{
  ◌≤◌, ◌≡◌, refl, ap, ◌∙◌, Bool, true, ◌&&◌, List, [], ◌∷◌, arith, nat_ord, leb, length, Outcome,
  ok, err, fault, require_passes, bind_value,
}
use wayjournal_build_attesta.Ids.{store_ord}
use wayjournal_build_attesta.Capability.Checks.{eqb_same}
use wayjournal_build_attesta.Federation.{
  AdmissionCheckpoint, checkpoint_ord, remote_ord, revision_ord,
}
use wayjournal_build_attesta.Multi.{
  StoreSyncTarget, PerStoreSyncResult, MultiStoreSyncError, max_multi_sync_targets, Stores,
  check_order, validate_target_shape, preflight_target, preflight_all, sync_all, sync_stores,
  too_many_targets, target_store_identity_mismatch, handshake_checkpoint_mismatch,
  request_authority_mismatch, missing_sync_capability,
}
use wayjournal_build_attesta.Multi.Authority.{Rising, Authorized, Matches, sync_stores-Authorized}

module _ {S X : Type 0} (L E C : Type 0) where
  check_order-ok :
      (ts : List (StoreSyncTarget S X)) → Rising ts → check_order {L = L} {E = E} {C = C} ts ≡ ok tt
  unfolding check_order
  check_order-ok [] a = refl
  check_order-ok (t ∷ []) a = refl
  check_order-ok (t ∷ u ∷ ts) a = ground (arith, a.0, check_order-ok (u ∷ ts) a.1)

  validate_target_shape-ok :
      (ts : List (StoreSyncTarget S X))
      → 1 ≤ length ts
      → length ts ≤ max_multi_sync_targets
      → Rising ts
      → validate_target_shape {L = L} {E = E} {C = C} ts ≡ ok tt
  unfolding validate_target_shape
  validate_target_shape-ok [] some_target few a = absurd (omega (arith, some_target))
  validate_target_shape-ok (t ∷ ts) some_target few a =
      require_passes {b = leb (length (t ∷ ts)) max_multi_sync_targets} too_many_targets _
        (ground (arith, few))
      ∙ check_order-ok (t ∷ ts) a

both : {a b : Bool} → a ≡ true → b ≡ true → (a && b) ≡ true
both h k = ground (arith, h, k)

module _ {W S X L E C Y : Type 0} (stores : Stores W S X L E C Y) where
  preflight_target-ok :
      (t : StoreSyncTarget S X) (w : W) (c : AdmissionCheckpoint)
      → Authorized stores w t c
      → preflight_target stores t w ≡ ok c
  unfolding preflight_target
  preflight_target-ok t w c a =
      let (read, stored, bound, trust, remote, supported) = a in
      bind_value _ read
      ∙ require_passes (target_store_identity_mismatch t.expected_store) _ (
          both (eqb_same t.expected_store t.expected_store refl)
            (eqb_same c.logical_store_id t.expected_store stored))
      ∙ require_passes (handshake_checkpoint_mismatch t.expected_store) _ (
          both
            (eqb_same t.handshake.checkpoint.logical_store_id t.expected_store
              (ap (λ d. d.logical_store_id) bound ∙ stored))
            (eqb_same t.handshake.checkpoint c bound))
      ∙ require_passes (request_authority_mismatch t.expected_store) _ (
          both (eqb_same c.local_trust_binding t.request.local_trust trust)
            (eqb_same c.approved_remote t.request.approved_remote remote))
      ∙ require_passes (missing_sync_capability t.expected_store) _ supported

  -- Each target is authorised under some checkpoint.
  abbrev pub EachAuthorized : W → List (StoreSyncTarget S X) → Type 0
  EachAuthorized w [] = Unit
  EachAuthorized w (t ∷ ts) =
      ((c : AdmissionCheckpoint) × Authorized stores w t c) × EachAuthorized w ts

  preflight_all-ok :
      (ts : List (StoreSyncTarget S X)) (w : W)
      → EachAuthorized w ts
      → (pairs : List (StoreSyncTarget S X × AdmissionCheckpoint)) × (preflight_all stores ts w
          ≡ ok pairs)
  unfolding preflight_all
  preflight_all-ok [] w a = ([], refl)
  preflight_all-ok (t ∷ ts) w a =
      let (rest, passed) = preflight_all-ok ts w a.1 in
      ((t, a.0.0) ∷ rest, bind_value _ (preflight_target-ok t w a.0.0 a.0.1) ∙ bind_value _ passed)

  -- Where the targets are between one and 256, strictly ordered by their stores, and each authorised in
  -- the world before the call, `sync_stores` returns one result for each, in the same order, whatever
  -- the synchronisation of any of them returns.
  pub sync_stores-Matches :
      (ts : List (StoreSyncTarget S X)) (has_cache : Bool) (w : W)
      → 1 ≤ length ts
      → length ts ≤ max_multi_sync_targets
      → Rising ts
      → EachAuthorized w ts
      → (results : List (PerStoreSyncResult E C Y)) × (last : W) × (sync_stores stores ts has_cache
            w
          ≡ (ok results, last))
        × Matches stores w ts results
  sync_stores-Matches ts has_cache w some_target few rising a =
      let (pairs, passed) = preflight_all-ok ts w a in
      let results = (sync_all stores has_cache pairs w).0 in
      let last = (sync_all stores has_cache pairs w).1 in
      let ran : sync_stores stores ts has_cache w ≡ (ok results, last) =
        unfold sync_stores in
        ap
          (λ o.
            elim o
              as (λ _. Outcome (MultiStoreSyncError L E C) (List (PerStoreSyncResult E C Y)) × W) [
                | ok p ↦ (ok (sync_all stores has_cache p w).0, (sync_all stores has_cache p w).1)
                | err e ↦ (err e, w)
                | fault ↦ (fault, w)
              ])
          (bind_value (λ _. preflight_all stores ts w)
              (validate_target_shape-ok L E C ts some_target few rising)
            ∙ passed) in
      (results, last, ran, (sync_stores-Authorized stores ts has_cache w last results ran).3)
