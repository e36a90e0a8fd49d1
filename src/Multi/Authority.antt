-- ===== src/Multi/Authority.antt =====
-- crates/wayjournal-core/src/federation/multi.rs: what is authorised before a store is synchronised.
use wayjournal_build_attesta.Prelude.{
  ◌≤◌, ◌≡◌, refl, subst, ap, ◌∙◌, Bool, true, false, ◌&&◌, List, [], ◌∷◌, arith, nat_ord, eqb, leb,
  ◌==◌, length, ◌≺◌, Outcome, ok, err, fault, ◌>>◌, require, ok_parts, require_passed, ok_injective,
}
use wayjournal_build_attesta.Ids.{store_ord}
use wayjournal_build_attesta.Capability.{supports_git_union_cas}
use wayjournal_build_attesta.Capability.Checks.{same_of_require}
use wayjournal_build_attesta.Federation.{
  AdmissionCheckpoint, checkpoint_ord, remote_ord, revision_ord,
}
use wayjournal_build_attesta.Multi.{
  StoreSyncTarget, PerStoreSyncResult, MultiStoreSyncError, max_multi_sync_targets, Stores,
  check_order, validate_target_shape, preflight_authority, preflight_target, preflight_all,
  sync_all, sync_stores,
}

module _ {S X : Type 0} where
  -- The targets are strictly ordered by their stores.
  abbrev pub Rising : List (StoreSyncTarget S X) → Type 0
  Rising [] = Unit
  Rising (t ∷ []) = Unit
  Rising (t ∷ u ∷ ts) = (t.expected_store ≺ u.expected_store) × Rising (u ∷ ts)

  check_order-Rising :
      (L E C : Type 0) (ts : List (StoreSyncTarget S X))
      → check_order {L = L} {E = E} {C = C} ts ≡ ok tt
      → Rising ts
  unfolding check_order
  check_order-Rising L E C [] h = tt
  check_order-Rising L E C (t ∷ []) h = tt
  check_order-Rising L E C (t ∷ u ∷ ts) h = ground (arith, h, check_order-Rising L E C (u ∷ ts))

module _ {S X L E C : Type 0} where
  validate_target_shape-Rising :
      (ts : List (StoreSyncTarget S X)) (u : Unit {0})
      → validate_target_shape {L = L} {E = E} {C = C} ts ≡ ok u
      → (1 ≤ length ts) × (length ts ≤ max_multi_sync_targets) × Rising ts
  unfolding validate_target_shape
  validate_target_shape-Rising [] u h = cc
  validate_target_shape-Rising (t ∷ ts) u h =
      let (v, few, ordered) =
        ok_parts (require (leb (length (t ∷ ts)) max_multi_sync_targets) _) _ h in
      let within = require_passed (leb (length (t ∷ ts)) max_multi_sync_targets) _ few in
      (omega arith, ground (arith, within), check_order-Rising L E C (t ∷ ts) ordered)

both_required {ℓ} :
    {E : Type ℓ} (a b : Bool) (e : E) {u : Unit {0}}
    → require (a && b) e ≡ ok u
    → (a ≡ true) × (b ≡ true)
both_required true true e h = (refl, refl)
both_required true false e h = cc
both_required false b e h = cc

module _ {W S X L E C Y : Type 0} (stores : Stores W S X L E C Y) where
  -- The current checkpoint of the store is for the expected store, and is the one that the handshake is
  -- bound to and that the request is made under; synchronising was negotiated.
  abbrev pub Authorized : W → StoreSyncTarget S X → AdmissionCheckpoint → Type 0
  Authorized w t c =
      (preflight_authority stores t w ≡ ok (c, t.expected_store))
      × (c.logical_store_id ≡ t.expected_store)
      × (t.handshake.checkpoint ≡ c)
      × (c.local_trust_binding ≡ t.request.local_trust)
      × (c.approved_remote ≡ t.request.approved_remote)
      × (supports_git_union_cas t.handshake ≡ true)

  -- One result for each target, in the same order.
  abbrev pub Matches : W → List (StoreSyncTarget S X) → List (PerStoreSyncResult E C Y) → Type 0
  Matches w [] [] = Unit
  Matches w [] (r ∷ rs) = ⊥
  Matches w (t ∷ ts) [] = ⊥
  Matches w (t ∷ ts) (r ∷ rs) =
      ((c : AdmissionCheckpoint) × Authorized w t c
        × (r.store ≡ t.expected_store)
        × (r.before ≡ c.accepted_revision))
      × Matches w ts rs

  preflight_target-Authorized :
      (t : StoreSyncTarget S X) (w : W) (c : AdmissionCheckpoint)
      → preflight_target stores t w ≡ ok c
      → Authorized w t c
  unfolding preflight_target
  preflight_target-Authorized t w c h =
      let (found, read, h1) = ok_parts (preflight_authority stores t w) _ h in
      let (a, identity, h2) = ok_parts (require (eqb found.1 t.expected_store && _) _) _ h1 in
      let (b, bound, h3) =
        ok_parts (require (eqb t.handshake.checkpoint.logical_store_id t.expected_store && _) _) _
          h2 in
      let (d, request, h4) =
        ok_parts (require ((found.0.local_trust_binding == t.request.local_trust) && _) _) _ h3 in
      let (e, supported, h5) = ok_parts (require (supports_git_union_cas t.handshake) _) _ h4 in
      let (current, stored) = both_required (eqb found.1 t.expected_store) _ _ identity in
      let (x, same_checkpoint) =
        both_required (eqb t.handshake.checkpoint.logical_store_id t.expected_store) _ _ bound in
      let (trust, remote) =
        both_required (found.0.local_trust_binding == t.request.local_trust) _ _ request in
      subst (Authorized w t) (ok_injective h5) (
        read ∙ ap (λ i. ok (found.0, i)) (same_of_require found.1 t.expected_store current),
        same_of_require found.0.logical_store_id t.expected_store stored,
        same_of_require t.handshake.checkpoint found.0 same_checkpoint,
        same_of_require found.0.local_trust_binding t.request.local_trust trust,
        same_of_require found.0.approved_remote t.request.approved_remote remote,
        require_passed (supports_git_union_cas t.handshake) _ supported,
      )

  abbrev targets_of : List (StoreSyncTarget S X × AdmissionCheckpoint) → List (StoreSyncTarget S X)
  targets_of [] = []
  targets_of ((t, c) ∷ rest) = t ∷ targets_of rest

  abbrev AllAuthorized : W → List (StoreSyncTarget S X × AdmissionCheckpoint) → Type 0
  AllAuthorized w [] = Unit
  AllAuthorized w ((t, c) ∷ rest) = Authorized w t c × AllAuthorized w rest

  preflight_all-AllAuthorized :
      (ts : List (StoreSyncTarget S X)) (w : W)
      (pairs : List (StoreSyncTarget S X × AdmissionCheckpoint))
      → preflight_all stores ts w ≡ ok pairs
      → (targets_of pairs ≡ ts) × AllAuthorized w pairs
  unfolding preflight_all
  preflight_all-AllAuthorized [] w pairs h =
      subst (λ l. (targets_of l ≡ []) × AllAuthorized w l) (ok_injective h) (refl, tt)
  preflight_all-AllAuthorized (t ∷ ts) w pairs h =
      let (c, passed, h1) = ok_parts (preflight_target stores t w) _ h in
      let (rest, others, h2) = ok_parts (preflight_all stores ts w) _ h1 in
      let (same, authorized) = preflight_all-AllAuthorized ts w rest others in
      subst (λ l. (targets_of l ≡ t ∷ ts) × AllAuthorized w l) (ok_injective h2)
        (ap (λ l. t ∷ l) same, (preflight_target-Authorized t w c passed, authorized))

  -- whatever the world is by then
  sync_all-Matches :
      (has_cache : Bool) (pairs : List (StoreSyncTarget S X × AdmissionCheckpoint)) (first w : W)
      → AllAuthorized first pairs
      → Matches first (targets_of pairs) (sync_all stores has_cache pairs w).0
  unfolding sync_all
  sync_all-Matches has_cache [] first w a = tt
  sync_all-Matches has_cache ((t, c) ∷ rest) first w a =
      ((c, a.0, refl, refl), sync_all-Matches has_cache rest first _ a.1)

  -- Where `sync_stores` returns results, the targets are between one and 256 and strictly ordered by their
  -- stores; each of them was authorised in the world before the call; and there is one result for each,
  -- in the same order, with the revision that its checkpoint had accepted.
  pub sync_stores-Authorized :
      (ts : List (StoreSyncTarget S X)) (has_cache : Bool) (w last : W)
      (results : List (PerStoreSyncResult E C Y))
      → sync_stores stores ts has_cache w ≡ (ok results, last)
      → (1 ≤ length ts) × (length ts ≤ max_multi_sync_targets) × Rising ts × Matches w ts results
  unfolding sync_stores
  sync_stores-Authorized ts has_cache w last results h =
      go (validate_target_shape ts >> preflight_all stores ts w) refl h
    where
      go :
          (o : Outcome
            (MultiStoreSyncError L E C)
            (List (StoreSyncTarget S X × AdmissionCheckpoint)))
          → (validate_target_shape ts >> preflight_all stores ts w) ≡ o
          → (elim o
              as (λ _. Outcome (MultiStoreSyncError L E C) (List (PerStoreSyncResult E C Y)) × W) [
                | ok pairs ↦ (
                  ok (sync_all stores has_cache pairs w).0,
                  (sync_all stores has_cache pairs w).1,
                )
                | err e ↦ (err e, w)
                | fault ↦ (fault, w)
              ])
            ≡ (ok results, last)
          → (1 ≤ length ts)
            × (length ts ≤ max_multi_sync_targets)
            × Rising ts
            × Matches w ts results
      go (err e) ran made = cc
      go fault ran made = cc
      go (ok pairs) ran made =
          let (u, shaped, passed) = ok_parts (validate_target_shape ts) _ ran in
          let (some_target, few, rising) = validate_target_shape-Rising ts u shaped in
          let (same, authorized) = preflight_all-AllAuthorized ts w pairs passed in
          (
            some_target,
            few,
            rising,
            subst (λ rs. Matches w ts rs) (ok_injective (ap (λ x. x.0) made))
                (subst (λ l. Matches w l (sync_all stores has_cache pairs w).0) same
                  (sync_all-Matches has_cache pairs w w authorized)),
          )
