-- ===== src/Multi.antt =====
-- crates/wayjournal-core/src/federation/multi.rs: the synchronisation of many stores in one call.
-- What reads and synchronises a store is the record `Stores`: reading takes the world as it is, and
-- synchronising a store or invalidating cached proofs changes it.
pub mod Authority
pub mod Liveness
use wayjournal_build_attesta.Prelude.{
  ℕ, Bool, true, false, not, ◌||◌, ◌&&◌, Option, none, some, List, [], ◌∷◌, Ord, Ordering, nat_ord,
  eqb, leb, length, if◌then◌else◌, ◌==◌, Outcome, ok, err, fault, ◌>>=◌, ◌>>◌, require, map_err,
}
use Prim.Native.Nat.Ordering.{lt, eq, gt}
use wayjournal_build_attesta.Ids.{LogicalStoreId, store_ord}
use wayjournal_build_attesta.Federation.{
  AdmissionCheckpoint, GitSyncRequest, StoreRevisionRef, checkpoint_ord, remote_ord, revision_ord,
}
use wayjournal_build_attesta.Capability.{NegotiatedHandshake, supports_git_union_cas}

abbrev pub max_multi_sync_targets : ℕ
max_multi_sync_targets = 256

-- `S` is an open store.
pub record StoreSyncTarget (S X : Type 0) : Type 0 where
  pub expected_store : LogicalStoreId
  pub store : S
  pub request : GitSyncRequest X
  pub handshake : NegotiatedHandshake

pub data ProofCacheDisposition : Type 0 where
  unchanged invalidated reset unavailable : ProofCacheDisposition

-- the errors of `preflight_authority`: `L`, `E` and `C` are those of streaming, stores and checkpoints
pub data AuthorityError (L E C : Type 0) : Type 0 where
  legacy_streaming : L → AuthorityError L E C
  store_error : E → AuthorityError L E C
  checkpoint_error : C → AuthorityError L E C
  missing_identity : AuthorityError L E C

pub data CheckpointObservationError (E C : Type 0) : Type 0 where
  unlocked : E → CheckpointObservationError E C
  unread : C → CheckpointObservationError E C
  missing_checkpoint : CheckpointObservationError E C

pub data MultiStoreSyncError (L E C : Type 0) : Type 0 where
  empty too_many_targets unsorted_targets duplicate_target : MultiStoreSyncError L E C
  checkpoint_authority : LogicalStoreId → AuthorityError L E C → MultiStoreSyncError L E C
  no_checkpoint target_store_identity_mismatch handshake_checkpoint_mismatch
        request_authority_mismatch missing_sync_capability :
      LogicalStoreId → MultiStoreSyncError L E C

-- `Y` is what a synchronisation returns, with its own errors.
pub record PerStoreSyncResult (E C Y : Type 0) : Type 0 where
  pub store : LogicalStoreId
  pub before : StoreRevisionRef
  pub after : Outcome (CheckpointObservationError E C) StoreRevisionRef
  pub cache_disposition : ProofCacheDisposition
  pub sync_result : Y

pub record Stores (W S X L E C Y : Type 0) : Type 0 where
  pub require_legacy_streaming : S → W → Outcome L (Unit {0})
  pub lock_exclusive : S → W → Outcome E (Unit {0})
  pub admission_checkpoint : S → W → Outcome C (Option AdmissionCheckpoint)
  pub visible_identity : S → W → Outcome E (Option LogicalStoreId)
  pub sync_git_union_authorized : S → GitSyncRequest X → NegotiatedHandshake → W → Y × W
  pub invalidate_store :
      LogicalStoreId → StoreRevisionRef → StoreRevisionRef → W → ProofCacheDisposition × W

abbrev pub found_or {ℓ κ} : {E : Type ℓ} {A : Type κ} → E → Option A → Outcome E A
found_or e none = err e
found_or e (some a) = ok a

module _ {S X L E C : Type 0} where
  -- the windows of `validate_target_shape`
  unfoldable pub check_order :
      List (StoreSyncTarget S X) → Outcome (MultiStoreSyncError L E C) (Unit {0})
  check_order [] = ok tt
  check_order (t ∷ []) = ok tt
  check_order (t ∷ u ∷ ts) =
      let rest = check_order (u ∷ ts) in
      elim (store_ord.cmp t.expected_store u.expected_store) [
        | lt ↦ rest
        | eq ↦ err duplicate_target
        | gt ↦ err unsorted_targets
      ]

  unfoldable pub validate_target_shape :
      List (StoreSyncTarget S X) → Outcome (MultiStoreSyncError L E C) (Unit {0})
  unfolding check_order
  validate_target_shape [] = err empty
  validate_target_shape (t ∷ ts) =
      require (leb (length (t ∷ ts)) max_multi_sync_targets) too_many_targets
      >> check_order (t ∷ ts)

module _ {W S X L E C Y : Type 0} (stores : Stores W S X L E C Y) where
  unfoldable pub preflight_authority :
      StoreSyncTarget S X
      → W
      → Outcome (MultiStoreSyncError L E C) (AdmissionCheckpoint × LogicalStoreId)
  preflight_authority target w = do
    let unreadable = checkpoint_authority target.expected_store
    map_err (λ e. unreadable (legacy_streaming e)) (stores.require_legacy_streaming target.store w)
    map_err (λ e. unreadable (store_error e)) (stores.lock_exclusive target.store w)
    read ←
        map_err (λ e. unreadable (checkpoint_error e)) (stores.admission_checkpoint target.store w)
    checkpoint ← found_or (no_checkpoint target.expected_store) read
    current ← map_err (λ e. unreadable (store_error e)) (stores.visible_identity target.store w)
    identity ← found_or (unreadable missing_identity) current
    ok (checkpoint, identity)

  -- one round of the preflight loop: the target's checkpoint
  unfoldable pub preflight_target :
      StoreSyncTarget S X → W → Outcome (MultiStoreSyncError L E C) AdmissionCheckpoint
  unfolding preflight_authority
  preflight_target target w = do
    (checkpoint, current_store) ← preflight_authority target w
    require
        (eqb current_store target.expected_store
          && eqb checkpoint.logical_store_id target.expected_store)
        (target_store_identity_mismatch target.expected_store)
    require
        (eqb target.handshake.checkpoint.logical_store_id target.expected_store
          && eqb target.handshake.checkpoint checkpoint)
        (handshake_checkpoint_mismatch target.expected_store)
    require
        ((checkpoint.local_trust_binding == target.request.local_trust)
          && eqb checkpoint.approved_remote target.request.approved_remote)
        (request_authority_mismatch target.expected_store)
    require (supports_git_union_cas target.handshake)
        (missing_sync_capability target.expected_store)
    ok checkpoint

  unfoldable pub preflight_all :
      List (StoreSyncTarget S X)
      → W
      → Outcome (MultiStoreSyncError L E C) (List (StoreSyncTarget S X × AdmissionCheckpoint))
  unfolding preflight_target
  preflight_all [] w = ok []
  preflight_all (target ∷ targets) w = do
    checkpoint ← preflight_target target w
    rest ← preflight_all targets w
    ok ((target, checkpoint) ∷ rest)

  unfoldable pub observe_checkpoint :
      S → W → Outcome (CheckpointObservationError E C) AdmissionCheckpoint
  observe_checkpoint store w = do
    map_err unlocked (stores.lock_exclusive store w)
    read ← map_err unread (stores.admission_checkpoint store w)
    found_or missing_checkpoint read

  -- the disposition of the cache, which may be absent
  unfoldable pub disposition_of :
      Bool
      → LogicalStoreId
      → StoreRevisionRef
      → Outcome (CheckpointObservationError E C) StoreRevisionRef
      → W
      → ProofCacheDisposition × W
  disposition_of has_cache store before (ok revision) w =
      if eqb revision before
      then (unchanged, w)
      else if has_cache
      then stores.invalidate_store store before revision w
      else (unavailable, w)
  disposition_of has_cache store before _ w = (unavailable, w)

  -- the loop over the authorised targets
  unfoldable pub sync_all :
      Bool
      → List (StoreSyncTarget S X × AdmissionCheckpoint)
      → W
      → List (PerStoreSyncResult E C Y) × W
  unfolding observe_checkpoint disposition_of
  sync_all has_cache [] w = ([], w)
  sync_all has_cache ((target, checkpoint) ∷ rest) w =
      let before = checkpoint.accepted_revision in
      let (result, synced) =
        stores.sync_git_union_authorized target.store target.request target.handshake w in
      let after = observe_checkpoint target.store synced >>= λ c. ok c.accepted_revision in
      let (disposition, settled) =
        disposition_of has_cache target.expected_store before after synced in
      let (results, last) = sync_all has_cache rest settled in
      (
        record {
          store = target.expected_store;
          before = before;
          after = after;
          cache_disposition = disposition;
          sync_result = result;
        }
            ∷ results,
        last,
      )

  -- `sync_stores`: what it returns, and the world after it
  unfoldable pub sync_stores :
      List (StoreSyncTarget S X)
      → Bool
      → W
      → Outcome (MultiStoreSyncError L E C) (List (PerStoreSyncResult E C Y)) × W
  unfolding validate_target_shape preflight_all sync_all
  sync_stores targets has_cache w =
      elim (validate_target_shape targets >> preflight_all targets w) [
        | ok authorized ↦
            let (results, last) = sync_all has_cache authorized w in (ok results, last)
        | err e ↦ (err e, w)
        | fault ↦ (fault, w)
      ]
