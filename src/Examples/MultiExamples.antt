-- ===== src/Examples/MultiExamples.antt =====
-- crates/wayjournal-core/src/federation/multi.rs: one target, in a world that counts synchronisations.
use wayjournal_build_attesta.Prelude.{
  ℕ, suc, ◌≤◌, ◌≡◌, refl, true, some, List, [], ◌∷◌, ok, length, arith, nat_ord, list_ord,
}
use wayjournal_build_attesta.Ids.{Text, ascii, LogicalStoreId}
use wayjournal_build_attesta.Collections.Set
use wayjournal_build_attesta.Capability.{git_union_cas_capability, supports_git_union_cas, found_in}
use wayjournal_build_attesta.Federation.{
  AdmissionCheckpoint, ApprovedRemote, sha1, wayjournal_blake3_framed_v1,
}
use wayjournal_build_attesta.Multi.{
  StoreSyncTarget, PerStoreSyncResult, Stores, max_multi_sync_targets, preflight_authority,
  sync_stores, unavailable, unchanged, validate_target_shape, check_order, preflight_all,
  preflight_target, sync_all, observe_checkpoint, disposition_of,
}
use wayjournal_build_attesta.Multi.Authority.{Rising, Authorized, Matches, sync_stores-Authorized}
use wayjournal_build_attesta.Multi.Liveness.{sync_stores-Matches}

abbrev store_id : LogicalStoreId
store_id = record { store_uuid = 4; genesis_fingerprint = 5 }

abbrev remote : ApprovedRemote
remote = record { locator = ascii "l"; reference = ascii "r" }

abbrev checkpoint : AdmissionCheckpoint
checkpoint = record {
  logical_store_id = store_id;
  local_trust_binding = 7;
  approved_remote = remote;
  accepted_commit = record { format = sha1; hex = ascii "c" };
  accepted_revision = record { algorithm = wayjournal_blake3_framed_v1; digest = 8 };
}

abbrev stores : Stores ℕ ℕ Text Text Text Text Text
stores = record {
  require_legacy_streaming = λ s w. ok tt;
  lock_exclusive = λ s w. ok tt;
  admission_checkpoint = λ s w. ok (some checkpoint);
  visible_identity = λ s w. ok (some store_id);
  sync_git_union_authorized = λ s request handshake w. (ascii "done", suc w);
  invalidate_store = λ id before after w. (unavailable, w);
}

abbrev target : StoreSyncTarget ℕ Text
target = record {
  expected_store = store_id;
  store = 1;
  request = record { executable = ascii "git"; local_trust = 7; approved_remote = remote };
  handshake = record {
    checkpoint = checkpoint;
    capabilities = git_union_cas_capability ∷ [];
    projections = [];
  };
}

authorized : Authorized stores 0 target checkpoint
unfolding preflight_authority supports_git_union_cas found_in Set.contains
authorized = (refl, refl, refl, refl, refl, refl)

sync_stores-Matches_example :
    (results : List (PerStoreSyncResult Text Text Text)) × (last : ℕ) × (sync_stores stores
        (target ∷ [])
        true
        0
      ≡ (ok results, last))
    × Matches stores 0 (target ∷ []) results
sync_stores-Matches_example =
    sync_stores-Matches stores (target ∷ []) true 0 (omega arith) (omega arith) tt
      ((checkpoint, authorized), tt)

abbrev result : PerStoreSyncResult Text Text Text
result = record {
  store = store_id;
  before = checkpoint.accepted_revision;
  after = ok checkpoint.accepted_revision;
  cache_disposition = unchanged;
  sync_result = ascii "done";
}

one_result : sync_stores stores (target ∷ []) true 0 ≡ (ok (result ∷ []), 1)
unfolding sync_stores validate_target_shape check_order preflight_all preflight_target
    preflight_authority sync_all observe_checkpoint disposition_of supports_git_union_cas found_in
    Set.contains
one_result = refl

sync_stores-Authorized_example :
    (1 ≤ length (target ∷ []))
    × (length (target ∷ []) ≤ max_multi_sync_targets)
    × Rising (target ∷ [])
    × Matches stores 0 (target ∷ []) (result ∷ [])
sync_stores-Authorized_example =
    sync_stores-Authorized stores (target ∷ []) true 0 1 (result ∷ []) one_result
