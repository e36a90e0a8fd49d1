-- ===== src/Identity.antt =====
-- crates/wayjournal-core/src/identity.rs: the identity of a store, from the genesis record of its first
-- batch. Reading a genesis payload, and printing the errors of records and batches, are parameters.
pub mod Members
pub mod First
pub mod Owned
pub mod Derived
pub mod Batches
pub mod Genesis
use wayjournal_build_attesta.Prelude.{
  ℕ, zero, suc, ◌≡◌, Bool, true, false, not, ◌||◌, ◌&&◌, Option, none, some, List, [], ◌∷◌, ◌++◌,
  Ord, Ordering, nat_ord, list_ord, eqb, ◌==◌, length, mem, if◌then◌else◌, Outcome, ok, err, ◌>>=◌,
  ◌>>◌, require, map_err,
}
use wayjournal_build_attesta.Ids.{
  Text, ascii, Digest, RecordId, BatchId, StoreUuid, LogicalStoreId, store_ord,
}
use wayjournal_build_attesta.Collections.Map
use wayjournal_build_attesta.Collections.Map.{Map}
use wayjournal_build_attesta.Collections.Set
use wayjournal_build_attesta.Collections.Sort.{sort_by}
use wayjournal_build_attesta.Federation.{StoreRevisionRef}
use wayjournal_build_attesta.Revision.{framed_hash}
use wayjournal_build_attesta.Batch.{
  Record, RecordRef, BatchManifest, StoredMember, BatchError, member_identity_mismatch,
  member_actor_mismatch, member_batch_mismatch, Codec, canonical_path, manifest_path,
  validate_batch_members, found_or,
}

pub record ForkProvenance : Type 0 where
  pub parent : LogicalStoreId
  pub parent_revision : StoreRevisionRef

pub record StoreIdentity : Type 0 where
  pub logical_id : LogicalStoreId
  pub store_kind : Text
  pub forked_from : Option ForkProvenance
  pub genesis_record_id : RecordId

pub data IdentityRelation : Type 0 where
  replica uuid_collision distinct : IdentityRelation

unfoldable pub classify_logical_identity : LogicalStoreId → LogicalStoreId → IdentityRelation
classify_logical_identity left right =
    if eqb left right
    then replica
    else if left.store_uuid == right.store_uuid
    then uuid_collision
    else distinct

pub data GenesisError : Type 0 where
  missing_genesis duplicate_genesis genesis_not_first entity_mismatch fork_reuses_parent_uuid
        genesis_member_identity genesis_member_actor genesis_member_batch duplicate_member
        incomplete_members :
      GenesisError
  invalid_genesis_record : Text → GenesisError

pub record GenesisPayload : Type 0 where
  pub store_kind : Text
  pub store_uuid : StoreUuid
  pub forked_from : Option ForkProvenance

abbrev pub genesis_fingerprint_domain : Text
genesis_fingerprint_domain = ascii "wayjournal-genesis-v1" ++ 0 ∷ []

-- the path, the bytes and the record of a member
abbrev pub Decoded : Type 0 → Type 0
Decoded V = Text × Text × Record V

unfoldable pub reuses_parent : GenesisPayload → Bool
reuses_parent payload = elim payload.forked_from [
  | none ↦ false
  | some fork ↦ fork.parent.store_uuid == payload.store_uuid
]

module _ {V E : Type 0} (codec : Codec V E) (parse_payload : V → Outcome Text GenesisPayload)
    (batch_error_text : BatchError E → Text) (record_error_text : E → Text) where
  unfoldable pub genesis_fingerprint : Text → Text → Digest
  genesis_fingerprint path bytes =
      framed_hash codec.blake3 genesis_fingerprint_domain ((path, bytes) ∷ [])

  abbrev pub in_identity_schema : Record V → Bool
  in_identity_schema r = eqb r.record_schema (ascii "wayjournal.identity/v1")

  -- the end of `validate_store_identity`: the identity that a genesis record gives
  unfoldable pub identity_of : Decoded V → Outcome GenesisError (Option StoreIdentity)
  unfolding reuses_parent
  identity_of (path, bytes, r) = do
    payload ← map_err invalid_genesis_record (parse_payload r.payload)
    require (r.entity_id == payload.store_uuid) entity_mismatch
    require (not (reuses_parent payload)) fork_reuses_parent_uuid
    ok (
        some (record {
          logical_id = record {
            store_uuid = payload.store_uuid;
            genesis_fingerprint = genesis_fingerprint path bytes;
          };
          store_kind = payload.store_kind;
          forked_from = payload.forked_from;
          genesis_record_id = r.record_id;
        }))

  -- `collect::<BTreeMap<_, _>>()`
  unfoldable pub by_path_of : Map Text Text → List StoredMember → Map Text Text
  by_path_of m [] = m
  by_path_of m (s ∷ ss) = by_path_of (Map.insert s.path s.bytes m) ss

  unfoldable pub members_of :
      Map Text Text → List RecordRef → Outcome GenesisError (List StoredMember)
  members_of by_path [] = ok []
  members_of by_path (r ∷ rs) = do
    bytes ← found_or incomplete_members (Map.get r.path by_path)
    rest ← members_of by_path rs
    ok (record { path = r.path; bytes = bytes } ∷ rest)

  abbrev pub genesis_error : BatchError E → GenesisError
  genesis_error (member_identity_mismatch path) = genesis_member_identity
  genesis_error (member_actor_mismatch path) = genesis_member_actor
  genesis_error (member_batch_mismatch path) = genesis_member_batch
  genesis_error other = invalid_genesis_record (batch_error_text other)

  -- the loop over the sorted manifests
  unfoldable pub check_manifests :
      Map Text Text → List BatchId → List BatchManifest → Outcome GenesisError (Unit {0})
  unfolding members_of
  check_manifests by_path ids [] = ok tt
  check_manifests by_path ids (m ∷ ms) = do
    require (not (mem m.batch_id ids)) incomplete_members
    members ← members_of by_path m.members
    decoded ← map_err genesis_error (validate_batch_members codec m members)
    check_manifests by_path (m.batch_id ∷ ids) ms

  unfoldable pub add_paths : List Text → List RecordRef → List Text
  add_paths paths [] = paths
  add_paths paths (r ∷ rs) = add_paths (Set.insert r.path paths) rs

  unfoldable pub manifest_paths : List Text → List BatchManifest → List Text
  unfolding add_paths
  manifest_paths paths [] = paths
  manifest_paths paths (m ∷ ms) = manifest_paths (add_paths paths m.members) ms

  unfoldable pub decode_members : List StoredMember → Outcome GenesisError (List (Decoded V))
  decode_members [] = ok []
  decode_members (s ∷ ss) = do
    r ← map_err (λ e. invalid_genesis_record (record_error_text e)) (codec.decode_record s.bytes)
    require (eqb (canonical_path codec r) s.path)
        (invalid_genesis_record (ascii "member path does not equal record canonical path"))
    rest ← decode_members ss
    ok ((s.path, s.bytes, r) ∷ rest)

  unfoldable pub any_unsupported : List (Decoded V) → Bool
  any_unsupported [] = false
  any_unsupported ((path, bytes, r) ∷ rest) =
      (eqb r.domain (ascii "wayjournal.identity") && not (in_identity_schema r))
      || any_unsupported rest

  unfoldable pub genesis_records : List (Decoded V) → List (Decoded V)
  genesis_records [] = []
  genesis_records ((path, bytes, r) ∷ rest) =
      let later = genesis_records rest in
      if eqb r.domain (ascii "wayjournal.identity")
        && in_identity_schema r
        && eqb r.kind (ascii "store.genesis")
      then (path, bytes, r) ∷ later
      else later

  abbrev pub only_member_is : RecordId → List RecordRef → Bool
  only_member_is id [] = false
  only_member_is id (m ∷ []) = m.record_id == id
  only_member_is id (m ∷ n ∷ ms) = false

  -- the batch of the genesis record against the first manifest
  unfoldable pub check_first : List BatchManifest → Record V → Outcome GenesisError (Unit {0})
  check_first [] r = err missing_genesis
  check_first (m ∷ ms) r =
      require (r.batch_id == m.batch_id) genesis_not_first
      >> require (only_member_is r.record_id m.members) genesis_not_first

  unfoldable pub identity_of_genesis :
      List BatchManifest → List (Decoded V) → Outcome GenesisError (Option StoreIdentity)
  unfolding check_first identity_of
  identity_of_genesis sorted [] = err missing_genesis
  identity_of_genesis sorted ((path, bytes, r) ∷ []) =
      check_first sorted r >> identity_of (path, bytes, r)
  identity_of_genesis sorted (g ∷ h ∷ gs) = err duplicate_genesis

  abbrev pub cmp_manifests : BatchManifest → BatchManifest → Ordering
  cmp_manifests a b = list_ord.cmp (manifest_path codec a.batch_id) (manifest_path codec b.batch_id)

  -- what is checked of the members, before the genesis record is looked for
  unfoldable pub checked_members :
      List BatchManifest → List StoredMember → Outcome GenesisError (List (Decoded V))
  unfolding by_path_of check_manifests manifest_paths decode_members sort_by
  checked_members manifests members = do
    let by_path = by_path_of [] members
    require (length by_path == length members) duplicate_member
    check_manifests by_path [] (sort_by cmp_manifests manifests)
    require (eqb (manifest_paths [] manifests) (Map.keys by_path)) incomplete_members
    decode_members members

  -- `validate_store_identity`
  unfoldable pub validate_store_identity :
      List BatchManifest → List StoredMember → Outcome GenesisError (Option StoreIdentity)
  unfolding checked_members any_unsupported identity_of_genesis genesis_records sort_by
  validate_store_identity manifests members =
      if (length manifests == 0) && (length members == 0)
      then ok none
      else checked_members manifests members >>= λ decoded.
          require (not (any_unsupported decoded))
            (invalid_genesis_record (ascii "unsupported record in reserved identity domain"))
          >> identity_of_genesis (sort_by cmp_manifests manifests) (genesis_records decoded)

  -- the end of `validate_replayed_identity`
  unfoldable pub replayed_identity_of : Decoded V → Outcome GenesisError (Option StoreIdentity)
  replayed_identity_of (path, bytes, r) = do
    payload ← map_err invalid_genesis_record (parse_payload r.payload)
    require (r.entity_id == payload.store_uuid) entity_mismatch
    require
        (not (elim payload.forked_from [
          | none ↦ false
          | some fork ↦ fork.parent.store_uuid == payload.store_uuid
        ]))
        fork_reuses_parent_uuid
    ok (
        some (record {
          logical_id = record {
            store_uuid = payload.store_uuid;
            genesis_fingerprint = genesis_fingerprint path bytes;
          };
          store_kind = payload.store_kind;
          forked_from = payload.forked_from;
          genesis_record_id = r.record_id;
        }))

  -- what a replay keeps of the first batch: its id, the number of its members and the first one's id
  abbrev pub FirstBatch : Type 0
  FirstBatch = BatchId × ℕ × Option RecordId

  abbrev pub is_record : RecordId → Option RecordId → Bool
  is_record id none = false
  is_record id (some other) = other == id

  -- `validate_replayed_identity`
  unfoldable pub validate_replayed_identity :
      ℕ
      → ℕ
      → Option FirstBatch
      → Bool
      → ℕ
      → Option (Decoded V)
      → Outcome GenesisError (Option StoreIdentity)
  unfolding replayed_identity_of
  validate_replayed_identity manifests members first_batch unsupported genesis_count genesis =
      if (manifests == 0) && (members == 0) then ok none else do
        require (not unsupported)
            (invalid_genesis_record (ascii "unsupported record in reserved identity domain"))
        require (not (genesis_count == 0)) missing_genesis
        require (genesis_count == 1) duplicate_genesis
        found ← found_or missing_genesis genesis
        first ← found_or missing_genesis first_batch
        require
            ((found.2.batch_id == first.0) && (first.1 == 1) && is_record found.2.record_id first.2)
            genesis_not_first
        replayed_identity_of found
