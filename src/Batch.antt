-- ===== src/Batch.antt =====
-- crates/wayjournal-core/src/batch.rs and record.rs: records, and the manifest that owns a batch of
-- them. The JSON forms of a record and of a manifest are parameters, and so is the hash function.
pub mod Replay
pub mod Ownership
pub mod Idempotency
use wayjournal_build_attesta.Prelude.{
  ℕ, zero, suc, ◌≡◌, Bool, true, false, not, ◌&&◌, ◌||◌, Option, none, some, List, [], ◌∷◌, ◌++◌,
  Ord, Ordering, compare, nat_ord, list_ord, eqb, ◌==◌, length, map, if◌then◌else◌, is_some,
  Outcome, ok, err, ◌>>=◌, ◌>>◌, require, map_err, mem,
}
use wayjournal_build_attesta.Ids.{Text, ascii, Digest, RecordId, BatchId, EntityId, DomainId}
use wayjournal_build_attesta.Collections.Map
use wayjournal_build_attesta.Collections.Map.{Map}
use wayjournal_build_attesta.Collections.Set
use wayjournal_build_attesta.Collections.Sort.{sort_by}
use wayjournal_build_attesta.Layout.{UuidCrate}
use wayjournal_build_attesta.Layout.Paths.{record_path}
use wayjournal_build_attesta.Revision.{framed_hash, hash_bytes}

-- `struct Record`: `V` is a JSON value, and a timestamp counts nanoseconds.
pub record Record (V : Type 0) : Type 0 where
  pub record_schema : Text
  pub domain : DomainId
  pub kind : Text
  pub record_id : RecordId
  pub entity_id : EntityId
  pub batch_id : BatchId
  pub actor : Text
  pub occurred_at : ℕ
  pub recorded_at : ℕ
  pub parents : List RecordId
  pub payload : V

pub record RecordRef : Type 0 where
  pub path : Text
  pub record_id : RecordId
  pub record_schema : Text
  pub content_digest : Digest

pub record BatchManifest : Type 0 where
  pub batch_id : BatchId
  pub actor : Text
  pub members : List RecordRef
  pub idempotency_key_digest : Digest
  pub request_digest : Digest

pub record PreparedRecord (V : Type 0) : Type 0 where
  pub record_of : Record V
  pub path : Text
  pub bytes : Text

pub record PreparedBatch (V : Type 0) : Type 0 where
  pub manifest : BatchManifest
  pub manifest_path : Text
  pub manifest_bytes : Text
  pub records : List (PreparedRecord V)

pub record StoredMember : Type 0 where
  pub path : Text
  pub bytes : Text

pub data IdempotencyDecision : Type 0 where
  new_request : IdempotencyDecision
  replay : BatchManifest → IdempotencyDecision

-- `E` is the error of the record codec. The errors of the JSON form of a manifest are left to it.
pub data BatchError (E : Type 0) : Type 0 where
  empty_batch : BatchError E
  mixed_batch_id : RecordId → BatchId → BatchId → BatchError E
  mixed_actor : RecordId → Text → Text → BatchError E
  duplicate_record_id : RecordId → BatchError E
  invalid_record : RecordId → E → BatchError E
  invalid_manifest : E → BatchError E
  duplicate_stored_path : Text → BatchError E
  missing_member : Text → BatchError E
  extra_member : Text → BatchError E
  invalid_stored_record : Text → E → BatchError E
  member_identity_mismatch : Text → BatchError E
  member_batch_mismatch : Text → BatchError E
  member_actor_mismatch : Text → BatchError E
  member_digest_mismatch : Text → BatchError E
  request_digest_mismatch : BatchError E
  unowned_record : Text → BatchError E
  multiply_owned_record : Text → BatchError E
  ownership_missing_member : Text → BatchError E
  idempotency_request_mismatch : BatchId → BatchError E
  duplicate_idempotency_ownership : List BatchId → BatchError E

-- What the batches need of the codecs of records and manifests, and of hashing.
pub record Codec (V E : Type 0) : Type 0 where
  pub uuid : UuidCrate
  pub blake3 : Text → Digest
  pub encode_record : Record V → Outcome E Text
  pub decode_record : Text → Outcome E (Record V)
  pub encode_manifest : BatchManifest → Outcome E Text

abbrev pub content_digest_domain : Text
content_digest_domain = ascii "wayjournal-content-v1" ++ 0 ∷ []

abbrev pub request_digest_domain : Text
request_digest_domain = ascii "wayjournal-batch-request-v1" ++ 0 ∷ []

abbrev pub idempotency_digest_domain : Text
idempotency_digest_domain = ascii "wayjournal-idempotency-key-v1" ++ 0 ∷ []

-- `ok_or`, or the `else` of a `let`
abbrev pub found_or {ℓ κ} : {E : Type ℓ} {A : Type κ} → E → Option A → Outcome E A
found_or e none = err e
found_or e (some a) = ok a

module _ {V E : Type 0} (codec : Codec V E) where
  unfoldable pub content_digest : Text → Digest
  content_digest bytes = hash_bytes codec.blake3 content_digest_domain bytes

  unfoldable pub idempotency_digest : Text → Text → Digest
  idempotency_digest actor key =
      framed_hash codec.blake3 idempotency_digest_domain ((actor, key) ∷ [])

  -- `Record::canonical_path`
  unfoldable pub canonical_path : Record V → Text
  canonical_path r = record_path codec.uuid r.domain r.entity_id r.record_id

  -- `BatchManifest::canonical_path`
  unfoldable pub manifest_path : BatchId → Text
  manifest_path id = ascii "journal/batches/" ++ codec.uuid.hyphenated id ++ ascii ".json"

  -- the loop of `prepare_batch`: the ids so far, and the records by path
  unfoldable pub collect_records :
      BatchId
      → Text
      → List RecordId
      → Map Text (PreparedRecord V)
      → List (Record V)
      → Outcome (BatchError E) (Map Text (PreparedRecord V))
  collect_records batch actor ids sorted [] = ok sorted
  collect_records batch actor ids sorted (r ∷ rs) = do
    require (r.batch_id == batch) (mixed_batch_id r.record_id batch r.batch_id)
    require (eqb r.actor actor) (mixed_actor r.record_id actor r.actor)
    require (not (mem r.record_id ids)) (duplicate_record_id r.record_id)
    bytes ← map_err (invalid_record r.record_id) (codec.encode_record r)
    collect_records batch actor (r.record_id ∷ ids)
        (Map.insert (canonical_path r)
          (record { record_of = r; path = canonical_path r; bytes = bytes }) sorted)
        rs

  abbrev pub hashed_of : List (PreparedRecord V) → List (Text × Text)
  hashed_of [] = []
  hashed_of (r ∷ rs) = (r.path, r.bytes) ∷ hashed_of rs

  unfoldable pub reference_of : PreparedRecord V → RecordRef
  reference_of r = record {
    path = r.path;
    record_id = r.record_of.record_id;
    record_schema = r.record_of.record_schema;
    content_digest = content_digest r.bytes;
  }

  -- `prepare_batch`
  unfoldable pub prepare_batch : List (Record V) → Text → Outcome (BatchError E) (PreparedBatch V)
  prepare_batch [] key = err empty_batch
  prepare_batch (first ∷ rest) key = do
    sorted ← collect_records first.batch_id first.actor [] [] (first ∷ rest)
    let records = Map.values sorted
    let manifest : BatchManifest = record {
      batch_id = first.batch_id;
      actor = first.actor;
      members = map reference_of records;
      idempotency_key_digest = idempotency_digest first.actor key;
      request_digest = framed_hash codec.blake3 request_digest_domain (hashed_of records);
    }
    bytes ← map_err invalid_manifest (codec.encode_manifest manifest)
    ok (record {
      manifest = manifest;
      manifest_path = manifest_path first.batch_id;
      manifest_bytes = bytes;
      records = records;
    })

  -- the loop of `validate_batch_members` that fills `by_path`
  unfoldable pub index_members :
      Map Text Text → List StoredMember → Outcome (BatchError E) (Map Text Text)
  index_members by_path [] = ok by_path
  index_members by_path (m ∷ ms) = do
    require (not (Map.contains_key m.path by_path)) (duplicate_stored_path m.path)
    index_members (Map.insert m.path m.bytes by_path) ms

  -- the loop over the members of the manifest: what is left of `by_path`, and the two vectors
  unfoldable pub check_members :
      BatchManifest
      → Map Text Text
      → List RecordRef
      → Outcome (BatchError E) (Map Text Text × List (Text × Text) × List (Record V))
  check_members manifest by_path [] = ok (by_path, [], [])
  check_members manifest by_path (reference ∷ references) = do
    bytes ← found_or (missing_member reference.path) (Map.get reference.path by_path)
    require (content_digest bytes == reference.content_digest)
        (member_digest_mismatch reference.path)
    r ← map_err (invalid_stored_record reference.path) (codec.decode_record bytes)
    require
        (eqb (canonical_path r) reference.path
          && (r.record_id == reference.record_id)
          && eqb r.record_schema reference.record_schema)
        (member_identity_mismatch reference.path)
    require (r.batch_id == manifest.batch_id) (member_batch_mismatch reference.path)
    require (eqb r.actor manifest.actor) (member_actor_mismatch reference.path)
    (left, hashed, decoded) ← check_members manifest (Map.remove reference.path by_path) references
    ok (left, (reference.path, bytes) ∷ hashed, r ∷ decoded)

  -- `by_path.pop_first()`
  unfoldable pub none_extra : Map Text Text → Outcome (BatchError E) (Unit {0})
  none_extra [] = ok tt
  none_extra ((path, bytes) ∷ left) = err (extra_member path)

  -- `validate_batch_members`
  unfoldable pub validate_batch_members :
      BatchManifest → List StoredMember → Outcome (BatchError E) (List (Record V))
  validate_batch_members manifest members = do
    by_path ← index_members [] members
    (left, hashed, decoded) ← check_members manifest by_path manifest.members
    none_extra left
    require (framed_hash codec.blake3 request_digest_domain hashed == manifest.request_digest)
        request_digest_mismatch
    ok decoded

  -- the first loop of `validate_batch_ownership`, with the map that it is read into
  unfoldable pub index_records :
      Map Text Text → List StoredMember → Outcome (BatchError E) (Map Text Text)
  index_records by_path [] = ok by_path
  index_records by_path (m ∷ ms) = do
    require (not (Map.contains_key m.path by_path)) (duplicate_stored_path m.path)
    r ← map_err (invalid_stored_record m.path) (codec.decode_record m.bytes)
    index_records (Map.insert m.path m.bytes by_path) ms

  -- the members of a manifest, found among the records
  unfoldable pub find_members :
      Map Text Text → List RecordRef → Outcome (BatchError E) (List StoredMember)
  find_members by_path [] = ok []
  find_members by_path (m ∷ ms) = do
    bytes ← found_or (ownership_missing_member m.path) (Map.get m.path by_path)
    rest ← find_members by_path ms
    ok (record { path = m.path; bytes = bytes } ∷ rest)

  abbrev pub count_of : Text → Map Text ℕ → ℕ
  count_of path owners = elim (Map.get path owners) [ none ↦ 0 | some n ↦ n ]

  -- `*ownership.entry(..).or_default() += 1`
  unfoldable pub count_members : Map Text ℕ → List RecordRef → Map Text ℕ
  count_members owners [] = owners
  count_members owners (m ∷ ms) =
      count_members (Map.insert m.path (suc (count_of m.path owners)) owners) ms

  unfoldable pub own_all :
      Map Text Text → Map Text ℕ → List BatchManifest → Outcome (BatchError E) (Map Text ℕ)
  own_all by_path owners [] = ok owners
  own_all by_path owners (manifest ∷ manifests) = do
    members ← find_members by_path manifest.members
    decoded ← validate_batch_members manifest members
    own_all by_path (count_members owners manifest.members) manifests

  unfoldable pub check_owners : Map Text ℕ → Map Text Text → Outcome (BatchError E) (Unit {0})
  check_owners owners [] = ok tt
  check_owners owners ((path, bytes) ∷ records) = elim (count_of path owners) [
    | zero ↦ err (unowned_record path)
    | suc n ↦ elim n [
      | zero ↦ check_owners owners records
      | suc m ↦ err (multiply_owned_record path)
    ]
  ]

  unfoldable pub check_present : Map Text Text → Map Text ℕ → Outcome (BatchError E) (Unit {0})
  check_present by_path [] = ok tt
  check_present by_path ((path, n) ∷ owners) =
      require (Map.contains_key path by_path) (ownership_missing_member path)
      >> check_present by_path owners

  -- `validate_batch_ownership`
  unfoldable pub validate_batch_ownership :
      List StoredMember → List BatchManifest → Outcome (BatchError E) (Unit {0})
  validate_batch_ownership records manifests = do
    by_path ← index_records [] records
    owners ← own_all by_path [] manifests
    check_owners owners by_path
    check_present by_path owners

  -- the manifests of the actor and the key
  unfoldable pub owned_by : Text → Digest → List BatchManifest → List BatchManifest
  owned_by actor digest [] = []
  owned_by actor digest (m ∷ ms) =
      let rest = owned_by actor digest ms in
      if eqb m.actor actor && (m.idempotency_key_digest == digest) then m ∷ rest else rest

  abbrev pub cmp_batches : BatchManifest → BatchManifest → Ordering
  cmp_batches a b = compare a.batch_id b.batch_id

  unfoldable pub decide : List BatchManifest → Digest → Outcome (BatchError E) IdempotencyDecision
  decide [] request_digest = ok new_request
  decide (m ∷ []) request_digest =
      require (m.request_digest == request_digest) (idempotency_request_mismatch m.batch_id)
      >> ok (replay m)
  decide (m ∷ n ∷ ms) request_digest =
      err (duplicate_idempotency_ownership (map (λ x. x.batch_id) (m ∷ n ∷ ms)))

  -- `classify_idempotency`
  unfoldable pub classify_idempotency :
      List BatchManifest → Text → Text → Digest → Outcome (BatchError E) IdempotencyDecision
  unfolding sort_by
  classify_idempotency manifests actor key request_digest =
      decide (sort_by cmp_batches (owned_by actor (idempotency_digest actor key) manifests))
        request_digest
