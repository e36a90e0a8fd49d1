-- ===== src/Examples/IdentityExamples.antt =====
-- crates/wayjournal-core/src/identity.rs: a forked store of one batch, which holds its genesis record.
use wayjournal_build_attesta.Prelude.{
  false, ℕ, ◌≡◌, refl, some, List, [], ◌∷◌, nat_ord, list_ord, pair_ord, Outcome, ok, err,
}
use wayjournal_build_attesta.Ids.{Text, ascii}
use wayjournal_build_attesta.Federation.{wayjournal_blake3_framed_v1}
use wayjournal_build_attesta.Examples.UuidExample.{print, hyphenated_crate}
use wayjournal_build_attesta.Examples.RevisionExamples.{sum}
use wayjournal_build_attesta.Examples.BatchExamples.{key, value_or}
use wayjournal_build_attesta.Batch.{
  Record, BatchError, BatchManifest, StoredMember, Codec, PreparedBatch, prepare_batch,
  collect_records, index_members, check_members, none_extra, canonical_path, manifest_path,
  content_digest, idempotency_digest, reference_of, validate_batch_members,
}
use wayjournal_build_attesta.Batch.Replay.{stored}
use wayjournal_build_attesta.Collections.Map
use wayjournal_build_attesta.Collections.Set
use wayjournal_build_attesta.Collections.Sort.{sort_by, insert_by}
use wayjournal_build_attesta.Texts.{join, joined_after}
use wayjournal_build_attesta.Layout.Paths.{record_path}
use wayjournal_build_attesta.Revision.{framed_hash, hash_bytes, update_frame, framed, to_be_bytes}
use wayjournal_build_attesta.Identity.{
  Decoded, validate_replayed_identity, replayed_identity_of, GenesisPayload, StoreIdentity,
  ForkProvenance, reuses_parent, identity_of, by_path_of, members_of, check_manifests, add_paths,
  manifest_paths, decode_members, any_unsupported, genesis_records, check_first,
  identity_of_genesis, checked_members, validate_store_identity, genesis_fingerprint,
}
use wayjournal_build_attesta.Identity.Derived.{
  KeepsGenesis, IsIdentityOf, validate_replayed_identity-IsIdentityOf,
}
use wayjournal_build_attesta.Identity.Genesis.{Accepted, validate_store_identity-HasOneGenesis}

abbrev genesis_item : ℕ → Record ℕ
genesis_item id = record {
  record_schema = ascii "wayjournal.identity/v1";
  domain = ascii "wayjournal.identity";
  kind = ascii "store.genesis";
  record_id = id;
  entity_id = 1;
  batch_id = 9;
  actor = ascii "ann";
  occurred_at = 5;
  recorded_at = 6;
  parents = [];
  payload = 0;
}

abbrev decode_genesis : Text → Outcome Text (Record ℕ)
decode_genesis [] = err []
decode_genesis (id ∷ rest) = ok (genesis_item id)

abbrev genesis_codec : Codec ℕ Text
genesis_codec = record {
  uuid = hyphenated_crate;
  blake3 = sum;
  encode_record = λ r. ok (r.record_id ∷ []);
  decode_record = decode_genesis;
  encode_manifest = λ m. ok [];
}

-- the fork of store 2
abbrev fork_of_two : ForkProvenance
fork_of_two = record {
  parent = record { store_uuid = 2; genesis_fingerprint = 7 };
  parent_revision = record { algorithm = wayjournal_blake3_framed_v1; digest = 8 };
}

abbrev payload_of : ℕ → Outcome Text GenesisPayload
payload_of v =
    ok (record { store_kind = ascii "work"; store_uuid = 1; forked_from = some fork_of_two })

abbrev batch_text : BatchError Text → Text
batch_text e = ascii "batch"

abbrev record_text : Text → Text
record_text e = e

abbrev genesis_batch : PreparedBatch ℕ
genesis_batch = value_or (prepare_batch genesis_codec (genesis_item 3 ∷ []) key)

abbrev genesis_manifests : List BatchManifest
genesis_manifests = genesis_batch.manifest ∷ []

abbrev genesis_members : List StoredMember
genesis_members = stored genesis_batch.records

abbrev genesis_identity : StoreIdentity
genesis_identity = record {
  logical_id = record {
    store_uuid = 1;
    genesis_fingerprint =
        genesis_fingerprint genesis_codec payload_of batch_text record_text
          (canonical_path genesis_codec (genesis_item 3)) (3 ∷ []);
  };
  store_kind = ascii "work";
  forked_from = some fork_of_two;
  genesis_record_id = 3;
}

is_accepted :
    validate_store_identity genesis_codec payload_of batch_text record_text genesis_manifests
      genesis_members
    ≡ ok (some genesis_identity)
unfolding print validate_store_identity checked_members any_unsupported identity_of_genesis
    genesis_records sort_by insert_by by_path_of check_manifests members_of manifest_paths add_paths
    decode_members check_first identity_of reuses_parent validate_batch_members index_members
    check_members none_extra Map.get Map.remove Map.contains_key Set.insert prepare_batch
    collect_records canonical_path manifest_path content_digest idempotency_digest reference_of
    Map.insert record_path join joined_after genesis_fingerprint framed_hash hash_bytes update_frame
    framed to_be_bytes
is_accepted = refl

validate_store_identity-HasOneGenesis_example :
    Accepted genesis_codec payload_of batch_text record_text genesis_manifests genesis_members
      genesis_identity
validate_store_identity-HasOneGenesis_example =
    validate_store_identity-HasOneGenesis genesis_codec payload_of batch_text record_text
      genesis_manifests genesis_members genesis_identity is_accepted

abbrev genesis_member : Decoded ℕ
genesis_member = (canonical_path genesis_codec (genesis_item 3), 3 ∷ [], genesis_item 3)

is_replayed :
    validate_replayed_identity genesis_codec payload_of batch_text record_text 1 1
      (some (9, 1, some 3))
      false
      1
      (some genesis_member)
    ≡ ok (some genesis_identity)
unfolding validate_replayed_identity replayed_identity_of
is_replayed = refl

validate_replayed_identity-IsIdentityOf_example :
    KeepsGenesis genesis_codec payload_of batch_text record_text
      (some (9, 1, some 3))
      false
      1
      (genesis_item 3)
    × IsIdentityOf genesis_codec payload_of batch_text record_text genesis_member genesis_identity
validate_replayed_identity-IsIdentityOf_example =
    validate_replayed_identity-IsIdentityOf genesis_codec payload_of batch_text record_text 1 1
      (some (9, 1, some 3)) false 1 genesis_member genesis_identity is_replayed
