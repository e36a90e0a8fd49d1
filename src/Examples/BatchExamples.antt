-- ===== src/Examples/BatchExamples.antt =====
-- crates/wayjournal-core/src/batch.rs: a batch of two records that differ in their ids alone.
use wayjournal_build_attesta.Prelude.{
  ℕ, ◌≡◌, refl, ap, ◌∙◌, List, [], ◌∷◌, arith, nat_ord, list_ord, pair_ord, eqb, ◌==◌, All, Outcome,
  ok, err, map, if◌then◌else◌, Bool-cases, inl, inr,
}
use wayjournal_build_attesta.Ids.{Text, ascii}
use wayjournal_build_attesta.Examples.LayoutExamples.{domain_name}
use wayjournal_build_attesta.Examples.UuidExample.{print, hyphenated_crate}
use wayjournal_build_attesta.Examples.RevisionExamples.{sum}
use wayjournal_build_attesta.Batch.{
  Record, BatchError, collect_records, index_records, find_members, count_members, own_all,
  check_owners, check_present, index_members, check_members, none_extra, canonical_path,
  manifest_path, content_digest, idempotency_digest, reference_of, PreparedBatch, Codec,
  prepare_batch, validate_batch_members, validate_batch_ownership, classify_idempotency, replay,
  idempotency_request_mismatch,
}
use wayjournal_build_attesta.Collections.Map
use wayjournal_build_attesta.Texts.{join, joined_after}
use wayjournal_build_attesta.Layout.Paths.{record_path}
use wayjournal_build_attesta.Revision.{framed_hash, hash_bytes, update_frame, framed, to_be_bytes}
use wayjournal_build_attesta.Capability.Checks.{same_of_require}
use wayjournal_build_attesta.Batch.Replay.{stored, validate_batch_members-prepare_batch}
use wayjournal_build_attesta.Batch.Ownership.{owner_count, validate_batch_ownership-one}
use wayjournal_build_attesta.Batch.Idempotency.{classify_idempotency-prepare_batch}

abbrev pub item : ℕ → Record ℕ
item id = record {
  record_schema = ascii "v2";
  domain = domain_name;
  kind = ascii "set";
  record_id = id;
  entity_id = 1;
  batch_id = 9;
  actor = ascii "ann";
  occurred_at = 5;
  recorded_at = 6;
  parents = [];
  payload = 0;
}

abbrev pub other_fields :
    Record ℕ → Text × (Text × (Text × (ℕ × (ℕ × (Text × (ℕ × (ℕ × (List ℕ × ℕ))))))))
other_fields r = (
  r.record_schema,
  (
    r.domain,
    (
      r.kind,
      (
        r.entity_id,
        (r.batch_id, (r.actor, (r.occurred_at, (r.recorded_at, (r.parents, r.payload))))),
      ),
    ),
  ),
)

-- A record is written as its id, when the rest of it is that of every item.
abbrev pub encode : Record ℕ → Outcome Text Text
encode r = if eqb (other_fields r) (other_fields (item 0)) then ok (r.record_id ∷ []) else err []

abbrev pub decode : Text → Outcome Text (Record ℕ)
decode [] = err []
decode (id ∷ rest) = ok (item id)

abbrev pub codec : Codec ℕ Text
codec = record {
  uuid = hyphenated_crate;
  blake3 = sum;
  encode_record = encode;
  decode_record = decode;
  encode_manifest = λ m. ok [];
}

same_item : {r : Record ℕ} → other_fields r ≡ other_fields (item 0) → item r.record_id ≡ r
same_item h = cc

decodes : (r : Record ℕ) (bytes : Text) → encode r ≡ ok bytes → decode bytes ≡ ok r
decodes r bytes h = elim (Bool-cases (eqb (other_fields r) (other_fields (item 0)))) [
  | inl same ↦
      let others = same_of_require (other_fields r) (other_fields (item 0)) same in
      let written : bytes ≡ r.record_id ∷ [] = ground (arith, h, same) in
      ap decode written ∙ ap ok (same_item others)
  | inr other ↦ ground (arith, h, other)
]

abbrev pub fallback : PreparedBatch ℕ
fallback = record {
  manifest = record {
    batch_id = 0;
    actor = [];
    members = [];
    idempotency_key_digest = 0;
    request_digest = 0;
  };
  manifest_path = [];
  manifest_bytes = [];
  records = [];
}

abbrev pub value_or : Outcome (BatchError Text) (PreparedBatch ℕ) → PreparedBatch ℕ
value_or (ok b) = b
value_or _ = fallback

abbrev pub key : Text
key = ascii "k"

abbrev pub items : List (Record ℕ)
items = item 2 ∷ item 1 ∷ []

abbrev pub prepared : PreparedBatch ℕ
prepared = value_or (prepare_batch codec items key)

is_prepared : prepare_batch codec items key ≡ ok prepared
unfolding print prepare_batch collect_records canonical_path manifest_path content_digest
    idempotency_digest reference_of Map.insert record_path join joined_after framed_hash hash_bytes
    update_frame framed to_be_bytes
is_prepared = refl

validate_batch_members-prepare_batch_example :
    validate_batch_members codec prepared.manifest (stored prepared.records)
    ≡ ok (map (λ p. p.record_of) prepared.records)
validate_batch_members-prepare_batch_example =
    validate_batch_members-prepare_batch codec decodes items key prepared is_prepared

-- The records come back in the order of their paths.
in_order : map (λ p. p.record_of) prepared.records ≡ item 1 ∷ item 2 ∷ []
unfolding print prepare_batch collect_records canonical_path manifest_path content_digest
    idempotency_digest reference_of Map.insert record_path join joined_after framed_hash hash_bytes
    update_frame framed to_be_bytes
in_order = refl

classify_idempotency-prepare_batch_example :
    classify_idempotency codec (prepared.manifest ∷ []) prepared.manifest.actor key 1 ≡ (
      if prepared.manifest.request_digest == 1
      then ok (replay prepared.manifest)
      else err (idempotency_request_mismatch prepared.manifest.batch_id))
classify_idempotency-prepare_batch_example =
    classify_idempotency-prepare_batch codec items key prepared [] [] 1 is_prepared tt tt

is_owned : validate_batch_ownership codec (stored prepared.records) (prepared.manifest ∷ []) ≡ ok tt
unfolding print validate_batch_ownership index_records own_all find_members count_members
    check_owners check_present validate_batch_members index_members check_members none_extra Map.get
    Map.remove Map.contains_key prepare_batch collect_records canonical_path manifest_path
    content_digest idempotency_digest reference_of Map.insert record_path join joined_after
    framed_hash hash_bytes update_frame framed to_be_bytes
is_owned = refl

validate_batch_ownership-one_example :
    All (λ r. owner_count r.path (prepared.manifest ∷ []) ≡ 1) (stored prepared.records)
validate_batch_ownership-one_example =
    validate_batch_ownership-one codec (stored prepared.records) (prepared.manifest ∷ []) is_owned
