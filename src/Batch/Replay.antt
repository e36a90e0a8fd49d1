-- ===== src/Batch/Replay.antt =====
-- crates/wayjournal-core/src/batch.rs: a batch that was prepared is accepted again.
use mathlib.Core.List.{append-nil, append_assoc}
use wayjournal_build_attesta.Prelude.{
  ◌≡◌, refl, ap, sym, ◌∙◌, subst, true, false, not, ◌&&◌, some, List, [], ◌∷◌, ◌++◌, arith, Ord,
  nat_ord, list_ord, eqb, ◌==◌, map, mem, All, ◌≺◌, ok, require, map_err, ok_parts, require_passes,
  require_passed, map_err-ok, ok_injective, bind_value,
}
use wayjournal_build_attesta.Ids.{Text, Digest, RecordId, BatchId}
use wayjournal_build_attesta.Collections.Map
use wayjournal_build_attesta.Collections.Map.{Map}
use wayjournal_build_attesta.Collections.Set.{IsOrdered}
use wayjournal_build_attesta.Collections.Keys.{insert-keys-IsOrdered}
use wayjournal_build_attesta.Capability.Checks.{eqb_same, same_of_require}
use wayjournal_build_attesta.Revision.{framed_hash}
use wayjournal_build_attesta.Batch.{
  Record, BatchManifest, PreparedRecord, PreparedBatch, StoredMember, Codec, duplicate_stored_path,
  invalid_record, invalid_manifest, content_digest, canonical_path, collect_records, hashed_of,
  reference_of, prepare_batch, index_members, found_or, missing_member, member_digest_mismatch,
  invalid_stored_record, member_identity_mismatch, member_batch_mismatch, member_actor_mismatch,
  check_members, none_extra, validate_batch_members, request_digest_domain, request_digest_mismatch,
}

abbrev path_ord : Ord Text
path_ord = list_ord

module _ {ℓ κ} {K : Type ℓ} {V : Type κ} ⦃o : Ord K⦄ where
  All-insert-entries {μ} :
      (P : K × V → Type μ) (k : K) (v : V) (m : Map K V)
      → P (k, v)
      → All P m
      → All P (Map.insert k v m)
  unfolding Map.insert
  All-insert-entries P k v [] h a = (h, tt)
  All-insert-entries P k v ((j, w) ∷ m) h a = ground (arith, All-insert-entries P k v m h a.1)

  -- A key above all others comes last, and is new.
  insert-last :
      (k : K) (v : V) (m : Map K V)
      → All (λ j. j ≺ k) (Map.keys m)
      → Map.insert k v m ≡ m ++ (k, v) ∷ []
  unfolding Map.insert
  insert-last k v [] a = refl
  insert-last k v ((j, w) ∷ m) a = ground (arith, insert-last k v m a.1, o.cmp_swapped j k)

  contains_key-above :
      (k : K) (m : Map K V) → All (λ j. j ≺ k) (Map.keys m) → Map.contains_key k m ≡ false
  unfolding Map.contains_key Map.get
  contains_key-above k [] a = refl
  contains_key-above k ((j, w) ∷ m) a = ground (arith, contains_key-above k m a.1)

  remove-below : (k : K) (m : Map K V) → All (λ j. k ≺ j) (Map.keys m) → Map.remove k m ≡ m
  unfolding Map.remove
  remove-below k [] a = refl
  remove-below k ((j, w) ∷ m) a = ground (arith, remove-below k m a.1, o.cmp_swapped k j)

  remove-first :
      (k : K) (v : V) (m : Map K V) → All (λ j. k ≺ j) (Map.keys m) → Map.remove k ((k, v) ∷ m) ≡ m
  unfolding Map.remove
  remove-first k v m a = ground (arith, remove-below k m a, o.cmp_self k)

module _ {ℓ κ} {K : Type ℓ} {V : Type κ} where
  All-middle {μ} :
      (P : K → Type μ) (m : Map K V) (k : K) (v : V) (s : Map K V)
      → All P (Map.keys (m ++ (k, v) ∷ s))
      → P k
  All-middle P [] k v s a = a.0
  All-middle P ((i, w) ∷ m) k v s a = All-middle P m k v s a.1

module _ {ℓ κ} {K : Type ℓ} {V : Type κ} ⦃o : Ord K⦄ where
  -- In an ordered map, what comes before a key is below it.
  below-IsOrdered :
      (m : Map K V) (k : K) (v : V) (s : Map K V)
      → IsOrdered (Map.keys (m ++ (k, v) ∷ s))
      → All (λ j. j ≺ k) (Map.keys m)
  below-IsOrdered [] k v s h = tt
  below-IsOrdered ((j, w) ∷ m) k v s h =
      (All-middle (λ i. j ≺ i) m k v s h.0, below-IsOrdered m k v s h.1)

-- what a store holds of prepared records
abbrev pub stored : {V : Type 0} → List (PreparedRecord V) → List StoredMember
stored [] = []
stored (p ∷ ps) = record { path = p.path; bytes = p.bytes } ∷ stored ps

module _ {V E : Type 0} (codec : Codec V E) where
  -- An entry of the sorted records is filed under its own path, was encoded, and is of the batch.
  abbrev IsPrepared : BatchId → Text → Text × PreparedRecord V → Type 0
  IsPrepared batch actor (k, p) =
      (k ≡ p.path)
      × (p.path ≡ canonical_path codec p.record_of)
      × (codec.encode_record p.record_of ≡ ok p.bytes)
      × (p.record_of.batch_id ≡ batch)
      × (p.record_of.actor ≡ actor)

  abbrev AreSorted : BatchId → Text → Map Text (PreparedRecord V) → Type 0
  AreSorted batch actor m = IsOrdered (Map.keys m) × All (IsPrepared batch actor) m

  collect_records-AreSorted :
      (batch : BatchId) (actor : Text) (ids : List RecordId)
      (sorted result : Map Text (PreparedRecord V)) (rs : List (Record V))
      → AreSorted batch actor sorted
      → collect_records codec batch actor ids sorted rs ≡ ok result
      → AreSorted batch actor result
  unfolding collect_records
  collect_records-AreSorted batch actor ids sorted result [] a h =
      subst (AreSorted batch actor) (cc) a
  collect_records-AreSorted batch actor ids sorted result (r ∷ rs) a h =
      let path = canonical_path codec r in
      let (u, same_batch, h1) = ok_parts (require (r.batch_id == batch) _) _ h in
      let (v, same_actor, h2) = ok_parts (require (eqb r.actor actor) _) _ h1 in
      let (w, fresh, h3) = ok_parts (require (not (mem r.record_id ids)) _) _ h2 in
      let (bytes, encoded, h4) =
        ok_parts (map_err (invalid_record r.record_id) (codec.encode_record r)) _ h3 in
      let prepared : PreparedRecord V = record { record_of = r; path = path; bytes = bytes } in
      collect_records-AreSorted batch actor (r.record_id ∷ ids) (Map.insert path prepared sorted)
        result rs
        (
          insert-keys-IsOrdered path prepared sorted a.0,
          All-insert-entries (IsPrepared batch actor) path prepared sorted
              (
                refl,
                refl,
                map_err-ok (invalid_record r.record_id) (codec.encode_record r) encoded,
                same_of_require r.batch_id batch
                    (require_passed (r.batch_id == batch) _ same_batch),
                same_of_require r.actor actor (require_passed (eqb r.actor actor) _ same_actor),
              )
              a.1,
        )
        h4

  abbrev bytes_of : Map Text (PreparedRecord V) → Map Text Text
  bytes_of m = hashed_of codec (Map.values m)

  keys-bytes_of :
      (batch : BatchId) (actor : Text) (m : Map Text (PreparedRecord V))
      → All (IsPrepared batch actor) m
      → Map.keys (bytes_of m) ≡ Map.keys m
  keys-bytes_of batch actor [] a = refl
  keys-bytes_of batch actor ((k, p) ∷ m) a =
      ap (λ i. i ∷ Map.keys (bytes_of m)) (sym a.0.0)
      ∙ ap (λ l. k ∷ l) (keys-bytes_of batch actor m a.1)

  index_members-bytes_of :
      (m : Map Text (PreparedRecord V)) (front : Map Text Text)
      → IsOrdered (Map.keys (front ++ bytes_of m))
      → index_members codec front (stored (Map.values m)) ≡ ok (front ++ bytes_of m)
  unfolding index_members
  index_members-bytes_of [] front h = ap ok (sym (append-nil front))
  index_members-bytes_of ((k, p) ∷ m) front h =
      let below = below-IsOrdered front p.path p.bytes (bytes_of m) h in
      let assoc = append_assoc front ((p.path, p.bytes) ∷ []) (bytes_of m) in
      require_passes (duplicate_stored_path p.path) _
        (ap not (contains_key-above p.path front below))
      ∙ ap (λ f. index_members codec f (stored (Map.values m)))
          (insert-last p.path p.bytes front below)
      ∙ index_members-bytes_of m (front ++ (p.path, p.bytes) ∷ [])
          (subst (λ l. IsOrdered (Map.keys l)) (sym assoc) h)
      ∙ ap ok assoc

  module _
      (decodes : (r : Record V) (bytes : Text)
        → codec.encode_record r ≡ ok bytes
        → codec.decode_record bytes ≡ ok r) where
    check_members-bytes_of :
        (manifest : BatchManifest) (m : Map Text (PreparedRecord V))
        → IsOrdered (Map.keys (bytes_of m))
        → All (IsPrepared manifest.batch_id manifest.actor) m
        → check_members codec manifest (bytes_of m) (map (reference_of codec) (Map.values m))
          ≡ ok ([], bytes_of m, map (λ p. p.record_of) (Map.values m))
    unfolding check_members reference_of Map.get
    check_members-bytes_of manifest [] h a = refl
    check_members-bytes_of manifest ((k, p) ∷ m) h a =
        let r = p.record_of in
        let (k_path, path_canonical, encoded, same_batch, same_actor) = a.0 in
        let found : Map.get p.path (bytes_of ((k, p) ∷ m)) ≡ some p.bytes =
          ground (arith, path_ord.cmp_self p.path) in
        let removed : Map.remove p.path (bytes_of ((k, p) ∷ m)) ≡ bytes_of m =
          remove-first p.path p.bytes (bytes_of m) h.0 in
        let decoded = decodes r p.bytes encoded in
        let rest = check_members-bytes_of manifest m h.1 a.1 in
        let identity : (eqb (canonical_path codec r) p.path
              && (r.record_id == r.record_id)
              && eqb r.record_schema r.record_schema)
            ≡ true =
          ground (
            arith,
            eqb_same (canonical_path codec r) p.path (sym path_canonical),
            eqb_same r.record_schema r.record_schema refl,
          ) in
        let batch : (r.batch_id == manifest.batch_id) ≡ true =
          eqb_same r.batch_id manifest.batch_id same_batch in
        let actor : (eqb r.actor manifest.actor) ≡ true =
          eqb_same r.actor manifest.actor same_actor in
        bind_value _ (ap (found_or (missing_member p.path)) found)
        ∙ require_passes (member_digest_mismatch p.path) _
            (eqb_same (content_digest codec p.bytes) (content_digest codec p.bytes) refl)
        ∙ bind_value _ (ap (map_err (invalid_stored_record p.path)) decoded)
        ∙ require_passes (member_identity_mismatch p.path) _ identity
        ∙ require_passes (member_batch_mismatch p.path) _ batch
        ∙ require_passes (member_actor_mismatch p.path) _ actor
        ∙ bind_value _ (
            ap (λ l. check_members codec manifest l (map (reference_of codec) (Map.values m)))
              removed
            ∙ rest)

    manifest-AreSorted :
        (m : Map Text (PreparedRecord V)) (batch : BatchId) (actor : Text) (key : Digest)
        → AreSorted batch actor m
        → validate_batch_members codec
            (record {
              batch_id = batch;
              actor = actor;
              members = map (reference_of codec) (Map.values m);
              idempotency_key_digest = key;
              request_digest = framed_hash codec.blake3 request_digest_domain (bytes_of m);
            })
            (stored (Map.values m))
          ≡ ok (map (λ p. p.record_of) (Map.values m))
    unfolding validate_batch_members none_extra
    manifest-AreSorted m batch actor key a =
        let ordered = subst IsOrdered (sym (keys-bytes_of batch actor m a.1)) a.0 in
        let digest = framed_hash codec.blake3 request_digest_domain (bytes_of m) in
        bind_value _ (index_members-bytes_of m [] ordered)
        ∙ bind_value _ (check_members-bytes_of _ m ordered a.1)
        ∙ require_passes request_digest_mismatch _ (eqb_same digest digest refl)

    -- A batch that was prepared from records is accepted with the bytes it was stored as, and its
    -- records are read back.
    pub validate_batch_members-prepare_batch :
        (records : List (Record V)) (key : Text) (batch : PreparedBatch V)
        → prepare_batch codec records key ≡ ok batch
        → validate_batch_members codec batch.manifest (stored batch.records)
          ≡ ok (map (λ p. p.record_of) batch.records)
    unfolding prepare_batch validate_batch_members none_extra
    validate_batch_members-prepare_batch [] key batch h = cc
    validate_batch_members-prepare_batch (first ∷ rest) key batch h =
        let (sorted, collected, h1) =
          ok_parts (collect_records codec first.batch_id first.actor [] [] (first ∷ rest)) _ h in
        let (bytes, encoded, h2) =
          ok_parts (map_err invalid_manifest (codec.encode_manifest _)) _ h1 in
        let prepared =
          collect_records-AreSorted first.batch_id first.actor [] [] sorted (first ∷ rest) (tt, tt)
            collected in
        subst
          (λ b.
            validate_batch_members codec b.manifest (stored b.records)
            ≡ ok (map (λ p. p.record_of) b.records))
          (ok_injective h2) (manifest-AreSorted sorted first.batch_id first.actor _ prepared)
