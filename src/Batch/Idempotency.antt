-- ===== src/Batch/Idempotency.antt =====
-- crates/wayjournal-core/src/batch.rs: what a repeated request is answered.
use wayjournal_build_attesta.Prelude.{
  ◌≡◌, refl, ap, ◌∙◌, subst, Bool, true, false, ◌&&◌, List, [], ◌∷◌, ◌++◌, arith, Ord, nat_ord,
  list_ord, eqb, ◌==◌, All, ok, err, if◌then◌else◌, map_err, ok_parts, ok_injective, compare,
}
use wayjournal_build_attesta.Ids.{Text, Digest}
use wayjournal_build_attesta.Collections.Sort.{sort_by, insert_by}
use wayjournal_build_attesta.Batch.{
  Record, BatchManifest, PreparedBatch, Codec, replay, idempotency_request_mismatch,
  idempotency_digest, collect_records, prepare_batch, invalid_manifest, owned_by, decide,
  classify_idempotency,
}

abbrev text_ord : Ord Text
text_ord = list_ord

module _ {V E : Type 0} (codec : Codec V E) where
  -- whether the manifest is of the actor and of the key
  abbrev pub owns : Text → Text → BatchManifest → Bool
  owns actor key m =
      eqb m.actor actor && (m.idempotency_key_digest == idempotency_digest codec actor key)

  owned_by-none :
      (actor key : Text) (ms : List BatchManifest)
      → All (λ m. owns actor key m ≡ false) ms
      → owned_by codec actor (idempotency_digest codec actor key) ms ≡ []
  unfolding owned_by
  owned_by-none actor key [] a = refl
  owned_by-none actor key (m ∷ ms) a = ground (arith, a.0, owned_by-none actor key ms a.1)

  owned_by-one :
      (actor key : Text) (front back : List BatchManifest) (m : BatchManifest)
      → owns actor key m ≡ true
      → All (λ n. owns actor key n ≡ false) front
      → All (λ n. owns actor key n ≡ false) back
      → owned_by codec actor (idempotency_digest codec actor key) (front ++ m ∷ back) ≡ m ∷ []
  unfolding owned_by
  owned_by-one actor key [] back m h a b = ground (arith, h, owned_by-none actor key back b)
  owned_by-one actor key (n ∷ front) back m h a b =
      ground (arith, a.0, owned_by-one actor key front back m h a.1 b)

  -- A prepared batch is of its own actor and key.
  owns-prepare_batch :
      (records : List (Record V)) (key : Text) (batch : PreparedBatch V)
      → prepare_batch codec records key ≡ ok batch
      → owns batch.manifest.actor key batch.manifest ≡ true
  unfolding prepare_batch
  owns-prepare_batch [] key batch h = cc
  owns-prepare_batch (first ∷ rest) key batch h =
      let (sorted, collected, h1) =
        ok_parts (collect_records codec first.batch_id first.actor [] [] (first ∷ rest)) _ h in
      let (bytes, encoded, h2) =
        ok_parts (map_err invalid_manifest (codec.encode_manifest _)) _ h1 in
      subst (λ b. owns b.manifest.actor key b.manifest ≡ true) (ok_injective h2)
        (own_key first.actor)
    where
      own_key :
          (actor : Text)
          → (eqb actor actor
              && (idempotency_digest codec actor key == idempotency_digest codec actor key))
            ≡ true
      own_key actor = ground (arith, text_ord.cmp_self actor)

  -- Where the manifest of a prepared batch is visible, and no other of its actor and key, a request
  -- of that actor and key is a replay of it when the digest of the request is the same, and refused
  -- with the batch's id when it is not.
  pub classify_idempotency-prepare_batch :
      (records : List (Record V)) (key : Text) (batch : PreparedBatch V)
      (front back : List BatchManifest) (request : Digest)
      → prepare_batch codec records key ≡ ok batch
      → All (λ m. owns batch.manifest.actor key m ≡ false) front
      → All (λ m. owns batch.manifest.actor key m ≡ false) back
      → classify_idempotency codec (front ++ batch.manifest ∷ back) batch.manifest.actor key request
        ≡ (if batch.manifest.request_digest == request
            then ok (replay batch.manifest)
            else err (idempotency_request_mismatch batch.manifest.batch_id))
  unfolding classify_idempotency sort_by insert_by decide
  classify_idempotency-prepare_batch records key batch front back request h a b =
      let m = batch.manifest in
      let one =
        owned_by-one m.actor key front back m (owns-prepare_batch records key batch h) a b in
      ap (λ ms. decide codec (sort_by (λ x y. compare x.batch_id y.batch_id) ms) request) one
      ∙ ground arith
