-- ===== src/Identity/Derived.antt =====
-- crates/wayjournal-core/src/identity.rs: the identity that a genesis record gives, in either validation.
use wayjournal_build_attesta.Prelude.{
  Bool, err, ◌>>=◌, ℕ, ◌≡◌, refl, ap, ◌∙◌, subst, true, false, not, ◌&&◌, Option, none, some, List,
  [], ◌∷◌, arith, nat_ord, list_ord, ◌==◌, Outcome, ok, ◌>>◌, require, map_err, ok_parts,
  ok_injective, require_passed, require_passes, map_err-ok, if◌then◌else◌,
}
use wayjournal_build_attesta.Ids.{RecordId, BatchId, Text, ascii}
use wayjournal_build_attesta.Collections.Sort.{sort_by}
use wayjournal_build_attesta.Capability.Checks.{same_of_require, eqb_same}
use wayjournal_build_attesta.Batch.{
  found_or, Record, RecordRef, BatchManifest, BatchError, Codec, manifest_path,
}
use wayjournal_build_attesta.Identity.{
  is_record, missing_genesis, duplicate_genesis, GenesisError, GenesisPayload, StoreIdentity,
  ForkProvenance, Decoded, genesis_fingerprint, cmp_manifests, only_member_is, check_first,
  identity_of, replayed_identity_of, identity_of_genesis, validate_replayed_identity,
  genesis_not_first, invalid_genesis_record, reuses_parent,
}
use wayjournal_build_attesta.Identity.First.{IsLeast, sort_by-IsLeast}

some_injective {ℓ} : {A : Type ℓ} {a b : A} → some a ≡ some b → a ≡ b
some_injective h = cc

pub none-some {ℓ} : {A : Type ℓ} {a : A} → none ≡ some a → ⊥
none-some h = cc

no_error {ℓ} : {A : Type ℓ} {E : Type 0} {e : E} {a : A} → err e ≡ ok a → ⊥
no_error h = cc

same_first :
    {b c id : ℕ} {other k : RecordId}
    → b ≡ id
    → c ≡ 1
    → other ≡ k
    → ◌≡◌ {A = ℕ × ℕ × Option RecordId} (b, c, some other) (id, 1, some k)
same_first h k l = cc

fork_lem :
    (named : Option ForkProvenance) (id : ℕ)
    → not (elim named [ none ↦ false | some fork ↦ fork.parent.store_uuid == id ]) ≡ true
    → (fork : ForkProvenance) → named ≡ some fork
    → ¬ (fork.parent.store_uuid ≡ id)
fork_lem none id h fork e same = absurd (none-some e)
fork_lem (some other) id h fork e same =
    let equal =
      eqb_same other.parent.store_uuid id
        (ap (λ f. f.parent.store_uuid) (some_injective e) ∙ same) in
    ground (arith, h, equal)

module _ {V E : Type 0} (codec : Codec V E) (parse_payload : V → Outcome Text GenesisPayload)
    (batch_text : BatchError E → Text) (record_text : E → Text) where
  -- The record is the one member of the manifest whose path is the least.
  abbrev pub IsInitial : List BatchManifest → BatchManifest → Record V → Type 0
  IsInitial manifests m r =
      IsLeast (λ n. manifest_path codec n.batch_id) manifests m
      × (r.batch_id ≡ m.batch_id)
      × ((reference : RecordRef) × (m.members ≡ reference ∷ [])
          × (reference.record_id ≡ r.record_id))

  -- The identity is what the payload says of the record's entity, and a fork has another parent.
  abbrev pub IsIdentityOf : Decoded V → StoreIdentity → Type 0
  IsIdentityOf (path, bytes, r) identity =
      (payload : GenesisPayload) × (parse_payload r.payload ≡ ok payload)
      × (r.entity_id ≡ payload.store_uuid)
      × ((fork : ForkProvenance)
          → payload.forked_from ≡ some fork
          → ¬ (fork.parent.store_uuid ≡ payload.store_uuid))
      × (identity.logical_id.store_uuid ≡ payload.store_uuid)
      × (identity.logical_id.genesis_fingerprint
          ≡ genesis_fingerprint codec parse_payload batch_text record_text path bytes)
      × (identity.store_kind ≡ payload.store_kind)
      × (identity.forked_from ≡ payload.forked_from)
      × (identity.genesis_record_id ≡ r.record_id)

  pub identity_of-IsIdentityOf :
      (g : Decoded V) (identity : StoreIdentity)
      → identity_of codec parse_payload batch_text record_text g ≡ ok (some identity)
      → IsIdentityOf g identity
        × (replayed_identity_of codec parse_payload batch_text record_text g ≡ ok (some identity))
  unfolding identity_of replayed_identity_of reuses_parent
  identity_of-IsIdentityOf (path, bytes, r) identity h =
      let (payload, parsed, h1) =
        ok_parts (map_err invalid_genesis_record (parse_payload r.payload)) _ h in
      let (u, entity, h2) = ok_parts (require (r.entity_id == payload.store_uuid) _) _ h1 in
      let (v, fork, h3) = ok_parts (require (not (reuses_parent payload)) _) _ h2 in
      (
        subst (IsIdentityOf (path, bytes, r)) (some_injective (ok_injective h3)) (
          payload,
          map_err-ok invalid_genesis_record (parse_payload r.payload) parsed,
          same_of_require r.entity_id payload.store_uuid
              (require_passed (r.entity_id == payload.store_uuid) _ entity),
          fork_lem payload.forked_from payload.store_uuid
              (require_passed (not (reuses_parent payload)) _ fork),
          refl,
          refl,
          refl,
          refl,
          refl,
        ),
        h,
      )

  only_member_is-one :
      (id : ℕ) (ms : List RecordRef)
      → only_member_is codec parse_payload batch_text record_text id ms ≡ true
      → (reference : RecordRef) × (ms ≡ reference ∷ []) × (reference.record_id ≡ id)
  only_member_is-one id [] h = cc
  only_member_is-one id (m ∷ []) h = (m, refl, same_of_require m.record_id id h)
  only_member_is-one id (m ∷ n ∷ ms) h = cc

  -- what is replayed of the first batch, of one member, and of the one genesis record
  abbrev pub replayed :
      ℕ → ℕ → BatchManifest → Decoded V → Outcome GenesisError (Option StoreIdentity)
  replayed manifests members m g =
      validate_replayed_identity codec parse_payload batch_text record_text manifests members
        (some (m.batch_id, 1, some g.2.record_id)) false 1 (some g)

  pub replayed_lem :
      (k n : ℕ) (m : BatchManifest) (g : Decoded V)
      → ((k == 0) && (n == 0)) ≡ false
      → g.2.batch_id ≡ m.batch_id
      → replayed k n m g ≡ replayed_identity_of codec parse_payload batch_text record_text g
  unfolding validate_replayed_identity
  replayed_lem k n m g h same =
      ap
        (λ b.
          if b
          then ok none
          else require ((g.2.batch_id == m.batch_id) && true && (g.2.record_id == g.2.record_id))
              genesis_not_first
            >> replayed_identity_of codec parse_payload batch_text record_text g)
        h
      ∙ require_passes genesis_not_first _ (ground (arith, eqb_same g.2.batch_id m.batch_id same))

  -- the record is the one member of the first manifest
  pub check_first-IsInitial :
      (manifests sorted : List BatchManifest) (g : Decoded V) (identity : StoreIdentity)
      → sort_by (cmp_manifests codec parse_payload batch_text record_text) manifests ≡ sorted
      → identity_of_genesis codec parse_payload batch_text record_text sorted (g ∷ [])
        ≡ ok (some identity)
      → (m : BatchManifest) × IsInitial manifests m g.2
        × (identity_of codec parse_payload batch_text record_text g ≡ ok (some identity))
  unfolding identity_of_genesis check_first
  check_first-IsInitial manifests [] g identity s h = cc
  check_first-IsInitial manifests (m ∷ ms) g identity s h =
      let (u, first, h1) =
        ok_parts (check_first codec parse_payload batch_text record_text (m ∷ ms) g.2) _ h in
      let (v, batch, h2) =
        ok_parts (require (g.2.batch_id == m.batch_id) genesis_not_first) _ first in
      (
        m,
        (
          sort_by-IsLeast (λ n. manifest_path codec n.batch_id) manifests ms m s,
          same_of_require g.2.batch_id m.batch_id
              (require_passed (g.2.batch_id == m.batch_id) _ batch),
          only_member_is-one g.2.record_id m.members (
              require_passed
                (only_member_is codec parse_payload batch_text record_text g.2.record_id m.members)
                _ h2),
        ),
        h1,
      )

  -- What a replay keeps of the store is that the record is the one member of the first batch, that no
  -- record of the identity domain is unsupported, and that there is one genesis record.
  abbrev pub KeepsGenesis : Option (BatchId × ℕ × Option RecordId) → Bool → ℕ → Record V → Type 0
  KeepsGenesis first_batch unsupported genesis_count r =
      (first_batch ≡ some (r.batch_id, 1, some r.record_id))
      × (unsupported ≡ false)
      × (genesis_count ≡ 1)

  is_record_lem :
      (b c id : ℕ) (rid : Option RecordId) (k : ℕ)
      → ((id == b) && (c == 1) && is_record codec parse_payload batch_text record_text k rid) ≡ true
      → ◌≡◌ {A = ℕ × ℕ × Option RecordId} (b, c, rid) (id, 1, some k)
  is_record_lem b c id none k h = ground (arith, h)
  is_record_lem b c id (some other) k h =
      same_first (ground (arith, h)) (ground (arith, h)) (ground (arith, h))

  -- Where the replay's validation accepts an identity of the genesis record that it has kept, then
  -- that record is the one member of the first batch, no record of the identity domain is unsupported,
  -- there is one genesis record, and the identity is that of its payload, with the fingerprint of its
  -- path and bytes, for the record's own entity, and a fork has another parent.
  pub validate_replayed_identity-IsIdentityOf :
      (manifests members : ℕ) (first_batch : Option (BatchId × ℕ × Option RecordId))
      (unsupported : Bool) (genesis_count : ℕ) (g : Decoded V) (identity : StoreIdentity)
      → validate_replayed_identity codec parse_payload batch_text record_text manifests members
          first_batch unsupported genesis_count
          (some g)
        ≡ ok (some identity)
      → KeepsGenesis first_batch unsupported genesis_count g.2 × IsIdentityOf g identity
  unfolding validate_replayed_identity identity_of replayed_identity_of reuses_parent
  validate_replayed_identity-IsIdentityOf manifests members first_batch unsupported genesis_count g
        identity h =
      go ((manifests == 0) && (members == 0)) first_batch h
    where
      go :
          (b : Bool) (first : Option (BatchId × ℕ × Option RecordId))
          → (if b
              then ok none
              else (require (not unsupported) (
                    invalid_genesis_record (ascii "unsupported record in reserved identity domain"))
                  >> (require (not (genesis_count == 0)) missing_genesis
                      >> (require (genesis_count == 1) duplicate_genesis
                          >> (found_or missing_genesis first >>= λ f.
                              require
                                ((g.2.batch_id == f.0)
                                  && (f.1 == 1)
                                  && is_record codec parse_payload batch_text record_text
                                      g.2.record_id f.2)
                                genesis_not_first
                              >> replayed_identity_of codec parse_payload batch_text record_text
                                  g)))))
            ≡ ok (some identity)
          → KeepsGenesis first unsupported genesis_count g.2 × IsIdentityOf g identity
      go true first e = absurd (none-some (ok_injective e))
      go false none e =
          let (u, supported, h1) = ok_parts (require (not unsupported) _) _ e in
          let (v, some_genesis, h2) =
            ok_parts (require (not (genesis_count == 0)) missing_genesis) _ h1 in
          let (w, one, h3) = ok_parts (require (genesis_count == 1) duplicate_genesis) _ h2 in
          absurd (no_error h3)
      go false (some (b, c, rid)) e =
          let (u, supported, h1) = ok_parts (require (not unsupported) _) _ e in
          let (v, some_genesis, h2) =
            ok_parts (require (not (genesis_count == 0)) missing_genesis) _ h1 in
          let (w, one, h3) = ok_parts (require (genesis_count == 1) duplicate_genesis) _ h2 in
          let (x, placed, h4) =
            ok_parts
              (require
                ((g.2.batch_id == b)
                  && (c == 1)
                  && is_record codec parse_payload batch_text record_text g.2.record_id rid)
                genesis_not_first)
              _ h3 in
          (
            (
              ap some
                  (is_record_lem b c g.2.batch_id rid g.2.record_id (require_passed _ _ placed)),
              ground (arith, require_passed (not unsupported) _ supported),
              ground (arith, require_passed (genesis_count == 1) duplicate_genesis one),
            ),
            (identity_of-IsIdentityOf g identity h4).0,
          )
