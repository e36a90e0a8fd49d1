-- ===== src/Identity/Members.antt =====
-- crates/wayjournal-core/src/identity.rs: what is known of the members that were decoded.
use wayjournal_build_attesta.Prelude.{
  ◌≡◌, refl, sym, ◌∙◌, subst, Bool, true, false, not, ◌||◌, ◌&&◌, List, [], ◌∷◌, arith, nat_ord,
  list_ord, eqb, All, inl, inr, Outcome, ok, require, map_err, ok_parts, ok_injective,
  require_passed, map_err-ok, if◌then◌else◌,
}
use wayjournal_build_attesta.Ids.{Text, ascii}
use wayjournal_build_attesta.Capability.Checks.{same_of_require, eqb_same}
use wayjournal_build_attesta.Batch.{Record, StoredMember, BatchError, Codec, canonical_path}
use wayjournal_build_attesta.Identity.{
  GenesisPayload, Decoded, decode_members, any_unsupported, genesis_records, invalid_genesis_record,
}
use wayjournal_build_attesta.Identity.First.{Among}

-- A record of the identity domain, and the genesis record of the first schema.
abbrev pub InIdentityDomain : {V : Type 0} → Record V → Type 0
InIdentityDomain r = r.domain ≡ ascii "wayjournal.identity"

abbrev pub HasIdentitySchema : {V : Type 0} → Record V → Type 0
HasIdentitySchema r = r.record_schema ≡ ascii "wayjournal.identity/v1"

abbrev pub IsGenesis : {V : Type 0} → Record V → Type 0
IsGenesis r = InIdentityDomain r × HasIdentitySchema r × (r.kind ≡ ascii "store.genesis")

same_member :
    {s : StoredMember} {path bytes : Text}
    → s.path ≡ path
    → s.bytes ≡ bytes
    → ◌≡◌ {A = StoredMember} (record { path = path; bytes = bytes }) s
same_member h k = cc

same_triple :
    {V : Type 0} {d : Decoded V} {path bytes : Text} {r : Record V}
    → path ≡ d.0
    → bytes ≡ d.1
    → d.2 ≡ r
    → d ≡ (path, bytes, r)
same_triple h k l = cc

no_both : {a : Bool} → a ≡ true → a ≡ false → ⊥
no_both h k = ground (arith, h, k)

all_three : {a b c : Bool} → (a && b && c) ≡ true → (a ≡ true) × (b ≡ true) × (c ≡ true)
all_three h = (ground (arith, h), ground (arith, h), ground (arith, h))

and_three : {a b c : Bool} → a ≡ true → b ≡ true → c ≡ true → (a && b && c) ≡ true
and_three h k l = ground (arith, h, k, l)

supported_lem : {a b : Bool} (c : Bool) → ((a && not b) || c) ≡ false → a ≡ true → b ≡ true
supported_lem c h k = ground (arith, h, k)

later_supported : (a : Bool) {c : Bool} → (a || c) ≡ false → c ≡ false
later_supported a h = ground (arith, h)

module _ {V E : Type 0} (codec : Codec V E) (parse_payload : V → Outcome Text GenesisPayload)
    (batch_text : BatchError E → Text) (record_text : E → Text) where
  -- Each member is read as the record beside it, and lies at the record's path.
  abbrev pub AreRead : List StoredMember → List (Decoded V) → Type 0
  AreRead [] [] = Unit
  AreRead [] (d ∷ ds) = ⊥
  AreRead (s ∷ ss) [] = ⊥
  AreRead (s ∷ ss) ((path, bytes, r) ∷ ds) =
      ((s.path ≡ path)
        × (s.bytes ≡ bytes)
        × (codec.decode_record s.bytes ≡ ok r)
        × (canonical_path codec r ≡ s.path))
      × AreRead ss ds

  pub decode_members-AreRead :
      (ss : List StoredMember) (ds : List (Decoded V))
      → decode_members codec parse_payload batch_text record_text ss ≡ ok ds
      → AreRead ss ds
  unfolding decode_members
  decode_members-AreRead [] ds h = subst (AreRead []) (ok_injective h) tt
  decode_members-AreRead (s ∷ ss) ds h =
      let (r, read, h1) =
        ok_parts
          (map_err (λ e. invalid_genesis_record (record_text e)) (codec.decode_record s.bytes)) _
          h in
      let (u, placed, h2) = ok_parts (require (eqb (canonical_path codec r) s.path) _) _ h1 in
      let (rest, others, h3) =
        ok_parts (decode_members codec parse_payload batch_text record_text ss) _ h2 in
      subst (AreRead (s ∷ ss)) (ok_injective h3) (
        (
          refl,
          refl,
          map_err-ok (λ e. invalid_genesis_record (record_text e)) (codec.decode_record s.bytes)
              read,
          same_of_require (canonical_path codec r) s.path
              (require_passed (eqb (canonical_path codec r) s.path) _ placed),
        ),
        decode_members-AreRead ss rest others,
      )

  -- What was read comes from a member.
  pub Among-AreRead :
      (ss : List StoredMember) (ds : List (Decoded V)) (path bytes : Text) (r : Record V)
      → AreRead ss ds
      → Among (path, bytes, r) ds
      → Among (record { path = path; bytes = bytes }) ss
        × (codec.decode_record bytes ≡ ok r)
        × (canonical_path codec r ≡ path)
  Among-AreRead [] [] path bytes r a m = absurd m
  Among-AreRead [] (d ∷ ds) path bytes r a m = absurd a
  Among-AreRead (s ∷ ss) [] path bytes r a m = absurd m
  Among-AreRead (s ∷ ss) (d ∷ ds) path bytes r a (inl same) =
      let (p_same, b_same, read, placed) = a.0 in
      subst
        (λ x.
          Among (record { path = x.0; bytes = x.1 }) (s ∷ ss)
          × (codec.decode_record x.1 ≡ ok x.2)
          × (canonical_path codec x.2 ≡ x.0))
        (sym same)
        (
          inl (same_member p_same b_same),
          subst (λ b. codec.decode_record b ≡ ok d.2) b_same read,
          placed ∙ p_same,
        )
  Among-AreRead (s ∷ ss) (d ∷ ds) path bytes r a (inr later) =
      let (among, read, placed) = Among-AreRead ss ds path bytes r a.1 later in
      (inr among, read, placed)

  -- Every member was read, as what it decodes to.
  pub AreRead-All :
      (ss : List StoredMember) (ds : List (Decoded V)) (P : Decoded V → Type 0)
      → AreRead ss ds
      → ((d : Decoded V) → Among d ds → P d)
      → All (λ s. (q : Record V) → codec.decode_record s.bytes ≡ ok q → P (s.path, s.bytes, q)) ss
  AreRead-All [] ds P a f = tt
  AreRead-All (s ∷ ss) [] P a f = absurd a
  AreRead-All (s ∷ ss) (d ∷ ds) P a f = (
    λ q read.
        let (p_same, b_same, known, placed) = a.0 in
        subst P (same_triple p_same b_same (ok_injective (sym known ∙ read))) (f d (inl refl)),
    AreRead-All ss ds P a.1 (λ e m. f e (inr m)),
  )

  pub any_unsupported-none :
      (ds : List (Decoded V)) (d : Decoded V)
      → any_unsupported codec parse_payload batch_text record_text ds ≡ false
      → Among d ds
      → InIdentityDomain d.2
      → HasIdentitySchema d.2
  unfolding any_unsupported
  any_unsupported-none [] d h m i = absurd m
  any_unsupported-none (e ∷ ds) d h (inl same) i =
      subst (λ x. HasIdentitySchema x.2) (sym same)
        (same_of_require e.2.record_schema (ascii "wayjournal.identity/v1") (
          supported_lem (any_unsupported codec parse_payload batch_text record_text ds) h (
            eqb_same e.2.domain (ascii "wayjournal.identity")
              (subst (λ x. InIdentityDomain x.2) same i))))
  any_unsupported-none (e ∷ ds) d h (inr later) i =
      any_unsupported-none ds d
        (later_supported
          (eqb e.2.domain (ascii "wayjournal.identity")
            && not (eqb e.2.record_schema (ascii "wayjournal.identity/v1")))
          h)
        later i

  abbrev test : Record V → Bool
  test r =
      eqb r.domain (ascii "wayjournal.identity")
      && eqb r.record_schema (ascii "wayjournal.identity/v1")
      && eqb r.kind (ascii "store.genesis")

  IsGenesis-test : (r : Record V) → test r ≡ true → IsGenesis r
  IsGenesis-test r h =
      let (a, b, c) = all_three h in
      (
        same_of_require r.domain (ascii "wayjournal.identity") a,
        same_of_require r.record_schema (ascii "wayjournal.identity/v1") b,
        same_of_require r.kind (ascii "store.genesis") c,
      )

  test-IsGenesis : (r : Record V) → IsGenesis r → test r ≡ true
  test-IsGenesis r (a, b, c) =
      and_three (eqb_same r.domain (ascii "wayjournal.identity") a)
        (eqb_same r.record_schema (ascii "wayjournal.identity/v1") b)
        (eqb_same r.kind (ascii "store.genesis") c)

  -- Among the genesis records are exactly those that were read and are genesis records.
  pub genesis_records_sound :
      (ds : List (Decoded V)) (d : Decoded V)
      → Among d (genesis_records codec parse_payload batch_text record_text ds)
      → Among d ds × IsGenesis d.2
  unfolding genesis_records
  genesis_records_sound [] d m = absurd m
  genesis_records_sound (e ∷ ds) d m = go (test e.2) refl m (genesis_records_sound ds d)
    where
      go :
          (b : Bool)
          → test e.2 ≡ b
          → Among d (
              if b
              then e ∷ genesis_records codec parse_payload batch_text record_text ds
              else genesis_records codec parse_payload batch_text record_text ds)
          → (Among d (genesis_records codec parse_payload batch_text record_text ds)
              → Among d ds × IsGenesis d.2)
          → Among d (e ∷ ds) × IsGenesis d.2
      go true t (inl same) rest =
          (inl same, subst (λ x. IsGenesis x.2) (sym same) (IsGenesis-test e.2 t))
      go true t (inr later) rest = (inr (rest later).0, (rest later).1)
      go false t later rest = (inr (rest later).0, (rest later).1)

  pub genesis_records_complete :
      (ds : List (Decoded V)) (d : Decoded V)
      → Among d ds
      → IsGenesis d.2
      → Among d (genesis_records codec parse_payload batch_text record_text ds)
  unfolding genesis_records
  genesis_records_complete [] d m g = absurd m
  genesis_records_complete (e ∷ ds) d m g =
      go (test e.2) refl m (λ later. genesis_records_complete ds d later g)
    where
      go :
          (b : Bool)
          → test e.2 ≡ b
          → Among d (e ∷ ds)
          → (Among d ds → Among d (genesis_records codec parse_payload batch_text record_text ds))
          → Among d (
              if b
              then e ∷ genesis_records codec parse_payload batch_text record_text ds
              else genesis_records codec parse_payload batch_text record_text ds)
      go true t (inl same) rest = inl same
      go true t (inr later) rest = inr (rest later)
      go false t (inl same) rest =
          let passed = test-IsGenesis e.2 (subst (λ x. IsGenesis x.2) same g) in
          absurd (no_both passed t)
      go false t (inr later) rest = rest later
