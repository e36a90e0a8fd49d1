-- ===== src/Identity/Genesis.antt =====
-- crates/wayjournal-core/src/identity.rs: what an accepted identity rests on, and that replay derives the
-- same one.
use wayjournal_build_attesta.Prelude.{
  ◌≤◌, ◌≡◌, refl, ap, sym, ◌∙◌, subst, Bool, true, false, not, ◌&&◌, none, some, List, [], ◌∷◌,
  arith, nat_ord, list_ord, eqb, ◌==◌, length, All, inl, inr, Outcome, ok, ◌>>=◌, ◌>>◌, require,
  ok_parts, ok_injective, require_passed, if◌then◌else◌,
}
use wayjournal_build_attesta.Ids.{Text, ascii}
use wayjournal_build_attesta.Collections.Map
use wayjournal_build_attesta.Collections.Set
use wayjournal_build_attesta.Collections.Sort.{sort_by}
use wayjournal_build_attesta.Capability.Checks.{same_of_require}
use wayjournal_build_attesta.Batch.{
  Record, BatchManifest, StoredMember, BatchError, Codec, canonical_path,
}
use wayjournal_build_attesta.Batch.Ownership.{owner_count}
use wayjournal_build_attesta.Identity.{
  GenesisPayload, StoreIdentity, Decoded, by_path_of, check_manifests, manifest_paths,
  any_unsupported, genesis_records, cmp_manifests, identity_of_genesis, checked_members,
  validate_store_identity, invalid_genesis_record, duplicate_member, incomplete_members,
}
use wayjournal_build_attesta.Identity.Batches.{IsValidBatch, All-sort_by, check_manifests-All}
use wayjournal_build_attesta.Identity.First.{Among}
use wayjournal_build_attesta.Identity.Members.{
  InIdentityDomain, HasIdentitySchema, IsGenesis, AreRead, decode_members-AreRead, Among-AreRead,
  AreRead-All, any_unsupported-none, genesis_records_sound, genesis_records_complete,
}
use wayjournal_build_attesta.Identity.Owned.{by_path_of-All, contains-manifest_paths}
use wayjournal_build_attesta.Identity.Derived.{
  none-some, IsInitial, IsIdentityOf, identity_of-IsIdentityOf, replayed, replayed_lem,
  check_first-IsInitial,
}

no_both : {a : Bool} → a ≡ true → a ≡ false → ⊥
no_both h k = ground (arith, h, k)

contains_none : (p : Text) → Set.contains p [] ≡ true → ⊥
unfolding Set.contains
contains_none p h = absurd (no_both h refl)

Among-one : {A : Type 0} {d g : A} → Among d (g ∷ []) → d ≡ g
Among-one (inl same) = same
Among-one (inr other) = absurd other

All-map :
    {A : Type 0} (P Q : A → Type 0) → ((a : A) → P a → Q a) → (xs : List A) → All P xs → All Q xs
All-map P Q f [] h = tt
All-map P Q f (x ∷ xs) h = (f x h.0, All-map P Q f xs h.1)

module _ {V E : Type 0} (codec : Codec V E) (parse_payload : V → Outcome Text GenesisPayload)
    (batch_text : BatchError E → Text) (record_text : E → Text) where
  -- Each member belongs to a manifest, is read as a record at its path, and if it is of the identity domain
  -- it has the identity schema; the genesis record is that of one member, and no other member is one.
  abbrev pub HasOneGenesis : List BatchManifest → List StoredMember → Decoded V → Type 0
  HasOneGenesis manifests members (path, bytes, r) =
      Among (record { path = path; bytes = bytes }) members
      × (codec.decode_record bytes ≡ ok r)
      × (canonical_path codec r ≡ path)
      × IsGenesis r
      × All
          (λ s.
            (q : Record V)
            → codec.decode_record s.bytes ≡ ok q
            → IsGenesis q
            → ◌≡◌ {A = Decoded V} (s.path, s.bytes, q) (path, bytes, r))
          members
      × All
          (λ s.
            (q : Record V)
            → codec.decode_record s.bytes ≡ ok q
            → InIdentityDomain q
            → HasIdentitySchema q)
          members
      × All (λ s. 1 ≤ owner_count s.path manifests) members

  -- the genesis record is that of a member, and the only one
  genesis-HasOneGenesis :
      (manifests : List BatchManifest) (members : List StoredMember) (ds : List (Decoded V))
      (g : Decoded V)
      → AreRead codec parse_payload batch_text record_text members ds
      → any_unsupported codec parse_payload batch_text record_text ds ≡ false
      → All (λ s. 1 ≤ owner_count s.path manifests) members
      → genesis_records codec parse_payload batch_text record_text ds ≡ g ∷ []
      → HasOneGenesis manifests members g
  genesis-HasOneGenesis manifests members ds g read supported owned only =
      let found =
        genesis_records_sound codec parse_payload batch_text record_text ds g
          (subst (Among g) (sym only) (inl refl)) in
      let (among, decoded, placed) =
        Among-AreRead codec parse_payload batch_text record_text members ds g.0 g.1 g.2 read
          found.0 in
      (
        among,
        decoded,
        placed,
        found.1,
        AreRead-All codec parse_payload batch_text record_text members ds
            (λ d. IsGenesis d.2 → d ≡ g) read
            (λ d m is. Among-one (
              subst (Among d) only
                (genesis_records_complete codec parse_payload batch_text record_text ds d m is))),
        AreRead-All codec parse_payload batch_text record_text members ds
            (λ d. InIdentityDomain d.2 → HasIdentitySchema d.2) read
            (λ d m is.
              any_unsupported-none codec parse_payload batch_text record_text ds d supported m is),
        owned,
      )

  members-AreOwned :
      (manifests : List BatchManifest) (members : List StoredMember)
      → manifest_paths codec parse_payload batch_text record_text [] manifests
        ≡ Map.keys (by_path_of codec parse_payload batch_text record_text [] members)
      → All (λ s. 1 ≤ owner_count s.path manifests) members
  members-AreOwned manifests members same =
      All-map
        (λ s.
          Set.contains s.path
            (Map.keys (by_path_of codec parse_payload batch_text record_text [] members))
          ≡ true)
        (λ s. 1 ≤ owner_count s.path manifests)
        (λ s known.
          elim (contains-manifest_paths codec parse_payload batch_text record_text s.path []
            manifests (ap (Set.contains s.path) same ∙ known)) [
              | inl before ↦ absurd (contains_none s.path before)
              | inr owned ↦ owned
            ])
        members (by_path_of-All codec parse_payload batch_text record_text [] members)

  -- what the checks of the members leave behind them
  checked_members-AreRead :
      (manifests : List BatchManifest) (members : List StoredMember) (ds : List (Decoded V))
      → checked_members codec parse_payload batch_text record_text manifests members ≡ ok ds
      → AreRead codec parse_payload batch_text record_text members ds
        × All (λ s. 1 ≤ owner_count s.path manifests) members
        × All (IsValidBatch codec parse_payload batch_text record_text members) manifests
  unfolding checked_members
  checked_members-AreRead manifests members ds h =
      let by_path = by_path_of codec parse_payload batch_text record_text [] members in
      let (u, distinct, h1) =
        ok_parts (require (length by_path == length members) duplicate_member) _ h in
      let (v, checked, h2) =
        ok_parts
          (check_manifests codec parse_payload batch_text record_text by_path []
            (sort_by (cmp_manifests codec parse_payload batch_text record_text) manifests))
          _ h1 in
      let (w, covered, h3) =
        ok_parts
          (require
            (eqb (manifest_paths codec parse_payload batch_text record_text [] manifests)
              (Map.keys by_path))
            incomplete_members)
          _ h2 in
      (
        decode_members-AreRead codec parse_payload batch_text record_text members ds h3,
        members-AreOwned manifests members (
            same_of_require (manifest_paths codec parse_payload batch_text record_text [] manifests)
              (Map.keys by_path) (require_passed _ _ covered)),
        All-sort_by (cmp_manifests codec parse_payload batch_text record_text)
            (IsValidBatch codec parse_payload batch_text record_text members) manifests
            (check_manifests-All codec parse_payload batch_text record_text members []
              (sort_by (cmp_manifests codec parse_payload batch_text record_text) manifests)
              checked),
      )

  -- what an accepted identity rests on, and what is replayed codec parse_payload batch_text record_text of it
  abbrev pub Accepted : List BatchManifest → List StoredMember → StoreIdentity → Type 0
  Accepted manifests members identity =
      (g : Decoded V) × (m : BatchManifest) × All
        (IsValidBatch codec parse_payload batch_text record_text members) manifests
      × HasOneGenesis manifests members g
      × IsInitial codec parse_payload batch_text record_text manifests m g.2
      × IsIdentityOf codec parse_payload batch_text record_text g identity
      × (replayed codec parse_payload batch_text record_text (length manifests) (length members) m g
          ≡ ok (some identity))

  one_genesis-Accepted :
      (manifests : List BatchManifest) (members : List StoredMember) (ds gs : List (Decoded V))
      (identity : StoreIdentity)
      → ((length manifests == 0) && (length members == 0)) ≡ false
      → AreRead codec parse_payload batch_text record_text members ds
      → All (λ s. 1 ≤ owner_count s.path manifests) members
      → All (IsValidBatch codec parse_payload batch_text record_text members) manifests
      → any_unsupported codec parse_payload batch_text record_text ds ≡ false
      → genesis_records codec parse_payload batch_text record_text ds ≡ gs
      → identity_of_genesis codec parse_payload batch_text record_text
          (sort_by (cmp_manifests codec parse_payload batch_text record_text) manifests)
          gs
        ≡ ok (some identity)
      → Accepted manifests members identity
  unfolding identity_of_genesis
  one_genesis-Accepted manifests members ds [] identity some_store read owned valid supported found
        h =
      cc
  one_genesis-Accepted manifests members ds (g ∷ g' ∷ gs) identity some_store read owned valid
        supported found h =
      cc
  one_genesis-Accepted manifests members ds (g ∷ []) identity some_store read owned valid supported
        found h =
      let (m, first, given) =
        check_first-IsInitial codec parse_payload batch_text record_text manifests _ g identity refl
          h in
      let (is, again) =
        identity_of-IsIdentityOf codec parse_payload batch_text record_text g identity given in
      (
        g,
        m,
        valid,
        genesis-HasOneGenesis manifests members ds g read supported owned found,
        first,
        is,
        replayed_lem codec parse_payload batch_text record_text (length manifests) (length members)
              m g some_store first.1
            ∙ again,
      )

  -- Where the full validation accepts an identity: the members that each manifest names are
  -- members of the store and make up its batch; every member belongs to a manifest, and has the
  -- identity schema if it is of the identity domain; there is a member that is a genesis record, read at
  -- its own path, and no other member is one; it is the one member of the manifest whose path is the
  -- least; the identity is that of its payload, with the fingerprint of its path and bytes, for the
  -- record's own entity, and a fork has another parent; and the replay's validation derives the same
  -- identity from that record and that manifest.
  pub validate_store_identity-HasOneGenesis :
      (manifests : List BatchManifest) (members : List StoredMember) (identity : StoreIdentity)
      → validate_store_identity codec parse_payload batch_text record_text manifests members
        ≡ ok (some identity)
      → Accepted manifests members identity
  unfolding validate_store_identity
  validate_store_identity-HasOneGenesis manifests members identity h =
      go ((length manifests == 0) && (length members == 0)) refl h
    where
      go :
          (b : Bool)
          → ((length manifests == 0) && (length members == 0)) ≡ b
          → (if b
              then ok none
              else checked_members codec parse_payload batch_text record_text manifests members
                >>= λ decoded.
                    require
                      (not (any_unsupported codec parse_payload batch_text record_text decoded))
                      (invalid_genesis_record
                        (ascii "unsupported record in reserved identity domain"))
                    >> identity_of_genesis codec parse_payload batch_text record_text
                        (sort_by
                          (cmp_manifests codec parse_payload batch_text record_text)
                          manifests)
                        (genesis_records codec parse_payload batch_text record_text decoded))
            ≡ ok (some identity)
          → Accepted manifests members identity
      go true e accepted = absurd (none-some (ok_injective accepted))
      go false e accepted =
          let (ds, checked, h1) =
            ok_parts (checked_members codec parse_payload batch_text record_text manifests members)
              _ accepted in
          let (u, supported, h2) =
            ok_parts
              (require (not (any_unsupported codec parse_payload batch_text record_text ds))
                (invalid_genesis_record (ascii "unsupported record in reserved identity domain")))
              _ h1 in
          let (read, owned, valid) = checked_members-AreRead manifests members ds checked in
          one_genesis-Accepted manifests members ds
            (genesis_records codec parse_payload batch_text record_text ds) identity e read owned
            valid
            (ground (
              arith,
              require_passed (not (any_unsupported codec parse_payload batch_text record_text ds)) _
                  supported,
            ))
            refl h2
