-- ===== src/Batch/Ownership.antt =====
-- crates/wayjournal-core/src/batch.rs: every stored record belongs to one batch, once.
use wayjournal_build_attesta.Prelude.{
  ℕ, zero, suc, ◌+◌, ◌≡◌, refl, true, not, List, [], ◌∷◌, arith, Ord, nat_ord, list_ord, eqb,
  if◌then◌else◌, All, ok, err, require, map_err, ok_parts, ok_injective, Bool-cases, inl, inr,
}
use wayjournal_build_attesta.Ids.{Text}
use wayjournal_build_attesta.Collections.Map
use wayjournal_build_attesta.Collections.Map.{Map, get-insert}
use wayjournal_build_attesta.Batch.{
  RecordRef, BatchManifest, StoredMember, Codec, index_records, find_members, count_of,
  count_members, own_all, check_owners, validate_batch_members, validate_batch_ownership,
  duplicate_stored_path, invalid_stored_record, unowned_record, multiply_owned_record,
}

abbrev path_ord : Ord Text
path_ord = list_ord

-- How many members have the path.
abbrev pub member_count : Text → List RecordRef → ℕ
member_count path [] = 0
member_count path (m ∷ ms) = (if eqb m.path path then 1 else 0) + member_count path ms

-- How many members of all the manifests have the path.
abbrev pub owner_count : Text → List BatchManifest → ℕ
owner_count path [] = 0
owner_count path (m ∷ ms) = member_count path m.members + owner_count path ms

module _ {V E : Type 0} (codec : Codec V E) where
  count_of-insert :
      (path p : Text) (n : ℕ) (owners : Map Text ℕ)
      → count_of codec path (Map.insert p n owners)
        ≡ (if eqb p path then n else count_of codec path owners)
  count_of-insert path p n owners = ground (arith, get-insert p path n owners)

  count_of-count_members :
      (path : Text) (ms : List RecordRef) (owners : Map Text ℕ)
      → count_of codec path (count_members codec owners ms)
        ≡ count_of codec path owners + member_count path ms
  unfolding count_members
  count_of-count_members path [] owners = ground arith
  count_of-count_members path (m ∷ ms) owners = ground (
    arith,
    count_of-count_members path ms (Map.insert m.path (suc (count_of codec m.path owners)) owners),
    count_of-insert path m.path (suc (count_of codec m.path owners)) owners,
    path_ord.same_of_eq m.path path,
    path_ord.cmp_self path,
  )

  count_of-own_all :
      (path : Text) (by_path : Map Text Text) (ms : List BatchManifest) (owners result : Map Text ℕ)
      → own_all codec by_path owners ms ≡ ok result
      → count_of codec path result ≡ count_of codec path owners + owner_count path ms
  unfolding own_all
  count_of-own_all path by_path [] owners result h = ground (arith, ok_injective h)
  count_of-own_all path by_path (m ∷ ms) owners result h =
      let (members, found, h1) = ok_parts (find_members codec by_path m.members) _ h in
      let (decoded, valid, h2) = ok_parts (validate_batch_members codec m members) _ h1 in
      let rest =
        count_of-own_all path by_path ms (count_members codec owners m.members) result h2 in
      ground (arith, rest, count_of-count_members path m.members owners)

  check_owners-first :
      (q : Text) (owners : Map Text ℕ) (bytes : Text) (records : Map Text Text)
      → check_owners codec owners ((q, bytes) ∷ records) ≡ ok tt
      → (count_of codec q owners ≡ 1) × (check_owners codec owners records ≡ ok tt)
  unfolding check_owners
  check_owners-first q owners bytes records h = once (count_of codec q owners) h
    where
      once :
          (n : ℕ)
          → (elim n [
            | zero ↦ err (unowned_record q)
            | suc n ↦ elim n [
              | zero ↦ check_owners codec owners records
              | suc m ↦ err (multiply_owned_record q)
            ]
          ])
            ≡ ok tt
          → (n ≡ 1) × (check_owners codec owners records ≡ ok tt)
      once zero h = cc
      once (suc zero) h = (refl, h)
      once (suc (suc n)) h = cc

  check_owners-one :
      (path : Text) (owners : Map Text ℕ) (records : Map Text Text)
      → check_owners codec owners records ≡ ok tt
      → Map.contains_key path records ≡ true
      → count_of codec path owners ≡ 1
  unfolding check_owners Map.contains_key Map.get
  check_owners-one path owners [] h c = cc
  check_owners-one path owners ((q, bytes) ∷ records) h c =
      let now = check_owners-first q owners bytes records h in
      elim (Bool-cases (eqb q path)) [
        | inl same ↦ ground (arith, same, path_ord.same_of_eq q path, now.0)
        | inr other ↦ check_owners-one path owners records now.1 (ground (arith, other, c))
      ]

  contains_key-index_records :
      (path : Text) (by_path result : Map Text Text) (records : List StoredMember)
      → index_records codec by_path records ≡ ok result
      → Map.contains_key path by_path ≡ true
      → Map.contains_key path result ≡ true
  unfolding index_records
  contains_key-index_records path by_path result [] h c = ground (arith, ok_injective h, c)
  contains_key-index_records path by_path result (r ∷ records) h c =
      let (u, fresh, h1) =
        ok_parts (require (not (Map.contains_key r.path by_path)) (duplicate_stored_path r.path)) _
          h in
      let (decoded, valid, h2) =
        ok_parts (map_err (invalid_stored_record r.path) (codec.decode_record r.bytes)) _ h1 in
      contains_key-index_records path (Map.insert r.path r.bytes by_path) result records h2
        (unfold Map.contains_key in ground (arith, get-insert r.path path r.bytes by_path, c))

  index_records-AllFound :
      (by_path result : Map Text Text) (records : List StoredMember)
      → index_records codec by_path records ≡ ok result
      → All (λ r. Map.contains_key r.path result ≡ true) records
  unfolding index_records
  index_records-AllFound by_path result [] h = tt
  index_records-AllFound by_path result (r ∷ records) h =
      let (u, fresh, h1) =
        ok_parts (require (not (Map.contains_key r.path by_path)) (duplicate_stored_path r.path)) _
          h in
      let (decoded, valid, h2) =
        ok_parts (map_err (invalid_stored_record r.path) (codec.decode_record r.bytes)) _ h1 in
      (
        contains_key-index_records r.path (Map.insert r.path r.bytes by_path) result records h2 (
            unfold Map.contains_key in
            ground (arith, get-insert r.path r.path r.bytes by_path, path_ord.cmp_self r.path)),
        index_records-AllFound (Map.insert r.path r.bytes by_path) result records h2,
      )

  All-implied {ℓ} :
      {A : Type ℓ} {P Q : A → Type 0} (xs : List A) → ((x : A) → P x → Q x) → All P xs → All Q xs
  All-implied [] f a = tt
  All-implied (x ∷ xs) f a = (f x a.0, All-implied xs f a.1)

  -- Where the ownership of stored records by manifests is accepted, each record's path is the path
  -- of exactly one member of one manifest.
  pub validate_batch_ownership-one :
      (records : List StoredMember) (manifests : List BatchManifest)
      → validate_batch_ownership codec records manifests ≡ ok tt
      → All (λ r. owner_count r.path manifests ≡ 1) records
  unfolding validate_batch_ownership Map.get
  validate_batch_ownership-one records manifests h =
      let (by_path, indexed, h1) = ok_parts (index_records codec [] records) _ h in
      let (owners, owned, h2) = ok_parts (own_all codec by_path [] manifests) _ h1 in
      let (u, checked, h3) = ok_parts (check_owners codec owners by_path) _ h2 in
      All-implied records
        (λ r found.
          let one = check_owners-one r.path owners by_path checked found in
          let all = count_of-own_all r.path by_path manifests [] owners owned in
          ground (arith, one, all))
        (index_records-AllFound [] by_path records indexed)
