-- ===== src/Layout/Paths.antt =====
-- crates/wayjournal-core/src/layout.rs and record.rs: the path of a record is canonical.
use wayjournal_build_attesta.Prelude.{
  ℕ, ◌<◌, ◌≡◌, ◌≢◌, refl, true, false, not, none, some, List, [], ◌∷◌, ◌++◌, arith, if◌then◌else◌,
  mem, mem-append, All, subst, ap, ◌∙◌, ltb, length, length-append, Bool-cases, inl, inr,
}
use wayjournal_build_attesta.Ids.{Text, ascii}
use wayjournal_build_attesta.Texts.{
  slash, same_bytes, same_bytes_self, starts_with, split, join, joined_after, split-join,
  strip_suffix, first_part, later_parts, join-split,
}
use wayjournal_build_attesta.Layout.{
  UuidCrate, IsUuid, journal_record, invalid_reserved, non_canonical, reserved_prefix_bytes,
  is_utf8, utf8_from, utf8_tail, valid_segment, all_bytes, later_byte, all_segments,
  namespaced_token, is_domain_id, parse_uuid, is_id, is_id_file, record_versions, entity_versions,
  journal_record_parts, valid_journal_record, classify_path,
}
use wayjournal_build_attesta.Layout.Reserved.{utf8_class}

-- Every byte is ASCII.
abbrev pub IsAscii : Text → Type 0
IsAscii s = All (λ b. b < 128) s

IsAscii-append : (s t : Text) → IsAscii s → IsAscii t → IsAscii (s ++ t)
IsAscii-append [] t h k = k
IsAscii-append (b ∷ s) t h k = (h.0, IsAscii-append s t h.1 k)

utf8-IsAscii : (s : Text) → IsAscii s → is_utf8 s ≡ true
unfolding is_utf8 utf8_from utf8_tail
utf8-IsAscii [] h = refl
utf8-IsAscii (b ∷ s) h = ground (arith, utf8-IsAscii s, h)

same_bytes-length : (s t : Text) → same_bytes s t ≡ true → length s ≡ length t
unfolding same_bytes
same_bytes-length [] [] h = refl
same_bytes-length [] (c ∷ t) h = cc
same_bytes-length (b ∷ s) [] h = cc
same_bytes-length (b ∷ s) (c ∷ t) h = ground (arith, same_bytes-length s t)

-- A suffix that was put on is taken off.
strip_suffix-append : (s suffix : Text) → strip_suffix suffix (s ++ suffix) ≡ some s
unfolding strip_suffix
strip_suffix-append [] [] = refl
strip_suffix-append [] (c ∷ suffix) = ground (arith, same_bytes_self (c ∷ suffix))
strip_suffix-append (b ∷ s) suffix = elim (Bool-cases (same_bytes (b ∷ (s ++ suffix)) suffix)) [
  | inl same ↦
      absurd
        (omega (arith, same_bytes-length (b ∷ (s ++ suffix)) suffix same, length-append s suffix))
  | inr other ↦ ground (arith, other, strip_suffix-append s suffix)
]

-- ASCII with no slash.
abbrev pub IsPlain : Text → Type 0
IsPlain s = (mem slash s ≡ false) × IsAscii s

pub IsPlain-append : (s t : Text) → IsPlain s → IsPlain t → IsPlain (s ++ t)
IsPlain-append s t h k = (ground (arith, mem-append slash s t), IsAscii-append s t h.1 k.1)

all_bytes-IsPlain : (s : Text) → all_bytes later_byte s ≡ true → IsPlain s
unfolding all_bytes later_byte
all_bytes-IsPlain [] h = (refl, tt)
all_bytes-IsPlain (b ∷ s) h =
    let rest = all_bytes-IsPlain s (ground (arith, h)) in
    (ground (arith, h, rest), (ground (arith, h), rest.1))

valid_segment-IsPlain : (p : Text) (max : ℕ) → valid_segment p max ≡ true → IsPlain p
unfolding valid_segment later_byte
valid_segment-IsPlain [] max h = cc
valid_segment-IsPlain (b ∷ s) max h =
    let rest = all_bytes-IsPlain s (ground (arith, h)) in
    (ground (arith, h, rest), (ground (arith, h), rest.1))

joined_after-IsPlain :
    (c : ℕ) (ps : List Text)
    → c < 128
    → c ≢ slash
    → all_segments ps ≡ true
    → IsPlain (joined_after c ps)
unfolding joined_after all_segments
joined_after-IsPlain c [] h k a = (refl, tt)
joined_after-IsPlain c (p ∷ ps) h k a =
    let here = valid_segment-IsPlain p 63 (ground (arith, a)) in
    let rest = joined_after-IsPlain c ps h k (ground (arith, a)) in
    let both = IsPlain-append p (joined_after c ps) here rest in
    (ground (arith, both.0, k), (h, both.1))

is_domain_id-IsPlain : (domain : Text) → is_domain_id domain ≡ true → IsPlain domain
unfolding is_domain_id namespaced_token split all_segments join
is_domain_id-IsPlain domain h =
    let first = valid_segment-IsPlain (first_part 46 domain) 63 (ground (arith, h)) in
    let rest =
      joined_after-IsPlain 46 (later_parts 46 domain) (omega arith) (λ e. omega arith)
        (ground (arith, h)) in
    subst IsPlain (join-split 46 domain)
      (IsPlain-append (first_part 46 domain) (joined_after 46 (later_parts 46 domain)) first rest)

IsAscii-all_bytes : (s : Text) → all_bytes (λ b. ltb b 128) s ≡ true → IsAscii s
unfolding all_bytes
IsAscii-all_bytes [] h = tt
IsAscii-all_bytes (b ∷ s) h = (ground (arith, h), IsAscii-all_bytes s (ground (arith, h)))

joined_after-IsAscii : (ps : List Text) → All IsAscii ps → IsAscii (joined_after slash ps)
unfolding joined_after
joined_after-IsAscii [] h = tt
joined_after-IsAscii (p ∷ ps) h =
    (omega arith, IsAscii-append p (joined_after slash ps) h.0 (joined_after-IsAscii ps h.1))

join-IsAscii : (p : Text) (ps : List Text) → IsAscii p → All IsAscii ps → IsAscii (join slash p ps)
unfolding join
join-IsAscii p ps h k = IsAscii-append p (joined_after slash ps) h (joined_after-IsAscii ps k)

-- `Record::canonical_path`
unfoldable pub record_path : UuidCrate → Text → ℕ → ℕ → Text
unfolding joined_after
record_path uuid domain entity_id record_id = join slash (ascii "journal") (
    ascii "records"
    ∷ domain
    ∷ uuid.hyphenated entity_id
    ∷ (uuid.hyphenated record_id ++ ascii ".json")
    ∷ [])

module _ (uuid : UuidCrate)
    (hyphenated-IsPlain : (id : ℕ) → IsUuid id → IsPlain (uuid.hyphenated id))
    (parse-hyphenated : (id : ℕ) → IsUuid id → uuid.parse_str (uuid.hyphenated id) ≡ some id) where
  -- an identifier that the code accepts
  abbrev pub IsId : List ℕ → ℕ → Type 0
  IsId versions id =
      IsUuid id
      × (uuid.is_nil id ≡ false)
      × (uuid.is_rfc4122 id ≡ true)
      × (mem (uuid.version id) versions ≡ true)

  -- What is printed of an identifier is parsed as it.
  parse_uuid-hyphenated :
      (id : ℕ) (versions : List ℕ)
      → IsId versions id
      → parse_uuid uuid (uuid.hyphenated id) versions ≡ some id
  unfolding parse_uuid
  parse_uuid-hyphenated id versions h =
      ground (arith, h.1, h.2, h.3, parse-hyphenated id h.0, same_bytes_self (uuid.hyphenated id))

  is_id-hyphenated :
      (id : ℕ) (versions : List ℕ)
      → IsId versions id
      → is_id uuid versions (uuid.hyphenated id) ≡ true
  unfolding is_id
  is_id-hyphenated id versions h =
      ap (λ o. elim o [ none ↦ false | some u ↦ true ]) (parse_uuid-hyphenated id versions h)

  is_id_file-hyphenated :
      (id : ℕ)
      → IsId (record_versions uuid) id
      → is_id_file uuid (uuid.hyphenated id ++ ascii ".json") ≡ true
  unfolding is_id_file
  is_id_file-hyphenated id h =
      ap (λ o. elim o [ none ↦ false | some u ↦ is_id uuid (record_versions uuid) u ])
        (strip_suffix-append (uuid.hyphenated id) (ascii ".json"))
      ∙ is_id-hyphenated id (record_versions uuid) h

  record_path-IsAscii :
      (domain : Text) (entity_id record_id : ℕ)
      → is_domain_id domain ≡ true
      → IsUuid entity_id
      → IsUuid record_id
      → IsAscii (record_path uuid domain entity_id record_id)
  unfolding record_path all_bytes
  record_path-IsAscii domain e r d ue ur =
      join-IsAscii (ascii "journal")
        (ascii "records" ∷ domain ∷ uuid.hyphenated e ∷ (uuid.hyphenated r ++ ascii ".json") ∷ [])
        (IsAscii-all_bytes (ascii "journal") refl)
        (
          IsAscii-all_bytes (ascii "records") refl,
          (
            (is_domain_id-IsPlain domain d).1,
            (
              (hyphenated-IsPlain e ue).1,
              (
                IsAscii-append (uuid.hyphenated r) (ascii ".json") (hyphenated-IsPlain r ur).1
                    (IsAscii-all_bytes (ascii ".json") refl),
                tt,
              ),
            ),
          ),
        )

  record_path-valid :
      (domain : Text) (e r : ℕ)
      → is_domain_id domain ≡ true
      → IsId (entity_versions uuid) e
      → IsId (record_versions uuid) r
      → valid_journal_record uuid (record_path uuid domain e r) ≡ true
  unfolding valid_journal_record record_path journal_record_parts same_bytes
  record_path-valid domain e r d he hr =
      let file = is_id_file-hyphenated r hr in
      let no_slash : mem slash (uuid.hyphenated r ++ ascii ".json") ≡ false = ground (
        arith,
        mem-append slash (uuid.hyphenated r) (ascii ".json"),
        (hyphenated-IsPlain r hr.0).0,
      ) in
      ap (journal_record_parts uuid) (
        split-join slash (ascii "journal")
          (ascii "records" ∷ domain ∷ uuid.hyphenated e ∷ (uuid.hyphenated r ++ ascii ".json") ∷ [])
          refl
          (
            refl,
            ((is_domain_id-IsPlain domain d).0, ((hyphenated-IsPlain e he.0).0, (no_slash, tt))),
          ))
      ∙ ground (arith, d, is_id-hyphenated e (entity_versions uuid) he, file)

  utf8_class-record_path :
      (domain : Text) (e r : ℕ)
      → valid_journal_record uuid (record_path uuid domain e r) ≡ true
      → utf8_class uuid (record_path uuid domain e r) ≡ journal_record
  unfolding starts_with same_bytes record_path join
  utf8_class-record_path domain e r h = ap (λ b. if b then journal_record else invalid_reserved) h

  -- Where the crate prints each 128-bit UUID in ASCII without a slash and parses what it has printed,
  -- the path of a record with a valid domain and accepted entity and record ids is classified as a
  -- record of the journal.
  pub classify_path-record_path :
      (domain : Text) (entity_id record_id : ℕ)
      → is_domain_id domain ≡ true
      → IsId (entity_versions uuid) entity_id
      → IsId (record_versions uuid) record_id
      → classify_path uuid (record_path uuid domain entity_id record_id) ≡ journal_record
  unfolding classify_path
  classify_path-record_path domain e r d he hr =
      let path = record_path uuid domain e r in
      ap
        (λ b.
          if not b
          then (if reserved_prefix_bytes uuid path then invalid_reserved else non_canonical)
          else utf8_class uuid path)
        (utf8-IsAscii path (record_path-IsAscii domain e r d he.0 hr.0))
      ∙ utf8_class-record_path domain e r (record_path-valid domain e r d he hr)
