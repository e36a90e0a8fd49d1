-- ===== src/Layout.antt =====
-- crates/wayjournal-core/src/layout.rs, and the parsers of ids.rs: which paths of a store are
-- canonical. The `uuid` crate is a parameter.
pub mod Reserved
pub mod Paths
use wayjournal_build_attesta.Prelude.{
  ◌<◌, ◌^◌, ℕ, ◌≡◌, Bool, true, false, not, ◌&&◌, ◌||◌, Option, none, some, List, [], ◌∷◌, ◌++◌,
  arith, mem, ltb, leb, ◌==◌, length, if◌then◌else◌, Outcome, ok, err,
}
use wayjournal_build_attesta.Ids.{Text, ascii}
use wayjournal_build_attesta.Texts.{slash, same_bytes, starts_with, split, strip_suffix}

-- `enum PathClass`
pub data PathClass : Type 0 where
  legacy_event legacy_batch journal_record journal_batch non_canonical invalid_reserved : PathClass

-- What the code uses of the `uuid` crate. A UUID is the number that its sixteen bytes spell, so that
-- only the numbers of `IsUuid` are met; what is assumed of the crate is assumed of these alone.
pub record UuidCrate : Type 0 where
  pub parse_str : Text → Option ℕ
  pub hyphenated : ℕ → Text
  pub is_nil : ℕ → Bool
  pub is_rfc4122 : ℕ → Bool
  pub version : ℕ → ℕ

-- 128 bits
unfoldable pub IsUuid : ℕ → Type 0
IsUuid id = id < 2 ^ 128

-- the bytes that may follow in a UTF-8 text, by the byte that starts a character
unfoldable pub utf8_tail : ℕ → Option (List (ℕ × ℕ))
utf8_tail b =
    if ltb b 128
    then some []
    else if ltb b 194
    then none
    else if ltb b 224
    then some ((128, 191) ∷ [])
    else if b == 224
    then some ((160, 191) ∷ (128, 191) ∷ [])
    else if b == 237
    then some ((128, 159) ∷ (128, 191) ∷ [])
    else if ltb b 240
    then some ((128, 191) ∷ (128, 191) ∷ [])
    else if b == 240
    then some ((144, 191) ∷ (128, 191) ∷ (128, 191) ∷ [])
    else if ltb b 244
    then some ((128, 191) ∷ (128, 191) ∷ (128, 191) ∷ [])
    else if b == 244
    then some ((128, 143) ∷ (128, 191) ∷ (128, 191) ∷ [])
    else none

unfoldable pub utf8_from : List (ℕ × ℕ) → Text → Bool
unfolding utf8_tail
utf8_from [] [] = true
utf8_from (range ∷ ranges) [] = false
utf8_from [] (b ∷ s) = elim (utf8_tail b) [ none ↦ false | some ranges ↦ utf8_from ranges s ]
utf8_from ((low, high) ∷ ranges) (b ∷ s) = leb low b && leb b high && utf8_from ranges s

-- `std::str::from_utf8(..).is_ok()`
unfoldable pub is_utf8 : Text → Bool
unfolding utf8_from
is_utf8 = utf8_from []

abbrev pub lower : ℕ → Bool
lower b = leb 97 b && leb b 122

abbrev pub digit : ℕ → Bool
digit b = leb 48 b && leb b 57

-- `b'0'..=b'9' | b'_' | b'-'`, which may not come first
unfoldable pub later_byte : ℕ → Bool
later_byte b = lower b || digit b || b == 95 || b == 45

unfoldable pub all_bytes : (ℕ → Bool) → Text → Bool
all_bytes test [] = true
all_bytes test (b ∷ s) = test b && all_bytes test s

unfoldable pub valid_segment : Text → ℕ → Bool
unfolding later_byte all_bytes
valid_segment [] max = false
valid_segment (b ∷ s) max = not (ltb max (length (b ∷ s))) && lower b && all_bytes later_byte s

unfoldable pub all_segments : List Text → Bool
unfolding valid_segment
all_segments [] = true
all_segments (p ∷ ps) = valid_segment p 63 && all_segments ps

-- `parse_namespaced_token(..).is_ok()`
unfoldable pub namespaced_token : Text → ℕ → Bool
unfolding all_segments split
namespaced_token input separator =
    not (ltb 128 (length input))
    && leb 2 (length (split separator input))
    && all_segments (split separator input)

-- `parse::<DomainId>().is_ok()`, where the separator is a full stop
unfoldable pub is_domain_id : Text → Bool
is_domain_id input = namespaced_token input 46

module _ (uuid : UuidCrate) where
  -- `parse_uuid`; the value of an identifier is the UUID
  unfoldable pub parse_uuid : Text → List ℕ → Option ℕ
  unfolding same_bytes
  parse_uuid input accepted_versions = elim (uuid.parse_str input) [
    | none ↦ none
    | some id ↦
        if not (same_bytes input (uuid.hyphenated id))
          || uuid.is_nil id
          || not (uuid.is_rfc4122 id)
          || not (mem (uuid.version id) accepted_versions)
        then none
        else some id
  ]

  abbrev pub record_versions : List ℕ
  record_versions = 7 ∷ []

  abbrev pub entity_versions : List ℕ
  entity_versions = 1 ∷ 3 ∷ 4 ∷ 5 ∷ 6 ∷ 7 ∷ 8 ∷ []

  abbrev pub legacy_versions : List ℕ
  legacy_versions = 4 ∷ 5 ∷ 7 ∷ []

  unfoldable pub is_id : List ℕ → Text → Bool
  is_id versions input = elim (parse_uuid input versions) [ none ↦ false | some id ↦ true ]

  -- `strip_suffix(".json").is_some_and(..)`, of a record's or a batch's id
  unfoldable pub is_id_file : Text → Bool
  unfolding strip_suffix
  is_id_file name = elim (strip_suffix (ascii ".json") name) [
    | none ↦ false
    | some id ↦ is_id record_versions id
  ]

  -- the tests on the parts of a path between its slashes
  unfoldable pub legacy_event_parts : List Text → Bool
  unfolding same_bytes
  legacy_event_parts (a ∷ b ∷ c ∷ []) =
      same_bytes a (ascii "events") && is_id legacy_versions b && is_id_file c
  legacy_event_parts _ = false

  unfoldable pub legacy_batch_parts : List Text → Bool
  unfolding same_bytes
  legacy_batch_parts (a ∷ b ∷ []) = same_bytes a (ascii "batches") && is_id_file b
  legacy_batch_parts _ = false

  unfoldable pub journal_batch_parts : List Text → Bool
  unfolding same_bytes
  journal_batch_parts (a ∷ b ∷ c ∷ []) =
      same_bytes a (ascii "journal") && same_bytes b (ascii "batches") && is_id_file c
  journal_batch_parts _ = false

  unfoldable pub journal_record_parts : List Text → Bool
  unfolding same_bytes
  journal_record_parts (a ∷ b ∷ c ∷ d ∷ e ∷ []) =
      same_bytes a (ascii "journal")
      && same_bytes b (ascii "records")
      && is_domain_id c
      && is_id entity_versions d
      && is_id_file e
  journal_record_parts _ = false

  unfoldable pub valid_legacy_event : Text → Bool
  valid_legacy_event path = legacy_event_parts (split slash path)

  unfoldable pub valid_legacy_batch : Text → Bool
  valid_legacy_batch path = legacy_batch_parts (split slash path)

  unfoldable pub valid_journal_batch : Text → Bool
  valid_journal_batch path = journal_batch_parts (split slash path)

  -- `validate_journal_record_path`
  unfoldable pub valid_journal_record : Text → Bool
  valid_journal_record path = journal_record_parts (split slash path)

  unfoldable pub reserved_prefix_bytes : Text → Bool
  reserved_prefix_bytes path =
      same_bytes path (ascii "events")
      || starts_with (ascii "events/") path
      || same_bytes path (ascii "batches")
      || starts_with (ascii "batches/") path
      || same_bytes path (ascii "journal")
      || starts_with (ascii "journal/") path

  -- `classify_path`
  unfoldable pub classify_path : Text → PathClass
  classify_path path =
      if not (is_utf8 path)
      then (if reserved_prefix_bytes path then invalid_reserved else non_canonical)
      else if starts_with (ascii "events/") path
      then (if valid_legacy_event path then legacy_event else invalid_reserved)
      else if same_bytes path (ascii "events")
      then invalid_reserved
      else if starts_with (ascii "batches/") path
      then (if valid_legacy_batch path then legacy_batch else invalid_reserved)
      else if same_bytes path (ascii "batches")
      then invalid_reserved
      else if starts_with (ascii "journal/records/") path
      then (if valid_journal_record path then journal_record else invalid_reserved)
      else if starts_with (ascii "journal/batches/") path
      then (if valid_journal_batch path then journal_batch else invalid_reserved)
      else if same_bytes path (ascii "journal") || starts_with (ascii "journal/") path
      then invalid_reserved
      else non_canonical

  -- `CanonicalPath::parse`
  unfoldable pub parse_canonical : Text → Outcome Text (Text × PathClass)
  parse_canonical path = elim (classify_path path) [
    | non_canonical ↦ err path
    | invalid_reserved ↦ err path
    | legacy_event ↦ ok (path, legacy_event)
    | legacy_batch ↦ ok (path, legacy_batch)
    | journal_record ↦ ok (path, journal_record)
    | journal_batch ↦ ok (path, journal_batch)
  ]
