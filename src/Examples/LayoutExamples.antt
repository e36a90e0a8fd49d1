-- ===== src/Examples/LayoutExamples.antt =====
-- crates/wayjournal-core/src/layout.rs: paths of records.
use wayjournal_build_attesta.Prelude.{◌+◌, ◌*◌, ◌^◌, ℕ, ◌≡◌, refl, false, true, ◌↔◌, arith}
use wayjournal_build_attesta.Ids.{Text, ascii}
use wayjournal_build_attesta.Texts.{split, first_part, later_parts, join, joined_after}
use wayjournal_build_attesta.Layout.{
  all_segments, later_byte, all_bytes, non_canonical, journal_record, classify_path,
  reserved_prefix_bytes, IsUuid, is_domain_id, valid_segment, namespaced_token,
}
use wayjournal_build_attesta.Examples.UuidExample.{
  print, hyphenated_crate, hyphenated_crate-IsPlain, hyphenated_crate-parse,
}
use wayjournal_build_attesta.Layout.Reserved.{classify_path_iff}
use wayjournal_build_attesta.Layout.Paths.{record_path, classify_path-record_path}

abbrev pub domain_name : Text
domain_name = ascii "wayjournal.catalog"

domain_name_valid : is_domain_id domain_name ≡ true
unfolding is_domain_id namespaced_token split first_part later_parts all_segments valid_segment
    later_byte all_bytes
domain_name_valid = refl

-- two UUIDs of version 7
abbrev entity : ℕ
entity = 7 * 2 ^ 76 + 2 ^ 63 + 1

abbrev record_seven : ℕ
record_seven = 7 * 2 ^ 76 + 2 ^ 63 + 2

printed :
    record_path hyphenated_crate domain_name entity record_seven
    ≡ ascii
        "journal/records/wayjournal.catalog/00000000-0000-7000-8000-000000000001/00000000-0000-7000-8000-000000000002.json"
unfolding record_path join joined_after print
printed = refl

classify_path_iff_example :
    (classify_path hyphenated_crate (ascii "README.md") ≡ non_canonical)
    ↔ (reserved_prefix_bytes hyphenated_crate (ascii "README.md") ≡ false)
classify_path_iff_example = classify_path_iff hyphenated_crate (ascii "README.md")

classify_path-record_path_example :
    classify_path hyphenated_crate (record_path hyphenated_crate domain_name entity record_seven)
    ≡ journal_record
unfolding IsUuid
classify_path-record_path_example =
    classify_path-record_path hyphenated_crate hyphenated_crate-IsPlain hyphenated_crate-parse
      domain_name entity record_seven domain_name_valid (omega arith, refl, refl, refl)
      (omega arith, refl, refl, refl)
