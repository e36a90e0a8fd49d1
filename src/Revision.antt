-- ===== src/Revision.antt =====
-- crates/wayjournal-core/src/revision.rs and hash.rs: the revision of a store. The hash function of
-- the `blake3` crate is a parameter; a hasher holds the bytes that it was fed.
pub mod Order
use wayjournal_build_attesta.Prelude.{
  ℕ, ◌≡◌, ◌/◌, ◌%◌, ◌^◌, Bool, true, false, not, ◌||◌, Option, none, some, List, [], ◌∷◌, ◌++◌, Ord,
  Ordering, nat_ord, list_ord, eqb, precedes, length, map, if◌then◌else◌, Outcome, ok, err, ◌>>=◌,
  ◌>>◌, require,
}
use wayjournal_build_attesta.Ids.{Text, ascii, Digest}
use wayjournal_build_attesta.Collections.Sort.{sort_by}
use wayjournal_build_attesta.Federation.{StoreRevisionRef, wayjournal_blake3_framed_v1}
use wayjournal_build_attesta.Layout.{
  UuidCrate, PathClass, legacy_event, legacy_batch, journal_record, journal_batch, non_canonical,
  invalid_reserved, classify_path,
}

-- `u64::to_be_bytes`
unfoldable pub to_be_bytes : ℕ → Text
to_be_bytes n =
    (n / 2 ^ 56 % 256)
    ∷ (n / 2 ^ 48 % 256)
    ∷ (n / 2 ^ 40 % 256)
    ∷ (n / 2 ^ 32 % 256)
    ∷ (n / 2 ^ 24 % 256)
    ∷ (n / 2 ^ 16 % 256)
    ∷ (n / 2 ^ 8 % 256)
    ∷ (n % 256)
    ∷ []

-- what a `blake3::Hasher` was fed
abbrev pub Hasher : Type 0
Hasher = Text

-- `update_frame`
unfoldable pub update_frame : Hasher → Text → Hasher
unfolding to_be_bytes
update_frame hasher bytes = hasher ++ to_be_bytes (length bytes) ++ bytes

-- `framed_hash`, up to the hash
unfoldable pub framed : Hasher → List (Text × Text) → Hasher
unfolding update_frame
framed hasher [] = hasher
framed hasher ((left, right) ∷ entries) =
    framed (update_frame (update_frame hasher left) right) entries

-- `framed_hash`
unfoldable pub framed_hash : (Text → Digest) → Text → List (Text × Text) → Digest
unfolding framed
framed_hash blake3 domain entries = blake3 (framed domain entries)

-- `hash_bytes`
unfoldable pub hash_bytes : (Text → Digest) → Text → Text → Digest
hash_bytes blake3 domain bytes = blake3 (domain ++ bytes)

pub record RevisionEntry : Type 0 where
  pub path : Text
  pub bytes : Text
  pub regular : Bool

pub data RevisionError : Type 0 where
  duplicate_path : Text → RevisionError
  invalid_canonical_path : Text → RevisionError
  non_regular_canonical_path : Text → RevisionError
  non_canonical_order : Text → RevisionError

abbrev pub store_revision_domain : Text
store_revision_domain = ascii "wayjournal-store-v1" ++ 0 ∷ []

-- `struct StoreRevisionAccumulator`
pub record StoreRevisionAccumulator : Type 0 where
  pub hasher : Hasher
  pub previous_path : Option Text

abbrev pub new_accumulator : StoreRevisionAccumulator
new_accumulator = record { hasher = store_revision_domain; previous_path = none }

-- `matches!` of the four canonical classes
abbrev pub is_canonical : PathClass → Bool
is_canonical legacy_event = true
is_canonical legacy_batch = true
is_canonical journal_record = true
is_canonical journal_batch = true
is_canonical non_canonical = false
is_canonical invalid_reserved = false

-- the comparison with the previous path
unfoldable pub check_order : Option Text → Text → Outcome RevisionError (Unit {0})
check_order none path = ok tt
check_order (some previous) path =
    require (not (eqb previous path)) (duplicate_path path)
    >> require (not (precedes path previous)) (non_canonical_order path)

-- `sort_by(|left, right| left.path.cmp(&right.path))`
abbrev pub cmp_paths : RevisionEntry → RevisionEntry → Ordering
cmp_paths left right = list_ord.cmp left.path right.path

-- the first path of a neighbouring pair that is the same
unfoldable pub find_duplicate : List Text → Option Text
find_duplicate [] = none
find_duplicate (p ∷ []) = none
find_duplicate (p ∷ q ∷ ps) = let rest = find_duplicate (q ∷ ps) in if eqb p q then some p else rest

module _ (uuid : UuidCrate) where
  -- `StoreRevisionAccumulator::push`
  unfoldable pub push :
      StoreRevisionAccumulator → Text → Text → Outcome RevisionError StoreRevisionAccumulator
  push accumulator path bytes = do
    require (is_canonical (classify_path uuid path)) (invalid_canonical_path path)
    check_order accumulator.previous_path path
    ok (record {
      hasher = update_frame (update_frame accumulator.hasher path) bytes;
      previous_path = some path;
    })

  -- the loop of `compute_store_revision`
  unfoldable pub push_entries :
      StoreRevisionAccumulator → List RevisionEntry → Outcome RevisionError StoreRevisionAccumulator
  push_entries accumulator [] = ok accumulator
  push_entries accumulator (entry ∷ entries) = elim (classify_path uuid entry.path) [
    | invalid_reserved ↦ err (invalid_canonical_path entry.path)
    | non_canonical ↦ push_entries accumulator entries
    | _ ↦ do
      require entry.regular (non_regular_canonical_path entry.path)
      next ← push accumulator entry.path entry.bytes
      push_entries next entries
  ]

  module _ (blake3 : Text → Digest) where
    unfoldable pub finish : StoreRevisionAccumulator → StoreRevisionRef
    finish accumulator = record {
      algorithm = wayjournal_blake3_framed_v1;
      digest = blake3 accumulator.hasher;
    }

    -- what `compute_store_revision` does with the sorted entries
    unfoldable pub revision_of_sorted : List RevisionEntry → Outcome RevisionError StoreRevisionRef
    revision_of_sorted entries = elim (find_duplicate (map (λ e. e.path) entries)) [
      | some path ↦ err (duplicate_path path)
      | none ↦ push_entries new_accumulator entries >>= λ accumulator. ok (finish accumulator)
    ]

    -- `compute_store_revision`
    unfoldable pub compute_store_revision :
        List RevisionEntry → Outcome RevisionError StoreRevisionRef
    unfolding sort_by
    compute_store_revision entries = revision_of_sorted (sort_by cmp_paths entries)
