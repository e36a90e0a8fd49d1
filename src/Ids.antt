-- ===== src/Ids.antt =====
-- crates/wayjournal-core/src/ids.rs and identity.rs: the typed identifiers and what they are compared
-- by. Text is the list of the bytes of a string.
use Prim.Native.Char.{code}
use Prim.Native.String.{String}
use wayjournal_build_attesta.Prelude.{
  ℕ, ◌≡◌, List, [], ◌∷◌, Ord, nat_ord, pair_ord, list_ord, ord_by, arith,
}

abbrev pub Text : Type 0
Text = List ℕ

-- the bytes of an ASCII literal
abbrev pub ascii : String → Text
ascii String.[] = []
ascii (String.◌∷◌ c s) = code c ∷ ascii s

-- A UUID is its sixteen bytes, read as a big-endian number: the order of `Uuid` is the order of its
-- bytes, which is the order of the numbers. So too the 32 bytes of a digest.
abbrev pub RecordId : Type 0
RecordId = ℕ

abbrev pub BatchId : Type 0
BatchId = ℕ

abbrev pub EntityId : Type 0
EntityId = ℕ

abbrev pub StoreUuid : Type 0
StoreUuid = ℕ

abbrev pub Digest : Type 0
Digest = ℕ

-- `struct DomainId(String)`
abbrev pub DomainId : Type 0
DomainId = Text

pub record LogicalStoreId : Type 0 where
  pub store_uuid : StoreUuid
  pub genesis_fingerprint : Digest

abbrev pub store_fields : LogicalStoreId → ℕ × ℕ
store_fields s = (s.store_uuid, s.genesis_fingerprint)

pub store_fields_injective : (s t : LogicalStoreId) → store_fields s ≡ store_fields t → s ≡ t
store_fields_injective s t h = ground arith

instance abbrev pub store_ord : Ord LogicalStoreId
store_ord = ord_by store_fields store_fields_injective

pub record QualifiedEntityRef : Type 0 where
  pub store : LogicalStoreId
  pub domain : DomainId
  pub entity_id : EntityId

abbrev pub entity_fields : QualifiedEntityRef → LogicalStoreId × (Text × ℕ)
entity_fields r = (r.store, (r.domain, r.entity_id))

pub entity_fields_injective : (r s : QualifiedEntityRef) → entity_fields r ≡ entity_fields s → r ≡ s
entity_fields_injective r s h = ground arith

instance abbrev pub entity_ord : Ord QualifiedEntityRef
entity_ord = ord_by entity_fields entity_fields_injective
