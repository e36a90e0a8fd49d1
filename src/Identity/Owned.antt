-- ===== src/Identity/Owned.antt =====
-- crates/wayjournal-core/src/identity.rs: the paths of the members and those that manifests name.
use wayjournal_build_attesta.Prelude.{
  ◌≤◌, ◌≡◌, refl, ap, sym, ◌∙◌, true, List, [], ◌∷◌, arith, nat_ord, list_ord, eqb, All, ◌⊎◌, inl,
  inr, Outcome, Bool-cases,
}
use wayjournal_build_attesta.Ids.{Text}
use wayjournal_build_attesta.Collections.Map
use wayjournal_build_attesta.Collections.Map.{Map}
use wayjournal_build_attesta.Collections.Keys.{keys-insert}
use wayjournal_build_attesta.Collections.Set
use wayjournal_build_attesta.Collections.Set.{contains-insert}
use wayjournal_build_attesta.Capability.Checks.{same_of_require, eqb_same}
use wayjournal_build_attesta.Batch.{RecordRef, BatchManifest, StoredMember, BatchError, Codec}
use wayjournal_build_attesta.Batch.Ownership.{member_count, owner_count}
use wayjournal_build_attesta.Identity.{GenesisPayload, by_path_of, add_paths, manifest_paths}

module _ {V E : Type 0} (codec : Codec V E) (parse_payload : V → Outcome Text GenesisPayload)
    (batch_text : BatchError E → Text) (record_text : E → Text) where
  contains-by_path_of :
      (p : Text) (m : Map Text Text) (ss : List StoredMember)
      → Set.contains p (Map.keys m) ≡ true
      → Set.contains p (Map.keys (by_path_of codec parse_payload batch_text record_text m ss))
        ≡ true
  unfolding by_path_of
  contains-by_path_of p m [] h = h
  contains-by_path_of p m (s ∷ ss) h = contains-by_path_of p (Map.insert s.path s.bytes m) ss (
      ap (Set.contains p) (keys-insert s.path s.bytes m)
      ∙ ground (arith, contains-insert s.path p (Map.keys m), h))

  pub by_path_of-All :
      (m : Map Text Text) (ss : List StoredMember)
      → All
          (λ s.
            Set.contains s.path
              (Map.keys (by_path_of codec parse_payload batch_text record_text m ss))
            ≡ true)
          ss
  unfolding by_path_of
  by_path_of-All m [] = tt
  by_path_of-All m (s ∷ ss) = (
    contains-by_path_of s.path (Map.insert s.path s.bytes m) ss (
        ap (Set.contains s.path) (keys-insert s.path s.bytes m)
        ∙ ground (arith, contains-insert s.path s.path (Map.keys m), eqb_same s.path s.path refl)),
    by_path_of-All (Map.insert s.path s.bytes m) ss,
  )

  contains-add_paths :
      (p : Text) (acc : List Text) (rs : List RecordRef)
      → Set.contains p (add_paths codec parse_payload batch_text record_text acc rs) ≡ true
      → (Set.contains p acc ≡ true) ⊎ (1 ≤ member_count p rs)
  unfolding add_paths
  contains-add_paths p acc [] h = inl h
  contains-add_paths p acc (r ∷ rs) h = elim (contains-add_paths p (Set.insert r.path acc) rs h) [
    | inl there ↦ elim (Bool-cases (eqb p r.path)) [
      | inl same ↦ inr (ground (arith, eqb_same r.path p (sym (same_of_require p r.path same))))
      | inr other ↦ inl (ground (arith, there, contains-insert r.path p acc, other))
    ]
    | inr later ↦ inr (ground (arith, later))
  ]

  pub contains-manifest_paths :
      (p : Text) (acc : List Text) (ms : List BatchManifest)
      → Set.contains p (manifest_paths codec parse_payload batch_text record_text acc ms) ≡ true
      → (Set.contains p acc ≡ true) ⊎ (1 ≤ owner_count p ms)
  unfolding manifest_paths
  contains-manifest_paths p acc [] h = inl h
  contains-manifest_paths p acc (m ∷ ms) h =
      elim (contains-manifest_paths p
        (add_paths codec parse_payload batch_text record_text acc m.members) ms h) [
          | inl there ↦ elim (contains-add_paths p acc m.members there) [
            | inl before ↦ inl before
            | inr now ↦ inr (omega (arith, now))
          ]
          | inr later ↦ inr (omega (arith, later))
        ]
