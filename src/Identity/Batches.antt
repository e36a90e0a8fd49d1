-- ===== src/Identity/Batches.antt =====
-- crates/wayjournal-core/src/identity.rs: what is known of the batches that were checked.
use Prim.Native.Nat.Ordering.{lt, eq, gt}
use wayjournal_build_attesta.Prelude.{
  ◌≡◌, refl, ap, sym, ◌∙◌, subst, Bool, true, false, not, Option, none, some, List, [], ◌∷◌,
  Ordering, nat_ord, list_ord, eqb, mem, map, All, ◌⊎◌, inl, inr, Outcome, ok, require, map_err,
  ok_parts, ok_injective, map_err-ok, if◌then◌else◌,
}
use wayjournal_build_attesta.Ids.{Text, BatchId}
use wayjournal_build_attesta.Collections.Map
use wayjournal_build_attesta.Collections.Map.{Map, get-insert}
use wayjournal_build_attesta.Collections.Sort.{sort_by, insert_by}
use wayjournal_build_attesta.Capability.Checks.{same_of_require}
use wayjournal_build_attesta.Batch.{
  Record, RecordRef, BatchManifest, StoredMember, BatchError, Codec, validate_batch_members,
  found_or,
}
use wayjournal_build_attesta.Identity.{
  GenesisPayload, by_path_of, members_of, check_manifests, genesis_error, incomplete_members,
}
use wayjournal_build_attesta.Identity.First.{Among}

found_or-some {ℓ} :
    {E : Type 0} {A : Type ℓ} (e : E) (o : Option A) {a : A} → found_or e o ≡ ok a → o ≡ some a
found_or-some e none h = cc
found_or-some e (some b) h = ap some (ok_injective h)

some_injective : {A : Type 0} {a b : A} → some a ≡ some b → a ≡ b
some_injective h = cc

no_entry : {a : Text} → none ≡ some a → ⊥
no_entry h = cc

same_member :
    {s : StoredMember} {path bytes : Text}
    → s.path ≡ path
    → s.bytes ≡ bytes
    → ◌≡◌ {A = StoredMember} (record { path = path; bytes = bytes }) s
same_member h k = cc

map-cons : {A : Type 0} {a b : A} {xs ys : List A} → a ≡ b → xs ≡ ys → a ∷ xs ≡ b ∷ ys
map-cons h k = cc

module _ {A : Type 0} (cmp : A → A → Ordering) (P : A → Type 0) where
  All-insert_by : (x : A) (s : List A) → All P (insert_by cmp x s) → P x × All P s
  unfolding insert_by
  All-insert_by x [] h = h
  All-insert_by x (y ∷ s) h = go (cmp x y) h (All-insert_by x s)
    where
      go :
          (o : Ordering)
          → All P (elim o [ gt ↦ y ∷ insert_by cmp x s | _ ↦ x ∷ y ∷ s ])
          → (All P (insert_by cmp x s) → P x × All P s)
          → P x × All P (y ∷ s)
      go gt a f = let (first, rest) = f a.1 in (first, (a.0, rest))
      go lt a f = a
      go eq a f = a

  -- What holds of the items in order holds of the items.
  pub All-sort_by : (xs : List A) → All P (sort_by cmp xs) → All P xs
  unfolding sort_by
  All-sort_by [] h = tt
  All-sort_by (x ∷ xs) h =
      let (first, rest) = All-insert_by x (sort_by cmp xs) h in (first, All-sort_by xs rest)

module _ {V E : Type 0} (codec : Codec V E) (parse_payload : V → Outcome Text GenesisPayload)
    (batch_text : BatchError E → Text) (record_text : E → Text) where
  get-by_path_of :
      (p b : Text) (m : Map Text Text) (ss : List StoredMember)
      → Map.get p (by_path_of codec parse_payload batch_text record_text m ss) ≡ some b
      → (Map.get p m ≡ some b) ⊎ Among (record { path = p; bytes = b }) ss
  unfolding by_path_of
  get-by_path_of p b m [] h = inl h
  get-by_path_of p b m (s ∷ ss) h = elim (get-by_path_of p b (Map.insert s.path s.bytes m) ss h) [
    | inr later ↦ inr (inr later)
    | inl now ↦ go (eqb s.path p) refl (sym (get-insert s.path p s.bytes m) ∙ now)
  ]
    where
      go :
          (c : Bool)
          → eqb s.path p ≡ c
          → (if c then some s.bytes else Map.get p m) ≡ some b
          → (Map.get p m ≡ some b) ⊎ Among (record { path = p; bytes = b }) (s ∷ ss)
      go true same e = inr (inl (same_member (same_of_require s.path p same) (some_injective e)))
      go false same e = inl e

  -- The members that the manifest names are members of the store, at the paths that it names them by and
  -- in its order, and they make up its batch.
  abbrev pub IsValidBatch : List StoredMember → BatchManifest → Type 0
  IsValidBatch members m =
      (named : List StoredMember) × (records : List (Record V)) × All (λ s. Among s members) named
      × (map (λ s. s.path) named ≡ map (λ r. r.path) m.members)
      × (validate_batch_members codec m named ≡ ok records)

  members_of-Among :
      (members : List StoredMember) (rs : List RecordRef) (named : List StoredMember)
      → members_of codec parse_payload batch_text record_text
          (by_path_of codec parse_payload batch_text record_text [] members)
          rs
        ≡ ok named
      → All (λ s. Among s members) named × (map (λ s. s.path) named ≡ map (λ r. r.path) rs)
  unfolding members_of Map.get
  members_of-Among members [] named h =
      subst (λ ns. All (λ s. Among s members) ns × (map (λ s. s.path) ns ≡ [])) (ok_injective h)
        (tt, refl)
  members_of-Among members (r ∷ rs) named h =
      let by_path = by_path_of codec parse_payload batch_text record_text [] members in
      let (bytes, found, h1) =
        ok_parts (found_or incomplete_members (Map.get r.path by_path)) _ h in
      let (rest, others, h2) =
        ok_parts (members_of codec parse_payload batch_text record_text by_path rs) _ h1 in
      let (among, paths) = members_of-Among members rs rest others in
      let here : Among (record { path = r.path; bytes = bytes }) members =
        elim (get-by_path_of r.path bytes [] members
          (found_or-some incomplete_members (Map.get r.path by_path) found)) [
            | inl none_there ↦ absurd (no_entry none_there)
            | inr there ↦ there
          ] in
      subst
        (λ ns.
          All (λ s. Among s members) ns × (map (λ s. s.path) ns ≡ r.path ∷ map (λ q. q.path) rs))
        (ok_injective h2) ((here, among), map-cons refl paths)

  pub check_manifests-All :
      (members : List StoredMember) (ids : List BatchId) (ms : List BatchManifest) {u : Unit {0}}
      → check_manifests codec parse_payload batch_text record_text
          (by_path_of codec parse_payload batch_text record_text [] members)
          ids
          ms
        ≡ ok u
      → All (IsValidBatch members) ms
  unfolding check_manifests
  check_manifests-All members ids [] h = tt
  check_manifests-All members ids (m ∷ ms) h =
      let by_path = by_path_of codec parse_payload batch_text record_text [] members in
      let (u, fresh, h1) = ok_parts (require (not (mem m.batch_id ids)) incomplete_members) _ h in
      let (named, found, h2) =
        ok_parts (members_of codec parse_payload batch_text record_text by_path m.members) _ h1 in
      let (records, valid, h3) =
        ok_parts
          (map_err (genesis_error codec parse_payload batch_text record_text)
            (validate_batch_members codec m named))
          _ h2 in
      let (among, paths) = members_of-Among members m.members named found in
      (
        (
          named,
          records,
          among,
          paths,
          map_err-ok (genesis_error codec parse_payload batch_text record_text)
              (validate_batch_members codec m named) valid,
        ),
        check_manifests-All members (m.batch_id ∷ ids) ms h3,
      )
