-- ===== src/History/Parents.antt =====
-- crates/wayjournal-core/src/federation/history.rs: what the parents of a new commit went through.
use wayjournal_build_attesta.Prelude.{
  ◌≡◌, refl, sym, subst, ap, ◌∙◌, Bool, true, false, not, none, some, List, [], ◌∷◌, arith, eqb,
  ◌⊎◌, inl, inr, All, ok, require, map_err, ok_parts, require_passed, map_err-ok, ok_injective,
  Bool-cases, Option, if◌then◌else◌,
}
use wayjournal_build_attesta.Collections.Set
use wayjournal_build_attesta.Collections.Set.{contains-insert}
use wayjournal_build_attesta.Capability.Checks.{same_of_require}
use wayjournal_build_attesta.Federation.{GitOid, oid_ord, GitQuarantineReason}
use wayjournal_build_attesta.History.{
  Repository, max_commit_bytes, classify_admission_error, classify_git_error, validate_tree,
  trust_parent, no_violation, validate_parents, check_edges,
}

module _ {G A : Type 0} (repository : Repository G A) (boundary : GitOid) where
  -- The tree of the commit is a valid store.
  abbrev pub IsValid : GitOid → Type 0
  IsValid p = repository.tree_snapshot p ≡ ok tt

  -- A commit that came earlier, or an ancestor of the checkpoint.
  abbrev pub Known : List GitOid → GitOid → Type 0
  Known earlier p = (Set.contains p earlier ≡ true) ⊎ (repository.is_ancestor p boundary ≡ ok true)

  abbrev pub Covers : List GitOid → List GitOid → Type 0
  Covers earlier validated =
      (p : GitOid) → Set.contains p validated ≡ true → Known earlier p × IsValid p

  pub contains-head : (o : GitOid) (earlier : List GitOid) → Set.contains o (o ∷ earlier) ≡ true
  unfolding Set.contains
  contains-head o earlier = ground (arith, oid_ord.cmp_self o)

  pub boundary-IsValid :
      (p : GitOid) → IsValid boundary → Set.contains p (boundary ∷ []) ≡ true → IsValid p
  unfolding Set.contains
  boundary-IsValid p v m = subst IsValid (sym (same_of_require p boundary (ground (arith, m)))) v

  pub Known-cons : (earlier : List GitOid) (o p : GitOid) → Known earlier p → Known (o ∷ earlier) p
  unfolding Set.contains
  Known-cons earlier o p (inl h) = inl (ground (arith, h))
  Known-cons earlier o p (inr h) = inr h

  pub insert-Covers :
      (earlier validated : List GitOid) (o : GitOid)
      → Covers earlier validated
      → Known earlier o
      → IsValid o
      → Covers earlier (Set.insert o validated)
  insert-Covers earlier validated o c k v p h = elim (Bool-cases (eqb p o)) [
    | inl same ↦ subst (λ q. Known earlier q × IsValid q) (sym (same_of_require p o same)) (k, v)
    | inr other ↦ c p (ground (arith, contains-insert o p validated, h, other))
  ]

  pub validate_tree-ok : (p : GitOid) → validate_tree repository p ≡ ok tt → IsValid p
  unfolding validate_tree
  validate_tree-ok p h =
      map_err-ok (classify_admission_error repository) (repository.tree_snapshot p) h

  trust_parent-Covers :
      (earlier new_ids validated result : List GitOid) (parent : GitOid)
      → Covers earlier validated
      → trust_parent repository boundary new_ids validated parent ≡ ok result
      → Covers earlier result × Known earlier parent × IsValid parent
  unfolding trust_parent
  trust_parent-Covers earlier new_ids validated result parent c h =
      let (u, ordered, h1) = ok_parts (require (not (Set.contains parent new_ids)) _) _ h in
      let (trusted, answered, h2) =
        ok_parts (map_err (classify_git_error repository) (repository.is_ancestor parent boundary))
          _ h1 in
      let (v, passed, h3) = ok_parts (require trusted _) _ h2 in
      let (w, bounded, h4) =
        ok_parts
          (map_err (classify_git_error repository)
            (repository.require_commit_bounded parent max_commit_bytes))
          _ h3 in
      let (x, valid, h5) = ok_parts (validate_tree repository parent) _ h4 in
      let ancestor : Known earlier parent = inr (
        map_err-ok (classify_git_error repository) (repository.is_ancestor parent boundary) answered
        ∙ ap ok (require_passed trusted _ passed)) in
      (
        subst (Covers earlier) (ok_injective h5)
            (insert-Covers earlier validated parent c ancestor (validate_tree-ok parent valid)),
        ancestor,
        validate_tree-ok parent valid,
      )

  next_parent-Covers :
      (earlier new_ids validated result : List GitOid) (parent : GitOid)
      → Covers earlier validated
      → (if Set.contains parent validated
          then ok validated
          else trust_parent repository boundary new_ids validated parent)
        ≡ ok result
      → Covers earlier result × Known earlier parent × IsValid parent
  next_parent-Covers earlier new_ids validated result parent c h =
      go (Set.contains parent validated) refl h
    where
      go :
          (seen : Bool)
          → Set.contains parent validated ≡ seen
          → (if seen
              then ok validated
              else trust_parent repository boundary new_ids validated parent)
            ≡ ok result
          → Covers earlier result × Known earlier parent × IsValid parent
      go true e h = (subst (Covers earlier) (ok_injective h) c, (c parent e).0, (c parent e).1)
      go false e h = trust_parent-Covers earlier new_ids validated result parent c h

  pub validate_parents-Covers :
      (earlier new_ids validated result parents : List GitOid)
      → Covers earlier validated
      → validate_parents repository boundary new_ids validated parents ≡ ok result
      → Covers earlier result × All (λ p. Known earlier p × IsValid p) parents
  unfolding validate_parents
  validate_parents-Covers earlier new_ids validated result [] c h =
      (subst (Covers earlier) (ok_injective h) c, tt)
  validate_parents-Covers earlier new_ids validated result (parent ∷ parents) c h =
      let (known, found, h1) =
        ok_parts
          (if Set.contains parent validated
            then ok validated
            else trust_parent repository boundary new_ids validated parent)
          _ h in
      let (covered, here, tree) =
        next_parent-Covers earlier new_ids validated known parent c found in
      let (final, rest) = validate_parents-Covers earlier new_ids known result parents covered h1 in
      (final, ((here, tree), rest))

  no_violation-none :
      (violation : Option GitQuarantineReason)
      → no_violation repository violation ≡ ok tt
      → violation ≡ none
  no_violation-none none h = refl
  no_violation-none (some reason) h = cc

  pub check_edges-All :
      (child : GitOid) (parents : List GitOid)
      → check_edges repository child parents ≡ ok tt
      → All (λ p. repository.immutable_edge_violation p child ≡ ok none) parents
  unfolding check_edges
  check_edges-All child [] h = tt
  check_edges-All child (p ∷ parents) h =
      let (violation, answered, h1) =
        ok_parts
          (map_err (classify_git_error repository) (repository.immutable_edge_violation p child)) _
          h in
      let (u, none_found, h2) = ok_parts (no_violation repository violation) _ h1 in
      (
        map_err-ok (classify_git_error repository) (repository.immutable_edge_violation p child)
              answered
            ∙ ap ok (no_violation-none violation none_found),
        check_edges-All child parents h2,
      )
