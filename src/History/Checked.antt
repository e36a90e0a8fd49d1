-- ===== src/History/Checked.antt =====
-- crates/wayjournal-core/src/federation/history.rs: what a history went through when it was accepted.
use wayjournal_build_attesta.Prelude.{
  ◌≡◌, subst, ap, ◌∙◌, true, ◌&&◌, none, List, [], ◌∷◌, arith, inl, All, ok, map_err, ok_parts,
  require_passed, map_err-ok, ok_injective,
}
use wayjournal_build_attesta.Ids.{Text}
use wayjournal_build_attesta.Collections.Set
use wayjournal_build_attesta.Collections.Set.{contains-insert}
use wayjournal_build_attesta.Federation.{GitOid, oid_ord}
use wayjournal_build_attesta.History.Parents.{
  IsValid, Known, Covers, contains-head, boundary-IsValid, Known-cons, insert-Covers,
  validate_tree-ok, validate_parents-Covers, check_edges-All,
}
use wayjournal_build_attesta.History.{
  CommitLine, hostile, Repository, max_commit_bytes, max_graph_output, parse_graph,
  classify_git_error, validate_tree, require_advancing, validate_parents, check_edges,
  validate_lines, oids_of, validate_histories,
}

module _ {G A : Type 0} (repository : Repository G A) (boundary : GitOid) where
  -- Each commit is bounded and has a valid tree, and each of its parents is known before it, has a valid
  -- tree, and has no path that the commit deletes or modifies.
  abbrev pub ChecksLines : List GitOid → List CommitLine → Type 0
  ChecksLines earlier [] = Unit
  ChecksLines earlier (line ∷ rest) =
      (repository.require_commit_bounded line.oid max_commit_bytes ≡ ok tt)
      × IsValid repository boundary line.oid
      × All (λ p. Known repository boundary earlier p × IsValid repository boundary p) line.parents
      × All (λ p. repository.immutable_edge_violation p line.oid ≡ ok none) line.parents
      × ChecksLines (line.oid ∷ earlier) rest

  abbrev pub after : List GitOid → List CommitLine → List GitOid
  after earlier [] = earlier
  after earlier (line ∷ rest) = after (line.oid ∷ earlier) rest

  validate_lines-ChecksLines :
      (earlier new_ids validated result : List GitOid) (new : List CommitLine)
      → Covers repository boundary earlier validated
      → validate_lines repository boundary new_ids validated new ≡ ok result
      → ChecksLines earlier new × Covers repository boundary (after earlier new) result
  unfolding validate_lines
  validate_lines-ChecksLines earlier new_ids validated result [] c h =
      (tt, subst (Covers repository boundary earlier) (ok_injective h) c)
  validate_lines-ChecksLines earlier new_ids validated result (line ∷ rest) c h =
      let (u, bounded, h1) =
        ok_parts
          (map_err (classify_git_error repository)
            (repository.require_commit_bounded line.oid max_commit_bytes))
          _ h in
      let (known, found, h2) =
        ok_parts (validate_parents repository boundary new_ids validated line.parents) _ h1 in
      let (v, kept, h3) = ok_parts (check_edges repository line.oid line.parents) _ h2 in
      let (w, valid, h4) = ok_parts (validate_tree repository line.oid) _ h3 in
      let (covered, parents) =
        validate_parents-Covers repository boundary earlier new_ids validated known line.parents c
          found in
      let here = validate_tree-ok repository boundary line.oid valid in
      let (checked, final) =
        validate_lines-ChecksLines (line.oid ∷ earlier) new_ids (Set.insert line.oid known) result
          rest
          (insert-Covers repository boundary (line.oid ∷ earlier) known line.oid
            (λ p m.
              (Known-cons repository boundary earlier line.oid p (covered p m).0, (covered p m).1))
            (inl (contains-head repository boundary line.oid earlier)) here)
          h4 in
      (
        (
          map_err-ok (classify_git_error repository)
              (repository.require_commit_bounded line.oid max_commit_bytes) bounded,
          here,
          parents,
          check_edges-All repository boundary line.oid line.parents kept,
          checked,
        ),
        final,
      )

  require_advancing-ok :
      (tip : GitOid)
      → require_advancing repository boundary tip ≡ ok tt
      → repository.is_ancestor boundary tip ≡ ok true
  unfolding require_advancing
  require_advancing-ok tip h =
      let (advances, answered, h1) =
        ok_parts (map_err (classify_git_error repository) (repository.is_ancestor boundary tip)) _
          h in
      map_err-ok (classify_git_error repository) (repository.is_ancestor boundary tip) answered
      ∙ ap ok (require_passed advances _ h1)

  -- The tip descends from the checkpoint, is the checkpoint, a new commit or an ancestor of the
  -- checkpoint, and has a valid tree.
  abbrev pub IsTip : List CommitLine → GitOid → Type 0
  IsTip new tip =
      (repository.is_ancestor boundary tip ≡ ok true)
      × Known repository boundary (after (boundary ∷ []) new) tip
      × IsValid repository boundary tip

  -- Where the histories of two tips are accepted, the tree of the checkpoint is valid, the new commits
  -- that Git lists were parsed, each of them is bounded and has a valid tree, each parent of it is the
  -- checkpoint, an earlier new commit or an ancestor of the checkpoint, has a valid tree, and has no
  -- path that the commit deletes or modifies; and both tips descend from the checkpoint and are valid.
  pub validate_histories-ChecksLines :
      (local_tip remote_tip : GitOid)
      → validate_histories repository boundary local_tip remote_tip ≡ ok tt
      → (graph : Text) × (new : List CommitLine) × (repository.new_history boundary local_tip
            remote_tip max_graph_output
          ≡ ok graph)
        × (parse_graph repository.format graph ≡ ok new)
        × IsValid repository boundary boundary
        × ChecksLines (boundary ∷ []) new
        × IsTip new local_tip
        × IsTip new remote_tip
  unfolding validate_histories
  validate_histories-ChecksLines local remote h =
      let (u, local_ok, h1) = ok_parts (require_advancing repository boundary local) _ h in
      let (v, remote_ok, h2) = ok_parts (require_advancing repository boundary remote) _ h1 in
      let (graph, listed, h3) =
        ok_parts
          (map_err (classify_git_error repository)
            (repository.new_history boundary local remote max_graph_output))
          _ h2 in
      let (new, parsed, h4) =
        ok_parts (map_err hostile (parse_graph repository.format graph)) _ h3 in
      let (w, valid, h5) = ok_parts (validate_tree repository boundary) _ h4 in
      let (result, walked, h6) =
        ok_parts (validate_lines repository boundary (oids_of new) (boundary ∷ []) new) _ h5 in
      let root = validate_tree-ok repository boundary boundary valid in
      let (checked, final) =
        validate_lines-ChecksLines (boundary ∷ []) (oids_of new) (boundary ∷ []) result new
          (λ p m. (inl m, boundary-IsValid repository boundary p root m)) walked in
      let both = require_passed (Set.contains local result && Set.contains remote result) _ h6 in
      (
        graph,
        new,
        map_err-ok (classify_git_error repository)
            (repository.new_history boundary local remote max_graph_output) listed,
        map_err-ok hostile (parse_graph repository.format graph) parsed,
        root,
        checked,
        (
          require_advancing-ok local local_ok,
          (final local (ground (arith, both))).0,
          (final local (ground (arith, both))).1,
        ),
        (
          require_advancing-ok remote remote_ok,
          (final remote (ground (arith, both))).0,
          (final remote (ground (arith, both))).1,
        ),
      )
