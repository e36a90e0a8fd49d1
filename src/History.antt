-- ===== src/History.antt =====
-- crates/wayjournal-core/src/federation/history.rs: the new history between the checkpoint and the two
-- tips. What runs Git (federation/git.rs) is the record `Repository` of its answers, in which a tree
-- snapshot is only read with success or not.
pub mod Parents
pub mod Checked
use wayjournal_build_attesta.Prelude.{
  ℕ, zero, suc, ◌*◌, Bool, true, false, not, ◌||◌, ◌&&◌, Option, none, some, List, [], ◌∷◌, length,
  leb, ltb, map, if◌then◌else◌, Outcome, ok, err, ◌>>=◌, ◌>>◌, require, map_err,
}
use wayjournal_build_attesta.Ids.{Text, ascii}
use wayjournal_build_attesta.Collections.Set
use wayjournal_build_attesta.Texts.Lines.{lines, split_whitespace}
use wayjournal_build_attesta.Layout.{is_utf8}
use wayjournal_build_attesta.Federation.{
  GitObjectFormat, GitOid, oid_ord, oid_error_text, parse_oid, GitQuarantineReason,
  rollback_non_ancestry, malformed_history,
}

abbrev pub max_new_commits : ℕ
max_new_commits = 10000

abbrev pub max_parents_per_commit : ℕ
max_parents_per_commit = 64

abbrev pub max_commit_bytes : ℕ
max_commit_bytes = 1024 * 1024

abbrev pub max_graph_output : ℕ
max_graph_output = 64 * 1024 * 1024

pub record HistoryError : Type 0 where
  pub reason : GitQuarantineReason
  pub message : Text

-- `A` is `GitAdmissionError`
pub data HistoryValidationError (A : Type 0) : Type 0 where
  hostile : HistoryError → HistoryValidationError A
  operational : A → HistoryValidationError A

-- What the validation asks of Git: `G` is `GitCommandError`, `A` is `GitAdmissionError`.
pub record Repository (G A : Type 0) : Type 0 where
  pub format : GitObjectFormat
  pub is_ancestor : GitOid → GitOid → Outcome G Bool
  pub new_history : GitOid → GitOid → GitOid → ℕ → Outcome G Text
  pub require_commit_bounded : GitOid → ℕ → Outcome G (Unit {0})
  pub immutable_edge_violation : GitOid → GitOid → Outcome G (Option GitQuarantineReason)
  pub tree_snapshot : GitOid → Outcome A (Unit {0})
  pub is_hostile_history_bound : G → Bool
  pub command_text : G → Text
  pub admission_quarantine_reason : A → Option GitQuarantineReason
  pub admission_text : A → Text
  pub admission_of : G → A

pub record CommitLine : Type 0 where
  pub oid : GitOid
  pub parents : List GitOid

abbrev pub malformed : Text → HistoryError
malformed message = record { reason = malformed_history; message = message }

-- the oids of a line
unfoldable pub parse_oids : GitObjectFormat → List Text → Outcome HistoryError (List GitOid)
parse_oids format [] = ok []
parse_oids format (word ∷ words) = do
  oid ← map_err (λ e. malformed (oid_error_text e)) (parse_oid format word)
  oids ← parse_oids format words
  ok (oid ∷ oids)

unfoldable pub parse_line : GitObjectFormat → List Text → Outcome HistoryError CommitLine
unfolding parse_oids
parse_line format [] = err (malformed (ascii "empty history line"))
parse_line format (word ∷ words) = do
  oid ← map_err (λ e. malformed (oid_error_text e)) (parse_oid format word)
  parents ← parse_oids format words
  require (leb 1 (length parents) && leb (length parents) max_parents_per_commit)
      (malformed (ascii "new commit parent count is outside bounds"))
  ok (record { oid = oid; parents = parents })

-- the loop of `parse_graph`, with the number of lines so far
unfoldable pub parse_lines :
    GitObjectFormat → ℕ → List Text → Outcome HistoryError (List CommitLine)
unfolding parse_line
parse_lines format count [] = ok []
parse_lines format count (text ∷ texts) = do
  require (ltb count max_new_commits) (malformed (ascii "new history exceeds commit-count bound"))
  line ← parse_line format (split_whitespace text)
  rest ← parse_lines format (suc count) texts
  ok (line ∷ rest)

-- `parse_graph`
unfoldable pub parse_graph : GitObjectFormat → Text → Outcome HistoryError (List CommitLine)
unfolding parse_lines
parse_graph format bytes =
    require (is_utf8 bytes) (malformed (ascii "history output is not UTF-8"))
    >> parse_lines format 0 (lines bytes)

-- `collect::<BTreeSet<_>>()`
unfoldable pub oids_of : List CommitLine → List GitOid
oids_of [] = []
oids_of (line ∷ rest) = Set.insert line.oid (oids_of rest)

module _ {G A : Type 0} (repository : Repository G A) where
  unfoldable pub classify_admission_error : A → HistoryValidationError A
  classify_admission_error error = elim (repository.admission_quarantine_reason error) [
    | some reason ↦ hostile (record { reason = reason; message = repository.admission_text error })
    | none ↦ operational error
  ]

  unfoldable pub classify_git_error : G → HistoryValidationError A
  classify_git_error error =
      if repository.is_hostile_history_bound error
      then hostile (malformed (repository.command_text error))
      else operational (repository.admission_of error)

  abbrev pub rollback : Text → HistoryValidationError A
  rollback message = hostile (record { reason = rollback_non_ancestry; message = message })

  unfoldable pub validate_tree : GitOid → Outcome (HistoryValidationError A) (Unit {0})
  validate_tree oid = map_err classify_admission_error (repository.tree_snapshot oid)

  unfoldable pub require_advancing : GitOid → GitOid → Outcome (HistoryValidationError A) (Unit {0})
  require_advancing boundary tip = do
    advances ← map_err classify_git_error (repository.is_ancestor boundary tip)
    require advances (rollback (ascii "checkpoint is not an ancestor of an advancing tip"))

  -- a parent that was not validated before
  unfoldable pub trust_parent :
      GitOid → List GitOid → List GitOid → GitOid → Outcome (HistoryValidationError A) (List GitOid)
  unfolding validate_tree
  trust_parent boundary new_ids validated parent = do
    require (not (Set.contains parent new_ids))
        (hostile (malformed (ascii "history is not parent-before-child")))
    trusted ← map_err classify_git_error (repository.is_ancestor parent boundary)
    require trusted (rollback (ascii "new history escapes the trusted checkpoint ancestry"))
    map_err classify_git_error (repository.require_commit_bounded parent max_commit_bytes)
    validate_tree parent
    ok (Set.insert parent validated)

  -- the first loop over the parents of a commit: the commits validated so far
  unfoldable pub validate_parents :
      GitOid
      → List GitOid
      → List GitOid
      → List GitOid
      → Outcome (HistoryValidationError A) (List GitOid)
  unfolding trust_parent
  validate_parents boundary new_ids validated [] = ok validated
  validate_parents boundary new_ids validated (parent ∷ parents) = do
    known ←
        if Set.contains parent validated
        then ok validated
        else trust_parent boundary new_ids validated parent
    validate_parents boundary new_ids known parents

  -- `if let Some(reason)`
  abbrev pub no_violation :
      Option GitQuarantineReason → Outcome (HistoryValidationError A) (Unit {0})
  no_violation none = ok tt
  no_violation (some reason) = err (
      hostile (record {
        reason = reason;
        message = ascii "immutable history edge changed existing bytes";
      }))

  -- the second loop over the parents of a commit
  unfoldable pub check_edges : GitOid → List GitOid → Outcome (HistoryValidationError A) (Unit {0})
  check_edges child [] = ok tt
  check_edges child (parent ∷ parents) = do
    violation ← map_err classify_git_error (repository.immutable_edge_violation parent child)
    no_violation violation
    check_edges child parents

  -- the loop over the new commits
  unfoldable pub validate_lines :
      GitOid
      → List GitOid
      → List GitOid
      → List CommitLine
      → Outcome (HistoryValidationError A) (List GitOid)
  unfolding validate_parents check_edges validate_tree
  validate_lines boundary new_ids validated [] = ok validated
  validate_lines boundary new_ids validated (line ∷ rest) = do
    map_err classify_git_error (repository.require_commit_bounded line.oid max_commit_bytes)
    known ← validate_parents boundary new_ids validated line.parents
    check_edges line.oid line.parents
    validate_tree line.oid
    validate_lines boundary new_ids (Set.insert line.oid known) rest

  -- `validate_histories`
  unfoldable pub validate_histories :
      GitOid → GitOid → GitOid → Outcome (HistoryValidationError A) (Unit {0})
  validate_histories boundary local_tip remote_tip = do
    require_advancing boundary local_tip
    require_advancing boundary remote_tip
    graph ←
        map_err classify_git_error
          (repository.new_history boundary local_tip remote_tip max_graph_output)
    new ← map_err hostile (parse_graph repository.format graph)
    validate_tree boundary
    validated ← validate_lines boundary (oids_of new) (boundary ∷ []) new
    require (Set.contains local_tip validated && Set.contains remote_tip validated)
        (hostile (malformed (ascii "history enumeration omitted an advancing tip")))
