-- ===== src/Examples/HistoryExamples.antt =====
-- crates/wayjournal-core/src/federation/history.rs: one new commit after the checkpoint.
use wayjournal_build_attesta.Prelude.{◌≡◌, refl, true, none, List, [], ◌∷◌, ◌++◌, ok}
use wayjournal_build_attesta.Ids.{Text, ascii}
use wayjournal_build_attesta.Collections.Set
use wayjournal_build_attesta.Texts.{split, first_part, later_parts, strip_suffix, same_bytes}
use wayjournal_build_attesta.Texts.Lines.{
  lines, ended_lines, strip_return, words_from, split_whitespace,
}
use wayjournal_build_attesta.Layout.{is_utf8, utf8_from, utf8_tail, all_bytes}
use wayjournal_build_attesta.Federation.{sha1, GitOid, parse_oid}
use wayjournal_build_attesta.History.{
  CommitLine, Repository, max_graph_output, parse_graph, parse_lines, parse_line, parse_oids,
  validate_tree, require_advancing, trust_parent, validate_parents, check_edges, validate_lines,
  oids_of, validate_histories,
}
use wayjournal_build_attesta.History.Parents.{IsValid}
use wayjournal_build_attesta.History.Checked.{ChecksLines, IsTip, validate_histories-ChecksLines}

abbrev root_hex : Text
root_hex = ascii "aaaaaaaaaaaaaaaaaaaaaaaaaaaaaaaaaaaaaaaa"

abbrev next_hex : Text
next_hex = ascii "bbbbbbbbbbbbbbbbbbbbbbbbbbbbbbbbbbbbbbbb"

abbrev root : GitOid
root = record { format = sha1; hex = root_hex }

abbrev next : GitOid
next = record { format = sha1; hex = next_hex }

abbrev listing : Text
listing = next_hex ++ 32 ∷ (root_hex ++ 10 ∷ [])

abbrev repository : Repository Text Text
repository = record {
  format = sha1;
  is_ancestor = λ p tip. ok true;
  new_history = λ boundary local remote bound. ok listing;
  require_commit_bounded = λ oid bound. ok tt;
  immutable_edge_violation = λ parent child. ok none;
  tree_snapshot = λ oid. ok tt;
  is_hostile_history_bound = λ e. true;
  command_text = λ e. e;
  admission_quarantine_reason = λ e. none;
  admission_text = λ e. e;
  admission_of = λ e. e;
}

abbrev next_line : CommitLine
next_line = record { oid = next; parents = root ∷ [] }

parsed : parse_graph sha1 listing ≡ ok (next_line ∷ [])
unfolding parse_graph parse_lines parse_line parse_oids parse_oid lines ended_lines strip_return
    strip_suffix same_bytes split first_part later_parts split_whitespace words_from is_utf8
    utf8_from utf8_tail all_bytes
parsed = refl

accepted : validate_histories repository root next root ≡ ok tt
unfolding validate_histories require_advancing validate_lines validate_parents trust_parent
    check_edges validate_tree oids_of Set.contains Set.insert parse_graph parse_lines parse_line
    parse_oids parse_oid lines ended_lines strip_return strip_suffix same_bytes split first_part
    later_parts split_whitespace words_from is_utf8 utf8_from utf8_tail all_bytes
accepted = refl

validate_histories-ChecksLines_example :
    (graph : Text) × (new : List CommitLine) × (repository.new_history root next root
        max_graph_output
      ≡ ok graph)
    × (parse_graph repository.format graph ≡ ok new)
    × IsValid repository root root
    × ChecksLines repository root (root ∷ []) new
    × IsTip repository root new next
    × IsTip repository root new root
validate_histories-ChecksLines_example =
    validate_histories-ChecksLines repository root next root accepted
