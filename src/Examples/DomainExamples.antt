-- ===== src/Examples/DomainExamples.antt =====
-- crates/wayjournal-core/src/domains.rs: a display name that is set twice concurrently and resolved.
use wayjournal_build_attesta.Prelude.{
  ℕ, zero, suc, ◌≡◌, refl, false, none, List, [], ◌∷◌, Outcome, ok, err, map, nat_ord, eqb,
  list_ord, pair_ord, if◌then◌else◌,
}
use wayjournal_build_attesta.Ids.{Text, ascii, RecordId, store_ord}
use wayjournal_build_attesta.Causal.{
  CausalGraph, new, observes_bounded, check_edges, edge_total, checked_add, index_nodes,
  check_all_parents, parent_counts, collect_children, initially_ready, drain, index, release,
  search_ancestors, parents_of, push_child, max_reachability_steps,
}
use wayjournal_build_attesta.Collections.Map
use wayjournal_build_attesta.Collections.Map.{map_values}
use wayjournal_build_attesta.Collections.Set
use wayjournal_build_attesta.Collections.Sort.{sort_by, strictly_sorted}
use wayjournal_build_attesta.Domains.{
  text, OperationKind, scalar_set, scalar_resolve, display_name, DomainOperation, operation_causal,
  header_causal, scalar_ord, set_ord,
}
use wayjournal_build_attesta.Domains.Fold.{
  FoldState, fold_state, validation_state, apply_kind, apply_operation, observed_ids, entry_or,
  update_entry, remove_registers, ensure_reachability_budget, same_ids, invalid_resolution,
}
use wayjournal_build_attesta.Domains.Run.{
  all_belong, apply_all, fold, fold_targets, catalog_domain, profile_domain,
  validate_loaded_builtin_fold,
}
use wayjournal_build_attesta.Domains.Steps.{outcome_of}
use wayjournal_build_attesta.Domains.Effect.{Effect, apply_kind-Effect}
use wayjournal_build_attesta.Domains.Refinement.{validate_loaded-fold, header_of}

abbrev pub profile_op : RecordId → List RecordId → OperationKind → DomainOperation
profile_op id parents kind = record {
  record_id = id;
  entity_id = 70;
  parents = parents;
  domain = profile_domain;
  target = none;
  kind = kind;
}

abbrev pub named_once : DomainOperation
named_once = profile_op 1 [] (scalar_set display_name (text (ascii "a")))

abbrev pub named_again : DomainOperation
named_again = profile_op 2 [] (scalar_set display_name (text (ascii "b")))

abbrev pub name_resolved : DomainOperation
name_resolved =
    profile_op 3 (1 ∷ 2 ∷ []) (scalar_resolve display_name (text (ascii "c")) (1 ∷ 2 ∷ []))

abbrev pub history : List DomainOperation
history = named_once ∷ named_again ∷ name_resolved ∷ []

-- what the records hold, by their position
abbrev stored : ℕ → Outcome Text DomainOperation
stored zero = err (ascii "missing")
stored (suc zero) = ok named_once
stored (suc (suc zero)) = ok named_again
stored (suc (suc (suc n))) = ok name_resolved

abbrev position : DomainOperation → ℕ
position op = op.record_id

pub two_values :
    fold (named_once ∷ named_again ∷ []) profile_domain
    ≡ ok (record {
      registers = (display_name, (1, text (ascii "a")) ∷ (2, text (ascii "b")) ∷ []) ∷ [];
      adds = [];
    })
unfolding fold new check_edges edge_total checked_add index_nodes check_all_parents parent_counts
    collect_children initially_ready drain index release Map.get Map.insert Map.contains_key
    Set.insert sort_by strictly_sorted map_values push_child all_belong apply_all apply_operation
    observed_ids observes_bounded search_ancestors parents_of Map.remove Set.contains apply_kind
    ensure_reachability_budget entry_or remove_registers same_ids update_entry
two_values = refl

pub one_value :
    fold history profile_domain
    ≡ ok (record { registers = (display_name, (3, text (ascii "c")) ∷ []) ∷ []; adds = [] })
unfolding fold new check_edges edge_total checked_add index_nodes check_all_parents parent_counts
    collect_children initially_ready drain index release Map.get Map.insert Map.contains_key
    Set.insert sort_by strictly_sorted map_values push_child all_belong apply_all apply_operation
    observed_ids observes_bounded search_ancestors parents_of Map.remove Set.contains apply_kind
    ensure_reachability_budget entry_or remove_registers same_ids update_entry
one_value = refl

-- a resolution that leaves a value out
partial_resolution :
    fold
      (named_once
        ∷ named_again
        ∷ profile_op 3 (1 ∷ 2 ∷ []) (scalar_resolve display_name (text (ascii "c")) (1 ∷ []))
        ∷ [])
      profile_domain
    ≡ err (invalid_resolution 3)
unfolding fold new check_edges edge_total checked_add index_nodes check_all_parents parent_counts
    collect_children initially_ready drain index release Map.get Map.insert Map.contains_key
    Set.insert sort_by strictly_sorted map_values push_child all_belong apply_all apply_operation
    observed_ids observes_bounded search_ancestors parents_of Map.remove Set.contains apply_kind
    ensure_reachability_budget entry_or remove_registers same_ids update_entry
partial_resolution = refl

validate_loaded-fold_example :
    validate_loaded_builtin_fold stored (map (header_of stored position) history) ≡ (
      if eqb profile_domain catalog_domain
      then outcome_of (fold_targets history)
      else outcome_of (fold history profile_domain))
validate_loaded-fold_example =
    validate_loaded-fold stored position named_once (named_again ∷ name_resolved ∷ [])
      (refl, (refl, (refl, tt)))

abbrev history_graph : CausalGraph DomainOperation
history_graph = record {
  ordered = history;
  by_id = (1, named_once) ∷ (2, named_again) ∷ (3, name_resolved) ∷ [];
}

abbrev pub two_named : FoldState
two_named = record {
  registers = (display_name, (1, text (ascii "a")) ∷ (2, text (ascii "b")) ∷ []) ∷ [];
  adds = [];
}

abbrev pub one_named : FoldState
one_named = record { registers = (display_name, (3, text (ascii "c")) ∷ []) ∷ []; adds = [] }

resolves :
    apply_kind history_graph 3 name_resolved.kind two_named max_reachability_steps false
    ≡ ok (one_named, 999997, false)
unfolding Map.get Map.insert Set.insert Map.remove Set.contains observed_ids observes_bounded
    search_ancestors parents_of apply_kind ensure_reachability_budget entry_or remove_registers
    same_ids update_entry
resolves = refl

apply_kind-Effect_example : Effect history_graph.by_id 3 two_named one_named name_resolved.kind
apply_kind-Effect_example =
    apply_kind-Effect history_graph 3 two_named name_resolved.kind max_reachability_steps false
      (one_named, 999997, false) resolves
