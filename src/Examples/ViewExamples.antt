-- ===== src/Examples/ViewExamples.antt =====
-- crates/wayjournal-core/src/domains.rs: the profile of a resolved name, and a catalog of one target.
use wayjournal_build_attesta.Prelude.{
  ◌≡◌, refl, ap, none, some, List, [], ◌∷◌, ok, nat_ord, list_ord, pair_ord, ◌>>=◌,
}
use wayjournal_build_attesta.Ids.{ascii, RecordId, LogicalStoreId, store_ord}
use wayjournal_build_attesta.Causal.{
  CausalGraph, new, observes_bounded, check_edges, edge_total, checked_add, index_nodes,
  check_all_parents, parent_counts, collect_children, initially_ready, drain, index, release,
  search_ancestors, parents_of, push_child,
}
use wayjournal_build_attesta.Causal.Ancestry.{Ancestor}
use wayjournal_build_attesta.Collections.Map
use wayjournal_build_attesta.Collections.Map.{Map, map_values}
use wayjournal_build_attesta.Collections.Set
use wayjournal_build_attesta.Collections.Sort.{sort_by, strictly_sorted}
use wayjournal_build_attesta.Domains.{
  text, OperationKind, scalar_set, ScalarField, ScalarValue, entry_name, DomainOperation,
  operation_causal, scalar_ord, set_ord,
}
use wayjournal_build_attesta.Domains.Fold.{
  FoldState, apply_kind, apply_operation, apply_catalog_operation, observed_ids, entry_or,
  update_entry, remove_registers, ensure_reachability_budget, same_ids,
}
use wayjournal_build_attesta.Domains.Run.{
  all_belong, belongs, apply_all_catalogs, fold, fold_targets, catalog_domain, profile_domain,
}
use wayjournal_build_attesta.Domains.Entries.{active_at}
use wayjournal_build_attesta.Domains.Antichain.{fold-Concurrent}
use wayjournal_build_attesta.Domains.Views.{
  CatalogEntry, fold_profile, profile_view, catalog_entry, catalog_entries, fold_catalogs,
  fold_catalog, other_target, entry_of,
}
use wayjournal_build_attesta.Domains.Shows.{
  ShowsProfile, ShowsCatalog, ShowsTarget, fold_profile-Shows, fold_catalogs-Shows,
  fold_catalog-Shows,
}
use wayjournal_build_attesta.Examples.DomainExamples.{
  history, named_once, named_again, one_named, one_value, two_named, two_values,
}

fold-Concurrent_example :
    (graph : CausalGraph DomainOperation) × (new (named_once ∷ named_again ∷ []) ≡ ok graph)
    × ((f : ScalarField) (i j : RecordId) (v w : ScalarValue)
        → active_at f i two_named.registers ≡ some v
        → active_at f j two_named.registers ≡ some w
        → ¬ Ancestor graph.by_id i j)
fold-Concurrent_example =
    fold-Concurrent (named_once ∷ named_again ∷ []) profile_domain two_named two_values

profile_shown : fold_profile history ≡ ok (profile_view one_named)
unfolding fold_profile
profile_shown = ap (λ o. o >>= λ s. ok (profile_view s)) one_value

fold_profile-Shows_example :
    (s : FoldState) × (fold history profile_domain ≡ ok s) × ShowsProfile s (profile_view one_named)
fold_profile-Shows_example = fold_profile-Shows history (profile_view one_named) profile_shown

abbrev store : LogicalStoreId
store = record { store_uuid = 4; genesis_fingerprint = 5 }

abbrev catalog_op : RecordId → List RecordId → OperationKind → DomainOperation
catalog_op id parents kind = record {
  record_id = id;
  entity_id = 71;
  parents = parents;
  domain = catalog_domain;
  target = some store;
  kind = kind;
}

abbrev catalog : List DomainOperation
catalog =
    catalog_op 1 [] (scalar_set entry_name (text (ascii "x")))
    ∷ catalog_op 2 (1 ∷ []) (scalar_set entry_name (text (ascii "y")))
    ∷ []

abbrev entry_state : FoldState
entry_state = record { registers = (entry_name, (2, text (ascii "y")) ∷ []) ∷ []; adds = [] }

one_target : fold_targets catalog ≡ ok ((store, entry_state) ∷ [])
unfolding fold_targets new check_edges edge_total checked_add index_nodes check_all_parents
    parent_counts collect_children initially_ready drain index release Map.get Map.insert
    Map.contains_key Set.insert sort_by strictly_sorted map_values push_child all_belong belongs
    apply_all_catalogs apply_catalog_operation observed_ids observes_bounded search_ancestors
    parents_of Map.remove Set.contains apply_kind ensure_reachability_budget entry_or
    remove_registers same_ids update_entry apply_operation
one_target = refl

entries_shown : fold_catalogs catalog ≡ ok ((store, catalog_entry store entry_state) ∷ [])
unfolding fold_catalogs catalog_entries
entries_shown = ap (λ o. o >>= λ m. ok (catalog_entries m)) one_target

fold_catalogs-Shows_example :
    (states : Map LogicalStoreId FoldState) × (fold_targets catalog ≡ ok states)
    × ((target : LogicalStoreId)
        → Map.get target states ≡ none
        → Map.get target ((store, catalog_entry store entry_state) ∷ []) ≡ none)
    × ((target : LogicalStoreId) (s : FoldState)
        → Map.get target states ≡ some s
        → (entry : CatalogEntry) × (Map.get target ((store, catalog_entry store entry_state) ∷ [])
            ≡ some entry)
          × (entry.target ≡ target)
          × ShowsCatalog s entry)
fold_catalogs-Shows_example =
    fold_catalogs-Shows catalog ((store, catalog_entry store entry_state) ∷ []) entries_shown

entry_shown : fold_catalog catalog ≡ ok (catalog_entry store entry_state)
unfolding fold_catalog other_target Map.get
entry_shown = ap (λ o. o >>= λ entries. entry_of (Map.get store entries)) entries_shown

fold_catalog-Shows_example : ShowsTarget catalog (catalog_entry store entry_state)
fold_catalog-Shows_example =
    fold_catalog-Shows catalog (catalog_entry store entry_state) entry_shown
