-- ===== src/Domains/Refinement.antt =====
-- crates/wayjournal-core/src/domains.rs: the validation of a loaded history, which keeps headers and
-- ids alone, against the full folds.
use wayjournal_build_attesta.Prelude.{
  ℕ, ◌≡◌, refl, ap, Bool, true, false, ◌&&◌, Option, none, some, List, [], ◌∷◌, nat_ord, list_ord,
  pair_ord, eqb, Outcome, ok, err, fault, map_ok, map_err, ◌∙◌, ◌>>=◌, ◌>>◌, require, if◌then◌else◌,
  Bool-cases, inl, inr, map, All,
}
use wayjournal_build_attesta.Ids.{Text, EntityId, LogicalStoreId, store_ord}
use wayjournal_build_attesta.Collections.Map
use wayjournal_build_attesta.Collections.Map.{Map, map_values}
use wayjournal_build_attesta.Causal.{CausalGraph, CausalError, new, max_reachability_steps}
use wayjournal_build_attesta.Causal.Rank.{new-Topological}
use wayjournal_build_attesta.Causal.Naturality.{map_graph, new-map}
use wayjournal_build_attesta.Domains.{
  DomainOperation, DomainOperationHeader, operation_causal, header_causal, into_header,
}
use wayjournal_build_attesta.Domains.Fold.{
  FoldError, causal, wrong_entity, FoldState, fold_state, validation_state, entry_or,
  apply_operation, apply_catalog_operation,
}
use wayjournal_build_attesta.Domains.Run.{
  belongs, all_belong, apply_all, fold, apply_all_catalogs, catalog_domain, fold_targets,
  FoldLoadError, fold_failed, all_headers_belong, validate_all, validate_loaded_builtin_fold,
}
use wayjournal_build_attesta.Domains.Erasure.{erase, erase_step, apply_kind-erase}
use wayjournal_build_attesta.Domains.Steps.{
  same_of_eqb, All-Topological, apply_kind-map, outcome_of, outcome_of-bind, erase_targets,
  erase_targets_step, put-erase, entry-erase,
}

module _ {ℓ} {E : Type ℓ} (read : ℕ → Outcome E DomainOperation)
    (source : DomainOperation → ℕ) where
  -- the compact form of an operation, with where its payload is read from
  abbrev pub header_of : DomainOperation → DomainOperationHeader
  header_of op = into_header op (source op)

  same_id : (op : DomainOperation) → header_causal.record_id (header_of op) ≡ op.record_id
  unfolding into_header
  same_id op = refl

  same_parents : (op : DomainOperation) → header_causal.parents (header_of op) ≡ op.parents
  unfolding into_header
  same_parents op = refl

  -- Reading an operation's source gives the operation.
  abbrev pub Reads : DomainOperation → Type ℓ
  Reads op = read (source op) ≡ ok op

  abbrev headers_graph : CausalGraph DomainOperation → CausalGraph DomainOperationHeader
  headers_graph = map_graph header_of same_id same_parents

  all_headers_belong-map :
      (expected : Text) (entity : Option EntityId) (ops : List DomainOperation)
      → all_headers_belong expected entity (map header_of ops) ≡ all_belong expected entity ops
  unfolding all_headers_belong all_belong into_header
  all_headers_belong-map expected entity [] = refl
  all_headers_belong-map expected entity (op ∷ ops) =
      ap (λ b. belongs expected entity op.domain op.entity_id && b)
        (all_headers_belong-map expected entity ops)

  module _ (graph : CausalGraph DomainOperation) where
    step-erase :
        (op : DomainOperation) (s : FoldState) (budget : ℕ) (exceeded : Bool)
        → apply_operation (headers_graph graph) op (erase s) budget exceeded
          ≡ map_ok erase_step (apply_operation graph op s budget exceeded)
    unfolding apply_operation
    step-erase op s budget exceeded =
        apply_kind-map header_of same_id same_parents graph op.record_id op.kind (erase s) budget
          exceeded
        ∙ apply_kind-erase graph op.record_id s budget exceeded op.kind

    target-erase :
        (op : DomainOperation) (target : LogicalStoreId) (states : Map LogicalStoreId FoldState)
        (budget : ℕ) (exceeded : Bool)
        → (apply_operation
              (headers_graph graph)
              op
              (entry_or validation_state.default target (erase_targets states))
              budget
              exceeded
            >>= λ (s, b, x). ok (Map.insert target s (erase_targets states), b, x))
          ≡ map_ok erase_targets_step (
              apply_operation graph op (entry_or fold_state.default target states) budget exceeded
              >>= λ (s, b, x). ok (Map.insert target s states, b, x))
    target-erase op target states budget exceeded =
        let s = entry_or fold_state.default target states in
        ap
          (λ t. apply_operation (headers_graph graph) op t budget exceeded >>= λ (s, b, x).
            ok (Map.insert target s (erase_targets states), b, x))
          (entry-erase target states)
        ∙ ap (λ m. m >>= λ (s, b, x). ok (Map.insert target s (erase_targets states), b, x))
            (step-erase op s budget exceeded)
        ∙ put-erase target states (apply_operation graph op s budget exceeded)

    catalog_step-erase :
        (op : DomainOperation) (states : Map LogicalStoreId FoldState) (budget : ℕ)
        (exceeded : Bool)
        → apply_catalog_operation (headers_graph graph) op (erase_targets states) budget exceeded
          ≡ map_ok erase_targets_step (apply_catalog_operation graph op states budget exceeded)
    unfolding apply_catalog_operation
    catalog_step-erase op states budget exceeded = go op.target refl
      where
        go :
            (target : Option LogicalStoreId)
            → op.target ≡ target
            → apply_catalog_operation
                (headers_graph graph)
                op
                (erase_targets states)
                budget
                exceeded
              ≡ map_ok erase_targets_step (apply_catalog_operation graph op states budget exceeded)
        go none e = rw e refl
        go (some target) e =
            rw (e, apply_catalog_operation) (target-erase op target states budget exceeded)

    profile_run-erase :
        (ops : List DomainOperation)
        → All Reads ops
        → (s : FoldState) (budget : ℕ) (exceeded : Bool)
        → validate_all read
            (headers_graph graph)
            false
            (map header_of ops)
            (erase s)
            []
            budget
            exceeded
          ≡ outcome_of (apply_all graph ops s budget exceeded)
    unfolding validate_all apply_all into_header
    profile_run-erase [] h s budget exceeded = refl
    profile_run-erase (op ∷ ops) h s budget exceeded =
        rw (h.0, step-erase op s budget exceeded)
          (outcome_of-bind (apply_operation graph op s budget exceeded) erase_step
            (λ (s', b, x).
              validate_all read (headers_graph graph) false (map header_of ops) s' [] b x)
            (λ (s', b, x). apply_all graph ops s' b x)
            (λ (s', b, x). profile_run-erase ops h.1 s' b x))

    catalog_run-erase :
        (ops : List DomainOperation)
        → All Reads ops
        → (states : Map LogicalStoreId FoldState) (budget : ℕ) (exceeded : Bool)
        → validate_all read
            (headers_graph graph)
            true
            (map header_of ops)
            validation_state.default
            (erase_targets states)
            budget
            exceeded
          ≡ outcome_of (apply_all_catalogs graph ops states budget exceeded)
    unfolding validate_all apply_all_catalogs into_header
    catalog_run-erase [] h states budget exceeded = refl
    catalog_run-erase (op ∷ ops) h states budget exceeded =
        rw (h.0, catalog_step-erase op states budget exceeded)
          (outcome_of-bind (apply_catalog_operation graph op states budget exceeded)
            erase_targets_step
            (λ (m, b, x).
              validate_all read (headers_graph graph) true (map header_of ops)
                validation_state.default m b x)
            (λ (m, b, x). apply_all_catalogs graph ops m b x)
            (λ (m, b, x). catalog_run-erase ops h.1 m b x))

  -- a graph and then a test, with headers and with operations
  guarded_run-erase :
      {X : Type 0} (b : Bool) (made : Outcome CausalError (CausalGraph DomainOperation))
      (k : CausalGraph DomainOperationHeader → Outcome (FoldLoadError E) (Unit {0}))
      (l : CausalGraph DomainOperation → Outcome FoldError X)
      → ((graph : CausalGraph DomainOperation)
          → made ≡ ok graph
          → k (headers_graph graph) ≡ outcome_of (l graph))
      → (map_err (λ e. fold_failed (causal e)) (map_ok headers_graph made) >>= λ graph.
          require b (fold_failed wrong_entity) >> k graph)
        ≡ outcome_of (map_err causal made >>= λ graph. require b wrong_entity >> l graph)
  guarded_run-erase true (ok graph) k l agree = agree graph refl
  guarded_run-erase false (ok graph) k l agree = refl
  guarded_run-erase b (err e) k l agree = refl
  guarded_run-erase b fault k l agree = refl

  -- `validate_loaded_builtin_fold` after its first operation is looked at
  abbrev validate_as :
      Bool → Text → EntityId → List DomainOperationHeader → Outcome (FoldLoadError E) (Unit {0})
  validate_as is_catalog domain entity headers =
      map_err (λ e. fold_failed (causal e)) (new headers) >>= λ graph.
      require (all_headers_belong domain (some entity) headers) (fold_failed wrong_entity)
      >> validate_all read graph is_catalog graph.ordered validation_state.default []
          max_reachability_steps false

  module _ (ops : List DomainOperation) (entity : EntityId) (h : All Reads ops) where
    ordered-Reads :
        (graph : CausalGraph DomainOperation) → new ops ≡ ok graph → All Reads graph.ordered
    ordered-Reads graph built =
        All-Topological Reads ops h [] graph.ordered ((new-Topological ops graph built).0)

    profile-erase :
        (domain : Text)
        → validate_as false domain entity (map header_of ops)
          ≡ outcome_of (
              map_err causal (new ops) >>= λ graph.
              require (all_belong domain (some entity) ops) wrong_entity
              >> apply_all graph graph.ordered fold_state.default max_reachability_steps false)
    unfolding map_values
    profile-erase domain =
        rw
          (
            new-map header_of same_id same_parents ops,
            all_headers_belong-map domain (some entity) ops,
          )
          (guarded_run-erase (all_belong domain (some entity) ops) (new ops)
            (λ graph.
              validate_all read graph false graph.ordered validation_state.default []
                max_reachability_steps false)
            (λ graph. apply_all graph graph.ordered fold_state.default max_reachability_steps false)
            (λ graph built.
              profile_run-erase graph graph.ordered (ordered-Reads graph built) fold_state.default
                max_reachability_steps false))

    catalog-erase :
        validate_as true catalog_domain entity (map header_of ops)
        ≡ outcome_of (
            map_err causal (new ops) >>= λ graph.
            require (all_belong catalog_domain (some entity) ops) wrong_entity
            >> apply_all_catalogs graph graph.ordered [] max_reachability_steps false)
    unfolding map_values
    catalog-erase =
        rw
          (
            new-map header_of same_id same_parents ops,
            all_headers_belong-map catalog_domain (some entity) ops,
          )
          (guarded_run-erase (all_belong catalog_domain (some entity) ops) (new ops)
            (λ graph.
              validate_all read graph true graph.ordered validation_state.default []
                max_reachability_steps false)
            (λ graph. apply_all_catalogs graph graph.ordered [] max_reachability_steps false)
            (λ graph built.
              catalog_run-erase graph graph.ordered (ordered-Reads graph built) []
                max_reachability_steps false))

  -- Where the loader returns the operation of each header, the validation says what the full fold
  -- says: for the catalog the fold by targets, for every other domain the fold into one state.
  pub validate_loaded-fold :
      (first : DomainOperation) (rest : List DomainOperation)
      → All Reads (first ∷ rest)
      → validate_loaded_builtin_fold read (map header_of (first ∷ rest)) ≡ (
          if eqb first.domain catalog_domain
          then outcome_of (fold_targets (first ∷ rest))
          else outcome_of (fold (first ∷ rest) first.domain))
  unfolding validate_loaded_builtin_fold fold fold_targets into_header
  validate_loaded-fold first rest h = elim (Bool-cases (eqb first.domain catalog_domain)) [
    | inl e ↦
        let same : first.domain ≡ catalog_domain = same_of_eqb first.domain catalog_domain e in
        rw e (
          ap (λ d. validate_as true d first.entity_id (map header_of (first ∷ rest))) same
          ∙ catalog-erase (first ∷ rest) first.entity_id h)
    | inr e ↦ rw e (profile-erase (first ∷ rest) first.entity_id h first.domain)
  ]
