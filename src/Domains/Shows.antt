-- ===== src/Domains/Shows.antt =====
-- crates/wayjournal-core/src/domains.rs: what a profile and a catalog entry show of a folded state.
use wayjournal_build_attesta.Prelude.{
  All, if◌then◌else◌, eqb, Bool-cases, ℕ, ◌≡◌, refl, Bool, false, Option, none, some, List, [], ◌∷◌,
  arith, nat_ord, pair_ord, list_ord, Outcome, ok, err, ◌>>=◌, ok_parts, subst, sym, ap,
  Option-cases, ◌∙◌, inl, inr,
}
use wayjournal_build_attesta.Ids.{entity_ord}
use wayjournal_build_attesta.Collections.Map
use wayjournal_build_attesta.Collections.Map.{Map, get-insert}
use wayjournal_build_attesta.Domains.{ScalarField, SetField, scalar_ord, set_ord, DomainOperation}
use wayjournal_build_attesta.Domains.Fold.{FoldState, entry_or}
use wayjournal_build_attesta.Domains.Run.{fold, profile_domain}
use wayjournal_build_attesta.Domains.Removal.{same_of_ok}
use wayjournal_build_attesta.Domains.WellFormed.{WellFormed, fold-WellFormed}
use wayjournal_build_attesta.Capability.Checks.{same_of_require}
use wayjournal_build_attesta.Domains.Views.{
  AdvisoryProfile, profile_view, fold_profile, scalar_text, set_text, set_remote, set_qualified,
  locator_ord,
}
use wayjournal_build_attesta.Ids.{LogicalStoreId, store_ord}
use wayjournal_build_attesta.Collections.Keys.{AllValues, AllValues-insert, AllValues-get}
use wayjournal_build_attesta.Causal.{CausalGraph, new, max_reachability_steps}
use wayjournal_build_attesta.Domains.{operation_causal}
use wayjournal_build_attesta.Domains.Fold.{
  FoldError, causal, wrong_entity, wrong_target, fold_state, apply_kind, apply_operation,
  apply_catalog_operation,
}
use wayjournal_build_attesta.Domains.Run.{
  apply_all_catalogs, fold_targets, catalog_domain, first_entity, all_belong,
}
use wayjournal_build_attesta.Domains.WellFormed.{apply_kind-WellFormed}
use wayjournal_build_attesta.Domains.Views.{
  CatalogEntry, catalog_entry, catalog_entries, fold_catalogs, fold_catalog, first_target,
  other_target, entry_of, scalar_bool, scalar_store, set_relation, bool_ord, relation_ord,
}
use wayjournal_build_attesta.Prelude.{map_err, require, ◌>>◌}
use wayjournal_build_attesta.Domains.Reads.{ShowsRegister, ShowsValues, register_lem, values_lem}

-- what a profile shows of a state
abbrev pub ShowsProfile : FoldState → AdvisoryProfile → Type 0
ShowsProfile s p =
    ShowsRegister s ScalarField.display_name scalar_text p.display_name
    × ShowsRegister s ScalarField.description scalar_text p.description
    × ShowsRegister s ScalarField.application scalar_text p.application_identity
    × ShowsValues s SetField.remote set_remote p.recommended_remotes
    × ShowsValues s SetField.relation set_qualified p.store_relations
    × ShowsValues s SetField.capability set_text p.capability_hints
    × ShowsValues s SetField.alias set_text p.actor_aliases
    × ShowsValues s SetField.policy set_text p.advisory_policy_hints

-- A profile that was folded shows, in each of its fields, exactly the values that are active in the
-- folded state and that have the field's type, each once and in order.
pub fold_profile-Shows :
    (operations : List DomainOperation) (profile : AdvisoryProfile)
    → fold_profile operations ≡ ok profile
    → (s : FoldState) × (fold operations profile_domain ≡ ok s) × ShowsProfile s profile
unfolding fold_profile profile_view
fold_profile-Shows operations profile e =
    let (s, folded, made) =
      ok_parts (fold operations profile_domain) (λ s. ok (profile_view s)) e in
    let h = fold-WellFormed operations profile_domain s folded in
    (
      s,
      folded,
      subst (ShowsProfile s) (same_of_ok (profile_view s) profile made) (
        register_lem s h ScalarField.display_name scalar_text,
        register_lem s h ScalarField.description scalar_text,
        register_lem s h ScalarField.application scalar_text,
        values_lem s h SetField.remote set_remote,
        values_lem s h SetField.relation set_qualified,
        values_lem s h SetField.capability set_text,
        values_lem s h SetField.alias set_text,
        values_lem s h SetField.policy set_text,
      ),
    )

-- what a catalog entry shows of the state of its target
abbrev pub ShowsCatalog : FoldState → CatalogEntry → Type 0
ShowsCatalog s entry =
    ShowsRegister s ScalarField.entry_name scalar_text entry.entry_name
    × ShowsRegister s ScalarField.enabled scalar_bool entry.enabled
    × ShowsRegister s ScalarField.default_store scalar_store entry.contextual_default_store
    × ShowsValues s SetField.alias set_text entry.aliases
    × ShowsValues s SetField.remote set_remote entry.candidate_remotes
    × ShowsValues s SetField.group set_text entry.groups
    × ShowsValues s SetField.relation set_relation entry.store_relations

catalog_entry-Shows :
    (target : LogicalStoreId) (s : FoldState)
    → WellFormed s
    → ShowsCatalog s (catalog_entry target s)
unfolding catalog_entry
catalog_entry-Shows target s h = (
  register_lem s h ScalarField.entry_name scalar_text,
  register_lem s h ScalarField.enabled scalar_bool,
  register_lem s h ScalarField.default_store scalar_store,
  values_lem s h SetField.alias set_text,
  values_lem s h SetField.remote set_remote,
  values_lem s h SetField.group set_text,
  values_lem s h SetField.relation set_relation,
)

entry_or-WellFormed :
    (target : LogicalStoreId) (states : Map LogicalStoreId FoldState)
    → AllValues WellFormed states
    → WellFormed (entry_or fold_state.default target states)
unfolding entry_or
entry_or-WellFormed target states h = elim (Option-cases (Map.get target states)) [
  | inl e ↦ rw (e, entry_or) ((tt, tt), (tt, tt))
  | inr (s, e) ↦ rw (e, entry_or) (AllValues-get WellFormed target s states h e)
]

catalog_step-WellFormed :
    (graph : CausalGraph DomainOperation) (op : DomainOperation)
    (states : Map LogicalStoreId FoldState) (budget : ℕ) (exceeded : Bool)
    (after : Map LogicalStoreId FoldState × ℕ × Bool)
    → apply_catalog_operation graph op states budget exceeded ≡ ok after
    → AllValues WellFormed states
    → AllValues WellFormed after.0
unfolding apply_catalog_operation apply_operation
catalog_step-WellFormed graph op states budget exceeded after e h = go op.target e
  where
    go :
        (target : Option LogicalStoreId)
        → (elim target as (λ x. Outcome FoldError (Map LogicalStoreId FoldState × ℕ × Bool)) [
          | none ↦ err wrong_entity
          | some t ↦
              apply_kind graph op.record_id op.kind
                (entry_or fold_state.default t states)
                budget
                exceeded
              >>= λ (s, b, x). ok (Map.insert t s states, b, x)
        ])
          ≡ ok after
        → AllValues WellFormed after.0
    go none q = cc
    go (some t) q =
        let before = entry_or fold_state.default t states in
        let (next, stepped, put) =
          ok_parts (apply_kind graph op.record_id op.kind before budget exceeded)
            (λ (s, b, x). ok (Map.insert t s states, b, x)) q in
        let result : Map LogicalStoreId FoldState × ℕ × Bool =
          (Map.insert t next.0 states, next.1, next.2) in
        subst (λ r. AllValues WellFormed r.0) (same_of_ok result after put)
          (AllValues-insert WellFormed t next.0 states
            (apply_kind-WellFormed graph op.record_id before (entry_or-WellFormed t states h)
              op.kind budget exceeded next stepped)
            h)

apply_all_catalogs-WellFormed :
    (graph : CausalGraph DomainOperation) (ops : List DomainOperation)
    (states : Map LogicalStoreId FoldState) (budget : ℕ) (exceeded : Bool)
    (after : Map LogicalStoreId FoldState)
    → apply_all_catalogs graph ops states budget exceeded ≡ ok after
    → AllValues WellFormed states
    → AllValues WellFormed after
unfolding apply_all_catalogs apply_catalog_operation
apply_all_catalogs-WellFormed graph [] states budget exceeded after e h =
    subst (AllValues WellFormed) (same_of_ok states after e) h
apply_all_catalogs-WellFormed graph (op ∷ ops) states budget exceeded after e h =
    let (next, stepped, rest) =
      ok_parts (apply_catalog_operation graph op states budget exceeded)
        (λ (m, b, x). apply_all_catalogs graph ops m b x) e in
    apply_all_catalogs-WellFormed graph ops next.0 next.1 next.2 after rest
      (catalog_step-WellFormed graph op states budget exceeded next stepped h)

get-catalog_entries :
    (target : LogicalStoreId) (states : Map LogicalStoreId FoldState)
    → Map.get target (catalog_entries states)
      ≡ elim (Map.get target states) [ none ↦ none | some s ↦ some (catalog_entry target s) ]
unfolding catalog_entries Map.get
get-catalog_entries target [] = refl
get-catalog_entries target ((t, s) ∷ states) =
    ground (arith, get-catalog_entries target states, store_ord.same_of_eq t target)

entry_target : (target : LogicalStoreId) (s : FoldState) → (catalog_entry target s).target ≡ target
unfolding catalog_entry
entry_target target s = refl

fold_targets-WellFormed :
    (operations : List DomainOperation) (states : Map LogicalStoreId FoldState)
    → fold_targets operations ≡ ok states
    → AllValues WellFormed states
unfolding fold_targets
fold_targets-WellFormed operations states e =
    let (graph, built, checked) =
      ok_parts (map_err causal (new operations))
        (λ g.
          require (all_belong catalog_domain (first_entity operations) operations) wrong_entity
          >> apply_all_catalogs g g.ordered [] max_reachability_steps false)
        e in
    let (u, belong, ran) =
      ok_parts
        (require (all_belong catalog_domain (first_entity operations) operations) wrong_entity)
        (λ _. apply_all_catalogs graph graph.ordered [] max_reachability_steps false) checked in
    apply_all_catalogs-WellFormed graph graph.ordered [] max_reachability_steps false states ran tt

-- Where the catalog of many targets is folded, the entry of a target shows exactly what is active in
-- the folded state of that target; there is one for each such state, and no other.
pub fold_catalogs-Shows :
    (operations : List DomainOperation) (entries : Map LogicalStoreId CatalogEntry)
    → fold_catalogs operations ≡ ok entries
    → (states : Map LogicalStoreId FoldState) × (fold_targets operations ≡ ok states)
      × ((target : LogicalStoreId) → Map.get target states ≡ none → Map.get target entries ≡ none)
      × ((target : LogicalStoreId) (s : FoldState)
          → Map.get target states ≡ some s
          → (entry : CatalogEntry) × (Map.get target entries ≡ some entry)
            × (entry.target ≡ target)
            × ShowsCatalog s entry)
unfolding fold_catalogs
fold_catalogs-Shows operations entries e =
    let (states, folded, made) =
      ok_parts (fold_targets operations) (λ m. ok (catalog_entries m)) e in
    let h = fold_targets-WellFormed operations states folded in
    let same = same_of_ok (catalog_entries states) entries made in
    (
      states,
      folded,
      λ target absent.
          ap (Map.get target) (sym same)
          ∙ get-catalog_entries target states
          ∙ ap (λ o. elim o [ none ↦ none | some s ↦ some (catalog_entry target s) ]) absent,
      λ target s there. (
        catalog_entry target s,
        ap (Map.get target) (sym same)
            ∙ get-catalog_entries target states
            ∙ ap (λ o. elim o [ none ↦ none | some s ↦ some (catalog_entry target s) ]) there,
        entry_target target s,
        catalog_entry-Shows target s (AllValues-get WellFormed target s states h there),
      ),
    )

entry_of-some :
    (found : Option CatalogEntry) (entry : CatalogEntry)
    → entry_of found ≡ ok entry
    → found ≡ some entry
entry_of-some none entry e = cc
entry_of-some (some other) entry e = ap some (same_of_ok other entry e)

same_of_some {ℓ} : {A : Type ℓ} (a b : A) → some a ≡ some b → a ≡ b
same_of_some a b e = ap (λ o. elim o [ none ↦ a | some x ↦ x ]) e

-- Every operation that names a target names this one.
abbrev pub AllTarget : LogicalStoreId → List DomainOperation → Type 0
AllTarget target operations =
    All (λ op. (actual : LogicalStoreId) → op.target ≡ some actual → actual ≡ target) operations

-- The first operation names the entry's target, no operation names another one, and the entry is of the
-- state of that target among the states of all targets.
abbrev pub ShowsTarget : List DomainOperation → CatalogEntry → Type 0
ShowsTarget operations entry =
    ((op : DomainOperation) × (rest : List DomainOperation) × (operations ≡ op ∷ rest)
      × (op.target ≡ some entry.target))
    × AllTarget entry.target operations
    × ((states : Map LogicalStoreId FoldState) × (s : FoldState) × (fold_targets operations
          ≡ ok states)
        × (Map.get entry.target states ≡ some s)
        × ShowsCatalog s entry)

named_lem :
    (target : LogicalStoreId) (named rest : Option LogicalStoreId)
    → (elim named as (λ _. Option LogicalStoreId) [
      | none ↦ rest
      | some actual ↦ if eqb actual target then rest else some actual
    ])
      ≡ none
    → ((actual : LogicalStoreId) → named ≡ some actual → actual ≡ target) × (rest ≡ none)
named_lem target none rest h = (λ actual e. cc, h)
named_lem target (some found) rest h = elim (Bool-cases (eqb found target)) [
  | inl same ↦ (
    λ actual e. sym (same_of_some found actual e) ∙ same_of_require found target same,
    ground (arith, h, same),
  )
  | inr other ↦ absurd (ground (arith, h, other))
]

other_target-AllTarget :
    (target : LogicalStoreId) (operations : List DomainOperation)
    → other_target target operations ≡ none
    → AllTarget target operations
unfolding other_target
other_target-AllTarget target [] h = tt
other_target-AllTarget target (op ∷ ops) h =
    let (here, later) = named_lem target op.target (other_target target ops) h in
    (here, other_target-AllTarget target ops later)

first_target-some :
    (operations : List DomainOperation) (target : LogicalStoreId)
    → first_target operations ≡ some target
    → (op : DomainOperation) × (rest : List DomainOperation) × (operations ≡ op ∷ rest)
      × (op.target ≡ some target)
first_target-some [] target h = cc
first_target-some (op ∷ ops) target h = (op, ops, refl, h)

-- Where the catalog of one target is folded, the first operation names the entry's target, every
-- operation that names a target names this one, and the entry shows exactly what is active in the
-- folded state of the target.
pub fold_catalog-Shows :
    (operations : List DomainOperation) (entry : CatalogEntry)
    → fold_catalog operations ≡ ok entry
    → ShowsTarget operations entry
unfolding fold_catalog
fold_catalog-Shows operations entry e = go (first_target operations) refl e
  where
    single :
        (target : LogicalStoreId) (other : Option LogicalStoreId)
        → first_target operations ≡ some target
        → other_target target operations ≡ other
        → (elim other as (λ x. Outcome FoldError CatalogEntry) [
          | some actual ↦ err (wrong_target target actual)
          | none ↦ fold_catalogs operations >>= λ entries. entry_of (Map.get target entries)
        ])
          ≡ ok entry
        → ShowsTarget operations entry
    single target (some actual) f o q = cc
    single target none f o q =
        let (entries, folded, taken) =
          ok_parts (fold_catalogs operations) (λ entries. entry_of (Map.get target entries)) q in
        let (states, ran, absent, present) = fold_catalogs-Shows operations entries folded in
        let found = entry_of-some (Map.get target entries) entry taken in
        elim (Option-cases (Map.get target states)) [
          | inl none_there ↦
              let gone = absent target none_there in absurd (ground (arith, gone, found))
          | inr (s, there) ↦
              let (shown, at, own, shows) = present target s there in
              let same : shown ≡ entry = same_of_some shown entry (sym at ∙ found) in
              let here : target ≡ entry.target = sym own ∙ ap (λ x. x.target) same in
              (
                first_target-some operations entry.target (f ∙ ap some here),
                subst (λ t. AllTarget t operations) here
                    (other_target-AllTarget target operations o),
                (
                  states,
                  s,
                  ran,
                  subst (λ t. Map.get t states ≡ some s) here there,
                  subst (ShowsCatalog s) same shows,
                ),
              )
        ]

    go :
        (target : Option LogicalStoreId)
        → first_target operations ≡ target
        → (elim target as (λ x. Outcome FoldError CatalogEntry) [
          | none ↦ err wrong_entity
          | some t ↦ elim (other_target t operations) as (λ x. Outcome FoldError CatalogEntry) [
            | some actual ↦ err (wrong_target t actual)
            | none ↦ fold_catalogs operations >>= λ entries. entry_of (Map.get t entries)
          ]
        ])
          ≡ ok entry
        → ShowsTarget operations entry
    go none f q = cc
    go (some target) f q = single target (other_target target operations) f refl q
