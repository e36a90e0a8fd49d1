-- ===== src/Domains/WellFormed.antt =====
-- crates/wayjournal-core/src/domains.rs: the maps of a folded state are ordered, as the type
-- `BTreeMap` has them.
use wayjournal_build_attesta.Prelude.{
  ℕ, ◌≡◌, refl, Bool, false, Option, none, some, List, [], ◌∷◌, Ord, nat_ord, pair_ord, list_ord,
  Outcome, ok, err, fault, ◌>>◌, map_err, require, ok_parts, subst, sym, ap, Option-cases, inl, inr,
}
use wayjournal_build_attesta.Ids.{Text, RecordId}
use wayjournal_build_attesta.Collections.Map
use wayjournal_build_attesta.Collections.Map.{Map}
use wayjournal_build_attesta.Collections.Set.{IsOrdered}
use wayjournal_build_attesta.Collections.Keys.{
  insert-keys-IsOrdered, remove-keys-IsOrdered, AllValues, AllValues-insert, AllValues-get,
}
use wayjournal_build_attesta.Causal.{CausalGraph, CausalNode, new, max_reachability_steps}
use wayjournal_build_attesta.Domains.{
  ScalarField, SetField, ScalarValue, scalar_ord, set_ord, OperationKind, scalar_set,
  scalar_resolve, add, remove, DomainOperation, operation_causal,
}
use wayjournal_build_attesta.Domains.Fold.{
  causal, wrong_entity, invalid_resolution, invalid_observed_remove, FoldState, fold_state,
  entry_or, update_entry, observed_ids, remove_registers, remove_adds, apply_kind, apply_operation,
  ensure_reachability_budget, same_ids,
}
use wayjournal_build_attesta.Domains.Run.{fold, apply_all, all_belong, first_entity}
use wayjournal_build_attesta.Domains.Removal.{same_of_ok}

module _ {ℓ κ} {K : Type ℓ} {V : Type κ} ⦃o : Ord K⦄ where
  -- Both levels of a map of active values are ordered.
  abbrev pub Ordered : Map K (Map RecordId V) → Type ℓ
  Ordered m = IsOrdered (Map.keys m) × AllValues (λ inner. IsOrdered (Map.keys inner)) m

  entry_or-get :
      (k : K) (m : Map K (Map RecordId V)) (found : Option (Map RecordId V))
      → Map.get k m ≡ found
      → entry_or [] k m ≡ elim found [ none ↦ [] | some inner ↦ inner ]
  unfolding entry_or
  entry_or-get k m found e = ap (λ o. elim o [ none ↦ [] | some inner ↦ inner ]) e

  pub entry_or-IsOrdered :
      (k : K) (m : Map K (Map RecordId V)) → Ordered m → IsOrdered (Map.keys (entry_or [] k m))
  unfolding entry_or
  entry_or-IsOrdered k m h = elim (Option-cases (Map.get k m)) [
    | inl e ↦ subst (λ i. IsOrdered (Map.keys i)) (sym (entry_or-get k m none e)) tt
    | inr (inner, e) ↦
        subst (λ i. IsOrdered (Map.keys i)) (sym (entry_or-get k m (some inner) e))
          (AllValues-get (λ i. IsOrdered (Map.keys i)) k inner m h.1 e)
  ]

  put-Ordered :
      (k : K) (i : RecordId) (v : V) (m : Map K (Map RecordId V))
      → Ordered m
      → Ordered (Map.insert k (Map.insert i v (entry_or [] k m)) m)
  put-Ordered k i v m h = (
    insert-keys-IsOrdered k (Map.insert i v (entry_or [] k m)) m h.0,
    AllValues-insert (λ inner. IsOrdered (Map.keys inner)) k (Map.insert i v (entry_or [] k m)) m
        (insert-keys-IsOrdered i v (entry_or [] k m) (entry_or-IsOrdered k m h)) h.1,
  )

  remove_at-Ordered :
      (k : K) (i : RecordId) (m : Map K (Map RecordId V))
      → Ordered m
      → Ordered (update_entry (Map.remove i) k m)
  unfolding update_entry
  remove_at-Ordered k i m h = go (Map.get k m) refl
    where
      go :
          (found : Option (Map RecordId V))
          → Map.get k m ≡ found
          → Ordered (update_entry (Map.remove i) k m)
      go none e = rw (e, update_entry) h
      go (some inner) e =
          rw (e, update_entry)
            (
              insert-keys-IsOrdered k (Map.remove i inner) m h.0,
              AllValues-insert (λ j. IsOrdered (Map.keys j)) k (Map.remove i inner) m
                  (remove-keys-IsOrdered i inner
                    (AllValues-get (λ j. IsOrdered (Map.keys j)) k inner m h.1 e))
                  h.1,
            )

-- the ordered maps of a state
abbrev pub WellFormed : FoldState → Type 0
WellFormed s = Ordered s.registers × Ordered s.adds

remove_registers-WellFormed :
    (s : FoldState) (f : ScalarField) (ids : List RecordId)
    → WellFormed s
    → WellFormed (remove_registers s f ids)
unfolding remove_registers
remove_registers-WellFormed s f [] h = h
remove_registers-WellFormed s f (i ∷ ids) h =
    remove_registers-WellFormed (fold_state.remove_register s f i) f ids
      (remove_at-Ordered f i s.registers h.0, h.1)

remove_adds-WellFormed :
    (s : FoldState) (f : SetField) (k : Text) (ids : List RecordId)
    → WellFormed s
    → WellFormed (remove_adds s f k ids)
unfolding remove_adds
remove_adds-WellFormed s f k [] h = h
remove_adds-WellFormed s f k (i ∷ ids) h =
    remove_adds-WellFormed (fold_state.remove_add s f k i) f k ids
      (h.0, remove_at-Ordered (f, k) i s.adds h.1)

-- A run of two tests that succeeds ends in the result that stands after them.
after_tests :
    {E : Type 0} (first second : Outcome E (Unit {0})) (result after : FoldState × ℕ × Bool)
    → WellFormed result.0
    → (first >> (second >> ok result)) ≡ ok after
    → WellFormed after.0
after_tests (ok u) (ok w) result after h e =
    subst (λ r. WellFormed r.0) (same_of_ok result after e) h
after_tests (ok u) (err x) result after h e = cc
after_tests (ok u) fault result after h e = cc
after_tests (err x) second result after h e = cc
after_tests fault second result after h e = cc

ok_of_map_err {ℓ} :
    {E F : Type 0} {A : Type ℓ} (f : E → F) (m : Outcome E A) (a : A)
    → map_err f m ≡ ok a
    → m ≡ ok a
ok_of_map_err f (ok b) a e = ap ok (same_of_ok b a e)
ok_of_map_err f (err x) a e = cc
ok_of_map_err f fault a e = cc

module _ {T : Type 0} ⦃c : CausalNode T⦄ (graph : CausalGraph T) (id : RecordId) (s : FoldState)
    (h : WellFormed s) where
  replaced-WellFormed :
      (f : ScalarField) (v : ScalarValue) (ids : List RecordId)
      → WellFormed (fold_state.insert_register (remove_registers s f ids) f id v)
  replaced-WellFormed f v ids =
      let r = remove_registers-WellFormed s f ids h in
      (put-Ordered f id v (remove_registers s f ids).registers r.0, r.1)

  pub apply_kind-WellFormed :
      (kind : OperationKind) (budget : ℕ) (exceeded : Bool) (after : FoldState × ℕ × Bool)
      → apply_kind graph id kind s budget exceeded ≡ ok after
      → WellFormed after.0
  unfolding apply_kind
  apply_kind-WellFormed (scalar_set f v) budget exceeded after e =
      let run = observed_ids graph id (fold_state.register_ids s f) budget exceeded in
      after_tests (ensure_reachability_budget run.2) (ok tt)
        (fold_state.insert_register (remove_registers s f run.0) f id v, run.1, run.2) after
        (replaced-WellFormed f v run.0) e
  apply_kind-WellFormed (scalar_resolve f v ids) budget exceeded after e =
      let run = observed_ids graph id (fold_state.register_ids s f) budget exceeded in
      after_tests (ensure_reachability_budget run.2)
        (require (same_ids run.0 ids) (invalid_resolution id))
        (fold_state.insert_register (remove_registers s f ids) f id v, run.1, run.2) after
        (replaced-WellFormed f v ids) e
  apply_kind-WellFormed (add f k v) budget exceeded after e =
      after_tests (ok tt) (ok tt) (fold_state.insert_add s f k id v, budget, exceeded) after
        (h.0, put-Ordered (f, k) id v s.adds h.1) e
  apply_kind-WellFormed (remove f k ids) budget exceeded after e =
      let run = observed_ids graph id (fold_state.add_ids s f k) budget exceeded in
      after_tests (ensure_reachability_budget run.2)
        (require (same_ids run.0 ids) (invalid_observed_remove id))
        (remove_adds s f k ids, run.1, run.2) after (remove_adds-WellFormed s f k ids h) e

apply_all-WellFormed :
    (graph : CausalGraph DomainOperation) (ops : List DomainOperation) (s : FoldState) (budget : ℕ)
    (exceeded : Bool) (after : FoldState)
    → apply_all graph ops s budget exceeded ≡ ok after
    → WellFormed s
    → WellFormed after
unfolding apply_all apply_operation
apply_all-WellFormed graph [] s budget exceeded after e h =
    subst WellFormed (same_of_ok s after e) h
apply_all-WellFormed graph (op ∷ ops) s budget exceeded after e h =
    let (next, stepped, rest) =
      ok_parts (apply_kind graph op.record_id op.kind s budget exceeded)
        (λ (s', b, x). apply_all graph ops s' b x) e in
    apply_all-WellFormed graph ops next.0 next.1 next.2 after rest
      (apply_kind-WellFormed graph op.record_id s h op.kind budget exceeded next stepped)

-- what a successful fold went through: a graph, and the run over its order
pub fold_parts :
    (operations : List DomainOperation) (domain : Text) (state : FoldState)
    → fold operations domain ≡ ok state
    → (graph : CausalGraph DomainOperation) × (new operations ≡ ok graph)
      × (apply_all graph graph.ordered fold_state.default max_reachability_steps false ≡ ok state)
unfolding fold
fold_parts operations domain state e =
    let (graph, built, checked) =
      ok_parts (map_err causal (new operations))
        (λ g.
          require (all_belong domain (first_entity operations) operations) wrong_entity
          >> apply_all g g.ordered fold_state.default max_reachability_steps false)
        e in
    let (u, belong, ran) =
      ok_parts (require (all_belong domain (first_entity operations) operations) wrong_entity)
        (λ _. apply_all graph graph.ordered fold_state.default max_reachability_steps false)
        checked in
    (graph, ok_of_map_err causal (new operations) graph built, ran)

-- Every state that a fold returns has its maps in order.
pub fold-WellFormed :
    (operations : List DomainOperation) (domain : Text) (state : FoldState)
    → fold operations domain ≡ ok state
    → WellFormed state
fold-WellFormed operations domain state e =
    let (graph, built, ran) = fold_parts operations domain state e in
    apply_all-WellFormed graph graph.ordered fold_state.default max_reachability_steps false state
      ran ((tt, tt), (tt, tt))
