-- ===== src/Domains/Steps.antt =====
-- crates/wayjournal-core/src/domains.rs: a step over a graph of headers, and over the states of all
-- targets, with the values left out.
use wayjournal_build_attesta.Prelude.{
  ℕ, ◌≡◌, refl, ap, sym, Bool, true, some, List, [], ◌∷◌, Ord, nat_ord, list_ord, pair_ord, eqb,
  Outcome, ok, err, fault, map_ok, map_err, ◌>>=◌, arith, if◌then◌else◌, Bool-cases, inl, inr, All,
  ◌==◌, subst,
}
use wayjournal_build_attesta.Ids.{RecordId, LogicalStoreId, store_ord}
use wayjournal_build_attesta.Collections.Map
use wayjournal_build_attesta.Collections.Map.{Map, map_values}
use wayjournal_build_attesta.Causal.{CausalNode, CausalGraph, observes_bounded}
use wayjournal_build_attesta.Causal.Index.{node_of}
use wayjournal_build_attesta.Causal.Drain.{Topological}
use wayjournal_build_attesta.Causal.Naturality.{map_graph, observes_bounded-map}
use wayjournal_build_attesta.Domains.{
  OperationKind, scalar_set, scalar_resolve, add, remove, operation_causal, header_causal,
}
use wayjournal_build_attesta.Domains.Fold.{
  FoldError, FoldAccumulator, FoldState, ValidationFoldState, fold_state, validation_state,
  entry_or, observed_ids, apply_kind,
}
use wayjournal_build_attesta.Domains.Run.{FoldLoadError, fold_failed}
use wayjournal_build_attesta.Domains.Erasure.{
  erase, erase_step, map_values-insert, entry_or-map_values,
}

pub same_of_eqb {ℓ} : {K : Type ℓ} ⦃o : Ord K⦄ (x y : K) → eqb x y ≡ true → x ≡ y
same_of_eqb ⦃o⦄ x y h = ground (arith, o.same_of_eq x y)

module _ {ℓ κ} {T : Type ℓ} ⦃c : CausalNode T⦄ (P : T → Type κ) where
  All-node_of :
      (nodes : List T)
      → All P nodes
      → (id : RecordId) (node : T) → node_of id nodes ≡ some node
      → P node
  All-node_of [] h id node e = cc
  All-node_of (first ∷ nodes) h id node e = elim (Bool-cases (c.record_id first == id)) [
    | inl same ↦ let here : first ≡ node = ground arith in subst P here h.0
    | inr other ↦ All-node_of nodes h.1 id node (ground arith)
  ]

  pub All-Topological :
      (nodes : List T)
      → All P nodes
      → (done : List RecordId) (out : List T) → Topological nodes done out
      → All P out
  All-Topological nodes h done [] t = tt
  All-Topological nodes h done (node ∷ out) t = (
    All-node_of nodes h (c.record_id node) node t.0,
    All-Topological nodes h (c.record_id node ∷ done) out t.3,
  )

module _ {ℓ κ} {T : Type ℓ} {U : Type κ} ⦃c : CausalNode T⦄ ⦃d : CausalNode U⦄ (f : T → U)
    (same_id : (x : T) → d.record_id (f x) ≡ c.record_id x)
    (same_parents : (x : T) → d.parents (f x) ≡ c.parents x) (graph : CausalGraph T) where
  pub observed_ids-map :
      (id : RecordId) (ids : List RecordId) (budget : ℕ) (exceeded : Bool)
      → observed_ids (map_graph f same_id same_parents graph) id ids budget exceeded
        ≡ observed_ids graph id ids budget exceeded
  unfolding observed_ids
  observed_ids-map id [] budget exceeded = refl
  observed_ids-map id (candidate ∷ ids) budget exceeded =
      let (seen, budget', exceeded') = observes_bounded graph id candidate budget exceeded in
      rw (observes_bounded-map f same_id same_parents graph id candidate budget exceeded) (
        ap
          (λ (more, budget'', exceeded'').
            (if seen then candidate ∷ more else more, budget'', exceeded''))
          (observed_ids-map id ids budget' exceeded'))

  module _ {S : Type 0} ⦃a : FoldAccumulator S⦄ where
    pub apply_kind-map :
        (id : RecordId) (kind : OperationKind) (s : S) (budget : ℕ) (exceeded : Bool)
        → apply_kind (map_graph f same_id same_parents graph) id kind s budget exceeded
          ≡ apply_kind graph id kind s budget exceeded
    unfolding apply_kind
    apply_kind-map id (scalar_set field value) s budget exceeded = rw observed_ids-map refl
    apply_kind-map id (scalar_resolve field value ids) s budget exceeded = rw observed_ids-map refl
    apply_kind-map id (add field key value) s budget exceeded = refl
    apply_kind-map id (remove field key ids) s budget exceeded = rw observed_ids-map refl

-- What a fold tells its caller when the state is dropped.
abbrev pub outcome_of {ℓ κ} :
    {E : Type ℓ} {A : Type κ} → Outcome FoldError A → Outcome (FoldLoadError E) (Unit {0})
outcome_of m = map_err fold_failed (map_ok (λ _. tt) m)

pub outcome_of-bind {ℓ κ κ' μ} :
    {E : Type ℓ} {A : Type κ} {A' : Type κ'} {B : Type μ} (m : Outcome FoldError A) (h : A → A')
    (k : A' → Outcome (FoldLoadError E) (Unit {0})) (l : A → Outcome FoldError B)
    → ((a : A) → k (h a) ≡ outcome_of (l a))
    → (map_err fold_failed (map_ok h m) >>= k) ≡ outcome_of (m >>= l)
outcome_of-bind (ok a) h k l agree = agree a
outcome_of-bind (err e) h k l agree = refl
outcome_of-bind fault h k l agree = refl

-- the ids of the states of every target
abbrev pub erase_targets : Map LogicalStoreId FoldState → Map LogicalStoreId ValidationFoldState
erase_targets states = map_values erase states

abbrev pub erase_targets_step :
    Map LogicalStoreId FoldState × ℕ × Bool → Map LogicalStoreId ValidationFoldState × ℕ × Bool
erase_targets_step (states, budget, exceeded) = (erase_targets states, budget, exceeded)

-- Where the step of one target's state agrees, so does the step of the map.
pub put-erase :
    (target : LogicalStoreId) (states : Map LogicalStoreId FoldState)
    (m : Outcome FoldError (FoldState × ℕ × Bool))
    → (map_ok erase_step m >>= λ (s, b, x). ok (Map.insert target s (erase_targets states), b, x))
      ≡ map_ok erase_targets_step (m >>= λ (s, b, x). ok (Map.insert target s states, b, x))
put-erase target states (ok (s, b, x)) =
    ap (λ m. ok (m, b, x)) (sym (map_values-insert erase target s states))
put-erase target states (err e) = refl
put-erase target states fault = refl

pub entry-erase :
    (target : LogicalStoreId) (states : Map LogicalStoreId FoldState)
    → entry_or validation_state.default target (erase_targets states)
      ≡ erase (entry_or fold_state.default target states)
unfolding map_values
entry-erase target states = entry_or-map_values erase fold_state.default target states
