-- ===== src/Domains/Antichain.antt =====
-- crates/wayjournal-core/src/domains.rs: the active values of a field are concurrent.
use wayjournal_build_attesta.Prelude.{
  ℕ, ◌≡◌, ◌≢◌, Bool, true, false, none, some, List, [], ◌∷◌, arith, mem, nat_ord, ◌==◌, ok,
  ok_parts, subst, sym, ap, ◌∙◌, Bool-cases, inl, inr, eqb,
}
use wayjournal_build_attesta.Ids.{Text, RecordId}
use wayjournal_build_attesta.Collections.Map
use wayjournal_build_attesta.Collections.Map.{Map}
use wayjournal_build_attesta.Causal.{
  CausalNode, CausalGraph, new, parents_of, max_reachability_steps,
}
use wayjournal_build_attesta.Causal.Ancestry.{Ancestor, parent, further}
use wayjournal_build_attesta.Causal.Index.{node_of}
use wayjournal_build_attesta.Causal.Drain.{Topological}
use wayjournal_build_attesta.Causal.Rank.{mem_of_missing, new-Topological}
use wayjournal_build_attesta.Causal.Order.{new-IsBuilt}
use wayjournal_build_attesta.Domains.{
  ScalarField, ScalarValue, scalar_ord, OperationKind, scalar_set, scalar_resolve, add, remove,
  DomainOperation, operation_causal,
}
use wayjournal_build_attesta.Domains.Fold.{
  entry_or, FoldState, fold_state, apply_kind, apply_operation,
}
use wayjournal_build_attesta.Domains.Run.{apply_all, fold}
use wayjournal_build_attesta.Domains.Entries.{active_at}
use wayjournal_build_attesta.Domains.Removal.{same_of_ok}
use wayjournal_build_attesta.Domains.Effect.{Effect, Clears, apply_kind-Effect}
use wayjournal_build_attesta.Domains.WellFormed.{fold_parts}

apart : (f g : ScalarField) → eqb f g ≡ false → f ≢ g
apart f g different e = ground (arith, different, e, scalar_ord.cmp_self g)

none_active : (f : ScalarField) (i : RecordId) (v : ScalarValue) → ¬ (active_at f i [] ≡ some v)
unfolding entry_or Map.get
none_active f i v e = cc

module _ {T : Type 0} ⦃c : CausalNode T⦄ (by_id : Map RecordId T) where
  -- With each id, the list has its parents.
  abbrev Closed : List RecordId → Type 0
  Closed done =
      (i p : RecordId) → mem i done ≡ true → mem p (parents_of i by_id) ≡ true → mem p done ≡ true

  Ancestor-done :
      (done : List RecordId) (i j : RecordId)
      → Closed done
      → ((p : RecordId) → mem p (parents_of i by_id) ≡ true → mem p done ≡ true)
      → Ancestor by_id i j
      → mem j done ≡ true
  Ancestor-done done i j closed below (parent m) = below j m
  Ancestor-done done i j closed below (further {id} a m) =
      closed id j (Ancestor-done done i id closed below a) m

  -- The invariant of the fold: what is active has been applied, and sees no other active value of
  -- its field.
  pub record IsAntichain (done : List RecordId) (s : FoldState) : Type 0 where
    pub closed : Closed done
    pub applied :
        (f : ScalarField) (i : RecordId) (v : ScalarValue)
        → active_at f i s.registers ≡ some v
        → mem i done ≡ true
    pub concurrent :
        (f : ScalarField) (i j : RecordId) (v w : ScalarValue)
        → active_at f i s.registers ≡ some v
        → active_at f j s.registers ≡ some w
        → ¬ Ancestor by_id i j

  module _ (done : List RecordId) (id : RecordId) (fresh : mem id done ≡ false)
      (below : (p : RecordId) → mem p (parents_of id by_id) ≡ true → mem p done ≡ true) where
    Closed-cons : Closed done → Closed (id ∷ done)
    Closed-cons closed i p m n = elim (Bool-cases (i == id)) [
      | inl same ↦
          let here : i ≡ id = ground arith in
          ground (arith, below p (subst (λ x. mem p (parents_of x by_id) ≡ true) here n))
      | inr other ↦ ground (arith, closed i p (ground (arith, m, other)) n)
    ]

    module _ (s s' : FoldState) (h : IsAntichain done s) where
      -- A step that leaves the registers alone.
      kept-IsAntichain : s'.registers ≡ s.registers → IsAntichain (id ∷ done) s'
      kept-IsAntichain same = record {
        closed = Closed-cons h.closed;
        applied = λ f i v e.
            ground (arith, h.applied f i v (subst (λ r. active_at f i r ≡ some v) same e));
        concurrent = λ f i j v w e e'.
            h.concurrent f i j v w (subst (λ r. active_at f i r ≡ some v) same e)
              (subst (λ r. active_at f j r ≡ some w) same e');
      }

      module _ (g : ScalarField) (clears : Clears by_id id g s.registers s'.registers) where
        -- A value that is not the new one was there before, and was not observed.
        survivor :
            (i : RecordId) (v : ScalarValue)
            → i ≢ id
            → active_at g i s'.registers ≡ some v
            → (¬ Ancestor by_id id i) × (active_at g i s.registers ≡ some v)
        survivor i v other e =
            let unseen : ¬ Ancestor by_id id i = λ a. let gone = clears.0 i other a in cc in
            (unseen, sym (clears.1 i other unseen) ∙ e)

        own_applied :
            (i : RecordId) (v : ScalarValue)
            → active_at g i s'.registers ≡ some v
            → mem i (id ∷ done) ≡ true
        own_applied i v e = elim (Bool-cases (i == id)) [
          | inl same ↦ ground (arith, same)
          | inr other ↦ ground (arith, h.applied g i v (survivor i v (λ q. ground (arith, q)) e).1)
        ]

        own_concurrent :
            (i j : RecordId) (v w : ScalarValue)
            → active_at g i s'.registers ≡ some v
            → active_at g j s'.registers ≡ some w
            → ¬ Ancestor by_id i j
        own_concurrent i j v w e e' a = elim (Bool-cases (i == id)) [
          | inl at_id ↦
              let here : i ≡ id = ground arith in
              let seen : Ancestor by_id id j = subst (λ x. Ancestor by_id x j) here a in
              elim (Bool-cases (j == id)) [
                | inl also ↦
                    let there = Ancestor-done done id j h.closed below seen in
                    absurd (ground (arith, there, fresh))
                | inr other ↦ (survivor j w (λ q. ground (arith, q)) e').0 seen
              ]
          | inr not_id ↦
              let (unseen, was) = survivor i v (λ q. ground (arith, q)) e in
              elim (Bool-cases (j == id)) [
                | inl also ↦
                    let there =
                      Ancestor-done done i j h.closed (λ p. h.closed i p (h.applied g i v was)) a in
                    absurd (ground (arith, there, fresh))
                | inr other ↦
                    h.concurrent g i j v w was (survivor j w (λ q. ground (arith, q)) e').1 a
              ]
        ]

        -- A step that sets a value, or resolves a field.
        set-IsAntichain : IsAntichain (id ∷ done) s'
        set-IsAntichain = record {
          closed = Closed-cons h.closed;
          applied = λ f i v e. elim (Bool-cases (eqb f g)) [
            | inl same ↦
                let here : f ≡ g = scalar_ord.same_of_eq f g (ground (arith, same)) in
                own_applied i v (subst (λ x. active_at x i s'.registers ≡ some v) here e)
            | inr different ↦
                let frame = clears.2 f i (apart f g different) in
                ground (arith, h.applied f i v (sym frame ∙ e))
          ];
          concurrent = λ f i j v w e e'. elim (Bool-cases (eqb f g)) [
            | inl same ↦
                let here : f ≡ g = scalar_ord.same_of_eq f g (ground (arith, same)) in
                own_concurrent i j v w (subst (λ x. active_at x i s'.registers ≡ some v) here e)
                  (subst (λ x. active_at x j s'.registers ≡ some w) here e')
            | inr different ↦
                h.concurrent f i j v w (sym (clears.2 f i (apart f g different)) ∙ e)
                  (sym (clears.2 f j (apart f g different)) ∙ e')
          ];
        }

      step-IsAntichain :
          (kind : OperationKind) → Effect by_id id s s' kind → IsAntichain (id ∷ done) s'
      step-IsAntichain (scalar_set f v) e = set-IsAntichain f e.1
      step-IsAntichain (scalar_resolve f v ids) e = set-IsAntichain f e.1
      step-IsAntichain (add f k v) e = kept-IsAntichain e.3
      step-IsAntichain (remove f k ids) e = kept-IsAntichain e.3

module _ (nodes : List DomainOperation) (graph : CausalGraph DomainOperation)
    (built : new nodes ≡ ok graph) where
  parents_of-node :
      (op : DomainOperation)
      → node_of op.record_id nodes ≡ some op
      → parents_of op.record_id graph.by_id ≡ op.parents
  unfolding parents_of Map.get
  parents_of-node op here =
      ap (λ found. elim found [ none ↦ [] | some node ↦ node.parents ])
        ((new-IsBuilt nodes graph built).indexed.at_id op.record_id ∙ here)

  apply_all-IsAntichain :
      (done : List RecordId) (ops : List DomainOperation)
      → Topological nodes done ops
      → (s after : FoldState) (budget : ℕ) (exceeded : Bool)
      → apply_all graph ops s budget exceeded ≡ ok after
      → IsAntichain graph.by_id done s
      → (all : List RecordId) × IsAntichain graph.by_id all after
  unfolding apply_all apply_operation
  apply_all-IsAntichain done [] t s after budget exceeded e h =
      (done, subst (IsAntichain graph.by_id done) (same_of_ok s after e) h)
  apply_all-IsAntichain done (op ∷ ops) t s after budget exceeded e h =
      let (next, stepped, rest) =
        ok_parts (apply_kind graph op.record_id op.kind s budget exceeded)
          (λ (s', b, x). apply_all graph ops s' b x) e in
      let below : (p : RecordId)
          → mem p (parents_of op.record_id graph.by_id) ≡ true
          → mem p done ≡ true =
        λ p m.
          mem_of_missing p done op.parents t.2
            (subst (λ l. mem p l ≡ true) (parents_of-node op t.0) m) in
      apply_all-IsAntichain (op.record_id ∷ done) ops t.3 next.0 after next.1 next.2 rest (
        step-IsAntichain graph.by_id done op.record_id t.1 below s next.0 h op.kind
          (apply_kind-Effect graph op.record_id s op.kind budget exceeded next stepped))

-- In the state that a fold returns, no active value of a field has observed another one of it: what
-- is left are concurrent values.
pub fold-Concurrent :
    (operations : List DomainOperation) (domain : Text) (state : FoldState)
    → fold operations domain ≡ ok state
    → (graph : CausalGraph DomainOperation) × (new operations ≡ ok graph)
      × ((f : ScalarField) (i j : RecordId) (v w : ScalarValue)
          → active_at f i state.registers ≡ some v
          → active_at f j state.registers ≡ some w
          → ¬ Ancestor graph.by_id i j)
fold-Concurrent operations domain state e =
    let (graph, built, ran) = fold_parts operations domain state e in
    let (all, antichain) =
      apply_all-IsAntichain operations graph built [] graph.ordered
        (new-Topological operations graph built).0 fold_state.default state max_reachability_steps
        false ran
        (record {
          closed = λ i p m n. cc;
          applied = λ f i v q. absurd (none_active f i v q);
          concurrent = λ f i j v w q r a. absurd (none_active f i v q);
        }) in
    (graph, built, antichain.concurrent)
