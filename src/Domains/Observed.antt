-- ===== src/Domains/Observed.antt =====
-- crates/wayjournal-core/src/domains.rs: `observed_ids` keeps the ancestors of an operation.
use wayjournal_build_attesta.Prelude.{
  ℕ, zero, suc, ◌≡◌, refl, Bool, true, false, List, [], ◌∷◌, arith, mem, ◌==◌, ◌↔◌, Bool-cases, inl,
  inr, if◌then◌else◌, subst, nat_ord, ◌++◌, reverse,
}
use wayjournal_build_attesta.Ids.{RecordId}
use wayjournal_build_attesta.Collections.Map.{Map}
use wayjournal_build_attesta.Collections.Set
use wayjournal_build_attesta.Causal.{
  CausalNode, CausalGraph, search_ancestors, observes_bounded, parents_of,
}
use wayjournal_build_attesta.Causal.Ancestry.{Ancestor}
use wayjournal_build_attesta.Causal.Observes.{observes_bounded_iff}
use wayjournal_build_attesta.Domains.Fold.{observed_ids}

module _ {ℓ} {T : Type ℓ} ⦃c : CausalNode T⦄ where
  search_exceeded :
      (by_id : Map RecordId T) (candidate : RecordId) (budget : ℕ) (pending visited : List RecordId)
      → (search_ancestors by_id candidate budget pending visited true).2 ≡ true
  unfolding search_ancestors
  search_exceeded by_id candidate budget [] visited = refl
  search_exceeded by_id candidate zero (current ∷ pending) visited = refl
  search_exceeded by_id candidate (suc budget) (current ∷ pending) visited =
      elim (Bool-cases (current == candidate)) [
        | inl same ↦ rw (same, search_ancestors)
        | inr other ↦
            rw (other, search_ancestors)
              (search_exceeded by_id candidate budget
                (if Set.contains current visited
                  then pending
                  else reverse (parents_of current by_id) ++ pending)
                (Set.insert current visited))
      ]

  module _ (graph : CausalGraph T) (id : RecordId) where
    observes_exceeded :
        (candidate : RecordId) (budget : ℕ)
        → (observes_bounded graph id candidate budget true).2 ≡ true
    unfolding observes_bounded
    observes_exceeded candidate budget =
        search_exceeded graph.by_id candidate budget (reverse (parents_of id graph.by_id)) []

    observed_exceeded :
        (ids : List RecordId) (budget : ℕ) (exceeded : Bool)
        → exceeded ≡ true
        → (observed_ids graph id ids budget exceeded).2 ≡ true
    unfolding observed_ids
    observed_exceeded [] budget exceeded e = e
    observed_exceeded (candidate ∷ ids) budget exceeded e =
        observed_exceeded ids (observes_bounded graph id candidate budget exceeded).1
          (observes_bounded graph id candidate budget exceeded).2
          (rw e (observes_exceeded candidate budget))

    observes_within_iff :
        (candidate : RecordId) (budget : ℕ) (exceeded : Bool)
        → (observes_bounded graph id candidate budget exceeded).2 ≡ false
        → ((observes_bounded graph id candidate budget exceeded).0 ≡ true)
          ↔ Ancestor graph.by_id id candidate
    observes_within_iff candidate budget true h =
        absurd (ground (arith, observes_exceeded candidate budget))
    observes_within_iff candidate budget false h = observes_bounded_iff graph id candidate budget h

    -- What a run that stays within its budget keeps: the given ids that are ancestors.
    pub observed_ids_iff :
        (ids : List RecordId) (budget : ℕ) (exceeded : Bool)
        → (observed_ids graph id ids budget exceeded).2 ≡ false
        → (i : RecordId)
        → (mem i (observed_ids graph id ids budget exceeded).0 ≡ true)
          ↔ ((mem i ids ≡ true) × Ancestor graph.by_id id i)
    unfolding observed_ids
    observed_ids_iff [] budget exceeded h i = (λ m. cc, λ (m, a). cc)
    observed_ids_iff (candidate ∷ ids) budget exceeded h i =
        let budget' = (observes_bounded graph id candidate budget exceeded).1 in
        let exceeded' = (observes_bounded graph id candidate budget exceeded).2 in
        let within : exceeded' ≡ false = elim (Bool-cases exceeded') [
          | inl e ↦ absurd (ground (arith, h, observed_exceeded ids budget' exceeded' e))
          | inr e ↦ e
        ] in
        let seen = observes_within_iff candidate budget exceeded within in
        let later = observed_ids_iff ids budget' exceeded' h i in
        let more = (observed_ids graph id ids budget' exceeded').0 in
        (
          λ m. elim (Bool-cases (mem i more)) [
            | inl e ↦ (ground (arith, later.0 e), (later.0 e).1)
            | inr e ↦
                let same : candidate ≡ i = ground (arith, m) in
                (
                  ground (arith, m),
                  subst (Ancestor graph.by_id id) same (seen.0 (ground (arith, m))),
                )
          ],
          λ (m, a). elim (Bool-cases (i == candidate)) [
            | inl e ↦
                let same : i ≡ candidate = ground arith in
                let there = seen.1 (subst (Ancestor graph.by_id id) same a) in ground (arith, there)
            | inr e ↦ let there = later.1 (ground (arith, m), a) in ground (arith, there)
          ],
        )
