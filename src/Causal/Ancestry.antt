-- ===== src/Causal/Ancestry.antt =====
-- crates/wayjournal-core/src/causal.rs: `observes` against the ancestor relation of the graph.
use mathlib.Core.List.{reverse-cons}
use wayjournal_build_attesta.Prelude.{
  ℕ, zero, suc, ◌≡◌, refl, Bool, true, ◌||◌, List, [], ◌∷◌, ◌++◌, arith, mem, mem-append, reverse,
  length, length-append, nat_ord, ◌==◌, Bool-cases, inl, inr,
}
use wayjournal_build_attesta.Ids.{RecordId}
use wayjournal_build_attesta.Collections.Map.{Map}
use wayjournal_build_attesta.Collections.Set
use wayjournal_build_attesta.Collections.Set.{contains-insert}
use wayjournal_build_attesta.Causal.{CausalNode, parents_of, search_ancestors}

pub mem-reverse : (a : ℕ) (xs : List ℕ) → mem a (reverse xs) ≡ mem a xs
mem-reverse a [] = refl
mem-reverse a (x ∷ xs) =
    rw reverse-cons (ground (arith, mem-append a (reverse xs) (x ∷ []), mem-reverse a xs))

pub length-reverse : (xs : List ℕ) → length (reverse xs) ≡ length xs
length-reverse [] = refl
length-reverse (x ∷ xs) =
    rw reverse-cons (omega (arith, length-append (reverse xs) (x ∷ []), length-reverse xs))

pub contains-eq-mem : (a : ℕ) (s : List ℕ) → Set.contains a s ≡ mem a s
unfolding Set.contains
contains-eq-mem a [] = refl
contains-eq-mem a (b ∷ s) = ground (arith, contains-eq-mem a s)

pub mem-insert : (a b : ℕ) (s : List ℕ) → mem b (Set.insert a s) ≡ ((a == b) || mem b s)
mem-insert a b s =
    ground (arith, contains-insert a b s, contains-eq-mem b s, contains-eq-mem b (Set.insert a s))

module _ {ℓ} {T : Type ℓ} ⦃c : CausalNode T⦄ where
  -- The ids that the parent links lead to from `observer`, in one step or more.
  pub data Ancestor (by_id : Map RecordId T) (observer : RecordId) : RecordId → Type ℓ where
    parent :
        {id : RecordId} → mem id (parents_of observer by_id) ≡ true → Ancestor by_id observer id
    further :
        {id above : RecordId}
        → Ancestor by_id observer id
        → mem above (parents_of id by_id) ≡ true
        → Ancestor by_id observer above

  module _ (by_id : Map RecordId T) (observer candidate : RecordId) where
    abbrev pub AllAncestors : List RecordId → Type ℓ
    AllAncestors pending = (a : RecordId) → mem a pending ≡ true → Ancestor by_id observer a

    expanded-AllAncestors :
        (current : RecordId) (pending : List RecordId)
        → AllAncestors (current ∷ pending)
        → AllAncestors (reverse (parents_of current by_id) ++ pending)
    expanded-AllAncestors current pending h a m = elim (Bool-cases (mem a pending)) [
      | inl old ↦ h a (ground arith)
      | inr new ↦ further (h current (ground arith)) (
          ground (
            arith,
            mem-append a (reverse (parents_of current by_id)) pending,
            mem-reverse a (parents_of current by_id),
          ))
    ]

    pub search_sound :
        (budget : ℕ) (pending visited : List RecordId) (exceeded : Bool)
        → AllAncestors pending
        → (search_ancestors by_id candidate budget pending visited exceeded).0 ≡ true
        → Ancestor by_id observer candidate
    unfolding search_ancestors
    search_sound budget [] visited exceeded h found = absurd (cc)
    search_sound zero (current ∷ pending) visited exceeded h found = absurd (cc)
    search_sound (suc budget) (current ∷ pending) visited exceeded h found =
        elim (Bool-cases (current == candidate)) [
          | inl same ↦ h candidate (ground arith)
          | inr other ↦ elim (Bool-cases (Set.contains current visited)) [
            | inl old ↦
                search_sound budget pending (Set.insert current visited) exceeded
                  (λ a m. h a (ground arith)) (rw (other, old, search_ancestors) at found)
            | inr new ↦
                search_sound budget (reverse (parents_of current by_id) ++ pending)
                  (Set.insert current visited) exceeded (expanded-AllAncestors current pending h)
                  (rw (other, new, search_ancestors) at found)
          ]
        ]
