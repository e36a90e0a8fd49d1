-- ===== src/Causal/Release.antt =====
-- crates/wayjournal-core/src/causal.rs: the inner loop of `CausalGraph::new`, and the map of
-- children that it reads.
use wayjournal_build_attesta.Prelude.{
  ℕ, zero, suc, ◌-◌, ◌<◌, ◌≡◌, refl, Bool, true, false, ◌||◌, ◌&&◌, Option, none, some, List, [],
  ◌∷◌, arith, mem, Distinct, nat_ord, ◌==◌, if◌then◌else◌, ok,
}
use wayjournal_build_attesta.Ids.{RecordId}
use wayjournal_build_attesta.Collections.Map
use wayjournal_build_attesta.Collections.Map.{Map, map_values, get-insert}
use wayjournal_build_attesta.Collections.Set
use wayjournal_build_attesta.Collections.Set.{IsOrdered, insert-IsOrdered}
use wayjournal_build_attesta.Causal.{release}
use wayjournal_build_attesta.Causal.Ancestry.{mem-insert}

-- `Option::map` of the decrement
abbrev pub decrement_if : Bool → Option ℕ → Option ℕ
decrement_if true (some n) = some (n - 1)
decrement_if _ count = count

abbrev pub counts_one : Option ℕ → Bool
counts_one (some n) = n == 1
counts_one none = false

-- What the inner loop does to the counts and to the ready ids, where each child's count is positive.
pub record IsReleased (children ready : List RecordId) (indegree : Map RecordId ℕ)
    (ready' : List RecordId) (indegree' : Map RecordId ℕ) : Type 0 where
  pub counts :
      (j : RecordId) → Map.get j indegree' ≡ decrement_if (mem j children) (Map.get j indegree)
  pub joined :
      (j : RecordId)
      → mem j ready' ≡ (mem j ready || (mem j children && counts_one (Map.get j indegree)))
  pub ordered : IsOrdered ready'

abbrev pub Positive : List RecordId → Map RecordId ℕ → Type 0
Positive children indegree =
    (j : RecordId) (n : ℕ) → mem j children ≡ true → Map.get j indegree ≡ some n → 0 < n

-- The inner loop ends, with no underflow, and does this.
abbrev pub Released : List RecordId → List RecordId → Map RecordId ℕ → Type 0
Released children ready indegree =
    (ready' : List RecordId) × (indegree' : Map RecordId ℕ) × (release children ready indegree
      ≡ ok (ready', indegree'))
    × IsReleased children ready indegree ready' indegree'

module _ (child : RecordId) (rest ready : List RecordId) (indegree : Map RecordId ℕ)
    (fresh : mem child rest ≡ false) where
  -- The child has no count: it is passed over.
  release_absent :
      Map.get child indegree ≡ none
      → Released rest ready indegree
      → Released (child ∷ rest) ready indegree
  unfolding release
  release_absent e (r, i, runs, s) = (
    r,
    i,
    rw (e, release) runs,
    record {
      counts = λ j. ground (arith, s.counts j);
      joined = λ j. ground (arith, s.joined j);
      ordered = s.ordered;
    },
  )

  abbrev next_ready : ℕ → List RecordId
  next_ready left = if left == 0 then Set.insert child ready else ready

  release_present :
      (left : ℕ)
      → Map.get child indegree ≡ some (suc left)
      → Released rest (next_ready left) (Map.insert child left indegree)
      → Released (child ∷ rest) ready indegree
  unfolding release
  release_present left e (r, i, runs, s) = (
    r,
    i,
    rw (e, release) runs,
    record {
      counts = λ j. ground (arith, s.counts j, get-insert child j left indegree);
      joined = λ j.
          ground (arith, s.joined j, get-insert child j left indegree, mem-insert child j ready);
      ordered = s.ordered;
    },
  )

pub release_lem :
    (children ready : List RecordId) (indegree : Map RecordId ℕ)
    → Distinct children
    → IsOrdered ready
    → Positive children indegree
    → Released children ready indegree
unfolding release
release_lem [] ready indegree d o p =
    (ready, indegree, refl, record { counts = λ j. refl; joined = λ j. ground arith; ordered = o })
release_lem (child ∷ rest) ready indegree d o p =
    go (Map.get child indegree) refl (release_lem rest)
  where
    go :
        (count : Option ℕ)
        → Map.get child indegree ≡ count
        → ((ready : List RecordId) (indegree : Map RecordId ℕ)
            → Distinct rest
            → IsOrdered ready
            → Positive rest indegree
            → Released rest ready indegree)
        → Released (child ∷ rest) ready indegree
    go none e ih =
        release_absent child rest ready indegree d.0 e
          (ih ready indegree d.1 o (λ j n m. p j n (ground arith)))
    go (some zero) e ih = absurd (omega (arith, p child 0 (ground arith) e))
    go (some (suc left)) e ih = release_present child rest ready indegree d.0 left e (
        ih (next_ready child rest ready indegree d.0 left) (Map.insert child left indegree) d.1
          (ground (arith, insert-IsOrdered child ready))
          (λ j n m q. p j n (ground arith) (ground (arith, get-insert child j left indegree, q))))
