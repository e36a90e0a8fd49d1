-- ===== src/Causal/Waiting.antt =====
-- crates/wayjournal-core/src/causal.rs: the parents that a node still waits for, once the ids `done`
-- have been popped, and the nodes that are left.
use wayjournal_build_attesta.Prelude.{
  ℕ, suc, ◌+◌, ◌<◌, ◌≡◌, refl, Bool, true, false, ◌&&◌, not, Option, none, some, List, [], ◌∷◌,
  arith, mem, Distinct, ◌==◌, if◌then◌else◌, length, Bool-cases, inl, inr,
}
use wayjournal_build_attesta.Ids.{RecordId}
use wayjournal_build_attesta.Causal.{CausalNode}
use wayjournal_build_attesta.Causal.Index.{ids, node_of}

-- the parents that were not popped yet
abbrev pub missing : List RecordId → List RecordId → ℕ
missing done [] = 0
missing done (p ∷ ps) = (if mem p done then 0 else 1) + missing done ps

missing-absent :
    (id : RecordId) (done ps : List RecordId)
    → mem id ps ≡ false
    → missing (id ∷ done) ps ≡ missing done ps
missing-absent id done [] h = refl
missing-absent id done (p ∷ ps) h = ground (arith, missing-absent id done ps)

-- A pop takes one parent out of each list that has it.
pub missing-cons :
    (id : RecordId) (done ps : List RecordId)
    → Distinct ps
    → mem id done ≡ false
    → missing (id ∷ done) ps + (if mem id ps then 1 else 0) ≡ missing done ps
missing-cons id done [] d h = refl
missing-cons id done (p ∷ ps) d h =
    ground (arith, missing-cons id done ps, missing-absent id done ps)

pub missing_pos :
    (p : RecordId) (done ps : List RecordId)
    → mem p ps ≡ true
    → mem p done ≡ false
    → 0 < missing done ps
missing_pos p done [] m h = cc
missing_pos p done (q ∷ ps) m h = ground (arith, missing_pos p done ps)

-- Where parents are missing, there is one.
pub missing_witness :
    (done ps : List RecordId)
    → 0 < missing done ps
    → (p : RecordId) × (mem p ps ≡ true) × (mem p done ≡ false)
missing_witness done [] h = absurd (omega arith)
missing_witness done (p ∷ ps) h = go (mem p done) refl (missing_witness done ps)
  where
    go :
        (b : Bool)
        → mem p done ≡ b
        → (0 < missing done ps → (q : RecordId) × (mem q ps ≡ true) × (mem q done ≡ false))
        → (q : RecordId) × (mem q (p ∷ ps) ≡ true) × (mem q done ≡ false)
    go true e ih = let (q, m, n) = ih (ground (arith, e, h)) in (q, ground (arith, m), n)
    go false e ih = (p, ground arith, e)

module _ {ℓ} {T : Type ℓ} ⦃c : CausalNode T⦄ where
  -- the count of a node, by what the list of nodes has at its id
  abbrev pub missing_of : List RecordId → Option T → Option ℕ
  missing_of done none = none
  missing_of done (some node) = some (missing done (c.parents node))

  -- not popped, and no parent is missing
  abbrev pub is_ready : List RecordId → RecordId → Option T → Bool
  is_ready done id none = false
  is_ready done id (some node) = not (mem id done) && (missing done (c.parents node) == 0)

  -- the nodes that were not popped
  abbrev pub left : List RecordId → List T → ℕ
  left done [] = 0
  left done (node ∷ nodes) = (if mem (c.record_id node) done then 0 else 1) + left done nodes

  left-absent :
      (id : RecordId) (done : List RecordId) (nodes : List T)
      → mem id (ids nodes) ≡ false
      → left (id ∷ done) nodes ≡ left done nodes
  left-absent id done [] h = refl
  left-absent id done (node ∷ nodes) h = ground (arith, left-absent id done nodes)

  pub left-cons :
      (id : RecordId) (done : List RecordId) (nodes : List T) (found : T)
      → Distinct (ids nodes)
      → node_of id nodes ≡ some found
      → mem id done ≡ false
      → suc (left (id ∷ done) nodes) ≡ left done nodes
  left-cons id done [] found d e h = cc
  left-cons id done (node ∷ nodes) found d e h = elim (Bool-cases (c.record_id node == id)) [
    | inl same ↦ ground (arith, left-absent id done nodes)
    | inr other ↦ ground (arith, left-cons id done nodes found d.1 (ground arith) h)
  ]

  pub left-none : (nodes : List T) → left [] nodes ≡ length nodes
  left-none [] = refl
  left-none (node ∷ nodes) = omega (arith, left-none nodes)

  -- Where none is left, every node was popped.
  pub mem_of_left_zero :
      (done : List RecordId) (nodes : List T) (id : RecordId)
      → left done nodes ≡ 0
      → mem id (ids nodes) ≡ true
      → mem id done ≡ true
  mem_of_left_zero done [] id h m = cc
  mem_of_left_zero done (node ∷ nodes) id h m = ground (arith, mem_of_left_zero done nodes id)

  -- Where every node was popped, none is left.
  pub left_zero_of_mem :
      (done : List RecordId) (nodes : List T)
      → ((id : RecordId) → mem id (ids nodes) ≡ true → mem id done ≡ true)
      → left done nodes ≡ 0
  left_zero_of_mem done [] h = refl
  left_zero_of_mem done (node ∷ nodes) h =
      ground
        (arith, h (c.record_id node), left_zero_of_mem done nodes (λ id m. h id (ground arith)))
