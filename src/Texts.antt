-- ===== src/Texts.antt =====
-- The operations of `str` and of byte slices that the parsers use. A text is the list of its bytes,
-- and every separator is ASCII, so that splitting bytes and splitting characters agree.
pub mod Lines
use wayjournal_build_attesta.Prelude.{
  ℕ, ◌≡◌, refl, Bool, true, false, ◌&&◌, Option, none, some, List, [], ◌∷◌, ◌++◌, arith, mem, ◌==◌,
  if◌then◌else◌, ap, Bool-cases, inl, inr, Option-cases, All, ◌∙◌,
}
use wayjournal_build_attesta.Ids.{Text}

-- the code of `/`
abbrev pub slash : ℕ
slash = 47

unfoldable pub same_bytes : Text → Text → Bool
same_bytes [] [] = true
same_bytes [] (c ∷ t) = false
same_bytes (b ∷ s) [] = false
same_bytes (b ∷ s) (c ∷ t) = (b == c) && same_bytes s t

-- `starts_with`
unfoldable pub starts_with : Text → Text → Bool
starts_with [] s = true
starts_with (p ∷ ps) [] = false
starts_with (p ∷ ps) (b ∷ s) = (p == b) && starts_with ps s

-- `split` by one byte: there is always a first part
unfoldable pub first_part : ℕ → Text → Text
first_part c [] = []
first_part c (b ∷ s) = let rest = first_part c s in if b == c then [] else b ∷ rest

unfoldable pub later_parts : ℕ → Text → List Text
unfolding first_part
later_parts c [] = []
later_parts c (b ∷ s) = let rest = later_parts c s in if b == c then first_part c s ∷ rest else rest

unfoldable pub split : ℕ → Text → List Text
unfolding later_parts
split c s = first_part c s ∷ later_parts c s

-- the parts with the byte between them
unfoldable pub joined_after : ℕ → List Text → Text
joined_after c [] = []
joined_after c (p ∷ ps) = c ∷ (p ++ joined_after c ps)

unfoldable pub join : ℕ → Text → List Text → Text
unfolding joined_after
join c p ps = p ++ joined_after c ps

-- Splitting loses nothing.
pub join-split : (c : ℕ) (s : Text) → join c (first_part c s) (later_parts c s) ≡ s
unfolding join first_part later_parts
join-split c [] = refl
join-split c (b ∷ s) = ground (arith, join-split c s)

first_part-append : (c : ℕ) (p rest : Text) → mem c p ≡ false → first_part c (p ++ c ∷ rest) ≡ p
unfolding first_part
first_part-append c [] rest h = ground arith
first_part-append c (b ∷ p) rest h = ground (arith, first_part-append c p rest)

first_part_self : (c : ℕ) (p : Text) → mem c p ≡ false → first_part c p ≡ p
unfolding first_part
first_part_self c [] h = refl
first_part_self c (b ∷ p) h = ground (arith, first_part_self c p)

later_parts-append :
    (c : ℕ) (p rest : Text)
    → mem c p ≡ false
    → later_parts c (p ++ c ∷ rest) ≡ first_part c rest ∷ later_parts c rest
unfolding later_parts
later_parts-append c [] rest h = ground arith
later_parts-append c (b ∷ p) rest h = ground (arith, later_parts-append c p rest)

later_parts_self : (c : ℕ) (p : Text) → mem c p ≡ false → later_parts c p ≡ []
unfolding later_parts
later_parts_self c [] h = refl
later_parts_self c (b ∷ p) h = ground (arith, later_parts_self c p)

append-nil : (p : Text) → p ++ [] ≡ p
append-nil [] = refl
append-nil (b ∷ p) = ap (λ q. b ∷ q) (append-nil p)

-- Parts without the byte are found again.
pub split-join :
    (c : ℕ) (p : Text) (ps : List Text)
    → mem c p ≡ false
    → All (λ q. mem c q ≡ false) ps
    → split c (join c p ps) ≡ p ∷ ps
unfolding split join joined_after
split-join c p [] h a = rw append-nil (
    ap (λ x. x ∷ later_parts c p) (first_part_self c p h)
    ∙ ap (λ l. p ∷ l) (later_parts_self c p h))
split-join c p (q ∷ ps) h a =
    ap (λ x. x ∷ later_parts c (p ++ c ∷ (q ++ joined_after c ps)))
      (first_part-append c p (q ++ joined_after c ps) h)
    ∙ ap (λ l. p ∷ l)
        (later_parts-append c p (q ++ joined_after c ps) h ∙ split-join c q ps a.0 a.1)

-- `strip_suffix`
unfoldable pub strip_suffix : Text → Text → Option Text
unfolding same_bytes
strip_suffix suffix [] = if same_bytes [] suffix then some [] else none
strip_suffix suffix (b ∷ s) =
    let rest = strip_suffix suffix s in
    if same_bytes (b ∷ s) suffix then some [] else elim rest [ none ↦ none | some t ↦ some (b ∷ t) ]

pub same_bytes-eq : (s t : Text) → same_bytes s t ≡ true → s ≡ t
unfolding same_bytes
same_bytes-eq [] [] h = refl
same_bytes-eq [] (c ∷ t) h = cc
same_bytes-eq (b ∷ s) [] h = cc
same_bytes-eq (b ∷ s) (c ∷ t) h = ground (arith, same_bytes-eq s t)

pub same_bytes_self : (s : Text) → same_bytes s s ≡ true
unfolding same_bytes
same_bytes_self [] = refl
same_bytes_self (b ∷ s) = ground (arith, same_bytes_self s)

-- What is left of a suffix makes the text again.
pub strip_suffix_lem : (suffix s t : Text) → strip_suffix suffix s ≡ some t → s ≡ t ++ suffix
unfolding strip_suffix
strip_suffix_lem suffix [] t h = ground (arith, same_bytes-eq [] suffix)
strip_suffix_lem suffix (b ∷ s) t h = elim (Bool-cases (same_bytes (b ∷ s) suffix)) [
  | inl same ↦
      let here : b ∷ s ≡ suffix = same_bytes-eq (b ∷ s) suffix same in ground (arith, h, same, here)
  | inr other ↦ elim (Option-cases (strip_suffix suffix s)) [
    | inl gone ↦ absurd (ground (arith, h, other, gone))
    | inr (u, found) ↦
        let later : s ≡ u ++ suffix = strip_suffix_lem suffix s u found in
        ground (arith, h, other, found, later)
  ]
]
