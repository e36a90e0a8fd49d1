-- ===== src/Revision/Order.antt =====
-- crates/wayjournal-core/src/revision.rs: the order in which entries are given does not count.
use Prim.Native.Nat.Ordering.{gt}
use wayjournal_build_attesta.Prelude.{
  ◌≡◌, refl, ap, sym, ◌∙◌, Bool, true, false, none, some, List, [], ◌∷◌, arith, Ord, nat_ord,
  list_ord, eqb, map, is_some, ◌⊎◌, inl, inr, err, Bool-cases, Option-cases, precedes, ◌>>=◌, ok,
}
use wayjournal_build_attesta.Ids.{Text, Digest}
use wayjournal_build_attesta.Collections.Sort.{insert_by, sort_by}
use wayjournal_build_attesta.Layout.{UuidCrate}
use wayjournal_build_attesta.Revision.{
  RevisionEntry, duplicate_path, cmp_paths, find_duplicate, push_entries, new_accumulator, finish,
  revision_of_sorted, compute_store_revision,
}

-- The same items in another order.
pub data Reordered {ℓ} {A : Type ℓ} : List A → List A → Type ℓ where
  none_left : Reordered [] []
  keep : {x : A} {s t : List A} → Reordered s t → Reordered (x ∷ s) (x ∷ t)
  exchange : {x y : A} {s : List A} → Reordered (x ∷ y ∷ s) (y ∷ x ∷ s)
  chain : {s t u : List A} → Reordered s t → Reordered t u → Reordered s u

abbrev path_ord : Ord Text
path_ord = list_ord

abbrev paths : List RevisionEntry → List Text
paths entries = map (λ e. e.path) entries

-- Insertion among paths alone.
paths-insert_by :
    (x : RevisionEntry) (s : List RevisionEntry)
    → paths (insert_by cmp_paths x s) ≡ insert_by path_ord.cmp x.path (paths s)
unfolding insert_by
paths-insert_by x [] = refl
paths-insert_by x (y ∷ s) = ground (arith, paths-insert_by x s)

-- Insertions commute where the order tells the items apart.
insert_by-commute {ℓ} :
    {K : Type ℓ} ⦃o : Ord K⦄ (a b : K) (s : List K)
    → insert_by o.cmp a (insert_by o.cmp b s) ≡ insert_by o.cmp b (insert_by o.cmp a s)
unfolding insert_by
insert_by-commute ⦃o⦄ a b [] = ground (arith, o.cmp_swapped a b, o.same_of_eq a b)
insert_by-commute ⦃o⦄ a b (c ∷ s) = ground (
  arith,
  insert_by-commute a b s,
  o.cmp_swapped a b,
  o.same_of_eq a b,
  o.chain a b c,
  o.chain b a c,
  o.cmp_swapped a c,
  o.cmp_swapped b c,
  o.same_of_eq a c,
  o.same_of_eq b c,
)

entries-commute :
    (x y : RevisionEntry) (s : List RevisionEntry)
    → eqb x.path y.path ≡ false
    → insert_by cmp_paths x (insert_by cmp_paths y s)
      ≡ insert_by cmp_paths y (insert_by cmp_paths x s)
unfolding insert_by
entries-commute x y [] d = ground (arith, d, path_ord.cmp_swapped x.path y.path)
entries-commute x y (z ∷ s) d = ground (
  arith,
  d,
  entries-commute x y s d,
  path_ord.cmp_swapped x.path y.path,
  path_ord.chain x.path y.path z.path,
  path_ord.chain y.path x.path z.path,
  path_ord.cmp_swapped x.path z.path,
  path_ord.cmp_swapped y.path z.path,
  path_ord.same_of_eq x.path z.path,
  path_ord.same_of_eq y.path z.path,
)

abbrev has_duplicate : List Text → Bool
has_duplicate ps = is_some (find_duplicate ps)

has_duplicate-cons :
    (p : Text) (ps : List Text) → has_duplicate ps ≡ true → has_duplicate (p ∷ ps) ≡ true
unfolding find_duplicate
has_duplicate-cons p [] h = cc
has_duplicate-cons p (q ∷ ps) h = ground (arith, h)

-- Insertion does not part a pair.
has_duplicate-insert_by :
    (p : Text) (ps : List Text)
    → has_duplicate ps ≡ true
    → has_duplicate (insert_by path_ord.cmp p ps) ≡ true
unfolding find_duplicate insert_by
has_duplicate-insert_by p [] h = cc
has_duplicate-insert_by p (q ∷ []) h = cc
has_duplicate-insert_by p (q ∷ r ∷ ps) h =
    ground (arith, h, has_duplicate-insert_by p (r ∷ ps), path_ord.same_of_eq q r)

insert_by-above :
    (p q : Text) (ps : List Text)
    → path_ord.cmp p q ≡ gt
    → insert_by path_ord.cmp p (q ∷ ps) ≡ q ∷ insert_by path_ord.cmp p ps
unfolding insert_by
insert_by-above p q ps h =
    ap (λ o. elim o [ gt ↦ q ∷ insert_by path_ord.cmp p ps | _ ↦ p ∷ q ∷ ps ]) h

has_duplicate-insert_twice :
    (p : Text) (ps : List Text)
    → has_duplicate (insert_by path_ord.cmp p (insert_by path_ord.cmp p ps)) ≡ true
unfolding find_duplicate insert_by
has_duplicate-insert_twice p [] = ground (arith, path_ord.cmp_self p)
has_duplicate-insert_twice p (q ∷ ps) = elim (Bool-cases (precedes q p)) [
  | inl above ↦
      let over : path_ord.cmp p q ≡ gt = ground (arith, above, path_ord.cmp_swapped q p) in
      ap (λ l. has_duplicate (insert_by path_ord.cmp p l)) (insert_by-above p q ps over)
      ∙ ap has_duplicate (insert_by-above p q (insert_by path_ord.cmp p ps) over)
      ∙ has_duplicate-cons q (insert_by path_ord.cmp p (insert_by path_ord.cmp p ps))
          (has_duplicate-insert_twice p ps)
  | inr below ↦ ground (arith, below, path_ord.cmp_self p, path_ord.cmp_swapped q p)
]

-- Sorted lists that agree: the same list, or both with a path twice, at the same paths.
abbrev Agree : List RevisionEntry → List RevisionEntry → Type 0
Agree s t = (paths s ≡ paths t) × ((has_duplicate (paths s) ≡ true) ⊎ (s ≡ t))

Agree-insert_by :
    (x : RevisionEntry) (s t : List RevisionEntry)
    → Agree s t
    → Agree (insert_by cmp_paths x s) (insert_by cmp_paths x t)
Agree-insert_by x s t (p, inl d) = (
  paths-insert_by x s ∙ ap (insert_by path_ord.cmp x.path) p ∙ sym (paths-insert_by x t),
  inl (ap has_duplicate (paths-insert_by x s) ∙ has_duplicate-insert_by x.path (paths s) d),
)
Agree-insert_by x s t (p, inr e) = (
  paths-insert_by x s ∙ ap (insert_by path_ord.cmp x.path) p ∙ sym (paths-insert_by x t),
  inr (ap (insert_by cmp_paths x) e),
)

Agree-exchange :
    (x y : RevisionEntry) (s : List RevisionEntry)
    → Agree
        (insert_by cmp_paths x (insert_by cmp_paths y s))
        (insert_by cmp_paths y (insert_by cmp_paths x s))
Agree-exchange x y s =
    let both : paths (insert_by cmp_paths x (insert_by cmp_paths y s))
        ≡ insert_by path_ord.cmp x.path (insert_by path_ord.cmp y.path (paths s)) =
      paths-insert_by x (insert_by cmp_paths y s)
      ∙ ap (insert_by path_ord.cmp x.path) (paths-insert_by y s) in
    let other : paths (insert_by cmp_paths y (insert_by cmp_paths x s))
        ≡ insert_by path_ord.cmp y.path (insert_by path_ord.cmp x.path (paths s)) =
      paths-insert_by y (insert_by cmp_paths x s)
      ∙ ap (insert_by path_ord.cmp y.path) (paths-insert_by x s) in
    (
      both ∙ insert_by-commute x.path y.path (paths s) ∙ sym other,
      elim (Bool-cases (eqb x.path y.path)) [
        | inl same ↦
            let here : x.path ≡ y.path = path_ord.same_of_eq x.path y.path (ground (arith, same)) in
            inl (
              ap has_duplicate both
              ∙ ap
                  (λ q.
                    has_duplicate
                      (insert_by path_ord.cmp x.path (insert_by path_ord.cmp q (paths s))))
                  (sym here)
              ∙ has_duplicate-insert_twice x.path (paths s))
        | inr different ↦ inr (entries-commute x y s different)
      ],
    )

Agree-chain : (s t u : List RevisionEntry) → Agree s t → Agree t u → Agree s u
Agree-chain s t u (p, inl d) (q, k) = (p ∙ q, inl d)
Agree-chain s t u (p, inr e) (q, inl d) = (p ∙ q, inl (ap has_duplicate p ∙ d))
Agree-chain s t u (p, inr e) (q, inr f) = (p ∙ q, inr (e ∙ f))

Agree-sort_by :
    {s t : List RevisionEntry} → Reordered s t → Agree (sort_by cmp_paths s) (sort_by cmp_paths t)
unfolding sort_by
Agree-sort_by none_left = (refl, inr refl)
Agree-sort_by (keep {x} {s} {t} r) =
    Agree-insert_by x (sort_by cmp_paths s) (sort_by cmp_paths t) (Agree-sort_by r)
Agree-sort_by (exchange {x} {y} {s}) = Agree-exchange x y (sort_by cmp_paths s)
Agree-sort_by (chain {s} {t} {u} r q) =
    Agree-chain (sort_by cmp_paths s) (sort_by cmp_paths t) (sort_by cmp_paths u) (Agree-sort_by r)
      (Agree-sort_by q)

module _ (uuid : UuidCrate) (blake3 : Text → Digest) where
  duplicate-revision :
      (s : List RevisionEntry) (path : Text)
      → find_duplicate (paths s) ≡ some path
      → revision_of_sorted uuid blake3 s ≡ err (duplicate_path path)
  unfolding revision_of_sorted
  duplicate-revision s path e =
      ap
        (λ found. elim found [
          | some path ↦ err (duplicate_path path)
          | none ↦ push_entries uuid new_accumulator s >>= λ accumulator.
              ok (finish uuid blake3 accumulator)
        ])
        e

  Agree-revision :
      (s t : List RevisionEntry)
      → Agree s t
      → revision_of_sorted uuid blake3 s ≡ revision_of_sorted uuid blake3 t
  Agree-revision s t (p, inr e) = ap (revision_of_sorted uuid blake3) e
  Agree-revision s t (p, inl d) = elim (Option-cases (find_duplicate (paths s))) [
    | inl gone ↦ absurd (ground (arith, d, gone))
    | inr (path, e) ↦
        duplicate-revision s path e
        ∙ sym (duplicate-revision t path (sym (ap find_duplicate p) ∙ e))
  ]

  -- The revision of a store does not depend on the order of the entries, and neither does the error
  -- where there is none.
  pub compute_store_revision-Reordered :
      (s t : List RevisionEntry)
      → Reordered s t
      → compute_store_revision uuid blake3 s ≡ compute_store_revision uuid blake3 t
  unfolding compute_store_revision
  compute_store_revision-Reordered s t r =
      Agree-revision (sort_by cmp_paths s) (sort_by cmp_paths t) (Agree-sort_by r)
