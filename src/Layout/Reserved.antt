-- ===== src/Layout/Reserved.antt =====
-- crates/wayjournal-core/src/layout.rs: a path is canonical or refused where it lies under a reserved
-- root, and left alone elsewhere.
use wayjournal_build_attesta.Prelude.{
  ◌≡◌, ◌≢◌, ◌↔◌, ◌++◌, refl, Bool, true, false, not, ◌||◌, [], ◌∷◌, arith, if◌then◌else◌, subst,
}
use wayjournal_build_attesta.Ids.{Text, ascii}
use wayjournal_build_attesta.Texts.{same_bytes, starts_with}
use wayjournal_build_attesta.Layout.{
  UuidCrate, PathClass, non_canonical, invalid_reserved, legacy_event, legacy_batch, journal_record,
  journal_batch, is_utf8, reserved_prefix_bytes, classify_path, valid_legacy_event,
  valid_legacy_batch, valid_journal_record, valid_journal_batch,
}

starts_with-append : (p q s : Text) → starts_with p s ≡ false → starts_with (p ++ q) s ≡ false
unfolding starts_with
starts_with-append [] q s h = cc
starts_with-append (b ∷ p) q [] h = refl
starts_with-append (b ∷ p) q (c ∷ s) h = ground (arith, starts_with-append p q s)

-- what is chosen under a reserved root
abbrev IsReserved : PathClass → Type 0
IsReserved class = class ≢ non_canonical

chosen :
    (b : Bool) (c d : PathClass) → IsReserved c → IsReserved d → IsReserved (if b then c else d)
chosen true c d h k = h
chosen false c d h k = k

-- A root as a directory, as a file, and what is left for the other roots.
root_iff :
    (inside itself others : Bool) (class rest : PathClass)
    → IsReserved class
    → (rest ≡ non_canonical) ↔ (others ≡ false)
    → ((if inside then class else if itself then invalid_reserved else rest) ≡ non_canonical)
      ↔ ((itself || (inside || others)) ≡ false)
root_iff true itself others class rest h k = (λ e. absurd (h e), λ e. ground (arith, e))
root_iff false true others class rest h k = (λ e. cc, λ e. cc)
root_iff false false others class rest h k = k

-- The journal's roots are told apart by longer prefixes.
journal_iff :
    (records batches itself inside : Bool) (class other : PathClass)
    → IsReserved class
    → IsReserved other
    → (inside ≡ false → records ≡ false)
    → (inside ≡ false → batches ≡ false)
    → ((if records
          then class
          else if batches
          then other
          else if itself || inside
          then invalid_reserved
          else non_canonical)
        ≡ non_canonical)
      ↔ ((itself || inside) ≡ false)
journal_iff true batches itself inside class other h k r b =
    (λ e. absurd (h e), λ e. ground (arith, e, r))
journal_iff false true itself inside class other h k r b =
    (λ e. absurd (k e), λ e. ground (arith, e, b))
journal_iff false false itself inside class other h k r b = ground arith

regrouped :
    (a b c d e f : Bool) → (a || (b || (c || (d || (e || f))))) ≡ (a || b || c || d || e || f)
regrouped a b c d e f = ground arith

left_alone :
    (b : Bool) → ((if b then invalid_reserved else non_canonical) ≡ non_canonical) ↔ (b ≡ false)
left_alone true = (λ e. cc, λ e. cc)
left_alone false = (λ e. refl, λ e. refl)

module _ (uuid : UuidCrate) where
  -- the class of a path that is UTF-8
  abbrev pub utf8_class : Text → PathClass
  utf8_class path =
      if starts_with (ascii "events/") path
      then (if valid_legacy_event uuid path then legacy_event else invalid_reserved)
      else if same_bytes path (ascii "events")
      then invalid_reserved
      else if starts_with (ascii "batches/") path
      then (if valid_legacy_batch uuid path then legacy_batch else invalid_reserved)
      else if same_bytes path (ascii "batches")
      then invalid_reserved
      else if starts_with (ascii "journal/records/") path
      then (if valid_journal_record uuid path then journal_record else invalid_reserved)
      else if starts_with (ascii "journal/batches/") path
      then (if valid_journal_batch uuid path then journal_batch else invalid_reserved)
      else if same_bytes path (ascii "journal") || starts_with (ascii "journal/") path
      then invalid_reserved
      else non_canonical

  -- A path is passed over exactly where it is outside every reserved root, whether it is UTF-8 or not.
  pub classify_path_iff :
      (path : Text)
      → (classify_path uuid path ≡ non_canonical) ↔ (reserved_prefix_bytes uuid path ≡ false)
  unfolding classify_path reserved_prefix_bytes
  classify_path_iff path = go (is_utf8 path)
    where
      go :
          (utf8 : Bool)
          → ((if not utf8
                then (if reserved_prefix_bytes uuid path then invalid_reserved else non_canonical)
                else utf8_class path)
              ≡ non_canonical)
            ↔ (reserved_prefix_bytes uuid path ≡ false)
      go false = left_alone (reserved_prefix_bytes uuid path)
      go true =
          subst (λ b. (utf8_class path ≡ non_canonical) ↔ (b ≡ false))
            (regrouped (same_bytes path (ascii "events")) (starts_with (ascii "events/") path)
              (same_bytes path (ascii "batches")) (starts_with (ascii "batches/") path)
              (same_bytes path (ascii "journal")) (starts_with (ascii "journal/") path))
            (root_iff (starts_with (ascii "events/") path) (same_bytes path (ascii "events")) _ _ _
              (chosen (valid_legacy_event uuid path) legacy_event invalid_reserved (λ e. cc)
                (λ e. cc))
              (root_iff (starts_with (ascii "batches/") path) (same_bytes path (ascii "batches")) _
                _ _
                (chosen (valid_legacy_batch uuid path) legacy_batch invalid_reserved (λ e. cc)
                  (λ e. cc))
                (journal_iff (starts_with (ascii "journal/records/") path)
                  (starts_with (ascii "journal/batches/") path) (same_bytes path (ascii "journal"))
                  (starts_with (ascii "journal/") path) _ _
                  (chosen (valid_journal_record uuid path) journal_record invalid_reserved (λ e. cc)
                    (λ e. cc))
                  (chosen (valid_journal_batch uuid path) journal_batch invalid_reserved (λ e. cc)
                    (λ e. cc))
                  (starts_with-append (ascii "journal/") (ascii "records/") path)
                  (starts_with-append (ascii "journal/") (ascii "batches/") path))))
