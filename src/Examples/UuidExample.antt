-- ===== src/Examples/UuidExample.antt =====
-- A `uuid` crate that reads and writes the hyphenated form: 32 lowercase hexadecimal digits in groups of
-- 8, 4, 4, 4 and 12.
use wayjournal_build_attesta.Prelude.{
  ℕ, ◌+◌, ◌*◌, ◌/◌, ◌%◌, ◌^◌, ◌<◌, ◌≡◌, refl, ap, ◌∙◌, Bool, true, false, ◌&&◌, Option, none, some,
  List, [], ◌∷◌, ◌++◌, arith, ◌-◌, subst, sym, if◌then◌else◌, ltb, leb, ◌==◌,
}
use wayjournal_build_attesta.Ids.{Text}
use wayjournal_build_attesta.Layout.{UuidCrate, IsUuid}
use wayjournal_build_attesta.Layout.Paths.{IsPlain, IsPlain-append}

abbrev digit_of : ℕ → ℕ
digit_of n = if ltb n 10 then 48 + n else 87 + n

abbrev value_of : ℕ → Option ℕ
value_of b =
    if leb 48 b && leb b 57
    then some (b - 48)
    else if leb 97 b && leb b 102
    then some (b - 87)
    else none

value-digit : (n : ℕ) → n < 16 → value_of (digit_of n) ≡ some n
value-digit n h = ground (arith, h)

-- From the last byte to the first: `true` is a digit, `false` a hyphen.
unfoldable pub print : List Bool → ℕ → Text
print [] n = []
print (true ∷ l) n = digit_of (n % 16) ∷ print l (n / 16)
print (false ∷ l) n = 45 ∷ print l n

abbrev shifted : Option ℕ → Option ℕ → Option ℕ
shifted none low = none
shifted (some high) none = none
shifted (some high) (some low) = some (low + 16 * high)

unfoldable pub scan : List Bool → Text → Option ℕ
scan [] [] = some 0
scan [] (b ∷ s) = none
scan (true ∷ l) [] = none
scan (false ∷ l) [] = none
scan (true ∷ l) (b ∷ s) = shifted (scan l s) (value_of b)
scan (false ∷ l) (b ∷ s) = let rest = scan l s in if b == 45 then rest else none

unfoldable pub bound : List Bool → ℕ
bound [] = 1
bound (true ∷ l) = 16 * bound l
bound (false ∷ l) = bound l

scan-print : (l : List Bool) (n : ℕ) → n < bound l → scan l (print l n) ≡ some n
unfolding scan print bound
scan-print [] n h = ground (arith, h)
scan-print (false ∷ l) n h = scan-print l n h
scan-print (true ∷ l) n h =
    ap (λ o. shifted o (value_of (digit_of (n % 16)))) (scan-print l (n / 16) (omega (arith, h)))
    ∙ ap (shifted (some (n / 16))) (value-digit (n % 16) (omega arith))
    ∙ ap some (omega arith)

abbrev backward : Text → Text
backward [] = []
backward (b ∷ s) = backward s ++ b ∷ []

backward-append : (s : Text) (b : ℕ) → backward (s ++ b ∷ []) ≡ b ∷ backward s
backward-append [] b = refl
backward-append (c ∷ s) b = ap (λ t. t ++ c ∷ []) (backward-append s b)

backward-backward : (s : Text) → backward (backward s) ≡ s
backward-backward [] = refl
backward-backward (b ∷ s) = backward-append (backward s) b ∙ ap (λ t. b ∷ t) (backward-backward s)

backward-IsPlain : (s : Text) → IsPlain s → IsPlain (backward s)
backward-IsPlain [] h = h
backward-IsPlain (b ∷ s) h =
    IsPlain-append (backward s) (b ∷ []) (backward-IsPlain s (ground (arith, h.0), h.1.1))
      (ground (arith, h.0), (h.1.0, tt))

print-IsPlain : (l : List Bool) (n : ℕ) → IsPlain (print l n)
unfolding print
print-IsPlain [] n = (refl, tt)
print-IsPlain (true ∷ l) n =
    let rest = print-IsPlain l (n / 16) in (ground (arith, rest.0), (ground arith, rest.1))
print-IsPlain (false ∷ l) n =
    let rest = print-IsPlain l n in (ground (arith, rest.0), (omega arith, rest.1))

abbrev four : List Bool → List Bool
four l = true ∷ true ∷ true ∷ true ∷ l

-- groups of 12, 4, 4, 4 and 8, from the last
abbrev layout : List Bool
layout = four (four (four (false ∷ four (false ∷ four (false ∷ four (false ∷ four (four [])))))))

abbrev pub hyphenated_crate : UuidCrate
hyphenated_crate = record {
  parse_str = λ t. scan layout (backward t);
  hyphenated = λ id. backward (print layout id);
  is_nil = λ id. id == 0;
  is_rfc4122 = λ id. id / 2 ^ 62 % 4 == 2;
  version = λ id. id / 2 ^ 76 % 16;
}

pub hyphenated_crate-IsPlain : (id : ℕ) → IsUuid id → IsPlain (hyphenated_crate.hyphenated id)
hyphenated_crate-IsPlain id h = backward-IsPlain (print layout id) (print-IsPlain layout id)

layout_lem : bound layout ≡ 2 ^ 128
unfolding bound
layout_lem = refl

pub hyphenated_crate-parse :
    (id : ℕ) → IsUuid id → hyphenated_crate.parse_str (hyphenated_crate.hyphenated id) ≡ some id
unfolding IsUuid
hyphenated_crate-parse id h =
    ap (scan layout) (backward-backward (print layout id))
    ∙ scan-print layout id (subst (λ b. id < b) (sym layout_lem) h)
