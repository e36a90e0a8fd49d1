-- ===== src/Texts/Lines.antt =====
-- `str::lines` and `str::split_ascii_whitespace`.
use wayjournal_build_attesta.Prelude.{ℕ, Bool, ◌||◌, none, some, List, [], ◌∷◌, ◌==◌, if◌then◌else◌}
use wayjournal_build_attesta.Ids.{Text}
use wayjournal_build_attesta.Texts.{split, strip_suffix}

-- a line without the carriage return that is before its line feed
unfoldable pub strip_return : Text → Text
unfolding strip_suffix
strip_return line = elim (strip_suffix (13 ∷ []) line) [ none ↦ line | some rest ↦ rest ]

-- What follows the last line feed is a line where there is something.
unfoldable pub ended_lines : List Text → List Text
unfolding strip_return
ended_lines [] = []
ended_lines ([] ∷ []) = []
ended_lines ((b ∷ s) ∷ []) = (b ∷ s) ∷ []
ended_lines (p ∷ q ∷ ps) = strip_return p ∷ ended_lines (q ∷ ps)

unfoldable pub lines : Text → List Text
unfolding split ended_lines
lines s = ended_lines (split 10 s)

-- `is_ascii_whitespace`
abbrev pub is_whitespace : ℕ → Bool
is_whitespace b = (b == 32) || (b == 9) || (b == 10) || (b == 12) || (b == 13)

abbrev pub cons_word : Text → List Text → List Text
cons_word [] ws = ws
cons_word (b ∷ w) ws = (b ∷ w) ∷ ws

-- the bytes before the first whitespace, and the words after it
unfoldable pub words_from : Text → Text × List Text
words_from [] = ([], [])
words_from (b ∷ s) =
    let (w, ws) = words_from s in if is_whitespace b then ([], cons_word w ws) else (b ∷ w, ws)

unfoldable pub split_whitespace : Text → List Text
unfolding words_from
split_whitespace s = let (w, ws) = words_from s in cons_word w ws
