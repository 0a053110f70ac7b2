-- ===== src/Webhooks/Ssrf/Split.antt =====
-- Functions of the language on texts: `split`, `toString(16)` and `parseInt(text, 16)`.
use fluvia.Base.{
  ℕ, zero, suc, ◌+◌, ◌-◌, ◌*◌, ◌/◌, ◌%◌, ◌==◌, Bool, false, ◌&&◌, ◌||◌, List, [], ◌∷◌, ◌++◌, all,
  length, Option, none, some, if◌then◌else◌, leb, ltb,
}
use fluvia.Base.Digits.{hex_digit, is_digit, read_digits}
use fluvia.Base.Text.{Text}

-- A character put in front of the first part.
abbrev pub onto_first : ℕ → List Text → List Text
onto_first c [] = (c ∷ []) ∷ []
onto_first c (p ∷ ps) = (c ∷ p) ∷ ps

-- `text.split(sep)`, for one character.
unfoldable pub split_on : ℕ → Text → List Text
split_on sep [] = [] ∷ []
split_on sep (c ∷ cs) =
    let rest = split_on sep cs in if c == sep then [] ∷ rest else onto_first c rest

-- `text.split('::')`: after a separator the search goes on behind it.
unfoldable pub split_double : Text → List Text
split_double [] = [] ∷ []
split_double (c ∷ []) = (c ∷ []) ∷ []
split_double (c ∷ (d ∷ cs)) =
    let skipped = split_double cs in
    let rest = split_double (d ∷ cs) in
    if (c == 58) && (d == 58) then [] ∷ skipped else onto_first c rest

unfoldable pub hex_fuel : ℕ → ℕ → Text
hex_fuel zero n = []
hex_fuel (suc f) n =
    let rest = hex_fuel f (n / 16) ++ hex_digit (n % 16) ∷ [] in
    if ltb n 16 then hex_digit n ∷ [] else rest

-- `n.toString(16)`
unfoldable pub show_hex : ℕ → Text
unfolding hex_fuel
show_hex n = hex_fuel (suc n) n

-- `[0-9a-f]`
abbrev pub is_hex : ℕ → Bool
is_hex c = is_digit c || (leb 97 c && leb c 102)

abbrev pub hex_value : ℕ → ℕ
hex_value c = if is_digit c then c - 48 else c - 87

unfoldable pub read_hex_from : ℕ → Text → ℕ
read_hex_from acc [] = acc
read_hex_from acc (c ∷ cs) = read_hex_from (acc * 16 + hex_value c) cs

-- `Number(text)` of a run of digits.
unfoldable pub number_of : Text → Option ℕ
number_of t = if all is_digit t && ltb 0 (length t) then some (read_digits t) else none

-- The text before the first of a character.
unfoldable pub before_first : ℕ → Text → Text
before_first sep [] = []
before_first sep (c ∷ cs) = let rest = before_first sep cs in if c == sep then [] else c ∷ rest

-- `includes` of one character.
unfoldable pub has_char : ℕ → Text → Bool
has_char sep [] = false
has_char sep (c ∷ cs) = (c == sep) || has_char sep cs

-- The text up to the last of a character, and what follows it; `none` where there is none.
unfoldable pub cut_last : ℕ → Text → Option (Text × Text)
cut_last sep [] = none
cut_last sep (c ∷ cs) = elim (cut_last sep cs) [
  | some p ↦ some (c ∷ p.0, p.1)
  | none ↦ if c == sep then some (c ∷ [], cs) else none
]
