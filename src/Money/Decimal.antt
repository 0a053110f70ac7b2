-- ===== src/Money/Decimal.antt =====
-- packages/money/src/money.ts: `fromDecimal` and `toDecimalString`.
pub mod Match
pub mod RoundTrip
use fluvia.Base.Digits.{is_digit, read_digits, show_digits, pad_start, pad_end}
use fluvia.Base.{
  ℕ, ◌+◌, ◌-◌, ◌*◌, ◌^◌, ◌==◌, Bool, ◌&&◌, ◌||◌, List, [], ◌∷◌, ◌++◌, pos, pos_part, neg_part,
  ltb_ℤ, leb, ltb, Result, ok, err, ◌>>=◌, length, take, drop, if◌then◌else◌, Option, none, some,
}
use mathlib.Core.List.{reverse}
use Prim.Native.String.{String}
use fluvia.Money.Currency.{
  CurrencyCode, MoneyError, invalid_amount, precision, assert_currency_code, currency_exponent,
}
use fluvia.Money.Value.{Money, nonempty_digits, split_sign, signed}

-- The white space and line ends that `trim` takes off.
unfoldable pub is_space : ℕ → Bool
is_space c =
    (leb 9 c && leb c 13)
    || (c == 32)
    || (c == 0xa0)
    || (c == 0x1680)
    || (leb 0x2000 c && leb c 0x200a)
    || (c == 0x2028)
    || (c == 0x2029)
    || (c == 0x202f)
    || (c == 0x205f)
    || (c == 0x3000)
    || (c == 0xfeff)

unfoldable pub trim_start : List ℕ → List ℕ
unfolding is_space
trim_start [] = []
trim_start (c ∷ cs) = if is_space c then trim_start cs else c ∷ cs

unfoldable pub trim : List ℕ → List ℕ
unfolding trim_start
trim cs = reverse (trim_start (reverse (trim_start cs)))

-- The longest run of digits, and the rest.
unfoldable pub span_digits : List ℕ → List ℕ × List ℕ
span_digits [] = ([], [])
span_digits (c ∷ cs) =
    let (ds, rest) = span_digits cs in if is_digit c then (c ∷ ds, rest) else ([], c ∷ cs)

-- What follows the whole part: nothing, or `.` (46) and one digit or more, to the end.
unfoldable pub match_fraction : List ℕ → Option (List ℕ)
match_fraction [] = some []
match_fraction (c ∷ cs) = if (c == 46) && nonempty_digits cs then some cs else none

-- `^(-?)(\d+)(?:\.(\d+))?$`: the sign, the whole part and the fraction, `''` where it is absent.
unfoldable pub match_decimal : List ℕ → Option (Bool × List ℕ × List ℕ)
unfolding split_sign span_digits match_fraction
match_decimal cs =
    let (negative, body) = split_sign cs in
    let (whole, rest) = span_digits body in
    if length whole == 0
    then none
    else elim (match_fraction rest) [ none ↦ none | some frac ↦ some (negative, whole, frac) ]

-- The amount in minor units of a text that matched.
unfoldable pub minor_units : ℕ → List ℕ → List ℕ → ℕ
minor_units exponent whole frac =
    read_digits whole * 10 ^ exponent + read_digits (pad_end exponent frac)

unfoldable pub of_match : CurrencyCode → Bool × List ℕ × List ℕ → Result MoneyError Money
unfolding currency_exponent minor_units signed
of_match c (negative, whole, frac) =
    let exponent = currency_exponent c in
    if ltb exponent (length frac)
    then err (precision c exponent)
    else ok (record { amount = signed negative (minor_units exponent whole frac); currency = c })

-- `Money.fromDecimal`
unfoldable pub from_decimal : List ℕ → String → Result MoneyError Money
from_decimal cs currency = do
  c ← assert_currency_code currency
  elim (match_decimal (trim cs)) [ none ↦ err invalid_amount | some m ↦ of_match c m ]

-- `slice(...) || '0'`
unfoldable pub or_zero : List ℕ → List ℕ
or_zero [] = 48 ∷ []
or_zero (c ∷ cs) = c ∷ cs

-- The digits of `toDecimalString`, with the point placed.
unfoldable pub place_point : ℕ → List ℕ → List ℕ
unfolding or_zero
place_point exponent digits =
    let cut = length digits - exponent in
    or_zero (take cut digits) ++ (if ltb 0 exponent then 46 ∷ drop cut digits else [])

-- `toDecimalString`
unfoldable pub to_decimal_string : Money → List ℕ
unfolding place_point currency_exponent show_digits
to_decimal_string m =
    let exponent = currency_exponent m.currency in
    let negative = ltb_ℤ m.amount (pos 0) in
    let n = if negative then neg_part m.amount else pos_part m.amount in
    let body = place_point exponent (pad_start (exponent + 1) (show_digits n)) in
    if negative then 45 ∷ body else body
