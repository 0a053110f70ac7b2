-- ===== src/Money/Value.antt =====
-- packages/money/src/money.ts: the `Money` value object and its arithmetic.
use fluvia.Base.Digits.{is_digit, read_digits}
use fluvia.Base.{
  ℕ, ◌-◌, ◌^◌, ◌==◌, Bool, true, false, ◌&&◌, List, [], ◌∷◌, ℤ, pos, negsuc, neg, ◌+ℤ◌, ◌-ℤ◌, ◌*ℤ◌,
  ltb_ℤ, eqb_ℤ, leb, pos_part, neg_part, Result, ok, err, ◌>>=◌, ◌>>◌, throw_if, not, all,
  if◌then◌else◌, length, ◌+◌, ltb,
}
use fluvia.Money.Currency.{
  CurrencyCode, MoneyError, currency_mismatch, invalid_amount, assert_currency_code, eq_currency,
}
use Prim.Native.String.{String}

-- Minor units, and the currency.
pub record Money : Type 0 where
  pub amount : ℤ
  pub currency : CurrencyCode

-- A `number`: one with an integer value, or any other (fractions, NaN, infinities).
pub data JsNumber : Type 0 where
  int : ℤ → JsNumber
  not_int : JsNumber

-- `bigint | number | string`
pub data AmountInput : Type 0 where
  bigint : ℤ → AmountInput
  number : JsNumber → AmountInput
  text : List ℕ → AmountInput

abbrev pub max_safe_integer : ℕ
max_safe_integer = 2 ^ 53 - 1

-- `Number.isSafeInteger`
unfoldable pub is_safe_integer : JsNumber → Bool
is_safe_integer (int z) = leb (pos_part z + neg_part z) max_safe_integer
is_safe_integer not_int = false

-- `BigInt(n)`, which throws where `n` is no integer.
unfoldable pub big_int : JsNumber → Result MoneyError ℤ
big_int (int z) = ok z
big_int not_int = err invalid_amount

-- `^-?\d+$`, read as the sign and the digits. The code of `-` is 45.
abbrev pub nonempty_digits : List ℕ → Bool
nonempty_digits cs = ltb 0 (length cs) && all is_digit cs

unfoldable pub split_sign : List ℕ → Bool × List ℕ
split_sign [] = (false, [])
split_sign (c ∷ cs) = if c == 45 then (true, cs) else (false, c ∷ cs)

unfoldable pub signed : Bool → ℕ → ℤ
signed true n = neg (pos n)
signed false n = pos n

unfoldable pub of_text : List ℕ → Result MoneyError ℤ
unfolding split_sign signed
of_text cs =
    let (negative, digits) = split_sign cs in
    if nonempty_digits digits then ok (signed negative (read_digits digits)) else err invalid_amount

unfoldable pub read_amount : AmountInput → Result MoneyError ℤ
unfolding is_safe_integer big_int of_text
read_amount (bigint z) = ok z
read_amount (number n) = if not (is_safe_integer n) then err invalid_amount else big_int n
read_amount (text cs) = of_text cs

-- `Money.of`
unfoldable pub of : AmountInput → String → Result MoneyError Money
unfolding read_amount assert_currency_code
of amount currency = do
  code ← assert_currency_code currency
  value ← read_amount amount
  ok (record { amount = value; currency = code })

-- `Money.zero`, for a code that is known.
unfoldable pub zero_money : CurrencyCode → Money
zero_money c = record { amount = pos 0; currency = c }

unfoldable pub assert_same_currency : Money → Money → Result MoneyError (Unit {0})
assert_same_currency a b =
    throw_if (not (eq_currency a.currency b.currency)) (currency_mismatch a.currency b.currency)

unfoldable pub add : Money → Money → Result MoneyError Money
unfolding assert_same_currency
add a b = do assert_same_currency a b; ok (record a { amount = a.amount +ℤ b.amount })

unfoldable pub subtract : Money → Money → Result MoneyError Money
unfolding assert_same_currency
subtract a b = do assert_same_currency a b; ok (record a { amount = a.amount -ℤ b.amount })

-- The factor of `multiply`.
pub data Factor : Type 0 where
  bigint : ℤ → Factor
  number : JsNumber → Factor

unfoldable pub read_factor : Factor → Result MoneyError ℤ
unfolding is_safe_integer big_int
read_factor (Factor.bigint z) = ok z
read_factor (Factor.number n) = if not (is_safe_integer n) then err invalid_amount else big_int n

unfoldable pub multiply : Money → Factor → Result MoneyError Money
unfolding read_factor
multiply m factor = do f ← read_factor factor; ok (record m { amount = m.amount *ℤ f })

unfoldable pub negate : Money → Money
negate m = record m { amount = neg m.amount }

unfoldable pub is_zero : Money → Bool
is_zero m = eqb_ℤ m.amount (pos 0)

unfoldable pub is_negative : Money → Bool
is_negative m = ltb_ℤ m.amount (pos 0)

unfoldable pub is_positive : Money → Bool
is_positive m = ltb_ℤ (pos 0) m.amount

unfoldable pub abs : Money → Money
unfolding negate
abs m = if ltb_ℤ m.amount (pos 0) then negate m else m

unfoldable pub equals : Money → Money → Bool
equals a b = eq_currency a.currency b.currency && eqb_ℤ a.amount b.amount

unfoldable pub compare_money : Money → Money → Result MoneyError ℤ
unfolding assert_same_currency
compare_money a b = do
  assert_same_currency a b
  if ltb_ℤ a.amount b.amount
      then ok (negsuc 0)
      else if ltb_ℤ b.amount a.amount
      then ok (pos 1)
      else ok (pos 0)
