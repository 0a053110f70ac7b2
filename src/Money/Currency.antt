-- ===== src/Money/Currency.antt =====
-- packages/money/src/currency.ts and errors.ts: the registry of currencies, and the errors.
use fluvia.Base.{ℕ, Bool, true, Option, none, some, Result, ok, err, ◌≡◌, refl, ◌==◌}
use fluvia.Base.{if◌then◌else◌, List, [], ◌∷◌, ◌↔◌, ==_iff, ◌∙◌, sym, ap, ==_refl}
use Prim.Native.String.{String}
use text.Mathlib.Text.{◌==◌ as str_eq}

pub data CurrencyCode : Type 0 where
  usd eur gbp mxn brl cop ars pen clp jpy : CurrencyCode

-- The numbers and texts that an error carries are left out, but for the currencies.
pub data MoneyError : Type 0 where
  unknown_currency : String → MoneyError
  currency_mismatch : CurrencyCode → CurrencyCode → MoneyError
  invalid_amount : MoneyError
  precision : CurrencyCode → ℕ → MoneyError

-- `CURRENCIES[code].exponent`
unfoldable pub currency_exponent : CurrencyCode → ℕ
currency_exponent CurrencyCode.clp = 0
currency_exponent CurrencyCode.jpy = 0
currency_exponent _ = 2

-- The key of a currency in `CURRENCIES`.
abbrev pub code_text : CurrencyCode → String
code_text CurrencyCode.usd = "USD"
code_text CurrencyCode.eur = "EUR"
code_text CurrencyCode.gbp = "GBP"
code_text CurrencyCode.mxn = "MXN"
code_text CurrencyCode.brl = "BRL"
code_text CurrencyCode.cop = "COP"
code_text CurrencyCode.ars = "ARS"
code_text CurrencyCode.pen = "PEN"
code_text CurrencyCode.clp = "CLP"
code_text CurrencyCode.jpy = "JPY"

abbrev pub currency_codes : List CurrencyCode
currency_codes =
    CurrencyCode.usd ∷ CurrencyCode.eur ∷ CurrencyCode.gbp ∷ CurrencyCode.mxn ∷ CurrencyCode.brl
    ∷ CurrencyCode.cop ∷ CurrencyCode.ars ∷ CurrencyCode.pen ∷ CurrencyCode.clp ∷ CurrencyCode.jpy
    ∷ []

-- The test of `isCurrencyCode`, which gives the code that it found.
unfoldable pub find_code : String → List CurrencyCode → Option CurrencyCode
find_code text [] = none
find_code text (c ∷ cs) = if str_eq (code_text c) text then some c else find_code text cs

unfoldable pub is_currency_code : String → Option CurrencyCode
unfolding find_code
is_currency_code text = find_code text currency_codes

unfoldable pub assert_currency_code : String → Result MoneyError CurrencyCode
unfolding is_currency_code
assert_currency_code text = elim (is_currency_code text) [
  | none ↦ err (unknown_currency text)
  | some c ↦ ok c
]

-- `left.currency === right.currency`, by the position of each in the registry.
abbrev pub index : CurrencyCode → ℕ
index CurrencyCode.usd = 0
index CurrencyCode.eur = 1
index CurrencyCode.gbp = 2
index CurrencyCode.mxn = 3
index CurrencyCode.brl = 4
index CurrencyCode.cop = 5
index CurrencyCode.ars = 6
index CurrencyCode.pen = 7
index CurrencyCode.clp = 8
index CurrencyCode.jpy = 9

unfoldable pub eq_currency : CurrencyCode → CurrencyCode → Bool
eq_currency a b = index a == index b

-- To tell equal currencies apart from others, without a hundred cases.
of_index : ℕ → CurrencyCode
of_index n =
    if n == 0
    then CurrencyCode.usd
    else if n == 1
    then CurrencyCode.eur
    else if n == 2
    then CurrencyCode.gbp
    else if n == 3
    then CurrencyCode.mxn
    else if n == 4
    then CurrencyCode.brl
    else if n == 5
    then CurrencyCode.cop
    else if n == 6
    then CurrencyCode.ars
    else if n == 7
    then CurrencyCode.pen
    else if n == 8
    then CurrencyCode.clp
    else CurrencyCode.jpy

of_index-index : (a : CurrencyCode) → of_index (index a) ≡ a
unfolding of_index
of_index-index CurrencyCode.usd = refl
of_index-index _ = refl

pub eq_currency_iff : (a b : CurrencyCode) → (eq_currency a b ≡ true) ↔ (a ≡ b)
unfolding eq_currency
eq_currency_iff a b = (
  λ h. sym (of_index-index a) ∙ ap of_index ((==_iff (index a) (index b)).0 h) ∙ of_index-index b,
  λ e. (==_iff (index a) (index b)).1 (ap index e),
)

pub eq_currency_refl : (a : CurrencyCode) → eq_currency a a ≡ true
unfolding eq_currency
eq_currency_refl a = ==_refl (index a)
