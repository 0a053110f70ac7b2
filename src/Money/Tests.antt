-- ===== src/Money/Tests.antt =====
-- packages/money: examples.
use fluvia.Base.{
  ◌≡◌, refl, true, false, List, [], ◌∷◌, map, pos, negsuc, sum_ℤ, length, all, any, some, ok, arith,
}
use fluvia.Money.Currency.{usd, eq_currency, code_text}
use fluvia.Money.Value.{Money, JsNumber, int, is_safe_integer}
use fluvia.Money.Decimal.{from_decimal, to_decimal_string}
use fluvia.Money.Decimal.RoundTrip.{from_decimal-to_decimal_string}
use fluvia.Money.Allocate.{allocate, is_bad_ratio}
use fluvia.Money.Allocate.Conserves.{IsRatios, allocate_conserves}

-- Ten dollars and a cent, owed.
abbrev owed : Money
owed = record { amount = negsuc 1000; currency = usd }

abbrev ratios : List JsNumber
ratios = int (pos 2) ∷ int (pos 0) ∷ int (pos 1) ∷ []

ratios_are_good : any is_bad_ratio ratios ≡ false
unfolding is_bad_ratio is_safe_integer
ratios_are_good = refl

ratios-IsRatios : IsRatios ratios
ratios-IsRatios = record {
  nonempty = omega arith;
  good = ratios_are_good;
  some_positive = omega arith;
}

allocate_conserves_example :
    (parts : List Money) × (allocate owed ratios ≡ ok (some parts))
    × (sum_ℤ (map (λ p. p.amount) parts) ≡ negsuc 1000)
    × (length parts ≡ 3)
    × (all (λ p. eq_currency p.currency usd) parts ≡ true)
allocate_conserves_example = allocate_conserves owed ratios ratios-IsRatios

from_decimal-to_decimal_string_example :
    from_decimal (to_decimal_string owed) (code_text usd) ≡ ok owed
from_decimal-to_decimal_string_example = from_decimal-to_decimal_string owed
