-- ===== src/Payments/Pricing.antt =====
-- packages/payments-core/src/pricing.ts: the platform fee, flat in basis points.
pub mod Ceiling
use fluvia.Base.{
  ℕ, ◌-◌, ◌==◌, Bool, true, false, ◌||◌, List, [], ◌∷◌, ℤ, pos, pos_part, neg_part, ltb_ℤ, ltb,
  Result, ok, err, ◌>>=◌, ◌>>◌, throw_if, Option, none, some, if◌then◌else◌, ◌+◌,
}
use fluvia.Money.Currency.{MoneyError}
use fluvia.Money.Value.{Money, JsNumber, int, not_int, zero_money, is_zero}
use fluvia.Money.Allocate.{allocate}

-- `new Error(...)` of the constructor.
pub data FeeError : Type 0 where
  bad_bps : FeeError

pub record FlatBpsFeeSchedule : Type 0 where
  pub bps : ℕ

-- The constructor.
unfoldable pub new_flat_bps : JsNumber → Result FeeError FlatBpsFeeSchedule
new_flat_bps not_int = err bad_bps
new_flat_bps (int z) =
    if ltb_ℤ z (pos 0) || ltb_ℤ (pos 10000) z then err bad_bps else ok (record { bps = pos_part z })

-- `parts[0]!`, where `none` is a missing part.
unfoldable pub first_part : Option (List Money) → Option Money
first_part none = none
first_part (some []) = none
first_part (some (p ∷ ps)) = some p

unfoldable pub platform_fee : FlatBpsFeeSchedule → Money → Result MoneyError (Option Money)
platform_fee s amount =
    if (s.bps == 0) || is_zero amount then ok (some (zero_money amount.currency)) else do
      parts ← allocate amount (int (pos s.bps) ∷ int (pos (10000 - s.bps)) ∷ [])
      ok (first_part parts)

-- `ZERO_FEE_SCHEDULE`
abbrev pub zero_fee_schedule : FlatBpsFeeSchedule
zero_fee_schedule = record { bps = 0 }
