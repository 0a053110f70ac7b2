-- ===== src/Money/Allocate.antt =====
-- packages/money/src/money.ts: `allocate`, which splits an amount by ratios.
pub mod Spread
pub mod Quotas
pub mod Conserves
use fluvia.Base.{
  ℕ, zero, suc, ◌+◌, ◌*◌, ◌/◌, ◌%◌, ◌==◌, Bool, true, ◌||◌, List, [], ◌∷◌, ℤ, pos, negsuc, neg,
  ◌+ℤ◌, ◌-ℤ◌, ltb_ℤ, eqb_ℤ, Result, ok, Option, none, some, ◌>>◌, throw_if, not, length, any, map,
  if◌then◌else◌, pos_part,
}
use mathlib.Core.List.{foldl}
use fluvia.Money.Currency.{MoneyError, invalid_amount}
use fluvia.Money.Value.{Money, JsNumber, int, not_int, is_safe_integer}

-- `!Number.isSafeInteger(r) || r < 0`
unfoldable pub is_bad_ratio : JsNumber → Bool
unfolding is_safe_integer
is_bad_ratio not_int = true
is_bad_ratio (int z) = not (is_safe_integer (int z)) || ltb_ℤ z (pos 0)

-- `BigInt(r)` of a ratio that passed the test.
abbrev pub ratio_of : JsNumber → ℕ
ratio_of (int z) = pos_part z
ratio_of not_int = 0

abbrev pub total_of : List ℕ → ℕ
total_of = foldl ◌+◌ 0

-- `(amount * r) / total`: the division of `bigint` cuts towards zero.
unfoldable pub share : ℤ → ℕ → ℕ → ℤ
share (pos a) total r = pos (a * r / total)
share (negsuc a) total r = neg (pos (suc a * r / total))

-- `shares[i]! += step`
unfoldable pub add_at : List ℤ → ℕ → ℤ → List ℤ
add_at [] i step = []
add_at (s ∷ ss) zero step = (s +ℤ step) ∷ ss
add_at (s ∷ ss) (suc i) step = s ∷ add_at ss i step

-- `for (let i = 0; remainder !== 0n; i = (i + 1) % shares.length)`; `none` is fuel that ran out.
unfoldable pub spread : ℕ → ℕ → ℤ → List ℤ → ℤ → Option (List ℤ)
unfolding add_at
spread zero i step shares remainder = if eqb_ℤ remainder (pos 0) then some shares else none
spread (suc fuel) i step shares remainder =
    let rest =
      spread fuel ((i + 1) % length shares) step (add_at shares i step) (remainder -ℤ step) in
    if eqb_ℤ remainder (pos 0) then some shares else rest

-- One round for each share is enough fuel.
unfoldable pub split : ℤ → List ℕ → Option (List ℤ)
split amount ratios =
    let total = total_of ratios in
    let shares = map (share amount total) ratios in
    let remainder = amount -ℤ foldl ◌+ℤ◌ (pos 0) shares in
    let step = if ltb_ℤ remainder (pos 0) then negsuc 0 else pos 1 in
    spread (length shares) 0 step shares remainder

unfoldable pub allocate : Money → List JsNumber → Result MoneyError (Option (List Money))
allocate m ratios = do
  throw_if (length ratios == 0) invalid_amount
  throw_if (any is_bad_ratio ratios) invalid_amount
  throw_if (total_of (map ratio_of ratios) == 0) invalid_amount
  ok (elim (split m.amount (map ratio_of ratios)) [
    | none ↦ none
    | some shares ↦ some (map (λ s. record m { amount = s }) shares)
  ])
