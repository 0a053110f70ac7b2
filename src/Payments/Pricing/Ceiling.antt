-- ===== src/Payments/Pricing/Ceiling.antt =====
-- The platform fee is the exact share rounded up.
use fluvia.Base.{
  ℕ, zero, suc, ◌+◌, ◌-◌, ◌*◌, ◌/◌, ◌%◌, ◌≤◌, ◌<◌, ◌==◌, ◌≡◌, refl, ap, List, [], ◌∷◌, ℤ, pos,
  int_laws, arith, ok, some, ◌>>=◌, ◌||◌, Bool-cases, inl, inr, true, map, sum, ◌⊎◌,
}
use fluvia.Money.Value.{Money, int, JsNumber, is_safe_integer, zero_money, is_zero}
use fluvia.Money.Currency.{CurrencyCode}
use fluvia.Money.Allocate.{ratio_of, share, is_bad_ratio, allocate}
use fluvia.Money.Allocate.Conserves.{IsRatios, allocate-parts_of, parts_of, left_over}
use fluvia.Money.Allocate.Spread.{bump}
use fluvia.Payments.Pricing.{platform_fee, first_part}

abbrev split_of : ℕ → List JsNumber
split_of bps = int (pos bps) ∷ int (pos (10000 - bps)) ∷ []

split_of-IsRatios : (bps : ℕ) → bps ≤ 10000 → IsRatios (split_of bps)
unfolding is_bad_ratio is_safe_integer
split_of-IsRatios bps h = record {
  nonempty = omega arith;
  good = ground arith;
  some_positive = omega arith;
}

abbrev pub ceiling : ℕ → ℕ → ℕ
ceiling a bps = (a * bps + 9999) / 10000

halves : (a bps : ℕ) → bps ≤ 10000 → a * bps + a * (10000 - bps) ≡ a * 10000
halves a bps h =
    let e : bps + (10000 - bps) ≡ 10000 = omega arith in omega (arith, ap (λ t. a * t) e)

-- The two divisions leave over one unit exactly if the first is not exact.
first_share :
    (a x y : ℕ)
    → x + y ≡ a * 10000
    → ((a - (x / 10000 + (y / 10000 + 0)) ≡ 0) × (x / 10000 ≡ (x + 9999) / 10000))
      ⊎ ((0 < a - (x / 10000 + (y / 10000 + 0))) × (x / 10000 + 1 ≡ (x + 9999) / 10000))
first_share a x y h = elim (Bool-cases (x % 10000 == 0)) [
  | inl whole ↦ inl (ground arith, ground arith)
  | inr broken ↦ inr (ground arith, ground arith)
]

head_of : List ℤ → ℤ
head_of [] = pos 0
head_of (s ∷ ss) = s

-- The first part, whether or not a unit is left over.
head-bump :
    (k q c : ℕ) (ss : List ℤ)
    → ((k ≡ 0) × (q ≡ c)) ⊎ ((0 < k) × (q + 1 ≡ c))
    → head_of (bump k (pos 1) (pos q ∷ ss)) ≡ pos c
unfolding head_of
head-bump zero q c ss (inl (z, e)) = ap pos e
head-bump zero q c ss (inr (p, e)) = absurd (omega arith)
head-bump (suc k) q c ss (inl (z, e)) = absurd (omega arith)
head-bump (suc k) q c ss (inr (p, e)) = omega int_laws

whole_bps : (bps : ℕ) → bps ≤ 10000 → sum (map ratio_of (split_of bps)) ≡ 10000
whole_bps bps h = omega arith

head-parts_of :
    (bps a : ℕ) (c : CurrencyCode)
    → bps ≤ 10000
    → head_of (parts_of (record { amount = pos a; currency = c }) (split_of bps))
      ≡ pos (ceiling a bps)
unfolding share
head-parts_of bps a c h = rw (whole_bps bps h) (
    head-bump (a - (a * bps / 10000 + (a * (10000 - bps) / 10000 + 0))) (a * bps / 10000)
      (ceiling a bps) (pos (a * (10000 - bps) / 10000) ∷ [])
      (first_share a (a * bps) (a * (10000 - bps)) (halves a bps h)))

first_part-bump :
    (f : ℤ → Money) (k : ℕ) (step s : ℤ) (ss : List ℤ)
    → first_part (some (map f (bump k step (s ∷ ss)))) ≡ some (f (head_of (bump k step (s ∷ ss))))
unfolding first_part head_of
first_part-bump f zero step s ss = refl
first_part-bump f (suc k) step s ss = refl

abbrev pub money : ℕ → CurrencyCode → Money
money a c = record { amount = pos a; currency = c }

fee_of_split :
    (bps a : ℕ) (c : CurrencyCode)
    → bps ≤ 10000
    → (do parts ← allocate (money a c) (split_of bps); ok (first_part parts))
      ≡ ok (some (money (ceiling a bps) c))
fee_of_split bps a c h =
    rw
      (
        allocate-parts_of (money a c) (split_of bps) (split_of-IsRatios bps h),
        first_part-bump (λ s. record { amount = s; currency = c })
            (left_over (pos a) (map ratio_of (split_of bps))) (pos 1)
            (share (pos a) (sum (map ratio_of (split_of bps))) bps)
            (share (pos a) (sum (map ratio_of (split_of bps))) (10000 - bps) ∷ []),
      )
      (ap (λ z. ok (some (record { amount = z; currency = c }))) (head-parts_of bps a c h))

ceiling-le : (a bps : ℕ) → bps ≤ 10000 → ceiling a bps ≤ a
ceiling-le a bps h = omega (arith, halves a bps h)

no_fee : (a bps : ℕ) → ((bps == 0) || (a + 0 == 0)) ≡ true → ceiling a bps ≡ 0
no_fee zero bps h = omega arith
no_fee (suc a) zero h = omega arith
no_fee (suc a) (suc bps) h = absurd (ground arith)

-- Of an amount that is not negative, the platform fee is the exact share rounded up, whatever the
-- rate up to 100%: it is an amount of the same currency, and never more than the amount.
pub platform_fee-ceiling :
    (bps a : ℕ) (c : CurrencyCode)
    → bps ≤ 10000
    → (platform_fee (record { bps = bps }) (money a c) ≡ ok (some (money (ceiling a bps) c)))
      × (ceiling a bps ≤ a)
unfolding platform_fee zero_money is_zero
platform_fee-ceiling bps a c h = (
  elim (Bool-cases ((bps == 0) || (a + 0 == 0))) [
    | inl none_due ↦ rw (none_due, no_fee a bps none_due)
    | inr due ↦ rw due (fee_of_split bps a c h)
  ],
  ceiling-le a bps h,
)
