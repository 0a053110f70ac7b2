-- ===== src/Money/Allocate/Conserves.antt =====
-- `allocate` returns, loses nothing and creates nothing.
use fluvia.Base.{
  ℕ, zero, suc, ◌-◌, ◌≤◌, ◌<◌, ◌≡◌, refl, ap, ◌∙◌, sym, List, [], ◌∷◌, map, ℤ, pos, negsuc, neg,
  ◌+ℤ◌, ◌-ℤ◌, int_laws, sum_ℤ, sum, arith, length, length-map, some, false, true, any, all,
  if◌then◌else◌, foldl-add, foldl-sum_ℤ, ltb_ℤ, ok,
}
use mathlib.Core.List.{foldl}
use fluvia.Money.Currency.{eq_currency, eq_currency_refl}
use fluvia.Money.Value.{Money, JsNumber}
use fluvia.Money.Allocate.{is_bad_ratio, ratio_of, total_of, share, spread, split, allocate}
use fluvia.Money.Allocate.Spread.{
  bump, times, IsStep, up, down, times_up, times_down, spread-bump, sum_ℤ-bump, length-bump,
}
use fluvia.Money.Allocate.Quotas.{
  quotas, sum-quotas-le, le-sum-quotas, sum_ℤ-share_pos, sum_ℤ-share_negsuc,
}

-- What each share gets before the remainder is handed out, and the units left over.
abbrev pub shares_of : ℤ → List ℕ → List ℤ
shares_of z rs = map (share z (sum rs)) rs

abbrev pub left_over : ℤ → List ℕ → ℕ
left_over (pos a) rs = a - sum (quotas a (sum rs) rs)
left_over (negsuc a) rs = suc a - sum (quotas (suc a) (sum rs) rs)

abbrev pub step_of : ℤ → ℤ
step_of (pos a) = pos 1
step_of (negsuc a) = negsuc 0

step_of-IsStep : (z : ℤ) → IsStep (step_of z)
step_of-IsStep (pos a) = up
step_of-IsStep (negsuc a) = down

left_over-le : (z : ℤ) (rs : List ℕ) → 0 < sum rs → left_over z rs ≤ length (shares_of z rs)
left_over-le (pos a) rs h =
    omega (arith, le-sum-quotas a rs h, length-map (share (pos a) (sum rs)) rs)
left_over-le (negsuc a) rs h =
    omega (arith, le-sum-quotas (suc a) rs h, length-map (share (negsuc a) (sum rs)) rs)

-- The shares and the steps make up the amount.
sum_ℤ-shares_of :
    (z : ℤ) (rs : List ℕ)
    → 0 < sum rs
    → sum_ℤ (shares_of z rs) +ℤ times (left_over z rs) (step_of z) ≡ z
sum_ℤ-shares_of (pos a) rs h =
    rw (sum_ℤ-share_pos a (sum rs) rs, times_up (left_over (pos a) rs))
      (omega (int_laws, sum-quotas-le a rs h))
sum_ℤ-shares_of (negsuc a) rs h =
    rw (sum_ℤ-share_negsuc a (sum rs) rs, times_down (left_over (negsuc a) rs))
      (omega (int_laws, sum-quotas-le (suc a) rs h))

-- The remainder that `split` computes.
abbrev remainder_of : ℤ → List ℕ → ℤ
remainder_of z rs = z -ℤ foldl ◌+ℤ◌ (pos 0) (map (share z (total_of rs)) rs)

total_of-eq-sum : (rs : List ℕ) → total_of rs ≡ sum rs
total_of-eq-sum rs = omega (arith, foldl-add 0 rs)

add-sub_left : (a b : ℤ) → (a +ℤ b) -ℤ (pos 0 +ℤ a) ≡ b
add-sub_left a b = omega int_laws

remainder_of-times :
    (z : ℤ) (rs : List ℕ) → 0 < sum rs → remainder_of z rs ≡ times (left_over z rs) (step_of z)
remainder_of-times z rs h =
    rw (total_of-eq-sum rs, foldl-sum_ℤ (pos 0) (shares_of z rs))
      (ap (λ t. t -ℤ (pos 0 +ℤ sum_ℤ (shares_of z rs))) (sym (sum_ℤ-shares_of z rs h))
        ∙ add-sub_left (sum_ℤ (shares_of z rs)) (times (left_over z rs) (step_of z)))

-- The direction that the code takes from the sign of the remainder.
abbrev direction : ℤ → ℤ
direction r = if ltb_ℤ r (pos 0) then negsuc 0 else pos 1

direction-times : (z : ℤ) (k : ℕ) → direction (times (suc k) (step_of z)) ≡ step_of z
direction-times (pos a) k = rw (times_up (suc k)) (ground arith)
direction-times (negsuc a) k = rw (times_down (suc k)) (unfold neg in ground arith)

spread-direction :
    (z : ℤ) (k : ℕ) (ss : List ℤ)
    → k ≤ length ss
    → spread (length ss) 0 (direction (times k (step_of z))) ss (times k (step_of z))
      ≡ some (bump k (step_of z) ss)
spread-direction z zero ss h = spread-bump (length ss) 0 [] ss 0 (pos 1) up h h (λ p. refl)
spread-direction z (suc k) ss h =
    rw (direction-times z k)
      (spread-bump (length ss) 0 [] ss (suc k) (step_of z) (step_of-IsStep z) h h (λ p. refl))

-- The shares, with one step more for each of the first, as many as there are units left over.
pub split-bump :
    (z : ℤ) (rs : List ℕ)
    → 0 < sum rs
    → split z rs ≡ some (bump (left_over z rs) (step_of z) (shares_of z rs))
unfolding split
split-bump z rs h =
    rw (remainder_of-times z rs h, total_of-eq-sum rs)
      (spread-direction z (left_over z rs) (shares_of z rs) (left_over-le z rs h))

-- Ratios that `allocate` takes: one at least, safe integers from 0 up, and not all zero.
pub record IsRatios (ratios : List JsNumber) : Type 0 where
  pub nonempty : 0 < length ratios
  pub good : any is_bad_ratio ratios ≡ false
  pub some_positive : 0 < sum (map ratio_of ratios)

abbrev pub parts_of : Money → List JsNumber → List ℤ
parts_of m ratios =
    let rs = map ratio_of ratios in
    bump (left_over m.amount rs) (step_of m.amount) (shares_of m.amount rs)

abbrev with_amount : Money → ℤ → Money
with_amount m s = record m { amount = s }

pub allocate-parts_of :
    (m : Money) (ratios : List JsNumber)
    → IsRatios ratios
    → allocate m ratios ≡ ok (some (map (with_amount m) (parts_of m ratios)))
unfolding allocate
allocate-parts_of m ratios v =
    let rs = map ratio_of ratios in
    ground (
      arith,
      v.nonempty,
      v.good,
      v.some_positive,
      total_of-eq-sum rs,
      split-bump m.amount rs v.some_positive,
    )

map-amount : (m : Money) (ss : List ℤ) → map (λ (p : Money). p.amount) (map (with_amount m) ss) ≡ ss
map-amount m [] = refl
map-amount m (s ∷ ss) = ap (λ l. s ∷ l) (map-amount m ss)

all-currency :
    (m : Money) (ss : List ℤ)
    → all (λ (p : Money). eq_currency p.currency m.currency) (map (with_amount m) ss) ≡ true
all-currency m [] = refl
all-currency m (s ∷ ss) = rw (eq_currency_refl m.currency) (all-currency m ss)

-- Split by ratios that it takes, an amount of either sign comes back whole: the call returns, there
-- is one part for each ratio, each in the currency of the amount, and the parts add up to it.
pub allocate_conserves :
    (m : Money) (ratios : List JsNumber)
    → IsRatios ratios
    → (parts : List Money) × (allocate m ratios ≡ ok (some parts))
      × (sum_ℤ (map (λ p. p.amount) parts) ≡ m.amount)
      × (length parts ≡ length ratios)
      × (all (λ p. eq_currency p.currency m.currency) parts ≡ true)
allocate_conserves m ratios v =
    let rs = map ratio_of ratios in
    let k = left_over m.amount rs in
    (
      map (with_amount m) (parts_of m ratios),
      allocate-parts_of m ratios v,
      ap sum_ℤ (map-amount m (parts_of m ratios))
          ∙ sum_ℤ-bump k (step_of m.amount) (shares_of m.amount rs)
              (left_over-le m.amount rs v.some_positive)
          ∙ sum_ℤ-shares_of m.amount rs v.some_positive,
      omega (
        arith,
        length-map (with_amount m) (parts_of m ratios),
        length-bump k (step_of m.amount) (shares_of m.amount rs),
        length-map (share m.amount (sum rs)) rs,
        length-map ratio_of ratios,
      ),
      all-currency m (parts_of m ratios),
    )
