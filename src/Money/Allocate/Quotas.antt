-- ===== src/Money/Allocate/Quotas.antt =====
-- The shares that the division gives: together at most the amount, and short of it by fewer units
-- than there are shares.
use fluvia.Base.{
  ℕ, suc, ◌+◌, ◌*◌, ◌/◌, ◌≤◌, ◌<◌, ◌≡◌, refl, List, [], ◌∷◌, map, pos, negsuc, neg, int_laws, sum_ℤ,
  sum, arith, length,
}
use native.Mathlib.Nat.{div-add-mod, mod-lt}
use fluvia.Money.Allocate.{share}

abbrev pub quotas : ℕ → ℕ → List ℕ → List ℕ
quotas a total = map (λ r. a * r / total)

-- One share in terms of the division.
quota_lem :
    (a r total : ℕ)
    → 0 < total
    → (total * (a * r / total) ≤ a * r) × (a * r < total * (a * r / total) + total)
quota_lem a r total h = grind (arith, div-add-mod, mod-lt)

pub quotas-le :
    (a total : ℕ) (rs : List ℕ) → 0 < total → total * sum (quotas a total rs) ≤ a * sum rs
quotas-le a total [] h = omega arith
quotas-le a total (r ∷ rs) h = omega (arith, (quota_lem a r total h).0, quotas-le a total rs h)

pub le-quotas :
    (a total : ℕ) (rs : List ℕ)
    → 0 < total
    → a * sum rs ≤ total * sum (quotas a total rs) + total * length rs
le-quotas a total [] h = omega arith
le-quotas a total (r ∷ rs) h = omega (arith, (quota_lem a r total h).1, le-quotas a total rs h)

le_of_mul : (t a b : ℕ) → 0 < t → t * a ≤ t * b → a ≤ b
le_of_mul t a b h k = grind arith

-- With the total of the ratios for the divisor.
pub sum-quotas-le : (a : ℕ) (rs : List ℕ) → 0 < sum rs → sum (quotas a (sum rs) rs) ≤ a
sum-quotas-le a rs h =
    le_of_mul (sum rs) (sum (quotas a (sum rs) rs)) a h (omega (arith, quotas-le a (sum rs) rs h))

pub le-sum-quotas : (a : ℕ) (rs : List ℕ) → 0 < sum rs → a ≤ sum (quotas a (sum rs) rs) + length rs
le-sum-quotas a rs h =
    le_of_mul (sum rs) a (sum (quotas a (sum rs) rs) + length rs) h
      (omega (arith, le-quotas a (sum rs) rs h))

pub sum_ℤ-share_pos :
    (a total : ℕ) (rs : List ℕ)
    → sum_ℤ (map (share (pos a) total) rs) ≡ pos (sum (quotas a total rs))
unfolding share
sum_ℤ-share_pos a total [] = refl
sum_ℤ-share_pos a total (r ∷ rs) = rw (sum_ℤ-share_pos a total rs) (omega int_laws)

pub sum_ℤ-share_negsuc :
    (a total : ℕ) (rs : List ℕ)
    → sum_ℤ (map (share (negsuc a) total) rs) ≡ neg (pos (sum (quotas (suc a) total rs)))
unfolding share
sum_ℤ-share_negsuc a total [] = omega int_laws
sum_ℤ-share_negsuc a total (r ∷ rs) = rw (sum_ℤ-share_negsuc a total rs) (omega int_laws)
