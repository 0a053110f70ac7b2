-- ===== src/Money/Allocate/Spread.antt =====
-- The loop of `allocate`, which hands out the remainder, ends and adds one step to each of the
-- first shares.
use fluvia.Base.{
  ℕ, zero, suc, ◌+◌, ◌%◌, ◌≤◌, ◌<◌, ◌≡◌, refl, ap, ◌∙◌, List, [], ◌∷◌, ◌++◌, append_assoc, ℤ, pos,
  negsuc, neg, ◌+ℤ◌, ◌-ℤ◌, int_laws, sum_ℤ, arith, length, length-append, some, eqb_ℤ, false,
}
use native.Mathlib.Nat.{mod-eq_of_lt}
use fluvia.Money.Allocate.{add_at, spread}

-- The first k shares with the step added.
abbrev pub bump : ℕ → ℤ → List ℤ → List ℤ
bump zero step ss = ss
bump (suc k) step [] = []
bump (suc k) step (s ∷ ss) = (s +ℤ step) ∷ bump k step ss

-- k times the step.
abbrev pub times : ℕ → ℤ → ℤ
times zero step = pos 0
times (suc k) step = step +ℤ times k step

add_at-append :
    (xs : List ℤ) (s step : ℤ) (ys : List ℤ)
    → add_at (xs ++ s ∷ ys) (length xs) step ≡ (xs ++ (s +ℤ step) ∷ []) ++ ys
unfolding add_at
add_at-append [] s step ys = refl
add_at-append (x ∷ xs) s step ys = ap (λ l. x ∷ l) (add_at-append xs s step ys)

-- A step that is one up or one down.
pub data IsStep : ℤ → Type 0 where
  up : IsStep (pos 1)
  down : IsStep (negsuc 0)

times-step : (k : ℕ) (step : ℤ) → times (suc k) step -ℤ step ≡ times k step
times-step k step = omega int_laws

pub times_up : (k : ℕ) → times k (pos 1) ≡ pos k
times_up zero = refl
times_up (suc k) = rw (times_up k) (omega int_laws)

pub times_down : (k : ℕ) → times k (negsuc 0) ≡ neg (pos k)
times_down zero = omega int_laws
times_down (suc k) = rw (times_down k) (omega int_laws)

times-ne-zero : (k : ℕ) (step : ℤ) → IsStep step → eqb_ℤ (times (suc k) step) (pos 0) ≡ false
times-ne-zero k step up = rw (times_up (suc k)) (ground arith)
times-ne-zero k step down = rw (times_down (suc k)) (unfold neg in ground arith)

spread_done : (fuel i : ℕ) (step : ℤ) (ss : List ℤ) → spread fuel i step ss (pos 0) ≡ some ss
unfolding spread
spread_done zero i step ss = refl
spread_done (suc fuel) i step ss = refl

spread_next :
    (fuel i : ℕ) (step : ℤ) (ss : List ℤ) (r : ℤ)
    → eqb_ℤ r (pos 0) ≡ false
    → spread (suc fuel) i step ss r
      ≡ spread fuel ((i + 1) % length ss) step (add_at ss i step) (r -ℤ step)
unfolding spread
spread_next fuel i step ss r h = rw h

-- The next index, where shares are left.
next_index :
    (xs : List ℤ) (s step : ℤ) (ys : List ℤ)
    → 0 < length ys
    → (length xs + 1) % length (xs ++ s ∷ ys) ≡ length (xs ++ (s +ℤ step) ∷ [])
next_index xs s step ys h =
    mod-eq_of_lt (omega (arith, length-append xs (s ∷ ys)))
    ∙ omega (arith, length-append xs ((s +ℤ step) ∷ []))

pub spread-bump :
    (fuel i : ℕ) (xs ys : List ℤ) (k : ℕ) (step : ℤ)
    → IsStep step
    → k ≤ length ys
    → k ≤ fuel
    → (0 < k → i ≡ length xs)
    → spread fuel i step (xs ++ ys) (times k step) ≡ some (xs ++ bump k step ys)
spread-bump fuel i xs ys zero step st l f at = spread_done fuel i step (xs ++ ys)
spread-bump fuel i xs [] (suc k) step st l f at = absurd (omega arith)
spread-bump zero i xs (s ∷ ys) (suc k) step st l f at = absurd (omega arith)
spread-bump (suc fuel) i xs (s ∷ ys) (suc k) step st l f at =
    rw
      (
        at (omega arith),
        spread_next fuel (length xs) step (xs ++ s ∷ ys) (times (suc k) step)
            (times-ne-zero k step st),
        add_at-append xs s step ys,
        times-step k step,
      )
      (spread-bump fuel ((length xs + 1) % length (xs ++ s ∷ ys)) (xs ++ (s +ℤ step) ∷ []) ys k step
          st (omega arith) (omega arith) (λ h. next_index xs s step ys (omega arith))
        ∙ ap some (append_assoc xs ((s +ℤ step) ∷ []) (bump k step ys)))

pub sum_ℤ-bump :
    (k : ℕ) (step : ℤ) (ss : List ℤ)
    → k ≤ length ss
    → sum_ℤ (bump k step ss) ≡ sum_ℤ ss +ℤ times k step
sum_ℤ-bump zero step ss h = omega int_laws
sum_ℤ-bump (suc k) step [] h = absurd (omega arith)
sum_ℤ-bump (suc k) step (s ∷ ss) h = rw (sum_ℤ-bump k step ss (omega arith)) (omega int_laws)

pub length-bump : (k : ℕ) (step : ℤ) (ss : List ℤ) → length (bump k step ss) ≡ length ss
length-bump zero step ss = refl
length-bump (suc k) step [] = refl
length-bump (suc k) step (s ∷ ss) = ap suc (length-bump k step ss)
