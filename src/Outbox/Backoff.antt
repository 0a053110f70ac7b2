-- ===== src/Outbox/Backoff.antt =====
-- How long the relay waits before the next attempt.
use fluvia.Base.{ℕ, ◌+◌, ◌-◌, ◌*◌, ◌^◌, ◌≤◌, ◌≡◌, sym, ap, ◌∙◌, arith}
use native.Mathlib.Numerals.{unary_clauses}
use fluvia.Outbox.{ResolvedOptions, min_of, compute_backoff_ms}

min_of_double : (m x : ℕ) → min_of m (2 * x) ≡ min_of m (2 * min_of m x)
min_of_double m x = grind arith

min_of_bound : (m x : ℕ) → min_of m x ≤ m
min_of_bound m x = grind arith

power_step : (b n : ℕ) → b * 2 ^ (n + 1) ≡ 2 * (b * 2 ^ n)
power_step b n = ap (λ x. b * x) (two_power n) ∙ swap (2 ^ n)
  where
    two_power : (k : ℕ) → 2 ^ (k + 1) ≡ 2 * 2 ^ k
    two_power k = simp unary_clauses (omega arith)

    swap : (y : ℕ) → b * (2 * y) ≡ 2 * (b * y)
    swap y = grind arith

minus_one : (n : ℕ) → n + 1 + 1 - 1 ≡ n + 1
minus_one n = omega arith

minus_here : (n : ℕ) → n + 1 - 1 ≡ n
minus_here n = omega arith

-- The backoff before jitter starts at the base, doubles with each attempt, and stops at the maximum.
compute_backoff_ms_doubles :
    (o : ResolvedOptions) (n : ℕ)
    → (compute_backoff_ms o 1 ≡ min_of o.max_backoff_ms o.base_backoff_ms)
      × (compute_backoff_ms o (n + 1 + 1)
          ≡ min_of o.max_backoff_ms (2 * compute_backoff_ms o (n + 1)))
      × (compute_backoff_ms o (n + 1) ≤ o.max_backoff_ms)
unfolding compute_backoff_ms
compute_backoff_ms_doubles o n =
    let m = o.max_backoff_ms in
    let b = o.base_backoff_ms in
    (
      ap (min_of m) (omega arith),
      ap (λ k. min_of m (b * 2 ^ k)) (minus_one n)
          ∙ ap (min_of m) (power_step b n)
          ∙ min_of_double m (b * 2 ^ n)
          ∙ ap (λ k. min_of m (2 * min_of m (b * 2 ^ k))) (sym (minus_here n)),
      min_of_bound m (b * 2 ^ (n + 1 - 1)),
    )
