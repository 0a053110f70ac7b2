-- ===== src/Idempotency/Limits.antt =====
-- The time limits of the service.
use fluvia.Base.{
  ◌≡◌, true, not, ◌||◌, ℕ, ℤ, pos, ltb_ℤ, ◌≤ℤ◌, ok, err-ne-ok, ok-injective, >>=-eq-ok,
  throw_if-then, Option, none, some, Bool-cases, inl, inr, arith, subst, ◌≤◌,
}
use fluvia.Idempotency.{
  range_error, Setting, floors_to, not_finite, IdempotencyServiceOptions, IdempotencyService,
  pg_max_timeout_ms, read_setting, new_service,
}

read_setting-range :
    (o : Option Setting) (standard most : ℕ) (z : ℤ)
    → 1 ≤ standard
    → standard ≤ most
    → read_setting o standard most ≡ ok z
    → (pos 1 ≤ℤ z) × (z ≤ℤ pos most)
unfolding read_setting
read_setting-range none standard most z low high h =
    let same : pos standard ≡ z = ok-injective h in
    subst (λ y. (pos 1 ≤ℤ y) × (y ≤ℤ pos most)) same (omega arith, omega arith)
read_setting-range (some not_finite) standard most z low high h = absurd (err-ne-ok h)
read_setting-range (some (floors_to y)) standard most z low high h =
    elim (Bool-cases (ltb_ℤ y (pos 1) || ltb_ℤ (pos most) y)) [
      | inl out ↦ absurd (err-ne-ok (rw out at h))
      | inr inside ↦
          let same : y ≡ z = ok-injective (rw inside at h) in
          subst (λ x. (pos 1 ≤ℤ x) × (x ≤ℤ pos most)) same (ground arith, ground arith)
    ]

-- The waits of a service that the constructor accepts.
pub record IsLimited (s : IdempotencyService) : Type 0 where
  pub lock : (pos 1 ≤ℤ s.lock_timeout_ms) × (s.lock_timeout_ms ≤ℤ pos 60000)
  pub lock_first : ltb_ℤ s.lock_timeout_ms s.statement_timeout_ms ≡ true
  pub statement : s.statement_timeout_ms ≤ℤ pos pg_max_timeout_ms
  pub idle : (pos 1 ≤ℤ s.idle_in_tx_timeout_ms) × (s.idle_in_tx_timeout_ms ≤ℤ pos pg_max_timeout_ms)
  pub retention : (pos 1 ≤ℤ s.retention_hours) × (s.retention_hours ≤ℤ pos 720)

-- A service that is constructed, with whatever options, has every limit in its range, and waits for a
-- lock less long than for a statement.
pub new_service-IsLimited :
    (options : IdempotencyServiceOptions) (s : IdempotencyService)
    → new_service options ≡ ok s
    → IsLimited s
unfolding new_service
new_service-IsLimited options s h =
    let (t, lock, h1) = >>=-eq-ok (read_setting options.lock_timeout_ms 3000 60000) _ h in
    let (w, statement, h2) =
      >>=-eq-ok (read_setting options.statement_timeout_ms 30000 pg_max_timeout_ms) _ h1 in
    let (longer, h3) = throw_if-then (not (ltb_ℤ t w)) range_error _ h2 in
    let (i, idle, h4) =
      >>=-eq-ok (read_setting options.idle_in_tx_timeout_ms 60000 pg_max_timeout_ms) _ h3 in
    let (r, retention, h5) = >>=-eq-ok (read_setting options.retention_hours 24 720) _ h4 in
    subst IsLimited (ok-injective h5) (record {
      lock =
          read_setting-range options.lock_timeout_ms 3000 60000 t (omega arith) (omega arith) lock;
      lock_first = ground arith;
      statement =
          (read_setting-range options.statement_timeout_ms 30000 pg_max_timeout_ms w (omega arith)
            (omega arith) statement).1;
      idle =
          read_setting-range options.idle_in_tx_timeout_ms 60000 pg_max_timeout_ms i (omega arith)
            (omega arith) idle;
      retention =
          read_setting-range options.retention_hours 24 720 r (omega arith) (omega arith) retention;
    })
