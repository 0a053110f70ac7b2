-- ===== src/Payments/Resilience/Threshold.antt =====
-- When the circuit is open, among the interleaved calls of a process.
use fluvia.Base.{
  ℕ, ◌+◌, ◌≤◌, ◌<◌, ◌≡◌, ◌↔◌, refl, ap, subst, ok-injective, throw_if-then, ◌||◌, Bool, false, List,
  [], ◌∷◌, ok, arith, Bool-cases, inl, inr, ltb, leb,
}
use fluvia.Payments.Resilience.{
  CircuitState, closed, opened, half_open, Settings, Circuit, new_circuit, out_of_range,
  new_settings, ResilientProviderOptions, get_or, answer, throws, timer, record_failure, Event,
  starts, ends, step, run,
}

-- The failures since the last answer, from those before the events.
unfoldable pub failures_after : ℕ → List Event → ℕ
failures_after n [] = n
failures_after n (starts t ∷ es) = failures_after n es
failures_after n (ends t (answer o) ∷ es) = failures_after 0 es
failures_after n (ends t throws ∷ es) = failures_after (n + 1) es
failures_after n (ends t timer ∷ es) = failures_after (n + 1) es

-- The circuit is closed exactly below the threshold.
abbrev pub Agrees : Settings → ℕ → Circuit → Type 0
Agrees settings n c =
    (c.consecutive_failures ≡ n) × ((c.state ≡ closed) ↔ (n < settings.failure_threshold))

abbrev circuit_of : CircuitState → ℕ → ℕ → Circuit
circuit_of s k t = record { state = s; consecutive_failures = k; opened_at = t }

start-Agrees :
    (settings : Settings) (now n : ℕ) (s : CircuitState) (k t : ℕ)
    → Agrees settings n (circuit_of s k t)
    → Agrees settings n (step settings (starts now) (circuit_of s k t))
unfolding step
start-Agrees settings now n closed k t a = a
start-Agrees settings now n half_open k t a = a
start-Agrees settings now n opened k t a = elim (Bool-cases (ltb now (t + settings.cooldown_ms))) [
  | inl early ↦ rw (early, step) a
  | inr late ↦ rw (late, step) (a.0, (λ h. cc, λ h. cc (a.1.1 h)))
]

failure-Agrees :
    (settings : Settings) (now n : ℕ) (s : CircuitState) (k t : ℕ)
    → Agrees settings n (circuit_of s k t)
    → Agrees settings (n + 1) (record_failure settings now (circuit_of s k t))
unfolding record_failure
failure-Agrees settings now n closed k t a =
    elim (Bool-cases (leb settings.failure_threshold (k + 1))) [
      | inl reached ↦
          rw (reached, record_failure) (ground arith, (λ h. cc, λ h. absurd (ground arith)))
      | inr below ↦ rw (below, record_failure) (ground arith, (λ h. ground arith, λ h. refl))
    ]
failure-Agrees settings now n half_open k t a =
    (ap (λ m. m + 1) a.0, (λ h. cc, λ h. cc (a.1.1 (omega arith))))
failure-Agrees settings now n opened k t a =
    elim (Bool-cases (leb settings.failure_threshold (k + 1))) [
      | inl reached ↦
          rw (reached, record_failure)
            (ap (λ m. m + 1) a.0, (λ h. cc, λ h. cc (a.1.1 (omega arith))))
      | inr below ↦
          rw (below, record_failure) (ap (λ m. m + 1) a.0, (λ h. cc, λ h. cc (a.1.1 (omega arith))))
    ]

run-Agrees :
    (settings : Settings) (n : ℕ) (es : List Event) (c : Circuit)
    → 1 ≤ settings.failure_threshold
    → Agrees settings n c
    → Agrees settings (failures_after n es) (run settings es c)
unfolding run failures_after
run-Agrees settings n [] c h a = a
run-Agrees settings n (starts now ∷ es) c h a =
    run-Agrees settings n es (step settings (starts now) c) h
      (start-Agrees settings now n c.state c.consecutive_failures c.opened_at a)
run-Agrees settings n (ends now (answer o) ∷ es) c h a =
    run-Agrees settings 0 es (step settings (ends now (answer o)) c) h (refl, (λ e. h, λ e. refl))
run-Agrees settings n (ends now throws ∷ es) c h a =
    run-Agrees settings (n + 1) es (record_failure settings now c) h
      (failure-Agrees settings now n c.state c.consecutive_failures c.opened_at a)
run-Agrees settings n (ends now timer ∷ es) c h a =
    run-Agrees settings (n + 1) es (record_failure settings now c) h
      (failure-Agrees settings now n c.state c.consecutive_failures c.opened_at a)

-- The constructor refuses a threshold below one.
pub new_settings-threshold :
    (options : ResilientProviderOptions) (settings : Settings)
    → new_settings options ≡ ok settings
    → 1 ≤ settings.failure_threshold
unfolding new_settings
new_settings-threshold options settings h =
    let timeout = get_or 10000 options.timeout_ms in
    let threshold = get_or 5 options.failure_threshold in
    let cooldown = get_or 30000 options.cooldown_ms in
    let (passed, made) =
      throw_if-then (ltb timeout 1 || ltb threshold 1 || ltb cooldown 1) out_of_range
        (ok
          (record { timeout_ms = timeout; failure_threshold = threshold; cooldown_ms = cooldown }))
        h in
    let at_least = at_least_one (ltb timeout 1) threshold (ltb cooldown 1) passed in
    subst (λ n. 1 ≤ n) (ap (λ s. s.failure_threshold) (ok-injective made)) at_least
  where
    at_least_one : (a : Bool) (n : ℕ) (b : Bool) → a || ltb n 1 || b ≡ false → 1 ≤ n
    at_least_one a n b e = ground arith

-- Whatever calls interleave, a breaker that the constructor has accepted counts the failures since
-- the last answer of the provider, whichever call they are of, and its circuit is closed exactly
-- while these are below the threshold.
pub run-closed :
    (options : ResilientProviderOptions) (settings : Settings)
    → new_settings options ≡ ok settings
    → (es : List Event)
    → ((run settings es new_circuit).consecutive_failures ≡ failures_after 0 es)
      × (((run settings es new_circuit).state ≡ closed)
          ↔ (failures_after 0 es < settings.failure_threshold))
run-closed options settings made es =
    let h = new_settings-threshold options settings made in
    run-Agrees settings 0 es new_circuit h (refl, (λ e. h, λ e. refl))
