-- ===== src/Payments/Resilience/Cooldown.antt =====
-- What an open circuit does with the next calls.
use fluvia.Base.{
  sym, subst, all, map, Bool-cases, inl, inr, lt→ltb, ℕ, suc, ◌+◌, ◌-◌, ◌≤◌, ◌<◌, ◌≡◌, refl, ap,
  ◌∙◌, true, false, List, [], ◌∷◌, ok, err, arith, ltb, leb, length, ◌||◌,
}
use fluvia.Payments.Resilience.{
  ProviderOutcome, ProviderError, circuit_open, closed, opened, half_open, Settings, Circuit, Race,
  answer, start, record_failure, settle, guarded, run, step, starts, is_half_open, with_timeout,
}

-- The failure that opens a circuit: of a call that was let through to try, or one too many.
abbrev pub Trips : Settings → Circuit → Type 0
Trips settings c =
    is_half_open c || leb settings.failure_threshold (c.consecutive_failures + 1) ≡ true

abbrev tripped : ℕ → Circuit → Circuit
tripped t c = record {
  state = opened;
  consecutive_failures = c.consecutive_failures + 1;
  opened_at = t;
}

settle-tripped :
    (settings : Settings) (t : ℕ) (race : Race) (e : ProviderError) (c : Circuit)
    → with_timeout race ≡ err e
    → Trips settings c
    → (settle settings t race c).1 ≡ tripped t c
unfolding settle record_failure
settle-tripped settings t race e c failed trips =
    rw (failed, settle) (rw (trips, record_failure) refl)

not_before : (a b : ℕ) → b ≤ a → ltb a b ≡ false
not_before a b h = ground arith

start-early :
    (settings : Settings) (now k t : ℕ)
    → now < t + settings.cooldown_ms
    → start settings now (record { state = opened; consecutive_failures = k; opened_at = t })
      ≡ err (circuit_open (t + settings.cooldown_ms - now))
unfolding start
start-early settings now k t h = rw (lt→ltb now (t + settings.cooldown_ms) h) refl

start-late :
    (settings : Settings) (now k t : ℕ)
    → t + settings.cooldown_ms ≤ now
    → start settings now (record { state = opened; consecutive_failures = k; opened_at = t })
      ≡ ok (record { state = half_open; consecutive_failures = k; opened_at = t })
unfolding start
start-late settings now k t h = rw (not_before now (t + settings.cooldown_ms) h) refl

-- How many of the calls that start one after the other are sent, while none of them ends.
unfoldable pub sent_count : Settings → List ℕ → Circuit → ℕ
unfolding start
sent_count settings [] c = 0
sent_count settings (now ∷ rest) c = elim (start settings now c) [
  | err e ↦ sent_count settings rest c
  | ok c' ↦ suc (sent_count settings rest c')
]

was_less : (a b : ℕ) → ltb a b ≡ true → a < b
was_less a b h = ground arith

step-early :
    (settings : Settings) (now k t : ℕ)
    → now < t + settings.cooldown_ms
    → step settings
        (starts now)
        (record { state = opened; consecutive_failures = k; opened_at = t })
      ≡ record { state = opened; consecutive_failures = k; opened_at = t }
unfolding step
step-early settings now k t h = rw (start-early settings now k t h, step) refl

early_refused :
    (settings : Settings) (times : List ℕ) (k t : ℕ)
    → all (λ n. ltb n (t + settings.cooldown_ms)) times ≡ true
    → (sent_count settings times
          (record { state = opened; consecutive_failures = k; opened_at = t })
        ≡ 0)
      × (run settings
            (map starts times)
            (record { state = opened; consecutive_failures = k; opened_at = t })
          ≡ record { state = opened; consecutive_failures = k; opened_at = t })
unfolding sent_count run step start
early_refused settings [] k t h = (refl, refl)
early_refused settings (n ∷ times) k t h = elim (Bool-cases (ltb n (t + settings.cooldown_ms))) [
  | inl early ↦
      let (sent, same) = early_refused settings times k t (rw early at h) in
      (
        rw (early, sent_count) sent,
        ap (run settings (map starts times))
              (step-early settings n k t (was_less n (t + settings.cooldown_ms) early))
            ∙ same,
      )
  | inr late ↦ cc (rw late at h)
]

-- After a failure that opens the circuit, and while no call that is still under way ends, no call that
-- starts within the cooldown is sent to the provider, however many they are: each leaves the circuit
-- as it was, and gets an error that says how long is left. The first call after the cooldown is sent,
-- and an answer to it closes the circuit.
pub settle-cooldown :
    (settings : Settings) (t : ℕ) (race : Race) (e : ProviderError) (c : Circuit)
    → with_timeout race ≡ err e
    → Trips settings c
    → (times : List ℕ) (now : ℕ) → all (λ n. ltb n (t + settings.cooldown_ms)) times ≡ true
    → let c' = run settings (map starts times) (settle settings t race c).1 in
      (sent_count settings times (settle settings t race c).1 ≡ 0)
      × (now < t + settings.cooldown_ms
          → (left : ℕ) × (start settings now c' ≡ err (circuit_open left))
            × (now + left ≡ t + settings.cooldown_ms))
      × (t + settings.cooldown_ms ≤ now
          → (ended : ℕ) (o : ProviderOutcome)
          → ((guarded settings now ended (answer o) c').0 ≡ ok o)
            × ((guarded settings now ended (answer o) c').1.state ≡ closed))
unfolding guarded settle
settle-cooldown settings t race e c failed trips times now early =
    let k = c.consecutive_failures + 1 in
    let trip = settle-tripped settings t race e c failed trips in
    let (sent, same) = early_refused settings times k t early in
    let stays = ap (run settings (map starts times)) trip ∙ same in
    (
      ap (sent_count settings times) trip ∙ sent,
      λ soon. (
        t + settings.cooldown_ms - now,
        ap (start settings now) stays ∙ start-early settings now k t soon,
        omega arith,
      ),
      λ late ended o.
          subst
            (λ x.
              ((guarded settings now ended (answer o) x).0 ≡ ok o)
              × ((guarded settings now ended (answer o) x).1.state ≡ closed))
            (sym stays) (rw (start-late settings now k t late, guarded) (refl, refl)),
    )

half_open_sends :
    (settings : Settings) (times : List ℕ) (k t : ℕ)
    → sent_count settings times
        (record { state = half_open; consecutive_failures = k; opened_at = t })
      ≡ length times
unfolding sent_count
half_open_sends settings [] k t = refl
half_open_sends settings (now ∷ times) k t = ap suc (half_open_sends settings times k t)

-- Once the cooldown is over, every call that starts before one of them ends is sent to the provider,
-- however many they are, and not one alone.
pub sent_count_half_open :
    (settings : Settings) (first : ℕ) (rest : List ℕ) (k t : ℕ)
    → t + settings.cooldown_ms ≤ first
    → sent_count settings
        (first ∷ rest)
        (record { state = opened; consecutive_failures = k; opened_at = t })
      ≡ length rest + 1
unfolding sent_count
sent_count_half_open settings first rest k t late =
    rw (start-late settings first k t late, sent_count)
      (ap suc (half_open_sends settings rest k t) ∙ (omega arith))
