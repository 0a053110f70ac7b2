-- ===== src/Payments/Resilience/Tests.antt =====
-- packages/payments-core/src/resilience.ts: examples.
use fluvia.Base.{
  ℕ, ◌+◌, ◌≤◌, ◌<◌, ◌≡◌, ◌↔◌, refl, List, [], ◌∷◌, ok, err, none, some, arith, length, map,
}
use fluvia.Payments.Resilience.{
  Verdict, ProviderOutcome, circuit_open, timed_out, closed, opened, ResilientProviderOptions,
  Settings, Circuit, new_circuit, new_settings, Event, starts, ends, answer, throws, timer, start,
  settle, guarded, run, with_timeout,
}
use fluvia.Payments.Resilience.Threshold.{failures_after, run-closed}
use fluvia.Payments.Resilience.Cooldown.{settle-cooldown, sent_count, sent_count_half_open}

abbrev options : ResilientProviderOptions
options = record { timeout_ms = none; failure_threshold = some 2; cooldown_ms = some 100 }

abbrev settings : Settings
settings = record { timeout_ms = 10000; failure_threshold = 2; cooldown_ms = 100 }

made : new_settings options ≡ ok settings
unfolding new_settings
made = refl

abbrev approval : ProviderOutcome
approval = record { outcome = Verdict.approved; provider_ref = []; failure_code = none }

-- Two calls at once fail, and a third that was under way is answered.
abbrev events : List Event
events =
    starts 10
    ∷ starts 11
    ∷ starts 12
    ∷ ends 20 throws
    ∷ ends 21 timer
    ∷ starts 30
    ∷ ends 40 (answer approval)
    ∷ ends 50 throws
    ∷ []

run-closed_example :
    ((run settings events new_circuit).consecutive_failures ≡ failures_after 0 events)
    × (((run settings events new_circuit).state ≡ closed) ↔ (failures_after 0 events < 2))
run-closed_example = run-closed options settings made events

abbrev nearly : Circuit
nearly = record { state = closed; consecutive_failures = 1; opened_at = 0 }

timed : with_timeout timer ≡ err timed_out
unfolding with_timeout
timed = refl

settle-cooldown_example :
    (sent_count settings (70 ∷ 159 ∷ 80 ∷ []) (settle settings 60 timer nearly).1 ≡ 0)
    × (150 < 60 + 100
        → (left : ℕ) × (start settings 150
              (run settings (map starts (70 ∷ 159 ∷ 80 ∷ [])) (settle settings 60 timer nearly).1)
            ≡ err (circuit_open left))
          × (150 + left ≡ 60 + 100))
    × (60 + 100 ≤ 150
        → (ended : ℕ) (o : ProviderOutcome)
        → ((guarded settings 150 ended (answer o) (
              run settings (map starts (70 ∷ 159 ∷ 80 ∷ [])) (settle settings 60 timer nearly).1)).0
            ≡ ok o)
          × ((guarded settings 150 ended (answer o) (
                run settings
                  (map starts (70 ∷ 159 ∷ 80 ∷ []))
                  (settle settings 60 timer nearly).1)).1.state
              ≡ closed))
settle-cooldown_example =
    settle-cooldown settings 60 timer timed_out nearly timed refl (70 ∷ 159 ∷ 80 ∷ []) 150 refl

sent_count_half_open_example :
    sent_count settings
      (200 ∷ 201 ∷ 202 ∷ [])
      (record { state = opened; consecutive_failures = 2; opened_at = 60 })
    ≡ length {A = ℕ} (201 ∷ 202 ∷ []) + 1
sent_count_half_open_example = sent_count_half_open settings 200 (201 ∷ 202 ∷ []) 2 60 (omega arith)
