-- ===== src/Payments/Resilience.antt =====
-- packages/payments-core/src/resilience.ts: the circuit breaker around a payment provider. The calls
-- of one process interleave at the `await`, so a call is two steps, `start` and `settle`.
pub mod Threshold
pub mod Cooldown
pub mod Tests
use fluvia.Base.{
  ℕ, ◌+◌, ◌-◌, ◌≡◌, Bool, true, false, ◌||◌, List, [], ◌∷◌, Result, ok, err, ◌>>=◌, ◌>>◌, throw_if,
  Option, none, some, if◌then◌else◌, leb, ltb,
}
use fluvia.Base.Text.{Text}

-- `ProviderOutcome`
pub data Verdict : Type 0 where
  approved declined pending : Verdict

pub record ProviderOutcome : Type 0 where
  pub outcome : Verdict
  pub provider_ref : Text
  pub failure_code : Option Text

-- What a guarded call throws. `rejected` is an error of the provider itself, `circuit_open` has the
-- milliseconds to wait.
pub data ProviderError : Type 0 where
  circuit_open : ℕ → ProviderError
  timed_out rejected not_supported : ProviderError

pub data CircuitState : Type 0 where
  closed opened half_open : CircuitState

pub record ResilientProviderOptions : Type 0 where
  pub timeout_ms : Option ℕ
  pub failure_threshold : Option ℕ
  pub cooldown_ms : Option ℕ

pub record Settings : Type 0 where
  pub timeout_ms : ℕ
  pub failure_threshold : ℕ
  pub cooldown_ms : ℕ

pub record Circuit : Type 0 where
  pub state : CircuitState
  pub consecutive_failures : ℕ
  pub opened_at : ℕ

abbrev pub new_circuit : Circuit
new_circuit = record { state = closed; consecutive_failures = 0; opened_at = 0 }

pub data RangeError : Type 0 where
  out_of_range : RangeError

abbrev pub get_or : ℕ → Option ℕ → ℕ
get_or default none = default
get_or default (some n) = n

-- The constructor, for options that are whole numbers, as its callers pass them.
unfoldable pub new_settings : ResilientProviderOptions → Result RangeError Settings
new_settings options =
    let timeout = get_or 10000 options.timeout_ms in
    let threshold = get_or 5 options.failure_threshold in
    let cooldown = get_or 30000 options.cooldown_ms in
    throw_if (ltb timeout 1 || ltb threshold 1 || ltb cooldown 1) out_of_range
    >> ok (record { timeout_ms = timeout; failure_threshold = threshold; cooldown_ms = cooldown })

-- Which promise of `Promise.race` is first: the provider's, or the timer's.
pub data Race : Type 0 where
  answer : ProviderOutcome → Race
  throws timer : Race

-- `withTimeout`
unfoldable pub with_timeout : Race → Result ProviderError ProviderOutcome
with_timeout (answer o) = ok o
with_timeout throws = err rejected
with_timeout timer = err timed_out

-- `guarded` up to the call: the circuit with which the request is sent, or the error.
unfoldable pub start : Settings → ℕ → Circuit → Result ProviderError Circuit
start settings now c = elim c.state [
  | closed ↦ ok c
  | half_open ↦ ok c
  | opened ↦
      if ltb now (c.opened_at + settings.cooldown_ms)
      then err (circuit_open (c.opened_at + settings.cooldown_ms - now))
      else ok (record c { state = half_open })
]

abbrev pub is_half_open : Circuit → Bool
is_half_open c = elim c.state [ closed ↦ false | opened ↦ false | half_open ↦ true ]

-- The `catch` of `guarded`.
unfoldable pub record_failure : Settings → ℕ → Circuit → Circuit
record_failure settings now c =
    let failures = c.consecutive_failures + 1 in
    if is_half_open c || leb settings.failure_threshold failures
    then record { state = opened; consecutive_failures = failures; opened_at = now }
    else record c { consecutive_failures = failures }

-- `guarded` from the end of the call: the circuit is as the other calls have left it.
unfoldable pub settle :
    Settings → ℕ → Race → Circuit → Result ProviderError ProviderOutcome × Circuit
unfolding with_timeout record_failure
settle settings now race c = elim (with_timeout race) [
  | ok outcome ↦ (ok outcome, record c { state = closed; consecutive_failures = 0 })
  | err e ↦ (err e, record_failure settings now c)
]

-- `guarded`, where no other call comes between.
unfoldable pub guarded :
    Settings → ℕ → ℕ → Race → Circuit → Result ProviderError ProviderOutcome × Circuit
unfolding start settle
guarded settings started ended race c = elim (start settings started c) [
  | err e ↦ (err e, c)
  | ok c' ↦ settle settings ended race c'
]

-- `refundPayment` and `submitPayout`: `none` where the inner provider does not have the operation.
unfoldable pub optional_call :
    Settings → ℕ → ℕ → Option Race → Circuit → Result ProviderError ProviderOutcome × Circuit
unfolding guarded
optional_call settings started ended none c = (err not_supported, c)
optional_call settings started ended (some race) c = guarded settings started ended race c

-- What happens to a breaker: some call starts, or some call ends.
pub data Event : Type 0 where
  starts : ℕ → Event
  ends : ℕ → Race → Event

unfoldable pub step : Settings → Event → Circuit → Circuit
unfolding start settle
step settings (starts now) c = elim (start settings now c) [ err e ↦ c | ok c' ↦ c' ]
step settings (ends now race) c = (settle settings now race c).1

unfoldable pub run : Settings → List Event → Circuit → Circuit
unfolding step
run settings [] c = c
run settings (e ∷ es) c = run settings es (step settings e c)
