-- ===== src/Idempotency/Tests.antt =====
-- packages/idempotency: examples. The effect counts the payments.
use fluvia.Base.{
  ℕ, ◌+◌, ◌≡◌, refl, true, false, List, [], ◌∷◌, pos, Result, ok, err, Option, none, some,
  if◌then◌else◌,
}
use fluvia.Base.Text.{Text, text_eq}
use fluvia.Idempotency.{
  IdempotencyError, key_reuse, IdempotentResponse, ExecuteIdempotentResult, Store,
  ExecuteIdempotentInput, ClaimFailure, lock_timed_out, find_row, first_run, transaction, execute,
  IdempotencyServiceOptions, IdempotencyService, new_service, read_setting, floors_to,
}
use fluvia.Idempotency.Once.{AllKeepKeys, run_all, execute-once}
use fluvia.Idempotency.Settled.{KeepsKeys}
use fluvia.Idempotency.Limits.{IsLimited, new_service-IsLimited}

abbrev pub pay : Store ℕ ℕ → Result IdempotencyError (IdempotentResponse ℕ × Store ℕ ℕ)
pay store =
    ok (record { status = 201; body = store.effects }, record store { effects = store.effects + 1 })

abbrev pub request : Text → Text → ExecuteIdempotentInput ℕ ℕ
request key hash = record { endpoint = 80 ∷ []; key = key; request_hash = hash; handler = pay }

abbrev pub empty_store : Store ℕ ℕ
empty_store = record { keys = []; effects = 7 }

pub request-KeepsKeys : (key hash : Text) → KeepsKeys (request key hash)
unfolding KeepsKeys
request-KeepsKeys key hash before response after h = cc

abbrev pub first_result : ExecuteIdempotentResult ℕ
first_result = record { response = record { status = 201; body = 7 }; replayed = false }

pub first_unstored : find_row (80 ∷ []) (1 ∷ []) empty_store.keys ≡ none
unfolding find_row
first_unstored = refl

first_succeeds : (execute none (request (1 ∷ []) (5 ∷ [])) empty_store).0 ≡ ok first_result
unfolding execute transaction first_run find_row
first_succeeds = refl

abbrev pub between : List (Option ClaimFailure × ExecuteIdempotentInput ℕ ℕ)
between =
    (none, request (2 ∷ []) (5 ∷ []))
    ∷ (some lock_timed_out, request (1 ∷ []) (5 ∷ []))
    ∷ (none, request (1 ∷ []) (6 ∷ []))
    ∷ []

pub between-AllKeepKeys : AllKeepKeys between
between-AllKeepKeys = (
  request-KeepsKeys (2 ∷ []) (5 ∷ []),
  (request-KeepsKeys (1 ∷ []) (5 ∷ []), (request-KeepsKeys (1 ∷ []) (6 ∷ []), tt)),
)

execute-once_example :
    execute none
      (request (1 ∷ []) (5 ∷ []))
      (run_all between (execute none (request (1 ∷ []) (5 ∷ [])) empty_store).1)
    ≡ (
      if text_eq (5 ∷ []) (5 ∷ [])
          then ok (record { response = first_result.response; replayed = true })
          else err (key_reuse (1 ∷ [])),
      run_all between (execute none (request (1 ∷ []) (5 ∷ [])) empty_store).1,
    )
execute-once_example =
    execute-once (request (1 ∷ []) (5 ∷ [])) (request-KeepsKeys (1 ∷ []) (5 ∷ [])) empty_store
      first_result between (request (1 ∷ []) (5 ∷ [])) first_unstored first_succeeds
      between-AllKeepKeys refl refl

abbrev some_options : IdempotencyServiceOptions
some_options = record {
  lock_timeout_ms = some (floors_to (pos 500));
  statement_timeout_ms = none;
  idle_in_tx_timeout_ms = none;
  retention_hours = some (floors_to (pos 48));
}

abbrev some_service : IdempotencyService
some_service = record {
  lock_timeout_ms = pos 500;
  statement_timeout_ms = pos 30000;
  idle_in_tx_timeout_ms = pos 60000;
  retention_hours = pos 48;
}

options_accepted : new_service some_options ≡ ok some_service
unfolding new_service read_setting
options_accepted = refl

new_service-IsLimited_example : IsLimited some_service
new_service-IsLimited_example = new_service-IsLimited some_options some_service options_accepted
