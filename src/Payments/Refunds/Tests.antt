-- ===== src/Payments/Refunds/Tests.antt =====
-- packages/payments-core/src/refunds.ts: examples.
pub mod Begun
use fluvia.Base.{
  ℕ, ◌+◌, ◌≤◌, ◌≡◌, refl, pos, false, ◌&&◌, ◌||◌, ◌==◌, if◌then◌else◌, Bool, true, [], ◌∷◌, Result,
  ok, err, Option, none, some, arith,
}
use fluvia.Base.Text.{Text, text_eq}
use fluvia.Money.Currency.{usd}
use fluvia.Ledger.Types.{LedgerError, insufficient_balance, available}
use fluvia.Payments.Fsm.{IntentStatus, RefundStatus, refund_transitions, intent_transitions}
use fluvia.Payments.Fsm.Machine.{can_transition}
use fluvia.Payments.Resilience.{Verdict, ProviderOutcome, ProviderError, timed_out}
use fluvia.Payments.Intents.{
  CaptureMethod, Intent, Refund, update_intent, transition_in, refund_event, intent_event,
  PostingKind, request, settle, cancel, Store, find_intent,
}
use fluvia.Payments.Refunds.{
  same_kind, reserve_refund, record_failed, record_indeterminate, transition_refund, post,
  success_hook, add_refunded, move_intent, update_refund, is_refundable, is_in_flight, sum_amounts,
  CreateRefundInput, begin_in, new_refund, record_succeeded, find_refund, has_posting,
}
use fluvia.Payments.Refunds.Execute.{
  Around, FailureCodes, execute_refund, ResolveInput, Reported, resolve_from_provider,
}
use fluvia.Payments.Refunds.Booked.{IsBooked, status_of, expects_of, expects}
use fluvia.Payments.Refunds.Calls.{
  OthersKeepBooked, execute_refund-IsBooked, resolve_from_provider-IsBooked,
}
use fluvia.Payments.Refunds.Remaining.{begin_in_within, begin_in-indeterminate}
use fluvia.Payments.Refunds.Tally.{IsTallied, refunded_of}
use fluvia.Payments.Refunds.Success.{record_succeeded-IsTallied}

abbrev pub mock : Text
mock = 109 ∷ []

abbrev pub intent : Intent
intent = record {
  id = 7;
  merchant_id = 65 ∷ [];
  amount = pos 100;
  currency = usd;
  status = IntentStatus.succeeded;
  capture_method = CaptureMethod.automatic;
  amount_captured = 100;
  amount_refunded = 0;
  version = 4;
  failure_code = none;
  canceled_at = none;
  succeeded_at = some 50;
}

abbrev pub refund_in : RefundStatus → Refund
refund_in status = record {
  id = 1;
  payment_intent_id = 7;
  amount = 100;
  currency = usd;
  status = status;
  reason = none;
  failure_code = none;
  provider = mock;
  provider_ref = none;
  resolved_at = none;
}

abbrev pub paid : Store
paid = record { intents = intent ∷ []; refunds = []; postings = []; events = [] }

abbrev begun : Store
begun = record paid { refunds = refund_in RefundStatus.created ∷ [] }

abbrev pub waiting : Store
waiting = record paid {
  refunds = refund_in RefundStatus.indeterminate ∷ [];
  postings = record { refund_id = 1; kind = request; amount = 100 } ∷ [];
}

abbrev codes : FailureCodes
codes = record {
  insufficient_merchant_balance = 105 ∷ [];
  provider_unavailable = 112 ∷ [];
  refund_declined = 100 ∷ [];
}

abbrev approval : ProviderOutcome
approval = record { outcome = Verdict.approved; provider_ref = 114 ∷ []; failure_code = none }

abbrev around : Option LedgerError → Result ProviderError ProviderOutcome → Around
around refused answer = record {
  now = 60;
  refused_request = refused;
  refused_record = none;
  provider_answer = answer;
  others_first = λ s. s;
  others_then = λ s. s;
}

alone :
    (refused : Option LedgerError) (answer : Result ProviderError ProviderOutcome)
    → OthersKeepBooked (around refused answer)
unfolding OthersKeepBooked
alone refused answer s b = (b, b)

none_expected :
    (b : Bool) (k : PostingKind)
    → false ≡ expects_of k (if b then some RefundStatus.created else none)
unfolding expects
none_expected true request = refl
none_expected true settle = refl
none_expected true cancel = refl
none_expected false k = refl

request_expected :
    (b : Bool) (k : PostingKind)
    → b && same_kind request k || false
      ≡ expects_of k (if b then some RefundStatus.indeterminate else none)
unfolding expects
request_expected true request = refl
request_expected true settle = refl
request_expected true cancel = refl
request_expected false k = refl

begun-IsBooked : IsBooked begun
unfolding IsBooked has_posting status_of expects
begun-IsBooked i k = none_expected (1 == i) k

waiting-IsBooked : IsBooked waiting
unfolding IsBooked has_posting status_of expects
waiting-IsBooked i k = request_expected (1 == i) k

execute_refund-IsBooked_example :
    IsBooked (execute_refund (around none (ok approval)) codes 1 begun).1
execute_refund-IsBooked_example =
    execute_refund-IsBooked (around none (ok approval)) codes 1 begun (alone none (ok approval))
      begun-IsBooked

abbrev report : ResolveInput
report = record {
  refund_id = 1;
  outcome = Reported.failed;
  provider_ref = none;
  failure_code = none;
}

resolve_from_provider-IsBooked_example :
    IsBooked (resolve_from_provider (around none (ok approval)) codes mock report waiting).1
resolve_from_provider-IsBooked_example =
    resolve_from_provider-IsBooked (around none (ok approval)) codes mock report waiting
      (alone none (ok approval)) waiting-IsBooked

-- A success, a lack of funds, and a timeout.
after_calls :
    (status_of 1 (execute_refund (around none (ok approval)) codes 1 begun).1.refunds
      ≡ some RefundStatus.succeeded)
    × (status_of 1
          (execute_refund
            (around (some (insufficient_balance 3 available (pos 5))) (ok approval))
            codes
            1
            begun).1.refunds
        ≡ some RefundStatus.canceled)
    × (status_of 1 (execute_refund (around none (err timed_out)) codes 1 begun).1.refunds
        ≡ some RefundStatus.indeterminate)
    × (status_of 1
          (resolve_from_provider (around none (ok approval)) codes mock report waiting).1.refunds
        ≡ some RefundStatus.failed)
unfolding execute_refund resolve_from_provider status_of find_refund find_intent record_succeeded
    record_failed record_indeterminate reserve_refund transition_refund post success_hook
    add_refunded move_intent transition_in update_refund update_intent has_posting can_transition
    refund_transitions intent_transitions text_eq
after_calls = (refl, refl, refl, refl)

abbrev settled : Store
settled = record {
  intents =
      record intent { status = IntentStatus.refunded; amount_refunded = 100; version = 5 } ∷ [];
  refunds =
      record (refund_in RefundStatus.succeeded) {
        provider_ref = some (114 ∷ []);
        resolved_at = some 60;
      }
      ∷ [];
  postings =
      record { refund_id = 1; kind = request; amount = 100 }
      ∷ record { refund_id = 1; kind = settle; amount = 100 }
      ∷ [];
  events = refund_event 1 RefundStatus.succeeded ∷ intent_event 7 IntentStatus.refunded ∷ [];
}

recorded : record_succeeded 60 1 7 100 (114 ∷ []) none waiting ≡ ok settled
unfolding find_refund find_intent record_succeeded transition_refund post success_hook add_refunded
    move_intent transition_in update_refund update_intent has_posting can_transition
    refund_transitions intent_transitions
recorded = refl

found_refund : find_refund 1 waiting.refunds ≡ some (refund_in RefundStatus.indeterminate)
unfolding find_refund
found_refund = refl

waiting-IsTallied : IsTallied waiting
unfolding IsTallied refunded_of sum_amounts
waiting-IsTallied i = nothing_refunded (7 == i)
  where
    nothing_refunded : (b : Bool) → (if b then 0 else 0) ≡ (if b && false then 100 else 0) + 0
    nothing_refunded true = refl
    nothing_refunded false = refl

record_succeeded-IsTallied_example :
    IsTallied settled
    × (has_posting 1 settle waiting.postings ≡ true → settled ≡ waiting)
    × (has_posting 1 settle waiting.postings ≡ false
        → (status_of 1 settled.refunds ≡ some RefundStatus.succeeded)
          × ((j : ℕ)
              → refunded_of j settled.intents
                ≡ refunded_of j waiting.intents + (if 7 == j then 100 else 0)))
record_succeeded-IsTallied_example =
    record_succeeded-IsTallied 60 (refund_in RefundStatus.indeterminate) (114 ∷ []) none waiting
      settled found_refund waiting-IsTallied recorded

settled_now : has_posting 1 settle waiting.postings ≡ false
unfolding has_posting
settled_now = refl
