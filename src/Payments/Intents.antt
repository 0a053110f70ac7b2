-- ===== src/Payments/Intents.antt =====
-- packages/payments-core/src/service.ts: the payment intents of a tenant, and the rows that the payment
-- services share. `now` and new ids come from the database.
use fluvia.Base.{
  ℕ, ◌+◌, ◌==◌, ℤ, not, List, [], ◌∷◌, ◌++◌, Result, ok, err, ◌>>◌, throw_if, Option, none, some,
  if◌then◌else◌,
}
use fluvia.Base.Enum.{eqb}
use fluvia.Base.Text.{Text}
use fluvia.Money.Currency.{CurrencyCode}
use fluvia.Money.Value.{Money}
use fluvia.Ledger.Types.{LedgerError}
use fluvia.Payments.Fsm.{IntentStatus, RefundStatus, intent_transitions}
use fluvia.Payments.Fsm.Machine.{can_transition, intent_enum}

pub data CaptureMethod : Type 0 where
  automatic manual : CaptureMethod

-- payment_intents
pub record Intent : Type 0 where
  pub id : ℕ
  pub merchant_id : Text
  pub amount : ℤ
  pub currency : CurrencyCode
  pub status : IntentStatus
  pub capture_method : CaptureMethod
  pub amount_captured : ℕ
  pub amount_refunded : ℕ
  pub version : ℕ
  pub failure_code : Option Text
  pub canceled_at : Option ℕ
  pub succeeded_at : Option ℕ

-- refunds
pub record Refund : Type 0 where
  pub id : ℕ
  pub payment_intent_id : ℕ
  pub amount : ℕ
  pub currency : CurrencyCode
  pub status : RefundStatus
  pub reason : Option Text
  pub failure_code : Option Text
  pub provider : Text
  pub provider_ref : Option Text
  pub resolved_at : Option ℕ

-- The postings that the ledger holds for the refunds: the key `refund:${id}:request` and its like.
pub data PostingKind : Type 0 where
  request settle cancel : PostingKind

pub record Posting : Type 0 where
  pub refund_id : ℕ
  pub kind : PostingKind
  pub amount : ℕ

-- The rows that the services put into outbox_events.
pub data PaymentEvent : Type 0 where
  intent_event : ℕ → IntentStatus → PaymentEvent
  refund_event : ℕ → RefundStatus → PaymentEvent

pub record Store : Type 0 where
  pub intents : List Intent
  pub refunds : List Refund
  pub postings : List Posting
  pub events : List PaymentEvent

-- packages/payments-core/src/errors.ts, and what the database and the ledger raise. A refund that is
-- not ready is an `Error` of its own.
pub data PaymentsError : Type 0 where
  intent_not_found refund_not_found : PaymentsError
  invalid_state_transition : IntentStatus → IntentStatus → PaymentsError
  refund_amount_exceeds_remaining : ℤ → ℤ → PaymentsError
  illegal_transition check_violation type_error : PaymentsError
  ledger : LedgerError → PaymentsError
  retry_later : RefundStatus → PaymentsError

-- `payment_intents WHERE id = $1`
unfoldable pub find_intent : ℕ → List Intent → Option Intent
find_intent i [] = none
find_intent i (x ∷ xs) = if x.id == i then some x else find_intent i xs

-- `UPDATE payment_intents ... WHERE id = $1`
unfoldable pub update_intent : ℕ → (Intent → Intent) → List Intent → List Intent
update_intent i f [] = []
update_intent i f (x ∷ xs) = if x.id == i then f x ∷ xs else x ∷ update_intent i f xs

pub record CreateIntentInput : Type 0 where
  pub merchant_id : Text
  pub amount : Money
  pub capture_method : Option CaptureMethod

abbrev method_or_automatic : Option CaptureMethod → CaptureMethod
method_or_automatic none = automatic
method_or_automatic (some m) = m

-- `createIn`
unfoldable pub create_in : ℕ → CreateIntentInput → Store → Intent × Store
create_in new_id input s =
    let row : Intent = record {
      id = new_id;
      merchant_id = input.merchant_id;
      amount = input.amount.amount;
      currency = input.amount.currency;
      status = IntentStatus.created;
      capture_method = method_or_automatic input.capture_method;
      amount_captured = 0;
      amount_refunded = 0;
      version = 0;
      failure_code = none;
      canceled_at = none;
      succeeded_at = none;
    } in
    (
      row,
      record s {
        intents = s.intents ++ row ∷ [];
        events = s.events ++ intent_event new_id IntentStatus.created ∷ [];
      },
    )

-- `get`
unfoldable pub get_intent : ℕ → Store → Result PaymentsError Intent
get_intent i s = elim (find_intent i s.intents) [ none ↦ err intent_not_found | some x ↦ ok x ]

-- The row that a transition writes.
unfoldable pub moved_intent : ℕ → IntentStatus → Option Text → Intent → Intent
moved_intent now to failure_code x = record x {
  status = to;
  version = x.version + 1;
  canceled_at = if eqb to IntentStatus.canceled then some now else x.canceled_at;
  succeeded_at = if eqb to IntentStatus.succeeded then some now else x.succeeded_at;
  failure_code = if eqb to IntentStatus.failed then failure_code else x.failure_code;
}

-- `transitionIn`
unfoldable pub transition_in :
    ℕ → ℕ → IntentStatus → Option Text → Store → Result PaymentsError Store
unfolding moved_intent
transition_in now i to failure_code s = elim (find_intent i s.intents) [
  | none ↦ err intent_not_found
  | some x ↦
      throw_if (not (can_transition intent_transitions x.status to))
        (invalid_state_transition x.status to)
      >> ok (record s {
        intents = update_intent i (moved_intent now to failure_code) s.intents;
        events = s.events ++ intent_event i to ∷ [];
      })
]
