-- ===== src/Payments/Refunds.antt =====
-- packages/payments-core/src/refunds.ts: a refund in two phases. A posting of the ledger runs its hook
-- in its own transaction, unless its key has been posted before; `refused` is the error with which
-- the ledger may refuse it.
pub mod Execute
pub mod Booked
pub mod Agree
pub mod Calls
pub mod Remaining
pub mod Tally
pub mod Success
pub mod Tests
use fluvia.Base.{
  ℕ, ◌+◌, ◌==◌, ◌≡◌, refl, ℤ, pos, pos_part, sub_ℕ, ltb_ℤ, Bool, true, false, ◌&&◌, ◌||◌, not, List,
  [], ◌∷◌, ◌++◌, any, Result, ok, err, ◌>>=◌, ◌>>◌, throw_if, Option, none, some, if◌then◌else◌,
  leb, ltb,
}
use fluvia.Base.Enum.{Enum, nth, eqb}
use fluvia.Base.Text.{Text, text_eq}
use fluvia.Ledger.Types.{LedgerError, insufficient_balance}
use fluvia.Payments.Fsm.{IntentStatus, RefundStatus, refund_transitions}
use fluvia.Payments.Fsm.Machine.{can_transition, intent_enum, refund_enum}
use fluvia.Payments.Resilience.{
  Verdict, approved, declined, pending, ProviderOutcome, ProviderError, circuit_open,
}
use fluvia.Payments.Intents.{
  Intent, Refund, PostingKind, request, settle, cancel, Posting, refund_event, Store, PaymentsError,
  intent_not_found, refund_not_found, invalid_state_transition, refund_amount_exceeds_remaining,
  illegal_transition, check_violation, type_error, ledger, retry_later, find_intent, update_intent,
  transition_in,
}

abbrev pub posting_kind_index : PostingKind → ℕ
posting_kind_index request = 0
posting_kind_index settle = 1
posting_kind_index cancel = 2

abbrev pub same_kind : PostingKind → PostingKind → Bool
same_kind a b = posting_kind_index a == posting_kind_index b

-- `refunds WHERE id = $1`
unfoldable pub find_refund : ℕ → List Refund → Option Refund
find_refund i [] = none
find_refund i (r ∷ rs) = if r.id == i then some r else find_refund i rs

unfoldable pub update_refund : ℕ → (Refund → Refund) → List Refund → List Refund
update_refund i f [] = []
update_refund i f (r ∷ rs) = if r.id == i then f r ∷ rs else r ∷ update_refund i f rs

-- `status IN ('created', 'processing')`
abbrev pub is_in_flight : Refund → Bool
is_in_flight r = eqb r.status RefundStatus.created || eqb r.status RefundStatus.processing

-- `SELECT COALESCE(SUM(amount), 0)` of the refunds of an intent that pass a test.
unfoldable pub sum_amounts : (Refund → Bool) → ℕ → List Refund → ℕ
sum_amounts p i [] = 0
sum_amounts p i (r ∷ rs) =
    (if (r.payment_intent_id == i) && p r then r.amount else 0) + sum_amounts p i rs

pub record CreateRefundInput : Type 0 where
  pub payment_intent_id : ℕ
  pub amount : Option ℤ
  pub reason : Option Text

-- `input.amount ?? (remaining > 0n ? remaining : 0n)`
abbrev pub requested_amount : Option ℤ → ℤ → ℤ
requested_amount none remaining = if ltb_ℤ (pos 0) remaining then remaining else pos 0
requested_amount (some amount) remaining = amount

abbrev pub remaining_of : Intent → List Refund → ℤ
remaining_of x refunds =
    sub_ℕ x.amount_captured (x.amount_refunded + sum_amounts is_in_flight x.id refunds)

abbrev pub is_refundable : Intent → Bool
is_refundable x =
    eqb x.status IntentStatus.succeeded || eqb x.status IntentStatus.partially_refunded

abbrev pub new_refund : ℕ → Text → Intent → ℕ → Option Text → Refund
new_refund new_id provider x amount reason = record {
  id = new_id;
  payment_intent_id = x.id;
  amount = amount;
  currency = x.currency;
  status = RefundStatus.created;
  reason = reason;
  failure_code = none;
  provider = provider;
  provider_ref = none;
  resolved_at = none;
}

-- `beginIn`
unfoldable pub begin_in :
    ℕ → Text → CreateRefundInput → Store → Result PaymentsError (Refund × Store)
unfolding sum_amounts
begin_in new_id provider input s = elim (find_intent input.payment_intent_id s.intents) [
  | none ↦ err intent_not_found
  | some x ↦
      let remaining = remaining_of x s.refunds in
      let requested = requested_amount input.amount remaining in
      let row = new_refund new_id provider x (pos_part requested) input.reason in
      throw_if (not (is_refundable x)) (invalid_state_transition x.status IntentStatus.refunded)
      >> (throw_if (not (ltb_ℤ (pos 0) requested) || ltb_ℤ remaining requested)
            (refund_amount_exceeds_remaining requested remaining)
          >> ok (
            row,
            record s {
              refunds = s.refunds ++ row ∷ [];
              events = s.events ++ refund_event new_id RefundStatus.created ∷ [];
            },
          ))
]

pub record TransitionOptions : Type 0 where
  pub failure_code : Option Text
  pub provider_ref : Option Text
  pub silent : Bool

abbrev pub coalesce : Option Text → Option Text → Option Text
coalesce none old = old
coalesce (some x) old = some x

abbrev pub is_final : RefundStatus → Bool
is_final to =
    eqb to RefundStatus.succeeded || eqb to RefundStatus.failed || eqb to RefundStatus.canceled

-- The row that a transition writes.
unfoldable pub moved_refund : ℕ → RefundStatus → TransitionOptions → Refund → Refund
moved_refund now to opts r = record r {
  status = to;
  resolved_at = if is_final to then some now else r.resolved_at;
  failure_code = coalesce opts.failure_code r.failure_code;
  provider_ref = coalesce opts.provider_ref r.provider_ref;
}

-- `transitionRefund`, with the trigger on the status.
unfoldable pub transition_refund :
    ℕ → ℕ → RefundStatus → TransitionOptions → Store → Result PaymentsError Store
unfolding moved_refund
transition_refund now i to opts s = elim (find_refund i s.refunds) [
  | none ↦ err refund_not_found
  | some r ↦
      throw_if (not (can_transition refund_transitions r.status to)) illegal_transition
      >> ok (record s {
        refunds = update_refund i (moved_refund now to opts) s.refunds;
        events = if opts.silent then s.events else s.events ++ refund_event i to ∷ [];
      })
]

unfoldable pub has_posting : ℕ → PostingKind → List Posting → Bool
has_posting i k [] = false
has_posting i k (p ∷ ps) = (p.refund_id == i) && same_kind p.kind k || has_posting i k ps

-- A posting of the ledger with its hook `onPosted`: one transaction.
unfoldable pub post :
    Posting
    → Option LedgerError
    → (Store → Result PaymentsError Store)
    → Store
    → Result PaymentsError Store
unfolding has_posting
post p refused hook s = elim refused [
  | some e ↦ err (ledger e)
  | none ↦
      if has_posting p.refund_id p.kind s.postings
      then ok s
      else hook (record s { postings = s.postings ++ p ∷ [] })
]

abbrev pub no_options : TransitionOptions
no_options = record { failure_code = none; provider_ref = none; silent = false }

-- The reservation of `execute`.
unfoldable pub reserve_refund : ℕ → ℕ → ℕ → Option LedgerError → Store → Result PaymentsError Store
reserve_refund now i amount refused s =
    post (record { refund_id = i; kind = request; amount = amount }) refused
      (transition_refund now i RefundStatus.processing no_options) s

-- The update of the intent in `recordSucceeded`, with the check on the table.
unfoldable pub add_refunded : ℕ → ℕ → Store → Result PaymentsError Store
add_refunded intent amount s = elim (find_intent intent s.intents) [
  | none ↦ err type_error
  | some x ↦
      throw_if (ltb x.amount_captured (x.amount_refunded + amount)) check_violation
      >> ok (record s {
        intents =
            update_intent intent (λ y. record y { amount_refunded = y.amount_refunded + amount })
              s.intents;
      })
]

abbrev pub refunded_target : Intent → IntentStatus
refunded_target x =
    if x.amount_refunded == x.amount_captured
    then IntentStatus.refunded
    else IntentStatus.partially_refunded

-- The status of the intent after the update.
unfoldable pub move_intent : ℕ → ℕ → Store → Result PaymentsError Store
move_intent now intent s = elim (find_intent intent s.intents) [
  | none ↦ err intent_not_found
  | some x ↦ transition_in now intent (refunded_target x) none s
]

abbrev pub success_options : Text → TransitionOptions
success_options ref = record { failure_code = none; provider_ref = some ref; silent = false }

-- The hook of `recordSucceeded`.
unfoldable pub success_hook : ℕ → ℕ → ℕ → ℕ → Text → Store → Result PaymentsError Store
success_hook now i intent amount ref t = do
  t' ← transition_refund now i RefundStatus.succeeded (success_options ref) t
  t'' ← add_refunded intent amount t'
  move_intent now intent t''

-- `recordSucceeded`
unfoldable pub record_succeeded :
    ℕ → ℕ → ℕ → ℕ → Text → Option LedgerError → Store → Result PaymentsError Store
record_succeeded now i intent amount ref refused s =
    post (record { refund_id = i; kind = settle; amount = amount }) refused
      (success_hook now i intent amount ref) s

-- `recordFailed`
unfoldable pub record_failed :
    ℕ → ℕ → ℕ → Option Text → Text → Option LedgerError → Store → Result PaymentsError Store
record_failed now i amount ref code refused s =
    post (record { refund_id = i; kind = cancel; amount = amount }) refused
      (transition_refund now i RefundStatus.failed
        (record { failure_code = some code; provider_ref = ref; silent = false }))
      s

-- `recordIndeterminate`
unfoldable pub record_indeterminate : ℕ → ℕ → Store → Result PaymentsError Store
record_indeterminate now i s =
    transition_refund now i RefundStatus.indeterminate
      (record { failure_code = none; provider_ref = none; silent = true }) s
