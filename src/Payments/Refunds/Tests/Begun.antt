-- ===== src/Payments/Refunds/Tests/Begun.antt =====
-- Examples of refunds that are begun.
use fluvia.Base.{◌++◌, ℕ, ◌+◌, ◌≤◌, ◌≡◌, refl, pos, true, [], ◌∷◌, ok, Option, none, some, arith}
use fluvia.Payments.Fsm.{RefundStatus}
use fluvia.Payments.Intents.{Intent, Refund, refund_event, Store, find_intent}
use fluvia.Payments.Refunds.{
  is_refundable, is_in_flight, sum_amounts, CreateRefundInput, begin_in, new_refund,
}
use fluvia.Payments.Refunds.Remaining.{begin_in_within, begin_in-indeterminate}
use fluvia.Payments.Refunds.Tests.{mock, intent, paid, waiting}

abbrev input : Option ℕ → CreateRefundInput
input amount = record {
  payment_intent_id = 7;
  amount = elim amount [ none ↦ none | some n ↦ some (pos n) ];
  reason = none;
}

abbrev with_40 : Store
with_40 = record paid {
  refunds = new_refund 2 mock intent 40 none ∷ [];
  events = refund_event 2 RefundStatus.created ∷ [];
}

begun_40 : begin_in 2 mock (input (some 40)) paid ≡ ok (new_refund 2 mock intent 40 none, with_40)
unfolding begin_in find_intent
begun_40 = refl

begin_in_within_example :
    (x : Intent) × (find_intent 7 (intent ∷ []) ≡ some x)
    × (is_refundable x ≡ true)
    × (with_40.refunds ≡ paid.refunds ++ new_refund 2 mock intent 40 none ∷ [])
    × ((new_refund 2 mock intent 40 none).payment_intent_id ≡ x.id)
    × (is_in_flight (new_refund 2 mock intent 40 none) ≡ true)
    × (1 ≤ 40)
    × (x.amount_refunded + sum_amounts is_in_flight x.id (new_refund 2 mock intent 40 none ∷ [])
        ≤ x.amount_captured)
begin_in_within_example =
    begin_in_within 2 mock (input (some 40)) paid with_40 (new_refund 2 mock intent 40 none)
      begun_40

found_intent : find_intent 7 (intent ∷ []) ≡ some intent
unfolding find_intent
found_intent = refl

-- The refund of 100 may still succeed.
begin_in-indeterminate_example :
    (row : Refund) × (s' : Store) × (begin_in 2 mock (input none) waiting ≡ ok (row, s'))
    × (row.amount ≡ 100)
begin_in-indeterminate_example =
    begin_in-indeterminate 2 mock (input none) waiting intent found_intent refl refl (omega arith)
      refl refl
