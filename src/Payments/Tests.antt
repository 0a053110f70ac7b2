-- ===== src/Payments/Tests.antt =====
-- packages/payments-core: examples.
use fluvia.Base.{true, ◌≤◌, ◌≡◌, refl, some, ok, arith}
use fluvia.Money.Currency.{usd}
use fluvia.Payments.Fsm.{
  IntentStatus, AttemptStatus, RefundStatus, PayoutStatus, DisputeStatus, intent_transitions,
  attempt_transitions, refund_transitions, payout_transitions, dispute_transitions,
}
use fluvia.Payments.Fsm.Machine.{
  can_transition, intent_enum, attempt_enum, refund_enum, payout_enum, dispute_enum,
}
use fluvia.Payments.Fsm.Runs.{Run, here, next, statuses_of, steps}
use fluvia.Base.Enum.{includes}
use fluvia.Payments.Fsm.Outcomes.{IsPaid, intent_stays-IsPaid, paid-passes_processing, runs_end}
use fluvia.Payments.Pricing.{platform_fee}
use fluvia.Payments.Pricing.Ceiling.{money, platform_fee-ceiling}

platform_fee-ceiling_example :
    (platform_fee (record { bps = 290 }) (money 1001 usd) ≡ ok (some (money 30 usd))) × (30 ≤ 1001)
platform_fee-ceiling_example = platform_fee-ceiling 290 1001 usd (omega arith)

refund_run : Run intent_transitions IntentStatus.succeeded IntentStatus.refunded
unfolding can_transition intent_transitions
refund_run =
    next {t = IntentStatus.partially_refunded} refl
      (next {t = IntentStatus.refunded} refl (here IntentStatus.refunded))

intent_stays-IsPaid_example : IsPaid IntentStatus.refunded
intent_stays-IsPaid_example = intent_stays-IsPaid refund_run tt

paid_run : Run intent_transitions IntentStatus.created IntentStatus.succeeded
unfolding can_transition intent_transitions
paid_run = next {t = IntentStatus.requires_payment_method} refl (
    next {t = IntentStatus.requires_confirmation} refl (
      next {t = IntentStatus.processing} refl
        (next {t = IntentStatus.succeeded} refl (here IntentStatus.succeeded))))

paid-passes_processing_example : includes (statuses_of paid_run) IntentStatus.processing ≡ true
paid-passes_processing_example = paid-passes_processing paid_run tt

attempt_run : Run attempt_transitions AttemptStatus.created AttemptStatus.failed
unfolding can_transition attempt_transitions
attempt_run =
    next {t = AttemptStatus.submitting} refl
      (next {t = AttemptStatus.failed} refl (here AttemptStatus.failed))

refund_object_run : Run refund_transitions RefundStatus.created RefundStatus.canceled
unfolding can_transition refund_transitions
refund_object_run = next {t = RefundStatus.canceled} refl (here RefundStatus.canceled)

payout_run : Run payout_transitions PayoutStatus.requested PayoutStatus.failed
unfolding can_transition payout_transitions
payout_run = next {t = PayoutStatus.failed} refl (here PayoutStatus.failed)

dispute_run : Run dispute_transitions DisputeStatus.opened DisputeStatus.won
unfolding can_transition dispute_transitions
dispute_run = next {t = DisputeStatus.won} refl (here DisputeStatus.won)

runs_end_example :
    (steps attempt_run ≤ 5)
    × (steps refund_object_run ≤ 3)
    × (steps payout_run ≤ 3)
    × (steps dispute_run ≤ 2)
runs_end_example = runs_end attempt_run refund_object_run payout_run dispute_run
