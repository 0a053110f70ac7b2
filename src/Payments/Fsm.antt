-- ===== src/Payments/Fsm.antt =====
-- packages/payments-core/src/fsm.ts: the statuses, the transition maps and the functions on them.
pub mod Machine
pub mod Runs
pub mod Outcomes
use fluvia.Base.{List, [], ◌∷◌}

pub data IntentStatus : Type 0 where
  created requires_payment_method requires_confirmation requires_action processing : IntentStatus
  authorized partially_captured succeeded failed canceled : IntentStatus
  partially_refunded refunded : IntentStatus

pub data AttemptStatus : Type 0 where
  created submitting submitted requires_action indeterminate succeeded failed expired :
      AttemptStatus

pub data RefundStatus : Type 0 where
  created processing indeterminate succeeded failed canceled : RefundStatus

pub data PayoutStatus : Type 0 where
  requested in_transit paid failed indeterminate : PayoutStatus

pub data DisputeStatus : Type 0 where
  opened under_review won lost : DisputeStatus

pub data CheckoutSessionStatus : Type 0 where
  opened completed expired : CheckoutSessionStatus

abbrev pub intent_statuses : List IntentStatus
intent_statuses =
    IntentStatus.created ∷ IntentStatus.requires_payment_method ∷ IntentStatus.requires_confirmation
    ∷ IntentStatus.requires_action ∷ IntentStatus.processing ∷ IntentStatus.authorized
    ∷ IntentStatus.partially_captured ∷ IntentStatus.succeeded ∷ IntentStatus.failed
    ∷ IntentStatus.canceled ∷ IntentStatus.partially_refunded ∷ IntentStatus.refunded ∷ []

unfoldable pub intent_transitions : IntentStatus → List IntentStatus
intent_transitions IntentStatus.created =
    IntentStatus.requires_payment_method ∷ IntentStatus.canceled ∷ []
intent_transitions IntentStatus.requires_payment_method =
    IntentStatus.requires_confirmation ∷ IntentStatus.canceled ∷ []
intent_transitions IntentStatus.requires_confirmation =
    IntentStatus.processing ∷ IntentStatus.canceled ∷ []
intent_transitions IntentStatus.requires_action = IntentStatus.processing ∷ IntentStatus.failed ∷ []
intent_transitions IntentStatus.processing =
    IntentStatus.requires_action ∷ IntentStatus.authorized ∷ IntentStatus.succeeded
    ∷ IntentStatus.failed ∷ []
intent_transitions IntentStatus.authorized =
    IntentStatus.partially_captured ∷ IntentStatus.succeeded ∷ IntentStatus.canceled ∷ []
intent_transitions IntentStatus.partially_captured = IntentStatus.succeeded ∷ []
intent_transitions IntentStatus.succeeded =
    IntentStatus.partially_refunded ∷ IntentStatus.refunded ∷ []
intent_transitions IntentStatus.partially_refunded =
    IntentStatus.refunded ∷ IntentStatus.partially_refunded ∷ []
intent_transitions IntentStatus.failed = []
intent_transitions IntentStatus.canceled = []
intent_transitions IntentStatus.refunded = []

abbrev pub attempt_statuses : List AttemptStatus
attempt_statuses =
    AttemptStatus.created ∷ AttemptStatus.submitting ∷ AttemptStatus.submitted
    ∷ AttemptStatus.requires_action ∷ AttemptStatus.indeterminate ∷ AttemptStatus.succeeded
    ∷ AttemptStatus.failed ∷ AttemptStatus.expired ∷ []

unfoldable pub attempt_transitions : AttemptStatus → List AttemptStatus
attempt_transitions AttemptStatus.created = AttemptStatus.submitting ∷ AttemptStatus.expired ∷ []
attempt_transitions AttemptStatus.submitting =
    AttemptStatus.submitted ∷ AttemptStatus.requires_action ∷ AttemptStatus.succeeded
    ∷ AttemptStatus.failed ∷ AttemptStatus.indeterminate ∷ []
attempt_transitions AttemptStatus.submitted =
    AttemptStatus.succeeded ∷ AttemptStatus.failed ∷ AttemptStatus.indeterminate
    ∷ AttemptStatus.expired ∷ []
attempt_transitions AttemptStatus.requires_action =
    AttemptStatus.submitted ∷ AttemptStatus.expired ∷ []
attempt_transitions AttemptStatus.indeterminate =
    AttemptStatus.succeeded ∷ AttemptStatus.failed ∷ []
attempt_transitions AttemptStatus.succeeded = []
attempt_transitions AttemptStatus.failed = []
attempt_transitions AttemptStatus.expired = []

abbrev pub refund_statuses : List RefundStatus
refund_statuses =
    RefundStatus.created ∷ RefundStatus.processing ∷ RefundStatus.indeterminate
    ∷ RefundStatus.succeeded ∷ RefundStatus.failed ∷ RefundStatus.canceled ∷ []

unfoldable pub refund_transitions : RefundStatus → List RefundStatus
refund_transitions RefundStatus.created = RefundStatus.processing ∷ RefundStatus.canceled ∷ []
refund_transitions RefundStatus.processing =
    RefundStatus.succeeded ∷ RefundStatus.failed ∷ RefundStatus.indeterminate ∷ []
refund_transitions RefundStatus.indeterminate = RefundStatus.succeeded ∷ RefundStatus.failed ∷ []
refund_transitions RefundStatus.succeeded = []
refund_transitions RefundStatus.failed = []
refund_transitions RefundStatus.canceled = []

abbrev pub payout_statuses : List PayoutStatus
payout_statuses =
    PayoutStatus.requested ∷ PayoutStatus.in_transit ∷ PayoutStatus.paid ∷ PayoutStatus.failed
    ∷ PayoutStatus.indeterminate ∷ []

unfoldable pub payout_transitions : PayoutStatus → List PayoutStatus
payout_transitions PayoutStatus.requested = PayoutStatus.in_transit ∷ PayoutStatus.failed ∷ []
payout_transitions PayoutStatus.in_transit =
    PayoutStatus.paid ∷ PayoutStatus.failed ∷ PayoutStatus.indeterminate ∷ []
payout_transitions PayoutStatus.indeterminate = PayoutStatus.paid ∷ PayoutStatus.failed ∷ []
payout_transitions PayoutStatus.paid = []
payout_transitions PayoutStatus.failed = []

abbrev pub dispute_statuses : List DisputeStatus
dispute_statuses =
    DisputeStatus.opened ∷ DisputeStatus.under_review ∷ DisputeStatus.won ∷ DisputeStatus.lost ∷ []

unfoldable pub dispute_transitions : DisputeStatus → List DisputeStatus
dispute_transitions DisputeStatus.opened =
    DisputeStatus.under_review ∷ DisputeStatus.won ∷ DisputeStatus.lost ∷ []
dispute_transitions DisputeStatus.under_review = DisputeStatus.won ∷ DisputeStatus.lost ∷ []
dispute_transitions DisputeStatus.won = []
dispute_transitions DisputeStatus.lost = []

abbrev pub checkout_session_statuses : List CheckoutSessionStatus
checkout_session_statuses =
    CheckoutSessionStatus.opened ∷ CheckoutSessionStatus.completed ∷ CheckoutSessionStatus.expired
    ∷ []

unfoldable pub checkout_session_transitions : CheckoutSessionStatus → List CheckoutSessionStatus
checkout_session_transitions CheckoutSessionStatus.opened =
    CheckoutSessionStatus.completed ∷ CheckoutSessionStatus.expired ∷ []
checkout_session_transitions CheckoutSessionStatus.completed = []
checkout_session_transitions CheckoutSessionStatus.expired = []
