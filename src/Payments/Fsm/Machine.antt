-- ===== src/Payments/Fsm/Machine.antt =====
-- packages/payments-core/src/fsm.ts: `canTransition` and `terminalStates`, over any of the maps, and
-- the equality of the statuses that they use.
use fluvia.Base.{ℕ, ◌==◌, ◌≡◌, refl, Bool, List, keep, length}
use fluvia.Base.Enum.{Enum, nth, includes}
use fluvia.Payments.Fsm.{
  IntentStatus, AttemptStatus, RefundStatus, PayoutStatus, DisputeStatus, CheckoutSessionStatus,
  intent_statuses, attempt_statuses, refund_statuses, payout_statuses, dispute_statuses,
  checkout_session_statuses,
}

module _ {ℓ} {S : Type ℓ} ⦃e : Enum S⦄ where
  -- `map[from]?.includes(to) ?? false`
  unfoldable pub can_transition : (S → List S) → S → S → Bool
  can_transition m from to = includes (m from) to

  -- The statuses with no way out.
  unfoldable pub terminal_states : (S → List S) → List S
  terminal_states m = keep (λ s. length (m s) == 0) e.values

abbrev intent_index : IntentStatus → ℕ
intent_index IntentStatus.created = 0
intent_index IntentStatus.requires_payment_method = 1
intent_index IntentStatus.requires_confirmation = 2
intent_index IntentStatus.requires_action = 3
intent_index IntentStatus.processing = 4
intent_index IntentStatus.authorized = 5
intent_index IntentStatus.partially_captured = 6
intent_index IntentStatus.succeeded = 7
intent_index IntentStatus.failed = 8
intent_index IntentStatus.canceled = 9
intent_index IntentStatus.partially_refunded = 10
intent_index IntentStatus.refunded = 11

pub intent_of_index-index :
    (s : IntentStatus) → nth IntentStatus.created intent_statuses (intent_index s) ≡ s
intent_of_index-index IntentStatus.created = refl
intent_of_index-index _ = refl

instance abbrev pub intent_enum : Enum IntentStatus
intent_enum = record {
  values = intent_statuses;
  index = intent_index;
  of_index = nth IntentStatus.created intent_statuses;
  of_index-index = intent_of_index-index;
}

abbrev attempt_index : AttemptStatus → ℕ
attempt_index AttemptStatus.created = 0
attempt_index AttemptStatus.submitting = 1
attempt_index AttemptStatus.submitted = 2
attempt_index AttemptStatus.requires_action = 3
attempt_index AttemptStatus.indeterminate = 4
attempt_index AttemptStatus.succeeded = 5
attempt_index AttemptStatus.failed = 6
attempt_index AttemptStatus.expired = 7

pub attempt_of_index-index :
    (s : AttemptStatus) → nth AttemptStatus.created attempt_statuses (attempt_index s) ≡ s
attempt_of_index-index AttemptStatus.created = refl
attempt_of_index-index _ = refl

instance abbrev pub attempt_enum : Enum AttemptStatus
attempt_enum = record {
  values = attempt_statuses;
  index = attempt_index;
  of_index = nth AttemptStatus.created attempt_statuses;
  of_index-index = attempt_of_index-index;
}

abbrev refund_index : RefundStatus → ℕ
refund_index RefundStatus.created = 0
refund_index RefundStatus.processing = 1
refund_index RefundStatus.indeterminate = 2
refund_index RefundStatus.succeeded = 3
refund_index RefundStatus.failed = 4
refund_index RefundStatus.canceled = 5

pub refund_of_index-index :
    (s : RefundStatus) → nth RefundStatus.created refund_statuses (refund_index s) ≡ s
refund_of_index-index RefundStatus.created = refl
refund_of_index-index _ = refl

instance abbrev pub refund_enum : Enum RefundStatus
refund_enum = record {
  values = refund_statuses;
  index = refund_index;
  of_index = nth RefundStatus.created refund_statuses;
  of_index-index = refund_of_index-index;
}

abbrev payout_index : PayoutStatus → ℕ
payout_index PayoutStatus.requested = 0
payout_index PayoutStatus.in_transit = 1
payout_index PayoutStatus.paid = 2
payout_index PayoutStatus.failed = 3
payout_index PayoutStatus.indeterminate = 4

pub payout_of_index-index :
    (s : PayoutStatus) → nth PayoutStatus.requested payout_statuses (payout_index s) ≡ s
payout_of_index-index PayoutStatus.requested = refl
payout_of_index-index _ = refl

instance abbrev pub payout_enum : Enum PayoutStatus
payout_enum = record {
  values = payout_statuses;
  index = payout_index;
  of_index = nth PayoutStatus.requested payout_statuses;
  of_index-index = payout_of_index-index;
}

abbrev dispute_index : DisputeStatus → ℕ
dispute_index DisputeStatus.opened = 0
dispute_index DisputeStatus.under_review = 1
dispute_index DisputeStatus.won = 2
dispute_index DisputeStatus.lost = 3

pub dispute_of_index-index :
    (s : DisputeStatus) → nth DisputeStatus.opened dispute_statuses (dispute_index s) ≡ s
dispute_of_index-index DisputeStatus.opened = refl
dispute_of_index-index _ = refl

instance abbrev pub dispute_enum : Enum DisputeStatus
dispute_enum = record {
  values = dispute_statuses;
  index = dispute_index;
  of_index = nth DisputeStatus.opened dispute_statuses;
  of_index-index = dispute_of_index-index;
}

abbrev checkout_session_index : CheckoutSessionStatus → ℕ
checkout_session_index CheckoutSessionStatus.opened = 0
checkout_session_index CheckoutSessionStatus.completed = 1
checkout_session_index CheckoutSessionStatus.expired = 2

pub checkout_session_of_index-index :
    (s : CheckoutSessionStatus)
    → nth CheckoutSessionStatus.opened checkout_session_statuses (checkout_session_index s) ≡ s
checkout_session_of_index-index CheckoutSessionStatus.opened = refl
checkout_session_of_index-index _ = refl

instance abbrev pub checkout_session_enum : Enum CheckoutSessionStatus
checkout_session_enum = record {
  values = checkout_session_statuses;
  index = checkout_session_index;
  of_index = nth CheckoutSessionStatus.opened checkout_session_statuses;
  of_index-index = checkout_session_of_index-index;
}
