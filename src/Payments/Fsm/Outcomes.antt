-- ===== src/Payments/Fsm/Outcomes.antt =====
-- What the transition maps of payments promise.
use fluvia.Base.{ℕ, ◌≤◌, ◌<◌, ◌≡◌, refl, true, arith, ◌⊎◌, inl, inr}
use fluvia.Base.Enum.{includes}
use fluvia.Payments.Fsm.{
  IntentStatus, AttemptStatus, RefundStatus, PayoutStatus, DisputeStatus, intent_transitions,
  attempt_transitions, refund_transitions, payout_transitions, dispute_transitions,
}
use fluvia.Payments.Fsm.Machine.{
  intent_enum, attempt_enum, refund_enum, payout_enum, dispute_enum, checkout_session_enum,
}
use fluvia.Payments.Fsm.Runs.{All, Run, statuses_of, steps, Run-keeps, steps-le-rank, Run-passes}

-- An intent that has succeeded.
abbrev pub IsPaid : IntentStatus → Type 0
IsPaid IntentStatus.succeeded = Unit
IsPaid IntentStatus.partially_refunded = Unit
IsPaid IntentStatus.refunded = Unit
IsPaid _ = ⊥

IsPaid-closed : (s : IntentStatus) → IsPaid s → All IsPaid (intent_transitions s)
unfolding intent_transitions
IsPaid-closed IntentStatus.succeeded h = (tt, (tt, tt))
IsPaid-closed IntentStatus.partially_refunded h = (tt, (tt, tt))
IsPaid-closed IntentStatus.refunded h = tt
IsPaid-closed _ h = absurd h

-- An intent that has succeeded never fails and is never canceled: it goes on to refunds only.
pub intent_stays-IsPaid : {s t : IntentStatus} → Run intent_transitions s t → IsPaid s → IsPaid t
intent_stays-IsPaid r h = Run-keeps IsPaid IsPaid-closed r h

-- An intent that was never submitted: what comes before processing.
abbrev pub IsUnsubmitted : IntentStatus → Type 0
IsUnsubmitted IntentStatus.created = Unit
IsUnsubmitted IntentStatus.requires_payment_method = Unit
IsUnsubmitted IntentStatus.requires_confirmation = Unit
IsUnsubmitted IntentStatus.canceled = Unit
IsUnsubmitted _ = ⊥

abbrev StaysOrProcesses : IntentStatus → Type 0
StaysOrProcesses t = IsUnsubmitted t ⊎ (t ≡ IntentStatus.processing)

unsubmitted_closed :
    (s : IntentStatus) → IsUnsubmitted s → All StaysOrProcesses (intent_transitions s)
unfolding intent_transitions
unsubmitted_closed IntentStatus.created h = (inl tt, (inl tt, tt))
unsubmitted_closed IntentStatus.requires_payment_method h = (inl tt, (inl tt, tt))
unsubmitted_closed IntentStatus.requires_confirmation h = (inr refl, (inl tt, tt))
unsubmitted_closed IntentStatus.canceled h = tt
unsubmitted_closed _ h = absurd h

-- Every run from `created` to a status that is paid has `processing` among its statuses.
pub paid-passes_processing :
    {t : IntentStatus} (r : Run intent_transitions IntentStatus.created t)
    → IsPaid t
    → includes (statuses_of r) IntentStatus.processing ≡ true
paid-passes_processing {t} r paid =
    Run-passes IsUnsubmitted IntentStatus.processing unsubmitted_closed r tt (apart t paid)
  where
    apart : (s : IntentStatus) → IsPaid s → ¬ IsUnsubmitted s
    apart IntentStatus.succeeded p u = u
    apart IntentStatus.partially_refunded p u = u
    apart IntentStatus.refunded p u = u
    apart _ p u = p

-- How many transitions are left at most.
abbrev attempt_rank : AttemptStatus → ℕ
attempt_rank AttemptStatus.created = 5
attempt_rank AttemptStatus.submitting = 4
attempt_rank AttemptStatus.requires_action = 3
attempt_rank AttemptStatus.submitted = 2
attempt_rank AttemptStatus.indeterminate = 1
attempt_rank _ = 0

attempt_rank-le : (s : AttemptStatus) → attempt_rank s ≤ 5
attempt_rank-le AttemptStatus.created = omega arith
attempt_rank-le _ = omega arith

attempt_falls :
    (s : AttemptStatus) → All (λ t. attempt_rank t < attempt_rank s) (attempt_transitions s)
unfolding attempt_transitions
attempt_falls AttemptStatus.created = omega arith
attempt_falls _ = omega arith

abbrev refund_rank : RefundStatus → ℕ
refund_rank RefundStatus.created = 3
refund_rank RefundStatus.processing = 2
refund_rank RefundStatus.indeterminate = 1
refund_rank _ = 0

refund_rank-le : (s : RefundStatus) → refund_rank s ≤ 3
refund_rank-le RefundStatus.created = omega arith
refund_rank-le _ = omega arith

refund_falls : (s : RefundStatus) → All (λ t. refund_rank t < refund_rank s) (refund_transitions s)
unfolding refund_transitions
refund_falls RefundStatus.created = omega arith
refund_falls _ = omega arith

abbrev payout_rank : PayoutStatus → ℕ
payout_rank PayoutStatus.requested = 3
payout_rank PayoutStatus.in_transit = 2
payout_rank PayoutStatus.indeterminate = 1
payout_rank _ = 0

payout_rank-le : (s : PayoutStatus) → payout_rank s ≤ 3
payout_rank-le PayoutStatus.requested = omega arith
payout_rank-le _ = omega arith

payout_falls : (s : PayoutStatus) → All (λ t. payout_rank t < payout_rank s) (payout_transitions s)
unfolding payout_transitions
payout_falls PayoutStatus.requested = omega arith
payout_falls _ = omega arith

abbrev dispute_rank : DisputeStatus → ℕ
dispute_rank DisputeStatus.opened = 2
dispute_rank DisputeStatus.under_review = 1
dispute_rank _ = 0

dispute_rank-le : (s : DisputeStatus) → dispute_rank s ≤ 2
dispute_rank-le DisputeStatus.opened = omega arith
dispute_rank-le _ = omega arith

dispute_falls :
    (s : DisputeStatus) → All (λ t. dispute_rank t < dispute_rank s) (dispute_transitions s)
unfolding dispute_transitions
dispute_falls DisputeStatus.opened = omega arith
dispute_falls _ = omega arith

-- The objects with an outcome come to an end: a run of an attempt has at most five transitions, of a
-- refund and of a payout at most three, of a dispute at most two.
pub runs_end :
    {a a' : AttemptStatus} {r r' : RefundStatus} {p p' : PayoutStatus} {d d' : DisputeStatus}
    (attempt : Run attempt_transitions a a') (refund : Run refund_transitions r r')
    (payout : Run payout_transitions p p') (dispute : Run dispute_transitions d d')
    → (steps attempt ≤ 5) × (steps refund ≤ 3) × (steps payout ≤ 3) × (steps dispute ≤ 2)
runs_end {a} {a'} {r} {r'} {p} {p'} {d} {d'} attempt refund payout dispute = (
  omega (arith, steps-le-rank attempt_rank attempt_falls attempt, attempt_rank-le a),
  omega (arith, steps-le-rank refund_rank refund_falls refund, refund_rank-le r),
  omega (arith, steps-le-rank payout_rank payout_falls payout, payout_rank-le p),
  omega (arith, steps-le-rank dispute_rank dispute_falls dispute, dispute_rank-le d),
)
