-- ===== src/Payments/Refunds/Calls.antt =====
-- The calls of the refund service keep the postings of the ledger and the statuses in agreement.
use fluvia.Base.{
  ℕ, ◌≡◌, refl, Bool, true, false, [], Result, ok, err, none, some, Option-cases, Result-cases,
  Bool-cases, inl, inr, if◌then◌else◌,
}
use fluvia.Base.Enum.{eqb}
use fluvia.Base.Text.{Text, text_eq}
use fluvia.Payments.Fsm.{RefundStatus}
use fluvia.Payments.Fsm.Machine.{refund_enum, intent_enum}
use fluvia.Payments.Resilience.{
  Verdict, ProviderOutcome, ProviderError, circuit_open, approved, declined, pending, timed_out,
  rejected, not_supported,
}
use fluvia.Payments.Intents.{retry_later, Refund, Store, PaymentsError, find_intent}
use fluvia.Payments.Refunds.{
  find_refund, TransitionOptions, transition_refund, reserve_refund, record_indeterminate, is_final,
}
use fluvia.Payments.Refunds.Booked.{IsBooked, alone-IsBooked}
use fluvia.Payments.Refunds.Execute.{
  Around, FailureCodes, is_insufficient, settled_in, record_verdict, record_answer, record_outcome,
  reserve, execute_refund, ResolveInput, Reported, resolved, resolve_from_provider, apply_report,
  Resolution, ignored_out_of_order, ignored, succeeded, failed, code_or,
}
use fluvia.Payments.Refunds.Agree.{
  reserve_refund-IsBooked, record_failed-IsBooked, record_succeeded-IsBooked, Opens-canceled,
  Opens-indeterminate,
}

settled_in-IsBooked :
    (s : Store) (r : Result PaymentsError Store)
    → IsBooked s
    → ((s' : Store) → r ≡ ok s' → IsBooked s')
    → IsBooked (settled_in s r).1
settled_in-IsBooked s (err e) booked keeps = booked
settled_in-IsBooked s (ok s') booked keeps = keeps s' refl

-- Other processes keep the agreement.
unfoldable pub OthersKeepBooked : Around → Type 0
OthersKeepBooked w =
    (s : Store) → IsBooked s → IsBooked (w.others_first s) × IsBooked (w.others_then s)

record_indeterminate-IsBooked :
    (now i : ℕ) (s s' : Store) → IsBooked s → record_indeterminate now i s ≡ ok s' → IsBooked s'
unfolding record_indeterminate
record_indeterminate-IsBooked now i s s' booked h =
    alone-IsBooked now i RefundStatus.indeterminate
      (record { failure_code = none; provider_ref = none; silent = true }) s s' Opens-indeterminate
      booked h

record_verdict-IsBooked :
    (w : Around) (codes : FailureCodes) (r : Refund) (o : ProviderOutcome) (v : Verdict)
    (t t' : Store)
    → IsBooked t
    → record_verdict w codes r o v t ≡ ok t'
    → IsBooked t'
unfolding record_verdict
record_verdict-IsBooked w codes r o approved t t' booked h =
    record_succeeded-IsBooked w.now r.id r.payment_intent_id r.amount o.provider_ref
      w.refused_record t t' booked h
record_verdict-IsBooked w codes r o declined t t' booked h =
    record_failed-IsBooked w.now r.id r.amount (some o.provider_ref)
      (code_or codes.refund_declined o.failure_code) w.refused_record t t' booked h
record_verdict-IsBooked w codes r o pending t t' booked h =
    record_indeterminate-IsBooked w.now r.id t t' booked h

record_answer-IsBooked :
    (w : Around) (codes : FailureCodes) (r : Refund) (a : Result ProviderError ProviderOutcome)
    (t t' : Store)
    → IsBooked t
    → record_answer w codes r a t ≡ ok t'
    → IsBooked t'
unfolding record_answer
record_answer-IsBooked w codes r (ok o) t t' booked h =
    record_verdict-IsBooked w codes r o o.outcome t t' booked h
record_answer-IsBooked w codes r (err (circuit_open wait)) t t' booked h =
    record_failed-IsBooked w.now r.id r.amount none codes.provider_unavailable w.refused_record t t'
      booked h
record_answer-IsBooked w codes r (err timed_out) t t' booked h =
    record_indeterminate-IsBooked w.now r.id t t' booked h
record_answer-IsBooked w codes r (err rejected) t t' booked h =
    record_indeterminate-IsBooked w.now r.id t t' booked h
record_answer-IsBooked w codes r (err not_supported) t t' booked h =
    record_indeterminate-IsBooked w.now r.id t t' booked h

record_outcome-IsBooked :
    (w : Around) (codes : FailureCodes) (r : Refund) (s : Store)
    → OthersKeepBooked w
    → IsBooked s
    → IsBooked (record_outcome w codes r s).1
unfolding record_outcome OthersKeepBooked
record_outcome-IsBooked w codes r s others booked =
    let after = (others s booked).1 in
    settled_in-IsBooked (w.others_then s)
      (record_answer w codes r w.provider_answer (w.others_then s)) after
      (λ t' e. record_answer-IsBooked w codes r w.provider_answer (w.others_then s) t' after e)

canceled_options : FailureCodes → TransitionOptions
canceled_options codes = record {
  failure_code = some codes.insufficient_merchant_balance;
  provider_ref = none;
  silent = false;
}

reserve-IsBooked :
    (w : Around) (codes : FailureCodes) (r : Refund) (s : Store)
    → OthersKeepBooked w
    → IsBooked s
    → IsBooked (reserve w codes r s).1
unfolding reserve OthersKeepBooked canceled_options
reserve-IsBooked w codes r s others booked =
    let t = w.others_first s in
    let first = (others s booked).0 in
    elim (Result-cases (reserve_refund w.now r.id r.amount w.refused_request t)) [
      | inl (t', done) ↦
          rw (done, reserve)
            (record_outcome-IsBooked w codes r t' others
              (reserve_refund-IsBooked w.now r.id r.amount w.refused_request t t' first done))
      | inr (e, refused) ↦ elim (Bool-cases (is_insufficient e)) [
        | inl poor ↦
            rw (refused, reserve)
              (rw poor (
                settled_in-IsBooked t
                  (transition_refund w.now r.id RefundStatus.canceled (canceled_options codes) t)
                  first
                  (λ t' done.
                    alone-IsBooked w.now r.id RefundStatus.canceled (canceled_options codes) t t'
                      Opens-canceled first done)))
        | inr other ↦ rw (refused, reserve) (rw other first)
      ]
    ]

executed :
    (b c : Bool) (s : Store) (x y : Result PaymentsError (Unit {0}) × Store)
    → IsBooked s
    → IsBooked x.1
    → IsBooked y.1
    → IsBooked (if b then x else if c then y else (ok tt, s)).1
executed true c s x y hs hx hy = hx
executed false true s x y hs hx hy = hy
executed false false s x y hs hx hy = hs

-- Carrying out a refund keeps the ledger and the refunds in agreement, whatever the ledger refuses
-- and the provider answers, and wherever other processes come in, if they keep it too: the reservation
-- stands exactly from `processing` on, it is settled exactly where the refund has succeeded, and
-- given back exactly where it has failed, so never both.
pub execute_refund-IsBooked :
    (w : Around) (codes : FailureCodes) (i : ℕ) (s : Store)
    → OthersKeepBooked w
    → IsBooked s
    → IsBooked (execute_refund w codes i s).1
unfolding execute_refund
execute_refund-IsBooked w codes i s others booked = elim (Option-cases (find_refund i s.refunds)) [
  | inl missing ↦ rw (missing, execute_refund) booked
  | inr (r, found) ↦ elim (Option-cases (find_intent r.payment_intent_id s.intents)) [
    | inl alone ↦ rw (found, execute_refund) (rw alone booked)
    | inr (x, joined) ↦
        rw (found, execute_refund)
          (rw joined (
            executed (eqb r.status RefundStatus.created) (eqb r.status RefundStatus.processing) s
              (reserve w codes r s) (record_outcome w codes r s) booked
              (reserve-IsBooked w codes r s others booked)
              (record_outcome-IsBooked w codes r s others booked)))
  ]
]

resolved-IsBooked :
    (s : Store) (r : Result PaymentsError Store)
    → IsBooked s
    → ((s' : Store) → r ≡ ok s' → IsBooked s')
    → IsBooked (resolved s r).1
resolved-IsBooked s (err e) booked keeps = booked
resolved-IsBooked s (ok s') booked keeps = keeps s' refl

apply_report-IsBooked :
    (w : Around) (codes : FailureCodes) (input : ResolveInput) (r : Refund) (report : Reported)
    (t t' : Store)
    → IsBooked t
    → apply_report w codes input r report t ≡ ok t'
    → IsBooked t'
unfolding apply_report
apply_report-IsBooked w codes input r succeeded t t' booked h =
    record_succeeded-IsBooked w.now r.id r.payment_intent_id r.amount
      (code_or [] input.provider_ref) w.refused_record t t' booked h
apply_report-IsBooked w codes input r failed t t' booked h =
    record_failed-IsBooked w.now r.id r.amount input.provider_ref
      (code_or codes.refund_declined input.failure_code) w.refused_record t t' booked h

-- The report of a verified source, of whatever refund and result, leaves the ledger and the refunds
-- in agreement where they were, and where other processes keep them so.
pub resolve_from_provider-IsBooked :
    (w : Around) (codes : FailureCodes) (provider : Text) (input : ResolveInput) (s : Store)
    → OthersKeepBooked w
    → IsBooked s
    → IsBooked (resolve_from_provider w codes provider input s).1
unfolding resolve_from_provider OthersKeepBooked
resolve_from_provider-IsBooked w codes provider input s others booked =
    elim (Option-cases (find_refund input.refund_id s.refunds)) [
      | inl missing ↦ rw (missing, resolve_from_provider) booked
      | inr (r, found) ↦ elim (Option-cases (find_intent r.payment_intent_id s.intents)) [
        | inl alone ↦ rw (found, resolve_from_provider) (rw alone booked)
        | inr (x, joined) ↦
            let t = w.others_first s in
            let first = (others s booked).0 in
            rw (found, resolve_from_provider)
              (rw joined (
                refused_or (text_eq r.provider provider) (is_final r.status)
                  (eqb r.status RefundStatus.created) (retry_later r.status) s
                  (resolved t (apply_report w codes input r input.outcome t)) booked
                  (resolved-IsBooked t (apply_report w codes input r input.outcome t) first
                    (λ t' e. apply_report-IsBooked w codes input r input.outcome t t' first e))))
      ]
    ]
  where
    refused_or :
        (a b c : Bool) (e : PaymentsError) (s : Store) (x : Result PaymentsError Resolution × Store)
        → IsBooked s
        → IsBooked x.1
        → IsBooked
            (if a
              then (if b then (ok ignored_out_of_order, s) else if c then (err e, s) else x)
              else (ok ignored, s)).1
    refused_or true true c e s x hs hx = hs
    refused_or true false true e s x hs hx = hs
    refused_or true false false e s x hs hx = hx
    refused_or false b c e s x hs hx = hs
