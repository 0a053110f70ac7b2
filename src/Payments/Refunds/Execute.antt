-- ===== src/Payments/Refunds/Execute.antt =====
-- packages/payments-core/src/refunds.ts: `execute` and `resolveFromProvider`. Each transaction stands
-- alone, and other processes may act on the rows between two of them.
use fluvia.Base.{ℕ, Bool, true, false, [], Result, ok, err, Option, none, some, if◌then◌else◌}
use fluvia.Base.Enum.{eqb}
use fluvia.Base.Text.{Text, text_eq}
use fluvia.Ledger.Types.{LedgerError, insufficient_balance}
use fluvia.Payments.Fsm.{RefundStatus}
use fluvia.Payments.Fsm.Machine.{refund_enum}
use fluvia.Payments.Resilience.{
  Verdict, approved, declined, pending, ProviderOutcome, ProviderError, circuit_open,
}
use fluvia.Payments.Intents.{Refund, Store, PaymentsError, ledger, retry_later, find_intent}
use fluvia.Payments.Refunds.{
  find_refund, transition_refund, reserve_refund, record_succeeded, record_failed,
  record_indeterminate, is_final,
}

-- What is around a call: the clock, the ledger's refusals, what the provider does, and other
-- processes before each transaction.
pub record Around : Type 0 where
  pub now : ℕ
  pub refused_request : Option LedgerError
  pub refused_record : Option LedgerError
  pub provider_answer : Result ProviderError ProviderOutcome
  pub others_first : Store → Store
  pub others_then : Store → Store

-- The codes `insufficient_merchant_balance`, `provider_unavailable` and `refund_declined`.
pub record FailureCodes : Type 0 where
  pub insufficient_merchant_balance : Text
  pub provider_unavailable : Text
  pub refund_declined : Text

abbrev pub is_insufficient : PaymentsError → Bool
is_insufficient (ledger (insufficient_balance i b available)) = true
is_insufficient _ = false

abbrev pub code_or : Text → Option Text → Text
code_or default none = default
code_or default (some code) = code

-- `await` of a transaction: where it fails, the rows are as it found them.
abbrev pub settled_in : Store → Result PaymentsError Store → Result PaymentsError (Unit {0}) × Store
settled_in s (err e) = (err e, s)
settled_in s (ok s') = (ok tt, s')

-- What `execute` does with an outcome of the provider.
unfoldable pub record_verdict :
    Around → FailureCodes → Refund → ProviderOutcome → Verdict → Store → Result PaymentsError Store
record_verdict w codes r o approved t =
    record_succeeded w.now r.id r.payment_intent_id r.amount o.provider_ref w.refused_record t
record_verdict w codes r o declined t =
    record_failed w.now r.id r.amount (some o.provider_ref)
      (code_or codes.refund_declined o.failure_code) w.refused_record t
record_verdict w codes r o pending t = record_indeterminate w.now r.id t

-- What it does with the answer: only an open circuit says that nothing was sent.
unfoldable pub record_answer :
    Around
    → FailureCodes
    → Refund
    → Result ProviderError ProviderOutcome
    → Store
    → Result PaymentsError Store
unfolding record_verdict
record_answer w codes r (ok o) t = record_verdict w codes r o o.outcome t
record_answer w codes r (err (circuit_open wait)) t =
    record_failed w.now r.id r.amount none codes.provider_unavailable w.refused_record t
record_answer w codes r (err _) t = record_indeterminate w.now r.id t

-- The part of `execute` from the call of the provider.
unfoldable pub record_outcome :
    Around → FailureCodes → Refund → Store → Result PaymentsError (Unit {0}) × Store
unfolding record_answer
record_outcome w codes r s =
    settled_in (w.others_then s) (record_answer w codes r w.provider_answer (w.others_then s))

-- The reservation, where the row was read as `created`.
unfoldable pub reserve :
    Around → FailureCodes → Refund → Store → Result PaymentsError (Unit {0}) × Store
unfolding record_outcome
reserve w codes r s =
    let t = w.others_first s in
    elim (reserve_refund w.now r.id r.amount w.refused_request t) [
      | ok t' ↦ record_outcome w codes r t'
      | err e ↦
          if is_insufficient e
          then settled_in t (
              transition_refund w.now r.id RefundStatus.canceled
                (record {
                  failure_code = some codes.insufficient_merchant_balance;
                  provider_ref = none;
                  silent = false;
                })
                t)
          else (err e, t)
    ]

-- `execute`
unfoldable pub execute_refund :
    Around → FailureCodes → ℕ → Store → Result PaymentsError (Unit {0}) × Store
unfolding reserve record_outcome
execute_refund w codes i s = elim (find_refund i s.refunds) [
  | none ↦ (ok tt, s)
  | some r ↦ elim (find_intent r.payment_intent_id s.intents) [
    | none ↦ (ok tt, s)
    | some x ↦
        if eqb r.status RefundStatus.created
        then reserve w codes r s
        else if eqb r.status RefundStatus.processing
        then record_outcome w codes r s
        else (ok tt, s)
  ]
]

pub data Resolution : Type 0 where
  applied ignored_out_of_order ignored : Resolution

pub data Reported : Type 0 where
  succeeded failed : Reported

pub record ResolveInput : Type 0 where
  pub refund_id : ℕ
  pub outcome : Reported
  pub provider_ref : Option Text
  pub failure_code : Option Text

abbrev pub resolved : Store → Result PaymentsError Store → Result PaymentsError Resolution × Store
resolved s (err e) = (err e, s)
resolved s (ok s') = (ok applied, s')

-- The record of the result that is reported.
unfoldable pub apply_report :
    Around → FailureCodes → ResolveInput → Refund → Reported → Store → Result PaymentsError Store
apply_report w codes input r succeeded t =
    record_succeeded w.now r.id r.payment_intent_id r.amount (code_or [] input.provider_ref)
      w.refused_record t
apply_report w codes input r failed t =
    record_failed w.now r.id r.amount input.provider_ref
      (code_or codes.refund_declined input.failure_code) w.refused_record t

-- `resolveFromProvider`, of the provider with the given name.
unfoldable pub resolve_from_provider :
    Around → FailureCodes → Text → ResolveInput → Store → Result PaymentsError Resolution × Store
unfolding apply_report
resolve_from_provider w codes provider input s = elim (find_refund input.refund_id s.refunds) [
  | none ↦ (ok ignored, s)
  | some r ↦ elim (find_intent r.payment_intent_id s.intents) [
    | none ↦ (ok ignored, s)
    | some x ↦
        let t = w.others_first s in
        if text_eq r.provider provider
        then if is_final r.status
          then (ok ignored_out_of_order, s)
          else if eqb r.status RefundStatus.created
          then (err (retry_later r.status), s)
          else resolved t (apply_report w codes input r input.outcome t)
        else (ok ignored, s)
  ]
]
