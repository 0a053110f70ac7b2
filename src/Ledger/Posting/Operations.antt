-- ===== src/Ledger/Posting/Operations.antt =====
-- packages/ledger/src/posting.ts: the typed operations.
use fluvia.Base.{
  ℕ, Bool, ◌||◌, not, List, [], ◌∷◌, ◌++◌, Result, ok, err, ◌>>=◌, ◌>>◌, throw_if, Option, none,
  some, if◌then◌else◌,
}
use fluvia.Base.Enum.{eqb}
use fluvia.Base.Text.{Text}
use fluvia.Money.Currency.{CurrencyCode, MoneyError}
use fluvia.Money.Value.{Money, zero_money, add, subtract, is_positive, is_negative}
use fluvia.Ledger.Types.{
  LedgerReason, payment, reconciliation, Side, debit, credit, LedgerEntryInput, PostedTransaction,
  LedgerError, invalid_entries, fees_exceed_amount, money, side_enum,
}
use fluvia.Ledger.Chart.{
  AccountCode, chart_of_accounts, provider_clearing, provider_payable, provider_fees, platform_fees,
  suspense, recon_differences, merchant_pending,
}
use fluvia.Ledger.Db.{Db}
use fluvia.Ledger.Validate.{PostTransactionInput}
use fluvia.Ledger.Post.{Attempt, post_transaction}
use fluvia.Ledger.Posting.{Chart, ensure_chart, ensure_platform_accounts}

-- What the database brings to an operation: the ids of new accounts and the attempts to post.
pub record Engine : Type 0 where
  pub ids : Text → ℕ
  pub max_retries : ℕ
  pub attempt : ℕ → Attempt

pub record PostingContext : Type 0 where
  pub merchant_id : Text
  pub idempotency_key : Text
  pub source_type : Text
  pub source_id : Text
  pub on_posted : Option (PostedTransaction → Db → Result LedgerError Db)

pub record CapturePaymentInput : Type 0 where
  pub context : PostingContext
  pub amount : Money
  pub provider_fee : Option Money
  pub platform_fee : Option Money

pub record SimpleAmountInput : Type 0 where
  pub context : PostingContext
  pub amount : Money

pub record ReconAdjustmentInput : Type 0 where
  pub context : PostingContext
  pub amount : Money
  pub debit_differences : Bool

unfoldable pub entry : ℕ → Side → Money → LedgerEntryInput
entry account direction amount = record {
  account_id = account;
  direction = direction;
  amount = amount;
  bucket = none;
}

-- The input of `postTransaction` that the operations build.
unfoldable pub posting :
    PostingContext → LedgerReason → List LedgerEntryInput → List ℕ → PostTransactionInput
posting context reason entries guarded = record {
  idempotency_key = context.idempotency_key;
  reason = reason;
  source = record { kind = context.source_type; id = context.source_id };
  entries = entries;
  reverses_tx_id = none;
  non_negative_accounts = guarded;
  on_posted = context.on_posted;
}

-- An operation of `Money`, which may throw.
abbrev pub lift_money {ℓ} : {A : Type ℓ} → Result MoneyError A → Result LedgerError A
lift_money (ok a) = ok a
lift_money (err e) = err (money e)

-- `fee ?? Money.zero(currency)`
abbrev pub fee_or_zero : CurrencyCode → Option Money → Money
fee_or_zero currency none = zero_money currency
fee_or_zero currency (some fee) = fee

-- The checks of `capturePayment`.
unfoldable pub check_fees : Money → Money → Money → Result LedgerError (Unit {0})
check_fees amount provider_fee platform_fee = do
  throw_if (is_negative provider_fee || is_negative platform_fee) invalid_entries
  total_fees ← lift_money (add provider_fee platform_fee)
  rest ← lift_money (subtract amount total_fees)
  throw_if (not (is_positive rest)) fees_exceed_amount

abbrev pub provider_fee_entries : Chart → Money → List LedgerEntryInput
provider_fee_entries chart fee =
    if is_positive fee
    then entry (chart provider_fees) debit fee ∷ entry (chart provider_payable) credit fee ∷ []
    else []

abbrev pub platform_fee_entries : Chart → Money → List LedgerEntryInput
platform_fee_entries chart fee =
    if is_positive fee then entry (chart platform_fees) credit fee ∷ [] else []

-- The entries of a capture: `owed` is the amount less the platform's fee.
unfoldable pub capture_entries : Chart → Money → Money → Money → Money → List LedgerEntryInput
unfolding entry
capture_entries chart amount provider_fee platform_fee owed =
    entry (chart provider_clearing) debit amount
    ∷ (provider_fee_entries chart provider_fee
        ++ entry (chart merchant_pending) credit owed ∷ platform_fee_entries chart platform_fee)

-- The input of a capture.
unfoldable pub capture_input :
    CapturePaymentInput → Money → Money → Chart → Result LedgerError PostTransactionInput
unfolding posting capture_entries
capture_input input provider_fee platform_fee chart = do
  owed ← lift_money (subtract input.amount platform_fee)
  ok (
      posting input.context payment
        (capture_entries chart input.amount provider_fee platform_fee owed) [])

-- `await` of the posting: the rows as the provisioning left them.
abbrev pub post_after :
    Engine
    → Result LedgerError (Chart × Db)
    → (Chart → Result LedgerError PostTransactionInput)
    → Db
    → Result LedgerError PostedTransaction × Db
post_after engine (err e) build db = (err e, db)
post_after engine (ok (chart, db')) build db = elim (build chart) [
  | err e ↦ (err e, db')
  | ok input ↦ post_transaction engine.max_retries engine.attempt input db'
]

-- `capturePayment`
unfoldable pub capture_payment :
    Engine → CapturePaymentInput → Db → Result LedgerError PostedTransaction × Db
unfolding check_fees capture_input
capture_payment engine input db =
    let currency = input.amount.currency in
    let provider_fee = fee_or_zero currency input.provider_fee in
    let platform_fee = fee_or_zero currency input.platform_fee in
    elim (check_fees input.amount provider_fee platform_fee) [
      | err e ↦ (err e, db)
      | ok _ ↦
          post_after engine (ensure_chart engine.ids input.context.merchant_id currency db)
            (capture_input input provider_fee platform_fee) db
    ]

-- The accounts that the entry of two legs must not leave below zero.
unfoldable pub guarded_accounts : Chart → AccountCode → AccountCode → List ℕ
guarded_accounts chart debit_code credit_code =
    (if eqb ((chart_of_accounts debit_code).normal_side) credit then chart debit_code ∷ [] else [])
    ++ (if eqb ((chart_of_accounts credit_code).normal_side) debit
        then chart credit_code ∷ []
        else [])

unfoldable pub two_legged_input :
    SimpleAmountInput → LedgerReason → AccountCode → AccountCode → Chart → PostTransactionInput
unfolding posting entry guarded_accounts
two_legged_input input reason debit_code credit_code chart =
    posting input.context reason
      (entry (chart debit_code) debit input.amount
        ∷ entry (chart credit_code) credit input.amount
        ∷ [])
      (guarded_accounts chart debit_code credit_code)

-- `twoLegged`
unfoldable pub two_legged :
    Engine
    → SimpleAmountInput
    → LedgerReason
    → AccountCode
    → AccountCode
    → Db
    → Result LedgerError PostedTransaction × Db
unfolding two_legged_input
two_legged engine input reason debit_code credit_code db =
    if is_positive input.amount
    then post_after engine
        (ensure_chart engine.ids input.context.merchant_id input.amount.currency db)
        (λ chart. ok (two_legged_input input reason debit_code credit_code chart)) db
    else (err invalid_entries, db)

-- The input of `postReconAdjustment`.
unfoldable pub adjustment_input : ReconAdjustmentInput → Chart → PostTransactionInput
unfolding posting entry
adjustment_input input chart =
    let differences_id = chart recon_differences in
    let suspense_id = chart suspense in
    let debit_id = if input.debit_differences then differences_id else suspense_id in
    let credit_id = if input.debit_differences then suspense_id else differences_id in
    posting input.context reconciliation
      (entry debit_id debit input.amount ∷ entry credit_id credit input.amount ∷ []) []

-- `postReconAdjustment`
unfoldable pub post_recon_adjustment :
    Engine → ReconAdjustmentInput → Db → Result LedgerError PostedTransaction × Db
unfolding adjustment_input
post_recon_adjustment engine input db =
    if is_positive input.amount
    then post_after engine
        (ensure_platform_accounts engine.ids input.amount.currency
          (recon_differences ∷ suspense ∷ []) db)
        (λ chart. ok (adjustment_input input chart)) db
    else (err invalid_entries, db)
