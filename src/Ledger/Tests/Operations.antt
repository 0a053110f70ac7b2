-- ===== src/Ledger/Tests/Operations.antt =====
-- Examples of the theorems on the typed operations and on reversals.
use fluvia.Base.{
  ℕ, ◌==◌, ◌≤◌, ◌≡◌, refl, true, false, List, [], ◌∷◌, map, length, pos, neg, ◌+ℤ◌, ltb_ℤ, some,
  none, ok, ◌-ℤ◌,
}
use fluvia.Money.Currency.{usd, eq_currency}
use fluvia.Money.Value.{Money, is_positive, is_negative, add, subtract, assert_same_currency}
use fluvia.Ledger.Types.{
  refund, debit, credit, available, pending, PostedEntry, PostedTransaction, reason_enum, side_enum,
  bucket_enum,
}
use fluvia.Ledger.Chart.{merchant_available, refund_liability, chart_of_accounts}
use mathlib.Core.List.{Mem}
use fluvia.Base.Text.{codes, text_eq}
use fluvia.Ledger.Db.{
  Db, sum_entries, find_key, find_account, find_projection, find_tx, find_reversal, signed_amount,
}
use fluvia.Ledger.Validate.{PostTransactionInput, validate_input}
use fluvia.Ledger.Projection.{
  member, apply_projection_deltas, build_deltas, apply_deltas, update_projection,
  insert_projections, insert_projection, delta_get, delta_set, add_to_bucket, add_balances,
  version_of, check_balances, guard_balances,
}
use fluvia.Ledger.Entries.{
  to_posted, lock_accounts, account_ids_of, sort_ids, dedupe, insert_sorted, insert_entries,
}
use fluvia.Ledger.Reverse.{ReverseTransactionInput, OriginalEntry, reversal_input}
use fluvia.Ledger.Reverse.Mirror.{reversal_input-cancels}
use fluvia.Ledger.Posting.{Chart}
use fluvia.Ledger.Posting.Operations.{
  PostingContext, SimpleAmountInput, CapturePaymentInput, entry, posting, guarded_accounts,
  two_legged_input, check_fees, capture_input,
}
use fluvia.Ledger.Posting.Legs.{IsWellFormed, two_legged_input-valid, two_legged_input-guards}
use fluvia.Ledger.Posting.Capture.{capture_input-valid}
use fluvia.Ledger.Posting.Moves.{two_legged_input-moves}
use fluvia.Ledger.Post.{
  run_hook, rows_after, post_once, apply_new, check_reverses, check_locked, finish_new, new_row,
}
use fluvia.Ledger.Post.Consistent.{IsQuiet}
use fluvia.Ledger.Post.Guarded.{KeepsBalances}
use fluvia.Ledger.Projection.Sums.{projected}
use fluvia.Ledger.Tests.{account, projection, sample_attempt, five, leg, sample_source}

abbrev sample_context : PostingContext
sample_context = record {
  merchant_id = codes "m";
  idempotency_key = codes "refund-0001";
  source_type = codes "refund";
  source_id = codes "1";
  on_posted = none;
}

abbrev sample_amount : SimpleAmountInput
sample_amount = record { context = sample_context; amount = five }

abbrev sample_chart : Chart
sample_chart c = elim c [ merchant_available ↦ 11 | refund_liability ↦ 12 | _ ↦ 13 ]

sample_context-IsWellFormed : IsWellFormed sample_context
unfolding IsWellFormed
sample_context-IsWellFormed = (refl, refl)

five_positive : is_positive five ≡ true
unfolding is_positive
five_positive = refl

two_legged_input-valid_example :
    validate_input
      (two_legged_input sample_amount refund merchant_available refund_liability sample_chart)
    ≡ ok tt
two_legged_input-valid_example =
    two_legged_input-valid sample_amount refund merchant_available refund_liability sample_chart
      sample_context-IsWellFormed five_positive

abbrev refund_input : PostTransactionInput
refund_input =
    two_legged_input sample_amount refund merchant_available refund_liability sample_chart

two_legged_input-guards_example :
    (member 11 refund_input.non_negative_accounts
      ≡ ltb_ℤ
          (sum_entries 11
            ((chart_of_accounts merchant_available).normal_side)
            available
            (map to_posted refund_input.entries))
          (pos 0))
    × (member 12 refund_input.non_negative_accounts
        ≡ ltb_ℤ
            (sum_entries 12
              ((chart_of_accounts refund_liability).normal_side)
              available
              (map to_posted refund_input.entries))
            (pos 0))
two_legged_input-guards_example =
    two_legged_input-guards sample_amount refund merchant_available refund_liability sample_chart
      refl five_positive

-- The merchant has 7.00 available, of which 5.00 are refunded.
abbrev refund_db : Db
refund_db = record {
  accounts =
      account 11 (codes "merchant.available:m") credit
      ∷ account 12 (codes "refund.liability:m") credit
      ∷ [];
  transactions = [];
  entries = [];
  projections = projection 11 (pos 700) ∷ projection 12 (pos 0) ∷ [];
  outbox = [];
  audit = [];
}

abbrev refund_entries : List PostedEntry
refund_entries = map to_posted refund_input.entries

abbrev refund_posted : PostedTransaction
refund_posted = record {
  transaction_id = 3;
  replayed = false;
  created_at = 0;
  entries = refund_entries;
}

abbrev refunded_db : Db
refunded_db = record (rows_after (sample_attempt 3) refund_input refund_db refund_entries []) {
  projections =
      record {
        account_id = 11;
        balances = record { available = pos 200; pending = pos 0 };
        version = 2;
      }
      ∷ record {
        account_id = 12;
        balances = record { available = pos 500; pending = pos 0 };
        version = 2;
      }
      ∷ [];
}

refund_is_posted :
    post_once (sample_attempt 3) refund_input refund_db ≡ ok (refund_posted, refunded_db)
unfolding post_once find_key apply_new check_reverses check_locked lock_accounts account_ids_of
    sort_ids dedupe insert_sorted find_account insert_entries eq_currency apply_projection_deltas
    build_deltas apply_deltas update_projection insert_projections insert_projection delta_get
    delta_set add_to_bucket add_balances version_of find_projection signed_amount check_balances
    guard_balances finish_new new_row run_hook to_posted ◌+ℤ◌ text_eq find_tx find_reversal neg
    two_legged_input posting entry guarded_accounts chart_of_accounts
refund_is_posted = refl

refund-IsQuiet : IsQuiet (sample_attempt 3)
unfolding IsQuiet
refund-IsQuiet qs j b = refl

refund-KeepsBalances : KeepsBalances refund_input
unfolding KeepsBalances run_hook two_legged_input posting
refund-KeepsBalances p a b h = cc

new_refund_key : find_key sample_context.idempotency_key refund_db.transactions ≡ none
unfolding find_key
new_refund_key = refl

merchant_found :
    find_account 11 refund_db.accounts ≡ some (account 11 (codes "merchant.available:m") credit)
unfolding find_account
merchant_found = refl

liability_found :
    find_account 12 refund_db.accounts ≡ some (account 12 (codes "refund.liability:m") credit)
unfolding find_account
liability_found = refl

two_legged_input-moves_example :
    (projected 11 available refunded_db.projections
      ≡ projected 11 available refund_db.projections +ℤ neg (pos 500))
    × (projected 12 available refunded_db.projections
        ≡ projected 12 available refund_db.projections +ℤ pos 500)
    × ((j : ℕ)
        → (11 == j) ≡ false
        → (12 == j) ≡ false
        → projected j available refunded_db.projections
          ≡ projected j available refund_db.projections)
    × ((j : ℕ)
        → projected j pending refunded_db.projections ≡ projected j pending refund_db.projections)
two_legged_input-moves_example =
    two_legged_input-moves (sample_attempt 3) sample_amount refund merchant_available
      refund_liability sample_chart refund_db refunded_db refund_posted
      (account 11 (codes "merchant.available:m") credit)
      (account 12 (codes "refund.liability:m") credit) refund-IsQuiet refund-KeepsBalances refl
      merchant_found liability_found new_refund_key refund_is_posted

abbrev sample_capture : CapturePaymentInput
sample_capture = record {
  context = sample_context;
  amount = five;
  provider_fee = none;
  platform_fee = none;
}

abbrev one : Money
one = record { amount = pos 1; currency = usd }

fees_checked : check_fees five one one ≡ ok tt
unfolding check_fees is_positive is_negative add subtract assert_same_currency eq_currency ◌+ℤ◌ ◌-ℤ◌
fees_checked = refl

capture_input-valid_example :
    (out : PostTransactionInput) × (capture_input sample_capture one one sample_chart ≡ ok out)
    × (validate_input out ≡ ok tt)
    × (2 ≤ length out.entries)
    × (length out.entries ≤ 5)
    × Mem (entry 13 debit five) out.entries
    × Mem (entry 13 credit (record five { amount = pos 500 -ℤ pos 1 })) out.entries
capture_input-valid_example =
    capture_input-valid sample_capture one one sample_chart sample_context-IsWellFormed fees_checked

abbrev sample_reversal : ReverseTransactionInput
sample_reversal = record {
  transaction_id = 0;
  idempotency_key = codes "reverse-1";
  source = sample_source;
  note = codes "wrong amount";
}

abbrev original_entries : List OriginalEntry
original_entries =
    record {
      posted = to_posted (leg 2 debit);
      normal_side = debit;
      name = codes "provider.clearing";
    }
    ∷ record {
      posted = to_posted (leg 1 credit);
      normal_side = credit;
      name = codes "merchant.pending:m";
    }
    ∷ []

reversal_input-cancels_example :
    sum_entries 1 credit available (map (λ (e : OriginalEntry). e.posted) original_entries)
      +ℤ sum_entries 1 credit available
          (map to_posted (reversal_input sample_reversal original_entries).entries)
    ≡ pos 0
reversal_input-cancels_example =
    reversal_input-cancels sample_reversal original_entries 1 credit available
