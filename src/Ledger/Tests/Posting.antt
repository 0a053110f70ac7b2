-- ===== src/Ledger/Tests/Posting.antt =====
-- Examples of the theorems on posting.
use fluvia.Base.{
  ℕ, ◌≡◌, refl, true, false, [], ◌∷◌, map, pos, neg, ◌+ℤ◌, ◌≤ℤ◌, none, some, Option-cases, inl, inr,
  Result, ok, err, sym, subst, length, all, ◌≤◌,
}
use fluvia.Base.Text.{text_eq, codes}
use fluvia.Money.Currency.{CurrencyCode, eq_currency}
use fluvia.Money.Value.{is_positive}
use fluvia.Ledger.Types.{
  payment, reversal, debit, credit, available, LedgerEntryInput, PostedTransaction, LedgerError,
  sql, reverses_once, reason_enum, side_enum, bucket_enum,
}
use fluvia.Ledger.Db.{
  Db, TxRow, find_key, find_account, find_tx, find_reversal, find_projection, signed_amount,
  entries_of, sum_entries,
}
use fluvia.Ledger.Validate.{
  PostTransactionInput, validate_input, check_form, net_of, net_get, net_set, sign_of_entry,
  check_nets,
}
use fluvia.Ledger.Validate.Balanced.{side_total, validate_input-balanced}
use fluvia.Ledger.Validate.Complete.{validate_input_complete}
use fluvia.Ledger.Projection.{
  insert_projection, insert_projections, build_deltas, delta_get, delta_set, add_to_bucket,
  add_balances, update_projection, version_of, check_balances, guard_balances, apply_deltas,
  apply_projection_deltas,
}
use fluvia.Ledger.Projection.Sums.{projected}
use fluvia.Ledger.Signature.{
  show_ℤ, canonical, entry_less, insert_entry, entries_signature, eq_entry, eq_signature,
}
use fluvia.Ledger.Post.{
  post_once, post_transaction, check_reverses, new_row, run_hook, check_locked, finish_new,
  apply_new, attempts, attempt_once, is_retryable, replay, same_cause, same_reference,
}
use fluvia.Ledger.Entries.{
  to_posted, dedupe, insert_sorted, sort_ids, account_ids_of, lock_accounts, insert_entries,
}
use fluvia.Ledger.Post.Consistent.{
  IsConsistent, IsQuiet, IsSound, recompute-found, recompute-missing, post_transaction-IsConsistent,
}
use fluvia.Ledger.Post.Idempotent.{KeepsLedger, post_once-again}
use fluvia.Ledger.Post.Replay.{IsReplay, replay-IsReplay}
use fluvia.Ledger.Post.Guarded.{KeepsBalances}
use fluvia.Ledger.Post.Outcome.{post_transaction-nonneg}
use fluvia.Ledger.Reverse.Once.{post_once-reverses_once}
use fluvia.Ledger.Tests.{
  leg, sample_source, sample_input, sample_db, sample_attempt, sample_posted, posted_db,
  sample_posts,
}

sample-IsQuiet : (k : ℕ) → IsQuiet (sample_attempt k)
unfolding IsQuiet
sample-IsQuiet k qs j b = refl

sample_others : (k : ℕ) (d : Db) → IsConsistent d → IsConsistent ((sample_attempt k).others d)
sample_others k d h = h

sample-IsSound : IsSound sample_input.on_posted
unfolding IsSound run_hook
sample-IsSound posted d d' h before = subst IsConsistent (cc h) before

sample_db-IsConsistent : IsConsistent sample_db
unfolding IsConsistent projected find_projection sum_entries
sample_db-IsConsistent j b = elim (Option-cases (find_account j sample_db.accounts)) [
  | inl missing ↦ sym (recompute-missing sample_db j b missing)
  | inr (a, found) ↦ sym (recompute-found sample_db j b a found)
]

post_transaction-IsConsistent_example :
    IsConsistent (post_transaction 3 sample_attempt sample_input sample_db).1
post_transaction-IsConsistent_example =
    post_transaction-IsConsistent sample_attempt sample_input sample-IsQuiet sample_others
      sample-IsSound 3 sample_db sample_db-IsConsistent

sample-KeepsBalances : KeepsBalances sample_input
unfolding KeepsBalances run_hook
sample-KeepsBalances posted d d' h = cc

sample_returns : (post_transaction 3 sample_attempt sample_input sample_db).0 ≡ ok sample_posted
unfolding post_transaction attempts attempt_once is_retryable validate_input check_form net_of
    net_get net_set sign_of_entry check_nets is_positive post_once find_key apply_new check_reverses
    check_locked lock_accounts account_ids_of sort_ids dedupe insert_sorted find_account
    insert_entries eq_currency apply_projection_deltas build_deltas apply_deltas update_projection
    insert_projections insert_projection delta_get delta_set add_to_bucket add_balances version_of
    find_projection signed_amount check_balances guard_balances finish_new new_row run_hook
    to_posted ◌+ℤ◌ text_eq find_tx find_reversal neg
sample_returns = refl

post_transaction-nonneg_example :
    pos 0
    ≤ℤ projected 1 available
        (post_transaction 3 sample_attempt sample_input sample_db).1.projections
post_transaction-nonneg_example =
    post_transaction-nonneg 3 sample_attempt sample_input sample-KeepsBalances sample_db
      sample_posted 1 available refl refl sample_returns refl

sample-KeepsLedger : KeepsLedger sample_input.on_posted
unfolding KeepsLedger run_hook
sample-KeepsLedger posted d d' h = (cc, cc)

sample_unused : entries_of 0 sample_db.entries ≡ []
unfolding entries_of
sample_unused = refl

post_once-again_example :
    post_once (sample_attempt 9) sample_input posted_db
    ≡ ok (record sample_posted { replayed = true }, posted_db)
post_once-again_example =
    post_once-again sample_input sample-KeepsLedger (sample_attempt 0) sample_db posted_db
      sample_posted (sample_attempt 9) sample_unused sample_posts

abbrev stored_row : TxRow
stored_row = record {
  id = 0;
  idempotency_key = sample_input.idempotency_key;
  reason = payment;
  source = sample_source;
  reverses_tx_id = none;
  created_at = 0;
}

sample_replayed :
    replay sample_input stored_row posted_db ≡ ok (record sample_posted { replayed = true })
unfolding replay same_cause same_reference text_eq entries_of to_posted eq_signature eq_entry
    entries_signature insert_entry entry_less eq_currency canonical show_ℤ
sample_replayed = refl

replay-IsReplay_example :
    IsReplay sample_input stored_row posted_db (record sample_posted { replayed = true })
replay-IsReplay_example =
    replay-IsReplay sample_input stored_row posted_db (record sample_posted { replayed = true })
      sample_replayed

sample_valid : validate_input sample_input ≡ ok tt
unfolding post_transaction attempts attempt_once is_retryable validate_input check_form net_of
    net_get net_set sign_of_entry check_nets is_positive ◌+ℤ◌ eq_currency neg
sample_valid = refl

validate_input-balanced_example :
    (2 ≤ length sample_input.entries)
    × (all (λ e. is_positive e.amount) sample_input.entries ≡ true)
    × ((c : CurrencyCode)
        → side_total debit c sample_input.entries ≡ side_total credit c sample_input.entries)
validate_input-balanced_example = validate_input-balanced sample_input sample_valid

sample_form : check_form sample_input ≡ ok tt
unfolding check_form
sample_form = refl

sample_positive : all (λ (e : LedgerEntryInput). is_positive e.amount) sample_input.entries ≡ true
unfolding is_positive
sample_positive = refl

validate_input_complete_example : validate_input sample_input ≡ ok tt
validate_input_complete_example =
    validate_input_complete sample_input sample_form sample_positive
      (validate_input-balanced sample_input sample_valid).2

abbrev reversing_input : PostTransactionInput
reversing_input = record {
  idempotency_key = codes "reverse-1";
  reason = reversal;
  source = sample_source;
  entries = leg 2 credit ∷ leg 1 debit ∷ [];
  reverses_tx_id = some 0;
  non_negative_accounts = 1 ∷ [];
  on_posted = none;
}

abbrev rows_of : Result LedgerError (PostedTransaction × Db) → Db
rows_of (ok (p, d)) = d
rows_of (err e) = sample_db

abbrev reversed_posted : PostedTransaction
reversed_posted = record {
  transaction_id = 5;
  replayed = false;
  created_at = 0;
  entries = map to_posted reversing_input.entries;
}

abbrev reversed_db : Db
reversed_db = rows_of (post_once (sample_attempt 5) reversing_input posted_db)

reversing_posts :
    post_once (sample_attempt 5) reversing_input posted_db ≡ ok (reversed_posted, reversed_db)
unfolding post_once find_key apply_new check_reverses check_locked lock_accounts account_ids_of
    sort_ids dedupe insert_sorted find_account insert_entries eq_currency apply_projection_deltas
    build_deltas apply_deltas update_projection insert_projections insert_projection delta_get
    delta_set add_to_bucket add_balances version_of find_projection signed_amount check_balances
    guard_balances finish_new new_row run_hook to_posted ◌+ℤ◌ text_eq find_tx find_reversal neg
reversing_posts = refl

reversing_fresh : find_key reversing_input.idempotency_key posted_db.transactions ≡ none
unfolding find_key text_eq
reversing_fresh = refl

reversing_keeps : KeepsLedger reversing_input.on_posted
unfolding KeepsLedger run_hook
reversing_keeps posted d d' h = (cc, cc)

abbrev other_input : PostTransactionInput
other_input = record reversing_input { idempotency_key = codes "reverse-2" }

other_fresh : find_key other_input.idempotency_key reversed_db.transactions ≡ none
unfolding post_once find_key apply_new check_reverses check_locked lock_accounts account_ids_of
    sort_ids dedupe insert_sorted find_account insert_entries eq_currency apply_projection_deltas
    build_deltas apply_deltas update_projection insert_projections insert_projection delta_get
    delta_set add_to_bucket add_balances version_of find_projection signed_amount check_balances
    guard_balances finish_new new_row run_hook to_posted ◌+ℤ◌ text_eq find_tx find_reversal neg
other_fresh = refl

post_once-reverses_once_example :
    post_once (sample_attempt 6) other_input reversed_db ≡ err (sql reverses_once)
post_once-reverses_once_example =
    post_once-reverses_once (sample_attempt 5) reversing_input reversing_keeps posted_db reversed_db
      reversed_posted 0 refl reversing_fresh reversing_posts (sample_attempt 6) other_input refl
      other_fresh
