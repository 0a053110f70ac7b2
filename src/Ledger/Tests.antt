-- ===== src/Ledger/Tests.antt =====
-- packages/ledger: small rows on which the operations run.
mod Posting
mod Accounts
mod Operations
use fluvia.Base.{
  ℕ, ◌==◌, ◌≡◌, refl, Bool, true, false, List, [], ◌∷◌, ◌++◌, map, ℤ, pos, neg, ◌+ℤ◌, ◌≤ℤ◌, ltb_ℤ,
  Option, none, some, Result, ok, err, ok-injective, sym, subst, ap, length, all, ◌↔◌, not,
}
use mathlib.Core.List.{Perm}
use fluvia.Base.Text.{Text, text_eq, codes}
use fluvia.Money.Currency.{CurrencyCode, usd, eq_currency}
use fluvia.Money.Value.{Money, is_positive}
use fluvia.Ledger.Types.{
  LedgerReason, payment, refund, reversal, Side, debit, credit, BalanceBucket, available,
  LedgerEntryInput, Source, PostedEntry, PostedTransaction, LedgerError,
}
use fluvia.Ledger.Db.{
  Db, Account, TxRow, EntryRow, Projection, OutboxEvent, find_key, find_account, find_tx,
  find_reversal, find_projection, signed_amount,
}
use fluvia.Ledger.Validate.{PostTransactionInput, validate_input}
use fluvia.Ledger.Projection.{
  insert_projection, insert_projections, build_deltas, delta_get, delta_set, add_to_bucket,
  add_balances, update_projection, version_of, check_balances, guard_balances, apply_deltas,
  apply_projection_deltas,
}
use fluvia.Ledger.Post.{
  Attempt, post_once, post_transaction, check_reverses, new_row, run_hook, check_locked, finish_new,
  apply_new,
}
use fluvia.Ledger.Entries.{
  to_posted, dedupe, insert_sorted, sort_ids, account_ids_of, lock_accounts, insert_entries,
}

abbrev pub account : ℕ → Text → Side → Account
account i name side = record {
  id = i;
  name = name;
  currency = usd;
  normal_side = side;
  deleted = false;
}

abbrev pub five : Money
five = record { amount = pos 500; currency = usd }

abbrev pub leg : ℕ → Side → LedgerEntryInput
leg i side = record { account_id = i; direction = side; amount = five; bucket = none }

abbrev pub sample_source : Source
sample_source = record { kind = codes "test"; id = codes "1" }

abbrev pub sample_input : PostTransactionInput
sample_input = record {
  idempotency_key = codes "capture-1";
  reason = payment;
  source = sample_source;
  entries = leg 2 debit ∷ leg 1 credit ∷ [];
  reverses_tx_id = none;
  non_negative_accounts = 1 ∷ [];
  on_posted = none;
}

abbrev pub sample_db : Db
sample_db = record {
  accounts =
      account 1 (codes "merchant.pending:m") credit
      ∷ account 2 (codes "provider.clearing") debit
      ∷ [];
  transactions = [];
  entries = [];
  projections = [];
  outbox = [];
  audit = [];
}

abbrev pub sample_attempt : ℕ → Attempt
sample_attempt k = record {
  new_id = k;
  now = 0;
  others = λ db. db;
  aborted = none;
  outside = λ ps. ps;
}

abbrev pub sample_posted : PostedTransaction
sample_posted = record {
  transaction_id = 0;
  replayed = false;
  created_at = 0;
  entries = map to_posted sample_input.entries;
}

abbrev pub projection : ℕ → ℤ → Projection
projection i z = record {
  account_id = i;
  balances = record { available = z; pending = pos 0 };
  version = 1;
}

abbrev pub posted_db : Db
posted_db = record {
  accounts = sample_db.accounts;
  transactions =
      record {
        id = 0;
        idempotency_key = sample_input.idempotency_key;
        reason = payment;
        source = sample_source;
        reverses_tx_id = none;
        created_at = 0;
      }
      ∷ [];
  entries = map (λ e. record { tx_root_id = 0; posted = e }) sample_posted.entries;
  projections = projection 1 (pos 500) ∷ projection 2 (pos 500) ∷ [];
  outbox =
      record {
        transaction_id = 0;
        reason = payment;
        source = sample_source;
        reverses_tx_id = none;
        entries = sample_posted.entries;
        occurred_at = 0;
      }
      ∷ [];
  audit = [];
}

pub sample_posts :
    post_once (sample_attempt 0) sample_input sample_db ≡ ok (sample_posted, posted_db)
unfolding post_once find_key apply_new check_reverses check_locked lock_accounts account_ids_of
    sort_ids dedupe insert_sorted find_account insert_entries eq_currency apply_projection_deltas
    build_deltas apply_deltas update_projection insert_projections insert_projection delta_get
    delta_set add_to_bucket add_balances version_of find_projection signed_amount check_balances
    guard_balances finish_new new_row run_hook to_posted ◌+ℤ◌
sample_posts = refl
