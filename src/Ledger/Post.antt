-- ===== src/Ledger/Post.antt =====
-- packages/ledger/src/service.ts: `postTransaction`, `postOnce` and `replay`. A database transaction
-- returns the rows that it leaves, or the error after which the engine rolls all of it back.
pub mod Applied
pub mod Consistent
pub mod Moves
pub mod Replay
pub mod Idempotent
pub mod Guarded
pub mod Outcome
use fluvia.Base.{
  ℕ, zero, suc, ◌+◌, ◌==◌, ◌≡◌, Bool, true, false, ◌&&◌, ◌||◌, not, List, [], ◌∷◌, ◌++◌, map, keep,
  length, Result, ok, err, ◌>>=◌, ◌>>◌, throw_if, Option, none, some, if◌then◌else◌, ltb,
}
use fluvia.Base.Enum.{eqb}
use fluvia.Base.Text.{Text, text_eq}
use fluvia.Money.Currency.{CurrencyCode, eq_currency}
use fluvia.Ledger.Types.{
  LedgerReason, reason_enum, LedgerEntryInput, PostedEntry, PostedTransaction, LedgerError,
  account_not_found, account_currency_mismatch, idempotency_conflict, type_error, sql, SqlState,
  serialization_failure, deadlock_detected, lock_not_available, reverses_once,
  foreign_key_violation, optimistic_lock, retries_exhausted, account_exists, account_name_taken,
  other_state,
}
use fluvia.Ledger.Db.{
  Db, Account, Projection, TxRow, EntryRow, OutboxEvent, find_account, find_key, find_tx,
  find_reversal, entries_of,
}
use fluvia.Ledger.Validate.{PostTransactionInput, validate_input}
use fluvia.Ledger.Entries.{
  dedupe, insert_sorted, sort_ids, account_ids_of, lock_accounts, to_posted, insert_entries,
}
use fluvia.Ledger.Projection.{apply_projection_deltas, bucket_of, member}
use fluvia.Ledger.Signature.{entries_signature, eq_signature}

-- What the database and other transactions bring to one attempt: the id and the time of a new row,
-- the rows when the attempt begins, an error of the engine, and writes outside the sanctioned path.
pub record Attempt : Type 0 where
  pub new_id : ℕ
  pub now : ℕ
  pub others : Db → Db
  pub aborted : Option SqlState
  pub outside : List Projection → List Projection

unfoldable pub same_reference : Option ℕ → Option ℕ → Bool
same_reference none none = true
same_reference none (some j) = false
same_reference (some i) none = false
same_reference (some i) (some j) = i == j

-- The causal metadata of the stored row is that of the input.
unfoldable pub same_cause : TxRow → PostTransactionInput → Bool
unfolding same_reference
same_cause row input =
    eqb row.reason input.reason
    && text_eq row.source.kind input.source.kind
    && text_eq row.source.id input.source.id
    && same_reference row.reverses_tx_id input.reverses_tx_id

-- `replay`. Its statement names no order of the stored entries: they come in that of their insertion.
unfoldable pub replay : PostTransactionInput → TxRow → Db → Result LedgerError PostedTransaction
unfolding to_posted
replay input row db = do
  throw_if (not (same_cause row input)) (idempotency_conflict input.idempotency_key)
  let stored = entries_of row.id db.entries
  throw_if
      (not
        (eq_signature (entries_signature (map to_posted input.entries)) (entries_signature stored)))
      (idempotency_conflict input.idempotency_key)
  ok (record {
    transaction_id = row.id;
    replayed = true;
    created_at = row.created_at;
    entries = stored;
  })

-- The foreign key and the unique index on `reverses_tx_id`.
unfoldable pub check_reverses : Option ℕ → Db → Result LedgerError (Unit {0})
check_reverses none db = ok tt
check_reverses (some i) db = elim (find_tx i db.transactions) [
  | none ↦ err (sql foreign_key_violation)
  | some t ↦ elim (find_reversal i db.transactions) [
    | none ↦ ok tt
    | some r ↦ err (sql reverses_once)
  ]
]

unfoldable pub new_row : Attempt → PostTransactionInput → TxRow
new_row at input = record {
  id = at.new_id;
  idempotency_key = input.idempotency_key;
  reason = input.reason;
  source = input.source;
  reverses_tx_id = input.reverses_tx_id;
  created_at = at.now;
}

abbrev pub entry_rows : ℕ → List PostedEntry → List EntryRow
entry_rows tx posted = map (λ e. record { tx_root_id = tx; posted = e }) posted

unfoldable pub run_hook :
    Option (PostedTransaction → Db → Result LedgerError Db)
    → PostedTransaction
    → Db
    → Result LedgerError Db
run_hook none posted db = ok db
run_hook (some hook) posted db = hook posted db

-- The accounts that an input locks.
abbrev pub locked : PostTransactionInput → Db → List Account
locked input db = lock_accounts (account_ids_of input.entries) db.accounts

abbrev pub posted_of : Attempt → List PostedEntry → PostedTransaction
posted_of at entries = record {
  transaction_id = at.new_id;
  replayed = false;
  created_at = at.now;
  entries = entries;
}

abbrev pub event_of : Attempt → PostTransactionInput → List PostedEntry → OutboxEvent
event_of at input entries = record {
  transaction_id = at.new_id;
  reason = input.reason;
  source = input.source;
  reverses_tx_id = input.reverses_tx_id;
  entries = entries;
  occurred_at = at.now;
}

-- The rows before the hook runs.
abbrev pub rows_after :
    Attempt → PostTransactionInput → Db → List PostedEntry → List Projection → Db
rows_after at input db entries projections = record {
  accounts = db.accounts;
  transactions = db.transactions ++ new_row at input ∷ [];
  entries = db.entries ++ entry_rows at.new_id entries;
  projections = projections;
  outbox = db.outbox ++ event_of at input entries ∷ [];
  audit = db.audit;
}

unfoldable pub check_locked : List ℕ → List Account → Result LedgerError (Unit {0})
check_locked account_ids accounts =
    throw_if (not (length accounts == length account_ids))
      (account_not_found (keep (λ i. not (member i (map (λ a. a.id) accounts))) account_ids))

-- The end of the first application: the event, the hook and the result.
unfoldable pub finish_new :
    Attempt
    → PostTransactionInput
    → Db
    → List PostedEntry
    → List Projection
    → Result LedgerError (PostedTransaction × Db)
finish_new at input db entries projections = do
  db' ← run_hook input.on_posted (posted_of at entries) (rows_after at input db entries projections)
  ok (posted_of at entries, db')

-- The deltas of an input.
abbrev pub move_projections :
    Attempt → PostTransactionInput → Db → Result LedgerError (List Projection)
move_projections at input db =
    apply_projection_deltas at.outside (locked input db) (account_ids_of input.entries)
      input.entries input.non_negative_accounts db.projections

-- The first application: the row is new.
unfoldable pub apply_new :
    Attempt → PostTransactionInput → Db → Result LedgerError (PostedTransaction × Db)
apply_new at input db = do
  check_reverses input.reverses_tx_id db
  check_locked (account_ids_of input.entries) (locked input db)
  entries ← insert_entries (locked input db) input.entries
  projections ← move_projections at input db
  finish_new at input db entries projections

-- `postOnce`
unfoldable pub post_once :
    Attempt → PostTransactionInput → Db → Result LedgerError (PostedTransaction × Db)
post_once at input db = elim (find_key input.idempotency_key db.transactions) [
  | some row ↦ (do posted ← replay input row db; ok (posted, db))
  | none ↦ apply_new at input db
]

-- `isRetryable`
unfoldable pub is_retryable : LedgerError → Bool
is_retryable (optimistic_lock i) = true
is_retryable (sql serialization_failure) = true
is_retryable (sql deadlock_detected) = true
is_retryable (sql lock_not_available) = true
is_retryable _ = false

-- One attempt, which the engine may abort. An attempt that fails leaves the rows as it found them.
unfoldable pub attempt_once :
    Attempt → PostTransactionInput → Db → Result LedgerError PostedTransaction × Db
attempt_once at input db = elim at.aborted [
  | some state ↦ (err (sql state), at.others db)
  | none ↦ elim (post_once at input (at.others db)) [
    | ok (posted, db') ↦ (ok posted, db')
    | err e ↦ (err e, at.others db)
  ]
]

-- The loop of attempts: those that are left after this one, and how many were made in all.
unfoldable pub attempts :
    ℕ
    → ℕ
    → (ℕ → Attempt)
    → ℕ
    → PostTransactionInput
    → Db
    → Result LedgerError PostedTransaction × Db
unfolding attempt_once is_retryable
attempts zero total at k input db =
    let (r, db') = attempt_once (at k) input db in
    elim r [
      | ok posted ↦ (ok posted, db')
      | err e ↦ (if is_retryable e then err (retries_exhausted total e) else err e, db')
    ]
attempts (suc left) total at k input db =
    let (r, db') = attempt_once (at k) input db in
    let again = attempts left total at (suc k) input db' in
    elim r [ ok posted ↦ (ok posted, db') | err e ↦ if is_retryable e then again else (err e, db') ]

-- `postTransaction`
unfoldable pub post_transaction :
    ℕ → (ℕ → Attempt) → PostTransactionInput → Db → Result LedgerError PostedTransaction × Db
post_transaction max_retries at input db = elim (validate_input input) [
  | err e ↦ (err e, db)
  | ok _ ↦ attempts max_retries (max_retries + 1) at 0 input db
]
