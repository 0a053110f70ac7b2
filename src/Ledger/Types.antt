-- ===== src/Ledger/Types.antt =====
-- packages/ledger/src/types.ts and errors.ts: inputs, results and errors.
-- Ids are UUIDs, read as the numbers that they write: both have the same order. Amounts that travel
-- as decimal texts are the integers themselves.
use fluvia.Base.{ℕ, ℤ, ◌≡◌, refl, Bool, List, [], ◌∷◌, Option}
use fluvia.Base.Enum.{Enum, nth}
use fluvia.Base.Text.{Text}
use fluvia.Money.Currency.{CurrencyCode, MoneyError}
use fluvia.Money.Value.{Money}

pub data LedgerReason : Type 0 where
  payment refund fee payout transfer adjustment settlement reversal reconciliation reserve dispute :
      LedgerReason

abbrev pub ledger_reasons : List LedgerReason
ledger_reasons =
    payment ∷ refund ∷ fee ∷ payout ∷ transfer ∷ adjustment ∷ settlement ∷ reversal ∷ reconciliation
    ∷ reserve ∷ dispute ∷ []

abbrev reason_index : LedgerReason → ℕ
reason_index payment = 0
reason_index refund = 1
reason_index fee = 2
reason_index payout = 3
reason_index transfer = 4
reason_index adjustment = 5
reason_index settlement = 6
reason_index reversal = 7
reason_index reconciliation = 8
reason_index reserve = 9
reason_index dispute = 10

pub reason_of_index-index : (r : LedgerReason) → nth payment ledger_reasons (reason_index r) ≡ r
reason_of_index-index payment = refl
reason_of_index-index _ = refl

instance abbrev pub reason_enum : Enum LedgerReason
reason_enum = record {
  values = ledger_reasons;
  index = reason_index;
  of_index = nth payment ledger_reasons;
  of_index-index = reason_of_index-index;
}

-- `EntryDirection` and `NormalSide`, the same two words.
pub data Side : Type 0 where
  debit credit : Side

abbrev side_index : Side → ℕ
side_index credit = 0
side_index debit = 1

pub side_of_index-index : (s : Side) → nth credit (credit ∷ debit ∷ []) (side_index s) ≡ s
side_of_index-index debit = refl
side_of_index-index credit = refl

instance abbrev pub side_enum : Enum Side
side_enum = record {
  values = credit ∷ debit ∷ [];
  index = side_index;
  of_index = nth credit (credit ∷ debit ∷ []);
  of_index-index = side_of_index-index;
}

pub data BalanceBucket : Type 0 where
  available pending : BalanceBucket

abbrev bucket_index : BalanceBucket → ℕ
bucket_index available = 0
bucket_index pending = 1

pub bucket_of_index-index :
    (b : BalanceBucket) → nth available (available ∷ pending ∷ []) (bucket_index b) ≡ b
bucket_of_index-index available = refl
bucket_of_index-index pending = refl

instance abbrev pub bucket_enum : Enum BalanceBucket
bucket_enum = record {
  values = available ∷ pending ∷ [];
  index = bucket_index;
  of_index = nth available (available ∷ pending ∷ []);
  of_index-index = bucket_of_index-index;
}

pub record LedgerEntryInput : Type 0 where
  pub account_id : ℕ
  pub direction : Side
  pub amount : Money
  pub bucket : Option BalanceBucket

pub record Source : Type 0 where
  pub kind : Text
  pub id : Text

pub record PostedEntry : Type 0 where
  pub account_id : ℕ
  pub direction : Side
  pub amount : ℤ
  pub currency : CurrencyCode
  pub bucket : BalanceBucket

pub record PostedTransaction : Type 0 where
  pub transaction_id : ℕ
  pub replayed : Bool
  pub created_at : ℕ
  pub entries : List PostedEntry

pub record BalanceDto : Type 0 where
  pub account_id : ℕ
  pub available : ℤ
  pub pending : ℤ
  pub version : ℕ

-- The two balances of an account.
pub record Balances : Type 0 where
  pub available : ℤ
  pub pending : ℤ

pub record ProjectionVerification : Type 0 where
  pub account_id : ℕ
  pub matches : Bool
  pub projected : Balances
  pub recomputed : Balances

pub record ProjectionRebuild : Type 0 where
  pub account_id : ℕ
  pub drifted : Bool
  pub before : Balances
  pub after : Balances

-- What the database raises: the SQLSTATE, and for a unique index which one.
pub data SqlState : Type 0 where
  serialization_failure deadlock_detected lock_not_available : SqlState
  reverses_once account_name_taken foreign_key_violation : SqlState
  other_state : ℕ → SqlState

pub data LedgerError : Type 0 where
  invalid_entries : LedgerError
  unbalanced : List (CurrencyCode × ℤ) → LedgerError
  account_not_found : List ℕ → LedgerError
  account_currency_mismatch : ℕ → CurrencyCode → CurrencyCode → LedgerError
  account_exists : LedgerError
  optimistic_lock : ℕ → LedgerError
  idempotency_conflict : Text → LedgerError
  insufficient_balance : ℕ → BalanceBucket → ℤ → LedgerError
  transaction_not_found : ℕ → LedgerError
  transaction_already_reversed : ℕ → LedgerError
  cannot_reverse_reversal : ℕ → LedgerError
  reversal_note_required : LedgerError
  unknown_account_code : Text → LedgerError
  fees_exceed_amount : LedgerError
  retries_exhausted : ℕ → LedgerError → LedgerError
  sql : SqlState → LedgerError
  money : MoneyError → LedgerError
  type_error : LedgerError
