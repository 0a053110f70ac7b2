-- ===== src/Ledger/Db.antt =====
-- The rows of one tenant, as the row level security of the schema shows them, and the statements
-- that the services run on them. Primary keys are unique, so a row is found by the first match.
use fluvia.Base.{
  ℕ, ◌==◌, ℤ, pos, ◌+ℤ◌, neg, Bool, false, ◌&&◌, List, [], ◌∷◌, Option, none, some, if◌then◌else◌,
  map,
}
use fluvia.Base.Enum.{eqb}
use fluvia.Base.Text.{Text, text_eq}
use fluvia.Money.Currency.{CurrencyCode}
use fluvia.Ledger.Types.{
  LedgerReason, Side, BalanceBucket, available, pending, Source, PostedEntry, Balances, side_enum,
  bucket_enum,
}

-- ledger_accounts
pub record Account : Type 0 where
  pub id : ℕ
  pub name : Text
  pub currency : CurrencyCode
  pub normal_side : Side
  pub deleted : Bool

-- ledger_transactions
pub record TxRow : Type 0 where
  pub id : ℕ
  pub idempotency_key : Text
  pub reason : LedgerReason
  pub source : Source
  pub reverses_tx_id : Option ℕ
  pub created_at : ℕ

-- ledger_entries
pub record EntryRow : Type 0 where
  pub tx_root_id : ℕ
  pub posted : PostedEntry

-- balance_projections
pub record Projection : Type 0 where
  pub account_id : ℕ
  pub balances : Balances
  pub version : ℕ

-- outbox_events: the data of a ledger event.
pub record OutboxEvent : Type 0 where
  pub transaction_id : ℕ
  pub reason : LedgerReason
  pub source : Source
  pub reverses_tx_id : Option ℕ
  pub entries : List PostedEntry
  pub occurred_at : ℕ

-- The audit event of a reversal.
pub record AuditEvent : Type 0 where
  pub resource_id : ℕ
  pub note : Text
  pub reversal_tx_id : ℕ
  pub source : Source

pub record Db : Type 0 where
  pub accounts : List Account
  pub transactions : List TxRow
  pub entries : List EntryRow
  pub projections : List Projection
  pub outbox : List OutboxEvent
  pub audit : List AuditEvent

-- `ledger_accounts WHERE id = $1`
unfoldable pub find_account : ℕ → List Account → Option Account
find_account i [] = none
find_account i (a ∷ rest) = if a.id == i then some a else find_account i rest

-- `ledger_transactions WHERE idempotency_key = $2`
unfoldable pub find_key : Text → List TxRow → Option TxRow
find_key k [] = none
find_key k (t ∷ ts) = if text_eq t.idempotency_key k then some t else find_key k ts

-- `ledger_transactions WHERE id = $1`
unfoldable pub find_tx : ℕ → List TxRow → Option TxRow
find_tx i [] = none
find_tx i (t ∷ ts) = if t.id == i then some t else find_tx i ts

abbrev pub reverses : ℕ → TxRow → Bool
reverses i t = elim t.reverses_tx_id [ none ↦ false | some j ↦ j == i ]

-- `ledger_transactions WHERE reverses_tx_id = $1`
unfoldable pub find_reversal : ℕ → List TxRow → Option TxRow
find_reversal i [] = none
find_reversal i (t ∷ ts) = if reverses i t then some t else find_reversal i ts

-- `ledger_entries WHERE tx_root_id = $1`
unfoldable pub entries_of : ℕ → List EntryRow → List PostedEntry
entries_of i [] = []
entries_of i (e ∷ es) =
    let rest = entries_of i es in if e.tx_root_id == i then e.posted ∷ rest else rest

-- `balance_projections WHERE account_id = $1`
unfoldable pub find_projection : ℕ → List Projection → Option Projection
find_projection i [] = none
find_projection i (p ∷ ps) = if p.account_id == i then some p else find_projection i ps

-- `CASE WHEN direction = normal_side THEN amount ELSE -amount END`
unfoldable pub signed_amount : Side → Side → ℤ → ℤ
signed_amount normal direction amount = if eqb direction normal then amount else neg amount

abbrev pub in_bucket : BalanceBucket → Balances → ℤ
in_bucket available b = b.available
in_bucket pending b = b.pending

-- One row of the sum: what an entry adds to a bucket of an account with this normal side.
unfoldable pub contribution : ℕ → Side → BalanceBucket → PostedEntry → ℤ
contribution i normal b e =
    if (e.account_id == i) && eqb e.bucket b
    then signed_amount normal e.direction e.amount
    else pos 0

-- `COALESCE(SUM(...), 0)` over a list of entries.
unfoldable pub sum_entries : ℕ → Side → BalanceBucket → List PostedEntry → ℤ
sum_entries i normal b [] = pos 0
sum_entries i normal b (e ∷ es) = contribution i normal b e +ℤ sum_entries i normal b es

-- The recomputed balance, `ledger_entries e JOIN ledger_accounts a ON a.id = e.account_id`.
unfoldable pub recompute : Db → ℕ → BalanceBucket → ℤ
recompute db i b = elim (find_account i db.accounts) [
  | none ↦ pos 0
  | some a ↦ sum_entries i a.normal_side b (map (λ e. e.posted) db.entries)
]

abbrev pub recompute_balances : Db → ℕ → Balances
recompute_balances db i = record {
  available = recompute db i available;
  pending = recompute db i pending;
}
