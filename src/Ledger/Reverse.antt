-- ===== src/Ledger/Reverse.antt =====
-- packages/ledger/src/service.ts: `reverseTransaction`. The original is read in a transaction of its
-- own, before the mirror entries are posted.
pub mod Mirror
pub mod Once
use fluvia.Base.{
  ℕ, ◌==◌, Bool, true, false, not, ◌&&◌, ◌||◌, List, [], ◌∷◌, ◌++◌, map, Result, ok, err, ◌>>=◌,
  ◌>>◌, throw_if, Option, none, some, if◌then◌else◌, length, any,
}
use fluvia.Base.Enum.{eqb}
use fluvia.Base.Text.{Text, text_eq, codes}
use fluvia.Money.Decimal.{trim}
use fluvia.Money.Value.{Money}
use fluvia.Ledger.Types.{
  LedgerReason, reversal, reason_enum, Side, debit, credit, side_enum, Source, LedgerEntryInput,
  PostedEntry, PostedTransaction, LedgerError, transaction_not_found, cannot_reverse_reversal,
  transaction_already_reversed, reversal_note_required, sql, reverses_once,
}
use fluvia.Ledger.Chart.{AccountType, transitory, AccountCode, chart_of_accounts, is_account_code}
use fluvia.Ledger.Db.{
  Db, Account, TxRow, AuditEvent, find_account, find_tx, find_reversal, entries_of,
}
use fluvia.Ledger.Validate.{PostTransactionInput}
use fluvia.Ledger.Post.{Attempt, post_transaction}
use fluvia.Ledger.Entries.{dedupe}

pub record ReverseTransactionInput : Type 0 where
  pub transaction_id : ℕ
  pub idempotency_key : Text
  pub source : Source
  pub note : Text

-- A row of `ledger_entries e JOIN ledger_accounts a ON a.id = e.account_id`.
pub record OriginalEntry : Type 0 where
  pub posted : PostedEntry
  pub normal_side : Side
  pub name : Text

unfoldable pub join_accounts : List Account → List PostedEntry → List OriginalEntry
join_accounts accounts [] = []
join_accounts accounts (e ∷ es) =
    let rest = join_accounts accounts es in
    elim (find_account e.account_id accounts) [
      | none ↦ rest
      | some a ↦ record { posted = e; normal_side = a.normal_side; name = a.name } ∷ rest
    ]

-- A reversal that exists under another key.
abbrev is_other_reversal : Text → Option TxRow → Bool
is_other_reversal key none = false
is_other_reversal key (some r) = not (text_eq r.idempotency_key key)

-- The transaction that reads the original.
unfoldable pub read_original :
    ReverseTransactionInput → Db → Result LedgerError (List OriginalEntry)
read_original input db = elim (find_tx input.transaction_id db.transactions) [
  | none ↦ err (transaction_not_found input.transaction_id)
  | some t ↦
      throw_if (eqb t.reason reversal) (cannot_reverse_reversal input.transaction_id)
      >> throw_if
          (is_other_reversal input.idempotency_key
            (find_reversal input.transaction_id db.transactions))
          (transaction_already_reversed input.transaction_id)
      >> ok (join_accounts db.accounts (entries_of input.transaction_id db.entries))
]

-- `e.direction === 'debit' ? 'credit' : 'debit'`
unfoldable pub opposite : Side → Side
opposite s = if eqb s debit then credit else debit

unfoldable pub mirror_entry : OriginalEntry → LedgerEntryInput
unfolding opposite
mirror_entry e = record {
  account_id = e.posted.account_id;
  direction = opposite e.posted.direction;
  amount = record { amount = e.posted.amount; currency = e.posted.currency };
  bucket = some e.posted.bucket;
}

-- `name.split(':')[0]`. The code of `:` is 58.
unfoldable pub before_colon : Text → Text
before_colon [] = []
before_colon (c ∷ cs) = let rest = before_colon cs in if c == 58 then [] else c ∷ rest

-- The names that every object inherits, which the catalogue answers to as well.
abbrev inherited_names : List Text
inherited_names =
    codes "constructor"
    ∷ codes "hasOwnProperty"
    ∷ codes "isPrototypeOf"
    ∷ codes "propertyIsEnumerable"
    ∷ codes "toLocaleString"
    ∷ codes "toString"
    ∷ codes "valueOf"
    ∷ codes "__proto__"
    ∷ codes "__defineGetter__"
    ∷ codes "__defineSetter__"
    ∷ codes "__lookupGetter__"
    ∷ codes "__lookupSetter__"
    ∷ []

-- `def !== undefined && def.type !== 'transitory'`
unfoldable pub is_protected : Text → Bool
unfolding before_colon is_account_code
is_protected name = elim (is_account_code (before_colon name)) [
  | none ↦ any (λ n. text_eq n (before_colon name)) inherited_names
  | some c ↦ elim ((chart_of_accounts c).type) [ transitory ↦ false | _ ↦ true ]
]

-- The mirror of the entry takes from the account.
unfoldable pub decreases : OriginalEntry → Bool
unfolding opposite
decreases e = not (eqb (opposite e.posted.direction) e.normal_side)

-- The loop that fills `guardedSet`.
unfoldable pub guarded_ids : List OriginalEntry → List ℕ
unfolding decreases is_protected
guarded_ids [] = []
guarded_ids (e ∷ es) =
    let rest = guarded_ids es in
    if decreases e && is_protected e.name then e.posted.account_id ∷ rest else rest

-- `onPosted`: the audit event, in the same transaction.
unfoldable pub audit_reversal :
    ReverseTransactionInput → PostedTransaction → Db → Result LedgerError Db
audit_reversal input posted db = ok (record db {
  audit =
      db.audit
      ++ record {
        resource_id = input.transaction_id;
        note = trim input.note;
        reversal_tx_id = posted.transaction_id;
        source = input.source;
      }
        ∷ [];
})

-- The input of the posting.
unfoldable pub reversal_input : ReverseTransactionInput → List OriginalEntry → PostTransactionInput
unfolding guarded_ids mirror_entry audit_reversal
reversal_input input original = record {
  idempotency_key = input.idempotency_key;
  reason = reversal;
  source = input.source;
  entries = map mirror_entry original;
  reverses_tx_id = some input.transaction_id;
  non_negative_accounts = dedupe (guarded_ids original);
  on_posted = some (audit_reversal input);
}

-- A lost race against another reversal.
unfoldable pub rename_race : ℕ → LedgerError → LedgerError
rename_race i (sql reverses_once) = transaction_already_reversed i
rename_race i e = e

-- `reverseTransaction`
unfoldable pub reverse_transaction :
    ℕ → (ℕ → Attempt) → ReverseTransactionInput → Db → Result LedgerError PostedTransaction × Db
unfolding reversal_input rename_race
reverse_transaction max_retries at input db =
    if length (trim input.note) == 0
    then (err reversal_note_required, db)
    else elim (read_original input db) [
      | err e ↦ (err e, db)
      | ok original ↦
          let (r, db') = post_transaction max_retries at (reversal_input input original) db in
          elim r [
            | ok posted ↦ (ok posted, db')
            | err e ↦ (err (rename_race input.transaction_id e), db')
          ]
    ]
