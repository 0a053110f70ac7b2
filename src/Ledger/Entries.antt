-- ===== src/Ledger/Entries.antt =====
-- packages/ledger/src/service.ts: the accounts that `postOnce` locks and the entries that it inserts.
use fluvia.Base.{
  ℕ, ◌==◌, not, List, [], ◌∷◌, map, keep, Result, ok, err, ◌>>=◌, ◌>>◌, throw_if, none, some,
  if◌then◌else◌, ltb,
}
use fluvia.Money.Currency.{eq_currency}
use fluvia.Ledger.Types.{
  reason_enum, LedgerEntryInput, PostedEntry, LedgerError, account_currency_mismatch, type_error,
}
use fluvia.Ledger.Db.{Account, find_account}
use fluvia.Ledger.Projection.{bucket_of}

-- `[...new Set(ids)]`
unfoldable pub dedupe : List ℕ → List ℕ
dedupe [] = []
dedupe (x ∷ xs) = x ∷ keep (λ y. not (y == x)) (dedupe xs)

unfoldable pub insert_sorted : ℕ → List ℕ → List ℕ
insert_sorted x [] = x ∷ []
insert_sorted x (y ∷ ys) = if ltb y x then y ∷ insert_sorted x ys else x ∷ y ∷ ys

-- `.sort()`
unfoldable pub sort_ids : List ℕ → List ℕ
unfolding insert_sorted
sort_ids [] = []
sort_ids (x ∷ xs) = insert_sorted x (sort_ids xs)

unfoldable pub account_ids_of : List LedgerEntryInput → List ℕ
account_ids_of entries = sort_ids (dedupe (map (λ e. e.account_id) entries))

-- `SELECT ... WHERE id = ANY($1) AND deleted_at IS NULL ORDER BY id FOR UPDATE`
unfoldable pub lock_accounts : List ℕ → List Account → List Account
lock_accounts [] accounts = []
lock_accounts (i ∷ is) accounts =
    let rest = lock_accounts is accounts in
    elim (find_account i accounts) [ none ↦ rest | some a ↦ if a.deleted then rest else a ∷ rest ]

unfoldable pub to_posted : LedgerEntryInput → PostedEntry
to_posted e = record {
  account_id = e.account_id;
  direction = e.direction;
  amount = e.amount.amount;
  currency = e.amount.currency;
  bucket = bucket_of e;
}

-- The loop that checks the currency of each entry and inserts it.
unfoldable pub insert_entries :
    List Account → List LedgerEntryInput → Result LedgerError (List PostedEntry)
unfolding to_posted
insert_entries accounts [] = ok []
insert_entries accounts (e ∷ es) = elim (find_account e.account_id accounts) [
  | none ↦ err type_error
  | some a ↦
      throw_if (not (eq_currency a.currency e.amount.currency))
        (account_currency_mismatch e.account_id a.currency e.amount.currency)
      >> (do rest ← insert_entries accounts es; ok (to_posted e ∷ rest))
]
