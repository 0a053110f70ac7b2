-- ===== src/Ledger/Posting.antt =====
-- packages/ledger/src/posting.ts: the accounts of a merchant and the typed operations over them. The
-- provisioning of the accounts commits before the posting begins.
pub mod Operations
pub mod Catalogue
pub mod Legs
pub mod Moves
pub mod Capture
use fluvia.Base.{
  ℕ, ◌≡◌, Bool, true, false, not, List, [], ◌∷◌, ◌++◌, map, Result, ok, err, ◌>>=◌, ◌>>◌, throw_if,
  Option, none, some, if◌then◌else◌, any,
}
use fluvia.Base.Enum.{eqb}
use fluvia.Base.Text.{Text, text_eq}
use fluvia.Money.Currency.{CurrencyCode, eq_currency}
use fluvia.Money.Value.{Money, is_positive}
use fluvia.Ledger.Types.{
  LedgerReason, Side, debit, credit, Source, LedgerEntryInput, PostedTransaction, LedgerError,
  invalid_entries, unknown_account_code, side_enum,
}
use fluvia.Ledger.Chart.{
  AccountCode, account_codes, code_text, account_name, chart_of_accounts, is_account_code, platform,
  recon_differences, suspense,
}
use fluvia.Ledger.Db.{Db, Account, Projection}
use fluvia.Ledger.Validate.{PostTransactionInput}
use fluvia.Ledger.Projection.{insert_projection}
use fluvia.Ledger.Accounts.{find_named, new_account}
use fluvia.Ledger.Post.{Attempt, post_transaction}

-- `INSERT INTO ledger_accounts ... ON CONFLICT (tenant_id, name, currency) DO NOTHING`: the database
-- gives a new row the id that `ids` has for its name.
unfoldable pub insert_accounts :
    (Text → ℕ)
    → (AccountCode → Text)
    → CurrencyCode
    → List AccountCode
    → List Account
    → List Account
insert_accounts ids name currency [] accounts = accounts
insert_accounts ids name currency (c ∷ cs) accounts =
    insert_accounts ids name currency cs (elim (find_named (name c) currency accounts) [
      | some a ↦ accounts
      | none ↦
          accounts
          ++ new_account (ids (name c)) (name c) currency ((chart_of_accounts c).normal_side) ∷ []
    ])

-- `name = ANY($3) AND currency = $2`
abbrev pub is_named : (AccountCode → Text) → CurrencyCode → List AccountCode → Account → Bool
is_named name currency cs a =
    if eq_currency a.currency currency then any (λ c. text_eq (name c) a.name) cs else false

-- `INSERT INTO balance_projections ... SELECT id ... ON CONFLICT (account_id) DO NOTHING`
unfoldable pub project_accounts :
    (Account → Bool) → List Account → List Projection → List Projection
project_accounts chosen [] ps = ps
project_accounts chosen (a ∷ rest) ps =
    project_accounts chosen rest (if chosen a then insert_projection a.id ps else ps)

-- The id of a live account; the map `byName`.
unfoldable pub live_id : Text → CurrencyCode → List Account → Option ℕ
live_id name currency accounts = elim (find_named name currency accounts) [
  | none ↦ none
  | some a ↦ if a.deleted then none else some a.id
]

-- `Record<AccountCode, string>`
abbrev pub Chart : Type 0
Chart = AccountCode → ℕ

-- The entry of a chart, which is read only where `check_chart` has passed.
abbrev pub chart_entry : (AccountCode → Text) → CurrencyCode → List Account → Chart
chart_entry name currency accounts c = elim (live_id (name c) currency accounts) [
  | none ↦ 0
  | some i ↦ i
]

-- The loop that looks up every code.
unfoldable pub check_chart :
    (AccountCode → Text)
    → CurrencyCode
    → List AccountCode
    → List Account
    → Result LedgerError (Unit {0})
check_chart name currency [] accounts = ok tt
check_chart name currency (c ∷ cs) accounts = elim (live_id (name c) currency accounts) [
  | none ↦ err (unknown_account_code (code_text c))
  | some i ↦ check_chart name currency cs accounts
]

-- The transaction that `ensureChart` and `ensurePlatformAccounts` run.
unfoldable pub provision :
    (Text → ℕ)
    → (AccountCode → Text)
    → CurrencyCode
    → List AccountCode
    → Db
    → Result LedgerError (Chart × Db)
provision ids name currency cs db =
    let accounts = insert_accounts ids name currency cs db.accounts in
    let projections = project_accounts (is_named name currency cs) accounts db.projections in
    check_chart name currency cs accounts
    >> ok (
      chart_entry name currency accounts,
      record db { accounts = accounts; projections = projections },
    )

-- `ensureChart`
unfoldable pub ensure_chart :
    (Text → ℕ) → Text → CurrencyCode → Db → Result LedgerError (Chart × Db)
unfolding account_name
ensure_chart ids merchant_id currency db =
    provision ids (λ c. account_name c merchant_id) currency account_codes db

abbrev is_platform : AccountCode → Bool
is_platform c = elim ((chart_of_accounts c).scope) [ platform ↦ true | _ ↦ false ]

-- The loop that checks the scope of every code.
unfoldable pub check_platform : List AccountCode → Result LedgerError (Unit {0})
check_platform [] = ok tt
check_platform (c ∷ cs) = throw_if (not (is_platform c)) invalid_entries >> check_platform cs

-- `ensurePlatformAccounts`
unfoldable pub ensure_platform_accounts :
    (Text → ℕ) → CurrencyCode → List AccountCode → Db → Result LedgerError (Chart × Db)
ensure_platform_accounts ids currency cs db = do
  check_platform cs
  provision ids code_text currency cs db

-- The check of `resolveAccounts`.
unfoldable pub check_codes : List Text → Result LedgerError (Unit {0})
check_codes [] = ok tt
check_codes (t ∷ ts) = elim (is_account_code t) [
  | none ↦ err (unknown_account_code t)
  | some c ↦ check_codes ts
]

-- `resolveAccounts`
unfoldable pub resolve_accounts :
    (Text → ℕ) → Text → CurrencyCode → List Text → Db → Result LedgerError (Chart × Db)
resolve_accounts ids merchant_id currency cs db = do
  check_codes cs
  ensure_chart ids merchant_id currency db
