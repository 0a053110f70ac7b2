-- ===== src/Ledger/Accounts.antt =====
-- packages/ledger/src/service.ts: the operations on one account, `createAccount`, `getBalance`,
-- `verifyProjection` and `rebuildProjection`.
pub mod Verify
pub mod Rebuild
pub mod Create
use fluvia.Base.{
  ℕ, zero, ◌+◌, ◌==◌, Bool, true, false, ◌&&◌, ◌||◌, not, List, [], ◌∷◌, ◌++◌, Result, ok, err,
  ◌>>=◌, ◌>>◌, throw_if, Option, none, some, if◌then◌else◌, eqb_ℤ,
}
use fluvia.Base.Text.{Text, text_eq}
use fluvia.Money.Currency.{CurrencyCode, eq_currency}
use fluvia.Ledger.Types.{
  Side, Balances, BalanceDto, ProjectionVerification, ProjectionRebuild, LedgerError,
  account_not_found, account_exists, type_error,
}
use fluvia.Ledger.Db.{Db, Account, Projection, find_account, find_projection, recompute_balances}
use fluvia.Ledger.Projection.{insert_projection}

-- `ledger_accounts WHERE name = $1 AND currency = $2`, by the unique index.
unfoldable pub find_named : Text → CurrencyCode → List Account → Option Account
find_named name currency [] = none
find_named name currency (a ∷ rest) =
    if text_eq a.name name && eq_currency a.currency currency
    then some a
    else find_named name currency rest

abbrev pub new_account : ℕ → Text → CurrencyCode → Side → Account
new_account id name currency normal_side = record {
  id = id;
  name = name;
  currency = currency;
  normal_side = normal_side;
  deleted = false;
}

abbrev is_some {ℓ} : {A : Type ℓ} → Option A → Bool
is_some none = false
is_some (some a) = true

-- The test of the unique indexes on both tables: the primary keys and the name.
abbrev pub is_taken : ℕ → Text → CurrencyCode → Db → Bool
is_taken id name currency db =
    is_some (find_named name currency db.accounts)
    || is_some (find_account id db.accounts)
    || is_some (find_projection id db.projections)

-- `createAccount`: the id is the database's. A unique violation (23505) of either insertion is
-- `LedgerAccountExistsError`.
unfoldable pub create_account :
    ℕ → Text → CurrencyCode → Side → Db → Result LedgerError (Account × Db)
create_account id name currency normal_side db =
    let account = new_account id name currency normal_side in
    throw_if (is_taken id name currency db) account_exists
    >> ok (
      account,
      record db {
        accounts = db.accounts ++ account ∷ [];
        projections = insert_projection id db.projections;
      },
    )

-- `getBalance`
unfoldable pub get_balance : ℕ → Db → Result LedgerError BalanceDto
get_balance i db = elim (find_projection i db.projections) [
  | none ↦ err (account_not_found (i ∷ []))
  | some p ↦ ok (record {
    account_id = i;
    available = p.balances.available;
    pending = p.balances.pending;
    version = p.version;
  })
]

-- `p.available === r.available && p.pending === r.pending`
unfoldable pub same_balances : Balances → Balances → Bool
same_balances p r = eqb_ℤ p.available r.available && eqb_ℤ p.pending r.pending

-- `verifyProjection`
unfoldable pub verify_projection : ℕ → Db → Result LedgerError ProjectionVerification
verify_projection i db = elim (find_account i db.accounts) [
  | none ↦ err (account_not_found (i ∷ []))
  | some a ↦ elim (find_projection i db.projections) [
    | none ↦ err (account_not_found (i ∷ []))
    | some p ↦ ok (record {
      account_id = i;
      matches = same_balances p.balances (recompute_balances db i);
      projected = p.balances;
      recomputed = recompute_balances db i;
    })
  ]
]

-- `UPDATE balance_projections SET available = $2, pending = $3, version = version + 1 ...`
unfoldable pub set_projection : ℕ → Balances → List Projection → List Projection
set_projection i r [] = []
set_projection i r (p ∷ ps) =
    if p.account_id == i
    then record p { balances = r; version = p.version + 1 } ∷ ps
    else p ∷ set_projection i r ps

-- The part of `rebuildProjection` under the lock of the account.
unfoldable pub rebuild_locked : ℕ → Db → Result LedgerError (ProjectionRebuild × Db)
rebuild_locked i db =
    let r = recompute_balances db i in
    let ps = insert_projection i db.projections in
    elim (find_projection i ps) [
      | none ↦ err type_error
      | some p ↦ ok (
        record {
          account_id = i;
          drifted = not (same_balances p.balances r);
          before = p.balances;
          after = r;
        },
        record db { projections = set_projection i r ps },
      )
    ]

-- `rebuildProjection`
unfoldable pub rebuild_projection : ℕ → Db → Result LedgerError (ProjectionRebuild × Db)
rebuild_projection i db = elim (find_account i db.accounts) [
  | none ↦ err (account_not_found (i ∷ []))
  | some a ↦ if a.deleted then err (account_not_found (i ∷ [])) else rebuild_locked i db
]
