-- ===== src/Ledger/Projection.antt =====
-- packages/ledger/src/service.ts: `applyProjectionDeltas`, which moves the projected balances of the
-- accounts of a transaction under their locks.
pub mod Sums
pub mod Deltas
pub mod Guard
use fluvia.Base.{
  ℕ, suc, ◌==◌, Bool, true, false, ◌&&◌, ◌||◌, List, [], ◌∷◌, ℤ, pos, ◌+ℤ◌, neg, ltb_ℤ, ltb, any,
  Result, ok, err, ◌>>=◌, ◌>>◌, throw_if, Option, none, some, if◌then◌else◌, ◌+◌,
}
use fluvia.Base.Enum.{eqb}
use fluvia.Ledger.Types.{
  Side, BalanceBucket, available, pending, Balances, LedgerEntryInput, LedgerError, optimistic_lock,
  insufficient_balance, type_error, side_enum,
}
use fluvia.Ledger.Db.{Account, Projection, find_account, find_projection, signed_amount}

-- `e.bucket ?? 'available'`
abbrev pub bucket_of : LedgerEntryInput → BalanceBucket
bucket_of e = elim e.bucket [ none ↦ available | some b ↦ b ]

abbrev pub Deltas : Type 0
Deltas = List (ℕ × Balances)

abbrev pub no_balances : Balances
no_balances = record { available = pos 0; pending = pos 0 }

-- `deltas.get(id) ?? { available: 0n, pending: 0n }`
unfoldable pub delta_get : ℕ → Deltas → Balances
delta_get i [] = no_balances
delta_get i ((j, d) ∷ ds) = if j == i then d else delta_get i ds

unfoldable pub delta_set : ℕ → Balances → Deltas → Deltas
delta_set i d [] = (i, d) ∷ []
delta_set i d ((j, e) ∷ ds) = if j == i then (j, d) ∷ ds else (j, e) ∷ delta_set i d ds

-- `d[bucket] += sign`
unfoldable pub add_to_bucket : BalanceBucket → ℤ → Balances → Balances
add_to_bucket available z d = record d { available = d.available +ℤ z }
add_to_bucket pending z d = record d { pending = d.pending +ℤ z }

-- The loop over the entries; the accounts are those that the transaction has locked.
unfoldable pub build_deltas :
    List Account → List LedgerEntryInput → Deltas → Result LedgerError Deltas
build_deltas accounts [] deltas = ok deltas
build_deltas accounts (e ∷ es) deltas = elim (find_account e.account_id accounts) [
  | none ↦ err type_error
  | some a ↦ build_deltas accounts es (
      delta_set e.account_id
        (add_to_bucket (bucket_of e) (signed_amount a.normal_side e.direction e.amount.amount)
          (delta_get e.account_id deltas))
        deltas)
]

-- `INSERT INTO balance_projections ... ON CONFLICT (account_id) DO NOTHING`, for one account.
unfoldable pub insert_projection : ℕ → List Projection → List Projection
insert_projection i [] = record { account_id = i; balances = no_balances; version = 0 } ∷ []
insert_projection i (p ∷ ps) = if p.account_id == i then p ∷ ps else p ∷ insert_projection i ps

unfoldable pub insert_projections : List ℕ → List Projection → List Projection
insert_projections [] ps = ps
insert_projections (i ∷ is) ps = insert_projections is (insert_projection i ps)

unfoldable pub add_balances : Balances → Balances → Balances
add_balances a d = record {
  available = a.available +ℤ d.available;
  pending = a.pending +ℤ d.pending;
}

-- `UPDATE balance_projections SET ... WHERE account_id = $1 AND version = $4 RETURNING ...`: the new
-- balances and the table, or `none` where no row matched. A missing version is NULL, which no row
-- matches.
unfoldable pub update_projection :
    ℕ → Option ℕ → Balances → List Projection → Option (Balances × List Projection)
update_projection i v d [] = none
update_projection i v d (p ∷ ps) = elim (p.account_id == i) [
  | true ↦ elim v [
    | none ↦ none
    | some n ↦
        if p.version == n
        then some (
          add_balances p.balances d,
          record p { balances = add_balances p.balances d; version = p.version + 1 } ∷ ps,
        )
        else none
  ]
  | false ↦ elim (update_projection i v d ps) [ none ↦ none | some (b, rest) ↦ some (b, p ∷ rest) ]
]

-- `versionByAccount.get(id)`
unfoldable pub version_of : ℕ → List Projection → Option ℕ
version_of i snapshot = elim (find_projection i snapshot) [ none ↦ none | some p ↦ some p.version ]

abbrev pub member : ℕ → List ℕ → Bool
member i xs = any (λ x. x == i) xs

-- The guard on an account that must not go below zero.
unfoldable pub check_balances : ℕ → Balances → Result LedgerError (Unit {0})
check_balances i b = do
  throw_if (ltb_ℤ b.available (pos 0)) (insufficient_balance i available b.available)
  throw_if (ltb_ℤ b.pending (pos 0)) (insufficient_balance i pending b.pending)

unfoldable pub guard_balances : List ℕ → ℕ → Balances → Result LedgerError (Unit {0})
guard_balances protected_accounts i b =
    if member i protected_accounts then check_balances i b else ok tt

-- The loop over the accounts: `snapshot` is the table when the versions were read.
unfoldable pub apply_deltas :
    List Projection
    → Deltas
    → List ℕ
    → List ℕ
    → List Projection
    → Result LedgerError (List Projection)
apply_deltas snapshot deltas protected_accounts [] ps = ok ps
apply_deltas snapshot deltas protected_accounts (i ∷ is) ps =
    elim (update_projection i (version_of i snapshot) (delta_get i deltas) ps) [
      | none ↦ err (optimistic_lock i)
      | some (b, rest) ↦
          guard_balances protected_accounts i b
          >> apply_deltas snapshot deltas protected_accounts is rest
    ]

-- The whole step. `outside` is what writes outside the sanctioned path do between the read of the
-- versions and the updates.
unfoldable pub apply_projection_deltas :
    (List Projection → List Projection)
    → List Account
    → List ℕ
    → List LedgerEntryInput
    → List ℕ
    → List Projection
    → Result LedgerError (List Projection)
apply_projection_deltas outside accounts account_ids entries protected_accounts ps = do
  deltas ← build_deltas accounts entries []
  let snapshot = insert_projections account_ids ps
  apply_deltas snapshot deltas protected_accounts account_ids (outside snapshot)
