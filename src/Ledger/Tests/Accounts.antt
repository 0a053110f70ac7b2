-- ===== src/Ledger/Tests/Accounts.antt =====
-- Examples of the theorems on accounts.
use fluvia.Base.{
  ℕ, ◌==◌, ◌≡◌, refl, true, false, [], ◌∷◌, ◌++◌, pos, neg, ◌+ℤ◌, some, Option-cases, inl, inr, ok,
  sym, ◌↔◌, not,
}
use fluvia.Base.Text.{Text, text_eq, codes}
use fluvia.Money.Currency.{usd, eq_currency}
use fluvia.Ledger.Types.{
  debit, BalanceBucket, reason_enum, side_enum, bucket_enum, ProjectionVerification,
  ProjectionRebuild,
}
use fluvia.Ledger.Db.{
  Db, Projection, find_account, find_projection, signed_amount, recompute, recompute_balances,
  sum_entries, contribution,
}
use fluvia.Ledger.Projection.{insert_projection}
use fluvia.Ledger.Projection.Sums.{projected}
use fluvia.Ledger.Entries.{to_posted}
use fluvia.Ledger.Post.Consistent.{IsConsistent, recompute-found, recompute-missing}
use fluvia.Ledger.Accounts.{
  find_named, new_account, create_account, same_balances, verify_projection, set_projection,
  rebuild_locked, rebuild_projection,
}
use fluvia.Ledger.Accounts.Verify.{verify_projection-matches}
use fluvia.Ledger.Accounts.Rebuild.{rebuild_projection-repairs, rebuild_projection-drifted}
use fluvia.Ledger.Accounts.Create.{create_account-IsConsistent}
use fluvia.Ledger.Tests.{sample_db, projection, posted_db}

-- The rows of the sample, of which the projections have been lost.
abbrev drifted_db : Db
drifted_db = record posted_db { projections = projection 1 (pos 7) ∷ [] }

abbrev found_drift : ProjectionVerification
found_drift = record {
  account_id = 1;
  matches = false;
  projected = record { available = pos 7; pending = pos 0 };
  recomputed = record { available = pos 500; pending = pos 0 };
}

abbrev repair : ProjectionRebuild
repair = record {
  account_id = 1;
  drifted = true;
  before = record { available = pos 7; pending = pos 0 };
  after = record { available = pos 500; pending = pos 0 };
}

abbrev repaired_db : Db
repaired_db = record drifted_db {
  projections =
      record {
        account_id = 1;
        balances = record { available = pos 500; pending = pos 0 };
        version = 2;
      }
      ∷ [];
}

drift_found : verify_projection 1 drifted_db ≡ ok found_drift
unfolding verify_projection find_account find_projection same_balances recompute sum_entries
    contribution signed_amount to_posted ◌+ℤ◌ neg
drift_found = refl

drift_repaired : rebuild_projection 1 drifted_db ≡ ok (repair, repaired_db)
unfolding rebuild_projection rebuild_locked find_account find_projection insert_projection
    set_projection same_balances recompute sum_entries contribution signed_amount to_posted ◌+ℤ◌ neg
drift_repaired = refl

verify_projection-matches_example :
    ((false ≡ true)
      ↔ ((b : BalanceBucket) → projected 1 b drifted_db.projections ≡ recompute drifted_db 1 b))
    × (IsConsistent drifted_db → false ≡ true)
verify_projection-matches_example = verify_projection-matches 1 drifted_db found_drift drift_found

rebuild_projection-repairs_example :
    (verify_projection 1 repaired_db
      ≡ ok (record {
        account_id = 1;
        matches = true;
        projected = recompute_balances drifted_db 1;
        recomputed = recompute_balances drifted_db 1;
      }))
    × ((j : ℕ) (b : BalanceBucket)
        → (1 == j) ≡ false
        → projected j b repaired_db.projections ≡ projected j b drifted_db.projections)
rebuild_projection-repairs_example =
    rebuild_projection-repairs 1 drifted_db repaired_db repair drift_repaired

rebuild_projection-drifted_example :
    (repair.drifted ≡ not found_drift.matches)
    × (repair.before ≡ found_drift.projected)
    × (repair.after ≡ found_drift.recomputed)
rebuild_projection-drifted_example =
    rebuild_projection-drifted 1 drifted_db repaired_db found_drift repair drift_found
      drift_repaired

abbrev new_name : Text
new_name = codes "suspense"

abbrev created_db : Db
created_db = record sample_db {
  accounts = sample_db.accounts ++ new_account 3 new_name usd debit ∷ [];
  projections =
      record {
        account_id = 3;
        balances = record { available = pos 0; pending = pos 0 };
        version = 0;
      }
      ∷ [];
}

sample_rows-IsConsistent : IsConsistent sample_db
unfolding IsConsistent projected find_projection sum_entries
sample_rows-IsConsistent j b = elim (Option-cases (find_account j sample_db.accounts)) [
  | inl missing ↦ sym (recompute-missing sample_db j b missing)
  | inr (a, found) ↦ sym (recompute-found sample_db j b a found)
]

account_created :
    create_account 3 new_name usd debit sample_db
    ≡ ok (new_account 3 new_name usd debit, created_db)
unfolding create_account find_named find_account find_projection insert_projection text_eq
    eq_currency
account_created = refl

create_account-IsConsistent_example :
    (find_account 3 created_db.accounts ≡ some (new_account 3 new_name usd debit))
    × ((p : Projection) × (find_projection 3 created_db.projections ≡ some p)
        × (p.balances.available ≡ pos 0)
        × (p.balances.pending ≡ pos 0))
    × IsConsistent created_db
create_account-IsConsistent_example =
    create_account-IsConsistent 3 new_name usd debit sample_db refl sample_rows-IsConsistent
      (new_account 3 new_name usd debit) created_db account_created
