-- ===== src/Ledger/Accounts/Rebuild.antt =====
-- Verification and reconstruction of the projection of an account.
use fluvia.Base.{
  ℕ, ◌+◌, ◌==◌, ◌≡◌, refl, sym, ap, ◌∙◌, Bool, true, false, not, List, [], ◌∷◌, some, Option-cases,
  inl, inr, Result, ok, err, err-ne-ok, ok-injective, arith, if◌then◌else◌,
}
use fluvia.Ledger.Types.{
  BalanceBucket, Balances, ProjectionVerification, ProjectionRebuild, LedgerError,
  account_not_found,
}
use fluvia.Ledger.Db.{
  Db, Account, Projection, find_account, find_projection, recompute, recompute_balances,
}
use fluvia.Ledger.Projection.{insert_projection}
use fluvia.Ledger.Projection.Sums.{projected, projected-insert_projection}
use fluvia.Ledger.Accounts.{
  same_balances, verify_projection, set_projection, rebuild_locked, rebuild_projection,
}
use fluvia.Ledger.Accounts.Verify.{
  same_balances_refl, verify_projection-found, verify_projection-inv,
}

projected-set_projection :
    (i j : ℕ) (b : BalanceBucket) (r : Balances) (ps : List Projection)
    → (i == j) ≡ false
    → projected j b (set_projection i r ps) ≡ projected j b ps
unfolding projected find_projection set_projection
projected-set_projection i j b r [] other = refl
projected-set_projection i j b r (p ∷ ps) other =
    ground (arith, projected-set_projection i j b r ps other)

find-set_projection :
    (i : ℕ) (r : Balances) (ps : List Projection) (p : Projection)
    → find_projection i ps ≡ some p
    → find_projection i (set_projection i r ps)
      ≡ some (record p { balances = r; version = p.version + 1 })
unfolding find_projection set_projection
find-set_projection i r [] p h = cc
find-set_projection i r (q ∷ qs) p h = ground (arith, find-set_projection i r qs p)

find-insert_projection :
    (i : ℕ) (ps : List Projection) (p : Projection)
    → find_projection i ps ≡ some p
    → find_projection i (insert_projection i ps) ≡ some p
unfolding find_projection insert_projection
find-insert_projection i [] p h = cc
find-insert_projection i (q ∷ qs) p h = ground (arith, find-insert_projection i qs p)

-- What a rebuild that succeeds has found and written.
pub record IsRebuild (i : ℕ) (db : Db) (out : ProjectionRebuild) (db' : Db) : Type 0 where
  pub account : Account
  pub row : Projection
  pub found : find_account i db.accounts ≡ some account
  pub row_found : find_projection i (insert_projection i db.projections) ≡ some row
  pub written : db' ≡ record db {
    projections = set_projection i (recompute_balances db i) (insert_projection i db.projections);
  }
  pub reported : out ≡ record {
    account_id = i;
    drifted = not (same_balances row.balances (recompute_balances db i));
    before = row.balances;
    after = recompute_balances db i;
  }

module _ (i : ℕ) (db db' : Db) (out : ProjectionRebuild) where
  rebuild_locked-IsRebuild :
      (a : Account)
      → find_account i db.accounts ≡ some a
      → rebuild_locked i db ≡ ok (out, db')
      → IsRebuild i db out db'
  unfolding rebuild_locked
  rebuild_locked-IsRebuild a found h =
      elim (Option-cases (find_projection i (insert_projection i db.projections))) [
        | inl missing ↦ absurd (err-ne-ok (rw (missing, rebuild_locked) at h))
        | inr (p, row_found) ↦
            let same = ok-injective (rw (row_found, rebuild_locked) at h) in
            record {
              account = a;
              row = p;
              found = found;
              row_found = row_found;
              written = sym (ap (λ q. q.1) same);
              reported = sym (ap (λ q. q.0) same);
            }
      ]

  rebuild_projection-IsRebuild : rebuild_projection i db ≡ ok (out, db') → IsRebuild i db out db'
  unfolding rebuild_projection
  rebuild_projection-IsRebuild h = elim (Option-cases (find_account i db.accounts)) [
    | inl missing ↦ absurd (err-ne-ok (rw (missing, rebuild_projection) at h))
    | inr (a, found) ↦
        let h1 = rw (found, rebuild_projection) at h in
        rebuild_locked-IsRebuild a found (alive a.deleted (rebuild_locked i db) h1)
  ]
    where
      alive :
          (gone : Bool) (k : Result LedgerError (ProjectionRebuild × Db))
          → (if gone then err (account_not_found (i ∷ [])) else k) ≡ ok (out, db')
          → k ≡ ok (out, db')
      alive true k e = absurd (err-ne-ok e)
      alive false k e = e

verify-written :
    (i : ℕ) (db : Db) (a : Account) (p : Projection)
    → find_account i db.accounts ≡ some a
    → find_projection i (insert_projection i db.projections) ≡ some p
    → verify_projection i (record db {
      projections = set_projection i (recompute_balances db i) (insert_projection i db.projections);
    })
      ≡ ok (record {
        account_id = i;
        matches = true;
        projected = recompute_balances db i;
        recomputed = recompute_balances db i;
      })
unfolding recompute
verify-written i db a p found row =
    verify_projection-found i
      (record db {
        projections =
            set_projection i (recompute_balances db i) (insert_projection i db.projections);
      })
      a (record p { balances = recompute_balances db i; version = p.version + 1 }) found
      (find-set_projection i (recompute_balances db i) (insert_projection i db.projections) p row)
    ∙ ap
        (λ m. ok (record {
          account_id = i;
          matches = m;
          projected = recompute_balances db i;
          recomputed = recompute_balances db i;
        }))
        (same_balances_refl (recompute_balances db i))

-- After a rebuild that succeeds the account's projection verifies, with the balances that the
-- entries add up to, and the projected balances of every other account are what they were.
pub rebuild_projection-repairs :
    (i : ℕ) (db db' : Db) (out : ProjectionRebuild)
    → rebuild_projection i db ≡ ok (out, db')
    → (verify_projection i db'
        ≡ ok (record {
          account_id = i;
          matches = true;
          projected = recompute_balances db i;
          recomputed = recompute_balances db i;
        }))
      × ((j : ℕ) (b : BalanceBucket)
          → (i == j) ≡ false
          → projected j b db'.projections ≡ projected j b db.projections)
rebuild_projection-repairs i db db' out h =
    let a = rebuild_projection-IsRebuild i db db' out h in
    (
      ap (verify_projection i) a.written ∙ verify-written i db a.account a.row a.found a.row_found,
      λ j b other.
          ap (λ (d : Db). projected j b d.projections) a.written
          ∙ projected-set_projection i j b (recompute_balances db i)
              (insert_projection i db.projections) other
          ∙ projected-insert_projection j i b db.projections,
    )

-- A rebuild reports drift exactly where a verification just before it does not match, and the
-- balances that it reports from before and after are those that the verification compared.
pub rebuild_projection-drifted :
    (i : ℕ) (db db' : Db) (v : ProjectionVerification) (out : ProjectionRebuild)
    → verify_projection i db ≡ ok v
    → rebuild_projection i db ≡ ok (out, db')
    → (out.drifted ≡ not v.matches) × (out.before ≡ v.projected) × (out.after ≡ v.recomputed)
rebuild_projection-drifted i db db' v out verified h =
    let a = rebuild_projection-IsRebuild i db db' out h in
    let (p, row, same) = verify_projection-inv i db v verified in
    let rows = find-insert_projection i db.projections p row in
    let found : a.row ≡ p = cc (a.row_found, rows) in
    (
      ap (λ (r : ProjectionRebuild). r.drifted) a.reported
          ∙ ap (λ (q : Projection). not (same_balances q.balances (recompute_balances db i))) found
          ∙ sym (ap (λ (w : ProjectionVerification). not w.matches) same),
      ap (λ (r : ProjectionRebuild). r.before) a.reported
          ∙ ap (λ (q : Projection). q.balances) found
          ∙ sym (ap (λ (w : ProjectionVerification). w.projected) same),
      ap (λ (r : ProjectionRebuild). r.after) a.reported
          ∙ sym (ap (λ (w : ProjectionVerification). w.recomputed) same),
    )
