-- ===== src/Ledger/Accounts/Verify.antt =====
-- The verification of the projection of an account.
use fluvia.Base.{
  ℕ, ◌+◌, ==_refl, ◌≡◌, ◌↔◌, refl, sym, ap, ap₂, ◌∙◌, true, List, eqb_ℤ-iff, pos_part, neg_part,
  some, Option-cases, inl, inr, ok, err-ne-ok, ok-injective, arith,
}
use fluvia.Ledger.Types.{BalanceBucket, available, pending, Balances, ProjectionVerification}
use fluvia.Ledger.Db.{
  Db, Account, Projection, find_account, find_projection, in_bucket, recompute, recompute_balances,
}
use fluvia.Ledger.Projection.Sums.{projected}
use fluvia.Ledger.Accounts.{same_balances, verify_projection}
use fluvia.Ledger.Post.Consistent.{IsConsistent}

pub same_balances_refl : (p : Balances) → same_balances p p ≡ true
unfolding same_balances
same_balances_refl p =
    rw
      (
        ==_refl (pos_part p.available + neg_part p.available),
        ==_refl (pos_part p.pending + neg_part p.pending),
      )
      refl

pub same_balances_sound : (p r : Balances) → same_balances p r ≡ true → p ≡ r
unfolding same_balances
same_balances_sound p r h =
    ap₂ (λ a q. record { available = a; pending = q })
      (ground (arith, eqb_ℤ-iff p.available r.available))
      (ground (arith, eqb_ℤ-iff p.pending r.pending))

pub verify_projection-found :
    (i : ℕ) (db : Db) (a : Account) (p : Projection)
    → find_account i db.accounts ≡ some a
    → find_projection i db.projections ≡ some p
    → verify_projection i db
      ≡ ok (record {
        account_id = i;
        matches = same_balances p.balances (recompute_balances db i);
        projected = p.balances;
        recomputed = recompute_balances db i;
      })
unfolding verify_projection
verify_projection-found i db a p found row = rw (found, row, verify_projection) refl

-- What a verification that succeeds has found.
pub verify_projection-inv :
    (i : ℕ) (db : Db) (v : ProjectionVerification)
    → verify_projection i db ≡ ok v
    → (p : Projection) × (find_projection i db.projections ≡ some p)
      × (v ≡ record {
        account_id = i;
        matches = same_balances p.balances (recompute_balances db i);
        projected = p.balances;
        recomputed = recompute_balances db i;
      })
unfolding verify_projection
verify_projection-inv i db v h = elim (Option-cases (find_account i db.accounts)) [
  | inl missing ↦ absurd (err-ne-ok (rw (missing, verify_projection) at h))
  | inr (a, found) ↦ elim (Option-cases (find_projection i db.projections)) [
    | inl no_row ↦ absurd (err-ne-ok (rw (found, no_row, verify_projection) at h))
    | inr (p, row) ↦ (p, row, sym (ok-injective (rw (found, row, verify_projection) at h)))
  ]
]

in_bucket-recompute_balances :
    (db : Db) (i : ℕ) (b : BalanceBucket) → in_bucket b (recompute_balances db i) ≡ recompute db i b
in_bucket-recompute_balances db i available = refl
in_bucket-recompute_balances db i pending = refl

balances-ext : (p r : Balances) → ((b : BalanceBucket) → in_bucket b p ≡ in_bucket b r) → p ≡ r
balances-ext p r h = ap₂ (λ a q. record { available = a; pending = q }) (h available) (h pending)

projected-found :
    (i : ℕ) (b : BalanceBucket) (ps : List Projection) (p : Projection)
    → find_projection i ps ≡ some p
    → projected i b ps ≡ in_bucket b p.balances
unfolding projected
projected-found i b ps p h = rw (h, projected) refl

-- A verification says that the projection of an account matches exactly where both projected
-- balances are the ones that the entries add up to; so where every projection of the rows is
-- consistent with the entries, no verification reports drift.
pub verify_projection-matches :
    (i : ℕ) (db : Db) (v : ProjectionVerification)
    → verify_projection i db ≡ ok v
    → ((v.matches ≡ true) ↔ ((b : BalanceBucket) → projected i b db.projections ≡ recompute db i b))
      × (IsConsistent db → v.matches ≡ true)
unfolding IsConsistent
verify_projection-matches i db v h =
    let (p, row, same) = verify_projection-inv i db v h in
    let r = recompute_balances db i in
    let reported : v.matches ≡ same_balances p.balances r =
      ap (λ (w : ProjectionVerification). w.matches) same in
    let matched : ((b : BalanceBucket) → projected i b db.projections ≡ recompute db i b)
        → v.matches ≡ true =
      λ e.
        reported
        ∙ ap (λ q. same_balances q r)
            (balances-ext p.balances r (λ b.
              sym (projected-found i b db.projections p row)
              ∙ e b
              ∙ sym (in_bucket-recompute_balances db i b)))
        ∙ same_balances_refl r in
    (
      (
        λ m b.
            projected-found i b db.projections p row
            ∙ ap (in_bucket b) (same_balances_sound p.balances r (sym reported ∙ m))
            ∙ in_bucket-recompute_balances db i b,
        matched,
      ),
      λ c. matched (c i),
    )
