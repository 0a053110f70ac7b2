-- ===== src/Ledger/Projection/Guard.antt =====
-- The guard against negative balances.
use fluvia.Base.{
  ℕ, ◌≡◌, refl, sym, ap, ◌∙◌, subst, true, false, List, [], ◌∷◌, ℤ, pos, ◌+ℤ◌, ◌≤ℤ◌, ok, arith,
  Bool-cases, inl, inr, +ℤ_zero, zero_+ℤ,
}
use fluvia.Ledger.Types.{BalanceBucket, available, pending, Balances}
use fluvia.Ledger.Db.{Projection, in_bucket}
use fluvia.Ledger.Projection.{
  Deltas, delta_get, version_of, member, check_balances, guard_balances, apply_deltas,
}
use fluvia.Ledger.Projection.Sums.{
  projected, visits, apply_deltas-cons, projected-apply_deltas, update-returns,
}

check_balances-nonneg :
    (i : ℕ) (bal : Balances) (b : BalanceBucket)
    → check_balances i bal ≡ ok tt
    → pos 0 ≤ℤ in_bucket b bal
unfolding check_balances
check_balances-nonneg i bal available h = ground arith
check_balances-nonneg i bal pending h = ground arith

guard_balances-nonneg :
    (prot : List ℕ) (i : ℕ) (bal : Balances) (b : BalanceBucket)
    → member i prot ≡ true
    → guard_balances prot i bal ≡ ok tt
    → pos 0 ≤ℤ in_bucket b bal
unfolding guard_balances
guard_balances-nonneg prot i bal b m h = check_balances-nonneg i bal b (rw m at h)

pub visits-not_member : (j : ℕ) (is : List ℕ) (z : ℤ) → member j is ≡ false → visits j is z ≡ pos 0
visits-not_member j [] z h = refl
visits-not_member j (i ∷ is) z h = ground (arith, visits-not_member j is z, zero_+ℤ (pos 0))

-- Once the loop has passed over a protected account, neither of its balances is negative.
pub apply_deltas-nonneg :
    (snapshot : List Projection) (ds : Deltas) (prot : List ℕ) (is : List ℕ)
    (ps out : List Projection) (j : ℕ) (b : BalanceBucket)
    → member j prot ≡ true
    → member j is ≡ true
    → apply_deltas snapshot ds prot is ps ≡ ok out
    → pos 0 ≤ℤ projected j b out
apply_deltas-nonneg snapshot ds prot [] ps out j b mp m h = cc
apply_deltas-nonneg snapshot ds prot (i ∷ is) ps out j b mp m h =
    let (bal, rest, found, guarded, applied) = apply_deltas-cons snapshot ds prot i is ps h in
    elim (Bool-cases (member j is)) [
      | inl later ↦ apply_deltas-nonneg snapshot ds prot is rest out j b mp later applied
      | inr last ↦
          let here : i ≡ j = ground arith in
          let unmoved : projected j b out ≡ projected j b rest =
            projected-apply_deltas snapshot ds prot is rest out j b applied
            ∙ ap (λ z. projected j b rest +ℤ z)
                (visits-not_member j is (in_bucket b (delta_get j ds)) last)
            ∙ +ℤ_zero (projected j b rest) in
          let settled : projected j b rest ≡ in_bucket b bal =
            ap (λ k. projected k b rest) (sym here)
            ∙ update-returns i (version_of i snapshot) (delta_get i ds) ps bal rest found b in
          subst (λ z. pos 0 ≤ℤ z) (sym (unmoved ∙ settled))
            (guard_balances-nonneg prot i bal b (ap (λ k. member k prot) here ∙ mp) guarded)
    ]
