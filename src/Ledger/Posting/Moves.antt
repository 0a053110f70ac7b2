-- ===== src/Ledger/Posting/Moves.antt =====
-- What an operation of two legs moves.
use fluvia.Base.{
  ℕ, ◌==◌, ◌≡◌, refl, ap, ap₂, ◌∙◌, Bool, true, false, ◌&&◌, [], ◌∷◌, map, ℤ, pos, neg, ◌+ℤ◌,
  +ℤ_zero, none, some, ok, if◌then◌else◌,
}
use fluvia.Base.Enum.{eqb}
use fluvia.Money.Value.{Money}
use fluvia.Ledger.Types.{
  LedgerReason, Side, debit, credit, BalanceBucket, available, pending, PostedTransaction,
  bucket_enum, side_enum,
}
use fluvia.Ledger.Chart.{AccountCode}
use fluvia.Ledger.Db.{Db, Account, find_account, find_key, contribution, signed_amount, sum_entries}
use fluvia.Ledger.Projection.Sums.{projected}
use fluvia.Ledger.Projection.Deltas.{side_of}
use fluvia.Ledger.Entries.{to_posted}
use fluvia.Ledger.Post.{Attempt, locked, post_once}
use fluvia.Ledger.Post.Consistent.{IsQuiet}
use fluvia.Ledger.Post.Guarded.{KeepsBalances}
use fluvia.Ledger.Post.Moves.{projected-post_once, projected-post_once_found}
use fluvia.Ledger.Posting.{Chart}
use fluvia.Ledger.Posting.Operations.{SimpleAmountInput, entry, posting, two_legged_input}
use fluvia.Ledger.Posting.Legs.{sum_entries-legs, sum_entries-debited, sum_entries-credited}

other_bucket : (b : Bool) (z : ℤ) → (if b && false then z else pos 0) ≡ pos 0
other_bucket true z = refl
other_bucket false z = refl

zero_sum : pos 0 +ℤ (pos 0 +ℤ pos 0) ≡ pos 0
unfolding ◌+ℤ◌
zero_sum = refl

no_pending :
    (j x y : ℕ) (s : Side) (m : Money)
    → sum_entries j s pending (map to_posted (entry x debit m ∷ entry y credit m ∷ [])) ≡ pos 0
unfolding sum_entries contribution to_posted entry
no_pending j x y s m =
    ap₂ (λ a b. a +ℤ (b +ℤ pos 0)) (other_bucket (x == j) _) (other_bucket (y == j) _) ∙ zero_sum

untouched :
    (j x y : ℕ) (s : Side) (m : Money)
    → (x == j) ≡ false
    → (y == j) ≡ false
    → sum_entries j s available (map to_posted (entry x debit m ∷ entry y credit m ∷ [])) ≡ pos 0
untouched j x y s m not_x not_y = sum_entries-legs j x y s m ∙ rw (not_x, not_y) (+ℤ_zero (pos 0))

debit_rises : (s : Side) (z : ℤ) → signed_amount s debit z ≡ (if eqb s debit then z else neg z)
unfolding signed_amount
debit_rises debit z = refl
debit_rises credit z = refl

credit_rises : (s : Side) (z : ℤ) → signed_amount s credit z ≡ (if eqb s credit then z else neg z)
unfolding signed_amount
credit_rises debit z = refl
credit_rises credit z = refl

-- The first posting of an operation of two legs, where its hook and other writers leave the projected
-- balances alone, moves the amount in the available balances of its two accounts and nothing else: the
-- debited account rises by it if its normal side is debit and falls by it if not, the credited account
-- rises if its normal side is credit and falls if not, and every other balance of any account, the
-- pending ones of the two included, stays as it was.
pub two_legged_input-moves :
    (at : Attempt) (input : SimpleAmountInput) (r : LedgerReason) (d c : AccountCode)
    (chart : Chart) (db db' : Db) (posted : PostedTransaction) (x y : Account)
    → IsQuiet at
    → KeepsBalances (two_legged_input input r d c chart)
    → (chart d == chart c) ≡ false
    → find_account (chart d) db.accounts ≡ some x
    → find_account (chart c) db.accounts ≡ some y
    → find_key input.context.idempotency_key db.transactions ≡ none
    → post_once at (two_legged_input input r d c chart) db ≡ ok (posted, db')
    → (projected (chart d) available db'.projections
        ≡ projected (chart d) available db.projections
          +ℤ (if eqb x.normal_side debit then input.amount.amount else neg input.amount.amount))
      × (projected (chart c) available db'.projections
          ≡ projected (chart c) available db.projections
            +ℤ (if eqb y.normal_side credit then input.amount.amount else neg input.amount.amount))
      × ((j : ℕ)
          → (chart d == j) ≡ false
          → (chart c == j) ≡ false
          → projected j available db'.projections ≡ projected j available db.projections)
      × ((j : ℕ) → projected j pending db'.projections ≡ projected j pending db.projections)
unfolding two_legged_input posting
two_legged_input-moves at input r d c chart db db' posted x y quiet keeps distinct found_x found_y
      fresh done =
    let out = two_legged_input input r d c chart in
    let m = input.amount in
    let same = λ (j : ℕ) (b : BalanceBucket).
      projected-post_once at out quiet keeps db db' posted fresh done j b in
    (
      projected-post_once_found at out quiet keeps db db' posted fresh done (chart d) available x
            found_x
          ∙ ap (λ z. projected (chart d) available db.projections +ℤ z)
              (sum_entries-debited (chart d) (chart c) distinct x.normal_side m
                ∙ debit_rises x.normal_side m.amount),
      projected-post_once_found at out quiet keeps db db' posted fresh done (chart c) available y
            found_y
          ∙ ap (λ z. projected (chart c) available db.projections +ℤ z)
              (sum_entries-credited (chart d) (chart c) distinct y.normal_side m
                ∙ credit_rises y.normal_side m.amount),
      λ j not_d not_c.
          same j available
          ∙ ap (λ z. projected j available db.projections +ℤ z)
              (untouched j (chart d) (chart c) (side_of j (locked out db)) m not_d not_c)
          ∙ +ℤ_zero (projected j available db.projections),
      λ j.
          same j pending
          ∙ ap (λ z. projected j pending db.projections +ℤ z)
              (no_pending j (chart d) (chart c) (side_of j (locked out db)) m)
          ∙ +ℤ_zero (projected j pending db.projections),
    )
