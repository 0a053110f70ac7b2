-- ===== src/Ledger/Post/Moves.antt =====
-- What a first posting does to the projected balances.
use fluvia.Base.{◌≡◌, ap, ◌∙◌, map, ◌+ℤ◌, ℕ, none, some, ok}
use fluvia.Ledger.Types.{BalanceBucket, PostedTransaction}
use fluvia.Ledger.Db.{Db, Account, find_account, find_key, sum_entries}
use fluvia.Ledger.Validate.{PostTransactionInput}
use fluvia.Ledger.Projection.Sums.{projected}
use fluvia.Ledger.Projection.Deltas.{side_of, projected-apply_projection_deltas}
use fluvia.Ledger.Entries.{to_posted}
use fluvia.Ledger.Post.{Attempt, locked, posted_of, rows_after, post_once}
use fluvia.Ledger.Post.Applied.{apply_new-IsApplied}
use fluvia.Ledger.Post.Consistent.{IsQuiet, sum-found}
use fluvia.Ledger.Post.Guarded.{KeepsBalances}

module _ (at : Attempt) (input : PostTransactionInput) (quiet : IsQuiet at)
    (keeps : KeepsBalances input) (db db' : Db) (posted : PostedTransaction)
    (fresh : find_key input.idempotency_key db.transactions ≡ none)
    (done : post_once at input db ≡ ok (posted, db')) (j : ℕ) (b : BalanceBucket) where
  -- Every balance moves by what the entries add to it.
  pub projected-post_once :
      projected j b db'.projections
      ≡ projected j b db.projections
        +ℤ sum_entries j (side_of j (locked input db)) b (map to_posted input.entries)
  unfolding post_once KeepsBalances IsQuiet
  projected-post_once =
      let a = apply_new-IsApplied at input db posted db' (rw (fresh, post_once) at done) in
      ap (projected j b) (
        keeps (posted_of at a.entries) (rows_after at input db a.entries a.projections) db'
          a.hooked)
      ∙ projected-apply_projection_deltas at.outside (locked input db) input.entries
          input.non_negative_accounts db.projections a.projections j b (λ qs. quiet qs j b) a.moved

  pub projected-post_once_found :
      (a : Account)
      → find_account j db.accounts ≡ some a
      → projected j b db'.projections
        ≡ projected j b db.projections
          +ℤ sum_entries j a.normal_side b (map to_posted input.entries)
  unfolding post_once
  projected-post_once_found a found =
      let applied = apply_new-IsApplied at input db posted db' (rw (fresh, post_once) at done) in
      projected-post_once
      ∙ ap (λ z. projected j b db.projections +ℤ z)
          (sum-found input db applied.entries applied.inserted j b a found)
