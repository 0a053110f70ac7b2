-- ===== src/Ledger/Reverse/Once.antt =====
-- A transaction is reversed once.
use fluvia.Base.{
  ℕ, ==_refl, ◌≡◌, refl, sym, ap, ◌∙◌, true, List, [], ◌∷◌, ◌++◌, none, some, Option-cases, inl,
  inr, ok, err, err-ne-ok, >>=-eq-ok, arith, Bool-cases,
}
use fluvia.Ledger.Types.{PostedTransaction, sql, reverses_once}
use fluvia.Ledger.Db.{Db, TxRow, reverses, find_key, find_tx, find_reversal}
use fluvia.Ledger.Validate.{PostTransactionInput}
use fluvia.Ledger.Post.{
  Attempt, check_reverses, new_row, apply_new, post_once, posted_of, rows_after,
}
use fluvia.Ledger.Post.Applied.{apply_new-IsApplied}
use fluvia.Ledger.Post.Idempotent.{KeepsLedger}

find_tx-append :
    (i : ℕ) (ts : List TxRow) (x t : TxRow)
    → find_tx i ts ≡ some t
    → find_tx i (ts ++ x ∷ []) ≡ some t
unfolding find_tx
find_tx-append i [] x t h = cc
find_tx-append i (y ∷ ys) x t h = ground (arith, find_tx-append i ys x t)

find_reversal-append :
    (i : ℕ) (ts : List TxRow) (x : TxRow)
    → reverses i x ≡ true
    → (r : TxRow) × (find_reversal i (ts ++ x ∷ []) ≡ some r)
unfolding find_reversal
find_reversal-append i [] x h = (x, rw h refl)
find_reversal-append i (y ∷ ys) x h = elim (Bool-cases (reverses i y)) [
  | inl here ↦ (y, rw here refl)
  | inr other ↦ rw other (find_reversal-append i ys x h)
]

check_reverses-found :
    (i : ℕ) (db : Db) {u : Unit {0}}
    → check_reverses (some i) db ≡ ok u
    → (t : TxRow) × (find_tx i db.transactions ≡ some t)
unfolding check_reverses
check_reverses-found i db h = elim (Option-cases (find_tx i db.transactions)) [
  | inl missing ↦ absurd (err-ne-ok (rw (missing, check_reverses) at h))
  | inr (t, found) ↦ (t, found)
]

check_reverses-twice :
    (i : ℕ) (db : Db) (t r : TxRow)
    → find_tx i db.transactions ≡ some t
    → find_reversal i db.transactions ≡ some r
    → check_reverses (some i) db ≡ err (sql reverses_once)
unfolding check_reverses
check_reverses-twice i db t r found reversed = rw (found, reversed, check_reverses) refl

apply_new-checked :
    (at : Attempt) (input : PostTransactionInput) (db db' : Db) (posted : PostedTransaction) (i : ℕ)
    → input.reverses_tx_id ≡ some i
    → apply_new at input db ≡ ok (posted, db')
    → (t : TxRow) × (find_tx i db.transactions ≡ some t)
unfolding apply_new
apply_new-checked at input db db' posted i reverse h =
    let (u, checked, _) = >>=-eq-ok (check_reverses input.reverses_tx_id db) _ h in
    check_reverses-found i db (ap (λ r. check_reverses r db) (sym reverse) ∙ checked)

apply_new-refused :
    (at : Attempt) (input : PostTransactionInput) (db : Db) (i : ℕ) (t r : TxRow)
    → input.reverses_tx_id ≡ some i
    → find_tx i db.transactions ≡ some t
    → find_reversal i db.transactions ≡ some r
    → apply_new at input db ≡ err (sql reverses_once)
unfolding apply_new
apply_new-refused at input db i t r reverse found reversed =
    rw reverse (rw (check_reverses-twice i db t r found reversed) refl)

module _ (at : Attempt) (input : PostTransactionInput) (keeps : KeepsLedger input.on_posted)
    (db db' : Db) (posted : PostedTransaction) (i : ℕ) (reverse : input.reverses_tx_id ≡ some i)
    (fresh : find_key input.idempotency_key db.transactions ≡ none)
    (h : post_once at input db ≡ ok (posted, db')) where
  new : apply_new at input db ≡ ok (posted, db')
  unfolding post_once
  new = rw (fresh, post_once) at h

  stored_transactions : db'.transactions ≡ db.transactions ++ new_row at input ∷ []
  unfolding KeepsLedger
  stored_transactions =
      let a = apply_new-IsApplied at input db posted db' new in
      (keeps (posted_of at a.entries) (rows_after at input db a.entries a.projections) db'
        a.hooked).0

  reversal_stored : (r : TxRow) × (find_reversal i db'.transactions ≡ some r)
  unfolding new_row
  reversal_stored =
      let (r, found) =
        find_reversal-append i db.transactions (new_row at input) (rw reverse (==_refl i)) in
      (r, ap (find_reversal i) stored_transactions ∙ found)

  -- Once a reversal of a transaction has been posted, and its hook left the ledger's rows alone, the
  -- index on `reverses_tx_id` refuses, in whatever attempt, every posting with another key that
  -- reverses the same transaction.
  pub post_once-reverses_once :
      (at' : Attempt) (input' : PostTransactionInput)
      → input'.reverses_tx_id ≡ some i
      → find_key input'.idempotency_key db'.transactions ≡ none
      → post_once at' input' db' ≡ err (sql reverses_once)
  unfolding post_once
  post_once-reverses_once at' input' again other =
      let (t, found) = apply_new-checked at input db db' posted i reverse new in
      let (r, reversed) = reversal_stored in
      rw (other, post_once)
        (apply_new-refused at' input' db' i t r again
          (ap (find_tx i) stored_transactions
            ∙ find_tx-append i db.transactions (new_row at input) t found)
          reversed)
