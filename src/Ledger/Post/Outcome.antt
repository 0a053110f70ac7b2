-- ===== src/Ledger/Post/Outcome.antt =====
-- What `postTransaction` as a whole guarantees of the posting that it returns.
use fluvia.Base.{
  ℕ, zero, suc, ◌+◌, ◌≡◌, ap, ◌∙◌, true, false, map, pos, ◌≤ℤ◌, Option-cases, Bool-cases, inl, inr,
  ok, err-ne-ok, Result-cases,
}
use fluvia.Ledger.Types.{BalanceBucket, PostedTransaction, LedgerEntryInput}
use fluvia.Ledger.Db.{Db}
use fluvia.Ledger.Validate.{PostTransactionInput, validate_input}
use fluvia.Ledger.Projection.{member}
use fluvia.Ledger.Projection.Sums.{projected}
use fluvia.Ledger.Post.{Attempt, post_once, is_retryable, attempt_once, attempts, post_transaction}
use fluvia.Ledger.Post.Guarded.{KeepsBalances, post_once-nonneg}

-- The attempt that succeeded, and the rows that it found.
pub record IsPosted (at : ℕ → Attempt) (input : PostTransactionInput) (posted : PostedTransaction)
    (db' : Db) : Type 0 where
  pub number : ℕ
  pub found : Db
  pub applied : post_once (at number) input found ≡ ok (posted, db')

attempt_once-IsPosted :
    (at : ℕ → Attempt) (k : ℕ) (input : PostTransactionInput) (db : Db) (posted : PostedTransaction)
    → (attempt_once (at k) input db).0 ≡ ok posted
    → IsPosted at input posted (attempt_once (at k) input db).1
unfolding attempt_once
attempt_once-IsPosted at k input db posted h = elim (Option-cases (at k).aborted) [
  | inr (state, aborted) ↦ absurd (err-ne-ok (rw (aborted, attempt_once) at h))
  | inl running ↦ elim (Result-cases (post_once (at k) input ((at k).others db))) [
    | inr (e, failed) ↦ absurd (err-ne-ok (rw (running, failed, attempt_once) at h))
    | inl ((out, db'), done) ↦
        let same : out ≡ posted = cc (rw (running, done, attempt_once) at h) in
        rw (running, done, attempt_once)
          (record {
            number = k;
            found = (at k).others db;
            applied = done ∙ ap (λ p. ok (p, db')) same;
          })
  ]
]

attempts-IsPosted :
    (left total : ℕ) (at : ℕ → Attempt) (k : ℕ) (input : PostTransactionInput) (db : Db)
    (posted : PostedTransaction)
    → (attempts left total at k input db).0 ≡ ok posted
    → IsPosted at input posted (attempts left total at k input db).1
unfolding attempts
attempts-IsPosted zero total at k input db posted h =
    elim (Result-cases (attempt_once (at k) input db).0) [
      | inl (out, done) ↦
          rw (done, attempts)
            (attempt_once-IsPosted at k input db posted (done ∙ (rw (done, attempts) at h)))
      | inr (e, failed) ↦ elim (Bool-cases (is_retryable e)) [
        | inl retry ↦ absurd (err-ne-ok (rw (failed, retry, attempts) at h))
        | inr final ↦ absurd (err-ne-ok (rw (failed, final, attempts) at h))
      ]
    ]
attempts-IsPosted (suc left) total at k input db posted h =
    elim (Result-cases (attempt_once (at k) input db).0) [
      | inl (out, done) ↦
          rw (done, attempts)
            (attempt_once-IsPosted at k input db posted (done ∙ (rw (done, attempts) at h)))
      | inr (e, failed) ↦ elim (Bool-cases (is_retryable e)) [
        | inl retry ↦
            rw (failed, retry, attempts)
              (attempts-IsPosted left total at (suc k) input (attempt_once (at k) input db).1 posted
                (rw (failed, retry, attempts) at h))
        | inr final ↦ absurd (err-ne-ok (rw (failed, final, attempts) at h))
      ]
    ]

pub post_transaction-IsPosted :
    (max_retries : ℕ) (at : ℕ → Attempt) (input : PostTransactionInput) (db : Db)
    (posted : PostedTransaction)
    → (post_transaction max_retries at input db).0 ≡ ok posted
    → IsPosted at input posted (post_transaction max_retries at input db).1
unfolding post_transaction
post_transaction-IsPosted max_retries at input db posted h =
    elim (Result-cases (validate_input input)) [
      | inl (_, valid) ↦
          rw (valid, post_transaction)
            (attempts-IsPosted max_retries (max_retries + 1) at 0 input db posted
              (rw (valid, post_transaction) at h))
      | inr (e, invalid) ↦ absurd (err-ne-ok (rw (invalid, post_transaction) at h))
    ]

-- A transaction that `postTransaction` returns as applied, and not as a replay, after however many
-- attempts and among whatever other writers, leaves both balances of every protected account that it
-- moves at zero or above, where the hook leaves the projections alone.
pub post_transaction-nonneg :
    (max_retries : ℕ) (at : ℕ → Attempt) (input : PostTransactionInput)
    (keeps : KeepsBalances input) (db : Db) (posted : PostedTransaction) (j : ℕ) (b : BalanceBucket)
    → member j input.non_negative_accounts ≡ true
    → member j (map (λ (e : LedgerEntryInput). e.account_id) input.entries) ≡ true
    → (post_transaction max_retries at input db).0 ≡ ok posted
    → posted.replayed ≡ false
    → pos 0 ≤ℤ projected j b (post_transaction max_retries at input db).1.projections
post_transaction-nonneg max_retries at input keeps db posted j b prot moved h applied =
    let p = post_transaction-IsPosted max_retries at input db posted h in
    post_once-nonneg (at p.number) input keeps p.found (post_transaction max_retries at input db).1
      posted j b prot moved p.applied applied
