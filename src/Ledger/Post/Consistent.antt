-- ===== src/Ledger/Post/Consistent.antt =====
-- Posting keeps every projection equal to the balance that the entries add up to.
use fluvia.Base.{
  ℕ, suc, zero, ◌+◌, ◌≡◌, refl, sym, ap, ap₂, ◌∙◌, subst, List, [], ◌∷◌, ◌++◌, map, pos, ◌+ℤ◌,
  +ℤ_assoc, zero_+ℤ, Option, none, some, Option-cases, Bool-cases, inl, inr, Result, ok,
  none-ne-some, >>=-eq-ok, Result-cases,
}
use fluvia.Ledger.Types.{BalanceBucket, Side, PostedEntry, PostedTransaction, LedgerError}
use fluvia.Ledger.Db.{
  Db, Account, Projection, find_account, find_key, sum_entries, recompute, contribution, EntryRow,
}
use fluvia.Ledger.Validate.{PostTransactionInput, validate_input}
use fluvia.Ledger.Projection.Sums.{projected}
use fluvia.Ledger.Projection.Deltas.{
  side_of, side_of-found, sum_entries-not_member, projected-apply_projection_deltas,
}
use fluvia.Ledger.Post.{
  Attempt, replay, run_hook, apply_new, locked, posted_of, rows_after, entry_rows, move_projections,
  post_once, is_retryable, attempt_once, attempts, post_transaction,
}
use fluvia.Ledger.Entries.{to_posted, account_ids_of, insert_entries}
use fluvia.Ledger.Post.Applied.{
  apply_new-IsApplied, insert_entries-map, insert_entries-found, find_account-lock_accounts,
}

-- Every projected balance is the sum of the signed entries of its account and bucket.
unfoldable pub IsConsistent : Db → Type 0
IsConsistent db = (j : ℕ) (b : BalanceBucket) → projected j b db.projections ≡ recompute db j b

-- A hook keeps the projections equal to the entries.
unfoldable pub IsSound : Option (PostedTransaction → Db → Result LedgerError Db) → Type 0
IsSound hook =
    (posted : PostedTransaction) (db db' : Db)
    → run_hook hook posted db ≡ ok db'
    → IsConsistent db
    → IsConsistent db'

-- Other writers leave the projected balances of this tenant alone while an attempt runs.
unfoldable pub IsQuiet : Attempt → Type 0
IsQuiet at =
    (qs : List Projection) (j : ℕ) (b : BalanceBucket)
    → projected j b (at.outside qs) ≡ projected j b qs

sum_entries-append :
    (j : ℕ) (s : Side) (b : BalanceBucket) (xs ys : List PostedEntry)
    → sum_entries j s b (xs ++ ys) ≡ sum_entries j s b xs +ℤ sum_entries j s b ys
unfolding sum_entries
sum_entries-append j s b [] ys = sym (zero_+ℤ (sum_entries j s b ys))
sum_entries-append j s b (x ∷ xs) ys =
    ap (λ z. contribution j s b x +ℤ z) (sum_entries-append j s b xs ys)
    ∙ sym (+ℤ_assoc (contribution j s b x) (sum_entries j s b xs) (sum_entries j s b ys))

rows-append :
    (tx : ℕ) (rows : List EntryRow) (posted : List PostedEntry)
    → map (λ (e : EntryRow). e.posted) (rows ++ entry_rows tx posted)
      ≡ map (λ (e : EntryRow). e.posted) rows ++ posted
rows-append tx [] [] = refl
rows-append tx [] (p ∷ ps) = ap (λ l. p ∷ l) (rows-append tx [] ps)
rows-append tx (r ∷ rows) posted = ap (λ l. r.posted ∷ l) (rows-append tx rows posted)

pub recompute-found :
    (db : Db) (j : ℕ) (b : BalanceBucket) (a : Account)
    → find_account j db.accounts ≡ some a
    → recompute db j b ≡ sum_entries j a.normal_side b (map (λ (e : EntryRow). e.posted) db.entries)
unfolding recompute
recompute-found db j b a found = rw (found, recompute)

pub recompute-missing :
    (db : Db) (j : ℕ) (b : BalanceBucket)
    → find_account j db.accounts ≡ none
    → recompute db j b ≡ pos 0
unfolding recompute
recompute-missing db j b missing = rw (missing, recompute)

-- What an attempt adds to an account is what its normal side makes of the entries.
module _ (input : PostTransactionInput) (db : Db) (entries : List PostedEntry)
    (inserted : insert_entries (locked input db) input.entries ≡ ok entries) (j : ℕ)
    (b : BalanceBucket) where
  sum-unlocked :
      (s : Side)
      → find_account j (locked input db) ≡ none
      → sum_entries j s b (map to_posted input.entries) ≡ pos 0
  sum-unlocked s absent =
      sum_entries-not_member j s b input.entries
        (insert_entries-found (locked input db) input.entries entries j inserted absent)

  pub sum-found :
      (a : Account)
      → find_account j db.accounts ≡ some a
      → sum_entries j (side_of j (locked input db)) b (map to_posted input.entries)
        ≡ sum_entries j a.normal_side b (map to_posted input.entries)
  sum-found a found = elim (Option-cases (find_account j (locked input db))) [
    | inl absent ↦
        sum-unlocked (side_of j (locked input db)) absent ∙ sym (sum-unlocked a.normal_side absent)
    | inr (x, held) ↦
        let at_rest =
          find_account-lock_accounts j (account_ids_of input.entries) db.accounts x held in
        let same : x ≡ a = cc in
        ap (λ s. sum_entries j s b (map to_posted input.entries))
          (side_of-found j (locked input db) x held ∙ ap (λ (y : Account). y.normal_side) same)
  ]

  sum-missing :
      find_account j db.accounts ≡ none
      → sum_entries j (side_of j (locked input db)) b (map to_posted input.entries) ≡ pos 0
  sum-missing missing = elim (Option-cases (find_account j (locked input db))) [
    | inl absent ↦ sum-unlocked (side_of j (locked input db)) absent
    | inr (x, held) ↦ absurd (
        none-ne-some (
          sym missing
          ∙ find_account-lock_accounts j (account_ids_of input.entries) db.accounts x held))
  ]

module _ (at : Attempt) (input : PostTransactionInput) (db : Db) (entries : List PostedEntry)
    (projections : List Projection) where
  recompute-rows_after :
      (j : ℕ) (b : BalanceBucket) (a : Account)
      → find_account j db.accounts ≡ some a
      → recompute (rows_after at input db entries projections) j b
        ≡ recompute db j b +ℤ sum_entries j a.normal_side b entries
  recompute-rows_after j b a found =
      recompute-found (rows_after at input db entries projections) j b a found
      ∙ ap (sum_entries j a.normal_side b) (rows-append at.new_id db.entries entries)
      ∙ sum_entries-append j a.normal_side b (map (λ (e : EntryRow). e.posted) db.entries) entries
      ∙ ap (λ z. z +ℤ sum_entries j a.normal_side b entries) (sym (recompute-found db j b a found))

  rows_after-IsConsistent :
      IsQuiet at
      → IsConsistent db
      → insert_entries (locked input db) input.entries ≡ ok entries
      → move_projections at input db ≡ ok projections
      → IsConsistent (rows_after at input db entries projections)
  unfolding IsConsistent IsQuiet
  rows_after-IsConsistent quiet before inserted moved j b =
      let step =
        projected-apply_projection_deltas at.outside (locked input db) input.entries
          input.non_negative_accounts db.projections projections j b (λ qs. quiet qs j b) moved in
      elim (Option-cases (find_account j db.accounts)) [
        | inl missing ↦
            step
            ∙ ap₂ ◌+ℤ◌ (before j b ∙ recompute-missing db j b missing)
                (sum-missing input db entries inserted j b missing)
            ∙ zero_+ℤ (pos 0)
            ∙ sym (recompute-missing (rows_after at input db entries projections) j b missing)
        | inr (a, found) ↦
            step
            ∙ ap₂ ◌+ℤ◌ (before j b) (
                sum-found input db entries inserted j b a found
                ∙ ap (sum_entries j a.normal_side b)
                    (sym (insert_entries-map (locked input db) input.entries entries inserted)))
            ∙ sym (recompute-rows_after j b a found)
      ]

module _ (at : Attempt) (input : PostTransactionInput) (quiet : IsQuiet at)
    (sound : IsSound input.on_posted) where
  apply_new-IsConsistent :
      (db db' : Db) (posted : PostedTransaction)
      → apply_new at input db ≡ ok (posted, db')
      → IsConsistent db
      → IsConsistent db'
  unfolding IsSound
  apply_new-IsConsistent db db' posted h before =
      let a = apply_new-IsApplied at input db posted db' h in
      sound (posted_of at a.entries) (rows_after at input db a.entries a.projections) db' a.hooked (
        rows_after-IsConsistent at input db a.entries a.projections quiet before a.inserted a.moved)

  pub post_once-IsConsistent :
      (db db' : Db) (posted : PostedTransaction)
      → post_once at input db ≡ ok (posted, db')
      → IsConsistent db
      → IsConsistent db'
  unfolding post_once
  post_once-IsConsistent db db' posted h before =
      elim (Option-cases (find_key input.idempotency_key db.transactions)) [
        | inl fresh ↦ apply_new-IsConsistent db db' posted (rw (fresh, post_once) at h) before
        | inr (row, stored) ↦
            let (out, _, same) =
              >>=-eq-ok (replay input row db) (λ p. ok (p, db)) (rw (stored, post_once) at h) in
            let unchanged : db ≡ db' = cc same in subst IsConsistent unchanged before
      ]

  attempt_once-IsConsistent :
      (db : Db) → IsConsistent (at.others db) → IsConsistent (attempt_once at input db).1
  unfolding attempt_once
  attempt_once-IsConsistent db before = elim (Option-cases at.aborted) [
    | inr (state, aborted) ↦ rw (aborted, attempt_once) before
    | inl running ↦ elim (Result-cases (post_once at input (at.others db))) [
      | inl ((posted, db'), done) ↦
          rw (running, done, attempt_once)
            (post_once-IsConsistent (at.others db) db' posted done before)
      | inr (e, failed) ↦ rw (running, failed, attempt_once) before
    ]
  ]

module _ (at : ℕ → Attempt) (input : PostTransactionInput) (quiet : (k : ℕ) → IsQuiet (at k))
    (others : (k : ℕ) (d : Db) → IsConsistent d → IsConsistent ((at k).others d))
    (sound : IsSound input.on_posted) where
  attempts-IsConsistent :
      (left total k : ℕ) (db : Db)
      → IsConsistent db
      → IsConsistent (attempts left total at k input db).1
  unfolding attempts
  attempts-IsConsistent zero total k db before =
      let once = attempt_once-IsConsistent (at k) input (quiet k) sound db (others k db before) in
      elim (Result-cases (attempt_once (at k) input db).0) [
        | inl (posted, done) ↦ rw (done, attempts) once
        | inr (e, failed) ↦ rw (failed, attempts) once
      ]
  attempts-IsConsistent (suc left) total k db before =
      let once = attempt_once-IsConsistent (at k) input (quiet k) sound db (others k db before) in
      let again = attempts-IsConsistent left total (suc k) (attempt_once (at k) input db).1 once in
      elim (Result-cases (attempt_once (at k) input db).0) [
        | inl (posted, done) ↦ rw (done, attempts) once
        | inr (e, failed) ↦ elim (Bool-cases (is_retryable e)) [
          | inl retry ↦ rw (failed, retry, attempts) again
          | inr final ↦ rw (failed, final, attempts) once
        ]
      ]

  -- Posting a transaction, whatever becomes of it and however many attempts it takes, keeps every
  -- projected balance equal to the sum of the signed entries of its account and bucket, where the
  -- hook and the other transactions keep that too and nothing outside the sanctioned path moves a
  -- projected balance during an attempt.
  pub post_transaction-IsConsistent :
      (max_retries : ℕ) (db : Db)
      → IsConsistent db
      → IsConsistent (post_transaction max_retries at input db).1
  unfolding post_transaction
  post_transaction-IsConsistent max_retries db before = elim (Result-cases (validate_input input)) [
    | inl (_, valid) ↦
        rw (valid, post_transaction)
          (attempts-IsConsistent max_retries (max_retries + 1) 0 db before)
    | inr (e, invalid) ↦ rw (invalid, post_transaction) before
  ]
