-- ===== src/Ledger/Post/Applied.antt =====
-- What a first application of a transaction consists of, when it succeeds.
use fluvia.Base.{
  none-ne-some, ℕ, ◌==◌, ==_iff, ◌≡◌, refl, sym, ap, ◌∙◌, true, false, not, List, [], ◌∷◌, map,
  none, some, Option-cases, Bool-cases, inl, inr, ok, err-ne-ok, >>=-eq-ok, ◌>>=◌, throw_if-then,
  arith, if◌then◌else◌,
}
use fluvia.Money.Currency.{eq_currency}
use fluvia.Ledger.Types.{LedgerEntryInput, PostedEntry, PostedTransaction}
use fluvia.Ledger.Db.{Db, Account, Projection, find_account}
use fluvia.Ledger.Validate.{PostTransactionInput}
use fluvia.Ledger.Projection.{member}
use fluvia.Ledger.Post.{
  Attempt, check_reverses, run_hook, apply_new, locked, posted_of, rows_after, move_projections,
  finish_new, check_locked,
}
use fluvia.Ledger.Entries.{account_ids_of, lock_accounts, to_posted, insert_entries}

pub record IsApplied (at : Attempt) (input : PostTransactionInput) (db : Db)
    (posted : PostedTransaction) (db' : Db) : Type 0 where
  pub entries : List PostedEntry
  pub projections : List Projection
  pub inserted : insert_entries (locked input db) input.entries ≡ ok entries
  pub moved : move_projections at input db ≡ ok projections
  pub hooked :
      run_hook input.on_posted (posted_of at entries) (rows_after at input db entries projections)
      ≡ ok db'
  pub returned : posted ≡ posted_of at entries

module _ (at : Attempt) (input : PostTransactionInput) (db : Db) (posted : PostedTransaction)
    (db' : Db) where
  finish_new-IsApplied :
      (entries : List PostedEntry) (projections : List Projection)
      → insert_entries (locked input db) input.entries ≡ ok entries
      → move_projections at input db ≡ ok projections
      → finish_new at input db entries projections ≡ ok (posted, db')
      → IsApplied at input db posted db'
  unfolding finish_new
  finish_new-IsApplied entries projections inserted moved h =
      let (out, hooked, same) =
        >>=-eq-ok
          (run_hook input.on_posted (posted_of at entries)
            (rows_after at input db entries projections))
          (λ d. ok (posted_of at entries, d)) h in
      record {
        entries = entries;
        projections = projections;
        inserted = inserted;
        moved = moved;
        hooked = cc;
        returned = cc;
      }

  move_projections-IsApplied :
      (entries : List PostedEntry)
      → insert_entries (locked input db) input.entries ≡ ok entries
      → (move_projections at input db >>= finish_new at input db entries) ≡ ok (posted, db')
      → IsApplied at input db posted db'
  move_projections-IsApplied entries inserted h =
      let (projections, moved, rest) =
        >>=-eq-ok (move_projections at input db) (finish_new at input db entries) h in
      finish_new-IsApplied entries projections inserted moved rest

  insert_entries-IsApplied :
      (do
        entries ← insert_entries (locked input db) input.entries
        projections ← move_projections at input db
        finish_new at input db entries projections)
        ≡ ok (posted, db')
      → IsApplied at input db posted db'
  insert_entries-IsApplied h =
      let (entries, inserted, rest) =
        >>=-eq-ok (insert_entries (locked input db) input.entries)
          (λ entries. move_projections at input db >>= finish_new at input db entries) h in
      move_projections-IsApplied entries inserted rest

  pub apply_new-IsApplied :
      apply_new at input db ≡ ok (posted, db') → IsApplied at input db posted db'
  unfolding apply_new
  apply_new-IsApplied h =
      let (_, _, h1) = >>=-eq-ok (check_reverses input.reverses_tx_id db) _ h in
      let (_, _, h2) =
        >>=-eq-ok (check_locked (account_ids_of input.entries) (locked input db)) _ h1 in
      insert_entries-IsApplied h2

-- The entries that are inserted are those of the input, in its order.
pub insert_entries-map :
    (accounts : List Account) (es : List LedgerEntryInput) (out : List PostedEntry)
    → insert_entries accounts es ≡ ok out
    → out ≡ map to_posted es
unfolding insert_entries
insert_entries-map accounts [] out h = unfold insert_entries in cc
insert_entries-map accounts (e ∷ es) out h =
    elim (Option-cases (find_account e.account_id accounts)) [
      | inl missing ↦ absurd (err-ne-ok (rw (missing, insert_entries) at h))
      | inr (a, found) ↦
          let (_, h1) =
            throw_if-then (not (eq_currency a.currency e.amount.currency)) _ _
              (rw (found, insert_entries) at h) in
          let (rest, inserted, same) =
            >>=-eq-ok (insert_entries accounts es) (λ r. ok (to_posted e ∷ r)) h1 in
          cc (ap (λ l. to_posted e ∷ l) (insert_entries-map accounts es rest inserted))
    ]

-- Every entry names an account that is locked.
pub insert_entries-found :
    (accounts : List Account) (es : List LedgerEntryInput) (out : List PostedEntry) (j : ℕ)
    → insert_entries accounts es ≡ ok out
    → find_account j accounts ≡ none
    → member j (map (λ e. e.account_id) es) ≡ false
unfolding insert_entries
insert_entries-found accounts [] out j h absent = refl
insert_entries-found accounts (e ∷ es) out j h absent =
    elim (Option-cases (find_account e.account_id accounts)) [
      | inl missing ↦ absurd (err-ne-ok (rw (missing, insert_entries) at h))
      | inr (a, found) ↦
          let (_, h1) =
            throw_if-then (not (eq_currency a.currency e.amount.currency)) _ _
              (rw (found, insert_entries) at h) in
          let (rest, inserted, same) =
            >>=-eq-ok (insert_entries accounts es) (λ r. ok (to_posted e ∷ r)) h1 in
          elim (Bool-cases (e.account_id == j)) [
            | inl here ↦ absurd (
                none-ne-some (
                  sym absent
                  ∙ ap (λ k. find_account k accounts) (sym ((==_iff e.account_id j).0 here))
                  ∙ found))
            | inr other ↦ rw other (insert_entries-found accounts es rest j inserted absent)
          ]
    ]

find_account-id :
    (i : ℕ) (accounts : List Account) (a : Account) → find_account i accounts ≡ some a → a.id ≡ i
unfolding find_account
find_account-id i [] a h = cc
find_account-id i (x ∷ xs) a h = ground (arith, find_account-id i xs a)

find_account-here :
    (j : ℕ) (x : Account) (xs : List Account)
    → (x.id == j) ≡ true
    → find_account j (x ∷ xs) ≡ some x
unfolding find_account
find_account-here j x xs h = rw h

find_account-there :
    (j : ℕ) (x : Account) (xs : List Account)
    → (x.id == j) ≡ false
    → find_account j (x ∷ xs) ≡ find_account j xs
unfolding find_account
find_account-there j x xs h = rw h

lock_accounts-alive :
    (i : ℕ) (is : List ℕ) (accounts : List Account) (x : Account)
    → find_account i accounts ≡ some x
    → x.deleted ≡ false
    → lock_accounts (i ∷ is) accounts ≡ x ∷ lock_accounts is accounts
unfolding lock_accounts
lock_accounts-alive i is accounts x found alive =
    let rest = lock_accounts is accounts in
    rw (found, lock_accounts) (ap (λ gone. if gone then rest else x ∷ rest) alive)

-- A locked account is an account, as it stands.
pub find_account-lock_accounts :
    (j : ℕ) (is : List ℕ) (accounts : List Account) (a : Account)
    → find_account j (lock_accounts is accounts) ≡ some a
    → find_account j accounts ≡ some a
unfolding lock_accounts
find_account-lock_accounts j [] accounts a h = unfold find_account in cc
find_account-lock_accounts j (i ∷ is) accounts a h = elim (Option-cases (find_account i accounts)) [
  | inl missing ↦ find_account-lock_accounts j is accounts a (rw (missing, lock_accounts) at h)
  | inr (x, found) ↦ elim (Bool-cases x.deleted) [
    | inl gone ↦ find_account-lock_accounts j is accounts a (rw (found, gone, lock_accounts) at h)
    | inr alive ↦
        let h1 : find_account j (x ∷ lock_accounts is accounts) ≡ some a =
          sym (ap (find_account j) (lock_accounts-alive i is accounts x found alive)) ∙ h in
        elim (Bool-cases (x.id == j)) [
          | inl here ↦
              let same : i ≡ j =
                sym (find_account-id i accounts x found) ∙ (==_iff x.id j).0 here in
              ap (λ k. find_account k accounts) (sym same)
              ∙ found
              ∙ sym (find_account-here j x (lock_accounts is accounts) here)
              ∙ h1
          | inr other ↦
              find_account-lock_accounts j is accounts a
                (sym (find_account-there j x (lock_accounts is accounts) other) ∙ h1)
        ]
  ]
]
