-- ===== src/Ledger/Post/Idempotent.antt =====
-- The same posting, again.
use fluvia.Base.{
  ℕ, ==_refl, ◌≡◌, refl, sym, ap, ◌∙◌, subst, true, List, [], ◌∷◌, ◌++◌, map, Option, none, some,
  Option-cases, inl, inr, Result, ok, >>=-eq-ok, arith,
}
use fluvia.Base.Enum.{eqb_refl}
use fluvia.Base.Text.{Text, text_eq_refl}
use fluvia.Ledger.Types.{
  PostedEntry, PostedTransaction, LedgerError, reason_enum, side_enum, bucket_enum,
}
use fluvia.Ledger.Db.{Db, TxRow, EntryRow, find_key, entries_of}
use fluvia.Ledger.Validate.{PostTransactionInput}
use fluvia.Ledger.Signature.{entries_signature}
use fluvia.Ledger.Post.{
  Attempt, same_reference, same_cause, replay, new_row, entry_rows, run_hook, locked, posted_of,
  rows_after, apply_new, post_once,
}
use fluvia.Ledger.Entries.{to_posted}
use fluvia.Ledger.Post.Applied.{apply_new-IsApplied, insert_entries-map}
use fluvia.Ledger.Post.Replay.{eq_signature_refl, replay-IsReplay}

-- The hook adds nothing to the ledger's own rows.
unfoldable pub KeepsLedger : Option (PostedTransaction → Db → Result LedgerError Db) → Type 0
KeepsLedger hook =
    (posted : PostedTransaction) (db db' : Db)
    → run_hook hook posted db ≡ ok db'
    → (db'.transactions ≡ db.transactions) × (db'.entries ≡ db.entries)

find_key-append :
    (k : Text) (ts : List TxRow) (t : TxRow)
    → find_key k ts ≡ none
    → t.idempotency_key ≡ k
    → find_key k (ts ++ t ∷ []) ≡ some t
unfolding find_key
find_key-append k [] t h same = rw (same, text_eq_refl k) refl
find_key-append k (x ∷ xs) t h same = ground (arith, find_key-append k xs t)

entries_of-append :
    (i : ℕ) (xs ys : List EntryRow) → entries_of i (xs ++ ys) ≡ entries_of i xs ++ entries_of i ys
unfolding entries_of
entries_of-append i [] ys = refl
entries_of-append i (x ∷ xs) ys = ground (arith, entries_of-append i xs ys)

entries_of-entry_rows : (i : ℕ) (es : List PostedEntry) → entries_of i (entry_rows i es) ≡ es
unfolding entries_of
entries_of-entry_rows i [] = refl
entries_of-entry_rows i (e ∷ es) = rw (==_refl i) (ap (λ l. e ∷ l) (entries_of-entry_rows i es))

same_reference_refl : (i : Option ℕ) → same_reference i i ≡ true
unfolding same_reference
same_reference_refl none = refl
same_reference_refl (some i) = ==_refl i

same_cause-new_row :
    (at : Attempt) (input : PostTransactionInput) → same_cause (new_row at input) input ≡ true
unfolding same_cause new_row
same_cause-new_row at input =
    rw (eqb_refl input.reason, text_eq_refl input.source.kind, text_eq_refl input.source.id)
      (same_reference_refl input.reverses_tx_id)

-- A row that carries the input's cause, and whose stored entries are the input's, is replayed.
replay-same :
    (input : PostTransactionInput) (row : TxRow) (db : Db)
    → same_cause row input ≡ true
    → entries_of row.id db.entries ≡ map to_posted input.entries
    → replay input row db
      ≡ ok (record {
        transaction_id = row.id;
        replayed = true;
        created_at = row.created_at;
        entries = map to_posted input.entries;
      })
unfolding replay
replay-same input row db cause stored =
    rw (cause, stored, eq_signature_refl (entries_signature (map to_posted input.entries))) refl

module _ (input : PostTransactionInput) (keeps : KeepsLedger input.on_posted) (at : Attempt)
    (db db' : Db) (posted : PostedTransaction) where
  stored_key :
      find_key input.idempotency_key db.transactions ≡ none
      → apply_new at input db ≡ ok (posted, db')
      → find_key input.idempotency_key db'.transactions ≡ some (new_row at input)
  unfolding KeepsLedger new_row
  stored_key fresh h =
      let a = apply_new-IsApplied at input db posted db' h in
      let (kept, _) =
        keeps (posted_of at a.entries) (rows_after at input db a.entries a.projections) db'
          a.hooked in
      ap (find_key input.idempotency_key) kept
      ∙ find_key-append input.idempotency_key db.transactions (new_row at input) fresh refl

  stored_entries :
      entries_of at.new_id db.entries ≡ []
      → apply_new at input db ≡ ok (posted, db')
      → entries_of at.new_id db'.entries ≡ map to_posted input.entries
  unfolding KeepsLedger
  stored_entries unused h =
      let a = apply_new-IsApplied at input db posted db' h in
      let (_, kept) =
        keeps (posted_of at a.entries) (rows_after at input db a.entries a.projections) db'
          a.hooked in
      ap (entries_of at.new_id) kept
      ∙ entries_of-append at.new_id db.entries (entry_rows at.new_id a.entries)
      ∙ ap (λ l. l ++ entries_of at.new_id (entry_rows at.new_id a.entries)) unused
      ∙ entries_of-entry_rows at.new_id a.entries
      ∙ insert_entries-map (locked input db) input.entries a.entries a.inserted

  returned_entries :
      apply_new at input db ≡ ok (posted, db') → posted ≡ posted_of at (map to_posted input.entries)
  returned_entries h =
      let a = apply_new-IsApplied at input db posted db' h in
      a.returned
      ∙ ap (posted_of at) (insert_entries-map (locked input db) input.entries a.entries a.inserted)

  -- Where a posting with a new id has succeeded, and its hook left the ledger's rows alone, posting
  -- the same input again, in whatever attempt, changes no row and returns the same transaction, now
  -- marked as replayed.
  pub post_once-again :
      (at' : Attempt)
      → entries_of at.new_id db.entries ≡ []
      → post_once at input db ≡ ok (posted, db')
      → post_once at' input db' ≡ ok (record posted { replayed = true }, db')
  unfolding post_once new_row
  post_once-again at' unused h =
      elim (Option-cases (find_key input.idempotency_key db.transactions)) [
        | inl fresh ↦
            let h1 = rw (fresh, post_once) at h in
            let again =
              replay-same input (new_row at input) db' (same_cause-new_row at input)
                (stored_entries unused h1) in
            rw (stored_key fresh h1, again, returned_entries h1, post_once) refl
        | inr (row, stored) ↦
            let (out, replayed, same) =
              >>=-eq-ok (replay input row db) (λ p. ok (p, db)) (rw (stored, post_once) at h) in
            let unchanged : db ≡ db' = cc same in
            let returned : out ≡ posted = cc same in
            let marked : posted.replayed ≡ true =
              ap (λ (p : PostedTransaction). p.replayed) (sym returned)
              ∙ (replay-IsReplay input row db out replayed).marked in
            let remarked : posted ≡ record posted { replayed = true } =
              ap (λ b. record posted { replayed = b }) marked in
            subst (λ d. post_once at' input d ≡ ok (record posted { replayed = true }, d)) unchanged
              (rw (stored, replayed, post_once) (ap (λ p. ok (p, db)) (returned ∙ remarked)))
      ]
