-- ===== src/Ledger/Post/Guarded.antt =====
-- A posting does not leave a protected account below zero.
use fluvia.Base.{
  ℕ, ◌==◌, ◌≡◌, refl, sym, ap, ◌∙◌, subst, true, false, not, ◌||◌, List, [], ◌∷◌, map, keep, pos,
  ◌≤ℤ◌, Option-cases, inl, inr, ok, >>=-eq-ok, arith,
}
use fluvia.Ledger.Types.{BalanceBucket, PostedTransaction, LedgerEntryInput}
use fluvia.Ledger.Db.{Db, Projection, find_key}
use fluvia.Ledger.Validate.{PostTransactionInput}
use fluvia.Ledger.Projection.{
  member, build_deltas, insert_projections, apply_deltas, apply_projection_deltas,
}
use fluvia.Ledger.Projection.Sums.{projected}
use fluvia.Ledger.Projection.Guard.{apply_deltas-nonneg}
use fluvia.Ledger.Post.{
  Attempt, replay, apply_new, post_once, run_hook, posted_of, rows_after, locked,
}
use fluvia.Ledger.Entries.{dedupe, insert_sorted, sort_ids, account_ids_of}
use fluvia.Ledger.Post.Applied.{apply_new-IsApplied}
use fluvia.Ledger.Post.Replay.{replay-IsReplay}

member-insert_sorted :
    (j x : ℕ) (xs : List ℕ) → member j (insert_sorted x xs) ≡ ((x == j) || member j xs)
unfolding insert_sorted
member-insert_sorted j x [] = refl
member-insert_sorted j x (y ∷ ys) = ground (arith, member-insert_sorted j x ys)

member-sort_ids : (j : ℕ) (xs : List ℕ) → member j (sort_ids xs) ≡ member j xs
unfolding sort_ids
member-sort_ids j [] = refl
member-sort_ids j (x ∷ xs) =
    member-insert_sorted j x (sort_ids xs) ∙ ap (λ b. (x == j) || b) (member-sort_ids j xs)

member-keep :
    (j x : ℕ) (ys : List ℕ)
    → ((x == j) || member j (keep (λ y. not (y == x)) ys)) ≡ ((x == j) || member j ys)
member-keep j x [] = refl
member-keep j x (y ∷ ys) = ground (arith, member-keep j x ys)

member-dedupe : (j : ℕ) (xs : List ℕ) → member j (dedupe xs) ≡ member j xs
unfolding dedupe
member-dedupe j [] = refl
member-dedupe j (x ∷ xs) =
    member-keep j x (dedupe xs) ∙ ap (λ b. (x == j) || b) (member-dedupe j xs)

member-account_ids_of :
    (j : ℕ) (es : List LedgerEntryInput)
    → member j (account_ids_of es) ≡ member j (map (λ (e : LedgerEntryInput). e.account_id) es)
unfolding account_ids_of
member-account_ids_of j es =
    let ids = map (λ (e : LedgerEntryInput). e.account_id) es in
    member-sort_ids j (dedupe ids) ∙ member-dedupe j ids

-- The hook moves no projected balance.
unfoldable pub KeepsBalances : PostTransactionInput → Type 0
KeepsBalances input =
    (posted : PostedTransaction) (db db' : Db)
    → run_hook input.on_posted posted db ≡ ok db'
    → db'.projections ≡ db.projections

module _ (at : Attempt) (input : PostTransactionInput) (keeps : KeepsBalances input) (db db' : Db)
    (posted : PostedTransaction) (j : ℕ) (b : BalanceBucket)
    (prot : member j input.non_negative_accounts ≡ true)
    (moved : member j (map (λ (e : LedgerEntryInput). e.account_id) input.entries) ≡ true) where
  moved-nonneg :
      (ps out : List Projection)
      → apply_projection_deltas at.outside
          (locked input db)
          (account_ids_of input.entries)
          input.entries
          input.non_negative_accounts
          ps
        ≡ ok out
      → pos 0 ≤ℤ projected j b out
  unfolding apply_projection_deltas
  moved-nonneg ps out h =
      let ids = account_ids_of input.entries in
      let snapshot = insert_projections ids ps in
      let (deltas, built, applied) =
        >>=-eq-ok (build_deltas (locked input db) input.entries [])
          (λ ds. apply_deltas snapshot ds input.non_negative_accounts ids (at.outside snapshot))
          h in
      apply_deltas-nonneg snapshot deltas input.non_negative_accounts ids (at.outside snapshot) out
        j b prot (member-account_ids_of j input.entries ∙ moved) applied

  apply_new-nonneg :
      apply_new at input db ≡ ok (posted, db') → pos 0 ≤ℤ projected j b db'.projections
  unfolding KeepsBalances
  apply_new-nonneg h =
      let a = apply_new-IsApplied at input db posted db' h in
      subst (λ ps. pos 0 ≤ℤ projected j b ps)
        (sym (
          keeps (posted_of at a.entries) (rows_after at input db a.entries a.projections) db'
            a.hooked))
        (moved-nonneg db.projections a.projections a.moved)

  -- A posting that is applied, and not replayed, leaves both balances of every protected account that
  -- it touches at zero or above, whatever other writers did to the projections meanwhile, where its
  -- hook leaves them alone.
  pub post_once-nonneg :
      post_once at input db ≡ ok (posted, db')
      → posted.replayed ≡ false
      → pos 0 ≤ℤ projected j b db'.projections
  unfolding post_once
  post_once-nonneg h applied =
      elim (Option-cases (find_key input.idempotency_key db.transactions)) [
        | inl fresh ↦ apply_new-nonneg (rw (fresh, post_once) at h)
        | inr (row, stored) ↦
            let (out, replayed, same) =
              >>=-eq-ok (replay input row db) (λ p. ok (p, db)) (rw (stored, post_once) at h) in
            let returned : out ≡ posted = cc same in
            let marked : posted.replayed ≡ true =
              ap (λ (p : PostedTransaction). p.replayed) (sym returned)
              ∙ (replay-IsReplay input row db out replayed).marked in
            cc
      ]
