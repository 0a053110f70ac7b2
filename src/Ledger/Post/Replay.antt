-- ===== src/Ledger/Post/Replay.antt =====
-- `replay`: what a posting whose idempotency key is already stored is compared with.
use fluvia.Base.{
  ℕ, ==_refl, ◌≡◌, refl, sym, ap, subst, true, not, List, [], ◌∷◌, map, Option, none, some, inl,
  inr, ok, ok-injective, throw_if-then, arith, eqb_ℤ-iff, pos_part, neg_part, ◌+◌, Bool-cases,
}
use mathlib.Core.List.{Perm}
use mathlib.Core.List.Perm
use fluvia.Base.Enum.{eqb_iff, eqb_refl}
use fluvia.Base.Text.{text_eq_iff}
use fluvia.Money.Currency.{eq_currency_iff, eq_currency_refl}
use fluvia.Ledger.Types.{
  PostedEntry, PostedTransaction, idempotency_conflict, reason_enum, side_enum, bucket_enum,
}
use fluvia.Ledger.Db.{Db, TxRow, entries_of}
use fluvia.Ledger.Validate.{PostTransactionInput}
use fluvia.Ledger.Signature.{entries_signature, insert_entry, eq_entry, eq_signature, entry_less}
use fluvia.Ledger.Post.{same_reference, same_cause, replay}
use fluvia.Ledger.Entries.{to_posted}

eq_entry_iff : (a b : PostedEntry) → eq_entry a b ≡ true → a ≡ b
unfolding eq_entry
eq_entry_iff a b h = ground (
  arith,
  eqb_iff a.direction b.direction,
  eqb_iff a.bucket b.bucket,
  eqb_ℤ-iff a.amount b.amount,
  eq_currency_iff a.currency b.currency,
)

eq_entry_refl : (a : PostedEntry) → eq_entry a a ≡ true
unfolding eq_entry
eq_entry_refl a =
    rw
      (
        ==_refl a.account_id,
        eqb_refl a.direction,
        ==_refl (pos_part a.amount + neg_part a.amount),
        eq_currency_refl a.currency,
        eqb_refl a.bucket,
      )
      refl

eq_signature_sound : (xs ys : List PostedEntry) → eq_signature xs ys ≡ true → xs ≡ ys
unfolding eq_signature
eq_signature_sound [] [] h = refl
eq_signature_sound [] (y ∷ ys) h = cc
eq_signature_sound (x ∷ xs) [] h = cc
eq_signature_sound (x ∷ xs) (y ∷ ys) h = ground (arith, eq_entry_iff x y, eq_signature_sound xs ys)

pub eq_signature_refl : (xs : List PostedEntry) → eq_signature xs xs ≡ true
unfolding eq_signature
eq_signature_refl [] = refl
eq_signature_refl (x ∷ xs) = ground (arith, eq_entry_refl x, eq_signature_refl xs)

-- The signature only orders the entries.
insert_entry-perm : (e : PostedEntry) (es : List PostedEntry) → Perm (insert_entry e es) (e ∷ es)
unfolding insert_entry
insert_entry-perm e [] = Perm.rfl
insert_entry-perm e (x ∷ xs) = elim (Bool-cases (entry_less x e)) [
  | inl before ↦ rw before (Perm.trans (Perm.cons x (insert_entry-perm e xs)) (Perm.swap e x xs))
  | inr after ↦ rw after Perm.rfl
]

entries_signature-perm : (es : List PostedEntry) → Perm (entries_signature es) es
unfolding entries_signature
entries_signature-perm [] = Perm.nil
entries_signature-perm (e ∷ es) =
    Perm.trans (insert_entry-perm e (entries_signature es))
      (Perm.cons e (entries_signature-perm es))

eq_signature-perm :
    (xs ys : List PostedEntry)
    → eq_signature (entries_signature xs) (entries_signature ys) ≡ true
    → Perm xs ys
eq_signature-perm xs ys h = Perm.trans (Perm.symm (entries_signature-perm xs)) (
    subst (λ l. Perm l ys)
      (sym (eq_signature_sound (entries_signature xs) (entries_signature ys) h))
      (entries_signature-perm ys))

-- What a replay that is accepted has compared.
pub record IsReplay (input : PostTransactionInput) (row : TxRow) (db : Db)
    (posted : PostedTransaction) : Type 0 where
  pub same_reason : row.reason ≡ input.reason
  pub same_source_kind : row.source.kind ≡ input.source.kind
  pub same_source_id : row.source.id ≡ input.source.id
  pub same_reversed : row.reverses_tx_id ≡ input.reverses_tx_id
  pub same_entries : Perm (map to_posted input.entries) posted.entries
  pub stored_entries : posted.entries ≡ entries_of row.id db.entries
  pub same_id : posted.transaction_id ≡ row.id
  pub marked : posted.replayed ≡ true

same_reference_sound : (i j : Option ℕ) → same_reference i j ≡ true → i ≡ j
unfolding same_reference
same_reference_sound none none h = refl
same_reference_sound none (some j) h = cc
same_reference_sound (some i) none h = cc
same_reference_sound (some i) (some j) h = ground arith

same_cause-parts :
    (row : TxRow) (input : PostTransactionInput)
    → same_cause row input ≡ true
    → (row.reason ≡ input.reason)
      × (row.source.kind ≡ input.source.kind)
      × (row.source.id ≡ input.source.id)
      × (row.reverses_tx_id ≡ input.reverses_tx_id)
unfolding same_cause
same_cause-parts row input h = (
  ground (arith, eqb_iff row.reason input.reason),
  ground (arith, text_eq_iff row.source.kind input.source.kind),
  ground (arith, text_eq_iff row.source.id input.source.id),
  ground (arith, same_reference_sound row.reverses_tx_id input.reverses_tx_id),
)

-- A replay is accepted only for the same cause and the same entries, in any order, and it returns
-- what is stored.
pub replay-IsReplay :
    (input : PostTransactionInput) (row : TxRow) (db : Db) (posted : PostedTransaction)
    → replay input row db ≡ ok posted
    → IsReplay input row db posted
unfolding replay
replay-IsReplay input row db posted h =
    let (cause, h1) =
      throw_if-then (not (same_cause row input)) (idempotency_conflict input.idempotency_key) _ h in
    let (reason, kind, id, reversed) = same_cause-parts row input (ground arith) in
    let (shape, h2) =
      throw_if-then
        (not (
          eq_signature (entries_signature (map to_posted input.entries))
            (entries_signature (entries_of row.id db.entries))))
        (idempotency_conflict input.idempotency_key) _ h1 in
    let stored = entries_of row.id db.entries in
    let result = ok-injective h2 in
    let entries : posted.entries ≡ stored =
      ap (λ (p : PostedTransaction). p.entries) (sym result) in
    record {
      same_reason = reason;
      same_source_kind = kind;
      same_source_id = id;
      same_reversed = reversed;
      same_entries =
          subst (Perm (map to_posted input.entries)) (sym entries)
            (eq_signature-perm (map to_posted input.entries) stored (ground arith));
      stored_entries = entries;
      same_id = ap (λ (p : PostedTransaction). p.transaction_id) (sym result);
      marked = ap (λ (p : PostedTransaction). p.replayed) (sym result);
    }
