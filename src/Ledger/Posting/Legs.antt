-- ===== src/Ledger/Posting/Legs.antt =====
-- The operations of two legs: their inputs are valid and guard the accounts that fall.
use fluvia.Base.{
  ℕ, ◌==◌, ◌≡◌, refl, sym, ap, ap₂, ◌∙◌, true, false, ◌||◌, List, [], ◌∷◌, map, ℤ, pos, ◌+ℤ◌,
  int_laws, +ℤ_zero, zero_+ℤ, ltb_ℤ, Bool-cases, inl, inr, ok, arith, ltb, length, all, neg_parts,
}
use fluvia.Base.Enum.{eqb, includes}
use fluvia.Money.Currency.{CurrencyCode, eq_currency}
use fluvia.Money.Value.{Money, is_positive}
use fluvia.Ledger.Types.{
  LedgerReason, payment, ledger_reasons, Side, debit, credit, available, LedgerEntryInput,
  reason_enum, side_enum, bucket_enum,
}
use fluvia.Ledger.Chart.{AccountCode, chart_of_accounts}
use fluvia.Ledger.Db.{signed_amount, contribution, sum_entries}
use fluvia.Ledger.Validate.{check_form, validate_input}
use fluvia.Ledger.Validate.Balanced.{side_total}
use fluvia.Ledger.Validate.Complete.{validate_input_complete}
use fluvia.Ledger.Projection.{member}
use fluvia.Ledger.Projection.Sums.{part_at}
use fluvia.Ledger.Entries.{to_posted}
use fluvia.Ledger.Posting.{Chart}
use fluvia.Ledger.Posting.Operations.{
  PostingContext, SimpleAmountInput, entry, posting, guarded_accounts, two_legged_input,
}

-- A key and a source that `validateInput` accepts.
unfoldable pub IsWellFormed : PostingContext → Type 0
IsWellFormed context =
    ((length context.idempotency_key == 0)
        || ltb (length context.idempotency_key) 8
        || ltb 200 (length context.idempotency_key)
      ≡ false)
    × ((length context.source_type == 0) || (length context.source_id == 0) ≡ false)

pub includes-ledger_reasons : (r : LedgerReason) → includes ledger_reasons r ≡ true
includes-ledger_reasons payment = refl
includes-ledger_reasons _ = refl

pub check_form-posting :
    (context : PostingContext) (r : LedgerReason) (es : List LedgerEntryInput) (guarded : List ℕ)
    → IsWellFormed context
    → ltb (length es) 2 ≡ false
    → check_form (posting context r es guarded) ≡ ok tt
unfolding check_form IsWellFormed posting
check_form-posting context r es guarded well enough =
    rw (includes-ledger_reasons r, well.0, well.1, enough) refl

-- What two legs of one amount come to, in each currency.
side_total-legs :
    (x y : ℕ) (m : Money) (c : CurrencyCode)
    → side_total debit c (entry x debit m ∷ entry y credit m ∷ [])
      ≡ side_total credit c (entry x debit m ∷ entry y credit m ∷ [])
unfolding side_total entry
side_total-legs x y m c = elim (Bool-cases (eq_currency m.currency c)) [
  | inl same ↦ rw same (omega int_laws)
  | inr other ↦ rw other refl
]

all_positive-legs :
    (x y : ℕ) (m : Money)
    → is_positive m ≡ true
    → all (λ (e : LedgerEntryInput). is_positive e.amount) (entry x debit m ∷ entry y credit m ∷ [])
      ≡ true
unfolding entry
all_positive-legs x y m h = rw h refl

-- Whatever the accounts and the reason, an operation of two legs of a positive amount, with a key
-- and a source of acceptable form, builds an input that passes `validateInput`.
pub two_legged_input-valid :
    (input : SimpleAmountInput) (r : LedgerReason) (d c : AccountCode) (chart : Chart)
    → IsWellFormed input.context
    → is_positive input.amount ≡ true
    → validate_input (two_legged_input input r d c chart) ≡ ok tt
unfolding two_legged_input posting
two_legged_input-valid input r d c chart well positive =
    validate_input_complete (two_legged_input input r d c chart)
      (check_form-posting input.context r
        (entry (chart d) debit input.amount ∷ entry (chart c) credit input.amount ∷ [])
        (guarded_accounts chart d c) well refl)
      (all_positive-legs (chart d) (chart c) input.amount positive)
      (side_total-legs (chart d) (chart c) input.amount)

contribution-entry :
    (i x : ℕ) (s side : Side) (m : Money)
    → contribution i s available (to_posted (entry x side m))
      ≡ part_at x i (signed_amount s side m.amount)
unfolding contribution to_posted entry
contribution-entry i x s side m = ground arith

pub sum_entries-legs :
    (i x y : ℕ) (s : Side) (m : Money)
    → sum_entries i s available (map to_posted (entry x debit m ∷ entry y credit m ∷ []))
      ≡ part_at x i (signed_amount s debit m.amount)
        +ℤ part_at y i (signed_amount s credit m.amount)
unfolding sum_entries
sum_entries-legs i x y s m =
    ap₂ (λ a b. a +ℤ (b +ℤ pos 0)) (contribution-entry i x s debit m)
      (contribution-entry i y s credit m)
    ∙ ap (λ t. part_at x i (signed_amount s debit m.amount) +ℤ t)
        (+ℤ_zero (part_at y i (signed_amount s credit m.amount)))

debit_falls :
    (s : Side) (z : ℤ)
    → ltb_ℤ (pos 0) z ≡ true
    → ltb_ℤ (signed_amount s debit z) (pos 0) ≡ eqb s credit
unfolding signed_amount
debit_falls debit z h = ground arith
debit_falls credit z h = ground (arith, neg_parts z)

credit_falls :
    (s : Side) (z : ℤ)
    → ltb_ℤ (pos 0) z ≡ true
    → ltb_ℤ (signed_amount s credit z) (pos 0) ≡ eqb s debit
unfolding signed_amount
credit_falls debit z h = ground (arith, neg_parts z)
credit_falls credit z h = ground arith

module _ (x y : ℕ) (distinct : (x == y) ≡ false) (s : Side) (m : Money) where
  pub sum_entries-debited :
      sum_entries x s available (map to_posted (entry x debit m ∷ entry y credit m ∷ []))
      ≡ signed_amount s debit m.amount
  sum_entries-debited =
      sum_entries-legs x x y s m
      ∙ ground (arith, +ℤ_zero (signed_amount s debit m.amount), distinct)

  pub sum_entries-credited :
      sum_entries y s available (map to_posted (entry x debit m ∷ entry y credit m ∷ []))
      ≡ signed_amount s credit m.amount
  sum_entries-credited =
      sum_entries-legs y x y s m
      ∙ ground (arith, zero_+ℤ (signed_amount s credit m.amount), distinct)

module _ (chart : Chart) (d c : AccountCode) (distinct : (chart d == chart c) ≡ false) where
  guarded-debited :
      member (chart d) (guarded_accounts chart d c) ≡ eqb ((chart_of_accounts d).normal_side) credit
  unfolding guarded_accounts
  guarded-debited = ground (arith, distinct)

  guarded-credited :
      member (chart c) (guarded_accounts chart d c) ≡ eqb ((chart_of_accounts c).normal_side) debit
  unfolding guarded_accounts
  guarded-credited = ground (arith, distinct)

-- Of the two accounts of an operation, where they differ, exactly those whose balance falls must
-- not go below zero.
pub two_legged_input-guards :
    (input : SimpleAmountInput) (r : LedgerReason) (d c : AccountCode) (chart : Chart)
    → (chart d == chart c) ≡ false
    → is_positive input.amount ≡ true
    → let out = two_legged_input input r d c chart in
      (member (chart d) out.non_negative_accounts
        ≡ ltb_ℤ
            (sum_entries
              (chart d)
              ((chart_of_accounts d).normal_side)
              available
              (map to_posted out.entries))
            (pos 0))
      × (member (chart c) out.non_negative_accounts
          ≡ ltb_ℤ
              (sum_entries
                (chart c)
                ((chart_of_accounts c).normal_side)
                available
                (map to_posted out.entries))
              (pos 0))
unfolding two_legged_input posting is_positive
two_legged_input-guards input r d c chart distinct positive =
    let m = input.amount in
    let s = (chart_of_accounts d).normal_side in
    let t = (chart_of_accounts c).normal_side in
    (
      guarded-debited chart d c distinct
          ∙ sym (debit_falls s m.amount positive)
          ∙ ap (λ z. ltb_ℤ z (pos 0)) (sym (sum_entries-debited (chart d) (chart c) distinct s m)),
      guarded-credited chart d c distinct
          ∙ sym (credit_falls t m.amount positive)
          ∙ ap (λ z. ltb_ℤ z (pos 0)) (sym (sum_entries-credited (chart d) (chart c) distinct t m)),
    )
