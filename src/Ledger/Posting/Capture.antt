-- ===== src/Ledger/Posting/Capture.antt =====
-- What `capturePayment` posts.
pub mod Sums
use fluvia.Base.{
  ℕ, ◌≤◌, ◌+◌, ◌==◌, ◌≡◌, refl, sym, ap, ap₂, ◌∙◌, subst, Bool, true, false, ◌&&◌, ◌||◌, not, List,
  [], ◌∷◌, ◌++◌, map, ℤ, pos, neg, ◌+ℤ◌, ◌-ℤ◌, ◌≤ℤ◌, int_laws, +ℤ_zero, zero_+ℤ, +ℤ_assoc, ltb_ℤ,
  parts_of_eq, Option, none, some, Bool-cases, inl, inr, Result, ok, err, err-ne-ok, >>=-eq-ok,
  throw_if-then, throw_if, ◌>>=◌, arith, if◌then◌else◌, all, length, ltb, -ℤ_parts, +ℤ_parts,
  pos_part, neg_part,
}
use mathlib.Core.List.{Mem, mem-cons_self, mem-cons_of_mem, mem-append_right}
use fluvia.Base.Enum.{eqb}
use fluvia.Money.Currency.{CurrencyCode, MoneyError, eq_currency, eq_currency_iff, eq_currency_refl}
use fluvia.Money.Value.{Money, is_positive, is_negative, add, subtract, assert_same_currency}
use fluvia.Ledger.Types.{
  LedgerReason, payment, Side, debit, credit, LedgerEntryInput, LedgerError, invalid_entries,
  fees_exceed_amount, side_enum,
}
use fluvia.Ledger.Validate.{PostTransactionInput, validate_input}
use fluvia.Ledger.Validate.Balanced.{side_total}
use fluvia.Ledger.Validate.Complete.{validate_input_complete}
use fluvia.Ledger.Chart.{merchant_pending, provider_clearing}
use fluvia.Ledger.Posting.{Chart}
use fluvia.Ledger.Posting.Operations.{
  PostingContext, CapturePaymentInput, entry, posting, lift_money, check_fees, capture_entries,
  provider_fee_entries, platform_fee_entries, capture_input,
}
use fluvia.Ledger.Posting.Legs.{IsWellFormed, check_form-posting}
use fluvia.Ledger.Posting.Capture.Sums.{
  side_total-append, provider_fee_entries-even, platform_fee_entries-total, side_total-debit,
  side_total-credit, settle_sums,
}

subtract-same :
    (a b : Money)
    → eq_currency a.currency b.currency ≡ true
    → subtract a b ≡ ok (record a { amount = a.amount -ℤ b.amount })
unfolding subtract assert_same_currency
subtract-same a b h = rw h refl

lift_subtract-inv :
    (a b m : Money)
    → lift_money (subtract a b) ≡ ok m
    → (eq_currency a.currency b.currency ≡ true) × (m ≡ record a { amount = a.amount -ℤ b.amount })
unfolding subtract assert_same_currency
lift_subtract-inv a b m h = elim (Bool-cases (eq_currency a.currency b.currency)) [
  | inl same ↦ (same, cc (rw same at h))
  | inr other ↦ absurd (err-ne-ok (rw other at h))
]

lift_add-inv :
    (a b m : Money)
    → lift_money (add a b) ≡ ok m
    → (eq_currency a.currency b.currency ≡ true) × (m ≡ record a { amount = a.amount +ℤ b.amount })
unfolding add assert_same_currency
lift_add-inv a b m h = elim (Bool-cases (eq_currency a.currency b.currency)) [
  | inl same ↦ (same, cc (rw same at h))
  | inr other ↦ absurd (err-ne-ok (rw other at h))
]

-- What the checks of a capture have found.
pub record IsCovered (amount p f : Money) : Type 0 where
  pub same : eq_currency amount.currency p.currency ≡ true
  pub same_fees : eq_currency p.currency f.currency ≡ true
  pub provider_fee_nonneg : ltb_ℤ p.amount (pos 0) ≡ false
  pub platform_fee_nonneg : ltb_ℤ f.amount (pos 0) ≡ false
  pub rest_positive : ltb_ℤ (pos 0) (amount.amount -ℤ (p.amount +ℤ f.amount)) ≡ true

check_fees-IsCovered : (amount p f : Money) → check_fees amount p f ≡ ok tt → IsCovered amount p f
unfolding check_fees is_negative is_positive
check_fees-IsCovered amount p f h =
    let (signs, h1) = throw_if-then (is_negative p || is_negative f) invalid_entries _ h in
    let (total, added, h2) =
      >>=-eq-ok (lift_money (add p f))
        (λ t. do
          rest ← lift_money (subtract amount t)
          throw_if (not (is_positive rest)) fees_exceed_amount)
        h1 in
    let (rest, taken, h3) =
      >>=-eq-ok (lift_money (subtract amount total))
        (λ m. throw_if (not (is_positive m)) fees_exceed_amount) h2 in
    let (same_fees, sum) = lift_add-inv p f total added in
    let (same, left) = lift_subtract-inv amount total rest taken in
    let worth : rest.amount ≡ amount.amount -ℤ (p.amount +ℤ f.amount) =
      ap (λ (m : Money). m.amount) left ∙ ap (λ (t : Money). amount.amount -ℤ t.amount) sum in
    record {
      same = ap (λ (t : Money). eq_currency amount.currency t.currency) (sym sum) ∙ same;
      same_fees = same_fees;
      provider_fee_nonneg = ground arith;
      platform_fee_nonneg = ground arith;
      rest_positive =
          ap (λ z. ltb_ℤ (pos 0) z) (sym worth) ∙ positive_of_check (is_positive rest) h3;
    }
  where
    positive_of_check : (b : Bool) → throw_if (not b) fees_exceed_amount ≡ ok tt → b ≡ true
    positive_of_check true e = refl
    positive_of_check false e = absurd (err-ne-ok e)

owed_positive :
    (a p f : ℤ)
    → ltb_ℤ p (pos 0) ≡ false
    → ltb_ℤ (pos 0) (a -ℤ (p +ℤ f)) ≡ true
    → (ltb_ℤ (pos 0) (a -ℤ f) ≡ true)
owed_positive a p f hp h = ground (arith, -ℤ_parts a (p +ℤ f), +ℤ_parts p f, -ℤ_parts a f)

amount_positive :
    (a p f : ℤ)
    → ltb_ℤ p (pos 0) ≡ false
    → ltb_ℤ f (pos 0) ≡ false
    → ltb_ℤ (pos 0) (a -ℤ (p +ℤ f)) ≡ true
    → (ltb_ℤ (pos 0) a ≡ true)
amount_positive a p f hp hf h = ground (arith, -ℤ_parts a (p +ℤ f), +ℤ_parts p f)

module _ (chart : Chart) (amount p f : Money) (covered : IsCovered amount p f) where
  abbrev owed : Money
  owed = record amount { amount = amount.amount -ℤ f.amount }

  same_currency : f.currency ≡ amount.currency
  same_currency = sym (
      (eq_currency_iff amount.currency p.currency).0 covered.same
      ∙ (eq_currency_iff p.currency f.currency).0 covered.same_fees)

  owed_and_fee :
      (k : Bool)
      → (if k then amount.amount else pos 0)
        ≡ (if k then amount.amount -ℤ f.amount else pos 0) +ℤ (if k then f.amount else pos 0)
  owed_and_fee true = omega int_laws
  owed_and_fee false = omega int_laws

  capture_entries-balanced :
      (c : CurrencyCode)
      → side_total debit c (capture_entries chart amount p f owed)
        ≡ side_total credit c (capture_entries chart amount p f owed)
  unfolding capture_entries
  capture_entries-balanced c =
      let k = eq_currency amount.currency c in
      let pairs = provider_fee_entries chart p in
      let fee = platform_fee_entries chart f in
      let rest = entry (chart merchant_pending) credit owed ∷ fee in
      let (no_debit, credited) = platform_fee_entries-total chart f c covered.platform_fee_nonneg in
      let first = side_total-debit (chart provider_clearing) amount c (pairs ++ rest) in
      let last = side_total-credit (chart merchant_pending) owed c fee in
      first.0
      ∙ ap (λ z. (if k then amount.amount else pos 0) +ℤ z)
          (side_total-append debit c pairs rest ∙ ap (λ z. side_total debit c pairs +ℤ z) last.1)
      ∙ settle_sums (if k then amount.amount else pos 0)
          (if k then amount.amount -ℤ f.amount else pos 0) (if k then f.amount else pos 0)
          (side_total debit c pairs) (side_total credit c pairs) (side_total debit c fee)
          (side_total credit c fee) (owed_and_fee k) (provider_fee_entries-even chart p c) no_debit
          (credited ∙ ap (λ x. if eq_currency x c then f.amount else pos 0) same_currency)
      ∙ sym (
          first.1
          ∙ side_total-append credit c pairs rest
          ∙ ap (λ z. side_total credit c pairs +ℤ z) last.0)

  whole_positive : is_positive amount ≡ true
  unfolding is_positive
  whole_positive =
      amount_positive amount.amount p.amount f.amount covered.provider_fee_nonneg
        covered.platform_fee_nonneg covered.rest_positive

  owed-positive : is_positive owed ≡ true
  unfolding is_positive
  owed-positive =
      owed_positive amount.amount p.amount f.amount covered.provider_fee_nonneg
        covered.rest_positive

  capture_entries-positive :
      all (λ (e : LedgerEntryInput). is_positive e.amount) (capture_entries chart amount p f owed)
      ≡ true
  unfolding capture_entries entry
  capture_entries-positive = elim (Bool-cases (is_positive p)) [
    | inl a ↦ elim (Bool-cases (is_positive f)) [
      | inl b ↦ rw (a, b) (rw (whole_positive, owed-positive, a, b) refl)
      | inr b ↦ rw (a, b) (rw (whole_positive, owed-positive, a) refl)
    ]
    | inr a ↦ elim (Bool-cases (is_positive f)) [
      | inl b ↦ rw (a, b) (rw (whole_positive, owed-positive, b) refl)
      | inr b ↦ rw (a, b) (rw (whole_positive, owed-positive) refl)
    ]
  ]

  capture_entries-enough : ltb (length (capture_entries chart amount p f owed)) 2 ≡ false
  unfolding capture_entries
  capture_entries-enough = elim (Bool-cases (is_positive p)) [
    | inl a ↦ rw a (ground arith)
    | inr a ↦ rw a (ground arith)
  ]

  same_as_fee : eq_currency amount.currency f.currency ≡ true
  same_as_fee = (eq_currency_iff amount.currency f.currency).1 (sym same_currency)

length-capture_entries :
    (chart : Chart) (amount p f owed : Money)
    → (2 ≤ length (capture_entries chart amount p f owed))
      × (length (capture_entries chart amount p f owed) ≤ 5)
unfolding capture_entries
length-capture_entries chart amount p f owed = elim (Bool-cases (is_positive p)) [
  | inl a ↦ elim (Bool-cases (is_positive f)) [
    | inl b ↦ rw a (rw b (omega arith, omega arith))
    | inr b ↦ rw a (rw b (omega arith, omega arith))
  ]
  | inr a ↦ elim (Bool-cases (is_positive f)) [
    | inl b ↦ rw a (rw b (omega arith, omega arith))
    | inr b ↦ rw a (rw b (omega arith, omega arith))
  ]
]

-- A capture whose fees pass the checks, with a key and a source of acceptable form, builds an input
-- that passes `validateInput`: it has two to five entries, it debits the clearing account by the
-- amount, and it credits the merchant's pending account by the amount less the platform's fee.
pub capture_input-valid :
    (input : CapturePaymentInput) (p f : Money) (chart : Chart)
    → IsWellFormed input.context
    → check_fees input.amount p f ≡ ok tt
    → (out : PostTransactionInput) × (capture_input input p f chart ≡ ok out)
      × (validate_input out ≡ ok tt)
      × (2 ≤ length out.entries)
      × (length out.entries ≤ 5)
      × Mem (entry (chart provider_clearing) debit input.amount) out.entries
      × Mem
          (entry
            (chart merchant_pending)
            credit
            (record input.amount { amount = input.amount.amount -ℤ f.amount }))
          out.entries
unfolding capture_input posting capture_entries
capture_input-valid input p f chart well checked =
    let covered = check_fees-IsCovered input.amount p f checked in
    let due = owed chart input.amount p f covered in
    let out = posting input.context payment (capture_entries chart input.amount p f due) [] in
    let few = length-capture_entries chart input.amount p f due in
    (
      out,
      rw (subtract-same input.amount f (same_as_fee chart input.amount p f covered)) refl,
      validate_input_complete out
          (check_form-posting input.context payment (capture_entries chart input.amount p f due) []
            well (capture_entries-enough chart input.amount p f covered))
          (capture_entries-positive chart input.amount p f covered)
          (capture_entries-balanced chart input.amount p f covered),
      few.0,
      few.1,
      mem-cons_self,
      mem-cons_of_mem (entry (chart provider_clearing) debit input.amount)
          (mem-append_right (provider_fee_entries chart p) mem-cons_self),
    )
