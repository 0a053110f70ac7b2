-- ===== src/Ledger/Posting/Capture/Sums.antt =====
-- What the entries of a capture add up to, on each side.
use fluvia.Base.{
  ℕ, ◌≡◌, refl, sym, ap, ◌∙◌, false, ◌&&◌, List, [], ◌∷◌, ◌++◌, ℤ, pos, ◌+ℤ◌, int_laws, +ℤ_zero,
  zero_+ℤ, +ℤ_assoc, ltb_ℤ, parts_of_eq, Bool-cases, inl, inr, arith, if◌then◌else◌,
}
use fluvia.Base.Enum.{eqb}
use fluvia.Money.Currency.{CurrencyCode, eq_currency}
use fluvia.Money.Value.{Money, is_positive}
use fluvia.Ledger.Types.{Side, debit, credit, LedgerEntryInput, side_enum}
use fluvia.Ledger.Validate.Balanced.{side_total}
use fluvia.Ledger.Posting.{Chart}
use fluvia.Ledger.Posting.Operations.{entry, provider_fee_entries, platform_fee_entries}

pub side_total-append :
    (s : Side) (c : CurrencyCode) (xs ys : List LedgerEntryInput)
    → side_total s c (xs ++ ys) ≡ side_total s c xs +ℤ side_total s c ys
unfolding side_total
side_total-append s c [] ys = sym (zero_+ℤ (side_total s c ys))
side_total-append s c (x ∷ xs) ys =
    ap
      (λ z.
        (if eq_currency x.amount.currency c && eqb x.direction s then x.amount.amount else pos 0)
        +ℤ z)
      (side_total-append s c xs ys)
    ∙ sym (
        +ℤ_assoc
          (if eq_currency x.amount.currency c && eqb x.direction s then x.amount.amount else pos 0)
          (side_total s c xs) (side_total s c ys))

-- The provider's fee is debited and credited.
pub provider_fee_entries-even :
    (chart : Chart) (p : Money) (c : CurrencyCode)
    → side_total debit c (provider_fee_entries chart p)
      ≡ side_total credit c (provider_fee_entries chart p)
unfolding side_total entry
provider_fee_entries-even chart p c = elim (Bool-cases (is_positive p)) [
  | inr none_due ↦ rw none_due refl
  | inl due ↦ elim (Bool-cases (eq_currency p.currency c)) [
    | inl same ↦ rw (due, same) (omega int_laws)
    | inr other ↦ rw (due, other) refl
  ]
]

-- The platform's fee is credited.
pub platform_fee_entries-total :
    (chart : Chart) (f : Money) (c : CurrencyCode)
    → ltb_ℤ f.amount (pos 0) ≡ false
    → (side_total debit c (platform_fee_entries chart f) ≡ pos 0)
      × (side_total credit c (platform_fee_entries chart f)
          ≡ (if eq_currency f.currency c then f.amount else pos 0))
unfolding side_total entry is_positive
platform_fee_entries-total chart f c nonneg = elim (Bool-cases (is_positive f)) [
  | inr none_due ↦
      let nothing : f.amount ≡ pos 0 = ground arith in
      elim (Bool-cases (eq_currency f.currency c)) [
        | inl same ↦ (rw none_due refl, rw (none_due, same) (sym nothing))
        | inr other ↦ (rw none_due refl, rw (none_due, other) refl)
      ]
  | inl due ↦ elim (Bool-cases (eq_currency f.currency c)) [
    | inl same ↦ (rw (due, same) (omega int_laws), rw (due, same) (+ℤ_zero f.amount))
    | inr other ↦ (rw (due, other) (omega int_laws), rw (due, other) (omega int_laws))
  ]
]

pub side_total-debit :
    (x : ℕ) (m : Money) (c : CurrencyCode) (es : List LedgerEntryInput)
    → (side_total debit c (entry x debit m ∷ es)
        ≡ (if eq_currency m.currency c then m.amount else pos 0) +ℤ side_total debit c es)
      × (side_total credit c (entry x debit m ∷ es) ≡ side_total credit c es)
unfolding side_total entry
side_total-debit x m c es = elim (Bool-cases (eq_currency m.currency c)) [
  | inl same ↦ (rw same refl, rw same (zero_+ℤ (side_total credit c es)))
  | inr other ↦ (rw other refl, rw other (zero_+ℤ (side_total credit c es)))
]

pub side_total-credit :
    (x : ℕ) (m : Money) (c : CurrencyCode) (es : List LedgerEntryInput)
    → (side_total credit c (entry x credit m ∷ es)
        ≡ (if eq_currency m.currency c then m.amount else pos 0) +ℤ side_total credit c es)
      × (side_total debit c (entry x credit m ∷ es) ≡ side_total debit c es)
unfolding side_total entry
side_total-credit x m c es = elim (Bool-cases (eq_currency m.currency c)) [
  | inl same ↦ (rw same refl, rw same (zero_+ℤ (side_total debit c es)))
  | inr other ↦ (rw other refl, rw other (zero_+ℤ (side_total debit c es)))
]

pub settle_sums :
    (a o f pd pc fd fc : ℤ)
    → a ≡ o +ℤ f
    → pd ≡ pc
    → fd ≡ pos 0
    → fc ≡ f
    → a +ℤ (pd +ℤ fd) ≡ pc +ℤ (o +ℤ fc)
settle_sums a o f pd pc fd fc h1 h2 h3 h4 =
    omega (int_laws, parts_of_eq h1, parts_of_eq h2, parts_of_eq h3, parts_of_eq h4)
