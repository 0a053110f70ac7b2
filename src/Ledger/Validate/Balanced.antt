-- ===== src/Ledger/Validate/Balanced.antt =====
-- What `validateInput` lets through: positive amounts, as much debited as credited in each currency.
use fluvia.Base.{
  +ℤ_assoc, parts_of_eq, err-ne-ok, throw_if-eq-ok, subst, ◌≤◌, ◌≡◌, refl, ap, ◌∙◌, true, List, [],
  ◌∷◌, ℤ, pos, neg, ◌+ℤ◌, int_laws, eqb_ℤ-iff, ltb, length, keep, ok, ◌>>=◌, >>=-eq-ok, arith,
  if◌then◌else◌, Bool-cases, inl, inr, all, ◌&&◌,
}
use fluvia.Base.Enum.{eqb}
use fluvia.Money.Currency.{CurrencyCode, eq_currency, eq_currency_iff}
use fluvia.Money.Value.{is_positive}
use fluvia.Ledger.Types.{reason_enum, Side, debit, credit, LedgerEntryInput, side_enum}
use fluvia.Ledger.Validate.{
  PostTransactionInput, Nets, net_get, net_set, sign_of_entry, net_of, is_open, check_nets,
  check_form, validate_input,
}

-- What the entries of one side move in one currency.
unfoldable pub side_total : Side → CurrencyCode → List LedgerEntryInput → ℤ
side_total s c [] = pos 0
side_total s c (e ∷ es) =
    (if eq_currency e.amount.currency c && eqb e.direction s then e.amount.amount else pos 0)
    +ℤ side_total s c es

net_get-net_set :
    (c d : CurrencyCode) (v : ℤ) (ns : Nets)
    → net_get c (net_set d v ns) ≡ (if eq_currency d c then v else net_get c ns)
unfolding net_get net_set
net_get-net_set c d v [] = refl
net_get-net_set c d v ((b, w) ∷ ns) =
    ground (
      arith,
      eq_currency_iff b d,
      eq_currency_iff d c,
      eq_currency_iff b c,
      net_get-net_set c d v ns,
    )

-- An entry counts once: as a debit, or negated as a credit.
signed_side :
    (s : Side) (z : ℤ)
    → (if eqb s debit then z else neg z) +ℤ (if eqb s credit then z else pos 0)
      ≡ (if eqb s debit then z else pos 0)
signed_side debit z = omega int_laws
signed_side credit z = omega int_laws

-- What one entry does to the sums of one currency.
entry_part :
    (c : CurrencyCode) (e : LedgerEntryInput) (net : Nets)
    → net_get c (net_set e.amount.currency (net_get e.amount.currency net +ℤ sign_of_entry e) net)
        +ℤ (if eq_currency e.amount.currency c && eqb e.direction credit
            then e.amount.amount
            else pos 0)
      ≡ net_get c net
        +ℤ (if eq_currency e.amount.currency c && eqb e.direction debit
            then e.amount.amount
            else pos 0)
entry_part c e net = elim (Bool-cases (eq_currency e.amount.currency c)) [
  | inl same ↦
      rw
        (
          net_get-net_set c e.amount.currency (net_get e.amount.currency net +ℤ sign_of_entry e)
              net,
          same,
        )
        (rw ((eq_currency_iff e.amount.currency c).0 same) (
          unfold sign_of_entry in
          +ℤ_assoc (net_get c net)
            (if eqb e.direction debit then e.amount.amount else neg e.amount.amount)
            (if eqb e.direction credit then e.amount.amount else pos 0)
          ∙ ap (λ t. net_get c net +ℤ t) (signed_side e.direction e.amount.amount)))
  | inr other ↦
      rw
        (
          net_get-net_set c e.amount.currency (net_get e.amount.currency net +ℤ sign_of_entry e)
              net,
          other,
        )
        refl
]

exchange : (m b z d x y w : ℤ) → m +ℤ b ≡ z +ℤ d → z +ℤ x ≡ w +ℤ y → m +ℤ (x +ℤ b) ≡ w +ℤ (y +ℤ d)
exchange m b z d x y w p q = omega (int_laws, parts_of_eq p, parts_of_eq q)

-- The loop adds up the signed amounts of each currency.
pub net_of-get :
    (c : CurrencyCode) (es : List LedgerEntryInput) (net out : Nets)
    → net_of es net ≡ ok out
    → net_get c out +ℤ side_total credit c es ≡ net_get c net +ℤ side_total debit c es
unfolding net_of side_total
net_of-get c [] net out h = cc
net_of-get c (e ∷ es) net out h = elim (Bool-cases (is_positive e.amount)) [
  | inl positive ↦
      exchange (net_get c out) (side_total credit c es)
        (net_get c
          (net_set e.amount.currency (net_get e.amount.currency net +ℤ sign_of_entry e) net))
        (side_total debit c es)
        (if eq_currency e.amount.currency c && eqb e.direction credit
          then e.amount.amount
          else pos 0)
        (if eq_currency e.amount.currency c && eqb e.direction debit
          then e.amount.amount
          else pos 0)
        (net_get c net)
        (net_of-get c es
          (net_set e.amount.currency (net_get e.amount.currency net +ℤ sign_of_entry e) net) out
          (rw positive at h))
        (entry_part c e net)
  | inr not_positive ↦ absurd (err-ne-ok (rw not_positive at h))
]

net_of-positive :
    (es : List LedgerEntryInput) (net out : Nets)
    → net_of es net ≡ ok out
    → all (λ e. is_positive e.amount) es ≡ true
unfolding net_of
net_of-positive [] net out h = refl
net_of-positive (e ∷ es) net out h = elim (Bool-cases (is_positive e.amount)) [
  | inl positive ↦ rw positive (
      net_of-positive es
        (net_set e.amount.currency (net_get e.amount.currency net +ℤ sign_of_entry e) net) out
        (rw positive at h))
  | inr not_positive ↦ absurd (err-ne-ok (rw not_positive at h))
]

no_open-get : (c : CurrencyCode) (ns : Nets) → length (keep is_open ns) ≡ 0 → net_get c ns ≡ pos 0
unfolding net_get
no_open-get c [] h = refl
no_open-get c ((d, v) ∷ ns) h = ground (arith, no_open-get c ns, eqb_ℤ-iff v (pos 0))

check_nets-get :
    (c : CurrencyCode) (ns : Nets) {u : Unit {0}} → check_nets ns ≡ ok u → net_get c ns ≡ pos 0
unfolding check_nets
check_nets-get c ns h =
    no_open-get c ns (ground (arith, throw_if-eq-ok (ltb 0 (length (keep is_open ns))) _ h))

cancel_zero : (a b n m : ℤ) → n ≡ pos 0 → n +ℤ b ≡ pos 0 +ℤ a → a ≡ b
cancel_zero a b n m z p = omega (int_laws, parts_of_eq z, parts_of_eq p)

check_form-two :
    (input : PostTransactionInput) {u : Unit {0}}
    → check_form input ≡ ok u
    → 2 ≤ length input.entries
unfolding check_form
check_form-two input h = ground arith

-- The checks that a valid input has passed.
pub validate_input-parts :
    (input : PostTransactionInput) {u : Unit {0}}
    → validate_input input ≡ ok u
    → (2 ≤ length input.entries)
      × (net : Nets) × (net_of input.entries [] ≡ ok net)
      × (check_nets net ≡ ok u)
unfolding validate_input
validate_input-parts input h =
    let (_, form, rest) =
      >>=-eq-ok (check_form input) (λ _. do net ← net_of input.entries []; check_nets net) h in
    let (net, nets, closed) = >>=-eq-ok (net_of input.entries []) check_nets rest in
    (check_form-two input form, net, nets, closed)

net_get-nil : (c : CurrencyCode) → net_get c [] ≡ pos 0
unfolding net_get
net_get-nil c = refl

-- An input that `validateInput` accepts has two entries or more, each of a positive amount, and in
-- every currency what it debits is what it credits.
pub validate_input-balanced :
    (input : PostTransactionInput) {u : Unit {0}}
    → validate_input input ≡ ok u
    → (2 ≤ length input.entries)
      × (all (λ e. is_positive e.amount) input.entries ≡ true)
      × ((c : CurrencyCode) → side_total debit c input.entries ≡ side_total credit c input.entries)
validate_input-balanced input h =
    let (enough, net, nets, closed) = validate_input-parts input h in
    (
      enough,
      net_of-positive input.entries [] net nets,
      λ c.
          cancel_zero (side_total debit c input.entries) (side_total credit c input.entries)
            (net_get c net) (net_get c []) (check_nets-get c net closed)
            (subst
              (λ z.
                net_get c net +ℤ side_total credit c input.entries
                ≡ z +ℤ side_total debit c input.entries)
              (net_get-nil c) (net_of-get c input.entries [] net nets)),
    )
