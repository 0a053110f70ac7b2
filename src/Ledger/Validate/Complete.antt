-- ===== src/Ledger/Validate/Complete.antt =====
-- What `validateInput` lets through is everything that is well formed, positive and balanced.
use fluvia.Base.{
  ◌≡◌, refl, sym, ap, ◌∙◌, subst, Bool, true, false, ◌||◌, ◌&&◌, not, List, [], ◌∷◌, ℤ, pos, ◌+ℤ◌,
  int_laws, parts_of_eq, eqb_ℤ-iff, keep, ok, arith, if◌then◌else◌, Bool-cases, inl, inr, all,
}
use fluvia.Money.Currency.{CurrencyCode, eq_currency, eq_currency_iff, eq_currency_refl}
use fluvia.Money.Value.{is_positive}
use fluvia.Ledger.Types.{debit, credit, LedgerEntryInput, side_enum}
use fluvia.Ledger.Validate.{
  PostTransactionInput, Nets, net_get, net_set, sign_of_entry, net_of, is_open, check_nets,
  check_form, validate_input,
}
use fluvia.Ledger.Validate.Balanced.{side_total, net_of-get}

abbrev has_net : CurrencyCode → Nets → Bool
has_net c [] = false
has_net c ((d, v) ∷ ns) = eq_currency d c || has_net c ns

-- No currency has two sums.
abbrev is_single : Nets → Bool
is_single [] = true
is_single ((c, v) ∷ ns) = not (has_net c ns) && is_single ns

has_net-net_set :
    (c d : CurrencyCode) (v : ℤ) (ns : Nets)
    → has_net c (net_set d v ns) ≡ (eq_currency d c || has_net c ns)
unfolding net_set
has_net-net_set c d v [] = refl
has_net-net_set c d v ((b, w) ∷ ns) =
    ground (
      arith,
      eq_currency_iff b d,
      eq_currency_iff d c,
      eq_currency_iff b c,
      has_net-net_set c d v ns,
    )

is_single-net_set :
    (d : CurrencyCode) (v : ℤ) (ns : Nets) → is_single ns ≡ true → is_single (net_set d v ns) ≡ true
unfolding net_set
is_single-net_set d v [] h = refl
is_single-net_set d v ((b, w) ∷ ns) h = ground (
  arith,
  has_net-net_set b d v ns,
  is_single-net_set d v ns,
  eq_currency_iff d b,
  eq_currency_iff b d,
)

net_of-total :
    (es : List LedgerEntryInput) (net : Nets)
    → all (λ (e : LedgerEntryInput). is_positive e.amount) es ≡ true
    → is_single net ≡ true
    → (out : Nets) × (net_of es net ≡ ok out) × (is_single out ≡ true)
unfolding net_of
net_of-total [] net h single = (net, refl, single)
net_of-total (e ∷ es) net h single = elim (Bool-cases (is_positive e.amount)) [
  | inl positive ↦
      let net' = net_set e.amount.currency (net_get e.amount.currency net +ℤ sign_of_entry e) net in
      let (out, made, one) = net_of-total es net' (rw positive at h) (
        is_single-net_set e.amount.currency (net_get e.amount.currency net +ℤ sign_of_entry e) net
          single) in
      (out, rw positive made, one)
  | inr not_positive ↦ cc
]

net_get-absent : (c : CurrencyCode) (ns : Nets) → has_net c ns ≡ false → net_get c ns ≡ pos 0
unfolding net_get
net_get-absent c [] h = refl
net_get-absent c ((d, v) ∷ ns) h = ground (arith, net_get-absent c ns)

net_get-head :
    (c d : CurrencyCode) (v : ℤ) (ns : Nets)
    → net_get c ((d, v) ∷ ns) ≡ (if eq_currency d c then v else net_get c ns)
unfolding net_get
net_get-head c d v ns = refl

tail_zero :
    (d : CurrencyCode) (v : ℤ) (ns : Nets)
    → has_net d ns ≡ false
    → ((c : CurrencyCode) → net_get c ((d, v) ∷ ns) ≡ pos 0)
    → (c : CurrencyCode) → net_get c ns ≡ pos 0
tail_zero d v ns single zero_all c = elim (Bool-cases (eq_currency d c)) [
  | inl same ↦
      subst (λ k. net_get k ns ≡ pos 0) ((eq_currency_iff d c).0 same) (net_get-absent d ns single)
  | inr other ↦
      ap (λ t. if t then v else net_get c ns) (sym other) ∙ sym (net_get-head c d v ns) ∙ zero_all c
]

zero-no_open :
    (ns : Nets)
    → is_single ns ≡ true
    → ((c : CurrencyCode) → net_get c ns ≡ pos 0)
    → keep is_open ns ≡ []
zero-no_open [] single zero_all = refl
zero-no_open ((d, v) ∷ ns) single zero_all =
    let here : v ≡ pos 0 =
      ap (λ t. if t then v else net_get d ns) (sym (eq_currency_refl d))
      ∙ sym (net_get-head d d v ns)
      ∙ zero_all d in
    let rest = zero-no_open ns (ground arith) (tail_zero d v ns (ground arith) zero_all) in
    ground (arith, eqb_ℤ-iff v (pos 0))

balanced_net : (n d k z : ℤ) → n +ℤ k ≡ z +ℤ d → d ≡ k → z ≡ pos 0 → n ≡ pos 0
balanced_net n d k z p q r = omega (int_laws, parts_of_eq p, parts_of_eq q, parts_of_eq r)

net_get-empty : (c : CurrencyCode) → net_get c [] ≡ pos 0
unfolding net_get
net_get-empty c = refl

check_nets-closed : (ns : Nets) → keep is_open ns ≡ [] → check_nets ns ≡ ok tt
unfolding check_nets
check_nets-closed ns h = rw h refl

-- An input of acceptable form whose amounts are positive, and which debits what it credits in every
-- currency, passes `validateInput`.
pub validate_input_complete :
    (input : PostTransactionInput)
    → check_form input ≡ ok tt
    → all (λ (e : LedgerEntryInput). is_positive e.amount) input.entries ≡ true
    → ((c : CurrencyCode) → side_total debit c input.entries ≡ side_total credit c input.entries)
    → validate_input input ≡ ok tt
unfolding validate_input
validate_input_complete input form positive balanced =
    let (net, made, single) = net_of-total input.entries [] positive refl in
    let closed = zero-no_open net single (λ c.
      balanced_net (net_get c net) (side_total debit c input.entries)
        (side_total credit c input.entries) (net_get c []) (net_of-get c input.entries [] net made)
        (balanced c) (net_get-empty c)) in
    rw (form, made) (check_nets-closed net closed)
