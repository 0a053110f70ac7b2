-- ===== src/Money/Decimal/RoundTrip.antt =====
-- `fromDecimal` reads what `toDecimalString` writes.
use fluvia.Base.Digits.{
  is_digit, read_digits, show_digits, pad_start, read-show_digits, read_from-replicate, all-append,
  show_digits-all, replicate-all, take-all, drop-all,
}
use fluvia.Base.{
  ℕ, zero, suc, ◌+◌, ◌-◌, ◌<◌, ◌≡◌, refl, ap, ◌∙◌, Bool, true, false, List, [], ◌∷◌, ◌++◌, ℤ, pos,
  pos_part, neg_part, neg, ltb_ℤ, ok, length, take, drop, all, if◌then◌else◌, arith, length-append,
  length-replicate, length-take, length-drop, take-append-drop, replicate,
}
use fluvia.Money.Currency.{code_text, currency_exponent}
use fluvia.Money.Value.{Money, signed}
use fluvia.Money.Decimal.{is_space, of_match, from_decimal, or_zero, place_point, to_decimal_string}
use fluvia.Money.Decimal.Match.{
  is_clean, all-digit-is_clean, trim-is_clean, tail_of, exponent-cases,
  assert_currency_code-code_text, IsPlaced, with_sign, match_decimal-placed, minor_units-append,
}

abbrev sign_of : ℤ → Bool
sign_of z = ltb_ℤ z (pos 0)

abbrev size_of : ℤ → ℕ
size_of z = if sign_of z then neg_part z else pos_part z

signed-size_of : (z : ℤ) → signed (sign_of z) (size_of z) ≡ z
unfolding signed neg
signed-size_of z = ground arith

-- The digits that `toDecimalString` writes, as long as the exponent and one more.
abbrev padded : ℕ → ℕ → List ℕ
padded e n = pad_start (e + 1) (show_digits n)

padded-all : (e n : ℕ) → all is_digit (padded e n) ≡ true
padded-all e n =
    all-append is_digit (replicate (e + 1 - length (show_digits n)) 48) (show_digits n)
      (replicate-all (e + 1 - length (show_digits n))) (show_digits-all n)

length-padded : (e n : ℕ) → e < length (padded e n)
length-padded e n = omega (
  arith,
  length-append (replicate (e + 1 - length (show_digits n)) 48) (show_digits n),
  length-replicate {A = ℕ} (e + 1 - length (show_digits n)) 48,
)

read-padded : (e n : ℕ) → read_digits (padded e n) ≡ n
read-padded e n =
    read_from-replicate (e + 1 - length (show_digits n)) (show_digits n) ∙ read-show_digits n

abbrev whole_of : ℕ → List ℕ → List ℕ
whole_of e ds = take (length ds - e) ds

abbrev fraction_of : ℕ → List ℕ → List ℕ
fraction_of e ds = drop (length ds - e) ds

cut-IsPlaced :
    (e : ℕ) (ds : List ℕ)
    → all is_digit ds ≡ true
    → e < length ds
    → IsPlaced e (whole_of e ds) (fraction_of e ds)
cut-IsPlaced e ds h l = record {
  whole = take-all is_digit (length ds - e) ds h;
  some_whole = omega (arith, length-take (length ds - e) ds);
  fraction = drop-all is_digit (length ds - e) ds h;
  fits = omega (arith, length-drop (length ds - e) ds);
}

or_zero-nonempty : (ds : List ℕ) → 0 < length ds → or_zero ds ≡ ds
unfolding or_zero
or_zero-nonempty [] h = absurd (omega arith)
or_zero-nonempty (d ∷ ds) h = refl

place_point-cut :
    (e : ℕ) (ds : List ℕ)
    → 0 < length (whole_of e ds)
    → place_point e ds ≡ whole_of e ds ++ tail_of e (fraction_of e ds)
unfolding place_point
place_point-cut e ds h = rw (or_zero-nonempty (whole_of e ds) h)

-- What `toDecimalString` writes, in parts.
to_decimal_string-parts :
    (m : Money)
    → let e = currency_exponent m.currency in
      let ds = padded e (size_of m.amount) in
      to_decimal_string m
      ≡ with_sign (sign_of m.amount) (whole_of e ds ++ tail_of e (fraction_of e ds))
to_decimal_string-parts m =
    let e = currency_exponent m.currency in
    let ds = padded e (size_of m.amount) in
    unfold to_decimal_string in
    ap (with_sign (sign_of m.amount)) (
      place_point-cut e ds (
        (cut-IsPlaced e ds (padded-all e (size_of m.amount))
          (length-padded e (size_of m.amount))).some_whole))

tail_of-is_clean :
    (e : ℕ) (fs : List ℕ) → all is_digit fs ≡ true → all is_clean (tail_of e fs) ≡ true
tail_of-is_clean zero fs h = refl
tail_of-is_clean (suc e) fs h = unfold is_space in ground (arith, all-digit-is_clean fs h)

with_sign-is_clean :
    (b : Bool) (cs : List ℕ) → all is_clean cs ≡ true → all is_clean (with_sign b cs) ≡ true
unfolding is_space
with_sign-is_clean true cs h = h
with_sign-is_clean false cs h = h

placed-is_clean :
    (b : Bool) (e : ℕ) (ws fs : List ℕ)
    → IsPlaced e ws fs
    → all is_clean (with_sign b (ws ++ tail_of e fs)) ≡ true
placed-is_clean b e ws fs p = with_sign-is_clean b (ws ++ tail_of e fs) (
    all-append is_clean ws (tail_of e fs) (all-digit-is_clean ws p.whole)
      (tail_of-is_clean e fs p.fraction))

of_match-placed :
    (m : Money) (ws fs : List ℕ)
    → length fs ≡ currency_exponent m.currency
    → read_digits (ws ++ fs) ≡ size_of m.amount
    → of_match m.currency (sign_of m.amount, ws, fs) ≡ ok m
unfolding of_match
of_match-placed m ws fs l r = ground (
  arith,
  minor_units-append (currency_exponent m.currency) ws fs (exponent-cases m.currency) l,
  signed-size_of m.amount,
)

from_decimal-placed :
    (m : Money) (ws fs : List ℕ)
    → IsPlaced (currency_exponent m.currency) ws fs
    → read_digits (ws ++ fs) ≡ size_of m.amount
    → from_decimal
        (with_sign (sign_of m.amount) (ws ++ tail_of (currency_exponent m.currency) fs))
        (code_text m.currency)
      ≡ ok m
from_decimal-placed m ws fs p r =
    let e = currency_exponent m.currency in
    let cs = with_sign (sign_of m.amount) (ws ++ tail_of e fs) in
    unfold from_decimal in
    rw
      (
        assert_currency_code-code_text m.currency,
        trim-is_clean cs (placed-is_clean (sign_of m.amount) e ws fs p),
        match_decimal-placed (sign_of m.amount) e ws fs p,
      )
      (of_match-placed m ws fs p.fits r)

-- Reading the decimal text of any amount, in its currency, gives the same amount back: the sign,
-- the place of the point and the zeros in front included, for currencies of either exponent.
pub from_decimal-to_decimal_string :
    (m : Money) → from_decimal (to_decimal_string m) (code_text m.currency) ≡ ok m
from_decimal-to_decimal_string m =
    let e = currency_exponent m.currency in
    let n = size_of m.amount in
    let ds = padded e n in
    rw (to_decimal_string-parts m) (
      from_decimal-placed m (whole_of e ds) (fraction_of e ds)
        (cut-IsPlaced e ds (padded-all e n) (length-padded e n))
        (ap read_digits (take-append-drop (length ds - e) ds) ∙ read-padded e n))
