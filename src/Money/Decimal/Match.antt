-- ===== src/Money/Decimal/Match.antt =====
-- What `fromDecimal` matches in the text of a number.
use fluvia.Base.Digits.{is_digit, read_from, read_digits, read_from-append, all-append}
use fluvia.Base.{
  ℕ, zero, suc, ◌<◌, ◌≡◌, refl, Bool, true, false, ◌⊎◌, inl, inr, not, List, [], ◌∷◌, ◌++◌, ltb, ok,
  some, length, all, if◌then◌else◌, arith, append-nil,
}
use mathlib.Core.List.{reverse, reverse-reverse, reverse-append}
use fluvia.Money.Currency.{CurrencyCode, code_text, assert_currency_code, currency_exponent}
use fluvia.Money.Value.{split_sign}
use fluvia.Money.Decimal.{
  is_space, trim_start, trim, span_digits, match_fraction, match_decimal, minor_units,
}

-- No white space.
abbrev pub is_clean : ℕ → Bool
is_clean c = not (is_space c)

pub digit-is_clean : (c : ℕ) → is_digit c ≡ true → is_clean c ≡ true
unfolding is_space
digit-is_clean c h = ground arith

pub all-digit-is_clean : (cs : List ℕ) → all is_digit cs ≡ true → all is_clean cs ≡ true
all-digit-is_clean [] h = refl
all-digit-is_clean (c ∷ cs) h = ground (arith, digit-is_clean c, all-digit-is_clean cs)

trim_start-is_clean : (cs : List ℕ) → all is_clean cs ≡ true → trim_start cs ≡ cs
unfolding trim_start
trim_start-is_clean [] h = refl
trim_start-is_clean (c ∷ cs) h = ground arith

all-reverse : (cs : List ℕ) → all is_clean cs ≡ true → all is_clean (reverse cs) ≡ true
all-reverse [] h = refl
all-reverse (c ∷ cs) h =
    rw (reverse-append (c ∷ []) cs)
      (all-append is_clean (reverse cs) (c ∷ []) (all-reverse cs (ground arith)) (ground arith))

pub trim-is_clean : (cs : List ℕ) → all is_clean cs ≡ true → trim cs ≡ cs
unfolding trim
trim-is_clean cs h =
    rw (trim_start-is_clean cs h, trim_start-is_clean (reverse cs) (all-reverse cs h))
      (reverse-reverse cs)

-- The digits stop at the point or at the end.
abbrev IsTail : List ℕ → Type 0
IsTail [] = Unit
IsTail (c ∷ cs) = is_digit c ≡ false

span_digits-append :
    (ws rest : List ℕ)
    → all is_digit ws ≡ true
    → IsTail rest
    → span_digits (ws ++ rest) ≡ (ws, rest)
unfolding span_digits
span_digits-append [] [] h t = refl
span_digits-append [] (c ∷ cs) h t = rw t
span_digits-append (w ∷ ws) rest h t = ground (arith, span_digits-append ws rest (ground arith) t)

-- The point and the fraction, where the currency has one.
abbrev pub tail_of : ℕ → List ℕ → List ℕ
tail_of e frac = if ltb 0 e then 46 ∷ frac else []

pub exponent-cases : (c : CurrencyCode) → (currency_exponent c ≡ 0) ⊎ (currency_exponent c ≡ 2)
unfolding currency_exponent
exponent-cases CurrencyCode.clp = inl refl
exponent-cases CurrencyCode.jpy = inl refl
exponent-cases _ = inr refl

pub assert_currency_code-code_text : (c : CurrencyCode) → assert_currency_code (code_text c) ≡ ok c
unfolding assert_currency_code
assert_currency_code-code_text CurrencyCode.usd = refl
assert_currency_code-code_text _ = refl

-- A whole part of one digit or more, and a fraction as long as the exponent.
pub record IsPlaced (e : ℕ) (ws fs : List ℕ) : Type 0 where
  pub whole : all is_digit ws ≡ true
  pub some_whole : 0 < length ws
  pub fraction : all is_digit fs ≡ true
  pub fits : length fs ≡ e

match_fraction-tail_of :
    (e : ℕ) (fs : List ℕ)
    → all is_digit fs ≡ true
    → length fs ≡ e
    → match_fraction (tail_of e fs) ≡ some fs
unfolding match_fraction
match_fraction-tail_of zero [] h l = refl
match_fraction-tail_of zero (f ∷ fs) h l = absurd (omega arith)
match_fraction-tail_of (suc e) fs h l = ground arith

tail_of-IsTail : (e : ℕ) (fs : List ℕ) → IsTail (tail_of e fs)
tail_of-IsTail zero fs = tt
tail_of-IsTail (suc e) fs = ground arith

split_sign-digit :
    (ws rest : List ℕ)
    → all is_digit ws ≡ true
    → 0 < length ws
    → split_sign (ws ++ rest) ≡ (false, ws ++ rest)
unfolding split_sign
split_sign-digit [] rest h l = absurd (omega arith)
split_sign-digit (w ∷ ws) rest h l = ground arith

-- The sign, put before the text of a number.
abbrev pub with_sign : Bool → List ℕ → List ℕ
with_sign negative body = if negative then 45 ∷ body else body

split_sign-with_sign :
    (b : Bool) (ws rest : List ℕ)
    → all is_digit ws ≡ true
    → 0 < length ws
    → split_sign (with_sign b (ws ++ rest)) ≡ (b, ws ++ rest)
split_sign-with_sign true ws rest h l = unfold split_sign in refl
split_sign-with_sign false ws rest h l = split_sign-digit ws rest h l

pub match_decimal-placed :
    (b : Bool) (e : ℕ) (ws fs : List ℕ)
    → IsPlaced e ws fs
    → match_decimal (with_sign b (ws ++ tail_of e fs)) ≡ some (b, ws, fs)
unfolding match_decimal
match_decimal-placed b e ws fs p = ground (
  arith,
  split_sign-with_sign b ws (tail_of e fs) p.whole p.some_whole,
  span_digits-append ws (tail_of e fs) p.whole (tail_of-IsTail e fs),
  match_fraction-tail_of e fs p.fraction p.fits,
)

-- The two parts read as one number.
pub minor_units-append :
    (e : ℕ) (ws fs : List ℕ)
    → (e ≡ 0) ⊎ (e ≡ 2)
    → length fs ≡ e
    → minor_units e ws fs ≡ read_digits (ws ++ fs)
unfolding minor_units
minor_units-append e ws [] (inl z) l = rw (z, append-nil ws) (unfold read_from in omega arith)
minor_units-append e ws (f ∷ fs) (inl z) l = absurd (omega (arith, l, z))
minor_units-append e ws (f ∷ g ∷ []) (inr two) l =
    rw (two, read_from-append 0 ws (f ∷ g ∷ [])) (unfold read_from in omega arith)
minor_units-append e ws [] (inr two) l = absurd (omega (arith, l, two))
minor_units-append e ws (f ∷ []) (inr two) l = absurd (omega (arith, l, two))
minor_units-append e ws (f ∷ g ∷ h ∷ fs) (inr two) l = absurd (omega (arith, l, two))
