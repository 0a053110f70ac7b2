-- ===== src/Base/Digits.antt =====
-- Decimal text of a number, as character codes: what `BigInt(text)`, `toString`, `padStart` and
-- `padEnd` of the language do with digits.
use fluvia.Base.{
  ap, length-append, ℕ, zero, suc, ◌+◌, ◌-◌, ◌*◌, ◌/◌, ◌%◌, ◌<◌, ◌≡◌, refl, Bool, true, List, [],
  ◌∷◌, ◌++◌, ◌&&◌, arith, ltb, leb, if◌then◌else◌, Bool-cases, inl, inr, length, replicate, all,
  take, drop, ◌∙◌,
}

-- `\d`
abbrev pub is_digit : ℕ → Bool
is_digit c = leb 48 c && leb c 57

-- One digit of base 16, in lower case.
abbrev pub hex_digit : ℕ → ℕ
hex_digit n = if ltb n 10 then 48 + n else 87 + n

-- `BigInt` of a run of digits, from the digits read so far.
unfoldable pub read_from : ℕ → List ℕ → ℕ
read_from acc [] = acc
read_from acc (c ∷ cs) = read_from (acc * 10 + (c - 48)) cs

abbrev pub read_digits : List ℕ → ℕ
read_digits = read_from 0

digits_fuel : ℕ → ℕ → List ℕ
digits_fuel zero n = []
digits_fuel (suc f) n =
    let rest = digits_fuel f (n / 10) ++ (48 + n % 10) ∷ [] in
    if ltb n 10 then (48 + n) ∷ [] else rest

-- `n.toString()`
unfoldable pub show_digits : ℕ → List ℕ
unfolding digits_fuel
show_digits n = digits_fuel (suc n) n

-- `text.padStart(n, '0')`, `text.padEnd(n, '0')`
abbrev pub pad_start : ℕ → List ℕ → List ℕ
pad_start n cs = replicate (n - length cs) 48 ++ cs

abbrev pub pad_end : ℕ → List ℕ → List ℕ
pad_end n cs = cs ++ replicate (n - length cs) 48

pub read_from-append :
    (acc : ℕ) (xs ys : List ℕ) → read_from acc (xs ++ ys) ≡ read_from (read_from acc xs) ys
unfolding read_from
read_from-append acc [] ys = refl
read_from-append acc (x ∷ xs) ys = read_from-append (acc * 10 + (x - 48)) xs ys

read_snoc :
    (acc : ℕ) (xs : List ℕ) (c : ℕ)
    → read_from acc (xs ++ c ∷ []) ≡ read_from acc xs * 10 + (c - 48)
unfolding read_from
read_snoc acc [] c = refl
read_snoc acc (x ∷ xs) c = read_snoc (acc * 10 + (x - 48)) xs c

pub read_from-replicate :
    (n : ℕ) (xs : List ℕ) → read_digits (replicate n 48 ++ xs) ≡ read_digits xs
unfolding read_from
read_from-replicate zero xs = refl
read_from-replicate (suc n) xs = read_from-replicate n xs

one_digit : (n : ℕ) → n < 10 → read_digits ((48 + n) ∷ []) ≡ n
unfolding read_from
one_digit n h = omega arith

read-digits_fuel : (f n : ℕ) → n < f → read_digits (digits_fuel f n) ≡ n
unfolding digits_fuel
read-digits_fuel zero n h = elim h [ ]
read-digits_fuel (suc f) n h = elim (Bool-cases (ltb n 10)) [
  | inl small ↦ rw small (one_digit n (ground arith))
  | inr large ↦ rw large (
      read_snoc 0 (digits_fuel f (n / 10)) (48 + n % 10)
      ∙ (ground (arith, read-digits_fuel f (n / 10) (ground arith))))
]

-- The text of a number reads back as that number.
pub read-show_digits : (n : ℕ) → read_digits (show_digits n) ≡ n
unfolding show_digits
read-show_digits n = read-digits_fuel (suc n) n (omega arith)

pub all-append {ℓ} :
    {A : Type ℓ} (p : A → Bool) (xs ys : List A)
    → all p xs ≡ true
    → all p ys ≡ true
    → all p (xs ++ ys) ≡ true
all-append p [] ys h k = k
all-append p (x ∷ xs) ys h k = ground (arith, all-append p xs ys)

digits_fuel-all : (f n : ℕ) → all is_digit (digits_fuel f n) ≡ true
unfolding digits_fuel
digits_fuel-all zero n = refl
digits_fuel-all (suc f) n = elim (Bool-cases (ltb n 10)) [
  | inl small ↦ rw small (ground arith)
  | inr large ↦ rw large (
      all-append is_digit (digits_fuel f (n / 10)) ((48 + n % 10) ∷ []) (digits_fuel-all f (n / 10))
        (ground arith))
]

pub show_digits-all : (n : ℕ) → all is_digit (show_digits n) ≡ true
unfolding show_digits
show_digits-all n = digits_fuel-all (suc n) n

pub replicate-all : (n : ℕ) → all is_digit (replicate n 48) ≡ true
replicate-all zero = refl
replicate-all (suc n) = replicate-all n

pub take-all {ℓ} :
    {A : Type ℓ} (p : A → Bool) (n : ℕ) (xs : List A) → all p xs ≡ true → all p (take n xs) ≡ true
take-all p zero xs h = refl
take-all p (suc n) [] h = refl
take-all p (suc n) (x ∷ xs) h = ground (arith, take-all p n xs)

pub drop-all {ℓ} :
    {A : Type ℓ} (p : A → Bool) (n : ℕ) (xs : List A) → all p xs ≡ true → all p (drop n xs) ≡ true
drop-all p zero xs h = h
drop-all p (suc n) [] h = refl
drop-all p (suc n) (x ∷ xs) h = ground (arith, drop-all p n xs)

-- A number has a digit at least.
pub show_digits_nonempty : (n : ℕ) → ltb 0 (length (show_digits n)) ≡ true
unfolding show_digits digits_fuel
show_digits_nonempty n = elim (Bool-cases (ltb n 10)) [
  | inl small ↦ rw small refl
  | inr large ↦
      rw large
        (ap (ltb 0) (length-append (digits_fuel n (n / 10)) ((48 + n % 10) ∷ [])) ∙ (ground arith))
]
