-- ===== src/Webhooks/Ssrf/Hex.antt =====
-- The hexadecimal text of a number, and texts of which no character is a separator.
use fluvia.Base.{
  ℕ, zero, suc, ◌+◌, ◌*◌, ◌/◌, ◌%◌, ◌≤◌, ◌<◌, ◌≡◌, refl, ◌∙◌, true, [], ◌∷◌, ◌++◌, all, length,
  length-append, ltb, arith, Bool-cases, inl, inr,
}
use fluvia.Base.Digits.{hex_digit, all-append}
use fluvia.Base.Text.{Text}
use fluvia.Webhooks.Ssrf.Split.{show_hex, hex_fuel, is_hex, hex_value, read_hex_from}

hex_digit-is_hex : (n : ℕ) → n < 16 → is_hex (hex_digit n) ≡ true
hex_digit-is_hex n h = ground arith

hex_value-digit : (n : ℕ) → n < 16 → hex_value (hex_digit n) ≡ n
hex_value-digit n h = ground arith

read_hex-snoc :
    (acc : ℕ) (xs : Text) (c : ℕ)
    → read_hex_from acc (xs ++ c ∷ []) ≡ read_hex_from acc xs * 16 + hex_value c
unfolding read_hex_from
read_hex-snoc acc [] c = refl
read_hex-snoc acc (x ∷ xs) c = read_hex-snoc (acc * 16 + hex_value x) xs c

read_hex-one : (n : ℕ) → n < 16 → read_hex_from 0 (hex_digit n ∷ []) ≡ n
unfolding read_hex_from
read_hex-one n h = omega (arith, hex_value-digit n h)

read_hex-fuel : (f n : ℕ) → n < f → read_hex_from 0 (hex_fuel f n) ≡ n
unfolding hex_fuel
read_hex-fuel zero n h = elim h [ ]
read_hex-fuel (suc f) n h = elim (Bool-cases (ltb n 16)) [
  | inl small ↦ rw small (read_hex-one n (ground arith))
  | inr large ↦ rw large (
      read_hex-snoc 0 (hex_fuel f (n / 16)) (hex_digit (n % 16))
      ∙ omega
          (arith, read_hex-fuel f (n / 16) (ground arith), hex_value-digit (n % 16) (omega arith)))
]

-- The text of a number reads back as that number.
pub read_hex-show_hex : (n : ℕ) → read_hex_from 0 (show_hex n) ≡ n
unfolding show_hex
read_hex-show_hex n = read_hex-fuel (suc n) n (omega arith)

all-hex_fuel : (f n : ℕ) → all is_hex (hex_fuel f n) ≡ true
unfolding hex_fuel
all-hex_fuel zero n = refl
all-hex_fuel (suc f) n = elim (Bool-cases (ltb n 16)) [
  | inl small ↦ rw small (rw (hex_digit-is_hex n (ground arith)) refl)
  | inr large ↦ rw large (
      all-append is_hex (hex_fuel f (n / 16)) (hex_digit (n % 16) ∷ []) (all-hex_fuel f (n / 16))
        (rw (hex_digit-is_hex (n % 16) (omega arith)) refl))
]

pub all-show_hex : (n : ℕ) → all is_hex (show_hex n) ≡ true
unfolding show_hex
all-show_hex n = all-hex_fuel (suc n) n

-- The numbers of so many digits and one more.
abbrev below : ℕ → ℕ
below zero = 16
below (suc k) = 16 * below k

length-hex_fuel : (k f n : ℕ) → n < below k → length (hex_fuel f n) ≤ k + 1
unfolding hex_fuel
length-hex_fuel k zero n h = omega arith
length-hex_fuel zero (suc f) n h = rw (small_enough n h) (omega arith)
  where
    small_enough : (n : ℕ) → n < 16 → ltb n 16 ≡ true
    small_enough n h = ground arith
length-hex_fuel (suc k) (suc f) n h = elim (Bool-cases (ltb n 16)) [
  | inl small ↦ rw small (omega arith)
  | inr large ↦ rw large (
      omega (
        arith,
        length-append (hex_fuel f (n / 16)) (hex_digit (n % 16) ∷ []),
        length-hex_fuel k f (n / 16) (fewer n (below k) h),
      ))
]
  where
    fewer : (n m : ℕ) → n < 16 * m → n / 16 < m
    fewer n m h = omega arith

pub length-show_hex : (n : ℕ) → n < 65536 → length (show_hex n) ≤ 4
unfolding show_hex
length-show_hex n h = length-hex_fuel 3 (suc n) n h

pub show_hex_nonempty : (n : ℕ) → 0 < length (show_hex n)
unfolding show_hex hex_fuel
show_hex_nonempty n = elim (Bool-cases (ltb n 16)) [
  | inl small ↦ rw small (omega arith)
  | inr large ↦
      rw large (omega (arith, length-append (hex_fuel n (n / 16)) (hex_digit (n % 16) ∷ [])))
]
