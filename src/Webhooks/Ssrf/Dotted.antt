-- ===== src/Webhooks/Ssrf/Dotted.antt =====
-- The numbers of an IPv4 address that is written as four of them.
use fluvia.Base.{
  ℕ, ◌==◌, ◌≡◌, refl, ap, ◌∙◌, Bool, true, false, ◌&&◌, List, [], ◌∷◌, ◌++◌, all, some, arith,
}
use fluvia.Base.Digits.{
  is_digit, show_digits, show_digits-all, show_digits_nonempty, read-show_digits,
}
use fluvia.Base.Text.{Text, join_with}
use fluvia.Webhooks.Ssrf.Split.{split_on, onto_first, number_of}
use fluvia.Webhooks.Ssrf.Address.{numbers_of, private_numbers, is_private_quad, is_private_v4}

-- `a.b.c.d`
abbrev pub dotted : ℕ → ℕ → ℕ → ℕ → Text
dotted a b c d = join_with 46 (show_digits a ∷ show_digits b ∷ show_digits c ∷ show_digits d ∷ [])

no_dot : (c : ℕ) → is_digit c ≡ true → (c == 46) ≡ false
no_dot c h = ground arith

both : (a b : Bool) → a && b ≡ true → (a ≡ true) × (b ≡ true)
both a b h = ground arith

split_on-append :
    (t rest : Text) → all is_digit t ≡ true → split_on 46 (t ++ 46 ∷ rest) ≡ t ∷ split_on 46 rest
unfolding split_on
split_on-append [] rest h = refl
split_on-append (c ∷ t) rest h =
    let (digit, digits) = both (is_digit c) (all is_digit t) h in
    rw (no_dot c digit) (ap (onto_first c) (split_on-append t rest digits))

split_on_digits : (t : Text) → all is_digit t ≡ true → split_on 46 t ≡ t ∷ []
unfolding split_on
split_on_digits [] h = refl
split_on_digits (c ∷ t) h =
    let (digit, digits) = both (is_digit c) (all is_digit t) h in
    rw (no_dot c digit) (ap (onto_first c) (split_on_digits t digits))

pub split_on-dotted :
    (a b c d : ℕ)
    → split_on 46 (dotted a b c d)
      ≡ show_digits a ∷ show_digits b ∷ show_digits c ∷ show_digits d ∷ []
unfolding join_with
split_on-dotted a b c d =
    split_on-append (show_digits a) _ (show_digits-all a)
    ∙ ap (λ l. show_digits a ∷ l)
        (split_on-append (show_digits b) _ (show_digits-all b)
          ∙ ap (λ l. show_digits b ∷ l)
              (split_on-append (show_digits c) _ (show_digits-all c)
                ∙ ap (λ l. show_digits c ∷ l)
                    (split_on_digits (show_digits d) (show_digits-all d))))

number_of-show : (n : ℕ) → number_of (show_digits n) ≡ some n
unfolding number_of
number_of-show n =
    rw (show_digits-all n) (rw (show_digits_nonempty n) (ap (λ m. some m) (read-show_digits n)))

numbers_of-cons :
    (t : Text) (ts : List Text) (n : ℕ) (ns : List ℕ)
    → number_of t ≡ some n
    → numbers_of ts ≡ some ns
    → numbers_of (t ∷ ts) ≡ some (n ∷ ns)
unfolding numbers_of
numbers_of-cons t ts n ns h k = rw (h, numbers_of) (rw (k, numbers_of) refl)

no_numbers : numbers_of [] ≡ some []
unfolding numbers_of
no_numbers = refl

pub numbers_of-shown :
    (a b c d : ℕ)
    → numbers_of (show_digits a ∷ show_digits b ∷ show_digits c ∷ show_digits d ∷ [])
      ≡ some (a ∷ b ∷ c ∷ d ∷ [])
numbers_of-shown a b c d = numbers_of-cons (show_digits a) _ a (b ∷ c ∷ d ∷ []) (number_of-show a) (
    numbers_of-cons (show_digits b) _ b (c ∷ d ∷ []) (number_of-show b) (
      numbers_of-cons (show_digits c) _ c (d ∷ []) (number_of-show c)
        (numbers_of-cons (show_digits d) [] d [] (number_of-show d) no_numbers)))

pub is_private_v4-dotted : (a b c d : ℕ) → is_private_v4 (dotted a b c d) ≡ is_private_quad a b
unfolding is_private_v4
is_private_v4-dotted a b c d =
    ap (λ t. private_numbers (numbers_of t)) (split_on-dotted a b c d)
    ∙ ap private_numbers (numbers_of-shown a b c d)
