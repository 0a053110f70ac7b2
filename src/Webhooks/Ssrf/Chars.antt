-- ===== src/Webhooks/Ssrf/Chars.antt =====
-- What the parser of addresses does with texts of few characters.
use fluvia.Base.{
  ℕ, ◌==◌, ◌<◌, ◌≡◌, refl, ap, ap₂, ◌∙◌, Bool, true, false, ◌&&◌, ◌||◌, not, [], ◌∷◌, ◌++◌, all,
  map, length, none, arith,
}
use fluvia.Base.Digits.{is_digit}
use fluvia.Base.Text.{Text}
use fluvia.Webhooks.Ssrf.Split.{
  split_on, onto_first, split_double, is_hex, before_first, has_char, cut_last,
}
use fluvia.Webhooks.Ssrf.Address.{lower}

-- The characters of an address in lower case.
abbrev pub is_plain : ℕ → Bool
is_plain c = is_hex c || (c == 58) || (c == 46)

abbrev pub is_not : ℕ → ℕ → Bool
is_not sep c = not (c == sep)

both : (a b : Bool) → a && b ≡ true → (a ≡ true) × (b ≡ true)
both a b h = ground arith

pub all-weaken :
    (p q : ℕ → Bool)
    → ((c : ℕ) → p c ≡ true → q c ≡ true)
    → (t : Text) → all p t ≡ true
    → all q t ≡ true
all-weaken p q weaker [] h = refl
all-weaken p q weaker (c ∷ t) h =
    let (first, rest) = both (p c) (all p t) h in rw (weaker c first) (all-weaken p q weaker t rest)

pub hex_plain : (c : ℕ) → is_hex c ≡ true → is_plain c ≡ true
hex_plain c h = ground arith

pub digit_plain : (c : ℕ) → is_digit c ≡ true → is_plain c ≡ true
digit_plain c h = ground arith

lower_plain : (c : ℕ) → is_plain c ≡ true → lower c ≡ c
lower_plain c h = ground arith

no_zone : (c : ℕ) → is_plain c ≡ true → (c == 37) ≡ false
no_zone c h = ground arith

hex_colon : (c : ℕ) → is_hex c ≡ true → (c == 58) ≡ false
hex_colon c h = ground arith

pub hex_dot : (c : ℕ) → is_hex c ≡ true → is_not 46 c ≡ true
hex_dot c h = ground arith

pub digit_colon : (c : ℕ) → is_digit c ≡ true → is_not 58 c ≡ true
digit_colon c h = ground arith

pub map-lower : (t : Text) → all is_plain t ≡ true → map lower t ≡ t
map-lower [] h = refl
map-lower (c ∷ t) h =
    let (first, rest) = both (is_plain c) (all is_plain t) h in
    ap₂ (λ x xs. x ∷ xs) (lower_plain c first) (map-lower t rest)

pub before_first-plain : (t : Text) → all is_plain t ≡ true → before_first 37 t ≡ t
unfolding before_first
before_first-plain [] h = refl
before_first-plain (c ∷ t) h =
    let (first, rest) = both (is_plain c) (all is_plain t) h in
    rw (no_zone c first) (ap (λ xs. c ∷ xs) (before_first-plain t rest))

pub has_char-absent : (sep : ℕ) (t : Text) → all (is_not sep) t ≡ true → has_char sep t ≡ false
unfolding has_char
has_char-absent sep [] h = refl
has_char-absent sep (c ∷ t) h = ground (arith, has_char-absent sep t)

pub has_char-append : (sep : ℕ) (t rest : Text) → has_char sep (t ++ sep ∷ rest) ≡ true
unfolding has_char
has_char-append sep [] rest = ground arith
has_char-append sep (c ∷ t) rest = ground (arith, has_char-append sep t rest)

pub cut_last-absent : (sep : ℕ) (t : Text) → all (is_not sep) t ≡ true → cut_last sep t ≡ none
unfolding cut_last
cut_last-absent sep [] h = refl
cut_last-absent sep (c ∷ t) h =
    let (first, rest) = both (is_not sep c) (all (is_not sep) t) h in
    rw (cut_last-absent sep t rest, cut_last) (rw (was_other c first) refl)
  where
    was_other : (c : ℕ) → not (c == sep) ≡ true → (c == sep) ≡ false
    was_other c e = ground arith

pub split_on-hex_append :
    (t rest : Text) → all is_hex t ≡ true → split_on 58 (t ++ 58 ∷ rest) ≡ t ∷ split_on 58 rest
unfolding split_on
split_on-hex_append [] rest h = refl
split_on-hex_append (c ∷ t) rest h =
    let (first, more) = both (is_hex c) (all is_hex t) h in
    rw (hex_colon c first) (ap (onto_first c) (split_on-hex_append t rest more))

pub split_on-hex : (t : Text) → all is_hex t ≡ true → split_on 58 t ≡ t ∷ []
unfolding split_on
split_on-hex [] h = refl
split_on-hex (c ∷ t) h =
    let (first, more) = both (is_hex c) (all is_hex t) h in
    rw (hex_colon c first) (ap (onto_first c) (split_on-hex t more))

split_double-first :
    (c : ℕ) (t : Text) → is_hex c ≡ true → split_double (c ∷ t) ≡ onto_first c (split_double t)
unfolding split_double
split_double-first c [] h = refl
split_double-first c (d ∷ t) h = rw (hex_colon c h) refl

pub split_double-run :
    (h t u : Text)
    → all is_hex h ≡ true
    → split_double t ≡ u ∷ []
    → split_double (h ++ t) ≡ (h ++ u) ∷ []
split_double-run [] t u hex e = e
split_double-run (c ∷ h) t u hex e =
    let (first, more) = both (is_hex c) (all is_hex h) hex in
    split_double-first c (h ++ t) first ∙ ap (onto_first c) (split_double-run h t u more e)

pub split_double-colon :
    (h t u : Text)
    → all is_hex h ≡ true
    → 0 < length h
    → split_double (h ++ t) ≡ u ∷ []
    → split_double (58 ∷ (h ++ t)) ≡ (58 ∷ u) ∷ []
unfolding split_double
split_double-colon [] t u hex some_hex e = absurd (omega arith)
split_double-colon (c ∷ h) t u hex some_hex e =
    let (first, more) = both (is_hex c) (all is_hex h) hex in
    rw (hex_colon c first) (ap (onto_first 58) e)
