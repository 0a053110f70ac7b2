-- ===== src/Webhooks/Ssrf/Spelled.antt =====
-- The bytes of an IPv4 address in an IPv6 address, written with its numbers or with two hextets.
use fluvia.Base.{
  ℕ, ◌+◌, ◌*◌, ◌/◌, ◌%◌, ◌≤◌, ◌<◌, ◌≡◌, refl, sym, ap, ap₂, ◌∙◌, Bool, true, false, ◌&&◌, List, [],
  ◌∷◌, ◌++◌, all, map, length, append-nil, none, some, if◌then◌else◌, leb, ltb, arith,
}
use fluvia.Base.Digits.{is_digit, show_digits, show_digits-all, all-append}
use fluvia.Base.Text.{Text, join_with}
use fluvia.Webhooks.Ssrf.Split.{
  split_on, split_double, show_hex, is_hex, read_hex_from, before_first, has_char, cut_last,
}
use fluvia.Webhooks.Ssrf.Hex.{read_hex-show_hex, all-show_hex, length-show_hex, show_hex_nonempty}
use fluvia.Webhooks.Ssrf.Address.{
  lower, numbers_of, quad_hextets, without_quad, groups_of, is_group, bytes_of_groups,
  ipv6_to_bytes,
}
use fluvia.Webhooks.Ssrf.Dotted.{dotted, split_on-dotted, numbers_of-shown}
use fluvia.Webhooks.Ssrf.Chars.{
  is_plain, is_not, all-weaken, hex_plain, digit_plain, hex_dot, digit_colon, map-lower,
  before_first-plain, has_char-absent, has_char-append, cut_last-absent, split_on-hex_append,
  split_on-hex, split_double-run, split_double-colon,
}

-- `::ffff:`, in front of the four numbers or of the two hextets.
abbrev pub mapped_prefix : Text
mapped_prefix = 58 ∷ 58 ∷ 102 ∷ 102 ∷ 102 ∷ 102 ∷ 58 ∷ []

abbrev pub mapped_hex : ℕ → ℕ → ℕ → ℕ → Text
mapped_hex a b c d = mapped_prefix ++ (show_hex (a * 256 + b) ++ 58 ∷ show_hex (c * 256 + d))

abbrev pub mapped_dotted : ℕ → ℕ → ℕ → ℕ → Text
mapped_dotted a b c d = mapped_prefix ++ dotted a b c d

-- The bytes of `::ffff:a.b.c.d`.
abbrev pub mapped_bytes : ℕ → ℕ → ℕ → ℕ → List ℕ
mapped_bytes a b c d = 0 ∷ 0 ∷ 0 ∷ 0 ∷ 0 ∷ 0 ∷ 0 ∷ 0 ∷ 0 ∷ 0 ∷ 255 ∷ 255 ∷ a ∷ b ∷ c ∷ d ∷ []

module _ (hi lo : Text) (hex_hi : all is_hex hi ≡ true) (hex_lo : all is_hex lo ≡ true)
    (some_hi : 0 < length hi) (some_lo : 0 < length lo) where
  split_double-mapped :
      split_double (mapped_prefix ++ (hi ++ 58 ∷ lo))
      ≡ [] ∷ (102 ∷ 102 ∷ 102 ∷ 102 ∷ 58 ∷ (hi ++ 58 ∷ lo)) ∷ []
  unfolding split_double
  split_double-mapped =
      let last : split_double (lo ++ []) ≡ (lo ++ []) ∷ [] =
        split_double-run lo [] [] hex_lo refl in
      let low : split_double (58 ∷ lo) ≡ (58 ∷ lo) ∷ [] =
        ap (λ t. split_double (58 ∷ t)) (sym (append-nil lo))
        ∙ split_double-colon lo [] (lo ++ []) hex_lo some_lo last
        ∙ ap (λ t. (58 ∷ t) ∷ []) (append-nil lo) in
      let high =
        split_double-colon hi (58 ∷ lo) (hi ++ 58 ∷ lo) hex_hi some_hi
          (split_double-run hi (58 ∷ lo) (58 ∷ lo) hex_hi low) in
      ap (λ l. [] ∷ l)
        (split_double-run (102 ∷ 102 ∷ 102 ∷ 102 ∷ []) (58 ∷ (hi ++ 58 ∷ lo)) (58 ∷ (hi ++ 58 ∷ lo))
          refl high)

  groups_of-mapped :
      groups_of (split_double (mapped_prefix ++ (hi ++ 58 ∷ lo)))
      ≡ some (
          (48 ∷ [])
          ∷ (48 ∷ [])
          ∷ (48 ∷ [])
          ∷ (48 ∷ [])
          ∷ (48 ∷ [])
          ∷ (102 ∷ 102 ∷ 102 ∷ 102 ∷ [])
          ∷ hi
          ∷ lo
          ∷ [])
  unfolding groups_of
  groups_of-mapped =
      let parts : split_on 58 (102 ∷ 102 ∷ 102 ∷ 102 ∷ 58 ∷ (hi ++ 58 ∷ lo))
          ≡ (102 ∷ 102 ∷ 102 ∷ 102 ∷ []) ∷ hi ∷ lo ∷ [] =
        split_on-hex_append (102 ∷ 102 ∷ 102 ∷ 102 ∷ []) (hi ++ 58 ∷ lo) refl
        ∙ ap (λ l. (102 ∷ 102 ∷ 102 ∷ 102 ∷ []) ∷ l)
            (split_on-hex_append hi lo hex_hi ∙ ap (λ l. hi ∷ l) (split_on-hex lo hex_lo)) in
      ap groups_of split_double-mapped ∙ rw parts refl

bytes_of_groups-cons :
    (g : Text) (gs : List Text) (n : ℕ) (bs : List ℕ)
    → is_group g ≡ true
    → read_hex_from 0 g ≡ n
    → bytes_of_groups gs ≡ some bs
    → bytes_of_groups (g ∷ gs) ≡ some ((n / 256) ∷ (n % 256) ∷ bs)
unfolding bytes_of_groups
bytes_of_groups-cons g gs n bs group value rest = rw (group, rest, value) refl

no_groups : bytes_of_groups [] ≡ some []
unfolding bytes_of_groups
no_groups = refl

show_hex-is_group : (n : ℕ) → n < 65536 → is_group (show_hex n) ≡ true
show_hex-is_group n h =
    one_to_four (all is_hex (show_hex n)) (length (show_hex n)) (all-show_hex n)
      (show_hex_nonempty n) (length-show_hex n h)
  where
    one_to_four : (b : Bool) (k : ℕ) → b ≡ true → 0 < k → k ≤ 4 → b && ltb 0 k && leb k 4 ≡ true
    one_to_four b k e f g = ground arith

module _ (a b : ℕ) (a_byte : a < 256) (b_byte : b < 256) where
  two_bytes : a * 256 + b < 65536
  two_bytes = omega arith

  high_byte : (a * 256 + b) / 256 ≡ a
  high_byte = omega arith

  low_byte : (a * 256 + b) % 256 ≡ b
  low_byte = omega arith

  bytes_of_groups-pair :
      (gs : List Text) (bs : List ℕ)
      → bytes_of_groups gs ≡ some bs
      → bytes_of_groups (show_hex (a * 256 + b) ∷ gs) ≡ some (a ∷ b ∷ bs)
  bytes_of_groups-pair gs bs rest =
      bytes_of_groups-cons (show_hex (a * 256 + b)) gs (a * 256 + b) bs
        (show_hex-is_group (a * 256 + b) two_bytes) (read_hex-show_hex (a * 256 + b)) rest
      ∙ ap₂ (λ x y. some (x ∷ y ∷ bs)) high_byte low_byte

plain_hex : (n : ℕ) → all is_plain (show_hex n) ≡ true
plain_hex n = all-weaken is_hex is_plain hex_plain (show_hex n) (all-show_hex n)

plain_digits : (n : ℕ) → all is_plain (show_digits n) ≡ true
plain_digits n = all-weaken is_digit is_plain digit_plain (show_digits n) (show_digits-all n)

no_dots : (n : ℕ) → all (is_not 46) (show_hex n) ≡ true
no_dots n = all-weaken is_hex (is_not 46) hex_dot (show_hex n) (all-show_hex n)

-- What holds of the digits and of the point holds of the text of four numbers.
all-dotted :
    (p : ℕ → Bool)
    → p 46 ≡ true
    → ((n : ℕ) → all p (show_digits n) ≡ true)
    → (a b c d : ℕ) → all p (dotted a b c d) ≡ true
unfolding join_with
all-dotted p point digits a b c d = all-append p (show_digits a) _ (digits a) (
    rw point (
      all-append p (show_digits b) _ (digits b)
        (rw point (all-append p (show_digits c) _ (digits c) (rw point (digits d))))))

no_colons : (a b c d : ℕ) → all (is_not 58) (dotted a b c d) ≡ true
no_colons =
    all-dotted (is_not 58) refl
      (λ n. all-weaken is_digit (is_not 58) digit_colon (show_digits n) (show_digits-all n))

has_dot : (a b c d : ℕ) → has_char 46 (mapped_dotted a b c d) ≡ true
unfolding has_char join_with
has_dot a b c d = has_char-append 46 (show_digits a) _

cut_last-mapped :
    (t : Text)
    → all (is_not 58) t ≡ true
    → cut_last 58 (mapped_prefix ++ t) ≡ some (mapped_prefix, t)
unfolding cut_last
cut_last-mapped t h = rw (cut_last-absent 58 t h, cut_last) refl

quad_hextets-bytes :
    (a b c d : ℕ)
    → a < 256
    → b < 256
    → c < 256
    → d < 256
    → quad_hextets (a ∷ b ∷ c ∷ d ∷ []) ≡ some (show_hex (a * 256 + b), show_hex (c * 256 + d))
unfolding quad_hextets
quad_hextets-bytes a b c d ha hb hc hd =
    ap (λ (t : Bool). if t then some (show_hex (a * 256 + b), show_hex (c * 256 + d)) else none)
      (all_bytes a b c d ha hb hc hd)
  where
    all_bytes :
        (a b c d : ℕ)
        → a < 256
        → b < 256
        → c < 256
        → d < 256
        → leb a 255 && leb b 255 && leb c 255 && leb d 255 ≡ true
    all_bytes a b c d e f g h = ground arith

without_quad-absent : (s : Text) → has_char 46 s ≡ false → without_quad s ≡ some s
unfolding without_quad
without_quad-absent s h = rw h refl

without_quad-quad :
    (s front quad hi lo : Text) (ns : List ℕ)
    → has_char 46 s ≡ true
    → cut_last 58 s ≡ some (front, quad)
    → numbers_of (split_on 46 quad) ≡ some ns
    → quad_hextets ns ≡ some (hi, lo)
    → without_quad s ≡ some (front ++ (hi ++ 58 ∷ lo))
unfolding without_quad
without_quad-quad s front quad hi lo ns dot cut numbers hextets =
    rw dot (rw (cut, without_quad) (rw (numbers, without_quad) (rw (hextets, without_quad) refl)))

module _ (a b c d : ℕ) (a_byte : a < 256) (b_byte : b < 256) (c_byte : c < 256)
    (d_byte : d < 256) where
  abbrev hi : Text
  hi = show_hex (a * 256 + b)

  abbrev lo : Text
  lo = show_hex (c * 256 + d)

  bytes_of_groups-mapped :
      bytes_of_groups (
        (48 ∷ [])
        ∷ (48 ∷ [])
        ∷ (48 ∷ [])
        ∷ (48 ∷ [])
        ∷ (48 ∷ [])
        ∷ (102 ∷ 102 ∷ 102 ∷ 102 ∷ [])
        ∷ hi
        ∷ lo
        ∷ [])
      ≡ some (mapped_bytes a b c d)
  unfolding bytes_of_groups read_hex_from
  bytes_of_groups-mapped =
      rw
        (bytes_of_groups-pair a b a_byte b_byte (lo ∷ []) (c ∷ d ∷ [])
          (bytes_of_groups-pair c d c_byte d_byte [] [] no_groups))
        refl

  -- The rest of the parse, once an embedded IPv4 address is written as two hextets.
  ipv6_to_bytes-hextets :
      (ip : Text)
      → without_quad (before_first 37 (map lower ip)) ≡ some (mapped_hex a b c d)
      → ipv6_to_bytes ip ≡ some (mapped_bytes a b c d)
  unfolding ipv6_to_bytes
  ipv6_to_bytes-hextets ip hextets =
      rw (hextets, ipv6_to_bytes)
        (rw
          (groups_of-mapped hi lo (all-show_hex (a * 256 + b)) (all-show_hex (c * 256 + d))
            (show_hex_nonempty (a * 256 + b)) (show_hex_nonempty (c * 256 + d)))
          bytes_of_groups-mapped)

  pub ipv6_to_bytes-mapped_hex : ipv6_to_bytes (mapped_hex a b c d) ≡ some (mapped_bytes a b c d)
  ipv6_to_bytes-mapped_hex =
      let plain : all is_plain (mapped_hex a b c d) ≡ true =
        all-append is_plain mapped_prefix (hi ++ 58 ∷ lo) refl
          (all-append is_plain hi (58 ∷ lo) (plain_hex (a * 256 + b)) (plain_hex (c * 256 + d))) in
      let no_dot : all (is_not 46) (mapped_hex a b c d) ≡ true =
        all-append (is_not 46) mapped_prefix (hi ++ 58 ∷ lo) refl
          (all-append (is_not 46) hi (58 ∷ lo) (no_dots (a * 256 + b)) (no_dots (c * 256 + d))) in
      ipv6_to_bytes-hextets (mapped_hex a b c d) (
        ap (λ t. without_quad (before_first 37 t)) (map-lower (mapped_hex a b c d) plain)
        ∙ ap without_quad (before_first-plain (mapped_hex a b c d) plain)
        ∙ without_quad-absent (mapped_hex a b c d) (has_char-absent 46 (mapped_hex a b c d) no_dot))

  without_quad-dotted : without_quad (mapped_dotted a b c d) ≡ some (mapped_hex a b c d)
  without_quad-dotted =
      without_quad-quad (mapped_dotted a b c d) mapped_prefix (dotted a b c d) hi lo
        (a ∷ b ∷ c ∷ d ∷ []) (has_dot a b c d)
        (cut_last-mapped (dotted a b c d) (no_colons a b c d))
        (ap numbers_of (split_on-dotted a b c d) ∙ numbers_of-shown a b c d)
        (quad_hextets-bytes a b c d a_byte b_byte c_byte d_byte)

  pub ipv6_to_bytes-mapped_dotted :
      ipv6_to_bytes (mapped_dotted a b c d) ≡ some (mapped_bytes a b c d)
  ipv6_to_bytes-mapped_dotted =
      let plain : all is_plain (mapped_dotted a b c d) ≡ true =
        all-append is_plain mapped_prefix (dotted a b c d) refl
          (all-dotted is_plain refl plain_digits a b c d) in
      ipv6_to_bytes-hextets (mapped_dotted a b c d) (
        ap (λ t. without_quad (before_first 37 t)) (map-lower (mapped_dotted a b c d) plain)
        ∙ ap without_quad (before_first-plain (mapped_dotted a b c d) plain)
        ∙ without_quad-dotted)
