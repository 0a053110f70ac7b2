-- ===== src/Webhooks/Ssrf/Mapped.antt =====
-- The verdict on an IPv4 address, however it is written.
use fluvia.Base.{
  ℕ, suc, ◌+◌, ◌*◌, ◌==◌, ◌<◌, ◌≡◌, refl, sym, ap, ap₂, ◌∙◌, Bool, true, false, ◌&&◌, ◌||◌, List,
  [], ◌∷◌, any, some, leb, ltb, arith,
}
use fluvia.Base.Text.{Text}
use fluvia.Webhooks.Ssrf.Address.{
  is_private_quad, is_private_bytes, private_v6, is_private_from, is_private_ip, ipv6_to_bytes,
}
use fluvia.Webhooks.Ssrf.Dotted.{dotted, is_private_v4-dotted}
use fluvia.Webhooks.Ssrf.Spelled.{
  mapped_bytes, mapped_dotted, mapped_hex, ipv6_to_bytes-mapped_dotted, ipv6_to_bytes-mapped_hex,
}

is_private_ip-dotted :
    (depth : ℕ) (is_ip : Text → ℕ) (a b c d : ℕ)
    → is_ip (dotted a b c d) ≡ 4
    → is_private_from (suc depth) is_ip (dotted a b c d) ≡ is_private_quad a b
unfolding is_private_from
is_private_ip-dotted depth is_ip a b c d v4 =
    rw (v4, is_private_from) (is_private_v4-dotted a b c d)

is_private_bytes-mapped :
    (again : Text → Bool) (a b c d : ℕ)
    → is_private_bytes again (mapped_bytes a b c d) ≡ again (dotted a b c d)
unfolding is_private_bytes
is_private_bytes-mapped again a b c d = refl

is_private_from-v6 :
    (depth : ℕ) (is_ip : Text → ℕ) (ip : Text) (b : List ℕ)
    → is_ip ip ≡ 6
    → ipv6_to_bytes ip ≡ some b
    → is_private_from (suc depth) is_ip ip ≡ is_private_bytes (is_private_from depth is_ip) b
unfolding is_private_from
is_private_from-v6 depth is_ip ip b v6 bytes =
    rw (v6, is_private_from) refl ∙ ap (private_v6 (is_private_from depth is_ip)) bytes

is_private_ip-mapped :
    (is_ip : Text → ℕ) (ip : Text) (a b c d : ℕ)
    → is_ip ip ≡ 6
    → ipv6_to_bytes ip ≡ some (mapped_bytes a b c d)
    → is_ip (dotted a b c d) ≡ 4
    → is_private_ip is_ip ip ≡ is_private_quad a b
unfolding is_private_ip
is_private_ip-mapped is_ip ip a b c d v6 bytes v4 =
    is_private_from-v6 1 is_ip ip (mapped_bytes a b c d) v6 bytes
    ∙ is_private_bytes-mapped (is_private_from 1 is_ip) a b c d
    ∙ is_private_ip-dotted 0 is_ip a b c d v4

-- An address as a number, and the ranges that are not public, by their first address and their size.
abbrev pub number32 : ℕ → ℕ → ℕ → ℕ → ℕ
number32 a b c d = a * 16777216 + b * 65536 + c * 256 + d

abbrev pub in_range : ℕ → ℕ × ℕ → Bool
in_range n (first, size) = leb first n && ltb n (first + size)

abbrev pub private_ranges : List (ℕ × ℕ)
private_ranges =
    (number32 0 0 0 0, 16777216)
    ∷ (number32 10 0 0 0, 16777216)
    ∷ (number32 127 0 0 0, 16777216)
    ∷ (number32 100 64 0 0, 4194304)
    ∷ (number32 169 254 0 0, 65536)
    ∷ (number32 172 16 0 0, 1048576)
    ∷ (number32 192 168 0 0, 65536)
    ∷ (number32 224 0 0 0, 536870912)
    ∷ []

module _ (a b c d : ℕ) (b_byte : b < 256) (c_byte : c < 256) (d_byte : d < 256) where
  whole_block : (k : ℕ) → in_range (number32 a b c d) (k * 16777216, 16777216) ≡ (a == k)
  whole_block k = ground arith

  shared_block :
      in_range (number32 a b c d) (number32 100 64 0 0, 4194304)
      ≡ (a == 100) && leb 64 b && leb b 127
  shared_block = ground arith

  link_block : in_range (number32 a b c d) (number32 169 254 0 0, 65536) ≡ (a == 169) && (b == 254)
  link_block = ground arith

  middle_block :
      in_range (number32 a b c d) (number32 172 16 0 0, 1048576)
      ≡ (a == 172) && leb 16 b && leb b 31
  middle_block = ground arith

  home_block : in_range (number32 a b c d) (number32 192 168 0 0, 65536) ≡ (a == 192) && (b == 168)
  home_block = ground arith

  last_block : a < 256 → in_range (number32 a b c d) (number32 224 0 0 0, 536870912) ≡ leb 224 a
  last_block a_byte = ground arith

last_or : (x : Bool) → x ≡ x || false
last_or true = refl
last_or false = refl

is_private_quad-ranges :
    (a b c d : ℕ)
    → a < 256
    → b < 256
    → c < 256
    → d < 256
    → is_private_quad a b ≡ any (in_range (number32 a b c d)) private_ranges
unfolding is_private_quad
is_private_quad-ranges a b c d ha hb hc hd =
    ap
      (λ x.
        (a == 0)
        || ((a == 10)
            || ((a == 127)
                || (((a == 100) && leb 64 b && leb b 127)
                    || (((a == 169) && (b == 254))
                        || (((a == 172) && leb 16 b && leb b 31)
                            || (((a == 192) && (b == 168)) || x)))))))
      (last_or (leb 224 a))
    ∙ sym (
        ap₂ ◌||◌ (whole_block a b c d hb hc hd 0) (
          ap₂ ◌||◌ (whole_block a b c d hb hc hd 10) (
            ap₂ ◌||◌ (whole_block a b c d hb hc hd 127) (
              ap₂ ◌||◌ (shared_block a b c d hb hc hd) (
                ap₂ ◌||◌ (link_block a b c d hb hc hd) (
                  ap₂ ◌||◌ (middle_block a b c d hb hc hd) (
                    ap₂ ◌||◌ (home_block a b c d hb hc hd)
                      (ap (λ x. x || false) (last_block a b c d hb hc hd ha)))))))))

-- An IPv4 address is found private exactly where it lies in one of the ranges that are not public,
-- however it is spelled: with its four numbers, as the IPv6 address `::ffff:` with these numbers, or
-- as `::ffff:` with two hextets, where `isIP` knows the three texts.
pub is_private_ip-ranges :
    (is_ip : Text → ℕ) (a b c d : ℕ)
    → a < 256
    → b < 256
    → c < 256
    → d < 256
    → is_ip (dotted a b c d) ≡ 4
    → is_ip (mapped_dotted a b c d) ≡ 6
    → is_ip (mapped_hex a b c d) ≡ 6
    → (is_private_ip is_ip (dotted a b c d) ≡ any (in_range (number32 a b c d)) private_ranges)
      × (is_private_ip is_ip (mapped_dotted a b c d)
          ≡ any (in_range (number32 a b c d)) private_ranges)
      × (is_private_ip is_ip (mapped_hex a b c d)
          ≡ any (in_range (number32 a b c d)) private_ranges)
unfolding is_private_ip
is_private_ip-ranges is_ip a b c d ha hb hc hd v4 dotted_v6 hex_v6 =
    let table = is_private_quad-ranges a b c d ha hb hc hd in
    (
      is_private_ip-dotted 1 is_ip a b c d v4 ∙ table,
      is_private_ip-mapped is_ip (mapped_dotted a b c d) a b c d dotted_v6
            (ipv6_to_bytes-mapped_dotted a b c d ha hb hc hd) v4
          ∙ table,
      is_private_ip-mapped is_ip (mapped_hex a b c d) a b c d hex_v6
            (ipv6_to_bytes-mapped_hex a b c d ha hb hc hd) v4
          ∙ table,
    )
