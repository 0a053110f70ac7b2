-- ===== src/Webhooks/Ssrf/Address.antt =====
-- packages/webhooks/src/ssrf.ts: `ipv6ToBytes` and `isPrivateIp`.
use fluvia.Base.{
  ℕ, zero, suc, ◌+◌, ◌-◌, ◌*◌, ◌/◌, ◌%◌, ◌==◌, Bool, true, ◌&&◌, ◌||◌, not, List, [], ◌∷◌, ◌++◌,
  all, map, take, drop, length, replicate, Option, none, some, if◌then◌else◌, leb, ltb,
}
use fluvia.Base.Digits.{show_digits}
use fluvia.Base.Text.{Text, join_with}
use fluvia.Webhooks.Ssrf.Split.{
  split_on, split_double, show_hex, is_hex, read_hex_from, number_of, before_first, has_char,
  cut_last,
}

-- `toLowerCase` of the characters that an address may have.
abbrev pub lower : ℕ → ℕ
lower c = if leb 65 c && leb c 90 then c + 32 else c

-- `map(Number)`, of parts that are runs of digits, as those of an address that `isIP` knows are.
unfoldable pub numbers_of : List Text → Option (List ℕ)
unfolding number_of
numbers_of [] = some []
numbers_of (t ∷ ts) = elim (number_of t) [
  | none ↦ none
  | some n ↦ elim (numbers_of ts) [ none ↦ none | some ns ↦ some (n ∷ ns) ]
]

-- The two hextets of a dotted quad; `none` where it is no quad of bytes.
unfoldable pub quad_hextets : List ℕ → Option (Text × Text)
quad_hextets (a ∷ (b ∷ (c ∷ (d ∷ [])))) =
    if leb a 255 && leb b 255 && leb c 255 && leb d 255
    then some (show_hex (a * 256 + b), show_hex (c * 256 + d))
    else none
quad_hextets _ = none

-- The address with its embedded IPv4 written as hextets.
unfoldable pub without_quad : Text → Option Text
unfolding has_char cut_last split_on numbers_of quad_hextets
without_quad s =
    if has_char 46 s
    then elim (cut_last 58 s) [
      | none ↦ none
      | some (front, quad) ↦ elim (numbers_of (split_on 46 quad)) [
        | none ↦ none
        | some ns ↦ elim (quad_hextets ns) [
          | none ↦ none
          | some (hi, lo) ↦ some (front ++ (hi ++ 58 ∷ lo))
        ]
      ]
    ]
    else some s

abbrev pub groups_of_half : Text → List Text
groups_of_half [] = []
groups_of_half (c ∷ cs) = split_on 58 (c ∷ cs)

-- The groups, with the zeros of `::` filled in.
unfoldable pub groups_of : List Text → Option (List Text)
groups_of [] = none
groups_of (head ∷ []) = some (groups_of_half head)
groups_of (head ∷ (tail ∷ [])) =
    let h = groups_of_half head in
    let t = groups_of_half tail in
    if leb (length h + length t + 1) 8
    then some (h ++ (replicate (8 - length h - length t) (48 ∷ []) ++ t))
    else none
groups_of (a ∷ (b ∷ (c ∷ rest))) = none

-- `/^[0-9a-f]{1,4}$/`
abbrev pub is_group : Text → Bool
is_group g = all is_hex g && ltb 0 (length g) && leb (length g) 4

unfoldable pub bytes_of_groups : List Text → Option (List ℕ)
bytes_of_groups [] = some []
bytes_of_groups (g ∷ gs) =
    let v = read_hex_from 0 g in
    let rest : Option (List ℕ) = elim (bytes_of_groups gs) [
      | none ↦ none
      | some bs ↦ some ((v / 256) ∷ (v % 256) ∷ bs)
    ] in
    if is_group g then rest else none

-- `ipv6ToBytes`
unfoldable pub ipv6_to_bytes : Text → Option (List ℕ)
unfolding before_first without_quad split_double groups_of bytes_of_groups
ipv6_to_bytes ip = elim (without_quad (before_first 37 (map lower ip))) [
  | none ↦ none
  | some s ↦ elim (groups_of (split_double s)) [
    | none ↦ none
    | some gs ↦ if length gs == 8 then bytes_of_groups gs else none
  ]
]

-- The first two numbers of a dotted quad.
unfoldable pub is_private_quad : ℕ → ℕ → Bool
is_private_quad a b =
    (a == 0)
    || ((a == 10)
        || ((a == 127)
            || (((a == 100) && leb 64 b && leb b 127)
                || (((a == 169) && (b == 254))
                    || (((a == 172) && leb 16 b && leb b 31)
                        || (((a == 192) && (b == 168)) || leb 224 a))))))

-- `const [a, b] = ...` and the tests on them. `isIP` answers 4 for quads of numbers only, so that the
-- first three cases do not come up.
abbrev pub private_numbers : Option (List ℕ) → Bool
private_numbers none = true
private_numbers (some []) = true
private_numbers (some (a ∷ [])) = is_private_quad a 0
private_numbers (some (a ∷ (b ∷ more))) = is_private_quad a b

-- The branch of IPv4.
unfoldable pub is_private_v4 : Text → Bool
unfolding split_on numbers_of is_private_quad
is_private_v4 ip = private_numbers (numbers_of (split_on 46 ip))

abbrev pub is_zero_byte : ℕ → Bool
is_zero_byte b = b == 0

-- `b.slice(12).join('.')`
abbrev pub embedded : List ℕ → Text
embedded bytes = join_with 46 (map show_digits (drop 12 bytes))

abbrev pub byte_at : ℕ → List ℕ → ℕ
byte_at n [] = 0
byte_at zero (b ∷ bs) = b
byte_at (suc n) (b ∷ bs) = byte_at n bs

-- The branch of IPv6, on the bytes: `again` is `isPrivateIp` of the embedded address.
unfoldable pub is_private_bytes : (Text → Bool) → List ℕ → Bool
is_private_bytes again b =
    let z10 = all is_zero_byte (take 10 b) in
    if z10 && (byte_at 10 b == 255) && (byte_at 11 b == 255)
    then again (embedded b)
    else if all is_zero_byte b
    then true
    else if all is_zero_byte (take 15 b) && (byte_at 15 b == 1)
    then true
    else if z10
        && (byte_at 10 b == 0)
        && (byte_at 11 b == 0)
        && not ((byte_at 12 b == 0) && (byte_at 13 b == 0) && (byte_at 14 b == 0))
    then again (embedded b)
    else if byte_at 0 b / 2 == 126
    then true
    else if (byte_at 0 b == 254) && (byte_at 1 b / 64 == 2)
    then true
    else byte_at 0 b == 255

abbrev pub private_v6 : (Text → Bool) → Option (List ℕ) → Bool
private_v6 again none = true
private_v6 again (some b) = is_private_bytes again b

-- `isPrivateIp` calls itself on an embedded IPv4 address: one level suffices, where `isIP` knows it.
unfoldable pub is_private_from : ℕ → (Text → ℕ) → Text → Bool
unfolding is_private_v4 ipv6_to_bytes is_private_bytes
is_private_from zero is_ip ip = true
is_private_from (suc depth) is_ip ip =
    let again = is_private_from depth is_ip in
    if is_ip ip == 4
    then is_private_v4 ip
    else if is_ip ip == 6
    then private_v6 again (ipv6_to_bytes ip)
    else true

-- `isPrivateIp`
unfoldable pub is_private_ip : (Text → ℕ) → Text → Bool
unfolding is_private_from
is_private_ip is_ip ip = is_private_from 2 is_ip ip
