-- ===== src/Webhooks/Ssrf/Params.antt =====
-- packages/webhooks/src/ssrf.ts: `isSensitiveParamName` and `findSensitiveQueryParam`. What `toLowerCase`
-- makes of a character that is not ASCII is a parameter.
use fluvia.Base.{
  ℕ, ◌+◌, ◌==◌, Bool, true, false, ◌&&◌, ◌||◌, List, [], ◌∷◌, ◌++◌, any, map, keep, Option, none,
  some, if◌then◌else◌, leb, ltb, length,
}
use fluvia.Base.Digits.{is_digit}
use fluvia.Base.Text.{Text, text_eq, codes}
use fluvia.Webhooks.Ssrf.Split.{onto_first}

abbrev pub is_lower : ℕ → Bool
is_lower c = leb 97 c && leb c 122

abbrev pub is_upper : ℕ → Bool
is_upper c = leb 65 c && leb c 90

-- `/([a-z0-9])([A-Z])/gu` becomes `$1 $2`.
unfoldable pub split_camel : Text → Text
split_camel [] = []
split_camel (c ∷ []) = c ∷ []
split_camel (c ∷ (d ∷ cs)) =
    let rest = split_camel (d ∷ cs) in
    if (is_lower c || is_digit c) && is_upper d then c ∷ 32 ∷ rest else c ∷ rest

unfoldable pub lower_case : (ℕ → Text) → Text → Text
lower_case other [] = []
lower_case other (c ∷ cs) =
    let rest = lower_case other cs in
    if is_upper c then (c + 32) ∷ rest else if ltb c 128 then c ∷ rest else other c ++ rest

-- `.split(/[^a-z0-9]+/u).filter(Boolean)`
unfoldable pub parts_of : Text → List Text
parts_of [] = [] ∷ []
parts_of (c ∷ cs) =
    let rest = parts_of cs in if is_lower c || is_digit c then onto_first c rest else [] ∷ rest

abbrev pub is_nonempty : Text → Bool
is_nonempty t = ltb 0 (length t)

unfoldable pub segments : (ℕ → Text) → Text → List Text
unfolding split_camel lower_case parts_of
segments other name = keep is_nonempty (parts_of (lower_case other (split_camel name)))

unfoldable pub starts_with : Text → Text → Bool
starts_with [] t = true
starts_with (c ∷ cs) [] = false
starts_with (c ∷ cs) (d ∷ ds) = (c == d) && starts_with cs ds

-- `text.includes(part)`
unfoldable pub has_part : Text → Text → Bool
unfolding starts_with
has_part part [] = starts_with part []
has_part part (c ∷ cs) = starts_with part (c ∷ cs) || has_part part cs

abbrev pub concat : List Text → Text
concat [] = []
concat (t ∷ ts) = t ++ concat ts

-- The two lists of words.
pub record Denylist : Type 0 where
  pub sensitive_segments : List Text
  pub sensitive_substrings : List Text

-- `SENSITIVE_QUERY_SEGMENTS` and `SENSITIVE_COLLAPSED_SUBSTRINGS`
unfoldable pub denylist : Denylist
denylist = record {
  sensitive_segments =
      codes "token"
      ∷ codes "secret"
      ∷ codes "secrets"
      ∷ codes "password"
      ∷ codes "passwd"
      ∷ codes "pwd"
      ∷ codes "auth"
      ∷ codes "authorization"
      ∷ codes "signature"
      ∷ codes "sig"
      ∷ codes "key"
      ∷ codes "keys"
      ∷ codes "apikey"
      ∷ codes "credential"
      ∷ codes "credentials"
      ∷ codes "bearer"
      ∷ [];
  sensitive_substrings =
      codes "token"
      ∷ codes "secret"
      ∷ codes "password"
      ∷ codes "passwd"
      ∷ codes "credential"
      ∷ codes "signature"
      ∷ codes "apikey"
      ∷ codes "accesskey"
      ∷ [];
}

-- `isSensitiveParamName`
unfoldable pub is_sensitive_param_name : (ℕ → Text) → Denylist → Text → Bool
unfolding segments has_part
is_sensitive_param_name other words name =
    let parts = segments other name in
    any (λ s. any (text_eq s) words.sensitive_segments) parts
    || any (λ part. has_part part (concat parts)) words.sensitive_substrings

-- `.split(/[&;]/u)`
unfoldable pub split_query : Text → List Text
split_query [] = [] ∷ []
split_query (c ∷ cs) =
    let rest = split_query cs in if (c == 38) || (c == 59) then [] ∷ rest else onto_first c rest

unfoldable pub before_equals : Text → Text
before_equals [] = []
before_equals (c ∷ cs) = let rest = before_equals cs in if c == 61 then [] else c ∷ rest

abbrev pub plus_to_space : ℕ → ℕ
plus_to_space c = if c == 43 then 32 else c

-- `.replace(/^\?/u, '')`
abbrev pub without_mark : Text → Text
without_mark [] = []
without_mark (c ∷ cs) = if c == 63 then cs else c ∷ cs

-- The loop over the raw parts: `none` of `decode` is a percent encoding that is broken.
unfoldable pub find_in_parts : (Text → Option Text) → (Text → Bool) → List Text → Option Text
unfolding before_equals
find_in_parts decode sensitive [] = none
find_in_parts decode sensitive (part ∷ parts) =
    let rest = find_in_parts decode sensitive parts in
    let raw = before_equals part in
    let here : Option Text = elim (decode (map plus_to_space raw)) [
      | none ↦ some raw
      | some name ↦ if sensitive name then some name else rest
    ] in
    if is_nonempty part then here else rest

unfoldable pub find_name : (Text → Bool) → List Text → Option Text
find_name sensitive [] = none
find_name sensitive (name ∷ names) =
    let rest = find_name sensitive names in if sensitive name then some name else rest

-- `findSensitiveQueryParam`, for the names of `searchParams` and the text of `search`.
unfoldable pub find_sensitive_query_param :
    (Text → Option Text) → (Text → Bool) → List Text → Text → Option Text
unfolding find_name find_in_parts split_query
find_sensitive_query_param decode sensitive names search = elim (find_name sensitive names) [
  | some name ↦ some name
  | none ↦ find_in_parts decode sensitive (split_query (without_mark search))
]
