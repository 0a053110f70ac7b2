-- ===== src/Idempotency/Canonical.antt =====
-- packages/idempotency/src/index.ts: `stableStringify` and `computeRequestHash`, for payloads that are
-- JSON values. The text of a number is that which `JSON.stringify` gives it, and the digest is a
-- parameter.
pub mod Order
pub mod SamePayload
pub mod SameRequest
pub mod Tests
use fluvia.Base.{
  ℕ, ◌+◌, ◌/◌, ◌%◌, ◌==◌, Bool, true, false, ◌&&◌, ◌||◌, List, [], ◌∷◌, ◌++◌, map, if◌then◌else◌,
  leb, ltb,
}
use fluvia.Base.Digits.{hex_digit}
use fluvia.Base.Text.{Text, text_less, codes, join_with}

-- A field may be `undefined`.
mutual
  pub data Json : Type 0 where
    null undefined : Json
    boolean : Bool → Json
    number : Text → Json
    string : Text → Json
    array : Items → Json
    object : Fields → Json

  pub data Items : Type 0 where
    no_items : Items
    item : Json → Items → Items

  pub data Fields : Type 0 where
    no_fields : Fields
    field : Text → Json → Fields → Fields

abbrev is_high : ℕ → Bool
is_high c = leb 55296 c && leb c 56319

abbrev is_low : ℕ → Bool
is_low c = leb 56320 c && leb c 57343

abbrev hex_escape : ℕ → Text
hex_escape c =
    92
    ∷ 117
    ∷ hex_digit (c / 4096)
    ∷ hex_digit (c / 256 % 16)
    ∷ hex_digit (c / 16 % 16)
    ∷ hex_digit (c % 16)
    ∷ []

-- One code unit that is not half of a pair.
unfoldable pub escape_unit : ℕ → Text
escape_unit c =
    if c == 34 || c == 92
    then 92 ∷ c ∷ []
    else if c == 8
    then codes "\\b"
    else if c == 9
    then codes "\\t"
    else if c == 10
    then codes "\\n"
    else if c == 12
    then codes "\\f"
    else if c == 13
    then codes "\\r"
    else if ltb c 32 || is_high c || is_low c
    then hex_escape c
    else c ∷ []

unfoldable pub escape : Text → Text
unfolding escape_unit
escape [] = []
escape (c ∷ []) = escape_unit c
escape (c ∷ (d ∷ cs)) =
    let after_pair = escape cs in
    let rest = escape (d ∷ cs) in
    if is_high c && is_low d then c ∷ d ∷ after_pair else escape_unit c ++ rest

-- `JSON.stringify` of a text.
unfoldable pub quote : Text → Text
unfolding escape
quote t = 34 ∷ (escape t ++ 34 ∷ [])

-- `.sort(([a], [b]) => ...)` is stable: an entry goes in front of the first one that it does not follow.
unfoldable pub insert_entry_text : Text × Text → List (Text × Text) → List (Text × Text)
insert_entry_text p [] = p ∷ []
insert_entry_text p (q ∷ qs) =
    let rest = insert_entry_text p qs in if text_less q.0 p.0 then q ∷ rest else p ∷ q ∷ qs

unfoldable pub sort_entries : List (Text × Text) → List (Text × Text)
unfolding insert_entry_text
sort_entries [] = []
sort_entries (p ∷ ps) = insert_entry_text p (sort_entries ps)

abbrev pub entry_text : Text × Text → Text
entry_text (k, t) = quote k ++ 58 ∷ t

abbrev pub object_text : List (Text × Text) → Text
object_text entries = codes "{" ++ (join_with 44 (map entry_text entries) ++ codes "}")

abbrev pub array_text : List Text → Text
array_text texts = codes "[" ++ (join_with 44 texts ++ codes "]")

abbrev pub is_undefined : Json → Bool
is_undefined undefined = true
is_undefined _ = false

-- `stableStringify`. The text of a field is made before the sort, which reads the keys only.
unfoldable mutual
  unfolding quote join_with sort_entries

  pub stable_stringify : Json → Text
  stable_stringify null = codes "null"
  stable_stringify undefined = codes "null"
  stable_stringify (boolean true) = codes "true"
  stable_stringify (boolean false) = codes "false"
  stable_stringify (number t) = t
  stable_stringify (string t) = quote t
  stable_stringify (array xs) = array_text (item_texts xs)
  stable_stringify (object fs) = object_text (sort_entries (entries_of fs))

  pub item_texts : Items → List Text
  item_texts no_items = []
  item_texts (item v xs) = stable_stringify v ∷ item_texts xs

  pub entries_of : Fields → List (Text × Text)
  entries_of no_fields = []
  entries_of (field k v fs) =
      let rest = entries_of fs in
      let here : Text × Text = (k, stable_stringify v) in
      if is_undefined v then rest else here ∷ rest

-- `computeRequestHash`
unfoldable pub compute_request_hash : (Text → Text) → Json → Text
unfolding stable_stringify
compute_request_hash sha256 payload = sha256 (stable_stringify payload)
