-- ===== src/Idempotency/Canonical/SamePayload.antt =====
-- Payloads that are the same up to the order of their fields.
use fluvia.Base.{◌≡◌, refl, ap, ap₂, ◌∙◌, Bool, true, false, List, ◌∷◌, if◌then◌else◌}
use fluvia.Base.Text.{Text, text_eq}
use fluvia.Idempotency.Canonical.{
  Json, array, object, Items, no_items, item, Fields, no_fields, field, insert_entry_text,
  sort_entries, object_text, array_text, is_undefined, stable_stringify, item_texts, entries_of,
  compute_request_hash,
}
use fluvia.Idempotency.Canonical.Order.{insert_entry_text-swap}

-- The same payload: fields of different keys change places, and fields without a value come and go, at
-- any depth.
mutual
  pub data Same : Json → Json → Type 0 where
    same : {v : Json} → Same v v
    arrays : {xs ys : Items} → SameItems xs ys → Same (array xs) (array ys)
    objects : {fs gs : Fields} → SameFields fs gs → Same (object fs) (object gs)
    same_through : {u v w : Json} → Same u v → Same v w → Same u w

  pub data SameItems : Items → Items → Type 0 where
    no_more : SameItems no_items no_items
    items :
        {v w : Json} {xs ys : Items}
        → Same v w
        → SameItems xs ys
        → SameItems (item v xs) (item w ys)

  pub data SameFields : Fields → Fields → Type 0 where
    ended : SameFields no_fields no_fields
    fields :
        {k : Text} {v w : Json} {fs gs : Fields}
        → Same v w
        → SameFields fs gs
        → SameFields (field k v fs) (field k w gs)
    swapped :
        {k l : Text} {v w : Json} {fs : Fields}
        → text_eq k l ≡ false
        → SameFields (field k v (field l w fs)) (field l w (field k v fs))
    left_out : {k : Text} {fs : Fields} → SameFields (field k Json.undefined fs) fs
    put_in : {k : Text} {fs : Fields} → SameFields fs (field k Json.undefined fs)
    fields_through : {fs gs hs : Fields} → SameFields fs gs → SameFields gs hs → SameFields fs hs

is_undefined-Same : {v w : Json} → Same v w → is_undefined v ≡ is_undefined w
is_undefined-Same same = refl
is_undefined-Same (arrays p) = refl
is_undefined-Same (objects p) = refl
is_undefined-Same (same_through p q) = is_undefined-Same p ∙ is_undefined-Same q

-- A field, put in front of the entries of the others.
abbrev put : Bool → Text × Text → List (Text × Text) → List (Text × Text)
put absent p entries = if absent then entries else p ∷ entries

sort-put :
    (absent : Bool) (p : Text × Text) (xs ys : List (Text × Text))
    → sort_entries xs ≡ sort_entries ys
    → sort_entries (put absent p xs) ≡ sort_entries (put absent p ys)
unfolding sort_entries
sort-put true p xs ys h = h
sort-put false p xs ys h = ap (insert_entry_text p) h

sort-put_swap :
    (a b : Bool) (p q : Text × Text) (xs : List (Text × Text))
    → text_eq p.0 q.0 ≡ false
    → sort_entries (put a p (put b q xs)) ≡ sort_entries (put b q (put a p xs))
unfolding sort_entries
sort-put_swap true b p q xs h = refl
sort-put_swap false true p q xs h = refl
sort-put_swap false false p q xs h = insert_entry_text-swap p q (sort_entries xs) h

mutual
  unfolding stable_stringify

  stringify-Same : {v w : Json} → Same v w → stable_stringify v ≡ stable_stringify w
  stringify-Same same = refl
  stringify-Same (arrays p) = ap array_text (item_texts-same p)
  stringify-Same (objects p) = ap object_text (entries_of-same p)
  stringify-Same (same_through p q) = stringify-Same p ∙ stringify-Same q

  item_texts-same : {xs ys : Items} → SameItems xs ys → item_texts xs ≡ item_texts ys
  item_texts-same no_more = refl
  item_texts-same (items p ps) = ap₂ (λ t ts. t ∷ ts) (stringify-Same p) (item_texts-same ps)

  entries_of-same :
      {fs gs : Fields}
      → SameFields fs gs
      → sort_entries (entries_of fs) ≡ sort_entries (entries_of gs)
  entries_of-same ended = refl
  entries_of-same (fields {k} {v} {w} {fs} {gs} p ps) =
      sort-put (is_undefined v) (k, stable_stringify v) (entries_of fs) (entries_of gs)
        (entries_of-same ps)
      ∙ ap₂ (λ a t. sort_entries (put a (k, t) (entries_of gs))) (is_undefined-Same p)
          (stringify-Same p)
  entries_of-same (swapped {k} {l} {v} {w} {fs} h) =
      sort-put_swap (is_undefined v) (is_undefined w) (k, stable_stringify v)
        (l, stable_stringify w) (entries_of fs) h
  entries_of-same left_out = refl
  entries_of-same put_in = refl
  entries_of-same (fields_through p q) = entries_of-same p ∙ entries_of-same q

-- Payloads that are the same up to the order of their fields and up to fields without a value, at any
-- depth, have the same hash.
pub compute_request_hash-Same :
    (sha256 : Text → Text) {v w : Json}
    → Same v w
    → compute_request_hash sha256 v ≡ compute_request_hash sha256 w
unfolding compute_request_hash
compute_request_hash-Same sha256 p = ap sha256 (stringify-Same p)
