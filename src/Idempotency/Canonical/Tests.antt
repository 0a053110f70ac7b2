-- ===== src/Idempotency/Canonical/Tests.antt =====
-- packages/idempotency: examples of payloads.
use fluvia.Base.{ℕ, ◌≡◌, refl, true, false, [], ◌∷◌, ok, none}
use fluvia.Base.Text.{Text, text_eq, text_less, codes, join_with}
use fluvia.Idempotency.{ExecuteIdempotentInput, find_row, first_run, transaction, execute}
use fluvia.Idempotency.Once.{run_all}
use fluvia.Idempotency.Tests.{
  request, empty_store, first_result, between, request-KeepsKeys, between-AllKeepKeys,
  first_unstored,
}
use fluvia.Idempotency.Canonical.{
  Json, null, undefined, boolean, number, string, array, object, no_items, item, no_fields, field,
  escape_unit, escape, quote, insert_entry_text, sort_entries, stable_stringify,
  compute_request_hash,
}
use fluvia.Idempotency.Canonical.SamePayload.{
  Same, same, objects, ended, fields, swapped, left_out, fields_through,
}
use fluvia.Idempotency.Canonical.SameRequest.{execute-Same}

-- `{"b":1,"a":{"y":null,"x":undefined}}` and `{"a":{"y":null},"b":1}`
abbrev written : Json
written = object (
    field (codes "b") (number (codes "1")) (
      field (codes "a") (object (field (codes "y") null (field (codes "x") undefined no_fields)))
        no_fields))

abbrev sorted : Json
sorted = object (
    field (codes "a") (object (field (codes "y") null no_fields))
      (field (codes "b") (number (codes "1")) no_fields))

different_keys : text_eq (codes "b") (codes "a") ≡ false
unfolding text_eq
different_keys = refl

written-Same : Same written sorted
written-Same = objects (
    fields_through (swapped different_keys)
      (fields (objects (fields same left_out)) (fields same ended)))

abbrev plain : Text → Text
plain t = t

abbrev first : ExecuteIdempotentInput ℕ ℕ
first = request (1 ∷ []) (compute_request_hash plain written)

abbrev again : ExecuteIdempotentInput ℕ ℕ
again = request (1 ∷ []) (compute_request_hash plain sorted)

first_answered : (execute none first empty_store).0 ≡ ok first_result
unfolding execute transaction first_run find_row
first_answered = refl

execute-Same_example : execute none again (run_all between (execute none first empty_store).1) ≡ (
  ok (record { response = first_result.response; replayed = true }),
  run_all between (execute none first empty_store).1,
)
execute-Same_example =
    execute-Same plain written sorted first
      (request-KeepsKeys (1 ∷ []) (compute_request_hash plain written)) empty_store first_result
      between again written-Same refl refl first_unstored first_answered between-AllKeepKeys refl
      refl

written_text : stable_stringify written ≡ codes "{\"a\":{\"y\":null},\"b\":1}"
unfolding stable_stringify quote escape escape_unit sort_entries insert_entry_text text_less
    join_with
written_text = refl

-- A quote, a line end, a control character and half of a pair are escaped; a whole pair is not.
escaped :
    quote (97 ∷ 34 ∷ 10 ∷ 1 ∷ 55357 ∷ 56832 ∷ 55357 ∷ [])
    ≡ 34 ∷ 97 ∷ 92 ∷ 34 ∷ 92 ∷ 110 ∷ 92 ∷ 117 ∷ 48 ∷ 48 ∷ 48 ∷ 49 ∷ 55357 ∷ 56832 ∷ 92 ∷ 117 ∷ 100
      ∷ 56 ∷ 51 ∷ 100 ∷ 34 ∷ []
unfolding quote escape escape_unit
escaped = refl

list_text :
    stable_stringify (array (item (boolean true) (item undefined (item (string []) no_items))))
    ≡ codes "[true,null,\"\"]"
unfolding stable_stringify quote escape join_with
list_text = refl
