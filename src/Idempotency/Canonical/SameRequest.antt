-- ===== src/Idempotency/Canonical/SameRequest.antt =====
-- Requests whose payloads are the same up to the order of their fields.
use fluvia.Base.{◌≡◌, refl, sym, ap, ◌∙◌, true, List, ok, Option, none}
use fluvia.Base.Text.{Text, text_eq, text_eq_refl}
use fluvia.Idempotency.{
  ExecuteIdempotentInput, ExecuteIdempotentResult, Store, ClaimFailure, find_row, execute,
}
use fluvia.Idempotency.Settled.{KeepsKeys}
use fluvia.Idempotency.Once.{AllKeepKeys, run_all, execute-once}
use fluvia.Idempotency.Canonical.{Json, compute_request_hash}
use fluvia.Idempotency.Canonical.SamePayload.{Same, compute_request_hash-Same}

module _ {S B : Type 0} where
  -- Once a request with a new key has succeeded, whatever requests have followed, a request with the
  -- same endpoint and key whose payload is the same up to the order of its fields and up to fields
  -- without a value, at any depth, gets the first response again, marked as replayed, and changes
  -- nothing: it is not refused for reuse of the key.
  pub execute-Same :
      (sha256 : Text → Text) (payload payload' : Json) (input : ExecuteIdempotentInput S B)
      (keeps : KeepsKeys input) (store : Store S B) (result : ExecuteIdempotentResult B)
      (requests : List (Option ClaimFailure × ExecuteIdempotentInput S B))
      (again : ExecuteIdempotentInput S B)
      → Same payload payload'
      → input.request_hash ≡ compute_request_hash sha256 payload
      → again.request_hash ≡ compute_request_hash sha256 payload'
      → find_row input.endpoint input.key store.keys ≡ none
      → (execute none input store).0 ≡ ok result
      → AllKeepKeys requests
      → again.endpoint ≡ input.endpoint
      → again.key ≡ input.key
      → execute none again (run_all requests (execute none input store).1) ≡ (
        ok (record { response = result.response; replayed = true }),
        run_all requests (execute none input store).1,
      )
  execute-Same sha256 payload payload' input keeps store result requests again alike hashed hashed'
        fresh first keep se sk =
      let same_hash : input.request_hash ≡ again.request_hash =
        hashed ∙ compute_request_hash-Same sha256 alike ∙ sym hashed' in
      let matches : text_eq input.request_hash again.request_hash ≡ true =
        ap (text_eq input.request_hash) (sym same_hash) ∙ text_eq_refl input.request_hash in
      execute-once input keeps store result requests again fresh first keep se sk ∙ rw matches refl
