-- ===== src/Idempotency/Once.antt =====
-- A request takes effect once, whatever other requests come after it.
use fluvia.Base.{
  ◌≡◌, ap, subst, true, List, [], ◌∷◌, ok, err, ok-injective, err-ne-ok, Option, none, Result-cases,
  inl, inr, if◌then◌else◌,
}
use fluvia.Base.Text.{Text, text_eq}
use fluvia.Idempotency.{
  key_reuse, IdempotentResponse, ExecuteIdempotentResult, Store, ExecuteIdempotentInput,
  ClaimFailure, find_row, first_run, transaction, execute,
}
use fluvia.Idempotency.Settled.{
  KeepsKeys, IsSettled, first_run-IsSettled, execute-keeps, execute-settled,
}

module _ {S B : Type 0} where
  -- Requests one after another.
  unfoldable pub run_all :
      List (Option ClaimFailure × ExecuteIdempotentInput S B) → Store S B → Store S B
  run_all [] store = store
  run_all ((failure, input) ∷ rest) store = run_all rest (execute failure input store).1

  -- All the handlers leave the table of the keys alone.
  abbrev pub AllKeepKeys : List (Option ClaimFailure × ExecuteIdempotentInput S B) → Type 0
  AllKeepKeys [] = Unit
  AllKeepKeys ((failure, input) ∷ rest) = KeepsKeys input × AllKeepKeys rest

  run_all-keeps :
      (e k hash : Text) (response : IdempotentResponse B)
      (requests : List (Option ClaimFailure × ExecuteIdempotentInput S B)) (store : Store S B)
      → AllKeepKeys requests
      → IsSettled e k hash response store
      → IsSettled e k hash response (run_all requests store)
  unfolding run_all
  run_all-keeps e k hash response [] store keep settled = settled
  run_all-keeps e k hash response ((failure, input) ∷ rest) store keep settled =
      run_all-keeps e k hash response rest (execute failure input store).1 keep.1
        (execute-keeps e k hash response failure input keep.0 store settled)

  execute-first :
      (input : ExecuteIdempotentInput S B) (keeps : KeepsKeys input) (store : Store S B)
      (result : ExecuteIdempotentResult B)
      → find_row input.endpoint input.key store.keys ≡ none
      → (execute none input store).0 ≡ ok result
      → IsSettled input.endpoint input.key input.request_hash result.response
          (execute none input store).1
  unfolding execute transaction
  execute-first input keeps store result fresh h = elim (Result-cases (first_run input store)) [
    | inr (why, failed) ↦ absurd (err-ne-ok (rw (fresh, failed, execute, transaction) at h))
    | inl ((out, after), ran) ↦
        let same : out ≡ result = ok-injective (rw (fresh, ran, execute, transaction) at h) in
        rw (fresh, ran, execute, transaction)
          (subst (λ r. IsSettled input.endpoint input.key input.request_hash r after)
            (ap (λ (q : ExecuteIdempotentResult B). q.response) same)
            (first_run-IsSettled input keeps store after out fresh ran))
  ]

  -- Once a request with a new key has succeeded, whatever requests have followed, a request with the
  -- same endpoint and key changes nothing: it gets the first response again, marked as replayed,
  -- where its payload has the same hash, and is refused for reuse of the key where not. Its handler
  -- does not matter, so the effect happens once.
  pub execute-once :
      (input : ExecuteIdempotentInput S B) (keeps : KeepsKeys input) (store : Store S B)
      (result : ExecuteIdempotentResult B)
      (requests : List (Option ClaimFailure × ExecuteIdempotentInput S B))
      (again : ExecuteIdempotentInput S B)
      → find_row input.endpoint input.key store.keys ≡ none
      → (execute none input store).0 ≡ ok result
      → AllKeepKeys requests
      → again.endpoint ≡ input.endpoint
      → again.key ≡ input.key
      → execute none again (run_all requests (execute none input store).1) ≡ (
        if text_eq input.request_hash again.request_hash
            then ok (record { response = result.response; replayed = true })
            else err (key_reuse again.key),
        run_all requests (execute none input store).1,
      )
  execute-once input keeps store result requests again fresh first keep se sk =
      execute-settled input.endpoint input.key input.request_hash result.response again
        (run_all requests (execute none input store).1) se sk
        (run_all-keeps input.endpoint input.key input.request_hash result.response requests
          (execute none input store).1 keep (execute-first input keeps store result fresh first))
