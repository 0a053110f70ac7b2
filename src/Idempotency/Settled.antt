-- ===== src/Idempotency/Settled.antt =====
-- A key whose request has taken effect, and what later requests make of it.
use fluvia.Base.{
  ◌≡◌, refl, sym, ap, ap₂, ◌∙◌, true, false, ◌&&◌, not, [], ◌∷◌, ◌++◌, Result, ok, err,
  ok-injective, >>=-eq-ok, none-ne-some, Option, none, some, Option-cases, Bool-cases, Result-cases,
  inl, inr, arith, if◌then◌else◌, ◌>>◌, throw_if,
}
use fluvia.Base.Text.{Text, text_eq, text_eq_iff, text_eq_refl}
use fluvia.Idempotency.{
  IdempotencyError, key_reuse, IdempotentResponse, ExecuteIdempotentResult, StoredKeyRow, Store,
  ExecuteIdempotentInput, ClaimFailure, find_row, claim, complete, replay_row, first_run,
  transaction, execute,
}
use fluvia.Idempotency.Rows.{find_row-append, find_row-complete, complete-other, answer_row}

module _ {S B : Type 0} where
  -- The handler leaves the table of the keys alone.
  unfoldable pub KeepsKeys : ExecuteIdempotentInput S B → Type 0
  KeepsKeys input =
      (before : Store S B) (response : IdempotentResponse B) (after : Store S B)
      → input.handler before ≡ ok (response, after)
      → after.keys ≡ before.keys

  -- A key whose request has taken effect: its row, completed, with the response.
  pub record IsSettled (e k hash : Text) (response : IdempotentResponse B) (store : Store S B)
      : Type 0 where
    pub row : StoredKeyRow B
    pub found : find_row e k store.keys ≡ some row
    pub hashed : row.request_hash ≡ hash
    pub completed : row.completed ≡ true
    pub answered : row.response ≡ some response

  module _ (input : ExecuteIdempotentInput S B) (keeps : KeepsKeys input) (store after : Store S B)
      (result : ExecuteIdempotentResult B) where
    first_run-rows :
        first_run input store ≡ ok (result, after)
        → (result.replayed ≡ false)
          × (after.keys
              ≡ complete input.endpoint input.key result.response (store.keys ++ claim input ∷ []))
    unfolding first_run KeepsKeys
    first_run-rows h =
        let ((response, rows), handled, done) =
          >>=-eq-ok (input.handler (record store { keys = store.keys ++ claim input ∷ [] }))
            (λ p. ok (
              record { response = p.0; replayed = false },
              record p.1 { keys = complete input.endpoint input.key p.0 p.1.keys },
            ))
            h in
        let kept =
          keeps (record store { keys = store.keys ++ claim input ∷ [] }) response rows handled in
        let same = ok-injective done in
        (
          sym (ap (λ q. q.0.replayed) same),
          sym (ap (λ q. q.1.keys) same)
              ∙ ap (complete input.endpoint input.key response) kept
              ∙ ap
                  (λ q.
                    complete input.endpoint input.key q.0.response (store.keys ++ claim input ∷ []))
                  same,
        )

    pub first_run-IsSettled :
        find_row input.endpoint input.key store.keys ≡ none
        → first_run input store ≡ ok (result, after)
        → IsSettled input.endpoint input.key input.request_hash result.response after
    first_run-IsSettled fresh h =
        let (_, rows) = first_run-rows h in
        let claimed : find_row input.endpoint input.key (store.keys ++ claim input ∷ [])
            ≡ some (claim input) =
          find_row-append input.endpoint input.key store.keys (claim input)
          ∙ rw (fresh, text_eq_refl input.endpoint, text_eq_refl input.key) refl in
        record {
          row = record (claim input) { completed = true; response = some result.response };
          found =
              ap (find_row input.endpoint input.key) rows
              ∙ find_row-complete input.endpoint input.key result.response
                  (store.keys ++ claim input ∷ []) (claim input) claimed;
          hashed = refl;
          completed = refl;
          answered = refl;
        }

  module _ (e k hash : Text) (response : IdempotentResponse B) where
    -- A key that is settled is found, so a key that is not found is another one.
    unsettled_differs :
        (e' k' : Text) (store : Store S B)
        → IsSettled e k hash response store
        → find_row e' k' store.keys ≡ none
        → text_eq e' e && text_eq k' k ≡ false
    unsettled_differs e' k' store settled missing =
        elim (Bool-cases (text_eq e' e && text_eq k' k)) [
          | inr other ↦ other
          | inl same ↦
              let se : e' ≡ e = (text_eq_iff e' e).0 (ground arith) in
              let sk : k' ≡ k = (text_eq_iff k' k).0 (ground arith) in
              absurd (
                none-ne-some
                  (sym missing ∙ ap₂ (λ a b. find_row a b store.keys) se sk ∙ settled.found))
        ]

    first_run-keeps :
        (input : ExecuteIdempotentInput S B) (keeps : KeepsKeys input) (store after : Store S B)
        (result : ExecuteIdempotentResult B)
        → find_row input.endpoint input.key store.keys ≡ none
        → first_run input store ≡ ok (result, after)
        → IsSettled e k hash response store
        → IsSettled e k hash response after
    first_run-keeps input keeps store after result missing h settled =
        let (_, rows) = first_run-rows input keeps store after result h in
        let other = unsettled_differs input.endpoint input.key store settled missing in
        let appended : find_row e k (store.keys ++ claim input ∷ []) ≡ some settled.row =
          find_row-append e k store.keys (claim input) ∙ rw settled.found refl in
        record {
          row = settled.row;
          found =
              ap (find_row e k) rows
              ∙ complete-other e k input.endpoint input.key result.response
                  (store.keys ++ claim input ∷ []) other
              ∙ appended;
          hashed = settled.hashed;
          completed = settled.completed;
          answered = settled.answered;
        }

    pub execute-keeps :
        (failure : Option ClaimFailure) (input : ExecuteIdempotentInput S B)
        (keeps : KeepsKeys input) (store : Store S B)
        → IsSettled e k hash response store
        → IsSettled e k hash response (execute failure input store).1
    unfolding execute transaction
    execute-keeps (some failure) input keeps store settled = settled
    execute-keeps none input keeps store settled =
        elim (Option-cases (find_row input.endpoint input.key store.keys)) [
          | inr (row, found) ↦ elim (Result-cases (replay_row input row)) [
            | inl (result, replayed) ↦ rw (found, execute, transaction) (rw replayed settled)
            | inr (why, refused) ↦ rw (found, execute, transaction) (rw refused settled)
          ]
          | inl missing ↦ elim (Result-cases (first_run input store)) [
            | inl ((result, after), ran) ↦
                rw (missing, ran, execute, transaction)
                  (first_run-keeps input keeps store after result missing ran settled)
            | inr (why, failed) ↦ rw (missing, failed, execute, transaction) settled
          ]
        ]

    -- What a stored row answers to a request.
    abbrev pub answer_with :
        ExecuteIdempotentInput S B → Result IdempotencyError (ExecuteIdempotentResult B)
    answer_with input =
        if text_eq hash input.request_hash
        then ok (record { response = response; replayed = true })
        else err (key_reuse input.key)

    replay_row-settled :
        (input : ExecuteIdempotentInput S B) (store : Store S B)
        (settled : IsSettled e k hash response store)
        → replay_row input settled.row ≡ answer_with input
    unfolding replay_row
    replay_row-settled input store settled =
        ap
          (λ h.
            throw_if (not (text_eq h input.request_hash)) (key_reuse input.key)
            >> answer_row input.key settled.row.completed settled.row.response)
          settled.hashed
        ∙ elim (Bool-cases (text_eq hash input.request_hash)) [
          | inl same ↦ rw same (ap₂ (answer_row input.key) settled.completed settled.answered)
          | inr other ↦ rw other refl
        ]

    -- A later request with a settled key.
    pub execute-settled :
        (input : ExecuteIdempotentInput S B) (store : Store S B)
        → input.endpoint ≡ e
        → input.key ≡ k
        → IsSettled e k hash response store
        → execute none input store ≡ (answer_with input, store)
    unfolding execute transaction
    execute-settled input store se sk settled =
        let found : find_row input.endpoint input.key store.keys ≡ some settled.row =
          ap₂ (λ a b. find_row a b store.keys) se sk ∙ settled.found in
        rw (found, replay_row-settled input store settled, execute, transaction)
          (elim (Bool-cases (text_eq hash input.request_hash)) [
            | inl same ↦ rw same refl
            | inr other ↦ rw other refl
          ])
