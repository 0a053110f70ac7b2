-- ===== src/Idempotency/Rows.antt =====
-- The statements on idempotency_keys: an insertion and a completion, as the lookups see them.
use fluvia.Base.{
  ◌≡◌, refl, ap, Bool, true, false, ◌&&◌, not, List, [], ◌∷◌, ◌++◌, Result, ok, err, Option, none,
  some, Bool-cases, inl, inr, arith, if◌then◌else◌, ◌>>◌, throw_if,
}
use fluvia.Base.Text.{Text, text_eq, text_eq_iff}
use fluvia.Idempotency.{
  IdempotencyError, processing_in_flight, IdempotentResponse, ExecuteIdempotentResult, StoredKeyRow,
  is_row, find_row, complete,
}

module _ {B : Type 0} where
  pub find_row-append :
      (e k : Text) (rows : List (StoredKeyRow B)) (r : StoredKeyRow B)
      → find_row e k (rows ++ r ∷ []) ≡ elim (find_row e k rows) [
        | some x ↦ some x
        | none ↦ if is_row e k r then some r else none
      ]
  unfolding find_row
  find_row-append e k [] r = refl
  find_row-append e k (x ∷ xs) r = elim (Bool-cases (is_row e k x)) [
    | inl here ↦ rw here refl
    | inr other ↦ rw other (find_row-append e k xs r)
  ]

  pub find_row-complete :
      (e k : Text) (response : IdempotentResponse B) (rows : List (StoredKeyRow B))
      (r : StoredKeyRow B)
      → find_row e k rows ≡ some r
      → find_row e k (complete e k response rows)
        ≡ some (record r { completed = true; response = some response })
  unfolding find_row complete
  find_row-complete e k response [] r h = cc
  find_row-complete e k response (x ∷ xs) r h = elim (Bool-cases (is_row e k x)) [
    | inl here ↦
        let first : some x ≡ some r = rw here at h in
        let same : x ≡ r = cc in
        rw here (
          rw here (
            ap
              (λ (y : StoredKeyRow B).
                some (record y { completed = true; response = some response }))
              same))
    | inr other ↦ rw (other, other) (find_row-complete e k response xs r (rw other at h))
  ]

  pub is_row_differs :
      (e k e' k' : Text) (x : StoredKeyRow B)
      → text_eq e' e && text_eq k' k ≡ false
      → is_row e' k' x ≡ true
      → is_row e k x ≡ false
  is_row_differs e k e' k' x other same = ground (
    arith,
    text_eq_iff x.endpoint e',
    text_eq_iff x.endpoint e,
    text_eq_iff x.key k',
    text_eq_iff x.key k,
    text_eq_iff e' e,
    text_eq_iff k' k,
  )

  pub complete-other :
      (e k e' k' : Text) (answer : IdempotentResponse B) (rows : List (StoredKeyRow B))
      → text_eq e' e && text_eq k' k ≡ false
      → find_row e k (complete e' k' answer rows) ≡ find_row e k rows
  unfolding find_row complete
  complete-other e k e' k' answer [] other = refl
  complete-other e k e' k' answer (x ∷ xs) other = elim (Bool-cases (is_row e' k' x)) [
    | inl here ↦
        let missed = is_row_differs e k e' k' x other here in
        rw here (rw missed (complete-other e k e' k' answer xs other))
    | inr there ↦
        rw there
          (ap (λ r. if is_row e k x then some x else r) (complete-other e k e' k' answer xs other))
  ]

  abbrev pub answer_row :
      Text
      → Bool
      → Option (IdempotentResponse B)
      → Result IdempotencyError (ExecuteIdempotentResult B)
  answer_row key done answer = do
    throw_if (not done) (processing_in_flight key)
    elim answer [
      | none ↦ err (processing_in_flight key)
      | some x ↦ ok (record { response = x; replayed = true })
    ]
