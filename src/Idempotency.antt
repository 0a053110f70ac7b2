-- ===== src/Idempotency.antt =====
-- packages/idempotency/src/index.ts: each request that carries an idempotency key takes effect once.
-- The claim of the key, the effect and the stored response are one database transaction. The rest of
-- the database is `effects`, of any type. A body is a JSON value, which the column keeps as it is.
pub mod Canonical
pub mod Rows
pub mod Settled
pub mod Once
pub mod Limits
pub mod Tests
use fluvia.Base.{
  ℕ, ◌==◌, ◌+◌, Bool, true, false, ◌&&◌, ◌||◌, not, List, [], ◌∷◌, ◌++◌, ℤ, pos, ltb_ℤ, ◌≤ℤ◌,
  Result, ok, err, ◌>>=◌, ◌>>◌, throw_if, Option, none, some, if◌then◌else◌, all, leb, ltb, length,
}
use fluvia.Base.Text.{Text, text_eq}

pub data IdempotencyError : Type 0 where
  key_required range_error : IdempotencyError
  processing_in_flight key_reuse : Text → IdempotencyError
  other_error : ℕ → IdempotencyError

-- `/^[\x21-\x7e]{1,255}$/`
unfoldable pub is_idempotency_key : Text → Bool
is_idempotency_key key =
    leb 1 (length key) && leb (length key) 255 && all (λ c. leb 33 c && leb c 126) key

-- `assertValidIdempotencyKey`: `none` is a header that is missing or not a text.
unfoldable pub assert_valid_idempotency_key : Option Text → Result IdempotencyError Text
unfolding is_idempotency_key
assert_valid_idempotency_key none = err key_required
assert_valid_idempotency_key (some key) =
    if is_idempotency_key key then ok key else err key_required

pub record IdempotentResponse (B : Type 0) : Type 0 where
  pub status : ℕ
  pub body : B

pub record ExecuteIdempotentResult (B : Type 0) : Type 0 where
  pub response : IdempotentResponse B
  pub replayed : Bool

-- `response` is the status and the body, which `completed` sets.
pub record StoredKeyRow (B : Type 0) : Type 0 where
  pub endpoint : Text
  pub key : Text
  pub request_hash : Text
  pub completed : Bool
  pub response : Option (IdempotentResponse B)

pub record Store (S B : Type 0) : Type 0 where
  pub keys : List (StoredKeyRow B)
  pub effects : S

pub record ExecuteIdempotentInput (S B : Type 0) : Type 0 where
  pub endpoint : Text
  pub key : Text
  pub request_hash : Text
  pub handler : Store S B → Result IdempotencyError (IdempotentResponse B × Store S B)

-- What the engine may answer to the claim: it waited too long for another claim of the key, or
-- failed otherwise.
pub data ClaimFailure : Type 0 where
  lock_timed_out : ClaimFailure
  failed_otherwise : ℕ → ClaimFailure

module _ {B : Type 0} where
  abbrev pub is_row : Text → Text → StoredKeyRow B → Bool
  is_row endpoint key row = text_eq row.endpoint endpoint && text_eq row.key key

  -- `idempotency_keys WHERE endpoint = $1 AND key = $2`
  unfoldable pub find_row : Text → Text → List (StoredKeyRow B) → Option (StoredKeyRow B)
  find_row endpoint key [] = none
  find_row endpoint key (row ∷ rows) =
      if is_row endpoint key row then some row else find_row endpoint key rows

  -- `UPDATE idempotency_keys SET status = 'completed', ... WHERE endpoint = $1 AND key = $2`
  unfoldable pub complete :
      Text → Text → IdempotentResponse B → List (StoredKeyRow B) → List (StoredKeyRow B)
  complete endpoint key response [] = []
  complete endpoint key response (row ∷ rows) =
      let rest = complete endpoint key response rows in
      (if is_row endpoint key row
        then record row { completed = true; response = some response }
        else row)
      ∷ rest

abbrev claim_error : Text → ClaimFailure → IdempotencyError
claim_error key lock_timed_out = processing_in_flight key
claim_error key (failed_otherwise n) = other_error n

module _ {S B : Type 0} where
  abbrev pub claim : ExecuteIdempotentInput S B → StoredKeyRow B
  claim input = record {
    endpoint = input.endpoint;
    key = input.key;
    request_hash = input.request_hash;
    completed = false;
    response = none;
  }

  -- The branch on a key that is stored.
  unfoldable pub replay_row :
      ExecuteIdempotentInput S B
      → StoredKeyRow B
      → Result IdempotencyError (ExecuteIdempotentResult B)
  replay_row input row = do
    throw_if (not (text_eq row.request_hash input.request_hash)) (key_reuse input.key)
    throw_if (not row.completed) (processing_in_flight input.key)
    elim row.response [
      | none ↦ err (processing_in_flight input.key)
      | some response ↦ ok (record { response = response; replayed = true })
    ]

  -- The branch on a new key.
  unfoldable pub first_run :
      ExecuteIdempotentInput S B
      → Store S B
      → Result IdempotencyError (ExecuteIdempotentResult B × Store S B)
  unfolding complete
  first_run input store = do
    (response, after) ← input.handler (record store { keys = store.keys ++ claim input ∷ [] })
    ok (
      record { response = response; replayed = false },
      record after { keys = complete input.endpoint input.key response after.keys },
    )

  -- The transaction.
  unfoldable pub transaction :
      Option ClaimFailure
      → ExecuteIdempotentInput S B
      → Store S B
      → Result IdempotencyError (ExecuteIdempotentResult B × Store S B)
  transaction (some failure) input store = err (claim_error input.key failure)
  transaction none input store = elim (find_row input.endpoint input.key store.keys) [
    | some row ↦ (do result ← replay_row input row; ok (result, store))
    | none ↦ first_run input store
  ]

  -- `execute`: a transaction that throws leaves the rows as they were.
  unfoldable pub execute :
      Option ClaimFailure
      → ExecuteIdempotentInput S B
      → Store S B
      → Result IdempotencyError (ExecuteIdempotentResult B) × Store S B
  execute failure input store = elim (transaction failure input store) [
    | ok (result, store') ↦ (ok result, store')
    | err e ↦ (err e, store)
  ]

-- A number of the options, as `Math.floor` and `Number.isFinite` see it.
pub data Setting : Type 0 where
  floors_to : ℤ → Setting
  not_finite : Setting

pub record IdempotencyServiceOptions : Type 0 where
  pub lock_timeout_ms : Option Setting
  pub statement_timeout_ms : Option Setting
  pub idle_in_tx_timeout_ms : Option Setting
  pub retention_hours : Option Setting

pub record IdempotencyService : Type 0 where
  pub lock_timeout_ms : ℤ
  pub statement_timeout_ms : ℤ
  pub idle_in_tx_timeout_ms : ℤ
  pub retention_hours : ℤ

abbrev pub pg_max_timeout_ms : ℕ
pg_max_timeout_ms = 2147483647

-- `option ?? standard`, floored, and the test of its range.
unfoldable pub read_setting : Option Setting → ℕ → ℕ → Result IdempotencyError ℤ
read_setting none standard most = ok (pos standard)
read_setting (some not_finite) standard most = err range_error
read_setting (some (floors_to z)) standard most =
    if ltb_ℤ z (pos 1) || ltb_ℤ (pos most) z then err range_error else ok z

-- The constructor.
unfoldable pub new_service : IdempotencyServiceOptions → Result IdempotencyError IdempotencyService
unfolding read_setting
new_service options = do
  t ← read_setting options.lock_timeout_ms 3000 60000
  s ← read_setting options.statement_timeout_ms 30000 pg_max_timeout_ms
  throw_if (not (ltb_ℤ t s)) range_error
  i ← read_setting options.idle_in_tx_timeout_ms 60000 pg_max_timeout_ms
  h ← read_setting options.retention_hours 24 720
  ok (record {
    lock_timeout_ms = t;
    statement_timeout_ms = s;
    idle_in_tx_timeout_ms = i;
    retention_hours = h;
  })
