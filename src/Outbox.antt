-- ===== src/Outbox.antt =====
-- packages/outbox/src/relay.ts: the relay that publishes the events of the outbox.
pub mod Published
pub mod Settled
pub mod Attempts
pub mod Stats
pub mod Backoff
pub mod Replay
pub mod Tests
use fluvia.Base.{
  ℕ, zero, suc, ◌+◌, ◌-◌, ◌*◌, ◌^◌, ◌==◌, Bool, true, false, ◌&&◌, ◌||◌, not, List, [], ◌∷◌, ◌++◌,
  map, keep, any, take, length, Result, ok, err, Option, none, some, if◌then◌else◌, leb, ltb,
}
use fluvia.Base.Text.{Text}

pub data EventStatus : Type 0 where
  pending delivered dead : EventStatus

-- A row of outbox_events. `payload` is the JSON text.
pub record OutboxRow : Type 0 where
  pub id : ℕ
  pub payload : Text
  pub status : EventStatus
  pub attempts : ℕ
  pub next_attempt_at : ℕ
  pub delivered_at : Option ℕ
  pub last_error : Option Text
  pub locked_by : Option Text

pub record ResolvedOptions : Type 0 where
  pub worker_id : Text
  pub batch_size : ℕ
  pub lease_ms : ℕ
  pub max_attempts : ℕ
  pub base_backoff_ms : ℕ
  pub max_backoff_ms : ℕ

pub record RelayRunStats : Type 0 where
  pub claimed : ℕ
  pub delivered : ℕ
  pub retried : ℕ
  pub dead : ℕ

-- What is around one cycle: the clock at each statement, the rows that other relays have locked, `parseEnvelope`, the
-- publisher (`some` is an error that it throws), the jitter of a backoff, and what other processes do
-- to the table before the result of an event is written.
pub record Surroundings : Type 0 where
  pub now : ℕ
  pub claim_time : ℕ
  pub is_locked : ℕ → Bool
  pub parse_envelope : Text → Result Text Text
  pub publish : ℕ → ℕ → Option Text
  pub now_after : ℕ → ℕ
  pub with_jitter : ℕ → ℕ → ℕ
  pub others : ℕ → List OutboxRow → List OutboxRow

abbrev pub min_of : ℕ → ℕ → ℕ
min_of a b = if leb a b then a else b

-- `computeBackoffMs`
unfoldable pub compute_backoff_ms : ResolvedOptions → ℕ → ℕ
compute_backoff_ms opts attempt =
    min_of opts.max_backoff_ms (opts.base_backoff_ms * 2 ^ (attempt - 1))

abbrev pub is_pending : OutboxRow → Bool
is_pending r = elim r.status [ pending ↦ true | delivered ↦ false | dead ↦ false ]

abbrev or_else : Option Text → Text → Option Text
or_else none e = some e
or_else (some x) e = some x

abbrev pub is_zombie : Surroundings → ResolvedOptions → OutboxRow → Bool
is_zombie w opts r = is_pending r && leb opts.max_attempts r.attempts && leb r.next_attempt_at w.now

-- The first statement, on one row: the text of its error is `lease_expired`.
unfoldable pub sweep_row : Surroundings → ResolvedOptions → Text → OutboxRow → OutboxRow
sweep_row w opts lease_expired r =
    if is_zombie w opts r
    then record r { status = dead; last_error = or_else r.last_error lease_expired }
    else r

abbrev pub is_eligible : Surroundings → ResolvedOptions → OutboxRow → Bool
is_eligible w opts r =
    is_pending r
    && ltb r.attempts opts.max_attempts
    && leb r.next_attempt_at w.claim_time
    && not (w.is_locked r.id)

-- `ORDER BY next_attempt_at, id`
unfoldable pub insert_by_time : OutboxRow → List OutboxRow → List OutboxRow
insert_by_time r [] = r ∷ []
insert_by_time r (x ∷ xs) =
    let rest = insert_by_time r xs in
    if ltb x.next_attempt_at r.next_attempt_at
      || ((x.next_attempt_at == r.next_attempt_at) && ltb x.id r.id)
    then x ∷ rest
    else r ∷ x ∷ xs

unfoldable pub sort_by_time : List OutboxRow → List OutboxRow
unfolding insert_by_time
sort_by_time [] = []
sort_by_time (r ∷ rs) = insert_by_time r (sort_by_time rs)

unfoldable pub eligible_ids : Surroundings → ResolvedOptions → List OutboxRow → List ℕ
unfolding sort_by_time
eligible_ids w opts rows =
    map (λ r. r.id) (take opts.batch_size (sort_by_time (keep (is_eligible w opts) rows)))

abbrev pub is_chosen : List ℕ → OutboxRow → Bool
is_chosen ids r = any (λ i. i == r.id) ids

-- The claim, on one row.
unfoldable pub claim_row : Surroundings → ResolvedOptions → List ℕ → OutboxRow → OutboxRow
claim_row w opts ids r =
    if is_chosen ids r && is_eligible w opts r
    then record r {
      attempts = r.attempts + 1;
      next_attempt_at = w.claim_time + opts.lease_ms;
      locked_by = some opts.worker_id;
    }
    else r

-- `UPDATE outbox_events SET ... WHERE id = $1 AND status = 'pending'`
abbrev pub where_pending : ℕ → (OutboxRow → OutboxRow) → OutboxRow → OutboxRow
where_pending i f r = if (r.id == i) && is_pending r then f r else r

abbrev pub to_dead : Text → OutboxRow → OutboxRow
to_dead e r = record r { status = dead; last_error = some e; locked_by = none }

abbrev pub to_delivered : ℕ → OutboxRow → OutboxRow
to_delivered t r = record r {
  status = delivered;
  delivered_at = some t;
  last_error = none;
  locked_by = none;
}

abbrev pub to_retry : ℕ → Text → OutboxRow → OutboxRow
to_retry t e r = record r { next_attempt_at = t; last_error = some e; locked_by = none }

-- What becomes of a claimed event.
pub data Outcome : Type 0 where
  was_delivered : Outcome
  was_retried was_dead : Text → Outcome

-- `poison: ` in front of the error of the envelope.
abbrev poison : Text → Text
poison e = 112 ∷ 111 ∷ 105 ∷ 115 ∷ 111 ∷ 110 ∷ 58 ∷ 32 ∷ e

unfoldable pub outcome_of : Surroundings → ResolvedOptions → OutboxRow → Outcome
outcome_of w opts row = elim (w.parse_envelope row.payload) [
  | err e ↦ was_dead (poison e)
  | ok envelope ↦ elim (w.publish row.id row.attempts) [
    | none ↦ was_delivered
    | some e ↦
        if leb opts.max_attempts row.attempts
        then was_dead (take 500 e)
        else was_retried (take 500 e)
  ]
]

-- The row that the outcome writes.
unfoldable pub write_outcome :
    Surroundings → ResolvedOptions → OutboxRow → Outcome → OutboxRow → OutboxRow
unfolding compute_backoff_ms
write_outcome w opts row was_delivered r =
    where_pending row.id (to_delivered (w.now_after row.id)) r
write_outcome w opts row (was_dead e) r = where_pending row.id (to_dead e) r
write_outcome w opts row (was_retried e) r =
    where_pending row.id
      (to_retry (w.now_after row.id + w.with_jitter row.id (compute_backoff_ms opts row.attempts))
        e)
      r

unfoldable pub count_outcome : Outcome → RelayRunStats → RelayRunStats
count_outcome was_delivered s = record s { delivered = s.delivered + 1 }
count_outcome (was_dead e) s = record s { dead = s.dead + 1 }
count_outcome (was_retried e) s = record s { retried = s.retried + 1 }

-- The row with which `publish` is called, if its payload parses.
unfoldable pub publish_call : Surroundings → OutboxRow → List OutboxRow
publish_call w row = elim (w.parse_envelope row.payload) [ err e ↦ [] | ok envelope ↦ row ∷ [] ]

-- What a cycle does: the rows that it leaves, its counts, and the calls of the publisher.
pub record Cycle : Type 0 where
  pub rows : List OutboxRow
  pub stats : RelayRunStats
  pub published : List OutboxRow

-- The loop over the claimed rows.
unfoldable pub process_rows :
    Surroundings → ResolvedOptions → List OutboxRow → List OutboxRow → RelayRunStats → Cycle
unfolding publish_call outcome_of write_outcome count_outcome
process_rows w opts [] rows stats = record { rows = rows; stats = stats; published = [] }
process_rows w opts (row ∷ claimed) rows stats =
    let rest =
      process_rows w opts claimed
        (map (write_outcome w opts row (outcome_of w opts row)) (w.others row.id rows))
        (count_outcome (outcome_of w opts row) stats) in
    record rest { published = publish_call w row ++ rest.published }

-- The table after the sweep, and after the claim.
abbrev pub swept_rows : Surroundings → ResolvedOptions → Text → List OutboxRow → List OutboxRow
swept_rows w opts lease_expired rows = map (sweep_row w opts lease_expired) rows

abbrev pub held_rows : Surroundings → ResolvedOptions → List OutboxRow → List OutboxRow
held_rows w opts swept = map (claim_row w opts (eligible_ids w opts swept)) swept

-- The rows that the claim returns.
abbrev pub claimed_rows : Surroundings → ResolvedOptions → List OutboxRow → List OutboxRow
claimed_rows w opts swept =
    map (claim_row w opts (eligible_ids w opts swept))
      (keep (λ r. is_chosen (eligible_ids w opts swept) r && is_eligible w opts r) swept)

abbrev pub first_stats :
    Surroundings → ResolvedOptions → List OutboxRow → List OutboxRow → RelayRunStats
first_stats w opts rows swept = record {
  claimed = length (claimed_rows w opts swept);
  delivered = 0;
  retried = 0;
  dead = length (keep (is_zombie w opts) rows);
}

-- `runOnce`
unfoldable pub run_once : Surroundings → ResolvedOptions → Text → List OutboxRow → Cycle
unfolding sweep_row eligible_ids claim_row process_rows
run_once w opts lease_expired rows =
    let swept = swept_rows w opts lease_expired rows in
    process_rows w opts (claimed_rows w opts swept) (held_rows w opts swept)
      (first_stats w opts rows swept)
