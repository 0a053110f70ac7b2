-- ===== src/Outbox/Tests.antt =====
-- packages/outbox: examples.
use fluvia.Base.{
  ℕ, arith, ◌+◌, ◌&&◌, ◌≡◌, refl, true, false, List, [], ◌∷◌, all, map, none, some, ok, err,
  if◌then◌else◌, ◌==◌,
}
use fluvia.Base.Text.{Text}
use fluvia.Outbox.{
  EventStatus, OutboxRow, ResolvedOptions, Surroundings, is_chosen, is_pending, is_eligible,
  run_once,
}
use fluvia.Outbox.Settled.{IsStoredSettled, OthersKeepSettled, find_event, run_once-IsStoredSettled}
use fluvia.Outbox.Attempts.{OthersKeepWithin, is_within, run_once_within}
use fluvia.Outbox.Replay.{is_dead, replay_dead, replay_dead-eligible}

abbrev options : ResolvedOptions
options = record {
  worker_id = 119 ∷ [];
  batch_size = 3;
  lease_ms = 30;
  max_attempts = 3;
  base_backoff_ms = 1;
  max_backoff_ms = 300;
}

-- The publisher fails for event 2; the payload of event 3 is no envelope.
abbrev around : Surroundings
around = record {
  now = 100;
  claim_time = 101;
  is_locked = λ i. false;
  parse_envelope = λ t. elim t [ [] ↦ err (120 ∷ []) | c ∷ cs ↦ ok (c ∷ cs) ];
  publish = λ i a. if i == 2 then some (101 ∷ []) else none;
  now_after = λ i. 102 + i;
  with_jitter = λ i ms. ms;
  others = λ i rows. rows;
}

abbrev event : ℕ → Text → EventStatus → ℕ → OutboxRow
event i text s n = record {
  id = i;
  payload = text;
  status = s;
  attempts = n;
  next_attempt_at = 50 + i;
  delivered_at = none;
  last_error = none;
  locked_by = none;
}

-- One event to deliver, one to retry, one that is poison, one zombie, and one that is dead.
abbrev table : List OutboxRow
table =
    event 1 (65 ∷ []) EventStatus.pending 0
    ∷ event 2 (66 ∷ []) EventStatus.pending 1
    ∷ event 3 [] EventStatus.pending 0
    ∷ event 4 (67 ∷ []) EventStatus.pending 3
    ∷ event 5 (68 ∷ []) EventStatus.dead 3
    ∷ []

abbrev dead_event : OutboxRow
dead_event = event 5 (68 ∷ []) EventStatus.dead 3

stored_dead : IsStoredSettled 5 dead_event table
unfolding find_event
stored_dead = record { found = refl; settled = refl }

alone_settled : OthersKeepSettled around
unfolding OthersKeepSettled
alone_settled k i r rows s = s

alone_within : OthersKeepWithin around options
unfolding OthersKeepWithin
alone_within k rows h = h

run_once-IsStoredSettled_example :
    ((i : ℕ) (r : OutboxRow)
      → IsStoredSettled i r table
      → IsStoredSettled i r (run_once around options (108 ∷ []) table).rows)
    × (all is_pending (run_once around options (108 ∷ []) table).published ≡ true)
run_once-IsStoredSettled_example =
    run_once-IsStoredSettled around options (108 ∷ []) alone_settled table

-- Of the five events, two are published.
two_published :
    map (λ (r : OutboxRow). r.id) (run_once around options (108 ∷ []) table).published ≡ 1 ∷ 2 ∷ []
unfolding run_once
two_published = refl

run_once_within_example :
    (all (is_within options) (run_once around options (108 ∷ []) table).rows ≡ true)
    × (all (is_within options) (run_once around options (108 ∷ []) table).published ≡ true)
run_once_within_example = run_once_within around options (108 ∷ []) alone_within table refl

-- One is delivered, one retried, and two are dead.
cycle_counts :
    let s = (run_once around options (108 ∷ []) table).stats in
    (s.claimed ≡ 3) × (s.delivered ≡ 1) × (s.retried ≡ 1) × (s.dead ≡ 2)
unfolding run_once
cycle_counts = (refl, refl, refl, refl)

replay_dead-eligible_example :
    (is_chosen (7 ∷ 5 ∷ []) dead_event && is_dead dead_event ≡ true
      → is_eligible around options (replay_dead 90 (7 ∷ 5 ∷ []) dead_event) ≡ true)
    × (is_chosen (7 ∷ 5 ∷ []) dead_event && is_dead dead_event ≡ false
        → replay_dead 90 (7 ∷ 5 ∷ []) dead_event ≡ dead_event)
    × (replay_dead 95 (7 ∷ 5 ∷ []) (replay_dead 90 (7 ∷ 5 ∷ []) dead_event)
        ≡ replay_dead 90 (7 ∷ 5 ∷ []) dead_event)
replay_dead-eligible_example =
    replay_dead-eligible around options 90 95 (7 ∷ 5 ∷ []) dead_event (omega arith) (omega arith)
      refl
