-- ===== src/Outbox/Settled.antt =====
-- A cycle of the relay leaves alone what is delivered or dead.
use fluvia.Base.{
  ℕ, ◌+◌, ◌==◌, ◌≡◌, refl, ap, ◌∙◌, Bool, true, false, ◌&&◌, List, [], ◌∷◌, map, all, Option, none,
  some, Bool-cases, inl, inr, if◌then◌else◌, arith,
}
use fluvia.Base.Text.{Text}
use fluvia.Outbox.Published.{run_once-published}
use fluvia.Outbox.{
  OutboxRow, ResolvedOptions, RelayRunStats, Surroundings, Outcome, was_delivered, was_retried,
  was_dead, is_pending, is_zombie, sweep_row, is_eligible, eligible_ids, is_chosen, claim_row,
  where_pending, to_dead, to_delivered, to_retry, outcome_of, write_outcome, count_outcome,
  process_rows, run_once, swept_rows, held_rows, claimed_rows, first_stats, compute_backoff_ms,
}

unfoldable pub find_event : ℕ → List OutboxRow → Option OutboxRow
find_event i [] = none
find_event i (r ∷ rs) = if r.id == i then some r else find_event i rs

-- The event is stored, and delivered or dead.
pub record IsStoredSettled (i : ℕ) (r : OutboxRow) (rows : List OutboxRow) : Type 0 where
  pub found : find_event i rows ≡ some r
  pub settled : is_pending r ≡ false

module _ (f : OutboxRow → OutboxRow) (same_id : (x : OutboxRow) → (f x).id ≡ x.id)
    (fixed : (x : OutboxRow) → is_pending x ≡ false → f x ≡ x) (i : ℕ) (r : OutboxRow)
    (settled : is_pending r ≡ false) where
  find_event-map :
      (rows : List OutboxRow) → find_event i rows ≡ some r → find_event i (map f rows) ≡ some r
  unfolding find_event
  find_event-map [] h = cc
  find_event-map (x ∷ xs) h = elim (Bool-cases (x.id == i)) [
    | inl here ↦
        let first : some x ≡ some r = rw here at h in
        let same : x ≡ r = cc in
        let unmoved : f x ≡ r = fixed x (ap is_pending same ∙ settled) ∙ same in
        ap (λ n. if n == i then some (f x) else find_event i (map f xs)) (same_id x)
        ∙ rw here (ap (λ y. some y) unmoved)
    | inr other ↦
        ap (λ n. if n == i then some (f x) else find_event i (map f xs)) (same_id x)
        ∙ rw other (find_event-map xs (rw other at h))
  ]

map-IsStoredSettled :
    (f : OutboxRow → OutboxRow)
    → ((x : OutboxRow) → (f x).id ≡ x.id)
    → ((x : OutboxRow) → is_pending x ≡ false → f x ≡ x)
    → (i : ℕ) (r : OutboxRow) (rows : List OutboxRow) → IsStoredSettled i r rows
    → IsStoredSettled i r (map f rows)
map-IsStoredSettled f same_id fixed i r rows s = record {
  found = find_event-map f same_id fixed i r s.settled rows s.found;
  settled = s.settled;
}

where_pending_settled :
    (i : ℕ) (f : OutboxRow → OutboxRow) (x : OutboxRow)
    → is_pending x ≡ false
    → where_pending i f x ≡ x
where_pending_settled i f x h =
    ap (λ (b : Bool). if b then f x else x) (none_hit (x.id == i) (is_pending x) h)
  where
    none_hit : (a b : Bool) → b ≡ false → a && b ≡ false
    none_hit a b e = ground arith

-- A row under a test keeps its id, where the row that it may become does.
kept_id : (b : Bool) (x y : OutboxRow) → y.id ≡ x.id → (if b then y else x).id ≡ x.id
kept_id true x y h = h
kept_id false x y h = refl

unchosen : (b : Bool) (x y : OutboxRow) → b ≡ false → (if b then y else x) ≡ x
unchosen b x y h = ap (λ (t : Bool). if t then y else x) h

sweep_row-id :
    (w : Surroundings) (o : ResolvedOptions) (e : Text) (x : OutboxRow)
    → (sweep_row w o e x).id ≡ x.id
unfolding sweep_row
sweep_row-id w o e x = kept_id (is_zombie w o x) x _ refl

sweep_row_settled :
    (w : Surroundings) (o : ResolvedOptions) (e : Text) (x : OutboxRow)
    → is_pending x ≡ false
    → sweep_row w o e x ≡ x
unfolding sweep_row
sweep_row_settled w o e x h = unchosen (is_zombie w o x) x _ (no_zombie h)
  where
    no_zombie : is_pending x ≡ false → is_zombie w o x ≡ false
    no_zombie p = rw p refl

claim_row-id :
    (w : Surroundings) (o : ResolvedOptions) (ids : List ℕ) (x : OutboxRow)
    → (claim_row w o ids x).id ≡ x.id
unfolding claim_row
claim_row-id w o ids x = kept_id (is_chosen ids x && is_eligible w o x) x _ refl

claim_row_settled :
    (w : Surroundings) (o : ResolvedOptions) (ids : List ℕ) (x : OutboxRow)
    → is_pending x ≡ false
    → claim_row w o ids x ≡ x
unfolding claim_row
claim_row_settled w o ids x h =
    unchosen (is_chosen ids x && is_eligible w o x) x _ (not_eligible (is_chosen ids x) h)
  where
    not_eligible : (c : Bool) → is_pending x ≡ false → c && is_eligible w o x ≡ false
    not_eligible true p = rw p refl
    not_eligible false p = refl

write_outcome-id :
    (w : Surroundings) (o : ResolvedOptions) (row : OutboxRow) (out : Outcome) (x : OutboxRow)
    → (write_outcome w o row out x).id ≡ x.id
unfolding write_outcome
write_outcome-id w o row was_delivered x = kept_id ((x.id == row.id) && is_pending x) x _ refl
write_outcome-id w o row (was_retried e) x = kept_id ((x.id == row.id) && is_pending x) x _ refl
write_outcome-id w o row (was_dead e) x = kept_id ((x.id == row.id) && is_pending x) x _ refl

write_outcome_settled :
    (w : Surroundings) (o : ResolvedOptions) (row : OutboxRow) (out : Outcome) (x : OutboxRow)
    → is_pending x ≡ false
    → write_outcome w o row out x ≡ x
unfolding write_outcome
write_outcome_settled w o row was_delivered x h =
    where_pending_settled row.id (to_delivered (w.now_after row.id)) x h
write_outcome_settled w o row (was_retried e) x h =
    where_pending_settled row.id
      (to_retry (w.now_after row.id + w.with_jitter row.id (compute_backoff_ms o row.attempts)) e) x
      h
write_outcome_settled w o row (was_dead e) x h = where_pending_settled row.id (to_dead e) x h

-- Other processes leave alone what is delivered or dead.
unfoldable pub OthersKeepSettled : Surroundings → Type 0
OthersKeepSettled w =
    (k i : ℕ) (r : OutboxRow) (rows : List OutboxRow)
    → IsStoredSettled i r rows
    → IsStoredSettled i r (w.others k rows)

process_rows-keeps :
    (w : Surroundings) (o : ResolvedOptions)
    → OthersKeepSettled w
    → (claimed rows : List OutboxRow) (stats : RelayRunStats) (i : ℕ) (r : OutboxRow)
    → IsStoredSettled i r rows
    → IsStoredSettled i r (process_rows w o claimed rows stats).rows
unfolding process_rows OthersKeepSettled
process_rows-keeps w o keep_others [] rows stats i r s = s
process_rows-keeps w o keep_others (row ∷ claimed) rows stats i r s =
    process_rows-keeps w o keep_others claimed
      (map (write_outcome w o row (outcome_of w o row)) (w.others row.id rows))
      (count_outcome (outcome_of w o row) stats) i r
      (map-IsStoredSettled (write_outcome w o row (outcome_of w o row))
        (write_outcome-id w o row (outcome_of w o row))
        (write_outcome_settled w o row (outcome_of w o row)) i r (w.others row.id rows)
        (keep_others row.id i r rows s))

claim_row-is_pending :
    (w : Surroundings) (o : ResolvedOptions) (ids : List ℕ) (x : OutboxRow)
    → is_chosen ids x && is_eligible w o x ≡ true
    → is_pending (claim_row w o ids x) ≡ true
unfolding claim_row
claim_row-is_pending w o ids x taken = rw (taken, claim_row) (ground arith)

-- A cycle of the relay, whatever the publisher does, leaves an event that is delivered or dead
-- exactly as it is, where other processes do so meanwhile; and every event with which it calls the
-- publisher was pending when the cycle claimed it.
pub run_once-IsStoredSettled :
    (w : Surroundings) (o : ResolvedOptions) (e : Text)
    → OthersKeepSettled w
    → (rows : List OutboxRow)
    → ((i : ℕ) (r : OutboxRow)
        → IsStoredSettled i r rows
        → IsStoredSettled i r (run_once w o e rows).rows)
      × (all is_pending (run_once w o e rows).published ≡ true)
unfolding run_once
run_once-IsStoredSettled w o e keep_others rows =
    let swept = swept_rows w o e rows in
    let ids = eligible_ids w o swept in
    (
      λ i r s.
          process_rows-keeps w o keep_others (claimed_rows w o swept) (held_rows w o swept)
            (first_stats w o rows swept) i r
            (map-IsStoredSettled (claim_row w o ids) (claim_row-id w o ids)
              (claim_row_settled w o ids) i r swept
              (map-IsStoredSettled (sweep_row w o e) (sweep_row-id w o e) (sweep_row_settled w o e)
                i r rows s)),
      run_once-published is_pending w o e rows (claim_row-is_pending w o ids),
    )
