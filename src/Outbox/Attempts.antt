-- ===== src/Outbox/Attempts.antt =====
-- How often an event is tried, and how long the relay waits.
use fluvia.Base.{
  ℕ, ◌==◌, ◌≡◌, refl, ap, ◌∙◌, Bool, true, false, ◌&&◌, List, [], ◌∷◌, map, all, Bool-cases, inl,
  inr, if◌then◌else◌, arith, leb,
}
use fluvia.Base.Text.{Text}
use fluvia.Outbox.Published.{run_once-published}
use fluvia.Outbox.{
  OutboxRow, ResolvedOptions, RelayRunStats, Surroundings, Outcome, was_delivered, was_retried,
  was_dead, is_pending, is_zombie, sweep_row, is_eligible, eligible_ids, is_chosen, claim_row,
  outcome_of, write_outcome, count_outcome, process_rows, run_once, swept_rows, held_rows,
  claimed_rows, first_stats,
}

abbrev pub is_within : ResolvedOptions → OutboxRow → Bool
is_within o r = leb r.attempts o.max_attempts

all-map :
    (o : ResolvedOptions) (f : OutboxRow → OutboxRow)
    → ((x : OutboxRow) → is_within o x ≡ true → is_within o (f x) ≡ true)
    → (rows : List OutboxRow) → all (is_within o) rows ≡ true
    → all (is_within o) (map f rows) ≡ true
all-map o f keep_one [] h = refl
all-map o f keep_one (x ∷ xs) h = elim (Bool-cases (is_within o x)) [
  | inl here ↦ let rest = all-map o f keep_one xs (rw here at h) in rw (keep_one x here) rest
  | inr outside ↦ cc (rw outside at h)
]

within_either :
    (o : ResolvedOptions) (b : Bool) (x y : OutboxRow)
    → is_within o x ≡ true
    → y.attempts ≡ x.attempts
    → is_within o (if b then y else x) ≡ true
within_either o true x y h same = ap (λ n. leb n o.max_attempts) same ∙ h
within_either o false x y h same = h

sweep_row_within :
    (w : Surroundings) (o : ResolvedOptions) (e : Text) (x : OutboxRow)
    → is_within o x ≡ true
    → is_within o (sweep_row w o e x) ≡ true
unfolding sweep_row
sweep_row_within w o e x h = within_either o (is_zombie w o x) x _ h refl

write_outcome_within :
    (w : Surroundings) (o : ResolvedOptions) (row : OutboxRow) (out : Outcome) (x : OutboxRow)
    → is_within o x ≡ true
    → is_within o (write_outcome w o row out x) ≡ true
unfolding write_outcome
write_outcome_within w o row was_delivered x h =
    within_either o ((x.id == row.id) && is_pending x) x _ h refl
write_outcome_within w o row (was_retried e) x h =
    within_either o ((x.id == row.id) && is_pending x) x _ h refl
write_outcome_within w o row (was_dead e) x h =
    within_either o ((x.id == row.id) && is_pending x) x _ h refl

claim_row_within :
    (w : Surroundings) (o : ResolvedOptions) (ids : List ℕ) (x : OutboxRow)
    → is_within o x ≡ true
    → is_within o (claim_row w o ids x) ≡ true
unfolding claim_row
claim_row_within w o ids x h = elim (Bool-cases (is_chosen ids x && is_eligible w o x)) [
  | inr passed ↦ rw passed h
  | inl taken ↦ rw taken (ground arith)
]

-- Other processes keep the attempts within the limit.
unfoldable pub OthersKeepWithin : Surroundings → ResolvedOptions → Type 0
OthersKeepWithin w o =
    (k : ℕ) (rows : List OutboxRow)
    → all (is_within o) rows ≡ true
    → all (is_within o) (w.others k rows) ≡ true

process_rows-within :
    (w : Surroundings) (o : ResolvedOptions)
    → OthersKeepWithin w o
    → (claimed rows : List OutboxRow) (stats : RelayRunStats) → all (is_within o) rows ≡ true
    → all (is_within o) (process_rows w o claimed rows stats).rows ≡ true
unfolding process_rows OthersKeepWithin
process_rows-within w o keep_others [] rows stats h = h
process_rows-within w o keep_others (row ∷ claimed) rows stats h =
    process_rows-within w o keep_others claimed
      (map (write_outcome w o row (outcome_of w o row)) (w.others row.id rows))
      (count_outcome (outcome_of w o row) stats)
      (all-map o (write_outcome w o row (outcome_of w o row))
        (write_outcome_within w o row (outcome_of w o row)) (w.others row.id rows)
        (keep_others row.id rows h))

claim_row-is_within :
    (w : Surroundings) (o : ResolvedOptions) (ids : List ℕ) (x : OutboxRow)
    → is_chosen ids x && is_eligible w o x ≡ true
    → is_within o (claim_row w o ids x) ≡ true
unfolding claim_row
claim_row-is_within w o ids x taken = rw (taken, claim_row) (ground arith)

-- A cycle of the relay keeps the counter of attempts of every row within the maximal number, where
-- other processes do, and calls the publisher only with events whose counter, this attempt included,
-- is within it. The counter is that since the last replay, which sets it back.
pub run_once_within :
    (w : Surroundings) (o : ResolvedOptions) (e : Text)
    → OthersKeepWithin w o
    → (rows : List OutboxRow) → all (is_within o) rows ≡ true
    → (all (is_within o) (run_once w o e rows).rows ≡ true)
      × (all (is_within o) (run_once w o e rows).published ≡ true)
unfolding run_once
run_once_within w o e keep_others rows h =
    let swept = swept_rows w o e rows in
    let ids = eligible_ids w o swept in
    (
      process_rows-within w o keep_others (claimed_rows w o swept) (held_rows w o swept)
          (first_stats w o rows swept)
          (all-map o (claim_row w o ids) (claim_row_within w o ids) swept
            (all-map o (sweep_row w o e) (sweep_row_within w o e) rows h)),
      run_once-published (is_within o) w o e rows (claim_row-is_within w o ids),
    )
