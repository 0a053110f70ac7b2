-- ===== src/Outbox/Stats.antt =====
-- The counts of a cycle.
use fluvia.Base.{ℕ, ◌+◌, ◌≡◌, refl, ◌∙◌, List, [], ◌∷◌, map, keep, length, arith}
use fluvia.Base.Text.{Text}
use fluvia.Outbox.{
  OutboxRow, ResolvedOptions, RelayRunStats, Surroundings, Outcome, was_delivered, was_retried,
  was_dead, is_zombie, outcome_of, write_outcome, count_outcome, process_rows, run_once, swept_rows,
  held_rows, claimed_rows, first_stats,
}

abbrev pub settled_count : RelayRunStats → ℕ
settled_count s = s.delivered + s.retried + s.dead

count_outcome-settled_count :
    (out : Outcome) (s : RelayRunStats)
    → (settled_count (count_outcome out s) ≡ settled_count s + 1)
      × ((count_outcome out s).claimed ≡ s.claimed)
unfolding count_outcome
count_outcome-settled_count was_delivered s = (omega arith, refl)
count_outcome-settled_count (was_retried e) s = (omega arith, refl)
count_outcome-settled_count (was_dead e) s = (omega arith, refl)

process_rows-settled_count :
    (w : Surroundings) (o : ResolvedOptions) (claimed rows : List OutboxRow) (s : RelayRunStats)
    → (settled_count (process_rows w o claimed rows s).stats ≡ settled_count s + length claimed)
      × ((process_rows w o claimed rows s).stats.claimed ≡ s.claimed)
unfolding process_rows
process_rows-settled_count w o [] rows s = (omega arith, refl)
process_rows-settled_count w o (row ∷ claimed) rows s =
    let out = outcome_of w o row in
    let (one, same) = count_outcome-settled_count out s in
    let (rest, kept) =
      process_rows-settled_count w o claimed
        (map (write_outcome w o row out) (w.others row.id rows)) (count_outcome out s) in
    (omega (arith, one, rest), kept ∙ same)

-- The counts of a cycle account for every event: what is claimed, and what was swept before, is
-- delivered, retried or dead.
run_once-settled_count :
    (w : Surroundings) (o : ResolvedOptions) (e : Text) (rows : List OutboxRow)
    → let s = (run_once w o e rows).stats in
      s.delivered + s.retried + s.dead ≡ s.claimed + length (keep (is_zombie w o) rows)
unfolding run_once
run_once-settled_count w o e rows =
    let swept = swept_rows w o e rows in
    let (total, kept) =
      process_rows-settled_count w o (claimed_rows w o swept) (held_rows w o swept)
        (first_stats w o rows swept) in
    omega (arith, total, kept)
