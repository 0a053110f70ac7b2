-- ===== src/Outbox/Published.antt =====
-- The events with which the relay calls the publisher.
use fluvia.Base.{
  ◌≡◌, refl, Bool, true, ◌&&◌, List, [], ◌∷◌, map, all, keep, Result-cases, Bool-cases, inl, inr,
}
use fluvia.Base.Digits.{all-append}
use fluvia.Base.Text.{Text}
use fluvia.Outbox.{
  OutboxRow, ResolvedOptions, RelayRunStats, Surroundings, is_eligible, eligible_ids, is_chosen,
  claim_row, outcome_of, write_outcome, count_outcome, publish_call, process_rows, run_once,
  swept_rows, held_rows, claimed_rows, first_stats,
}

publish_call-all :
    (p : OutboxRow → Bool) (w : Surroundings) (row : OutboxRow)
    → p row ≡ true
    → all p (publish_call w row) ≡ true
unfolding publish_call
publish_call-all p w row h = elim (Result-cases (w.parse_envelope row.payload)) [
  | inl (envelope, parsed) ↦ rw (parsed, publish_call) (rw h refl)
  | inr (e, poison) ↦ rw (poison, publish_call) refl
]

process_rows-published :
    (p : OutboxRow → Bool) (w : Surroundings) (o : ResolvedOptions) (claimed rows : List OutboxRow)
    (stats : RelayRunStats)
    → all p claimed ≡ true
    → all p (process_rows w o claimed rows stats).published ≡ true
unfolding process_rows
process_rows-published p w o [] rows stats h = refl
process_rows-published p w o (row ∷ claimed) rows stats h =
    let after = map (write_outcome w o row (outcome_of w o row)) (w.others row.id rows) in
    let counted = count_outcome (outcome_of w o row) stats in
    elim (Bool-cases (p row)) [
      | inl first ↦
          all-append p (publish_call w row) (process_rows w o claimed after counted).published
            (publish_call-all p w row first)
            (process_rows-published p w o claimed after counted (rw first at h))
      | inr failed ↦ cc (rw failed at h)
    ]

all-claimed :
    (p test : OutboxRow → Bool) (f : OutboxRow → OutboxRow)
    → ((x : OutboxRow) → test x ≡ true → p (f x) ≡ true)
    → (rows : List OutboxRow) → all p (map f (keep test rows)) ≡ true
all-claimed p test f holds [] = refl
all-claimed p test f holds (x ∷ xs) = elim (Bool-cases (test x)) [
  | inl taken ↦ rw taken (rw (holds x taken) (all-claimed p test f holds xs))
  | inr passed ↦ rw passed (all-claimed p test f holds xs)
]

-- What the claim makes of a row that it takes holds of every row that is published.
pub run_once-published :
    (p : OutboxRow → Bool) (w : Surroundings) (o : ResolvedOptions) (e : Text)
    (rows : List OutboxRow)
    → ((x : OutboxRow)
        → is_chosen (eligible_ids w o (swept_rows w o e rows)) x && is_eligible w o x ≡ true
        → p (claim_row w o (eligible_ids w o (swept_rows w o e rows)) x) ≡ true)
    → all p (run_once w o e rows).published ≡ true
unfolding run_once
run_once-published p w o e rows holds =
    let swept = swept_rows w o e rows in
    let ids = eligible_ids w o swept in
    process_rows-published p w o (claimed_rows w o swept) (held_rows w o swept)
      (first_stats w o rows swept)
      (all-claimed p (λ r. is_chosen ids r && is_eligible w o r) (claim_row w o ids) holds swept)
