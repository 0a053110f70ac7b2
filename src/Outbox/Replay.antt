-- ===== src/Outbox/Replay.antt =====
-- packages/outbox/src/replay.ts: the replay of dead events.
use fluvia.Base.{
  ℕ, ◌≤◌, ◌≡◌, refl, sym, ap, ◌∙◌, Bool-cases, inl, inr, Bool, true, false, ◌&&◌, List, none,
  if◌then◌else◌, arith, leb, ltb, not,
}
use fluvia.Outbox.{
  OutboxRow, pending, delivered, dead, ResolvedOptions, Surroundings, is_chosen, is_eligible,
}

abbrev pub is_dead : OutboxRow → Bool
is_dead r = elim r.status [ pending ↦ false | delivered ↦ false | dead ↦ true ]

-- The statement of `replayDeadOutboxEvents`, on one row.
unfoldable pub replay_dead : ℕ → List ℕ → OutboxRow → OutboxRow
replay_dead now ids r =
    if is_chosen ids r && is_dead r
    then record r {
      status = pending;
      attempts = 0;
      next_attempt_at = now;
      last_error = none;
      locked_by = none;
    }
    else r

eligible_again :
    (m now t : ℕ) (l : Bool) → 1 ≤ m → now ≤ t → l ≡ false → ltb 0 m && leb now t && not l ≡ true
eligible_again m now t l h k e = ground arith

replay_dead_unmoved :
    (now : ℕ) (ids : List ℕ) (r : OutboxRow)
    → is_chosen ids r && is_dead r ≡ false
    → replay_dead now ids r ≡ r
unfolding replay_dead
replay_dead_unmoved now ids r h = rw h refl

replay_dead-is_dead :
    (now : ℕ) (ids : List ℕ) (r : OutboxRow)
    → is_chosen ids r ≡ true
    → is_dead (replay_dead now ids r) ≡ false
unfolding replay_dead
replay_dead-is_dead now ids r named = elim (Bool-cases (is_dead r)) [
  | inl was_dead ↦ rw (named, was_dead, replay_dead) refl
  | inr alive ↦ ap is_dead (replay_dead_unmoved now ids r (rw (named, alive) refl)) ∙ alive
]

either_false : (a b : Bool) → b ≡ false → a && b ≡ false
either_false a b h = ground arith

replay_dead-again :
    (now now' : ℕ) (ids : List ℕ) (r : OutboxRow)
    → replay_dead now' ids (replay_dead now ids r) ≡ replay_dead now ids r
replay_dead-again now now' ids r = elim (Bool-cases (is_chosen ids r)) [
  | inl named ↦ replay_dead_unmoved now' ids (replay_dead now ids r) (
      either_false (is_chosen ids (replay_dead now ids r)) (is_dead (replay_dead now ids r))
        (replay_dead-is_dead now ids r named))
  | inr other ↦
      let unmoved = replay_dead_unmoved now ids r (ap (λ b. b && is_dead r) other) in
      ap (replay_dead now' ids) unmoved
      ∙ replay_dead_unmoved now' ids r (ap (λ b. b && is_dead r) other)
      ∙ sym unmoved
]

-- Of the events, a replay moves the dead ones that the operator names and no others: each of them is
-- again open to the claim of a later cycle, if no other relay holds its row and the relay allows an
-- attempt, and every other event stays as it is. A second replay of the same ids, at any time, then
-- changes nothing.
pub replay_dead-eligible :
    (w : Surroundings) (o : ResolvedOptions) (now now' : ℕ) (ids : List ℕ) (r : OutboxRow)
    → 1 ≤ o.max_attempts
    → now ≤ w.claim_time
    → w.is_locked r.id ≡ false
    → (is_chosen ids r && is_dead r ≡ true → is_eligible w o (replay_dead now ids r) ≡ true)
      × (is_chosen ids r && is_dead r ≡ false → replay_dead now ids r ≡ r)
      × (replay_dead now' ids (replay_dead now ids r) ≡ replay_dead now ids r)
unfolding replay_dead
replay_dead-eligible w o now now' ids r some_attempt later free = (
  λ moved.
      rw (moved, replay_dead)
        (eligible_again o.max_attempts now w.claim_time (w.is_locked r.id) some_attempt later free),
  replay_dead_unmoved now ids r,
  replay_dead-again now now' ids r,
)
