-- ===== src/Payments/Refunds/Success.antt =====
-- Recording a success keeps the sum of what is refunded.
use fluvia.Base.{
  ℕ, ◌+◌, ◌==◌, ==_refl, ◌≡◌, refl, sym, ap, ◌∙◌, subst, Bool, true, false, ◌&&◌, not, [], ◌∷◌,
  ◌++◌, ok, ◌>>=◌, throw_if-then, >>=-eq-ok, ok-injective, err-ne-ok, Option, none, some,
  Option-cases, Bool-cases, inl, inr, if◌then◌else◌, arith, ltb,
}
use fluvia.Base.Enum.{eqb}
use fluvia.Base.Text.{Text}
use fluvia.Ledger.Types.{LedgerError}
use fluvia.Payments.Fsm.{IntentStatus, RefundStatus, refund_transitions, intent_transitions}
use fluvia.Payments.Fsm.Machine.{can_transition, refund_enum, intent_enum}
use fluvia.Payments.Intents.{
  Intent, Refund, settle, Store, illegal_transition, check_violation, invalid_state_transition,
  refund_event, intent_event, update_intent, find_intent, transition_in, moved_intent,
}
use fluvia.Payments.Refunds.{
  success_options, success_hook, find_refund, update_refund, sum_amounts, TransitionOptions,
  moved_refund, transition_refund, post, has_posting, add_refunded, move_intent, record_succeeded,
  refunded_target,
}
use fluvia.Payments.Refunds.Booked.{status_of, transition_refund-MovedTo}
use fluvia.Payments.Refunds.Tally.{
  is_succeeded, refunded_of, IsTallied, sum_amounts-update, refunded_of-update,
}

not_yet :
    (t : RefundStatus)
    → not (can_transition refund_transitions t RefundStatus.succeeded) ≡ false
    → eqb t RefundStatus.succeeded ≡ false
unfolding can_transition refund_transitions
not_yet RefundStatus.succeeded h = cc
not_yet RefundStatus.created h = refl
not_yet _ h = refl

moved_intent-id :
    (now : ℕ) (to : IntentStatus) (code : Option Text) (y : Intent)
    → (moved_intent now to code y).id ≡ y.id
unfolding moved_intent
moved_intent-id now to code y = refl

moved_intent-amount :
    (now : ℕ) (to : IntentStatus) (code : Option Text) (y : Intent)
    → (moved_intent now to code y).amount_refunded ≡ y.amount_refunded + 0
unfolding moved_intent
moved_intent-amount now to code y = omega arith

-- What a legal transition to `succeeded` does to the sum, and that it leaves the intents alone.
succeeded_sum :
    (now i : ℕ) (opts : TransitionOptions) (r : Refund) (s s' : Store)
    → find_refund i s.refunds ≡ some r
    → transition_refund now i RefundStatus.succeeded opts s ≡ ok s'
    → (s'.intents ≡ s.intents)
      × ((j : ℕ)
          → sum_amounts is_succeeded j s'.refunds
            ≡ sum_amounts is_succeeded j s.refunds
              + (if r.payment_intent_id == j then r.amount else 0))
unfolding transition_refund
succeeded_sum now i opts r s s' found h =
    let (passed, done) =
      throw_if-then (not (can_transition refund_transitions r.status RefundStatus.succeeded))
        illegal_transition
        (ok (record s {
          refunds = update_refund i (moved_refund now RefundStatus.succeeded opts) s.refunds;
          events =
              if opts.silent
              then s.events
              else s.events ++ refund_event i RefundStatus.succeeded ∷ [];
        }))
        (rw (found, transition_refund) at h) in
    let e = ok-injective done in
    (
      sym (ap (λ t. t.intents) e),
      λ j.
          sym (ap (λ t. sum_amounts is_succeeded j t.refunds) e)
          ∙ sum_amounts-update now i j RefundStatus.succeeded opts r s.refunds found
              (not_yet r.status passed)
          ∙ ap (λ b. sum_amounts is_succeeded j s.refunds + (if b then r.amount else 0))
              (and_true (r.payment_intent_id == j)),
    )
  where
    and_true : (b : Bool) → b && true ≡ b
    and_true true = refl
    and_true false = refl

added_refunded :
    (intent amount : ℕ) (s s' : Store)
    → add_refunded intent amount s ≡ ok s'
    → (s'.refunds ≡ s.refunds)
      × ((j : ℕ)
          → refunded_of j s'.intents
            ≡ refunded_of j s.intents + (if intent == j then amount else 0))
unfolding add_refunded
added_refunded intent amount s s' h = elim (Option-cases (find_intent intent s.intents)) [
  | inl missing ↦ absurd (err-ne-ok (rw (missing, add_refunded) at h))
  | inr (x, found) ↦
      let grow = λ (y : Intent). record y { amount_refunded = y.amount_refunded + amount } in
      let (passed, done) =
        throw_if-then (ltb x.amount_captured (x.amount_refunded + amount)) check_violation
          (ok (record s { intents = update_intent intent grow s.intents }))
          (rw (found, add_refunded) at h) in
      let e = ok-injective done in
      (
        sym (ap (λ t. t.refunds) e),
        λ j.
            sym (ap (λ t. refunded_of j t.intents) e)
            ∙ refunded_of-update intent j amount grow x s.intents (λ y. refl) (λ y. refl) found,
      )
]

zero_more : (b : Bool) (n : ℕ) → n + (if b then 0 else 0) ≡ n
zero_more b n = ground arith

moved_same :
    (now i : ℕ) (to : IntentStatus) (code : Option Text) (s s' : Store)
    → transition_in now i to code s ≡ ok s'
    → (s'.refunds ≡ s.refunds) × ((j : ℕ) → refunded_of j s'.intents ≡ refunded_of j s.intents)
unfolding transition_in
moved_same now i to code s s' h = elim (Option-cases (find_intent i s.intents)) [
  | inl missing ↦ absurd (err-ne-ok (rw (missing, transition_in) at h))
  | inr (x, found) ↦
      let (passed, done) =
        throw_if-then (not (can_transition intent_transitions x.status to))
          (invalid_state_transition x.status to)
          (ok (record s {
            intents = update_intent i (moved_intent now to code) s.intents;
            events = s.events ++ intent_event i to ∷ [];
          }))
          (rw (found, transition_in) at h) in
      let e = ok-injective done in
      (
        sym (ap (λ t. t.refunds) e),
        λ j.
            sym (ap (λ t. refunded_of j t.intents) e)
            ∙ refunded_of-update i j 0 (moved_intent now to code) x s.intents
                (moved_intent-id now to code) (moved_intent-amount now to code) found
            ∙ zero_more (i == j) (refunded_of j s.intents),
      )
]

move_intent_same :
    (now i : ℕ) (s s' : Store)
    → move_intent now i s ≡ ok s'
    → (s'.refunds ≡ s.refunds) × ((j : ℕ) → refunded_of j s'.intents ≡ refunded_of j s.intents)
unfolding move_intent
move_intent_same now i s s' h = elim (Option-cases (find_intent i s.intents)) [
  | inl missing ↦ absurd (err-ne-ok (rw (missing, move_intent) at h))
  | inr (x, found) ↦ moved_same now i (refunded_target x) none s s' (rw (found, move_intent) at h)
]

-- What the success of a refund does to the rows: its status, and what every intent has refunded.
abbrev pub IsRecorded : Refund → Store → Store → Type 0
IsRecorded r s s' =
    (status_of r.id s'.refunds ≡ some RefundStatus.succeeded)
    × ((j : ℕ)
        → refunded_of j s'.intents
          ≡ refunded_of j s.intents + (if r.payment_intent_id == j then r.amount else 0))
    × ((j : ℕ)
        → sum_amounts is_succeeded j s'.refunds
          ≡ sum_amounts is_succeeded j s.refunds
            + (if r.payment_intent_id == j then r.amount else 0))

-- The rows of the intent and of the refund are moved by the same amount.
hook-IsRecorded :
    (now : ℕ) (r : Refund) (ref : Text) (s s' : Store)
    → find_refund r.id s.refunds ≡ some r
    → success_hook now r.id r.payment_intent_id r.amount ref s ≡ ok s'
    → IsRecorded r s s'
unfolding success_hook move_intent
hook-IsRecorded now r ref s s' found h =
    let (a, refund_moved, rest) =
      >>=-eq-ok (transition_refund now r.id RefundStatus.succeeded (success_options ref) s)
        (λ a. add_refunded r.payment_intent_id r.amount a >>= λ b.
          move_intent now r.payment_intent_id b)
        h in
    let (b, added, last) =
      >>=-eq-ok (add_refunded r.payment_intent_id r.amount a)
        (λ b. move_intent now r.payment_intent_id b) rest in
    let (intents_a, sum_a) =
      succeeded_sum now r.id (success_options ref) r s a found refund_moved in
    let (refunds_b, sum_b) = added_refunded r.payment_intent_id r.amount a b added in
    let (refunds_c, sum_c) = move_intent_same now r.payment_intent_id b s' last in
    let (from, was, legal, postings, status_a) =
      transition_refund-MovedTo now r.id RefundStatus.succeeded (success_options ref) s a
        refund_moved in
    (
      ap (status_of r.id) (refunds_c ∙ refunds_b) ∙ status_a r.id ∙ rw (==_refl r.id) refl,
      λ j.
          sum_c j
          ∙ sum_b j
          ∙ ap (λ xs. refunded_of j xs + (if r.payment_intent_id == j then r.amount else 0))
              intents_a,
      λ j. ap (sum_amounts is_succeeded j) (refunds_c ∙ refunds_b) ∙ sum_a j,
    )

recorded-IsTallied : (r : Refund) (s s' : Store) → IsRecorded r s s' → IsTallied s → IsTallied s'
unfolding IsTallied
recorded-IsTallied r s s' recorded tallied j =
    recorded.1 j
    ∙ ap (λ n. n + (if r.payment_intent_id == j then r.amount else 0)) (tallied j)
    ∙ sym (recorded.2 j)

-- A success that is recorded for the first time makes the refund `succeeded` and adds its amount to
-- what its intent has refunded and to no other, in one transaction; one that was recorded before
-- changes nothing. Either way what every intent has refunded stays the sum of its refunds that have
-- succeeded.
pub record_succeeded-IsTallied :
    (now : ℕ) (r : Refund) (ref : Text) (refused : Option LedgerError) (s s' : Store)
    → find_refund r.id s.refunds ≡ some r
    → IsTallied s
    → record_succeeded now r.id r.payment_intent_id r.amount ref refused s ≡ ok s'
    → IsTallied s'
      × (has_posting r.id settle s.postings ≡ true → s' ≡ s)
      × (has_posting r.id settle s.postings ≡ false
          → (status_of r.id s'.refunds ≡ some RefundStatus.succeeded)
            × ((j : ℕ)
                → refunded_of j s'.intents
                  ≡ refunded_of j s.intents + (if r.payment_intent_id == j then r.amount else 0)))
unfolding record_succeeded post
record_succeeded-IsTallied now r ref (some e) s s' found tallied h = absurd (err-ne-ok h)
record_succeeded-IsTallied now r ref none s s' found tallied h =
    elim (Bool-cases (has_posting r.id settle s.postings)) [
      | inl before ↦
          let same : s ≡ s' = ok-injective (rw (before, post) at h) in
          (subst IsTallied same tallied, λ was. sym same, λ is_new. cc)
      | inr fresh ↦
          let booked : Store = record s {
            postings =
                s.postings ++ record { refund_id = r.id; kind = settle; amount = r.amount } ∷ [];
          } in
          let recorded : IsRecorded r s s' =
            hook-IsRecorded now r ref booked s' found (rw (fresh, post) at h) in
          (
            recorded-IsTallied r s s' recorded tallied,
            λ was. cc,
            λ is_new. (recorded.0, recorded.1),
          )
    ]
