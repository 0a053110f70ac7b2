-- ===== src/Payments/Refunds/Agree.antt =====
-- Each operation of the refund service keeps the postings of the ledger and the statuses in agreement.
use fluvia.Base.{
  ℕ, ◌+◌, ◌≡◌, refl, sym, ap, ◌∙◌, false, not, [], ◌∷◌, ◌++◌, ok, ◌>>=◌, throw_if-then, >>=-eq-ok,
  ok-injective, err-ne-ok, Option, none, some, Option-cases, inl, inr, arith, ltb,
}
use fluvia.Base.Text.{Text}
use fluvia.Ledger.Types.{LedgerError}
use fluvia.Payments.Fsm.{IntentStatus, RefundStatus, refund_transitions, intent_transitions}
use fluvia.Payments.Fsm.Machine.{can_transition, refund_enum, intent_enum}
use fluvia.Payments.Intents.{
  request, settle, cancel, Store, check_violation, invalid_state_transition, update_intent,
  find_intent, transition_in, intent_event, moved_intent,
}
use fluvia.Payments.Refunds.{
  success_options, success_hook, same_kind, TransitionOptions, transition_refund, no_options,
  reserve_refund, add_refunded, move_intent, record_succeeded, record_failed, refunded_target,
}
use fluvia.Payments.Refunds.Booked.{
  status_of, expects, IsBooked, MovedTo, Opens, nothing, transition_refund-MovedTo, post-IsBooked,
}

Opens-request : Opens (same_kind request) RefundStatus.processing
unfolding can_transition refund_transitions expects
Opens-request RefundStatus.created request h = refl
Opens-request _ _ h = ground arith

Opens-settle : Opens (same_kind settle) RefundStatus.succeeded
unfolding can_transition refund_transitions expects
Opens-settle RefundStatus.created request h = cc
Opens-settle _ _ h = ground arith

Opens-cancel : Opens (same_kind cancel) RefundStatus.failed
unfolding can_transition refund_transitions expects
Opens-cancel RefundStatus.created request h = cc
Opens-cancel _ _ h = ground arith

pub Opens-canceled : Opens nothing RefundStatus.canceled
unfolding can_transition refund_transitions expects
Opens-canceled RefundStatus.created request h = refl
Opens-canceled _ _ h = ground arith

pub Opens-indeterminate : Opens nothing RefundStatus.indeterminate
unfolding can_transition refund_transitions expects
Opens-indeterminate RefundStatus.created request h = cc
Opens-indeterminate _ _ h = ground arith

-- The intent's part of a success leaves the refunds and the postings alone.
abbrev SameBooks : Store → Store → Type 0
SameBooks s s' = (s'.refunds ≡ s.refunds) × (s'.postings ≡ s.postings)

add_refunded-SameBooks :
    (intent amount : ℕ) (s s' : Store) → add_refunded intent amount s ≡ ok s' → SameBooks s s'
unfolding add_refunded
add_refunded-SameBooks intent amount s s' h = elim (Option-cases (find_intent intent s.intents)) [
  | inl missing ↦ absurd (err-ne-ok (rw (missing, add_refunded) at h))
  | inr (x, found) ↦
      let (passed, done) =
        throw_if-then (ltb x.amount_captured (x.amount_refunded + amount)) check_violation
          (ok (record s {
            intents =
                update_intent intent
                  (λ y. record y { amount_refunded = y.amount_refunded + amount }) s.intents;
          }))
          (rw (found, add_refunded) at h) in
      (
        sym (ap (λ t. t.refunds) (ok-injective done)),
        sym (ap (λ t. t.postings) (ok-injective done)),
      )
]

transition_in-SameBooks :
    (now i : ℕ) (to : IntentStatus) (code : Option Text) (s s' : Store)
    → transition_in now i to code s ≡ ok s'
    → SameBooks s s'
unfolding transition_in
transition_in-SameBooks now i to code s s' h = elim (Option-cases (find_intent i s.intents)) [
  | inl missing ↦ absurd (err-ne-ok (rw (missing, transition_in) at h))
  | inr (x, found) ↦
      let (passed, done) =
        throw_if-then (not (can_transition intent_transitions x.status to))
          (invalid_state_transition x.status to)
          (ok (record s {
            intents = update_intent i (moved_intent now to code) s.intents;
            events = s.events ++ intent_event i to ∷ [];
          }))
          (rw (found, transition_in) at h) in
      (
        sym (ap (λ t. t.refunds) (ok-injective done)),
        sym (ap (λ t. t.postings) (ok-injective done)),
      )
]

move_intent-SameBooks :
    (now intent : ℕ) (s s' : Store) → move_intent now intent s ≡ ok s' → SameBooks s s'
unfolding move_intent
move_intent-SameBooks now intent s s' h = elim (Option-cases (find_intent intent s.intents)) [
  | inl missing ↦ absurd (err-ne-ok (rw (missing, move_intent) at h))
  | inr (x, found) ↦
      transition_in-SameBooks now intent (refunded_target x) none s s'
        (rw (found, move_intent) at h)
]

pub reserve_refund-IsBooked :
    (now i amount : ℕ) (refused : Option LedgerError) (s s' : Store)
    → IsBooked s
    → reserve_refund now i amount refused s ≡ ok s'
    → IsBooked s'
unfolding reserve_refund
reserve_refund-IsBooked now i amount refused s s' booked h =
    post-IsBooked (record { refund_id = i; kind = request; amount = amount })
      RefundStatus.processing refused (transition_refund now i RefundStatus.processing no_options) s
      s' Opens-request
      (λ t t' e. transition_refund-MovedTo now i RefundStatus.processing no_options t t' e) booked h

pub record_failed-IsBooked :
    (now i amount : ℕ) (ref : Option Text) (code : Text) (refused : Option LedgerError)
    (s s' : Store)
    → IsBooked s
    → record_failed now i amount ref code refused s ≡ ok s'
    → IsBooked s'
unfolding record_failed
record_failed-IsBooked now i amount ref code refused s s' booked h =
    let opts : TransitionOptions = record {
      failure_code = some code;
      provider_ref = ref;
      silent = false;
    } in
    post-IsBooked (record { refund_id = i; kind = cancel; amount = amount }) RefundStatus.failed
      refused (transition_refund now i RefundStatus.failed opts) s s' Opens-cancel
      (λ t t' e. transition_refund-MovedTo now i RefundStatus.failed opts t t' e) booked h

success_hook-MovedTo :
    (now i intent amount : ℕ) (ref : Text) (t t' : Store)
    → success_hook now i intent amount ref t ≡ ok t'
    → MovedTo i RefundStatus.succeeded t t'
unfolding success_hook
success_hook-MovedTo now i intent amount ref t t' h =
    let (a, refund_moved, rest) =
      >>=-eq-ok (transition_refund now i RefundStatus.succeeded (success_options ref) t)
        (λ a. add_refunded intent amount a >>= λ b. move_intent now intent b) h in
    let (b, added, last) =
      >>=-eq-ok (add_refunded intent amount a) (λ b. move_intent now intent b) rest in
    let (from, was, legal, kept, now_is) =
      transition_refund-MovedTo now i RefundStatus.succeeded (success_options ref) t a
        refund_moved in
    let (refunds_b, postings_b) = add_refunded-SameBooks intent amount a b added in
    let (refunds_c, postings_c) = move_intent-SameBooks now intent b t' last in
    (
      from,
      was,
      legal,
      postings_c ∙ postings_b ∙ kept,
      λ j. ap (status_of j) (refunds_c ∙ refunds_b) ∙ now_is j,
    )

pub record_succeeded-IsBooked :
    (now i intent amount : ℕ) (ref : Text) (refused : Option LedgerError) (s s' : Store)
    → IsBooked s
    → record_succeeded now i intent amount ref refused s ≡ ok s'
    → IsBooked s'
unfolding record_succeeded
record_succeeded-IsBooked now i intent amount ref refused s s' booked h =
    post-IsBooked (record { refund_id = i; kind = settle; amount = amount }) RefundStatus.succeeded
      refused (success_hook now i intent amount ref) s s' Opens-settle
      (success_hook-MovedTo now i intent amount ref) booked h
