-- ===== src/Payments/Refunds/Remaining.antt =====
-- How much of a payment a new refund may take.
use fluvia.Base.{
  ℕ, ◌+◌, ◌==◌, ==_refl, ◌≤◌, ◌≡◌, refl, sym, ap, ◌∙◌, subst, ℤ, pos, negsuc, pos_part, sub_ℕ,
  ltb_ℤ, Bool, true, false, ◌&&◌, ◌||◌, not, List, [], ◌∷◌, ◌++◌, all, Result, ok, ◌>>◌, throw_if,
  throw_if-then, ok-injective, err-ne-ok, none, some, Option-cases, inl, inr, if◌then◌else◌, arith,
}
use fluvia.Base.Enum.{eqb}
use fluvia.Base.Text.{Text}
use fluvia.Payments.Fsm.{IntentStatus, RefundStatus}
use fluvia.Payments.Fsm.Machine.{refund_enum, intent_enum}
use fluvia.Payments.Intents.{
  Intent, Refund, Store, PaymentsError, invalid_state_transition, refund_amount_exceeds_remaining,
  find_intent, refund_event,
}
use fluvia.Payments.Refunds.{
  is_in_flight, sum_amounts, CreateRefundInput, requested_amount, remaining_of, is_refundable,
  new_refund, begin_in,
}

sum_amounts-append :
    (p : Refund → Bool) (i : ℕ) (rs : List Refund) (r : Refund)
    → sum_amounts p i (rs ++ r ∷ [])
      ≡ sum_amounts p i rs + (if (r.payment_intent_id == i) && p r then r.amount else 0)
unfolding sum_amounts
sum_amounts-append p i [] r = omega arith
sum_amounts-append p i (x ∷ rs) r = omega (arith, sum_amounts-append p i rs r)

-- The checks on the amount, as orders.
fits :
    (captured used : ℕ) (q : ℤ)
    → not (ltb_ℤ (pos 0) q) || ltb_ℤ (sub_ℕ captured used) q ≡ false
    → (1 ≤ pos_part q) × (used + pos_part q ≤ captured)
fits captured used (pos n) h = ground arith
fits captured used (negsuc n) h = ground arith

-- What `beginIn` leaves where it succeeds.
begun :
    (new_id : ℕ) (provider : Text) (input : CreateRefundInput) (s s' : Store) (row : Refund)
    → begin_in new_id provider input s ≡ ok (row, s')
    → (x : Intent) × (find_intent input.payment_intent_id s.intents ≡ some x)
      × (is_refundable x ≡ true)
      × (not (ltb_ℤ (pos 0) (requested_amount input.amount (remaining_of x s.refunds)))
            || ltb_ℤ
                (remaining_of x s.refunds)
                (requested_amount input.amount (remaining_of x s.refunds))
          ≡ false)
      × (row
          ≡ new_refund new_id provider x
              (pos_part (requested_amount input.amount (remaining_of x s.refunds)))
              input.reason)
      × (s'.refunds ≡ s.refunds ++ row ∷ [])
unfolding begin_in
begun new_id provider input s s' row h =
    elim (Option-cases (find_intent input.payment_intent_id s.intents)) [
      | inl missing ↦ absurd (err-ne-ok (rw (missing, begin_in) at h))
      | inr (x, found) ↦
          let remaining = remaining_of x s.refunds in
          let requested = requested_amount input.amount remaining in
          let made = new_refund new_id provider x (pos_part requested) input.reason in
          let result : Result PaymentsError (Refund × Store) = ok (
            made,
            record s {
              refunds = s.refunds ++ made ∷ [];
              events = s.events ++ refund_event new_id RefundStatus.created ∷ [];
            },
          ) in
          let (paid, rest) =
            throw_if-then (not (is_refundable x))
              (invalid_state_transition x.status IntentStatus.refunded)
              (throw_if (not (ltb_ℤ (pos 0) requested) || ltb_ℤ remaining requested)
                  (refund_amount_exceeds_remaining requested remaining)
                >> result)
              (rw (found, begin_in) at h) in
          let (enough, done) =
            throw_if-then (not (ltb_ℤ (pos 0) requested) || ltb_ℤ remaining requested)
              (refund_amount_exceeds_remaining requested remaining) result rest in
          let e = ok-injective done in
          (
            x,
            found,
            was_true (is_refundable x) paid,
            enough,
            sym (ap (λ p. p.0) e),
            sym (ap (λ p. p.1.refunds) e) ∙ ap (λ r. s.refunds ++ r ∷ []) (ap (λ p. p.0) e),
          )
    ]
  where
    was_true : (b : Bool) → not b ≡ false → b ≡ true
    was_true b h = ground arith

-- A refund that is begun is stored, as one under way of a paid intent and of a positive amount, and
-- with what has been refunded and what is created or in process, itself included, it does not exceed
-- what was captured.
pub begin_in_within :
    (new_id : ℕ) (provider : Text) (input : CreateRefundInput) (s s' : Store) (row : Refund)
    → begin_in new_id provider input s ≡ ok (row, s')
    → (x : Intent) × (find_intent input.payment_intent_id s.intents ≡ some x)
      × (is_refundable x ≡ true)
      × (s'.refunds ≡ s.refunds ++ row ∷ [])
      × (row.payment_intent_id ≡ x.id)
      × (is_in_flight row ≡ true)
      × (1 ≤ row.amount)
      × (x.amount_refunded + sum_amounts is_in_flight x.id s'.refunds ≤ x.amount_captured)
begin_in_within new_id provider input s s' row h =
    let (x, found, paid, enough, made, stored) = begun new_id provider input s s' row h in
    let requested = requested_amount input.amount (remaining_of x s.refunds) in
    let (positive, within) =
      fits x.amount_captured (x.amount_refunded + sum_amounts is_in_flight x.id s.refunds) requested
        enough in
    let amount : row.amount ≡ pos_part requested = ap (λ r. r.amount) made in
    let total : sum_amounts is_in_flight x.id s'.refunds
        ≡ sum_amounts is_in_flight x.id s.refunds + pos_part requested =
      ap (sum_amounts is_in_flight x.id) stored
      ∙ sum_amounts-append is_in_flight x.id s.refunds row
      ∙ ap
          (λ r.
            sum_amounts is_in_flight x.id s.refunds
            + (if (r.payment_intent_id == x.id) && is_in_flight r then r.amount else 0))
          made
      ∙ rw (==_refl x.id) refl in
    (
      x,
      found,
      paid,
      stored,
      ap (λ r. r.payment_intent_id) made,
      ap is_in_flight made,
      omega (arith, positive, amount),
      omega (arith, total, within),
    )

abbrev pub is_indeterminate : Refund → Bool
is_indeterminate r = eqb r.status RefundStatus.indeterminate

not_in_flight :
    (t : RefundStatus)
    → eqb t RefundStatus.indeterminate ≡ true
    → eqb t RefundStatus.created || eqb t RefundStatus.processing ≡ false
not_in_flight RefundStatus.indeterminate h = refl
not_in_flight RefundStatus.created h = cc
not_in_flight _ h = ground arith

none_in_flight :
    (i : ℕ) (rs : List Refund) → all is_indeterminate rs ≡ true → sum_amounts is_in_flight i rs ≡ 0
unfolding sum_amounts
none_in_flight i [] h = refl
none_in_flight i (r ∷ rs) h =
    let (first, others) = both (is_indeterminate r) (all is_indeterminate rs) h in
    rw (not_in_flight r.status first) (
      both_zero (r.payment_intent_id == i) r.amount (sum_amounts is_in_flight i rs)
        (none_in_flight i rs others))
  where
    both : (a b : Bool) → a && b ≡ true → (a ≡ true) × (b ≡ true)
    both a b h = ground arith

    both_zero : (b : Bool) (n m : ℕ) → m ≡ 0 → (if b && false then n else 0) + m ≡ 0
    both_zero b n m e = ground arith

whole_is_free :
    (c u v : ℕ)
    → u ≡ 0
    → v ≡ 0
    → 1 ≤ c
    → (not (ltb_ℤ (pos 0) (requested_amount none (sub_ℕ c (u + v))))
          || ltb_ℤ (sub_ℕ c (u + v)) (requested_amount none (sub_ℕ c (u + v)))
        ≡ false)
      × (pos_part (requested_amount none (sub_ℕ c (u + v))) ≡ c)
whole_is_free c u v p q h = ground arith

-- Where the checks pass, `beginIn` succeeds.
begin_in-passes :
    (new_id : ℕ) (provider : Text) (input : CreateRefundInput) (s : Store) (x : Intent)
    → find_intent input.payment_intent_id s.intents ≡ some x
    → not (is_refundable x) ≡ false
    → not (ltb_ℤ (pos 0) (requested_amount input.amount (remaining_of x s.refunds)))
        || ltb_ℤ
            (remaining_of x s.refunds)
            (requested_amount input.amount (remaining_of x s.refunds))
      ≡ false
    → (s' : Store) × (begin_in new_id provider input s
        ≡ ok (
          new_refund new_id provider x
              (pos_part (requested_amount input.amount (remaining_of x s.refunds)))
              input.reason,
          s',
        ))
unfolding begin_in
begin_in-passes new_id provider input s x found paid enough =
    let row =
      new_refund new_id provider x
        (pos_part (requested_amount input.amount (remaining_of x s.refunds))) input.reason in
    (
      record s {
        refunds = s.refunds ++ row ∷ [];
        events = s.events ++ refund_event new_id RefundStatus.created ∷ [];
      },
      rw (found, begin_in) (rw paid (rw enough refl)),
    )

-- Refunds whose outcome is unknown take nothing from what remains: while every refund of the tenant
-- is `indeterminate`, whatever their amounts, a refund of all that was captured is begun.
pub begin_in-indeterminate :
    (new_id : ℕ) (provider : Text) (input : CreateRefundInput) (s : Store) (x : Intent)
    → find_intent input.payment_intent_id s.intents ≡ some x
    → x.status ≡ IntentStatus.succeeded
    → x.amount_refunded ≡ 0
    → 1 ≤ x.amount_captured
    → all is_indeterminate s.refunds ≡ true
    → input.amount ≡ none
    → (row : Refund) × (s' : Store) × (begin_in new_id provider input s ≡ ok (row, s'))
      × (row.amount ≡ x.amount_captured)
begin_in-indeterminate new_id provider input s x found paid nothing_yet some_captured unknown
      whole =
    let free =
      whole_is_free x.amount_captured x.amount_refunded (sum_amounts is_in_flight x.id s.refunds)
        nothing_yet (none_in_flight x.id s.refunds unknown) some_captured in
    let refundable : not (is_refundable x) ≡ false =
      ap (λ t. not (eqb t IntentStatus.succeeded || eqb t IntentStatus.partially_refunded)) paid in
    let (s', done) = begin_in-passes new_id provider input s x found refundable (
      subst
        (λ o.
          not (ltb_ℤ (pos 0) (requested_amount o (remaining_of x s.refunds)))
            || ltb_ℤ (remaining_of x s.refunds) (requested_amount o (remaining_of x s.refunds))
          ≡ false)
        (sym whole) free.0) in
    (
      new_refund new_id provider x
          (pos_part (requested_amount input.amount (remaining_of x s.refunds))) input.reason,
      s',
      done,
      ap (λ o. pos_part (requested_amount o (remaining_of x s.refunds))) whole ∙ free.1,
    )
