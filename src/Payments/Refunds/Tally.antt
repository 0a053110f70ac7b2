-- ===== src/Payments/Refunds/Tally.antt =====
-- What an intent has refunded is the sum of its refunds that have succeeded.
use fluvia.Base.{
  ℕ, ◌+◌, ◌==◌, ◌≡◌, ap, ◌∙◌, subst, Bool, true, false, ◌&&◌, List, [], ◌∷◌, some, Bool-cases, inl,
  inr, if◌then◌else◌, arith,
}
use fluvia.Base.Enum.{eqb}
use fluvia.Payments.Fsm.{RefundStatus}
use fluvia.Payments.Fsm.Machine.{refund_enum, intent_enum}
use fluvia.Payments.Intents.{Intent, Refund, Store, update_intent, find_intent}
use fluvia.Payments.Refunds.{
  find_refund, update_refund, sum_amounts, TransitionOptions, moved_refund,
}

abbrev pub is_succeeded : Refund → Bool
is_succeeded r = eqb r.status RefundStatus.succeeded

unfoldable pub refunded_of : ℕ → List Intent → ℕ
refunded_of i [] = 0
refunded_of i (x ∷ xs) = if x.id == i then x.amount_refunded else refunded_of i xs

-- For every intent, and zero where there is none.
unfoldable pub IsTallied : Store → Type 0
IsTallied s = (i : ℕ) → refunded_of i s.intents ≡ sum_amounts is_succeeded i s.refunds

moved_sum :
    (b t c : Bool) (n m : ℕ)
    → c ≡ false
    → (if b && t then n else 0) + m ≡ (if b && c then n else 0) + m + (if b && t then n else 0)
moved_sum b t c n m h = ground arith

pub sum_amounts-update :
    (now i j : ℕ) (to : RefundStatus) (opts : TransitionOptions) (r : Refund) (rs : List Refund)
    → find_refund i rs ≡ some r
    → is_succeeded r ≡ false
    → sum_amounts is_succeeded j (update_refund i (moved_refund now to opts) rs)
      ≡ sum_amounts is_succeeded j rs
        + (if (r.payment_intent_id == j) && eqb to RefundStatus.succeeded then r.amount else 0)
unfolding sum_amounts update_refund find_refund moved_refund
sum_amounts-update now i j to opts r [] h k = cc
sum_amounts-update now i j to opts r (x ∷ rs) h k = elim (Bool-cases (x.id == i)) [
  | inl here ↦
      let first : some x ≡ some r = rw here at h in
      let e : x ≡ r = cc in
      rw here (
        subst
          (λ y.
            (if (x.payment_intent_id == j) && eqb to RefundStatus.succeeded then x.amount else 0)
              + sum_amounts is_succeeded j rs
            ≡ (if (x.payment_intent_id == j) && is_succeeded x then x.amount else 0)
              + sum_amounts is_succeeded j rs
              + (if (y.payment_intent_id == j) && eqb to RefundStatus.succeeded
                  then y.amount
                  else 0))
          e
          (moved_sum (x.payment_intent_id == j) (eqb to RefundStatus.succeeded) (is_succeeded x)
            x.amount (sum_amounts is_succeeded j rs) (ap is_succeeded e ∙ k)))
  | inr other ↦ rw other (
      ap (λ m. (if (x.payment_intent_id == j) && is_succeeded x then x.amount else 0) + m)
        (sum_amounts-update now i j to opts r rs (rw other at h) k)
      ∙ (omega arith))
]

refunded_of-find :
    (i : ℕ) (x : Intent) (xs : List Intent)
    → find_intent i xs ≡ some x
    → refunded_of i xs ≡ x.amount_refunded
unfolding refunded_of find_intent
refunded_of-find i x [] h = cc
refunded_of-find i x (y ∷ xs) h = elim (Bool-cases (y.id == i)) [
  | inl here ↦
      let first : some y ≡ some x = rw here at h in
      let e : y ≡ x = cc in rw here (ap (λ z. z.amount_refunded) e)
  | inr other ↦ rw other (refunded_of-find i x xs (rw other at h))
]

-- An update of the first row with an id, which adds to what is refunded.
pub refunded_of-update :
    (i j n : ℕ) (f : Intent → Intent) (x : Intent) (xs : List Intent)
    → ((y : Intent) → (f y).id ≡ y.id)
    → ((y : Intent) → (f y).amount_refunded ≡ y.amount_refunded + n)
    → find_intent i xs ≡ some x
    → refunded_of j (update_intent i f xs) ≡ refunded_of j xs + (if i == j then n else 0)
unfolding refunded_of find_intent update_intent
refunded_of-update i j n f x [] same_id adds h = cc
refunded_of-update i j n f x (y ∷ xs) same_id adds h = elim (Bool-cases (y.id == i)) [
  | inl here ↦ rw here (
      grown y.id (f y).id i j y.amount_refunded (f y).amount_refunded n (refunded_of j xs)
        (same_id y) (adds y) here)
  | inr other ↦ rw other (
      ap (λ m. if y.id == j then y.amount_refunded else m)
        (refunded_of-update i j n f x xs same_id adds (rw other at h))
      ∙ kept y.id i j y.amount_refunded (refunded_of j xs) n other)
]
  where
    grown :
        (a a' i j u u' n m : ℕ)
        → a' ≡ a
        → u' ≡ u + n
        → (a == i) ≡ true
        → (if a' == j then u' else m) ≡ (if a == j then u else m) + (if i == j then n else 0)
    grown a a' i j u u' n m p q h = ground arith

    kept :
        (a i j u m n : ℕ)
        → (a == i) ≡ false
        → (if a == j then u else m + (if i == j then n else 0))
          ≡ (if a == j then u else m) + (if i == j then n else 0)
    kept a i j u m n h = ground arith
