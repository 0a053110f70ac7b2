-- ===== src/Payments/Refunds/Booked.antt =====
-- The postings of the ledger and the statuses of the refunds agree.
use fluvia.Base.{
  ℕ, ◌==◌, ==_iff, ◌≡◌, refl, sym, ap, ap₂, ◌∙◌, subst, Bool, true, false, ◌&&◌, ◌||◌, not, List,
  [], ◌∷◌, ◌++◌, Result, ok, throw_if-then, ok-injective, err-ne-ok, Option, none, some,
  Option-cases, Bool-cases, inl, inr, if◌then◌else◌, arith,
}
use fluvia.Ledger.Types.{LedgerError}
use fluvia.Payments.Fsm.{RefundStatus, refund_transitions}
use fluvia.Payments.Fsm.Machine.{can_transition, refund_enum}
use fluvia.Payments.Intents.{
  Refund, PostingKind, request, settle, cancel, Posting, Store, PaymentsError, illegal_transition,
  refund_event,
}
use fluvia.Payments.Refunds.{
  same_kind, find_refund, update_refund, TransitionOptions, moved_refund, transition_refund,
  has_posting, post,
}

unfoldable pub status_of : ℕ → List Refund → Option RefundStatus
status_of i [] = none
status_of i (r ∷ rs) = if r.id == i then some r.status else status_of i rs

status_of-find :
    (i : ℕ) (r : Refund) (rs : List Refund)
    → find_refund i rs ≡ some r
    → status_of i rs ≡ some r.status
unfolding status_of find_refund
status_of-find i r [] h = cc
status_of-find i r (x ∷ rs) h = elim (Bool-cases (x.id == i)) [
  | inl here ↦
      let first : some x ≡ some r = rw here at h in
      rw here (ap (λ o. some o) (same_status x r (cc)))
  | inr other ↦ rw other (status_of-find i r rs (rw other at h))
]
  where
    same_status : (x r : Refund) → x ≡ r → x.status ≡ r.status
    same_status x r e = ap (λ y. y.status) e

-- Which postings belong to a status: the reservation stands from `processing` on, and it is settled
-- where the refund has succeeded and canceled where it has failed.
unfoldable pub expects : PostingKind → RefundStatus → Bool
expects request RefundStatus.created = false
expects request RefundStatus.canceled = false
expects request RefundStatus.processing = true
expects request RefundStatus.indeterminate = true
expects request RefundStatus.succeeded = true
expects request RefundStatus.failed = true
expects settle RefundStatus.succeeded = true
expects settle _ = false
expects cancel RefundStatus.failed = true
expects cancel _ = false

abbrev pub expects_of : PostingKind → Option RefundStatus → Bool
expects_of k none = false
expects_of k (some s) = expects k s

unfoldable pub IsBooked : Store → Type 0
IsBooked s =
    (i : ℕ) (k : PostingKind) → has_posting i k s.postings ≡ expects_of k (status_of i s.refunds)

-- A refund has moved by a legal transition, and no posting has come.
abbrev pub MovedTo : ℕ → RefundStatus → Store → Store → Type 0
MovedTo i to s s' =
    (from : RefundStatus) × (status_of i s.refunds ≡ some from)
    × (can_transition refund_transitions from to ≡ true)
    × (s'.postings ≡ s.postings)
    × ((j : ℕ) → status_of j s'.refunds ≡ (if j == i then some to else status_of j s.refunds))

status_of-update :
    (now i j : ℕ) (to : RefundStatus) (opts : TransitionOptions) (from : RefundStatus)
    (rs : List Refund)
    → status_of i rs ≡ some from
    → status_of j (update_refund i (moved_refund now to opts) rs)
      ≡ (if j == i then some to else status_of j rs)
unfolding update_refund moved_refund status_of
status_of-update now i j to opts from [] h = cc
status_of-update now i j to opts from (r ∷ rs) h = elim (Bool-cases (r.id == i)) [
  | inl here ↦ rw here (ground arith)
  | inr other ↦ rw other (
      ap (λ o. if r.id == j then some r.status else o)
        (status_of-update now i j to opts from rs (rw other at h))
      ∙ ground arith)
]

pub transition_refund-MovedTo :
    (now i : ℕ) (to : RefundStatus) (opts : TransitionOptions) (s s' : Store)
    → transition_refund now i to opts s ≡ ok s'
    → MovedTo i to s s'
unfolding transition_refund
transition_refund-MovedTo now i to opts s s' h = elim (Option-cases (find_refund i s.refunds)) [
  | inl missing ↦ absurd (err-ne-ok (rw (missing, transition_refund) at h))
  | inr (r, found) ↦
      let (passed, done) =
        throw_if-then (not (can_transition refund_transitions r.status to)) illegal_transition
          (ok (record s {
            refunds = update_refund i (moved_refund now to opts) s.refunds;
            events = if opts.silent then s.events else s.events ++ refund_event i to ∷ [];
          }))
          (rw (found, transition_refund) at h) in
      let e = ok-injective done in
      let status = status_of-find i r s.refunds found in
      (
        r.status,
        status,
        ground arith,
        sym (ap (λ t. t.postings) e),
        λ j.
            sym (ap (λ t. status_of j t.refunds) e)
            ∙ status_of-update now i j to opts r.status s.refunds status,
      )
]

or_false : (b : Bool) → b || false ≡ b
or_false true = refl
or_false false = refl

flip : (i j : ℕ) (b : Bool) → (j == i) ≡ b → (i == j) ≡ b
flip i j b h = ground arith

regroup : (a b c : Bool) → (a || b) || c ≡ a || (b || c)
regroup true b c = refl
regroup false b c = refl

has_posting-append :
    (j : ℕ) (k : PostingKind) (ps : List Posting) (p : Posting)
    → has_posting j k (ps ++ p ∷ [])
      ≡ has_posting j k ps || ((p.refund_id == j) && same_kind p.kind k)
unfolding has_posting
has_posting-append j k [] p = or_false ((p.refund_id == j) && same_kind p.kind k)
has_posting-append j k (q ∷ ps) p =
    ap (λ b. (q.refund_id == j) && same_kind q.kind k || b) (has_posting-append j k ps p)
    ∙ sym (
        regroup ((q.refund_id == j) && same_kind q.kind k) (has_posting j k ps)
          ((p.refund_id == j) && same_kind p.kind k))

-- A legal transition to this status comes with the postings that the status expects besides.
abbrev pub Opens : (PostingKind → Bool) → RefundStatus → Type 0
Opens extra to =
    (from : RefundStatus) (k : PostingKind)
    → can_transition refund_transitions from to ≡ true
    → expects k to ≡ expects k from || extra k

moved-IsBooked :
    (i : ℕ) (to : RefundStatus) (extra : PostingKind → Bool) (ps : List Posting) (s s' : Store)
    → Opens extra to
    → ((j : ℕ) (k : PostingKind)
        → has_posting j k ps ≡ has_posting j k s.postings || ((i == j) && extra k))
    → IsBooked s
    → MovedTo i to (record s { postings = ps }) s'
    → IsBooked s'
unfolding IsBooked
moved-IsBooked i to extra ps s s' opens posts booked (from, was, legal, kept, now_is) j k =
    ap (has_posting j k) kept
    ∙ posts j k
    ∙ ap (λ b. b || ((i == j) && extra k)) (booked j k)
    ∙ elim (Bool-cases (j == i)) [
      | inl same ↦
          let e : j ≡ i = (==_iff j i).0 same in
          ap₂ (λ o b. expects_of k o || (b && extra k))
            (subst (λ x. status_of x s.refunds ≡ some from) (sym e) was) (flip i j true same)
          ∙ sym (opens from k legal)
          ∙ sym (
              ap (expects_of k)
                (now_is j ∙ ap (λ b. if b then some to else status_of j s.refunds) same))
      | inr other ↦
          ap (λ b. expects_of k (status_of j s.refunds) || (b && extra k)) (flip i j false other)
          ∙ or_false (expects_of k (status_of j s.refunds))
          ∙ sym (
              ap (expects_of k)
                (now_is j ∙ ap (λ b. if b then some to else status_of j s.refunds) other))
    ]

-- A posting with a hook that moves the refund: the ledger and the status move together, or not at all.
pub post-IsBooked :
    (p : Posting) (to : RefundStatus) (refused : Option LedgerError)
    (hook : Store → Result PaymentsError Store) (s s' : Store)
    → Opens (same_kind p.kind) to
    → ((t t' : Store) → hook t ≡ ok t' → MovedTo p.refund_id to t t')
    → IsBooked s
    → post p refused hook s ≡ ok s'
    → IsBooked s'
unfolding post
post-IsBooked p to (some e) hook s s' opens moves booked h = absurd (err-ne-ok h)
post-IsBooked p to none hook s s' opens moves booked h =
    elim (Bool-cases (has_posting p.refund_id p.kind s.postings)) [
      | inl before ↦ subst IsBooked (ok-injective (rw (before, post) at h)) booked
      | inr fresh ↦
          moved-IsBooked p.refund_id to (same_kind p.kind) (s.postings ++ p ∷ []) s s' opens
            (λ j k. has_posting-append j k s.postings p) booked
            (moves (record s { postings = s.postings ++ p ∷ [] }) s' (rw (fresh, post) at h))
    ]

abbrev pub nothing : PostingKind → Bool
nothing k = false

pub alone-IsBooked :
    (now i : ℕ) (to : RefundStatus) (opts : TransitionOptions) (s s' : Store)
    → Opens nothing to
    → IsBooked s
    → transition_refund now i to opts s ≡ ok s'
    → IsBooked s'
alone-IsBooked now i to opts s s' opens booked h =
    moved-IsBooked i to nothing s.postings s s' opens
      (λ j k. no_more (has_posting j k s.postings) (i == j)) booked
      (transition_refund-MovedTo now i to opts s s' h)
  where
    no_more : (b c : Bool) → b ≡ b || (c && false)
    no_more true c = refl
    no_more false true = refl
    no_more false false = refl
