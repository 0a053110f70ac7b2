-- ===== src/Api/RateLimit/View.antt =====
-- What a limiter shows of a key: its bucket while the window is open. The sweep is not seen.
use fluvia.Base.{
  ℕ, ◌+◌, ◌-◌, ◌≤◌, ◌≡◌, refl, ap, ◌∙◌, Option, none, some, Bool-cases, inl, inr, arith,
  if◌then◌else◌, leb, ltb,
}
use fluvia.Base.Text.{Text, text_eq}
use fluvia.Api.RateLimit.{
  RateRule, Bucket, Limiter, unexpired, sweep, set_bucket, seconds, fresh, hit_bucket, hit,
}

abbrev pub view : Text → ℕ → Limiter → Option Bucket
view key now l = unexpired now (l.buckets key)

-- The bucket that a hit leaves, and what it answers, for the bucket that is in view.
abbrev pub next_bucket : RateRule → ℕ → Option Bucket → Bucket
next_bucket rule now none = fresh rule now
next_bucket rule now (some b) = record b { count = b.count + 1 }

abbrev pub answer_for : RateRule → ℕ → Option Bucket → Option ℕ
answer_for rule now none = none
answer_for rule now (some b) =
    if ltb rule.max (b.count + 1) then some (seconds (b.reset_at - now)) else none

unexpired-later :
    (o : Option Bucket) (now later : ℕ)
    → now ≤ later
    → unexpired later (unexpired now o) ≡ unexpired later o
unexpired-later none now later h = refl
unexpired-later (some b) now later h = ground arith

-- A sweep is seen by no key, now or later.
sweep-view :
    (key : Text) (now later : ℕ) (l : Limiter)
    → now ≤ later
    → view key later (sweep now l) ≡ view key later l
unfolding sweep
sweep-view key now later l h = elim (Bool-cases (ltb now l.sweep_at)) [
  | inl early ↦ rw (early, sweep) refl
  | inr due ↦ rw (due, sweep) (unexpired-later (l.buckets key) now later h)
]

hit_bucket_lem :
    (key : Text) (rule : RateRule) (now : ℕ) (o : Option Bucket) (l : Limiter)
    → hit_bucket key rule now o l ≡ (
      answer_for rule now (unexpired now o),
      set_bucket key (next_bucket rule now (unexpired now o)) l,
    )
unfolding hit_bucket
hit_bucket_lem key rule now none l = refl
hit_bucket_lem key rule now (some b) l = elim (Bool-cases (leb b.reset_at now)) [
  | inl over ↦ rw over refl
  | inr still_open ↦ rw still_open refl
]

-- What a hit answers is decided by the bucket in view.
pub hit-answer :
    (key : Text) (rule : RateRule) (now : ℕ) (l : Limiter)
    → (hit key rule now l).0 ≡ answer_for rule now (view key now l)
unfolding hit
hit-answer key rule now l =
    ap (λ p. p.0) (hit_bucket_lem key rule now ((sweep now l).buckets key) (sweep now l))
    ∙ ap (answer_for rule now) (sweep-view key now now l (omega arith))

-- What is in view after a hit, of any key at any later time.
pub hit-view :
    (key other : Text) (rule : RateRule) (now later : ℕ) (l : Limiter)
    → now ≤ later
    → view other later (hit key rule now l).1 ≡ (
        if text_eq other key
        then unexpired later (some (next_bucket rule now (view key now l)))
        else view other later l)
unfolding hit
hit-view key other rule now later l h =
    ap (λ p. view other later p.1)
      (hit_bucket_lem key rule now ((sweep now l).buckets key) (sweep now l))
    ∙ elim (Bool-cases (text_eq other key)) [
      | inl same ↦ rw same (
          ap (λ o. unexpired later (some (next_bucket rule now o)))
            (sweep-view key now now l (omega arith)))
      | inr differs ↦ rw differs (sweep-view other now later l h)
    ]
