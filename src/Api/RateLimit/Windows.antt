-- ===== src/Api/RateLimit/Windows.antt =====
-- How many hits of a key a window lets pass, and what waiting does.
use Prim.Native.Nat.{min}
use fluvia.Base.{
  ℕ, ◌+◌, ◌-◌, ◌*◌, ◌≤◌, ◌<◌, ◌≡◌, ap, ap₂, ◌∙◌, sym, subst, false, List, [], ◌∷◌, Option, none,
  some, Option-cases, Bool-cases, inl, inr, arith, if◌then◌else◌, ltb, none-ne-some,
}
use fluvia.Base.Text.{Text, text_eq, text_eq_refl, text_eq_sound}
use fluvia.Api.RateLimit.{RateRule, Bucket, Limiter, unexpired, seconds, fresh, hit}
use fluvia.Api.RateLimit.View.{view, next_bucket, answer_for, hit-answer, hit-view}

pub record Hit : Type 0 where
  pub key : Text
  pub time : ℕ

abbrev pub one_if_passed : Option ℕ → ℕ
one_if_passed none = 1
one_if_passed (some s) = 0

-- The hits of one key among others, and those of them that pass. Each key has its rule.
unfoldable pub hits_of : Text → List Hit → ℕ
hits_of k [] = 0
hits_of k (h ∷ hs) = (if text_eq k h.key then 1 else 0) + hits_of k hs

unfoldable pub passes : (Text → RateRule) → Text → List Hit → Limiter → ℕ
passes rule_of k [] l = 0
passes rule_of k (h ∷ hs) l =
    (if text_eq k h.key then one_if_passed (hit h.key (rule_of h.key) h.time l).0 else 0)
    + passes rule_of k hs (hit h.key (rule_of h.key) h.time l).1

-- The hits come in the order of time, from `t` on and before `limit`.
abbrev pub Within : ℕ → ℕ → List Hit → Type 0
Within t limit [] = Unit
Within t limit (h ∷ hs) = (t ≤ h.time) × (h.time < limit) × Within h.time limit hs

-- The bucket stays in view until its window is over.
abbrev Stays : Text → Limiter → ℕ → Bucket → Type 0
Stays k l t b = (later : ℕ) → t ≤ later → later < b.reset_at → view k later l ≡ some b

still_open : (b : Bucket) (later : ℕ) → later < b.reset_at → unexpired later (some b) ≡ some b
still_open b later h = ground arith

hit-Stays_other :
    (k key : Text) (rule : RateRule) (t time : ℕ) (l : Limiter) (b : Bucket)
    → text_eq k key ≡ false
    → t ≤ time
    → Stays k l t b
    → Stays k (hit key rule time l).1 time b
hit-Stays_other k key rule t time l b differs after stays later h open_yet =
    hit-view key k rule time later l h ∙ rw differs (stays later (omega arith) open_yet)

hit-Stays :
    (k : Text) (rule : RateRule) (t time : ℕ) (l : Limiter) (b : Bucket)
    → t ≤ time
    → time < b.reset_at
    → Stays k l t b
    → Stays k (hit k rule time l).1 time (record b { count = b.count + 1 })
hit-Stays k rule t time l b after before stays later h open_yet =
    hit-view k k rule time later l h
    ∙ rw (text_eq_refl k) (
        ap (λ o. unexpired later (some (next_bucket rule time o))) (stays time after before)
        ∙ still_open (record b { count = b.count + 1 }) later open_yet)

answer_count :
    (rule : RateRule) (time : ℕ) (b : Bucket) (n : ℕ)
    → one_if_passed (answer_for rule time (some b)) + min n (rule.max - (b.count + 1))
      ≡ min (1 + n) (rule.max - b.count)
answer_count rule time b n = elim (Bool-cases (ltb rule.max (b.count + 1))) [
  | inl over ↦ rw over (ground arith)
  | inr passed ↦ rw passed (ground arith)
]

passes-Stays :
    (rule_of : Text → RateRule) (k : Text) (t : ℕ) (hs : List Hit) (l : Limiter) (b : Bucket)
    → Stays k l t b
    → Within t b.reset_at hs
    → passes rule_of k hs l ≡ min (hits_of k hs) ((rule_of k).max - b.count)
unfolding passes hits_of
passes-Stays rule_of k t [] l b stays w = omega arith
passes-Stays rule_of k t (h ∷ hs) l b stays (after, before, w) =
    elim (Bool-cases (text_eq k h.key)) [
      | inr differs ↦ rw (differs) (
          ap (λ n. 0 + n)
            (passes-Stays rule_of k h.time hs (hit h.key (rule_of h.key) h.time l).1 b
              (hit-Stays_other k h.key (rule_of h.key) t h.time l b differs after stays) w)
          ∙ (omega arith))
      | inl same ↦
          let e = text_eq_sound k h.key same in
          let b' = record b { count = b.count + 1 } in
          let answered =
            subst (λ x. (hit x (rule_of x) h.time l).0 ≡ answer_for (rule_of k) h.time (some b)) e
              (hit-answer k (rule_of k) h.time l
                ∙ ap (answer_for (rule_of k) h.time) (stays h.time after before)) in
          let stays' =
            subst (λ x. Stays k (hit x (rule_of x) h.time l).1 h.time b') e
              (hit-Stays k (rule_of k) t h.time l b after before stays) in
          rw same (
            ap₂ (λ o n. one_if_passed o + n) answered
              (passes-Stays rule_of k h.time hs (hit h.key (rule_of h.key) h.time l).1 b' stays' w)
            ∙ answer_count (rule_of k) h.time b (hits_of k hs))
    ]

-- Where no window of a key is open, a hit of it opens one, in which the first hits pass, as many as
-- the rule has, and no more, whatever hits of other keys come between and whenever the limiter sweeps.
pub passes_window :
    (rule_of : Text → RateRule) (k : Text) (t : ℕ) (hs : List Hit) (l : Limiter)
    → 1 ≤ (rule_of k).max
    → 1 ≤ (rule_of k).window_ms
    → view k t l ≡ none
    → Within t (t + (rule_of k).window_ms) hs
    → passes rule_of k (record { key = k; time = t } ∷ hs) l
      ≡ min (1 + hits_of k hs) ((rule_of k).max)
unfolding passes
passes_window rule_of k t hs l some_hit some_time unseen w =
    let rule = rule_of k in
    let b : Bucket = fresh rule t in
    let stays : Stays k (hit k rule t l).1 t b = λ later h open_yet.
      hit-view k k rule t later l h
      ∙ rw (text_eq_refl k) (
          ap (λ o. unexpired later (some (next_bucket rule t o))) unseen
          ∙ still_open b later open_yet) in
    rw (text_eq_refl k) (
      ap₂ (λ o n. one_if_passed o + n) (hit-answer k rule t l ∙ ap (answer_for rule t) unseen)
        (passes-Stays rule_of k t hs (hit k rule t l).1 b stays w)
      ∙ (omega arith))

waited :
    (b : Bucket) (now later : ℕ)
    → now + seconds (b.reset_at - now) * 1000 ≤ later
    → b.reset_at ≤ later
waited b now later h = ground arith

waited_told :
    (rule : RateRule) (b : Bucket) (now later s : ℕ)
    → answer_for rule now (some b) ≡ some s
    → now + s * 1000 ≤ later
    → b.reset_at ≤ later
waited_told rule b now later s told h = elim (Bool-cases (ltb rule.max (b.count + 1))) [
  | inr passed ↦ absurd (none-ne-some (rw passed at told))
  | inl over ↦
      let same : some (seconds (b.reset_at - now)) ≡ some s = rw over at told in
      let e : seconds (b.reset_at - now) ≡ s = cc in
      waited b now later (subst (λ n. now + n * 1000 ≤ later) (sym e) h)
]

closed_now : (b : Bucket) (later : ℕ) → b.reset_at ≤ later → unexpired later (some b) ≡ none
closed_now b later h = ground arith

-- A caller that is refused, and waits as many seconds as it is told, is let through then, whatever
-- rule it meets.
pub hit-wait :
    (k : Text) (rule rule' : RateRule) (now later s : ℕ) (l : Limiter)
    → (hit k rule now l).0 ≡ some s
    → now + s * 1000 ≤ later
    → (hit k rule' later (hit k rule now l).1).0 ≡ none
hit-wait k rule rule' now later s l refused h = elim (Option-cases (view k now l)) [
  | inl unseen ↦
      absurd
        (none-ne-some (sym (hit-answer k rule now l ∙ ap (answer_for rule now) unseen) ∙ refused))
  | inr (b, seen) ↦
      let told : answer_for rule now (some b) ≡ some s =
        sym (ap (answer_for rule now) seen) ∙ sym (hit-answer k rule now l) ∙ refused in
      let over = waited_told rule b now later s told h in
      let gone : view k later (hit k rule now l).1 ≡ none =
        hit-view k k rule now later l (omega arith)
        ∙ rw (text_eq_refl k) (
            ap (λ o. unexpired later (some (next_bucket rule now o))) seen
            ∙ closed_now (record b { count = b.count + 1 }) later over) in
      hit-answer k rule' later (hit k rule now l).1 ∙ ap (answer_for rule' later) gone
]
