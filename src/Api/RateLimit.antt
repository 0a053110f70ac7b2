-- ===== src/Api/RateLimit.antt =====
-- apps/api/src/rate-limit.ts: the limiter of fixed windows in the memory of the process, the limiter
-- over a shared store, and the handler that applies the rules. A `Map` is a function from keys.
pub mod View
pub mod Windows
pub mod Tests
use fluvia.Base.{
  ℕ, suc, ◌+◌, ◌-◌, ◌/◌, ◌≡◌, Bool, true, false, List, [], ◌∷◌, ℤ, pos, negsuc, Result, ok, err,
  Option, none, some, if◌then◌else◌, leb, ltb,
}
use fluvia.Base.Text.{Text, text_eq}

pub record RateRule : Type 0 where
  pub max : ℕ
  pub window_ms : ℕ

pub record Bucket : Type 0 where
  pub count : ℕ
  pub reset_at : ℕ

-- `FixedWindowLimiter`
pub record Limiter : Type 0 where
  pub buckets : Text → Option Bucket
  pub sweep_at : ℕ

abbrev pub new_limiter : Limiter
new_limiter = record { buckets = λ k. none; sweep_at = 0 }

-- The bucket, unless its window is over.
abbrev pub unexpired : ℕ → Option Bucket → Option Bucket
unexpired now none = none
unexpired now (some b) = if leb b.reset_at now then none else some b

-- `sweep`
unfoldable pub sweep : ℕ → Limiter → Limiter
sweep now l =
    if ltb now l.sweep_at
    then l
    else record { buckets = λ k. unexpired now (l.buckets k); sweep_at = now + 60000 }

-- `buckets.set(key, bucket)`
abbrev pub set_bucket : Text → Bucket → Limiter → Limiter
set_bucket key b l = record l { buckets = λ k. if text_eq k key then some b else l.buckets k }

-- `Math.max(1, Math.ceil(ms / 1000))`
abbrev pub seconds : ℕ → ℕ
seconds ms = let s = (ms + 999) / 1000 in if ltb s 1 then 1 else s

abbrev pub fresh : RateRule → ℕ → Bucket
fresh rule now = record { count = 1; reset_at = now + rule.window_ms }

-- `hit` after the sweep, for the bucket that is found.
unfoldable pub hit_bucket : Text → RateRule → ℕ → Option Bucket → Limiter → Option ℕ × Limiter
hit_bucket key rule now none l = (none, set_bucket key (fresh rule now) l)
hit_bucket key rule now (some b) l =
    if leb b.reset_at now then (none, set_bucket key (fresh rule now) l) else (
      if ltb rule.max (b.count + 1) then some (seconds (b.reset_at - now)) else none,
      set_bucket key (record b { count = b.count + 1 }) l,
    )

-- `FixedWindowLimiter.hit`
unfoldable pub hit : Text → RateRule → ℕ → Limiter → Option ℕ × Limiter
unfolding sweep hit_bucket
hit key rule now l = let swept = sweep now l in hit_bucket key rule now (swept.buckets key) swept

-- What the script returns from the shared store: a number, or something else.
pub data Reply : Type 0 where
  number : ℤ → Reply
  other_reply : Reply

-- `RedisFixedWindowLimiter.hit`: the script is a parameter, and may throw.
unfoldable pub redis_hit {ℓ} :
    {E : Type ℓ} → (Text → RateRule → Result E Reply) → Text → RateRule → Option ℕ
redis_hit eval_script key rule = elim (eval_script key rule) [
  | err e ↦ none
  | ok reply ↦ elim reply [
    | number ttl ↦ elim ttl [ pos ms ↦ some (seconds ms) | negsuc n ↦ none ]
    | other_reply ↦ none
  ]
]

-- `none` of the key: the rule does not apply to the request.
pub record RateLimitCheck {ℓ} (Request : Type ℓ) : Type ℓ where
  pub key_of : Request → Option Text
  pub rule : RateRule

-- `rateLimit`: the seconds to wait, if some rule is exceeded. `clock n` is the time at rule `n`.
unfoldable pub rate_limit {ℓ} :
    {Request : Type ℓ}
    → (ℕ → ℕ)
    → ℕ
    → List (RateLimitCheck Request)
    → Request
    → Limiter
    → Option ℕ × Limiter
rate_limit clock n [] req l = (none, l)
rate_limit clock n (check ∷ checks) req l =
    let rest = λ (l' : Limiter). rate_limit clock (suc n) checks req l' in
    elim (check.key_of req) [
      | none ↦ rest l
      | some key ↦
          let (wait, l') = hit key check.rule (clock n) l in
          elim wait [ none ↦ rest l' | some s ↦ (some s, l') ]
    ]
