-- ===== src/Api/RateLimit/Tests.antt =====
-- apps/api/src/rate-limit.ts: examples.
use Prim.Native.Nat.{min}
use fluvia.Base.{ℕ, ◌+◌, ◌≡◌, refl, [], ◌∷◌, none, some, arith}
use fluvia.Base.Text.{Text, text_eq}
use fluvia.Api.RateLimit.{RateRule, Limiter, new_limiter, hit, rate_limit}
use fluvia.Api.RateLimit.Windows.{Hit, hits_of, passes, passes_window, hit-wait}

abbrev two_a_minute : RateRule
two_a_minute = record { max = 2; window_ms = 60000 }

abbrev ann : Text
ann = 97 ∷ []

abbrev bob : Text
bob = 98 ∷ []

abbrev at : Text → ℕ → Hit
at k t = record { key = k; time = t }

passes_window_example :
    passes
      (λ k. two_a_minute)
      ann
      (at ann 1000 ∷ at bob 1500 ∷ at ann 2000 ∷ at ann 3000 ∷ at bob 9000 ∷ at ann 60999 ∷ [])
      new_limiter
    ≡ min
        (1
          + hits_of ann (at bob 1500 ∷ at ann 2000 ∷ at ann 3000 ∷ at bob 9000 ∷ at ann 60999 ∷ []))
        2
passes_window_example =
    passes_window (λ k. two_a_minute) ann 1000
      (at bob 1500 ∷ at ann 2000 ∷ at ann 3000 ∷ at bob 9000 ∷ at ann 60999 ∷ []) new_limiter
      (omega arith) (omega arith) refl (omega arith)

-- Two of the four hits pass.
two_pass :
    passes
      (λ k. two_a_minute)
      ann
      (at ann 1000 ∷ at bob 1500 ∷ at ann 2000 ∷ at ann 3000 ∷ at bob 9000 ∷ at ann 60999 ∷ [])
      new_limiter
    ≡ 2
unfolding passes hit text_eq
two_pass = refl

abbrev used_up : Limiter
used_up = record { buckets = λ k. some (record { count = 2; reset_at = 61000 }); sweep_at = 61000 }

refused_58 : (hit ann two_a_minute 3500 used_up).0 ≡ some 58
unfolding hit
refused_58 = refl

hit-wait_example : (hit ann two_a_minute 61500 (hit ann two_a_minute 3500 used_up).1).0 ≡ none
hit-wait_example =
    hit-wait ann two_a_minute two_a_minute 3500 61500 58 used_up refused_58 (omega arith)

-- The second rule refuses, the first does not apply.
handler_refuses :
    (rate_limit
      (λ n. 3500)
      0
      (record { key_of = λ (req : Text). none; rule = two_a_minute }
        ∷ record { key_of = λ (req : Text). some req; rule = two_a_minute }
        ∷ [])
      ann
      used_up).0
    ≡ some 58
unfolding rate_limit hit
handler_refuses = refl
