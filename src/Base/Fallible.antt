-- ===== src/Base/Fallible.antt =====
-- Fallible code: a value or the error that it throws.
use mathlib.Core.Path.{◌≡◌, refl}
use mathlib.Core.Bool.{Bool, true, false}
use mathlib.Core.Logic.{◌⊎◌, inl, inr}

infixl 5 ◌>>=◌ ◌>>◌
pub data Result {ℓ κ} (E : Type ℓ) (A : Type κ) : Type (ℓ ⊔ κ) where
  err : E → Result E A
  ok : A → Result E A

-- The next step of a `do` block, unless an error was thrown.
abbrev pub ◌>>=◌ {ℓ κ μ} :
    {E : Type ℓ} {A : Type κ} {B : Type μ} → Result E A → (A → Result E B) → Result E B
err why >>= continue_with = err why
ok value >>= continue_with = continue_with value

abbrev pub ◌>>◌ {ℓ μ} : {E : Type ℓ} {B : Type μ} → Result E (Unit {0}) → Result E B → Result E B
first >> second = first >>= λ nothing. second

-- `if (test) throw e;`
abbrev pub throw_if {ℓ} : {E : Type ℓ} → Bool → E → Result E (Unit {0})
throw_if true e = err e
throw_if false e = ok tt

-- Where a chain succeeds, its first step does, and the rest from there.
pub >>=-eq-ok {ℓ κ μ} :
    {E : Type ℓ} {A : Type κ} {B : Type μ} (step : Result E A) (rest : A → Result E B) {out : B}
    → (step >>= rest) ≡ ok out
    → (mid : A) × (step ≡ ok mid) × (rest mid ≡ ok out)
>>=-eq-ok (err why) rest done = cc
>>=-eq-ok (ok mid) rest done = (mid, refl, done)

pub Result-cases {ℓ κ} :
    {E : Type ℓ} {A : Type κ} (r : Result E A) → ((a : A) × (r ≡ ok a)) ⊎ ((e : E) × (r ≡ err e))
Result-cases (ok a) = inl (a, refl)
Result-cases (err e) = inr (e, refl)

pub err-ne-ok {ℓ κ} : {E : Type ℓ} {A : Type κ} {e : E} {a : A} → err e ≡ ok a → ⊥
err-ne-ok h = cc

pub ok-injective {ℓ κ} :
    {E : Type ℓ} {A : Type κ} {a b : A} → ◌≡◌ {A = Result E A} (ok a) (ok b) → a ≡ b
ok-injective h = cc

-- A test that did not throw was false.
pub throw_if-eq-ok {ℓ} :
    {E : Type ℓ} (b : Bool) (e : E) {u : Unit {0}} → throw_if b e ≡ ok u → b ≡ false
throw_if-eq-ok true e h = absurd (err-ne-ok h)
throw_if-eq-ok false e h = refl

pub throw_if-then {ℓ μ} :
    {E : Type ℓ} {B : Type μ} (b : Bool) (e : E) (k : Result E B) {x : B}
    → (throw_if b e >> k) ≡ ok x
    → (b ≡ false) × (k ≡ ok x)
throw_if-then true e k h = absurd (err-ne-ok h)
throw_if-then false e k h = (refl, h)
