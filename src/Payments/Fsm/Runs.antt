-- ===== src/Payments/Fsm/Runs.antt =====
-- Runs of a state machine: sequences of the transitions that `canTransition` allows.
use fluvia.Base.{
  ℕ, suc, ◌+◌, ◌≤◌, ◌<◌, ◌≡◌, refl, sym, ap, ◌∙◌, subst, true, List, [], ◌∷◌, arith, ◌⊎◌, inl, inr,
  Bool-cases,
}
use fluvia.Base.Enum.{Enum, eqb, eqb_iff, eqb_refl, includes}
use fluvia.Payments.Fsm.Machine.{can_transition}

abbrev pub All {ℓ κ} : {A : Type ℓ} → (A → Type κ) → List A → Type κ
All P [] = Unit
All P (x ∷ xs) = P x × All P xs

module _ {ℓ} {S : Type ℓ} ⦃e : Enum S⦄ where
  pub data Run (m : S → List S) : S → S → Type ℓ where
    here : (s : S) → Run m s s
    next : {s t u : S} → can_transition m s t ≡ true → Run m t u → Run m s u

  -- The number of transitions of a run.
  abbrev pub steps : {m : S → List S} {s t : S} → Run m s t → ℕ
  steps (here s) = 0
  steps (next c r) = suc (steps r)

  -- The statuses of a run, the first and the last included.
  abbrev pub statuses_of : {m : S → List S} {s t : S} → Run m s t → List S
  statuses_of (here s) = s ∷ []
  statuses_of (next {s = s} c r) = s ∷ statuses_of r

  All-includes {κ} : (P : S → Type κ) (xs : List S) (t : S) → All P xs → includes xs t ≡ true → P t
  All-includes P [] t h i = cc
  All-includes P (x ∷ xs) t h i = elim (Bool-cases (eqb x t)) [
    | inl same ↦ subst P ((eqb_iff x t).0 same) h.0
    | inr other ↦ All-includes P xs t h.1 (rw other at i)
  ]

  pub transition-All {κ} :
      (m : S → List S) (P : S → Type κ) (s t : S) → All P (m s) → can_transition m s t ≡ true → P t
  unfolding can_transition
  transition-All m P s t h c = All-includes P (m s) t h c

  -- A predicate that every transition keeps holds to the end of a run.
  pub Run-keeps {κ} :
      {m : S → List S} (P : S → Type κ)
      → ((s : S) → P s → All P (m s))
      → {s t : S} → Run m s t
      → P s
      → P t
  Run-keeps P closed (here s) h = h
  Run-keeps {m} P closed (next {s = s} {t = t} c r) h =
      Run-keeps P closed r (transition-All m P s t (closed s h) c)

  -- Where every transition lowers the rank, a run is no longer than the rank that it uses up.
  pub steps-le-rank :
      {m : S → List S} (rank : S → ℕ)
      → ((s : S) → All (λ t. rank t < rank s) (m s))
      → {s t : S} (r : Run m s t) → steps r + rank t ≤ rank s
  steps-le-rank rank falls (here s) = omega arith
  steps-le-rank {m} rank falls (next {s = s} {t = t} c r) =
      omega
        (arith, steps-le-rank rank falls r, transition-All m (λ x. rank x < rank s) s t (falls s) c)

  starts_at : {m : S → List S} {s t : S} (r : Run m s t) → includes (statuses_of r) s ≡ true
  starts_at (here s) = rw (eqb_refl s) refl
  starts_at (next {s = s} c r) = rw (eqb_refl s) refl

  later_status : (x t : S) (xs : List S) → includes xs t ≡ true → includes (x ∷ xs) t ≡ true
  later_status x t xs h = elim (Bool-cases (eqb x t)) [
    | inl same ↦ rw same refl
    | inr other ↦ rw other h
  ]

  -- Where a region is left only through a gate, a run that leaves it passes the gate.
  pub Run-passes {κ} :
      {m : S → List S} (P : S → Type κ) (gate : S)
      → ((s : S) → P s → All (λ t. P t ⊎ (t ≡ gate)) (m s))
      → {s t : S} (r : Run m s t) → P s
      → ¬ P t
      → includes (statuses_of r) gate ≡ true
  Run-passes P gate closed (here s) h out = absurd (out h)
  Run-passes {m} P gate closed (next {s = s} {t = t} c r) h out =
      elim (transition-All m (λ x. P x ⊎ (x ≡ gate)) s t (closed s h) c) [
        | inl inside ↦ later_status s gate (statuses_of r) (Run-passes P gate closed r inside out)
        | inr at_gate ↦
            later_status s gate (statuses_of r)
              (ap (includes (statuses_of r)) (sym at_gate) ∙ starts_at r)
      ]

  -- From a status with no way out a run goes nowhere.
  pub Run-terminal : {m : S → List S} {s t : S} → Run m s t → m s ≡ [] → s ≡ t
  Run-terminal (here s) h = refl
  Run-terminal {m} (next {s = s} {t = t} c r) h = absurd (transition-All m (λ x. ⊥) s t (rw h tt) c)
