-- ===== src/Base/Enum.antt =====
-- Enumerations: string literal unions of the source, compared by their place in a list.
use fluvia.Base.{
  ℕ, zero, suc, ◌==◌, ==_iff, ==_refl, ◌≡◌, ◌↔◌, sym, ap, ◌∙◌, Bool, true, false, ◌||◌, List, [],
  ◌∷◌,
}

pub record Enum {ℓ} (A : Type ℓ) : Type ℓ where
  pub values : List A
  pub index : A → ℕ
  pub of_index : ℕ → A
  pub of_index-index : (a : A) → of_index (index a) ≡ a

-- The value at a place of a list, or else the last one.
abbrev pub nth {ℓ} : {A : Type ℓ} → A → List A → ℕ → A
nth d [] n = d
nth d (x ∷ xs) zero = x
nth d (x ∷ xs) (suc n) = nth d xs n

module _ {ℓ} {A : Type ℓ} ⦃e : Enum A⦄ where
  -- `a === b`
  abbrev pub eqb : A → A → Bool
  eqb a b = e.index a == e.index b

  pub eqb_iff : (a b : A) → (eqb a b ≡ true) ↔ (a ≡ b)
  eqb_iff a b = (
    λ h.
        sym (e.of_index-index a)
        ∙ ap e.of_index ((==_iff (e.index a) (e.index b)).0 h)
        ∙ e.of_index-index b,
    λ p. (==_iff (e.index a) (e.index b)).1 (ap e.index p),
  )

  pub eqb_refl : (a : A) → eqb a a ≡ true
  eqb_refl a = ==_refl (e.index a)

  -- `list.includes(a)`
  abbrev pub includes : List A → A → Bool
  includes [] a = false
  includes (x ∷ xs) a = eqb x a || includes xs a
