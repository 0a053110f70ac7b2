-- ===== src/Ledger/Projection/Sums.antt =====
-- The projected balances, under the statements that change them.
use fluvia.Base.{
  ℕ, ◌+◌, ◌==◌, ==_iff, ◌≡◌, refl, ap, ◌∙◌, List, [], ◌∷◌, ℤ, pos, ◌+ℤ◌, +ℤ_assoc, +ℤ_zero, Option,
  none, some, Option-cases, Bool-cases, inl, inr, ok, err-ne-ok, >>=-eq-ok, arith, if◌then◌else◌,
}
use fluvia.Ledger.Types.{BalanceBucket, available, pending, Balances}
use fluvia.Ledger.Db.{Projection, find_projection, in_bucket}
use fluvia.Ledger.Projection.{
  Deltas, no_balances, delta_get, insert_projection, insert_projections, add_balances,
  update_projection, version_of, guard_balances, apply_deltas,
}

-- The projected balance, which is 0 for an account with no row.
unfoldable pub projected : ℕ → BalanceBucket → List Projection → ℤ
projected i b ps = elim (find_projection i ps) [ none ↦ pos 0 | some p ↦ in_bucket b p.balances ]

in_bucket-no_balances : (b : BalanceBucket) → in_bucket b no_balances ≡ pos 0
in_bucket-no_balances available = refl
in_bucket-no_balances pending = refl

in_bucket-add_balances :
    (b : BalanceBucket) (x d : Balances)
    → in_bucket b (add_balances x d) ≡ in_bucket b x +ℤ in_bucket b d
unfolding add_balances
in_bucket-add_balances available x d = refl
in_bucket-add_balances pending x d = refl

pub projected-insert_projection :
    (j i : ℕ) (b : BalanceBucket) (ps : List Projection)
    → projected j b (insert_projection i ps) ≡ projected j b ps
unfolding projected find_projection insert_projection
projected-insert_projection j i b [] = ground (arith, in_bucket-no_balances b)
projected-insert_projection j i b (p ∷ ps) = ground (arith, projected-insert_projection j i b ps)

pub projected-insert_projections :
    (j : ℕ) (b : BalanceBucket) (is : List ℕ) (ps : List Projection)
    → projected j b (insert_projections is ps) ≡ projected j b ps
unfolding insert_projections
projected-insert_projections j b [] ps = refl
projected-insert_projections j b (i ∷ is) ps =
    projected-insert_projections j b is (insert_projection i ps)
    ∙ projected-insert_projection j i b ps

-- What an update of account i adds to account j.
abbrev pub part_at : ℕ → ℕ → ℤ → ℤ
part_at i j z = if i == j then z else pos 0

projected-cons :
    (j : ℕ) (b : BalanceBucket) (p : Projection) (ps : List Projection)
    → projected j b (p ∷ ps)
      ≡ (if p.account_id == j then in_bucket b p.balances else projected j b ps)
unfolding projected find_projection
projected-cons j b p ps = ground arith

update-adds :
    (i : ℕ) (v : Option ℕ) (d : Balances) (ps : List Projection) (bal : Balances)
    (out : List Projection)
    → update_projection i v d ps ≡ some (bal, out)
    → (j : ℕ) (b : BalanceBucket)
    → projected j b out ≡ projected j b ps +ℤ part_at i j (in_bucket b d)
unfolding update_projection
update-adds i v d [] bal out h j b = cc
update-adds i v d (p ∷ ps) bal out h j b = elim (Option-cases (update_projection i v d ps)) [
  | inl none_left ↦ ground (
    arith,
    projected-cons j b p ps,
    projected-cons j b (record p { balances = add_balances p.balances d; version = p.version + 1 })
        ps,
    in_bucket-add_balances b p.balances d,
    +ℤ_zero (projected j b ps),
  )
  | inr ((b', rest), found) ↦ ground (
    arith,
    projected-cons j b p ps,
    projected-cons j b (record p { balances = add_balances p.balances d; version = p.version + 1 })
        ps,
    projected-cons j b p rest,
    in_bucket-add_balances b p.balances d,
    +ℤ_zero (in_bucket b p.balances),
    +ℤ_zero (projected j b ps),
    update-adds i v d ps b' rest found j b,
  )
]

pub update-returns :
    (i : ℕ) (v : Option ℕ) (d : Balances) (ps : List Projection) (bal : Balances)
    (out : List Projection)
    → update_projection i v d ps ≡ some (bal, out)
    → (b : BalanceBucket) → projected i b out ≡ in_bucket b bal
unfolding update_projection
update-returns i v d [] bal out h b = cc
update-returns i v d (p ∷ ps) bal out h b = elim (Option-cases (update_projection i v d ps)) [
  | inl none_left ↦ ground (
    arith,
    projected-cons i b (record p { balances = add_balances p.balances d; version = p.version + 1 })
        ps,
  )
  | inr ((b', rest), found) ↦ ground (
    arith,
    projected-cons i b (record p { balances = add_balances p.balances d; version = p.version + 1 })
        ps,
    projected-cons i b p rest,
    update-returns i v d ps b' rest found b,
  )
]

-- What the loop adds to account j, once for each time that it is visited.
abbrev pub visits : ℕ → List ℕ → ℤ → ℤ
visits j [] z = pos 0
visits j (i ∷ is) z = part_at i j z +ℤ visits j is z

part_at-delta_get :
    (i j : ℕ) (b : BalanceBucket) (ds : Deltas)
    → part_at i j (in_bucket b (delta_get i ds)) ≡ part_at i j (in_bucket b (delta_get j ds))
part_at-delta_get i j b ds = elim (Bool-cases (i == j)) [
  | inl same ↦ ap (λ k. part_at i j (in_bucket b (delta_get k ds))) ((==_iff i j).0 same)
  | inr other ↦ rw other
]

-- A round of the loop that succeeds: the row, the guard and the rest.
pub apply_deltas-cons :
    (snapshot : List Projection) (ds : Deltas) (prot : List ℕ) (i : ℕ) (is : List ℕ)
    (ps : List Projection) {out : List Projection}
    → apply_deltas snapshot ds prot (i ∷ is) ps ≡ ok out
    → (bal : Balances) × (rest : List Projection) × (update_projection i
          (version_of i snapshot)
          (delta_get i ds)
          ps
        ≡ some (bal, rest))
      × (guard_balances prot i bal ≡ ok tt)
      × (apply_deltas snapshot ds prot is rest ≡ ok out)
unfolding apply_deltas
apply_deltas-cons snapshot ds prot i is ps h =
    elim (Option-cases (update_projection i (version_of i snapshot) (delta_get i ds) ps)) [
      | inl missing ↦ absurd (err-ne-ok (rw (missing, apply_deltas) at h))
      | inr ((bal, rest), found) ↦
          let (_, guarded, applied) =
            >>=-eq-ok (guard_balances prot i bal) (λ _. apply_deltas snapshot ds prot is rest)
              (rw (found, apply_deltas) at h) in
          (bal, rest, found, guarded, applied)
    ]

pub projected-apply_deltas :
    (snapshot : List Projection) (ds : Deltas) (prot : List ℕ) (is : List ℕ)
    (ps out : List Projection) (j : ℕ) (b : BalanceBucket)
    → apply_deltas snapshot ds prot is ps ≡ ok out
    → projected j b out ≡ projected j b ps +ℤ visits j is (in_bucket b (delta_get j ds))
projected-apply_deltas snapshot ds prot [] ps out j b h =
    unfold apply_deltas in cc (h, +ℤ_zero (projected j b ps))
projected-apply_deltas snapshot ds prot (i ∷ is) ps out j b h =
    let (bal, rest, found, guarded, applied) = apply_deltas-cons snapshot ds prot i is ps h in
    projected-apply_deltas snapshot ds prot is rest out j b applied
    ∙ ap (λ z. z +ℤ visits j is (in_bucket b (delta_get j ds)))
        (update-adds i (version_of i snapshot) (delta_get i ds) ps bal rest found j b
          ∙ ap (λ z. projected j b ps +ℤ z) (part_at-delta_get i j b ds))
    ∙ +ℤ_assoc (projected j b ps) (part_at i j (in_bucket b (delta_get j ds)))
        (visits j is (in_bucket b (delta_get j ds)))
