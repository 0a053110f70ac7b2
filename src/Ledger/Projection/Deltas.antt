-- ===== src/Ledger/Projection/Deltas.antt =====
-- The deltas are the sums of the entries, and the whole step adds them to the projections.
use fluvia.Base.{
  ℕ, ◌==◌, ==_iff, ==_refl, ◌≡◌, refl, sym, ap, ap₂, ◌∙◌, subst, false, not, List, [], ◌∷◌, map, ℤ,
  pos, ◌+ℤ◌, int_laws, +ℤ_assoc, +ℤ_zero, zero_+ℤ, none, some, Option-cases, Bool-cases, inl, inr,
  ok, err-ne-ok, >>=-eq-ok, arith, if◌then◌else◌, keep, ltb,
}
use fluvia.Base.Enum.{eqb}
use fluvia.Ledger.Types.{
  BalanceBucket, available, pending, Balances, LedgerEntryInput, Side, debit, bucket_enum,
}
use fluvia.Ledger.Db.{
  Account, Projection, find_account, in_bucket, signed_amount, contribution, sum_entries,
}
use fluvia.Ledger.Projection.{
  Deltas, delta_get, delta_set, add_to_bucket, build_deltas, bucket_of, member, insert_projections,
  apply_deltas, apply_projection_deltas,
}
use fluvia.Ledger.Projection.Sums.{
  projected, visits, part_at, projected-insert_projections, projected-apply_deltas,
}
use fluvia.Ledger.Entries.{to_posted, dedupe, insert_sorted, sort_ids, account_ids_of}

-- The normal side of an account; any side where there is none.
unfoldable pub side_of : ℕ → List Account → Side
side_of i accounts = elim (find_account i accounts) [ none ↦ debit | some a ↦ a.normal_side ]

delta_get-delta_set :
    (i j : ℕ) (d : Balances) (ds : Deltas)
    → delta_get j (delta_set i d ds) ≡ (if i == j then d else delta_get j ds)
unfolding delta_get delta_set
delta_get-delta_set i j d [] = refl
delta_get-delta_set i j d ((k, e) ∷ ds) = ground (arith, delta_get-delta_set i j d ds)

in_bucket-add_to_bucket :
    (b c : BalanceBucket) (z : ℤ) (d : Balances)
    → in_bucket b (add_to_bucket c z d) ≡ in_bucket b d +ℤ (if eqb c b then z else pos 0)
unfolding add_to_bucket
in_bucket-add_to_bucket available available z d = refl
in_bucket-add_to_bucket available pending z d = sym (+ℤ_zero d.available)
in_bucket-add_to_bucket pending available z d = sym (+ℤ_zero d.pending)
in_bucket-add_to_bucket pending pending z d = refl

pub side_of-found :
    (i : ℕ) (accounts : List Account) (a : Account)
    → find_account i accounts ≡ some a
    → side_of i accounts ≡ a.normal_side
unfolding side_of
side_of-found i accounts a h = rw (h, side_of)

contribution_self :
    (s : Side) (b : BalanceBucket) (e : LedgerEntryInput)
    → contribution e.account_id s b (to_posted e)
      ≡ (if eqb (bucket_of e) b then signed_amount s e.direction e.amount.amount else pos 0)
unfolding contribution to_posted
contribution_self s b e = rw (==_refl e.account_id)

contribution_other :
    (j : ℕ) (s : Side) (b : BalanceBucket) (e : LedgerEntryInput)
    → (e.account_id == j) ≡ false
    → contribution j s b (to_posted e) ≡ pos 0
unfolding contribution to_posted
contribution_other j s b e h = rw h

-- The deltas after one entry.
abbrev after_entry : Account → LedgerEntryInput → Deltas → Deltas
after_entry a e ds =
    delta_set e.account_id
      (add_to_bucket (bucket_of e) (signed_amount a.normal_side e.direction e.amount.amount)
        (delta_get e.account_id ds))
      ds

after_entry_self :
    (b : BalanceBucket) (a : Account) (accounts : List Account) (e : LedgerEntryInput) (ds : Deltas)
    → find_account e.account_id accounts ≡ some a
    → in_bucket b (delta_get e.account_id (after_entry a e ds))
      ≡ in_bucket b (delta_get e.account_id ds)
        +ℤ contribution e.account_id (side_of e.account_id accounts) b (to_posted e)
after_entry_self b a accounts e ds found =
    let z = signed_amount a.normal_side e.direction e.amount.amount in
    rw
      (
        delta_get-delta_set e.account_id e.account_id
            (add_to_bucket (bucket_of e) z (delta_get e.account_id ds)) ds,
        ==_refl e.account_id,
        side_of-found e.account_id accounts a found,
        contribution_self a.normal_side b e,
      )
      (in_bucket-add_to_bucket b (bucket_of e) z (delta_get e.account_id ds))

after_entry_sum :
    (j : ℕ) (b : BalanceBucket) (a : Account) (accounts : List Account) (e : LedgerEntryInput)
    (ds : Deltas)
    → find_account e.account_id accounts ≡ some a
    → in_bucket b (delta_get j (after_entry a e ds))
      ≡ in_bucket b (delta_get j ds) +ℤ contribution j (side_of j accounts) b (to_posted e)
after_entry_sum j b a accounts e ds found = elim (Bool-cases (e.account_id == j)) [
  | inl same ↦
      subst
        (λ k.
          in_bucket b (delta_get k (after_entry a e ds))
          ≡ in_bucket b (delta_get k ds) +ℤ contribution k (side_of k accounts) b (to_posted e))
        ((==_iff e.account_id j).0 same) (after_entry_self b a accounts e ds found)
  | inr other ↦
      rw
        (
          delta_get-delta_set e.account_id j
              (add_to_bucket (bucket_of e) (signed_amount a.normal_side e.direction e.amount.amount)
                (delta_get e.account_id ds))
              ds,
          other,
          contribution_other j (side_of j accounts) b e other,
        )
        (sym (+ℤ_zero (in_bucket b (delta_get j ds))))
]

build_deltas-sum :
    (j : ℕ) (b : BalanceBucket) (accounts : List Account) (es : List LedgerEntryInput)
    (ds out : Deltas)
    → build_deltas accounts es ds ≡ ok out
    → in_bucket b (delta_get j out)
      ≡ in_bucket b (delta_get j ds) +ℤ sum_entries j (side_of j accounts) b (map to_posted es)
unfolding build_deltas sum_entries
build_deltas-sum j b accounts [] ds out h = cc (h, +ℤ_zero (in_bucket b (delta_get j ds)))
build_deltas-sum j b accounts (e ∷ es) ds out h =
    elim (Option-cases (find_account e.account_id accounts)) [
      | inl missing ↦ absurd (err-ne-ok (rw (missing, build_deltas) at h))
      | inr (a, found) ↦
          build_deltas-sum j b accounts es (after_entry a e ds) out (rw (found, build_deltas) at h)
          ∙ ap (λ z. z +ℤ sum_entries j (side_of j accounts) b (map to_posted es))
              (after_entry_sum j b a accounts e ds found)
          ∙ +ℤ_assoc (in_bucket b (delta_get j ds))
              (contribution j (side_of j accounts) b (to_posted e))
              (sum_entries j (side_of j accounts) b (map to_posted es))
    ]

visits-insert_sorted :
    (j x : ℕ) (xs : List ℕ) (z : ℤ)
    → visits j (insert_sorted x xs) z ≡ part_at x j z +ℤ visits j xs z
unfolding insert_sorted
visits-insert_sorted j x [] z = refl
visits-insert_sorted j x (y ∷ ys) z = elim (Bool-cases (ltb y x)) [
  | inl before ↦
      rw (before, visits-insert_sorted j x ys z)
        (swap_terms (part_at y j z) (part_at x j z) (visits j ys z))
  | inr after ↦ rw after
]
  where
    swap_terms : (a b c : ℤ) → a +ℤ (b +ℤ c) ≡ b +ℤ (a +ℤ c)
    swap_terms a b c = omega int_laws

visits-sort_ids : (j : ℕ) (xs : List ℕ) (z : ℤ) → visits j (sort_ids xs) z ≡ visits j xs z
unfolding sort_ids
visits-sort_ids j [] z = refl
visits-sort_ids j (x ∷ xs) z =
    visits-insert_sorted j x (sort_ids xs) z ∙ ap (λ t. part_at x j z +ℤ t) (visits-sort_ids j xs z)

visits-keep :
    (j x : ℕ) (ys : List ℕ) (z : ℤ)
    → visits j (keep (λ y. not (y == x)) ys) z ≡ (if x == j then pos 0 else visits j ys z)
visits-keep j x [] z = ground arith
visits-keep j x (y ∷ ys) z =
    ground (arith, visits-keep j x ys z, zero_+ℤ (visits j ys z), zero_+ℤ (pos 0))

first_visit :
    (j x : ℕ) (z v : ℤ) (xs : List ℕ)
    → v ≡ (if member j xs then z else pos 0)
    → part_at x j z +ℤ (if x == j then pos 0 else v) ≡ (if member j (x ∷ xs) then z else pos 0)
first_visit j x z v xs h = ground (arith, +ℤ_zero z, zero_+ℤ v)

visits-dedupe :
    (j : ℕ) (xs : List ℕ) (z : ℤ) → visits j (dedupe xs) z ≡ (if member j xs then z else pos 0)
unfolding dedupe
visits-dedupe j [] z = refl
visits-dedupe j (x ∷ xs) z =
    ap (λ t. part_at x j z +ℤ t) (visits-keep j x (dedupe xs) z)
    ∙ first_visit j x z (visits j (dedupe xs) z) xs (visits-dedupe j xs z)

pub sum_entries-not_member :
    (j : ℕ) (s : Side) (b : BalanceBucket) (es : List LedgerEntryInput)
    → member j (map (λ e. e.account_id) es) ≡ false
    → sum_entries j s b (map to_posted es) ≡ pos 0
unfolding sum_entries
sum_entries-not_member j s b [] h = refl
sum_entries-not_member j s b (e ∷ es) h =
    ap₂ ◌+ℤ◌ (contribution_other j s b e (ground arith))
      (sum_entries-not_member j s b es (ground arith))
    ∙ zero_+ℤ (pos 0)

-- Each account is visited once, for all of its entries.
visits-account_ids_of :
    (j : ℕ) (s : Side) (b : BalanceBucket) (es : List LedgerEntryInput)
    → let z = sum_entries j s b (map to_posted es) in visits j (account_ids_of es) z ≡ z
unfolding account_ids_of
visits-account_ids_of j s b es =
    let z = sum_entries j s b (map to_posted es) in
    let ids = map (λ (e : LedgerEntryInput). e.account_id) es in
    visits-sort_ids j (dedupe ids) z ∙ visits-dedupe j ids z ∙ elim (Bool-cases (member j ids)) [
      | inl here ↦ rw here
      | inr absent ↦ rw absent (sym (sum_entries-not_member j s b es absent))
    ]

delta_get-nil : (j : ℕ) (b : BalanceBucket) → in_bucket b (delta_get j []) ≡ pos 0
unfolding delta_get
delta_get-nil j available = refl
delta_get-nil j pending = refl

-- Where the step succeeds, and nothing else has changed the balances since the versions were read,
-- every balance moves by the sum of the entries of its account and bucket.
pub projected-apply_projection_deltas :
    (outside : List Projection → List Projection) (accounts : List Account)
    (es : List LedgerEntryInput) (prot : List ℕ) (ps out : List Projection) (j : ℕ)
    (b : BalanceBucket)
    → ((qs : List Projection) → projected j b (outside qs) ≡ projected j b qs)
    → apply_projection_deltas outside accounts (account_ids_of es) es prot ps ≡ ok out
    → projected j b out
      ≡ projected j b ps +ℤ sum_entries j (side_of j accounts) b (map to_posted es)
unfolding apply_projection_deltas
projected-apply_projection_deltas outside accounts es prot ps out j b quiet h =
    let snapshot = insert_projections (account_ids_of es) ps in
    let (deltas, built, applied) =
      >>=-eq-ok (build_deltas accounts es [])
        (λ deltas. apply_deltas snapshot deltas prot (account_ids_of es) (outside snapshot)) h in
    let z = sum_entries j (side_of j accounts) b (map to_posted es) in
    let total : in_bucket b (delta_get j deltas) ≡ z =
      build_deltas-sum j b accounts es [] deltas built
      ∙ ap (λ t. t +ℤ z) (delta_get-nil j b)
      ∙ zero_+ℤ z in
    projected-apply_deltas snapshot deltas prot (account_ids_of es) (outside snapshot) out j b
      applied
    ∙ ap₂ ◌+ℤ◌ (quiet snapshot ∙ projected-insert_projections j b (account_ids_of es) ps) (
        ap (visits j (account_ids_of es)) total ∙ visits-account_ids_of j (side_of j accounts) b es)
