-- ===== src/Ledger/Accounts/Create.antt =====
-- A new account starts at zero, in the projection and in the entries.
use fluvia.Base.{
  ℕ, ◌==◌, ==_iff, ==_refl, ◌≡◌, refl, sym, ap, ◌∙◌, subst, false, List, [], ◌∷◌, ◌++◌, map, pos,
  zero_+ℤ, none, some, Option-cases, Bool-cases, inl, inr, ok, ok-injective, throw_if-then, arith,
  if◌then◌else◌,
}
use fluvia.Base.Text.{Text}
use fluvia.Money.Currency.{CurrencyCode}
use fluvia.Ledger.Types.{BalanceBucket, available, pending, Side, PostedEntry, account_exists}
use fluvia.Ledger.Db.{
  Db, Account, EntryRow, Projection, find_projection, in_bucket, find_account, recompute,
  sum_entries, contribution,
}
use fluvia.Ledger.Projection.{insert_projection, no_balances, member}
use fluvia.Ledger.Projection.Sums.{projected, projected-insert_projection}
use fluvia.Ledger.Post.Consistent.{IsConsistent, recompute-found, recompute-missing}
use fluvia.Ledger.Accounts.{new_account, is_taken, create_account}

sum_entries-absent :
    (i : ℕ) (s : Side) (b : BalanceBucket) (es : List PostedEntry)
    → member i (map (λ (e : PostedEntry). e.account_id) es) ≡ false
    → sum_entries i s b es ≡ pos 0
unfolding sum_entries contribution
sum_entries-absent i s b [] h = refl
sum_entries-absent i s b (e ∷ es) h = ground (arith, sum_entries-absent i s b es, zero_+ℤ (pos 0))

find_account-append :
    (i j : ℕ) (accounts : List Account) (a : Account)
    → a.id ≡ i
    → find_account j (accounts ++ a ∷ [])
      ≡ elim (find_account j accounts) [ some x ↦ some x | none ↦ if i == j then some a else none ]
unfolding find_account
find_account-append i j [] a h = rw h refl
find_account-append i j (x ∷ xs) a h = elim (Bool-cases (x.id == j)) [
  | inl here ↦ rw (here) refl
  | inr other ↦ rw (other) (find_account-append i j xs a h)
]

find_account-append_ne :
    (i j : ℕ) (accounts : List Account) (a : Account)
    → a.id ≡ i
    → (i == j) ≡ false
    → find_account j (accounts ++ a ∷ []) ≡ find_account j accounts
find_account-append_ne i j accounts a h other =
    find_account-append i j accounts a h ∙ elim (Option-cases (find_account j accounts)) [
      | inl none_left ↦ rw (none_left, other) refl
      | inr (x, found) ↦ rw found refl
    ]

find_account-append_new :
    (i : ℕ) (accounts : List Account) (a : Account)
    → a.id ≡ i
    → find_account i accounts ≡ none
    → find_account i (accounts ++ a ∷ []) ≡ some a
find_account-append_new i accounts a h fresh =
    find_account-append i i accounts a h ∙ rw (fresh, ==_refl i) refl

recompute-cong :
    (db db' : Db) (j : ℕ) (b : BalanceBucket)
    → find_account j db'.accounts ≡ find_account j db.accounts
    → db'.entries ≡ db.entries
    → recompute db' j b ≡ recompute db j b
recompute-cong db db' j b accounts entries = elim (Option-cases (find_account j db.accounts)) [
  | inl missing ↦
      recompute-missing db' j b (accounts ∙ missing) ∙ sym (recompute-missing db j b missing)
  | inr (a, found) ↦
      recompute-found db' j b a (accounts ∙ found)
      ∙ ap (λ es. sum_entries j a.normal_side b (map (λ (e : EntryRow). e.posted) es)) entries
      ∙ sym (recompute-found db j b a found)
]

not_taken :
    (id : ℕ) (name : Text) (currency : CurrencyCode) (db : Db)
    → is_taken id name currency db ≡ false
    → find_account id db.accounts ≡ none
not_taken id name currency db h = elim (Option-cases (find_account id db.accounts)) [
  | inl fresh ↦ fresh
  | inr (a, found) ↦
      (let taken : is_taken id name currency db ≡ false = h in ground (arith, found, taken))
]

find_projection-insert :
    (i : ℕ) (ps : List Projection)
    → (p : Projection) × (find_projection i (insert_projection i ps) ≡ some p)
unfolding find_projection insert_projection
find_projection-insert i [] =
    (record { account_id = i; balances = no_balances; version = 0 }, rw (==_refl i) refl)
find_projection-insert i (q ∷ qs) = elim (Bool-cases (q.account_id == i)) [
  | inl here ↦ (q, rw here (rw here refl))
  | inr other ↦ let (p, found) = find_projection-insert i qs in (p, rw other (rw other found))
]

projected-found :
    (i : ℕ) (b : BalanceBucket) (ps : List Projection) (p : Projection)
    → find_projection i ps ≡ some p
    → projected i b ps ≡ in_bucket b p.balances
unfolding projected
projected-found i b ps p found = rw (found, projected) refl

module _ (id : ℕ) (name : Text) (currency : CurrencyCode) (side : Side) (db : Db)
    (unused : member id
        (map (λ (e : PostedEntry). e.account_id) (map (λ (e : EntryRow). e.posted) db.entries))
      ≡ false)
    (before : IsConsistent db) where
  with_account-IsConsistent :
      find_account id db.accounts ≡ none
      → IsConsistent (record db {
        accounts = db.accounts ++ new_account id name currency side ∷ [];
        projections = insert_projection id db.projections;
      })
  unfolding IsConsistent
  with_account-IsConsistent fresh j b =
      let a = new_account id name currency side in
      let db' : Db = record db {
        accounts = db.accounts ++ a ∷ [];
        projections = insert_projection id db.projections;
      } in
      projected-insert_projection j id b db.projections ∙ before j b ∙ elim (Bool-cases (id == j)) [
        | inl here ↦
            let same = (==_iff id j).0 here in
            recompute-missing db j b (ap (λ k. find_account k db.accounts) (sym same) ∙ fresh)
            ∙ sym (
                recompute-found db' j b a (
                  ap (λ k. find_account k db'.accounts) (sym same)
                  ∙ find_account-append_new id db.accounts a refl fresh)
                ∙ ap (λ k. sum_entries k side b (map (λ (e : EntryRow). e.posted) db.entries))
                    (sym same)
                ∙ sum_entries-absent id side b (map (λ (e : EntryRow). e.posted) db.entries) unused)
        | inr other ↦
            sym (
              recompute-cong db db' j b (find_account-append_ne id j db.accounts a refl other) refl)
      ]

  -- An account that is created, while no entry names it yet, is found under its id, a projection of
  -- it is stored that is zero in both buckets, and every projection still is the sum of its entries.
  pub create_account-IsConsistent :
      (a : Account) (db' : Db)
      → create_account id name currency side db ≡ ok (a, db')
      → (find_account id db'.accounts ≡ some (new_account id name currency side))
        × ((p : Projection) × (find_projection id db'.projections ≡ some p)
            × (p.balances.available ≡ pos 0)
            × (p.balances.pending ≡ pos 0))
        × IsConsistent db'
  unfolding create_account IsConsistent projected
  create_account-IsConsistent a db' h =
      let (free, h1) = throw_if-then (is_taken id name currency db) account_exists _ h in
      let written = ap (λ q. q.1) (ok-injective h1) in
      let fresh = not_taken id name currency db free in
      let (p, stored) = find_projection-insert id db.projections in
      let is_zero : (b : BalanceBucket) → in_bucket b p.balances ≡ pos 0 = λ b.
        sym (projected-found id b (insert_projection id db.projections) p stored)
        ∙ projected-insert_projection id id b db.projections
        ∙ before id b
        ∙ recompute-missing db id b fresh in
      (
        sym (ap (λ (d : Db). find_account id d.accounts) written)
            ∙ find_account-append_new id db.accounts (new_account id name currency side) refl fresh,
        (
          p,
          sym (ap (λ (d : Db). find_projection id d.projections) written) ∙ stored,
          is_zero available,
          is_zero pending,
        ),
        subst IsConsistent written (with_account-IsConsistent fresh),
      )
