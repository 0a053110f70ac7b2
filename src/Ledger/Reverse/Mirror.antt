-- ===== src/Ledger/Reverse/Mirror.antt =====
-- The mirror entries undo the original.
use fluvia.Base.{
  ℕ, ◌==◌, ◌≡◌, refl, ap, ap₂, ◌∙◌, ◌&&◌, List, [], ◌∷◌, map, ℤ, pos, neg, ◌+ℤ◌, int_laws,
  Bool-cases, inl, inr,
}
use fluvia.Base.Enum.{eqb}
use fluvia.Ledger.Types.{Side, debit, credit, BalanceBucket, side_enum, bucket_enum}
use fluvia.Ledger.Db.{signed_amount, contribution, sum_entries}
use fluvia.Ledger.Entries.{to_posted}
use fluvia.Ledger.Reverse.{
  ReverseTransactionInput, OriginalEntry, opposite, mirror_entry, reversal_input,
}

signed_amount-opposite :
    (s d : Side) (z : ℤ) → signed_amount s (opposite d) z ≡ neg (signed_amount s d z)
unfolding signed_amount opposite
signed_amount-opposite debit debit z = refl
signed_amount-opposite debit credit z = omega int_laws
signed_amount-opposite credit debit z = omega int_laws
signed_amount-opposite credit credit z = refl

contribution-mirror :
    (j : ℕ) (s : Side) (b : BalanceBucket) (e : OriginalEntry)
    → contribution j s b (to_posted (mirror_entry e)) ≡ neg (contribution j s b e.posted)
unfolding contribution to_posted mirror_entry
contribution-mirror j s b e =
    elim (Bool-cases ((e.posted.account_id == j) && eqb e.posted.bucket b)) [
      | inl counts ↦ rw counts (signed_amount-opposite s e.posted.direction e.posted.amount)
      | inr other ↦ rw other (omega int_laws)
    ]

neg_sum : (a b : ℤ) → neg a +ℤ neg b ≡ neg (a +ℤ b)
neg_sum a b = omega int_laws

sum_entries-mirror :
    (j : ℕ) (s : Side) (b : BalanceBucket) (original : List OriginalEntry)
    → sum_entries j s b (map to_posted (map mirror_entry original))
      ≡ neg (sum_entries j s b (map (λ (e : OriginalEntry). e.posted) original))
unfolding sum_entries
sum_entries-mirror j s b [] = omega int_laws
sum_entries-mirror j s b (e ∷ es) =
    ap₂ ◌+ℤ◌ (contribution-mirror j s b e) (sum_entries-mirror j s b es)
    ∙ neg_sum (contribution j s b e.posted)
        (sum_entries j s b (map (λ (x : OriginalEntry). x.posted) es))

cancel : (a : ℤ) → a +ℤ neg a ≡ pos 0
cancel a = omega int_laws

-- In every account and bucket, the entries that a reversal posts and the entries that it reverses
-- come to zero together.
pub reversal_input-cancels :
    (input : ReverseTransactionInput) (original : List OriginalEntry) (j : ℕ) (s : Side)
    (b : BalanceBucket)
    → sum_entries j s b (map (λ (e : OriginalEntry). e.posted) original)
        +ℤ sum_entries j s b (map to_posted (reversal_input input original).entries)
      ≡ pos 0
unfolding reversal_input
reversal_input-cancels input original j s b =
    let z = sum_entries j s b (map (λ (e : OriginalEntry). e.posted) original) in
    ap (λ t. z +ℤ t) (sum_entries-mirror j s b original) ∙ cancel z
