-- ===== src/Ledger/Signature.antt =====
-- packages/ledger/src/service.ts: `entriesSignature`, by which a replay is compared with what is
-- stored. The signature is the JSON text of the sorted tuples; the tuples stand here for that text,
-- which determines them, and the order is that of their texts.
use fluvia.Base.Digits.{show_digits}
use fluvia.Base.{
  ℕ, ◌==◌, Bool, true, false, ◌&&◌, List, [], ◌∷◌, ◌++◌, ℤ, pos, eqb_ℤ, ltb_ℤ, pos_part, neg_part,
  if◌then◌else◌,
}
use fluvia.Base.Enum.{eqb}
use fluvia.Base.Text.{Text, text_less}
use fluvia.Money.Currency.{CurrencyCode, eq_currency}
use fluvia.Ledger.Types.{
  Side, PostedEntry, side_enum, bucket_enum, debit, credit, available, pending, BalanceBucket,
}

-- `amount.toString()`. The code of `-` is 45.
unfoldable pub show_ℤ : ℤ → Text
unfolding show_digits
show_ℤ z = if ltb_ℤ z (pos 0) then 45 ∷ show_digits (neg_part z) else show_digits (pos_part z)

-- Places of the words in the order of their texts.
abbrev direction_rank : Side → ℕ
direction_rank credit = 0
direction_rank debit = 1

abbrev bucket_rank : BalanceBucket → ℕ
bucket_rank available = 0
bucket_rank pending = 1

abbrev currency_rank : CurrencyCode → ℕ
currency_rank CurrencyCode.ars = 0
currency_rank CurrencyCode.brl = 1
currency_rank CurrencyCode.clp = 2
currency_rank CurrencyCode.cop = 3
currency_rank CurrencyCode.eur = 4
currency_rank CurrencyCode.gbp = 5
currency_rank CurrencyCode.jpy = 6
currency_rank CurrencyCode.mxn = 7
currency_rank CurrencyCode.pen = 8
currency_rank CurrencyCode.usd = 9

-- A text that is ordered as the JSON text of the tuple: ids and words, of which none begins another,
-- by their rank, and the amount by its digits up to the quote (34) that closes it.
unfoldable pub canonical : PostedEntry → Text
unfolding show_ℤ
canonical e =
    e.account_id
    ∷ direction_rank e.direction
    ∷ (show_ℤ e.amount ++ 34 ∷ currency_rank e.currency ∷ bucket_rank e.bucket ∷ [])

-- The comparison of the sort, `ja < jb`.
unfoldable pub entry_less : PostedEntry → PostedEntry → Bool
unfolding canonical text_less
entry_less a b = text_less (canonical a) (canonical b)

-- The sort is stable: an entry goes in front of the first one that it does not follow.
unfoldable pub insert_entry : PostedEntry → List PostedEntry → List PostedEntry
insert_entry e [] = e ∷ []
insert_entry e (x ∷ xs) = if entry_less x e then x ∷ insert_entry e xs else e ∷ x ∷ xs

unfoldable pub entries_signature : List PostedEntry → List PostedEntry
unfolding insert_entry
entries_signature [] = []
entries_signature (e ∷ es) = insert_entry e (entries_signature es)

unfoldable pub eq_entry : PostedEntry → PostedEntry → Bool
eq_entry a b =
    (a.account_id == b.account_id)
    && eqb a.direction b.direction
    && eqb_ℤ a.amount b.amount
    && eq_currency a.currency b.currency
    && eqb a.bucket b.bucket

-- Equality of two signatures.
unfoldable pub eq_signature : List PostedEntry → List PostedEntry → Bool
unfolding eq_entry
eq_signature [] [] = true
eq_signature [] (y ∷ ys) = false
eq_signature (x ∷ xs) [] = false
eq_signature (x ∷ xs) (y ∷ ys) = eq_entry x y && eq_signature xs ys
