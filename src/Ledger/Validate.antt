-- ===== src/Ledger/Validate.antt =====
-- packages/ledger/src/service.ts: `validateInput`, and the input of `postTransaction`.
pub mod Balanced
pub mod Complete
use fluvia.Base.{
  ℕ, ◌==◌, Bool, true, false, ◌||◌, not, List, [], ◌∷◌, ℤ, pos, neg, ◌+ℤ◌, eqb_ℤ, ltb, length, keep,
  Result, ok, err, ◌>>=◌, ◌>>◌, throw_if, Option, none, some, if◌then◌else◌,
}
use fluvia.Base.Enum.{includes, eqb}
use fluvia.Base.Text.{Text}
use fluvia.Money.Currency.{CurrencyCode, eq_currency}
use fluvia.Money.Value.{Money, is_positive}
use fluvia.Ledger.Types.{
  LedgerReason, ledger_reasons, reason_enum, Side, debit, credit, LedgerEntryInput, Source,
  PostedTransaction, LedgerError, invalid_entries, unbalanced, side_enum,
}
use fluvia.Ledger.Db.{Db}

pub record PostTransactionInput : Type 0 where
  pub idempotency_key : Text
  pub reason : LedgerReason
  pub source : Source
  pub entries : List LedgerEntryInput
  pub reverses_tx_id : Option ℕ
  pub non_negative_accounts : List ℕ
  -- runs in the same transaction, after the first application only
  pub on_posted : Option (PostedTransaction → Db → Result LedgerError Db)

abbrev pub Nets : Type 0
Nets = List (CurrencyCode × ℤ)

-- `net.get(ccy) ?? 0n`
unfoldable pub net_get : CurrencyCode → Nets → ℤ
net_get c [] = pos 0
net_get c ((d, v) ∷ ns) = if eq_currency d c then v else net_get c ns

-- `net.set(ccy, v)`
unfoldable pub net_set : CurrencyCode → ℤ → Nets → Nets
net_set c v [] = (c, v) ∷ []
net_set c v ((d, w) ∷ ns) = if eq_currency d c then (d, v) ∷ ns else (d, w) ∷ net_set c v ns

-- Debits count up and credits down.
unfoldable pub sign_of_entry : LedgerEntryInput → ℤ
sign_of_entry e = if eqb e.direction debit then e.amount.amount else neg e.amount.amount

-- The loop over the entries.
unfoldable pub net_of : List LedgerEntryInput → Nets → Result LedgerError Nets
net_of [] net = ok net
net_of (e ∷ es) net =
    let rest =
      net_of es
        (net_set e.amount.currency (net_get e.amount.currency net +ℤ sign_of_entry e) net) in
    if not (is_positive e.amount) then err invalid_entries else rest

abbrev pub is_open : CurrencyCode × ℤ → Bool
is_open (c, v) = not (eqb_ℤ v (pos 0))

unfoldable pub check_nets : Nets → Result LedgerError (Unit {0})
check_nets net =
    let open_nets = keep is_open net in throw_if (ltb 0 (length open_nets)) (unbalanced open_nets)

-- The checks of the key, the source and the number of entries.
unfoldable pub check_form : PostTransactionInput → Result LedgerError (Unit {0})
check_form input = do
  throw_if (not (includes ledger_reasons input.reason)) invalid_entries
  throw_if
      ((length input.idempotency_key == 0)
        || ltb (length input.idempotency_key) 8
        || ltb 200 (length input.idempotency_key))
      invalid_entries
  throw_if ((length input.source.kind == 0) || (length input.source.id == 0)) invalid_entries
  throw_if (ltb (length input.entries) 2) invalid_entries

unfoldable pub validate_input : PostTransactionInput → Result LedgerError (Unit {0})
validate_input input = do check_form input; net ← net_of input.entries []; check_nets net
