-- ===== src/Ledger/Chart.antt =====
-- packages/ledger/src/chart-of-accounts.ts: the catalogue of accounts.
use fluvia.Base.{List, [], ◌∷◌, ◌++◌, Option, find}
use fluvia.Base.Text.{Text, text_eq, codes}
use fluvia.Ledger.Types.{Side, debit, credit}

pub data AccountScope : Type 0 where
  platform merchant : AccountScope

pub data AccountType : Type 0 where
  asset liability income expense transitory : AccountType

pub record AccountDefinition : Type 0 where
  pub scope : AccountScope
  pub type : AccountType
  pub normal_side : Side

pub data AccountCode : Type 0 where
  provider_clearing provider_receivable provider_payable provider_fees : AccountCode
  platform_fees platform_cash payout_in_transit suspense recon_differences : AccountCode
  merchant_pending merchant_available merchant_reserve : AccountCode
  refund_liability dispute_reserve : AccountCode

abbrev definition : AccountScope → AccountType → Side → AccountDefinition
definition s t n = record { scope = s; type = t; normal_side = n }

unfoldable pub chart_of_accounts : AccountCode → AccountDefinition
chart_of_accounts provider_clearing = definition platform asset debit
chart_of_accounts provider_receivable = definition platform asset debit
chart_of_accounts provider_payable = definition platform liability credit
chart_of_accounts provider_fees = definition platform expense debit
chart_of_accounts platform_fees = definition platform income credit
chart_of_accounts platform_cash = definition platform asset debit
chart_of_accounts payout_in_transit = definition platform liability credit
chart_of_accounts suspense = definition platform transitory debit
chart_of_accounts recon_differences = definition platform transitory debit
chart_of_accounts merchant_pending = definition merchant liability credit
chart_of_accounts merchant_available = definition merchant liability credit
chart_of_accounts merchant_reserve = definition merchant liability credit
chart_of_accounts refund_liability = definition merchant liability credit
chart_of_accounts dispute_reserve = definition merchant liability credit

abbrev pub account_codes : List AccountCode
account_codes =
    provider_clearing ∷ provider_receivable ∷ provider_payable ∷ provider_fees ∷ platform_fees
    ∷ platform_cash ∷ payout_in_transit ∷ suspense ∷ recon_differences ∷ merchant_pending
    ∷ merchant_available ∷ merchant_reserve ∷ refund_liability ∷ dispute_reserve ∷ []

-- The key of a code in `CHART_OF_ACCOUNTS`.
unfoldable pub code_text : AccountCode → Text
code_text provider_clearing = codes "provider.clearing"
code_text provider_receivable = codes "provider.receivable"
code_text provider_payable = codes "provider.payable"
code_text provider_fees = codes "provider.fees"
code_text platform_fees = codes "platform.fees"
code_text platform_cash = codes "platform.cash"
code_text payout_in_transit = codes "payout.in_transit"
code_text suspense = codes "suspense"
code_text recon_differences = codes "recon.differences"
code_text merchant_pending = codes "merchant.pending"
code_text merchant_available = codes "merchant.available"
code_text merchant_reserve = codes "merchant.reserve"
code_text refund_liability = codes "refund.liability"
code_text dispute_reserve = codes "dispute.reserve"

-- The test of `isAccountCode`, which gives the code that it found.
unfoldable pub is_account_code : Text → Option AccountCode
unfolding code_text text_eq
is_account_code text = find (λ c. text_eq (code_text c) text) account_codes

-- The name of the account in the database. The code of `:` is 58.
unfoldable pub account_name : AccountCode → Text → Text
unfolding chart_of_accounts code_text
account_name code merchant_id = elim ((chart_of_accounts code).scope) [
  | merchant ↦ code_text code ++ 58 ∷ merchant_id
  | platform ↦ code_text code
]
