-- ===== src/Ledger/Posting/Catalogue.antt =====
-- packages/ledger/src/posting.ts: the operations of two legs.
use fluvia.Base.{Result}
use fluvia.Ledger.Types.{
  settlement, refund, reserve, payout, dispute, PostedTransaction, LedgerError,
}
use fluvia.Ledger.Chart.{
  provider_clearing, platform_cash, payout_in_transit, merchant_pending, merchant_available,
  merchant_reserve, refund_liability, dispute_reserve,
}
use fluvia.Ledger.Db.{Db}
use fluvia.Ledger.Posting.Operations.{Engine, SimpleAmountInput, two_legged}

abbrev pub Operation : Type 0
Operation = Engine → SimpleAmountInput → Db → Result LedgerError PostedTransaction × Db

-- `releaseSettlement`
unfoldable pub release_settlement : Operation
unfolding two_legged
release_settlement engine input db =
    two_legged engine input settlement merchant_pending merchant_available db

-- `requestRefund`
unfoldable pub request_refund : Operation
unfolding two_legged
request_refund engine input db =
    two_legged engine input refund merchant_available refund_liability db

-- `settleRefund`
unfoldable pub settle_refund : Operation
unfolding two_legged
settle_refund engine input db = two_legged engine input refund refund_liability provider_clearing db

-- `cancelRefundReservation`
unfoldable pub cancel_refund_reservation : Operation
unfolding two_legged
cancel_refund_reservation engine input db =
    two_legged engine input refund refund_liability merchant_available db

-- `holdReserve`
unfoldable pub hold_reserve : Operation
unfolding two_legged
hold_reserve engine input db =
    two_legged engine input reserve merchant_available merchant_reserve db

-- `releaseReserve`
unfoldable pub release_reserve : Operation
unfolding two_legged
release_reserve engine input db =
    two_legged engine input reserve merchant_reserve merchant_available db

-- `receiveProviderSettlement`
unfoldable pub receive_provider_settlement : Operation
unfolding two_legged
receive_provider_settlement engine input db =
    two_legged engine input settlement platform_cash provider_clearing db

-- `emitPayout`
unfoldable pub emit_payout : Operation
unfolding two_legged
emit_payout engine input db = two_legged engine input payout merchant_available payout_in_transit db

-- `settlePayout`
unfoldable pub settle_payout : Operation
unfolding two_legged
settle_payout engine input db = two_legged engine input payout payout_in_transit platform_cash db

-- `failPayout`
unfoldable pub fail_payout : Operation
unfolding two_legged
fail_payout engine input db = two_legged engine input payout payout_in_transit merchant_available db

-- `openDispute`
unfoldable pub open_dispute : Operation
unfolding two_legged
open_dispute engine input db = two_legged engine input dispute merchant_available dispute_reserve db

-- `winDispute`
unfoldable pub win_dispute : Operation
unfolding two_legged
win_dispute engine input db = two_legged engine input dispute dispute_reserve merchant_available db

-- `loseDispute`
unfoldable pub lose_dispute : Operation
unfolding two_legged
lose_dispute engine input db = two_legged engine input dispute dispute_reserve provider_clearing db
