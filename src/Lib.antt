-- ===== src/Lib.antt =====
-- Fluvia: the money, the ledger and the payment rules.
--
-- The program is a payment platform over a double entry ledger. Amounts are `Money` values
-- (packages/money). `LedgerService` (packages/ledger/src/service.ts) posts balanced transactions to
-- PostgreSQL and keeps a projected balance for each account. `PostingService`
-- (packages/ledger/src/posting.ts) is the closed catalogue of business operations over it. The
-- statuses of the payment objects move by the maps of packages/payments-core/src/fsm.ts, and
-- packages/payments-core/src/pricing.ts gives the platform's fee. packages/idempotency makes each
-- request with a key take effect once: its claim, its effect and its response are one transaction.
-- packages/outbox publishes the stored events, with a lease, retries and a last attempt;
-- packages/webhooks sends them to the URLs of merchants, behind a guard of the address.
--
-- What models what:
--   Base            shared names, lists, integers over the native numbers, results, texts
--   Money           packages/money/src: Currency (currency.ts, errors.ts); Value, Decimal and
--                   Allocate (money.ts: `of` and the arithmetic, `fromDecimal` and
--                   `toDecimalString`, `allocate`)
--   Ledger.Types    packages/ledger/src/types.ts and errors.ts
--   Ledger.Chart    packages/ledger/src/chart-of-accounts.ts
--   Ledger.Db       the tables of one tenant and the statements on them
--   Ledger.Validate, Projection, Signature, Entries, Post, Accounts, Reverse
--                   packages/ledger/src/service.ts: `validateInput`, `applyProjectionDeltas`,
--                   `entriesSignature`, `postTransaction` with `postOnce` and `replay`, the
--                   operations on one account, `reverseTransaction`
--   Ledger.Posting  packages/ledger/src/posting.ts: the accounts; Operations and Catalogue the
--                   operations
--   Payments        packages/payments-core/src: Fsm (fsm.ts), Pricing (pricing.ts), Resilience
--                   (resilience.ts), Intents (service.ts) and Refunds (refunds.ts: `beginIn` and the
--                   transactions; Execute `execute` and `resolveFromProvider`)
--   Idempotency     packages/idempotency/src/index.ts: `execute` and the constructor; Canonical
--                   `stableStringify` and `computeRequestHash`
--   Outbox          packages/outbox/src/relay.ts (`runOnce`) and replay.ts; its surroundings (clock,
--                   publisher, other processes) are a record of functions
--   Api.RateLimit   apps/api/src/rate-limit.ts
--   Webhooks.Ssrf   packages/webhooks/src/ssrf.ts: Address (`isPrivateIp`), Params
--                   (`findSensitiveQueryParam`), Target (`resolveSafeWebhookTarget`), Display (the
--                   messages); the platform's parser of URLs and its resolver are a record of
--                   functions
-- Definitions carry the names of the source in lower case with underscores: `post_once` is
-- `postOnce`. Child modules hold the proofs and are named for what they prove; the modules called
-- Tests hold examples.
--
-- How state is modelled: `Db` is the rows of one tenant, in lists. A database transaction is a
-- function from rows to new rows, or to the error after which the engine rolls everything back. The
-- ids that the database draws, the error with which it may abort an attempt, the transactions of
-- others between attempts, and writes outside the sanctioned path between a read and an update are
-- fields of `Attempt`, and so parameters of every theorem. The payment services stand on `Store`: the
-- rows of the payment tables and, of the ledger, which postings it holds; a posting runs its hook
-- unless its key has been posted, and may be refused. Calls that wait for another system are split at
-- the wait: the steps of the circuit breaker interleave freely, and in a refund other processes act
-- on the rows before each transaction. Ids are numbers in the order of the UUIDs' texts. `bigint` is
-- an integer without bounds; a `Number` is an integer or something else, with the test of
-- `Number.isSafeInteger`.
--
-- Fuel: the loop of `allocate` runs on fuel, one round for each part, and the theorem on it shows
-- that the fuel is never spent. The loop of `postTransaction` is bounded by the number of retries as
-- in the code. `isPrivateIp` calls itself on the IPv4 address in an IPv6 address and no deeper, so
-- its depth of 2 is enough. Everything else is structural recursion.
--
-- Not modelled: the checks that triggers repeat in the database (balance at commit, bounds of
-- BIGINT), the waits between attempts, timeouts, clocks, and the text of error messages. Checkout,
-- attempts, payouts and disputes of payments-core, the timer of the outbox relay and its failing
-- statements, inbox, the delivery, the endpoints and the signing of webhooks, reconciliation, auth
-- and identity are not modelled, nor is anything of the applications under apps/ but the rate
-- limiter.
pub mod Base
pub mod Money
pub mod Ledger
pub mod Payments
pub mod Idempotency
pub mod Outbox
pub mod Api
pub mod Webhooks
