-- ===== src/Payments.antt =====
-- packages/payments-core: the state machines of the payment objects, and the pricing.
pub mod Fsm
pub mod Pricing
pub mod Resilience
pub mod Intents
pub mod Refunds
pub mod Tests
