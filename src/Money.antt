-- ===== src/Money.antt =====
-- packages/money: the currencies, the `Money` value object, its decimal text, and `allocate`.
pub mod Currency
pub mod Value
pub mod Decimal
pub mod Allocate
pub mod Tests
