-- ===== src/Ledger.antt =====
-- packages/ledger: the double entry ledger of one tenant.
pub mod Types
pub mod Chart
pub mod Db
pub mod Validate
pub mod Projection
pub mod Signature
pub mod Entries
pub mod Post
pub mod Accounts
pub mod Posting
pub mod Reverse
pub mod Tests
