-- ===== src/Webhooks/Ssrf.antt =====
-- packages/webhooks/src/ssrf.ts: `assertSafeWebhookUrl` and `resolveSafeWebhookTarget`. The parser of
-- URLs, `isIP`, `decodeURIComponent` and the resolver of names are parameters.
pub mod Address
pub mod Params
pub mod Target
pub mod Split
pub mod Display
pub mod Hex
pub mod Dotted
pub mod Chars
pub mod Spelled
pub mod Mapped
pub mod Safe
pub mod Tests
