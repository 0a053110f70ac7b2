-- ===== src/Webhooks.antt =====
-- packages/webhooks/src: what guards the outgoing webhooks.
pub mod Ssrf
