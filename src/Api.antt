-- ===== src/Api.antt =====
-- apps/api/src: the guards of the HTTP interface.
pub mod RateLimit
