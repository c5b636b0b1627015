-- ===== src/Secrets.antt =====
-- pkg/secrets: references to secrets, their decoding and the cache of one reconciliation.
pub mod Params
pub mod Context
pub mod Decode
