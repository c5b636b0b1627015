-- ===== src/Webhook.antt =====
-- pkg/controller/spinnakervalidating and accountvalidating: the admission webhooks.
pub mod Service
pub mod Account
