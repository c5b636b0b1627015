-- ===== src/Tests.antt =====
-- The theorems at concrete inputs.
mod Fixtures
pub mod Inspect
pub mod Secrets
pub mod Detector
pub mod Expose
pub mod Deploy
pub mod Controller
pub mod Transform
pub mod Validate
pub mod Docker
pub mod Ingress
pub mod Accounts
pub mod Webhook
pub mod PodSecrets
