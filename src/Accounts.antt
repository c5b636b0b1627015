-- ===== src/Accounts.antt =====
-- pkg/accounts: the accounts of Spinnaker's providers.
pub mod Env
pub mod Kubernetes
pub mod Service
pub mod AuthSettings
pub mod Cluster
pub mod Client
pub mod Validator
