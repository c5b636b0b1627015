-- ===== src/Transform.antt =====
-- pkg/deploy/spindeploy/transformer: transformers of the settings and of the pods.
pub mod Settings
pub mod Containers
pub mod SecretCollector
pub mod Accounts
pub mod AwsKeys
pub mod Secrets
