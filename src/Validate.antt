-- ===== src/Validate.antt =====
-- pkg/validate: the validation of a SpinnakerService.
pub mod Docker
pub mod Outcome
pub mod Parallel
pub mod Accounts
pub mod All
