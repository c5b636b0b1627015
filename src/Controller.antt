-- ===== src/Controller.antt =====
-- pkg/controller/spinnakerservice: the reconciliation of a SpinnakerService, and its status.
pub mod Lookup
pub mod Status
pub mod Reconcile
