-- ===== src/Api.antt =====
-- pkg/apis/spinnaker/interfaces: the SpinnakerService resource, its status, and what its methods do.
pub mod Types
pub mod Hash
pub mod Items
