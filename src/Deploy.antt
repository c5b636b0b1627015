-- ===== src/Deploy.antt =====
-- pkg/deploy/spindeploy: the deployment of a SpinnakerService.
pub mod Save
pub mod Pipeline
