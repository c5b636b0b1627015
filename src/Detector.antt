-- ===== src/Detector.antt =====
-- pkg/deploy/spindeploy/changedetector: when a SpinnakerService must be deployed again.
pub mod Composite
pub mod Config
