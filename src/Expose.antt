-- ===== src/Expose.antt =====
-- How Spinnaker is exposed: pkg/deploy/spindeploy/expose_service, x509 and the port rules of
-- pkg/util/runtime.go.
pub mod Port
pub mod Annotations
pub mod LoadBalancer
pub mod Service
pub mod X509
pub mod Ingress
