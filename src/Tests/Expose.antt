-- ===== src/Tests/Expose.antt =====
-- The exposed services, at concrete inputs.
use spinnaker_operator.Base.{
  ℕ, String, Bool, true, false, ◌≡◌, refl, ◌⊎◌, inl, inr, Option, none, some, List, [], ◌∷◌, ◌=ₛ◌,
}
use spinnaker_operator.Base.Dict.{Dict, lookup}
use spinnaker_operator.Base.Text.{append, is_empty}
use spinnaker_operator.Base.Number.{ℤ, pos, ◌=ℤ◌}
use spinnaker_operator.Base.Result.{ok}
use spinnaker_operator.Inspect.Value.{string, empty, field, map}
use spinnaker_operator.Api.Types.{ExposeConfig, ExposeConfigServiceOverrides, SpinnakerService}
use spinnaker_operator.Kubernetes.{Service, Services}
use spinnaker_operator.Expose.Annotations.{get_aggregated_annotations}
use spinnaker_operator.Expose.Service.{transform_service_manifest}
use spinnaker_operator.Expose.Service.Detector.{is_expose_service_up_to_date}
use spinnaker_operator.Expose.Service.Detector.Settled.{transform_service_manifest_settled}
use spinnaker_operator.Expose.X509.{is_spinnaker_up_to_date}
use spinnaker_operator.Expose.X509.Settled.{Configured, x509_settled}
use spinnaker_operator.Config.{unable_to_read}
use spinnaker_operator.Inspect.Value.{invalid_interface}
use spinnaker_operator.Tests.Fixtures.{
  no_secrets, no_urls, first_config, spinnaker, exposed_with, gate_port, gate_service,
}

-- Gate is a ClusterIP with an annotation of its own.
abbrev gate_override : ExposeConfigServiceOverrides
gate_override = record {
  type = "ClusterIP";
  public_port = pos 0;
  annotations = ("team", "gate") ∷ [];
}

abbrev own_gate : ExposeConfig
own_gate = exposed_with (("gate", gate_override) ∷ [])

abbrev exposed_gate : SpinnakerService
exposed_gate = record spinnaker { expose = own_gate }

abbrev gate_after : Service
gate_after =
    (transform_service_manifest no_secrets no_urls none "gate"
      "security.apiSecurity.overrideBaseUrl" exposed_gate gate_service).1

abbrev only : Service → Services
only svc name namespace = inr svc

transform_service_manifest_settled_example :
    is_expose_service_up_to_date no_secrets no_urls none (only gate_after) exposed_gate "gate" false
    ≡ (none, ok true)
unfolding ◌=ₛ◌ append spinnaker_operator.Config.get_hal_config_prop_string
    spinnaker_operator.Inspect.Getter.get_raw_object_prop_string
    spinnaker_operator.Inspect.Getter.get_object_prop is_empty spinnaker_operator.Base.Text.split
    spinnaker_operator.Inspect.Getter.inspect_property spinnaker_operator.Inspect.Value.get_field
    spinnaker_operator.Base.Text.lower_is transform_service_manifest
    spinnaker_operator.Base.Text.contains spinnaker_operator.Config.get_service_config_prop_string
    lookup
transform_service_manifest_settled_example =
    transform_service_manifest_settled no_secrets no_urls none none exposed_gate "gate" ""
      "security.apiSecurity.overrideBaseUrl" gate_service gate_after gate_port [] (only gate_after)
      false refl (λ c. refl) refl refl refl refl refl

-- Gate's API listens to client certificates on 8085.
abbrev with_api_port : List (String × ExposeConfigServiceOverrides) → SpinnakerService
with_api_port overrides = record spinnaker {
  expose = exposed_with overrides;
  spinnaker_config = record first_config {
    profiles = ("gate", field "default" (map (field "apiPort" (string "8085") empty)) empty) ∷ [];
  };
}

abbrev x509_service : Service
x509_service = record {
  name = "spin-gate-x509";
  namespace = "prod";
  type = "LoadBalancer";
  ports = record gate_port { name = "gate-x509"; port = pos 8443; target_port = pos 8085 } ∷ [];
  annotations = ("team", "delivery") ∷ [];
  ingress = [];
}

x509-Configured : Configured no_secrets no_urls (with_api_port []) "8085" (pos 8085)
unfolding is_empty spinnaker_operator.Config.get_service_config_prop_string lookup ◌=ₛ◌
    spinnaker_operator.Inspect.Getter.get_raw_object_prop_string
    spinnaker_operator.Inspect.Getter.get_object_prop spinnaker_operator.Base.Text.split
    spinnaker_operator.Inspect.Getter.inspect_property spinnaker_operator.Inspect.Value.get_field
    spinnaker_operator.Base.Number.parse_int
x509-Configured = record { exposed = refl; plain = λ c. refl; given = refl; number = refl }

x509_settled_example :
    is_spinnaker_up_to_date no_secrets no_urls none (only x509_service) (with_api_port [])
    ≡ (none, inr true)
unfolding spinnaker_operator.Expose.X509.Settled.agrees lookup
    spinnaker_operator.Expose.X509.transform_manifests is_empty
    spinnaker_operator.Config.get_service_config_prop_string ◌=ₛ◌
    spinnaker_operator.Inspect.Getter.get_raw_object_prop_string
    spinnaker_operator.Inspect.Getter.get_object_prop spinnaker_operator.Base.Text.split
    spinnaker_operator.Inspect.Getter.inspect_property spinnaker_operator.Inspect.Value.get_field
    spinnaker_operator.Base.Number.parse_int spinnaker_operator.Base.Text.lower_is ◌=ℤ◌
    get_aggregated_annotations spinnaker_operator.Base.Dict.insert
x509_settled_example =
    x509_settled no_secrets no_urls none (with_api_port []) "8085" (pos 8085) (only gate_service)
      (only x509_service) gate_service x509_service gate_port [] x509-Configured refl refl refl refl

-- The override only adds an annotation.
abbrev annotated : ExposeConfigServiceOverrides
annotated = record { type = ""; public_port = pos 0; annotations = ("team", "x509") ∷ [] }

abbrev with_override : SpinnakerService
with_override = with_api_port (("gate-x509", annotated) ∷ [])

abbrev annotated_service : Service
annotated_service = record x509_service { annotations = ("team", "x509") ∷ [] }

-- Both URLs are in the configuration.
abbrev with_urls : SpinnakerService
with_urls = record spinnaker {
  spinnaker_config = record first_config {
    config =
        field "security"
          (map (
            field "apiSecurity"
              (map (field "overrideBaseUrl" (string "https://gate.example.com") empty))
              (field "uiSecurity"
                (map (field "overrideBaseUrl" (string "https://example.com") empty)) empty)))
          empty;
  };
}
