-- ===== src/Tests/Ingress.antt =====
-- The ingresses, at concrete inputs.
use spinnaker_operator.Base.{
  String, Bool, true, false, ◌≡◌, refl, inl, inr, Option, none, some, List, [], ◌∷◌, ◌=ₛ◌, ◌⊎◌,
}
use spinnaker_operator.Base.Dict.{lookup}
use spinnaker_operator.Base.Text.{append, is_empty}
use spinnaker_operator.Base.Number.{ℤ, pos, ◌=ℤ◌}
use spinnaker_operator.Base.Result.{Result}
use spinnaker_operator.Inspect.Value.{get_field}
use spinnaker_operator.Config.{SpinnakerConfig}
use spinnaker_operator.Api.Types.{SpinnakerService}
use spinnaker_operator.Expose.Ingress.{
  IngressPath, IngressRule, Ingress, IngressApi, IngressExplorer, IngressUrl, get_ingress_url,
  load_ingresses, new_explorer, is_spinnaker_up_to_date, deck_default_port,
  get_actual_extension_host, get_actual_networking_host,
}
use spinnaker_operator.Expose.Ingress.First.{get_ingress_url-first}
use spinnaker_operator.Expose.Ingress.Transform.{State, IngressError, transform_config}
use spinnaker_operator.Expose.Ingress.Transform.Unset.{IsUnset}
use spinnaker_operator.Expose.Ingress.Transform.Settled.{transform_config_settled}
use spinnaker_operator.Tests.Fixtures.{no_secrets, no_urls, first_config, spinnaker, exposed_with}

abbrev path_of : String → String → ℤ → IngressPath
path_of path service port = record {
  path = path;
  service_name = service;
  port_name = "";
  port_number = port;
}

-- Deck and Gate under one host, Gate with a path of its own.
abbrev both_services : Ingress
both_services = record {
  rules =
      record {
        host = "spinnaker.example.com";
        http =
            some (path_of "/api" "spin-gate" (pos 8084) ∷ path_of "/" "spin-deck" (pos 9000) ∷ []);
      }
      ∷ [];
  tls = ("spinnaker.example.com" ∷ []) ∷ [];
  load_balancer = [];
}

abbrev one_ingress : IngressApi String
one_ingress = record {
  recognizes_networking = false;
  recognizes_extensions = true;
  list_networking = λ ns. inl "not recognized";
  list_extensions = λ ns. inr (both_services ∷ []);
}

abbrev explored : IngressExplorer
explored = record { networking_ingresses = none; extension_ingresses = some (both_services ∷ []) }

get_ingress_url-first_example :
    get_ingress_url explored "spin-gate" (pos 8084)
    ≡ some (record { scheme = "https"; host = "spinnaker.example.com"; path = "/api" })
unfolding ◌=ₛ◌ ◌=ℤ◌ is_empty spinnaker_operator.Expose.Ingress.url_at get_actual_extension_host
get_ingress_url-first_example = get_ingress_url-first explored "spin-gate" (pos 8084)

abbrev exposed : SpinnakerService
exposed = record spinnaker {
  expose = record (exposed_with []) { type = "ingress" };
  spinnaker_config = record first_config { profiles = [] };
}

abbrev fresh : State
fresh = record { ing = none; gate_path_override = ""; ctx = none; svc = exposed }

abbrev transformed : State × Result (IngressError String) (Unit {0})
transformed = transform_config no_secrets no_urls one_ingress fresh

first_config-IsUnset : IsUnset first_config.config
unfolding get_field ◌=ₛ◌
first_config-IsUnset = record { no_security = refl; no_gate_key = refl; no_deck_key = refl }

transform_config_settled_example :
    is_spinnaker_up_to_date no_secrets one_ingress none transformed.0.svc ≡ (none, inr true)
unfolding lookup ◌=ₛ◌ load_ingresses transform_config
    spinnaker_operator.Config.get_hal_config_prop_string
    spinnaker_operator.Inspect.Getter.get_raw_object_prop_string
    spinnaker_operator.Inspect.Getter.get_object_prop is_empty spinnaker_operator.Base.Text.split
    spinnaker_operator.Inspect.Getter.inspect_property get_field ◌=ℤ◌
    spinnaker_operator.Expose.Ingress.guess_gate_port spinnaker_operator.Config.set_hal_config_prop
    spinnaker_operator.Inspect.Setter.inspect_property_or_set
    spinnaker_operator.Inspect.Setter.write_back spinnaker_operator.Inspect.Value.put_field
transform_config_settled_example =
    transform_config_settled no_secrets no_urls one_ingress fresh explored none {t' = transformed.0}
      refl refl refl first_config-IsUnset refl refl
