-- ===== src/Expose/Service/Status.antt =====
-- pkg/deploy/spindeploy/expose_service/transform.go: the URLs of Gate and Deck in the status and in the
-- configuration (`TransformConfig`).
pub mod Found
use spinnaker_operator.Base.{
  ℕ, String, Bool, true, false, ◌≡◌, refl, sym, ◌⊎◌, inl, inr, Option, none, some, List, [], ◌∷◌,
  ◌=ₛ◌, ◌==◌, ◌&&◌, arith, if◌then◌else◌,
}
use spinnaker_operator.Base.Text.{append, is_empty}
use spinnaker_operator.Base.Number.{ℤ, pos}
use spinnaker_operator.Base.Result.{Result, ok, err, panic, ◌>>=◌}
use spinnaker_operator.Inspect.Value.{string, Error}
use spinnaker_operator.Secrets.Context.{SecretContext}
use spinnaker_operator.Secrets.Decode.{Engines}
use spinnaker_operator.Config.{
  PropError, SpinnakerConfig, get_hal_config_prop_string, get_hal_config_prop_bool,
  set_hal_config_prop,
}
use spinnaker_operator.Api.Types.{SpinnakerService, SpinnakerServiceStatus}
use spinnaker_operator.Kubernetes.{GetError, other_error, Services, get_service}
use spinnaker_operator.Expose.LoadBalancer.{build_url, is_positive, find_load_balancer_url}
use spinnaker_operator.Expose.Port.{
  Url, Parse, text_of, get_desired_expose_port, gate_override_base_url_prop,
  deck_override_base_url_prop,
}
use spinnaker_operator.Expose.Service.{applies}

pub data StatusError : Type 0 where
  not_a_url : StatusError
  cannot_set : Error → StatusError

-- `serviceName[len("spin-"):]` of the two services.
abbrev pub without_spin : String → String
without_spin service_name = if service_name =ₛ "spin-gate" then "gate" else "deck"

abbrev ssl_prop : String → String
ssl_prop service_name =
    if service_name =ₛ "spin-gate"
    then "security.apiSecurity.ssl.enabled"
    else "security.uiSecurity.ssl.enabled"

-- An error of the read, or a value that is no boolean, is false.
abbrev pub ssl_enabled : String → SpinnakerService → Bool
ssl_enabled service_name spin =
    elim (get_hal_config_prop_bool spin.spinnaker_config (ssl_prop service_name) false) [
      | ok b ↦ b
      | _ ↦ false
    ]

-- The load balancer's URL; the error of the lookup is overwritten by the next one.
abbrev url_or_empty : Result GetError String → Result StatusError String
url_or_empty (ok url) = ok url
url_or_empty (err e) = ok String.[]
url_or_empty panic = panic

module _ {E : Type 0} (eng : Engines E) (parse : Parse) where
  unfoldable pub generate_override_url :
      Option SecretContext
      → SpinnakerService
      → String
      → String
      → Option SecretContext × Result StatusError String
  unfolding get_desired_expose_port build_url
  generate_override_url ctx spin service_name lb_url = elim (parse lb_url) [
    | none ↦ (ctx, err not_a_url)
    | some u ↦
        let (ctx', port) =
          get_desired_expose_port eng parse ctx (without_spin service_name) (pos 80) spin in
        (ctx', ok (build_url u.scheme u.hostname port))
  ]

  abbrev desired_url :
      Option SecretContext
      → SpinnakerService
      → String
      → Result StatusError String
      → Option SecretContext × Result StatusError String
  desired_url ctx spin service_name (ok lb_url) = generate_override_url ctx spin service_name lb_url
  desired_url ctx spin service_name (err e) = (ctx, err e)
  desired_url ctx spin service_name panic = (ctx, panic)

  unfoldable pub find_url_in_service :
      Option SecretContext
      → Services
      → SpinnakerService
      → String
      → Option SecretContext × Result StatusError String
  unfolding generate_override_url find_load_balancer_url
  find_url_in_service ctx client spin service_name = desired_url ctx spin service_name (
      url_or_empty
        (find_load_balancer_url client service_name spin.namespace (ssl_enabled service_name spin)))

  -- The URL, and whether it is the configured one.
  unfoldable pub find_status_url :
      Option SecretContext
      → Services
      → SpinnakerService
      → String
      → String
      → Option SecretContext × Result StatusError (String × Bool)
  unfolding find_url_in_service
  find_status_url ctx client spin service_name prop =
      let (ctx', configured) =
        text_of (get_hal_config_prop_string eng ctx spin.spinnaker_config prop) in
      let (ctx'', url) = find_url_in_service ctx' client spin service_name in
      if is_empty configured
      then (ctx'', url >>= λ u. ok (u, false))
      else (ctx', ok (configured, true))

  abbrev pub with_url : String → String → SpinnakerService → SpinnakerService
  with_url service_name url spin =
      if service_name =ₛ "spin-gate"
      then record spin { status = record spin.status { api_url = url } }
      else record spin { status = record spin.status { ui_url = url } }

  abbrev set_error : Result Error (Unit {0}) → Result StatusError (Unit {0})
  set_error (ok u) = ok u
  set_error (err e) = err (cannot_set e)
  set_error panic = panic

  abbrev set_found :
      SpinnakerService
      → String
      → String
      → Option SecretContext × Result StatusError (String × Bool)
      → Option SecretContext × SpinnakerService × Result StatusError (Unit {0})
  set_found spin service_name prop (ctx, err e) = (ctx, spin, err e)
  set_found spin service_name prop (ctx, panic) = (ctx, spin, panic)
  set_found spin service_name prop (ctx, ok (url, true)) =
      (ctx, with_url service_name url spin, ok tt)
  set_found spin service_name prop (ctx, ok (url, false)) =
      let spin' = with_url service_name url spin in
      let (config, r) = set_hal_config_prop spin'.spinnaker_config prop (string url) in
      (ctx, record spin' { spinnaker_config = config }, set_error r)

  unfoldable pub set_status_and_override_base_url :
      Option SecretContext
      → Services
      → SpinnakerService
      → String
      → String
      → Option SecretContext × SpinnakerService × Result StatusError (Unit {0})
  unfolding find_status_url set_hal_config_prop
  set_status_and_override_base_url ctx client spin service_name prop =
      set_found spin service_name prop (find_status_url ctx client spin service_name prop)

  -- Deck follows Gate, unless Gate failed.
  abbrev then_deck :
      Services
      → Option SecretContext × SpinnakerService × Result StatusError (Unit {0})
      → Option SecretContext × SpinnakerService × Result StatusError (Unit {0})
  then_deck client (ctx, spin, ok u) =
      set_status_and_override_base_url ctx client spin "spin-deck" deck_override_base_url_prop
  then_deck client (ctx, spin, err e) = (ctx, spin, err e)
  then_deck client (ctx, spin, panic) = (ctx, spin, panic)

  unfoldable pub transform_config :
      Option SecretContext
      → Services
      → SpinnakerService
      → Option SecretContext × SpinnakerService × Result StatusError (Unit {0})
  unfolding set_status_and_override_base_url
  transform_config ctx client spin =
      if applies spin
      then then_deck client
          (set_status_and_override_base_url ctx client spin "spin-gate" gate_override_base_url_prop)
      else (ctx, spin, ok tt)
