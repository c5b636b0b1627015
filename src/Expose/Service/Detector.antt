-- ===== src/Expose/Service/Detector.antt =====
-- pkg/deploy/spindeploy/expose_service/detector.go.
pub mod Settled
use spinnaker_operator.Base.{
  ℕ, String, Bool, true, false, ◌⊎◌, inl, inr, Option, none, some, List, [], ◌∷◌, ◌&&◌, ◌=ₛ◌, ◌==◌,
  length, if◌then◌else◌,
}
use spinnaker_operator.Base.Dict.{Dict, lookup}
use spinnaker_operator.Base.Text.{append, is_empty}
use spinnaker_operator.Base.Number.{ℤ, pos, ◌=ℤ◌}
use spinnaker_operator.Base.Result.{Result, ok, err, panic, ◌>>=◌}
use spinnaker_operator.Secrets.Context.{SecretContext}
use spinnaker_operator.Secrets.Decode.{Engines}
use spinnaker_operator.Config.{get_hal_config_prop_bool}
use spinnaker_operator.Api.Types.{ExposeConfig, SpinnakerService, SpinnakerServiceStatus}
use spinnaker_operator.Kubernetes.{Service, ServicePort, GetError, Services, get_service}
use spinnaker_operator.Expose.Annotations.{get_aggregated_annotations}
use spinnaker_operator.Expose.LoadBalancer.{find_load_balancer_url}
use spinnaker_operator.Expose.Port.{Parse, get_desired_expose_port}
use spinnaker_operator.Expose.Service.{applies}

unfoldable pub expose_service_type_up_to_date : ExposeConfig → String → Service → Bool
expose_service_type_up_to_date exp svc_name svc = elim (lookup svc_name exp.service.overrides) [
  | none ↦ svc.type =ₛ exp.service.type
  | some c ↦ if is_empty c.type then svc.type =ₛ exp.service.type else svc.type =ₛ c.type
]

unfoldable pub get_svc_ports : String → List ServicePort → ℤ × ℤ
get_svc_ports port_name [] = (pos 0, pos 0)
get_svc_ports port_name (p ∷ ports) =
    if p.name =ₛ port_name then (p.port, p.target_port) else get_svc_ports port_name ports

-- Every key of the first map has its value in the second.
unfoldable pub within : Dict String → Dict String → Bool
within [] other = true
within ((k, v) ∷ m) other =
    (elim (lookup k other) [ none ↦ false | some w ↦ v =ₛ w ]) && within m other

-- `reflect.DeepEqual` on two maps is that they are as long and that one is within the other.
unfoldable pub are_annotations_equal : Dict String → Dict String → Bool
unfolding within
are_annotations_equal first other = length first == length other && within first other

module _ {E : Type 0} (eng : Engines E) (parse : Parse) where
  unfoldable pub expose_port_up_to_date :
      Option SecretContext → String → SpinnakerService → Service → Option SecretContext × Bool
  unfolding get_svc_ports get_desired_expose_port
  expose_port_up_to_date ctx svc_name spin svc = elim svc.ports [
    | [] ↦ (ctx, false)
    | _ ∷ _ ↦
        (let public = (get_svc_ports (append svc_name "-tcp") svc.ports).0 in
          let (ctx', desired) = get_desired_expose_port eng parse ctx svc_name (pos 80) spin in
          (ctx', desired =ℤ public))
  ]

  -- The status URL that belongs to a service.
  abbrev status_url : String → SpinnakerServiceStatus → String
  status_url service_name st = if service_name =ₛ "spin-deck" then st.ui_url else st.api_url

  abbrev url_up_to_date : Services → String → SpinnakerService → Bool → Result GetError Bool
  url_up_to_date client service_name spin hc_ssl =
      if is_empty (status_url service_name spin.status)
      then (find_load_balancer_url client service_name spin.namespace hc_ssl >>= λ url.
          ok (is_empty url))
      else ok true

  abbrev service_up_to_date :
      Option SecretContext
      → Services
      → SpinnakerService
      → String
      → Bool
      → Service
      → Option SecretContext × Result GetError Bool
  service_up_to_date ctx client spin svc_name hc_ssl svc =
      if expose_service_type_up_to_date spin.expose svc_name svc
      then (let (ctx', port_ok) = expose_port_up_to_date ctx svc_name spin svc in
          (
            ctx',
            if port_ok
                  && are_annotations_equal svc.annotations
                      (get_aggregated_annotations spin.expose svc_name)
                then url_up_to_date client (append "spin-" svc_name) spin hc_ssl
                else ok false,
          ))
      else (ctx, ok false)

  -- `svc_name` is the service's name without `spin-`.
  unfoldable pub is_expose_service_up_to_date :
      Option SecretContext
      → Services
      → SpinnakerService
      → String
      → Bool
      → Option SecretContext × Result GetError Bool
  unfolding get_service expose_service_type_up_to_date expose_port_up_to_date are_annotations_equal
  is_expose_service_up_to_date ctx client spin svc_name hc_ssl =
      elim (get_service client (append "spin-" svc_name) spin.namespace) [
        | inl e ↦ (ctx, err e)
        | inr none ↦ (ctx, ok false)
        | inr (some svc) ↦ service_up_to_date ctx client spin svc_name hc_ssl svc
      ]

  abbrev bool_or_false : String → SpinnakerService → Bool
  bool_or_false prop spin = elim (get_hal_config_prop_bool spin.spinnaker_config prop false) [
    | ok b ↦ b
    | _ ↦ false
  ]

  -- Deck is looked at first, and Gate only if Deck is up to date.
  unfoldable pub is_spinnaker_up_to_date :
      Option SecretContext
      → Services
      → SpinnakerService
      → Option SecretContext × Result GetError Bool
  unfolding is_expose_service_up_to_date
  is_spinnaker_up_to_date ctx client spin =
      let deck =
        is_expose_service_up_to_date ctx client spin "deck"
          (bool_or_false "security.uiSecurity.ssl.enabled" spin) in
      let gate =
        is_expose_service_up_to_date deck.0 client spin "gate"
          (bool_or_false "security.apiSecurity.ssl.enabled" spin) in
      if applies spin then elim deck.1 [ ok true ↦ gate | r ↦ (deck.0, r) ] else (ctx, ok true)
