-- ===== src/Expose/Service.antt =====
-- pkg/deploy/spindeploy/expose_service: the service manifests of Deck and Gate (transform.go), and
-- whether the services of the cluster are as they should be (detector.go).
pub mod Detector
pub mod Status
use spinnaker_operator.Base.{
  String, Bool, true, false, Option, none, some, List, [], ◌∷◌, ◌=ₛ◌, if◌then◌else◌,
}
use spinnaker_operator.Base.Dict.{lookup}
use spinnaker_operator.Base.Text.{append, is_empty, lower_is, contains}
use spinnaker_operator.Base.Number.{ℤ, pos, NumError, parse_int}
use spinnaker_operator.Secrets.Context.{SecretContext}
use spinnaker_operator.Secrets.Decode.{Engines}
use spinnaker_operator.Config.{get_service_config_prop_string, get_hal_config_prop_string}
use spinnaker_operator.Api.Types.{ExposeConfig, ExposeConfigServiceOverrides, SpinnakerService}
use spinnaker_operator.Kubernetes.{Service, ServicePort}
use spinnaker_operator.Expose.Annotations.{get_aggregated_annotations}
use spinnaker_operator.Expose.Port.{Parse, get_port, text_of, get_desired_expose_port}

abbrev pub applies : SpinnakerService → Bool
applies svc = svc.expose.type =ₛ "service"

unfoldable pub apply_expose_service_config : ExposeConfig → Service → String → Service
apply_expose_service_config exp svc service_name =
    let global = record svc {
      type = exp.service.type;
      annotations = get_aggregated_annotations exp service_name;
    } in
    if lower_is exp.type "service"
    then elim (lookup service_name exp.service.overrides) [
      | none ↦ global
      | some c ↦ if is_empty c.type then global else record global { type = c.type }
    ]
    else svc

-- The first port with its target; a text that is no number leaves the target and gives an error.
abbrev target : String → ServicePort → ServicePort × Option NumError
target text p = if is_empty text then (p, none) else elim (parse_int 32 text).1 [
  | none ↦ (record p { target_port = (parse_int 32 text).0 }, none)
  | some e ↦ (p, some e)
]

module _ {E : Type 0} (eng : Engines E) (parse : Parse) where
  abbrev first_port :
      Option SecretContext
      → String
      → ℤ
      → SpinnakerService
      → String
      → ServicePort
      → Option SecretContext × ServicePort × Option NumError
  first_port ctx port_name port spin url p =
      let named = record p { port = get_port parse url port; name = port_name } in
      if contains "gate" port_name
      then (let (ctx', text) =
            text_of
              (get_service_config_prop_string eng ctx spin.spinnaker_config "gate" "server.port") in
          let (p', e) = target text named in (ctx', p', e))
      else (ctx, named, none)

  unfoldable pub apply_port_changes :
      Option SecretContext
      → String
      → ℤ
      → String
      → SpinnakerService
      → Service
      → Option SecretContext × Service × Option NumError
  apply_port_changes ctx port_name port prop spin svc = elim svc.ports [
    | [] ↦ (ctx, svc, none)
    | p ∷ more ↦
        (let (ctx', url) =
            text_of (get_hal_config_prop_string eng ctx spin.spinnaker_config prop) in
          let (ctx'', p', e) = first_port ctx' port_name port spin url p in
          (ctx'', record svc { ports = p' ∷ more }, e))
  ]

  -- A failed port change leaves the service without its type and annotations.
  abbrev finish :
      SpinnakerService
      → String
      → Option SecretContext × Service × Option NumError
      → Option SecretContext × Service × Option NumError
  finish spin svc_name (ctx, svc, some e) = (ctx, svc, some e)
  finish spin svc_name (ctx, svc, none) =
      (ctx, apply_expose_service_config spin.expose svc svc_name, none)

  unfoldable pub transform_service_manifest :
      Option SecretContext
      → String
      → String
      → SpinnakerService
      → Service
      → Option SecretContext × Service × Option NumError
  unfolding apply_port_changes apply_expose_service_config get_desired_expose_port
  transform_service_manifest ctx svc_name prop spin svc =
      let (ctx', port) = get_desired_expose_port eng parse ctx svc_name (pos 80) spin in
      finish spin svc_name (apply_port_changes ctx' (append svc_name "-tcp") port prop spin svc)
