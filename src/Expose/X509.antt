-- ===== src/Expose/X509.antt =====
-- pkg/deploy/spindeploy/x509: the second service of Gate, for client certificates.
pub mod Settled
use spinnaker_operator.Base.{
  String, Bool, true, false, ◌⊎◌, inl, inr, Option, none, some, List, [], ◌∷◌, ◌&&◌, not, ◌=ₛ◌,
  if◌then◌else◌,
}
use spinnaker_operator.Base.Dict.{lookup}
use spinnaker_operator.Base.Text.{is_empty}
use spinnaker_operator.Base.Number.{ℤ, pos, NumError, ◌=ℤ◌, parse_int}
use spinnaker_operator.Secrets.Context.{SecretContext}
use spinnaker_operator.Secrets.Decode.{Engines}
use spinnaker_operator.Config.{PropError, get_service_config_prop_string}
use spinnaker_operator.Api.Types.{ExposeConfig, SpinnakerService}
use spinnaker_operator.Kubernetes.{Service, ServicePort, GetError, Services, get_service}
use spinnaker_operator.Expose.Port.{Parse, is_zero, text_of, get_desired_expose_port}
use spinnaker_operator.Expose.Service.{apply_expose_service_config}

pub data X509Error : Type 0 where
  cannot_get : GetError → X509Error
  not_a_port : NumError → X509Error

-- What happens to `gen.Config["gate-x509"]`.
pub data Change : Type 0 where
  keep : Change
  put_service delete_service : Service → Change

unfoldable pub get_public_port : ExposeConfig → ℤ → ℤ
get_public_port exp default_port =
    let global =
      if is_zero exp.service.public_port then default_port else exp.service.public_port in
    elim (lookup "gate-x509" exp.service.overrides) [
      | some c ↦ if is_zero c.public_port then global else c.public_port
      | none ↦ global
    ]

abbrev x509_ports : ExposeConfig → ℤ → List ServicePort → List ServicePort
x509_ports exp api_port [] = []
x509_ports exp api_port (p ∷ ports) =
    record p { name = "gate-x509"; port = get_public_port exp (pos 443); target_port = api_port }
    ∷ ports

unfoldable pub create_x509_service : ExposeConfig → ℤ → Service → Service
unfolding get_public_port
create_x509_service exp api_port gate_svc = record gate_svc {
  name = "spin-gate-x509";
  ports = x509_ports exp api_port gate_svc.ports;
}

-- The service that is on the cluster is to be deleted, if there is one.
abbrev schedule_for_removal_if_needed : Services → String → X509Error ⊎ Change
schedule_for_removal_if_needed client namespace =
    elim (get_service client "spin-gate-x509" namespace) [
      | inl e ↦ inl (cannot_get e)
      | inr none ↦ inr keep
      | inr (some svc) ↦ inr (delete_service svc)
    ]

abbrev create : ExposeConfig → ℤ × Option NumError → Service → X509Error ⊎ Change
create exp (n, some e) gate_svc = inl (not_a_port e)
create exp (n, none) gate_svc =
    inr (
      put_service
        (apply_expose_service_config exp (create_x509_service exp n gate_svc) "gate-x509"))

unfoldable pub get_x509_ports : List ServicePort → ℤ × ℤ
get_x509_ports [] = (pos 0, pos 0)
get_x509_ports (p ∷ ports) =
    if p.name =ₛ "gate-x509" then (p.port, p.target_port) else get_x509_ports ports

module _ {E : Type 0} (eng : Engines E) (parse : Parse) where
  abbrev pub api_port :
      Option SecretContext → SpinnakerService → Option SecretContext × String × Option (PropError E)
  api_port ctx spin =
      get_service_config_prop_string eng ctx spin.spinnaker_config "gate" "default.apiPort"

  abbrev change :
      Services
      → ExposeConfig
      → Service
      → Option SecretContext × String × Option (PropError E)
      → Option SecretContext × (X509Error ⊎ Change)
  change client exp gate (ctx, text, some e) =
      (ctx, schedule_for_removal_if_needed client gate.namespace)
  change client exp gate (ctx, text, none) = (
    ctx,
    if is_empty text
        then schedule_for_removal_if_needed client gate.namespace
        else create exp (parse_int 32 text) gate,
  )

  -- `gate` is the generated service of Gate.
  unfoldable pub transform_manifests :
      Option SecretContext
      → Services
      → SpinnakerService
      → Option Service
      → Option SecretContext × (X509Error ⊎ Change)
  unfolding create_x509_service apply_expose_service_config get_service
  transform_manifests ctx client spin none = (ctx, inr keep)
  transform_manifests ctx client spin (some gate) =
      if is_empty spin.expose.type
      then (ctx, inr keep)
      else change client spin.expose gate (api_port ctx spin)

  abbrev ports_match :
      Option SecretContext
      → SpinnakerService
      → ℤ × Option NumError
      → Service
      → Option SecretContext × (X509Error ⊎ Bool)
  ports_match ctx spin (n, some e) svc = (ctx, inl (not_a_port e))
  ports_match ctx spin (n, none) svc =
      let (public, target) = get_x509_ports svc.ports in
      let (ctx', desired) = get_desired_expose_port eng parse ctx "gate-x509" (pos 443) spin in
      if target =ℤ n then (ctx', inr (desired =ℤ public)) else (ctx, inr false)

  abbrev matches :
      SpinnakerService
      → Option SecretContext × String
      → GetError ⊎ Option Service
      → Option SecretContext × (X509Error ⊎ Bool)
  matches spin (ctx, text) (inl e) = (ctx, inl (cannot_get e))
  matches spin (ctx, text) (inr none) = (ctx, inr (is_empty text))
  matches spin (ctx, text) (inr (some svc)) =
      if is_empty text then (ctx, inr false) else elim svc.ports [
        | [] ↦ (ctx, inr false)
        | _ ∷ _ ↦ ports_match ctx spin (parse_int 32 text) svc
      ]

  unfoldable pub is_spinnaker_up_to_date :
      Option SecretContext → Services → SpinnakerService → Option SecretContext × (X509Error ⊎ Bool)
  unfolding get_x509_ports get_desired_expose_port get_service
  is_spinnaker_up_to_date ctx client spin =
      let read = text_of (api_port ctx spin) in
      if is_empty spin.expose.type
      then (ctx, inr true)
      else matches spin read (get_service client "spin-gate-x509" spin.namespace)
