-- ===== src/Expose/Service/Detector/Settled.antt =====
-- pkg/deploy/spindeploy/expose_service: what the transformer writes, and what the detector asks for.
use spinnaker_operator.Base.{
  String, Bool, true, false, ◌≡◌, refl, inl, inr, Option, none, some, List, [], ◌∷◌, arith, =ₛ→≡,
  =ₛ_refl, Option-cases,
}
use spinnaker_operator.Base.Dict.{Dict, lookup, NodupKeys}
use spinnaker_operator.Base.Text.{append, is_empty, lower_is}
use spinnaker_operator.Base.Number.{ℤ, pos, NumError, =ℤ_refl}
use spinnaker_operator.Base.Result.{ok}
use spinnaker_operator.Secrets.Context.{SecretContext}
use spinnaker_operator.Secrets.Decode.{Engines}
use spinnaker_operator.Api.Types.{ExposeConfig, SpinnakerService}
use spinnaker_operator.Kubernetes.{Service, ServicePort, Services}
use spinnaker_operator.Expose.Annotations.{
  get_aggregated_annotations, get_aggregated_annotations-NodupKeys,
}
use spinnaker_operator.Expose.Port.{
  Parse, get_port, get_port_idem, get_desired_expose_port, override_base_url, override_prop,
  configured_port,
}
use spinnaker_operator.Expose.Service.{
  first_port, finish, apply_port_changes, apply_expose_service_config, transform_service_manifest,
}
use spinnaker_operator.Expose.Service.Detector.{
  expose_service_type_up_to_date, within, are_annotations_equal, expose_port_up_to_date,
  is_expose_service_up_to_date, status_url,
}

-- A map is within any map that agrees with it; so it is within itself.
within_self :
    (m other : Dict String)
    → ((k v : String) → lookup k m ≡ some v → lookup k other ≡ some v)
    → NodupKeys m
    → within m other ≡ true
unfolding within lookup
within_self [] other h u = refl
within_self ((k, v) ∷ m) other h (fresh, u) = ground (
  arith,
  h k v,
  =ₛ_refl k,
  =ₛ_refl v,
  within_self m other (λ k' v' there. ground (arith, h k' v', =ₛ→≡ k k')) u,
)

type_settled :
    (exp : ExposeConfig) (svc : Service) (name : String)
    → lower_is exp.type "service" ≡ true
    → expose_service_type_up_to_date exp name (apply_expose_service_config exp svc name) ≡ true
unfolding expose_service_type_up_to_date apply_expose_service_config
type_settled exp svc name h = elim (Option-cases (lookup name exp.service.overrides)) [
  | inl gone ↦ ground (arith, gone, =ₛ_refl exp.service.type)
  | inr (c, there) ↦ ground (arith, there, =ₛ_refl exp.service.type, =ₛ_refl c.type)
]

annotations_settled :
    (exp : ExposeConfig) (svc : Service) (name : String)
    → lower_is exp.type "service" ≡ true
    → are_annotations_equal
        (apply_expose_service_config exp svc name).annotations
        (get_aggregated_annotations exp name)
      ≡ true
unfolding are_annotations_equal apply_expose_service_config
annotations_settled exp svc name h =
    let m = get_aggregated_annotations exp name in
    ground
      (arith, within_self m m (λ k v there. there) (get_aggregated_annotations-NodupKeys exp name))

ports_kept :
    (exp : ExposeConfig) (svc : Service) (name : String)
    → ((apply_expose_service_config exp svc name).ports ≡ svc.ports)
unfolding apply_expose_service_config
ports_kept exp svc name = ground arith

module _ {E : Type 0} (eng : Engines E) (parse : Parse) where
  first_port_lem :
      (ctx : Option SecretContext) (port_name : String) (port : ℤ) (spin : SpinnakerService)
      (url : String) (p : ServicePort)
      → let p' = (first_port eng parse ctx port_name port spin url p).1 in
        (p'.port ≡ get_port parse url port) × (p'.name ≡ port_name)
  first_port_lem ctx port_name port spin url p = ground arith

  finish_lem :
      (spin : SpinnakerService) (name : String)
      (r : Option SecretContext × Service × Option NumError) {ctx' : Option SecretContext}
      {svc' : Service}
      → finish eng parse spin name r ≡ (ctx', svc', none)
      → svc' ≡ apply_expose_service_config spin.expose r.1 name
  finish_lem spin name (c, s, none) h = ground arith
  finish_lem spin name (c, s, some e) h = ground arith

  -- The port that is written is the one that the detector asks for.
  port_settled :
      (ctx c : Option SecretContext) (spin : SpinnakerService) (name u prop : String)
      (svc : Service) (p : ServicePort) (more : List ServicePort)
      → override_prop name ≡ some prop
      → ((c : Option SecretContext) → override_base_url eng parse c spin (some prop) ≡ (c, u))
      → svc.ports ≡ p ∷ more
      → let d = (get_desired_expose_port eng parse ctx name (pos 80) spin).1 in
        let svc1 = (apply_port_changes eng parse c (append name "-tcp") d prop spin svc).1 in
        (svc2 : Service)
        → svc2.ports ≡ svc1.ports
        → expose_port_up_to_date eng parse ctx name spin svc2 ≡ (ctx, true)
  unfolding expose_port_up_to_date apply_port_changes
  port_settled ctx c spin name u prop svc p more hp plain hs svc2 same =
      let d = configured_port spin.expose name (pos 80) in
      let port = get_port parse u d in
      ground (
        arith,
        plain ctx,
        plain c,
        first_port_lem c (append name "-tcp") port spin u p,
        get_port_idem parse u d,
        =ₛ_refl (append name "-tcp"),
        =ℤ_refl port,
      )

  -- Deck or Gate (a service with an overrideBaseUrl property), exposed as a service, with at least one
  -- port and a status URL. Where the overrideBaseUrl reads the same in every context, the manifest
  -- that the transformer returns without an error, once it is the cluster's service, is one that the
  -- detector finds up to date.
  pub transform_service_manifest_settled :
      (ctx ctx' : Option SecretContext) (spin : SpinnakerService) (name u prop : String)
      (svc svc' : Service) (p : ServicePort) (more : List ServicePort) (client : Services)
      (ssl : Bool)
      → override_prop name ≡ some prop
      → ((c : Option SecretContext) → override_base_url eng parse c spin (some prop) ≡ (c, u))
      → lower_is spin.expose.type "service" ≡ true
      → svc.ports ≡ p ∷ more
      → transform_service_manifest eng parse ctx name prop spin svc ≡ (ctx', svc', none)
      → client (append "spin-" name) spin.namespace ≡ inr svc'
      → is_empty (status_url eng parse (append "spin-" name) spin.status) ≡ false
      → is_expose_service_up_to_date eng parse ctx client spin name ssl ≡ (ctx, ok true)
  unfolding is_expose_service_up_to_date transform_service_manifest
  transform_service_manifest_settled ctx ctx' spin name u prop svc svc' p more client ssl hp plain
        exposed hs done there url =
      let (c, d) = get_desired_expose_port eng parse ctx name (pos 80) spin in
      let ported = apply_port_changes eng parse c (append name "-tcp") d prop spin svc in
      let svc1 = ported.1 in
      let shape : svc' ≡ apply_expose_service_config spin.expose svc1 name =
        finish_lem spin name ported done in
      let kept : svc'.ports ≡ svc1.ports = rw shape (ports_kept spin.expose svc1 name) in
      let type_ok : expose_service_type_up_to_date spin.expose name svc' ≡ true =
        rw shape (type_settled spin.expose svc1 name exposed) in
      let annotations_ok : are_annotations_equal svc'.annotations
            (get_aggregated_annotations spin.expose name)
          ≡ true =
        rw shape (annotations_settled spin.expose svc1 name exposed) in
      ground (
        arith,
        type_ok,
        annotations_ok,
        port_settled ctx c spin name u prop svc p more hp plain hs svc' kept,
      )
