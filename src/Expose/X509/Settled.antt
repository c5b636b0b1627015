-- ===== src/Expose/X509/Settled.antt =====
-- pkg/deploy/spindeploy/x509: whether the service that the X509 transformer creates is what the X509 detector asks for.
use spinnaker_operator.Base.{
  String, Bool, true, false, not, ◌≡◌, refl, inl, inr, Option, none, some, List, ◌∷◌, arith, ◌=ₛ◌,
  =ₛ_refl, Option-cases,
}
use spinnaker_operator.Base.Dict.{lookup}
use spinnaker_operator.Base.Text.{is_empty, append}
use spinnaker_operator.Base.Number.{ℤ, pos, ◌=ℤ◌, =ℤ_refl, parse_int}
use spinnaker_operator.Secrets.Context.{SecretContext}
use spinnaker_operator.Secrets.Decode.{Engines}
use spinnaker_operator.Api.Types.{ExposeConfig, SpinnakerService}
use spinnaker_operator.Kubernetes.{Service, ServicePort, Services, get_service}
use spinnaker_operator.Expose.Port.{
  Parse, is_zero, get_port, configured_port, get_desired_expose_port,
}
use spinnaker_operator.Expose.Service.{apply_expose_service_config}
use spinnaker_operator.Expose.X509.{
  put_service, get_public_port, create_x509_service, api_port, get_x509_ports, transform_manifests,
  matches, ports_match, is_spinnaker_up_to_date,
}

pub service_kept :
    (exp : ExposeConfig) (svc : Service) (name : String)
    → (apply_expose_service_config exp svc name).ports ≡ svc.ports
unfolding apply_expose_service_config
service_kept exp svc name = ground arith

-- The override of gate-x509 is missing or has a port.
unfoldable pub agrees : ExposeConfig → Bool
agrees exp = elim (lookup "gate-x509" exp.service.overrides) [
  | none ↦ true
  | some c ↦ not (is_zero c.public_port)
]

agreed :
    (exp : ExposeConfig)
    → agrees exp ≡ true
    → (configured_port exp "gate-x509" (pos 443) =ℤ get_public_port exp (pos 443)) ≡ true
unfolding agrees configured_port get_public_port
agreed exp same = elim (Option-cases (lookup "gate-x509" exp.service.overrides)) [
  | inl gone ↦ ground (arith, gone, =ℤ_refl (pos 443), =ℤ_refl exp.service.public_port)
  | inr (c, there) ↦ ground (arith, there, =ℤ_refl c.public_port)
]

module _ {E : Type 0} (eng : Engines E) (parse : Parse) where
  -- A port of the API is configured for Gate, in plain text: an exposed Spinnaker with certificates.
  pub record Configured (spin : SpinnakerService) (text : String) (n : ℤ) : Type 0 where
    pub exposed : is_empty spin.expose.type ≡ false
    pub plain : (c : Option SecretContext) → api_port eng parse c spin ≡ (c, text, none)
    pub given : is_empty text ≡ false
    pub number : parse_int 32 text ≡ (n, none)

  created :
      (ctx : Option SecretContext) (spin : SpinnakerService) (text : String) (n : ℤ)
      (client : Services) (gate : Service)
      → Configured spin text n
      → transform_manifests eng parse ctx client spin (some gate) ≡ (
        ctx,
        inr (
            put_service (
              apply_expose_service_config spin.expose
                (create_x509_service spin.expose n gate)
                "gate-x509")),
      )
  unfolding transform_manifests
  created ctx spin text n client gate cfg =
      rw (cfg.exposed, cfg.plain ctx, cfg.given, cfg.number) refl

  desired :
      (ctx : Option SecretContext) (spin : SpinnakerService)
      → get_desired_expose_port eng parse ctx "gate-x509" (pos 443) spin
        ≡ (ctx, configured_port spin.expose "gate-x509" (pos 443))
  unfolding get_desired_expose_port get_port ◌=ₛ◌ append lookup is_empty
  desired ctx spin = refl

  first_match :
      (n : ℤ) (p : ServicePort) (more : List ServicePort)
      → p.name ≡ "gate-x509"
      → p.target_port ≡ n
      → get_x509_ports (p ∷ more) ≡ (p.port, n)
  unfolding get_x509_ports
  first_match n p more named targeted = rw (named, =ₛ_refl "gate-x509", targeted) refl

  found :
      (client : Services) (name namespace : String) (svc : Service)
      → client name namespace ≡ inr svc
      → get_service client name namespace ≡ inr (some svc)
  unfolding get_service
  found client name namespace svc there = rw (get_service, there) refl

  match_ports :
      (ctx : Option SecretContext) (spin : SpinnakerService) (text : String) (n : ℤ) (svc : Service)
      (p : ServicePort) (more : List ServicePort)
      → Configured spin text n
      → svc.ports ≡ p ∷ more
      → p.name ≡ "gate-x509"
      → p.target_port ≡ n
      → matches eng parse spin (ctx, text) (inr (some svc))
        ≡ (ctx, inr (configured_port spin.expose "gate-x509" (pos 443) =ℤ p.port))
  match_ports ctx spin text n svc p more cfg hs named targeted =
      rw
        (
          cfg.given,
          hs,
          cfg.number,
          ports_match,
          hs,
          first_match n p more named targeted,
          desired ctx spin,
        )
        (ground (arith, cfg.number, =ℤ_refl n))

  pub answer :
      (ctx : Option SecretContext) (spin : SpinnakerService) (text : String) (n : ℤ)
      (client : Services) (svc : Service) (p : ServicePort) (more : List ServicePort)
      → Configured spin text n
      → svc.ports ≡ p ∷ more
      → p.name ≡ "gate-x509"
      → p.target_port ≡ n
      → client "spin-gate-x509" spin.namespace ≡ inr svc
      → is_spinnaker_up_to_date eng parse ctx client spin
        ≡ (ctx, inr (configured_port spin.expose "gate-x509" (pos 443) =ℤ p.port))
  unfolding is_spinnaker_up_to_date
  answer ctx spin text n client svc p more cfg hs named targeted there =
      rw (cfg.exposed, cfg.plain ctx, found client "spin-gate-x509" spin.namespace svc there)
        (match_ports ctx spin text n svc p more cfg hs named targeted)

  at_cluster :
      (ctx : Option SecretContext) (spin : SpinnakerService) (text : String) (n : ℤ)
      (client client' : Services) (gate svc : Service) (p : ServicePort) (more : List ServicePort)
      → Configured spin text n
      → gate.ports ≡ p ∷ more
      → transform_manifests eng parse ctx client spin (some gate) ≡ (ctx, inr (put_service svc))
      → client' "spin-gate-x509" spin.namespace ≡ inr svc
      → is_spinnaker_up_to_date eng parse ctx client' spin ≡ (
        ctx,
        inr (
            configured_port spin.expose "gate-x509" (pos 443)
            =ℤ get_public_port spin.expose (pos 443)),
      )
  unfolding create_x509_service
  at_cluster ctx spin text n client client' gate svc p more cfg hs done there =
      let exp = spin.expose in
      let made = create_x509_service exp n gate in
      let p' = record p {
        name = "gate-x509";
        port = get_public_port exp (pos 443);
        target_port = n;
      } in
      let shape : svc ≡ apply_expose_service_config exp made "gate-x509" =
        ground (arith, created ctx spin text n client gate cfg) in
      let ports : svc.ports ≡ p' ∷ more = rw (shape, service_kept exp made "gate-x509", hs) refl in
      answer ctx spin text n client' svc p' more cfg ports refl refl there

  -- Gate exposed in plain text with certificates (`Configured`), the generated service with at least
  -- one port, and the overrides either silent on gate-x509 or with a public port for it: the
  -- service that the transformer creates, once it is on the cluster, is up to date for the detector.
  pub x509_settled :
      (ctx : Option SecretContext) (spin : SpinnakerService) (text : String) (n : ℤ)
      (client client' : Services) (gate svc : Service) (p : ServicePort) (more : List ServicePort)
      → Configured spin text n
      → gate.ports ≡ p ∷ more
      → agrees spin.expose ≡ true
      → transform_manifests eng parse ctx client spin (some gate) ≡ (ctx, inr (put_service svc))
      → client' "spin-gate-x509" spin.namespace ≡ inr svc
      → is_spinnaker_up_to_date eng parse ctx client' spin ≡ (ctx, inr true)
  x509_settled ctx spin text n client client' gate svc p more cfg hs same done there =
      rw (at_cluster ctx spin text n client client' gate svc p more cfg hs done there)
        (ground (arith, agreed spin.expose same))
