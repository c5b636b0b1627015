-- ===== src/Expose/Ingress/Transform.antt =====
-- pkg/deploy/spindeploy/expose_ingress/transform.go: the URLs of Gate and Deck, from the ingresses, in the
-- configuration and the status; and Gate's path in its profile and its readiness probe.
pub mod Unset
pub mod Settled
use spinnaker_operator.Base.{
  String, Bool, true, false, ◌⊎◌, inl, inr, Option, none, some, List, [], ◌∷◌, not, ◌&&◌, ◌||◌,
  ◌=ₛ◌, if◌then◌else◌,
}
use spinnaker_operator.Base.Dict.{lookup, insert}
use spinnaker_operator.Base.Text.{is_empty, split}
use spinnaker_operator.Base.Number.{ℤ}
use spinnaker_operator.Base.Io.{Io, go_on, returned, ◌>>=◌}
use mathlib.Core.Option
use spinnaker_operator.Base.Result.{Result, ok, err, panic}
use spinnaker_operator.Inspect.Value.{Value, string, map, Fields, empty, Error}
use spinnaker_operator.Inspect.Setter.{set_from_keys}
use spinnaker_operator.Secrets.Context.{SecretContext}
use spinnaker_operator.Secrets.Decode.{Engines}
use spinnaker_operator.Config.{
  PropError, SpinnakerConfig, as_profile, get_hal_config_prop_string, set_hal_config_prop,
}
use spinnaker_operator.Api.Types.{SpinnakerService, SpinnakerServiceStatus}
use spinnaker_operator.Kubernetes.Workload.{
  Probe, Container, Deployment, ServiceConfig, GeneratedConfig,
}
use spinnaker_operator.Expose.Port.{
  Url, Parse, text_of, gate_override_base_url_prop, deck_override_base_url_prop,
}
use spinnaker_operator.Transform.Containers.{get_container_in_deployment}
use spinnaker_operator.Expose.Ingress.{
  IngressApi, IngressExplorer, IngressUrl, new_explorer, load_ingresses, get_ingress_url,
  url_to_string, guess_gate_port, deck_default_port, applies,
}

pub data IngressError (F : Type 0) : Type 0 where
  bad_gate_url bad_deck_url : String → IngressError F
  cannot_list : F → IngressError F
  cannot_set : Error → IngressError F
  unknown_gate_deployment : IngressError F

-- The transformer's own state, the context of secrets, and the SpinnakerService that it changes.
pub record State : Type 0 where
  pub ing : Option IngressExplorer
  pub gate_path_override : String
  pub ctx : Option SecretContext
  pub svc : SpinnakerService

-- One key of Gate's profile after another.
unfoldable pub set_each : List (String × String) → Io Value Error (Unit {0})
set_each [] v = (v, ok tt)
set_each ((k, p) ∷ props) v =
    go_on (λ u. set_each props) (set_from_keys v (split b'.' k) (string p))

abbrev pub gate_path_props : String → List (String × String)
gate_path_props new_path =
    ("server.servlet.contextPath", new_path)
    ∷ ("server.tomcat.protocolHeader", "X-Forwarded-Proto")
    ∷ ("server.tomcat.remoteIpHeader", "X-Forwarded-For")
    ∷ ("server.tomcat.internalProxies", ".*")
    ∷ ("server.tomcat.httpsServerPort", "X-Forwarded-Port")
    ∷ []

-- A profile that is there already is changed in place, also when an error ends the loop.
abbrev with_profile :
    SpinnakerConfig
    → Option Fields
    → Value × Result Error (Unit {0})
    → SpinnakerConfig × Result Error (Unit {0})
with_profile cfg old (v, ok u) = (as_profile cfg "gate" v, ok u)
with_profile cfg none (v, r) = (cfg, r)
with_profile cfg (some p) (v, r) = (as_profile cfg "gate" v, r)

abbrev profile_or_new : Option Fields → Fields
profile_or_new none = empty
profile_or_new (some p) = p

unfoldable pub set_gate_path_in_config :
    String → SpinnakerConfig → SpinnakerConfig × Result Error (Unit {0})
unfolding set_each
set_gate_path_in_config new_path cfg =
    let old = lookup "gate" cfg.profiles in
    with_profile cfg old (set_each (gate_path_props new_path) (map (profile_or_new old)))

abbrev with_config : State → SpinnakerConfig → State
with_config t cfg = record t { svc = record t.svc { spinnaker_config = cfg } }

-- A change of the configuration, as a step of the transformer.
abbrev changed :
    {F : Type 0}
    → State
    → SpinnakerConfig × Result Error (Unit {0})
    → State × Result (IngressError F) (Unit {0})
changed t (cfg, ok u) = (with_config t cfg, ok u)
changed t (cfg, err e) = (with_config t cfg, err (cannot_set e))
changed t (cfg, panic) = (with_config t cfg, panic)

abbrev with_ui_url : String → State → State
with_ui_url url t = record t {
  svc = record t.svc { status = record t.svc.status { ui_url = url } };
}

abbrev with_api_url : String → State → State
with_api_url url t = record t {
  svc = record t.svc { status = record t.svc.status { api_url = url } };
}

module _ {E F : Type 0} (eng : Engines E) (parse : Parse) (api : IngressApi F) where
  abbrev I : Type 0 → Type 0
  I A = Io State (IngressError F) A

  abbrev parsed : IngressError F → String → Result (IngressError F) Bool
  parsed bad s = elim (parse s) [ none ↦ err bad | some u ↦ ok true ]

  -- Whether the URL is set; what cannot be read is not set.
  abbrev is_set :
      State
      → (String → IngressError F)
      → Option SecretContext × String × Option (PropError E)
      → State × Result (IngressError F) Bool
  is_set t bad (ctx, s, some e) = (record t { ctx = ctx }, ok false)
  is_set t bad (ctx, s, none) =
      (record t { ctx = ctx }, if is_empty s then ok false else parsed (bad s) s)

  unfoldable pub get_url_from_config : (String → IngressError F) → String → I Bool
  get_url_from_config bad prop t =
      is_set t bad (get_hal_config_prop_string eng t.ctx t.svc.spinnaker_config prop)

  abbrev loaded :
      State
      → IngressExplorer × Option F
      → String
      → ℤ
      → State × Result (IngressError F) (Option IngressUrl)
  loaded t (ing, some e) service_name service_port = (t, err (cannot_list e))
  loaded t (ing, none) service_name service_port =
      (record t { ing = some ing }, ok (get_ingress_url ing service_name service_port))

  -- The ingresses are loaded once.
  unfoldable pub find_url_in_ingress : String → ℤ → I (Option IngressUrl)
  unfolding load_ingresses get_ingress_url
  find_url_in_ingress service_name service_port t = elim t.ing [
    | some ing ↦ (t, ok (get_ingress_url ing service_name service_port))
    | none ↦ loaded t (load_ingresses api new_explorer t.svc.namespace) service_name service_port
  ]

  abbrev guess : I ℤ
  guess t = let (ctx, port) = guess_gate_port eng t.ctx t.svc in (record t { ctx = ctx }, ok port)

  abbrev set_path : String → I (Unit {0})
  set_path path t =
      if is_empty path || path =ₛ "/"
      then (t, ok tt)
      else changed (record t { gate_path_override = path })
          (set_gate_path_in_config path t.svc.spinnaker_config)

  abbrev set_gate : Option IngressUrl → I (Unit {0})
  set_gate none = returned (ok tt)
  set_gate (some u) =
      (λ t. changed t (
        set_hal_config_prop t.svc.spinnaker_config gate_override_base_url_prop
          (string (url_to_string u))))
      >>= λ done. (set_path u.path >>= λ also. λ t. (with_api_url (url_to_string u) t, ok tt))

  abbrev find_gate : Bool → I (Unit {0})
  find_gate true = returned (ok tt)
  find_gate false = guess >>= λ port. (find_url_in_ingress "spin-gate" port >>= set_gate)

  abbrev set_deck : Option IngressUrl → I (Unit {0})
  set_deck none = returned (ok tt)
  set_deck (some u) =
      (λ t. changed t (
        set_hal_config_prop t.svc.spinnaker_config deck_override_base_url_prop
          (string (url_to_string u))))
      >>= λ done. λ t. (with_ui_url (url_to_string u) t, ok tt)

  abbrev find_deck : Bool → I (Unit {0})
  find_deck true = returned (ok tt)
  find_deck false = find_url_in_ingress "spin-deck" deck_default_port >>= set_deck

  unfoldable pub transform_gate : I (Unit {0})
  unfolding get_url_from_config find_url_in_ingress set_gate_path_in_config
  transform_gate = get_url_from_config bad_gate_url gate_override_base_url_prop >>= find_gate

  unfoldable pub transform_deck : I (Unit {0})
  unfolding get_url_from_config find_url_in_ingress
  transform_deck = get_url_from_config bad_deck_url deck_override_base_url_prop >>= find_deck

  unfoldable pub transform_config : I (Unit {0})
  unfolding transform_gate transform_deck
  transform_config t =
      if applies t.svc then (transform_gate >>= λ u. transform_deck) t else (t, ok tt)

  -- A readiness probe that runs a command is replaced; another one is the user's.
  abbrev with_probe : String → ℤ → Container → Container
  with_probe new_path port c =
      let replaced = record c {
        readiness_probe = some (record { exec = none; http_get = some (new_path, port) });
      } in
      elim c.readiness_probe [
        | none ↦ replaced
        | some p ↦ elim p.exec [ some cmd ↦ replaced | none ↦ c ]
      ]

  unfoldable pub set_in_gate : (Container → Container) → List Container → Option (List Container)
  set_in_gate change [] = none
  set_in_gate change (c ∷ cs) =
      let rest = set_in_gate change cs in
      if c.name =ₛ "gate" then some (change c ∷ cs) else Option.map (λ cs'. c ∷ cs') rest

  abbrev with_containers : Deployment → Option (List Container) → Result (IngressError F) Deployment
  with_containers d none = err unknown_gate_deployment
  with_containers d (some cs) = ok (record d { containers = cs })

  unfoldable pub set_gate_server_path_in_deployment :
      String → ℤ → Deployment → Result (IngressError F) Deployment
  unfolding set_in_gate
  set_gate_server_path_in_deployment new_path port d =
      with_containers d (set_in_gate (with_probe new_path port) d.containers)

  abbrev with_gate :
      ServiceConfig
      → GeneratedConfig
      → Result (IngressError F) Deployment
      → Result (IngressError F) GeneratedConfig
  with_gate c gen (ok d) = ok (insert "gate" (record c { deployment = some d }) gen)
  with_gate c gen (err e) = err e
  with_gate c gen panic = panic

  -- Without a manifest for Gate there is nothing to change.
  abbrev gate_changed : String → ℤ → GeneratedConfig → Result (IngressError F) GeneratedConfig
  gate_changed new_path port gen = elim (lookup "gate" gen) [
    | none ↦ ok gen
    | some c ↦ elim c.deployment [
      | none ↦ ok gen
      | some d ↦ with_gate c gen (set_gate_server_path_in_deployment new_path port d)
    ]
  ]

  unfoldable pub transform_manifests : GeneratedConfig → I GeneratedConfig
  unfolding set_gate_server_path_in_deployment
  transform_manifests gen t =
      if applies t.svc && not (is_empty t.gate_path_override)
      then (guess >>= λ port. returned (gate_changed t.gate_path_override port gen)) t
      else (t, ok gen)
