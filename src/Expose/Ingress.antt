-- ===== src/Expose/Ingress.antt =====
-- pkg/deploy/spindeploy/expose_ingress/ingress.go and detector.go: the URL under which the ingresses of
-- a namespace expose a service.
pub mod Transform
pub mod First
use spinnaker_operator.Base.{
  String, Bool, true, false, ◌⊎◌, inl, inr, Option, none, some, List, [], ◌∷◌, not, ◌&&◌, ◌||◌,
  ◌=ₛ◌, any, if◌then◌else◌,
}
use spinnaker_operator.Base.Text.{append, is_empty, has_prefix}
use spinnaker_operator.Base.Number.{ℤ, pos, NumError, ◌=ℤ◌, parse_int}
use spinnaker_operator.Secrets.Context.{SecretContext}
use spinnaker_operator.Secrets.Decode.{Engines}
use spinnaker_operator.Config.{PropError, get_service_config_prop_string}
use spinnaker_operator.Api.Types.{SpinnakerService}
use spinnaker_operator.Kubernetes.{LoadBalancerIngress}
use spinnaker_operator.Expose.Port.{text_of}

-- A path of a rule; a backend's port is a name or a number.
pub record IngressPath : Type 0 where
  pub path : String
  pub service_name : String
  pub port_name : String
  pub port_number : ℤ

-- `http` is nil where it is none.
pub record IngressRule : Type 0 where
  pub host : String
  pub http : Option (List IngressPath)

-- `tls` are the hosts of each entry.
pub record Ingress : Type 0 where
  pub rules : List IngressRule
  pub tls : List (List String)
  pub load_balancer : List LoadBalancerIngress

-- The two kinds of ingresses that the API server may know, and its answers.
pub record IngressApi (E : Type 0) : Type 0 where
  pub recognizes_networking : Bool
  pub recognizes_extensions : Bool
  pub list_networking : String → E ⊎ List Ingress
  pub list_extensions : String → E ⊎ List Ingress

-- A nil slice is none.
pub record IngressExplorer : Type 0 where
  pub networking_ingresses : Option (List Ingress)
  pub extension_ingresses : Option (List Ingress)

abbrev pub new_explorer : IngressExplorer
new_explorer = record { networking_ingresses = none; extension_ingresses = none }

abbrev is_loaded : IngressExplorer → Bool
is_loaded i = elim i.networking_ingresses [
  | some ings ↦ true
  | none ↦ elim i.extension_ingresses [ some ings ↦ true | none ↦ false ]
]

-- What one of the two calls leaves: the items, and the error.
abbrev listed : {E : Type 0} → Bool → E ⊎ List Ingress → Option (List Ingress) × Option E
listed false r = (none, none)
listed true (inl e) = (none, some e)
listed true (inr ings) = (some ings, none)

-- The error of the extensions goes before that of the networking group.
unfoldable pub load_ingresses :
    {E : Type 0} → IngressApi E → IngressExplorer → String → IngressExplorer × Option E
load_ingresses api i ns =
    let (net, err_net) = listed api.recognizes_networking (api.list_networking ns) in
    let (ext, err_ext) = listed api.recognizes_extensions (api.list_extensions ns) in
    if is_loaded i then (i, none) else (
      record { networking_ingresses = net; extension_ingresses = ext },
      elim err_ext [ some e ↦ some e | none ↦ err_net ],
    )

pub record IngressUrl : Type 0 where
  pub scheme : String
  pub host : String
  pub path : String

-- `url.URL.String()`, for a host and a path that need no escape.
unfoldable pub url_to_string : IngressUrl → String
url_to_string u = append u.scheme (
    append "://" (
      append u.host
        (if is_empty u.path || has_prefix "/" u.path then u.path else append "/" u.path)))

unfoldable pub get_scheme : Ingress → String → String
get_scheme ing host = if any (λ hosts. any (λ h. h =ₛ host) hosts) ing.tls then "https" else "http"

-- The host of the rule, or else that of the first load balancer: its name, or else its address.
unfoldable pub get_actual_extension_host : String → Ingress → String
get_actual_extension_host host ing = if not (is_empty host) then host else elim ing.load_balancer [
  | [] ↦ String.[]
  | lb ∷ more ↦ if is_empty lb.hostname then lb.ip else lb.hostname
]

-- Ingresses of the networking group have no address here.
unfoldable pub get_actual_networking_host : String → Ingress → String
get_actual_networking_host host ing =
    if not (is_empty host)
    then host
    else elim ing.load_balancer [ [] ↦ String.[] | lb ∷ more ↦ lb.hostname ]

abbrev pub references : String → ℤ → IngressPath → Bool
references service_name service_port p =
    (p.service_name =ₛ service_name) && (p.port_name =ₛ "http" || p.port_number =ℤ service_port)

-- The end of the search at a path that references the service: nil without a host.
unfoldable pub url_at :
    (String → Ingress → String) → Ingress → IngressRule → IngressPath → Option IngressUrl
unfolding get_scheme
url_at actual_host ing rule p =
    let host = actual_host rule.host ing in
    if is_empty host
    then none
    else some (record { scheme = get_scheme ing host; host = host; path = p.path })

-- What was returned first.
abbrev pub or_else : {A : Type 0} → Option A → Option A → Option A
or_else (some a) o = some a
or_else none o = o

-- The three loops. `none` is that nothing was returned yet.
module _ (actual_host : String → Ingress → String) (service_name : String) (service_port : ℤ) where
  unfoldable pub find_in_paths :
      Ingress → IngressRule → List IngressPath → Option (Option IngressUrl)
  unfolding url_at
  find_in_paths ing rule [] = none
  find_in_paths ing rule (p ∷ ps) =
      let rest = find_in_paths ing rule ps in
      if references service_name service_port p then some (url_at actual_host ing rule p) else rest

  abbrev find_in_http :
      Ingress → IngressRule → Option (List IngressPath) → Option (Option IngressUrl)
  find_in_http ing rule none = none
  find_in_http ing rule (some ps) = find_in_paths ing rule ps

  unfoldable pub find_in_rules : Ingress → List IngressRule → Option (Option IngressUrl)
  unfolding find_in_paths
  find_in_rules ing [] = none
  find_in_rules ing (rule ∷ rules) =
      or_else (find_in_http ing rule rule.http) (find_in_rules ing rules)

  unfoldable pub find_in_ingresses : List Ingress → Option (Option IngressUrl)
  unfolding find_in_rules
  find_in_ingresses [] = none
  find_in_ingresses (ing ∷ ings) = or_else (find_in_rules ing ing.rules) (find_in_ingresses ings)

abbrev returned : Option (Option IngressUrl) → Option IngressUrl
returned none = none
returned (some r) = r

abbrev items : Option (List Ingress) → List Ingress
items none = []
items (some ings) = ings

unfoldable pub get_extension_ingress_url : IngressExplorer → String → ℤ → Option IngressUrl
unfolding find_in_ingresses get_actual_extension_host
get_extension_ingress_url i service_name service_port = returned (
    find_in_ingresses get_actual_extension_host service_name service_port
      (items i.extension_ingresses))

unfoldable pub get_networking_ingress_url : IngressExplorer → String → ℤ → Option IngressUrl
unfolding find_in_ingresses get_actual_networking_host
get_networking_ingress_url i service_name service_port = returned (
    find_in_ingresses get_actual_networking_host service_name service_port
      (items i.networking_ingresses))

unfoldable pub get_ingress_url : IngressExplorer → String → ℤ → Option IngressUrl
unfolding get_extension_ingress_url get_networking_ingress_url
get_ingress_url i service_name service_port =
    or_else (get_extension_ingress_url i service_name service_port)
      (get_networking_ingress_url i service_name service_port)

abbrev pub gate_default_port : ℤ
gate_default_port = pos 8084

abbrev pub deck_default_port : ℤ
deck_default_port = pos 9000

-- What `ParseInt` gives is used only if it failed.
abbrev guessed : ℤ × Option NumError → ℤ
guessed (n, some e) = n
guessed (n, none) = gate_default_port

abbrev pub applies : SpinnakerService → Bool
applies svc = svc.expose.type =ₛ "ingress"

module _ {E : Type 0} (eng : Engines E) where
  unfoldable pub guess_gate_port :
      Option SecretContext → SpinnakerService → Option SecretContext × ℤ
  unfolding get_service_config_prop_string
  guess_gate_port ctx svc =
      let (ctx', port) =
        text_of
          (get_service_config_prop_string eng ctx svc.spinnaker_config "gate" "server.port") in
      (ctx', if is_empty port then gate_default_port else guessed (parse_int 32 port))

  -- An URL that is found, and is not the one of the status.
  abbrev pub differs : String → Option IngressUrl → Bool
  differs status_url none = false
  differs status_url (some u) = not (status_url =ₛ url_to_string u)

  abbrev compare_gate :
      {F : Type 0}
      → IngressExplorer
      → SpinnakerService
      → Option SecretContext × ℤ
      → Option SecretContext × (F ⊎ Bool)
  compare_gate ing svc (ctx, port) =
      (ctx, inr (not (differs svc.status.api_url (get_ingress_url ing "spin-gate" port))))

  abbrev compare :
      {F : Type 0}
      → Option SecretContext
      → SpinnakerService
      → IngressExplorer × Option F
      → Option SecretContext × (F ⊎ Bool)
  compare ctx svc (ing, some e) = (ctx, inl e)
  compare ctx svc (ing, none) =
      if differs svc.status.ui_url (get_ingress_url ing "spin-deck" deck_default_port)
      then (ctx, inr false)
      else compare_gate ing svc (guess_gate_port ctx svc)

  unfoldable pub is_spinnaker_up_to_date :
      {F : Type 0}
      → IngressApi F
      → Option SecretContext
      → SpinnakerService
      → Option SecretContext × (F ⊎ Bool)
  unfolding load_ingresses get_ingress_url guess_gate_port url_to_string
  is_spinnaker_up_to_date api ctx svc =
      if applies svc
      then compare ctx svc (load_ingresses api new_explorer svc.namespace)
      else (ctx, inr true)
