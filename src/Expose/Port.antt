-- ===== src/Expose/Port.antt =====
-- pkg/util/runtime.go: the port that a service is exposed on.
use spinnaker_operator.Base.{String, Bool, ◌≡◌, Option, none, some, arith, ◌=ₛ◌, if◌then◌else◌}
use spinnaker_operator.Base.Dict.{lookup}
use spinnaker_operator.Base.Text.{append, is_empty}
use spinnaker_operator.Base.Number.{ℤ, pos, NumError, ◌=ℤ◌, parse_int}
use spinnaker_operator.Secrets.Context.{SecretContext}
use spinnaker_operator.Secrets.Decode.{Engines}
use spinnaker_operator.Config.{PropError, get_hal_config_prop_string}
use spinnaker_operator.Api.Types.{ExposeConfig, SpinnakerService}

-- What `url.Parse` finds of a text, and none where it fails.
pub record Url : Type 0 where
  pub scheme : String
  pub hostname : String
  pub port : String
  pub path : String

abbrev pub Parse : Type 0
Parse = String → Option Url

abbrev pub is_zero : ℤ → Bool
is_zero n = n =ℤ pos 0

-- The value of a `ParseInt`, unless it failed.
abbrev pub parsed_or : ℤ → ℤ × Option NumError → ℤ
parsed_or d (n, none) = n
parsed_or d (n, some e) = d

abbrev scheme_port : String → ℤ → ℤ
scheme_port scheme d = if scheme =ₛ "http" then pos 80 else if scheme =ₛ "https" then pos 443 else d

abbrev url_port : Url → ℤ → ℤ
url_port u d = if is_empty u.port then scheme_port u.scheme d else parsed_or d (parse_int 32 u.port)

unfoldable pub get_port : Parse → String → ℤ → ℤ
get_port parse a_url d =
    if is_empty a_url then d else elim (parse a_url) [ none ↦ d | some u ↦ url_port u d ]

-- The default is used twice or once: it makes no difference.
pub get_port_idem :
    (parse : Parse) (u : String) (d : ℤ)
    → get_port parse u (get_port parse u d) ≡ get_port parse u d
unfolding get_port
get_port_idem parse u d = ground arith

-- The override of a service, where it has a port; without an entry the port of all services.
unfoldable pub configured_port : ExposeConfig → String → ℤ → ℤ
configured_port exp svc_name d = elim (lookup svc_name exp.service.overrides) [
  | some c ↦ if is_zero c.public_port then d else c.public_port
  | none ↦ if is_zero exp.service.public_port then d else exp.service.public_port
]

abbrev pub gate_override_base_url_prop : String
gate_override_base_url_prop = "security.apiSecurity.overrideBaseUrl"

abbrev pub deck_override_base_url_prop : String
deck_override_base_url_prop = "security.uiSecurity.overrideBaseUrl"

abbrev pub override_prop : String → Option String
override_prop svc_name =
    let formatted = append "spin-" svc_name in
    if formatted =ₛ "spin-gate"
    then some gate_override_base_url_prop
    else if formatted =ₛ "spin-deck"
    then some deck_override_base_url_prop
    else none

-- What a read of the configuration gives, its error ignored.
abbrev pub text_of :
    {E : Type 0}
    → Option SecretContext × String × Option (PropError E)
    → Option SecretContext × String
text_of (ctx, s, e) = (ctx, s)

module _ {E : Type 0} (eng : Engines E) (parse : Parse) where
  abbrev pub override_base_url :
      Option SecretContext → SpinnakerService → Option String → Option SecretContext × String
  override_base_url ctx svc none = (ctx, String.[])
  override_base_url ctx svc (some prop) =
      text_of (get_hal_config_prop_string eng ctx svc.spinnaker_config prop)

  unfoldable pub get_desired_expose_port :
      Option SecretContext → String → ℤ → SpinnakerService → Option SecretContext × ℤ
  unfolding get_port configured_port
  get_desired_expose_port ctx svc_name d svc =
      let (ctx', url) = override_base_url ctx svc (override_prop svc_name) in
      (ctx', get_port parse url (configured_port svc.expose svc_name d))
