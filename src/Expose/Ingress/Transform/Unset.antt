-- ===== src/Expose/Ingress/Transform/Unset.antt =====
-- pkg/deploy/spindeploy/expose_ingress: configurations without the two URLs, before and after Gate's is set.
use spinnaker_operator.Base.{
  ap, String, true, false, ◌≡◌, refl, ◌∙◌, Option, none, some, List, [], ◌∷◌, ltb, length, ◌=ₛ◌,
  arith,
}
use spinnaker_operator.Base.Dict.{Dict, lookup}
use spinnaker_operator.Base.Text.{is_empty, split}
use spinnaker_operator.Base.Number.{ℤ}
use spinnaker_operator.Base.Result.{ok, err}
use spinnaker_operator.Inspect.Value.{
  Value, string, map, Fields, empty, field, Error, get_field, put_field, invalid_interface,
}
use spinnaker_operator.Inspect.Fields.{get_field-put_field, get_field-put_field_self}
use spinnaker_operator.Inspect.Missing.{
  get_object_prop_from_keys-missing, get_object_prop-missing, get_raw_object_prop_string-missing,
  set_from_keys-missing, get_object_prop_from_keys-present,
}
use spinnaker_operator.Inspect.Setter.{
  set_object_prop, set_from_keys, inspect_property_or_set, write_back,
}
use spinnaker_operator.Inspect.Getter.{get_object_prop, get_object_prop_from_keys, inspect_property}
use spinnaker_operator.Secrets.Context.{SecretContext}
use spinnaker_operator.Secrets.Decode.{Engines}
use spinnaker_operator.Config.{
  PropError, unable_to_read, get_object_prop_string, get_service_config_prop_string,
  SpinnakerConfig, set_hal_config_prop,
}
use spinnaker_operator.Api.Types.{SpinnakerService}
use spinnaker_operator.Expose.Port.{gate_override_base_url_prop, deck_override_base_url_prop}
use spinnaker_operator.Expose.Ingress.{guess_gate_port, gate_default_port}
use spinnaker_operator.Expose.Ingress.Transform.{set_each, gate_path_props}

-- Neither of the two URLs, nor anything else under `security`, is in the main config.
pub record IsUnset (config : Fields) : Type 0 where
  pub no_security : get_field "security" config ≡ none
  pub no_gate_key : get_field gate_override_base_url_prop config ≡ none
  pub no_deck_key : get_field deck_override_base_url_prop config ≡ none

pub unset-ends :
    (config : Fields) (prop : String)
    → is_empty prop ≡ false
    → (keys : List String) → split b'.' prop ≡ "security" ∷ keys
    → ltb 1 (length (split b'.' prop)) ≡ true
    → get_field "security" config ≡ none
    → get_field prop config ≡ none
    → get_object_prop (map config) prop ≡ err (invalid_interface prop)
unset-ends config prop named keys parts long h k =
    get_object_prop-missing config prop {e = invalid_interface "security"} named long
      (rw parts (get_object_prop_from_keys-missing "security" keys config h)) k

abbrev pub security : String → Fields
security url = field "apiSecurity" (map (field "overrideBaseUrl" (string url) empty)) empty

-- The main config after Gate's URL was set.
abbrev pub with_gate_url : String → Fields → Fields
with_gate_url url config =
    put_field "security" (map (security url)) (put_field "security" (map empty) config)

security-set :
    (url : String)
    → set_from_keys (map empty) ("apiSecurity" ∷ "overrideBaseUrl" ∷ []) (string url)
      ≡ (map (security url), ok tt)
unfolding set_from_keys inspect_property_or_set write_back get_field put_field ◌=ₛ◌
security-set url = refl

pub set_gate_url :
    (url : String) (cfg : SpinnakerConfig)
    → IsUnset cfg.config
    → set_hal_config_prop cfg gate_override_base_url_prop (string url)
      ≡ (record cfg { config = with_gate_url url cfg.config }, ok tt)
unfolding set_hal_config_prop set_object_prop split
set_gate_url url cfg h = rw (
    set_from_keys-missing "security" "apiSecurity" ("overrideBaseUrl" ∷ []) cfg.config
      (security url) (string url) h.no_security (security-set url))

get_field-with_gate_url :
    (url key : String) (config : Fields)
    → ("security" =ₛ key) ≡ false
    → get_field key (with_gate_url url config) ≡ get_field key config
get_field-with_gate_url url key config ne = rw (
  get_field-put_field "security" key (map (security url)) (put_field "security" (map empty) config),
  get_field-put_field "security" key (map empty) config,
  ne,
)

-- After Gate's URL was set, Deck's is still unset.
pub deck-still_unset :
    (url : String) (config : Fields)
    → IsUnset config
    → get_object_prop (map (with_gate_url url config)) deck_override_base_url_prop
      ≡ err (invalid_interface deck_override_base_url_prop)
unfolding split is_empty ◌=ₛ◌ get_object_prop_from_keys inspect_property get_field
deck-still_unset url config h =
    get_object_prop-missing (with_gate_url url config) deck_override_base_url_prop refl refl
      (get_object_prop_from_keys-present "security" ("uiSecurity" ∷ "overrideBaseUrl" ∷ [])
        (with_gate_url url config) (map (security url))
        (get_field-put_field_self "security" (map (security url))
          (put_field "security" (map empty) config)))
      (get_field-with_gate_url url deck_override_base_url_prop config refl ∙ h.no_deck_key)

-- Gate's profile that the path is set in.
abbrev pub gate_profile : String → Fields
gate_profile path =
    field "server"
      (map (
        field "servlet" (map (field "contextPath" (string path) empty)) (
          field "tomcat"
            (map (
              field "protocolHeader" (string "X-Forwarded-Proto") (
                field "remoteIpHeader" (string "X-Forwarded-For") (
                  field "internalProxies" (string ".*")
                    (field "httpsServerPort" (string "X-Forwarded-Port") empty)))))
            empty)))
      empty

pub set_each-gate :
    (path : String) → set_each (gate_path_props path) (map empty) ≡ (map (gate_profile path), ok tt)
unfolding set_each set_from_keys inspect_property_or_set write_back get_field put_field ◌=ₛ◌ split
set_each-gate path = refl

module _ {E : Type 0} (eng : Engines E) where
  pub object-missing :
      (ctx : Option SecretContext) (obj : Value) (prop : String) {e : Error}
      → get_object_prop obj prop ≡ err e
      → get_object_prop_string eng ctx obj prop ≡ (ctx, "", some (unable_to_read e))
  unfolding get_object_prop_string
  object-missing ctx obj prop h =
      rw (get_raw_object_prop_string-missing obj prop h, get_object_prop_string) refl

  service-no_profile :
      (ctx : Option SecretContext) (cfg : SpinnakerConfig) (svc prop : String)
      → lookup svc cfg.profiles ≡ none
      → get_service_config_prop_string eng ctx cfg svc prop ≡ (ctx, "", none)
  unfolding get_service_config_prop_string
  service-no_profile ctx cfg svc prop h = ground arith

  service-profile :
      (ctx : Option SecretContext) (cfg : SpinnakerConfig) (svc prop : String) (p : Fields)
      → lookup svc cfg.profiles ≡ some p
      → get_service_config_prop_string eng ctx cfg svc prop
        ≡ get_object_prop_string eng ctx (map p) prop
  unfolding get_service_config_prop_string
  service-profile ctx cfg svc prop p h = ground arith

  guess-default :
      (ctx : Option SecretContext) (svc : SpinnakerService) (o : Option (PropError E))
      → get_service_config_prop_string eng ctx svc.spinnaker_config "gate" "server.port"
        ≡ (ctx, "", o)
      → guess_gate_port eng ctx svc ≡ (ctx, gate_default_port)
  unfolding guess_gate_port is_empty
  guess-default ctx svc o h = rw h

  pub guess-no_profile :
      (ctx : Option SecretContext) (svc : SpinnakerService)
      → lookup "gate" svc.spinnaker_config.profiles ≡ none
      → guess_gate_port eng ctx svc ≡ (ctx, gate_default_port)
  guess-no_profile ctx svc h =
      guess-default ctx svc none
        (service-no_profile ctx svc.spinnaker_config "gate" "server.port" h)

  pub guess-gate_profile :
      (ctx : Option SecretContext) (svc : SpinnakerService) (path : String)
      → lookup "gate" svc.spinnaker_config.profiles ≡ some (gate_profile path)
      → guess_gate_port eng ctx svc ≡ (ctx, gate_default_port)
  unfolding get_object_prop split is_empty get_object_prop_from_keys inspect_property get_field ◌=ₛ◌
  guess-gate_profile ctx svc path h =
      guess-default ctx svc (some (unable_to_read (invalid_interface "server.port"))) (
        service-profile ctx svc.spinnaker_config "gate" "server.port" (gate_profile path) h
        ∙ object-missing ctx (map (gate_profile path)) "server.port" refl)

  same_profiles :
      (ctx : Option SecretContext) (cfg cfg' : SpinnakerConfig)
      → cfg'.profiles ≡ cfg.profiles
      → get_service_config_prop_string eng ctx cfg' "gate" "server.port"
        ≡ get_service_config_prop_string eng ctx cfg "gate" "server.port"
  unfolding get_service_config_prop_string
  same_profiles ctx cfg cfg' same =
      ap {A = Dict Fields} {B = Option SecretContext × String × Option (PropError E)}
        (λ ps. elim (lookup "gate" ps) [
          | none ↦ (ctx, String.[], none)
          | some p ↦ get_object_prop_string eng ctx (map p) "server.port"
        ])
        same

  -- The guess reads nothing but the profiles.
  pub guess-same_profiles :
      (ctx : Option SecretContext) (svc svc' : SpinnakerService) {r : Option SecretContext × ℤ}
      → svc'.spinnaker_config.profiles ≡ svc.spinnaker_config.profiles
      → guess_gate_port eng ctx svc ≡ r
      → guess_gate_port eng ctx svc' ≡ r
  unfolding guess_gate_port
  guess-same_profiles ctx svc svc' same h =
      rw (same_profiles ctx svc.spinnaker_config svc'.spinnaker_config same) h
