-- ===== src/Transform/Settings.antt =====
-- pkg/deploy/spindeploy/transformer/spinsvcsettings.go and target.go, with pkg/bom/services.go.
use spinnaker_operator.Base.{
  String, Bool, false, ◌≡◌, refl, Option, none, some, List, [], ◌∷◌, any, arith, ◌=ₛ◌, =ₛ→≡,
  if◌then◌else◌,
}
use spinnaker_operator.Base.Dict.{Dict, lookup, insert, lookup-insert}
use spinnaker_operator.Base.Result.{Result, ok, err, panic}
use spinnaker_operator.Inspect.Value.{string, Fields, empty, Error}
use spinnaker_operator.Inspect.Merge.{merge}
use spinnaker_operator.Config.{SpinnakerConfig, set_hal_config_prop}
use spinnaker_operator.Api.Types.{SpinnakerService}

-- `bom.Services`, in one of the orders in which Go may visit it.
abbrev pub services : List String
services =
    "deck" ∷ "gate" ∷ "orca" ∷ "clouddriver" ∷ "front50" ∷ "rosco" ∷ "igor" ∷ "echo" ∷ "fiat"
    ∷ "kayenta" ∷ []

abbrev pub or_empty : Option Fields → Fields
or_empty none = empty
or_empty (some fs) = fs

unfoldable pub add_service_settings : String → Fields → Dict Fields → Dict Fields
add_service_settings svc_name s settings =
    insert svc_name (merge s (or_empty (lookup svc_name settings))) settings

unfoldable pub add_to_all : List String → Fields → Dict Fields → Dict Fields
unfolding add_service_settings
add_to_all [] g settings = settings
add_to_all (name ∷ names) g settings =
    add_to_all names g (if name =ₛ "deck" then settings else add_service_settings name g settings)

-- `spinSvcSettingsTransformer.TransformConfig`: the settings of `spinnaker` go to every service.
unfoldable pub transform_service_settings : SpinnakerConfig → SpinnakerConfig
unfolding add_to_all
transform_service_settings s = elim (lookup "spinnaker" s.service_settings) [
  | none ↦ s
  | some g ↦ record s { service_settings = add_to_all services g s.service_settings }
]

-- `targetTransformer.TransformConfig`
unfoldable pub transform_target : SpinnakerService → SpinnakerService × Result Error (Unit {0})
unfolding set_hal_config_prop
transform_target svc =
    let (s, r) =
      set_hal_config_prop svc.spinnaker_config "deploymentEnvironment.location"
        (string svc.namespace) in
    elim r [
      | ok u ↦
          let (s', r') = set_hal_config_prop s "deploymentEnvironment.type" (string "Operator") in
          (record svc { spinnaker_config = s' }, r')
      | err e ↦ (record svc { spinnaker_config = s }, err e)
      | panic ↦ (record svc { spinnaker_config = s }, panic)
    ]

abbrev pub is_among : String → List String → Bool
is_among k names = any (λ name. name =ₛ k) names

abbrev Distinct : List String → Type 0
Distinct [] = Unit
Distinct (name ∷ names) = (is_among name names ≡ false) × Distinct names

-- The settings of one service after the loop: merged if it is among the names and not Deck.
abbrev pub settings_after : Bool → Fields → Option Fields → Option Fields
settings_after listed g before = if listed then some (merge g (or_empty before)) else before

abbrev pub is_target : String → List String → Bool
is_target k names = if k =ₛ "deck" then false else is_among k names

lookup-add_to_all :
    (names : List String) (g : Fields) (settings : Dict Fields) (k : String)
    → Distinct names
    → lookup k (add_to_all names g settings)
      ≡ settings_after (is_target k names) g (lookup k settings)
unfolding add_to_all add_service_settings
lookup-add_to_all [] g settings k u = ground arith
lookup-add_to_all (name ∷ names) g settings k (fresh, u) =
    let merged = merge g (or_empty (lookup name settings)) in
    ground (
      arith,
      lookup-add_to_all names g settings k u,
      lookup-add_to_all names g (insert name merged settings) k u,
      lookup-insert name k merged settings,
      =ₛ→≡ name k,
    )

services-Distinct : Distinct services
unfolding ◌=ₛ◌
services-Distinct =
    (refl, (refl, (refl, (refl, (refl, (refl, (refl, (refl, (refl, (refl, tt))))))))))

-- With settings for `spinnaker`, each service of the BOM but Deck ends with these merged with its
-- own, which win (a service without settings gets them alone); all other settings, also those of
-- Deck and of `spinnaker`, are as they were.
lookup-transform_service_settings :
    (s : SpinnakerConfig) (g : Fields) (k : String)
    → lookup "spinnaker" s.service_settings ≡ some g
    → lookup k (transform_service_settings s).service_settings
      ≡ settings_after (is_target k services) g (lookup k s.service_settings)
unfolding transform_service_settings
lookup-transform_service_settings s g k there =
    rw (transform_service_settings, there)
      (lookup-add_to_all services g s.service_settings k services-Distinct)
