-- ===== src/Config.antt =====
-- pkg/apis/spinnaker/interfaces/config.go: the configuration of a SpinnakerService, read through
-- pkg/inspect, with secrets decoded on the way.
pub mod Laws
use spinnaker_operator.Base.{
  ℕ, String, Bool, Option, none, some, List, [], ◌∷◌, ◌⊎◌, inl, inr, if◌then◌else◌,
}
use spinnaker_operator.Base.Dict.{Dict, lookup, insert}
use spinnaker_operator.Base.Text.{append, is_empty}
use spinnaker_operator.Base.Result.{Result, ok, err, panic}
use spinnaker_operator.Inspect.Value.{Value, map, Fields, empty, field, Error}
use spinnaker_operator.Inspect.Getter.{
  get_object_prop_bool, get_raw_object_prop_string, get_object_array,
}
use spinnaker_operator.Inspect.Setter.{set_object_prop}
use spinnaker_operator.Secrets.Context.{SecretContext}
use spinnaker_operator.Secrets.Decode.{Engines, DecodeError, decode}

-- The maps are non-nil; a nil map reads as an empty one.
pub record SpinnakerConfig : Type 0 where
  pub files : Dict String
  pub service_settings : Dict Fields
  pub profiles : Dict Fields
  pub config : Fields

pub data ConfigSource : Type 0 where
  hal_config_source profile_config_source : ConfigSource

pub data PropError (E : Type 0) : Type 0 where
  unable_to_read : Error → PropError E
  error_decoding : DecodeError E → PropError E
  prop_panic : PropError E

abbrev all_settings : Dict Fields → Fields
all_settings [] = empty
all_settings ((svc, settings) ∷ more) = field svc (map settings) (all_settings more)

module _ {E : Type 0} (eng : Engines E) where
  abbrev decoded :
      Option SecretContext × String × Bool × Option (DecodeError E)
      → Option SecretContext × String × Option (PropError E)
  decoded (ctx, s, f, none) = (ctx, s, none)
  decoded (ctx, s, f, some e) = (ctx, s, some (error_decoding e))

  -- `inspect.GetObjectPropString`. What is decoded stands beside the error, and some callers use it.
  unfoldable pub get_object_prop_string :
      Option SecretContext → Value → String → Option SecretContext × String × Option (PropError E)
  unfolding decode
  get_object_prop_string ctx obj prop = elim (get_raw_object_prop_string obj prop) [
    | err e ↦ (ctx, String.[], some (unable_to_read e))
    | panic ↦ (ctx, String.[], some prop_panic)
    | ok s ↦ (let (ctx', (v, f, e)) = decode eng ctx s in decoded (ctx', v, f, e))
  ]

  -- The settings of each service, under its name.
  unfoldable pub get_service_settings_prop_string :
      Option SecretContext
      → SpinnakerConfig
      → String
      → String
      → Option SecretContext × String × Option (PropError E)
  unfolding get_object_prop_string append
  get_service_settings_prop_string ctx s svc prop =
      get_object_prop_string ctx (map (all_settings s.service_settings))
        (append svc (append "." prop))

  unfoldable pub get_hal_config_prop_string :
      Option SecretContext
      → SpinnakerConfig
      → String
      → Option SecretContext × String × Option (PropError E)
  unfolding get_object_prop_string
  get_hal_config_prop_string ctx s prop = get_object_prop_string ctx (map s.config) prop

  -- A service without a profile has the empty text, and no error.
  unfoldable pub get_service_config_prop_string :
      Option SecretContext
      → SpinnakerConfig
      → String
      → String
      → Option SecretContext × String × Option (PropError E)
  unfolding get_object_prop_string
  get_service_config_prop_string ctx s svc prop = elim (lookup svc s.profiles) [
    | none ↦ (ctx, String.[], none)
    | some p ↦ get_object_prop_string ctx (map p) prop
  ]

unfoldable pub get_hal_config_prop_bool :
    SpinnakerConfig → String → Bool → Result (Bool × Error) Bool
unfolding get_object_prop_bool
get_hal_config_prop_bool s prop default_val = get_object_prop_bool (map s.config) prop default_val

unfoldable pub get_raw_hal_config_prop_string : SpinnakerConfig → String → Result Error String
unfolding get_raw_object_prop_string
get_raw_hal_config_prop_string s prop = get_raw_object_prop_string (map s.config) prop

abbrev from_hal {ℓ} :
    {A : Type ℓ} → Result Error A → Result (ConfigSource × Error) (A × ConfigSource)
from_hal (ok a) = ok (a, hal_config_source)
from_hal (err e) = err (hal_config_source, e)
from_hal panic = panic

-- The profile is asked first; any error of it, or a missing profile, goes to the main config.
unfoldable pub get_raw_config_prop_string :
    SpinnakerConfig → String → String → Result (ConfigSource × Error) (String × ConfigSource)
get_raw_config_prop_string s svc prop =
    let hal = from_hal (get_raw_hal_config_prop_string s prop) in
    elim (lookup svc s.profiles) [
      | none ↦ hal
      | some p ↦ elim (get_raw_object_prop_string (map p) prop) [
        | ok v ↦ ok (v, profile_config_source)
        | err e ↦ hal
        | panic ↦ panic
      ]
    ]

unfoldable pub get_hal_config_object_array : SpinnakerConfig → String → Result Error (List Fields)
get_hal_config_object_array s prop = get_object_array (map s.config) prop

-- An empty array of a profile is a nil slice, and the main config is asked.
unfoldable pub get_config_object_array :
    SpinnakerConfig → String → String → Result (ConfigSource × Error) (List Fields × ConfigSource)
get_config_object_array s svc prop =
    let hal = from_hal (get_hal_config_object_array s prop) in
    elim (lookup svc s.profiles) [
      | none ↦ hal
      | some p ↦ elim (get_object_array (map p) prop) [
        | ok [] ↦ hal
        | ok (a ∷ more) ↦ ok (a ∷ more, profile_config_source)
        | err e ↦ hal
        | panic ↦ panic
      ]
    ]

abbrev pub as_config : SpinnakerConfig → Value → SpinnakerConfig
as_config s (map fs) = record s { config = fs }
as_config s _ = s

unfoldable pub set_hal_config_prop :
    SpinnakerConfig → String → Value → SpinnakerConfig × Result Error (Unit {0})
unfolding set_object_prop
set_hal_config_prop s prop value =
    let (obj, r) = set_object_prop s.config prop value in (as_config s obj, r)

abbrev pub as_profile : SpinnakerConfig → String → Value → SpinnakerConfig
as_profile s svc (map fs) = record s { profiles = insert svc fs s.profiles }
as_profile s svc _ = s

-- A service without a profile is left without one, and no error tells of it.
unfoldable pub set_service_config_prop :
    SpinnakerConfig → String → String → Value → SpinnakerConfig × Result Error (Unit {0})
unfolding set_object_prop
set_service_config_prop s svc prop value = elim (lookup svc s.profiles) [
  | none ↦ (s, ok tt)
  | some p ↦ (let (obj, r) = set_object_prop p prop value in (as_profile s svc obj, r))
]

-- The content of a file, decoded where it is base64; `decode_base64` is Go's.
unfoldable pub get_file_content : (String → Option String) → SpinnakerConfig → String → String
get_file_content decode_base64 s key =
    let str : String = elim (lookup key s.files) [ none ↦ String.[] | some f ↦ f ] in
    elim (decode_base64 str) [ none ↦ str | some r ↦ r ]
