-- ===== src/Tests/Inspect.antt =====
-- pkg/inspect and the configuration, at concrete inputs.
use spinnaker_operator.Base.{String, false, ◌≡◌, refl, inl, [], ◌∷◌, ◌=ₛ◌, =ₛ→≢}
use spinnaker_operator.Base.Text.{is_empty, split}
use spinnaker_operator.Base.Number.{parse_int}
use spinnaker_operator.Base.Result.{ok}
use spinnaker_operator.Inspect.Value.{
  Value, string, slice, map, end, item, empty, field, Fields, get_field, put_field, get_item,
  out_of_bounds,
}
use spinnaker_operator.Inspect.Getter.{get_object_prop, get_object_prop_from_keys, inspect_property}
use spinnaker_operator.Inspect.Setter.{set_object_prop, set_from_keys}
use spinnaker_operator.Inspect.Setter.RoundTrip.{get_object_prop-set_object_prop}
use spinnaker_operator.Inspect.Setter.Atomic.{set_object_prop-err}
use spinnaker_operator.Inspect.Setter.Frame.{get-set_from_keys_ne}
use spinnaker_operator.Inspect.Merge.{merge}
use spinnaker_operator.Inspect.Merge.Lookup.{get_field-merge, merged}
use spinnaker_operator.Secrets.Decode.{Engines}
use spinnaker_operator.Config.{SpinnakerConfig, set_hal_config_prop}

abbrev two_regions : Value
two_regions = slice (item (string "us-east-1") (item (string "us-west-2") end))

-- providers: { aws: { regions: [us-east-1, us-west-2] } }
abbrev halconfig : Fields
halconfig =
    field "providers" (map (field "aws" (map (field "regions" two_regions empty)) empty)) empty

abbrev changed : Value
changed = (set_object_prop halconfig "providers.aws.regions.1" (string "eu-west-1")).0

get_object_prop-set_object_prop_example :
    get_object_prop changed "providers.aws.regions.1" ≡ ok (string "eu-west-1")
unfolding set_object_prop is_empty split spinnaker_operator.Inspect.Setter.inspect_property_or_set
    get_field ◌=ₛ◌ parse_int get_item
get_object_prop-set_object_prop_example =
    get_object_prop-set_object_prop halconfig "providers.aws.regions.1" (string "eu-west-1") changed
      (λ h. cc) refl refl

set_object_prop-err_example : map halconfig ≡ map halconfig
unfolding set_object_prop split spinnaker_operator.Inspect.Setter.inspect_property_or_set get_field
    ◌=ₛ◌ spinnaker_operator.Inspect.Setter.write_back parse_int put_field get_item
set_object_prop-err_example =
    set_object_prop-err halconfig "providers.aws.regions.7" (string "eu-west-1") (map halconfig)
      (out_of_bounds 7) (λ h. cc) refl

get-set_from_keys_ne_example :
    get_object_prop_from_keys
      (set_from_keys (map halconfig) ("providers" ∷ "gcp" ∷ "name" ∷ []) (string "a")).0
      ("providers" ∷ "aws" ∷ "regions" ∷ [])
    ≡ get_object_prop_from_keys (map halconfig) ("providers" ∷ "aws" ∷ "regions" ∷ [])
unfolding get_object_prop_from_keys inspect_property get_field ◌=ₛ◌
get-set_from_keys_ne_example =
    get-set_from_keys_ne (map halconfig) ("providers" ∷ [])
      (field "aws" (map (field "regions" two_regions empty)) empty) "gcp" "aws" ("name" ∷ [])
      ("regions" ∷ []) (string "a") refl (=ₛ→≢ "gcp" "aws" refl)

abbrev no_secrets : Engines String
no_secrets = record { is_encrypted_secret = λ s. false; new_decrypter = λ ctx s. inl "no engine" }

abbrev one_file : SpinnakerConfig
one_file = record { files = []; service_settings = []; profiles = []; config = halconfig }

abbrev with_version : SpinnakerConfig
with_version = (set_hal_config_prop one_file "version" (string "1.20.3")).0

-- A list that only the first map has does not survive the merge.
get_field-merge_example :
    get_field "regions"
      (merge (field "regions" two_regions empty) (field "name" (string "a") empty))
    ≡ merged
        (get_field "regions" (field "regions" two_regions empty))
        (get_field "regions" (field "name" (string "a") empty))
unfolding get_field
get_field-merge_example =
    get_field-merge (field "regions" two_regions empty) (field "name" (string "a") empty) "regions"
      (refl, tt) (refl, tt)
