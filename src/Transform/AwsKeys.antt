-- ===== src/Transform/AwsKeys.antt =====
-- pkg/deploy/spindeploy/transformer/secrets.go: the secrets of AWS keys in the configuration, which are
-- replaced by references to variables that the services get.
pub mod Given
use spinnaker_operator.Base.{
  String, Bool, true, false, Option, none, some, List, [], ◌∷◌, ◌++◌, map, ◌=ₛ◌, ◌&&◌,
  if◌then◌else◌,
}
use spinnaker_operator.Base.Dict.{Dict, lookup, insert}
use spinnaker_operator.Base.Text.{append, is_empty}
use spinnaker_operator.Base.Io.{Io, go_on, returned}
use spinnaker_operator.Base.Result.{Result, ok, err, panic, ◌>>=◌}
use spinnaker_operator.Inspect.Value.{
  Value, string, slice, Fields, Error, get_field, put_field, of_list,
}
use spinnaker_operator.Inspect.Strings.{inspect_strings}
use spinnaker_operator.Secrets.Context.{SecretContext}
use spinnaker_operator.Secrets.Params.{ParamError, parse_kubernetes_secret_params}
use spinnaker_operator.Secrets.Decode.{Engines, DecodeError, Decoded, decode}
use spinnaker_operator.Config.{
  SpinnakerConfig, ConfigSource, hal_config_source, profile_config_source,
  get_raw_config_prop_string, get_config_object_array, set_hal_config_prop, set_service_config_prop,
}
use spinnaker_operator.Transform.SecretCollector.{
  SecretEnvVar, from_secret, raw, get_env_var_name, get_env_var_name_reference,
}

pub record AwsCredentials : Type 0 where
  pub gen_access_key : SecretEnvVar
  pub gen_secret_key : SecretEnvVar
  pub svc_secret_keys : List SecretEnvVar

pub data AwsError (E : Type 0) : Type 0 where
  no_access_key : String → AwsError E
  bad_params : ParamError → AwsError E
  cannot_set : Error → AwsError E
  cannot_decode : DecodeError E → AwsError E
  file_not_allowed : String → AwsError E
  aws_panic : AwsError E

-- `GetEngine` of the secrets library: the engine that a reference names.
abbrev pub EngineOf : Type 0
EngineOf = String → String

abbrev is_k8s_engine : EngineOf → String → Bool
is_k8s_engine engine_of s = engine_of s =ₛ "k8s"

abbrev env_var_from_secret_reference : String → String → String → SecretEnvVar
env_var_from_secret_reference var_name secret_name secret_key = record {
  name = var_name;
  source = from_secret secret_name secret_key;
}

abbrev env_var_from_raw_string : String → String → SecretEnvVar
env_var_from_raw_string var_name var_value = record { name = var_name; source = raw var_value }

-- The variable, the name of the secret, and its key. The whole reference is read as parameters, among
-- which its engine is one that is ignored.
unfoldable pub get_env_var_name_from_secret_raw :
    String → String → Result ParamError (String × String × String)
unfolding parse_kubernetes_secret_params get_env_var_name
get_env_var_name_from_secret_raw svc secret_raw =
    parse_kubernetes_secret_params secret_raw >>= λ (secret_name, secret_key).
    ok (get_env_var_name svc secret_name secret_key, secret_name, secret_key)

abbrev credentials : String → String × String × String → AwsCredentials
credentials access_key (var_name, secret_name, secret_key) = record {
  gen_access_key = env_var_from_raw_string "AWS_ACCESS_KEY_ID" access_key;
  gen_secret_key = env_var_from_secret_reference "AWS_SECRET_ACCESS_KEY" secret_name secret_key;
  svc_secret_keys = env_var_from_secret_reference var_name secret_name secret_key ∷ [];
}

-- What is set where the value was found.
abbrev set_at :
    ConfigSource
    → String
    → String
    → Value
    → SpinnakerConfig
    → SpinnakerConfig × Result Error (Unit {0})
set_at hal_config_source svc prop v cfg = set_hal_config_prop cfg prop v
set_at profile_config_source svc prop v cfg = set_service_config_prop cfg svc prop v

abbrev Replaced : Type 0 → Type 0
Replaced E = Result (AwsError E) (SpinnakerConfig × Option AwsCredentials)

abbrev Gathered : Type 0 → Type 0
Gathered E = Result (AwsError E) (List Fields × Option AwsCredentials)

abbrev text_in : Option Value → Option String
text_in (some (string s)) = some s
text_in v = none

-- The last pair of keys is the general one; the variables of all are kept.
abbrev with_last : Option AwsCredentials → AwsCredentials → AwsCredentials
with_last none c = c
with_last (some old) c = record c { svc_secret_keys = old.svc_secret_keys ++ c.svc_secret_keys }

abbrev replace_in : String → Fields → String × String × String → Fields
replace_in secret_prop i (var_name, secret_name, secret_key) =
    put_field secret_prop (string (get_env_var_name_reference var_name)) i

module _ {E : Type 0} where
  abbrev after_set : Option AwsCredentials → SpinnakerConfig × Result Error (Unit {0}) → Replaced E
  after_set c (cfg, ok u) = ok (cfg, c)
  after_set c (cfg, err e) = err (cannot_set e)
  after_set c (cfg, panic) = panic

  abbrev params_of : {A : Type 0} → Result ParamError A → Result (AwsError E) A
  params_of (ok a) = ok a
  params_of (err e) = err (bad_params e)
  params_of panic = panic

  abbrev access_of :
      String → Result (ConfigSource × Error) (String × ConfigSource) → Result (AwsError E) String
  access_of prop (ok (a, source)) = if is_empty a then err (no_access_key prop) else ok a
  access_of prop (err e) = err (no_access_key prop)
  access_of prop panic = panic

  abbrev replace_with :
      String
      → String
      → SpinnakerConfig
      → ConfigSource
      → String
      → String × String × String
      → Replaced E
  replace_with svc prop cfg source access_key (var_name, secret_name, secret_key) =
      after_set (some (credentials access_key (var_name, secret_name, secret_key)))
        (set_at source svc prop (string (get_env_var_name_reference var_name)) cfg)

  abbrev kept : Fields → Gathered E → Gathered E
  kept i r = r >>= λ (root, c). ok (i ∷ root, c)

  abbrev text_or : String → Option String → Result (AwsError E) String
  text_or prop none = err (no_access_key prop)
  text_or prop (some s) = ok s

module _ {E : Type 0} (engine_of : EngineOf) where
  -- A value that cannot be read, or is no reference to a Kubernetes secret, is left.
  abbrev replace_raw :
      String
      → String
      → String
      → SpinnakerConfig
      → Result (ConfigSource × Error) (String × ConfigSource)
      → Replaced E
  replace_raw svc access_prop secret_prop cfg (err e) = ok (cfg, none)
  replace_raw svc access_prop secret_prop cfg panic = panic
  replace_raw svc access_prop secret_prop cfg (ok (secret_raw, source)) =
      let replaced : Replaced E =
        access_of secret_prop (get_raw_config_prop_string cfg svc access_prop) >>= (λ access_key.
          params_of (get_env_var_name_from_secret_raw svc secret_raw)
          >>= replace_with svc secret_prop cfg source access_key) in
      if is_k8s_engine engine_of secret_raw then replaced else ok (cfg, none)

  unfoldable pub get_and_replace : String → String → String → SpinnakerConfig → Replaced E
  unfolding get_raw_config_prop_string get_env_var_name_from_secret_raw get_env_var_name_reference
      set_hal_config_prop set_service_config_prop
  get_and_replace svc access_prop secret_prop cfg =
      replace_raw svc access_prop secret_prop cfg (get_raw_config_prop_string cfg svc secret_prop)

  abbrev gather_one :
      String
      → String
      → String
      → Fields
      → (Option AwsCredentials → Gathered E)
      → Option AwsCredentials
      → Option String
      → Gathered E
  gather_one svc access_prop secret_prop i rest c none = kept i (rest c)
  gather_one svc access_prop secret_prop i rest c (some secret_raw) =
      let replaced : Gathered E =
        params_of (get_env_var_name_from_secret_raw svc secret_raw) >>= (λ ref.
          text_or secret_prop (text_in (get_field access_prop i)) >>= λ access_key.
          kept (replace_in secret_prop i ref)
            (rest (some (with_last c (credentials access_key ref))))) in
      if is_k8s_engine engine_of secret_raw then replaced else kept i (rest c)

  unfoldable pub gather :
      String → String → String → List Fields → Option AwsCredentials → Gathered E
  unfolding get_env_var_name_from_secret_raw get_env_var_name_reference
  gather svc access_prop secret_prop [] c = ok ([], c)
  gather svc access_prop secret_prop (i ∷ root) c =
      gather_one svc access_prop secret_prop i (gather svc access_prop secret_prop root) c
        (text_in (get_field secret_prop i))

  abbrev replace_root :
      String
      → String
      → String
      → String
      → SpinnakerConfig
      → Result (ConfigSource × Error) (List Fields × ConfigSource)
      → Replaced E
  replace_root svc root_prop access_prop secret_prop cfg (err e) = ok (cfg, none)
  replace_root svc root_prop access_prop secret_prop cfg panic = panic
  replace_root svc root_prop access_prop secret_prop cfg (ok (root, source)) =
      gather svc access_prop secret_prop root none >>= λ (root', c).
      after_set c (set_at source svc root_prop (slice (of_list (map Value.map root'))) cfg)

  unfoldable pub get_and_replace_array :
      String → String → String → String → SpinnakerConfig → Replaced E
  unfolding gather get_config_object_array set_hal_config_prop set_service_config_prop
  get_and_replace_array svc root_prop access_prop secret_prop cfg =
      replace_root svc root_prop access_prop secret_prop cfg
        (get_config_object_array cfg svc root_prop)

abbrev with_keys : String → Option AwsCredentials → Dict AwsCredentials → Dict AwsCredentials
with_keys svc none keys = keys
with_keys svc (some c) keys = insert svc c keys

abbrev with_canary :
    SpinnakerConfig → Dict AwsCredentials → Value → SpinnakerConfig × Dict AwsCredentials
with_canary cfg keys v = (record cfg { config = put_field "canary" v cfg.config }, keys)

module _ {E : Type 0} where
  abbrev decoded_text :
      String → Option SecretContext × Decoded E → Option SecretContext × Result (AwsError E) String
  decoded_text val (ctx, (s, f, some e)) = (ctx, err (cannot_decode e))
  decoded_text val (ctx, (s, false, none)) = (ctx, ok s)
  decoded_text val (ctx, (s, true, none)) = (ctx, err (file_not_allowed val))

module _ {E : Type 0} (engine_of : EngineOf) (eng : Engines E) where
  unfoldable pub sanitize_text : String → Io (Option SecretContext) (AwsError E) String
  unfolding decode
  sanitize_text val ctx =
      if eng.is_encrypted_secret val && is_k8s_engine engine_of val
      then decoded_text val (decode eng ctx val)
      else (ctx, ok val)

  abbrev with_can :
      SpinnakerConfig
      → Dict AwsCredentials
      → Option Value
      → Io (Option SecretContext) (AwsError E) (SpinnakerConfig × Dict AwsCredentials)
  with_can cfg keys none ctx = (ctx, ok (cfg, keys))
  with_can cfg keys (some can) ctx =
      go_on (λ v. returned (ok (with_canary cfg keys v))) (inspect_strings sanitize_text can ctx)

  abbrev then_canary :
      SpinnakerConfig × Dict AwsCredentials
      → Io (Option SecretContext) (AwsError E) (SpinnakerConfig × Dict AwsCredentials)
  then_canary (cfg, keys) = with_can cfg keys (get_field "canary" cfg.config)

  -- The keys of the configuration, by the service that gets them.
  abbrev keys_replaced :
      SpinnakerConfig → Result (AwsError E) (SpinnakerConfig × Dict AwsCredentials)
  keys_replaced cfg =
      get_and_replace engine_of "front50" "persistentStorage.s3.accessKeyId"
        "persistentStorage.s3.secretAccessKey" cfg
      >>= (λ (cfg1, persistence).
          get_and_replace engine_of "clouddriver" "providers.aws.accessKeyId"
            "providers.aws.secretAccessKey" cfg1
          >>= (λ (cfg2, provider).
              get_and_replace_array engine_of "clouddriver" "artifacts.s3.accounts" "awsAccessKeyId"
                "awsSecretAccessKey" cfg2
              >>= λ (cfg3, artifacts). ok (
                cfg3,
                with_keys "clouddriver" artifacts
                    (with_keys "clouddriver" provider (with_keys "front50" persistence [])),
              )))

  unfoldable pub replace_k8s_secrets_from_aws_keys :
      SpinnakerConfig
      → Io (Option SecretContext) (AwsError E) (SpinnakerConfig × Dict AwsCredentials)
  unfolding get_and_replace get_and_replace_array inspect_strings sanitize_text
  replace_k8s_secrets_from_aws_keys cfg ctx = go_on then_canary (returned (keys_replaced cfg) ctx)
