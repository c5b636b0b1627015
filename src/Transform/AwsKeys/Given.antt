-- ===== src/Transform/AwsKeys/Given.antt =====
-- pkg/deploy/spindeploy/transformer/secrets.go: which service gets the variables of the AWS keys.
use spinnaker_operator.Base.{
  ap, ◌∙◌, String, Bool, true, false, ◌≡◌, refl, Option, none, some, List, [], ◌∷◌, any, ◌||◌, ◌=ₛ◌,
  =ₛ→≡, if◌then◌else◌, arith,
}
use spinnaker_operator.Base.Dict.{Dict, lookup, lookup-insert}
use spinnaker_operator.Base.Io.{go_on}
use spinnaker_operator.Base.Result.{ok}
use spinnaker_operator.Inspect.Value.{get_field}
use spinnaker_operator.Secrets.Context.{SecretContext}
use spinnaker_operator.Secrets.Decode.{Engines}
use spinnaker_operator.Config.{SpinnakerConfig}
use spinnaker_operator.Transform.SecretCollector.{SecretEnvVar, Collector, add_env_var}
use spinnaker_operator.Transform.Secrets.{add_all, with_credentials, map_aws_keys}
use spinnaker_operator.Transform.AwsKeys.{
  AwsCredentials, EngineOf, get_and_replace, get_and_replace_array,
  replace_k8s_secrets_from_aws_keys, with_keys, then_canary, with_can, keys_replaced,
}

abbrev pub has_variable : String → List SecretEnvVar → Bool
has_variable n vars = any (λ v. v.name =ₛ n) vars

-- The variables of these credentials, by name.
abbrev pub names : String → Option AwsCredentials → Bool
names n none = false
names n (some c) = has_variable n (c.gen_access_key ∷ c.gen_secret_key ∷ c.svc_secret_keys)

abbrev pub last_of : Option AwsCredentials → Option AwsCredentials → Option AwsCredentials
last_of first none = first
last_of first (some c) = some c

-- What a service gets, of the credentials of the persistence, the provider and the artifacts.
abbrev pub credentials_for :
    String
    → Option AwsCredentials
    → Option AwsCredentials
    → Option AwsCredentials
    → Option AwsCredentials
credentials_for svc persistence provider artifacts =
    if "clouddriver" =ₛ svc
    then last_of provider artifacts
    else if "front50" =ₛ svc
    then persistence
    else none

add_env_var-variable :
    (n : String) (e : SecretEnvVar) (vars : List SecretEnvVar)
    → has_variable n (add_env_var e vars) ≡ (has_variable n vars || (e.name =ₛ n))
unfolding add_env_var
add_env_var-variable n e [] = ground arith
add_env_var-variable n e (v ∷ vars) =
    ground (arith, add_env_var-variable n e vars, =ₛ→≡ v.name e.name)

add_all-variable :
    (n : String) (es vars : List SecretEnvVar)
    → has_variable n (add_all es vars) ≡ (has_variable n vars || has_variable n es)
unfolding add_all
add_all-variable n [] vars = ground arith
add_all-variable n (e ∷ es) vars =
    ground (arith, add_all-variable n es (add_env_var e vars), add_env_var-variable n e vars)

with_credentials-variable :
    (n : String) (o : Option AwsCredentials) (k : Collector)
    → has_variable n (with_credentials o k).env_vars ≡ (has_variable n k.env_vars || names n o)
with_credentials-variable n none k = ground arith
with_credentials-variable n (some c) k =
    add_all-variable n (c.gen_access_key ∷ c.gen_secret_key ∷ c.svc_secret_keys) k.env_vars

lookup-with_keys :
    (svc key : String) (o : Option AwsCredentials) (keys : Dict AwsCredentials)
    → lookup svc (with_keys key o keys)
      ≡ (if key =ₛ svc then last_of (lookup svc keys) o else lookup svc keys)
lookup-with_keys svc key none keys = ground arith
lookup-with_keys svc key (some c) keys = lookup-insert key svc c keys

abbrev all_keys :
    Option AwsCredentials → Option AwsCredentials → Option AwsCredentials → Dict AwsCredentials
all_keys persistence provider artifacts =
    with_keys "clouddriver" artifacts
      (with_keys "clouddriver" provider (with_keys "front50" persistence []))

last_of-none : (o : Option AwsCredentials) → last_of none o ≡ o
last_of-none none = refl
last_of-none (some c) = refl

not_both : (svc : String) → ("clouddriver" =ₛ svc) ≡ true → ("front50" =ₛ svc) ≡ false
unfolding ◌=ₛ◌
not_both svc h = rw (← =ₛ→≡ "clouddriver" svc h) refl

lookup-all_keys :
    (svc : String) (persistence provider artifacts : Option AwsCredentials)
    → lookup svc (all_keys persistence provider artifacts)
      ≡ credentials_for svc persistence provider artifacts
unfolding lookup
lookup-all_keys svc persistence provider artifacts = ground (
  arith,
  lookup-with_keys svc "clouddriver" artifacts
      (with_keys "clouddriver" provider (with_keys "front50" persistence [])),
  lookup-with_keys svc "clouddriver" provider (with_keys "front50" persistence []),
  lookup-with_keys svc "front50" persistence [],
  last_of-none provider,
  last_of-none persistence,
  not_both svc,
)

module _ {E : Type 0} (engine_of : EngineOf) (eng : Engines E) where
  -- Where the AWS keys of the persistence, of the AWS provider and of the S3 artifacts could be replaced
  -- one after the other, and there are no settings for canaries: by name, a service gets, beside the
  -- variables that it has, those of one of these at most: front50 those of the persistence, clouddriver
  -- those of the artifacts, or those of the provider where the artifacts have none, and any other
  -- service none. So where the artifacts have such keys, the variables of the provider are given to
  -- no service, unless the artifacts or the persistence have variables of the same name.
  pub replace_k8s_secrets_from_aws_keys-given :
      (cfg cfg1 cfg2 cfg3 : SpinnakerConfig)
      (persistence provider artifacts : Option AwsCredentials) (ctx : Option SecretContext)
      → get_and_replace {E = E} engine_of "front50" "persistentStorage.s3.accessKeyId"
          "persistentStorage.s3.secretAccessKey" cfg
        ≡ ok (cfg1, persistence)
      → get_and_replace {E = E} engine_of "clouddriver" "providers.aws.accessKeyId"
          "providers.aws.secretAccessKey" cfg1
        ≡ ok (cfg2, provider)
      → get_and_replace_array {E = E} engine_of "clouddriver" "artifacts.s3.accounts"
          "awsAccessKeyId" "awsSecretAccessKey" cfg2
        ≡ ok (cfg3, artifacts)
      → get_field "canary" cfg3.config ≡ none
      → (keys : Dict AwsCredentials) × (replace_k8s_secrets_from_aws_keys engine_of eng cfg ctx
          ≡ (ctx, ok (cfg3, keys)))
        × ((k : Collector) (n : String)
            → has_variable n (map_aws_keys keys k).env_vars ≡ (
                has_variable n k.env_vars
                || names n (credentials_for k.svc persistence provider artifacts)))
  unfolding replace_k8s_secrets_from_aws_keys map_aws_keys
  replace_k8s_secrets_from_aws_keys-given cfg cfg1 cfg2 cfg3 persistence provider artifacts ctx
        first second third canary =
      let keys = all_keys persistence provider artifacts in
      let replaced : keys_replaced engine_of eng cfg ≡ ok (cfg3, keys) =
        rw (first, second, third) refl in
      (
        keys,
        ap (λ r. go_on (then_canary engine_of eng) (ctx, r)) replaced
            ∙ ap (λ o. with_can engine_of eng cfg3 keys o ctx) canary,
        λ k. λ n.
            with_credentials-variable n (lookup k.svc keys) k
            ∙ ap (λ o. has_variable n k.env_vars || names n o)
                (lookup-all_keys k.svc persistence provider artifacts),
      )
