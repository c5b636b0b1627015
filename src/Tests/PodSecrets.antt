-- ===== src/Tests/PodSecrets.antt =====
-- The secrets in the deployments, at concrete inputs.
use spinnaker_operator.Base.{
  String, Bool, true, false, ◌≡◌, refl, Option, none, some, List, [], ◌∷◌, ◌=ₛ◌, any, ◌||◌,
}
use spinnaker_operator.Base.Dict.{Dict, lookup}
use spinnaker_operator.Base.Result.{ok}
use spinnaker_operator.Inspect.Value.{
  Value, string, slice, map, item, end, Fields, empty, field, get_field,
}
use spinnaker_operator.Config.{SpinnakerConfig}
use spinnaker_operator.Kubernetes.Workload.{Container, Deployment}
use spinnaker_operator.Transform.SecretCollector.{SecretVolume, Collector, from_secret, raw}
use spinnaker_operator.Transform.Containers.{get_container_in_deployment}
use spinnaker_operator.Transform.Secrets.{is_volume_in_array, set_in_deployment, map_aws_keys}
use spinnaker_operator.Transform.Secrets.Mounted.{has_volume, equipped, set_in_deployment-mounted}
use spinnaker_operator.Transform.AwsKeys.{
  AwsCredentials, EngineOf, get_and_replace, get_and_replace_array,
  replace_k8s_secrets_from_aws_keys,
}
use spinnaker_operator.Transform.AwsKeys.Given.{
  has_variable, names, credentials_for, replace_k8s_secrets_from_aws_keys-given,
}
use spinnaker_operator.Tests.Fixtures.{no_secrets, first_config}

abbrev certificates : SecretVolume
certificates = record { name = "volume-tls"; secret_name = "tls"; keys = "ca.crt" ∷ [] }

abbrev collected : Collector
collected = record {
  env_vars = record { name = "GATE_DB_PASSWORD"; source = from_secret "db" "password" } ∷ [];
  volumes = certificates ∷ [];
  volume_mounts = record { name = "volume-tls"; mount_path = "/opt/gate/secrets/tls" } ∷ [];
  svc = "gate";
}

abbrev container : String → Container
container name = record {
  name = name;
  image = "";
  env = [];
  volume_mounts = [];
  ports = [];
  readiness_probe = none;
}

abbrev deployment : Deployment
deployment = record {
  name = "spin-gate";
  namespace = "spinnaker";
  labels = [];
  replicas = 1;
  ready_replicas = 0;
  containers = container "monitoring-daemon" ∷ container "gate" ∷ [];
  volumes = [];
}

set_in_deployment-mounted_example :
    (d : Deployment) × (set_in_deployment {E = String} collected deployment ≡ ok d)
    × (get_container_in_deployment "gate" d.containers
        ≡ some (equipped collected (container "gate")))
    × ((w : SecretVolume)
        → is_volume_in_array w d.volumes
          ≡ (is_volume_in_array w deployment.volumes || has_volume w collected.volumes))
unfolding ◌=ₛ◌ get_container_in_deployment
set_in_deployment-mounted_example =
    set_in_deployment-mounted {E = String} collected deployment (container "gate") refl refl refl

abbrev k8s_if_secret : EngineOf
k8s_if_secret s = "k8s"

-- The main config, with these two secret keys.
abbrev aws_config : String → String → SpinnakerConfig
aws_config provider artifact = record first_config {
  profiles = [];
  config =
      field "providers"
        (map (
          field "aws"
            (map
              (field "accessKeyId" (string "A1") (field "secretAccessKey" (string provider) empty)))
            empty))
        (field "artifacts"
          (map (
            field "s3"
              (map (
                field "accounts"
                  (slice (
                    item
                      (map (
                        field "awsAccessKeyId" (string "A2")
                          (field "awsSecretAccessKey" (string artifact) empty)))
                      end))
                  empty))
              empty))
          empty);
}

abbrev keys_of : String → String → String → AwsCredentials
keys_of access_key var_name secret_name = record {
  gen_access_key = record { name = "AWS_ACCESS_KEY_ID"; source = raw access_key };
  gen_secret_key = record {
    name = "AWS_SECRET_ACCESS_KEY";
    source = from_secret secret_name "secret";
  };
  svc_secret_keys = record { name = var_name; source = from_secret secret_name "secret" } ∷ [];
}

abbrev with_references : SpinnakerConfig
with_references = aws_config "encrypted:k8s!n:aws!k:secret" "encrypted:k8s!n:s3!k:secret"

abbrev provider_replaced : SpinnakerConfig
provider_replaced = aws_config "${CLOUDDRIVER_AWS_SECRET}" "encrypted:k8s!n:s3!k:secret"

abbrev both_replaced : SpinnakerConfig
both_replaced = aws_config "${CLOUDDRIVER_AWS_SECRET}" "${CLOUDDRIVER_S3_SECRET}"

-- The provider's variable is not among those of clouddriver.
replace_k8s_secrets_from_aws_keys-given_example :
    (keys : Dict AwsCredentials) × (replace_k8s_secrets_from_aws_keys k8s_if_secret no_secrets
        with_references none
      ≡ (none, ok (both_replaced, keys)))
    × ((k : Collector) (n : String)
        → has_variable n (map_aws_keys keys k).env_vars ≡ (
            has_variable n k.env_vars
            || names n (
                credentials_for k.svc none
                  (some (keys_of "A1" "CLOUDDRIVER_AWS_SECRET" "aws"))
                  (some (keys_of "A2" "CLOUDDRIVER_S3_SECRET" "s3")))))
unfolding ◌=ₛ◌ get_field get_and_replace lookup
    spinnaker_operator.Config.get_raw_hal_config_prop_string
    spinnaker_operator.Inspect.Getter.get_object_prop spinnaker_operator.Base.Text.is_empty
    spinnaker_operator.Base.Text.split spinnaker_operator.Inspect.Getter.inspect_property
    spinnaker_operator.Inspect.Setter.inspect_property_or_set
    spinnaker_operator.Inspect.Setter.write_back spinnaker_operator.Inspect.Value.put_field
    get_and_replace_array spinnaker_operator.Config.get_hal_config_object_array
    spinnaker_operator.Inspect.Getter.get_object_array spinnaker_operator.Inspect.Value.of_list
replace_k8s_secrets_from_aws_keys-given_example =
    replace_k8s_secrets_from_aws_keys-given k8s_if_secret no_secrets with_references with_references
      provider_replaced both_replaced none (some (keys_of "A1" "CLOUDDRIVER_AWS_SECRET" "aws"))
      (some (keys_of "A2" "CLOUDDRIVER_S3_SECRET" "s3")) none refl refl refl refl

provider_lost :
    names "CLOUDDRIVER_AWS_SECRET" (
      credentials_for "clouddriver" none
        (some (keys_of "A1" "CLOUDDRIVER_AWS_SECRET" "aws"))
        (some (keys_of "A2" "CLOUDDRIVER_S3_SECRET" "s3")))
    ≡ false
unfolding ◌=ₛ◌
provider_lost = refl
