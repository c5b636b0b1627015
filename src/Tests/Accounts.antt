-- ===== src/Tests/Accounts.antt =====
-- Accounts, their settings and their validation, at concrete inputs.
use spinnaker_operator.Base.{
  ℕ, String, Bool, true, false, ◌≡◌, refl, ◌⊎◌, inl, inr, Option, none, some, List, [], ◌∷◌, map,
  ◌=ₛ◌, ◌==◌, ltb,
}
use spinnaker_operator.Base.Dict.{lookup, insert}
use spinnaker_operator.Base.Text.{append, is_empty}
use spinnaker_operator.Base.Result.{ok}
use spinnaker_operator.Inspect.Value.{Value, Items, string, bool, Fields, empty, field, get_field}
use spinnaker_operator.Inspect.Getter.{get_object_array}
use spinnaker_operator.Api.Types.{ValidationSetting}
use spinnaker_operator.Api.Hash.{get_validation_settings}
use spinnaker_operator.Kubernetes.Workload.{
  Container, Secret, ServiceConfig, GeneratedConfig, secret_object,
}
use spinnaker_operator.Accounts.Env.{no_env}
use spinnaker_operator.Accounts.Kubernetes.{Account}
use spinnaker_operator.Accounts.Kubernetes.RoundTrip.{Method, inline, service_account, auth_of}
use spinnaker_operator.Accounts.Service.{
  kubernetes_type, prepare_settings, from_spinnaker_config_slice,
}
use spinnaker_operator.Accounts.Service.Prepared.{
  identity, from_spinnaker_config_slice-prepare_settings,
}
use spinnaker_operator.Accounts.Validator.{validate}
use spinnaker_operator.Accounts.Validator.Reached.{AnsweredFor, is_unconvertible, validate-ok}
use spinnaker_operator.Validate.Accounts.{HashOf, due_validators}
use spinnaker_operator.Validate.Accounts.Due.{told_all, due_validators-names}
use spinnaker_operator.Transform.Accounts.{accounts_file, update_service_settings}
use spinnaker_operator.Transform.Accounts.Written.{
  Holds, update_service_settings-written, update_service_settings-other,
}
use spinnaker_operator.Tests.Fixtures.{plain_kube, plain_cluster, first_status, minutely}

abbrev prod : Account String
prod = record {
  name = "prod";
  auth = some (auth_of (inline "apiVersion: v1"));
  env = no_env;
  settings = field "onlySpinnakerManaged" (bool true) empty;
}

abbrev local : Account String
local = record {
  name = "local";
  auth = some (auth_of service_account);
  env = no_env;
  settings = empty;
}

abbrev two_accounts : List (Account String × Method String)
two_accounts = (prod, inline "apiVersion: v1") ∷ (local, service_account) ∷ []

from_spinnaker_config_slice-prepare_settings_example :
    (ss : Fields) × (listed : List Fields) × (read : List (Account String)) × (prepare_settings
        plain_kube none "clouddriver"
        (prod ∷ local ∷ [])
      ≡ ok ss)
    × (get_object_array (Value.map ss) "kubernetes.accounts" ≡ ok listed)
    × (from_spinnaker_config_slice (kubernetes_type plain_kube) listed false none ≡ (none, ok read))
    × (map identity read ≡ map identity (prod ∷ local ∷ []))
unfolding get_field ◌=ₛ◌
from_spinnaker_config_slice-prepare_settings_example =
    from_spinnaker_config_slice-prepare_settings plain_kube none (prod, inline "apiVersion: v1")
      ((local, service_account) ∷ [])
      (refl, refl, ("apiVersion: v1", refl, refl, refl, refl), (refl, refl, refl, tt))

abbrev setting : ValidationSetting
setting = get_validation_settings minutely

-- The account has another kubeconfig now.
abbrev changed : Account String
changed = record prod { auth = some (auth_of (inline "apiVersion: v2")) }

abbrev same_hash : HashOf String
same_hash fields = inr "99914b932bd37a50b983c5e7c90ae93b"

due_validators-names_example :
    told_all (due_validators same_hash first_status setting 1000 (prod ∷ []))
    ≡ told_all (due_validators same_hash first_status setting 1000 (changed ∷ []))
due_validators-names_example =
    due_validators-names same_hash first_status setting 1000 (prod ∷ []) (changed ∷ []) refl

validate-ok_example :
    AnsweredFor plain_cluster none prod
    ⊎ (is_unconvertible plain_cluster (some (auth_of (inline "apiVersion: v1"))) ≡ true)
unfolding validate spinnaker_operator.Inspect.Getter.get_object_prop is_empty
    spinnaker_operator.Base.Text.split spinnaker_operator.Inspect.Getter.inspect_property get_field
    ◌=ₛ◌
validate-ok_example = validate-ok plain_cluster none prod none {t = none} refl

abbrev clouddriver_container : String → Container
clouddriver_container name = record {
  name = name;
  image = "";
  env = [];
  volume_mounts = record { name = "config"; mount_path = "/opt/spinnaker/config" } ∷ [];
  ports = [];
  readiness_probe = none;
}

abbrev clouddriver_secret : Secret
clouddriver_secret = record {
  name = "spin-config";
  namespace = "spinnaker";
  contents = ("clouddriver.yml", "port: 7002") ∷ [];
}

abbrev generated_service : String → ServiceConfig
generated_service name = record {
  deployment = some (record {
    name = name;
    namespace = "spinnaker";
    labels = [];
    replicas = 1;
    ready_replicas = 0;
    containers = clouddriver_container name ∷ [];
    volumes = record { name = "config"; secret = some "spin-config" } ∷ [];
  });
  service = none;
  resources = secret_object clouddriver_secret ∷ [];
  to_delete = [];
}

abbrev generated : String → GeneratedConfig
generated name = (name, generated_service name) ∷ []

abbrev written_service : String → String → ServiceConfig
written_service name text = record (generated_service name) {
  resources =
      secret_object (record clouddriver_secret {
        contents = ("clouddriver.yml", "port: 7002") ∷ (accounts_file name, text) ∷ [];
      })
      ∷ [];
}

abbrev as_yaml : Fields → String ⊎ String
as_yaml empty = inr "{}"
as_yaml fs = inr "kubernetes"

abbrev local_settings : Fields
local_settings =
    field "name" (string "local")
      (field "providerVersion" (string "V2") (field "serviceAccount" (bool true) empty))

abbrev prepared_settings : Fields
prepared_settings =
    field "kubernetes"
      (Value.map
        (field "accounts" (Value.slice (Items.item (Value.map local_settings) Items.end)) empty))
      empty

is_prepared : prepare_settings plain_kube none "clouddriver" (local ∷ []) ≡ ok prepared_settings
unfolding prepare_settings ◌=ₛ◌ is_empty spinnaker_operator.Base.Text.split
    spinnaker_operator.Inspect.Setter.inspect_property_or_set get_field
    spinnaker_operator.Inspect.Setter.write_back spinnaker_operator.Inspect.Value.put_field
    spinnaker_operator.Inspect.Value.of_list
is_prepared = refl

is_updated :
    update_service_settings plain_kube as_yaml none (local ∷ []) (generated "clouddriver")
    ≡ ok (("clouddriver", written_service "clouddriver" "kubernetes") ∷ [])
unfolding update_service_settings ◌=ₛ◌ is_empty spinnaker_operator.Base.Text.split
    spinnaker_operator.Inspect.Setter.inspect_property_or_set get_field
    spinnaker_operator.Inspect.Setter.write_back spinnaker_operator.Inspect.Value.put_field insert
    append
is_updated = refl

update_service_settings-written_example :
    (c : ServiceConfig) × (lookup "clouddriver"
        (("clouddriver", written_service "clouddriver" "kubernetes") ∷ [])
      ≡ some c)
    × Holds plain_kube as_yaml none "clouddriver" c
        (insert (accounts_file "clouddriver") "kubernetes" (("clouddriver.yml", "port: 7002") ∷ []))
unfolding lookup ◌=ₛ◌ is_empty
    spinnaker_operator.Transform.Containers.get_mounted_secret_name_in_deployment
update_service_settings-written_example =
    update_service_settings-written plain_kube as_yaml none (local ∷ []) (generated "clouddriver")
      (("clouddriver", written_service "clouddriver" "kubernetes") ∷ []) "clouddriver"
      (generated_service "clouddriver") (("clouddriver.yml", "port: 7002") ∷ []) prepared_settings
      "kubernetes" is_updated refl (_, refl, refl, refl) is_prepared refl

is_updated_ro :
    update_service_settings plain_kube as_yaml none (local ∷ []) (generated "clouddriver-ro")
    ≡ ok (("clouddriver-ro", written_service "clouddriver-ro" "{}") ∷ [])
unfolding update_service_settings ◌=ₛ◌ is_empty insert append
is_updated_ro = refl

update_service_settings-other_example :
    (c : ServiceConfig) × (lookup "clouddriver-ro"
        (("clouddriver-ro", written_service "clouddriver-ro" "{}") ∷ [])
      ≡ some c)
    × Holds plain_kube as_yaml none "clouddriver-ro" c
        (insert (accounts_file "clouddriver-ro") "{}" (("clouddriver.yml", "port: 7002") ∷ []))
unfolding lookup ◌=ₛ◌ is_empty
    spinnaker_operator.Transform.Containers.get_mounted_secret_name_in_deployment
update_service_settings-other_example =
    update_service_settings-other plain_kube as_yaml none (local ∷ []) (generated "clouddriver-ro")
      (("clouddriver-ro", written_service "clouddriver-ro" "{}") ∷ []) "clouddriver-ro"
      (generated_service "clouddriver-ro") (("clouddriver.yml", "port: 7002") ∷ []) "{}"
      is_updated_ro refl (_, refl, refl, refl) refl refl
