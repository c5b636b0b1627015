-- ===== src/Tests/Transform.antt =====
-- The transformers, at concrete inputs.
use spinnaker_operator.Base.{
  String, true, false, ◌≡◌, refl, none, some, List, [], ◌∷◌, ◌||◌, ◌&&◌, ◌=ₛ◌,
}
use spinnaker_operator.Base.Text.{append}
use spinnaker_operator.Kubernetes.Workload.{EnvVar, Deployment}
use spinnaker_operator.Transform.Containers.{add_env_var_to_deployment}
use spinnaker_operator.Transform.Containers.Values.{
  values_of, expected_values, values_of-add_env_var_to_deployment,
}
use spinnaker_operator.Transform.SecretCollector.{
  new_collector, get_env_var_name, from_secret, handle_secret_file_reference,
}
use spinnaker_operator.Transform.SecretCollector.Variables.{
  reads, handle_all, first_named, reads-handle_all_new,
}
use spinnaker_operator.Transform.SecretCollector.Volumes.{
  mounted, mounts, handle_secret_file_reference-mounted,
}

abbrev two_secrets : List (String × String)
two_secrets = ("db-main", "password") ∷ ("db.main", "password") ∷ []

-- The second secret has the variable's name too, and is not read.
reads-handle_all_new_example :
    reads "GATE_DB_MAIN_PASSWORD" (handle_all two_secrets (new_collector "gate")).env_vars
    ≡ first_named "gate" "GATE_DB_MAIN_PASSWORD" two_secrets
reads-handle_all_new_example = reads-handle_all_new "gate" "GATE_DB_MAIN_PASSWORD" two_secrets

collision :
    first_named "gate" (get_env_var_name "gate" "db.main" "password") two_secrets
    ≡ some (from_secret "db-main" "password")
unfolding ◌=ₛ◌ get_env_var_name
collision = refl

handle_secret_file_reference-mounted_example :
    let c' = (handle_secret_file_reference "certs" "tls.key" (new_collector "gate")).0 in
    (mounted "certs" "tls.key" c'.volumes ≡ (
      mounted "certs" "tls.key" (new_collector "gate").volumes
      || ("certs" =ₛ "certs" && "tls.key" =ₛ "tls.key")))
    × (c'.volume_mounts ≡ mounts c'.svc c'.volumes)
handle_secret_file_reference-mounted_example =
    handle_secret_file_reference-mounted "certs" "tls.key" "certs" "tls.key" (new_collector "gate")
      refl

abbrev one_container : Deployment
one_container = record {
  name = "spin-gate";
  namespace = "prod";
  labels = [];
  replicas = 1;
  ready_replicas = 0;
  containers =
      record {
        name = "gate";
        image = "";
        env = record { name = "JAVA_OPTS"; value = "-Xmx1g"; from_source = false } ∷ [];
        volume_mounts = [];
        ports = [];
        readiness_probe = none;
      }
      ∷ [];
  volumes = [];
}

abbrev more_memory : EnvVar
more_memory = record { name = "JAVA_OPTS"; value = "-Xmx2g"; from_source = false }

-- The old value stays in front of the new one.
values_of-add_env_var_to_deployment_example :
    values_of "JAVA_OPTS"
      (add_env_var_to_deployment one_container more_memory append (λ c. true)).containers
    ≡ expected_values more_memory append (λ c. true) "JAVA_OPTS" one_container.containers
values_of-add_env_var_to_deployment_example =
    values_of-add_env_var_to_deployment one_container more_memory append (λ c. true) "JAVA_OPTS"
