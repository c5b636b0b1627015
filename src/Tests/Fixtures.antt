-- ===== src/Tests/Fixtures.antt =====
-- A SpinnakerService that the tests share.
use spinnaker_operator.Base.{String, true, false, none, List, [], ◌∷◌, inl, inr, some}
use spinnaker_operator.Base.Number.{pos}
use spinnaker_operator.Inspect.Value.{string, empty, field}
use spinnaker_operator.Secrets.Decode.{Engines}
use spinnaker_operator.Config.{SpinnakerConfig}
use spinnaker_operator.Api.Types.{
  SpinnakerValidation, ExposeConfig, ExposeConfigServiceOverrides, SpinnakerServiceStatus,
  SpinnakerService,
}
use spinnaker_operator.Kubernetes.{Service, ServicePort}
use spinnaker_operator.Expose.Port.{Parse}
use spinnaker_operator.Accounts.Kubernetes.{Kube}
use spinnaker_operator.Accounts.Cluster.{Cluster}

abbrev pub no_secrets : Engines String
no_secrets = record { is_encrypted_secret = λ s. false; new_decrypter = λ ctx s. inl "no engine" }

abbrev pub no_urls : Parse
no_urls = λ s. none

abbrev pub first_status : SpinnakerServiceStatus
first_status = record {
  version = "1.20.3";
  last_deployed = ("config", record { hash = "aa"; last_updated_at = 1 }) ∷ [];
  services = [];
  status = "OK";
  service_count = 0;
  ui_url = "http://deck";
  api_url = "http://gate";
}

abbrev pub first_config : SpinnakerConfig
first_config = record {
  files = [];
  service_settings = [];
  profiles = ("gate", field "default" (string "") empty) ∷ [];
  config = field "version" (string "1.20.5") empty;
}

abbrev pub minutely : SpinnakerValidation
minutely = record {
  fail_on_error = none;
  frequency_seconds = pos 60;
  fail_fast = false;
  providers = [];
}

abbrev pub exposed_with : List (String × ExposeConfigServiceOverrides) → ExposeConfig
exposed_with overrides = record {
  type = "service";
  service = record {
    type = "LoadBalancer";
    annotations = ("team", "delivery") ∷ [];
    public_port = pos 8443;
    overrides = overrides;
  };
}

abbrev pub spinnaker : SpinnakerService
spinnaker = record {
  name = "spinnaker";
  namespace = "prod";
  spinnaker_config = first_config;
  validation = minutely;
  expose = exposed_with [];
  accounts_enabled = false;
  kustomize = [];
  status = first_status;
}

abbrev pub gate_port : ServicePort
gate_port = record { name = "http"; port = pos 8084; target_port = pos 8084; protocol = "TCP" }

abbrev pub gate_service : Service
gate_service = record {
  name = "spin-gate";
  namespace = "prod";
  type = "ClusterIP";
  ports = gate_port ∷ [];
  annotations = [];
  ingress = [];
}

-- A kubeconfig is a text, and YAML the text itself.
abbrev pub plain_kube : Kube String String
plain_kube = record {
  engines = no_secrets;
  exists = λ path. false;
  unmarshal = λ s. inr s;
  marshal = λ c. inr c;
  get_secret = λ namespace name. inl "no cluster";
}

-- A cluster that answers every request.
abbrev pub plain_cluster : Cluster String String String String String String
plain_cluster = record {
  kube = plain_kube;
  decode_base64 = λ s. none;
  read_file = λ path. inr "kubeconfig";
  is_abs = λ path. true;
  load = λ s. inr s;
  load_raw = λ s. inr s;
  convert = λ s. some s;
  auth_infos = λ c. [];
  clusters = λ c. [];
  client_config = λ c overrides. inr c;
  list_services = λ ns. inr [];
  list_secrets = λ ns. inr [];
  to_temp_file = λ s. inr "/tmp/ca";
  is_pool = λ path. false;
  getenv = λ key. "";
  outside_host = inr "https://cluster";
  new_clientset = λ cc. none;
  list_namespaces = λ cc. none;
  list_pods = λ cc ns. none;
}
