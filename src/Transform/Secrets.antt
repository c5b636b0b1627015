-- ===== src/Transform/Secrets.antt =====
-- pkg/deploy/spindeploy/transformer/secrets.go: the references to Kubernetes secrets in the generated
-- manifests, and what the deployments get for them.
pub mod Mounted
use spinnaker_operator.Base.{
  ℕ, ◌==◌, leb, String, Bool, true, false, Option, none, some, List, [], ◌∷◌, ◌++◌, map, any, ◌=ₛ◌,
  ◌||◌, ◌&&◌, if◌then◌else◌, ◌⊎◌, inl, inr,
}
use Prim.Native.Char.{code}
use spinnaker_operator.Base.Dict.{Dict, lookup}
use spinnaker_operator.Base.Io.{Io, go_on, returned, wrapped, mapped}
use spinnaker_operator.Base.Result.{Result, ok, err, panic, ◌>>=◌}
use spinnaker_operator.Inspect.Value.{Value, Fields}
use spinnaker_operator.Inspect.Strings.{inspect_strings}
use spinnaker_operator.Secrets.Params.{ParamError, parse_kubernetes_secret_params}
use spinnaker_operator.Kubernetes.Workload.{
  EnvVar, Container, Volume, Deployment, Secret, Object, secret_object, ServiceConfig,
  GeneratedConfig,
}
use spinnaker_operator.Transform.SecretCollector.{
  SecretEnvVar, from_secret, raw, SecretVolume, Collector, new_collector, add_env_var,
  handle_secret_var_reference, handle_secret_file_reference,
}
use spinnaker_operator.Transform.Containers.{get_container_in_deployment}
use spinnaker_operator.Transform.AwsKeys.{AwsCredentials}

pub data SecretsError (E : Type 0) : Type 0 where
  bad_params : ParamError → SecretsError E
  cannot_marshal : E → SecretsError E
  no_container : String → SecretsError E

-- Libraries: `GetEngine`, with the engine, whether a file is meant, and the parameters; and YAML, where
-- `unmarshal` is none for a text that is no map.
pub record SecretLibrary (E : Type 0) : Type 0 where
  pub get_engine : String → String × Bool × String
  pub unmarshal : String → Option Fields
  pub marshal : Value → E ⊎ String

-- ASCII white space.
abbrev is_space : ℕ → Bool
is_space c = c == 32 || (leb 9 c && leb c 13)

-- The first and the last character that is no space.
first_code : String → Option ℕ
first_code String.[] = none
first_code (String.◌∷◌ c s) =
    let rest = first_code s in if is_space (code c) then rest else some (code c)

last_code : String → Option ℕ
last_code String.[] = none
last_code (String.◌∷◌ c s) = elim (last_code s) [
  | some d ↦ some d
  | none ↦ if is_space (code c) then none else some (code c)
]

abbrev in_brackets : Option ℕ → Option ℕ → Bool
in_brackets (some a) (some z) = (a == b'{' && z == b'}') || (a == b'[' && z == b']')
in_brackets _ _ = true

-- A text that is empty, or looks like JSON, is left.
unfoldable pub is_left : String → Bool
unfolding first_code last_code
is_left v = in_brackets (first_code v) (last_code v)

module _ {E : Type 0} (lib : SecretLibrary E) where
  abbrev referenced :
      Bool
      → Collector
      → Result ParamError (String × String)
      → Collector × Result (SecretsError E) String
  referenced f c (err e) = (c, err (bad_params e))
  referenced f c panic = (c, panic)
  referenced true c (ok (name, key)) =
      let (c', s) = handle_secret_file_reference name key c in (c', ok s)
  referenced false c (ok (name, key)) =
      let (c', s) = handle_secret_var_reference name key c in (c', ok s)

  abbrev of_engine : String → String × Bool × String → Io Collector (SecretsError E) String
  of_engine val (e, f, p) c =
      if e =ₛ "k8s" then referenced f c (parse_kubernetes_secret_params p) else (c, ok val)

  -- A text that refers to no Kubernetes secret is left to the service.
  unfoldable pub sanitize_secret : String → Io Collector (SecretsError E) String
  unfolding parse_kubernetes_secret_params handle_secret_file_reference handle_secret_var_reference
  sanitize_secret val = of_engine val (lib.get_engine val)

  abbrev marshalled : E ⊎ String → Io Collector (SecretsError E) String
  marshalled (inl e) = returned (err (cannot_marshal e))
  marshalled (inr b) = returned (ok b)

  abbrev sanitized_text : Option Fields → String → Io Collector (SecretsError E) String
  sanitized_text none v c = (c, ok v)
  sanitized_text (some m) v c =
      go_on (λ ndata. marshalled (lib.marshal ndata))
        (inspect_strings sanitize_secret (Value.map m) c)

  unfoldable pub map_contents : Dict String → Io Collector (SecretsError E) (Dict String)
  unfolding inspect_strings sanitize_secret is_left
  map_contents [] c = (c, ok [])
  map_contents ((key, v) ∷ more) c =
      go_on (λ b. λ c'. go_on (λ rest. returned (ok ((key, b) ∷ rest))) (map_contents more c'))
        (sanitized_text (if is_left v then none else lib.unmarshal v) v c)

  abbrev with_contents : Secret → Dict String → Result (SecretsError E) Object
  with_contents s contents = ok (secret_object (record s { contents = contents }))

  -- `mapSecrets`, for every secret of a service.
  unfoldable pub map_secrets : List Object → Io Collector (SecretsError E) (List Object)
  unfolding map_contents
  map_secrets [] c = (c, ok [])
  map_secrets (secret_object s ∷ more) c =
      go_on (λ o. λ c'. go_on (λ rest. returned (ok (o ∷ rest))) (map_secrets more c'))
        (go_on (λ contents. returned (with_contents s contents)) (map_contents s.contents c))
  map_secrets (o ∷ more) c = go_on (λ rest. returned (ok (o ∷ rest))) (map_secrets more c)

unfoldable pub add_all : List SecretEnvVar → List SecretEnvVar → List SecretEnvVar
unfolding add_env_var
add_all [] vars = vars
add_all (e ∷ es) vars = add_all es (add_env_var e vars)

abbrev pub with_credentials : Option AwsCredentials → Collector → Collector
with_credentials none c = c
with_credentials (some keys) c = record c {
  env_vars = add_all (keys.gen_access_key ∷ keys.gen_secret_key ∷ keys.svc_secret_keys) c.env_vars;
}

unfoldable pub map_aws_keys : Dict AwsCredentials → Collector → Collector
unfolding add_all
map_aws_keys keys c = with_credentials (lookup c.svc keys) c

abbrev pub env_of : SecretEnvVar → EnvVar
env_of e = elim e.source [
  | from_secret name key ↦ record { name = e.name; value = ""; from_source = true }
  | raw value ↦ record { name = e.name; value = value; from_source = false }
]

abbrev pub is_volume_in_array : SecretVolume → List Volume → Bool
is_volume_in_array v a = any (λ vol. vol.name =ₛ v.name) a

abbrev volume_of : SecretVolume → Volume
volume_of v = record { name = v.name; secret = some v.secret_name }

unfoldable pub add_volumes : List SecretVolume → List Volume → List Volume
add_volumes [] volumes = volumes
add_volumes (v ∷ vs) volumes =
    let present = add_volumes vs volumes in
    let added = add_volumes vs (volumes ++ volume_of v ∷ []) in
    if is_volume_in_array v volumes then present else added

abbrev pub with_secrets : Collector → Container → Container
with_secrets k c = record c {
  volume_mounts = elim k.volumes [
    | [] ↦ c.volume_mounts
    | v ∷ vs ↦ c.volume_mounts ++ k.volume_mounts
  ];
  env = c.env ++ map env_of k.env_vars;
}

-- The first container of the name is changed in place.
unfoldable pub change_container : String → (Container → Container) → List Container → List Container
change_container name f [] = []
change_container name f (c ∷ cs) =
    let rest = change_container name f cs in if c.name =ₛ name then f c ∷ cs else c ∷ rest

abbrev set_in_container : Collector → String → Deployment → Deployment
set_in_container k name d = record d {
  containers = change_container name (with_secrets k) d.containers;
  volumes = add_volumes k.volumes d.volumes;
}

abbrev needs_nothing : Collector → Bool
needs_nothing k = elim k.env_vars [
  | [] ↦ elim k.volumes [ [] ↦ true | v ∷ vs ↦ false ]
  | e ∷ es ↦ false
]

abbrev if_monitored : Collector → Deployment → Option Container → Deployment
if_monitored k d none = d
if_monitored k d (some c) = set_in_container k "monitoring-daemon" d

abbrev set_in_monitoring : Collector → Deployment → Deployment
set_in_monitoring k d =
    if_monitored k d (get_container_in_deployment "monitoring-daemon" d.containers)

-- The container of the service, and the monitoring daemon beside it, get the same.
unfoldable pub set_in_deployment :
    {E : Type 0} → Collector → Deployment → Result (SecretsError E) Deployment
unfolding change_container add_volumes get_container_in_deployment
set_in_deployment k d =
    if needs_nothing k then ok d else elim (get_container_in_deployment k.svc d.containers) [
      | none ↦ err (no_container k.svc)
      | some c ↦ ok (set_in_monitoring k (set_in_container k k.svc d))
    ]

module _ {E : Type 0} (lib : SecretLibrary E) (keys : Dict AwsCredentials) where
  -- A service without a deployment is a nil pointer, which is read only if there is something to set.
  abbrev set_if_any : Collector → Option Deployment → Result (SecretsError E) (Option Deployment)
  set_if_any k none = if needs_nothing k then ok none else panic
  set_if_any k (some d) = set_in_deployment k d >>= λ d'. ok (some d')

  abbrev changed :
      ServiceConfig
      → Collector × Result (SecretsError E) (List Object)
      → Result (SecretsError E) ServiceConfig
  changed cfg (k, ok resources) = set_if_any (map_aws_keys keys k) cfg.deployment >>= λ d.
      ok (record cfg { resources = resources; deployment = d })
  changed cfg (k, err e) = err e
  changed cfg (k, panic) = panic

  unfoldable pub transform_manifests : GeneratedConfig → Result (SecretsError E) GeneratedConfig
  unfolding map_secrets map_aws_keys set_in_deployment
  transform_manifests [] = ok []
  transform_manifests ((svc, cfg) ∷ gen) =
      let rest = transform_manifests gen in
      changed cfg (map_secrets lib cfg.resources (new_collector svc))
      >>= (λ cfg'. rest >>= λ gen'. ok ((svc, cfg') ∷ gen'))
