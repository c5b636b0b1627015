-- ===== src/Transform/SecretCollector.antt =====
-- pkg/deploy/spindeploy/transformer/secrets.go: what a service's deployment needs for the Kubernetes
-- secrets that its configuration refers to. Names and keys of secrets are ASCII, and paths of them
-- need no cleaning.
pub mod Variables
pub mod Volumes
use Prim.Native.Nat.{◌+◌, ◌-◌}
use Prim.Native.Char.{Char, code}
use spinnaker_operator.Base.{
  ℕ, String, Bool, true, false, ◌≡◌, refl, ◌≢◌, ◌⊎◌, inl, inr, Option, none, some, List, [], ◌∷◌,
  ◌++◌, any, arith, ◌&&◌, ◌||◌, ◌==◌, leb, ◌=ₛ◌, =ₛ→≡, =ₛ_refl, if◌then◌else◌, Option-cases,
}
use spinnaker_operator.Base.Text.{append}
use spinnaker_operator.Kubernetes.Workload.{VolumeMount}

pub data EnvSource : Type 0 where
  from_secret : String → String → EnvSource
  raw : String → EnvSource

pub record SecretEnvVar : Type 0 where
  pub name : String
  pub source : EnvSource

-- `keys` are the keys of the items; each is mounted under its own name.
pub record SecretVolume : Type 0 where
  pub name : String
  pub secret_name : String
  pub keys : List String

pub record Collector : Type 0 where
  pub env_vars : List SecretEnvVar
  pub volumes : List SecretVolume
  pub volume_mounts : List VolumeMount
  pub svc : String

abbrev pub new_collector : String → Collector
new_collector svc = record { env_vars = []; volumes = []; volume_mounts = []; svc = svc }

-- `addEnvVarIfNotAdded`
unfoldable pub add_env_var : SecretEnvVar → List SecretEnvVar → List SecretEnvVar
add_env_var e [] = e ∷ []
add_env_var e (v ∷ vs) =
    let rest = add_env_var e vs in if v.name =ₛ e.name then v ∷ vs else v ∷ rest

-- The letter at a place of a text.
letter : ℕ → String → String
letter n String.[] = String.[]
letter n (String.◌∷◌ c s) =
    let rest = letter (n - 1) s in if n == 0 then String.◌∷◌ c String.[] else rest

-- `-`, `.` and the space become `_`, and lower case becomes upper case.
abbrev safe_char : Char → String
safe_char c =
    if code c == 45 || code c == 46 || code c == 32
    then "_"
    else if leb 97 (code c) && leb (code c) 122
    then letter (code c - 97) "ABCDEFGHIJKLMNOPQRSTUVWXYZ"
    else String.◌∷◌ c String.[]

unfoldable pub safe_env_var_name : String → String
unfolding letter append
safe_env_var_name String.[] = String.[]
safe_env_var_name (String.◌∷◌ c s) = append (safe_char c) (safe_env_var_name s)

unfoldable pub get_env_var_name : String → String → String → String
unfolding safe_env_var_name append
get_env_var_name svc secret_name key =
    append (safe_env_var_name svc)
      (append "_" (append (safe_env_var_name secret_name) (append "_" (safe_env_var_name key))))

-- What replaces the reference in the configuration.
unfoldable pub get_env_var_name_reference : String → String
get_env_var_name_reference var_name = append "${" (append var_name "}")

unfoldable pub handle_secret_var_reference : String → String → Collector → Collector × String
unfolding add_env_var get_env_var_name get_env_var_name_reference
handle_secret_var_reference secret_name key c =
    let var_name = get_env_var_name c.svc secret_name key in
    let e : SecretEnvVar = record { name = var_name; source = from_secret secret_name key } in
    (record c { env_vars = add_env_var e c.env_vars }, get_env_var_name_reference var_name)

unfoldable pub get_volume_name : String → String
get_volume_name secret_name = append "volume-" secret_name

unfoldable pub get_secret_file_path : String → String
get_secret_file_path svc = append "/opt/" (append svc "/secrets")

abbrev join : String → String → String
join dir name = append dir (append "/" name)

unfoldable pub get_secret_mount_path : String → String → String
unfolding get_secret_file_path
get_secret_mount_path svc secret_name = join (get_secret_file_path svc) secret_name

abbrev has_key : String → List String → Bool
has_key key keys = any (λ k. k =ₛ key) keys

abbrev with_key : String → List String → List String
with_key key keys = if has_key key keys then keys else keys ++ key ∷ []

-- The volumes with the key added, and whether a volume was added.
unfoldable pub add_volume : String → String → List SecretVolume → List SecretVolume × Bool
unfolding get_volume_name
add_volume secret_name key [] = (
  record { name = get_volume_name secret_name; secret_name = secret_name; keys = key ∷ [] } ∷ [],
  true,
)
add_volume secret_name key (v ∷ vs) =
    let (vs', added) = add_volume secret_name key vs in
    if v.secret_name =ₛ secret_name
    then (record v { keys = with_key key v.keys } ∷ vs, false)
    else (v ∷ vs', added)

abbrev mount_of : String → String → VolumeMount
mount_of svc secret_name = record {
  name = get_volume_name secret_name;
  mount_path = get_secret_mount_path svc secret_name;
}

-- The path is what replaces the reference in the configuration.
unfoldable pub handle_secret_file_reference : String → String → Collector → Collector × String
unfolding add_volume get_secret_mount_path
handle_secret_file_reference secret_name key c =
    let (vs, added) = add_volume secret_name key c.volumes in
    (
      record c {
        volumes = vs;
        volume_mounts =
            if added then c.volume_mounts ++ mount_of c.svc secret_name ∷ [] else c.volume_mounts;
      },
      join (get_secret_file_path c.svc) (join secret_name key),
    )
