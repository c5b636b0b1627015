-- ===== src/Transform/Containers.antt =====
-- pkg/util/manifests.go and find.go: the containers of a deployment; and `addSpringProfile` of
-- pkg/deploy/spindeploy/transformer/accounts.go.
pub mod Values
use spinnaker_operator.Base.{
  String, Bool, true, false, ◌||◌, ◌⊎◌, inl, inr, Option, none, some, List, [], ◌∷◌, ◌++◌, ◌=ₛ◌,
  if◌then◌else◌,
}
use spinnaker_operator.Base.Text.{append, is_empty, has_prefix}
use spinnaker_operator.Kubernetes.Workload.{EnvVar, VolumeMount, Container, Volume, Deployment}

-- The variables with the value merged into each of that name, and whether there was one.
unfoldable pub merge_env : EnvVar → (String → String → String) → List EnvVar → List EnvVar × Bool
merge_env e merge [] = ([], false)
merge_env e merge (ce ∷ env) =
    let (vars, found) = merge_env e merge env in
    if ce.name =ₛ e.name
    then (record ce { value = merge ce.value e.value } ∷ vars, true)
    else (ce ∷ vars, found)

unfoldable pub set_env : EnvVar → (String → String → String) → List EnvVar → List EnvVar
unfolding merge_env
set_env e merge env =
    let (vars, found) = merge_env e merge env in if found then vars else vars ++ e ∷ []

unfoldable pub set_in_containers :
    EnvVar → (String → String → String) → (Container → Bool) → List Container → List Container
unfolding set_env
set_in_containers e merge filter [] = []
set_in_containers e merge filter (c ∷ cs) =
    let rest = set_in_containers e merge filter cs in
    if filter c then record c { env = set_env e merge c.env } ∷ rest else c ∷ rest

unfoldable pub add_env_var_to_deployment :
    Deployment → EnvVar → (String → String → String) → (Container → Bool) → Deployment
unfolding set_in_containers
add_env_var_to_deployment d e merge filter = record d {
  containers = set_in_containers e merge filter d.containers;
}

unfoldable pub get_container_in_deployment : String → List Container → Option Container
get_container_in_deployment name [] = none
get_container_in_deployment name (c ∷ cs) =
    if c.name =ₛ name then some c else get_container_in_deployment name cs

-- A volume without a secret ends the search for its mount.
abbrev secret_of_volume : String → List Volume → Option String
secret_of_volume name [] = none
secret_of_volume name (v ∷ vs) =
    if v.name =ₛ name
    then some (elim v.secret [ none ↦ String.[] | some s ↦ s ])
    else secret_of_volume name vs

abbrev secret_at : String → List Volume → List VolumeMount → String
secret_at path volumes [] = String.[]
secret_at path volumes (vm ∷ vms) =
    let rest = secret_at path volumes vms in
    if vm.mount_path =ₛ path
    then elim (secret_of_volume vm.name volumes) [ some s ↦ s | none ↦ rest ]
    else rest

unfoldable pub get_mounted_secret_name_in_deployment : Deployment → String → String → String
unfolding get_container_in_deployment
get_mounted_secret_name_in_deployment dep container_name path =
    elim (get_container_in_deployment container_name dep.containers) [
      | none ↦ String.[]
      | some c ↦ secret_at path dep.volumes c.volume_mounts
    ]

unfoldable pub is_service_like : String → String → Bool
is_service_like svc1 svc2 = (svc1 =ₛ svc2) || has_prefix (append svc2 "-") svc1

pub data ProfileError : Type 0 where
  no_container : String → ProfileError
  profiles_from_source : ProfileError

abbrev pub spring_profiles_active : String
spring_profiles_active = "SPRING_PROFILES_ACTIVE"

-- The first variable of the name gets the profile; without one it is added.
unfoldable pub add_profile : String → List EnvVar → ProfileError ⊎ List EnvVar
add_profile p [] =
    inr (record { name = spring_profiles_active; value = p; from_source = false } ∷ [])
add_profile p (ev ∷ env) =
    let rest = add_profile p env in
    if ev.name =ₛ spring_profiles_active
    then if ev.from_source
      then inl profiles_from_source
      else inr (
          record ev { value = if is_empty ev.value then p else append ev.value (append "," p) }
          ∷ env)
    else elim rest [ inl e ↦ inl e | inr env' ↦ inr (ev ∷ env') ]

-- The first container of the name is changed in place.
unfoldable pub add_spring_profile_to :
    String → String → List Container → ProfileError ⊎ List Container
unfolding add_profile
add_spring_profile_to svc p [] = inl (no_container svc)
add_spring_profile_to svc p (c ∷ cs) =
    let rest = add_spring_profile_to svc p cs in
    if c.name =ₛ svc
    then elim (add_profile p c.env) [ inl e ↦ inl e | inr env ↦ inr (record c { env = env } ∷ cs) ]
    else elim rest [ inl e ↦ inl e | inr cs' ↦ inr (c ∷ cs') ]

unfoldable pub add_spring_profile : Deployment → String → String → ProfileError ⊎ Deployment
unfolding add_spring_profile_to
add_spring_profile dep svc p = elim (add_spring_profile_to svc p dep.containers) [
  | inl e ↦ inl e
  | inr cs ↦ inr (record dep { containers = cs })
]
