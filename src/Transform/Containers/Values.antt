-- ===== src/Transform/Containers/Values.antt =====
-- pkg/util/manifests.go and `addSpringProfile`: the values of environment variables after a change.
use spinnaker_operator.Base.{
  String, Bool, true, false, ◌≡◌, refl, ◌⊎◌, inl, inr, Option, none, some, List, [], ◌∷◌, ◌++◌,
  arith, ◌=ₛ◌, =ₛ→≡, =ₛ_refl, if◌then◌else◌,
}
use spinnaker_operator.Base.Text.{append, is_empty}
use spinnaker_operator.Kubernetes.Workload.{EnvVar, Container, Deployment}
use spinnaker_operator.Transform.Containers.{
  merge_env, set_env, set_in_containers, add_env_var_to_deployment, ProfileError,
  spring_profiles_active, add_profile, add_spring_profile_to, add_spring_profile,
}

-- The value of the first variable of a name.
abbrev pub value_of : String → List EnvVar → Option String
value_of n [] = none
value_of n (v ∷ vs) = if v.name =ₛ n then some v.value else value_of n vs

abbrev pub merged_value : (String → String → String) → String → Option String → String
merged_value merge new none = new
merged_value merge new (some old) = merge old new

abbrev is_some : Option String → Bool
is_some none = false
is_some (some s) = true

merge_env-found :
    (e : EnvVar) (merge : String → String → String) (env : List EnvVar)
    → (merge_env e merge env).1 ≡ is_some (value_of e.name env)
unfolding merge_env
merge_env-found e merge [] = refl
merge_env-found e merge (v ∷ env) = ground (arith, merge_env-found e merge env)

value_of-append :
    (n : String) (vs : List EnvVar) (e : EnvVar)
    → value_of n (vs ++ e ∷ []) ≡ (elim (value_of n vs) as (λ o. Option String) [
      | some s ↦ some s
      | none ↦ if e.name =ₛ n then some e.value else none
    ])
value_of-append n [] e = ground arith
value_of-append n (v ∷ vs) e = ground (arith, value_of-append n vs e)

value_of-merge_env :
    (e : EnvVar) (merge : String → String → String) (n : String) (env : List EnvVar)
    → value_of n (merge_env e merge env).0 ≡ (elim (value_of n env) as (λ o. Option String) [
      | none ↦ none
      | some old ↦ some (if e.name =ₛ n then merge old e.value else old)
    ])
unfolding merge_env
value_of-merge_env e merge n [] = refl
value_of-merge_env e merge n (v ∷ env) = ground (
  arith,
  value_of-merge_env e merge n env,
  =ₛ→≡ v.name e.name,
  =ₛ→≡ v.name n,
  =ₛ→≡ e.name n,
  =ₛ_refl n,
)

-- The variable gets its new value, merged with the old one where there was one; others keep theirs.
value_of-set_env :
    (e : EnvVar) (merge : String → String → String) (n : String) (env : List EnvVar)
    → value_of n (set_env e merge env)
      ≡ (if e.name =ₛ n then some (merged_value merge e.value (value_of n env)) else value_of n env)
unfolding set_env
value_of-set_env e merge n env = ground (
  arith,
  merge_env-found e merge env,
  value_of-merge_env e merge n env,
  value_of-append n (merge_env e merge env).0 e,
  =ₛ→≡ e.name n,
)

-- The values of a variable in the containers, in their order.
abbrev pub values_of : String → List Container → List (Option String)
values_of n [] = []
values_of n (c ∷ cs) = value_of n c.env ∷ values_of n cs

abbrev pub expected_values :
    EnvVar
    → (String → String → String)
    → (Container → Bool)
    → String
    → List Container
    → List (Option String)
expected_values e merge filter n [] = []
expected_values e merge filter n (c ∷ cs) =
    (if filter c
      then if e.name =ₛ n
        then some (merged_value merge e.value (value_of n c.env))
        else value_of n c.env
      else value_of n c.env)
    ∷ expected_values e merge filter n cs

values_of-set_in_containers :
    (e : EnvVar) (merge : String → String → String) (filter : Container → Bool) (n : String)
    (cs : List Container)
    → values_of n (set_in_containers e merge filter cs) ≡ expected_values e merge filter n cs
unfolding set_in_containers
values_of-set_in_containers e merge filter n [] = refl
values_of-set_in_containers e merge filter n (c ∷ cs) =
    ground
      (arith, values_of-set_in_containers e merge filter n cs, value_of-set_env e merge n c.env)

-- In each container that the filter accepts, the variable has the new value, merged with the old one
-- where there was one; every other variable, and every other container, keeps its values.
pub values_of-add_env_var_to_deployment :
    (d : Deployment) (e : EnvVar) (merge : String → String → String) (filter : Container → Bool)
    (n : String)
    → values_of n (add_env_var_to_deployment d e merge filter).containers
      ≡ expected_values e merge filter n d.containers
unfolding add_env_var_to_deployment
values_of-add_env_var_to_deployment d e merge filter n =
    values_of-set_in_containers e merge filter n d.containers

-- The profiles with one more at their end.
abbrev pub with_profile : String → Option String → String
with_profile p none = p
with_profile p (some old) = if is_empty old then p else append old (append "," p)

-- The profiles of the first container of a name, where there is one.
abbrev pub profiles_of : String → List Container → Option String
profiles_of svc [] = none
profiles_of svc (c ∷ cs) =
    if c.name =ₛ svc then value_of spring_profiles_active c.env else profiles_of svc cs

value_of-add_profile :
    (p : String) (env env' : List EnvVar)
    → add_profile p env ≡ inr env'
    → value_of spring_profiles_active env'
      ≡ some (with_profile p (value_of spring_profiles_active env))
unfolding add_profile
value_of-add_profile p [] env' h = ground (arith, =ₛ_refl spring_profiles_active)
value_of-add_profile p (v ∷ env) env' h = at (add_profile p env) refl (value_of-add_profile p env)
  where
    at :
        (r : ProfileError ⊎ List EnvVar)
        → add_profile p env ≡ r
        → ((env1 : List EnvVar)
            → add_profile p env ≡ inr env1
            → value_of spring_profiles_active env1
              ≡ some (with_profile p (value_of spring_profiles_active env)))
        → value_of spring_profiles_active env'
          ≡ some (with_profile p (value_of spring_profiles_active (v ∷ env)))
    at (inl e) same ih = ground (arith, same)
    at (inr rest) same ih = ground (arith, same, ih rest same)

profiles_of-add_spring_profile_to :
    (svc p : String) (cs cs' : List Container)
    → add_spring_profile_to svc p cs ≡ inr cs'
    → profiles_of svc cs' ≡ some (with_profile p (profiles_of svc cs))
unfolding add_spring_profile_to
profiles_of-add_spring_profile_to svc p [] cs' h = ground (arith, h)
profiles_of-add_spring_profile_to svc p (c ∷ cs) cs' h =
    at (add_profile p c.env) refl (add_spring_profile_to svc p cs) refl
      (profiles_of-add_spring_profile_to svc p cs)
  where
    at :
        (r : ProfileError ⊎ List EnvVar)
        → add_profile p c.env ≡ r
        → (q : ProfileError ⊎ List Container) → add_spring_profile_to svc p cs ≡ q
        → ((cs1 : List Container)
            → add_spring_profile_to svc p cs ≡ inr cs1
            → profiles_of svc cs1 ≡ some (with_profile p (profiles_of svc cs)))
        → profiles_of svc cs' ≡ some (with_profile p (profiles_of svc (c ∷ cs)))
    at (inl e) same (inl e') rest ih = ground (arith, same, rest)
    at (inl e) same (inr cs1) rest ih = ground (arith, same, rest, ih cs1 rest)
    at (inr env) same (inl e') rest ih =
        ground (arith, same, rest, value_of-add_profile p c.env env same)
    at (inr env) same (inr cs1) rest ih =
        ground (arith, same, rest, ih cs1 rest, value_of-add_profile p c.env env same)

-- A profile that could be added stands at the end of the active profiles of the service's
-- container, after a comma, or alone where there was none or an empty text.
profiles_of-add_spring_profile :
    (dep dep' : Deployment) (svc p : String)
    → add_spring_profile dep svc p ≡ inr dep'
    → profiles_of svc dep'.containers ≡ some (with_profile p (profiles_of svc dep.containers))
unfolding add_spring_profile
profiles_of-add_spring_profile dep dep' svc p h =
    at (add_spring_profile_to svc p dep.containers) refl
  where
    at :
        (r : ProfileError ⊎ List Container)
        → add_spring_profile_to svc p dep.containers ≡ r
        → profiles_of svc dep'.containers ≡ some (with_profile p (profiles_of svc dep.containers))
    at (inl e) same = ground (arith, h, same)
    at (inr cs) same =
        ground (arith, h, same, profiles_of-add_spring_profile_to svc p dep.containers cs same)
