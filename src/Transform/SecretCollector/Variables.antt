-- ===== src/Transform/SecretCollector/Variables.antt =====
-- pkg/deploy/spindeploy/transformer/secrets.go: which secret an environment variable reads.
use spinnaker_operator.Base.{
  String, ◌≡◌, Option, none, some, List, [], ◌∷◌, arith, ◌=ₛ◌, =ₛ→≡, =ₛ_refl, if◌then◌else◌,
}
use spinnaker_operator.Transform.SecretCollector.{
  EnvSource, from_secret, SecretEnvVar, Collector, new_collector, add_env_var, get_env_var_name,
  handle_secret_var_reference,
}

-- What the first variable of a name reads.
abbrev pub reads : String → List SecretEnvVar → Option EnvSource
reads n [] = none
reads n (v ∷ vs) = if v.name =ₛ n then some v.source else reads n vs

-- References by the secret's name and its key, in the order in which they are met.
abbrev pub handle_all : List (String × String) → Collector → Collector
handle_all [] c = c
handle_all ((secret_name, key) ∷ refs) c =
    handle_all refs (handle_secret_var_reference secret_name key c).0

-- The first reference whose variable has this name.
abbrev pub first_named : String → String → List (String × String) → Option EnvSource
first_named svc n [] = none
first_named svc n ((secret_name, key) ∷ refs) =
    if get_env_var_name svc secret_name key =ₛ n
    then some (from_secret secret_name key)
    else first_named svc n refs

abbrev or_else : Option EnvSource → Option EnvSource → Option EnvSource
or_else (some s) rest = some s
or_else none rest = rest

reads-add_env_var :
    (n : String) (e : SecretEnvVar) (vs : List SecretEnvVar)
    → reads n (add_env_var e vs)
      ≡ or_else (reads n vs) (if e.name =ₛ n then some e.source else none)
unfolding add_env_var
reads-add_env_var n e [] = ground arith
reads-add_env_var n e (v ∷ vs) =
    ground (arith, reads-add_env_var n e vs, =ₛ→≡ v.name e.name, =ₛ→≡ e.name n, =ₛ_refl n)

reads-handle_all :
    (n : String) (refs : List (String × String)) (c : Collector)
    → reads n (handle_all refs c).env_vars ≡ or_else (reads n c.env_vars) (first_named c.svc n refs)
unfolding handle_secret_var_reference
reads-handle_all n [] c = ground arith
reads-handle_all n ((secret_name, key) ∷ refs) c =
    let e : SecretEnvVar = record {
      name = get_env_var_name c.svc secret_name key;
      source = from_secret secret_name key;
    } in
    ground (
      arith,
      reads-handle_all n refs (handle_secret_var_reference secret_name key c).0,
      reads-add_env_var n e c.env_vars,
    )

-- Whatever references a service's configuration has, a variable reads the first secret whose name and
-- key give the variable's name. (So two secrets with one variable name both get the first one.)
pub reads-handle_all_new :
    (svc n : String) (refs : List (String × String))
    → reads n (handle_all refs (new_collector svc)).env_vars ≡ first_named svc n refs
reads-handle_all_new svc n refs = reads-handle_all n refs (new_collector svc)
