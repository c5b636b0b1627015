-- ===== src/Transform/Accounts.antt =====
-- pkg/deploy/spindeploy/transformer/accounts.go: the accounts of a namespace, in the secrets of the generated
-- services; and `UpdateSecret` and `GetSecretConfigFromConfig` of pkg/util/find.go.
pub mod Written
use spinnaker_operator.Base.{
  String, Bool, true, false, ◌⊎◌, inl, inr, Option, none, some, List, [], ◌∷◌, ◌=ₛ◌, any,
  if◌then◌else◌,
}
use spinnaker_operator.Base.Dict.{Dict, insert}
use spinnaker_operator.Base.Text.{append, is_empty}
use spinnaker_operator.Base.Result.{Result, ok, err, panic, ◌>>=◌}
use spinnaker_operator.Inspect.Value.{Fields}
use spinnaker_operator.Secrets.Context.{SecretContext}
use spinnaker_operator.Kubernetes.Workload.{
  Deployment, Secret, Object, deployment_object, service_object, secret_object, other_object,
  ServiceConfig, GeneratedConfig,
}
use spinnaker_operator.Accounts.Kubernetes.{Account, SpinnakerAccount, Kube, AccountError}
use spinnaker_operator.Accounts.Service.{
  spring_profile, types, all_valid_crd_accounts, get_all_services_with_accounts, prepare_settings,
}
use spinnaker_operator.Transform.Containers.{
  ProfileError, add_spring_profile, is_service_like, get_mounted_secret_name_in_deployment,
}

pub data AccountsError (E : Type 0) : Type 0 where
  profile_error : ProfileError → AccountsError E
  account_error : AccountError E → AccountsError E
  cannot_marshal cannot_list : E → AccountsError E

-- The answer of the API server: the kind may be unknown to it.
pub data Listing (K E : Type 0) : Type 0 where
  no_kind_match : Listing K E
  not_listed : E → Listing K E
  listing : List (SpinnakerAccount K) → Listing K E

abbrev pub accounts_file : String → String
accounts_file svc = append svc (append "-" (append spring_profile ".yml"))

unfoldable pub is_service_with_account : String → List String → Bool
unfolding is_service_like
is_service_with_account service_key account_services =
    any (λ s. is_service_like service_key s) account_services

-- What is mounted where the service looks for its configuration.
abbrev pub config_secret : String → Deployment → String
config_secret svc d = get_mounted_secret_name_in_deployment d svc "/opt/spinnaker/config"

module _ {E : Type 0} where
  abbrev with_contents : Secret → String → E ⊎ String → Result (AccountsError E) Secret
  with_contents sec key (inl e) = err (cannot_marshal e)
  with_contents sec key (inr b) = ok (record sec { contents = insert key b sec.contents })

  -- `marshal` is `yaml.Marshal`; the secret has data.
  unfoldable pub update_secret :
      (Fields → E ⊎ String) → Secret → String → Fields → Result (AccountsError E) Secret
  update_secret marshal sec svc settings = with_contents sec (accounts_file svc) (marshal settings)

  -- The first secret of the name is changed in place; without one nothing is.
  unfoldable pub update_in_resources :
      (Secret → Result (AccountsError E) Secret)
      → String
      → List Object
      → Result (AccountsError E) (List Object)
  update_in_resources change name [] = ok []
  update_in_resources change name (secret_object s ∷ more) =
      let rest = update_in_resources change name more in
      if s.name =ₛ name
      then change s >>= (λ s'. ok (secret_object s' ∷ more))
      else rest >>= (λ more'. ok (secret_object s ∷ more'))
  update_in_resources change name (o ∷ more) =
      update_in_resources change name more >>= λ more'. ok (o ∷ more')

  abbrev with_resources :
      ServiceConfig
      → Result (AccountsError E) (List Object)
      → Result (AccountsError E) ServiceConfig
  with_resources c r = r >>= λ resources. ok (record c { resources = resources })

  abbrev pub with_settings :
      (Fields → E ⊎ String)
      → String
      → ServiceConfig
      → Fields
      → Result (AccountsError E) ServiceConfig
  with_settings marshal svc c settings = elim c.deployment [
    | none ↦ panic
    | some d ↦
        if is_empty (config_secret svc d)
        then ok c
        else with_resources c (
            update_in_resources (λ sec. update_secret marshal sec svc settings)
              (config_secret svc d) c.resources)
  ]

  abbrev wrapped : {A : Type 0} → Result (AccountError E) A → Result (AccountsError E) A
  wrapped (ok a) = ok a
  wrapped (err e) = err (account_error e)
  wrapped panic = panic

  abbrev profiled :
      ServiceConfig → ProfileError ⊎ Deployment → Result (AccountsError E) ServiceConfig
  profiled c (inl e) = err (profile_error e)
  profiled c (inr d) = ok (record c { deployment = some d })

  -- A service without a deployment is a nil pointer.
  abbrev add_to_deployment : String → ServiceConfig → Result (AccountsError E) ServiceConfig
  add_to_deployment svc c = elim c.deployment [
    | none ↦ panic
    | some d ↦ profiled c (add_spring_profile d svc spring_profile)
  ]

  -- The Spring profile of every service that may have accounts.
  unfoldable pub add_profiles :
      List String → GeneratedConfig → Result (AccountsError E) GeneratedConfig
  unfolding is_service_with_account add_spring_profile
  add_profiles svcs [] = ok []
  add_profiles svcs ((k, c) ∷ gen) =
      let rest = add_profiles svcs gen in
      let added : Result (AccountsError E) ServiceConfig =
        if is_service_with_account k svcs then add_to_deployment k c else ok c in
      added >>= (λ c'. rest >>= λ gen'. ok ((k, c') ∷ gen'))

module _ {K E : Type 0} (kube : Kube K E) (marshal : Fields → E ⊎ String)
    (ctx : Option SecretContext) where
  unfoldable pub update_config :
      List (Account K) → String → ServiceConfig → Result (AccountsError E) ServiceConfig
  unfolding prepare_settings update_secret update_in_resources get_mounted_secret_name_in_deployment
  update_config accounts svc c =
      wrapped (prepare_settings kube ctx svc accounts) >>= with_settings marshal svc c

  unfoldable pub update_service_settings :
      List (Account K) → GeneratedConfig → Result (AccountsError E) GeneratedConfig
  unfolding update_config
  update_service_settings accounts [] = ok []
  update_service_settings accounts ((k, c) ∷ gen) =
      let rest = update_service_settings accounts gen in
      update_config accounts k c >>= (λ c'. rest >>= λ gen'. ok ((k, c') ∷ gen'))

  abbrev with_accounts :
      GeneratedConfig
      → E ⊎ Result (AccountError E) (List (Account K))
      → Result (AccountsError E) GeneratedConfig
  with_accounts gen (inl e) = err (cannot_list e)
  with_accounts gen (inr accounts) = wrapped accounts >>= λ accs. update_service_settings accs gen

  abbrev with_listing : GeneratedConfig → Listing K E → Result (AccountsError E) GeneratedConfig
  with_listing gen no_kind_match = ok gen
  with_listing gen (not_listed e) = err (cannot_list e)
  with_listing gen (listing items) =
      with_accounts gen (all_valid_crd_accounts (types kube) (inr items))

  -- `enabled` is that the SpinnakerService takes accounts.
  unfoldable pub transform_manifests :
      Bool → Listing K E → GeneratedConfig → Result (AccountsError E) GeneratedConfig
  unfolding add_profiles update_service_settings all_valid_crd_accounts
      get_all_services_with_accounts
  transform_manifests enabled answer gen =
      let changed : Result (AccountsError E) GeneratedConfig =
        add_profiles (get_all_services_with_accounts (types kube)) gen >>= λ gen'.
        with_listing gen' answer in
      if enabled then changed else ok gen
