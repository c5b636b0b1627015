-- ===== src/Accounts/Cluster.antt =====
-- pkg/accounts/kubernetes/validator.go: what a client of a cluster is made of; and `GetServiceAccountData` of
-- pkg/util/find.go.
use spinnaker_operator.Base.{
  String, Bool, ◌⊎◌, inl, inr, Option, none, some, List, [], ◌∷◌, ◌&&◌, ◌=ₛ◌, if◌then◌else◌,
}
use spinnaker_operator.Base.Dict.{Dict, lookup}
use spinnaker_operator.Base.Text.{append, is_empty, lacks}
use spinnaker_operator.Base.Result.{Result, ok, err}
use spinnaker_operator.Inspect.Source.{SourceError}
use spinnaker_operator.Secrets.Decode.{DecodeError}
use spinnaker_operator.Api.Types.{SpinnakerService}
use spinnaker_operator.Accounts.Kubernetes.{Kube, AccountError}
use spinnaker_operator.Accounts.AuthSettings.{AuthSettings}

-- The user that replaces that of a kubeconfig.
pub data AuthOverride (A : Type 0) : Type 0 where
  kept_auth : AuthOverride A
  of_user : A → AuthOverride A
  gcp : List String → AuthOverride A

-- `ConfigOverrides`; an empty context is none.
pub record Overrides (A L : Type 0) : Type 0 where
  pub current_context : String
  pub auth_info : AuthOverride A
  pub cluster_info : Option L

-- A configuration of the client library, or the one made for a service account.
pub data RestConfig (R : Type 0) : Type 0 where
  from_library : R → RestConfig R
  in_cluster : String → String → String → RestConfig R

-- A secret, as the search for the token of a service account reads it.
pub record TokenSecret : Type 0 where
  pub is_token : Bool
  pub service_account : String
  pub token : String
  pub root_ca : String

-- The client library, the API server, and the files and variables of the process. `C` is a
-- `clientcmdapi.Config` with users `A` and clusters `L`.
pub record Cluster (K C A L R E : Type 0) : Type 0 where
  pub kube : Kube K E
  pub decode_base64 : String → Option String
  pub read_file : String → E ⊎ String
  pub is_abs : String → Bool
  pub load : String → E ⊎ C
  pub load_raw : String → E ⊎ C
  pub convert : K → Option C
  pub auth_infos : C → Dict A
  pub clusters : C → Dict L
  pub client_config : C → Overrides A L → E ⊎ R
  pub list_services : String → E ⊎ List SpinnakerService
  pub list_secrets : String → E ⊎ List TokenSecret
  pub to_temp_file : String → E ⊎ String
  pub is_pool : String → Bool
  pub getenv : String → String
  pub outside_host : E ⊎ String
  pub new_clientset : RestConfig R → Option E
  pub list_namespaces : RestConfig R → Option E
  pub list_pods : RestConfig R → String → Option E

pub data ValidatorError (E : Type 0) : Type 0 where
  no_auth_provided no_valid_kubeconfig no_service_account_name : ValidatorError E
  no_secret_context both_namespaces no_token_secret : ValidatorError E
  bad_settings : SourceError → ValidatorError E
  cannot_decode : DecodeError E → ValidatorError E
  bad_secret : AccountError E → ValidatorError E
  library : E → ValidatorError E
  no_clientset error_listing_namespaces : E → ValidatorError E
  error_listing_pods : String → E → ValidatorError E

abbrev pub of_sum : {E A : Type 0} → E ⊎ A → Result (ValidatorError E) A
of_sum (inl e) = err (library e)
of_sum (inr a) = ok a

-- `net.JoinHostPort`
unfoldable pub join_host_port : String → String → String
join_host_port host port =
    if lacks b':' host && lacks b'%' host
    then append host (append ":" port)
    else append "[" (append host (append "]:" port))

-- The scopes take the place of the user.
unfoldable pub make_override : {A L : Type 0} → Dict A → Dict L → AuthSettings → Overrides A L
make_override auth_infos clusters settings = record {
  current_context = settings.context;
  auth_info = elim settings.o_auth_scopes [
    | s ∷ more ↦ gcp (s ∷ more)
    | [] ↦
        if is_empty settings.user
        then kept_auth
        else elim (lookup settings.user auth_infos) [ none ↦ kept_auth | some a ↦ of_user a ]
  ];
  cluster_info = if is_empty settings.cluster then none else lookup settings.cluster clusters;
}

abbrev found_token :
    {E : Type 0} → String → E ⊎ String → Result (ValidatorError E) (String × String)
found_token token (inl e) = err (library e)
found_token token (inr path) = ok (token, path)

-- The first token of the service account.
unfoldable pub token_in :
    {E : Type 0}
    → (String → E ⊎ String)
    → String
    → List TokenSecret
    → Result (ValidatorError E) (String × String)
token_in to_temp_file name [] = err no_token_secret
token_in to_temp_file name (s ∷ more) =
    let rest = token_in to_temp_file name more in
    if s.is_token && (s.service_account =ₛ name)
    then found_token s.token (to_temp_file s.root_ca)
    else rest
