-- ===== src/Accounts/Client.antt =====
-- pkg/accounts/kubernetes/validator.go: the client's configuration, by the way in which an account
-- authenticates.
use spinnaker_operator.Base.{
  String, Bool, true, false, ◌⊎◌, inl, inr, Option, none, some, List, [], ◌∷◌, not, ◌||◌,
  if◌then◌else◌,
}
use spinnaker_operator.Base.Text.{append, is_empty}
use spinnaker_operator.Base.Io.{Io, ◌>>=◌, returned, wrapped}
use spinnaker_operator.Base.Result.{Result, ok, err, panic}
use spinnaker_operator.Inspect.Value.{Fields}
use spinnaker_operator.Secrets.Context.{SecretContext}
use spinnaker_operator.Secrets.Decode.{DecodeError, decode_as_file}
use spinnaker_operator.Config.{
  SpinnakerConfig, PropError, get_file_content, get_service_settings_prop_string,
}
use spinnaker_operator.Api.Types.{SpinnakerService}
use spinnaker_operator.Api.Items.{last_or}
use spinnaker_operator.Accounts.Kubernetes.{
  KubernetesAuth, Account, SecretReference, get_secret_content,
}
use spinnaker_operator.Accounts.AuthSettings.{AuthSettings, source_auth_settings}
use spinnaker_operator.Accounts.Cluster.{
  RestConfig, from_library, in_cluster, Cluster, ValidatorError, no_auth_provided,
  no_valid_kubeconfig, no_service_account_name, no_secret_context, bad_settings, cannot_decode,
  bad_secret, library, of_sum, join_host_port, make_override, token_in,
}

module _ {K C A L R E : Type 0} (cluster : Cluster K C A L R E) where
  abbrev pub V : Type 0 → Type 0
  V B = Io (Option SecretContext) (ValidatorError E) B

  abbrev lib : {B : Type 0} → E ⊎ B → V B
  lib r = returned (of_sum r)

  -- `NewDefaultClientConfig(…).ClientConfig()`
  abbrev pub client_of : AuthSettings → C → V (RestConfig R)
  client_of settings cfg =
      lib (
        cluster.client_config cfg
          (make_override (cluster.auth_infos cfg) (cluster.clusters cfg) settings))
      >>= λ r. returned (ok (from_library r))

  abbrev decoded_file :
      Option SecretContext × String × Option (DecodeError E)
      → Option SecretContext × Result (ValidatorError E) String
  decoded_file (ctx, f, none) = (ctx, of_sum (cluster.read_file f))
  decoded_file (ctx, f, some e) = (ctx, err (cannot_decode e))

  unfoldable pub kubeconfig_bytes : String → SpinnakerConfig → V String
  unfolding decode_as_file get_file_content
  kubeconfig_bytes file cfg ctx =
      if cluster.kube.engines.is_encrypted_secret file
      then decoded_file (decode_as_file cluster.kube.engines cluster.kube.exists ctx file)
      else if cluster.is_abs file
      then (ctx, of_sum (cluster.read_file file))
      else (ctx, ok (get_file_content cluster.decode_base64 cfg file))

  unfoldable pub make_client_from_file : String → AuthSettings → SpinnakerConfig → V (RestConfig R)
  unfolding kubeconfig_bytes make_override
  make_client_from_file file settings cfg =
      kubeconfig_bytes file cfg >>= λ bytes. (lib (cluster.load bytes) >>= client_of settings)

  abbrev content_of : SecretReference → V String
  content_of ref none = (none, err no_secret_context)
  content_of ref (some sc) =
      wrapped bad_secret (returned (get_secret_content cluster.kube sc.namespace ref.name ref.key))
        (some sc)

  -- `load_raw` is `NewClientConfigFromBytes` with `RawConfig`.
  unfoldable pub make_client_from_secret_ref : SecretReference → AuthSettings → V (RestConfig R)
  unfolding get_secret_content make_override
  make_client_from_secret_ref ref settings =
      content_of ref >>= λ str. (lib (cluster.load_raw str) >>= client_of settings)

  abbrev pub a_client : V (RestConfig R) → V (Option (RestConfig R))
  a_client m = m >>= λ r. returned (ok (some r))

  -- A kubeconfig that cannot be converted gives neither a client nor an error.
  abbrev pub converted : Option C → AuthSettings → V (Option (RestConfig R))
  converted none settings = returned (ok none)
  converted (some cfg) settings = a_client (client_of settings cfg)

  unfoldable pub make_client_from_config_api : K → AuthSettings → V (Option (RestConfig R))
  unfolding make_override
  make_client_from_config_api config settings = converted (cluster.convert config) settings

  unfoldable pub make_client_from_settings : AuthSettings → SpinnakerConfig → V (RestConfig R)
  unfolding make_client_from_file make_override
  make_client_from_settings settings cfg =
      if not (is_empty settings.kubeconfig_file)
      then make_client_from_file settings.kubeconfig_file settings cfg
      else if not (is_empty settings.kubeconfig_contents)
      then lib (cluster.load settings.kubeconfig_contents) >>= client_of settings
      else returned (err no_valid_kubeconfig)

  -- Every item of `GetItems` is the last one that was listed.
  abbrev first_service : List SpinnakerService → V SpinnakerService
  first_service [] = returned panic
  first_service (s ∷ more) = returned (ok (last_or s more))

  -- No SpinnakerService is nil, which the caller goes on to read: a panic.
  unfoldable pub ensure_spin_svc : Option SpinnakerService → V SpinnakerService
  ensure_spin_svc (some spin) = returned (ok spin)
  ensure_spin_svc none = in_namespace
    where
      in_namespace : V SpinnakerService
      in_namespace none = (none, err no_secret_context)
      in_namespace (some sc) =
          (lib (cluster.list_services sc.namespace) >>= first_service) (some sc)

  abbrev account_name :
      Option SecretContext × String × Option (PropError E)
      → Option SecretContext × Result (ValidatorError E) String
  account_name (ctx, s, none) = (ctx, ok s)
  account_name (ctx, s, some e) = (ctx, err no_service_account_name)

  abbrev service_account_name : SpinnakerConfig → V String
  service_account_name cfg ctx = account_name (
      get_service_settings_prop_string cluster.kube.engines ctx cfg "clouddriver"
        "kubernetes.serviceAccountName")

  -- `GetServiceAccountData`
  unfoldable pub get_service_account_data :
      String → String → Result (ValidatorError E) (String × String)
  unfolding token_in
  get_service_account_data name ns = elim (cluster.list_secrets ns) [
    | inl e ↦ err (library e)
    | inr secrets ↦ token_in cluster.to_temp_file name secrets
  ]

  unfoldable pub get_api_server_host : Result (ValidatorError E) String
  unfolding join_host_port
  get_api_server_host =
      let host = cluster.getenv "KUBERNETES_SERVICE_HOST" in
      let port = cluster.getenv "KUBERNETES_SERVICE_PORT" in
      if is_empty host || is_empty port
      then of_sum cluster.outside_host
      else ok (append "https://" (join_host_port host port))

  -- A file that holds no certificates is left out.
  abbrev with_host : String × String → String → V (RestConfig R)
  with_host (token, ca_path) host =
      returned (ok (in_cluster host (if cluster.is_pool ca_path then ca_path else "") token))

  abbrev with_token : String × String → V (RestConfig R)
  with_token found = returned get_api_server_host >>= with_host found

  abbrev for_account : SpinnakerService → String → V (RestConfig R)
  for_account spin name = returned (get_service_account_data name spin.namespace) >>= with_token

  unfoldable pub make_client_from_service_account : Option SpinnakerService → V (RestConfig R)
  unfolding ensure_spin_svc get_service_account_data get_api_server_host
      get_service_settings_prop_string
  make_client_from_service_account spin = ensure_spin_svc spin >>= λ svc.
      (service_account_name svc.spinnaker_config >>= for_account svc)

  -- `spinSvc.GetSpinnakerConfig()` of a nil SpinnakerService, which is what the webhook of accounts gives,
  -- is a panic.
  abbrev pub with_config :
      Option SpinnakerService
      → (SpinnakerConfig → V (Option (RestConfig R)))
      → V (Option (RestConfig R))
  with_config none f = returned panic
  with_config (some spin) f = f spin.spinnaker_config

  abbrev pub client_without_file :
      Option SpinnakerService
      → Option K
      → Option SecretReference
      → Bool
      → AuthSettings
      → V (Option (RestConfig R))
  client_without_file spin (some c) secret account settings = make_client_from_config_api c settings
  client_without_file spin none (some ref) account settings =
      a_client (make_client_from_secret_ref ref settings)
  client_without_file spin none none true settings =
      a_client (make_client_from_service_account spin)
  client_without_file spin none none false settings = returned (err no_auth_provided)

  -- The first way to authenticate that the account has.
  abbrev pub client_for :
      Option SpinnakerService → KubernetesAuth K → AuthSettings → V (Option (RestConfig R))
  client_for spin auth settings =
      if not (is_empty auth.kubeconfig_file)
      then with_config spin
          (λ cfg. a_client (make_client_from_file auth.kubeconfig_file settings cfg))
      else client_without_file spin auth.kubeconfig auth.kubeconfig_secret auth.use_service_account
          settings

  abbrev pub with_settings :
      Option SpinnakerService → Option (KubernetesAuth K) → AuthSettings → V (Option (RestConfig R))
  with_settings spin none settings =
      with_config spin (λ cfg. a_client (make_client_from_settings settings cfg))
  with_settings spin (some auth) settings = client_for spin auth settings

  abbrev pub sourced : Fields → V AuthSettings
  sourced settings = wrapped bad_settings (returned (source_auth_settings settings))

  unfoldable pub make_client : Option SpinnakerService → Account K → V (Option (RestConfig R))
  unfolding make_client_from_file make_client_from_config_api make_client_from_secret_ref
      make_client_from_service_account make_client_from_settings source_auth_settings
  make_client spin a = sourced a.settings >>= with_settings spin a.auth
