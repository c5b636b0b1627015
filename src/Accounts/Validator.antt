-- ===== src/Accounts/Validator.antt =====
-- pkg/accounts/kubernetes/validator.go: the validation of a Kubernetes account, which ends in one request of its
-- cluster.
pub mod Reached
use spinnaker_operator.Base.{
  String, Bool, true, false, ◌⊎◌, inl, inr, Option, none, some, List, [], ◌∷◌, not, ◌&&◌, ◌||◌,
  ◌=ₛ◌, if◌then◌else◌,
}
use spinnaker_operator.Base.Dict.{Dict, lookup}
use spinnaker_operator.Base.Text.{append, is_empty, lacks}
use spinnaker_operator.Base.Io.{Io, ◌>>=◌, returned, wrapped}
use spinnaker_operator.Base.Result.{Result, ok, err, panic}
use spinnaker_operator.Inspect.Value.{Value, map, Fields, Error}
use spinnaker_operator.Inspect.Getter.{get_string_array}
use spinnaker_operator.Inspect.Source.{SourceError}
use spinnaker_operator.Secrets.Context.{SecretContext}
use spinnaker_operator.Secrets.Decode.{DecodeError, decode_as_file}
use spinnaker_operator.Config.{
  SpinnakerConfig, PropError, get_file_content, get_service_settings_prop_string,
}
use spinnaker_operator.Api.Types.{SpinnakerService}
use spinnaker_operator.Api.Items.{last_or}
use spinnaker_operator.Accounts.Kubernetes.{
  KubernetesAuth, Account, SecretReference, Kube, AccountError, get_secret_content,
}
use spinnaker_operator.Accounts.AuthSettings.{AuthSettings, source_auth_settings}
use spinnaker_operator.Accounts.Cluster.{
  AuthOverride, kept_auth, of_user, gcp, Overrides, RestConfig, from_library, in_cluster,
  TokenSecret, Cluster, ValidatorError, no_auth_provided, no_valid_kubeconfig,
  no_service_account_name, no_secret_context, both_namespaces, no_token_secret, bad_settings,
  cannot_decode, bad_secret, library, no_clientset, error_listing_namespaces, error_listing_pods,
  of_sum, join_host_port, make_override, token_in,
}
use spinnaker_operator.Accounts.Client.{V, make_client}

module _ {K C A L R E : Type 0} (cluster : Cluster K C A L R E) where
  abbrev nil_or_empty : Result Error (List String) → Result (ValidatorError E) (List String)
  nil_or_empty (ok ns) = ok ns
  nil_or_empty (err e) = ok []
  nil_or_empty panic = panic

  abbrev names_at : Account K → String → V cluster (List String)
  names_at a prop = returned (nil_or_empty (get_string_array (map a.settings) prop))

  abbrev not_both : List String → List String → V cluster (Unit {0})
  not_both (n ∷ ns) (o ∷ os) = returned (err both_namespaces)
  not_both nss omit = returned (ok tt)

  unfoldable pub validate_settings : Account K → V cluster (Unit {0})
  unfolding get_string_array
  validate_settings a =
      names_at a "namespaces" >>= λ nss. (names_at a "omitNamespaces" >>= not_both nss)

  abbrev failed_with : Option E → (E → ValidatorError E) → V cluster (Unit {0})
  failed_with none f = returned (ok tt)
  failed_with (some e) f = returned (err (f e))

  -- One request: the pods of the first namespace, or else all the namespaces.
  abbrev request : RestConfig R → List String → V cluster (Unit {0})
  request cc [] = failed_with (cluster.list_namespaces cc) error_listing_namespaces
  request cc (ns ∷ more) = failed_with (cluster.list_pods cc ns) (error_listing_pods ns)

  unfoldable pub validate_access : Account K → RestConfig R → V cluster (Unit {0})
  unfolding get_string_array
  validate_access a cc = failed_with (cluster.new_clientset cc) no_clientset >>= λ u.
      (names_at a "namespaces" >>= request cc)

  abbrev access_if : Account K → Option (RestConfig R) → V cluster (Unit {0})
  access_if a none = returned (ok tt)
  access_if a (some cc) = validate_access a cc

  unfoldable pub validate : Option SpinnakerService → Account K → V cluster (Unit {0})
  unfolding validate_settings make_client validate_access
  validate spin a = validate_settings a >>= λ u. (make_client cluster spin a >>= access_if a)
