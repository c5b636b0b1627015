-- ===== src/Accounts/AuthSettings.antt =====
-- pkg/accounts/kubernetes/validator.go: `authSettings`, filled from the settings of an account by
-- `inspect.Source`.
use spinnaker_operator.Base.{String, Bool, List}
use spinnaker_operator.Base.Result.{Result, ok, ◌>>=◌}
use spinnaker_operator.Inspect.Value.{Fields}
use spinnaker_operator.Inspect.Source.{SourceError, source_text, source_bool, source_strings}

pub record AuthSettings : Type 0 where
  pub user : String
  pub context : String
  pub cluster : String
  pub service_account : Bool
  pub kubeconfig_file : String
  pub kubeconfig_contents : String
  pub o_auth_service_account : String
  pub o_auth_scopes : List String

-- The fields in their order.
unfoldable pub source_auth_settings : Fields → Result SourceError AuthSettings
unfolding source_text source_bool source_strings
source_auth_settings settings = do
  user ← source_text settings "user"
  context ← source_text settings "context"
  cluster ← source_text settings "cluster"
  service_account ← source_bool settings "serviceAccount"
  kubeconfig_file ← source_text settings "kubeconfigFile"
  kubeconfig_contents ← source_text settings "kubeconfigContents"
  o_auth_service_account ← source_text settings "oAuthServiceAccount"
  o_auth_scopes ← source_strings settings "oAuthScopes"
  ok (record {
    user = user;
    context = context;
    cluster = cluster;
    service_account = service_account;
    kubeconfig_file = kubeconfig_file;
    kubeconfig_contents = kubeconfig_contents;
    o_auth_service_account = o_auth_service_account;
    o_auth_scopes = o_auth_scopes;
  })
