-- ===== src/Accounts/Kubernetes.antt =====
-- pkg/accounts/kubernetes/kubernetes.go and parse.go, pkg/accounts/account/base.go: Kubernetes accounts, from
-- and to the settings of Spinnaker.
pub mod RoundTrip
use spinnaker_operator.Base.{
  String, Bool, true, false, ◌⊎◌, inl, inr, Option, none, some, List, [], ◌∷◌, not, ◌=ₛ◌,
  if◌then◌else◌,
}
use spinnaker_operator.Base.Dict.{Dict, lookup}
use spinnaker_operator.Base.Text.{is_empty, lower_is}
use spinnaker_operator.Base.Io.{Io, ◌>>=◌, returned}
use spinnaker_operator.Base.Result.{Result, ok, err, panic}
use spinnaker_operator.Inspect.Value.{
  Value, nil, bool, string, map, Fields, empty, field, get_field, put_field, Error,
}
use spinnaker_operator.Inspect.Source.{SourceError}
use spinnaker_operator.Accounts.Env.{Env, no_env, source_env}
use spinnaker_operator.Secrets.Context.{SecretContext}
use spinnaker_operator.Secrets.Decode.{Engines, DecodeError, decode_as_file}
use spinnaker_operator.Api.Types.{ValidationSetting, SpinnakerValidation}
use spinnaker_operator.Api.Hash.{get_validation_settings}

pub record SecretReference : Type 0 where
  pub name : String
  pub key : String

-- `K` is a kubeconfig in the format of the Kubernetes client.
pub record KubernetesAuth (K : Type 0) : Type 0 where
  pub kubeconfig_file : String
  pub kubeconfig : Option K
  pub kubeconfig_secret : Option SecretReference
  pub use_service_account : Bool

abbrev no_auth : {K : Type 0} → KubernetesAuth K
no_auth = record {
  kubeconfig_file = String.[];
  kubeconfig = none;
  kubeconfig_secret = none;
  use_service_account = false;
}

pub record Account (K : Type 0) : Type 0 where
  pub name : String
  pub auth : Option (KubernetesAuth K)
  pub env : Env
  pub settings : Fields

-- A SpinnakerAccount, as far as it is read.
pub record SpinnakerAccount (K : Type 0) : Type 0 where
  pub name : String
  pub enabled : Bool
  pub type : String
  pub kubernetes : Option (KubernetesAuth K)
  pub settings : Fields

-- The libraries and the cluster: YAML of a kubeconfig, and the data of a secret.
pub record Kube (K E : Type 0) : Type 0 where
  pub engines : Engines E
  pub exists : String → Bool
  pub unmarshal : String → E ⊎ K
  pub marshal : K → E ⊎ String
  pub get_secret : String → String → E ⊎ Dict String

pub data AccountError (E : Type 0) : Type 0 where
  no_kubernetes_defined missing_name name_not_string : AccountError E
  not_string not_boolean : String → AccountError E
  cannot_decode : DecodeError E → AccountError E
  library : E → AccountError E
  nothing_found no_secret_context secret_not_found not_implemented : AccountError E
  bad_settings : SourceError → AccountError E
  bad_property : Error → AccountError E

abbrev pub kubeconfig_file_settings : String
kubeconfig_file_settings = "kubeconfigFile"

abbrev pub kubeconfig_file_content_settings : String
kubeconfig_file_content_settings = "kubeconfigContents"

abbrev pub use_service_account_settings : String
use_service_account_settings = "serviceAccount"

-- Every key of the first map is put into the second.
unfoldable pub put_each : Fields → Fields → Fields
put_each empty m = m
put_each (field key val settings) m = put_each settings (put_field key val m)

unfoldable pub base_to_spinnaker_settings : {K : Type 0} → Account K → Fields
unfolding put_each
base_to_spinnaker_settings a = put_each a.settings (field "name" (string a.name) empty)

module _ {K E : Type 0} where
  abbrev of_env :
      SpinnakerAccount K
      → KubernetesAuth K
      → Result SourceError Env
      → Result (AccountError E) (Account K)
  of_env account auth (ok env) =
      ok (record { name = account.name; auth = some auth; env = env; settings = account.settings })
  of_env account auth (err e) = err (bad_settings e)
  of_env account auth panic = panic

  unfoldable pub from_crd : SpinnakerAccount K → Result (AccountError E) (Account K)
  unfolding source_env
  from_crd account = elim account.kubernetes [
    | none ↦ err no_kubernetes_defined
    | some auth ↦ of_env account auth (source_env account.settings)
  ]

module _ {K E : Type 0} (kube : Kube K E) where
  -- The context of secrets is the state.
  abbrev C : Type 0 → Type 0
  C A = Io (Option SecretContext) (AccountError E) A

  abbrev with_file : String → KubernetesAuth K
  with_file f = record no_auth { kubeconfig_file = f }

  abbrev decoded_file :
      Option SecretContext × String × Option (DecodeError E)
      → Option SecretContext × Result (AccountError E) (KubernetesAuth K)
  decoded_file (ctx, f, none) = (ctx, ok (with_file f))
  decoded_file (ctx, f, some e) = (ctx, err (cannot_decode e))

  abbrev auth_from_file : Value → C (KubernetesAuth K)
  auth_from_file (string f) ctx =
      if kube.engines.is_encrypted_secret f
      then decoded_file (decode_as_file kube.engines kube.exists ctx f)
      else (ctx, ok (with_file f))
  auth_from_file v ctx = (ctx, err (not_string kubeconfig_file_settings))

  abbrev auth_from_service_account : Value → Result (AccountError E) (KubernetesAuth K)
  auth_from_service_account (bool b) = ok (record no_auth { use_service_account = b })
  auth_from_service_account v = err (not_boolean use_service_account_settings)

  abbrev parsed : E ⊎ K → Result (AccountError E) (KubernetesAuth K)
  parsed (inl e) = err (library e)
  parsed (inr c) = ok (record no_auth { kubeconfig = some c })

  abbrev auth_from_content : Value → Result (AccountError E) (KubernetesAuth K)
  auth_from_content (string s) = parsed (kube.unmarshal s)
  auth_from_content v = err (not_string kubeconfig_file_content_settings)

  -- The first of the three keys that is there decides, whatever it holds.
  abbrev auth_from : Option Value → Option Value → Option Value → C (KubernetesAuth K)
  auth_from (some v) account contents ctx = auth_from_file v ctx
  auth_from none (some v) contents ctx = (ctx, auth_from_service_account v)
  auth_from none none (some v) ctx = (ctx, auth_from_content v)
  auth_from none none none ctx = (ctx, err nothing_found)

  unfoldable pub auth_from_spinnaker_config : Fields → C (KubernetesAuth K)
  unfolding decode_as_file
  auth_from_spinnaker_config settings =
      auth_from (get_field kubeconfig_file_settings settings)
        (get_field use_service_account_settings settings)
        (get_field kubeconfig_file_content_settings settings)

  abbrev named : Option Value → Result (AccountError E) String
  named none = err missing_name
  named (some (string s)) = ok s
  named (some v) = err name_not_string

  abbrev of_auth : Fields → String → KubernetesAuth K → C (Account K)
  of_auth settings name auth =
      returned (ok (record { name = name; auth = some auth; env = no_env; settings = settings }))

  abbrev of_name : Fields → String → C (Account K)
  of_name settings name = auth_from_spinnaker_config settings >>= of_auth settings name

  unfoldable pub from_spinnaker_config : Fields → C (Account K)
  unfolding auth_from_spinnaker_config
  from_spinnaker_config settings = returned (named (get_field "name" settings)) >>= of_name settings

  abbrev content : Option String → Result (AccountError E) String
  content (some d) = ok d
  content none = err secret_not_found

  abbrev data_of : String → E ⊎ Dict String → Result (AccountError E) String
  data_of key (inl e) = err (library e)
  data_of key (inr d) = content (lookup key d)

  -- `util.GetSecretContent`
  unfoldable pub get_secret_content : String → String → String → Result (AccountError E) String
  get_secret_content namespace name key = data_of key (kube.get_secret namespace name)

  abbrev put_text :
      Fields → String → Result (AccountError E) String → Result (AccountError E) Fields
  put_text m key (ok s) = ok (put_field key (string s) m)
  put_text m key (err e) = err e
  put_text m key panic = panic

  abbrev marshalled : E ⊎ String → Result (AccountError E) String
  marshalled (inl e) = err (library e)
  marshalled (inr s) = ok s

  abbrev secret_of : Option SecretContext → SecretReference → Result (AccountError E) String
  secret_of none ref = err no_secret_context
  secret_of (some c) ref = get_secret_content c.namespace ref.name ref.key

  abbrev from_secret_or_account :
      Option SecretContext → KubernetesAuth K → Fields → Result (AccountError E) Fields
  from_secret_or_account ctx auth m = elim auth.kubeconfig_secret [
    | some ref ↦ put_text m kubeconfig_file_content_settings (secret_of ctx ref)
    | none ↦
        if auth.use_service_account
        then ok (put_field use_service_account_settings (bool true) m)
        else err not_implemented
  ]

  unfoldable pub kube_auth_to_spinnaker_settings :
      Option SecretContext → KubernetesAuth K → Fields → Result (AccountError E) Fields
  unfolding get_secret_content
  kube_auth_to_spinnaker_settings ctx auth m =
      if not (is_empty auth.kubeconfig_file)
      then ok (put_field kubeconfig_file_settings (string auth.kubeconfig_file) m)
      else elim auth.kubeconfig [
        | some c ↦ put_text m kubeconfig_file_content_settings (marshalled (kube.marshal c))
        | none ↦ from_secret_or_account ctx auth m
      ]

  unfoldable pub to_spinnaker_settings :
      Option SecretContext → Account K → Result (AccountError E) Fields
  unfolding base_to_spinnaker_settings kube_auth_to_spinnaker_settings
  to_spinnaker_settings ctx a = elim a.auth [
    | none ↦ ok (base_to_spinnaker_settings a)
    | some auth ↦
        kube_auth_to_spinnaker_settings ctx auth
          (put_field "providerVersion" (string "V2") (base_to_spinnaker_settings a))
  ]

-- The settings of a provider whose name is `kubernetes` in any case, or else those of all.
unfoldable pub setting_of : String → Dict ValidationSetting → Option ValidationSetting
unfolding lower_is
setting_of name [] = none
setting_of name ((n, s) ∷ more) =
    let rest = setting_of name more in if lower_is n name then some s else rest

unfoldable pub kubernetes_validation_settings : SpinnakerValidation → ValidationSetting
unfolding setting_of get_validation_settings
kubernetes_validation_settings v = elim (setting_of "kubernetes" v.providers) [
  | some s ↦ s
  | none ↦ get_validation_settings v
]
