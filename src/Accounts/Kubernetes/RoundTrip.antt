-- ===== src/Accounts/Kubernetes/RoundTrip.antt =====
-- pkg/accounts/kubernetes/parse.go: accounts written to settings and read back.
use spinnaker_operator.Base.{
  ap, sym, String, true, false, ◌≡◌, refl, ◌∙◌, inr, Option, none, some, arith, ◌=ₛ◌, if◌then◌else◌,
}
use spinnaker_operator.Base.Text.{is_empty}
use spinnaker_operator.Base.Io.{go_on}
use spinnaker_operator.Base.Result.{Result, ok, err}
use spinnaker_operator.Inspect.Value.{
  Value, bool, string, Fields, empty, field, get_field, put_field,
}
use spinnaker_operator.Inspect.Fields.{get_field-put_field, get_field-put_field_self}
use spinnaker_operator.Secrets.Context.{SecretContext}
use spinnaker_operator.Accounts.Env.{no_env}
use spinnaker_operator.Accounts.Kubernetes.{
  KubernetesAuth, no_auth, Account, AccountError, not_implemented, Kube, kubeconfig_file_settings,
  kubeconfig_file_content_settings, use_service_account_settings, of_auth,
  auth_from_spinnaker_config, from_spinnaker_config, put_each, base_to_spinnaker_settings,
  kube_auth_to_spinnaker_settings, to_spinnaker_settings,
}

-- The ways to authenticate that have settings of their own.
pub data Method (K : Type 0) : Type 0 where
  file : String → Method K
  inline : K → Method K
  service_account : Method K

abbrev pub auth_of : {K : Type 0} → Method K → KubernetesAuth K
auth_of (file f) = record no_auth { kubeconfig_file = f }
auth_of (inline c) = record no_auth { kubeconfig = some c }
auth_of service_account = record no_auth { use_service_account = true }

get_field-put_each :
    (key : String) (settings m : Fields)
    → get_field key settings ≡ none
    → get_field key (put_each settings m) ≡ get_field key m
unfolding put_each get_field
get_field-put_each key empty m h = refl
get_field-put_each key (field k v settings) m h =
    ground (arith, get_field-put_each key settings (put_field k v m), get_field-put_field k key v m)

module _ {K E : Type 0} (kube : Kube K E) where
  -- The settings do not get in the way of the method, and YAML is read as it was written.
  abbrev pub IsReadable : Fields → Method K → Type 0
  IsReadable settings (file f) = (is_empty f ≡ false) × (kube.engines.is_encrypted_secret f ≡ false)
  IsReadable settings (inline c) =
      (s : String) × (kube.marshal c ≡ inr s)
      × (kube.unmarshal s ≡ inr c)
      × (get_field kubeconfig_file_settings settings ≡ none)
      × (get_field use_service_account_settings settings ≡ none)
  IsReadable settings service_account = get_field kubeconfig_file_settings settings ≡ none

  -- The settings before the method is added, at a key that the account has none for.
  abbrev before : Account K → Fields
  before a = put_field "providerVersion" (string "V2") (base_to_spinnaker_settings a)

  get_field-before :
      (a : Account K) (key : String)
      → get_field key a.settings ≡ none
      → get_field key (before a) ≡ (
          if "providerVersion" =ₛ key
          then some (string "V2")
          else get_field key (field "name" (string a.name) empty))
  unfolding base_to_spinnaker_settings
  get_field-before a key h = rw (
    get_field-put_field "providerVersion" key (string "V2")
        (put_each a.settings (field "name" (string a.name) empty)),
    get_field-put_each key a.settings (field "name" (string a.name) empty) h,
  )

  name-before :
      (a : Account K) (key : String) (v : Value)
      → get_field "name" a.settings ≡ none
      → (key =ₛ "name") ≡ false
      → get_field "name" (put_field key v (before a)) ≡ some (string a.name)
  unfolding get_field ◌=ₛ◌
  name-before a key v h other =
      rw (get_field-put_field key "name" v (before a), other, get_field-before a "name" h) refl

  to-auth :
      (ctx : Option SecretContext) (a : Account K) (auth : KubernetesAuth K)
      → a.auth ≡ some auth
      → to_spinnaker_settings kube ctx a ≡ kube_auth_to_spinnaker_settings kube ctx auth (before a)
  unfolding to_spinnaker_settings
  to-auth ctx a auth e =
      ap {A = Option (KubernetesAuth K)} {B = Result (AccountError E) Fields}
        (λ o. elim o [
          | none ↦ ok (base_to_spinnaker_settings a)
          | some auth ↦ kube_auth_to_spinnaker_settings kube ctx auth (before a)
        ])
        e

  -- A key other than the method's and `providerVersion` is absent where the account's settings lack it.
  absent :
      (a : Account K) (key other : String) (v : Value)
      → get_field other a.settings ≡ none
      → (key =ₛ other) ≡ false
      → ("providerVersion" =ₛ other) ≡ false
      → get_field other (field "name" (string a.name) empty) ≡ none
      → get_field other (put_field key v (before a)) ≡ none
  absent a key other v h ne ne' last =
      rw (get_field-put_field key other v (before a), ne, get_field-before a other h, ne') last

  abbrev key_of : Method K → String
  key_of (file f) = kubeconfig_file_settings
  key_of (inline c) = kubeconfig_file_content_settings
  key_of service_account = use_service_account_settings

  abbrev settings_with : Account K → Method K → Value → Fields
  settings_with a m v = put_field (key_of m) v (before a)

  -- What is written for a method is read as that method.
  written :
      (m : Method K) (ctx : Option SecretContext) (a : Account K)
      → IsReadable a.settings m
      → (v : Value) × (kube_auth_to_spinnaker_settings kube ctx (auth_of m) (before a)
          ≡ ok (settings_with a m v))
        × (auth_from_spinnaker_config kube (settings_with a m v) ctx ≡ (ctx, ok (auth_of m)))
  unfolding kube_auth_to_spinnaker_settings auth_from_spinnaker_config ◌=ₛ◌ is_empty get_field
  written (file f) ctx a r = (
    string f,
    rw (r.0) refl,
    rw (get_field-put_field_self kubeconfig_file_settings (string f) (before a), r.1) refl,
  )
  written (inline c) ctx a (s, marshalled, unmarshalled, no_file, no_account) = (
    string s,
    rw marshalled refl,
    rw
        (
          absent a kubeconfig_file_content_settings kubeconfig_file_settings (string s) no_file refl
              refl refl,
          absent a kubeconfig_file_content_settings use_service_account_settings (string s)
              no_account refl refl refl,
          get_field-put_field_self kubeconfig_file_content_settings (string s) (before a),
          unmarshalled,
        )
        refl,
  )
  written service_account ctx a no_file = (
    bool true,
    refl,
    rw
        (
          absent a use_service_account_settings kubeconfig_file_settings (bool true) no_file refl
              refl refl,
          get_field-put_field_self use_service_account_settings (bool true) (before a),
        )
        refl,
  )

  -- The name, written and read: the account's settings have none of their own.
  read_name :
      (a : Account K) (m : Method K) (v : Value) (ctx : Option SecretContext)
      → get_field "name" a.settings ≡ none
      → from_spinnaker_config kube (settings_with a m v) ctx
        ≡ go_on
            (of_auth kube (settings_with a m v) a.name)
            (auth_from_spinnaker_config kube (settings_with a m v) ctx)
  unfolding from_spinnaker_config ◌=ₛ◌
  read_name a (file f) v ctx h = rw (name-before a kubeconfig_file_settings v h refl) refl
  read_name a (inline c) v ctx h = rw (name-before a kubeconfig_file_content_settings v h refl) refl
  read_name a service_account v ctx h =
      rw (name-before a use_service_account_settings v h refl) refl

  -- An account that authenticates by a file, an inlined kubeconfig or a service account, written to
  -- Spinnaker's settings and read from them, is an account of the same name and authentication, with
  -- what was written as its settings. The file is no secret reference, the kubeconfig is read by YAML as
  -- it was written, and the account's own settings have no name and no key that is read before that of
  -- its method.
  pub from_spinnaker_config-to_spinnaker_settings :
      (a : Account K) (m : Method K) (ctx : Option SecretContext)
      → a.auth ≡ some (auth_of m)
      → get_field "name" a.settings ≡ none
      → IsReadable a.settings m
      → (s : Fields) × (to_spinnaker_settings kube ctx a ≡ ok s)
        × (from_spinnaker_config kube s ctx
            ≡ (ctx, ok (record { name = a.name; auth = a.auth; env = no_env; settings = s })))
  from_spinnaker_config-to_spinnaker_settings a m ctx e unnamed readable =
      let (v, to, from) = written m ctx a readable in
      (
        settings_with a m v,
        to-auth ctx a (auth_of m) e ∙ to,
        read_name a m v ctx unnamed
            ∙ ap (go_on (of_auth kube (settings_with a m v) a.name)) from
            ∙ ap
                (λ (o : Option (KubernetesAuth K)). (
                  ctx,
                  ok (record {
                    name = a.name;
                    auth = o;
                    env = no_env;
                    settings = settings_with a m v;
                  }),
                ))
                (sym e),
      )

  -- Settings in which `serviceAccount` is false, and no kubeconfig file is given, are read as an account
  -- that cannot authenticate, also where they have the contents of a kubeconfig: its settings cannot
  -- be written.
  to_spinnaker_settings-no_service_account :
      (settings : Fields) (name : String) (ctx : Option SecretContext)
      → get_field "name" settings ≡ some (string name)
      → get_field kubeconfig_file_settings settings ≡ none
      → get_field use_service_account_settings settings ≡ some (bool false)
      → (a : Account K) × (from_spinnaker_config kube settings ctx ≡ (ctx, ok a))
        × (to_spinnaker_settings kube ctx a ≡ err not_implemented)
  unfolding from_spinnaker_config auth_from_spinnaker_config to_spinnaker_settings
      kube_auth_to_spinnaker_settings is_empty
  to_spinnaker_settings-no_service_account settings name ctx named no_file denied = (
    record { name = name; auth = some no_auth; env = no_env; settings = settings },
    rw (named, no_file, denied) refl,
    refl,
  )
