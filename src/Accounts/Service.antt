-- ===== src/Accounts/Service.antt =====
-- pkg/accounts/accounts.go and service.go: the types of accounts, and the settings that services get from
-- the accounts of a namespace.
pub mod Prepared
use spinnaker_operator.Base.{
  String, Bool, true, false, ◌⊎◌, inl, inr, Option, none, some, List, [], ◌∷◌, ◌++◌, ◌=ₛ◌, ◌||◌,
  any, map, if◌then◌else◌,
}
use spinnaker_operator.Base.Io.{Io, go_on, returned}
use spinnaker_operator.Base.Result.{Result, ok, err, panic, ◌>>=◌}
use spinnaker_operator.Inspect.Value.{Value, slice, Fields, empty, Error, of_list}
use spinnaker_operator.Inspect.Setter.{set_object_prop}
use spinnaker_operator.Secrets.Context.{SecretContext}
use spinnaker_operator.Api.Items.{get_items}
use spinnaker_operator.Api.Types.{SpinnakerValidation, ValidationSetting}
use spinnaker_operator.Accounts.Kubernetes.{
  Account, SpinnakerAccount, Kube, AccountError, bad_property, from_crd, from_spinnaker_config,
  to_spinnaker_settings, kubernetes_validation_settings,
}

abbrev pub spring_profile : String
spring_profile = "accounts"

-- `SpinnakerAccountType`
pub record AccountType (K E : Type 0) : Type 0 where
  pub type : String
  pub accounts_key : String
  pub config_accounts_key : String
  pub services : List String
  pub from_crd : SpinnakerAccount K → Result (AccountError E) (Account K)
  pub from_spinnaker_config : Fields → Io (Option SecretContext) (AccountError E) (Account K)
  pub get_validation_settings : SpinnakerValidation → ValidationSetting

unfoldable pub found_in : String → List String → Bool
found_in obj list = any (λ s. s =ₛ obj) list

-- Each service once, as the keys of a map.
unfoldable pub add_services : List String → List String → List String
unfolding found_in
add_services [] m = m
add_services (s ∷ ss) m =
    let rest = add_services ss (m ++ s ∷ []) in
    let skipped = add_services ss m in if found_in s m then skipped else rest

-- The only type of an account is `Kubernetes`.
abbrev account_type : {K : Type 0} → Account K → String
account_type a = "Kubernetes"

-- The zero value of a resource.
abbrev blank : {K : Type 0} → SpinnakerAccount K
blank = record { name = ""; enabled = false; type = ""; kubernetes = none; settings = empty }

module _ {K E : Type 0} where
  -- The type `Kubernetes`.
  abbrev pub kubernetes_type : Kube K E → AccountType K E
  kubernetes_type kube = record {
    type = "Kubernetes";
    accounts_key = "kubernetes.accounts";
    config_accounts_key = "providers.kubernetes.accounts";
    services = "clouddriver" ∷ [];
    from_crd = from_crd;
    from_spinnaker_config = from_spinnaker_config kube;
    get_validation_settings = kubernetes_validation_settings;
  }

  -- What `init` registers.
  abbrev pub types : Kube K E → List (AccountType K E)
  types kube = kubernetes_type kube ∷ []

  unfoldable pub get_type : String → List (AccountType K E) → Option (AccountType K E)
  get_type tp [] = none
  get_type tp (t ∷ ts) = let rest = get_type tp ts in if t.type =ₛ tp then some t else rest

  abbrev with_account :
      Result (AccountError E) (Account K)
      → Result (AccountError E) (List (Account K))
      → Result (AccountError E) (List (Account K))
  with_account (ok acc) rest = rest >>= λ accounts. ok (acc ∷ accounts)
  with_account (err e) rest = err e
  with_account panic rest = panic

  -- The accounts that are enabled, and of a known type.
  unfoldable pub valid_accounts :
      List (AccountType K E)
      → List (SpinnakerAccount K)
      → Result (AccountError E) (List (Account K))
  unfolding get_type
  valid_accounts ts [] = ok []
  valid_accounts ts (a ∷ more) =
      let rest = valid_accounts ts more in
      if a.enabled
      then elim (get_type a.type ts) [ none ↦ rest | some t ↦ with_account (t.from_crd a) rest ]
      else rest

  abbrev listed :
      List (AccountType K E)
      → E ⊎ List (SpinnakerAccount K)
      → E ⊎ Result (AccountError E) (List (Account K))
  listed ts (inl e) = inl e
  listed ts (inr items) = inr (valid_accounts ts (get_items blank items))

  -- The list of the resources in the namespace, or the client's error.
  unfoldable pub all_valid_crd_accounts :
      List (AccountType K E)
      → E ⊎ List (SpinnakerAccount K)
      → E ⊎ Result (AccountError E) (List (Account K))
  unfolding valid_accounts get_items
  all_valid_crd_accounts ts answer = listed ts answer

  abbrev kept :
      Bool
      → Io (Option SecretContext) (AccountError E) (List (Account K))
      → Option SecretContext × Result (AccountError E) (Account K)
      → Option SecretContext × Result (AccountError E) (List (Account K))
  kept ignore_invalid rest (ctx, ok a) = go_on (λ ar. returned (ok (a ∷ ar))) (rest ctx)
  kept ignore_invalid rest (ctx, err e) = if ignore_invalid then rest ctx else (ctx, err e)
  kept ignore_invalid rest (ctx, panic) = (ctx, panic)

  unfoldable pub from_spinnaker_config_slice :
      AccountType K E
      → List Fields
      → Bool
      → Io (Option SecretContext) (AccountError E) (List (Account K))
  from_spinnaker_config_slice t [] ignore_invalid ctx = (ctx, ok [])
  from_spinnaker_config_slice t (s ∷ ss) ignore_invalid ctx =
      kept ignore_invalid (from_spinnaker_config_slice t ss ignore_invalid)
        (t.from_spinnaker_config s ctx)

  unfoldable pub add_all_services : List (AccountType K E) → List String → List String
  unfolding add_services
  add_all_services [] m = m
  add_all_services (t ∷ ts) m = add_all_services ts (add_services t.services m)

  unfoldable pub get_all_services_with_accounts : List (AccountType K E) → List String
  unfolding add_all_services
  get_all_services_with_accounts ts = add_all_services ts []

module _ {K E : Type 0} (kube : Kube K E) (ctx : Option SecretContext) where
  unfoldable pub settings_of : String → List (Account K) → Result (AccountError E) (List Fields)
  unfolding to_spinnaker_settings
  settings_of tp [] = ok []
  settings_of tp (a ∷ accounts) =
      let rest = settings_of tp accounts in
      if account_type a =ₛ tp
      then (to_spinnaker_settings kube ctx a >>= λ m. (rest >>= λ ms. ok (m ∷ ms)))
      else rest

  abbrev written : Value × Result Error (Unit {0}) → Result (AccountError E) Fields
  written (Value.map ss, ok u) = ok ss
  written (v, ok u) = ok empty
  written (v, err e) = err (bad_property e)
  written (v, panic) = panic

  -- Nothing is written for a type without accounts.
  abbrev with_accounts : Fields → String → List Fields → Result (AccountError E) Fields
  with_accounts ss key [] = ok ss
  with_accounts ss key (m ∷ ms) =
      written (set_object_prop ss key (slice (of_list (map Value.map (m ∷ ms)))))

  -- The types are the ones registered, so that `GetType` finds each of them.
  unfoldable pub prepare_types :
      String → List (Account K) → List (AccountType K E) → Fields → Result (AccountError E) Fields
  unfolding settings_of found_in set_object_prop
  prepare_types svc accounts [] ss = ok ss
  prepare_types svc accounts (t ∷ ts) ss =
      let skipped = prepare_types svc accounts ts ss in
      let gathered : Result (AccountError E) Fields = settings_of t.type accounts >>= (λ a_settings.
        with_accounts ss t.accounts_key a_settings >>= prepare_types svc accounts ts) in
      if found_in svc t.services then gathered else skipped

  unfoldable pub prepare_settings : String → List (Account K) → Result (AccountError E) Fields
  unfolding prepare_types
  prepare_settings svc accounts = prepare_types svc accounts (types kube) empty
