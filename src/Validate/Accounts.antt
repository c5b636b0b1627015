-- ===== src/Validate/Accounts.antt =====
-- pkg/validate/accounts.go: which accounts are to be validated, and what a validation leaves in the status.
pub mod Due
use spinnaker_operator.Base.{
  String, Bool, true, false, ◌⊎◌, inl, inr, Option, none, some, List, [], ◌∷◌, ◌++◌, not, ◌||◌,
  ◌&&◌, ◌=ₛ◌, if◌then◌else◌,
}
use spinnaker_operator.Base.Dict.{Dict, lookup}
use spinnaker_operator.Base.Text.{append}
use spinnaker_operator.Base.Io.{Io, ◌>>=◌, go_on, returned}
use spinnaker_operator.Base.Result.{Result, ok, err, panic}
use spinnaker_operator.Inspect.Value.{Value, map, Fields, empty, Error}
use spinnaker_operator.Inspect.Getter.{get_object_array}
use spinnaker_operator.Secrets.Context.{SecretContext}
use spinnaker_operator.Config.{SpinnakerConfig, get_hal_config_object_array}
use spinnaker_operator.Api.Types.{
  Time, ValidationSetting, HashStatus, SpinnakerService, SpinnakerServiceStatus,
}
use spinnaker_operator.Api.Hash.{get_hash, needs_validation, is_fatal}
use spinnaker_operator.Accounts.Kubernetes.{Account, AccountError, Kube}
use spinnaker_operator.Accounts.Service.{AccountType, types, from_spinnaker_config_slice}
use spinnaker_operator.Validate.Outcome.{ValidationResult, new_result_from_errors}

-- `v` is the account that the validator was made for.
pub record AccountValidator (K : Type 0) : Type 0 where
  pub v : Account K
  pub key : String
  pub hash : String
  pub t : Time
  pub name : String
  pub fatal : Bool

-- A JSON patch of the operation `replace`.
pub record Patch : Type 0 where
  pub path : String
  pub value : HashStatus

unfoldable pub get_hash_patch : String → String → Time → Patch
get_hash_patch key hash t = record {
  path = append "/status/lastDeployed/" key;
  value = record { hash = hash; last_updated_at = t };
}

unfoldable pub get_validation_hash_key : {K : Type 0} → Account K → String
get_validation_hash_key a = append "account-" (append "Kubernetes" (append "-" a.name))

-- What a validator's account gives, and what the validation makes of it.
unfoldable pub account_validation :
    {K F : Type 0} → AccountValidator K → Option F → ValidationResult (String × F) Patch
unfolding get_hash_patch
account_validation a (some e) = new_result_from_errors ((a.name, e) ∷ []) a.fatal
account_validation a none = record {
  errors = [];
  fatal = false;
  status_patches = get_hash_patch a.key a.hash a.t ∷ [];
}

-- A call that may decode secrets.
abbrev Call : Type 0 → Type 0 → Type 0
Call E A = Io (Option SecretContext) (AccountError E) A

abbrev found : {E A : Type 0} → Call E A → Call E (Option A)
found m = m >>= λ a. returned (ok (some a))

abbrev or_no_accounts : {K E : Type 0} → Option (List (Account K)) → Call E (List (Account K))
or_no_accounts none = returned (ok [])
or_no_accounts (some acc) = returned (ok acc)

module _ {K E : Type 0} where
  -- `none` is nil: the next service, or the main config, is asked.
  abbrev in_array :
      AccountType K E
      → Result Error (List Fields)
      → Call E (Option (List (Account K)))
      → Call E (Option (List (Account K)))
  in_array t (ok arr) next = found (from_spinnaker_config_slice t arr false)
  in_array t (err e) next = next
  in_array t panic next = returned panic

  unfoldable pub get_accounts_from_profile :
      SpinnakerConfig → AccountType K E → List String → Call E (Option (List (Account K)))
  unfolding get_object_array from_spinnaker_config_slice
  get_accounts_from_profile cfg t [] = returned (ok none)
  get_accounts_from_profile cfg t (svc ∷ services) = elim (lookup svc cfg.profiles) [
    | none ↦ get_accounts_from_profile cfg t services
    | some p ↦
        in_array t (get_object_array (map p) t.config_accounts_key)
          (get_accounts_from_profile cfg t services)
  ]

  unfoldable pub get_accounts_from_config :
      SpinnakerConfig → AccountType K E → Call E (Option (List (Account K)))
  unfolding get_hal_config_object_array from_spinnaker_config_slice
  get_accounts_from_config cfg t =
      in_array t (get_hal_config_object_array cfg t.config_accounts_key) (returned (ok none))

  abbrev or_from_config :
      SpinnakerConfig → AccountType K E → Option (List (Account K)) → Call E (List (Account K))
  or_from_config cfg t (some acc) = returned (ok acc)
  or_from_config cfg t none = get_accounts_from_config cfg t >>= or_no_accounts

  unfoldable pub get_all_accounts : SpinnakerConfig → AccountType K E → Call E (List (Account K))
  unfolding get_accounts_from_profile get_accounts_from_config
  get_all_accounts cfg t = get_accounts_from_profile cfg t t.services >>= or_from_config cfg t

unfoldable pub is_due : SpinnakerServiceStatus → ValidationSetting → Time → String → String → Bool
unfolding get_hash needs_validation
is_due status v now k h = elim (get_hash k status) [
  | none ↦ true
  | some hc ↦ not (hc.hash =ₛ h) || needs_validation v hc.last_updated_at now
]

abbrev validator_for :
    {K : Type 0} → ValidationSetting → Time → String → Account K → AccountValidator K
validator_for v now h a = record {
  v = a;
  key = get_validation_hash_key a;
  hash = h;
  t = now;
  name = a.name;
  fatal = is_fatal v;
}

-- A library: the JSON of an object with these fields, hashed with MD5 and printed.
abbrev pub HashOf : Type 0 → Type 0
HashOf E = Fields → E ⊎ String

-- `BaseAccount` is a struct without fields, and its method is promoted to the accounts that embed it.
abbrev pub base_account : Fields
base_account = empty

module _ {K E : Type 0} (hash_of : HashOf E) where
  unfoldable pub get_account_hash : Account K → E ⊎ String
  get_account_hash a = hash_of base_account

  abbrev with_validator :
      SpinnakerServiceStatus
      → ValidationSetting
      → Time
      → Account K
      → String
      → List (AccountValidator K)
      → List (AccountValidator K)
  with_validator status v now a h rest =
      if is_due status v now (get_validation_hash_key a) h
      then validator_for v now h a ∷ rest
      else rest

  abbrev with_rest :
      (List (AccountValidator K) → List (AccountValidator K))
      → Result (AccountError E) (List (AccountValidator K))
      → Result (AccountError E) (List (AccountValidator K))
  with_rest f (ok vs) = ok (f vs)
  with_rest f (err e) = err e
  with_rest f panic = panic

  -- The validators of the accounts that are due, up to the first whose hash fails.
  unfoldable pub due_validators :
      SpinnakerServiceStatus
      → ValidationSetting
      → Time
      → List (Account K)
      → Result (AccountError E) (List (AccountValidator K))
  unfolding is_due is_fatal get_validation_hash_key get_account_hash
  due_validators status v now [] = ok []
  due_validators status v now (a ∷ accounts) =
      let rest = due_validators status v now accounts in
      elim (get_account_hash a) [
        | inl e ↦ err (AccountError.library e)
        | inr h ↦ with_rest (with_validator status v now a h) rest
      ]

  unfoldable pub validations_for :
      SpinnakerService → Time → List (AccountType K E) → Call E (List (AccountValidator K))
  unfolding get_all_accounts due_validators
  validations_for spin now [] = returned (ok [])
  validations_for spin now (t ∷ ts) =
      let v = t.get_validation_settings spin.validation in
      let rest = validations_for spin now ts in
      let of_type : Call E (List (AccountValidator K)) =
        get_all_accounts spin.spinnaker_config t >>= (λ accounts.
          returned (due_validators spin.status v now accounts) >>= λ vs.
          rest >>= λ more. returned (ok (vs ++ more))) in
      if v.enabled then of_type else rest

  unfoldable pub get_account_validations_for :
      Kube K E → SpinnakerService → Time → Call E (List (AccountValidator K))
  unfolding validations_for
  get_account_validations_for kube spin now = validations_for spin now (types kube)
