-- ===== src/Validate/All.antt =====
-- pkg/validate/validate.go (`ValidateAll`), single_namespace.go, version.go and hal_validation.go: the
-- validators of a SpinnakerService, and which of them are run.
use spinnaker_operator.Base.{
  String, Bool, true, false, ◌⊎◌, inl, inr, Option, none, some, List, [], ◌∷◌, ◌++◌, if◌then◌else◌,
}
use spinnaker_operator.Secrets.Context.{SecretContext}
use spinnaker_operator.Secrets.Decode.{Engines}
use spinnaker_operator.Config.{PropError, get_hal_config_prop_string}
use spinnaker_operator.Api.Types.{SpinnakerService}
use spinnaker_operator.Validate.Outcome.{ValidationResult, no_result, new_result_from_errors}
use spinnaker_operator.Validate.Parallel.{Validator}
use spinnaker_operator.Validate.Accounts.{Patch}

-- The operation of an admission request.
pub data Operation : Type 0 where
  create update delete connect : Operation

pub data ValidateError (E : Type 0) : Type 0 where
  not_listed : E → ValidateError E
  not_unique : ValidateError E
  no_version : PropError E → ValidateError E
  bad_version : String → E → List String → ValidateError E
  no_versions : String → E → E → ValidateError E
  halyard : E → ValidateError E
  no_validations : E → ValidateError E
  account_error registry_error : String → E → ValidateError E

abbrev pub from_error :
    {E : Type 0} → ValidateError E → Bool → ValidationResult (ValidateError E) Patch
from_error e fatal = new_result_from_errors (e ∷ []) fatal

-- `items` is how the client lists the namespace; `GetItems` gives as many as were listed.
unfoldable pub single_namespace_validator :
    {E S : Type 0} → Operation → E ⊎ List S → ValidationResult (ValidateError E) Patch
single_namespace_validator create (inl e) = from_error (not_listed e) true
single_namespace_validator create (inr []) = no_result
single_namespace_validator create (inr (s ∷ more)) = from_error not_unique true
single_namespace_validator other items = no_result

-- Halyard, as the validators call it.
pub record Halyard (E : Type 0) : Type 0 where
  pub get_bom : String → Option E
  pub get_all_versions : E ⊎ List String
  pub validate : SpinnakerService → Option E

module _ {E : Type 0} (eng : Engines E) (hal : Halyard E) where
  unfoldable pub handle_bom_error : String → E → ValidationResult (ValidateError E) Patch
  handle_bom_error version e = elim hal.get_all_versions [
    | inl err_all ↦ from_error (no_versions version e err_all) false
    | inr all ↦ from_error (bad_version version e all) false
  ]

  abbrev bom_checked : String → Option E → ValidationResult (ValidateError E) Patch
  bom_checked version none = no_result
  bom_checked version (some e) = handle_bom_error version e

  abbrev version_read :
      Option SecretContext × String × Option (PropError E)
      → Option SecretContext × ValidationResult (ValidateError E) Patch
  version_read (ctx, version, some e) = (ctx, from_error (no_version e) true)
  version_read (ctx, version, none) = (ctx, bom_checked version (hal.get_bom version))

  unfoldable pub version_validator :
      SpinnakerService
      → Option SecretContext
      → Option SecretContext × ValidationResult (ValidateError E) Patch
  unfolding handle_bom_error get_hal_config_prop_string
  version_validator spin ctx =
      version_read (get_hal_config_prop_string eng ctx spin.spinnaker_config "version")

  unfoldable pub hal_validator : SpinnakerService → ValidationResult (ValidateError E) Patch
  hal_validator spin = elim (hal.validate spin) [
    | none ↦ no_result
    | some e ↦ from_error (halyard e) true
  ]

-- A validation ends at once, or runs the validators at the same time.
pub data Plan (E P : Type 0) : Type 0 where
  ended : ValidationResult (ValidateError E) P → Plan E P
  in_parallel : List (Validator (ValidateError E) P) → Plan E P

module _ {E P : Type 0} where
  -- The validators of the accounts, those of `ParallelValidators`, and Halyard's.
  unfoldable pub generate_parallel_validators :
      E ⊎ List (Validator (ValidateError E) P)
      → List (Validator (ValidateError E) P)
      → Validator (ValidateError E) P
      → E ⊎ List (Validator (ValidateError E) P)
  generate_parallel_validators (inl e) parallel hal = inl e
  generate_parallel_validators (inr vs) parallel hal = inr (vs ++ (parallel ++ hal ∷ []))

  abbrev planned : E ⊎ List (Validator (ValidateError E) P) → Plan E P
  planned (inl e) = ended (new_result_from_errors (no_validations e ∷ []) true)
  planned (inr vs) = in_parallel vs

  unfoldable pub validate_all :
      ValidationResult (ValidateError E) P
      → E ⊎ List (Validator (ValidateError E) P)
      → List (Validator (ValidateError E) P)
      → Validator (ValidateError E) P
      → Plan E P
  unfolding generate_parallel_validators
  validate_all single accounts parallel hal =
      if single.fatal
      then ended single
      else planned (generate_parallel_validators accounts parallel hal)
