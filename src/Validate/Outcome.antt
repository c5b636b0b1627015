-- ===== src/Validate/Outcome.antt =====
-- pkg/validate/validate.go: the results of validations.
use spinnaker_operator.Base.{Bool, true, false, ◌&&◌, ◌||◌, List, [], ◌∷◌, ◌++◌}

-- `P` is a patch of the status.
pub record ValidationResult (E P : Type 0) : Type 0 where
  pub errors : List E
  pub fatal : Bool
  pub status_patches : List P

-- The loop of `Merge` that appends the other's errors one by one.
abbrev pub append_each : {E : Type 0} → List E → List E → List E
append_each errors [] = errors
append_each errors (e ∷ es) = append_each (errors ++ e ∷ []) es

module _ {E P : Type 0} where
  abbrev pub no_result : ValidationResult E P
  no_result = record { errors = []; fatal = false; status_patches = [] }

  abbrev pub new_result_from_errors : List E → Bool → ValidationResult E P
  new_result_from_errors e fatal = record { errors = e; fatal = fatal; status_patches = [] }

  unfoldable pub merge_results : ValidationResult E P → ValidationResult E P → ValidationResult E P
  merge_results r other = record {
    errors = append_each r.errors other.errors;
    fatal = r.fatal || other.fatal;
    status_patches = r.status_patches ++ other.status_patches;
  }

  unfoldable pub has_errors : ValidationResult E P → Bool
  has_errors r = elim r.errors [ [] ↦ false | e ∷ es ↦ true ]

  unfoldable pub has_fatal_errors : ValidationResult E P → Bool
  unfolding has_errors
  has_fatal_errors r = has_errors r && r.fatal
