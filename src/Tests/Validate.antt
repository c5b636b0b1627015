-- ===== src/Tests/Validate.antt =====
-- The parallel validation, at a concrete schedule.
use mathlib.Core.List.{Perm}
use spinnaker_operator.Base.{String, true, false, ◌≡◌, refl, List, [], ◌∷◌}
use spinnaker_operator.Validate.Outcome.{new_result_from_errors}
use spinnaker_operator.Validate.Parallel.{
  Validator, State, started, received, receive, finish, Run, here, next,
}
use spinnaker_operator.Validate.Parallel.AllResults.{all_errors, any_fatal, Run-result}

abbrev version_validator : Validator String String
version_validator seen = new_result_from_errors ("no such version" ∷ []) true

abbrev docker_validator : Validator String String
docker_validator seen = new_result_from_errors ("no such registry" ∷ []) false

abbrev both : List (Validator String String)
both = version_validator ∷ docker_validator ∷ []

-- The second validator is first, and the first one fails the validation.
abbrev one_received : State String String
one_received = received true (started both) (version_validator ∷ []) (docker_validator false)

abbrev all_received : State String String
all_received = received true one_received [] (version_validator false)

first_pass : Run true (started both) 1 one_received
first_pass =
    next here (receive (version_validator ∷ []) [] docker_validator false refl refl refl refl)

all_passes : Run true (started both) 3 (record all_received { done = true })
unfolding received
all_passes =
    next (next first_pass (receive [] [] version_validator false refl refl refl refl))
      (finish refl refl refl)

Run-result_example :
    Perm (record all_received { done = true }).result.errors (all_errors both)
    × ((record all_received { done = true }).result.fatal ≡ any_fatal both)
Run-result_example =
    Run-result true both 3 (record all_received { done = true }) (refl, (refl, tt)) all_passes refl
