-- ===== src/Tests/Webhook.antt =====
-- The admission webhooks, at concrete inputs.
use mathlib.Core.List.{Perm}
use spinnaker_operator.Base.{String, true, false, ◌≡◌, refl, inr, none, [], ◌∷◌, ◌=ₛ◌}
use spinnaker_operator.Validate.Outcome.{new_result_from_errors}
use spinnaker_operator.Validate.Parallel.{
  Validator, State, started, received, receive, finish, Run, here, next,
}
use spinnaker_operator.Validate.All.{create}
use spinnaker_operator.Webhook.Service.{Gvk, AdmissionResponse, denied, is_spinnaker_request}
use spinnaker_operator.Webhook.Service.Denied.{handle-Run}
use spinnaker_operator.Tests.Fixtures.{spinnaker}

abbrev services : Gvk
services = record { kind = "SpinnakerService"; group = "spinnaker.io"; version = "v1alpha2" }

abbrev version_warning : Validator String String
version_warning seen = new_result_from_errors ("no such version" ∷ []) false

abbrev after_warning : State String String
after_warning = received false (started (version_warning ∷ [])) [] (version_warning false)

warned : Run false (started (version_warning ∷ [])) 2 (record after_warning { done = true })
unfolding received
warned =
    next (next here (receive [] [] version_warning false refl refl refl refl))
      (finish refl refl refl)

-- An error that is not fatal.
handle-Run_example :
    (spinnaker_operator.Webhook.Service.handle {F = String} services services
        (inr spinnaker)
        create
        (λ ps. none)
        (λ s. after_warning.result)
      ≡ denied ("no such version" ∷ []))
    × Perm after_warning.result.errors ("no such version" ∷ [])
unfolding received ◌=ₛ◌ is_spinnaker_request
handle-Run_example =
    handle-Run services services spinnaker create (λ ps. none) false (version_warning ∷ []) 2
      (record after_warning { done = true }) refl (λ ps. refl) (refl, tt) warned refl
