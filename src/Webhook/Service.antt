-- ===== src/Webhook/Service.antt =====
-- pkg/controller/spinnakervalidating: the admission of SpinnakerServices.
pub mod Denied
use spinnaker_operator.Base.{
  String, Bool, true, false, ◌⊎◌, inl, inr, Option, none, some, List, [], ◌∷◌, ◌&&◌, ◌=ₛ◌,
  if◌then◌else◌,
}
use spinnaker_operator.Api.Types.{SpinnakerService}
use spinnaker_operator.Validate.Outcome.{ValidationResult, has_errors}
use spinnaker_operator.Validate.All.{Operation, create, update, delete, connect}

pub record Gvk : Type 0 where
  pub kind : String
  pub group : String
  pub version : String

-- `errored` is a response with a status of HTTP; the message of a denial has every error on a line.
pub data AdmissionResponse (E F : Type 0) : Type 0 where
  allowed : AdmissionResponse E F
  denied : List E → AdmissionResponse E F
  errored : F → AdmissionResponse E F

unfoldable pub is_spinnaker_request : String → Gvk → Gvk → Bool
is_spinnaker_request kind gv request =
    (kind =ₛ request.kind) && ((gv.group =ₛ request.group) && (gv.version =ₛ request.version))

abbrev is_update : Operation → Bool
is_update update = true
is_update _ = false

module _ {F : Type 0} where
  -- A request of another kind has no SpinnakerService.
  unfoldable pub get_spinnaker_service :
      Gvk → Gvk → F ⊎ SpinnakerService → F ⊎ Option SpinnakerService
  unfolding is_spinnaker_request
  get_spinnaker_service gv request decoded =
      if is_spinnaker_request "SpinnakerService" gv request
      then elim decoded [ inl e ↦ inl e | inr svc ↦ inr (some svc) ]
      else inr none

  abbrev patched : {E : Type 0} → Option F → AdmissionResponse E F
  patched none = allowed
  patched (some e) = errored e

  abbrev patch_status : {E P : Type 0} → (List P → Option F) → List P → AdmissionResponse E F
  patch_status patch [] = allowed
  patch_status patch (p ∷ ps) = patched (patch (p ∷ ps))

  -- `patch` writes the patches to the status of the resource.
  unfoldable pub respond :
      {E P : Type 0}
      → Operation
      → (List P → Option F)
      → ValidationResult E P
      → AdmissionResponse E F
  unfolding has_errors
  respond op patch r =
      if has_errors r
      then denied r.errors
      else if is_update op
      then patch_status patch r.status_patches
      else allowed

  abbrev of_service :
      {E : Type 0}
      → (SpinnakerService → AdmissionResponse E F)
      → F ⊎ Option SpinnakerService
      → AdmissionResponse E F
  of_service answer (inl e) = errored e
  of_service answer (inr none) = allowed
  of_service answer (inr (some svc)) = answer svc

  -- `validate` is the result that `ValidateAll` has for a SpinnakerService.
  unfoldable pub handle :
      {E P : Type 0}
      → Gvk
      → Gvk
      → F ⊎ SpinnakerService
      → Operation
      → (List P → Option F)
      → (SpinnakerService → ValidationResult E P)
      → AdmissionResponse E F
  unfolding get_spinnaker_service respond
  handle gv request decoded op patch validate =
      of_service (λ svc. respond op patch (validate svc)) (get_spinnaker_service gv request decoded)
