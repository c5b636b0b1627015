-- ===== src/Webhook/Service/Denied.antt =====
-- pkg/controller/spinnakervalidating: which SpinnakerServices are admitted, after their validators were run.
use mathlib.Core.List.{Perm}
use mathlib.Core.List.Perm.{nil-eq, eq-nil}
use spinnaker_operator.Base.{
  sym, ap, ℕ, Bool, true, false, ◌≡◌, refl, inr, Option, none, List, [], ◌∷◌, arith, if◌then◌else◌,
}
use spinnaker_operator.Api.Types.{SpinnakerService}
use spinnaker_operator.Validate.Outcome.{ValidationResult, has_errors}
use spinnaker_operator.Validate.Parallel.{Validator, State, started, Run}
use spinnaker_operator.Validate.Parallel.AllResults.{all_errors, Steady, Run-result}
use spinnaker_operator.Validate.All.{Operation}
use spinnaker_operator.Webhook.Service.{
  Gvk, allowed, denied, is_spinnaker_request, handle, respond, get_spinnaker_service, patch_status,
}

abbrev pub some_in : {E : Type 0} → List E → Bool
some_in [] = false
some_in (e ∷ es) = true

some_in-Perm : {E : Type 0} {xs ys : List E} → Perm xs ys → some_in xs ≡ some_in ys
some_in-Perm {xs = []} {ys = ys} p = ap some_in (nil-eq p)
some_in-Perm {xs = xs} {ys = []} p = ap some_in (eq-nil p)
some_in-Perm {xs = x ∷ xs} {ys = y ∷ ys} p = refl

module _ {E F P : Type 0} where
  patch_status-fit :
      (patch : List P → Option F) (ps : List P)
      → ((ps : List P) → patch ps ≡ none)
      → patch_status {E = E} patch ps ≡ allowed
  patch_status-fit patch [] fit = refl
  patch_status-fit patch (p ∷ ps) fit = rw (fit (p ∷ ps)) refl

  respond-result :
      (op : Operation) (patch : List P → Option F) (r : ValidationResult E P)
      → ((ps : List P) → patch ps ≡ none)
      → respond op patch r ≡ (if some_in r.errors then denied r.errors else allowed)
  unfolding respond has_errors
  respond-result op patch r fit = ground (arith, patch_status-fit patch r.status_patches fit)

  -- A SpinnakerService whose validators were run, in whatever order their results came, is denied as soon
  -- as one of them gave an error, fatal or not, and with all the errors; otherwise it is admitted. The
  -- conditions are that no validator gives another result where it sees a cancelled context, as those
  -- that pass the context to a call may, and that every patch of the status succeeds.
  pub handle-Run :
      (gv request : Gvk) (svc : SpinnakerService) (op : Operation) (patch : List P → Option F)
      (fail_fast : Bool) (vs : List (Validator E P)) (n : ℕ) (t : State E P)
      → is_spinnaker_request "SpinnakerService" gv request ≡ true
      → ((ps : List P) → patch ps ≡ none)
      → Steady vs
      → Run fail_fast (started vs) n t
      → t.done ≡ true
      → (handle gv request (inr svc) op patch (λ s. t.result)
          ≡ (if some_in (all_errors vs) then denied t.result.errors else allowed))
        × Perm t.result.errors (all_errors vs)
  unfolding handle get_spinnaker_service
  handle-Run gv request svc op patch fail_fast vs n t here fit steady run ended =
      let (perm, fatal) = Run-result fail_fast vs n t steady run ended in
      (rw (here, sym (some_in-Perm perm)) (respond-result op patch t.result fit), perm)
