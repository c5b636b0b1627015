-- ===== src/Controller/Reconcile.antt =====
-- pkg/controller/spinnakerservice/spinnakerservice_controller.go: one reconciliation.
pub mod Ended
use spinnaker_operator.Base.{
  String, Bool, true, false, ◌==◌, ◌⊎◌, inl, inr, Option, none, some, List, [], ◌∷◌, if◌then◌else◌,
}
use spinnaker_operator.Secrets.Context.{SecretContext, new_context, cleanup}
use spinnaker_operator.Api.Types.{SpinnakerService}
use spinnaker_operator.Kubernetes.{GetError, status_error, other_error}
use spinnaker_operator.Deploy.Pipeline.{World, Deployed}
use spinnaker_operator.Controller.Lookup.{K8sLookup}
use spinnaker_operator.Controller.Status.{CheckError, checks}

-- `Result{Requeue: true}` or `Result{}`, and the error.
pub data ReconcileError (E : Type 0) : Type 0 where
  get_failed : GetError → ReconcileError E
  deploy_failed : E → ReconcileError E
  status_failed : CheckError E → ReconcileError E

abbrev pub Outcome : Type 0 → Type 0
Outcome E = Bool × Option (ReconcileError E)

-- What a reconciler is built from: the client's reads and writes, and the deployers' `Deploy`.
pub record Reconciler (C E : Type 0) : Type 0 where
  pub get : C → String → String → GetError ⊎ SpinnakerService
  pub deployers : List (World C → SpinnakerService → Deployed C E)
  pub k8s_lookup : K8sLookup
  pub update_status : World C → SpinnakerService → World C × Option E

-- `errors.IsNotFound(err)`
abbrev pub is_not_found : GetError → Bool
is_not_found (status_error n) = n == 404
is_not_found (other_error e) = false

module _ {C : Type 0} where
  -- `secrets.Cleanup(ctx)`, which is deferred.
  unfoldable pub cleaned : World C → World C
  unfolding cleanup
  cleaned w = elim w.context [
    | none ↦ w
    | some s ↦ record w { context = some (cleanup s w.disk).0; disk = (cleanup s w.disk).1 }
  ]

module _ {C E : Type 0} where
  abbrev pub unless_deployed :
      (World C → SpinnakerService → World C × (Outcome E ⊎ SpinnakerService))
      → Deployed C E
      → World C × (Outcome E ⊎ SpinnakerService)
  unless_deployed next (w, svc, requeue, some e) = (w, inl (false, some (deploy_failed e)))
  unless_deployed next (w, svc, true, none) = (w, inl (true, none))
  unless_deployed next (w, svc, false, none) = next w svc

  unfoldable pub deploy_all :
      List (World C → SpinnakerService → Deployed C E)
      → World C
      → SpinnakerService
      → World C × (Outcome E ⊎ SpinnakerService)
  deploy_all [] w svc = (w, inr svc)
  deploy_all (d ∷ ds) w svc = unless_deployed (deploy_all ds) (d w svc)

  abbrev pub checked : World C × Option (CheckError E) → World C × Outcome E
  checked (w, none) = (w, (false, none))
  checked (w, some e) = (w, (false, some (status_failed e)))

  abbrev pub then_check :
      Reconciler C E → World C × (Outcome E ⊎ SpinnakerService) → World C × Outcome E
  then_check r (w, inl out) = (w, out)
  then_check r (w, inr svc) = checked (checks r.update_status r.k8s_lookup w svc)

  -- The body of `Reconcile`, with the context it has made.
  unfoldable pub reconcile_body : Reconciler C E → String → String → World C → World C × Outcome E
  unfolding deploy_all checks
  reconcile_body r name namespace w = elim (r.get w.cluster name namespace) [
    | inl e ↦ (w, if is_not_found e then (false, none) else (false, some (get_failed e)))
    | inr svc ↦ then_check r (deploy_all r.deployers w svc)
  ]

  -- `Reconcile`: it makes a context of its own, and cleans up on every way out.
  unfoldable pub reconcile : Reconciler C E → String → String → World C → World C × Outcome E
  unfolding reconcile_body cleaned new_context
  reconcile r name namespace w =
      let (w', out) =
        reconcile_body r name namespace (record w { context = some (new_context namespace) }) in
      (cleaned w', out)
