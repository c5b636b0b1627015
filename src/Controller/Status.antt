-- ===== src/Controller/Status.antt =====
-- pkg/controller/spinnakerservice/status.go: the status of the pods becomes that of Spinnaker.
pub mod Verdict
pub mod Written
use spinnaker_operator.Base.{
  ℕ, String, Bool, true, false, not, ◌=ₛ◌, ◌⊎◌, inl, inr, Option, none, some, List, [], ◌∷◌, ◌++◌,
  length, if◌then◌else◌,
}
use spinnaker_operator.Api.Types.{
  SpinnakerService, SpinnakerServiceStatus, SpinnakerDeploymentStatus,
}
use spinnaker_operator.Kubernetes.{GetError}
use spinnaker_operator.Kubernetes.Workload.{Container, Deployment}
use spinnaker_operator.Controller.Lookup.{
  PodPhase, pod_running, pod_pending, pod_failed, pod_unknown, other_phase, ContainerStatus, Pod,
  K8sLookup,
}

abbrev pub ok_status : String
ok_status = "OK"

abbrev pub updating : String
updating = "Updating"

abbrev pub na : String
na = "N/A"

abbrev pub failure : String
failure = "Failure"

-- A status that is returned at once, with the error that comes with it; none is to go on.
abbrev pub Returned : Type 0
Returned = Option (String × Option GetError)

abbrev pub container_running : ContainerStatus → Returned
container_running cs = elim cs.terminated [
  | some reason ↦ some (updating, none)
  | none ↦ elim cs.waiting [
    | some reason ↦ some (updating, none)
    | none ↦ if cs.ready then none else some (updating, none)
  ]
]

abbrev pub container_pending : ContainerStatus → Returned
container_pending cs = elim cs.waiting [
  | some reason ↦ some (if reason =ₛ "ContainerCreating" then updating else failure, none)
  | none ↦ if cs.ready then none else some (updating, none)
]

-- The first container that returns decides.
unfoldable pub first_container : (ContainerStatus → Returned) → List ContainerStatus → Returned
first_container f [] = none
first_container f (cs ∷ more) = elim (f cs) [ some r ↦ some r | none ↦ first_container f more ]

abbrev pub unless_timed_out : GetError ⊎ Bool → Returned → Returned
unless_timed_out (inl e) r = some (failure, some e)
unless_timed_out (inr true) r = some (failure, none)
unless_timed_out (inr false) r = r

abbrev pub unless_returned : Returned → String × Option GetError → String × Option GetError
unless_returned (some r) rest = r
unless_returned none rest = rest

module _ (k8s_lookup : K8sLookup) (instance' : SpinnakerService) where
  abbrev phase_status : Pod → PodPhase → Returned
  phase_status p pod_running =
      unless_timed_out (k8s_lookup.has_exceeded_max_waiting_time instance' p)
        (first_container container_running p.container_statuses)
  phase_status p pod_pending =
      unless_timed_out (k8s_lookup.has_exceeded_max_waiting_time instance' p)
        (first_container container_pending p.container_statuses)
  phase_status p pod_failed = some (failure, none)
  phase_status p pod_unknown = some (failure, none)
  phase_status p (other_phase name) = none

  unfoldable pub pod_status : Pod → Returned
  unfolding first_container
  pod_status p = phase_status p p.phase

  unfoldable pub pods_status : List Pod → String × Option GetError
  pods_status [] = (ok_status, none)
  pods_status (p ∷ ps) = unless_returned (pod_status p) (pods_status ps)

  unfoldable pub get_status : List Pod → String × Option GetError
  unfolding pods_status pod_status
  get_status pods = elim pods [ [] ↦ (na, none) | p ∷ ps ↦ pods_status (p ∷ ps) ]

  abbrev deployment_status : Deployment → SpinnakerDeploymentStatus
  deployment_status d = record {
    name = d.name;
    image = k8s_lookup.get_spinnaker_service_image_from_deployment d.containers;
    replicas = d.replicas;
    ready_replicas = d.ready_replicas;
  }

  -- The pods of all the deployments, and the deployments' statuses.
  unfoldable pub collect :
      List Deployment
      → List Pod
      → List SpinnakerDeploymentStatus
      → GetError ⊎ (List Pod × List SpinnakerDeploymentStatus)
  collect [] pods svcs = inr (pods, svcs)
  collect (d ∷ ds) pods svcs = elim (k8s_lookup.get_pods_by_deployment instance' d) [
    | inl e ↦ inl e
    | inr pd ↦ collect ds (pods ++ pd) (svcs ++ deployment_status d ∷ [])
  ]

  abbrev status_with : String → List SpinnakerDeploymentStatus → SpinnakerService
  status_with status svcs = record instance' {
    status = record instance'.status {
      status = status;
      services = svcs;
      service_count = length svcs;
    };
  }

-- Why `checks` fails: the cluster, or Spinnaker that is not there yet.
pub data CheckError (E : Type 0) : Type 0 where
  lookup_failed : GetError → CheckError E
  update_failed : E → CheckError E
  still_updating : CheckError E

module _ {W E : Type 0} (update_status : W → SpinnakerService → W × Option E) where
  abbrev after_update : String → W × Option E → W × Option (CheckError E)
  after_update status (w, some e) = (w, some (update_failed e))
  after_update status (w, none) = (w, if status =ₛ updating then some still_updating else none)

  abbrev with_status :
      K8sLookup
      → SpinnakerService
      → W
      → List SpinnakerDeploymentStatus
      → String × Option GetError
      → W × Option (CheckError E)
  with_status k8s_lookup instance' w svcs (status, some e) = (w, some (lookup_failed e))
  with_status k8s_lookup instance' w svcs (status, none) =
      after_update status (update_status w (status_with k8s_lookup instance' status svcs))

  abbrev with_pods :
      K8sLookup
      → SpinnakerService
      → W
      → GetError ⊎ (List Pod × List SpinnakerDeploymentStatus)
      → W × Option (CheckError E)
  with_pods k8s_lookup instance' w (inl e) = (w, some (lookup_failed e))
  with_pods k8s_lookup instance' w (inr (pods, svcs)) =
      with_status k8s_lookup instance' w svcs (get_status k8s_lookup instance' pods)

  -- The status is written to a copy of the SpinnakerService, which is sent to the cluster.
  unfoldable pub checks : K8sLookup → W → SpinnakerService → W × Option (CheckError E)
  unfolding get_status collect
  checks k8s_lookup w instance' = elim (k8s_lookup.get_spinnaker_deployments instance') [
    | inl e ↦ (w, some (lookup_failed e))
    | inr ds ↦ with_pods k8s_lookup instance' w (collect k8s_lookup instance' ds [] [])
  ]
