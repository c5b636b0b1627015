-- ===== src/Controller/Lookup.antt =====
-- pkg/util/k8s_lookup.go: the deployments and pods of Spinnaker.
use spinnaker_operator.Base.{
  ℕ, ◌-◌, String, Bool, false, not, ◌||◌, ◌==◌, ltb, ◌=ₛ◌, ◌⊎◌, inl, inr, Option, none, some, List,
  [], ◌∷◌, if◌then◌else◌,
}
use spinnaker_operator.Base.Dict.{Dict, lookup}
use spinnaker_operator.Base.Text.{has_prefix}
use spinnaker_operator.Api.Types.{Time, SpinnakerService}
use spinnaker_operator.Kubernetes.{GetError}
use spinnaker_operator.Kubernetes.Workload.{Container, Deployment}

pub data PodPhase : Type 0 where
  pod_running pod_pending pod_failed pod_unknown : PodPhase
  other_phase : String → PodPhase

-- `terminated` and `waiting` hold the reasons.
pub record ContainerStatus : Type 0 where
  pub terminated : Option String
  pub waiting : Option String
  pub ready : Bool

pub record OwnerReference : Type 0 where
  pub kind : String
  pub name : String

pub record Pod : Type 0 where
  pub name : String
  pub owner_references : List OwnerReference
  pub phase : PodPhase
  pub container_statuses : List ContainerStatus

pub record ReplicaSet : Type 0 where
  pub name : String
  pub creation_timestamp : Time
  pub replicas : ℕ
  pub available_replicas : ℕ
  pub ready_replicas : ℕ

-- The client's reads: the deployments and the pods of a namespace with a label of a given value,
-- and the replica set of a namespace and a name.
pub record Reader : Type 0 where
  pub list_deployments : String → String → String → GetError ⊎ List Deployment
  pub list_pods : String → String → String → GetError ⊎ List Pod
  pub get_replica_set : String → String → GetError ⊎ ReplicaSet

-- `Ik8sLookup`, but for `GetReplicaSetByPod`, which only `HasExceededMaxWaitingTime` calls.
pub record K8sLookup : Type 0 where
  pub get_spinnaker_deployments : SpinnakerService → GetError ⊎ List Deployment
  pub get_spinnaker_service_image_from_deployment : List Container → String
  pub get_pods_by_deployment : SpinnakerService → Deployment → GetError ⊎ List Pod
  pub has_exceeded_max_waiting_time : SpinnakerService → Pod → GetError ⊎ Bool

abbrev spin_image : List Container → Option String
spin_image [] = none
spin_image (c ∷ cs) = if has_prefix "spin-" c.name then some c.image else spin_image cs

unfoldable pub get_spinnaker_service_image_from_deployment : List Container → String
get_spinnaker_service_image_from_deployment cs = elim (spin_image cs) [
  | some image ↦ image
  | none ↦ elim cs [ [] ↦ String.[] | c ∷ more ↦ c.image ]
]

-- The text of a missing label is empty.
abbrev label : String → Dict String → String
label k m = elim (lookup k m) [ none ↦ String.[] | some v ↦ v ]

abbrev replica_set_name : List OwnerReference → String → String
replica_set_name [] name = name
replica_set_name (o ∷ os) name =
    replica_set_name os (if o.kind =ₛ "ReplicaSet" then o.name else name)

-- The last owner that is a replica set is looked up.
unfoldable pub get_replica_set_by_pod : Reader → SpinnakerService → Pod → GetError ⊎ ReplicaSet
get_replica_set_by_pod client instance' pod =
    client.get_replica_set instance'.namespace (replica_set_name pod.owner_references String.[])

-- A minute, in nanoseconds: `MaxChecksWaitingForSpinnakerStability` is 1.
abbrev pub max_waiting : ℕ
max_waiting = 60000000000

-- `time.Now()` is `now`. A replica set that is from the future has waited for nothing.
abbrev waited_too_long : Time → ReplicaSet → Bool
waited_too_long now rs =
    if not (rs.available_replicas == rs.replicas) || not (rs.ready_replicas == rs.replicas)
    then ltb max_waiting (now - rs.creation_timestamp)
    else false

unfoldable pub has_exceeded_max_waiting_time :
    Reader → Time → SpinnakerService → Pod → GetError ⊎ Bool
unfolding get_replica_set_by_pod
has_exceeded_max_waiting_time client now instance' pod =
    elim (get_replica_set_by_pod client instance' pod) [
      | inl e ↦ inl e
      | inr rs ↦ inr (waited_too_long now rs)
    ]

-- `NewK8sLookup(client)`, with the time of the check.
unfoldable pub new_k8s_lookup : Reader → Time → K8sLookup
unfolding get_spinnaker_service_image_from_deployment has_exceeded_max_waiting_time
new_k8s_lookup client now = record {
  get_spinnaker_deployments = λ instance'.
      client.list_deployments instance'.namespace "app.kubernetes.io/managed-by"
        "spinnaker-operator";
  get_spinnaker_service_image_from_deployment = get_spinnaker_service_image_from_deployment;
  get_pods_by_deployment = λ instance' d.
      client.list_pods instance'.namespace "app.kubernetes.io/name"
        (label "app.kubernetes.io/name" d.labels);
  has_exceeded_max_waiting_time = has_exceeded_max_waiting_time client now;
}
