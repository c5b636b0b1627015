-- ===== src/Tests/Controller.antt =====
-- The controller, at concrete inputs.
use spinnaker_operator.Base.{
  ℕ, ◌<◌, String, Bool, true, false, ◌≡◌, refl, ◌↔◌, ◌⊎◌, inl, inr, Option, none, some, List, [],
  ◌∷◌, ◌++◌, map, length, all, ◌=ₛ◌, if◌then◌else◌,
}
use spinnaker_operator.Api.Types.{SpinnakerService, SpinnakerServiceStatus}
use spinnaker_operator.Detector.Composite.{ChangeDetector, AllUpToDate, after_all}
use spinnaker_operator.Kubernetes.Workload.{Deployment}
use spinnaker_operator.Deploy.Pipeline.{World, Deployer, deploy}
use spinnaker_operator.Controller.Lookup.{
  pod_running, pod_pending, ContainerStatus, Pod, ReplicaSet, Reader, K8sLookup, new_k8s_lookup,
}
use spinnaker_operator.Controller.Status.{ok_status, updating, get_status, checks, still_updating}
use spinnaker_operator.Controller.Status.Verdict.{healthy, get_status-ok}
use spinnaker_operator.Controller.Status.Written.{checks-written}
use spinnaker_operator.Controller.Reconcile.{Reconciler, reconcile}
use spinnaker_operator.Controller.Reconcile.Ended.{started, reconcile-ends}
use spinnaker_operator.Tests.Fixtures.{no_secrets, spinnaker}

abbrev up_container : ContainerStatus
up_container = record { terminated = none; waiting = none; ready = true }

abbrev creating_container : ContainerStatus
creating_container = record { terminated = none; waiting = some "ContainerCreating"; ready = false }

abbrev up_pod : Pod
up_pod = record {
  name = "spin-gate-1";
  owner_references = record { kind = "ReplicaSet"; name = "spin-gate" } ∷ [];
  phase = pod_running;
  container_statuses = up_container ∷ [];
}

abbrev pending_pod : Pod
pending_pod = record up_pod { phase = pod_pending; container_statuses = creating_container ∷ [] }

abbrev gate_deployment : Deployment
gate_deployment = record {
  name = "spin-gate";
  namespace = "prod";
  labels = ("app.kubernetes.io/name", "gate") ∷ [];
  replicas = 1;
  ready_replicas = 0;
  containers =
      record {
        name = "spin-gate";
        image = "gate:1";
        env = [];
        volume_mounts = [];
        ports = [];
        readiness_probe = none;
      }
      ∷ [];
  volumes = [];
}

abbrev young_replicas : ReplicaSet
young_replicas = record {
  name = "spin-gate";
  creation_timestamp = 0;
  replicas = 1;
  available_replicas = 0;
  ready_replicas = 0;
}

abbrev reader : List Pod → Reader
reader pods = record {
  list_deployments = λ ns k v. inr (gate_deployment ∷ []);
  list_pods = λ ns k v. inr pods;
  get_replica_set = λ ns name. inr young_replicas;
}

-- Half a minute after the replica set was made.
abbrev soon : List Pod → K8sLookup
soon pods = new_k8s_lookup (reader pods) 30000000000

get_status-ok_example :
    ((get_status (soon []) spinnaker (up_pod ∷ [])).0 ≡ ok_status)
    ↔ ((0 < length (up_pod ∷ [])) × (all (healthy (soon []) spinnaker) (up_pod ∷ []) ≡ true))
get_status-ok_example = get_status-ok (soon []) spinnaker (up_pod ∷ [])

-- The updates that were sent.
abbrev note :
    List SpinnakerServiceStatus → SpinnakerService → List SpinnakerServiceStatus × Option String
note sent svc = (sent ++ svc.status ∷ [], none)

abbrev updating_status : SpinnakerServiceStatus
updating_status = record spinnaker.status {
  status = "Updating";
  services = record { name = "spin-gate"; image = "gate:1"; replicas = 1; ready_replicas = 0 } ∷ [];
  service_count = 1;
}

checks-written_example :
    checks note (soon (pending_pod ∷ [])) [] spinnaker
    ≡ (updating_status ∷ [], if "Updating" =ₛ updating then some still_updating else none)
unfolding new_k8s_lookup get_status ◌=ₛ◌ spinnaker_operator.Base.Text.has_prefix
checks-written_example =
    checks-written note (soon (pending_pod ∷ [])) [] (updating_status ∷ []) spinnaker
      (gate_deployment ∷ []) (λ d. pending_pod ∷ []) "Updating" refl (λ d. refl) refl refl

abbrev Sent : Type 0
Sent = List SpinnakerServiceStatus

abbrev start : World Sent
start = record { context = none; cluster = []; disk = "/tmp/kubeconfig" ∷ [] }

-- A detector that decodes a secret to a file on its way.
abbrev decoding : ChangeDetector (World Sent × SpinnakerService) String
decoding = record {
  name = "config";
  always_run = true;
  is_spinnaker_up_to_date = λ s. (
    (
      record s.0 {
        context =
            some
              (record { cache = []; file_cache = ("x", "/tmp/secret") ∷ []; namespace = "prod" });
        disk = "/tmp/secret" ∷ s.0.disk;
      },
      s.1,
    ),
    inr true,
  );
}

abbrev deployer : Deployer Sent String
deployer = record {
  new_change_detector = inr (decoding ∷ []);
  transformer_generators = [];
  generate = λ w c. (w, inr []);
  cluster = record {
    save_object = λ o w. (w, none);
    save_deployment_object = λ d w. (w, inr d);
    delete_object = λ o w. (w, none);
    set_controller_reference = λ d o. inr o;
  };
  update_status = λ w svc. (record w { cluster = w.cluster ++ svc.status ∷ [] }, none);
}

abbrev reconciler : Reconciler Sent String
reconciler = record {
  get = λ c name namespace. inr spinnaker;
  deployers = deploy no_secrets deployer ∷ [];
  k8s_lookup = soon (up_pod ∷ []);
  update_status = λ w svc. (record w { cluster = w.cluster ++ svc.status ∷ [] }, none);
}

reconcile-ends_example :
    let (w', svc') = after_all (decoding ∷ []) (started start "prod", spinnaker) in
    ((reconcile reconciler "spinnaker" "prod" start).1 ≡ (false, none)) ↔ (
      AllUpToDate (decoding ∷ []) (started start "prod", spinnaker)
      × ((checks reconciler.update_status reconciler.k8s_lookup w' svc').1 ≡ none))
reconcile-ends_example =
    reconcile-ends no_secrets reconciler deployer (decoding ∷ []) "spinnaker" "prod" start spinnaker
      refl refl refl
