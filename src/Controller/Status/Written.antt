-- ===== src/Controller/Status/Written.antt =====
-- pkg/controller/spinnakerservice/status.go: what the status check writes to the cluster.
use spinnaker_operator.Base.{
  String, ◌≡◌, ◌≢◌, refl, sym, ap, ◌∙◌, ◌⊎◌, length-map, inl, inr, Option, none, some, List, [],
  ◌∷◌, ◌++◌, map, length, arith, append_assoc, append-nil, ◌=ₛ◌, if◌then◌else◌,
}
use spinnaker_operator.Api.Types.{SpinnakerService, SpinnakerDeploymentStatus}
use spinnaker_operator.Kubernetes.{GetError}
use spinnaker_operator.Kubernetes.Workload.{Deployment}
use spinnaker_operator.Controller.Lookup.{Pod, K8sLookup}
use spinnaker_operator.Controller.Status.{
  updating, get_status, deployment_status, collect, status_with, CheckError, lookup_failed,
  still_updating, after_update, with_status, with_pods, checks,
}

abbrev pub all_pods : (Deployment → List Pod) → List Deployment → List Pod
all_pods pods_of [] = []
all_pods pods_of (d ∷ ds) = pods_of d ++ all_pods pods_of ds

module _ (k8s_lookup : K8sLookup) (instance' : SpinnakerService) where
  collect_lem :
      (pods_of : Deployment → List Pod) (ds : List Deployment) (pods : List Pod)
      (svcs : List SpinnakerDeploymentStatus)
      → ((d : Deployment) → k8s_lookup.get_pods_by_deployment instance' d ≡ inr (pods_of d))
      → collect k8s_lookup instance' ds pods svcs
        ≡ inr (pods ++ all_pods pods_of ds, svcs ++ map (deployment_status k8s_lookup instance') ds)
  unfolding collect
  collect_lem pods_of [] pods svcs h = rw (append-nil pods, append-nil svcs) refl
  collect_lem pods_of (d ∷ ds) pods svcs h =
      let one = deployment_status k8s_lookup instance' d in
      rw
        (
          collect,
          h d,
          collect_lem pods_of ds (pods ++ pods_of d) (svcs ++ one ∷ []) h,
          append_assoc pods (pods_of d) (all_pods pods_of ds),
          append_assoc svcs (one ∷ []) (map (deployment_status k8s_lookup instance') ds),
        )
        refl

module _ {W E : Type 0} (update_status : W → SpinnakerService → W × Option E) where
  after_update-kept :
      (status : String) (r : W × Option E) (e : GetError)
      → (after_update update_status status r).1 ≢ some (lookup_failed e)
  after_update-kept status (w, some e') e h = ground (arith, h)
  after_update-kept status (w, none) e h = ground (arith, h)

  with_status-kept :
      (k8s_lookup : K8sLookup) (instance' : SpinnakerService) (w : W)
      (svcs : List SpinnakerDeploymentStatus) (r : String × Option GetError) (e : GetError)
      → (with_status update_status k8s_lookup instance' w svcs r).1 ≡ some (lookup_failed e)
      → (with_status update_status k8s_lookup instance' w svcs r).0 ≡ w
  with_status-kept k8s_lookup instance' w svcs (status, some e') e h = refl
  with_status-kept k8s_lookup instance' w svcs (status, none) e h = ground (
    arith,
    after_update-kept status (update_status w (status_with k8s_lookup instance' status svcs)) e h,
  )

  with_pods-kept :
      (k8s_lookup : K8sLookup) (instance' : SpinnakerService) (w : W)
      (r : GetError ⊎ (List Pod × List SpinnakerDeploymentStatus)) (e : GetError)
      → (with_pods update_status k8s_lookup instance' w r).1 ≡ some (lookup_failed e)
      → (with_pods update_status k8s_lookup instance' w r).0 ≡ w
  with_pods-kept k8s_lookup instance' w (inl e') e h = refl
  with_pods-kept k8s_lookup instance' w (inr (pods, svcs)) e h =
      with_status-kept k8s_lookup instance' w svcs (get_status k8s_lookup instance' pods) e h

  -- A check that fails on a read of the cluster, or on a replica set, writes nothing.
  checks-lookup_failed :
      (k8s_lookup : K8sLookup) (w : W) (instance' : SpinnakerService) (e : GetError)
      → (checks update_status k8s_lookup w instance').1 ≡ some (lookup_failed e)
      → (checks update_status k8s_lookup w instance').0 ≡ w
  unfolding checks
  checks-lookup_failed k8s_lookup w instance' e h =
      at (k8s_lookup.get_spinnaker_deployments instance') refl
    where
      at :
          (r : GetError ⊎ List Deployment)
          → k8s_lookup.get_spinnaker_deployments instance' ≡ r
          → (checks update_status k8s_lookup w instance').0 ≡ w
      at (inl e') same = rw (checks, same) refl
      at (inr ds) same =
          let r =
            with_pods update_status k8s_lookup instance' w
              (collect k8s_lookup instance' ds [] []) in
          let shape : checks update_status k8s_lookup w instance' ≡ r = rw (checks, same) refl in
          rw shape (
            with_pods-kept k8s_lookup instance' w (collect k8s_lookup instance' ds [] []) e
              (sym (ap (λ (x : W × Option (CheckError E)). x.1) shape) ∙ h))

  -- Where the reads and the update succeed, the check writes the status of all the deployments'
  -- pods, and for each deployment its name, image and replicas, with their number; and it gives an
  -- error exactly if that status is Updating.
  pub checks-written :
      (k8s_lookup : K8sLookup) (w w' : W) (instance' : SpinnakerService) (ds : List Deployment)
      (pods_of : Deployment → List Pod) (status : String)
      → k8s_lookup.get_spinnaker_deployments instance' ≡ inr ds
      → ((d : Deployment) → k8s_lookup.get_pods_by_deployment instance' d ≡ inr (pods_of d))
      → get_status k8s_lookup instance' (all_pods pods_of ds) ≡ (status, none)
      → let svcs = map (deployment_status k8s_lookup instance') ds in
        update_status w (record instance' {
          status = record instance'.status {
            status = status;
            services = svcs;
            service_count = length ds;
          };
        })
          ≡ (w', none)
        → checks update_status k8s_lookup w instance'
          ≡ (w', if status =ₛ updating then some still_updating else none)
  unfolding checks
  checks-written k8s_lookup w w' instance' ds pods_of status found pods status_of written =
      let same : length (map (deployment_status k8s_lookup instance') ds) ≡ length ds =
        length-map (deployment_status k8s_lookup instance') ds in
      rw
        (
          checks,
          found,
          collect_lem k8s_lookup instance' pods_of ds [] [] pods,
          status_of,
          same,
          written,
        )
        refl
