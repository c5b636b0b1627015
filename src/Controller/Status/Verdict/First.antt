-- ===== src/Controller/Status/Verdict/First.antt =====
-- pkg/controller/spinnakerservice/status.go: the pod that decides.
use spinnaker_operator.Base.{
  String, true, ◌≡◌, refl, ◌∙◌, Option, none, some, List, [], ◌∷◌, ◌++◌, all, arith,
}
use spinnaker_operator.Api.Types.{SpinnakerService}
use spinnaker_operator.Kubernetes.{GetError}
use spinnaker_operator.Controller.Lookup.{Pod, K8sLookup}
use spinnaker_operator.Controller.Status.{
  Returned, unless_returned, phase_status, pod_status, pods_status, get_status,
}
use spinnaker_operator.Controller.Status.Verdict.{healthy, is_none, phase_status-healthy}

module _ (k8s_lookup : K8sLookup) (instance' : SpinnakerService) where
  skipped :
      (p : Pod) (rest : String × Option GetError)
      → healthy k8s_lookup instance' p ≡ true
      → unless_returned (pod_status k8s_lookup instance' p) rest ≡ rest
  unfolding pod_status healthy
  skipped p rest h =
      at (phase_status k8s_lookup instance' p p.phase)
        (phase_status-healthy k8s_lookup instance' p p.phase ∙ h)
    where
      at : (r : Returned) → is_none r ≡ true → unless_returned r rest ≡ rest
      at none h' = refl
      at (some r) h' = ground (arith, h')

  pods_status-first :
      (ps more : List Pod) (p : Pod) (r : String × Option GetError)
      → all (healthy k8s_lookup instance') ps ≡ true
      → pod_status k8s_lookup instance' p ≡ some r
      → pods_status k8s_lookup instance' (ps ++ p ∷ more) ≡ r
  unfolding pods_status
  pods_status-first [] more p r hs h = rw h refl
  pods_status-first (q ∷ ps) more p r hs h =
      skipped q (pods_status k8s_lookup instance' (ps ++ p ∷ more)) (ground (arith, hs))
      ∙ pods_status-first ps more p r (ground (arith, hs)) h

  get_status-cons :
      (ps more : List Pod) (p : Pod)
      → get_status k8s_lookup instance' (ps ++ p ∷ more)
        ≡ pods_status k8s_lookup instance' (ps ++ p ∷ more)
  unfolding get_status
  get_status-cons [] more p = refl
  get_status-cons (q ∷ ps) more p = refl

  -- The first pod that is not healthy decides, whatever comes after it: what it returns is the
  -- status of Spinnaker.
  get_status-first :
      (ps more : List Pod) (p : Pod) (r : String × Option GetError)
      → all (healthy k8s_lookup instance') ps ≡ true
      → pod_status k8s_lookup instance' p ≡ some r
      → get_status k8s_lookup instance' (ps ++ p ∷ more) ≡ r
  get_status-first ps more p r hs h = get_status-cons ps more p ∙ pods_status-first ps more p r hs h
