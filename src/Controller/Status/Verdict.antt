-- ===== src/Controller/Status/Verdict.antt =====
-- pkg/controller/spinnakerservice/status.go: what the pods' states say of Spinnaker as a whole.
pub mod First
use spinnaker_operator.Base.{
  String, Bool, true, false, not, ◌&&◌, ◌≡◌, refl, sym, ◌∙◌, ◌↔◌, ◌⊎◌, inl, inr, Option, none, some,
  List, [], ◌∷◌, ◌++◌, all, ◌<◌, length, arith, ◌=ₛ◌, =ₛ_refl, =ₛ→≡, if◌then◌else◌,
}
use spinnaker_operator.Api.Types.{SpinnakerService}
use spinnaker_operator.Kubernetes.{GetError}
use spinnaker_operator.Controller.Lookup.{
  PodPhase, pod_running, pod_pending, pod_failed, pod_unknown, other_phase, ContainerStatus, Pod,
  K8sLookup,
}
use spinnaker_operator.Controller.Status.{
  ok_status, updating, na, failure, Returned, container_running, container_pending, first_container,
  unless_timed_out, unless_returned, phase_status, pod_status, pods_status, get_status,
}

abbrev pub is_none : {A : Type 0} → Option A → Bool
is_none none = true
is_none (some a) = false

-- A container that has come up; one that has ended counts only where its pod is running.
abbrev pub is_up : ContainerStatus → Bool
is_up cs = is_none cs.waiting && cs.ready

abbrev in_time : GetError ⊎ Bool → Bool
in_time (inl e) = false
in_time (inr late) = not late

-- A description of a pod that is well, in no order of tests.
module _ (k8s_lookup : K8sLookup) (instance' : SpinnakerService) where
  abbrev pub phase_healthy : Pod → PodPhase → Bool
  phase_healthy p pod_running =
      all (λ cs. is_none cs.terminated && is_up cs) p.container_statuses
      && in_time (k8s_lookup.has_exceeded_max_waiting_time instance' p)
  phase_healthy p pod_pending =
      all is_up p.container_statuses
      && in_time (k8s_lookup.has_exceeded_max_waiting_time instance' p)
  phase_healthy p pod_failed = false
  phase_healthy p pod_unknown = false
  phase_healthy p (other_phase name) = true

  unfoldable pub healthy : Pod → Bool
  healthy p = phase_healthy p p.phase

first_container-running :
    (css : List ContainerStatus)
    → is_none (first_container container_running css)
      ≡ all (λ cs. is_none cs.terminated && is_up cs) css
unfolding first_container
first_container-running [] = refl
first_container-running (cs ∷ css) = ground (arith, first_container-running css)

first_container-pending :
    (css : List ContainerStatus) → is_none (first_container container_pending css) ≡ all is_up css
unfolding first_container
first_container-pending [] = refl
first_container-pending (cs ∷ css) = ground (arith, first_container-pending css)

na_not_ok : (na =ₛ ok_status) ≡ false
unfolding ◌=ₛ◌
na_not_ok = refl

-- What is returned at once is never OK.
abbrev NotOk : Returned → Type 0
NotOk none = Unit
NotOk (some r) = (r.0 =ₛ ok_status) ≡ false

container_running-NotOk : (cs : ContainerStatus) → NotOk (container_running cs)
unfolding ◌=ₛ◌
container_running-NotOk cs = at cs.terminated cs.waiting cs.ready
  where
    at :
        (t w : Option String) (r : Bool)
        → NotOk (container_running (record { terminated = t; waiting = w; ready = r }))
    at (some reason) w r = refl
    at none (some reason) r = refl
    at none none true = tt
    at none none false = refl

container_pending-NotOk : (cs : ContainerStatus) → NotOk (container_pending cs)
unfolding ◌=ₛ◌
container_pending-NotOk cs = at cs.waiting cs.ready
  where
    creating : (b : Bool) → ((if b then updating else failure) =ₛ ok_status) ≡ false
    creating true = refl
    creating false = refl

    at :
        (w : Option String) (r : Bool)
        → NotOk (container_pending (record { terminated = none; waiting = w; ready = r }))
    at (some reason) r = creating (reason =ₛ "ContainerCreating")
    at none true = tt
    at none false = refl

first_container-NotOk :
    (f : ContainerStatus → Returned) (css : List ContainerStatus)
    → ((cs : ContainerStatus) → NotOk (f cs))
    → NotOk (first_container f css)
unfolding first_container
first_container-NotOk f [] h = tt
first_container-NotOk f (cs ∷ css) h = at (f cs) (h cs) (first_container-NotOk f css h)
  where
    at :
        (r : Returned)
        → NotOk r
        → NotOk (first_container f css)
        → NotOk (elim r [ some r' ↦ some r' | none ↦ first_container f css ])
    at none a b = b
    at (some r') a b = a

unless_timed_out-NotOk :
    (t : GetError ⊎ Bool) (r : Returned) → NotOk r → NotOk (unless_timed_out t r)
unfolding ◌=ₛ◌
unless_timed_out-NotOk (inl e) r h = refl
unless_timed_out-NotOk (inr true) r h = refl
unless_timed_out-NotOk (inr false) r h = h

module _ (k8s_lookup : K8sLookup) (instance' : SpinnakerService) where
  abbrev late : Pod → GetError ⊎ Bool
  late p = k8s_lookup.has_exceeded_max_waiting_time instance' p

  is_none-unless_timed_out :
      (t : GetError ⊎ Bool) (r : Returned)
      → is_none (unless_timed_out t r) ≡ (is_none r && in_time t)
  is_none-unless_timed_out t r = ground arith

  pub phase_status-healthy :
      (p : Pod) (phase : PodPhase)
      → is_none (phase_status k8s_lookup instance' p phase)
        ≡ phase_healthy k8s_lookup instance' p phase
  phase_status-healthy p pod_running =
      let css = p.container_statuses in
      is_none-unless_timed_out (late p) (first_container container_running css)
      ∙ rw (first_container-running css) refl
  phase_status-healthy p pod_pending =
      let css = p.container_statuses in
      is_none-unless_timed_out (late p) (first_container container_pending css)
      ∙ rw (first_container-pending css) refl
  phase_status-healthy p pod_failed = refl
  phase_status-healthy p pod_unknown = refl
  phase_status-healthy p (other_phase name) = refl

  phase_status-NotOk :
      (p : Pod) (phase : PodPhase) → NotOk (phase_status k8s_lookup instance' p phase)
  unfolding ◌=ₛ◌
  phase_status-NotOk p pod_running =
      unless_timed_out-NotOk (late p) (first_container container_running p.container_statuses)
        (first_container-NotOk container_running p.container_statuses container_running-NotOk)
  phase_status-NotOk p pod_pending =
      unless_timed_out-NotOk (late p) (first_container container_pending p.container_statuses)
        (first_container-NotOk container_pending p.container_statuses container_pending-NotOk)
  phase_status-NotOk p pod_failed = refl
  phase_status-NotOk p pod_unknown = refl
  phase_status-NotOk p (other_phase name) = tt

  pods_status-healthy :
      (ps : List Pod)
      → ((pods_status k8s_lookup instance' ps).0 =ₛ ok_status)
        ≡ all (healthy k8s_lookup instance') ps
  unfolding pods_status pod_status healthy
  pods_status-healthy [] = =ₛ_refl ok_status
  pods_status-healthy (p ∷ ps) =
      at (phase_status k8s_lookup instance' p p.phase) (phase_status-NotOk p p.phase)
        (phase_status-healthy p p.phase) (pods_status-healthy ps)
    where
      at :
          (r : Returned)
          → NotOk r
          → is_none r ≡ phase_healthy k8s_lookup instance' p p.phase
          → ((pods_status k8s_lookup instance' ps).0 =ₛ ok_status)
            ≡ all (healthy k8s_lookup instance') ps
          → ((unless_returned r (pods_status k8s_lookup instance' ps)).0 =ₛ ok_status) ≡ (
              phase_healthy k8s_lookup instance' p p.phase && all (healthy k8s_lookup instance') ps)
      at none a b c = rw (sym b) c
      at (some r') a b c = rw (sym b) a

  -- The status is OK exactly when there is a pod and every pod is healthy: in time and with all its
  -- containers up, or in a phase that the operator does not know.
  pub get_status-ok :
      (ps : List Pod)
      → ((get_status k8s_lookup instance' ps).0 ≡ ok_status)
        ↔ ((0 < length ps) × (all (healthy k8s_lookup instance') ps ≡ true))
  unfolding get_status
  get_status-ok [] = (
    λ h.
        (let no : (na =ₛ ok_status) ≡ true = rw h (=ₛ_refl ok_status) in
          ground (arith, no, na_not_ok)),
    λ h. ground (arith, h.0),
  )
  get_status-ok (p ∷ ps) =
      let same = pods_status-healthy (p ∷ ps) in
      (
        λ h. (omega arith, sym same ∙ rw h (=ₛ_refl ok_status)),
        λ h. =ₛ→≡ (pods_status k8s_lookup instance' (p ∷ ps)).0 ok_status (same ∙ h.1),
      )
