-- ===== src/Deploy/Pipeline/Outcome.antt =====
-- pkg/deploy/spindeploy/spindeploy.go: the cluster and the SpinnakerService on each way out.
use spinnaker_operator.Base.{
  String, true, false, ◌≡◌, refl, sym, ap, ◌∙◌, ◌↔◌, ◌⊎◌, inl, inr, Option, none, some, List, arith,
}
use spinnaker_operator.Secrets.Decode.{Engines}
use spinnaker_operator.Api.Types.{SpinnakerService}
use spinnaker_operator.Detector.Composite.{
  ChangeDetector, Checked, composite, composite-true, AllUpToDate, after_all,
}
use spinnaker_operator.Kubernetes.Workload.{GeneratedConfig}
use spinnaker_operator.Deploy.Save.{deploy_config}
use spinnaker_operator.Deploy.Save.Actions.{carry_out, actions, deploy_config-run}
use spinnaker_operator.Deploy.Pipeline.{
  World, Deployer, Deployed, prepare, saved, status_set, prepared, detected, version_of, deploy,
}

-- The SpinnakerService with the status of the copy, and the version.
abbrev pub deployed_status : SpinnakerService → SpinnakerService → String → SpinnakerService
deployed_status svc n v = record svc { status = record n.status { version = v } }

module _ {C E : Type 0} where
  status_set-requeue :
      (svc : SpinnakerService) (r : World C × Option E) → (status_set svc r).2 ≡ true
  status_set-requeue svc (w, e) = refl

  saved-requeue :
      (d : Deployer C E) (svc n : SpinnakerService) (v : String) (r : World C × Option E)
      → (saved d svc n v r).2 ≡ true
  saved-requeue d svc n v (w, some e) = refl
  saved-requeue d svc n v (w, none) =
      let svc' = record svc { status = record n.status { version = v } } in
      status_set-requeue svc' (d.update_status w svc')

  prepared-requeue :
      (d : Deployer C E) (svc : SpinnakerService) (v : String)
      (r : World C × SpinnakerService × (E ⊎ GeneratedConfig))
      → (prepared d svc v r).2 ≡ true
  prepared-requeue d svc v (w, n, inl e) = refl
  prepared-requeue d svc v (w, n, inr l) = saved-requeue d svc n v (deploy_config d.cluster l w)

  -- A deployment that went through: the manifests were prepared, every action on the cluster
  -- succeeded, and so did the update of the status.
  abbrev pub Done :
      Deployer C E
      → SpinnakerService
      → String
      → World C × SpinnakerService × (E ⊎ GeneratedConfig)
      → Deployed C E
      → Type 0
  Done d svc v r out =
      (w : World C) × (n : SpinnakerService) × (l : GeneratedConfig) × (w' : World C) × (r
        ≡ (w, n, inr l))
      × (carry_out d.cluster (actions l) w ≡ (w', none))
      × (d.update_status w' (deployed_status svc n v) ≡ (out.0, none))
      × (out ≡ (out.0, deployed_status svc n v, true, none))

  status_set-Done :
      (svc : SpinnakerService) (r : World C × Option E)
      → (status_set svc r).3 ≡ none
      → (r ≡ ((status_set svc r).0, none))
        × (status_set svc r ≡ ((status_set svc r).0, svc, true, none))
  status_set-Done svc (w, none) h = (refl, refl)
  status_set-Done svc (w, some e) h = ground (arith, h)

  saved-Done :
      (d : Deployer C E) (svc n : SpinnakerService) (v : String) (l : GeneratedConfig) (w : World C)
      (s : World C × Option E)
      → carry_out d.cluster (actions l) w ≡ s
      → (saved d svc n v s).3 ≡ none
      → Done d svc v (w, n, inr l) (saved d svc n v s)
  saved-Done d svc n v l w (w', some e) ran h = ground (arith, h)
  saved-Done d svc n v l w (w', none) ran h =
      let svc' = deployed_status svc n v in
      let set = status_set-Done svc' (d.update_status w' svc') h in
      (w, n, l, w', refl, ran, set.0, set.1)

  prepared-Done :
      (d : Deployer C E) (svc : SpinnakerService) (v : String)
      (r : World C × SpinnakerService × (E ⊎ GeneratedConfig))
      → (prepared d svc v r).3 ≡ none
      → Done d svc v r (prepared d svc v r)
  prepared-Done d svc v (w, n, inl e) h = ground (arith, h)
  prepared-Done d svc v (w, n, inr l) h =
      saved-Done d svc n v l w (deploy_config d.cluster l w) (sym (deploy_config-run d.cluster l w))
        h

module _ {C E X : Type 0} (eng : Engines X) where
  detected-requeue :
      (d : Deployer C E) (r : Checked (World C × SpinnakerService) E)
      → (((detected eng d r).2 ≡ false) ↔ (r.1 ≡ inr true))
  detected-requeue d ((w, svc), inl e, events) = (λ h. ground (arith, h), λ h. ground (arith, h))
  detected-requeue d ((w, svc), inr true, events) = (λ h. refl, λ h. refl)
  detected-requeue d ((w, svc), inr false, events) =
      let (w', v) = version_of eng w svc in
      (λ h. ground (arith, h, prepared-requeue d svc v (prepare d w' svc)), λ h. ground (arith, h))

  -- A deployment asks for no requeue exactly when every change detector finds Spinnaker up to date;
  -- and exactly then it does nothing beyond what the detectors did, and gives no error.
  pub deploy_up_to_date :
      (d : Deployer C E) (ds : List (ChangeDetector (World C × SpinnakerService) E)) (w : World C)
      (svc : SpinnakerService)
      → d.new_change_detector ≡ inr ds
      → let (w', svc') = after_all ds (w, svc) in
        (((deploy eng d w svc).2 ≡ false) ↔ AllUpToDate ds (w, svc))
        × ((deploy eng d w svc ≡ (w', svc', false, none)) ↔ AllUpToDate ds (w, svc))
  unfolding deploy
  deploy_up_to_date d ds w svc made =
      let both = composite-true ds (w, svc) in
      let asked = detected-requeue d (composite ds (w, svc)) in
      rw made (
        (λ h. both.0.0 (asked.0 h), λ h. asked.1 (both.0.1 h)),
        (λ h. both.0.0 (asked.0 (ap (λ (r : Deployed C E). r.2) h)), λ h. rw (both.1.1 h) refl),
      )

  -- A change was found, and the deployment gives no error: then the manifests were prepared, every
  -- action on the cluster and the update of the status succeeded, a requeue is asked for, and the
  -- SpinnakerService is as the detectors left it but for its status, which is the copy's with the
  -- version of the configuration.
  pub deploy-Done :
      (d : Deployer C E) (ds : List (ChangeDetector (World C × SpinnakerService) E))
      (w w1 : World C) (svc svc1 : SpinnakerService) (events : List String)
      → d.new_change_detector ≡ inr ds
      → composite ds (w, svc) ≡ ((w1, svc1), inr false, events)
      → (deploy eng d w svc).3 ≡ none
      → let (w2, v) = version_of eng w1 svc1 in
        Done d svc1 v (prepare d w2 svc1) (deploy eng d w svc)
  unfolding deploy
  deploy-Done d ds w w1 svc svc1 events made found h =
      let (w2, v) = version_of eng w1 svc1 in
      let same : deploy eng d w svc ≡ prepared d svc1 v (prepare d w2 svc1) =
        rw (made, found) refl in
      rw same
        (prepared-Done d svc1 v (prepare d w2 svc1) (sym (ap (λ (r : Deployed C E). r.3) same) ∙ h))
