-- ===== src/Controller/Reconcile/Ended.antt =====
-- pkg/controller/spinnakerservice/spinnakerservice_controller.go: the ends of a reconciliation.
use spinnaker_operator.Base.{
  String, true, false, ◌≡◌, refl, sym, ap, ◌∙◌, ◌↔◌, inr, Option, none, some, List, [], ◌∷◌, arith,
}
use spinnaker_operator.Base.Dict.{lookup}
use spinnaker_operator.Secrets.Context.{SecretContext, new_context, exists, cleanup-exists}
use spinnaker_operator.Secrets.Decode.{Engines}
use spinnaker_operator.Api.Types.{SpinnakerService}
use spinnaker_operator.Detector.Composite.{ChangeDetector, AllUpToDate, after_all}
use spinnaker_operator.Deploy.Pipeline.{World, Deployer, Deployed, deploy}
use spinnaker_operator.Deploy.Pipeline.Outcome.{deploy_up_to_date}
use spinnaker_operator.Controller.Status.{CheckError, checks}
use spinnaker_operator.Controller.Reconcile.{
  Reconciler, unless_deployed, deploy_all, checked, then_check, cleaned, reconcile_body, reconcile,
}

-- The world in which the body of a reconciliation starts.
abbrev pub started : {C : Type 0} → World C → String → World C
started w namespace = record w { context = some (new_context namespace) }

cleaned-exists :
    {C : Type 0} (w : World C) (s : SecretContext) (k p : String)
    → w.context ≡ some s
    → lookup k s.file_cache ≡ some p
    → exists p (cleaned w).disk ≡ false
unfolding cleaned
cleaned-exists w s k p left there = rw (cleaned, left) (cleanup-exists s w.disk k p there).0

module _ {C E : Type 0} where
  -- However a reconciliation ends, no temporary file of its context is left on disk.
  reconcile-exists :
      (r : Reconciler C E) (name namespace : String) (w : World C) (s : SecretContext)
      (k p : String)
      → (reconcile_body r name namespace (started w namespace)).0.context ≡ some s
      → lookup k s.file_cache ≡ some p
      → exists p (reconcile r name namespace w).0.disk ≡ false
  unfolding reconcile
  reconcile-exists r name namespace w s k p left there =
      cleaned-exists (reconcile_body r name namespace (started w namespace)).0 s k p left there

  checked-ends :
      (c : World C × Option (CheckError E)) → ((checked c).1 ≡ (false, none)) ↔ (c.1 ≡ none)
  checked-ends (w, none) = (λ h. refl, λ h. refl)
  checked-ends (w, some e) = (λ h. ground (arith, h), λ h. ground (arith, h))

  one-ends :
      (r : Reconciler C E) (out : Deployed C E)
      → ((then_check r (unless_deployed (deploy_all []) out)).1 ≡ (false, none)) ↔ (
          (out.2 ≡ false)
          × (out.3 ≡ none)
          × ((checks r.update_status r.k8s_lookup out.0 out.1).1 ≡ none))
  unfolding deploy_all
  one-ends r (w, svc, q, some e) = (λ h. ground (arith, h), λ h. ground (arith, h.1))
  one-ends r (w, svc, true, none) = (λ h. ground (arith, h), λ h. ground (arith, h.0))
  one-ends r (w, svc, false, none) =
      let c = checked-ends (checks r.update_status r.k8s_lookup w svc) in
      (λ h. (refl, refl, c.0 h), λ h. c.1 h.2)

module _ {C E X : Type 0} (eng : Engines X) where
  -- With the one deployer that the operator has, a reconciliation of a SpinnakerService that exists
  -- ends with neither a requeue nor an error exactly when every change detector finds Spinnaker up
  -- to date and the status check then passes.
  pub reconcile-ends :
      (r : Reconciler C E) (d : Deployer C E)
      (ds : List (ChangeDetector (World C × SpinnakerService) E)) (name namespace : String)
      (w : World C) (svc : SpinnakerService)
      → r.get w.cluster name namespace ≡ inr svc
      → r.deployers ≡ deploy eng d ∷ []
      → d.new_change_detector ≡ inr ds
      → let (w', svc') = after_all ds (started w namespace, svc) in
        ((reconcile r name namespace w).1 ≡ (false, none)) ↔ (
          AllUpToDate ds (started w namespace, svc)
          × ((checks r.update_status r.k8s_lookup w' svc').1 ≡ none))
  unfolding reconcile
  reconcile-ends r d ds name namespace w svc got one made =
      let w0 = started w namespace in
      let out = deploy eng d w0 svc in
      let up = deploy_up_to_date eng d ds w0 svc made in
      let ends = one-ends r out in
      let shape : (reconcile r name namespace w).1
          ≡ (then_check r (unless_deployed (deploy_all []) out)).1 =
        rw (reconcile_body, got, deploy_all, one) refl in
      (
        λ h.
            (let (asked, fine, passed) = ends.0 (sym shape ∙ h) in
              let all = up.0.0 asked in
              (
                all,
                rw
                    (
                      sym (ap (λ (x : Deployed C E). x.0) (up.1.1 all)),
                      sym (ap (λ (x : Deployed C E). x.1) (up.1.1 all)),
                    )
                    passed,
              )),
        λ h. shape ∙ ends.1 (rw (up.1.1 h.0) (refl, refl, h.1)),
      )
