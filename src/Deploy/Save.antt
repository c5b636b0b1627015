-- ===== src/Deploy/Save.antt =====
-- pkg/deploy/spindeploy/save.go: the generated manifests are sent to the cluster.
pub mod Actions
use spinnaker_operator.Base.{
  ℕ, String, Bool, true, false, ◌≡◌, refl, ◌⊎◌, inl, inr, Option, none, some, List, [], ◌∷◌, ◌++◌,
  arith, sym, ◌∙◌, if◌then◌else◌, Option-cases,
}
use spinnaker_operator.Kubernetes.{Service}
use spinnaker_operator.Kubernetes.Workload.{
  Deployment, Secret, OtherObject, Object, deployment_object, service_object, secret_object,
  other_object, ServiceConfig, GeneratedConfig,
}

module _ (W E : Type 0) where
  -- The calls on the cluster: `saveObject`, `deleteObject`, and `SetControllerReference`, by which
  -- the deployment owns a resource. A save writes what the cluster answers into the object, so a
  -- deployment has the UID by which it is referred to only once it is saved; `save_deployment_object`
  -- is `saveObject` of a deployment, with the deployment that it leaves.
  pub record Cluster : Type 0 where
    pub save_object : Object → W → W × Option E
    pub save_deployment_object : Deployment → W → W × (E ⊎ Deployment)
    pub delete_object : Object → W → W × Option E
    pub set_controller_reference : Deployment → Object → E ⊎ Object

-- `o, ok := r.(metav1.Object)`
abbrev pub is_meta : Object → Bool
is_meta (deployment_object d) = true
is_meta (service_object s) = true
is_meta (secret_object s) = true
is_meta (other_object o) = o.is_meta

module _ {W E : Type 0} where
  -- A call, and what follows it unless it failed.
  infixl 5 ◌then_do◌
  abbrev pub ◌then_do◌ : W × Option E → (W → W × Option E) → W × Option E
  (w, some e) then_do k = (w, some e)
  (w, none) then_do k = k w

module _ {W E : Type 0} (cluster : Cluster W E) where
  -- The resource as it is saved: owned by the deployment, where there is one.
  abbrev pub owned : Option Deployment → Object → E ⊎ Object
  owned none o = inr o
  owned (some d) o = if is_meta o then cluster.set_controller_reference d o else inr o

  unfoldable pub save_resources : Option Deployment → List Object → W → W × Option E
  save_resources d [] w = (w, none)
  save_resources d (o ∷ os) w = elim (owned d o) [
    | inl e ↦ (w, some e)
    | inr o' ↦ cluster.save_object o' w then_do save_resources d os
  ]

  unfoldable pub delete_objects : List Object → W → W × Option E
  delete_objects [] w = (w, none)
  delete_objects (o ∷ os) w = cluster.delete_object o w then_do delete_objects os

  abbrev pub save_service : Option Service → W → W × Option E
  save_service none w = (w, none)
  save_service (some s) w = cluster.save_object (service_object s) w

  -- What follows the deployment, which has been saved.
  abbrev pub save_rest : ServiceConfig → Option Deployment → W → W × Option E
  save_rest s d w =
      save_service s.service w
      then_do save_resources d s.resources
      then_do delete_objects s.to_delete

  -- The resources are given the deployment as its save left it.
  abbrev pub after_deployment : ServiceConfig → W × (E ⊎ Deployment) → W × Option E
  after_deployment s (w, inl e) = (w, some e)
  after_deployment s (w, inr d) = save_rest s (some d) w

  abbrev pub save_config : ServiceConfig → W → W × Option E
  save_config s w = elim s.deployment [
    | none ↦ save_rest s none w
    | some d ↦ after_deployment s (cluster.save_deployment_object d w)
  ]

  -- Go visits the map in any order; here it is the order of the list.
  unfoldable pub deploy_config : GeneratedConfig → W → W × Option E
  unfolding save_resources delete_objects
  deploy_config [] w = (w, none)
  deploy_config ((k, s) ∷ gen) w = save_config s w then_do deploy_config gen
