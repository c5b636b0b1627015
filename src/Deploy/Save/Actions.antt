-- ===== src/Deploy/Save/Actions.antt =====
-- pkg/deploy/spindeploy/save.go: saving the manifests, as a flat list of actions.
use spinnaker_operator.Base.{
  ap, Bool, true, false, ◌≡◌, refl, ◌⊎◌, if◌then◌else◌, inl, inr, Option, none, some, List, [], ◌∷◌,
  ◌++◌, sym, ◌∙◌,
}
use spinnaker_operator.Kubernetes.{Service}
use spinnaker_operator.Kubernetes.Workload.{
  Deployment, Object, deployment_object, service_object, secret_object, other_object, ServiceConfig,
  GeneratedConfig,
}
use spinnaker_operator.Deploy.Save.{
  Cluster, ◌then_do◌, is_meta, owned, save_resources, delete_objects, save_service, save_rest,
  after_deployment, save_config, deploy_config,
}

-- What is to be done to the cluster. `own` saves a resource of the current owner, which is the last
-- deployment that was saved since the last `begin`.
pub data Action : Type 0 where
  begin : Action
  save_owner : Deployment → Action
  save : Object → Action
  own : Object → Action
  delete : Object → Action

-- The cluster, and the owner.
abbrev pub Owned : Type 0 → Type 0
Owned W = W × Option Deployment

-- Every kind but one that is no object with metadata can have an owner.
abbrev can_be_owned : Object → Bool
can_be_owned (other_object o) = o.is_meta
can_be_owned _ = true

module _ {W E : Type 0} (cluster : Cluster W E) where
  abbrev owner_saved : W × (E ⊎ Deployment) → Owned W × Option E
  owner_saved (w, inl e) = ((w, none), some e)
  owner_saved (w, inr d) = ((w, some d), none)

  abbrev with_owner : Option Deployment → W × Option E → Owned W × Option E
  with_owner d (w, e) = ((w, d), e)

  abbrev referred : Option Deployment → W → E ⊎ Object → Owned W × Option E
  referred d w (inl e) = ((w, d), some e)
  referred d w (inr o) = with_owner d (cluster.save_object o w)

  abbrev act : Action → Owned W → Owned W × Option E
  act begin (w, d) = ((w, none), none)
  act (save_owner d) (w, old) = owner_saved (cluster.save_deployment_object d w)
  act (save o) (w, d) = with_owner d (cluster.save_object o w)
  act (own o) (w, none) = with_owner none (cluster.save_object o w)
  act (own o) (w, some d) = elim (can_be_owned o) [
    | true ↦ referred (some d) w (cluster.set_controller_reference d o)
    | false ↦ with_owner (some d) (cluster.save_object o w)
  ]
  act (delete o) (w, d) = with_owner d (cluster.delete_object o w)

  -- The actions in order, up to the first that fails.
  unfoldable pub run : List Action → Owned W → Owned W × Option E
  run [] s = (s, none)
  run (a ∷ xs) s = act a s then_do run xs

  abbrev pub without_owner : Owned W × Option E → W × Option E
  without_owner ((w, d), e) = (w, e)

  -- The actions that begin with no owner.
  abbrev pub carry_out : List Action → W → W × Option E
  carry_out xs w = without_owner (run xs (w, none))

abbrev service_actions : Option Service → List Action
service_actions none = []
service_actions (some s) = save (service_object s) ∷ []

abbrev resource_actions : List Object → List Action
resource_actions [] = []
resource_actions (o ∷ os) = own o ∷ resource_actions os

abbrev deletions : List Object → List Action
deletions [] = []
deletions (o ∷ os) = delete o ∷ deletions os

abbrev rest_actions : ServiceConfig → List Action
rest_actions s =
    (service_actions s.service ++ resource_actions s.resources) ++ deletions s.to_delete

abbrev deployment_actions : Option Deployment → List Action
deployment_actions none = []
deployment_actions (some d) = save_owner d ∷ []

-- For each service its deployment, its service, its resources, and then what is to go.
unfoldable pub actions : GeneratedConfig → List Action
actions [] = []
actions ((k, s) ∷ gen) =
    (begin ∷ (deployment_actions s.deployment ++ rest_actions s)) ++ actions gen

module _ {W E : Type 0} (cluster : Cluster W E) where
  then_append :
      (r : Owned W × Option E) (xs ys zs : List Action)
      → ((s : Owned W) → run cluster zs s ≡ (run cluster xs s then_do run cluster ys))
      → (r then_do run cluster zs) ≡ (r then_do run cluster xs then_do run cluster ys)
  then_append (s, some e) xs ys zs h = refl
  then_append (s, none) xs ys zs h = h s

  run-append :
      (xs ys : List Action) (s : Owned W)
      → run cluster (xs ++ ys) s ≡ (run cluster xs s then_do run cluster ys)
  unfolding run
  run-append [] ys s = refl
  run-append (x ∷ xs) ys s = then_append (act cluster x s) xs ys (xs ++ ys) (run-append xs ys)

  -- The owner is kept by what follows too.
  kept :
      (d : Option Deployment) (r : W × Option E) (ys : List Action) (k : W → W × Option E)
      → ((w : W) → run cluster ys (w, d) ≡ with_owner cluster d (k w))
      → (with_owner cluster d r then_do run cluster ys) ≡ with_owner cluster d (r then_do k)
  kept d (w, some e) ys k h = refl
  kept d (w, none) ys k h = h w

  -- Two parts that keep the owner, each done by its actions, are done by the actions of both.
  both :
      (d : Option Deployment) {r : W × Option E} {k : W → W × Option E} (xs ys : List Action)
      (w : W)
      → run cluster xs (w, d) ≡ with_owner cluster d r
      → ((w : W) → run cluster ys (w, d) ≡ with_owner cluster d (k w))
      → run cluster (xs ++ ys) (w, d) ≡ with_owner cluster d (r then_do k)
  both d {r} {k} xs ys w h hs = run-append xs ys (w, d) ∙ rw h (kept d r ys k hs)

  kept_alone :
      (d : Option Deployment) (r : W × Option E)
      → (with_owner cluster d r then_do run cluster []) ≡ with_owner cluster d r
  unfolding run
  kept_alone d (w, some e) = refl
  kept_alone d (w, none) = refl

  save_service-run :
      (d : Option Deployment) (s : Option Service) (w : W)
      → run cluster (service_actions s) (w, d) ≡ with_owner cluster d (save_service cluster s w)
  unfolding run
  save_service-run d none w = refl
  save_service-run d (some s) w = kept_alone d (cluster.save_object (service_object s) w)

  abbrev saved_as : W → E ⊎ Object → W × Option E
  saved_as w (inl e) = (w, some e)
  saved_as w (inr o) = cluster.save_object o w

  can_be_owned-same : (o : Object) → can_be_owned o ≡ is_meta o
  can_be_owned-same (deployment_object d) = refl
  can_be_owned-same (service_object d) = refl
  can_be_owned-same (secret_object d) = refl
  can_be_owned-same (other_object d) = refl

  referred-same :
      (d : Option Deployment) (w : W) (r : E ⊎ Object)
      → referred cluster d w r ≡ with_owner cluster d (saved_as w r)
  referred-same d w (inl e) = refl
  referred-same d w (inr o) = refl

  own-owned :
      (d : Option Deployment) (o : Object) (w : W)
      → act cluster (own o) (w, d) ≡ with_owner cluster d (saved_as w (owned cluster d o))
  own-owned none o w = refl
  own-owned (some d) o w = rw (← can_be_owned-same o) (at (can_be_owned o))
    where
      at :
          (b : Bool)
          → (elim b [
            | true ↦ referred cluster (some d) w (cluster.set_controller_reference d o)
            | false ↦ with_owner cluster (some d) (cluster.save_object o w)
          ])
            ≡ with_owner cluster
                (some d)
                (saved_as w (if b then cluster.set_controller_reference d o else inr o))
      at true = referred-same (some d) w (cluster.set_controller_reference d o)
      at false = refl

  one_saved :
      (w : W) (r : E ⊎ Object) (k : W → W × Option E)
      → (saved_as w r then_do k)
        ≡ elim r [ inl e ↦ (w, some e) | inr o ↦ cluster.save_object o w then_do k ]
  one_saved w (inl e) k = refl
  one_saved w (inr o) k = refl

  save_resources-run :
      (d : Option Deployment) (os : List Object) (w : W)
      → run cluster (resource_actions os) (w, d)
        ≡ with_owner cluster d (save_resources cluster d os w)
  unfolding run save_resources
  save_resources-run d [] w = refl
  save_resources-run d (o ∷ os) w =
      rw (own-owned d o w) (
        kept d (saved_as w (owned cluster d o)) (resource_actions os) (save_resources cluster d os)
          (save_resources-run d os))
      ∙ ap (with_owner cluster d) (one_saved w (owned cluster d o) (save_resources cluster d os))

  delete_objects-run :
      (d : Option Deployment) (os : List Object) (w : W)
      → run cluster (deletions os) (w, d) ≡ with_owner cluster d (delete_objects cluster os w)
  unfolding run delete_objects
  delete_objects-run d [] w = refl
  delete_objects-run d (o ∷ os) w =
      kept d (cluster.delete_object o w) (deletions os) (delete_objects cluster os)
        (delete_objects-run d os)

  save_rest-run :
      (s : ServiceConfig) (d : Option Deployment) (w : W)
      → run cluster (rest_actions s) (w, d) ≡ with_owner cluster d (save_rest cluster s d w)
  save_rest-run s d w =
      let one = service_actions s.service in
      let two = resource_actions s.resources in
      both d (one ++ two) (deletions s.to_delete) w
        (both d one two w (save_service-run d s.service w) (save_resources-run d s.resources))
        (delete_objects-run d s.to_delete)

  without_with :
      (d : Option Deployment) (r : W × Option E)
      → without_owner cluster (with_owner cluster d r) ≡ r
  without_with d (w, e) = refl

  after_deployment-run :
      (s : ServiceConfig) (r : W × (E ⊎ Deployment))
      → without_owner cluster (owner_saved cluster r then_do run cluster (rest_actions s))
        ≡ after_deployment cluster s r
  after_deployment-run s (w, inl e) = refl
  after_deployment-run s (w, inr d) =
      ap (without_owner cluster) (save_rest-run s (some d) w)
      ∙ without_with (some d) (save_rest cluster s (some d) w)

  save_config-run :
      (s : ServiceConfig) (o : Option Deployment) (w : W)
      → without_owner cluster
          (run cluster (begin ∷ (deployment_actions s.deployment ++ rest_actions s)) (w, o))
        ≡ save_config cluster s w
  unfolding run
  save_config-run s o w = at s.deployment
    where
      at :
          (d : Option Deployment)
          → without_owner cluster
              (run cluster (begin ∷ (deployment_actions d ++ rest_actions s)) (w, o))
            ≡ elim d [
              | none ↦ save_rest cluster s none w
              | some d ↦ after_deployment cluster s (cluster.save_deployment_object d w)
            ]
      at none =
          ap (without_owner cluster) (save_rest-run s none w)
          ∙ without_with none (save_rest cluster s none w)
      at (some d) = after_deployment-run s (cluster.save_deployment_object d w)

  followed :
      (r : Owned W × Option E) (ys : List Action) (k : W → W × Option E)
      → ((w : W) (o : Option Deployment) → without_owner cluster (run cluster ys (w, o)) ≡ k w)
      → without_owner cluster (r then_do run cluster ys) ≡ (without_owner cluster r then_do k)
  followed ((w, o), some e) ys k h = refl
  followed ((w, o), none) ys k h = h w o

  from_any :
      (gen : GeneratedConfig) (w : W) (o : Option Deployment)
      → without_owner cluster (run cluster (actions gen) (w, o)) ≡ deploy_config cluster gen w
  unfolding deploy_config actions run
  from_any [] w o = refl
  from_any ((k, s) ∷ gen) w o =
      let one = begin ∷ (deployment_actions s.deployment ++ rest_actions s) in
      ap (without_owner cluster) (run-append one (actions gen) (w, o))
      ∙ followed (run cluster one (w, o)) (actions gen) (deploy_config cluster gen) (from_any gen)
      ∙ rw (save_config-run s o w) refl

  -- Saving the manifests is carrying out their flat list of actions, in its order and up to the
  -- first that fails: per service the deployment, the service, each resource, then each deletion.
  -- A resource with metadata is owned by the deployment of its service, as the save of the
  -- deployment left it, where there is one. The cluster and the error are the same.
  pub deploy_config-run :
      (gen : GeneratedConfig) (w : W)
      → deploy_config cluster gen w ≡ carry_out cluster (actions gen) w
  deploy_config-run gen w = sym (from_any gen w none)
