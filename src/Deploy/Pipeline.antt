-- ===== src/Deploy/Pipeline.antt =====
-- pkg/deploy/spindeploy/spindeploy.go: detect a change, apply the options to the configuration,
-- generate the manifests, apply the options to them, save them, and set the status.
pub mod Order
pub mod Outcome
use spinnaker_operator.Base.{
  String, Bool, true, false, not, ◌⊎◌, inl, inr, Option, none, some, List, [], ◌∷◌, ◌++◌,
}
use spinnaker_operator.Secrets.Context.{SecretContext}
use spinnaker_operator.Secrets.Decode.{Engines}
use spinnaker_operator.Config.{SpinnakerConfig, get_hal_config_prop_string}
use spinnaker_operator.Api.Types.{SpinnakerService}
use spinnaker_operator.Detector.Composite.{ChangeDetector, composite}
use spinnaker_operator.Expose.Port.{text_of}
use spinnaker_operator.Kubernetes.Workload.{GeneratedConfig}
use spinnaker_operator.Deploy.Save.{Cluster, deploy_config}

-- What the calls act on: the request's context, the cluster, and the paths that exist on disk.
pub record World (C : Type 0) : Type 0 where
  pub context : Option SecretContext
  pub cluster : C
  pub disk : List String

module _ (C E : Type 0) where
  -- Transformers share one copy of the SpinnakerService, which they may change.
  pub record Transformer : Type 0 where
    pub transform_config : World C → SpinnakerService → World C × SpinnakerService × Option E
    pub transform_manifests :
        World C
        → SpinnakerService
        → GeneratedConfig
        → World C × SpinnakerService × GeneratedConfig × Option E

  pub record Generator : Type 0 where
    pub name : String
    pub new_transformer :
        World C → SpinnakerService → World C × SpinnakerService × (E ⊎ Transformer)

  -- The parts that a deployer is built from, and the client's update of the status.
  pub record Deployer : Type 0 where
    pub new_change_detector : E ⊎ List (ChangeDetector (World C × SpinnakerService) E)
    pub transformer_generators : List Generator
    pub generate : World C → SpinnakerConfig → World C × (E ⊎ GeneratedConfig)
    pub cluster : Cluster (World C) E
    pub update_status : World C → SpinnakerService → World C × Option E

  -- The world, the SpinnakerService, whether to requeue, and the error.
  abbrev pub Deployed : Type 0
  Deployed = World C × SpinnakerService × Bool × Option E

-- What is configured so far, or an error.
abbrev pub Configuring : Type 0 → Type 0 → Type 0
Configuring C E = World C × SpinnakerService × (E ⊎ List (Transformer C E))

-- `transformers[len(transformers)-i-1]` for i from 0.
unfoldable pub backwards : {A : Type 0} → List A → List A
backwards [] = []
backwards (x ∷ xs) = backwards xs ++ x ∷ []

module _ {C E : Type 0} where
  abbrev pub with_config :
      (World C → SpinnakerService → Configuring C E)
      → World C × SpinnakerService × Option E
      → Configuring C E
  with_config next (w, n, some e) = (w, n, inl e)
  with_config next (w, n, none) = next w n

  abbrev pub with_transformer :
      (Transformer C E → World C → SpinnakerService → Configuring C E)
      → World C × SpinnakerService × (E ⊎ Transformer C E)
      → Configuring C E
  with_transformer next (w, n, inl e) = (w, n, inl e)
  with_transformer next (w, n, inr tr) = with_config (next tr) (tr.transform_config w n)

  -- Each transformer is made, and changes the configuration, before the next one is made.
  unfoldable pub configure :
      List (Generator C E) → World C → SpinnakerService → List (Transformer C E) → Configuring C E
  configure [] w n made = (w, n, inr made)
  configure (g ∷ gs) w n made =
      with_transformer (λ tr w' n'. configure gs w' n' (made ++ tr ∷ [])) (g.new_transformer w n)

  unfoldable pub transform_all :
      List (Transformer C E)
      → World C
      → SpinnakerService
      → GeneratedConfig
      → World C × SpinnakerService × (E ⊎ GeneratedConfig)
  transform_all [] w n l = (w, n, inr l)
  transform_all (tr ∷ trs) w n l =
      let (w1, n1, l1, failed) = tr.transform_manifests w n l in
      elim failed [ some e ↦ (w1, n1, inl e) | none ↦ transform_all trs w1 n1 l1 ]

  abbrev transform_generated :
      List (Transformer C E)
      → SpinnakerService
      → World C × (E ⊎ GeneratedConfig)
      → World C × SpinnakerService × (E ⊎ GeneratedConfig)
  transform_generated trs n (w, inl e) = (w, n, inl e)
  transform_generated trs n (w, inr l) = transform_all (backwards trs) w n l

  abbrev generated :
      Deployer C E
      → World C × SpinnakerService × (E ⊎ List (Transformer C E))
      → World C × SpinnakerService × (E ⊎ GeneratedConfig)
  generated d (w, n, inl e) = (w, n, inl e)
  generated d (w, n, inr trs) = transform_generated trs n (d.generate w n.spinnaker_config)

  -- The manifests to save, from a copy of the SpinnakerService; the copy is returned as well.
  unfoldable pub prepare :
      Deployer C E → World C → SpinnakerService → World C × SpinnakerService × (E ⊎ GeneratedConfig)
  unfolding configure transform_all backwards
  prepare d w n = generated d (configure d.transformer_generators w n [])

  abbrev status_set : SpinnakerService → World C × Option E → Deployed C E
  status_set svc (w, e) = (w, svc, true, e)

  abbrev saved :
      Deployer C E
      → SpinnakerService
      → SpinnakerService
      → String
      → World C × Option E
      → Deployed C E
  saved d svc n v (w, some e) = (w, svc, true, some e)
  saved d svc n v (w, none) =
      let svc' = record svc { status = record n.status { version = v } } in
      status_set svc' (d.update_status w svc')

  abbrev prepared :
      Deployer C E
      → SpinnakerService
      → String
      → World C × SpinnakerService × (E ⊎ GeneratedConfig)
      → Deployed C E
  prepared d svc v (w, n, inl e) = (w, svc, true, some e)
  prepared d svc v (w, n, inr l) = saved d svc n v (deploy_config d.cluster l w)

module _ {C X : Type 0} (eng : Engines X) where
  -- The version that is configured, its error ignored.
  abbrev pub version_of : World C → SpinnakerService → World C × String
  version_of w svc =
      let (ctx, v) =
        text_of (get_hal_config_prop_string eng w.context svc.spinnaker_config "version") in
      (record w { context = ctx }, v)

module _ {C E X : Type 0} (eng : Engines X) where
  abbrev redeploy : Deployer C E → SpinnakerService → World C × String → Deployed C E
  redeploy d svc (w, v) = prepared d svc v (prepare d w svc)

  -- A detector that fails gives `false` with its error.
  abbrev detected :
      Deployer C E → (World C × SpinnakerService) × (E ⊎ Bool) × List String → Deployed C E
  detected d ((w, svc), inl e, events) = (w, svc, true, some e)
  detected d ((w, svc), inr true, events) = (w, svc, false, none)
  detected d ((w, svc), inr false, events) = redeploy d svc (version_of eng w svc)

  unfoldable pub deploy : Deployer C E → World C → SpinnakerService → Deployed C E
  unfolding composite prepare deploy_config
  deploy d w svc = elim d.new_change_detector [
    | inl e ↦ (w, svc, false, some e)
    | inr ds ↦ detected d (composite ds (w, svc))
  ]
