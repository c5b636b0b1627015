-- ===== src/Deploy/Pipeline/Order.antt =====
-- pkg/deploy/spindeploy/spindeploy.go: the order in which the transformers act.
use spinnaker_operator.Base.{
  String, ◌≡◌, refl, ◌∙◌, inr, none, List, [], ◌∷◌, ◌++◌, map, append_assoc, append-nil, arith,
}
use spinnaker_operator.Config.{SpinnakerConfig}
use spinnaker_operator.Api.Types.{SpinnakerService}
use spinnaker_operator.Kubernetes.Workload.{GeneratedConfig}
use spinnaker_operator.Deploy.Pipeline.{
  World, Transformer, Generator, Deployer, configure, transform_all, backwards, prepare,
}

-- A transformer that succeeds, by what it does.
pub record Change : Type 0 where
  pub name : String
  pub change_config : SpinnakerService → SpinnakerService
  pub change_manifests : GeneratedConfig → GeneratedConfig

-- What it leaves in a log.
pub data Event : Type 0 where
  configured transformed : String → Event
  manifests_generated : Event

abbrev pub logged : List Event → World (List Event) → World (List Event)
logged events w = record w { cluster = w.cluster ++ events }

module _ {E : Type 0} where
  abbrev pub logging : Change → Transformer (List Event) E
  logging t = record {
    transform_config = λ w n. (logged (configured t.name ∷ []) w, t.change_config n, none);
    transform_manifests =
        λ w n l. (logged (transformed t.name ∷ []) w, n, t.change_manifests l, none);
  }

  abbrev pub logger : Change → Generator (List Event) E
  logger t = record { name = t.name; new_transformer = λ w n. (w, n, inr (logging t)) }

-- The configuration after all the changes, the first of them made first.
abbrev pub config_by : List Change → SpinnakerService → SpinnakerService
config_by [] n = n
config_by (t ∷ ts) n = config_by ts (t.change_config n)

-- The manifests after all the changes, the first of them made last.
abbrev pub manifests_by : List Change → GeneratedConfig → GeneratedConfig
manifests_by [] l = l
manifests_by (t ∷ ts) l = t.change_manifests (manifests_by ts l)

abbrev pub configured_events : List Change → List Event
configured_events [] = []
configured_events (t ∷ ts) = configured t.name ∷ configured_events ts

-- The last transformer's event comes first.
abbrev pub transformed_events : List Change → List Event
transformed_events [] = []
transformed_events (t ∷ ts) = transformed_events ts ++ transformed t.name ∷ []

logged-logged :
    (xs ys : List Event) (w : World (List Event)) → logged ys (logged xs w) ≡ logged (xs ++ ys) w
logged-logged xs ys w = rw (append_assoc w.cluster xs ys) refl

module _ {E : Type 0} where
  configure-loggers :
      (ts : List Change) (w : World (List Event)) (n : SpinnakerService)
      (made : List (Transformer (List Event) E))
      → configure (map logger ts) w n made
        ≡ (logged (configured_events ts) w, config_by ts n, inr (made ++ map logging ts))
  unfolding configure
  configure-loggers [] w n made = rw (append-nil w.cluster, append-nil made) refl
  configure-loggers (t ∷ ts) w n made =
      let w1 = logged (configured t.name ∷ []) w in
      rw (configure-loggers ts w1 (t.change_config n) (made ++ logging t ∷ [])) (
        rw
          (
            append_assoc w.cluster (configured t.name ∷ []) (configured_events ts),
            append_assoc made (logging t ∷ []) (map logging ts),
          )
          refl)

  transform_all-append :
      (xs ys : List (Transformer (List Event) E)) (w w' : World (List Event))
      (n n' : SpinnakerService) (l l' : GeneratedConfig)
      → transform_all xs w n l ≡ (w', n', inr l')
      → transform_all (xs ++ ys) w n l ≡ transform_all ys w' n' l'
  unfolding transform_all
  transform_all-append [] ys w w' n n' l l' h = ground (arith, h)
  transform_all-append (x ∷ xs) ys w w' n n' l l' h =
      let r = x.transform_manifests w n l in
      ground (arith, h, transform_all-append xs ys r.0 w' r.1 n' r.2 l')

  transform_all-backwards :
      (ts : List Change) (w : World (List Event)) (n : SpinnakerService) (l : GeneratedConfig)
      → transform_all (backwards (map (logging {E = E}) ts)) w n l
        ≡ (logged (transformed_events ts) w, n, inr (manifests_by ts l))
  unfolding transform_all backwards
  transform_all-backwards [] w n l = rw (append-nil w.cluster) refl
  transform_all-backwards (t ∷ ts) w n l =
      let w1 = logged (transformed_events ts) w in
      transform_all-append (backwards (map logging ts)) (logging t ∷ []) w w1 n n l
        (manifests_by ts l) (transform_all-backwards ts w n l)
      ∙ rw (append_assoc w.cluster (transformed_events ts) (transformed t.name ∷ [])) refl

  -- With transformers that succeed, a deployer applies their changes of the configuration in
  -- their order, generates the manifests from the configuration that this gives, and applies the
  -- changes of the manifests in the reverse order; the log shows each call once.
  pub prepare-order :
      (d : Deployer (List Event) E) (ts : List Change) (make : SpinnakerConfig → GeneratedConfig)
      (w : World (List Event)) (n : SpinnakerService)
      → d.transformer_generators ≡ map logger ts
      → ((v : World (List Event)) (c : SpinnakerConfig)
          → d.generate v c ≡ (logged (manifests_generated ∷ []) v, inr (make c)))
      → prepare d w n ≡ (
        logged (configured_events ts ++ manifests_generated ∷ [] ++ transformed_events ts) w,
        config_by ts n,
        inr (manifests_by ts (make (config_by ts n).spinnaker_config)),
      )
  unfolding prepare
  prepare-order d ts make w n hs gen =
      let w1 = logged (configured_events ts) w in
      let c = (config_by ts n).spinnaker_config in
      let w2 = logged (manifests_generated ∷ []) w1 in
      rw
        (
          hs,
          configure-loggers ts w n [],
          gen w1 c,
          transform_all-backwards ts w2 (config_by ts n) (make c),
        )
        (rw
          (
            append_assoc w.cluster (configured_events ts) (manifests_generated ∷ []),
            append_assoc w.cluster (configured_events ts ++ manifests_generated ∷ [])
                (transformed_events ts),
          )
          refl)
