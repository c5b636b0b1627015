-- ===== src/Tests/Deploy.antt =====
-- Deployments, at concrete inputs.
use spinnaker_operator.Base.{
  String, Bool, true, false, ◌≡◌, refl, inl, inr, none, some, List, [], ◌∷◌, ◌++◌, map,
}
use spinnaker_operator.Base.Dict.{lookup}
use spinnaker_operator.Api.Types.{SpinnakerService}
use spinnaker_operator.Detector.Composite.{ChangeDetector, composite}
use spinnaker_operator.Kubernetes.Workload.{Deployment, OtherObject, other_object, GeneratedConfig}
use spinnaker_operator.Deploy.Save.{Cluster, deploy_config}
use spinnaker_operator.Deploy.Save.Actions.{carry_out, actions, deploy_config-run}
use spinnaker_operator.Deploy.Pipeline.{World, Generator, Deployer, prepare, version_of, deploy}
use spinnaker_operator.Deploy.Pipeline.Order.{
  Change, Event, configured, manifests_generated, logged, logger, config_by, manifests_by,
  configured_events, transformed_events, prepare-order,
}
use spinnaker_operator.Deploy.Pipeline.Outcome.{Done, deploy-Done}
use spinnaker_operator.Tests.Fixtures.{no_secrets, spinnaker, gate_service}

abbrev Log : Type 0
Log = List Event

abbrev start : World Log
start = record { context = none; cluster = []; disk = [] }

-- A save or a deletion is noted, and succeeds.
abbrev noting : Cluster (World Log) String
noting = record {
  save_object = λ o w. (logged (configured "save" ∷ []) w, none);
  save_deployment_object =
      λ d w. (logged (configured "save" ∷ []) w, inr (record d { labels = ("uid", "1") ∷ [] }));
  delete_object = λ o w. (logged (configured "delete" ∷ []) w, none);
  set_controller_reference =
      λ d o. elim (lookup "uid" d.labels) [ none ↦ inl "no uid" | some u ↦ inr o ];
}

abbrev gate_deployment : Deployment
gate_deployment = record {
  name = "spin-gate";
  namespace = "prod";
  labels = [];
  replicas = 1;
  ready_replicas = 1;
  containers = [];
  volumes = [];
}

abbrev config_map : OtherObject
config_map = record { kind = "ConfigMap"; name = "gate"; is_meta = true }

abbrev manifests : GeneratedConfig
manifests =
    (
      "gate",
      record {
        deployment = some gate_deployment;
        service = some gate_service;
        resources = other_object config_map ∷ [];
        to_delete = other_object config_map ∷ [];
      },
    )
    ∷ []

deploy_config-run_example :
    deploy_config noting manifests start ≡ carry_out noting (actions manifests) start
deploy_config-run_example = deploy_config-run noting manifests start

abbrev renamed : Change
renamed = record {
  name = "Target";
  change_config = λ n. record n { namespace = "staging" };
  change_manifests = λ l. [];
}

abbrev unchanged : Change
unchanged = record { name = "SetOwner"; change_config = λ n. n; change_manifests = λ l. l }

abbrev found : Bool → ChangeDetector (World Log × SpinnakerService) String
found answer = record {
  name = "config";
  always_run = true;
  is_spinnaker_up_to_date = λ s. (s, inr answer);
}

abbrev deployer : Bool → List (Generator Log String) → Deployer Log String
deployer answer generators = record {
  new_change_detector = inr (found answer ∷ []);
  transformer_generators = generators;
  generate = λ w c. (logged (manifests_generated ∷ []) w, inr manifests);
  cluster = noting;
  update_status = λ w svc. (logged (configured "status" ∷ []) w, none);
}

prepare-order_example :
    prepare (deployer false (map logger (unchanged ∷ renamed ∷ []))) start spinnaker ≡ (
      logged
          (configured_events (unchanged ∷ renamed ∷ [])
            ++ manifests_generated ∷ []
            ++ transformed_events (unchanged ∷ renamed ∷ []))
          start,
      config_by (unchanged ∷ renamed ∷ []) spinnaker,
      inr (manifests_by (unchanged ∷ renamed ∷ []) manifests),
    )
prepare-order_example =
    prepare-order (deployer false (map logger (unchanged ∷ renamed ∷ [])))
      (unchanged ∷ renamed ∷ []) (λ c. manifests) start spinnaker refl (λ v c. refl)

deploy-Done_example :
    let (w2, v) = version_of no_secrets start spinnaker in
    Done
      (deployer false (map logger (renamed ∷ [])))
      spinnaker
      v
      (prepare (deployer false (map logger (renamed ∷ []))) w2 spinnaker)
      (deploy no_secrets (deployer false (map logger (renamed ∷ []))) start spinnaker)
unfolding composite deploy
deploy-Done_example =
    deploy-Done no_secrets (deployer false (map logger (renamed ∷ []))) (found false ∷ []) start
      start spinnaker spinnaker ("config" ∷ []) refl refl refl
