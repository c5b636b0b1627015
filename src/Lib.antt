-- ===== src/Lib.antt =====
-- The Spinnaker operator, a Kubernetes operator in Go that deploys Spinnaker from a SpinnakerService
-- resource: a model of its core, and what holds of it.
--
-- A reconciliation (Controller) reads the SpinnakerService, gives it to the deployer (Deploy), and
-- checks the status of the pods. The deployer asks the change detectors (Detector, Expose) whether
-- anything has changed; if so, it lets the transformers (Expose, Transform, and others that are
-- parameters) change a copy of the SpinnakerService, has Halyard generate manifests, lets the
-- transformers change these, saves them, and writes the status. The admission webhooks (Webhook)
-- validate SpinnakerServices (Validate) and the accounts of Spinnaker's providers (Accounts), which the
-- operator also writes into the secrets of the services. All of them read and write the configuration
-- (Config), which is a free-form value (Inspect) whose texts may be secret references (Secrets).
--
-- Files, and the code they are about:
--   Inspect/Value, Getter, Setter, Merge, Source, Json, Strings: pkg/inspect/getter.go, setter.go, parse.go. A
--     value is nil, a boolean, an integer, a float (as printed), a text, a slice or a map. Where Go writes
--     through a reference, the model puts the changed child back into its container.
--   Secrets/Params, Context, Decode: pkg/secrets/kubernetes.go, context.go, secrets.go.
--   Config: pkg/apis/spinnaker/interfaces/config.go.
--   Api/Types, Hash, Items: pkg/apis/spinnaker/interfaces/interfaces.go and validation.go, and
--     pkg/apis/spinnaker/v1alpha2. Instants and durations are in nanoseconds, the zero time is 0.
--   Detector/Composite, Config: pkg/deploy/spindeploy/changedetector, pkg/deploy/spindeploy/config.
--   Kubernetes, Kubernetes/Workload: the objects and calls that are used, pkg/generated.
--   Http: pkg/util/http.go.
--   Expose/Annotations, Port, LoadBalancer: pkg/util/runtime.go, and GetAggregatedAnnotations.
--   Expose/Service, Ingress, X509: pkg/deploy/spindeploy/expose_service, expose_ingress and x509.
--   Deploy/Save, Pipeline: pkg/deploy/spindeploy/save.go and spindeploy.go.
--   Transform/Settings, AwsKeys, SecretCollector, Secrets, Containers, Accounts: spinsvcsettings.go, target.go,
--     secrets.go and accounts.go of pkg/deploy/spindeploy/transformer, pkg/util/find.go and manifests.go.
--   Accounts/Env, Kubernetes, Service: pkg/accounts/accounts.go, service.go and account/base.go, and
--     kubernetes.go and parse.go of pkg/accounts/kubernetes. Accounts/AuthSettings, Cluster, Client,
--     Validator: validator.go of that directory.
--   Validate/Outcome, Parallel, All, Accounts: pkg/validate/validate.go, parallel.go, accounts.go,
--     single_namespace.go, version.go and hal_validation.go. The goroutines of the validators and the loop
--     that receives their results are a step relation, in which any of the validators whose result is
--     pending may be next.
--   Validate/Docker: pkg/validate/docker_validator.go and docker_service.go. The requests of the
--     repositories of one registry are made one after the other. Validate/Docker/Repositories has the
--     reads and writes that their goroutines make to the slice they share, in any order; what is left in
--     the slice is a function of the results (left_by_goroutines of World), which theorems take to be
--     the end of some run of these.
--   Webhook/Service, Account: pkg/controller/spinnakervalidating and accountvalidating.
--   Controller/Lookup, Status, Reconcile: pkg/util/k8s_lookup.go, and status.go and
--     spinnakerservice_controller.go of pkg/controller/spinnakerservice.
--   Base: shared types and lemmas. Tests: the theorems at concrete inputs.
--
-- Conventions. A function that changes state takes the state and returns it; Base/Io has the chains of
-- such calls. `(T, error)` is a sum, a Result, or a pair with an Option where the code uses the value
-- beside an error; a Go panic is a case of Base/Result. A map is an association list without a repeated
-- key, and Go's order of iteration is the order of that list. int32 and int are integers; parse_int
-- gives the error of strconv out of the range of its bits. Deep copies are the value itself, since values
-- here are not shared. All recursion is structural, and there is no fuel but in format_int, which gives
-- one step for each unit of its argument, more than it has digits.
--
-- Parameters stand for code outside of the repository: the engines of the secrets library (Engines,
-- and EngineOf for the engine of a reference), YAML of a secret's contents (SecretLibrary),
-- JSON with MD5 (Hashes, HashOf) and JSON (Json), net/url (Parse), net/http (Web), the Kubernetes client (Services,
-- Reader, Cluster, IngressApi, Kube and the Cluster of Accounts), Halyard (generate, Halyard), and the shell
-- and files of a registry's password (World). Base64 decoding is an argument of get_file_content.
--
-- Not modelled: logs and events (but for the detectors' own), the transformers of patches, defaults,
-- ports, owners and statistics, the controller of SpinnakerAccounts, the certificates of the webhooks, the
-- HTTP client of Halyard, and start-up. Hosts and paths in URLs are taken to need no escape, frequencies to
-- be integers, and names and keys of secrets to be ASCII and to need no cleaning as a path.
pub mod Accounts
pub mod Api
pub mod Base
pub mod Config
pub mod Controller
pub mod Deploy
pub mod Detector
pub mod Expose
pub mod Http
pub mod Inspect
pub mod Kubernetes
pub mod Secrets
pub mod Tests
pub mod Transform
pub mod Validate
pub mod Webhook
