-- ===== src/Kubernetes/Workload.antt =====
-- Deployments, pods and secrets, as far as the operator reads or writes them; and
-- pkg/generated: the manifests that Halyard generates.
use spinnaker_operator.Base.{ℕ, String, Bool, Option, List}
use spinnaker_operator.Base.Number.{ℤ}
use spinnaker_operator.Base.Dict.{Dict}
use spinnaker_operator.Kubernetes.{Service}

-- `from_source` is that `ValueFrom` is given.
pub record EnvVar : Type 0 where
  pub name : String
  pub value : String
  pub from_source : Bool

pub record VolumeMount : Type 0 where
  pub name : String
  pub mount_path : String

-- A probe runs a command, or gets a path on a port.
pub record Probe : Type 0 where
  pub exec : Option (List String)
  pub http_get : Option (String × ℤ)

-- `ports` are the container ports.
pub record Container : Type 0 where
  pub name : String
  pub image : String
  pub env : List EnvVar
  pub volume_mounts : List VolumeMount
  pub ports : List ℤ
  pub readiness_probe : Option Probe

-- `secret` is the `SecretName` of a volume that is a secret.
pub record Volume : Type 0 where
  pub name : String
  pub secret : Option String

pub record Deployment : Type 0 where
  pub name : String
  pub namespace : String
  pub labels : Dict String
  pub replicas : ℕ
  pub ready_replicas : ℕ
  pub containers : List Container
  pub volumes : List Volume

-- `contents` is `Data`.
pub record Secret : Type 0 where
  pub name : String
  pub namespace : String
  pub contents : Dict String

-- An object of another kind; `is_meta` is that it is a `metav1.Object`.
pub record OtherObject : Type 0 where
  pub kind : String
  pub name : String
  pub is_meta : Bool

pub data Object : Type 0 where
  deployment_object : Deployment → Object
  service_object : Service → Object
  secret_object : Secret → Object
  other_object : OtherObject → Object

pub record ServiceConfig : Type 0 where
  pub deployment : Option Deployment
  pub service : Option Service
  pub resources : List Object
  pub to_delete : List Object

-- `SpinnakerGeneratedConfig`: the manifests by the name of the service.
abbrev pub GeneratedConfig : Type 0
GeneratedConfig = Dict ServiceConfig
