-- ===== src/Kubernetes.antt =====
-- The Kubernetes objects and calls that the operator uses, as far as it reads or writes them.
pub mod Workload
use spinnaker_operator.Base.{
  ℕ, String, Bool, ◌⊎◌, inl, inr, Option, none, some, List, ◌==◌, if◌then◌else◌,
}
use spinnaker_operator.Base.Number.{ℤ}
use spinnaker_operator.Base.Dict.{Dict}

-- `target_port` is the `IntVal` of the port that the pods listen on.
pub record ServicePort : Type 0 where
  pub name : String
  pub port : ℤ
  pub target_port : ℤ
  pub protocol : String

pub record LoadBalancerIngress : Type 0 where
  pub hostname : String
  pub ip : String

pub record Service : Type 0 where
  pub name : String
  pub namespace : String
  pub type : String
  pub ports : List ServicePort
  pub annotations : Dict String
  pub ingress : List LoadBalancerIngress

-- What `client.Get` fails with: the API server's status code, or something else.
pub data GetError : Type 0 where
  status_error : ℕ → GetError
  other_error : String → GetError

-- The services by name and namespace, as the client answers.
abbrev pub Services : Type 0
Services = String → String → GetError ⊎ Service

-- pkg/util/runtime.go: a service that does not exist is no error.
unfoldable pub get_service : Services → String → String → GetError ⊎ Option Service
get_service client name namespace = elim (client name namespace) [
  | inr svc ↦ inr (some svc)
  | inl (status_error n) ↦ if n == 404 then inr none else inl (status_error n)
  | inl (other_error e) ↦ inl (other_error e)
]
