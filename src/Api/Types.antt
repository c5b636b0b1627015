-- ===== src/Api/Types.antt =====
-- pkg/apis/spinnaker/interfaces/interfaces.go: the types of a SpinnakerService.
use spinnaker_operator.Base.{ℕ, String, Bool, Option, List}
use spinnaker_operator.Base.Number.{ℤ}
use spinnaker_operator.Base.Dict.{Dict}
use spinnaker_operator.Config.{SpinnakerConfig}

-- An instant in nanoseconds; 0 is the zero time.
abbrev pub Time : Type 0
Time = ℕ

-- `frequency_seconds` is what `IntValue` gives.
pub record ValidationSetting : Type 0 where
  pub enabled : Bool
  pub fail_on_error : Option Bool
  pub frequency_seconds : ℤ

pub record SpinnakerValidation : Type 0 where
  pub fail_on_error : Option Bool
  pub frequency_seconds : ℤ
  pub fail_fast : Bool
  pub providers : Dict ValidationSetting

pub record ExposeConfigServiceOverrides : Type 0 where
  pub type : String
  pub public_port : ℤ
  pub annotations : Dict String

pub record ExposeConfigService : Type 0 where
  pub type : String
  pub annotations : Dict String
  pub public_port : ℤ
  pub overrides : Dict ExposeConfigServiceOverrides

pub record ExposeConfig : Type 0 where
  pub type : String
  pub service : ExposeConfigService

pub record Kustomization : Type 0 where
  pub patches_strategic_merge : List String
  pub patches_json6902 : String
  pub patches : List String

pub record ServiceKustomization : Type 0 where
  pub service : Option Kustomization
  pub deployment : Option Kustomization

pub record HashStatus : Type 0 where
  pub hash : String
  pub last_updated_at : Time

pub record SpinnakerDeploymentStatus : Type 0 where
  pub name : String
  pub image : String
  pub replicas : ℕ
  pub ready_replicas : ℕ

pub record SpinnakerServiceStatus : Type 0 where
  pub version : String
  pub last_deployed : Dict HashStatus
  pub services : List SpinnakerDeploymentStatus
  pub status : String
  pub service_count : ℕ
  pub ui_url : String
  pub api_url : String

pub record SpinnakerService : Type 0 where
  pub name : String
  pub namespace : String
  pub spinnaker_config : SpinnakerConfig
  pub validation : SpinnakerValidation
  pub expose : ExposeConfig
  pub accounts_enabled : Bool
  pub kustomize : Dict ServiceKustomization
  pub status : SpinnakerServiceStatus
