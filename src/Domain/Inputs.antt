-- ===== src/Domain/Inputs.antt =====
-- What a client sends: the input types of internal/domain/models.go. A pointer that may be nil is
-- an `Option`.
use golden_path_control_plan.Prelude.{String, Bool, Option, ℤ, Float64}
use golden_path_control_plan.Domain.Models.{Uuid}

pub record SloPolicyInput : Type 0 where
  pub availability_target_percent : Float64
  pub latency_target_milliseconds : ℤ
  pub window : String

pub record ServiceInput : Type 0 where
  pub name : String
  pub description : String
  pub owner_email : String
  pub repository_url : String
  pub runbook_url : String
  pub health_endpoint_url : String
  pub observability_url : String
  pub deployment_pipeline : String
  pub has_ci : Bool
  pub has_tracing : Bool
  pub has_metrics : Bool
  pub language : String
  pub tier : ℤ
  pub lifecycle : String
  pub slo_policy : SloPolicyInput

pub record ServicePatch : Type 0 where
  pub description : Option String
  pub owner_email : Option String
  pub repository_url : Option String
  pub runbook_url : Option String
  pub health_endpoint_url : Option String
  pub observability_url : Option String
  pub deployment_pipeline : Option String
  pub has_ci : Option Bool
  pub has_tracing : Option Bool
  pub has_metrics : Option Bool
  pub language : Option String
  pub tier : Option ℤ
  pub lifecycle : Option String
  pub slo_policy : Option SloPolicyInput

pub record DeploymentCandidateInput : Type 0 where
  pub service_id : Uuid
  pub environment : String
  pub version : String
  pub commit_sha : String
  pub requested_by : String
