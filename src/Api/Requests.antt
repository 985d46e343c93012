-- ===== src/Api/Requests.antt =====
-- What the HTTP API receives and sends.
use golden_path_control_plan.Prelude.{ℕ, String, List}
use golden_path_control_plan.Fallible.{Fallible}
use golden_path_control_plan.Domain.Models.{
  Uuid, JobStatus, Service, Scorecard, DeploymentCandidate, AuditEvent,
}
use golden_path_control_plan.Domain.Inputs.{ServiceInput, ServicePatch, DeploymentCandidateInput}
use golden_path_control_plan.Effects.{Env}
use golden_path_control_plan.Config.Settings.{Platform}
use golden_path_control_plan.Auth.{TokenValidator}
use golden_path_control_plan.Httpx.{Document}

-- What the handlers use: the control plane with its setting, the validator of tokens, and `uuid.Parse`
pub record Server : Type 0 where
  pub env : Env
  pub os : Platform
  pub job_max_attempts : ℕ
  pub validator : TokenValidator
  pub parse_uuid : String → Fallible Uuid
  -- the `Message` of a `pgconn.PgError` with the code 23505
  pub unique_message : String

-- The routes behind `authMiddleware`, with the texts of their parameters, headers and queries
pub data Guarded : Type 0 where
  post_service : Document ServiceInput → Guarded
  patch_service : String → Document ServicePatch → Guarded
  post_evaluation : String → String → Guarded
  get_scorecard : String → Guarded
  post_candidate : Document DeploymentCandidateInput → Guarded
  post_candidate_evaluation : String → Guarded
  get_candidate : String → Guarded
  get_audit_events : String → String → String → Guarded

pub data Endpoint : Type 0 where
  healthz readyz : Endpoint
  guarded : Guarded → Endpoint

pub record Request : Type 0 where
  -- the headers `X-Request-Id` and `Authorization`, empty where they are missing
  pub sent_id : String
  pub authorization : String
  pub endpoint : Endpoint

pub data Payload : Type 0 where
  service : Service → Payload
  job_accepted : Uuid → JobStatus → String → Payload
  scorecard : Scorecard → Payload
  candidate : DeploymentCandidate → Payload
  items : List AuditEvent → Payload
  status_text : String → Payload
