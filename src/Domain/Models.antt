-- ===== src/Domain/Models.antt =====
-- The types of internal/domain/models.go that the store keeps. An identifier is the number that
-- the 16 bytes of a `uuid.UUID` spell; a time is a count of microseconds, the resolution of the
-- database; a `map[string]any` is a list of its entries.
use golden_path_control_plan.Prelude.{ℕ, String, Bool, Option, List, ℤ, Float64}

abbrev pub Uuid : Type 0
Uuid = ℕ

-- uuid.Nil
abbrev pub uuid_nil : Uuid
uuid_nil = 0

abbrev pub Time : Type 0
Time = ℕ

-- A role comes from a token's claim, so it may be any text.
pub data Role : Type 0 where
  engineer platform_admin : Role
  unknown_role : String → Role

pub data ReadinessState : Type 0 where
  ready degraded blocked : ReadinessState

pub data CheckStatus : Type 0 where
  pass warn fail : CheckStatus

pub data CandidateStatus : Type 0 where
  pending approved rejected : CandidateStatus

-- Two types of the source have a `pending`: this one's constructors are written behind the type.
pub data JobStatus : Type 0 where
  pending processing completed failed : JobStatus

pub data JobType : Type 0 where
  service_evaluation : JobType
  other_type : String → JobType

-- The values of a `map[string]any` that the program builds.
pub data Value : Type 0 where
  text : String → Value
  number : ℕ → Value

pub record SloPolicy : Type 0 where
  pub id : Uuid
  pub service_id : Uuid
  pub availability_target_percent : Float64
  pub latency_target_milliseconds : ℤ
  pub time_window : String
  pub created_at : Time
  pub updated_at : Time

pub record Service : Type 0 where
  pub id : Uuid
  pub name : String
  pub description : String
  pub owner_email : String
  pub repository_url : String
  pub runbook_url : String
  pub health_endpoint_url : String
  pub observability_url : String
  pub deployment_pipeline : String
  pub has_ci : Bool
  pub has_tracing : Bool
  pub has_metrics : Bool
  pub language : String
  pub tier : ℤ
  pub lifecycle : String
  pub slo_policy : SloPolicy
  pub created_at : Time
  pub updated_at : Time

pub record ReadinessSnapshot : Type 0 where
  pub id : Uuid
  pub service_id : Uuid
  pub state : ReadinessState
  pub score : ℕ
  pub summary : String
  pub evaluated_at : Time
  pub job_id : Uuid
  pub created_at : Time

pub record ReadinessCheckResult : Type 0 where
  pub id : Uuid
  pub snapshot_id : Uuid
  pub service_id : Uuid
  pub check_name : String
  pub status : CheckStatus
  pub message : String
  pub remediation_hint : String
  pub created_at : Time

pub record Scorecard : Type 0 where
  pub service : Service
  pub snapshot : ReadinessSnapshot
  pub checks : List ReadinessCheckResult

pub record PromotionDecision : Type 0 where
  pub id : Uuid
  pub candidate_id : Uuid
  pub snapshot_id : Option Uuid
  pub decision : CandidateStatus
  pub summary : String
  pub created_at : Time

pub record DeploymentCandidate : Type 0 where
  pub id : Uuid
  pub service_id : Uuid
  pub environment : String
  pub version : String
  pub commit_sha : String
  pub requested_by : String
  pub status : CandidateStatus
  pub decision_reason : String
  pub last_snapshot_id : Option Uuid
  pub created_at : Time
  pub updated_at : Time
  pub evaluated_at : Option Time
  pub promotion_decision : Option PromotionDecision

pub record AuditEvent : Type 0 where
  pub id : Uuid
  pub actor_subject : String
  pub actor_role : Role
  pub event_type : String
  pub resource_type : String
  pub resource_id : Uuid
  pub request_id : String
  pub details : List (String × Value)
  pub created_at : Time

-- The attempts are not negative: the table's constraint says so, and the program only counts up.
pub record Job : Type 0 where
  pub id : Uuid
  pub type : JobType
  pub resource_id : Uuid
  pub status : JobStatus
  pub idempotency_key : String
  pub payload : List (String × Value)
  pub attempts : ℕ
  pub max_attempts : ℕ
  pub available_at : Time
  pub locked_at : Option Time
  pub lock_owner : String
  pub last_error : String
  pub created_at : Time
  pub updated_at : Time

-- `%s` of a status or a state
abbrev pub readiness_state_text : ReadinessState → String
readiness_state_text ready = "ready"
readiness_state_text degraded = "degraded"
readiness_state_text blocked = "blocked"

abbrev pub candidate_status_text : CandidateStatus → String
candidate_status_text pending = "pending"
candidate_status_text approved = "approved"
candidate_status_text rejected = "rejected"
