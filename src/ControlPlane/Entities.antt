-- ===== src/ControlPlane/Entities.antt =====
-- The values that the operations of internal/app/controlplane.go store.
use golden_path_control_plan.Prelude.{ℕ, String, none, List}
use golden_path_control_plan.Domain.Models.{
  Uuid, Time, Value, Service, Job, service_evaluation, JobStatus, DeploymentCandidate, pending,
  AuditEvent,
}
use golden_path_control_plan.Domain.Inputs.{ServiceInput, DeploymentCandidateInput}
use golden_path_control_plan.Auth.{Principal}

abbrev pub Details : Type 0
Details = List (String × Value)

unfoldable pub audit_event :
    Uuid → Time → Principal → String → String → String → Uuid → Details → AuditEvent
audit_event id at principal request_id event_type resource_type resource_id details = record {
  id = id;
  actor_subject = principal.subject;
  actor_role = principal.role;
  event_type = event_type;
  resource_type = resource_type;
  resource_id = resource_id;
  request_id = request_id;
  details = details;
  created_at = at;
}

unfoldable pub new_service : Uuid → Uuid → Time → ServiceInput → Service
new_service id policy_id at i = record {
  id = id;
  name = i.name;
  description = i.description;
  owner_email = i.owner_email;
  repository_url = i.repository_url;
  runbook_url = i.runbook_url;
  health_endpoint_url = i.health_endpoint_url;
  observability_url = i.observability_url;
  deployment_pipeline = i.deployment_pipeline;
  has_ci = i.has_ci;
  has_tracing = i.has_tracing;
  has_metrics = i.has_metrics;
  language = i.language;
  tier = i.tier;
  lifecycle = i.lifecycle;
  slo_policy = record {
    id = policy_id;
    service_id = id;
    availability_target_percent = i.slo_policy.availability_target_percent;
    latency_target_milliseconds = i.slo_policy.latency_target_milliseconds;
    time_window = i.slo_policy.window;
    created_at = at;
    updated_at = at;
  };
  created_at = at;
  updated_at = at;
}

unfoldable pub new_job : Uuid → Time → ℕ → Uuid → String → Details → Job
new_job id at max_attempts service_id key payload = record {
  id = id;
  type = service_evaluation;
  resource_id = service_id;
  status = JobStatus.pending;
  idempotency_key = key;
  payload = payload;
  attempts = 0;
  max_attempts = max_attempts;
  available_at = at;
  locked_at = none;
  lock_owner = "";
  last_error = "";
  created_at = at;
  updated_at = at;
}

unfoldable pub new_candidate : Uuid → Time → DeploymentCandidateInput → DeploymentCandidate
new_candidate id at i = record {
  id = id;
  service_id = i.service_id;
  environment = i.environment;
  version = i.version;
  commit_sha = i.commit_sha;
  requested_by = i.requested_by;
  status = pending;
  decision_reason = "Awaiting explicit promotion evaluation.";
  last_snapshot_id = none;
  created_at = at;
  updated_at = at;
  evaluated_at = none;
  promotion_decision = none;
}
