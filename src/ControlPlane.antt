-- ===== src/ControlPlane.antt =====
-- internal/app/controlplane.go: the operations of the control plane over the store.
pub mod Entities
pub mod Keeps
pub mod Rules
use golden_path_control_plan.Prelude.{
  ℕ, String, str_eq, ◌<>◌, ◌&&◌, Bool, true, false, not, Option, none, some, List, [], ◌∷◌,
  if◌then◌else◌,
}
use golden_path_control_plan.Domain.Models.{
  Uuid, Time, Role, engineer, platform_admin, Value, text, number, Service, Job, service_evaluation,
  JobStatus, DeploymentCandidate, ReadinessSnapshot, ReadinessState, ready, CandidateStatus,
  pending, approved, rejected, AuditEvent, readiness_state_text, candidate_status_text,
}
use golden_path_control_plan.Domain.Inputs.{ServiceInput, ServicePatch, DeploymentCandidateInput}
use golden_path_control_plan.Domain.Validation.{
  Check, validate_service, validate_patch, validate_candidate,
}
use golden_path_control_plan.Platformchecks.{evaluate}
use golden_path_control_plan.Errors.{not_found, validation, state_conflict, Result, ok, err}
use golden_path_control_plan.Effects.{Env, App, pure, raise, ◌>>=◌, ◌>>◌, now, new_uuid, new_uuids}
use golden_path_control_plan.Auth.{Principal}
use golden_path_control_plan.Postgres.Services.{create_service, update_service, get_service}
use golden_path_control_plan.Postgres.Readiness.{save_readiness_evaluation, get_latest_snapshot}
use golden_path_control_plan.Postgres.Candidates.{
  create_deployment_candidate, get_deployment_candidate, save_promotion_decision, is_pending,
  snapshot_id_of,
}
use golden_path_control_plan.Postgres.Audit.{insert_audit_event}
use golden_path_control_plan.Postgres.Jobs.{enqueue_job}
use golden_path_control_plan.ControlPlane.Entities.{
  Details, audit_event, new_service, new_job, new_candidate,
}

-- `if err := input.Validate(); err != nil { return …, ValidationError{Err: err} }`
abbrev pub validated : Check → App (Unit {0})
validated none = pure tt
validated (some e) = raise (validation e)

-- What the `switch` of `EvaluateDeploymentCandidate` chooses
pub record Ruling : Type 0 where
  pub status : CandidateStatus
  pub reason : String
  pub snapshot : Option ReadinessSnapshot

abbrev pub is_ready : ReadinessState → Bool
is_ready ready = true
is_ready _ = false

unfoldable pub judge : ReadinessSnapshot → Ruling
judge s =
    if is_ready s.state
    then record {
      status = approved;
      reason = "Approved: latest readiness snapshot is ready.";
      snapshot = some s;
    }
    else record {
      status = rejected;
      reason = "Rejected: latest readiness snapshot is " <> readiness_state_text s.state <> ".";
      snapshot = some s;
    }

abbrev pub no_evidence : Ruling
no_evidence = record {
  status = rejected;
  reason = "Rejected: no readiness snapshot exists for this service yet.";
  snapshot = none;
}

-- The cases of the error of `GetLatestSnapshot`
unfoldable pub ruling : Result ReadinessSnapshot → App Ruling
unfolding judge
ruling (ok s) = pure (judge s)
ruling (err not_found) = pure no_evidence
ruling (err e) = raise e

-- An error as a value, for code that looks at it
unfoldable pub attempt : {A : Type 0} → App A → App (Result A)
attempt m w = let (r, w') = m w in (ok r, w')

abbrev pub is_engineer : Role → Bool
is_engineer engineer = true
is_engineer _ = false

module _ (env : Env) (principal : Principal) (request_id : String) where
  -- `InsertAuditEvent(ctx, auditEvent(…))`
  unfoldable pub audit : Time → String → String → Uuid → Details → App (Unit {0})
  unfolding audit_event
  audit at event_type resource_type resource_id details = do
    id ← new_uuid env
    insert_audit_event env
        (audit_event id at principal request_id event_type resource_type resource_id details)

  unfoldable pub register_service : ServiceInput → App Service
  register_service input = do
    validated (validate_service env.parsers input)
    at ← now env
    id ← new_uuid env
    policy_id ← new_uuid env
    created ← create_service env (new_service id policy_id at input)
    audit at "service.registered" "service" created.id (("name", text created.name) ∷ [])
    pure created

  unfoldable pub update_registered_service : Uuid → ServicePatch → App Service
  update_registered_service service_id patch = do
    validated (validate_patch env.parsers patch)
    updated ← update_service env service_id patch
    at ← now env
    audit at "service.updated" "service" updated.id (("name", text updated.name) ∷ [])
    pure updated

  -- A fresh key is drawn only if the client sent none.
  unfoldable pub choose_key : String → App String
  choose_key key =
      if str_eq key "" then (do id ← new_uuid env; pure (env.uuid_text id)) else pure key

  unfoldable pub queue_service_evaluation : ℕ → Uuid → String → App Job
  queue_service_evaluation job_max_attempts service_id idempotency_key = do
    get_service env service_id
    at ← now env
    key ← choose_key idempotency_key
    id ← new_uuid env
    enqueued ← enqueue_job env (
        new_job id at job_max_attempts service_id key
          (("service_id", text (env.uuid_text service_id)) ∷ []))
    audit at "service.evaluation_requested" "service" service_id
        (("job_id", text (env.uuid_text enqueued.id)) ∷ [])
    pure enqueued

  unfoldable pub require_requester : String → App (Unit {0})
  require_requester requested_by =
      if is_engineer principal.role && not (str_eq principal.subject requested_by)
      then raise (validation "deployment_candidate.requested_by must match authenticated subject")
      else pure tt

  unfoldable pub submit_candidate : DeploymentCandidateInput → App DeploymentCandidate
  submit_candidate input = do
    validated (validate_candidate env.parsers input)
    require_requester input.requested_by
    get_service env input.service_id
    at ← now env
    id ← new_uuid env
    created ← create_deployment_candidate env (new_candidate id at input)
    audit at "deployment_candidate.created" "deployment_candidate" created.id (
        ("service_id", text (env.uuid_text created.service_id))
        ∷ ("environment", text created.environment)
        ∷ ("version", text created.version)
        ∷ [])
    pure created

  unfoldable pub require_pending : DeploymentCandidate → App (Unit {0})
  require_pending c = if is_pending c.status then pure tt else raise (state_conflict c.id c.status)

  unfoldable pub evaluate_deployment_candidate : Uuid → App DeploymentCandidate
  unfolding require_pending ruling attempt
  evaluate_deployment_candidate candidate_id = do
    candidate ← get_deployment_candidate env candidate_id
    require_pending candidate
    found ← attempt (get_latest_snapshot env candidate.service_id)
    r ← ruling found
    at ← now env
    id ← new_uuid env
    updated ←
        save_promotion_decision env candidate.id r.snapshot
          (record {
            id = id;
            candidate_id = candidate.id;
            snapshot_id = snapshot_id_of r.snapshot;
            decision = r.status;
            summary = r.reason;
            created_at = at;
          })
          r.status r.reason
    audit at "deployment_candidate.evaluated" "deployment_candidate" updated.id (
        ("decision", text (candidate_status_text updated.status))
        ∷ ("reason", text updated.decision_reason)
        ∷ [])
    pure updated

-- `GetScorecard`, `GetDeploymentCandidate` and `ListAuditEvents` are those of the store.
-- The worker acts as a principal of its own, under its job's identifier.
unfoldable pub worker_principal : String → Principal
worker_principal worker_id = record {
  subject = worker_id;
  role = platform_admin;
  issuer = "worker";
}

unfoldable pub process_service_evaluation_job : Env → Job → String → App (Unit {0})
unfolding worker_principal
process_service_evaluation_job env job worker_id = do
  service ← get_service env job.resource_id
  at ← now env
  draw ← new_uuids env 11
  let result = evaluate draw service job.id at
  save_readiness_evaluation env result.snapshot result.checks
  audited_at ← now env
  audit env (worker_principal worker_id) (env.uuid_text job.id) audited_at "service.evaluated"
      "service" service.id
      (("snapshot_id", text (env.uuid_text result.snapshot.id))
        ∷ ("state", text (readiness_state_text result.snapshot.state))
        ∷ ("score", number result.snapshot.score)
        ∷ [])
