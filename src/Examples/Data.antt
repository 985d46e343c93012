-- ===== src/Examples/Data.antt =====
-- Data for the examples: a world whose database answers every exchange, a service, and a queue of
-- two jobs.
use golden_path_control_plan.Prelude.{
  ◌+◌, decimal, str_eq, true, false, none, some, List, [], ◌∷◌, if◌then◌else◌, pos, float_hundred,
}
use golden_path_control_plan.Domain.Models.{
  Service, ReadinessSnapshot, ready, Job, JobStatus, processing, service_evaluation,
  DeploymentCandidate, pending, approved, AuditEvent, engineer,
}
use golden_path_control_plan.Domain.Inputs.{ServiceInput, ServicePatch, DeploymentCandidateInput}
use golden_path_control_plan.Domain.Parsers.{Parsers, malformed, scheme}
use golden_path_control_plan.Effects.{Env, World, delivered}
use golden_path_control_plan.Effects.Tables.{Database}
use golden_path_control_plan.Auth.{Principal}
use golden_path_control_plan.System.{
  Operation, register, update, queue, submit, evaluate_candidate, work,
}

abbrev pub parsers : Parsers
parsers = record {
  parse_address = λ v. if str_eq v "" then some "mail: no address" else none;
  parse_request_uri = λ v. if str_eq v "" then malformed "empty url" else scheme "https";
}

abbrev pub env : Env
env = record {
  parsers = parsers;
  uuid = λ k. 1000 + k;
  uuid_text = decimal;
  clock = λ k. 5000000 + k;
  db_clock = λ k. 5000000 + k;
  delivery = λ k. delivered;
  peers = λ k db. db;
  locked = λ k id. false;
  error_text = λ e. "failure";
  text_le = λ a b. true;
}

abbrev pub input : ServiceInput
input = record {
  name = "payments";
  description = "Takes payments.";
  owner_email = "owner@example.com";
  repository_url = "https://git.example.com/payments";
  runbook_url = "https://docs.example.com/payments";
  health_endpoint_url = "https://payments.example.com/health";
  observability_url = "https://metrics.example.com/payments";
  deployment_pipeline = "deploy.yml";
  has_ci = true;
  has_tracing = true;
  has_metrics = false;
  language = "go";
  tier = pos 1;
  lifecycle = "production";
  slo_policy = record {
    availability_target_percent = float_hundred;
    latency_target_milliseconds = pos 250;
    window = "30d";
  };
}

abbrev pub no_change : ServicePatch
no_change = record {
  description = none;
  owner_email = none;
  repository_url = none;
  runbook_url = none;
  health_endpoint_url = none;
  observability_url = none;
  deployment_pipeline = none;
  has_ci = none;
  has_tracing = none;
  has_metrics = none;
  language = none;
  tier = none;
  lifecycle = none;
  slo_policy = none;
}

abbrev pub with_metrics : ServicePatch
with_metrics = record no_change { has_metrics = some true; lifecycle = some "deprecated" }

abbrev pub candidate_input : DeploymentCandidateInput
candidate_input = record {
  service_id = 1;
  environment = "staging";
  version = "1.2.3";
  commit_sha = "abc123";
  requested_by = "dev@example.com";
}

abbrev pub developer : Principal
developer = record {
  subject = "dev@example.com";
  role = engineer;
  issuer = "https://id.example.com";
}

abbrev pub service : Service
service = record {
  id = 1;
  name = input.name;
  description = input.description;
  owner_email = input.owner_email;
  repository_url = input.repository_url;
  runbook_url = input.runbook_url;
  health_endpoint_url = input.health_endpoint_url;
  observability_url = input.observability_url;
  deployment_pipeline = input.deployment_pipeline;
  has_ci = true;
  has_tracing = true;
  has_metrics = false;
  language = "go";
  tier = pos 1;
  lifecycle = "production";
  slo_policy = record {
    id = 2;
    service_id = 1;
    availability_target_percent = float_hundred;
    latency_target_milliseconds = pos 250;
    time_window = "30d";
    created_at = 100;
    updated_at = 100;
  };
  created_at = 100;
  updated_at = 100;
}

abbrev pub snapshot : ReadinessSnapshot
snapshot = record {
  id = 3;
  service_id = 1;
  state = ready;
  score = 100;
  summary = "Service is ready for promotion.";
  evaluated_at = 400;
  job_id = 11;
  created_at = 400;
}

abbrev pub waiting : Job
waiting = record {
  id = 10;
  type = service_evaluation;
  resource_id = 1;
  status = JobStatus.pending;
  idempotency_key = "first";
  payload = [];
  attempts = 0;
  max_attempts = 5;
  available_at = 200;
  locked_at = none;
  lock_owner = "";
  last_error = "";
  created_at = 200;
  updated_at = 200;
}

abbrev pub taken : Job
taken = record waiting {
  id = 11;
  idempotency_key = "second";
  status = processing;
  attempts = 1;
  locked_at = some 4000000;
  lock_owner = "worker-1";
}

abbrev pub candidate : DeploymentCandidate
candidate = record {
  id = 20;
  service_id = 1;
  environment = "staging";
  version = "1.2.3";
  commit_sha = "abc123";
  requested_by = "dev@example.com";
  status = pending;
  decision_reason = "Awaiting explicit promotion evaluation.";
  last_snapshot_id = none;
  created_at = 500;
  updated_at = 500;
  evaluated_at = none;
  promotion_decision = none;
}

abbrev pub decided : DeploymentCandidate
decided = record candidate { id = 21; status = approved; last_snapshot_id = some 3 }

abbrev pub event : AuditEvent
event = record {
  id = 30;
  actor_subject = "dev@example.com";
  actor_role = engineer;
  event_type = "service.registered";
  resource_type = "service";
  resource_id = 1;
  request_id = "request";
  details = [];
  created_at = 100;
}

abbrev pub database : Database
database = record {
  services = service ∷ [];
  slo_policies = service.slo_policy ∷ [];
  jobs = waiting ∷ taken ∷ [];
  snapshots = snapshot ∷ [];
  check_results = [];
  candidates = candidate ∷ decided ∷ [];
  decisions = [];
  audit_events = event ∷ [];
}

abbrev pub start : World
start = record { db = database; draws = 0; reads = 0; exchanges = 0 }

abbrev pub operations : List Operation
operations =
    register developer "r1" (record input { name = "ledger" })
    ∷ update developer "r2" 1 with_metrics
    ∷ queue developer "r3" 1 "third"
    ∷ work "worker-2" 2 1000
    ∷ submit developer "r4" candidate_input
    ∷ evaluate_candidate developer "r5" 20
    ∷ evaluate_candidate developer "r6" 21
    ∷ []
