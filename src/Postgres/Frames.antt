-- ===== src/Postgres/Frames.antt =====
-- The one table that each statement of internal/postgres writes.
use golden_path_control_plan.Prelude.{ℕ, String, ◌≡◌, Option, List, arith}
use golden_path_control_plan.Domain.Models.{
  Service, SloPolicy, Uuid, Time, ReadinessSnapshot, ReadinessCheckResult, DeploymentCandidate,
  PromotionDecision, CandidateStatus, AuditEvent, Job,
}
use golden_path_control_plan.Errors.{ok}
use golden_path_control_plan.Effects.{Env}
use golden_path_control_plan.Effects.Tables.{Database}
use golden_path_control_plan.Postgres.Services.{
  insert_service, insert_slo_policy, update_service_row, update_slo_policy_row,
}
use golden_path_control_plan.Postgres.Readiness.{insert_snapshot, insert_check_result}
use golden_path_control_plan.Postgres.Candidates.{
  insert_candidate, update_candidate, upsert_decision,
}
use golden_path_control_plan.Postgres.Audit.{insert_audit_row}
use golden_path_control_plan.Postgres.Jobs.{upsert_job, claim, complete_row, fail_row}

module _ (k : ℕ) (db db' : Database) where
  pub insert_snapshot-frame :
      (s : ReadinessSnapshot)
      → insert_snapshot s k db ≡ ok (tt, db')
      → db' ≡ record db { snapshots = db'.snapshots }
  unfolding insert_snapshot
  insert_snapshot-frame s e = ground arith

  pub insert_check_result-frame :
      (c : ReadinessCheckResult)
      → insert_check_result c k db ≡ ok (tt, db')
      → db' ≡ record db { check_results = db'.check_results }
  unfolding insert_check_result
  insert_check_result-frame c e = ground arith

  pub insert_candidate-frame :
      (c : DeploymentCandidate)
      → insert_candidate c k db ≡ ok (tt, db')
      → db' ≡ record db { candidates = db'.candidates }
  unfolding insert_candidate
  insert_candidate-frame c e = ground arith

  pub update_candidate-frame :
      (id : Uuid) (status : CandidateStatus) (reason : String) (snapshot_id : Option Uuid)
      (at : Time) (n : ℕ)
      → update_candidate id status reason snapshot_id at k db ≡ ok (n, db')
      → db' ≡ record db { candidates = db'.candidates }
  unfolding update_candidate
  update_candidate-frame id status reason snapshot_id at n e = ground arith

  pub upsert_decision-frame :
      (p : PromotionDecision)
      → upsert_decision p k db ≡ ok (tt, db')
      → db' ≡ record db { decisions = db'.decisions }
  unfolding upsert_decision
  upsert_decision-frame p e = ground arith

  pub insert_audit_row-frame :
      (a : AuditEvent)
      → insert_audit_row a k db ≡ ok (tt, db')
      → db' ≡ record db { audit_events = db'.audit_events }
  unfolding insert_audit_row
  insert_audit_row-frame a e = ground arith

  pub upsert_job-frame :
      (j i : Job) → upsert_job j k db ≡ ok (i, db') → db' ≡ record db { jobs = db'.jobs }
  unfolding upsert_job
  upsert_job-frame j i e = ground arith

  pub claim-frame :
      (env : Env) (worker_id : String) (n : ℕ) (t : Time) (js : List Job)
      → claim env worker_id n t k db ≡ ok (js, db')
      → db' ≡ record db { jobs = db'.jobs }
  unfolding claim
  claim-frame env worker_id n t js e = ground arith

  pub complete_row-frame :
      (env : Env) (id : Uuid) (worker_id : String) (n : ℕ)
      → complete_row env id worker_id k db ≡ ok (n, db')
      → db' ≡ record db { jobs = db'.jobs }
  unfolding complete_row
  complete_row-frame env id worker_id n e = ground arith

  pub fail_row-frame :
      (id : Uuid) (owner message : String) (t at : Time) (n : ℕ)
      → fail_row id owner message t at k db ≡ ok (n, db')
      → db' ≡ record db { jobs = db'.jobs }
  unfolding fail_row
  fail_row-frame id owner message t at n e = ground arith

  pub insert_service-frame :
      (s : Service)
      → insert_service s k db ≡ ok (tt, db')
      → db' ≡ record db { services = db'.services }
  unfolding insert_service
  insert_service-frame s e = ground arith

  pub insert_slo_policy-frame :
      (p : SloPolicy)
      → insert_slo_policy p k db ≡ ok (tt, db')
      → db' ≡ record db { slo_policies = db'.slo_policies }
  unfolding insert_slo_policy
  insert_slo_policy-frame p e = ground arith

  pub update_service_row-frame :
      (s : Service)
      → update_service_row s k db ≡ ok (tt, db')
      → db' ≡ record db { services = db'.services }
  unfolding update_service_row
  update_service_row-frame s e = ground arith

  pub update_slo_policy_row-frame :
      (id : Uuid) (p : SloPolicy)
      → update_slo_policy_row id p k db ≡ ok (tt, db')
      → db' ≡ record db { slo_policies = db'.slo_policies }
  unfolding update_slo_policy_row
  update_slo_policy_row-frame id p e = ground arith
