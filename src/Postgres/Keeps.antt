-- ===== src/Postgres/Keeps.antt =====
-- Invariants under the methods of internal/postgres, from those of their statements.
use golden_path_control_plan.Prelude.{
  ℕ, zero, suc, String, ◌≡◌, Option, List, [], ◌∷◌, arith, subst,
}
use golden_path_control_plan.Domain.Models.{
  Uuid, Time, Service, SloPolicy, ReadinessSnapshot, ReadinessCheckResult, DeploymentCandidate,
  PromotionDecision, CandidateStatus, AuditEvent, Job,
}
use golden_path_control_plan.Domain.Inputs.{ServicePatch}
use golden_path_control_plan.Errors.{Error, Result, ok, err}
use golden_path_control_plan.Effects.{Env, nothing}
use golden_path_control_plan.Effects.Tables.{Database}
use golden_path_control_plan.Effects.Rules.{
  Keeps, Preserves, PeersKeep, Keeps-pure, Keeps-raise, Keeps-now, Keeps-bind, Keeps-exec,
  Keeps-exec_in, Keeps-transaction,
}
use golden_path_control_plan.Postgres.Services.{
  reading, select_service, get_service, insert_service, insert_slo_policy, create_service,
  update_service_row, update_slo_policy_row, update_service,
}
use golden_path_control_plan.Postgres.Readiness.{
  insert_snapshot, insert_check_result, insert_check_results, save_readiness_evaluation,
  select_latest_snapshot, get_latest_snapshot,
}
use golden_path_control_plan.Postgres.Candidates.{
  select_candidate, get_deployment_candidate, insert_candidate, create_deployment_candidate,
  expect_one, update_candidate, upsert_decision, save_promotion_decision,
}
use golden_path_control_plan.Postgres.Audit.{insert_audit_row, insert_audit_event}
use golden_path_control_plan.Postgres.Jobs.{
  upsert_job, enqueue_job, claim, claim_jobs, complete_row, mark_job_completed, fail_row,
  mark_job_failed,
}

-- A statement that only reads returns what it reads, and the tables as they are.
pub reading-eq :
    {A : Type 0} (r : Result A) (db : Database) (a : A) (db' : Database)
    → reading r db ≡ ok (a, db')
    → (r ≡ ok a) × (db ≡ db')
reading-eq (ok b) db a db' e = (ground arith, ground arith)
reading-eq (err x) db a db' e = cc

pub reading-Preserves :
    {P : Database → Type 0} {A : Type 0} (r : Database → Result A)
    → Preserves P (λ k db. reading (r db) db)
reading-Preserves {P} r = record {
  at = λ k db p a db' e. subst P (reading-eq (r db) db a db' e).1 p;
}

module _ {P : Database → Type 0} where
  pub expect_one-Keeps : (n : ℕ) → Keeps P (expect_one n)
  expect_one-Keeps zero = Keeps-raise _
  expect_one-Keeps (suc zero) = Keeps-pure _
  expect_one-Keeps (suc (suc n)) = Keeps-raise _

  pub nothing-Preserves : Preserves P nothing
  unfolding nothing
  nothing-Preserves = record { at = λ k db p a db' e. subst P (ground arith) p }

module _ {P : Database → Type 0} (env : Env) (peers : PeersKeep env P) where
  pub get_service-Keeps : (id : Uuid) → Keeps P (get_service env id)
  unfolding get_service select_service
  get_service-Keeps id = Keeps-exec env _ peers (reading-Preserves _)

  pub get_latest_snapshot-Keeps : (id : Uuid) → Keeps P (get_latest_snapshot env id)
  unfolding get_latest_snapshot select_latest_snapshot
  get_latest_snapshot-Keeps id = Keeps-exec env _ peers (reading-Preserves _)

  pub get_deployment_candidate-Keeps : (id : Uuid) → Keeps P (get_deployment_candidate env id)
  unfolding get_deployment_candidate select_candidate
  get_deployment_candidate-Keeps id = Keeps-exec env _ peers (reading-Preserves _)

  pub create_service-Keeps :
      (s : Service)
      → ((t : Service) → Preserves P (insert_service t))
      → ((p : SloPolicy) → Preserves P (insert_slo_policy p))
      → Keeps P (create_service env s)
  unfolding create_service
  create_service-Keeps s h g =
      Keeps-bind _ _
        (Keeps-transaction env _ peers
          (Keeps-bind _ _ (Keeps-exec_in env _ (h _)) (λ _. Keeps-exec_in env _ (g _))))
        (λ _. get_service-Keeps _)

  pub update_service-Keeps :
      (id : Uuid) (patch : ServicePatch)
      → ((t : Service) → Preserves P (update_service_row t))
      → ((i : Uuid) (p : SloPolicy) → Preserves P (update_slo_policy_row i p))
      → Keeps P (update_service env id patch)
  unfolding update_service
  update_service-Keeps id patch h g = Keeps-bind _ _ (get_service-Keeps id) (λ found.
      Keeps-bind _ _ (Keeps-now env) (λ at.
        Keeps-bind _ _
          (Keeps-transaction env _ peers
            (Keeps-bind _ _ (Keeps-exec_in env _ (h _)) (λ _. Keeps-exec_in env _ (g _ _))))
          (λ _. get_service-Keeps _)))

  pub enqueue_job-Keeps : (j : Job) → Preserves P (upsert_job j) → Keeps P (enqueue_job env j)
  unfolding enqueue_job
  enqueue_job-Keeps j h = Keeps-exec env _ peers h

  pub create_deployment_candidate-Keeps :
      (c : DeploymentCandidate)
      → Preserves P (insert_candidate c)
      → Keeps P (create_deployment_candidate env c)
  unfolding create_deployment_candidate
  create_deployment_candidate-Keeps c h =
      Keeps-bind _ _ (Keeps-exec env _ peers h) (λ _. get_deployment_candidate-Keeps _)

  pub insert_audit_event-Keeps :
      (e : AuditEvent) → Preserves P (insert_audit_row e) → Keeps P (insert_audit_event env e)
  unfolding insert_audit_event
  insert_audit_event-Keeps e h = Keeps-exec env _ peers h

  insert_check_results-Keeps :
      (checks : List ReadinessCheckResult)
      → ((c : ReadinessCheckResult) → Preserves P (insert_check_result c))
      → Keeps P (insert_check_results env checks)
  unfolding insert_check_results
  insert_check_results-Keeps [] h = Keeps-exec_in env _ nothing-Preserves
  insert_check_results-Keeps (c ∷ checks) h =
      Keeps-bind _ _ (Keeps-exec_in env _ (h c)) (λ _. insert_check_results-Keeps checks h)

  pub save_readiness_evaluation-Keeps :
      (s : ReadinessSnapshot) (checks : List ReadinessCheckResult)
      → Preserves P (insert_snapshot s)
      → ((c : ReadinessCheckResult) → Preserves P (insert_check_result c))
      → Keeps P (save_readiness_evaluation env s checks)
  unfolding save_readiness_evaluation
  save_readiness_evaluation-Keeps s checks h g =
      Keeps-transaction env _ peers
        (Keeps-bind _ _ (Keeps-exec_in env _ h) (λ _. insert_check_results-Keeps checks g))

  pub claim_jobs-Keeps :
      (worker_id : String) (batch_size : ℕ) (lease : Time)
      → ((t : Time) → Preserves P (claim env worker_id batch_size t))
      → Keeps P (claim_jobs env worker_id batch_size lease)
  unfolding claim_jobs
  claim_jobs-Keeps worker_id batch_size lease h =
      Keeps-bind _ _ (Keeps-now env) (λ at. Keeps-exec env _ peers (h _))

  pub mark_job_completed-Keeps :
      (id : Uuid) (worker_id : String)
      → Preserves P (complete_row env id worker_id)
      → Keeps P (mark_job_completed env id worker_id)
  unfolding mark_job_completed
  mark_job_completed-Keeps id worker_id h =
      Keeps-bind _ _ (Keeps-exec env _ peers h) expect_one-Keeps

  pub mark_job_failed-Keeps :
      (j : Job) (e : Error)
      → ((i : Uuid) (owner message : String) (t at : Time)
          → Preserves P (fail_row i owner message t at))
      → Keeps P (mark_job_failed env j e)
  unfolding mark_job_failed
  mark_job_failed-Keeps j e h =
      Keeps-bind _ _ (Keeps-now env)
        (λ at. Keeps-bind _ _ (Keeps-exec env _ peers (h _ _ _ _ _)) expect_one-Keeps)

  pub save_promotion_decision-Keeps :
      (id : Uuid) (s : Option ReadinessSnapshot) (d : PromotionDecision) (status : CandidateStatus)
      (reason : String)
      → ((snapshot_id : Option Uuid) (at : Time)
          → Preserves P (update_candidate id status reason snapshot_id at))
      → Preserves P (upsert_decision d)
      → Keeps P (save_promotion_decision env id s d status reason)
  unfolding save_promotion_decision
  save_promotion_decision-Keeps id s d status reason h g =
      Keeps-bind _ _
        (Keeps-transaction env _ peers (
          Keeps-bind _ _ (Keeps-now env) (λ at.
            Keeps-bind _ _ (Keeps-exec_in env _ (h _ _))
              (λ n. Keeps-bind _ _ (expect_one-Keeps n) (λ _. Keeps-exec_in env _ g)))))
        (λ _. get_deployment_candidate-Keeps _)
