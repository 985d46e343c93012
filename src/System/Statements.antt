-- ===== src/System/Statements.antt =====
-- What has to keep an invariant for every operation to keep it: the statements of
-- internal/postgres, and the operations that use more of what they know.
use golden_path_control_plan.Prelude.{ℕ, String, ◌≡◌, none, List}
use golden_path_control_plan.Domain.Models.{
  Uuid, Time, AuditEvent, ReadinessSnapshot, ReadinessCheckResult,
}
use golden_path_control_plan.Domain.Inputs.{ServiceInput, ServicePatch, DeploymentCandidateInput}
use golden_path_control_plan.Domain.Validation.{validate_service, validate_patch}
use golden_path_control_plan.Effects.{Env, World}
use golden_path_control_plan.Effects.Tables.{Database}
use golden_path_control_plan.Effects.Rules.{Keeps, Preserves, PeersKeep, Keeps-bind, Keeps-pure}
use golden_path_control_plan.Auth.{Principal}
use golden_path_control_plan.Postgres.Services.{create_service, update_service}
use golden_path_control_plan.Postgres.Readiness.{insert_snapshot, insert_check_result}
use golden_path_control_plan.Postgres.Candidates.{insert_candidate}
use golden_path_control_plan.Postgres.Audit.{insert_audit_row}
use golden_path_control_plan.Postgres.Jobs.{upsert_job, claim, complete_row, fail_row}
use golden_path_control_plan.Postgres.Keeps.{
  create_deployment_candidate-Keeps, save_readiness_evaluation-Keeps,
}
use golden_path_control_plan.ControlPlane.{
  evaluate_deployment_candidate, register_service, update_registered_service,
  queue_service_evaluation, submit_candidate,
}
use golden_path_control_plan.ControlPlane.Entities.{new_service, new_job, new_candidate, Details}
use golden_path_control_plan.ControlPlane.Keeps.{
  register_service-Keeps, update_registered_service-Keeps, queue_service_evaluation-Keeps,
  submit_candidate-Keeps, process_service_evaluation_job-Keeps,
}
use golden_path_control_plan.Worker.Keeps.{run_once-Keeps}
use golden_path_control_plan.System.{
  Operation, register, update, queue, submit, evaluate_candidate, work, step, run, run-Keeps,
}

pub record StatementsKeep (env : Env) (P : Database → Type 0) : Type 0 where
  pub peers : PeersKeep env P
  pub registers :
      (input : ServiceInput) (id policy_id : Uuid) (at : Time)
      → validate_service env.parsers input ≡ none
      → Keeps P (create_service env (new_service id policy_id at input))
  pub updates :
      (id : Uuid) (patch : ServicePatch)
      → validate_patch env.parsers patch ≡ none
      → Keeps P (update_service env id patch)
  pub upserts :
      (id : Uuid) (at : Time) (max_attempts : ℕ) (service_id : Uuid) (key : String)
      (payload : Details)
      → Preserves P (upsert_job (new_job id at max_attempts service_id key payload))
  pub submits :
      (id : Uuid) (at : Time) (input : DeploymentCandidateInput)
      → Preserves P (insert_candidate (new_candidate id at input))
  pub evaluates :
      (p : Principal) (r : String) (id : Uuid) → Keeps P (evaluate_deployment_candidate env p r id)
  pub snapshots : (s : ReadinessSnapshot) → Preserves P (insert_snapshot s)
  pub results : (c : ReadinessCheckResult) → Preserves P (insert_check_result c)
  pub claims : (worker_id : String) (n : ℕ) (t : Time) → Preserves P (claim env worker_id n t)
  pub completes : (id : Uuid) (worker_id : String) → Preserves P (complete_row env id worker_id)
  pub fails :
      (id : Uuid) (owner message : String) (t at : Time)
      → Preserves P (fail_row id owner message t at)
  pub audits : (e : AuditEvent) → Preserves P (insert_audit_row e)

module _ (env : Env) (P : Database → Type 0) (s : StatementsKeep env P) where
  pub register-Keeps :
      (p : Principal) (r : String) (input : ServiceInput) → Keeps P (register_service env p r input)
  register-Keeps p r input =
      register_service-Keeps env s.peers s.audits p r input
        (λ valid id policy_id at. s.registers input id policy_id at valid)

  pub update-Keeps :
      (p : Principal) (r : String) (id : Uuid) (patch : ServicePatch)
      → Keeps P (update_registered_service env p r id patch)
  update-Keeps p r id patch =
      update_registered_service-Keeps env s.peers s.audits p r id patch (s.updates id patch)

  pub queue-Keeps :
      (p : Principal) (r : String) (n : ℕ) (id : Uuid) (key : String)
      → Keeps P (queue_service_evaluation env p r n id key)
  queue-Keeps p r n id key =
      queue_service_evaluation-Keeps env s.peers s.audits p r n id key (λ i at. s.upserts i at n id)

  pub submit-Keeps :
      (p : Principal) (r : String) (input : DeploymentCandidateInput)
      → Keeps P (submit_candidate env p r input)
  submit-Keeps p r input =
      submit_candidate-Keeps env s.peers s.audits p r input
        (λ id at. create_deployment_candidate-Keeps env s.peers _ (s.submits id at input))

  step-Keeps : (job_max_attempts : ℕ) (o : Operation) → Keeps P (step env job_max_attempts o)
  unfolding step
  step-Keeps n (register p r input) = Keeps-bind _ _ (register-Keeps p r input) (λ _. Keeps-pure tt)
  step-Keeps n (update p r id patch) =
      Keeps-bind _ _ (update-Keeps p r id patch) (λ _. Keeps-pure tt)
  step-Keeps n (queue p r id key) = Keeps-bind _ _ (queue-Keeps p r n id key) (λ _. Keeps-pure tt)
  step-Keeps n (submit p r input) = Keeps-bind _ _ (submit-Keeps p r input) (λ _. Keeps-pure tt)
  step-Keeps n (evaluate_candidate p r id) =
      Keeps-bind _ _ (s.evaluates p r id) (λ _. Keeps-pure tt)
  step-Keeps n (work worker_id batch_size lease) =
      run_once-Keeps env s.peers worker_id
        (λ job.
          process_service_evaluation_job-Keeps env s.peers s.audits job worker_id (λ t draw at.
            save_readiness_evaluation-Keeps env s.peers _ _ (s.snapshots _) s.results))
        (λ i. s.completes i worker_id) s.fails batch_size lease (s.claims worker_id batch_size)

  -- An invariant of the statements holds after every run.
  pub run_statements-Keeps :
      (job_max_attempts : ℕ) (operations : List Operation) (w : World)
      → P w.db
      → P (run env job_max_attempts operations w).db
  run_statements-Keeps n os w = run-Keeps env n (step-Keeps n) os w
