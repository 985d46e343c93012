-- ===== src/Worker/Keeps.antt =====
-- Invariants under a round of internal/jobs/worker.go, from those of its statements.
use golden_path_control_plan.Prelude.{ℕ, String, List, [], ◌∷◌}
use golden_path_control_plan.Domain.Models.{
  Uuid, Time, Job, JobType, service_evaluation, other_type,
}
use golden_path_control_plan.Errors.{Result, ok, err}
use golden_path_control_plan.Effects.{Env}
use golden_path_control_plan.Effects.Tables.{Database}
use golden_path_control_plan.Effects.Rules.{
  Keeps, Preserves, PeersKeep, Keeps-pure, Keeps-raise, Keeps-bind,
}
use golden_path_control_plan.Postgres.Jobs.{claim, complete_row, fail_row}
use golden_path_control_plan.Postgres.Keeps.{
  claim_jobs-Keeps, mark_job_completed-Keeps, mark_job_failed-Keeps,
}
use golden_path_control_plan.ControlPlane.{process_service_evaluation_job}
use golden_path_control_plan.ControlPlane.Keeps.{attempt-Keeps}
use golden_path_control_plan.Worker.{by_type, process_job, mark, process_jobs, run_once}

module _ {P : Database → Type 0} (env : Env) (worker_id : String)
    (processing : (j : Job) → Keeps P (process_service_evaluation_job env j worker_id)) where
  by_type-Keeps : (t : JobType) (j : Job) → Keeps P (by_type env worker_id t j)
  by_type-Keeps service_evaluation j = processing j
  by_type-Keeps (other_type t) j = Keeps-raise _

  pub process_job-Keeps : (j : Job) → Keeps P (process_job env worker_id j)
  unfolding process_job
  process_job-Keeps j = by_type-Keeps j.type j

module _ {P : Database → Type 0} (env : Env) (peers : PeersKeep env P) (worker_id : String)
    (processing : (j : Job) → Keeps P (process_service_evaluation_job env j worker_id))
    (completing : (i : Uuid) → Preserves P (complete_row env i worker_id))
    (failing : (i : Uuid) (owner message : String) (t at : Time)
      → Preserves P (fail_row i owner message t at)) where
  mark-Keeps : (j : Job) (r : Result (Unit {0})) → Keeps P (mark env worker_id j r)
  unfolding mark
  mark-Keeps j (err e) = mark_job_failed-Keeps env peers j e failing
  mark-Keeps j (ok u) = mark_job_completed-Keeps env peers j.id worker_id (completing _)

  pub process_jobs-Keeps : (js : List Job) → Keeps P (process_jobs env worker_id js)
  unfolding process_jobs
  process_jobs-Keeps [] = Keeps-pure tt
  process_jobs-Keeps (j ∷ js) =
      Keeps-bind _ _ (attempt-Keeps _ (process_job-Keeps env worker_id processing j))
        λ outcome. Keeps-bind _ _ (mark-Keeps j outcome) λ _. process_jobs-Keeps js

  pub run_once-Keeps :
      (batch_size : ℕ) (lease : Time)
      → ((t : Time) → Preserves P (claim env worker_id batch_size t))
      → Keeps P (run_once env worker_id batch_size lease)
  unfolding run_once
  run_once-Keeps batch_size lease claiming =
      Keeps-bind _ _ (claim_jobs-Keeps env peers worker_id batch_size lease claiming)
        process_jobs-Keeps
