-- ===== src/Worker.antt =====
-- internal/jobs/worker.go: a round of the worker, and the loop of rounds. What the selects of the loop
-- meet is a list; the log and the metrics are not modelled.
pub mod Keeps
use golden_path_control_plan.Prelude.{ℕ, String, ◌<>◌, List, [], ◌∷◌, pos, leb_ℤ, if◌then◌else◌}
use golden_path_control_plan.Config.Settings.{Duration}
use golden_path_control_plan.Domain.Models.{Time, Job, JobType, service_evaluation, other_type}
use golden_path_control_plan.Errors.{unsupported_job, Result, ok, err}
use golden_path_control_plan.Effects.{Env, World, App, new_uuid, pure, raise, ◌>>=◌, ◌>>◌}
use golden_path_control_plan.Postgres.Jobs.{claim_jobs, mark_job_completed, mark_job_failed}
use golden_path_control_plan.ControlPlane.{attempt, process_service_evaluation_job}

module _ (env : Env) (worker_id : String) where
  abbrev by_type : JobType → Job → App (Unit {0})
  by_type service_evaluation job = process_service_evaluation_job env job worker_id
  by_type (other_type t) job = raise (unsupported_job t)

  unfoldable pub process_job : Job → App (Unit {0})
  process_job job = by_type job.type job

  -- An error of the first mark, or of the second, ends the round.
  unfoldable pub mark : Job → Result (Unit {0}) → App (Unit {0})
  mark job (err e) = mark_job_failed env job e
  mark job (ok _) = mark_job_completed env job.id worker_id

  unfoldable pub process_jobs : List Job → App (Unit {0})
  unfolding mark attempt
  process_jobs [] = pure tt
  process_jobs (job ∷ jobs) = do
    outcome ← attempt (process_job job)
    mark job outcome
    process_jobs jobs

  unfoldable pub run_once : ℕ → Time → App (Unit {0})
  unfolding process_jobs
  run_once batch_size lease = do jobs ← claim_jobs env worker_id batch_size lease; process_jobs jobs

-- `Worker`: its logger and metrics are left out, and its service and repository are those of this
-- model.
pub record Worker : Type 0 where
  pub id : String
  pub poll_interval : Duration
  pub batch_size : ℕ
  pub lease : Time

unfoldable pub new_worker : Env → Duration → ℕ → Time → App Worker
new_worker env poll_interval batch_size lease = do
  id ← new_uuid env
  pure record {
    id = "worker-" <> env.uuid_text id;
    poll_interval = poll_interval;
    batch_size = batch_size;
    lease = lease;
  }

-- What a `select` of `Run` meets: the end of the context with its error, or a tick
pub data Wake : Type 0 where
  context_done : String → Wake
  tick : Wake

-- Whether `Run` has returned with an error, is waiting still, or has panicked
pub data Ending : Type 0 where
  returned : String → Ending
  waiting : Ending
  panicked : Ending

module _ (env : Env) (worker : Worker) where
  -- A round whose error is logged
  unfoldable pub round : World → World
  unfolding run_once
  round w = (run_once env worker.id worker.batch_size worker.lease w).1

  -- The loop, on what its selects meet one after another
  unfoldable pub run_loop : List Wake → World → Ending × World
  unfolding round
  run_loop [] w = (waiting, round w)
  run_loop (context_done e ∷ wakes) w = (returned e, round w)
  run_loop (tick ∷ wakes) w = run_loop wakes (round w)

  -- `time.NewTicker` panics for an interval that is not positive.
  unfoldable pub run : List Wake → World → Ending × World
  unfolding run_loop
  run wakes w = if leb_ℤ worker.poll_interval (pos 0) then (panicked, w) else run_loop wakes w
