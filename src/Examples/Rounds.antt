-- ===== src/Examples/Rounds.antt =====
-- Rounds of a worker on the example data.
use golden_path_control_plan.Prelude.{decimal, ◌≡◌, refl, List, [], ◌∷◌, ◌++◌, arith, Distinct}
use golden_path_control_plan.Domain.Models.{Job, text}
use golden_path_control_plan.Errors.{ok}
use golden_path_control_plan.Config.Settings.{seconds}
use golden_path_control_plan.Postgres.Jobs.{claim_jobs, enqueue_job, upsert_job}
use golden_path_control_plan.System.Jobs.Settled.{Apart, AllSettled}
use golden_path_control_plan.System.Jobs.Rounds.{run_once-Settles}
use golden_path_control_plan.System.Loop.{times, rounds, run-Stops}
use golden_path_control_plan.Worker
use golden_path_control_plan.Worker.{Worker, run_once, tick, context_done, returned, waiting}
use golden_path_control_plan.Effects.{◌>>=◌, exec, now, pure, new_uuid}
use golden_path_control_plan.Postgres.Services.{get_service, select_service, find_service}
use golden_path_control_plan.Postgres.Audit.{insert_audit_event, insert_audit_row}
use golden_path_control_plan.ControlPlane.{queue_service_evaluation, choose_key, audit}
use golden_path_control_plan.ControlPlane.Entities.{new_job}
use golden_path_control_plan.System.{Operation, queue, step, run}
use golden_path_control_plan.System.Jobs.Idempotency.{queue-idempotent}
use golden_path_control_plan.System.Audited.{IsAudited, step-IsAudited}
use golden_path_control_plan.Examples.Data.{env, database, start, developer, waiting as idle}

database-Apart : Apart database
unfolding Distinct
database-Apart = (refl, (refl, tt))

run_once-Settles_example :
    (js : List Job) × ((claim_jobs env "worker-2" 2 1000 start).0 ≡ ok js)
    × AllSettled js (run_once env "worker-2" 2 1000 start)
run_once-Settles_example =
    run_once-Settles env "worker-2" (λ k. refl) (λ k db h. h) (λ id k db h. h) (λ id k db h. h)
      start 2 1000 database-Apart

abbrev worker : Worker
worker = record { id = "worker-2"; poll_interval = seconds 2; batch_size = 2; lease = 1000 }

run-Stops_example :
    (Worker.run env worker (times 2 tick) start ≡ (waiting, rounds env 5 worker 3 start))
    × (Worker.run env worker (times 2 tick ++ context_done "context canceled" ∷ []) start
        ≡ (returned "context canceled", rounds env 5 worker 3 start))
run-Stops_example = run-Stops env 5 worker 2 "context canceled" [] start (omega arith)

abbrev request : Operation
request = queue developer "r3" 1 "third"

queued : (step env 5 request start).0 ≡ ok tt
unfolding step queue_service_evaluation ◌>>=◌ get_service exec select_service find_service now
    choose_key pure new_uuid enqueue_job upsert_job new_job audit insert_audit_event
    insert_audit_row
queued = refl

step-IsAudited_example : IsAudited request (step env 5 request start).1.db
step-IsAudited_example = step-IsAudited env 5 request start queued

-- A request with a key, and one with the same key for it after a request with another key
abbrev first_job : Job
first_job = record idle {
  id = 1000;
  idempotency_key = "third";
  payload = ("service_id", text (decimal 1)) ∷ [];
  available_at = 5000000;
  created_at = 5000000;
  updated_at = 5000000;
}

abbrev second_job : Job
second_job = record first_job { updated_at = 5000002 }

first_answer : (queue_service_evaluation env developer "r3" 5 1 "third" start).0 ≡ ok first_job
unfolding queue_service_evaluation ◌>>=◌ get_service exec select_service find_service now choose_key
    pure new_uuid enqueue_job upsert_job new_job audit insert_audit_event insert_audit_row
first_answer = refl

second_answer :
    (queue_service_evaluation env developer "r5" 3 1 "third" (
      run env 5
        (queue developer "r4" 1 "fourth" ∷ [])
        (queue_service_evaluation env developer "r3" 5 1 "third" start).1)).0
    ≡ ok second_job
unfolding run step queue_service_evaluation ◌>>=◌ get_service exec select_service find_service now
    choose_key pure new_uuid enqueue_job upsert_job new_job audit insert_audit_event
    insert_audit_row
second_answer = refl

queue-idempotent_example : (second_job.id ≡ first_job.id) × (second_job.resource_id ≡ 1)
queue-idempotent_example =
    queue-idempotent env "third" (λ e. cc) (λ id service_id k db h. h) 5 developer developer "r3"
      "r5" 5 3 1 1 (queue developer "r4" 1 "fourth" ∷ []) start first_job second_job first_answer
      second_answer
