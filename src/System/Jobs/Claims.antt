-- ===== src/System/Jobs/Claims.antt =====
-- The claims of internal/postgres/jobs.go, on a queue whose identifiers differ.
use golden_path_control_plan.Prelude.{◌≤◌, ◌<◌, String, ◌≡◌, some}
use golden_path_control_plan.Domain.Models.{Time, Job, processing}

-- A job in the hands of a worker since a time
pub record IsLeased (worker_id : String) (at : Time) (j : Job) : Type 0 where
  pub processed : j.status ≡ processing
  pub owned : j.lock_owner ≡ worker_id
  pub locked : j.locked_at ≡ some at
  pub attempts : (0 < j.attempts) × (j.attempts ≤ j.max_attempts)
