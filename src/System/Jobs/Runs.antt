-- ===== src/System/Jobs/Runs.antt =====
-- The invariant of the job queue over whole runs.
use golden_path_control_plan.Prelude.{ℕ, ◌≡◌, List}
use golden_path_control_plan.Effects.{Env, World}
use golden_path_control_plan.Effects.Tables.{Database}
use golden_path_control_plan.Effects.Rules.{PeersKeep}
use golden_path_control_plan.System.{Operation, run}
use golden_path_control_plan.System.Statements.{StatementsKeep, run_statements-Keeps}
use golden_path_control_plan.System.Jobs.Statements.{jobs_statements}
use golden_path_control_plan.System.Jobs.{
  JobsSound, upsert_job-JobsSound, claim-JobsSound, complete_row-JobsSound, fail_row-JobsSound,
}

-- The queue is sound by its jobs alone.
moved : (db db' : Database) → db'.jobs ≡ db.jobs → JobsSound db → JobsSound db'
moved db db' same v = record { ids = rw same v.ids; keys = rw same v.keys; each = rw same v.each }

module _ (env : Env) (peers : PeersKeep env JobsSound) where
  statements-JobsSound : StatementsKeep env JobsSound
  statements-JobsSound =
      jobs_statements JobsSound moved env peers upsert_job-JobsSound (claim-JobsSound env)
        (complete_row-JobsSound env) fail_row-JobsSound

  -- Let other sessions keep the queue sound: no two jobs have the same identifier, no two have the
  -- same type and idempotency key, each job may be attempted at least once and has been attempted no
  -- more often than it may, and a job is locked exactly while it is processing. Then after any
  -- sequence of requests and rounds of workers, failed ones included, the queue is sound if it was
  -- before.
  pub run-JobsSound :
      (job_max_attempts : ℕ) (operations : List Operation) (w : World)
      → JobsSound w.db
      → JobsSound (run env job_max_attempts operations w).db
  run-JobsSound = run_statements-Keeps env JobsSound statements-JobsSound
