-- ===== src/Examples/Queue.antt =====
-- The job queue and the audit trail on the example data.
use golden_path_control_plan.Prelude.{
  none, ◌≡◌, refl, true, false, some, [], ◌∷◌, any, update_where,
}
use golden_path_control_plan.Domain.Models.{processing, failed, Job}
use golden_path_control_plan.Errors.{ok, err, lost_row, unavailable}
use golden_path_control_plan.Effects.{arrive}
use golden_path_control_plan.Effects.Tables.{Database}
use golden_path_control_plan.Postgres.Jobs.{mark_job_failed}
use golden_path_control_plan.System.Jobs.Marks.{mark_job_failed_lem, holds}
use golden_path_control_plan.Examples.Data.{env, waiting, taken, database, start}
use golden_path_control_plan.Examples.Runs.{database-JobsSound}

-- The first claim takes one of the two jobs, the second the other, whose lease ran out.
abbrev first_leased : Job
first_leased = record waiting {
  status = processing;
  locked_at = some 5000000;
  lock_owner = "worker-2";
  attempts = 1;
  updated_at = 5000000;
}

abbrev second_leased : Job
second_leased = record taken {
  locked_at = some 5000001;
  lock_owner = "worker-3";
  attempts = 2;
  updated_at = 5000001;
}

abbrev after_first : Database
after_first = record database { jobs = first_leased ∷ taken ∷ [] }

abbrev after_second : Database
after_second = record database { jobs = first_leased ∷ second_leased ∷ [] }

mark_job_failed_lem_example :
    (any (holds env start taken unavailable) database.jobs ≡ true
      → mark_job_failed env taken unavailable start ≡ (
        ok tt,
        record (arrive env start) {
          reads = 1;
          db = record database {
            jobs =
                update_where
                  (holds env start taken unavailable)
                  (λ row. record row {
                    status = failed;
                    locked_at = none;
                    lock_owner = "";
                    last_error = "failure";
                    available_at = 7000000;
                    updated_at = 5000000;
                  })
                  database.jobs;
          };
        },
      ))
    × (any (holds env start taken unavailable) database.jobs ≡ false
        → mark_job_failed env taken unavailable start
          ≡ (err lost_row, record (arrive env start) { reads = 1 }))
mark_job_failed_lem_example =
    mark_job_failed_lem env start taken unavailable refl database-JobsSound.ids
