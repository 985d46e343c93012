-- ===== src/System/Jobs/Marks.antt =====
-- Completion, failure and backoff of internal/postgres/jobs.go.
use golden_path_control_plan.Prelude.{
  subst, Bool, none, ◌&&◌, ◌==◌, str_eq, leb, ℕ, zero, suc, ◌+◌, ◌*◌, ◌^◌, ◌≤◌, ◌<◌, String, ◌≡◌,
  refl, ap, ◌↔◌, inl, inr, true, false, List, [], ◌∷◌, arith, Distinct, update_where-none,
  filter-none, ltb, if◌then◌else◌, Bool-cases, length, any, filter, update_where,
}
use golden_path_control_plan.Domain.Models.{Uuid, Time, Job, failed}
use golden_path_control_plan.Errors.{Error, ok, err, lost_row}
use golden_path_control_plan.Effects.{
  Env, World, delivered, arrive, exec, perform, answer, ◌>>=◌, continue, pure, raise, now,
}
use golden_path_control_plan.Effects.Tables.{Database}
use golden_path_control_plan.Postgres.Jobs.{
  complete_row, fail_row, is_held, is_processing, complete, fail_job, claimable, backoff, min,
  second, mark_job_completed, mark_job_failed,
}
use golden_path_control_plan.System.Jobs.{same_id}

-- The other jobs have another identifier.
others-held :
    (id : Uuid) (owner : String) (x : Job) (xs : List Job)
    → any (same_id x) xs ≡ false
    → is_held id owner x ≡ true
    → any (is_held id owner) xs ≡ false
others-held id owner x [] e h = refl
others-held id owner x (y ∷ ys) e h = ground (arith, others-held id owner x ys (ground arith) h)

-- At most one job is held by a worker under an identifier.
length-held :
    (id : Uuid) (owner : String) (jobs : List Job)
    → Distinct same_id jobs
    → any (is_held id owner) jobs ≡ true
    → length (filter (is_held id owner) jobs) ≡ 1
unfolding Distinct
length-held id owner [] d e = cc
length-held id owner (x ∷ xs) d e = elim (Bool-cases (is_held id owner x)) [
  | inl h ↦ ground (arith, filter-none (is_held id owner) xs (others-held id owner x xs d.0 h))
  | inr h ↦ ground (arith, length-held id owner xs d.1)
]

module _ (env : Env) (w : World) (answered : env.delivery w.exchanges ≡ delivered) where
  abbrev met : Database
  met = env.peers w.exchanges w.db

  -- Let the database answer. A worker that completes a job it holds, the identifiers of the queue
  -- differing, succeeds, and the job is completed; one that does not hold the job, another worker
  -- having claimed it for instance, gets an error, and the tables stay as they are.
  pub mark_job_completed_lem :
      (id : Uuid) (worker_id : String)
      → Distinct same_id met.jobs
      → ((any (is_held id worker_id) met.jobs ≡ true
            → mark_job_completed env id worker_id w ≡ (
              ok tt,
              record (arrive env w) {
                db = record met {
                  jobs =
                      update_where
                        (is_held id worker_id)
                        (complete (env.db_clock w.exchanges))
                        met.jobs;
                };
              },
            ))
          × (any (is_held id worker_id) met.jobs ≡ false
              → mark_job_completed env id worker_id w ≡ (err lost_row, arrive env w)))
  unfolding mark_job_completed exec perform answer complete_row ◌>>=◌ continue arrive pure raise
  mark_job_completed_lem id worker_id d = (
    λ h. rw (answered, length-held id worker_id met.jobs d h) refl,
    λ h.
        rw
          (
            answered,
            filter-none (is_held id worker_id) met.jobs h,
            update_where-none (is_held id worker_id) (complete (env.db_clock w.exchanges)) met.jobs
                h,
          )
          refl,
  )

  -- A report of a failure, by the function that the code updates the row with
  pub mark_job_failed-fail_job :
      (j : Job) (e : Error)
      → Distinct same_id met.jobs
      → let at = env.clock w.reads in
        let w' = record (arrive env w) { reads = suc w.reads } in
        ((any (is_held j.id j.lock_owner) met.jobs ≡ true
            → mark_job_failed env j e w ≡ (
              ok tt,
              record w' {
                db = record met {
                  jobs =
                      update_where
                        (is_held j.id j.lock_owner)
                        (fail_job (env.error_text e) (at + backoff j.attempts) at)
                        met.jobs;
                };
              },
            ))
          × (any (is_held j.id j.lock_owner) met.jobs ≡ false
              → mark_job_failed env j e w ≡ (err lost_row, w')))
  unfolding mark_job_failed exec perform answer fail_row ◌>>=◌ continue arrive pure raise now
  mark_job_failed-fail_job j e d = (
    λ h. rw (answered, length-held j.id j.lock_owner met.jobs d h) refl,
    λ h.
        rw
          (
            answered,
            filter-none (is_held j.id j.lock_owner) met.jobs h,
            update_where-none (is_held j.id j.lock_owner)
                (fail_job (env.error_text e) (env.clock w.reads + backoff j.attempts)
                  (env.clock w.reads))
                met.jobs h,
          )
          refl,
  )

longest : (attempts : ℕ) → 6 ≤ attempts → backoff attempts ≡ 60 * second
unfolding backoff min
longest attempts h =
    let six : min attempts 6 ≡ 6 = ground arith in
    ap (λ m. if ltb (60 * second) (2 ^ m * second) then 60 * second else 2 ^ m * second) six

-- The backoff is 2 ^ attempts seconds up to five attempts, and a minute from six on.
pub backoff_lem :
    (attempts : ℕ)
    → (attempts ≤ 5 → backoff attempts ≡ 2 ^ attempts * second)
      × (6 ≤ attempts → backoff attempts ≡ 60 * second)
unfolding backoff min
backoff_lem zero = (λ h. refl, λ h. absurd (omega arith))
backoff_lem (suc zero) = (λ h. refl, λ h. absurd (omega arith))
backoff_lem (suc (suc zero)) = (λ h. refl, λ h. absurd (omega arith))
backoff_lem (suc (suc (suc zero))) = (λ h. refl, λ h. absurd (omega arith))
backoff_lem (suc (suc (suc (suc zero)))) = (λ h. refl, λ h. absurd (omega arith))
backoff_lem (suc (suc (suc (suc (suc zero))))) = (λ h. refl, λ h. absurd (omega arith))
backoff_lem (suc (suc (suc (suc (suc (suc n)))))) =
    (λ h. absurd (omega arith), λ h. longest (suc (suc (suc (suc (suc (suc n)))))) h)

backoff-delay :
    (attempts : ℕ)
    → backoff attempts ≡ (if leb attempts 5 then 2 ^ attempts * 1000000 else 60000000)
backoff-delay attempts = elim (Bool-cases (leb attempts 5)) [
  | inl h ↦ rw h ((backoff_lem attempts).0 (ground arith))
  | inr h ↦ rw h ((backoff_lem attempts).1 (ground arith))
]

module _ (env : Env) (w : World) (j : Job) (e : Error) where
  -- The row of this job, held by this worker, by its columns
  abbrev pub holds : Job → Bool
  holds row = row.id == j.id && is_processing row.status && str_eq row.lock_owner j.lock_owner

  -- What becomes of it: it is failed and free, with the text of the error, and waits
  abbrev pub put_back : Time → Job → Job
  put_back at row = record row {
    status = failed;
    locked_at = none;
    lock_owner = "";
    last_error = env.error_text e;
    available_at = at + (if leb j.attempts 5 then 2 ^ j.attempts * 1000000 else 60000000);
    updated_at = at;
  }

  -- Let the database answer. A worker that reports the failure of a job it holds, the identifiers of
  -- the queue differing, succeeds: the job's row becomes failed and unlocked, with the error's text,
  -- and is due again after 2 ^ attempts seconds up to five attempts and after a minute from six on;
  -- every other row stays. One that does not hold the job any more gets an error, and the tables stay
  -- as they are.
  pub mark_job_failed_lem :
      env.delivery w.exchanges ≡ delivered
      → Distinct same_id (env.peers w.exchanges w.db).jobs
      → let db = env.peers w.exchanges w.db in
        let at = env.clock w.reads in
        let w' = record (arrive env w) { reads = suc w.reads } in
        (any holds db.jobs ≡ true
          → mark_job_failed env j e w ≡ (
            ok tt,
            record w' { db = record db { jobs = update_where holds (put_back at) db.jobs } },
          ))
        × (any holds db.jobs ≡ false → mark_job_failed env j e w ≡ (err lost_row, w'))
  unfolding fail_job
  mark_job_failed_lem answered d =
      let (held, lost) = mark_job_failed-fail_job env w answered j e d in
      (
        λ h.
            subst
              (λ delay. mark_job_failed env j e w ≡ (
                ok tt,
                record (arrive env w) {
                  reads = suc w.reads;
                  db = record (env.peers w.exchanges w.db) {
                    jobs =
                        update_where holds
                          (λ row. record row {
                            status = failed;
                            locked_at = none;
                            lock_owner = "";
                            last_error = env.error_text e;
                            available_at = env.clock w.reads + delay;
                            updated_at = env.clock w.reads;
                          })
                          (env.peers w.exchanges w.db).jobs;
                  };
                },
              ))
              (backoff-delay j.attempts) (held h),
        lost,
      )

-- A job that failed at a time is claimable at a later time exactly if it has attempts left and the
-- backoff has passed.
pub claimable-fail_job :
    (j : Job) (message : String) (at later expired : Time)
    → (claimable later expired (fail_job message (at + backoff j.attempts) at j) ≡ true)
      ↔ ((j.attempts < j.max_attempts) × (at + backoff j.attempts ≤ later))
unfolding claimable fail_job
claimable-fail_job j message at later expired = ground arith
