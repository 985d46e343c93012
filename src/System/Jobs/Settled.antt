-- ===== src/System/Jobs/Settled.antt =====
-- Jobs that a worker holds, and what the marks of internal/postgres/jobs.go make of them.
use golden_path_control_plan.Prelude.{
  String, ◌≡◌, refl, inl, inr, Bool, true, false, ◌&&◌, List, [], ◌∷◌, map, arith, Distinct,
  Distinct-update_where, All-imply, ◌==◌, eq_iff, Bool-cases, any, filter, update_where, All,
}
use golden_path_control_plan.Domain.Models.{Uuid, Time, Job, JobStatus, completed, failed}
use golden_path_control_plan.Errors.{Result, ok}
use golden_path_control_plan.Effects.{World}
use golden_path_control_plan.Effects.Tables.{Database}
use golden_path_control_plan.Postgres.Jobs.{is_held, complete, fail_job, lease_job}
use golden_path_control_plan.System.Jobs.{same_id}

abbrev pub is_settled : JobStatus → Bool
is_settled completed = true
is_settled failed = true
is_settled _ = false

abbrev pub is_settled_as : Uuid → Job → Bool
is_settled_as id j = j.id == id && is_settled j.status

-- The queue has the job, completed or failed; a worker holds the job; no two jobs have one identifier.
abbrev pub Settled : Uuid → Database → Type 0
Settled id db = any (is_settled_as id) db.jobs ≡ true

abbrev pub Held : String → Uuid → Database → Type 0
Held worker_id id db = any (is_held id worker_id) db.jobs ≡ true

abbrev pub Apart : Database → Type 0
Apart db = Distinct same_id db.jobs

-- A call succeeds, and settles the jobs.
abbrev pub AllSettled : List Job → Result (Unit {0}) × World → Type 0
AllSettled js x = (x.0 ≡ ok tt) × All (λ j. Settled j.id x.1.db) js

-- A change of rows that settles them
pub record Settles (f : Job → Job) : Type 0 where
  pub keeps_id : (j : Job) → (f j).id ≡ j.id
  pub settles : (j : Job) → is_settled (f j).status ≡ true

pub complete-Settles : (at : Time) → Settles (complete at)
unfolding complete
complete-Settles at = record { keeps_id = λ j. refl; settles = λ j. refl }

pub fail_job-Settles : (m : String) (t at : Time) → Settles (fail_job m t at)
unfolding fail_job
fail_job-Settles m t at = record { keeps_id = λ j. refl; settles = λ j. refl }

module _ (p : Job → Bool) {f : Job → Job} (h : Settles f) where
  pub stays-settled :
      (id : Uuid) (jobs : List Job)
      → any (is_settled_as id) jobs ≡ true
      → any (is_settled_as id) (update_where p f jobs) ≡ true
  stays-settled id [] e = e
  stays-settled id (j ∷ js) e = ground (arith, stays-settled id js, h.keeps_id j, h.settles j)

  pub stays-apart :
      (jobs : List Job) → Distinct same_id jobs → Distinct same_id (update_where p f jobs)
  stays-apart jobs d =
      Distinct-update_where same_id p f jobs (λ i j. rw (h.keeps_id i) refl)
        (λ i j. rw (h.keeps_id j) refl) d

module _ (worker_id : String) {f : Job → Job} (h : Settles f) (id : Uuid) where
  marked-settled :
      (jobs : List Job)
      → any (is_held id worker_id) jobs ≡ true
      → any (is_settled_as id) (update_where (is_held id worker_id) f jobs) ≡ true
  marked-settled [] e = cc
  marked-settled (j ∷ js) e = ground (arith, marked-settled js, h.keeps_id j, h.settles j)

  others-held :
      (i : Uuid)
      → (id == i) ≡ false
      → (jobs : List Job) → any (is_held i worker_id) jobs ≡ true
      → any (is_held i worker_id) (update_where (is_held id worker_id) f jobs) ≡ true
  others-held i n [] e = cc
  others-held i n (j ∷ js) e = elim (Bool-cases (is_held id worker_id j)) [
    | inl m ↦
        let other : is_held i worker_id j ≡ false = ground arith in
        let rest : any (is_held i worker_id) js ≡ true = ground arith in
        ground (arith, others-held i n js rest)
    | inr m ↦ ground (arith, others-held i n js)
  ]

-- The jobs that are left of a round: the worker holds each, under an identifier of its own.
pub record Ready (worker_id : String) (js : List Job) (db : Database) : Type 0 where
  pub apart : Apart db
  pub held : All (λ j. Held worker_id j.id db) js
  pub owned : All (λ j. j.lock_owner ≡ worker_id) js
  pub differ : Distinct same_id js

-- What the world is like after a mark: the job is settled, and the others are as they were.
pub record Marked (worker_id : String) (id : Uuid) (before : Database)
    (after : Result (Unit {0}) × World) : Type 0 where
  pub succeeds : after.0 ≡ ok tt
  pub settled : Settled id after.1.db
  pub apart : Apart after.1.db
  pub others :
      (i : Uuid) → (id == i) ≡ false → Held worker_id i before → Held worker_id i after.1.db

module _ (worker_id : String) {f : Job → Job} (h : Settles f) (id : Uuid) (before : Database)
    (apart : Apart before) (held : Held worker_id id before) where
  pub updated-Marked :
      (w : World)
      → w.db.jobs ≡ update_where (is_held id worker_id) f before.jobs
      → Marked worker_id id before (ok tt, w)
  updated-Marked w e = record {
    succeeds = refl;
    settled = rw e (marked-settled worker_id h id before.jobs held);
    apart = rw e (stays-apart (is_held id worker_id) h before.jobs apart);
    others = λ i n o. rw e (others-held worker_id h id i n before.jobs o);
  }

module _ (picked : Job → Bool) (at : Time) (worker_id : String) where
  -- A leased row is held by the worker.
  pub leased-held :
      (jobs : List Job)
      → All
          (λ j.
            any (is_held j.id worker_id) (update_where picked (lease_job at worker_id) jobs) ≡ true)
          (map (lease_job at worker_id) (filter picked jobs))
  unfolding lease_job
  leased-held [] = tt
  leased-held (x ∷ xs) = elim (Bool-cases (picked x)) [
    | inl e ↦ rw e (
      ground (arith, eq_iff worker_id worker_id),
      All-imply (map (lease_job at worker_id) (filter picked xs)) (λ j h. ground arith)
          (leased-held xs),
    )
    | inr e ↦ rw e (
        All-imply (map (lease_job at worker_id) (filter picked xs)) (λ j h. ground arith)
          (leased-held xs))
  ]

  pub leased-owned :
      (jobs : List Job) → All (λ j. j.lock_owner ≡ worker_id) (map (lease_job at worker_id) jobs)
  unfolding lease_job
  leased-owned [] = tt
  leased-owned (x ∷ xs) = (refl, leased-owned xs)

  leased-other :
      (i : Job) (jobs : List Job)
      → any (same_id i) jobs ≡ false
      → any (same_id i) (map (lease_job at worker_id) (filter picked jobs)) ≡ false
  unfolding lease_job
  leased-other i [] e = refl
  leased-other i (x ∷ xs) e = ground (arith, leased-other i xs)

  pub leased-differ :
      (jobs : List Job)
      → Distinct same_id jobs
      → Distinct same_id (map (lease_job at worker_id) (filter picked jobs))
  unfolding Distinct lease_job
  leased-differ [] d = tt
  leased-differ (x ∷ xs) d = elim (Bool-cases (picked x)) [
    | inl e ↦ rw e (leased-other x xs d.0, leased-differ xs d.1)
    | inr e ↦ rw e (leased-differ xs d.1)
  ]
