-- ===== src/Postgres/Jobs.antt =====
-- The job queue: internal/postgres/jobs.go, and `EnqueueJob` of internal/postgres/services.go.
-- A payload goes to a JSONB column and back; the model keeps it as it is.
use golden_path_control_plan.Prelude.{
  ℕ, ◌+◌, ◌-◌, ◌*◌, ◌^◌, ◌==◌, String, str_eq, Bool, true, false, not, ◌&&◌, ◌||◌, Option, none,
  some, List, [], ◌∷◌, ◌++◌, if◌then◌else◌, any, filter, find?, update_where, sort_by, take, length,
  map, ltb, leb,
}
use golden_path_control_plan.Domain.Models.{
  Uuid, Time, Job, JobType, service_evaluation, other_type, JobStatus, processing, completed,
  failed,
}
use golden_path_control_plan.Errors.{
  Error, Result, ok, err, unique_violation, constraint_violation, not_encodable,
}
use golden_path_control_plan.Effects.{Env, App, Statement, ◌>>=◌, now, exec}
use golden_path_control_plan.Effects.Tables.{Database}
use golden_path_control_plan.Postgres.Services.{int4_max}
use golden_path_control_plan.Postgres.Candidates.{expect_one}

abbrev pub same_type : JobType → JobType → Bool
same_type service_evaluation service_evaluation = true
same_type (other_type a) (other_type b) = str_eq a b
same_type _ _ = false

abbrev pub same_key : Job → Job → Bool
same_key j i = same_type i.type j.type && str_eq i.idempotency_key j.idempotency_key

abbrev pub is_known : JobType → Bool
is_known service_evaluation = true
is_known (other_type t) = false

abbrev pub found_row : Option Job → Database → Result (Job × Database)
found_row none db = err constraint_violation
found_row (some j) db = ok (j, db)

-- The row that `INSERT INTO jobs` builds
unfoldable pub new_row : Job → Job
new_row j = record j { locked_at = none; lock_owner = ""; last_error = "" }

unfoldable pub touch : Time → Job → Job
touch at j = record j { updated_at = at }

-- INSERT … ON CONFLICT (type, idempotency_key) DO UPDATE SET updated_at … RETURNING
unfoldable pub upsert_job : Job → Statement Job
unfolding new_row touch
upsert_job j k db =
    let rows = update_where (same_key j) (touch j.updated_at) db.jobs in
    if ltb int4_max j.max_attempts
    then err not_encodable
    else if not (is_known j.type) || j.max_attempts == 0
    then err constraint_violation
    else if any (same_key j) db.jobs
    then found_row (find? (same_key j) rows) (record db { jobs = rows })
    else if any (λ i. i.id == j.id) db.jobs
    then err unique_violation
    else ok (new_row j, record db { jobs = db.jobs ++ new_row j ∷ [] })

unfoldable pub enqueue_job : Env → Job → App Job
enqueue_job env j = exec env (upsert_job j)

abbrev pub is_waiting : JobStatus → Bool
is_waiting JobStatus.pending = true
is_waiting failed = true
is_waiting _ = false

abbrev pub is_processing : JobStatus → Bool
is_processing processing = true
is_processing _ = false

abbrev pub locked_before : Time → Option Time → Bool
locked_before t none = false
locked_before t (some at) = ltb at t

-- The WHERE clause of the query that picks candidates
unfoldable pub claimable : Time → Time → Job → Bool
claimable at expired_before j =
    ltb j.attempts j.max_attempts
    && ((is_waiting j.status && leb j.available_at at)
        || (is_processing j.status && locked_before expired_before j.locked_at))

-- ORDER BY available_at ASC, created_at ASC
abbrev pub claims_first : Job → Job → Bool
claims_first i j =
    ltb i.available_at j.available_at
    || (i.available_at == j.available_at && leb i.created_at j.created_at)

unfoldable pub lease_job : Time → String → Job → Job
lease_job at worker_id j = record j {
  status = processing;
  locked_at = some at;
  lock_owner = worker_id;
  attempts = j.attempts + 1;
  updated_at = at;
}

-- The candidates that are not locked by others, in order, as many as the batch holds
unfoldable pub pick : (Uuid → Bool) → Time → Time → ℕ → List Job → List Job
unfolding claimable
pick locked at expired_before batch_size jobs =
    take batch_size
      (sort_by claims_first (filter (λ j. claimable at expired_before j && not (locked j.id)) jobs))

abbrev pub is_among : List Job → Job → Bool
is_among picked j = any (λ i. i.id == j.id) picked

-- The rows are returned in the table's order: SQL fixes none.
unfoldable pub claim : Env → String → ℕ → Time → Statement (List Job)
unfolding pick
claim env worker_id batch_size expired_before k db =
    let at = env.db_clock k in
    let picked = pick (env.locked k) at expired_before batch_size db.jobs in
    ok (
      map (lease_job at worker_id) (filter (is_among picked) db.jobs),
      record db { jobs = update_where (is_among picked) (lease_job at worker_id) db.jobs },
    )

-- The clock is taken to be later than the lease is long.
unfoldable pub claim_jobs : Env → String → ℕ → Time → App (List Job)
claim_jobs env worker_id batch_size lease = do
  at ← now env
  exec env (claim env worker_id batch_size (at - lease))

-- WHERE id = $1 AND status = 'processing' AND lock_owner = …
abbrev pub is_held : Uuid → String → Job → Bool
is_held id owner j = j.id == id && is_processing j.status && str_eq j.lock_owner owner

unfoldable pub complete : Time → Job → Job
complete at j = record j {
  status = completed;
  locked_at = none;
  lock_owner = "";
  last_error = "";
  updated_at = at;
}

unfoldable pub complete_row : Env → Uuid → String → Statement ℕ
complete_row env id worker_id k db = ok (
  length (filter (is_held id worker_id) db.jobs),
  record db { jobs = update_where (is_held id worker_id) (complete (env.db_clock k)) db.jobs },
)

unfoldable pub mark_job_completed : Env → Uuid → String → App (Unit {0})
mark_job_completed env id worker_id = do
  affected ← exec env (complete_row env id worker_id)
  expect_one affected

unfoldable pub min : ℕ → ℕ → ℕ
min left right = if ltb left right then left else right

abbrev pub second : Time
second = 1000000

-- 1 << min(attempts, 6) seconds, and a minute at most
unfoldable pub backoff : ℕ → Time
unfolding min
backoff attempts =
    let delay = 2 ^ min attempts 6 * second in
    if ltb (60 * second) delay then 60 * second else delay

unfoldable pub fail_job : String → Time → Time → Job → Job
fail_job message available_at at j = record j {
  status = failed;
  locked_at = none;
  lock_owner = "";
  last_error = message;
  available_at = available_at;
  updated_at = at;
}

unfoldable pub fail_row : Uuid → String → String → Time → Time → Statement ℕ
fail_row id owner message available_at at k db = ok (
  length (filter (is_held id owner) db.jobs),
  record db { jobs = update_where (is_held id owner) (fail_job message available_at at) db.jobs },
)

unfoldable pub mark_job_failed : Env → Job → Error → App (Unit {0})
unfolding backoff
mark_job_failed env j failure = do
  at ← now env
  affected ←
      exec env (fail_row j.id j.lock_owner (env.error_text failure) (at + backoff j.attempts) at)
  expect_one affected
