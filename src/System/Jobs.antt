-- ===== src/System/Jobs.antt =====
-- The invariant of the job queue, and the statements of internal/postgres that write it.
pub mod Claims
pub mod Marks
pub mod Runs
pub mod Statements
pub mod Keys
pub mod Idempotency
pub mod Settled
pub mod Rounds
use golden_path_control_plan.Prelude.{
  ℕ, ◌≤◌, ◌<◌, String, ◌≡◌, refl, ap, subst, ◌⊎◌, inl, inr, Bool, true, false, Option, none, some,
  List, [], ◌∷◌, ◌++◌, arith, Distinct, All-append, All-update_where, All-update_where-if,
  All-filter, All-take, All-sort_by, Distinct-append, Distinct-update_where, All-every, All-both,
  any-false-All, ◌==◌, Bool-cases, any, update_where, All,
}
use golden_path_control_plan.Domain.Models.{Uuid, Time, Job}
use golden_path_control_plan.Errors.{ok}
use golden_path_control_plan.Effects.{Env}
use golden_path_control_plan.Effects.Tables.{Database}
use golden_path_control_plan.Effects.Rules.{Preserves}
use golden_path_control_plan.Postgres.Jobs.{
  same_key, is_processing, upsert_job, claim, complete_row, fail_row, is_held, is_among, pick,
  lease_job, complete, fail_job, claimable, touch, new_row,
}
use golden_path_control_plan.ControlPlane.Entities.{new_job, Details}

abbrev pub same_id : Job → Job → Bool
same_id i j = i.id == j.id

abbrev pub have_same_key : Job → Job → Bool
have_same_key i j = same_key j i

abbrev pub is_some : {A : Type 0} → Option A → Bool
is_some none = false
is_some (some a) = true

-- Its attempts are in bounds, and it is locked exactly while it is processed.
pub record IsSoundJob (j : Job) : Type 0 where
  pub attempts : j.attempts ≤ j.max_attempts
  pub retries : 0 < j.max_attempts
  pub locked : is_some j.locked_at ≡ is_processing j.status

pub record JobsSound (db : Database) : Type 0 where
  pub ids : Distinct same_id db.jobs
  pub keys : Distinct have_same_key db.jobs
  pub each : All IsSoundJob db.jobs

module _ (k : ℕ) (db db' : Database) where
  pub upsert_job-cases :
      (j i : Job)
      → upsert_job j k db ≡ ok (i, db')
      → (0 < j.max_attempts)
        × (((any (same_key j) db.jobs ≡ true)
              × (db'.jobs ≡ update_where (same_key j) (touch j.updated_at) db.jobs))
            ⊎ ((any (same_key j) db.jobs ≡ false)
                × ((any (λ l. l.id == j.id) db.jobs ≡ false)
                    × (db'.jobs ≡ db.jobs ++ new_row j ∷ []))))
  unfolding upsert_job
  upsert_job-cases j i e = ground arith

-- The only row of a table with the identifier of `i` is `i`.
abbrev Twin : List Job → Job → Type 0
Twin jobs i = All (λ j. (i.id == j.id) ≡ true → i ≡ j) jobs

Distinct-Twin : (jobs : List Job) → Distinct same_id jobs → All (Twin jobs) jobs
unfolding Distinct
Distinct-Twin [] d = tt
Distinct-Twin (x ∷ xs) d = (
  (
    λ e. refl,
    All-both {Q = λ _. Unit} xs (λ y h u e. cc (rw e at h)) (any-false-All (same_id x) xs d.0)
        (All-every xs λ y. tt),
  ),
  All-both xs (λ y h t. (λ e. absurd (ground arith), t)) (any-false-All (same_id x) xs d.0)
      (Distinct-Twin xs d.1),
)

module _ (C : Job → Type 0) where
  among :
      (picked jobs : List Job)
      → All (λ i. Twin jobs i × C i) picked
      → All (λ j. is_among picked j ≡ true → C j) jobs
  among [] jobs a = All-every jobs λ j e. cc
  among (i ∷ picked) jobs a =
      All-both jobs
        (λ j t h e. elim (Bool-cases (i.id == j.id)) [
          | inl q ↦ subst C (t q) a.0.1
          | inr q ↦ h (ground arith)
        ])
        a.0.0 (among picked jobs a.1)

-- The rows that a claim picks, and so the rows that it leases, may be attempted once more.
pub picked-claimable :
    (locked : Uuid → Bool) (at t : Time) (n : ℕ) (jobs : List Job)
    → Distinct same_id jobs
    → All (λ j. is_among (pick locked at t n jobs) j ≡ true → claimable at t j ≡ true) jobs
unfolding pick
picked-claimable locked at t n jobs d =
    among (λ j. claimable at t j ≡ true) _ jobs
      (All-take _ n _ (
        All-sort_by _ _ _ (
          All-filter (Twin jobs) _ _ jobs (λ j twin e. (twin, ground arith))
            (Distinct-Twin jobs d))))

lease_job-IsSoundJob :
    (worker_id : String) (at t now : Time) (j : Job)
    → IsSoundJob j
    → claimable at t j ≡ true
    → IsSoundJob (lease_job now worker_id j)
unfolding lease_job claimable
lease_job-IsSoundJob worker_id at t now j s c = record {
  attempts = ground arith;
  retries = s.retries;
  locked = refl;
}

JobsSound-of_update :
    (db db' : Database) (p : Job → Bool) (f : Job → Job)
    → ((i : Job) → (f i).id ≡ i.id)
    → ((i j : Job) → same_key (f i) j ≡ same_key i j)
    → ((i j : Job) → same_key i (f j) ≡ same_key i j)
    → db'.jobs ≡ update_where p f db.jobs
    → All IsSoundJob (update_where p f db.jobs)
    → JobsSound db
    → JobsSound db'
JobsSound-of_update db db' p f hi hk hl e a v = record {
  ids = rw e (
      Distinct-update_where same_id p f db.jobs (λ i j. ap (λ n. n == j.id) (hi i))
        (λ i j. ap (λ n. i.id == n) (hi j)) v.ids);
  keys =
      rw e (Distinct-update_where have_same_key p f db.jobs (λ i j. hl j i) (λ i j. hk j i) v.keys);
  each = rw e a;
}

pub claim-JobsSound :
    (env : Env) (worker_id : String) (n : ℕ) (t : Time)
    → Preserves JobsSound (claim env worker_id n t)
unfolding claim lease_job
claim-JobsSound env worker_id n t = record {
  at = λ k db v a db' e.
      JobsSound-of_update db db' _ (lease_job (env.db_clock k) worker_id) (λ i. refl) (λ i j. refl)
        (λ i j. refl) (ground arith)
        (All-update_where-if IsSoundJob _ _ _ db.jobs
          (lease_job-IsSoundJob worker_id (env.db_clock k) t (env.db_clock k))
          (picked-claimable (env.locked k) (env.db_clock k) t n db.jobs v.ids) v.each)
        v;
}

pub complete_row-JobsSound :
    (env : Env) (id : Uuid) (worker_id : String)
    → Preserves JobsSound (complete_row env id worker_id)
unfolding complete_row complete
complete_row-JobsSound env id worker_id = record {
  at = λ k db v a db' e.
      JobsSound-of_update db db' (is_held id worker_id) (complete (env.db_clock k)) (λ i. refl)
        (λ i j. refl) (λ i j. refl) (ground arith)
        (All-update_where IsSoundJob (is_held id worker_id) (complete (env.db_clock k)) db.jobs
          (λ j s. record { attempts = s.attempts; retries = s.retries; locked = refl }) v.each)
        v;
}

pub fail_row-JobsSound :
    (id : Uuid) (owner message : String) (t at : Time)
    → Preserves JobsSound (fail_row id owner message t at)
unfolding fail_row fail_job
fail_row-JobsSound id owner message t now = record {
  at = λ k db v a db' e.
      JobsSound-of_update db db' (is_held id owner) (fail_job message t now) (λ i. refl)
        (λ i j. refl) (λ i j. refl) (ground arith)
        (All-update_where IsSoundJob (is_held id owner) (fail_job message t now) db.jobs
          (λ j s. record { attempts = s.attempts; retries = s.retries; locked = refl }) v.each)
        v;
}

new_job-IsSoundJob :
    (id : Uuid) (at : Time) (n : ℕ) (service_id : Uuid) (key : String) (payload : Details)
    → 0 < n
    → IsSoundJob (new_row (new_job id at n service_id key payload))
unfolding new_row new_job
new_job-IsSoundJob id at n service_id key payload h = record {
  attempts = omega arith;
  retries = h;
  locked = refl;
}

pub upsert_job-JobsSound :
    (id : Uuid) (at : Time) (n : ℕ) (service_id : Uuid) (key : String) (payload : Details)
    → Preserves JobsSound (upsert_job (new_job id at n service_id key payload))
unfolding touch new_row new_job
upsert_job-JobsSound id at n service_id key payload = record {
  at = λ k db v a db' e.
      let j = new_job id at n service_id key payload in
      let (positive, cases) = upsert_job-cases k db db' j a e in
      elim cases [
        | inl (there, new) ↦
            JobsSound-of_update db db' (same_key j) (touch j.updated_at) (λ i. refl) (λ i j. refl)
              (λ i j. refl) new
              (All-update_where IsSoundJob (same_key j) (touch j.updated_at) db.jobs
                (λ i s. record { attempts = s.attempts; retries = s.retries; locked = s.locked })
                v.each)
              v
        | inr (absent, (fresh, new)) ↦ record {
          ids = rw new (Distinct-append same_id db.jobs (new_row j) v.ids fresh);
          keys = rw new (Distinct-append have_same_key db.jobs (new_row j) v.keys absent);
          each = rw new (
              All-append IsSoundJob db.jobs (new_row j ∷ []) v.each
                (new_job-IsSoundJob id at n service_id key payload positive, tt));
        }
      ];
}
