-- ===== src/System/Jobs/Keys.antt =====
-- Idempotency keys of internal/postgres/services.go: a key stands for one job, whatever comes after.
use golden_path_control_plan.Prelude.{
  ℕ, String, ◌≡◌, refl, ◌∙◌, Bool, true, false, ◌&&◌, some, List, [], ◌∷◌, ◌++◌, arith, str_eq,
  eq_iff, any, find?, update_where, find?-append, Bool-cases, inl, inr, if◌then◌else◌,
}
use golden_path_control_plan.Domain.Models.{Uuid, Time, Job, service_evaluation}
use golden_path_control_plan.Errors.{ok}
use golden_path_control_plan.Effects.{Env}
use golden_path_control_plan.Effects.Tables.{Database}
use golden_path_control_plan.Effects.Rules.{Preserves, PeersKeep}
use golden_path_control_plan.Postgres.Jobs.{
  upsert_job, claim, complete_row, fail_row, same_type, same_key, touch, new_row, lease_job,
  complete, fail_job, is_among, is_held, pick,
}
use golden_path_control_plan.ControlPlane.Entities.{new_job, Details}
use golden_path_control_plan.System.Statements.{StatementsKeep}
use golden_path_control_plan.System.Jobs.{upsert_job-cases}
use golden_path_control_plan.System.Jobs.Statements.{jobs_statements}

-- A job that a client's key stands for
abbrev pub has_key : String → Job → Bool
has_key key j = same_type j.type service_evaluation && str_eq j.idempotency_key key

-- The first job with the key is `id`, for the service.
pub record Keyed (key : String) (id service_id : Uuid) (db : Database) : Type 0 where
  pub row : Job
  pub stored : find? (has_key key) db.jobs ≡ some row
  pub same : row.id ≡ id
  pub resource : row.resource_id ≡ service_id

-- A change of a row that leaves what the key depends on
record Neutral (f : Job → Job) : Type 0 where
  type : (j : Job) → (f j).type ≡ j.type
  key : (j : Job) → (f j).idempotency_key ≡ j.idempotency_key
  id : (j : Job) → (f j).id ≡ j.id
  resource : (j : Job) → (f j).resource_id ≡ j.resource_id

Neutral-has_key :
    (f : Job → Job) → Neutral f → (key : String) (j : Job) → has_key key (f j) ≡ has_key key j
Neutral-has_key f n key j = rw (n.type j, n.key j) refl

find?-changed :
    (p q : Job → Bool) (f : Job → Job) (js : List Job) (a : Job)
    → ((j : Job) → p (f j) ≡ p j)
    → find? p js ≡ some a
    → find? p (update_where q f js) ≡ some (if q a then f a else a)
find?-changed p q f [] a h e = cc
find?-changed p q f (x ∷ xs) a h e = ground (arith, h x, find?-changed p q f xs a h)

Keyed-update :
    (q : Job → Bool) (f : Job → Job) (key : String) (id service_id : Uuid) (db db' : Database)
    → Neutral f
    → db'.jobs ≡ update_where q f db.jobs
    → Keyed key id service_id db
    → Keyed key id service_id db'
Keyed-update q f key id service_id db db' n table v = record {
  row = if q v.row then f v.row else v.row;
  stored =
      rw table (find?-changed (has_key key) q f db.jobs v.row (Neutral-has_key f n key) v.stored);
  same = elim (Bool-cases (q v.row)) [ inl e ↦ rw e (n.id v.row ∙ v.same) | inr e ↦ rw e v.same ];
  resource = elim (Bool-cases (q v.row)) [
    | inl e ↦ rw e (n.resource v.row ∙ v.resource)
    | inr e ↦ rw e v.resource
  ];
}

module _ (key : String) (id service_id : Uuid) where
  pub moved :
      (db db' : Database)
      → db'.jobs ≡ db.jobs
      → Keyed key id service_id db
      → Keyed key id service_id db'
  moved db db' e v = record {
    row = v.row;
    stored = rw e v.stored;
    same = v.same;
    resource = v.resource;
  }

  pub upsert_job-Keyed :
      (i : Uuid) (at : Time) (n : ℕ) (s : Uuid) (k : String) (payload : Details)
      → Preserves (Keyed key id service_id) (upsert_job (new_job i at n s k payload))
  unfolding touch
  upsert_job-Keyed i at n s k payload = record {
    at = λ t db v a db' e.
        let j = new_job i at n s k payload in
        let (positive, cases) = upsert_job-cases t db db' j a e in
        elim cases [
          | inl (there, new) ↦
              Keyed-update (same_key j) (touch j.updated_at) key id service_id db db'
                record { type = λ l. refl; key = λ l. refl; id = λ l. refl; resource = λ l. refl }
                new v
          | inr (absent, (fresh, new)) ↦ record {
            row = v.row;
            stored = rw new (find?-append (has_key key) db.jobs (new_row j ∷ []) v.row v.stored);
            same = v.same;
            resource = v.resource;
          }
        ];
  }

  claim-Keyed :
      (env : Env) (worker_id : String) (n : ℕ) (t : Time)
      → Preserves (Keyed key id service_id) (claim env worker_id n t)
  unfolding claim lease_job
  claim-Keyed env worker_id n t = record {
    at = λ k db v a db' e.
        Keyed-update (is_among (pick (env.locked k) (env.db_clock k) t n db.jobs))
          (lease_job (env.db_clock k) worker_id) key id service_id db db'
          record { type = λ l. refl; key = λ l. refl; id = λ l. refl; resource = λ l. refl }
          (ground arith) v;
  }

  complete_row-Keyed :
      (env : Env) (i : Uuid) (worker_id : String)
      → Preserves (Keyed key id service_id) (complete_row env i worker_id)
  unfolding complete_row complete
  complete_row-Keyed env i worker_id = record {
    at = λ k db v a db' e.
        Keyed-update (is_held i worker_id) (complete (env.db_clock k)) key id service_id db db'
          record { type = λ l. refl; key = λ l. refl; id = λ l. refl; resource = λ l. refl }
          (ground arith) v;
  }

  fail_row-Keyed :
      (i : Uuid) (owner message : String) (t at : Time)
      → Preserves (Keyed key id service_id) (fail_row i owner message t at)
  unfolding fail_row fail_job
  fail_row-Keyed i owner message t now = record {
    at = λ k db v a db' e.
        Keyed-update (is_held i owner) (fail_job message t now) key id service_id db db'
          record { type = λ l. refl; key = λ l. refl; id = λ l. refl; resource = λ l. refl }
          (ground arith) v;
  }

  pub statements-Keyed :
      (env : Env)
      → PeersKeep env (Keyed key id service_id)
      → StatementsKeep env (Keyed key id service_id)
  statements-Keyed env peers =
      jobs_statements (Keyed key id service_id) moved env peers upsert_job-Keyed (claim-Keyed env)
        (complete_row-Keyed env) fail_row-Keyed

module _ {A : Type 0} (p : A → Bool) where
  find?-none-append :
      (xs : List A) (y : A) → any p xs ≡ false → p y ≡ true → find? p (xs ++ y ∷ []) ≡ some y
  find?-none-append [] y e h = rw h refl
  find?-none-append (x ∷ xs) y e h = ground (arith, find?-none-append xs y)

-- The row that a request returns is the one that its key finds.
pub upsert_job-found :
    (i : Uuid) (at : Time) (n : ℕ) (s : Uuid) (key : String) (payload : Details) (k : ℕ)
    (db db' : Database) (a : Job)
    → upsert_job (new_job i at n s key payload) k db ≡ ok (a, db')
    → find? (has_key key) db'.jobs ≡ some a
unfolding upsert_job new_job new_row
upsert_job-found i at n s key payload k db db' a e =
    let j = new_job i at n s key payload in
    ground (arith, find?-none-append (has_key key) db.jobs (new_row j), eq_iff key key)
