-- ===== src/Migrations.antt =====
-- internal/migrations/migrations.go: the embedded migrations are applied one by one, each in a
-- transaction with its record in `schema_migrations`, under an advisory lock; and the records are
-- compared with what the binary expects.
pub mod Connection
pub mod Triples
pub mod Built
pub mod Recovery
pub mod Answered
pub mod Applied
pub mod Compatible
use Prim.Native.String.{compare}
use text.Mathlib.Text.{is_le}
use golden_path_control_plan.Prelude.{
  ℕ, suc, String, ◌<>◌, Bool, true, false, not, ◌&&◌, ◌||◌, Option, none, some, List, [], ◌∷◌, ◌++◌,
  map, any, filter, find?, sort_by, str_eq, if◌then◌else◌,
}
use golden_path_control_plan.Fallible.{Fallible, done, failed}
use golden_path_control_plan.Effects.{Delivery, delivered, refused, reply_lost}
use Connection.{
  File, Failure, schema_uninitialized, schema_behind, schema_ahead, failure, QueryError,
  no_database, other_error, Link, Session, Outcome, finished, stopped, Migrating, pure, stop, ◌>>=◌,
  ◌>>◌, Query, error_text, counted, exchange, exchange_or,
}

-- strings.HasSuffix, with the suffix first
unfoldable pub has_suffix : String → String → Bool
has_suffix suffix String.[] = str_eq suffix ""
has_suffix suffix (String.◌∷◌ c s) = str_eq (String.◌∷◌ c s) suffix || has_suffix suffix s

unfoldable pub is_migration : File → Bool
unfolding has_suffix
is_migration f = not f.is_dir && has_suffix ".sql" f.name

-- `<=` of Go's strings
abbrev pub name_le : File → File → Bool
name_le f g = is_le (compare f.name g.name)

unfoldable pub migration_entries : List File → List File
unfolding is_migration
migration_entries files = sort_by name_le (filter is_migration files)

abbrev pub names : List File → List String
names [] = []
names (f ∷ fs) = f.name ∷ names fs

unfoldable pub versions : List File → List String
versions files = names (migration_entries files)

abbrev pub last : List String → String
last [] = ""
last (v ∷ []) = v
last (v ∷ w ∷ vs) = last (w ∷ vs)

unfoldable pub current_version : List File → String
current_version files = last (versions files)

abbrev pub or_empty : Option (List String) → List String
or_empty none = []
or_empty (some vs) = vs

abbrev pub reads : {S A : Type 0} → Fallible A → Session S → Fallible (A × Session S)
reads (done a) s = done (a, s)
reads (failed e) s = failed e

-- The rows of the table, which has to be there
abbrev pub rows_of : Option (List String) → Fallible (List String)
rows_of none = failed "relation schema_migrations does not exist"
rows_of (some vs) = done vs

abbrev pub is_recorded : String → Fallible (List String) → Fallible Bool
is_recorded v (done vs) = done (any (str_eq v) vs)
is_recorded v (failed e) = failed e

module _ {S : Type 0} where
  -- A statement that does not look at the tables, and `SELECT pg_advisory_lock`
  unfoldable pub accepted : Query S (Unit {0})
  accepted s = done (tt, s)

  unfoldable pub lock : Query S (Unit {0})
  lock s = done (tt, record s { locked = true })

  unfoldable pub unlock : Query S (Unit {0})
  unlock s = done (tt, record s { locked = false })

  -- CREATE TABLE IF NOT EXISTS schema_migrations
  unfoldable pub create_table : Query S (Unit {0})
  create_table s = done (tt, record s { recorded = some (or_empty s.recorded) })

  -- SELECT EXISTS (SELECT 1 FROM schema_migrations WHERE version = $1)
  unfoldable pub select_exists : String → Query S Bool
  select_exists v s = reads (is_recorded v (rows_of s.recorded)) s

  abbrev pub inserted :
      String → Session S → Fallible (List String) → Fallible (Unit {0} × Session S)
  inserted v s (done vs) =
      if any (str_eq v) vs
      then failed "duplicate key value violates unique constraint"
      else done (tt, record s { recorded = some (vs ++ (v ∷ [])) })
  inserted v s (failed e) = failed e

  -- INSERT INTO schema_migrations, whose `version` is the primary key
  unfoldable pub insert_version : String → Query S (Unit {0})
  insert_version v s = inserted v s (rows_of s.recorded)

  abbrev pub with_schema : Session S → Fallible S → Fallible (Unit {0} × Session S)
  with_schema s (done schema) = done (tt, record s { schema = schema })
  with_schema s (failed e) = failed e

  -- COMMIT and ROLLBACK of a transaction that began at `before`
  abbrev pub undone : Session S → Session S → Session S
  undone before s = record (counted s) { recorded = before.recorded; schema = before.schema }

  abbrev pub committed : Delivery → Failure → Session S → Session S → Outcome (Unit {0}) × Session S
  committed delivered e before s = (finished tt, counted s)
  committed refused e before s = (stopped e, undone before s)
  committed reply_lost e before s = (stopped e, counted s)

  abbrev pub closed :
      (Session S → Outcome (Unit {0}) × Session S)
      → Session S
      → Outcome (Unit {0}) × Session S
      → Outcome (Unit {0}) × Session S
  closed commit before (finished a, s) = commit s
  closed commit before (stopped e, s) = (stopped e, undone before s)

  -- The deferred unlock, whose error is dropped
  abbrev pub released :
      Outcome (Unit {0}) → Outcome (Unit {0}) × Session S → Outcome (Unit {0}) × Session S
  released r (_, s) = (r, s)

module _ {S : Type 0} (link : Link S) where
  -- The script of a file
  unfoldable pub execute : String → Query S (Unit {0})
  execute contents s = with_schema s (link.run_script contents s.schema)

  -- The transaction of a file: what fails in it is rolled back.
  unfoldable pub in_transaction : String → Migrating S (Unit {0}) → Migrating S (Unit {0})
  in_transaction name body before =
      closed
        (λ s.
          committed (link.delivery s.exchanges)
            (failure
              ("migrations: commit " <> name <> ": " <> error_text (link.refusal s.exchanges)))
            before s)
        before (body before)

  unfoldable pub record_file : File → Migrating S (Unit {0})
  unfolding execute
  record_file f = do
    exchange link ("migrations: apply " <> f.name <> ": ") (execute f.contents)
    exchange link ("migrations: record " <> f.name <> ": ") (insert_version f.name)

  unfoldable pub apply_file : File → Migrating S (Unit {0})
  apply_file f = do
    exchange link ("migrations: begin transaction for " <> f.name <> ": ") accepted
    in_transaction f.name (record_file f)

  -- migrationApplied
  unfoldable pub migration_applied : String → Migrating S Bool
  migration_applied v = exchange link ("migrations: check version " <> v <> ": ") (select_exists v)

  -- The loop of Apply
  unfoldable pub apply_files : List File → Migrating S (Unit {0})
  apply_files [] = pure tt
  apply_files (f ∷ fs) = do
    applied ← migration_applied f.name
    if applied then pure tt else apply_file f
    apply_files fs

  unfoldable pub under_lock : Migrating S (Unit {0}) → Migrating S (Unit {0})
  under_lock body s = let (r, s') = body s in released r (exchange link "" unlock s')

  unfoldable pub apply : List File → Migrating S (Unit {0})
  apply files = do
    exchange link "migrations: acquire connection: " accepted
    exchange link "migrations: acquire advisory lock: " lock
    under_lock (do
      exchange link "migrations: ensure public schema: " accepted
      exchange link "migrations: set search_path: " accepted
      exchange link "migrations: ensure schema_migrations table: " create_table
      apply_files (migration_entries files))

  abbrev pub is_there : Option (List String) → Bool
  is_there none = false
  is_there (some vs) = true

  abbrev pub check_failure : QueryError → Failure
  check_failure no_database = schema_uninitialized
  check_failure (other_error e) = failure ("migrations: check schema_migrations table: " <> e)

  -- schemaMigrationsTableExists
  unfoldable pub schema_migrations_table_exists : Migrating S Bool
  schema_migrations_table_exists =
      exchange_or link check_failure (λ s. done (is_there s.recorded, s))

  abbrev pub sorted : Fallible (List String) → Fallible (List String)
  sorted (done vs) = done (sort_by link.text_le vs)
  sorted (failed e) = failed e

  unfoldable pub applied_versions : Migrating S (List String)
  unfolding schema_migrations_table_exists
  applied_versions = do
    exchange link "migrations: acquire connection: " accepted
    exists ← schema_migrations_table_exists
    if exists then pure tt else stop schema_uninitialized
    exchange link "migrations: list applied versions: " (λ s. reads (sorted (rows_of s.recorded)) s)

  abbrev pub refuse_missing : List String → Migrating S (Unit {0})
  refuse_missing [] = pure tt
  refuse_missing (v ∷ vs) = stop (schema_behind (v ∷ vs))

  abbrev pub refuse_unknown : Option String → Migrating S (Unit {0}) → Migrating S (Unit {0})
  refuse_unknown none next = next
  refuse_unknown (some v) next = stop (schema_ahead v)

  -- The comparison of EnsureCompatible
  unfoldable pub compare_versions : List String → List String → Migrating S (Unit {0})
  compare_versions expected applied =
      refuse_unknown (find? (λ v. not (any (str_eq v) expected)) applied)
        (refuse_missing (filter (λ v. not (any (str_eq v) applied)) expected))

  unfoldable pub ensure_compatible : List File → Migrating S (Unit {0})
  ensure_compatible files = do applied ← applied_versions; compare_versions (versions files) applied
