-- ===== src/Examples/Starts.antt =====
-- The start of a process, on concrete settings and a database that is up to date.
use golden_path_control_plan.Prelude.{
  false, ◌≡◌, ◌↔◌, ◌≤ℤ◌, refl, String, List, none, some, [], ◌∷◌, pos, trim_space,
}
use golden_path_control_plan.Fallible.{done, ◌>>=◌}
use golden_path_control_plan.Stateful
use golden_path_control_plan.Config.{load}
use golden_path_control_plan.Config.Settings.{DatabaseConfig}
use golden_path_control_plan.Config.Valid.{load-IsSound}
use golden_path_control_plan.Auth.Validators.{oidc_validator, new_validator, new_oidc_validator}
use golden_path_control_plan.Migrations.{
  apply, ensure_compatible, applied_versions, accepted, compare_versions, versions,
  migration_entries, lock, under_lock, create_table, apply_files, migration_applied, select_exists,
  apply_file, in_transaction, record_file, insert_version,
}
use golden_path_control_plan.Migrations.Connection
use golden_path_control_plan.Runtime.{Runtime, bootstrap, check_schema}
use golden_path_control_plan.Runtime.Migrate.{migrate, apply_migrations, migrate-check_schema}
use golden_path_control_plan.Runtime.Process.{Host, Machine, go_collector, process_collector, own}
use golden_path_control_plan.Runtime.Pool.{pool_config, new_pool}
use golden_path_control_plan.Runtime.Resources.{IsBalanced, bootstrap-IsBalanced}
use golden_path_control_plan.Runtime.Ready.{IsReady, IsCurrent, bootstrap-IsReady}
use golden_path_control_plan.Runtime.Limits.{pool_config_iff}
use golden_path_control_plan.Examples.Settings.{os, settings, loaded}
use golden_path_control_plan.Examples.Upgrades.{link, link-Works, files}
use golden_path_control_plan.Examples.Issuing.{oidc}

abbrev host : Host (List String)
host = record {
  os = os;
  Level = String;
  unmarshal_level = λ level. done level;
  register = λ before c. none;
  new_resource = λ name. none;
  new_exporter = λ endpoint. none;
  shutdown_error = λ n. none;
  parse_pool_url = λ url. none;
  connect = λ cfg. none;
  ping = λ n. none;
  link = link;
  files = files;
  failure_text = λ e. "migrations: incompatible";
}

abbrev machine : Machine (List String)
machine = record {
  pools = [];
  providers = [];
  made = 0;
  session = record {
    recorded = some ("0001_init.sql" ∷ "0002_indexes.sql" ∷ []);
    schema = [];
    locked = false;
    exchanges = 0;
  };
  log = [];
}

abbrev runtime : Runtime host oidc
runtime = record {
  config = settings;
  level = "INFO";
  metrics =
      go_collector
      ∷ process_collector
      ∷ own "goldenpath" "http_requests_total"
      ∷ own "goldenpath" "http_request_duration_seconds"
      ∷ own "goldenpath" "worker_jobs_total"
      ∷ [];
  pool = record { number = 1; made_of = pool_config settings.database };
  job_max_attempts = pos 5;
  validator = oidc_validator "https://issuer.example.com";
  provider = record { number = 0; made_of = none };
}

booted : (bootstrap host oidc tt machine).0 ≡ done runtime
unfolding bootstrap Stateful.◌>>=◌ load ◌>>=◌ trim_space ensure_compatible new_validator
    Connection.◌>>=◌ applied_versions Connection.exchange accepted Connection.pure compare_versions
    versions migration_entries new_oidc_validator
booted = refl

bootstrap-IsBalanced_example : IsBalanced host oidc machine (bootstrap host oidc tt machine)
bootstrap-IsBalanced_example = bootstrap-IsBalanced host oidc tt machine

bootstrap-IsReady_example : IsReady host machine.session oidc tt runtime
bootstrap-IsReady_example = bootstrap-IsReady host oidc tt machine runtime (λ k. refl) booted

-- A database without tables
abbrev unprepared : Machine (List String)
unprepared = record machine {
  session = record { recorded = none; schema = []; locked = false; exchanges = 0 };
}

migrated : (migrate host unprepared).0 ≡ done tt
unfolding migrate Stateful.◌>>=◌ load ◌>>=◌ trim_space new_pool apply_migrations apply
    Connection.◌>>=◌ Connection.exchange accepted Connection.pure lock under_lock create_table
    apply_files migration_entries migration_applied select_exists apply_file in_transaction
    record_file insert_version
migrated = refl

migrate-check_schema_example :
    IsCurrent host (migrate host unprepared).1.session
    × ((check_schema host oidc (migrate host unprepared).1).0 ≡ done tt)
migrate-check_schema_example = migrate-check_schema host oidc link-Works unprepared tt migrated

-- A number of connections that does not fit
abbrev crowded : DatabaseConfig
crowded = record settings.database { max_open_conns = pos 4294967297 }

truncated : (pool_config crowded).max_conns ≡ pos 1
unfolding pool_config
truncated = refl

pool_config_iff_example :
    (((pool_config settings.database).max_conns ≡ pos 10)
      × ((pool_config settings.database).min_conns ≡ pos 2))
    ↔ (pos 10 ≤ℤ pos 2147483647)
pool_config_iff_example = pool_config_iff settings.database (load-IsSound os settings loaded).2
