-- ===== src/Runtime/Process.antt =====
-- What the start of a process finds outside the repository, and the resources that it takes.
use golden_path_control_plan.Prelude.{ℕ, String, ℤ, Option, List, [], ◌∷◌, ◌==◌, if◌then◌else◌}
use golden_path_control_plan.Fallible.{Fallible}
use golden_path_control_plan.Config.Settings.{Duration, Platform}
use golden_path_control_plan.Config.Redaction.{Fields}
use golden_path_control_plan.Migrations.Connection.{Link, File, Session, Failure}

-- The collectors that `NewMetrics` registers: two of the library, and three of its own with their names
-- under a namespace
pub data Collector : Type 0 where
  go_collector process_collector : Collector
  own : String → String → Collector

-- The limits that a pool is opened with
pub record PoolConfig : Type 0 where
  pub conn_string : String
  pub max_conns : ℤ
  pub min_conns : ℤ
  pub max_conn_lifetime : Duration
  pub max_conn_idle_time : Duration

-- A pool, or a provider of traces with the endpoint that it exports to, and its number
pub record Resource (A : Type 0) : Type 0 where
  pub number : ℕ
  pub made_of : A

-- `slog`, Prometheus, OpenTelemetry and the pool of pgx, and the connection that migrations use. A
-- call that returns an error only is the error's text, or `none`.
pub record Host (S : Type 0) : Type 1 where
  pub os : Platform
  pub Level : Type 0
  pub unmarshal_level : String → Fallible Level
  -- `Register`, after the collectors that are registered already
  pub register : List Collector → Collector → Option String
  pub new_resource : String → Option String
  pub new_exporter : String → Option String
  -- `Shutdown` of a provider
  pub shutdown_error : ℕ → Option String
  pub parse_pool_url : String → Option String
  pub connect : PoolConfig → Option String
  pub ping : ℕ → Option String
  pub link : Link S
  pub files : List File
  -- the `Error` method of what EnsureCompatible returns
  pub failure_text : Failure → String

-- The pools that are open and the providers that run, the latest first, and how many resources have
-- been made; the database as a session of it sees it; and what is logged, the latest first.
pub record Machine (S : Type 0) : Type 0 where
  pub pools : List (Resource PoolConfig)
  pub providers : List (Resource (Option String))
  pub made : ℕ
  pub session : Session S
  pub log : List (String × Fields)

abbrev pub remove : {A : Type 0} → ℕ → List (Resource A) → List (Resource A)
remove n [] = []
remove n (r ∷ rs) = if r.number == n then rs else r ∷ remove n rs
