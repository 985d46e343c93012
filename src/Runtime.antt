-- ===== src/Runtime.antt =====
-- internal/app/runtime.go: the start and the end of a process.
pub mod Process
pub mod Observability
pub mod Pool
pub mod Resources
pub mod Limits
pub mod Ready
pub mod Migrate
pub mod Serving
use golden_path_control_plan.Prelude.{String, List, ◌∷◌, ℤ, ◌<>◌, Option}
use golden_path_control_plan.Fallible.{Fallible, done, failed, prefixed, insist}
use golden_path_control_plan.Stateful.{Stateful, ◌>>=◌, ◌>>◌, lift, or_clean}
use golden_path_control_plan.Domain.Validation.{wrap}
use golden_path_control_plan.Config.{load}
use golden_path_control_plan.Config.Settings.{Config}
use golden_path_control_plan.Config.Redaction.{Fields, redacted}
use golden_path_control_plan.Auth.Libraries.{Oidc}
use golden_path_control_plan.Auth.Validators.{Validator, new_validator}
use golden_path_control_plan.Migrations.Connection.{Outcome, finished, stopped, Session}
use golden_path_control_plan.Migrations.{ensure_compatible}
use Process.{Host, Machine, Resource, Collector, PoolConfig, remove}
use Observability.{new_logger, new_metrics, setup_tracing}
use Pool.{new_pool, close_pool}

module _ {S : Type 0} (host : Host S) (oidc : Oidc) where
  pub record Runtime : Type 0 where
    pub config : Config
    pub level : host.Level
    pub metrics : List Collector
    pub pool : Resource PoolConfig
    -- `NewControlPlane` has no other setting
    pub job_max_attempts : ℤ
    pub validator : Validator oidc
    pub provider : Resource (Option String)

  abbrev checked : Outcome (Unit {0}) × Session S → Machine S → Fallible (Unit {0}) × Machine S
  checked (finished _, s) m = (done tt, record m { session = s })
  checked (stopped e, s) m = (
    failed ("bootstrap: schema compatibility: " <> host.failure_text e),
    record m { session = s },
  )

  -- `EnsureCompatible` on a connection of the pool
  unfoldable pub check_schema : Stateful (Machine S) (Unit {0})
  check_schema m = checked (ensure_compatible host.link host.files m.session) m

  -- The steps that close the pool if they fail
  unfoldable pub check_and_validate : oidc.Context → Config → Stateful (Machine S) (Validator oidc)
  unfolding check_schema
  check_and_validate ctx cfg = do
    check_schema
    lift (prefixed "bootstrap: auth validator: " (new_validator oidc host.os ctx cfg.auth))

  unfoldable pub log_config : Config → Stateful (Machine S) (Unit {0})
  log_config cfg m =
      (done tt, record m { log = ("runtime_bootstrapped", redacted host.os cfg) ∷ m.log })

  -- `SetupTracing`, with the text before its error
  unfoldable pub setup : Config → Stateful (Machine S) (Resource (Option String))
  unfolding setup_tracing
  setup cfg m =
      let (r, m') = setup_tracing host cfg.observability m in
      (prefixed "bootstrap: setup tracing: " r, m')

  unfoldable pub bootstrap : oidc.Context → Stateful (Machine S) Runtime
  unfolding check_and_validate log_config setup new_pool new_logger new_metrics or_clean close_pool
  bootstrap ctx = do
    cfg ← lift (load host.os)
    level ← lift (new_logger host cfg.app_log_level)
    metrics ←
        lift (prefixed "bootstrap: create metrics: " (new_metrics host cfg.observability.namespace))
    provider ← setup cfg
    pool ← new_pool host cfg.database
    validator ← or_clean (close_pool pool.number) (check_and_validate ctx cfg)
    log_config cfg
    lift (
        done record {
          config = cfg;
          level = level;
          metrics = metrics;
          pool = pool;
          job_max_attempts = cfg.worker.max_attempts;
          validator = validator;
          provider = provider;
        })

  -- `Close`: the pool first, then the provider
  unfoldable pub close : Runtime → Stateful (Machine S) (Unit {0})
  unfolding close_pool
  close r m = (
    insist (wrap "runtime: shutdown tracing: " (host.shutdown_error r.provider.number)),
    let m' = close_pool r.pool.number m in
        record m' { providers = remove r.provider.number m'.providers },
  )
