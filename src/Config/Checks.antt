-- ===== src/Config/Checks.antt =====
-- The conditions that internal/config/config.go puts on the settings, in `validate`,
-- `validateProductionDatabaseURL`, and at the end of `loadDatabase` and `loadAuth`.
use golden_path_control_plan.Prelude.{
  String, ◌<>◌, Bool, not, ◌||◌, none, some, str_eq, trim_space, ltb, byte_length, contains,
  if◌then◌else◌, pos, ltb_ℤ, leb_ℤ,
}
use golden_path_control_plan.Domain.Validation.{Check, ◌>>◌, fail_if}
use golden_path_control_plan.Fallible.{Fallible, done, failed}
use golden_path_control_plan.Config.Settings.{
  Duration, DatabaseConfig, WorkerConfig, AuthConfig, ObservabilityConfig, Config, Platform,
}

abbrev pub is_non_positive : Duration → Bool
is_non_positive d = leb_ℤ d (pos 0)

unfoldable pub check_database : DatabaseConfig → Check
check_database c = do
  fail_if (ltb_ℤ c.max_open_conns (pos 1))
      "config: DATABASE_MAX_OPEN_CONNS must be greater than zero"
  fail_if (ltb_ℤ c.min_idle_conns (pos 0)) "config: DATABASE_MIN_IDLE_CONNS must be zero or greater"
  fail_if (ltb_ℤ c.max_open_conns c.min_idle_conns)
      "config: DATABASE_MIN_IDLE_CONNS must not exceed DATABASE_MAX_OPEN_CONNS"
  fail_if (is_non_positive c.max_conn_lifetime || is_non_positive c.max_conn_idle_time)
      "config: database connection lifetimes must be greater than zero"

-- the `case authModeHMAC`
unfoldable pub check_secret : Platform → String → Check
check_secret os secret = do
  fail_if (str_eq secret "") "config: AUTH_HMAC_SECRET is required when AUTH_MODE=hmac"
  fail_if (ltb (byte_length secret) 32) "config: AUTH_HMAC_SECRET must be at least 32 characters"
  fail_if (contains "replace-me" (os.to_lower secret))
      "config: AUTH_HMAC_SECRET contains a placeholder value"

-- the two `switch` statements of `validate`
abbrev pub is_app_env : String → Bool
is_app_env e = str_eq e "development" || str_eq e "test" || str_eq e "production"

abbrev pub is_log_level : String → Bool
is_log_level l = str_eq l "DEBUG" || str_eq l "INFO" || str_eq l "WARN" || str_eq l "ERROR"

abbrev pub check_sslmode : Platform → Fallible String → Check
check_sslmode os (failed e) = some ("config: DATABASE_URL must be a valid URL in production: " <> e)
check_sslmode os (done value) =
    let mode = trim_space value in
    fail_if (str_eq mode "" || os.equal_fold mode "disable")
      "config: DATABASE_URL must set sslmode to a non-disable value when APP_ENV=production"

unfoldable pub validate_production_database_url : Platform → String → Check
validate_production_database_url os raw_url = check_sslmode os (os.query_sslmode raw_url)

unfoldable pub check_production : Platform → Config → Check
unfolding validate_production_database_url
check_production os c = do
  fail_if (str_eq c.auth.mode "hmac")
      "config: AUTH_MODE=hmac is not allowed when APP_ENV=production"
  validate_production_database_url os c.database.url

unfoldable pub check_http : Config → Check
check_http c = do
  fail_if (str_eq c.http_addr "") "config: HTTP_ADDR must not be empty"
  fail_if
      (is_non_positive c.http_read_timeout
        || is_non_positive c.http_write_timeout
        || is_non_positive c.http_idle_timeout
        || is_non_positive c.shutdown_timeout)
      "config: HTTP and shutdown timeouts must be greater than zero"

unfoldable pub check_observability : ObservabilityConfig → Check
check_observability o = do
  fail_if (str_eq o.service_name "") "config: OTEL_SERVICE_NAME must not be empty"
  fail_if (str_eq o.namespace "") "config: PROMETHEUS_NAMESPACE must not be empty"

unfoldable pub check_worker : WorkerConfig → Check
check_worker w = do
  fail_if (ltb_ℤ w.batch_size (pos 1)) "config: WORKER_BATCH_SIZE must be greater than zero"
  fail_if (is_non_positive w.poll_interval || is_non_positive w.lease)
      "config: WORKER_POLL_INTERVAL and JOB_LEASE_DURATION must be greater than zero"
  fail_if (ltb_ℤ w.max_attempts (pos 1)) "config: JOB_MAX_ATTEMPTS must be greater than zero"

unfoldable pub check_auth : AuthConfig → Check
check_auth a = do
  fail_if (str_eq a.audience "") "config: AUTH_AUDIENCE must not be empty"
  fail_if (str_eq a.issuer "") "config: AUTH_ISSUER must not be empty"

unfoldable pub validate : Platform → Config → Check
unfolding check_http check_observability check_worker check_auth check_production
validate os c = do
  fail_if (not (is_app_env c.app_env))
      ("config: APP_ENV must be one of development|test|production, got " <> os.quote c.app_env)
  fail_if (not (is_log_level c.app_log_level)) (
      "config: APP_LOG_LEVEL must be one of DEBUG|INFO|WARN|ERROR, got "
      <> os.quote c.app_log_level)
  check_http c
  check_observability c.observability
  check_worker c.worker
  check_auth c.auth
  if str_eq c.app_env "production" then check_production os c else none
