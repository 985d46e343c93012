-- ===== src/Config/Settings.antt =====
-- The settings of internal/config/config.go. A `time.Duration` is a whole number of nanoseconds.
use golden_path_control_plan.Prelude.{String, ℤ, pos, ℕ, ◌*◌, Bool}
use golden_path_control_plan.Fallible.{Fallible}

abbrev pub Duration : Type 0
Duration = ℤ

abbrev pub seconds : ℕ → Duration
seconds n = pos (n * 1000000000)

abbrev pub minutes : ℕ → Duration
minutes n = seconds (n * 60)

pub record DatabaseConfig : Type 0 where
  pub url : String
  pub max_open_conns : ℤ
  pub min_idle_conns : ℤ
  pub max_conn_lifetime : Duration
  pub max_conn_idle_time : Duration

pub record WorkerConfig : Type 0 where
  pub poll_interval : Duration
  pub batch_size : ℤ
  pub lease : Duration
  pub max_attempts : ℤ

pub record AuthConfig : Type 0 where
  pub mode : String
  pub audience : String
  pub issuer : String
  pub hmac_secret : String
  pub oidc_issuer_url : String
  pub oidc_jwks_url : String

pub record ObservabilityConfig : Type 0 where
  pub service_name : String
  pub otlp_endpoint : String
  pub namespace : String

pub record Config : Type 0 where
  pub app_env : String
  pub app_log_level : String
  pub http_addr : String
  pub http_read_timeout : Duration
  pub http_write_timeout : Duration
  pub http_idle_timeout : Duration
  pub shutdown_timeout : Duration
  pub database : DatabaseConfig
  pub worker : WorkerConfig
  pub auth : AuthConfig
  pub observability : ObservabilityConfig
  pub integration_test_db : String

pub record TokenIssuerConfig : Type 0 where
  pub issuer_auth : AuthConfig

-- What the process finds outside the repository: its environment, where an unset variable is
-- empty, and the functions of Go's library that read and write numbers, durations, URLs and the
-- case of letters.
pub record Platform : Type 0 where
  pub getenv : String → String
  pub to_upper : String → String
  pub to_lower : String → String
  pub equal_fold : String → String → Bool
  -- `%q` of fmt
  pub quote : String → String
  -- strconv.Atoi, time.ParseDuration, and `String` of a duration
  pub atoi : String → Fallible ℤ
  pub parse_duration : String → Fallible Duration
  pub duration_text : Duration → String
  -- url.Parse, and the parameter `sslmode` of the query of what it returns
  pub query_sslmode : String → Fallible String
