-- ===== src/Config.antt =====
-- internal/config/config.go: the settings are read from the environment, checked, and shown with
-- their secrets hidden.
pub mod Settings
pub mod Checks
pub mod Sound
pub mod Valid
pub mod Redaction
use golden_path_control_plan.Prelude.{
  String, ◌<>◌, Bool, not, ◌&&◌, ◌||◌, none, some, str_eq, trim_space, ltb, byte_length, contains,
  if◌then◌else◌, ℤ, pos, ltb_ℤ, leb_ℤ,
}
use golden_path_control_plan.Domain.Validation.{fail_if}
use golden_path_control_plan.Fallible.{Fallible, done, failed, ◌>>=◌, ◌>>◌, prefixed, insist}
use Settings.{
  Duration, seconds, minutes, DatabaseConfig, WorkerConfig, AuthConfig, ObservabilityConfig, Config,
  TokenIssuerConfig, Platform,
}
use Checks.{check_database, check_secret, validate}

module _ (os : Platform) where
  unfoldable pub setting : String → String
  setting key = trim_space (os.getenv key)

  unfoldable pub get_default : String → String → String
  unfolding setting
  get_default key fallback = let value = setting key in if str_eq value "" then fallback else value

  unfoldable pub get_int : String → ℤ → Fallible ℤ
  unfolding setting
  get_int key fallback =
      let value = setting key in
      if str_eq value ""
      then done fallback
      else prefixed ("config: " <> key <> " must be an integer: ") (os.atoi value)

  unfoldable pub get_duration : String → Duration → Fallible Duration
  unfolding setting
  get_duration key fallback =
      let value = setting key in
      if str_eq value ""
      then done fallback
      else prefixed ("config: " <> key <> " must be a valid duration: ") (os.parse_duration value)

  unfoldable pub load_database : Fallible DatabaseConfig
  unfolding setting get_int get_duration check_database
  load_database = do
    let url = setting "DATABASE_URL"
    insist (fail_if (str_eq url "") "config: DATABASE_URL must not be empty")
    max_open_conns ← get_int "DATABASE_MAX_OPEN_CONNS" (pos 10)
    min_idle_conns ← get_int "DATABASE_MIN_IDLE_CONNS" (pos 2)
    max_conn_lifetime ← get_duration "DATABASE_MAX_CONN_LIFETIME" (minutes 30)
    max_conn_idle_time ← get_duration "DATABASE_MAX_CONN_IDLE_TIME" (minutes 5)
    let cfg : DatabaseConfig = record {
      url = url;
      max_open_conns = max_open_conns;
      min_idle_conns = min_idle_conns;
      max_conn_lifetime = max_conn_lifetime;
      max_conn_idle_time = max_conn_idle_time;
    }
    insist (check_database cfg)
    done cfg

  unfoldable pub load_worker : Fallible WorkerConfig
  unfolding get_int get_duration
  load_worker = do
    poll_interval ← get_duration "WORKER_POLL_INTERVAL" (seconds 2)
    batch_size ← get_int "WORKER_BATCH_SIZE" (pos 5)
    lease ← get_duration "JOB_LEASE_DURATION" (seconds 30)
    max_attempts ← get_int "JOB_MAX_ATTEMPTS" (pos 5)
    done record {
      poll_interval = poll_interval;
      batch_size = batch_size;
      lease = lease;
      max_attempts = max_attempts;
    }

  -- the issuer that an empty `AUTH_ISSUER` stands for
  unfoldable pub choose_issuer : String → String → String → Fallible String
  choose_issuer mode issuer oidc_issuer_url =
      if str_eq issuer ""
      then if str_eq mode "oidc" && not (str_eq oidc_issuer_url "")
        then done oidc_issuer_url
        else failed "config: AUTH_ISSUER must not be empty"
      else done issuer

  -- the `case authModeOIDC`
  unfoldable pub match_issuer : AuthConfig → Fallible AuthConfig
  match_issuer cfg =
      let oidc_issuer_url =
        if str_eq cfg.oidc_issuer_url "" then cfg.issuer else cfg.oidc_issuer_url in
      if str_eq cfg.issuer oidc_issuer_url
      then done (record cfg { oidc_issuer_url = oidc_issuer_url })
      else failed "config: AUTH_ISSUER must match AUTH_OIDC_ISSUER_URL when AUTH_MODE=oidc"

  unfoldable pub by_mode : AuthConfig → Fallible AuthConfig
  unfolding match_issuer
  by_mode cfg =
      if str_eq cfg.mode "hmac"
      then (insist (check_secret os cfg.hmac_secret) >> done cfg)
      else if str_eq cfg.mode "oidc"
      then match_issuer cfg
      else failed ("config: AUTH_MODE must be one of hmac|oidc, got " <> os.quote cfg.mode)

  unfoldable pub load_auth : Fallible AuthConfig
  unfolding setting get_default choose_issuer by_mode
  load_auth = do
    let mode = os.to_lower (get_default "AUTH_MODE" "hmac")
    let oidc_issuer_url = setting "AUTH_OIDC_ISSUER_URL"
    insist (fail_if (str_eq (setting "AUTH_AUDIENCE") "") "config: AUTH_AUDIENCE must not be empty")
    issuer ← choose_issuer mode (setting "AUTH_ISSUER") oidc_issuer_url
    by_mode record {
      mode = mode;
      audience = setting "AUTH_AUDIENCE";
      issuer = issuer;
      hmac_secret = setting "AUTH_HMAC_SECRET";
      oidc_issuer_url = oidc_issuer_url;
      oidc_jwks_url = setting "AUTH_OIDC_JWKS_URL";
    }

  -- the fields of `Load`, in the order in which they are read
  unfoldable pub assemble :
      Duration
      → Duration
      → Duration
      → Duration
      → DatabaseConfig
      → WorkerConfig
      → AuthConfig
      → Config
  unfolding setting get_default
  assemble read_timeout write_timeout idle_timeout shutdown_timeout database worker auth = record {
    app_env = get_default "APP_ENV" "development";
    app_log_level = os.to_upper (get_default "APP_LOG_LEVEL" "INFO");
    http_addr = get_default "HTTP_ADDR" ":8080";
    http_read_timeout = read_timeout;
    http_write_timeout = write_timeout;
    http_idle_timeout = idle_timeout;
    shutdown_timeout = shutdown_timeout;
    database = database;
    worker = worker;
    auth = auth;
    observability = record {
      service_name = get_default "OTEL_SERVICE_NAME" "golden-path-control-plane";
      otlp_endpoint = setting "OTEL_EXPORTER_OTLP_ENDPOINT";
      namespace = get_default "PROMETHEUS_NAMESPACE" "goldenpath";
    };
    integration_test_db = setting "CONTROL_PLANE_INTEGRATION_DATABASE_URL";
  }

  unfoldable pub load : Fallible Config
  unfolding get_duration load_database load_worker load_auth assemble validate
  load = do
    read_timeout ← get_duration "HTTP_READ_TIMEOUT" (seconds 10)
    write_timeout ← get_duration "HTTP_WRITE_TIMEOUT" (seconds 15)
    idle_timeout ← get_duration "HTTP_IDLE_TIMEOUT" (seconds 60)
    shutdown_timeout ← get_duration "SHUTDOWN_TIMEOUT" (seconds 20)
    database ← load_database
    worker ← load_worker
    auth ← load_auth
    let cfg = assemble read_timeout write_timeout idle_timeout shutdown_timeout database worker auth
    insist (validate os cfg)
    done cfg

  unfoldable pub load_token_issuer_config : Fallible TokenIssuerConfig
  load_token_issuer_config = do auth ← load_auth; done record { issuer_auth = auth }
