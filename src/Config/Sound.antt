-- ===== src/Config/Sound.antt =====
-- Conditions on the settings, written apart from the checks of internal/config/config.go.
use golden_path_control_plan.Prelude.{
  String, ◌≤◌, ◌≡◌, ◌≢◌, ◌⊎◌, false, byte_length, contains, pos, ◌≤ℤ◌, trim_space,
}
use golden_path_control_plan.Fallible.{done}
use golden_path_control_plan.Config.Settings.{
  Duration, DatabaseConfig, WorkerConfig, AuthConfig, Config, Platform,
}

abbrev pub IsPositive : Duration → Type 0
IsPositive d = pos 1 ≤ℤ d

abbrev pub IsAppEnv : String → Type 0
IsAppEnv e = (e ≡ "development") ⊎ ((e ≡ "test") ⊎ (e ≡ "production"))

abbrev pub IsLogLevel : String → Type 0
IsLogLevel l = (l ≡ "DEBUG") ⊎ ((l ≡ "INFO") ⊎ ((l ≡ "WARN") ⊎ (l ≡ "ERROR")))

abbrev pub IsPool : DatabaseConfig → Type 0
IsPool d =
    (d.url ≢ "")
    × (pos 1 ≤ℤ d.max_open_conns)
    × (pos 0 ≤ℤ d.min_idle_conns)
    × (d.min_idle_conns ≤ℤ d.max_open_conns)
    × IsPositive d.max_conn_lifetime
    × IsPositive d.max_conn_idle_time

-- A secret of 32 bytes or more that is no placeholder
abbrev pub IsStrong : Platform → String → Type 0
IsStrong os s = (32 ≤ byte_length s) × (contains "replace-me" (os.to_lower s) ≡ false)

-- A strong shared secret, or an issuer that tokens are discovered from
abbrev pub IsTrustworthy : Platform → AuthConfig → Type 0
IsTrustworthy os a =
    ((a.mode ≡ "hmac") × IsStrong os a.hmac_secret)
    ⊎ ((a.mode ≡ "oidc") × (a.oidc_issuer_url ≡ a.issuer))

abbrev pub IsEncrypted : Platform → String → Type 0
IsEncrypted os url =
    (value : String) × (os.query_sslmode url ≡ done value)
    × (trim_space value ≢ "")
    × (os.equal_fold (trim_space value) "disable" ≡ false)

abbrev pub IsServing : Config → Type 0
IsServing c =
    (c.http_addr ≢ "")
    × IsPositive c.http_read_timeout
    × IsPositive c.http_write_timeout
    × IsPositive c.http_idle_timeout
    × IsPositive c.shutdown_timeout

abbrev pub IsPolling : WorkerConfig → Type 0
IsPolling w =
    (pos 1 ≤ℤ w.batch_size)
    × IsPositive w.poll_interval
    × IsPositive w.lease
    × (pos 1 ≤ℤ w.max_attempts)

abbrev pub IsRunnable : Config → Type 0
IsRunnable c =
    IsAppEnv c.app_env
    × IsLogLevel c.app_log_level
    × IsServing c
    × ((c.observability.service_name ≢ "") × (c.observability.namespace ≢ ""))
    × IsPolling c.worker
    × ((c.auth.audience ≢ "") × (c.auth.issuer ≢ ""))

abbrev pub IsSafeInProduction : Platform → Config → Type 0
IsSafeInProduction os c =
    c.app_env ≡ "production" → (c.auth.mode ≢ "hmac") × IsEncrypted os c.database.url
