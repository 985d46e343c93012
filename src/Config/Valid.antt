-- ===== src/Config/Valid.antt =====
-- What the program may rely on in the settings that `Load` of internal/config/config.go returns.
use golden_path_control_plan.Prelude.{
  String, Bool-cases, inl, inr, not, ◌≡◌, ◌≢◌, refl, sym, false, none, arith, eq_iff, str_eq,
  if◌then◌else◌, pos, trim_space,
}
use golden_path_control_plan.Domain.Validation.{fail_if}
use golden_path_control_plan.Domain.Validation.Laws.{>>-eq-none}
use golden_path_control_plan.Fallible.{
  Fallible, done, failed, ◌>>=◌, Yields, Yields-at, Yields-done, Yields-any, Yields->>=,
  Yields-insist, Yields-failed,
}
use golden_path_control_plan.Config.{
  setting, assemble, get_int, get_duration, load_database, load_worker, match_issuer, by_mode,
  load_auth, load, load_token_issuer_config,
}
use golden_path_control_plan.Config.Settings.{
  seconds, minutes, DatabaseConfig, WorkerConfig, AuthConfig, ObservabilityConfig, Config, Platform,
}
use golden_path_control_plan.Config.Checks.{
  is_app_env, is_log_level, check_database, check_secret, check_sslmode,
  validate_production_database_url, check_production, check_http, check_observability, check_worker,
  check_auth, validate,
}
use golden_path_control_plan.Config.Sound.{
  IsAppEnv, IsLogLevel, IsPool, IsStrong, IsTrustworthy, IsEncrypted, IsServing, IsPolling,
  IsRunnable, IsSafeInProduction,
}

database-IsPool : (d : DatabaseConfig) → d.url ≢ "" → check_database d ≡ none → IsPool d
unfolding check_database
database-IsPool d u h = ground (arith, u)

check_secret_lem : (os : Platform) (s : String) → check_secret os s ≡ none → IsStrong os s
unfolding check_secret
check_secret_lem os s h = ground arith

module _ (os : Platform) where
  sslmode-IsEncrypted :
      (url : String) (r : Fallible String)
      → os.query_sslmode url ≡ r
      → check_sslmode os r ≡ none
      → IsEncrypted os url
  sslmode-IsEncrypted url (failed e) q h = cc
  sslmode-IsEncrypted url (done v) q h =
      let f : (trim_space v ≢ "") × (os.equal_fold (trim_space v) "disable" ≡ false) =
        ground (arith, eq_iff (trim_space v) "") in
      (v, q, f.0, f.1)

  production-IsEncrypted :
      (c : Config)
      → check_production os c ≡ none
      → (c.auth.mode ≢ "hmac") × IsEncrypted os c.database.url
  unfolding check_production validate_production_database_url
  production-IsEncrypted c h = (
    ground (arith, eq_iff c.auth.mode "hmac"),
    sslmode-IsEncrypted c.database.url (os.query_sslmode c.database.url) refl (ground arith),
  )

  checked_production :
      (c : Config)
      → (if str_eq c.app_env "production" then check_production os c else none) ≡ none
      → IsSafeInProduction os c
  checked_production c h e =
      production-IsEncrypted c (ground (arith, eq_iff c.app_env "production"))

  app_env_lem : (e m : String) → fail_if (not (is_app_env e)) m ≡ none → IsAppEnv e
  app_env_lem e m h = ground (arith, eq_iff e "production", eq_iff e "development", eq_iff e "test")

  log_level_lem : (l m : String) → fail_if (not (is_log_level l)) m ≡ none → IsLogLevel l
  log_level_lem l m h =
      ground (arith, eq_iff l "DEBUG", eq_iff l "INFO", eq_iff l "WARN", eq_iff l "ERROR")

  http_lem : (c : Config) → check_http c ≡ none → IsServing c
  unfolding check_http
  http_lem c h = ground (arith, eq_iff c.http_addr "")

  observability_lem :
      (o : ObservabilityConfig)
      → check_observability o ≡ none
      → (o.service_name ≢ "") × (o.namespace ≢ "")
  unfolding check_observability
  observability_lem o h = ground (arith, eq_iff o.service_name "", eq_iff o.namespace "")

  worker_lem : (w : WorkerConfig) → check_worker w ≡ none → IsPolling w
  unfolding check_worker
  worker_lem w h = ground arith

  auth_lem : (a : AuthConfig) → check_auth a ≡ none → (a.audience ≢ "") × (a.issuer ≢ "")
  unfolding check_auth
  auth_lem a h = ground (arith, eq_iff a.audience "", eq_iff a.issuer "")

  validate_lem : (c : Config) → validate os c ≡ none → IsRunnable c × IsSafeInProduction os c
  unfolding validate
  validate_lem c h =
      let h1 = (>>-eq-none (fail_if (not (is_app_env c.app_env)) _) _).0 h in
      let h2 = (>>-eq-none (fail_if (not (is_log_level c.app_log_level)) _) _).0 h1.1 in
      let h3 = (>>-eq-none (check_http c) _).0 h2.1 in
      let h4 = (>>-eq-none (check_observability c.observability) _).0 h3.1 in
      let h5 = (>>-eq-none (check_worker c.worker) _).0 h4.1 in
      let h6 = (>>-eq-none (check_auth c.auth) _).0 h5.1 in
      (
        (
          app_env_lem c.app_env _ h1.0,
          log_level_lem c.app_log_level _ h2.0,
          http_lem c h3.0,
          observability_lem c.observability h4.0,
          worker_lem c.worker h5.0,
          auth_lem c.auth h6.0,
        ),
        checked_production c h6.1,
      )

  load_database-IsPool : Yields (load_database os) IsPool
  unfolding load_database
  load_database-IsPool = Yields-insist _ λ u.
      Yields-any (get_int os "DATABASE_MAX_OPEN_CONNS" (pos 10)) λ o _.
        Yields-any (get_int os "DATABASE_MIN_IDLE_CONNS" (pos 2)) λ i _.
          Yields-any (get_duration os "DATABASE_MAX_CONN_LIFETIME" (minutes 30)) λ l _.
            Yields-any (get_duration os "DATABASE_MAX_CONN_IDLE_TIME" (minutes 5)) λ t _.
              Yields-insist _ λ h.
                Yields-done
                  (database-IsPool _ (ground (arith, eq_iff (setting os "DATABASE_URL") "")) h)

  match_issuer-IsTrustworthy :
      (a : AuthConfig) → a.mode ≡ "oidc" → Yields (match_issuer os a) (IsTrustworthy os)
  unfolding match_issuer
  match_issuer-IsTrustworthy a m =
      let url = if str_eq a.oidc_issuer_url "" then a.issuer else a.oidc_issuer_url in
      elim (Bool-cases (str_eq a.issuer url)) [
        | inl e ↦ rw e (Yields-done (inr (m, sym ((eq_iff a.issuer url).0 e))))
        | inr n ↦ rw n Yields-failed
      ]

  by_mode-IsTrustworthy : (a : AuthConfig) → Yields (by_mode os a) (IsTrustworthy os)
  unfolding by_mode
  by_mode-IsTrustworthy a = elim (Bool-cases (str_eq a.mode "hmac")) [
    | inl h ↦ rw h (
        Yields-insist _
          λ c. Yields-done (inl ((eq_iff a.mode "hmac").0 h, check_secret_lem os a.hmac_secret c)))
    | inr n ↦ rw n elim (Bool-cases (str_eq a.mode "oidc")) [
      | inl h ↦ rw h (match_issuer-IsTrustworthy a ((eq_iff a.mode "oidc").0 h))
      | inr m ↦ rw m Yields-failed
    ]
  ]

  load_auth-IsTrustworthy : Yields (load_auth os) (IsTrustworthy os)
  unfolding load_auth
  load_auth-IsTrustworthy =
      Yields-insist _ λ _. Yields-any _ λ issuer _. (search by_mode-IsTrustworthy)

  issuer_config_lem :
      (a : AuthConfig)
      → load_auth os ≡ done a
      → load_token_issuer_config os ≡ done record { issuer_auth = a }
  unfolding load_token_issuer_config ◌>>=◌
  issuer_config_lem a e = rw e refl

  abbrev pub IsSound : Config → Type 0
  IsSound c =
      IsRunnable c
      × IsSafeInProduction os c
      × IsPool c.database
      × IsTrustworthy os c.auth
      × (load_token_issuer_config os ≡ done record { issuer_auth = c.auth })

  load-Yields : Yields (load os) IsSound
  unfolding load
  load-Yields = Yields-any (get_duration os "HTTP_READ_TIMEOUT" (seconds 10)) λ r _.
      Yields-any (get_duration os "HTTP_WRITE_TIMEOUT" (seconds 15)) λ w _.
        Yields-any (get_duration os "HTTP_IDLE_TIMEOUT" (seconds 60)) λ i _.
          Yields-any (get_duration os "SHUTDOWN_TIMEOUT" (seconds 20)) λ s _.
            Yields->>= load_database-IsPool λ d p. Yields-any (load_worker os) λ k _.
              Yields-any (load_auth os) λ a e. Yields-insist _ λ h. Yields-done (
                let v = validate_lem (assemble os r w i s d k a) h in
                (v.0, v.1, p, Yields-at a load_auth-IsTrustworthy e, issuer_config_lem a e))

  -- Settings that `Load` returns have a known environment and log level, an address, positive
  -- timeouts, lifetimes, intervals, leases, batch sizes and attempts, a database URL with at most as
  -- many idle connections as open ones, an audience and an issuer, and either a shared secret of at
  -- least 32 bytes without the placeholder or an OIDC issuer URL that is the issuer. In production
  -- they never use a shared secret, and their database URL sets sslmode to neither nothing nor
  -- disable. The token issuer then loads the same authentication settings.
  pub load-IsSound : (c : Config) → load os ≡ done c → IsSound c
  load-IsSound c h = Yields-at c load-Yields h
