-- ===== src/Config/Redaction.antt =====
-- `Redacted` of internal/config/config.go, and what it does not show.
use golden_path_control_plan.Prelude.{
  String, ◌<>◌, ◌≡◌, ◌≢◌, refl, Bool-cases, inl, inr, Option, none, some, str_eq, eq_iff,
  if◌then◌else◌, ℤ, before_first, from_last, Lacks, before_first-scheme, from_last-marked, arith,
}
use golden_path_control_plan.Config.Settings.{Config, Platform}

-- The values of the maps that are logged
mutual
  pub data Value : Type 0 where
    text : String → Value
    number : ℤ → Value
    group : Fields → Value

  pub data Fields : Type 0 where
    end : Fields
    field : String → Value → Fields → Fields

unfoldable pub redact_secret : String → String
redact_secret value = if str_eq value "" then "" else "***redacted***"

abbrev pub hide : Option String → String → String
hide none tail = "***redacted***"
hide (some front) tail = (front <> "://") <> "***redacted***" <> tail

abbrev pub redact_before : String → Option String → String
redact_before value none = value
redact_before value (some tail) = hide (before_first "://" value) tail

unfoldable pub redact_url : String → String
redact_url value = if str_eq value "" then "" else redact_before value (from_last "@" value)

unfoldable pub redacted : Platform → Config → Fields
redacted os c = field "app_env" (text c.app_env) (
    field "app_log_level" (text c.app_log_level) (
      field "http_addr" (text c.http_addr) (
        field "http_read_timeout" (text (os.duration_text c.http_read_timeout)) (
          field "http_write_timeout" (text (os.duration_text c.http_write_timeout)) (
            field "http_idle_timeout" (text (os.duration_text c.http_idle_timeout)) (
              field "shutdown_timeout" (text (os.duration_text c.shutdown_timeout)) (
                field "database"
                  (group (
                    field "url" (text (redact_url c.database.url)) (
                      field "max_open_conns" (number c.database.max_open_conns) (
                        field "min_idle_conns" (number c.database.min_idle_conns) (
                          field "max_conn_lifetime"
                            (text (os.duration_text c.database.max_conn_lifetime))
                            (field "max_conn_idle_time"
                              (text (os.duration_text c.database.max_conn_idle_time)) end))))))
                  (field "worker"
                    (group (
                      field "poll_interval" (text (os.duration_text c.worker.poll_interval)) (
                        field "batch_size" (number c.worker.batch_size) (
                          field "lease" (text (os.duration_text c.worker.lease))
                            (field "max_attempts" (number c.worker.max_attempts) end)))))
                    (field "auth"
                      (group (
                        field "mode" (text c.auth.mode) (
                          field "audience" (text c.auth.audience) (
                            field "issuer" (text c.auth.issuer) (
                              field "hmac_secret" (text (redact_secret c.auth.hmac_secret)) (
                                field "oidc_issuer_url" (text c.auth.oidc_issuer_url)
                                  (field "oidc_jwks_url" (text c.auth.oidc_jwks_url) end)))))))
                      (field "observability"
                        (group (
                          field "service_name" (text c.observability.service_name) (
                            field "otlp_endpoint" (text c.observability.otlp_endpoint)
                              (field "namespace" (text c.observability.namespace) end))))
                        end))))))))))

-- A URL with credentials between its scheme and its host
abbrev pub url_of : String → String → String → String
url_of scheme credentials host = scheme <> ("://" <> (credentials <> ("@" <> host)))

empty-lacks : before_first "://" "" ≡ none
unfolding before_first
empty-lacks = refl

redact_secret-hides : (s : String) → s ≢ "" → redact_secret s ≡ "***redacted***"
unfolding redact_secret
redact_secret-hides s n = ground (arith, eq_iff s "")

url_of-redacted :
    (scheme credentials host : String)
    → Lacks 58 scheme
    → Lacks 64 host
    → redact_url (url_of scheme credentials host)
      ≡ (scheme <> "://") <> "***redacted***" <> ("@" <> host)
unfolding redact_url
url_of-redacted scheme credentials host hs hh =
    let url = url_of scheme credentials host in
    elim (Bool-cases (str_eq url "")) [
      | inl e ↦ cc (
        empty-lacks,
        before_first-scheme scheme (credentials <> ("@" <> host)) hs,
        (eq_iff url "").0 e,
      )
      | inr n ↦
          rw
            (
              n,
              from_last-marked "@" scheme "://" credentials host hh,
              before_first-scheme scheme (credentials <> ("@" <> host)) hs,
            )
            refl
    ]

-- Two configurations that differ only in a non-empty shared secret, and in the credentials that
-- stand in the database URL between `scheme://` and `@host`, are shown alike, where the scheme has
-- no colon and the host no `@`.
pub redacted-hides :
    (os : Platform) (c : Config) (scheme host credentials credentials' secret secret' : String)
    → Lacks 58 scheme
    → Lacks 64 host
    → secret ≢ ""
    → secret' ≢ ""
    → redacted os (record c {
      database = record c.database { url = url_of scheme credentials host };
      auth = record c.auth { hmac_secret = secret };
    })
      ≡ redacted os (record c {
        database = record c.database { url = url_of scheme credentials' host };
        auth = record c.auth { hmac_secret = secret' };
      })
unfolding redacted
redacted-hides os c scheme host cr cr' s s' hs hh n n' =
    rw
      (
        url_of-redacted scheme cr host hs hh,
        url_of-redacted scheme cr' host hs hh,
        redact_secret-hides s n,
        redact_secret-hides s' n',
      )
      refl
