-- ===== src/Examples/Settings.antt =====
-- Settings from an environment, on concrete data.
use golden_path_control_plan.Prelude.{◌≡◌, refl, String, str_eq, pos, if◌then◌else◌, trim_space}
use golden_path_control_plan.Fallible.{done, failed, ◌>>=◌}
use golden_path_control_plan.Config.{load}
use golden_path_control_plan.Config.Settings.{Config, Platform, seconds, minutes}
use golden_path_control_plan.Config.Valid.{IsSound, load-IsSound}
use golden_path_control_plan.Config.Redaction.{redacted, url_of, redacted-hides}

abbrev variable : String → String
variable key =
    if str_eq key "DATABASE_URL"
    then "postgres://app:secret@db:5432/cp?sslmode=require"
    else if str_eq key "APP_ENV"
    then "production"
    else if str_eq key "AUTH_MODE"
    then "oidc"
    else if str_eq key "AUTH_AUDIENCE"
    then "control-plane"
    else if str_eq key "AUTH_OIDC_ISSUER_URL"
    then " https://issuer.example.com "
    else ""

abbrev pub os : Platform
os = record {
  getenv = variable;
  to_upper = λ s. s;
  to_lower = λ s. s;
  equal_fold = str_eq;
  quote = λ s. s;
  atoi = λ s. failed "invalid syntax";
  parse_duration = λ s. failed "invalid duration";
  duration_text = λ d. "a duration";
  query_sslmode = λ s. done "require";
}

abbrev pub settings : Config
settings = record {
  app_env = "production";
  app_log_level = "INFO";
  http_addr = ":8080";
  http_read_timeout = seconds 10;
  http_write_timeout = seconds 15;
  http_idle_timeout = seconds 60;
  shutdown_timeout = seconds 20;
  database = record {
    url = "postgres://app:secret@db:5432/cp?sslmode=require";
    max_open_conns = pos 10;
    min_idle_conns = pos 2;
    max_conn_lifetime = minutes 30;
    max_conn_idle_time = minutes 5;
  };
  worker = record {
    poll_interval = seconds 2;
    batch_size = pos 5;
    lease = seconds 30;
    max_attempts = pos 5;
  };
  auth = record {
    mode = "oidc";
    audience = "control-plane";
    issuer = "https://issuer.example.com";
    hmac_secret = "";
    oidc_issuer_url = "https://issuer.example.com";
    oidc_jwks_url = "";
  };
  observability = record {
    service_name = "golden-path-control-plane";
    otlp_endpoint = "";
    namespace = "goldenpath";
  };
  integration_test_db = "";
}

pub loaded : load os ≡ done settings
unfolding load ◌>>=◌ trim_space
loaded = refl

load-IsSound_example : IsSound os settings
load-IsSound_example = load-IsSound os settings loaded

redacted-hides_example :
    redacted os (record settings {
      database = record settings.database { url = url_of "postgres" "app:first" "db:5432/cp" };
      auth = record settings.auth { hmac_secret = "one" };
    })
    ≡ redacted os (record settings {
      database = record settings.database {
        url = url_of "postgres" "app:p@ss://word" "db:5432/cp";
      };
      auth = record settings.auth { hmac_secret = "two" };
    })
redacted-hides_example =
    redacted-hides os settings "postgres" "db:5432/cp" "app:first" "app:p@ss://word" "one" "two"
      (refl, (refl, (refl, (refl, (refl, (refl, (refl, (refl, tt))))))))
      (refl, (refl, (refl, (refl, (refl, (refl, (refl, (refl, (refl, (refl, tt)))))))))) (λ h. cc)
      (λ h. cc)
