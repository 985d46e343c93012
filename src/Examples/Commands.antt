-- ===== src/Examples/Commands.antt =====
-- Commands of the client against the development issuer and an API, on concrete data.
use golden_path_control_plan.Prelude.{
  ◌≡◌, ◌↔◌, ◌⊎◌, inl, inr, refl, sym, ap, ◌∙◌, subst, String, ◌<>◌, Option, none, some, [], ◌∷◌,
  true, str_eq, eq_iff, if◌then◌else◌, Bool-cases, trim_space, is_space, IsCompact,
}
use golden_path_control_plan.Fallible.{Fallible, done, failed}
use golden_path_control_plan.Domain.Models.{engineer}
use golden_path_control_plan.Config.Settings.{Platform, AuthConfig}
use golden_path_control_plan.Auth.{Instant, role_text}
use golden_path_control_plan.Devoidc.{handler, trim_slash, map_claims}
use golden_path_control_plan.Devoidc.Settings.{
  Answer, http_error, discovery_document, key_set, token_response, health, status_of, FormRequest,
}
use golden_path_control_plan.Devoidc.Laws.{Verifies, asked}
use golden_path_control_plan.Cli.Shell.{
  no_content, form, HttpRequest, HttpResponse, Tools, Terminal,
}
use golden_path_control_plan.Cli.Requests.{bearer_token, do_request}
use golden_path_control_plan.Cli.Tokens.{token_form}
use golden_path_control_plan.Cli.Laws.{
  IsSuccess, IsAllowed, read_token, sent_request, do_request-Sends,
}
use golden_path_control_plan.Cli.Issued.{
  Reaches, received, values_of, asked_first, asked_then, client,
}
use golden_path_control_plan.Examples.Issuing.{config, signer, issuer, oidc, created}

abbrev variable : String → String
variable key = if str_eq key "CONTROL_PLANE_TOKEN" then " signed\n" else ""

abbrev os : Platform
os = record {
  getenv = variable;
  to_upper = λ s. s;
  to_lower = λ s. s;
  equal_fold = str_eq;
  quote = λ s. s;
  atoi = λ s. failed "invalid syntax";
  parse_duration = λ s. failed "invalid duration";
  duration_text = λ d. "a duration";
  query_sslmode = λ s. done "require";
}

abbrev carry : Answer → HttpResponse
carry (http_error status message) = record { status = status; text = message; broken = none }
carry (discovery_document d) = record { status = 200; text = d.token_endpoint; broken = none }
carry (key_set k) = record { status = 200; text = ""; broken = none }
carry (token_response t) = record { status = 200; text = t.access_token; broken = none }
carry (health s) = record { status = 200; text = s; broken = none }

carry-status : (a : Answer) → (carry a).status ≡ status_of a
carry-status (http_error status message) = refl
carry-status (discovery_document d) = refl
carry-status (key_set k) = refl
carry-status (token_response t) = refl
carry-status (health s) = refl

abbrev path_of : String → String
path_of url =
    if str_eq url "http://localhost:9000/.well-known/openid-configuration"
    then "/.well-known/openid-configuration"
    else if str_eq url "http://localhost:9000/keys"
    then "/keys"
    else if str_eq url "http://localhost:9000/token"
    then "/token"
    else if str_eq url "http://localhost:9000/healthz"
    then "/healthz"
    else ""

abbrev brought : Option Answer → Fallible HttpResponse
brought none = failed "404 page not found"
brought (some a) = done (carry a)

abbrev now : Instant
now = 100000000000000

abbrev tools : Tools
tools = record {
  network = λ before r. brought (handler signer issuer (path_of r.url) (received r) now);
  bad_request = λ method url. none;
  parse_flags = λ name flags args. failed "flag provided but not defined";
  read_file = λ path. done "{}";
  parse_uuid = λ text. done 1;
  marshal_candidate = λ c. done "{}";
  decode_discovery = λ r. done r.text;
  decode_tokens = λ r. done record { access_token = r.text; id_token = r.text };
}

routed :
    (path : String) (request : FormRequest) (a : Answer)
    → handler signer issuer path request now ≡ some a
    → path_of ("http://localhost:9000" <> path) ≡ path
unfolding handler
routed path request a h = elim (Bool-cases (str_eq path "/.well-known/openid-configuration")) [
  | inl e ↦ known path "/.well-known/openid-configuration" refl e
  | inr n1 ↦ elim (Bool-cases (str_eq path "/keys")) [
    | inl e ↦ known path "/keys" refl e
    | inr n2 ↦ elim (Bool-cases (str_eq path "/token")) [
      | inl e ↦ known path "/token" refl e
      | inr n3 ↦ elim (Bool-cases (str_eq path "/healthz")) [
        | inl e ↦ known path "/healthz" refl e
        | inr n4 ↦ let nothing = rw (n1, n2, n3, n4) at h in cc
      ]
    ]
  ]
]
  where
    known :
        (path other : String)
        → path_of ("http://localhost:9000" <> other) ≡ other
        → str_eq path other ≡ true
        → path_of ("http://localhost:9000" <> path) ≡ path
    known path other r e =
        subst (λ p. path_of ("http://localhost:9000" <> p) ≡ p) (sym ((eq_iff path other).0 e)) r

reaches : Reaches tools signer issuer now
unfolding trim_slash
reaches = record {
  carry = carry;
  carried_status = carry-status;
  decoded_discovery = λ d. refl;
  decoded_tokens = λ raw. refl;
  answered = λ before r path a u h.
      ap (λ p. brought (handler signer issuer p (received r) now))
        (ap path_of u ∙ routed path (received r) a h)
      ∙ ap brought h;
}

abbrev session : Terminal
session = record { sent = []; out = []; errors = [] }

token-IsCompact : IsCompact (bearer_token os)
unfolding bearer_token trim_space is_space
token-IsCompact = (refl, (refl, (refl, (refl, (refl, (refl, tt))))))

do_request-Sends_example :
    let r = do_request os tools "GET" "/token" no_content session in
    ((¬ IsAllowed os tools "GET" "/token" no_content × (r.1 ≡ session))
      ⊎ (IsAllowed os tools "GET" "/token" no_content
          × (r.1.sent ≡ sent_request os tools "GET" "/token" no_content ∷ [])
          × (read_token os tools "GET" "/token" no_content ≡ some (bearer_token os))))
    × ((r.0 ≡ done tt) ↔ (
        IsAllowed os tools "GET" "/token" no_content
        × IsSuccess (tools.network [] (sent_request os tools "GET" "/token" no_content))))
do_request-Sends_example =
    do_request-Sends os tools "GET" "/token" no_content session refl token-IsCompact

abbrev cfg : AuthConfig
cfg = record {
  mode = "oidc";
  audience = "golden-path-control-plane";
  issuer = "http://localhost:9000";
  hmac_secret = "";
  oidc_issuer_url = "http://localhost:9000";
  oidc_jwks_url = "";
}

-- The requests, the client and the subject of a command without a subject
abbrev then_asked : HttpRequest
then_asked = asked_then os tools signer issuer now reaches cfg refl config created engineer refl ""

abbrev first_asked : HttpRequest
first_asked = asked_first os tools signer issuer now reaches cfg refl

verifies : Verifies signer oidc issuer "keys" (
    map_claims signer issuer
      (asked signer issuer
        (client os tools signer issuer now reaches cfg refl config created engineer refl "")
        (values_of (form (token_form "golden-path-engineer" ""))))
      now)
unfolding map_claims trim_space role_text token_form
verifies = record {
  raw = "signed";
  signed = refl;
  accepted = λ url audience t current. ("signed", refl, refl);
}
