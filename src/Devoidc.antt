-- ===== src/Devoidc.antt =====
-- internal/devoidc/issuer.go: the issuer of OIDC tokens for development.
pub mod Settings
pub mod Laws
pub mod Environment
use Prim.Native.Char.{code}
use golden_path_control_plan.Prelude.{
  ℕ, ◌+◌, ◌-◌, ◌/◌, String, ◌<>◌, Bool, true, false, not, Option, none, some, List, [], ◌∷◌, str_eq,
  trim_space, is_blank, find?, ◌==◌, if◌then◌else◌, pos, pos_part, neg_part, leb_ℤ, ltb,
}
use golden_path_control_plan.Fallible.{Fallible, done, failed, ◌>>=◌, ◌>>◌, prefixed, insist}
use golden_path_control_plan.Domain.Models.{engineer, platform_admin}
use golden_path_control_plan.Domain.Validation.{fail_if, wrap}
use golden_path_control_plan.Config.Settings.{Duration, seconds}
use golden_path_control_plan.Auth.{Instant, role_text}
use Settings.{
  IssuerConfig, TokenClaims, ClientDefinition, MapClaims, Signer, Issuer, FormRequest,
  DiscoveryDocument, Jwk, TokenResponse, Answer, http_error, discovery_document, key_set,
  token_response, health,
}

abbrev pub unless_blank : String → String → String
unless_blank value fallback = if is_blank value then fallback else value

-- The defaults of New
unfoldable pub with_defaults : IssuerConfig → IssuerConfig
with_defaults c = record {
  addr = unless_blank c.addr ":9000";
  issuer_url = unless_blank c.issuer_url "http://localhost:9000";
  audience = unless_blank c.audience "golden-path-control-plane";
  token_ttl = if leb_ℤ c.token_ttl (pos 0) then seconds 3600 else c.token_ttl;
  engineer_subject = unless_blank c.engineer_subject "developer@example.com";
  platform_admin_subject = unless_blank c.platform_admin_subject "platform-admin@example.com";
}

unfoldable pub clients_of : IssuerConfig → List ClientDefinition
clients_of c =
    record {
      client_id = "golden-path-engineer";
      default_subject = c.engineer_subject;
      client_role = engineer;
    }
    ∷ record {
      client_id = "golden-path-platform-admin";
      default_subject = c.platform_admin_subject;
      client_role = platform_admin;
    }
    ∷ []

-- TrimSuffix of "/"
unfoldable pub trim_slash : String → String
trim_slash String.[] = String.[]
trim_slash (String.◌∷◌ c String.[]) = if code c == 47 then "" else String.◌∷◌ c ""
trim_slash (String.◌∷◌ c (String.◌∷◌ d s)) = String.◌∷◌ c (trim_slash (String.◌∷◌ d s))

abbrev pub to_unix : Instant → ℕ
to_unix t = t / 1000000000

-- `Add` of an instant after 1970
abbrev pub plus : Instant → Duration → Instant
plus t d = t + pos_part d - neg_part d

module _ (signer : Signer) where
  unfoldable pub new_issuer : IssuerConfig → Fallible (Issuer signer)
  unfolding with_defaults clients_of
  new_issuer config = do
    let cfg = with_defaults config
    insist (wrap "devoidc: parse issuer url: " (signer.parse_url cfg.issuer_url))
    key ← prefixed "devoidc: generate rsa key: " signer.generate_key
    done record { cfg = cfg; private_key = key; kid = signer.key_id key; clients = clients_of cfg }

  module _ (issuer : Issuer signer) where
    unfoldable pub sign_map_claims : MapClaims → Fallible String
    sign_map_claims claims =
        prefixed "devoidc: sign token: " (signer.signed_string issuer.private_key issuer.kid claims)

    abbrev pub ttl_or_default : Duration → Duration
    ttl_or_default ttl = if pos_part ttl + neg_part ttl == 0 then issuer.cfg.token_ttl else ttl

    unfoldable pub map_claims : TokenClaims → Instant → MapClaims
    map_claims claims now = record {
      iss = issuer.cfg.issuer_url;
      sub = trim_space claims.subject;
      aud = issuer.cfg.audience ∷ [];
      exp = to_unix (plus now (ttl_or_default claims.ttl));
      iat = to_unix now;
      nbf = to_unix (now - 60000000000);
      role_claim = trim_space claims.role;
    }

    unfoldable pub sign_token : TokenClaims → Instant → Fallible String
    sign_token claims now = do
      insist (fail_if (is_blank claims.subject) "devoidc: subject is required")
      insist (fail_if (is_blank claims.role) "devoidc: role is required")
      sign_map_claims (map_claims claims now)

    abbrev pub only : String → FormRequest → Answer → Answer
    only method request answer =
        if str_eq request.method method then answer else http_error 405 "method not allowed"

    unfoldable pub discovery : FormRequest → Answer
    discovery request = only "GET" request (
        discovery_document record {
          discovered_issuer = issuer.cfg.issuer_url;
          jwks_uri = trim_slash issuer.cfg.issuer_url <> "/keys";
          token_endpoint = trim_slash issuer.cfg.issuer_url <> "/token";
          grant_types_supported = "client_credentials" ∷ [];
          response_types_supported = "token" ∷ [];
          subject_types_supported = "public" ∷ [];
          id_token_signing_alg_values_supported = "RS256" ∷ [];
          token_endpoint_auth_methods_supported = "none" ∷ [];
        })

    unfoldable pub keys : FormRequest → Answer
    keys request = only "GET" request (
        key_set (
          record {
            kty = "RSA";
            alg = "RS256";
            use_for = "sig";
            jwk_id = issuer.kid;
            n = signer.modulus issuer.private_key;
            e = signer.exponent issuer.private_key;
          }
          ∷ []))

    unfoldable pub find_client : String → Option ClientDefinition
    find_client id = find? (λ c. str_eq c.client_id id) issuer.clients

    abbrev pub subject_for : ClientDefinition → String → String
    subject_for client given = if is_blank given then client.default_subject else trim_space given

    abbrev pub issued : Fallible String → Answer
    issued (failed e) = http_error 500 "failed to issue token"
    issued (done raw) = token_response record {
      access_token = raw;
      id_token = raw;
      token_type = "Bearer";
      expires_in = pos_part issuer.cfg.token_ttl / 1000000000;
      issued_token_type = "urn:ietf:params:oauth:token-type:id_token";
    }

    abbrev pub for_client : Option ClientDefinition → (String → String) → Instant → Answer
    for_client none form now = http_error 401 "invalid client_id"
    for_client (some client) form now = issued (
        sign_token
          record {
            subject = subject_for client (form "subject");
            role = role_text client.client_role;
            ttl = issuer.cfg.token_ttl;
          }
          now)

    abbrev pub by_form : Fallible (String → String) → Instant → Answer
    by_form (failed e) now = http_error 400 "invalid form body"
    by_form (done form) now =
        if str_eq (form "grant_type") "client_credentials"
        then for_client (find_client (trim_space (form "client_id"))) form now
        else http_error 400 "unsupported grant_type"

    unfoldable pub token : FormRequest → Instant → Answer
    unfolding find_client
    token request now = only "POST" request (by_form request.form now)

    unfoldable pub report_health : FormRequest → Answer
    report_health request = only "GET" request (health "ok")

    -- The routes of `Handler`; the multiplexer itself answers any other path.
    unfoldable pub handler : String → FormRequest → Instant → Option Answer
    unfolding discovery keys token report_health
    handler path request now =
        if str_eq path "/.well-known/openid-configuration"
        then some (discovery request)
        else if str_eq path "/keys"
        then some (keys request)
        else if str_eq path "/token"
        then some (token request now)
        else if str_eq path "/healthz"
        then some (report_health request)
        else none
