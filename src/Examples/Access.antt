-- ===== src/Examples/Access.antt =====
-- Tokens and their validation, on concrete data.
use golden_path_control_plan.Prelude.{
  ◌*◌, ◌/◌, ◌≡◌, refl, sym, subst, ◌<>◌, String, Bool, true, false, ◌&&◌, some, [], ◌∷◌, arith,
  str_eq, pos, if◌then◌else◌, is_space,
}
use golden_path_control_plan.Fallible.{Fallible, done, failed, ◌>>=◌}
use golden_path_control_plan.Domain.Models.{engineer}
use golden_path_control_plan.Config.Settings.{AuthConfig}
use golden_path_control_plan.Auth.{Instant, Principal, role_of, role_text, parse_bearer_token}
use golden_path_control_plan.Auth.Libraries.{
  Method, hs256, other_method, Claims, Token, Jwt, is_due, Truncates, Signs, Rejects, Oidc,
}
use golden_path_control_plan.Auth.Validators.{
  claimed_principal, new_claims, issue_hmac_token, key_of, validate_hmac, hmac_validator,
  new_validator, validate_token,
}
use golden_path_control_plan.Auth.Laws.{IsGenuine, issue-validate, validate_hmac-IsGenuine}
use golden_path_control_plan.Examples.Settings.{os}

-- A library that signs one token: that of `claims`, with `secret`.
abbrev secret : String
secret = "12345678901234567890123456789012"

abbrev claims : Claims
claims = record {
  claimed_role = "engineer";
  claimed_subject = "developer@example.com";
  claimed_issuer = "golden-path-local";
  claimed_audience = "control-plane" ∷ [];
  expires_at = some 103600000000000;
  issued_at = some 100000000000000;
  not_before = some 99940000000000;
}

abbrev verified : Method → String → String → Bool
verified hs256 s raw = str_eq raw "h.c.s" && str_eq s secret
verified (other_method name) s raw = false

abbrev parsed : Fallible String → String → String → Instant → String → Fallible Token
parsed (failed e) audience issuer t raw = failed e
parsed (done s) audience issuer t raw =
    if verified hs256 s raw && is_due claims audience issuer t
    then done record { claims = claims; valid = true }
    else failed "token is invalid"

abbrev pub jwt : Jwt
jwt = record {
  numeric_date = λ t. t / 1000000000 * 1000000000;
  signed_string = λ m s c. done "h.c.s";
  parse_with_claims = λ key audience issuer t raw. parsed (key hs256) audience issuer t raw;
  verifies = verified;
  claims_of = λ raw. done claims;
}

abbrev pub oidc : Oidc
oidc = record {
  Context = Unit {0};
  Provider = String;
  KeySet = String;
  Verifier = String;
  IdToken = String;
  insecure_issuer_url_context = λ c u. c;
  new_remote_key_set = λ c u. u;
  new_verifier = λ u k a. u;
  new_provider = λ c u. done u;
  provider_verifier = λ p a. p;
  verify = λ v t raw. failed "no such token";
  token_claims = λ t. failed "no claims";
}

abbrev pub hmac_settings : AuthConfig
hmac_settings = record {
  mode = "hmac";
  audience = "control-plane";
  issuer = "golden-path-local";
  hmac_secret = secret;
  oidc_issuer_url = "";
  oidc_jwks_url = "";
}

truncates : Truncates jwt
truncates t = omega arith

issued_claims :
    new_claims jwt hmac_settings "developer@example.com" engineer
      (pos 3600000000000)
      100000000000000
    ≡ claims
unfolding new_claims role_text
issued_claims = refl

is_accepted :
    (audience issuer : String) (key : Method → Fallible String) (t : Instant)
    → key hs256 ≡ done secret
    → is_due claims audience issuer t ≡ true
    → jwt.parse_with_claims key audience issuer t "h.c.s"
      ≡ done record { claims = claims; valid = true }
is_accepted audience issuer key t k d = rw (k, d) refl

signs : Signs jwt secret (
    new_claims jwt hmac_settings "developer@example.com" engineer
      (pos 3600000000000)
      100000000000000)
unfolding is_space
signs = record {
  raw = "h.c.s";
  signed = refl;
  is_filled = λ h. cc;
  is_compact = (refl, (refl, (refl, (refl, (refl, tt)))));
  is_accepted = λ audience issuer key t k d.
      subst
        (λ c.
          jwt.parse_with_claims key audience issuer t "h.c.s"
          ≡ done record { claims = c; valid = true })
        (sym issued_claims)
        (is_accepted audience issuer key t k
          (subst (λ c. is_due c audience issuer t ≡ true) issued_claims d));
}

issue-validate_example :
    (issue_hmac_token os jwt hmac_settings "developer@example.com" engineer
        (pos 3600000000000)
        100000000000000
      ≡ done "h.c.s")
    × (parse_bearer_token os ("Bearer " <> "h.c.s") ≡ some "h.c.s")
    × (new_validator oidc os tt hmac_settings ≡ done (hmac_validator hmac_settings))
    × (validate_token oidc jwt (hmac_validator hmac_settings) 100000000000005 "h.c.s"
        ≡ done record {
          subject = "developer@example.com";
          role = engineer;
          issuer = "golden-path-local";
        })
unfolding signs
issue-validate_example =
    issue-validate os jwt oidc tt hmac_settings "developer@example.com" engineer (pos 3600000000000)
      100000000000000 100000000000005 refl truncates signs refl (λ h. cc) refl (omega arith)
      (omega arith)

parsed_lem :
    (r : Fallible String) (audience issuer : String) (t : Instant) (raw : String) (token : Token)
    → parsed r audience issuer t raw ≡ done token
    → ((s : String) × ((r ≡ done s) × (verified hs256 s raw ≡ true)))
      × (jwt.claims_of raw ≡ done token.claims)
      × (is_due token.claims audience issuer t ≡ true)
parsed_lem (failed e) audience issuer t raw token h = cc
parsed_lem (done s) audience issuer t raw token h =
    let v : verified hs256 s raw ≡ true = ground arith in
    let d : is_due token.claims audience issuer t ≡ true = ground arith in
    let carried : jwt.claims_of raw ≡ done token.claims = ground arith in
    ((s, (refl, v)), carried, d)

rejects : Rejects jwt
rejects raw audience issuer key t token na ni h =
    let ((s, (k, v)), carried, d) = parsed_lem (key hs256) audience issuer t raw token h in
    ((hs256, s, k, v), carried, d)

principal : Principal
principal = record {
  subject = "developer@example.com";
  role = engineer;
  issuer = "golden-path-local";
}

validated : validate_hmac jwt hmac_settings 100000000000005 "h.c.s" ≡ done principal
unfolding validate_hmac key_of ◌>>=◌ principal claimed_principal role_of
validated = refl

validate_hmac-IsGenuine_example : IsGenuine jwt hmac_settings 100000000000005 "h.c.s" principal
validate_hmac-IsGenuine_example =
    validate_hmac-IsGenuine jwt hmac_settings 100000000000005 "h.c.s" principal rejects (λ h. cc)
      (λ h. cc) validated
