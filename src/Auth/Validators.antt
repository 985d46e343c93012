-- ===== src/Auth/Validators.antt =====
-- IssueHMACToken and the validators of internal/auth/auth.go and internal/auth/oidc.go. Their errors
-- are texts; that of a validator wraps ErrUnauthorized.
use golden_path_control_plan.Prelude.{
  ◌+◌, ◌-◌, String, ◌<>◌, not, some, [], ◌∷◌, str_eq, if◌then◌else◌, pos, pos_part, leb_ℤ,
  has_prefix,
}
use golden_path_control_plan.Domain.Models.{Role}
use golden_path_control_plan.Domain.Validation.{fail_if}
use golden_path_control_plan.Fallible.{Fallible, done, failed, ◌>>=◌, ◌>>◌, prefixed, insist}
use golden_path_control_plan.Config.Settings.{Duration, AuthConfig, Platform}
use golden_path_control_plan.Auth.{Instant, Principal, role_of, role_text, is_known}
use golden_path_control_plan.Auth.Libraries.{Method, hs256, other_method, Claims, Jwt, Oidc}

-- The claims of IssueHMACToken, from `now` on; the clock stands later than a minute after 1970.
unfoldable pub new_claims : Jwt → AuthConfig → String → Role → Duration → Instant → Claims
new_claims jwt cfg subject role ttl now = record {
  claimed_role = role_text role;
  claimed_subject = subject;
  claimed_issuer = cfg.issuer;
  claimed_audience = cfg.audience ∷ [];
  expires_at = some (jwt.numeric_date (now + pos_part ttl));
  issued_at = some (jwt.numeric_date now);
  not_before = some (jwt.numeric_date (now - 60000000000));
}

unfoldable pub issue_hmac_token :
    Platform → Jwt → AuthConfig → String → Role → Duration → Instant → Fallible String
issue_hmac_token os jwt cfg subject role ttl now = do
  insist
      (fail_if (not (str_eq cfg.mode "hmac")) "auth: HMAC token issuance requires AUTH_MODE=hmac")
  insist (fail_if (str_eq subject "") "auth: subject is required")
  insist (fail_if (not (is_known role)) ("auth: unsupported role " <> os.quote (role_text role)))
  insist (fail_if (leb_ℤ ttl (pos 0)) "auth: ttl must be greater than zero")
  jwt.signed_string hs256 cfg.hmac_secret (new_claims jwt cfg subject role ttl now)

abbrev pub method_name : Method → String
method_name hs256 = "HS256"
method_name (other_method name) = name

-- the function that `hmacValidator` hands to ParseWithClaims
unfoldable pub key_of : AuthConfig → Method → Fallible String
key_of cfg hs256 = done cfg.hmac_secret
key_of cfg (other_method name) =
    failed ("auth: unexpected signing method " <> method_name (other_method name))

unfoldable pub claimed_principal : String → String → String → Fallible Principal
claimed_principal subject role issuer = do
  insist (fail_if (not (is_known (role_of role))) "auth: unauthorized: invalid role claim")
  done record { subject = subject; role = role_of role; issuer = issuer }

unfoldable pub validate_hmac : Jwt → AuthConfig → Instant → String → Fallible Principal
validate_hmac jwt cfg t raw_token = do
  token ←
      prefixed "auth: unauthorized: "
        (jwt.parse_with_claims (key_of cfg) cfg.audience cfg.issuer t raw_token)
  insist (fail_if (not token.valid) "auth: unauthorized")
  claimed_principal token.claims.claimed_subject token.claims.claimed_role
      token.claims.claimed_issuer

module _ (oidc : Oidc) where
  unfoldable pub new_oidc_validator : oidc.Context → AuthConfig → Fallible oidc.Verifier
  new_oidc_validator background cfg =
      let ctx =
        if has_prefix "http://" cfg.oidc_issuer_url
        then oidc.insecure_issuer_url_context background cfg.oidc_issuer_url
        else background in
      if str_eq cfg.oidc_jwks_url ""
      then (do
        provider ←
            prefixed "auth: build oidc provider: " (oidc.new_provider ctx cfg.oidc_issuer_url)
        done (oidc.provider_verifier provider cfg.audience))
      else done (
          oidc.new_verifier cfg.oidc_issuer_url (oidc.new_remote_key_set ctx cfg.oidc_jwks_url)
            cfg.audience)

  unfoldable pub validate_oidc : oidc.Verifier → Instant → String → Fallible Principal
  validate_oidc verifier t raw_token = do
    id_token ← prefixed "auth: unauthorized: " (oidc.verify verifier t raw_token)
    claims ← prefixed "auth: unauthorized: parse claims: " (oidc.token_claims id_token)
    insist (fail_if (str_eq claims.sub "") "auth: unauthorized: subject claim is required")
    insist (fail_if (str_eq claims.iss "") "auth: unauthorized: issuer claim is required")
    claimed_principal claims.sub claims.oidc_role claims.iss

  -- The two implementations of `Validator`
  pub data Validator : Type 0 where
    hmac_validator : AuthConfig → Validator
    oidc_validator : oidc.Verifier → Validator

  unfoldable pub new_validator : Platform → oidc.Context → AuthConfig → Fallible Validator
  new_validator os ctx cfg =
      if str_eq cfg.mode "hmac"
      then done (hmac_validator cfg)
      else if str_eq cfg.mode "oidc"
      then (do verifier ← new_oidc_validator ctx cfg; done (oidc_validator verifier))
      else failed ("auth: unsupported mode " <> os.quote cfg.mode)

  unfoldable pub validate_token : Jwt → Validator → Instant → String → Fallible Principal
  validate_token jwt (hmac_validator cfg) t raw_token = validate_hmac jwt cfg t raw_token
  validate_token jwt (oidc_validator verifier) t raw_token = validate_oidc verifier t raw_token
