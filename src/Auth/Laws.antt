-- ===== src/Auth/Laws.antt =====
-- What the tokens of internal/auth are good for.
use golden_path_control_plan.Prelude.{
  ◌+◌, ◌-◌, ◌≤◌, ◌≡◌, ◌≢◌, refl, String, ◌<>◌, true, false, some, arith, str_eq, eq_iff, pos_part,
  pos, leb_ℤ,
}
use golden_path_control_plan.Domain.Models.{Role, engineer, platform_admin, unknown_role}
use golden_path_control_plan.Fallible.{
  done, ◌>>=◌, Yields, Yields-at, Yields-done, Yields-any, Yields-insist, Yields-weaken,
  prefixed-done,
}
use golden_path_control_plan.Config.Settings.{Duration, AuthConfig, Platform}
use golden_path_control_plan.Auth.{
  Instant, TokenValidator, Principal, role_of, role_text, is_known, parse_bearer_token,
}
use golden_path_control_plan.Auth.Libraries.{
  Method, hs256, other_method, Claims, Token, Jwt, is_due, Truncates, Signs, Rejects, Oidc,
}
use golden_path_control_plan.Auth.Validators.{
  new_claims, issue_hmac_token, key_of, claimed_principal, validate_hmac, validate_oidc, Validator,
  hmac_validator, oidc_validator, new_validator, validate_token,
}
use golden_path_control_plan.Auth.Bearer.{parse_bearer_token-header}

role_of-role_text : (r : Role) → is_known r ≡ true → role_of (role_text r) ≡ r
unfolding role_of role_text
role_of-role_text engineer h = refl
role_of-role_text platform_admin h = refl
role_of-role_text (unknown_role t) h = cc

new_claims_due :
    (jwt : Jwt) (cfg : AuthConfig) (subject : String) (role : Role) (ttl : Duration)
    (now t : Instant)
    → Truncates jwt
    → now ≤ t
    → t + 1000000000 ≤ now + pos_part ttl
    → is_due (new_claims jwt cfg subject role ttl now) cfg.audience cfg.issuer t ≡ true
unfolding new_claims
new_claims_due jwt cfg subject role ttl now t trunc h1 h2 = ground (
  arith,
  trunc (now + pos_part ttl),
  trunc (now - 60000000000),
  eq_iff cfg.audience cfg.audience,
  eq_iff cfg.issuer cfg.issuer,
)

-- What is issued, and what is made of it
issue_lem :
    (os : Platform) (jwt : Jwt) (cfg : AuthConfig) (subject : String) (role : Role) (ttl : Duration)
    (now : Instant) (raw : String)
    → cfg.mode ≡ "hmac"
    → subject ≢ ""
    → is_known role ≡ true
    → leb_ℤ ttl (pos 0) ≡ false
    → jwt.signed_string hs256 cfg.hmac_secret (new_claims jwt cfg subject role ttl now) ≡ done raw
    → issue_hmac_token os jwt cfg subject role ttl now ≡ done raw
unfolding issue_hmac_token ◌>>=◌
issue_lem os jwt cfg subject role ttl now raw m n k l e =
    let a : str_eq cfg.mode "hmac" ≡ true = (eq_iff cfg.mode "hmac").1 m in
    let b : str_eq subject "" ≡ false = ground (arith, eq_iff subject "") in rw (a, b, k, l) e

pub claimed_lem :
    (subject issuer : String) (role : Role)
    → is_known role ≡ true
    → claimed_principal subject (role_text role) issuer
      ≡ done record { subject = subject; role = role; issuer = issuer }
unfolding claimed_principal ◌>>=◌
claimed_lem subject issuer role k = rw (role_of-role_text role k, k) refl

validate_lem :
    (jwt : Jwt) (cfg : AuthConfig) (t : Instant) (raw : String) (c : Claims) (p : Principal)
    → jwt.parse_with_claims (key_of cfg) cfg.audience cfg.issuer t raw
      ≡ done record { claims = c; valid = true }
    → claimed_principal c.claimed_subject c.claimed_role c.claimed_issuer ≡ done p
    → validate_hmac jwt cfg t raw ≡ done p
unfolding validate_hmac ◌>>=◌
validate_lem jwt cfg t raw c p e f = rw e f

claimed-principal_of :
    (subject role issuer : String)
    → Yields (claimed_principal subject role issuer) (λ p.
      (p ≡ record { subject = subject; role = role_of role; issuer = issuer })
      × (is_known p.role ≡ true))
unfolding claimed_principal
claimed-principal_of subject role issuer = Yields-insist _ λ h. Yields-done (refl, ground arith)

known_principal :
    (subject role issuer : String)
    → Yields (claimed_principal subject role issuer) (λ p. is_known p.role ≡ true)
known_principal subject role issuer =
    Yields-weaken (λ p q. q.1) (claimed-principal_of subject role issuer)

module _ (os : Platform) (jwt : Jwt) (oidc : Oidc) where
  mode_lem :
      (ctx : oidc.Context) (cfg : AuthConfig)
      → cfg.mode ≡ "hmac"
      → new_validator oidc os ctx cfg ≡ done (hmac_validator cfg)
  unfolding new_validator
  mode_lem ctx cfg m = rw ((eq_iff cfg.mode "hmac").1 m) refl

  dispatch_lem :
      (cfg : AuthConfig) (t : Instant) (raw : String)
      → validate_token oidc jwt (hmac_validator cfg) t raw ≡ validate_hmac jwt cfg t raw
  unfolding validate_token
  dispatch_lem cfg t raw = refl

  accepted_lem :
      (cfg : AuthConfig) (subject : String) (role : Role) (ttl : Duration) (now t : Instant)
      → (s : Signs jwt cfg.hmac_secret (new_claims jwt cfg subject role ttl now))
      → is_due (new_claims jwt cfg subject role ttl now) cfg.audience cfg.issuer t ≡ true
      → is_known role ≡ true
      → validate_hmac jwt cfg t s.raw
        ≡ done record { subject = subject; role = role; issuer = cfg.issuer }
  unfolding key_of new_claims
  accepted_lem cfg subject role ttl now t s d k =
      validate_lem jwt cfg t s.raw (new_claims jwt cfg subject role ttl now) _
        (s.is_accepted cfg.audience cfg.issuer (key_of cfg) t refl d)
        (claimed_lem subject cfg.issuer role k)

  -- Let golang-jwt sign the claims and accept what it has signed, as it documents, and let its dates be
  -- exact to a second. With settings for shared secrets, a token is issued to every subject that is not
  -- empty, with a known role and a lifetime of more than a second; the header `Bearer` with this token carries it, and the validator of
  -- the settings gives back the subject, the role and the issuer, from the time of issue until a
  -- second before the end of the lifetime.
  pub issue-validate :
      (ctx : oidc.Context) (cfg : AuthConfig) (subject : String) (role : Role) (ttl : Duration)
      (now t : Instant)
      → os.equal_fold "Bearer" "Bearer" ≡ true
      → Truncates jwt
      → (s : Signs jwt cfg.hmac_secret (new_claims jwt cfg subject role ttl now))
      → cfg.mode ≡ "hmac"
      → subject ≢ ""
      → is_known role ≡ true
      → now ≤ t
      → t + 1000000000 ≤ now + pos_part ttl
      → (issue_hmac_token os jwt cfg subject role ttl now ≡ done s.raw)
        × (parse_bearer_token os ("Bearer " <> s.raw) ≡ some s.raw)
        × (new_validator oidc os ctx cfg ≡ done (hmac_validator cfg))
        × (validate_token oidc jwt (hmac_validator cfg) t s.raw
            ≡ done record { subject = subject; role = role; issuer = cfg.issuer })
  issue-validate ctx cfg subject role ttl now t f trunc s m n k h1 h2 = (
    issue_lem os jwt cfg subject role ttl now s.raw m n k (ground arith) s.signed,
    parse_bearer_token-header os s.raw f s.is_filled s.is_compact,
    mode_lem ctx cfg m,
    rw (dispatch_lem cfg t s.raw) (
        accepted_lem cfg subject role ttl now t s
          (new_claims_due jwt cfg subject role ttl now t trunc h1 h2) k),
  )

  -- Whatever the validator, the role of a principal that it returns is one of the two known roles.
  pub validate_token-known :
      (v : Validator oidc) (t : Instant) (raw : String) (p : Principal)
      → validate_token oidc jwt v t raw ≡ done p
      → is_known p.role ≡ true
  unfolding validate_token validate_hmac validate_oidc
  validate_token-known (hmac_validator cfg) t raw p h =
      Yields-at p (Yields-any _ λ token _. Yields-insist _ λ _. known_principal _ _ _) h
  validate_token-known (oidc_validator v) t raw p h =
      Yields-at p
        (Yields-any _ λ i _.
          Yields-any _ λ c _. Yields-insist _ λ _. Yields-insist _ λ _. known_principal _ _ _)
        h

  -- Both validators as implementations of the interface
  abbrev pub token_validator : Validator oidc → TokenValidator
  token_validator v = record {
    validate = validate_token oidc jwt v;
    is_known_role = validate_token-known v;
  }

key_of-hs256 :
    (cfg : AuthConfig) (m : Method) (secret : String)
    → key_of cfg m ≡ done secret
    → (m ≡ hs256) × (secret ≡ cfg.hmac_secret)
unfolding key_of
key_of-hs256 cfg hs256 secret h = (refl, cc)
key_of-hs256 cfg (other_method n) secret h = cc

is_due-issuer :
    (c : Claims) (audience issuer : String) (t : Instant)
    → is_due c audience issuer t ≡ true
    → c.claimed_issuer ≡ issuer
is_due-issuer c audience issuer t h = ground (arith, eq_iff c.claimed_issuer issuer)

abbrev pub IsGenuine : Jwt → AuthConfig → Instant → String → Principal → Type 0
IsGenuine jwt cfg t raw p =
    (jwt.verifies hs256 cfg.hmac_secret raw ≡ true)
    × ((c : Claims) × (jwt.claims_of raw ≡ done c)
        × (is_due c cfg.audience cfg.issuer t ≡ true)
        × (p ≡ record {
          subject = c.claimed_subject;
          role = role_of c.claimed_role;
          issuer = cfg.issuer;
        }))
    × (is_known p.role ≡ true)

-- What the claims of an accepted token are worth
accepted-IsGenuine :
    (jwt : Jwt) (cfg : AuthConfig) (t : Instant) (raw : String) (token : Token)
    → Rejects jwt
    → cfg.audience ≢ ""
    → cfg.issuer ≢ ""
    → jwt.parse_with_claims (key_of cfg) cfg.audience cfg.issuer t raw ≡ done token
    → Yields
        (claimed_principal token.claims.claimed_subject token.claims.claimed_role
          token.claims.claimed_issuer)
        (IsGenuine jwt cfg t raw)
accepted-IsGenuine jwt cfg t raw token rej na ni e =
    let ((m, secret, k, v), carried, d) =
      rej raw cfg.audience cfg.issuer (key_of cfg) t token na ni e in
    let (em, es) = key_of-hs256 cfg m secret k in
    let verified : jwt.verifies hs256 cfg.hmac_secret raw ≡ true = cc (em, es, v) in
    let by_issuer = is_due-issuer token.claims cfg.audience cfg.issuer t d in
    Yields-weaken (λ p q. (verified, (token.claims, carried, d, cc (q.0, by_issuer)), q.1))
      (claimed-principal_of token.claims.claimed_subject token.claims.claimed_role
        token.claims.claimed_issuer)

-- A token that the validator of shared secrets accepts was signed with HS256 and the secret of the
-- settings, whatever method its header names; the claims that it carries are for the audience and from
-- the issuer of the settings and in their time, and the principal has their subject, role and issuer.
-- The settings have an audience and an issuer, and golang-jwt checks what it documents.
pub validate_hmac-IsGenuine :
    (jwt : Jwt) (cfg : AuthConfig) (t : Instant) (raw : String) (p : Principal)
    → Rejects jwt
    → cfg.audience ≢ ""
    → cfg.issuer ≢ ""
    → validate_hmac jwt cfg t raw ≡ done p
    → IsGenuine jwt cfg t raw p
unfolding validate_hmac
validate_hmac-IsGenuine jwt cfg t raw p rej na ni h =
    Yields-at p
      (Yields-any _ λ token e.
        Yields-insist _
          λ v. accepted-IsGenuine jwt cfg t raw token rej na ni (prefixed-done _ _ token e))
      h
