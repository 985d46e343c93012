-- ===== src/Auth/Libraries.antt =====
-- The libraries that internal/auth calls: golang-jwt, and go-oidc.
use golden_path_control_plan.Prelude.{
  ◌+◌, ◌≤◌, ◌<◌, String, ◌≡◌, ◌≢◌, Bool, true, ◌&&◌, ltb, leb, Option, none, some, List, any,
  str_eq, IsCompact,
}
use golden_path_control_plan.Fallible.{Fallible, done}
use golden_path_control_plan.Auth.{Instant}

-- A signing method of golang-jwt, other than HS256 by its name
pub data Method : Type 0 where
  hs256 : Method
  other_method : String → Method

-- `Claims` of internal/auth/auth.go, with its `jwt.RegisteredClaims`
pub record Claims : Type 0 where
  pub claimed_role : String
  pub claimed_subject : String
  pub claimed_issuer : String
  pub claimed_audience : List String
  pub expires_at : Option Instant
  pub issued_at : Option Instant
  pub not_before : Option Instant

-- `jwt.Token`, as far as it is read
pub record Token : Type 0 where
  pub claims : Claims
  pub valid : Bool

pub record Jwt : Type 0 where
  -- jwt.NewNumericDate
  pub numeric_date : Instant → Instant
  -- `SignedString` of a token by a method, with a secret
  pub signed_string : Method → String → Claims → Fallible String
  -- `ParseWithClaims` with the function that gives the key of a method, the options `WithAudience`
  -- and `WithIssuer`, and the instant at which it is called
  pub parse_with_claims :
      (Method → Fallible String) → String → String → Instant → String → Fallible Token
  -- `Verify` of a method, with a secret, on the parts of a raw token
  pub verifies : Method → String → String → Bool
  -- The claims that the middle part of a raw token carries
  pub claims_of : String → Fallible Claims

abbrev is_before : Instant → Option Instant → Bool
is_before t none = true
is_before t (some e) = ltb t e

abbrev is_reached : Instant → Option Instant → Bool
is_reached t none = true
is_reached t (some b) = leb b t

-- What ParseWithClaims checks of the claims
abbrev pub is_due : Claims → String → String → Instant → Bool
is_due c audience issuer t =
    any (str_eq audience) c.claimed_audience
    && str_eq c.claimed_issuer issuer
    && is_before t c.expires_at
    && is_reached t c.not_before

-- `TimePrecision` is a second.
abbrev pub Truncates : Jwt → Type 0
Truncates jwt = (t : Instant) → (jwt.numeric_date t ≤ t) × (t < jwt.numeric_date t + 1000000000)

-- What golang-jwt documents of the token that it signs with a secret for some claims: it is made of
-- base64url texts and dots, and it is accepted with the key that signed it, in its time, by its
-- audience, from its issuer.
pub record Signs (jwt : Jwt) (secret : String) (c : Claims) : Type 0 where
  pub raw : String
  pub signed : jwt.signed_string hs256 secret c ≡ done raw
  pub is_filled : raw ≢ ""
  pub is_compact : IsCompact raw
  pub is_accepted :
      (audience issuer : String) (key : Method → Fallible String) (t : Instant)
      → key hs256 ≡ done secret
      → is_due c audience issuer t ≡ true
      → jwt.parse_with_claims key audience issuer t raw ≡ done record { claims = c; valid = true }

-- What it documents of any token that it accepts for an audience and an issuer: its method has a key,
-- with which its signature verifies, and the claims that it carries are those of the result and are due.
abbrev pub Rejects : Jwt → Type 0
Rejects jwt =
    (raw audience issuer : String) (key : Method → Fallible String) (t : Instant) (token : Token)
    → audience ≢ ""
    → issuer ≢ ""
    → jwt.parse_with_claims key audience issuer t raw ≡ done token
    → ((m : Method) × (secret : String) × (key m ≡ done secret)
        × (jwt.verifies m secret raw ≡ true))
      × (jwt.claims_of raw ≡ done token.claims)
      × (is_due token.claims audience issuer t ≡ true)

-- `oidcClaims` of internal/auth/oidc.go
pub record OidcClaims : Type 0 where
  pub oidc_role : String
  pub sub : String
  pub iss : String

pub record Oidc : Type 1 where
  pub Context : Type 0
  pub Provider : Type 0
  pub KeySet : Type 0
  pub Verifier : Type 0
  pub IdToken : Type 0
  pub insecure_issuer_url_context : Context → String → Context
  pub new_remote_key_set : Context → String → KeySet
  -- `NewVerifier` of an issuer's URL, its keys and a client, and `Verifier` of a provider
  pub new_verifier : String → KeySet → String → Verifier
  pub new_provider : Context → String → Fallible Provider
  pub provider_verifier : Provider → String → Verifier
  pub verify : Verifier → Instant → String → Fallible IdToken
  pub token_claims : IdToken → Fallible OidcClaims
