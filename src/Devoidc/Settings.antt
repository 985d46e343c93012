-- ===== src/Devoidc/Settings.antt =====
-- The types of internal/devoidc/issuer.go, and the libraries that it calls.
use golden_path_control_plan.Prelude.{ℕ, String, Option, List}
use golden_path_control_plan.Fallible.{Fallible}
use golden_path_control_plan.Domain.Models.{Role}
use golden_path_control_plan.Config.Settings.{Duration}

pub record IssuerConfig : Type 0 where
  pub addr : String
  pub issuer_url : String
  pub audience : String
  pub token_ttl : Duration
  pub engineer_subject : String
  pub platform_admin_subject : String

pub record TokenClaims : Type 0 where
  pub subject : String
  pub role : String
  pub ttl : Duration

pub record ClientDefinition : Type 0 where
  pub client_id : String
  pub default_subject : String
  pub client_role : Role

-- The `jwt.MapClaims` that are signed; times are in seconds.
pub record MapClaims : Type 0 where
  pub iss : String
  pub sub : String
  pub aud : List String
  pub exp : ℕ
  pub iat : ℕ
  pub nbf : ℕ
  pub role_claim : String

-- RSA keys with their identifiers and the texts of their numbers, the signing of claims by RS256 under
-- a key's identifier, and `url.Parse`, of which its error's text is seen.
pub record Signer : Type 1 where
  pub PrivateKey : Type 0
  pub generate_key : Fallible PrivateKey
  pub key_id : PrivateKey → String
  pub modulus : PrivateKey → String
  pub exponent : PrivateKey → String
  pub signed_string : PrivateKey → String → MapClaims → Fallible String
  pub parse_url : String → Option String

pub record Issuer (signer : Signer) : Type 0 where
  pub cfg : IssuerConfig
  pub private_key : signer.PrivateKey
  pub kid : String
  pub clients : List ClientDefinition

-- A request: its method, and what `ParseForm` makes of it, where a missing value is empty
pub record FormRequest : Type 0 where
  pub method : String
  pub form : Fallible (String → String)

pub record DiscoveryDocument : Type 0 where
  pub discovered_issuer : String
  pub jwks_uri : String
  pub token_endpoint : String
  pub grant_types_supported : List String
  pub response_types_supported : List String
  pub subject_types_supported : List String
  pub id_token_signing_alg_values_supported : List String
  pub token_endpoint_auth_methods_supported : List String

pub record Jwk : Type 0 where
  pub kty : String
  pub alg : String
  pub use_for : String
  pub jwk_id : String
  pub n : String
  pub e : String

pub record TokenResponse : Type 0 where
  pub access_token : String
  pub id_token : String
  pub token_type : String
  pub expires_in : ℕ
  pub issued_token_type : String

-- `http.Error`, or the JSON that is sent with status 200
pub data Answer : Type 0 where
  http_error : ℕ → String → Answer
  discovery_document : DiscoveryDocument → Answer
  key_set : List Jwk → Answer
  token_response : TokenResponse → Answer
  health : String → Answer

-- The status that is sent
abbrev pub status_of : Answer → ℕ
status_of (http_error status message) = status
status_of _ = 200
