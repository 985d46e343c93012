-- ===== src/Devoidc/Laws.antt =====
-- The tokens of internal/devoidc under the validator of internal/auth/oidc.go.
use golden_path_control_plan.Prelude.{
  Bool, ◌&&◌, ◌*◌, any, ltb, leb, String, Bool-cases, true, ◌≡◌, ◌≢◌, refl, inl, inr, str_eq,
  eq_iff, is_blank, is_blank-ne-empty,
}
use golden_path_control_plan.Fallible.{
  Fallible, done, Yields, Yields-done, Yields-any, Yields-insist,
}
use golden_path_control_plan.Auth.{Instant, role_text}
use golden_path_control_plan.Auth.Libraries.{Oidc}
use golden_path_control_plan.Devoidc.{with_defaults, clients_of, new_issuer, subject_for}
use golden_path_control_plan.Devoidc.Settings.{
  IssuerConfig, TokenClaims, ClientDefinition, MapClaims, Signer, Issuer,
}

-- What `Verify` of go-oidc checks of the claims, for the issuer's URL and the client of a verifier
abbrev pub is_current : MapClaims → String → String → Instant → Bool
is_current c url client t =
    str_eq c.iss url
    && any (str_eq client) c.aud
    && ltb t (c.exp * 1000000000)
    && leb (c.nbf * 1000000000) t

-- What go-oidc documents of a token that is signed with a key among those that a verifier knows: it
-- verifies, if its claims pass the checks, and they are read as they were signed.
pub record Verifies (signer : Signer) (oidc : Oidc) (issuer : Issuer signer) (keys : oidc.KeySet)
    (claims : MapClaims) : Type 0 where
  pub raw : String
  pub signed : signer.signed_string issuer.private_key issuer.kid claims ≡ done raw
  pub accepted :
      (url audience : String) (t : Instant)
      → is_current claims url audience t ≡ true
      → (id_token : oidc.IdToken) × (oidc.verify (oidc.new_verifier url keys audience) t raw
          ≡ done id_token)
        × (oidc.token_claims id_token
            ≡ done record { oidc_role = claims.role_claim; sub = claims.sub; iss = claims.iss })

url_is_filled : (c : IssuerConfig) → (with_defaults c).issuer_url ≢ ""
unfolding with_defaults
url_is_filled c = elim (Bool-cases (is_blank c.issuer_url)) [
  | inl h ↦ rw h (λ e. cc)
  | inr n ↦ rw n (λ e. cc ((eq_iff c.issuer_url "").1 e, is_blank-ne-empty c.issuer_url n))
]

module _ (signer : Signer) where
  abbrev pub IsNew : Issuer signer → Type 0
  IsNew i = (i.clients ≡ clients_of i.cfg) × (i.cfg.issuer_url ≢ "")

  pub new_issuer-IsNew : (c : IssuerConfig) → Yields (new_issuer signer c) IsNew
  unfolding new_issuer
  new_issuer-IsNew c =
      Yields-insist _ λ u. Yields-any _ λ key _. Yields-done (refl, url_is_filled c)

-- What a request for a token of a client asks to be signed
abbrev pub asked :
    (signer : Signer) (issuer : Issuer signer) → ClientDefinition → (String → String) → TokenClaims
asked signer issuer client form = record {
  subject = subject_for signer issuer client (form "subject");
  role = role_text client.client_role;
  ttl = issuer.cfg.token_ttl;
}
