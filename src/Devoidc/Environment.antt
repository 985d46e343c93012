-- ===== src/Devoidc/Environment.antt =====
-- cmd/devoidc/main.go: the settings of the issuer are read from the environment.
use golden_path_control_plan.Prelude.{
  String, false, ◌≡◌, refl, Bool-cases, inl, inr, pos, str_eq, trim_space, trim_space-trim_space,
  is_blank, leb_ℤ, if◌then◌else◌,
}
use golden_path_control_plan.Fallible.{
  Fallible, done, ◌>>=◌, prefixed, Yields, Yields-any, Yields-done,
}
use golden_path_control_plan.Config.Settings.{Duration, Platform, seconds}
use golden_path_control_plan.Devoidc.{with_defaults}
use golden_path_control_plan.Devoidc.Settings.{IssuerConfig}

module _ (os : Platform) where
  unfoldable pub default_value : String → String → String
  default_value key fallback =
      let value = trim_space (os.getenv key) in if str_eq value "" then fallback else value

  unfoldable pub load_ttl : Fallible Duration
  load_ttl =
      let raw = trim_space (os.getenv "OIDC_DEV_TOKEN_TTL") in
      if str_eq raw ""
      then done (seconds 3600)
      else prefixed "OIDC_DEV_TOKEN_TTL must be a valid duration: " (os.parse_duration raw)

  -- `loadConfig`
  unfoldable pub load_config : Fallible IssuerConfig
  unfolding load_ttl default_value
  load_config = do
    ttl ← load_ttl
    done record {
      addr = default_value "OIDC_DEV_ADDR" ":9000";
      issuer_url = default_value "OIDC_DEV_ISSUER_URL" "http://localhost:9000";
      audience = default_value "OIDC_DEV_AUDIENCE" "golden-path-control-plane";
      token_ttl = ttl;
      engineer_subject = default_value "OIDC_DEV_ENGINEER_SUBJECT" "developer@example.com";
      platform_admin_subject =
          default_value "OIDC_DEV_PLATFORM_ADMIN_SUBJECT" "platform-admin@example.com";
    }

  -- A text of the environment is never blank.
  default_value-filled :
      (key fallback : String)
      → is_blank fallback ≡ false
      → is_blank (default_value key fallback) ≡ false
  unfolding default_value
  default_value-filled key fallback h =
      let value = trim_space (os.getenv key) in
      elim (Bool-cases (str_eq value "")) [
        | inl e ↦ rw e h
        | inr n ↦ rw (n, trim_space-trim_space (os.getenv key)) n
      ]

  -- The defaults of `New` change nothing but a lifetime that is not positive.
  pub load_config-with_defaults : Yields load_config (λ c.
      with_defaults c
      ≡ record c { token_ttl = if leb_ℤ c.token_ttl (pos 0) then seconds 3600 else c.token_ttl })
  unfolding load_config with_defaults trim_space
  load_config-with_defaults = Yields-any _ λ ttl h. Yields-done (
      rw
        (
          default_value-filled "OIDC_DEV_ADDR" ":9000" refl,
          default_value-filled "OIDC_DEV_ISSUER_URL" "http://localhost:9000" refl,
          default_value-filled "OIDC_DEV_AUDIENCE" "golden-path-control-plane" refl,
          default_value-filled "OIDC_DEV_ENGINEER_SUBJECT" "developer@example.com" refl,
          default_value-filled "OIDC_DEV_PLATFORM_ADMIN_SUBJECT" "platform-admin@example.com" refl,
        )
        refl)
