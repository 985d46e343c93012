-- ===== src/Runtime/Resources.antt =====
-- The pools and the providers of traces that internal/app/runtime.go takes and gives back.
use golden_path_control_plan.Prelude.{
  String, Option, List, ◌∷◌, ◌≡◌, refl, ◌∙◌, ap, ==_refl, some, none, is_blank, trim_space,
  Bool-cases, inl, inr,
}
use golden_path_control_plan.Fallible.{Fallible, done, failed}
use golden_path_control_plan.Stateful.{
  After, Leads, Leads->>=, Leads-lift, Leads-given, Leads-keep, prefixed-After, Leads-or_clean,
}
use golden_path_control_plan.Config.Settings.{Config, ObservabilityConfig, DatabaseConfig}
use golden_path_control_plan.Auth.Libraries.{Oidc}
use golden_path_control_plan.Migrations.Connection.{Outcome, finished, stopped, Session}
use golden_path_control_plan.Runtime.{
  Runtime, check_schema, check_and_validate, setup, log_config, bootstrap, close, checked,
}
use golden_path_control_plan.Runtime.Process.{Host, Machine, Resource, PoolConfig, remove}
use golden_path_control_plan.Runtime.Observability.{start_provider, setup_tracing}
use golden_path_control_plan.Runtime.Pool.{pool_config, open_pool, close_pool, new_pool}

-- The pools and providers that are there
abbrev Has :
    {S : Type 0} → List (Resource PoolConfig) → List (Resource (Option String)) → Machine S → Type 0
Has pools providers m = (m.pools ≡ pools) × (m.providers ≡ providers)

abbrev HasPools : {S : Type 0} → List (Resource PoolConfig) → Machine S → Type 0
HasPools pools m = m.pools ≡ pools

remove-first :
    {A : Type 0} (r : Resource A) (rs : List (Resource A)) → remove r.number (r ∷ rs) ≡ rs
remove-first r rs = rw (==_refl r.number) refl

module _ {S : Type 0} (host : Host S) (pools : List (Resource PoolConfig))
    (providers : List (Resource (Option String))) where
  start-Leads :
      (endpoint : Option String)
      → Leads
          (Has pools providers)
          (start_provider host endpoint)
          (λ p. Has pools (p ∷ providers))
          (HasPools pools)
  unfolding start_provider
  start-Leads endpoint = record {
    at = λ m (p, q). (
      p,
      ap
          (λ (ps : List (Resource (Option String))).
            record { number = m.made; made_of = endpoint } ∷ ps)
          q,
    );
  }

  tracing-Leads :
      (cfg : ObservabilityConfig)
      → Leads
          (Has pools providers)
          (setup_tracing host cfg)
          (λ p. Has pools (p ∷ providers))
          (HasPools pools)
  unfolding setup_tracing
  tracing-Leads cfg = Leads->>= (Leads-lift _ (λ m h. h.0)) λ u. Leads-given λ e.
      elim (Bool-cases (is_blank cfg.otlp_endpoint)) [
        | inl b ↦ rw b (start-Leads none)
        | inr b ↦ rw b (
            Leads->>= (Leads-lift _ (λ m h. h.0))
              λ v. Leads-given λ e'. start-Leads (some (trim_space cfg.otlp_endpoint)))
      ]

  open-Leads :
      (cfg : PoolConfig)
      → Leads
          (Has {S = S} pools providers)
          (open_pool cfg)
          (λ p. Has (p ∷ pools) providers)
          (HasPools pools)
  unfolding open_pool
  open-Leads cfg = record {
    at = λ m (p, q). (
      ap (λ (ps : List (Resource PoolConfig)). record { number = m.made; made_of = cfg } ∷ ps) p,
      q,
    );
  }

  -- Closing the pool that was opened last
  closed :
      (p : Resource PoolConfig) (m : Machine S)
      → HasPools (p ∷ pools) m
      → HasPools pools (close_pool p.number m)
  unfolding close_pool
  closed p m h = ap (remove p.number) h ∙ remove-first p pools

  new_pool-Leads :
      (cfg : DatabaseConfig)
      → Leads
          (Has pools providers)
          (new_pool host cfg)
          (λ p. Has (p ∷ pools) providers)
          (HasPools pools)
  unfolding new_pool
  new_pool-Leads cfg = Leads->>= (Leads-lift _ (λ m h. h.0)) λ u. Leads-given λ e.
      Leads->>= (Leads-lift _ (λ m h. h.0)) λ u'. Leads-given λ e'.
        Leads->>= (open-Leads (pool_config cfg)) λ pool.
          Leads->>=
            (Leads-or_clean (close_pool pool.number) (closed pool) (Leads-lift _ (λ m h. h.0)))
            λ v. Leads-given λ e''. record { at = λ m h. h }

module _ {S : Type 0} (host : Host S) (oidc : Oidc) where
  module _ (pools : List (Resource PoolConfig)) (providers : List (Resource (Option String))) where
    checked-After :
        (x : Outcome (Unit {0}) × Session S) (m : Machine S)
        → Has pools providers m
        → After (λ _. Has pools providers) (HasPools pools) (checked host oidc x m)
    checked-After (finished a, s) m h = h
    checked-After (stopped e, s) m h = h.0

    check_schema-Leads :
        Leads
          (Has pools providers)
          (check_schema host oidc)
          (λ _. Has pools providers)
          (HasPools pools)
    unfolding check_schema
    check_schema-Leads = record { at = λ m h. checked-After _ m h }

    validate-Leads :
        (ctx : oidc.Context) (cfg : Config)
        → Leads
            (Has pools providers)
            (check_and_validate host oidc ctx cfg)
            (λ _. Has pools providers)
            (HasPools pools)
    unfolding check_and_validate
    validate-Leads ctx cfg = Leads->>= check_schema-Leads λ u. Leads-keep _ (λ m h. h.0)

    setup-Leads :
        (cfg : Config)
        → Leads
            (Has pools providers)
            (setup host oidc cfg)
            (λ p. Has pools (p ∷ providers))
            (HasPools pools)
    unfolding setup
    setup-Leads cfg = record {
      at = λ m h.
          prefixed-After (λ p. Has {S = S} pools (p ∷ providers)) (HasPools {S = S} pools)
            "bootstrap: setup tracing: " (setup_tracing host cfg.observability m)
            ((tracing-Leads host pools providers cfg.observability).at m h);
    }

    -- The logging of the settings does not fail.
    log-Leads :
        (E : Machine S → Type 0) (cfg : Config)
        → Leads (Has pools providers) (log_config host oidc cfg) (λ _. Has pools providers) E
    unfolding log_config
    log-Leads E cfg = record { at = λ m h. h }

    -- After a start
    abbrev Started : Runtime host oidc → Machine S → Type 0
    Started r = Has (r.pool ∷ pools) (r.provider ∷ providers)

  module _ (pools : List (Resource PoolConfig)) (providers : List (Resource (Option String))) where
    bootstrap-Leads :
        (ctx : oidc.Context)
        → Leads
            (Has pools providers)
            (bootstrap host oidc ctx)
            (Started pools providers)
            (HasPools pools)
    unfolding bootstrap
    bootstrap-Leads ctx = Leads->>= (Leads-keep _ λ m h. h.0) λ cfg.
        Leads->>= (Leads-keep _ λ m h. h.0) λ level. Leads->>= (Leads-keep _ λ m h. h.0) λ metrics.
          Leads->>= (setup-Leads pools providers cfg) λ provider.
            Leads->>= (new_pool-Leads host pools (provider ∷ providers) cfg.database) λ pool.
              Leads->>=
                (Leads-or_clean (close_pool pool.number) (closed host pools providers pool)
                  (validate-Leads (pool ∷ pools) (provider ∷ providers) ctx cfg))
                λ validator.
                  Leads->>= (log-Leads (pool ∷ pools) (provider ∷ providers) _ cfg)
                    λ u. record { at = λ m h. h }

  -- A failed start leaves the open pools as they were. One that succeeds has opened the pool of the
  -- result, and `Close` on what it left closes that pool and stops its provider, whether or not the
  -- provider reports an error.
  abbrev pub IsBalanced : Machine S → Fallible (Runtime host oidc) × Machine S → Type 0
  IsBalanced m (failed e, m') = m'.pools ≡ m.pools
  IsBalanced m (done r, m') =
      (m'.pools ≡ r.pool ∷ m.pools)
      × ((close host oidc r m').1.pools ≡ m.pools)
      × ((close host oidc r m').1.providers ≡ m.providers)

  balanced :
      (m : Machine S) (x : Fallible (Runtime host oidc) × Machine S)
      → After (Started m.pools m.providers) (HasPools m.pools) x
      → IsBalanced m x
  unfolding close close_pool
  balanced m (failed e, m') h = h
  balanced m (done r, m') h = (
    h.0,
    ap (remove r.pool.number) h.0 ∙ remove-first r.pool m.pools,
    ap (remove r.provider.number) h.1 ∙ remove-first r.provider m.providers,
  )

  -- A start that fails leaves as many pools open as there were before it. One that succeeds leaves
  -- its pool open beside these, and Close then closes this pool and stops the provider of traces that
  -- the start made, and no other.
  pub bootstrap-IsBalanced :
      (ctx : oidc.Context) (m : Machine S) → IsBalanced m (bootstrap host oidc ctx m)
  bootstrap-IsBalanced ctx m =
      balanced m _ ((bootstrap-Leads m.pools m.providers ctx).at m (refl, refl))
