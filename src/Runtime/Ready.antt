-- ===== src/Runtime/Ready.antt =====
-- What a successful start of internal/app/runtime.go has checked.
use golden_path_control_plan.Prelude.{
  sym, ℕ, String, Option, some, none, List, ◌≡◌, refl, subst, is_blank, trim_space, Bool-cases, inl,
  inr,
}
use golden_path_control_plan.Fallible.{done, prefixed, prefixed-done}
use golden_path_control_plan.Stateful.{
  After, Leads, Leads->>=, Leads-lift, Leads-given, Leads-keep, Leads-or_clean, Leads-done,
  prefixed-After,
}
use golden_path_control_plan.Config.Settings.{Config, ObservabilityConfig, DatabaseConfig}
use golden_path_control_plan.Config.{load}
use golden_path_control_plan.Config.Valid.{IsSound, load-IsSound}
use golden_path_control_plan.Effects.{delivered}
use golden_path_control_plan.Auth.Libraries.{Oidc}
use golden_path_control_plan.Auth.Validators.{new_validator}
use golden_path_control_plan.Migrations.Connection.{Outcome, finished, stopped, Session}
use golden_path_control_plan.Migrations.{ensure_compatible, versions}
use golden_path_control_plan.Migrations.Compatible.{ensure_compatible_iff, SameVersions}
use golden_path_control_plan.Runtime.{
  Runtime, check_schema, check_and_validate, setup, log_config, bootstrap, checked,
}
use golden_path_control_plan.Runtime.Limits.{IsOpenedFor, pool_config-IsOpenedFor}
use golden_path_control_plan.Runtime.Process.{Host, Machine, PoolConfig}
use golden_path_control_plan.Runtime.Observability.{start_provider, setup_tracing}
use golden_path_control_plan.Runtime.Pool.{pool_config, open_pool, close_pool, new_pool}

abbrev pub Any : {S : Type 0} → S → Type 0
Any s = Unit {0}

module _ {S : Type 0} (host : Host S) (found : Session S) where
  -- The database is as it was found.
  abbrev pub Found : Machine S → Type 0
  Found m = m.session ≡ found

  start-Found :
      (endpoint : Option String) → Leads Found (start_provider host endpoint) (λ _. Found) Any
  unfolding start_provider
  start-Found endpoint = record { at = λ m h. h }

  tracing-Found :
      (cfg : ObservabilityConfig) → Leads Found (setup_tracing host cfg) (λ _. Found) Any
  unfolding setup_tracing
  tracing-Found cfg = Leads->>= (Leads-keep _ λ m h. tt) λ u.
      elim (Bool-cases (is_blank cfg.otlp_endpoint)) [
        | inl b ↦ rw b (start-Found none)
        | inr b ↦ rw b (
            Leads->>= (Leads-keep _ λ m h. tt)
              λ v. start-Found (some (trim_space cfg.otlp_endpoint)))
      ]

  open-Found :
      (cfg : PoolConfig) → Leads Found (open_pool cfg) (λ p m. (p.made_of ≡ cfg) × Found m) Any
  unfolding open_pool
  open-Found cfg = record { at = λ m h. (refl, h) }

  pub new_pool-Found :
      (cfg : DatabaseConfig)
      → Leads Found (new_pool host cfg) (λ p m. (p.made_of ≡ pool_config cfg) × Found m) Any
  unfolding new_pool
  new_pool-Found cfg = Leads->>= (Leads-keep _ λ m h. tt) λ u.
      Leads->>= (Leads-keep _ λ m h. tt) λ v. Leads->>= (open-Found (pool_config cfg)) λ pool.
        Leads->>= (Leads-or_clean (close_pool pool.number) (λ m h. tt) (Leads-keep _ λ m h. tt))
          λ w. record { at = λ m h. h }

  -- The migrations that are recorded are those of the binary.
  abbrev pub IsCurrent : Type 0
  IsCurrent =
      (rows : List String) × ((found.recorded ≡ some rows)
        × SameVersions host.link (versions host.files) rows)

  module _ (oidc : Oidc) where
    -- What is true of a runtime
    abbrev pub IsReady : oidc.Context → Runtime host oidc → Type 0
    IsReady ctx r =
        IsSound host.os r.config
        × IsOpenedFor r.config.database r.pool.made_of
        × (new_validator oidc host.os ctx r.config.auth ≡ done r.validator)
        × (r.job_max_attempts ≡ r.config.worker.max_attempts)
        × IsCurrent

  module _ (oidc : Oidc) (answered : (k : ℕ) → host.link.delivery k ≡ delivered) where
    checked-Current :
        (x : Outcome (Unit {0}) × Session S) (m : Machine S)
        → (x.0 ≡ finished tt → IsCurrent)
        → After (λ _ _. IsCurrent) Any (checked host oidc x m)
    checked-Current (finished a, s) m h = h refl
    checked-Current (stopped e, s) m h = tt

    check_schema-Current : Leads Found (check_schema host oidc) (λ _ _. IsCurrent) Any
    unfolding check_schema
    check_schema-Current = record {
      at = λ m h. checked-Current _ m (λ e.
          (ensure_compatible_iff host.link answered host.files found).0
            (subst (λ s. (ensure_compatible host.link host.files s).0 ≡ finished tt) h e));
    }

    validate-Current :
        (ctx : oidc.Context) (cfg : Config)
        → Leads Found
            (check_and_validate host oidc ctx cfg)
            (λ v _.
              (prefixed "bootstrap: auth validator: " (new_validator oidc host.os ctx cfg.auth)
                ≡ done v)
              × IsCurrent)
            Any
    unfolding check_and_validate
    validate-Current ctx cfg = Leads->>= check_schema-Current λ u. Leads-lift _ λ m h. tt

    setup-Found : (cfg : Config) → Leads Found (setup host oidc cfg) (λ _. Found) Any
    unfolding setup
    setup-Found cfg = record {
      at = λ m h.
          prefixed-After (λ _. Found) (Any {S = Machine S}) "bootstrap: setup tracing: "
            (setup_tracing host cfg.observability m) ((tracing-Found cfg.observability).at m h);
    }

    log-Leads :
        (P : Type 0) (cfg : Config) → Leads (λ _. P) (log_config host oidc cfg) (λ _ _. P) Any
    unfolding log_config
    log-Leads P cfg = record { at = λ m h. h }

    bootstrap-Leads :
        (ctx : oidc.Context) → Leads Found (bootstrap host oidc ctx) (λ r _. IsReady oidc ctx r) Any
    unfolding bootstrap
    bootstrap-Leads ctx = Leads->>= (Leads-lift (load host.os) λ m h. tt) λ cfg.
        Leads-given λ loaded. Leads->>= (Leads-keep _ λ m h. tt) λ level.
          Leads->>= (Leads-keep _ λ m h. tt) λ metrics. Leads->>= (setup-Found cfg) λ provider.
            Leads->>= (new_pool-Found cfg.database) λ pool. Leads-given λ opened.
              Leads->>=
                (Leads-or_clean (close_pool pool.number) (λ m h. tt) (validate-Current ctx cfg))
                λ validator. Leads->>= (log-Leads _ cfg) λ u. record {
                  at = λ m h. (
                    load-IsSound host.os cfg loaded,
                    subst (IsOpenedFor cfg.database) (sym opened)
                        (pool_config-IsOpenedFor cfg.database (load-IsSound host.os cfg loaded).2),
                    prefixed-done "bootstrap: auth validator: " _ validator h.0,
                    refl,
                    h.1,
                  );
                }

-- Let the database answer. A runtime that a start returns has settings that `Load` accepts, with all that
-- is checked of them; its pool was opened at their URL and with their times, and with their limits of connections exactly if
-- the larger is at most 2147483647; its validator is the one
-- of these settings; it retries jobs as often as they say; and the migrations that the database records
-- are exactly those of the binary.
pub bootstrap-IsReady :
    {S : Type 0} (host : Host S) (oidc : Oidc) (ctx : oidc.Context) (m : Machine S)
    (r : Runtime host oidc) (answered : (k : ℕ) → host.link.delivery k ≡ delivered)
    → (bootstrap host oidc ctx m).0 ≡ done r
    → IsReady host m.session oidc ctx r
bootstrap-IsReady host oidc ctx m r answered e =
    Leads-done (bootstrap-Leads host m.session oidc answered ctx) m refl r e
