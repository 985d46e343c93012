-- ===== src/Runtime/Migrate.antt =====
-- cmd/migrate/main.go: the migrations are applied by a process of their own.
use golden_path_control_plan.Prelude.{ℕ, ◌∷◌, ◌≡◌, refl, All}
use golden_path_control_plan.Fallible.{Fallible, done, failed}
use golden_path_control_plan.Stateful.{
  Stateful, ◌>>=◌, ◌>>◌, lift, Leads, Leads->>=, Leads-keep, Leads-given, Leads-done, After,
}
use golden_path_control_plan.Config.{load}
use golden_path_control_plan.Config.Redaction.{end, field, text}
use golden_path_control_plan.Migrations.Connection.{Outcome, finished, stopped, Session}
use golden_path_control_plan.Migrations.{apply, versions, current_version, or_empty}
use golden_path_control_plan.Migrations.Answered.{IsIn, Works}
use golden_path_control_plan.Migrations.Compatible.{apply-ensure_compatible, ensure_compatible_iff}
use golden_path_control_plan.Effects.{delivered}
use golden_path_control_plan.Auth.Libraries.{Oidc}
use golden_path_control_plan.Runtime.{check_schema, checked}
use golden_path_control_plan.Runtime.Process.{Host, Machine}
use golden_path_control_plan.Runtime.Observability.{new_logger}
use golden_path_control_plan.Runtime.Pool.{new_pool, close_pool}
use golden_path_control_plan.Runtime.Ready.{Any, Found, new_pool-Found, IsCurrent}

module _ {S : Type 0} (host : Host S) where
  abbrev applied : Outcome (Unit {0}) × Session S → Machine S → Fallible (Unit {0}) × Machine S
  applied (finished _, s) m = (done tt, record m { session = s })
  applied (stopped e, s) m = (failed (host.failure_text e), record m { session = s })

  -- `Apply` on a connection of the pool
  unfoldable pub apply_migrations : Stateful (Machine S) (Unit {0})
  apply_migrations m = applied (apply host.link host.files m.session) m

  unfoldable pub log_applied : Stateful (Machine S) (Unit {0})
  log_applied m = (
    done tt,
    record m {
      log =
          ("migrations_applied", field "current_version" (text (current_version host.files)) end)
          ∷ m.log;
    },
  )

  -- The deferred closing of the pool
  unfoldable pub end_with : ℕ → Stateful (Machine S) (Unit {0})
  unfolding close_pool
  end_with number m = (done tt, close_pool number m)

  -- `main`: an error is printed and ends the process at once, with its pool.
  unfoldable pub migrate : Stateful (Machine S) (Unit {0})
  unfolding apply_migrations log_applied end_with new_pool new_logger
  migrate = do
    cfg ← lift (load host.os)
    lift (new_logger host cfg.app_log_level)
    pool ← new_pool host cfg.database
    apply_migrations
    log_applied
    end_with pool.number

module _ {S : Type 0} (host : Host S) (works : Works host.link) (found : Session S)
    (known : All (IsIn (versions host.files)) (or_empty found.recorded)) where
  abbrev Current : Machine S → Type 0
  Current m = IsCurrent host m.session

  applied-Current :
      (x : Outcome (Unit {0}) × Session S) (m : Machine S)
      → IsCurrent host x.1
      → After (λ _. Current) Any (applied host x m)
  applied-Current (finished a, s) m h = h
  applied-Current (stopped e, s) m h = tt

  apply_migrations-Current : Leads (Found host found) (apply_migrations host) (λ _. Current) Any
  unfolding apply_migrations
  apply_migrations-Current = record {
    at = λ m h. applied-Current (apply host.link host.files m.session) m (
        rw h (
          (ensure_compatible_iff host.link works.answered host.files
              (apply host.link host.files found).1).0
            (apply-ensure_compatible host.link works host.files found known).1));
  }

  log-Current : Leads Current (log_applied host) (λ _. Current) Any
  unfolding log_applied
  log-Current = record { at = λ m h. h }

  end_with-Current : (n : ℕ) → Leads Current (end_with host n) (λ _. Current) Any
  unfolding end_with
  end_with-Current n = record { at = λ m h. h }

  migrate-Leads : Leads (Found host found) (migrate host) (λ _. Current) Any
  unfolding migrate
  migrate-Leads = Leads->>= (Leads-keep _ λ m h. tt) λ cfg.
      Leads->>= (Leads-keep _ λ m h. tt) λ level.
        Leads->>= (new_pool-Found host found cfg.database) λ pool. Leads-given λ opened.
          Leads->>= apply_migrations-Current
            λ u. Leads->>= log-Current λ v. end_with-Current pool.number

module _ {S : Type 0} (host : Host S) (oidc : Oidc) where
  checked-done :
      (x : Outcome (Unit {0}) × Session S) (m : Machine S)
      → x.0 ≡ finished tt
      → (checked host oidc x m).0 ≡ done tt
  checked-done (finished a, s) m e = refl
  checked-done (stopped f, s) m e = cc

  check_schema-Current :
      (m : Machine S)
      → ((k : ℕ) → host.link.delivery k ≡ delivered)
      → IsCurrent host m.session
      → (check_schema host oidc m).0 ≡ done tt
  unfolding check_schema
  check_schema-Current m answered h =
      checked-done _ m ((ensure_compatible_iff host.link answered host.files m.session).1 h)

  -- Let the database answer, let every script run, and let the database record no migration that the
  -- binary does not have. After a run of the migrations that succeeds, the migrations that the database
  -- records are exactly those of the binary, and a start that meets this database passes the check of
  -- its schema.
  pub migrate-check_schema :
      Works host.link
      → (m : Machine S) → All (IsIn (versions host.files)) (or_empty m.session.recorded)
      → (migrate host m).0 ≡ done tt
      → IsCurrent host (migrate host m).1.session
        × ((check_schema host oidc (migrate host m).1).0 ≡ done tt)
  migrate-check_schema works m known e =
      let h = Leads-done (migrate-Leads host works m.session known) m refl tt e in
      (h, check_schema-Current (migrate host m).1 works.answered h)
