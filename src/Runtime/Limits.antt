-- ===== src/Runtime/Limits.antt =====
-- The limits of the pool of internal/postgres/postgres.go, which are 32 bits wide.
use golden_path_control_plan.Prelude.{ℕ, ◌<◌, ℤ, pos, negsuc, ◌≤ℤ◌, ◌≡◌, ◌↔◌, refl, arith}
use golden_path_control_plan.Config.Settings.{DatabaseConfig}
use golden_path_control_plan.Config.Sound.{IsPool}
use golden_path_control_plan.Runtime.Process.{PoolConfig}
use golden_path_control_plan.Runtime.Pool.{to_int32, pool_config}

to_int32-small : (n : ℕ) → n < 2147483648 → to_int32 (pos n) ≡ pos n
unfolding to_int32
to_int32-small n h = ground arith

to_int32-fits : (n : ℕ) → to_int32 (pos n) ≡ pos n → n < 2147483648
unfolding to_int32
to_int32-fits n h = ground arith

limits_iff :
    (most least : ℤ)
    → pos 0 ≤ℤ least
    → least ≤ℤ most
    → ((to_int32 most ≡ most) × (to_int32 least ≡ least)) ↔ (most ≤ℤ pos 2147483647)
limits_iff (pos m) (pos l) h k = (
  λ (e, f). omega (arith, to_int32-fits m e),
  λ s. (to_int32-small m (omega arith), to_int32-small l (omega arith)),
)
limits_iff (pos m) (negsuc l) h k = absurd (omega arith)
limits_iff (negsuc m) (pos l) h k = absurd (omega arith)
limits_iff (negsuc m) (negsuc l) h k = absurd (omega arith)

-- Of settings whose idle connections are not negative and at most as many as the open ones, as `Load`
-- checks, the pool gets the two numbers as they are set exactly if the open ones are at most
-- 2147483647.
pub pool_config_iff :
    (cfg : DatabaseConfig)
    → IsPool cfg
    → (((pool_config cfg).max_conns ≡ cfg.max_open_conns)
        × ((pool_config cfg).min_conns ≡ cfg.min_idle_conns))
      ↔ (cfg.max_open_conns ≤ℤ pos 2147483647)
unfolding pool_config
pool_config_iff cfg h = limits_iff cfg.max_open_conns cfg.min_idle_conns h.2 h.3

-- A pool that was opened for some settings: at their URL, with their times, and with their limits
-- exactly if they fit.
abbrev pub IsOpenedFor : DatabaseConfig → PoolConfig → Type 0
IsOpenedFor d p =
    (p.conn_string ≡ d.url)
    × (p.max_conn_lifetime ≡ d.max_conn_lifetime)
    × (p.max_conn_idle_time ≡ d.max_conn_idle_time)
    × (((p.max_conns ≡ d.max_open_conns) × (p.min_conns ≡ d.min_idle_conns))
        ↔ (d.max_open_conns ≤ℤ pos 2147483647))

pub pool_config-IsOpenedFor : (d : DatabaseConfig) → IsPool d → IsOpenedFor d (pool_config d)
unfolding pool_config
pool_config-IsOpenedFor d h = (refl, refl, refl, pool_config_iff d h)
