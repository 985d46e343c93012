-- ===== src/Runtime/Pool.antt =====
-- `NewPool` of internal/postgres/postgres.go.
use golden_path_control_plan.Prelude.{ℕ, ◌+◌, ◌-◌, ◌%◌, ℤ, pos, negsuc, ltb, if◌then◌else◌, ◌∷◌}
use golden_path_control_plan.Fallible.{done}
use golden_path_control_plan.Stateful.{Stateful, ◌>>=◌, ◌>>◌, check, lift, or_clean}
use golden_path_control_plan.Domain.Validation.{wrap}
use golden_path_control_plan.Config.Settings.{DatabaseConfig}
use golden_path_control_plan.Runtime.Process.{Host, Machine, PoolConfig, Resource, remove}

-- The conversion `int32(n)`
unfoldable pub to_int32 : ℤ → ℤ
to_int32 (pos n) =
    let r = n % 4294967296 in if ltb r 2147483648 then pos r else negsuc (4294967295 - r)
to_int32 (negsuc n) =
    let r = n % 4294967296 in if ltb r 2147483648 then negsuc r else pos (4294967295 - r)

unfoldable pub pool_config : DatabaseConfig → PoolConfig
unfolding to_int32
pool_config cfg = record {
  conn_string = cfg.url;
  max_conns = to_int32 cfg.max_open_conns;
  min_conns = to_int32 cfg.min_idle_conns;
  max_conn_lifetime = cfg.max_conn_lifetime;
  max_conn_idle_time = cfg.max_conn_idle_time;
}

module _ {S : Type 0} where
  unfoldable pub open_pool : PoolConfig → Stateful (Machine S) (Resource PoolConfig)
  open_pool cfg m =
      let pool : Resource PoolConfig = record { number = m.made; made_of = cfg } in
      (done pool, record m { pools = pool ∷ m.pools; made = m.made + 1 })

  -- `pool.Close`
  unfoldable pub close_pool : ℕ → Machine S → Machine S
  close_pool number m = record m { pools = remove number m.pools }

  unfoldable pub new_pool : Host S → DatabaseConfig → Stateful (Machine S) (Resource PoolConfig)
  unfolding pool_config open_pool close_pool or_clean
  new_pool host cfg = do
    check (wrap "postgres: parse database url: " (host.parse_pool_url cfg.url))
    check (wrap "postgres: connect: " (host.connect (pool_config cfg)))
    pool ← open_pool (pool_config cfg)
    or_clean (close_pool pool.number) (check (wrap "postgres: ping: " (host.ping pool.number)))
    lift (done pool)
