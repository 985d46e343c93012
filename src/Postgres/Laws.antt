-- ===== src/Postgres/Laws.antt =====
-- What single statements of internal/postgres promise.
use golden_path_control_plan.Prelude.{◌≤◌, ◌≡◌, arith, ℤ, pos, negsuc, ◌≤ℤ◌}
use golden_path_control_plan.Postgres.Audit.{clamp_limit}

-- A client's limit becomes 20 if it is below 1, 100 if it is above 100, and is otherwise kept: what
-- is asked for lies between 1 and 100.
pub clamp_limit_lem :
    (limit : ℤ)
    → ((1 ≤ clamp_limit limit) × (clamp_limit limit ≤ 100))
      × ((pos 1 ≤ℤ limit) × (limit ≤ℤ pos 100) → pos (clamp_limit limit) ≡ limit)
unfolding clamp_limit
clamp_limit_lem (pos n) = ground arith
clamp_limit_lem (negsuc n) = ground arith
