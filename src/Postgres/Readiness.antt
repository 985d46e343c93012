-- ===== src/Postgres/Readiness.antt =====
-- Readiness evidence: `SaveReadinessEvaluation` and `GetLatestScorecard` of
-- internal/postgres/services.go, and `GetLatestSnapshot` of internal/postgres/candidates.go.
use golden_path_control_plan.Prelude.{
  ◌==◌, not, ◌||◌, Option, none, some, List, [], ◌∷◌, ◌++◌, if◌then◌else◌, any, filter, sort_by,
  ltb,
}
use golden_path_control_plan.Domain.Models.{
  Uuid, ReadinessSnapshot, ReadinessCheckResult, Scorecard,
}
use golden_path_control_plan.Errors.{
  Result, ok, err, not_found, unique_violation, constraint_violation,
}
use golden_path_control_plan.Effects.{
  Env, App, Statement, pure, ◌>>=◌, ◌>>◌, exec, exec_in, nothing, transaction,
}
use golden_path_control_plan.Effects.Tables.{Database}
use golden_path_control_plan.Postgres.Services.{has_service, reading, get_service}

unfoldable pub insert_snapshot : ReadinessSnapshot → Statement (Unit {0})
insert_snapshot s k db =
    if ltb 100 s.score
    then err constraint_violation
    else if any (λ t. t.id == s.id) db.snapshots
    then err unique_violation
    else if not (has_service s.service_id db) || not (any (λ j. j.id == s.job_id) db.jobs)
    then err constraint_violation
    else ok (tt, record db { snapshots = db.snapshots ++ s ∷ [] })

unfoldable pub insert_check_result : ReadinessCheckResult → Statement (Unit {0})
insert_check_result c k db =
    if any (λ d. d.id == c.id) db.check_results
    then err unique_violation
    else if not (any (λ s. s.id == c.snapshot_id) db.snapshots) || not (has_service c.service_id db)
    then err constraint_violation
    else ok (tt, record db { check_results = db.check_results ++ c ∷ [] })

-- The batch: the first failure ends it.
unfoldable pub insert_check_results : Env → List ReadinessCheckResult → App (Unit {0})
insert_check_results env [] = exec_in env nothing
insert_check_results env (c ∷ checks) = do
  exec_in env (insert_check_result c)
  insert_check_results env checks

unfoldable pub save_readiness_evaluation :
    Env → ReadinessSnapshot → List ReadinessCheckResult → App (Unit {0})
save_readiness_evaluation env snapshot checks =
    transaction env (do exec_in env (insert_snapshot snapshot); insert_check_results env checks)

-- ORDER BY evaluated_at DESC LIMIT 1: where two are as late, the first of the table.
unfoldable pub latest : List ReadinessSnapshot → Option ReadinessSnapshot
latest [] = none
latest (s ∷ ss) = elim (latest ss) [
  | none ↦ some s
  | some t ↦ if ltb s.evaluated_at t.evaluated_at then some t else some s
]

abbrev pub or_not_found {ℓ} : {A : Type ℓ} → Option A → Result A
or_not_found none = err not_found
or_not_found (some a) = ok a

abbrev pub snapshots_of : Uuid → Database → List ReadinessSnapshot
snapshots_of service_id db = filter (λ s. s.service_id == service_id) db.snapshots

unfoldable pub select_latest_snapshot : Uuid → Statement ReadinessSnapshot
unfolding latest
select_latest_snapshot service_id k db =
    reading (or_not_found (latest (snapshots_of service_id db))) db

unfoldable pub get_latest_snapshot : Env → Uuid → App ReadinessSnapshot
get_latest_snapshot env service_id = exec env (select_latest_snapshot service_id)

unfoldable pub select_check_results : Env → Uuid → Statement (List ReadinessCheckResult)
select_check_results env snapshot_id k db = ok (
  sort_by (λ c d. env.text_le c.check_name d.check_name)
      (filter (λ c. c.snapshot_id == snapshot_id) db.check_results),
  db,
)

unfoldable pub get_latest_scorecard : Env → Uuid → App Scorecard
unfolding get_latest_snapshot
get_latest_scorecard env service_id = do
  service ← get_service env service_id
  snapshot ← get_latest_snapshot env service_id
  checks ← exec env (select_check_results env snapshot.id)
  pure (record { service = service; snapshot = snapshot; checks = checks })
