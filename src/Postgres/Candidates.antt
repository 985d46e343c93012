-- ===== src/Postgres/Candidates.antt =====
-- internal/postgres/candidates.go: deployment candidates and the decisions on them.
use golden_path_control_plan.Prelude.{
  ℕ, suc, zero, ◌==◌, String, Bool, true, false, not, ◌&&◌, ◌||◌, Option, none, some, [], ◌∷◌, ◌++◌,
  if◌then◌else◌, any, filter, find?, update_where, length,
}
use golden_path_control_plan.Domain.Models.{
  Uuid, Time, CandidateStatus, pending, DeploymentCandidate, PromotionDecision, ReadinessSnapshot,
}
use golden_path_control_plan.Errors.{
  Result, ok, err, not_found, lost_row, unique_violation, constraint_violation,
}
use golden_path_control_plan.Effects.{
  Env, App, Statement, pure, raise, ◌>>=◌, ◌>>◌, now, exec, exec_in, transaction,
}
use golden_path_control_plan.Effects.Tables.{Database}
use golden_path_control_plan.Postgres.Services.{has_service, reading}

-- A reference that may be NULL
abbrev pub has_snapshot : Option Uuid → Database → Bool
has_snapshot none db = true
has_snapshot (some id) db = any (λ s. s.id == id) db.snapshots

unfoldable pub insert_candidate : DeploymentCandidate → Statement (Unit {0})
insert_candidate c k db =
    if any (λ d. d.id == c.id) db.candidates
    then err unique_violation
    else if not (has_service c.service_id db) || not (has_snapshot c.last_snapshot_id db)
    then err constraint_violation
    else ok (tt, record db { candidates = db.candidates ++ c ∷ [] })

abbrev pub join_decision : Option DeploymentCandidate → Database → Result DeploymentCandidate
join_decision none db = err not_found
join_decision (some c) db =
    ok (record c { promotion_decision = find? (λ p. p.candidate_id == c.id) db.decisions })

unfoldable pub find_candidate : Uuid → Database → Result DeploymentCandidate
find_candidate id db = join_decision (find? (λ c. c.id == id) db.candidates) db

unfoldable pub select_candidate : Uuid → Statement DeploymentCandidate
select_candidate id k db = reading (find_candidate id db) db

unfoldable pub get_deployment_candidate : Env → Uuid → App DeploymentCandidate
get_deployment_candidate env id = exec env (select_candidate id)

unfoldable pub create_deployment_candidate : Env → DeploymentCandidate → App DeploymentCandidate
unfolding get_deployment_candidate
create_deployment_candidate env c = do
  exec env (insert_candidate c)
  get_deployment_candidate env c.id

abbrev pub is_pending : CandidateStatus → Bool
is_pending pending = true
is_pending _ = false

-- The rows that `UPDATE deployment_candidates` changes
abbrev pub decidable : Uuid → DeploymentCandidate → Bool
decidable id c = c.id == id && is_pending c.status

unfoldable pub decide :
    CandidateStatus → String → Option Uuid → Time → DeploymentCandidate → DeploymentCandidate
decide status reason snapshot_id at c = record c {
  status = status;
  decision_reason = reason;
  last_snapshot_id = snapshot_id;
  updated_at = at;
  evaluated_at = some at;
}

-- Returns the number of rows affected.
unfoldable pub update_candidate : Uuid → CandidateStatus → String → Option Uuid → Time → Statement ℕ
update_candidate id status reason snapshot_id at k db =
    let affected = length (filter (decidable id) db.candidates) in
    if not (has_snapshot snapshot_id db) && not (affected == 0)
    then err constraint_violation
    else ok (
      affected,
      record db {
        candidates =
            update_where (decidable id) (decide status reason snapshot_id at) db.candidates;
      },
    )

-- commandTag.RowsAffected() != 1
abbrev pub expect_one : ℕ → App (Unit {0})
expect_one (suc zero) = pure tt
expect_one _ = raise lost_row

-- What ON CONFLICT DO UPDATE sets in the row that is there
unfoldable pub replace_decision : PromotionDecision → PromotionDecision → PromotionDecision
replace_decision p row = record row {
  snapshot_id = p.snapshot_id;
  decision = p.decision;
  summary = p.summary;
  created_at = p.created_at;
}

unfoldable pub upsert_decision : PromotionDecision → Statement (Unit {0})
upsert_decision p k db =
    if is_pending p.decision
      || not (has_snapshot p.snapshot_id db)
      || not (any (λ c. c.id == p.candidate_id) db.candidates)
    then err constraint_violation
    else if any (λ q. q.candidate_id == p.candidate_id) db.decisions
    then ok (
      tt,
      record db {
        decisions =
            update_where (λ q. q.candidate_id == p.candidate_id) (replace_decision p) db.decisions;
      },
    )
    else if any (λ q. q.id == p.id) db.decisions
    then err unique_violation
    else ok (tt, record db { decisions = db.decisions ++ p ∷ [] })

abbrev pub snapshot_id_of : Option ReadinessSnapshot → Option Uuid
snapshot_id_of none = none
snapshot_id_of (some s) = some s.id

unfoldable pub save_promotion_decision :
    Env
    → Uuid
    → Option ReadinessSnapshot
    → PromotionDecision
    → CandidateStatus
    → String
    → App DeploymentCandidate
unfolding get_deployment_candidate
save_promotion_decision env id snapshot decision status reason = do
  transaction env (do
    at ← now env
    affected ← exec_in env (update_candidate id status reason (snapshot_id_of snapshot) at)
    expect_one affected
    exec_in env (upsert_decision decision))
  get_deployment_candidate env id
