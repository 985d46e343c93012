-- ===== src/Examples/Rules.antt =====
-- What is validated, judged and refused, on the example data.
use golden_path_control_plan.Prelude.{
  ◌+◌, ◌*◌, ◌≤◌, ◌≡◌, refl, ◌≢◌, ◌↔◌, inr, true, false, none, [], ◌∷◌,
}
use golden_path_control_plan.Domain.Models.{ready, degraded, blocked}
use golden_path_control_plan.Domain.Inputs.{DeploymentCandidateInput}
use golden_path_control_plan.Domain.Validation.{
  validate_service, validate_patch, validate_candidate,
}
use golden_path_control_plan.Domain.Validation.Accepts.{
  IsValidService, IsValidPatch, IsValidCandidate,
}
use golden_path_control_plan.Domain.Validation.Laws.{service_iff, patch_iff, candidate_iff}
use golden_path_control_plan.Platformchecks.{evaluate}
use golden_path_control_plan.Platformchecks.Tally.{gap}
use golden_path_control_plan.Platformchecks.Verdict.{
  MissesRequired, MissesAdvised, state_iff, score_bounds,
}
use golden_path_control_plan.Platformchecks.Registered.{registered_verdict}
use golden_path_control_plan.Errors.{ok}
use golden_path_control_plan.Effects.{World, ◌>>=◌}
use golden_path_control_plan.Postgres.Readiness.{get_latest_snapshot}
use golden_path_control_plan.ControlPlane.{attempt, Ruling, ruling}
use golden_path_control_plan.System.Gate.Verdicts.{IsVerdict, get_latest_snapshot-IsVerdict}
use golden_path_control_plan.System.{submit, step}
use golden_path_control_plan.System.Refusals.{step-refuses}
use golden_path_control_plan.ControlPlane.Rules.{IsRefused}
use golden_path_control_plan.Examples.Data.{
  parsers, env, input, with_metrics, service, snapshot, developer, candidate_input, start,
}
use golden_path_control_plan.Examples.Runs.{input-IsValid, service-IsPercent}

service_iff_example : (validate_service parsers input ≡ none) ↔ IsValidService parsers input
service_iff_example = service_iff parsers input

patch_iff_example : (validate_patch parsers with_metrics ≡ none) ↔ IsValidPatch parsers with_metrics
patch_iff_example = patch_iff parsers with_metrics

candidate_iff_example :
    (validate_candidate parsers candidate_input ≡ none) ↔ IsValidCandidate parsers candidate_input
candidate_iff_example = candidate_iff parsers candidate_input

state_iff_example :
    let state = (evaluate (λ k. k) service 10 600).snapshot.state in
    ((state ≡ blocked) ↔ MissesRequired service)
    × ((state ≡ degraded) ↔ ((¬ MissesRequired service) × MissesAdvised service))
    × ((state ≡ ready) ↔ ((¬ MissesRequired service) × (¬ MissesAdvised service)))
state_iff_example = state_iff (λ k. k) service 10 600

score_bounds_example :
    let r = (evaluate (λ k. k) service 10 600).snapshot in
    (r.score ≤ 100)
    × (r.state ≡ ready → r.score ≡ 100)
    × (r.state ≡ degraded → (50 ≤ r.score) × (r.score ≤ 90))
    × (r.state ≡ blocked → r.score ≤ 70)
score_bounds_example = score_bounds (λ k. k) service 10 600

registered_verdict_example :
    let r = (evaluate (λ k. k) service 10 600).snapshot in
    (r.score + 30 * gap true + 10 * gap true + 10 * gap false ≡ 100)
    × ((r.state ≡ blocked) ↔ (true ≡ false))
    × ((r.state ≡ ready) ↔ ((true ≡ true) × (true ≡ true) × (false ≡ true)))
registered_verdict_example =
    registered_verdict parsers service input-IsValid service-IsPercent (λ k. k) 10 600

get_latest_snapshot-IsVerdict_example :
    (g : Ruling) × ((w' : World) × (((attempt (get_latest_snapshot env snapshot.service_id)
              >>= ruling)
            start
          ≡ (ok g, w'))
        × IsVerdict (snapshot ∷ []) snapshot.service_id g))
get_latest_snapshot-IsVerdict_example =
    get_latest_snapshot-IsVerdict env snapshot.service_id start refl

abbrev for_another : DeploymentCandidateInput
for_another = record candidate_input { requested_by = "boss@example.com" }

other_subject : developer.subject ≢ for_another.requested_by
other_subject = λ e. cc

step-refuses_example : IsRefused (step env 5 (submit developer "r" for_another)) start
step-refuses_example =
    step-refuses env start 5 (submit developer "r" for_another) (inr (refl, other_subject))
