-- ===== src/Platformchecks/Registered.antt =====
-- The evaluator of internal/platformchecks/evaluator.go on a service whose fields the checks of
-- internal/domain/models.go let through.
use golden_path_control_plan.Prelude.{
  ℕ, ◌+◌, ◌*◌, ◌≡◌, ◌↔◌, String, true, false, arith, eq_iff, trim_space-empty,
}
use golden_path_control_plan.Domain.Models.{Uuid, Time, Service, ready, blocked}
use golden_path_control_plan.Domain.Parsers.{Parsers}
use golden_path_control_plan.Domain.Validation.Accepts.{
  IsFilled, IsPercent, IsValidService, as_input,
}
use golden_path_control_plan.Platformchecks.{evaluate, present, score_of, state_of, slo_complete}
use golden_path_control_plan.Platformchecks.Tally.{gap, required_gaps, advisory_gaps}
use golden_path_control_plan.Platformchecks.Verdict.{state-evaluate, score-evaluate}

IsFilled-present : (v : String) → IsFilled v → present v ≡ true
IsFilled-present v h = ground (arith, eq_iff v "", trim_space-empty)

module _ (parsers : Parsers) (s : Service) (valid : IsValidService parsers (as_input s))
    (percent : IsPercent s.slo_policy.availability_target_percent) where
  registered_required : required_gaps s ≡ gap s.has_ci
  unfolding required_gaps
  registered_required = ground (
    arith,
    IsFilled-present s.owner_email valid.owner_email.0,
    IsFilled-present s.repository_url valid.repository_url.0,
    IsFilled-present s.health_endpoint_url valid.health_endpoint_url.0,
    IsFilled-present s.deployment_pipeline valid.deployment_pipeline,
  )

  slo_holds : slo_complete s ≡ true
  slo_holds = ground (
    arith,
    IsFilled-present s.slo_policy.time_window valid.slo_policy.window,
    valid.slo_policy.latency,
    percent.0,
  )

  registered_advisory : advisory_gaps s ≡ gap s.has_tracing + gap s.has_metrics
  unfolding advisory_gaps
  registered_advisory = ground (
    arith,
    IsFilled-present s.runbook_url valid.runbook_url.0,
    IsFilled-present s.observability_url valid.observability_url.0,
    slo_holds,
  )

  -- The score of a valid service loses 30 points without CI, 10 without tracing and 10 without
  -- metrics, and the service is blocked exactly if it has no CI.
  pub registered_verdict :
      (draw : ℕ → Uuid) (job_id : Uuid) (at : Time)
      → let r = (evaluate draw s job_id at).snapshot in
        (r.score + 30 * gap s.has_ci + 10 * gap s.has_tracing + 10 * gap s.has_metrics ≡ 100)
        × ((r.state ≡ blocked) ↔ (s.has_ci ≡ false))
        × ((r.state ≡ ready)
            ↔ ((s.has_ci ≡ true) × (s.has_tracing ≡ true) × (s.has_metrics ≡ true)))
  unfolding score_of state_of
  registered_verdict draw job_id at =
      rw (state-evaluate, score-evaluate, registered_required, registered_advisory) (ground arith)
