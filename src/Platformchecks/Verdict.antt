-- ===== src/Platformchecks/Verdict.antt =====
-- What the evaluator of internal/platformchecks/evaluator.go decides, against the service's fields.
use golden_path_control_plan.Prelude.{
  ℕ, ◌≤◌, ◌<◌, ◌≡◌, ◌↔◌, ◌⊎◌, false, arith, eq_iff, pos, ◌≤ℤ◌, float_lt, float_zero,
}
use golden_path_control_plan.Domain.Models.{Uuid, Time, Service, ready, degraded, blocked}
use golden_path_control_plan.Platformchecks.{evaluate, state_of, score_of, present, slo_complete}
use golden_path_control_plan.Platformchecks.Tally.{
  gap-le, required_gaps, advisory_gaps, tally-build_checks,
}

abbrev pub MissesRequired : Service → Type 0
MissesRequired s =
    (s.owner_email ≡ "")
    ⊎ (s.repository_url ≡ "")
    ⊎ (s.health_endpoint_url ≡ "")
    ⊎ (s.has_ci ≡ false)
    ⊎ (s.deployment_pipeline ≡ "")

abbrev pub MissesSlo : Service → Type 0
MissesSlo s =
    (s.slo_policy.time_window ≡ "")
    ⊎ (float_lt float_zero s.slo_policy.availability_target_percent ≡ false)
    ⊎ (s.slo_policy.latency_target_milliseconds ≤ℤ pos 0)

abbrev pub MissesAdvised : Service → Type 0
MissesAdvised s =
    (s.runbook_url ≡ "")
    ⊎ (s.observability_url ≡ "")
    ⊎ (s.has_tracing ≡ false)
    ⊎ (s.has_metrics ≡ false)
    ⊎ MissesSlo s

required_gaps_iff : (s : Service) → MissesRequired s ↔ (0 < required_gaps s)
unfolding required_gaps
required_gaps_iff s = ground (
  arith,
  eq_iff s.owner_email "",
  eq_iff s.repository_url "",
  eq_iff s.health_endpoint_url "",
  eq_iff s.deployment_pipeline "",
)

slo_gap_iff : (s : Service) → MissesSlo s ↔ (slo_complete s ≡ false)
slo_gap_iff s = ground (arith, eq_iff s.slo_policy.time_window "")

advisory_gaps_iff : (s : Service) → MissesAdvised s ↔ (0 < advisory_gaps s)
unfolding advisory_gaps
advisory_gaps_iff s =
    ground (arith, eq_iff s.runbook_url "", eq_iff s.observability_url "", slo_gap_iff s)

verdicts :
    {P Q : Type 0} (f w : ℕ)
    → P ↔ (0 < f)
    → Q ↔ (0 < w)
    → ((state_of f w ≡ blocked) ↔ P)
      × ((state_of f w ≡ degraded) ↔ ((¬ P) × Q))
      × ((state_of f w ≡ ready) ↔ ((¬ P) × (¬ Q)))
unfolding state_of
verdicts f w p q = ground arith

advisory_gaps-le : (s : Service) → advisory_gaps s ≤ 5
unfolding advisory_gaps
advisory_gaps-le s = omega (
  arith,
  gap-le (present s.runbook_url),
  gap-le (present s.observability_url),
  gap-le s.has_tracing,
  gap-le s.has_metrics,
  gap-le (slo_complete s),
)

module _ (draw : ℕ → Uuid) (s : Service) (job_id : Uuid) (at : Time) where
  pub state-evaluate :
      (evaluate draw s job_id at).snapshot.state ≡ state_of (required_gaps s) (advisory_gaps s)
  unfolding evaluate
  state-evaluate = rw (tally-build_checks draw s)

  pub score-evaluate :
      (evaluate draw s job_id at).snapshot.score ≡ score_of (required_gaps s) (advisory_gaps s)
  unfolding evaluate
  score-evaluate = rw (tally-build_checks draw s)

  -- The snapshot is blocked exactly when a required field is missing, degraded exactly when only
  -- advised ones are, and ready exactly when none is.
  pub state_iff :
      let state = (evaluate draw s job_id at).snapshot.state in
      ((state ≡ blocked) ↔ MissesRequired s)
      × ((state ≡ degraded) ↔ ((¬ MissesRequired s) × MissesAdvised s))
      × ((state ≡ ready) ↔ ((¬ MissesRequired s) × (¬ MissesAdvised s)))
  state_iff =
      rw state-evaluate
        (verdicts (required_gaps s) (advisory_gaps s) (required_gaps_iff s) (advisory_gaps_iff s))

  -- The score is at most 100. It is 100 for a ready snapshot, from 50 to 90 for a degraded one, and
  -- at most 70 for a blocked one.
  pub score_bounds :
      let r = (evaluate draw s job_id at).snapshot in
      (r.score ≤ 100)
      × (r.state ≡ ready → r.score ≡ 100)
      × (r.state ≡ degraded → (50 ≤ r.score) × (r.score ≤ 90))
      × (r.state ≡ blocked → r.score ≤ 70)
  unfolding state_of score_of
  score_bounds = rw (state-evaluate, score-evaluate) (ground (arith, advisory_gaps-le s))
