-- ===== src/Platformchecks/Tally.antt =====
-- The counts of the evaluator, in terms of the service's fields.
use native.Mathlib.Nat.{add-zero}
use native.Mathlib.Numerals.{add-one}
use golden_path_control_plan.Prelude.{ℕ, String, ◌+◌, ◌≤◌, ◌≡◌, Bool, true, false, List, ◌∷◌, arith}
use golden_path_control_plan.Domain.Models.{Uuid, Service, ReadinessCheckResult}
use golden_path_control_plan.Platformchecks.{
  build_check, build_checks, pass_if, warn_if, tally, present, slo_complete,
}

-- 1 for what is missing
abbrev pub gap : Bool → ℕ
gap true = 0
gap false = 1

pub gap-le : (b : Bool) → gap b ≤ 1
gap-le true = omega arith
gap-le false = omega arith

unfoldable pub required_gaps : Service → ℕ
required_gaps s =
    gap (present s.owner_email)
    + gap (present s.repository_url)
    + gap (present s.health_endpoint_url)
    + gap s.has_ci
    + gap (present s.deployment_pipeline)

unfoldable pub advisory_gaps : Service → ℕ
advisory_gaps s =
    gap (present s.runbook_url)
    + gap (present s.observability_url)
    + gap s.has_tracing
    + gap s.has_metrics
    + gap (slo_complete s)

module _ (id service_id : Uuid) (name m e hint : String) (b : Bool)
    (cs : List ReadinessCheckResult) where
  tally-pass_if :
      (f w : ℕ)
      → tally f w (build_check id service_id name (pass_if b m e hint) ∷ cs)
        ≡ tally (f + gap b) w cs
  unfolding tally build_check pass_if
  tally-pass_if f w = ground (arith, add-zero f, add-one f)

  tally-warn_if :
      (f w : ℕ)
      → tally f w (build_check id service_id name (warn_if b m e hint) ∷ cs)
        ≡ tally f (w + gap b) cs
  unfolding tally build_check warn_if
  tally-warn_if f w = ground (arith, add-zero w, add-one w)

-- The evaluator counts the missing required fields as failures and the other gaps as warnings.
pub tally-build_checks :
    (draw : ℕ → Uuid) (s : Service)
    → tally 0 0 (build_checks draw s) ≡ (required_gaps s, advisory_gaps s)
unfolding build_checks required_gaps advisory_gaps
tally-build_checks draw s = simp (tally-pass_if, tally-warn_if) (unfold tally in ground arith)
