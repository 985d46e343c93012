-- ===== src/Platformchecks.antt =====
-- internal/platformchecks/evaluator.go: the readiness checks of a service and their score.
-- `draw k` is the k-th identifier that `uuid.New` hands out during the call: ten for the checks,
-- in their order, and the eleventh for the snapshot.
pub mod Tally
pub mod Evidence
pub mod Verdict
pub mod Registered
use golden_path_control_plan.Prelude.{
  ℕ, zero, suc, ◌+◌, ◌-◌, ◌*◌, String, ◌<>◌, Bool, true, false, not, ◌&&◌, List, [], ◌∷◌, map, ltb,
  if◌then◌else◌, str_eq, trim_space, decimal, pos, ltb_ℤ, float_lt, float_zero,
}
use golden_path_control_plan.Domain.Models.{
  Uuid, uuid_nil, Time, Service, ReadinessSnapshot, ReadinessCheckResult, CheckStatus, pass, warn,
  fail, ReadinessState, ready, degraded, blocked,
}

pub record Result : Type 0 where
  pub snapshot : ReadinessSnapshot
  pub checks : List ReadinessCheckResult

-- a status, its message and its remediation hint
abbrev pub Finding : Type 0
Finding = CheckStatus × String × String

unfoldable pub pass_if : Bool → String → String → String → Finding
pass_if ok pass_message fail_message hint =
    if ok then (pass, pass_message, "") else (fail, fail_message, hint)

unfoldable pub warn_if : Bool → String → String → String → Finding
warn_if ok pass_message warn_message hint =
    if ok then (pass, pass_message, "") else (warn, warn_message, hint)

-- The snapshot's identifier and the time are set later: Go leaves zero values here.
unfoldable pub build_check : Uuid → Uuid → String → Finding → ReadinessCheckResult
build_check id service_id name (status, message, hint) = record {
  id = id;
  snapshot_id = uuid_nil;
  service_id = service_id;
  check_name = trim_space name;
  status = status;
  message = message;
  remediation_hint = hint;
  created_at = 0;
}

-- != ""
abbrev pub present : String → Bool
present s = not (str_eq s "")

abbrev pub slo_complete : Service → Bool
slo_complete s =
    present s.slo_policy.time_window
    && float_lt float_zero s.slo_policy.availability_target_percent
    && ltb_ℤ (pos 0) s.slo_policy.latency_target_milliseconds

unfoldable pub build_checks : (ℕ → Uuid) → Service → List ReadinessCheckResult
build_checks draw s =
    build_check (draw 0) s.id "owner_declared" (
      pass_if (present s.owner_email) "Owner email present" "Owner email missing"
        "Set a durable owner_email for operational accountability.")
    ∷ build_check (draw 1) s.id "repository_connected" (
        pass_if (present s.repository_url) "Repository URL present" "Repository URL missing"
          "Register the canonical repository_url.")
    ∷ build_check (draw 2) s.id "runbook_present" (
        warn_if (present s.runbook_url) "Runbook URL present" "Runbook missing"
          "Add a runbook_url before promotion.")
    ∷ build_check (draw 3) s.id "health_endpoint_present" (
        pass_if (present s.health_endpoint_url) "Health endpoint URL present"
          "Health endpoint missing" "Expose and register a health_endpoint_url.")
    ∷ build_check (draw 4) s.id "observability_dashboard_present" (
        warn_if (present s.observability_url) "Observability dashboard present"
          "Observability dashboard missing"
          "Register an observability_url for debugging and ownership.")
    ∷ build_check (draw 5) s.id "ci_enabled" (
        pass_if s.has_ci "CI declared" "CI not declared"
          "Set has_ci=true and wire CI before promotion.")
    ∷ build_check (draw 6) s.id "tracing_enabled" (
        warn_if s.has_tracing "Tracing declared" "Tracing not declared"
          "Enable tracing or document the gap before production use.")
    ∷ build_check (draw 7) s.id "metrics_enabled" (
        warn_if s.has_metrics "Metrics declared" "Metrics not declared"
          "Enable metrics or document the gap before production use.")
    ∷ build_check (draw 8) s.id "deployment_pipeline_declared" (
        pass_if (present s.deployment_pipeline) "Deployment pipeline declared"
          "Deployment pipeline missing" "Set deployment_pipeline to the owning CI/CD workflow.")
    ∷ build_check (draw 9) s.id "slo_policy_declared" (
        warn_if (slo_complete s) "SLO policy declared" "SLO policy incomplete"
          "Define availability, latency, and window targets.")
    ∷ []

-- The loop that counts, over `failures` and `warnings`.
unfoldable pub tally : ℕ → ℕ → List ReadinessCheckResult → ℕ × ℕ
tally failures warnings [] = (failures, warnings)
tally failures warnings (check ∷ checks) = elim check.status [
  | fail ↦ tally (suc failures) warnings checks
  | warn ↦ tally failures (suc warnings) checks
  | pass ↦ tally failures warnings checks
]

-- `-` on ℕ stops at 0, as the source does by its test of `score < 0`.
unfoldable pub score_of : ℕ → ℕ → ℕ
score_of failures warnings = 100 - failures * 30 - warnings * 10

unfoldable pub state_of : ℕ → ℕ → ReadinessState
state_of failures warnings =
    if ltb 0 failures then blocked else if ltb 0 warnings then degraded else ready

unfoldable pub summary_of : ℕ → ℕ → String
summary_of failures warnings =
    if ltb 0 failures
    then "Service is blocked by " <> decimal failures <> " failing golden-path checks."
    else if ltb 0 warnings
    then "Service is degraded with " <> decimal warnings <> " warning-level golden-path checks."
    else "Service is ready for promotion."

unfoldable pub stamp : Uuid → Time → ReadinessCheckResult → ReadinessCheckResult
stamp snapshot_id at check = record check { snapshot_id = snapshot_id; created_at = at }

unfoldable pub evaluate : (ℕ → Uuid) → Service → Uuid → Time → Result
unfolding stamp
evaluate draw service job_id evaluated_at =
    let checks = build_checks draw service in
    let (failures, warnings) = tally 0 0 checks in
    record {
      snapshot = record {
        id = draw 10;
        service_id = service.id;
        state = state_of failures warnings;
        score = score_of failures warnings;
        summary = summary_of failures warnings;
        evaluated_at = evaluated_at;
        job_id = job_id;
        created_at = evaluated_at;
      };
      checks = map (stamp (draw 10) evaluated_at) checks;
    }
