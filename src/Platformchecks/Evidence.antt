-- ===== src/Platformchecks/Evidence.antt =====
-- The check results that the evaluator of internal/platformchecks/evaluator.go returns.
use golden_path_control_plan.Prelude.{
  ℕ, String, ◌≡◌, ◌↔◌, refl, Bool, false, arith, str_eq, eq_iff, All, length,
}
use golden_path_control_plan.Domain.Models.{Uuid, Time, Service, ReadinessCheckResult, pass}
use golden_path_control_plan.Platformchecks.{
  evaluate, stamp, build_check, build_checks, pass_if, warn_if, Finding,
}

-- The result belongs to the snapshot, and hints at a remedy exactly if its check did not pass.
pub record IsEvidence (snapshot_id service_id : Uuid) (at : Time) (c : ReadinessCheckResult)
    : Type 0 where
  pub snapshot : c.snapshot_id ≡ snapshot_id
  pub service : c.service_id ≡ service_id
  pub time : c.created_at ≡ at
  pub hint : (c.status ≡ pass) ↔ (c.remediation_hint ≡ "")

module _ (snapshot_id service_id : Uuid) (at : Time) (id : Uuid) (name m e hint : String) (b : Bool)
    (filled : str_eq hint "" ≡ false) where
  abbrev Evidence : Finding → Type 0
  Evidence f =
      IsEvidence snapshot_id service_id at (stamp snapshot_id at (build_check id service_id name f))

  pass_if-IsEvidence : Evidence (pass_if b m e hint)
  unfolding stamp build_check pass_if
  pass_if-IsEvidence = ground (arith, eq_iff hint "")

  warn_if-IsEvidence : Evidence (warn_if b m e hint)
  unfolding stamp build_check warn_if
  warn_if-IsEvidence = ground (arith, eq_iff hint "")

module _ (draw : ℕ → Uuid) (s : Service) (job_id : Uuid) (at : Time) where
  -- There are ten results. Each names the snapshot and the service, has the time of the evaluation,
  -- and hints at a remedy exactly if its check did not pass.
  pub evaluate-IsEvidence :
      let r = evaluate draw s job_id at in
      (length r.checks ≡ 10) × All (IsEvidence r.snapshot.id s.id at) r.checks
  unfolding evaluate build_checks
  evaluate-IsEvidence = (
    refl,
    (
      pass_if-IsEvidence _ _ _ _ _ _ _ _ _ refl,
      (
        pass_if-IsEvidence _ _ _ _ _ _ _ _ _ refl,
        (
          warn_if-IsEvidence _ _ _ _ _ _ _ _ _ refl,
          (
            pass_if-IsEvidence _ _ _ _ _ _ _ _ _ refl,
            (
              warn_if-IsEvidence _ _ _ _ _ _ _ _ _ refl,
              (
                pass_if-IsEvidence _ _ _ _ _ _ _ _ _ refl,
                (
                  warn_if-IsEvidence _ _ _ _ _ _ _ _ _ refl,
                  (
                    warn_if-IsEvidence _ _ _ _ _ _ _ _ _ refl,
                    (
                      pass_if-IsEvidence _ _ _ _ _ _ _ _ _ refl,
                      (warn_if-IsEvidence _ _ _ _ _ _ _ _ _ refl, tt),
                    ),
                  ),
                ),
              ),
            ),
          ),
        ),
      ),
    ),
  )
