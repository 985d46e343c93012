-- ===== src/System/Services/Runs.antt =====
-- The invariant of the stored services over whole runs.
use golden_path_control_plan.Prelude.{ℕ, ap, ◌≡◌, List}
use golden_path_control_plan.Effects.{Env, World}
use golden_path_control_plan.Effects.Tables.{Database}
use golden_path_control_plan.Domain.Models.{AuditEvent}
use golden_path_control_plan.Postgres.Audit.{insert_audit_row}
use golden_path_control_plan.Effects.Rules.{Preserves, PeersKeep}
use golden_path_control_plan.Postgres.Frames.{
  insert_snapshot-frame, insert_check_result-frame, insert_candidate-frame, update_candidate-frame,
  upsert_decision-frame, insert_audit_row-frame, upsert_job-frame, claim-frame, complete_row-frame,
  fail_row-frame,
}
use golden_path_control_plan.Postgres.Keeps.{save_promotion_decision-Keeps}
use golden_path_control_plan.ControlPlane.Keeps.{evaluate_deployment_candidate-Keeps}
use golden_path_control_plan.System.{Operation, run}
use golden_path_control_plan.System.Statements.{StatementsKeep, run_statements-Keeps}
use golden_path_control_plan.System.Services.{Sound, ServicesSound}
use golden_path_control_plan.System.Services.Steps.{
  Sound-of_frame, update_service-Sound, create_service-Sound,
}

-- Equal databases have equal tables of services and of policies.
tables :
    {db db' : Database}
    → db' ≡ db
    → (db'.services ≡ db.services) × (db'.slo_policies ≡ db.slo_policies)
tables e = (ap (λ d. d.services) e, ap (λ d. d.slo_policies) e)

module _ (env : Env) (peers : PeersKeep env (ServicesSound env.parsers)) where
  audited : (e : AuditEvent) → Preserves (Sound env.parsers) (insert_audit_row e)
  audited e =
      Sound-of_frame env.parsers _ λ k db db' a q. tables (insert_audit_row-frame k db db' e q)

  statements-Sound : StatementsKeep env (Sound env.parsers)
  statements-Sound = record {
    peers = peers;
    registers = create_service-Sound env peers;
    updates = update_service-Sound env peers;
    upserts = λ id at n service_id key payload.
        Sound-of_frame env.parsers _ λ k db db' a q. tables (upsert_job-frame k db db' _ a q);
    submits = λ id at i.
        Sound-of_frame env.parsers _ λ k db db' a q. tables (insert_candidate-frame k db db' _ q);
    evaluates = λ p r id. evaluate_deployment_candidate-Keeps env peers audited p r id λ s d st why.
        save_promotion_decision-Keeps env peers _ s d st why
          (λ i at.
            Sound-of_frame env.parsers _
              λ k db db' a q. tables (update_candidate-frame k db db' _ st why i at a q))
          (Sound-of_frame env.parsers _
            λ k db db' a q. tables (upsert_decision-frame k db db' d q));
    snapshots = λ s.
        Sound-of_frame env.parsers _ λ k db db' a q. tables (insert_snapshot-frame k db db' s q);
    results = λ c.
        Sound-of_frame env.parsers _
          λ k db db' a q. tables (insert_check_result-frame k db db' c q);
    claims = λ v n t.
        Sound-of_frame env.parsers _ λ k db db' a q. tables (claim-frame k db db' env v n t a q);
    completes = λ id v.
        Sound-of_frame env.parsers _
          λ k db db' a q. tables (complete_row-frame k db db' env id v a q);
    fails = λ id o m t at.
        Sound-of_frame env.parsers _
          λ k db db' a q. tables (fail_row-frame k db db' id o m t at a q);
    audits = audited;
  }

  -- Let other sessions keep the stored services valid: each row of `services` meets what `Validate`
  -- asks of it, and each of `slo_policies` has a percentage in range, a positive latency and a
  -- filled window. Then after any sequence of requests and rounds of workers, failed ones included,
  -- the stored services are valid if they were before.
  pub run-ServicesSound :
      (job_max_attempts : ℕ) (operations : List Operation) (w : World)
      → ServicesSound env.parsers w.db
      → ServicesSound env.parsers (run env job_max_attempts operations w).db
  run-ServicesSound = run_statements-Keeps env (Sound env.parsers) statements-Sound
