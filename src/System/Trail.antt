-- ===== src/System/Trail.antt =====
-- The audit trail over whole runs.
use golden_path_control_plan.Prelude.{
  ℕ, ◌≡◌, ap, some, List, [], ◌∷◌, ◌++◌, arith, ◌==◌, find?, find?-append,
}
use golden_path_control_plan.Effects.{Env, World, Statement}
use golden_path_control_plan.Errors.{ok}
use golden_path_control_plan.Domain.Models.{AuditEvent}
use golden_path_control_plan.Effects.Tables.{Database}
use golden_path_control_plan.Effects.Rules.{Preserves, PeersKeep}
use golden_path_control_plan.Postgres.Audit.{insert_audit_row}
use golden_path_control_plan.Postgres.Frames.{
  insert_snapshot-frame, insert_check_result-frame, insert_candidate-frame, update_candidate-frame,
  upsert_decision-frame, insert_service-frame, insert_slo_policy-frame, update_service_row-frame,
  update_slo_policy_row-frame, upsert_job-frame, claim-frame, complete_row-frame, fail_row-frame,
}
use golden_path_control_plan.Postgres.Keeps.{
  save_promotion_decision-Keeps, create_service-Keeps, update_service-Keeps,
}
use golden_path_control_plan.ControlPlane.Keeps.{evaluate_deployment_candidate-Keeps}
use golden_path_control_plan.System.{Operation, run}
use golden_path_control_plan.System.Statements.{StatementsKeep, run_statements-Keeps}

-- The row of an event
abbrev pub Recorded : AuditEvent → Database → Type 0
Recorded e db = find? (λ f. f.id == e.id) db.audit_events ≡ some e

module _ (r : AuditEvent) where
  -- A statement that writes another table
  other :
      {A : Type 0} (s : Statement A)
      → ((k : ℕ) (db db' : Database) (a : A)
          → s k db ≡ ok (a, db')
          → db'.audit_events ≡ db.audit_events)
      → Preserves (Recorded r) s
  other s h = record { at = λ k db v a db' e. rw (h k db db' a e) v }

  insert_audit_row-Recorded : (e : AuditEvent) → Preserves (Recorded r) (insert_audit_row e)
  unfolding insert_audit_row
  insert_audit_row-Recorded n = record {
    at = λ k db v a db' e.
        let table : db'.audit_events ≡ db.audit_events ++ n ∷ [] = ground arith in
        rw table (find?-append _ db.audit_events (n ∷ []) r v);
  }

module _ (env : Env) (r : AuditEvent) (peers : PeersKeep env (Recorded r)) where
  statements-Recorded : StatementsKeep env (Recorded r)
  statements-Recorded = record {
    peers = peers;
    registers = λ i id p at valid.
        create_service-Keeps env peers _
          (λ t.
            (other r _
              λ k db db' a q. ap (λ d. d.audit_events) (insert_service-frame k db db' t q)))
          (λ t.
            (other r _
              λ k db db' a q. ap (λ d. d.audit_events) (insert_slo_policy-frame k db db' t q)));
    updates = λ id patch valid.
        update_service-Keeps env peers id patch
          (λ t.
            (other r _
              λ k db db' a q. ap (λ d. d.audit_events) (update_service_row-frame k db db' t q)))
          (λ i t.
            (other r _ λ k db db' a q.
              ap (λ d. d.audit_events) (update_slo_policy_row-frame k db db' i t q)));
    upserts = λ id at n service_id key payload.
        (other r _ λ k db db' a q. ap (λ d. d.audit_events) (upsert_job-frame k db db' _ a q));
    submits = λ id at i.
        (other r _ λ k db db' a q. ap (λ d. d.audit_events) (insert_candidate-frame k db db' _ q));
    evaluates = λ p i id.
        evaluate_deployment_candidate-Keeps env peers (insert_audit_row-Recorded r) p i id
          λ s d st why.
            save_promotion_decision-Keeps env peers _ s d st why
              (λ i at.
                (other r _ λ k db db' a q.
                  ap (λ d. d.audit_events) (update_candidate-frame k db db' _ st why i at a q)))
              (other r _
                λ k db db' a q. ap (λ d. d.audit_events) (upsert_decision-frame k db db' d q));
    snapshots = λ s.
        (other r _ λ k db db' a q. ap (λ d. d.audit_events) (insert_snapshot-frame k db db' s q));
    results = λ c.
        (other r _
          λ k db db' a q. ap (λ d. d.audit_events) (insert_check_result-frame k db db' c q));
    claims = λ v n t.
        (other r _ λ k db db' a q. ap (λ d. d.audit_events) (claim-frame k db db' env v n t a q));
    completes = λ id v.
        (other r _
          λ k db db' a q. ap (λ d. d.audit_events) (complete_row-frame k db db' env id v a q));
    fails = λ id o m t at.
        (other r _
          λ k db db' a q. ap (λ d. d.audit_events) (fail_row-frame k db db' id o m t at a q));
    audits = insert_audit_row-Recorded r;
  }

  -- Let other sessions leave an event of the audit trail as it is. Then any sequence of requests and
  -- rounds of workers, failed ones included, leaves it in the trail as it is.
  pub run-Recorded :
      (job_max_attempts : ℕ) (operations : List Operation) (w : World)
      → Recorded r w.db
      → Recorded r (run env job_max_attempts operations w).db
  run-Recorded = run_statements-Keeps env (Recorded r) statements-Recorded
