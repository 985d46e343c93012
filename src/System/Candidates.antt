-- ===== src/System/Candidates.antt =====
-- The decisions on deployment candidates over whole runs.
use golden_path_control_plan.Prelude.{
  ℕ, String, ◌≡◌, refl, ap, false, Option, some, List, [], ◌∷◌, ◌++◌, arith, ◌==◌, find?,
  update_where, find?-append, find?-update_where,
}
use golden_path_control_plan.Effects.{Env, World, Statement}
use golden_path_control_plan.Errors.{ok}
use golden_path_control_plan.Domain.Models.{
  Uuid, Time, AuditEvent, DeploymentCandidate, CandidateStatus,
}
use golden_path_control_plan.Effects.Tables.{Database}
use golden_path_control_plan.Effects.Rules.{Preserves, PeersKeep}
use golden_path_control_plan.Postgres.Audit.{insert_audit_row}
use golden_path_control_plan.Postgres.Candidates.{
  insert_candidate, update_candidate, decidable, decide, is_pending,
}
use golden_path_control_plan.Postgres.Frames.{
  insert_snapshot-frame, insert_check_result-frame, upsert_decision-frame, insert_audit_row-frame,
  insert_service-frame, insert_slo_policy-frame, update_service_row-frame,
  update_slo_policy_row-frame, upsert_job-frame, claim-frame, complete_row-frame, fail_row-frame,
}
use golden_path_control_plan.Postgres.Keeps.{
  save_promotion_decision-Keeps, create_service-Keeps, update_service-Keeps,
}
use golden_path_control_plan.ControlPlane.Keeps.{evaluate_deployment_candidate-Keeps}
use golden_path_control_plan.System.{Operation, run}
use golden_path_control_plan.System.Statements.{StatementsKeep, run_statements-Keeps}

-- The row of a candidate that is decided
pub record Decided (c : DeploymentCandidate) (db : Database) : Type 0 where
  pub stored : find? (λ d. d.id == c.id) db.candidates ≡ some c
  pub decided : is_pending c.status ≡ false

module _ (c : DeploymentCandidate) where
  -- A statement that writes another table
  other :
      {A : Type 0} (s : Statement A)
      → ((k : ℕ) (db db' : Database) (a : A)
          → s k db ≡ ok (a, db')
          → db'.candidates ≡ db.candidates)
      → Preserves (Decided c) s
  other s h = record {
    at = λ k db v a db' e. record { stored = rw (h k db db' a e) v.stored; decided = v.decided };
  }

  insert_candidate-Decided : (d : DeploymentCandidate) → Preserves (Decided c) (insert_candidate d)
  unfolding insert_candidate
  insert_candidate-Decided d = record {
    at = λ k db v a db' e.
        let table : db'.candidates ≡ db.candidates ++ d ∷ [] = ground arith in
        record {
          stored = rw table (find?-append _ db.candidates (d ∷ []) c v.stored);
          decided = v.decided;
        };
  }

  update_candidate-Decided :
      (id : Uuid) (st : CandidateStatus) (why : String) (s : Option Uuid) (at : Time)
      → Preserves (Decided c) (update_candidate id st why s at)
  unfolding update_candidate decide
  update_candidate-Decided id st why s at = record {
    at = λ k db v a db' e.
        let table : db'.candidates
            ≡ update_where (decidable id) (decide st why s at) db.candidates =
          ground arith in
        let waits = v.decided in
        let skipped : decidable id c ≡ false = ground arith in
        record {
          stored = rw table (
              find?-update_where _ (decidable id) (decide st why s at) db.candidates c (λ x. refl)
                skipped v.stored);
          decided = v.decided;
        };
  }

module _ (env : Env) (c : DeploymentCandidate) (peers : PeersKeep env (Decided c)) where
  audited : (e : AuditEvent) → Preserves (Decided c) (insert_audit_row e)
  audited e = other c _ λ k db db' a q. ap (λ d. d.candidates) (insert_audit_row-frame k db db' e q)

  statements-Decided : StatementsKeep env (Decided c)
  statements-Decided = record {
    peers = peers;
    registers = λ i id p at valid.
        create_service-Keeps env peers _
          (λ t.
            (other c _ λ k db db' a q. ap (λ d. d.candidates) (insert_service-frame k db db' t q)))
          (λ t.
            (other c _
              λ k db db' a q. ap (λ d. d.candidates) (insert_slo_policy-frame k db db' t q)));
    updates = λ id patch valid.
        update_service-Keeps env peers id patch
          (λ t.
            (other c _
              λ k db db' a q. ap (λ d. d.candidates) (update_service_row-frame k db db' t q)))
          (λ i t.
            (other c _
              λ k db db' a q. ap (λ d. d.candidates) (update_slo_policy_row-frame k db db' i t q)));
    upserts = λ id at n service_id key payload.
        (other c _ λ k db db' a q. ap (λ d. d.candidates) (upsert_job-frame k db db' _ a q));
    submits = λ id at i. insert_candidate-Decided c _;
    evaluates = λ p r id. evaluate_deployment_candidate-Keeps env peers audited p r id λ s d st why.
        save_promotion_decision-Keeps env peers _ s d st why
          (λ i at. update_candidate-Decided c _ st why i at)
          (other c _ λ k db db' a q. ap (λ d. d.candidates) (upsert_decision-frame k db db' d q));
    snapshots = λ s.
        (other c _ λ k db db' a q. ap (λ d. d.candidates) (insert_snapshot-frame k db db' s q));
    results = λ r.
        (other c _ λ k db db' a q. ap (λ d. d.candidates) (insert_check_result-frame k db db' r q));
    claims = λ v n t.
        (other c _ λ k db db' a q. ap (λ d. d.candidates) (claim-frame k db db' env v n t a q));
    completes = λ id v.
        (other c _
          λ k db db' a q. ap (λ d. d.candidates) (complete_row-frame k db db' env id v a q));
    fails = λ id o m t at.
        (other c _
          λ k db db' a q. ap (λ d. d.candidates) (fail_row-frame k db db' id o m t at a q));
    audits = audited;
  }

  -- Let other sessions leave a decided candidate's row as it is. Then any sequence of requests and
  -- rounds of workers, failed ones included, leaves that row as it is.
  pub run-Decided :
      (job_max_attempts : ℕ) (operations : List Operation) (w : World)
      → Decided c w.db
      → Decided c (run env job_max_attempts operations w).db
  run-Decided = run_statements-Keeps env (Decided c) statements-Decided
