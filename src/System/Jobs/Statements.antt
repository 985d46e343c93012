-- ===== src/System/Jobs/Statements.antt =====
-- Invariants that depend on the jobs alone, under the statements that write other tables.
use golden_path_control_plan.Prelude.{ℕ, String, ◌≡◌, ap}
use golden_path_control_plan.Effects.{Env, Statement}
use golden_path_control_plan.Errors.{ok}
use golden_path_control_plan.Domain.Models.{AuditEvent, Uuid, Time}
use golden_path_control_plan.Postgres.Jobs.{upsert_job, claim, complete_row, fail_row}
use golden_path_control_plan.ControlPlane.Entities.{new_job, Details}
use golden_path_control_plan.Effects.Tables.{Database}
use golden_path_control_plan.Effects.Rules.{Preserves, PeersKeep}
use golden_path_control_plan.Postgres.Audit.{insert_audit_row}
use golden_path_control_plan.Postgres.Frames.{
  insert_snapshot-frame, insert_check_result-frame, insert_candidate-frame, update_candidate-frame,
  upsert_decision-frame, insert_audit_row-frame, insert_service-frame, insert_slo_policy-frame,
  update_service_row-frame, update_slo_policy_row-frame,
}
use golden_path_control_plan.Postgres.Keeps.{
  save_promotion_decision-Keeps, create_service-Keeps, update_service-Keeps,
}
use golden_path_control_plan.ControlPlane.Keeps.{evaluate_deployment_candidate-Keeps}
use golden_path_control_plan.System.Statements.{StatementsKeep}

module _ (P : Database → Type 0)
    (moved : (db db' : Database) → db'.jobs ≡ db.jobs → P db → P db') where
  -- A statement that writes another table
  pub other :
      {A : Type 0} (s : Statement A)
      → ((k : ℕ) (db db' : Database) (a : A) → s k db ≡ ok (a, db') → db'.jobs ≡ db.jobs)
      → Preserves P s
  other s h = record { at = λ k db v a db' e. moved db db' (h k db db' a e) v }

  pub insert_audit_row-Preserves : (e : AuditEvent) → Preserves P (insert_audit_row e)
  insert_audit_row-Preserves e =
      other _ λ k db db' a q. ap (λ d. d.jobs) (insert_audit_row-frame k db db' e q)

  -- An invariant of the jobs is kept by every statement if those that write jobs keep it.
  pub jobs_statements :
      (env : Env)
      → (peers : PeersKeep env P)
      → ((id : Uuid) (at : Time) (n : ℕ) (service_id : Uuid) (key : String) (payload : Details)
          → Preserves P (upsert_job (new_job id at n service_id key payload)))
      → ((worker_id : String) (n : ℕ) (t : Time) → Preserves P (claim env worker_id n t))
      → ((id : Uuid) (worker_id : String) → Preserves P (complete_row env id worker_id))
      → ((id : Uuid) (owner message : String) (t at : Time)
          → Preserves P (fail_row id owner message t at))
      → StatementsKeep env P
  jobs_statements env peers upserts claims completes fails = record {
    peers = peers;
    registers = λ i id p at valid.
        create_service-Keeps env peers _
          (λ t. other _ λ k db db' a q. ap (λ d. d.jobs) (insert_service-frame k db db' t q))
          (λ t. other _ λ k db db' a q. ap (λ d. d.jobs) (insert_slo_policy-frame k db db' t q));
    updates = λ id patch valid.
        update_service-Keeps env peers id patch
          (λ t. other _ λ k db db' a q. ap (λ d. d.jobs) (update_service_row-frame k db db' t q))
          (λ i t.
            other _ λ k db db' a q. ap (λ d. d.jobs) (update_slo_policy_row-frame k db db' i t q));
    upserts = upserts;
    submits =
        λ id at i. other _ λ k db db' a q. ap (λ d. d.jobs) (insert_candidate-frame k db db' _ q);
    evaluates = λ p r id.
        evaluate_deployment_candidate-Keeps env peers insert_audit_row-Preserves p r id
          λ s d st why.
            save_promotion_decision-Keeps env peers _ s d st why
              (λ i at. other _ λ k db db' a q.
                ap (λ d. d.jobs) (update_candidate-frame k db db' _ st why i at a q))
              (other _ λ k db db' a q. ap (λ d. d.jobs) (upsert_decision-frame k db db' d q));
    snapshots = λ s. other _ λ k db db' a q. ap (λ d. d.jobs) (insert_snapshot-frame k db db' s q);
    results =
        λ c. other _ λ k db db' a q. ap (λ d. d.jobs) (insert_check_result-frame k db db' c q);
    claims = claims;
    completes = completes;
    fails = fails;
    audits = insert_audit_row-Preserves;
  }
