-- ===== src/System/Gate/Runs.antt =====
-- The gate of promotion over whole runs.
use golden_path_control_plan.Prelude.{ℕ, ◌≡◌, refl, ◌∙◌, ap, List}
use golden_path_control_plan.Effects.{Env, World, Statement}
use golden_path_control_plan.Errors.{ok}
use golden_path_control_plan.Effects.Tables.{Database}
use golden_path_control_plan.Effects.Rules.{Preserves}
use golden_path_control_plan.Postgres.Frames.{
  insert_check_result-frame, insert_service-frame, insert_slo_policy-frame,
  update_service_row-frame, update_slo_policy_row-frame, upsert_job-frame, claim-frame,
  complete_row-frame, fail_row-frame,
}
use golden_path_control_plan.Postgres.Keeps.{create_service-Keeps, update_service-Keeps}
use golden_path_control_plan.System.{Operation, run}
use golden_path_control_plan.System.Statements.{StatementsKeep, run_statements-Keeps}
use golden_path_control_plan.System.Gate.{Gate, Gate-of_tables}
use golden_path_control_plan.System.Gate.Statements.{insert_snapshot-Gate, insert_candidate-Gate}
use golden_path_control_plan.System.Gate.Evaluation.{
  PeersKeepGate, insert_audit_row-Gate, evaluate_deployment_candidate-Gate,
}

-- A statement after which the database is one that has the same candidates and snapshots
other :
    {A : Type 0} (s : Statement A) (same : Database → Database → Database)
    → ((db db' : Database) → (same db db').candidates ≡ db.candidates)
    → ((db db' : Database) → (same db db').snapshots ≡ db.snapshots)
    → ((k : ℕ) (db db' : Database) (a : A) → s k db ≡ ok (a, db') → db' ≡ same db db')
    → Preserves Gate s
other s same hc hs h = record {
  at = λ k db v a db' e.
      let f = h k db db' a e in
      Gate-of_tables db db' (ap (λ d. d.candidates) f ∙ hc db db')
        (ap (λ d. d.snapshots) f ∙ hs db db') v;
}

writes_jobs :
    {A : Type 0} (s : Statement A)
    → ((k : ℕ) (db db' : Database) (a : A)
        → s k db ≡ ok (a, db')
        → db' ≡ record db { jobs = db'.jobs })
    → Preserves Gate s
writes_jobs s = other s (λ db db'. record db { jobs = db'.jobs }) (λ db db'. refl) (λ db db'. refl)

writes_services :
    (s : Statement (Unit {0}))
    → ((k : ℕ) (db db' : Database)
        → s k db ≡ ok (tt, db')
        → db' ≡ record db { services = db'.services })
    → Preserves Gate s
writes_services s h =
    other s (λ db db'. record db { services = db'.services }) (λ db db'. refl) (λ db db'. refl)
      λ k db db' a e. h k db db' e

writes_policies :
    (s : Statement (Unit {0}))
    → ((k : ℕ) (db db' : Database)
        → s k db ≡ ok (tt, db')
        → db' ≡ record db { slo_policies = db'.slo_policies })
    → Preserves Gate s
writes_policies s h =
    other s (λ db db'. record db { slo_policies = db'.slo_policies }) (λ db db'. refl)
      (λ db db'. refl) λ k db db' a e. h k db db' e

module _ (env : Env) (peers : PeersKeepGate env) where
  pub statements-Gate : StatementsKeep env Gate
  statements-Gate = record {
    peers = peers.gate;
    registers = λ i id p at valid.
        create_service-Keeps env peers.gate _
          (λ t. writes_services _ λ k db db' q. insert_service-frame k db db' t q)
          (λ t. writes_policies _ λ k db db' q. insert_slo_policy-frame k db db' t q);
    updates = λ id patch valid.
        update_service-Keeps env peers.gate id patch
          (λ t. writes_services _ λ k db db' q. update_service_row-frame k db db' t q)
          (λ i t. writes_policies _ λ k db db' q. update_slo_policy_row-frame k db db' i t q);
    upserts = λ id at n service_id key payload.
        writes_jobs _ λ k db db' a q. upsert_job-frame k db db' _ a q;
    submits = insert_candidate-Gate;
    evaluates = evaluate_deployment_candidate-Gate env peers;
    snapshots = insert_snapshot-Gate;
    results = λ c.
        other _ (λ db db'. record db { check_results = db'.check_results }) (λ db db'. refl)
          (λ db db'. refl) (λ k db db' a q. insert_check_result-frame k db db' c q);
    claims = λ v n t. writes_jobs _ λ k db db' a q. claim-frame k db db' env v n t a q;
    completes = λ id v. writes_jobs _ λ k db db' a q. complete_row-frame k db db' env id v a q;
    fails = λ id o m t at. writes_jobs _ λ k db db' a q. fail_row-frame k db db' id o m t at a q;
    audits = insert_audit_row-Gate;
  }

  -- Let other sessions keep the gate, delete no candidate and no snapshot and leave each stored one to
  -- its service and, a snapshot, as it is; they may add candidates and snapshots.
  -- The gate: no two candidates have the same identifier, and each approved candidate names a stored
  -- snapshot that is of its own service and is ready. Then after any sequence of requests and rounds
  -- of workers, failed ones included, the gate holds if it held before.
  pub run-Gate :
      (job_max_attempts : ℕ) (operations : List Operation) (w : World)
      → Gate w.db
      → Gate (run env job_max_attempts operations w).db
  run-Gate = run_statements-Keeps env Gate statements-Gate
