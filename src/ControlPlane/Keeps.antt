-- ===== src/ControlPlane/Keeps.antt =====
-- Invariants under the operations of internal/app/controlplane.go, from those of their statements.
use golden_path_control_plan.Prelude.{
  ℕ, String, Option, none, some, ◌≡◌, refl, inl, inr, Bool-cases, str_eq, not, ◌&&◌,
}
use golden_path_control_plan.Domain.Models.{
  Uuid, Time, Service, Job, AuditEvent, ReadinessSnapshot, DeploymentCandidate, PromotionDecision,
  CandidateStatus,
}
use golden_path_control_plan.Domain.Inputs.{ServiceInput, ServicePatch, DeploymentCandidateInput}
use golden_path_control_plan.Domain.Validation.{Check, validate_service, validate_patch}
use golden_path_control_plan.Errors.{not_found, Result, ok, err}
use golden_path_control_plan.Effects.{Env, App, pure, raise, ◌>>=◌, ◌>>◌}
use golden_path_control_plan.Effects.Tables.{Database}
use golden_path_control_plan.Effects.Rules.{
  Keeps, Preserves, PeersKeep, Keeps-pure, Keeps-raise, Keeps-now, Keeps-new_uuid, Keeps-new_uuids,
  Keeps-bind,
}
use golden_path_control_plan.Auth.{Principal}
use golden_path_control_plan.Postgres.Services.{create_service, update_service}
use golden_path_control_plan.Postgres.Readiness.{save_readiness_evaluation}
use golden_path_control_plan.Postgres.Candidates.{
  create_deployment_candidate, save_promotion_decision, is_pending,
}
use golden_path_control_plan.Postgres.Audit.{insert_audit_row}
use golden_path_control_plan.Postgres.Jobs.{upsert_job}
use golden_path_control_plan.Platformchecks.{evaluate}
use golden_path_control_plan.Postgres.Keeps.{
  get_service-Keeps, get_deployment_candidate-Keeps, get_latest_snapshot-Keeps, enqueue_job-Keeps,
  insert_audit_event-Keeps,
}
use golden_path_control_plan.ControlPlane.{
  ruling, require_pending, evaluate_deployment_candidate, is_engineer, validated, attempt, audit,
  register_service, update_registered_service, choose_key, queue_service_evaluation,
  require_requester, submit_candidate, process_service_evaluation_job,
}
use golden_path_control_plan.ControlPlane.Entities.{Details, new_job, new_service, new_candidate}

module _ {P : Database → Type 0} where
  -- What follows a check may use that the check passed.
  pub validated-Keeps :
      {A : Type 0} (c : Check) (m : App A) → (c ≡ none → Keeps P m) → Keeps P (validated c >> m)
  unfolding ◌>>=◌ pure raise
  validated-Keeps none m h = record { at = λ w p. (h refl).at w p }
  validated-Keeps (some e) m h = record { at = λ w p. p }

  pub attempt-Keeps : {A : Type 0} (m : App A) → Keeps P m → Keeps P (attempt m)
  unfolding attempt
  attempt-Keeps m h = record { at = λ w p. h.at w p }

module _ {P : Database → Type 0} where
  ruling-Keeps : (x : Result ReadinessSnapshot) → Keeps P (ruling x)
  unfolding ruling
  ruling-Keeps (ok s) = Keeps-pure _
  ruling-Keeps (err not_found) = Keeps-pure _
  ruling-Keeps (err e) = Keeps-raise _

module _ {P : Database → Type 0} (env : Env) (peers : PeersKeep env P)
    (audits : (e : AuditEvent) → Preserves P (insert_audit_row e)) where
  pub audit-Keeps :
      (pr : Principal) (r : String) (at : Time) (t u : String) (id : Uuid) (d : _)
      → Keeps P (audit env pr r at t u id d)
  unfolding audit
  audit-Keeps pr r at t u id d =
      Keeps-bind _ _ (Keeps-new_uuid env) (λ _. insert_audit_event-Keeps env peers _ (audits _))

  module _ (pr : Principal) (r : String) where
    pub register_service-Keeps :
        (input : ServiceInput)
        → (validate_service env.parsers input ≡ none
            → (id : Uuid) (policy_id : Uuid) (at : Time)
            → Keeps P (create_service env (new_service id policy_id at input)))
        → Keeps P (register_service env pr r input)
    unfolding register_service
    register_service-Keeps input h = validated-Keeps _ _ λ valid.
        Keeps-bind _ _ (Keeps-now env) λ at. Keeps-bind _ _ (Keeps-new_uuid env) λ id.
          Keeps-bind _ _ (Keeps-new_uuid env) λ policy_id.
            Keeps-bind _ _ (h valid id policy_id at)
              λ created. Keeps-bind _ _ (audit-Keeps _ _ _ _ _ _ _) λ _. Keeps-pure created

    pub update_registered_service-Keeps :
        (id : Uuid) (patch : ServicePatch)
        → (validate_patch env.parsers patch ≡ none → Keeps P (update_service env id patch))
        → Keeps P (update_registered_service env pr r id patch)
    unfolding update_registered_service
    update_registered_service-Keeps id patch h = validated-Keeps _ _ λ valid.
        Keeps-bind _ _ (h valid) λ updated.
          Keeps-bind _ _ (Keeps-now env)
            λ at. Keeps-bind _ _ (audit-Keeps _ _ _ _ _ _ _) λ _. Keeps-pure updated

    choose_key-Keeps : (key : String) → Keeps P (choose_key env pr r key)
    unfolding choose_key
    choose_key-Keeps key = elim (Bool-cases (str_eq key "")) [
      | inl e ↦ rw e (Keeps-bind _ _ (Keeps-new_uuid env) λ id. Keeps-pure _)
      | inr e ↦ rw e (Keeps-pure key)
    ]

    pub queue_service_evaluation-Keeps :
        (max_attempts : ℕ) (id : Uuid) (key : String)
        → ((job_id : Uuid) (at : Time) (k : String) (payload : Details)
            → Preserves P (upsert_job (new_job job_id at max_attempts id k payload)))
        → Keeps P (queue_service_evaluation env pr r max_attempts id key)
    unfolding queue_service_evaluation
    queue_service_evaluation-Keeps max_attempts id key h =
        Keeps-bind _ _ (get_service-Keeps env peers id) λ _. Keeps-bind _ _ (Keeps-now env) λ at.
          Keeps-bind _ _ (choose_key-Keeps key) λ k. Keeps-bind _ _ (Keeps-new_uuid env) λ job_id.
            Keeps-bind _ _ (enqueue_job-Keeps env peers _ (h _ _ _ _))
              λ enqueued. Keeps-bind _ _ (audit-Keeps _ _ _ _ _ _ _) λ _. Keeps-pure enqueued

    require_requester-Keeps : (v : String) → Keeps P (require_requester env pr r v)
    unfolding require_requester
    require_requester-Keeps v =
        elim (Bool-cases (is_engineer pr.role && not (str_eq pr.subject v))) [
          | inl e ↦ rw e (Keeps-raise _)
          | inr e ↦ rw e (Keeps-pure tt)
        ]

    pub submit_candidate-Keeps :
        (input : DeploymentCandidateInput)
        → ((id : Uuid) (at : Time)
            → Keeps P (create_deployment_candidate env (new_candidate id at input)))
        → Keeps P (submit_candidate env pr r input)
    unfolding submit_candidate
    submit_candidate-Keeps input h = validated-Keeps _ _ λ valid.
        Keeps-bind _ _ (require_requester-Keeps _) λ _.
          Keeps-bind _ _ (get_service-Keeps env peers _) λ _. Keeps-bind _ _ (Keeps-now env) λ at.
            Keeps-bind _ _ (Keeps-new_uuid env) λ id.
              Keeps-bind _ _ (h id at)
                λ created. Keeps-bind _ _ (audit-Keeps _ _ _ _ _ _ _) λ _. Keeps-pure created

    pub require_pending-Keeps : (c : DeploymentCandidate) → Keeps P (require_pending env pr r c)
    unfolding require_pending
    require_pending-Keeps c = elim (Bool-cases (is_pending c.status)) [
      | inl e ↦ rw e (Keeps-pure tt)
      | inr e ↦ rw e (Keeps-raise _)
    ]

    pub evaluate_deployment_candidate-Keeps :
        (id : Uuid)
        → ((s : Option ReadinessSnapshot) (d : PromotionDecision) (st : CandidateStatus)
              (why : String)
            → Keeps P (save_promotion_decision env d.candidate_id s d st why))
        → Keeps P (evaluate_deployment_candidate env pr r id)
    unfolding evaluate_deployment_candidate
    evaluate_deployment_candidate-Keeps id h =
        Keeps-bind _ _ (get_deployment_candidate-Keeps env peers id) λ c.
          Keeps-bind _ _ (require_pending-Keeps c) λ _.
            Keeps-bind _ _ (attempt-Keeps _ (get_latest_snapshot-Keeps env peers c.service_id))
              λ found. Keeps-bind _ _ (ruling-Keeps found) λ g. Keeps-bind _ _ (Keeps-now env) λ at.
                Keeps-bind _ _ (Keeps-new_uuid env) λ decision_id.
                  Keeps-bind _ _ (h g.snapshot _ g.status g.reason)
                    λ updated. Keeps-bind _ _ (audit-Keeps _ _ _ _ _ _ _) λ _. Keeps-pure updated

  pub process_service_evaluation_job-Keeps :
      (job : Job) (worker_id : String)
      → ((s : Service) (draw : ℕ → Uuid) (at : Time)
          → let r = evaluate draw s job.id at in
            Keeps P (save_readiness_evaluation env r.snapshot r.checks))
      → Keeps P (process_service_evaluation_job env job worker_id)
  unfolding process_service_evaluation_job
  process_service_evaluation_job-Keeps job worker_id h =
      Keeps-bind _ _ (get_service-Keeps env peers _) λ s. Keeps-bind _ _ (Keeps-now env) λ at.
        Keeps-bind _ _ (Keeps-new_uuids env 11) λ draw.
          Keeps-bind _ _ (h s draw at)
            λ _. Keeps-bind _ _ (Keeps-now env) λ audited_at. audit-Keeps _ _ _ _ _ _ _
