-- ===== src/System/Audited.antt =====
-- The event that each request of a client leaves in the audit trail.
use golden_path_control_plan.Prelude.{
  ℕ, String, ◌≡◌, Bool, true, ◌&&◌, [], ◌∷◌, ◌++◌, any, any-append, arith, str_eq, eq_iff,
}
use golden_path_control_plan.Domain.Models.{Uuid, Time, AuditEvent}
use golden_path_control_plan.Domain.Inputs.{ServiceInput, ServicePatch, DeploymentCandidateInput}
use golden_path_control_plan.Errors.{Result, ok, err}
use golden_path_control_plan.Effects.{Env, World, App, pure, ◌>>◌}
use golden_path_control_plan.Effects.Triple.{
  Pred, Outcome, Triple, Establishes, Triple-pure, Triple-bind, Triple-exec,
}
use golden_path_control_plan.Auth.{Principal}
use golden_path_control_plan.Postgres.Audit.{insert_audit_row, insert_audit_event}
use golden_path_control_plan.ControlPlane.{
  audit, register_service, update_registered_service, queue_service_evaluation, submit_candidate,
  evaluate_deployment_candidate,
}
use golden_path_control_plan.ControlPlane.Entities.{Details, audit_event}
use golden_path_control_plan.System.{
  Operation, register, update, queue, submit, evaluate_candidate, work, step,
}

-- The database of before or after, of which nothing is known
abbrev Any : Pred
Any db = Unit {0}

any-Outcome : {A : Type 0} (x : Result A × World) → Outcome (λ _. Any) Any x
any-Outcome (ok a, w) = tt
any-Outcome (err e, w) = tt

Triple-any : {A : Type 0} (m : App A) → Triple Any m (λ _. Any) Any
Triple-any m = record { at = λ w p. any-Outcome (m w) }

-- An event of a kind, by a principal, under the identifier of a request
abbrev pub is_entry : Principal → String → String → AuditEvent → Bool
is_entry p request_id event_type e =
    str_eq e.actor_subject p.subject
    && (str_eq e.request_id request_id && str_eq e.event_type event_type)

abbrev pub HasEntry : Principal → String → String → Pred
HasEntry p request_id event_type db = any (is_entry p request_id event_type) db.audit_events ≡ true

module _ (p : Principal) (r kind : String) where
  insert-HasEntry :
      (e : AuditEvent)
      → is_entry p r kind e ≡ true
      → Establishes Any (insert_audit_row e) (λ _. HasEntry p r kind)
  unfolding insert_audit_row
  insert-HasEntry e h k db u a db' q =
      let table : db'.audit_events ≡ db.audit_events ++ e ∷ [] = ground arith in
      rw table (ground (arith, any-append (is_entry p r kind) db.audit_events (e ∷ []), h))

  is_entry-audit_event :
      (id : Uuid) (at : Time) (resource_type : String) (resource_id : Uuid) (details : Details)
      → is_entry p r kind (audit_event id at p r kind resource_type resource_id details) ≡ true
  unfolding audit_event
  is_entry-audit_event id at t resource_id details =
      ground (arith, eq_iff p.subject p.subject, eq_iff r r, eq_iff kind kind)

  module _ (env : Env) where
    audit-HasEntry :
        (at : Time) (resource_type : String) (id : Uuid) (details : Details)
        → Triple Any (audit env p r at kind resource_type id details) (λ _. HasEntry p r kind) Any
    unfolding audit insert_audit_event
    audit-HasEntry at t id details = Triple-bind (Triple-any _) λ event_id.
        Triple-exec env (λ db h. tt) (λ a db h. tt) (λ k db h. tt)
          (insert-HasEntry _ (is_entry-audit_event event_id at t id details))

    -- The event is the last that an operation writes.
    last-HasEntry :
        {A : Type 0} (a : A) (at : Time) (resource_type : String) (id : Uuid) (details : Details)
        → Triple Any
            (audit env p r at kind resource_type id details >> pure a)
            (λ _. HasEntry p r kind)
            Any
    last-HasEntry a at t id details =
        Triple-bind (audit-HasEntry at t id details) λ u. Triple-pure a λ db h. h

module _ (env : Env) (p : Principal) (r : String) where
  register-HasEntry :
      (input : ServiceInput)
      → Triple Any (register_service env p r input) (λ _. HasEntry p r "service.registered") Any
  unfolding register_service
  register-HasEntry input = Triple-bind (Triple-any _) λ u. Triple-bind (Triple-any _) λ at.
      Triple-bind (Triple-any _) λ id.
        Triple-bind (Triple-any _) λ policy_id.
          Triple-bind (Triple-any _) λ created. last-HasEntry p r _ env created at _ _ _

  update-HasEntry :
      (id : Uuid) (patch : ServicePatch)
      → Triple Any
          (update_registered_service env p r id patch)
          (λ _. HasEntry p r "service.updated")
          Any
  unfolding update_registered_service
  update-HasEntry id patch = Triple-bind (Triple-any _) λ u.
      Triple-bind (Triple-any _)
        λ updated. Triple-bind (Triple-any _) λ at. last-HasEntry p r _ env updated at _ _ _

  queue-HasEntry :
      (n : ℕ) (id : Uuid) (key : String)
      → Triple Any
          (queue_service_evaluation env p r n id key)
          (λ _. HasEntry p r "service.evaluation_requested")
          Any
  unfolding queue_service_evaluation
  queue-HasEntry n id key = Triple-bind (Triple-any _) λ s. Triple-bind (Triple-any _) λ at.
      Triple-bind (Triple-any _) λ k.
        Triple-bind (Triple-any _)
          λ job_id. Triple-bind (Triple-any _) λ enqueued. last-HasEntry p r _ env enqueued at _ _ _

  submit-HasEntry :
      (input : DeploymentCandidateInput)
      → Triple Any
          (submit_candidate env p r input)
          (λ _. HasEntry p r "deployment_candidate.created")
          Any
  unfolding submit_candidate
  submit-HasEntry input = Triple-bind (Triple-any _) λ u. Triple-bind (Triple-any _) λ v.
      Triple-bind (Triple-any _) λ s. Triple-bind (Triple-any _) λ at.
        Triple-bind (Triple-any _)
          λ id. Triple-bind (Triple-any _) λ created. last-HasEntry p r _ env created at _ _ _

  evaluate-HasEntry :
      (id : Uuid)
      → Triple Any
          (evaluate_deployment_candidate env p r id)
          (λ _. HasEntry p r "deployment_candidate.evaluated")
          Any
  unfolding evaluate_deployment_candidate
  evaluate-HasEntry id = Triple-bind (Triple-any _) λ c. Triple-bind (Triple-any _) λ u.
      Triple-bind (Triple-any _) λ found. Triple-bind (Triple-any _) λ ruling.
        Triple-bind (Triple-any _) λ at. Triple-bind (Triple-any _) λ decision_id.
          Triple-bind (Triple-any _) λ updated. last-HasEntry p r _ env updated at _ _ _

-- What an operation leaves in the trail
abbrev pub IsAudited : Operation → Pred
IsAudited (register p r input) = HasEntry p r "service.registered"
IsAudited (update p r id patch) = HasEntry p r "service.updated"
IsAudited (queue p r id key) = HasEntry p r "service.evaluation_requested"
IsAudited (submit p r input) = HasEntry p r "deployment_candidate.created"
IsAudited (evaluate_candidate p r id) = HasEntry p r "deployment_candidate.evaluated"
IsAudited (work worker_id n lease) = Any

at-success :
    (Q : Pred) (x : Result (Unit {0}) × World) → Outcome (λ _. Q) Any x → x.0 ≡ ok tt → Q x.1.db
at-success Q (ok a, w) h e = h
at-success Q (err x, w) h e = cc

module _ (env : Env) (job_max_attempts : ℕ) where
  step-Triple : (o : Operation) → Triple Any (step env job_max_attempts o) (λ _. IsAudited o) Any
  unfolding step
  step-Triple (register p r input) =
      Triple-bind (register-HasEntry env p r input) λ a. Triple-pure tt λ db h. h
  step-Triple (update p r id patch) =
      Triple-bind (update-HasEntry env p r id patch) λ a. Triple-pure tt λ db h. h
  step-Triple (queue p r id key) =
      Triple-bind (queue-HasEntry env p r job_max_attempts id key) λ a. Triple-pure tt λ db h. h
  step-Triple (submit p r input) =
      Triple-bind (submit-HasEntry env p r input) λ a. Triple-pure tt λ db h. h
  step-Triple (evaluate_candidate p r id) =
      Triple-bind (evaluate-HasEntry env p r id) λ a. Triple-pure tt λ db h. h
  step-Triple (work worker_id n lease) = Triple-any _

  -- After a request of a client that succeeds, to register or to update a service, to have it evaluated,
  -- to submit a deployment candidate or to have one evaluated, the audit trail has an event of that
  -- kind, by this client, under the identifier of this request; whatever other sessions do.
  pub step-IsAudited :
      (o : Operation) (w : World)
      → (step env job_max_attempts o w).0 ≡ ok tt
      → IsAudited o (step env job_max_attempts o w).1.db
  step-IsAudited o w e = at-success (IsAudited o) _ ((step-Triple o).at w tt) e
