-- ===== src/System/Jobs/Idempotency.antt =====
-- Requests with one idempotency key, internal/app/controlplane.go over internal/postgres/services.go.
use golden_path_control_plan.Prelude.{
  ℕ, String, ◌≡◌, ◌≢◌, refl, sym, ap, ◌∙◌, subst, false, List, arith, str_eq, eq_iff,
}
use golden_path_control_plan.Domain.Models.{Uuid, Time, Job, AuditEvent}
use golden_path_control_plan.Errors.{Result, ok, err}
use golden_path_control_plan.Effects.{Env, World}
use golden_path_control_plan.Effects.Rules.{Preserves, PeersKeep}
use golden_path_control_plan.Effects.Triple.{
  Pred, Outcome, Triple, Establishes, Triple-pure, Triple-now, Triple-new_uuid, Triple-bind,
  Triple-exec, Triple-given, Triple-failing, Keeps-Triple,
}
use golden_path_control_plan.Auth.{Principal}
use golden_path_control_plan.Postgres.Jobs.{upsert_job, enqueue_job}
use golden_path_control_plan.ControlPlane.{queue_service_evaluation, choose_key}
use golden_path_control_plan.ControlPlane.Entities.{new_job, Details}
use golden_path_control_plan.System.{Operation, run}
use golden_path_control_plan.System.Statements.{run_statements-Keeps}
use golden_path_control_plan.System.Jobs.Statements.{insert_audit_row-Preserves}
use golden_path_control_plan.Postgres.Audit.{insert_audit_row}
use golden_path_control_plan.Postgres.Keeps.{get_service-Keeps}
use golden_path_control_plan.ControlPlane.Keeps.{audit-Keeps}
use golden_path_control_plan.System.Jobs.Keys.{
  Keyed, moved, upsert_job-Keyed, upsert_job-found, statements-Keyed,
}

-- The database of before or after, of which nothing is known
abbrev Any : Pred
Any db = Unit {0}

choose_key-Triple :
    (env : Env) (P : Pred) (p : Principal) (r key : String)
    → key ≢ ""
    → Triple P (choose_key env p r key) (λ k db. P db × (k ≡ key)) Any
unfolding choose_key
choose_key-Triple env P p r key filled =
    let e : str_eq key "" ≡ false = ground (arith, eq_iff key "") in
    rw e (Triple-pure key λ db h. (h, refl))

-- A request to evaluate a service returns the job that its statement makes `Q` true of.
queue-Triple :
    (env : Env) (P : Pred) (Q : Job → Pred) (p : Principal) (r : String) (n : ℕ) (s : Uuid)
    (key : String)
    → key ≢ ""
    → PeersKeep env P
    → ((i : Uuid) (at : Time) (payload : Details)
        → Establishes P (upsert_job (new_job i at n s key payload)) Q)
    → ((j : Job) → PeersKeep env (Q j))
    → ((j : Job) (e : AuditEvent) → Preserves (Q j) (insert_audit_row e))
    → Triple P (queue_service_evaluation env p r n s key) Q Any
unfolding queue_service_evaluation enqueue_job
queue-Triple env P Q p r n s key filled peers est peers' audits =
    Triple-bind (Triple-failing (λ db h. tt) (Keeps-Triple (get_service-Keeps env peers s))) λ v.
      Triple-bind (Triple-now env λ db h. h) λ at.
        Triple-bind (choose_key-Triple env P p r key filled) λ k. Triple-given λ same.
          Triple-bind (Triple-new_uuid env λ db h. h) λ id.
            Triple-bind (Triple-exec env (λ db h. tt) (λ a db h. tt) peers (rw same (est id at _)))
              λ j.
                Triple-bind
                  (Triple-failing (λ db h. tt)
                    (Keeps-Triple (audit-Keeps env (peers' j) (audits j) p r at _ _ s _)))
                  λ u. Triple-pure j λ db h. h

at-success :
    {A : Type 0} (Q : A → Pred) (x : Result A × World) (a : A)
    → Outcome Q Any x
    → x.0 ≡ ok a
    → Q a x.1.db
at-success Q (ok b, w) a h e = subst (λ r. Outcome Q Any (r, w)) e h
at-success Q (err x, w) a h e = cc

module _ (env : Env) (key : String) (filled : key ≢ "")
    (peers : (id service_id : Uuid) → PeersKeep env (Keyed key id service_id)) where
  -- The job that is returned is the one that the key stands for.
  queue-Keyed :
      (p : Principal) (r : String) (n : ℕ) (s : Uuid)
      → Triple Any
          (queue_service_evaluation env p r n s key)
          (λ j. Keyed key j.id j.resource_id)
          Any
  queue-Keyed p r n s =
      queue-Triple env Any (λ j. Keyed key j.id j.resource_id) p r n s key filled (λ k db h. tt)
        (λ i at payload k db h a db' e. record {
          row = a;
          stored = upsert_job-found i at n s key payload k db db' a e;
          same = refl;
          resource = refl;
        })
        (λ j. peers j.id j.resource_id)
        (λ j e.
          insert_audit_row-Preserves (Keyed key j.id j.resource_id) (moved key j.id j.resource_id)
            e)

  abbrev Same : Uuid → Uuid → Job → Pred
  Same id service_id j db = (j.id ≡ id) × (j.resource_id ≡ service_id)

  queue-Same :
      (p : Principal) (r : String) (n : ℕ) (s id service_id : Uuid)
      → Triple
          (Keyed key id service_id)
          (queue_service_evaluation env p r n s key)
          (Same id service_id)
          Any
  queue-Same p r n s id service_id =
      queue-Triple env (Keyed key id service_id) (Same id service_id) p r n s key filled
        (peers id service_id)
        (λ i at payload k db v a db' e.
          let v' = (upsert_job-Keyed key id service_id i at n s key payload).at k db v a db' e in
          let found = upsert_job-found i at n s key payload k db db' a e in
          let row : v'.row ≡ a = cc (v'.stored, found) in
          (ap (λ j. j.id) (sym row) ∙ v'.same, ap (λ j. j.resource_id) (sym row) ∙ v'.resource))
        (λ j k db h. h) (λ j e. record { at = λ k db h a db' q. h })

  -- Let other sessions leave the job that a key stands for. Let a request to evaluate a service with a key
  -- that is not empty have returned a job, and let any requests and rounds of workers follow, failed
  -- ones included. Then a request with this key that returns a job, whoever sends it and whichever
  -- service it names, returns the same job, and this job is still for the service that the job was for.
  pub queue-idempotent :
      (m : ℕ) (p p' : Principal) (r r' : String) (n n' : ℕ) (s s' : Uuid)
      (operations : List Operation) (w : World) (j j' : Job)
      → (queue_service_evaluation env p r n s key w).0 ≡ ok j
      → (queue_service_evaluation env p' r' n' s' key
          (run env m operations (queue_service_evaluation env p r n s key w).1)).0
        ≡ ok j'
      → (j'.id ≡ j.id) × (j'.resource_id ≡ j.resource_id)
  queue-idempotent m p p' r r' n n' s s' operations w j j' e e' =
      let first =
        at-success (λ i. Keyed key i.id i.resource_id) _ j ((queue-Keyed p r n s).at w tt) e in
      let still =
        run_statements-Keeps env _
          (statements-Keyed key j.id j.resource_id env (peers j.id j.resource_id)) m operations _
          first in
      at-success (Same j.id j.resource_id) _ j'
        ((queue-Same p' r' n' s' j.id j.resource_id).at _ still) e'
