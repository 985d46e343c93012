-- ===== src/System/Gate/Evaluation.antt =====
-- The gate of promotion under `EvaluateDeploymentCandidate` of internal/app/controlplane.go.
use golden_path_control_plan.Prelude.{String, ◌≡◌, ap, subst}
use golden_path_control_plan.Domain.Models.{
  Uuid, DeploymentCandidate, ReadinessSnapshot, PromotionDecision, AuditEvent,
}
use golden_path_control_plan.Errors.{Result, ok, err, not_found}
use golden_path_control_plan.Effects.{Env, App}
use golden_path_control_plan.Effects.Rules.{
  Keeps, Preserves, PeersKeep, Keeps-pure, Keeps-bind, Keeps-exec_in,
}
use golden_path_control_plan.Effects.Triple.{
  Pred, Triple, After, Triple-pure, Triple-raise, Triple-now, Triple-new_uuid, Triple-bind,
  Triple-exec, Triple-exec_in, Triple-transaction, attempt-Outcome, Triple-failing, Triple-Keeps,
  Keeps-Triple,
}
use golden_path_control_plan.Auth.{Principal}
use golden_path_control_plan.Postgres.Readiness.{get_latest_snapshot}
use golden_path_control_plan.Postgres.Candidates.{
  get_deployment_candidate, upsert_decision, save_promotion_decision, snapshot_id_of,
}
use golden_path_control_plan.Postgres.Audit.{insert_audit_row}
use golden_path_control_plan.Postgres.Frames.{upsert_decision-frame, insert_audit_row-frame}
use golden_path_control_plan.Postgres.Keeps.{expect_one-Keeps, get_deployment_candidate-Keeps}
use golden_path_control_plan.ControlPlane.{
  attempt, Ruling, ruling, judge, no_evidence, evaluate_deployment_candidate,
}
use golden_path_control_plan.ControlPlane.Keeps.{audit-Keeps, require_pending-Keeps}
use golden_path_control_plan.ControlPlane.Rules.{judge_lem}
use golden_path_control_plan.System.Gate.{Gate, Owner, Grounds, Member, Gate-of_tables}
use golden_path_control_plan.System.Gate.Statements.{
  update_candidate-Gate, select_candidate-Owner, select_latest_snapshot-Member,
}

-- Other sessions keep the gate, keep every stored candidate and leave it to its service, and delete no
-- snapshot. They may add candidates and snapshots.
pub record PeersKeepGate (env : Env) : Type 0 where
  pub gate : PeersKeep env Gate
  pub owners : (id service_id : Uuid) → PeersKeep env (Owner id service_id)
  pub snapshots : (s : ReadinessSnapshot) → PeersKeep env (λ db. Member s db.snapshots)

abbrev Read : DeploymentCandidate → Pred
Read c db = Gate db × Owner c.id c.service_id db

abbrev Found : DeploymentCandidate → ReadinessSnapshot → Pred
Found c s db = Read c db × (Member s db.snapshots × (s.service_id ≡ c.service_id))

abbrev Ruled : DeploymentCandidate → Ruling → Pred
Ruled c g db =
    Gate db
    × (Owner c.id c.service_id db × Grounds c.service_id g.status (snapshot_id_of g.snapshot) db)

ruling-Ruled :
    (c : DeploymentCandidate) (found : Result ReadinessSnapshot)
    → Triple (After (Found c) (Read c) found) (ruling found) (Ruled c) Gate
unfolding ruling
ruling-Ruled c (ok s) =
    let (approves, evidence, allowed) = judge_lem s in
    Triple-pure (judge s) λ db ((v, owner), (member, own)).
      (v, (owner, λ h. (s, (ap snapshot_id_of evidence, (member, (own, approves.0 h))))))
ruling-Ruled c (err not_found) = Triple-pure no_evidence λ db (v, owner). (v, (owner, λ h. cc))
ruling-Ruled c (err e) = Triple-raise e λ db q. q.0

pub insert_audit_row-Gate : (e : AuditEvent) → Preserves Gate (insert_audit_row e)
insert_audit_row-Gate e = record {
  at = λ k db v a db' q.
      let f = insert_audit_row-frame k db db' e q in
      Gate-of_tables db db' (ap (λ d. d.candidates) f) (ap (λ d. d.snapshots) f) v;
}

insert_audit_row-Read :
    (c : DeploymentCandidate) (e : AuditEvent) → Preserves (Read c) (insert_audit_row e)
insert_audit_row-Read c e = record {
  at = λ k db (v, owner) a db' q.
      let rows = ap (λ d. d.candidates) (insert_audit_row-frame k db db' e q) in
      ((insert_audit_row-Gate e).at k db v a db' q, rw rows owner);
}

Triple-attempt :
    {P E E' : Pred} {A : Type 0} {Q : A → Pred} {m : App A}
    → Triple P m Q E
    → Triple P (attempt m) (After Q E) E'
unfolding attempt
Triple-attempt {E = E} {Q = Q} {m = m} t = record {
  at = λ w p. attempt-Outcome Q E (m w) (t.at w p);
}

upsert_decision-Gate : (p : PromotionDecision) → Preserves Gate (upsert_decision p)
upsert_decision-Gate p = record {
  at = λ k db v a db' q.
      let f = upsert_decision-frame k db db' p q in
      Gate-of_tables db db' (ap (λ d. d.candidates) f) (ap (λ d. d.snapshots) f) v;
}

module _ (env : Env) (peers : PeersKeepGate env) where
  get_deployment_candidate-Read :
      (id : Uuid) → Triple Gate (get_deployment_candidate env id) Read Gate
  unfolding get_deployment_candidate
  get_deployment_candidate-Read id =
      Triple-exec env (λ db v. v) (λ c db q. q.0) peers.gate (select_candidate-Owner id)

  peers-Read : (c : DeploymentCandidate) → PeersKeep env (Read c)
  peers-Read c k db (v, owner) = (peers.gate k db v, peers.owners c.id c.service_id k db owner)

  peers-Ruled : (c : DeploymentCandidate) (g : Ruling) → PeersKeep env (Ruled c g)
  peers-Ruled c g k db (v, (owner, grounds)) = (
    peers.gate k db v,
    (
      peers.owners c.id c.service_id k db owner,
      λ h.
          let (s, (named, (member, rest))) = grounds h in
          (s, (named, (peers.snapshots s k db member, rest))),
    ),
  )

  get_latest_snapshot-Found :
      (c : DeploymentCandidate)
      → Triple (Read c) (get_latest_snapshot env c.service_id) (Found c) (Read c)
  unfolding get_latest_snapshot
  get_latest_snapshot-Found c =
      Triple-exec env (λ db v. v) (λ s db q. q.0) (peers-Read c)
        λ k db v s db' e.
          let (member, same) = select_latest_snapshot-Member c.service_id k db db' s e in
          (subst (Read c) same v, member)

  save_promotion_decision-Gate :
      (c : DeploymentCandidate) (g : Ruling) (d : PromotionDecision)
      → Triple
          (Ruled c g)
          (save_promotion_decision env c.id g.snapshot d g.status g.reason)
          (λ _. Gate)
          Gate
  unfolding save_promotion_decision
  save_promotion_decision-Gate c g d =
      Triple-bind
        (Triple-transaction env (peers-Ruled c g) (λ db q. q.0) (λ a db v. v)
          (Triple-bind (Triple-now env λ db q. q) λ at.
            Triple-bind
              (Triple-exec_in env (λ db q. q.0) (λ n db v. v)
                (update_candidate-Gate c.id c.service_id g.status g.reason
                  (snapshot_id_of g.snapshot) at))
              λ n. Keeps-Triple (
                Keeps-bind _ _ (expect_one-Keeps n)
                  λ _. Keeps-exec_in env _ (upsert_decision-Gate d))))
        λ _. Keeps-Triple (get_deployment_candidate-Keeps env peers.gate c.id)

  pub evaluate_deployment_candidate-Gate :
      (p : Principal) (r : String) (id : Uuid)
      → Keeps Gate (evaluate_deployment_candidate env p r id)
  unfolding evaluate_deployment_candidate
  evaluate_deployment_candidate-Gate p r id = Triple-Keeps (
      Triple-bind (get_deployment_candidate-Read id) λ c.
        Triple-bind
          (Triple-failing (λ db q. q.0)
            (Keeps-Triple
              (require_pending-Keeps env (peers-Read c) (insert_audit_row-Read c) p r c)))
          λ _. Triple-bind (Triple-attempt (get_latest_snapshot-Found c)) λ found.
            Triple-bind (ruling-Ruled c found) λ g. Triple-bind (Triple-now env λ db q. q) λ at.
              Triple-bind (Triple-new_uuid env λ db q. q) λ decision_id.
                Triple-bind (save_promotion_decision-Gate c g _) λ updated. Keeps-Triple (
                  Keeps-bind _ _ (audit-Keeps env peers.gate insert_audit_row-Gate p r _ _ _ _ _)
                    λ _. Keeps-pure updated))
