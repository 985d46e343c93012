-- ===== src/Examples/Sessions.antt =====
-- A session beside the server that submits a candidate of its own, on the example data.
use golden_path_control_plan.Prelude.{
  ◌==◌, ◌≡◌, refl, ◌∙◌, true, false, [], ◌∷◌, ◌++◌, arith, any, All-append, any-append,
}
use golden_path_control_plan.Domain.Models.{Uuid, DeploymentCandidate, ReadinessSnapshot}
use golden_path_control_plan.Errors.{Result, ok, err}
use golden_path_control_plan.Effects.{Env}
use golden_path_control_plan.Effects.Tables.{Database}
use golden_path_control_plan.Effects.Rules.{Preserves, PeersKeep}
use golden_path_control_plan.Postgres.Candidates.{insert_candidate}
use golden_path_control_plan.ControlPlane.Entities.{new_candidate}
use golden_path_control_plan.System.{run}
use golden_path_control_plan.System.Gate.{Gate, Owner, Member}
use golden_path_control_plan.System.Gate.Statements.{insert_candidate-Gate}
use golden_path_control_plan.System.Gate.Evaluation.{PeersKeepGate}
use golden_path_control_plan.System.Gate.Runs.{run-Gate}
use golden_path_control_plan.Examples.Data.{env, candidate_input, start, operations}
use golden_path_control_plan.Examples.Runs.{database-Gate}

abbrev submitted : DeploymentCandidate
submitted = new_candidate 77 4000000 candidate_input

abbrev committed : Result (Unit {0} × Database) → Database → Database
committed (ok (a, db')) db = db'
committed (err e) db = db

abbrev pub busy : Env
busy = record env { peers = λ k db. committed (insert_candidate submitted k db) db }

insert_candidate-Owner :
    (id service_id : Uuid) → Preserves (Owner id service_id) (insert_candidate submitted)
unfolding insert_candidate new_candidate
insert_candidate-Owner id service_id = record {
  at = λ k db (stored, owner) a db' e.
      let rows : db'.candidates ≡ db.candidates ++ submitted ∷ [] = ground arith in
      let fresh : any (λ d. d.id == submitted.id) db.candidates ≡ false = ground arith in
      let here : any (λ d. d.id == id) (db.candidates ++ submitted ∷ []) ≡ true =
        any-append (λ d. d.id == id) db.candidates (submitted ∷ []) ∙ rw stored refl in
      rw rows (
        here,
        All-append _ db.candidates (submitted ∷ []) owner (
          λ q.
              let same : id ≡ submitted.id = ground arith in absurd (cc (rw same at stored, fresh)),
          tt,
        ),
      );
}

insert_candidate-Member :
    (s : ReadinessSnapshot) → Preserves (λ db. Member s db.snapshots) (insert_candidate submitted)
unfolding insert_candidate new_candidate
insert_candidate-Member s = record {
  at = λ k db m a db' e. let same : db'.snapshots ≡ db.snapshots = ground arith in rw same m;
}

module _ (P : Database → Type 0) where
  committed-kept :
      (db : Database) (r : Result (Unit {0} × Database))
      → P db
      → ((a : Unit {0}) (db' : Database) → r ≡ ok (a, db') → P db')
      → P (committed r db)
  committed-kept db (ok (a, db')) v h = h a db' refl
  committed-kept db (err e) v h = v

  busy-PeersKeep : Preserves P (insert_candidate submitted) → PeersKeep busy P
  busy-PeersKeep h k db v = committed-kept db (insert_candidate submitted k db) v (h.at k db v)

pub busy-PeersKeepGate : PeersKeepGate busy
busy-PeersKeepGate = record {
  gate = busy-PeersKeep Gate (insert_candidate-Gate 77 4000000 candidate_input);
  owners = λ id s. busy-PeersKeep (Owner id s) (insert_candidate-Owner id s);
  snapshots = λ s. busy-PeersKeep (λ db. Member s db.snapshots) (insert_candidate-Member s);
}

run-Gate_example : Gate (run busy 5 operations start).db
run-Gate_example = run-Gate busy busy-PeersKeepGate 5 operations start database-Gate
