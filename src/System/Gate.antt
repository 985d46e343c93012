-- ===== src/System/Gate.antt =====
-- The gate of promotion, an invariant of candidates and snapshots.
pub mod Statements
pub mod Evaluation
pub mod Runs
pub mod Verdicts
use golden_path_control_plan.Prelude.{
  ◌≡◌, ◌⊎◌, Bool, true, Option, some, List, [], ◌∷◌, Distinct, ◌==◌, any, All,
}
use golden_path_control_plan.Domain.Models.{
  Uuid, DeploymentCandidate, ReadinessSnapshot, CandidateStatus, approved, ready,
}
use golden_path_control_plan.Effects.Tables.{Database}

unfoldable pub Member : {A : Type 0} → A → List A → Type 0
Member a [] = ⊥
Member a (x ∷ xs) = (x ≡ a) ⊎ Member a xs

-- Its snapshot is stored, is of its own service, and is ready.
pub record HasReady (stored : List ReadinessSnapshot) (c : DeploymentCandidate) : Type 0 where
  pub snapshot : ReadinessSnapshot
  pub named : c.last_snapshot_id ≡ some snapshot.id
  pub kept : Member snapshot stored
  pub own : snapshot.service_id ≡ c.service_id
  pub state : snapshot.state ≡ ready

abbrev pub same_candidate : DeploymentCandidate → DeploymentCandidate → Bool
same_candidate c d = c.id == d.id

pub record Gate (db : Database) : Type 0 where
  pub ids : Distinct same_candidate db.candidates
  pub approvals : All (λ c. c.status ≡ approved → HasReady db.snapshots c) db.candidates

-- A candidate with the identifier is stored, and each that is stored is of the service.
abbrev pub Owner : Uuid → Uuid → Database → Type 0
Owner id service_id db =
    (any (λ d. d.id == id) db.candidates ≡ true)
    × All (λ d. (id == d.id) ≡ true → d.service_id ≡ service_id) db.candidates

-- What a ruling of `status` with the evidence `snapshot` needs, for a candidate of the service
abbrev pub Grounds : Uuid → CandidateStatus → Option Uuid → Database → Type 0
Grounds service_id status snapshot_id db =
    status ≡ approved
    → (s : ReadinessSnapshot) × ((snapshot_id ≡ some s.id)
        × (Member s db.snapshots × ((s.service_id ≡ service_id) × (s.state ≡ ready))))

pub Gate-of_tables :
    (db db' : Database)
    → db'.candidates ≡ db.candidates
    → db'.snapshots ≡ db.snapshots
    → Gate db
    → Gate db'
Gate-of_tables db db' c s v = record { ids = rw c v.ids; approvals = rw (c, s) v.approvals }
