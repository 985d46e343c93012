-- ===== src/System.antt =====
-- The whole control plane: the requests of its clients and the rounds of its workers, one after
-- another, over one database, with other sessions acting in between.
pub mod Services
pub mod Jobs
pub mod Candidates
pub mod Trail
pub mod Gate
pub mod Statements
pub mod Loop
pub mod Refusals
pub mod Audited
use golden_path_control_plan.Prelude.{ℕ, String, List, [], ◌∷◌}
use golden_path_control_plan.Domain.Models.{Uuid, Time}
use golden_path_control_plan.Domain.Inputs.{ServiceInput, ServicePatch, DeploymentCandidateInput}
use golden_path_control_plan.Effects.{Env, World, App, pure, ◌>>=◌, ◌>>◌}
use golden_path_control_plan.Effects.Tables.{Database}
use golden_path_control_plan.Effects.Rules.{Keeps}
use golden_path_control_plan.Auth.{Principal}
use golden_path_control_plan.ControlPlane.{
  register_service, update_registered_service, queue_service_evaluation, submit_candidate,
  evaluate_deployment_candidate,
}
use golden_path_control_plan.Worker.{run_once}

-- A principal and the request's identifier, then what the client sends; or a worker's identifier,
-- its batch size and its lease.
pub data Operation : Type 0 where
  register : Principal → String → ServiceInput → Operation
  update : Principal → String → Uuid → ServicePatch → Operation
  queue : Principal → String → Uuid → String → Operation
  submit : Principal → String → DeploymentCandidateInput → Operation
  evaluate_candidate : Principal → String → Uuid → Operation
  work : String → ℕ → Time → Operation

-- `job_max_attempts` is the control plane's setting.
unfoldable pub step : Env → ℕ → Operation → App (Unit {0})
step env job_max_attempts (register p r input) = do register_service env p r input; pure tt
step env job_max_attempts (update p r id patch) = do
  update_registered_service env p r id patch
  pure tt
step env job_max_attempts (queue p r id key) = do
  queue_service_evaluation env p r job_max_attempts id key
  pure tt
step env job_max_attempts (submit p r input) = do submit_candidate env p r input; pure tt
step env job_max_attempts (evaluate_candidate p r id) = do
  evaluate_deployment_candidate env p r id
  pure tt
step env job_max_attempts (work worker_id batch_size lease) =
    run_once env worker_id batch_size lease

-- A failed operation leaves what it has done, and the next one starts from there.
unfoldable pub run : Env → ℕ → List Operation → World → World
run env job_max_attempts [] w = w
run env job_max_attempts (o ∷ os) w = run env job_max_attempts os (step env job_max_attempts o w).1

pub run-Keeps :
    {P : Database → Type 0} (env : Env) (job_max_attempts : ℕ)
    → ((o : Operation) → Keeps P (step env job_max_attempts o))
    → (os : List Operation) (w : World) → P w.db
    → P (run env job_max_attempts os w).db
unfolding run
run-Keeps env n keep [] w p = p
run-Keeps env n keep (o ∷ os) w p = run-Keeps env n keep os _ ((keep o).at w p)
