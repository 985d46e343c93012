-- ===== src/System/Refusals.antt =====
-- Requests that are not valid, as operations of the whole control plane.
use golden_path_control_plan.Prelude.{ℕ, ◌≡◌, ◌≢◌, ◌⊎◌, refl, true}
use golden_path_control_plan.Effects.{Env, World, App, ◌>>=◌, continue}
use golden_path_control_plan.Domain.Validation.Accepts.{
  IsValidService, IsValidPatch, IsValidCandidate,
}
use golden_path_control_plan.ControlPlane.{is_engineer}
use golden_path_control_plan.ControlPlane.Rules.{
  IsRefused, register_service-refuses, update_registered_service-refuses, submit_candidate-refuses,
}
use golden_path_control_plan.System.{
  Operation, register, update, queue, submit, evaluate_candidate, work, step,
}

-- The input or the patch of a service that is not valid, and the deployment candidate that is not valid or
-- that an engineer submits in another's name
abbrev pub IsInvalid : Env → Operation → Type 0
IsInvalid env (register p r input) = ¬ IsValidService env.parsers input
IsInvalid env (update p r id patch) = ¬ IsValidPatch env.parsers patch
IsInvalid env (submit p r input) =
    (¬ IsValidCandidate env.parsers input)
    ⊎ ((is_engineer p.role ≡ true) × (p.subject ≢ input.requested_by))
IsInvalid env _ = ⊥

module _ (env : Env) (w : World) where
  bind-IsRefused :
      {A B : Type 0} (m : App A) (f : A → App B) → IsRefused m w → IsRefused (m >>= f) w
  unfolding ◌>>=◌ continue
  bind-IsRefused m f (e, h) = (e, rw h refl)

  -- A service or a patch that is not valid, and a deployment candidate that is not valid or that an
  -- engineer submits in another's name, is refused: the client gets a validation error, and no clock, no
  -- identifier, no exchange and no table is touched.
  pub step-refuses :
      (job_max_attempts : ℕ) (o : Operation)
      → IsInvalid env o
      → IsRefused (step env job_max_attempts o) w
  unfolding step
  step-refuses n (register p r input) bad =
      bind-IsRefused _ _ (register_service-refuses env p r w input bad)
  step-refuses n (update p r id patch) bad =
      bind-IsRefused _ _ (update_registered_service-refuses env p r w id patch bad)
  step-refuses n (submit p r input) bad =
      bind-IsRefused _ _ (submit_candidate-refuses env p r w input bad)
  step-refuses n (queue p r id key) bad = absurd bad
  step-refuses n (evaluate_candidate p r id) bad = absurd bad
  step-refuses n (work id batch lease) bad = absurd bad
