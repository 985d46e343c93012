-- ===== src/ControlPlane/Rules.antt =====
-- What internal/app/controlplane.go refuses, and what it makes of a snapshot.
use golden_path_control_plan.Prelude.{
  String, ◌≡◌, refl, ◌≢◌, ◌↔◌, ◌⊎◌, inl, inr, true, false, some, arith, str_eq, eq_iff,
  Option-cases,
}
use golden_path_control_plan.Domain.Models.{Uuid, ReadinessSnapshot, ready, pending, approved}
use golden_path_control_plan.Domain.Inputs.{ServiceInput, ServicePatch, DeploymentCandidateInput}
use golden_path_control_plan.Domain.Validation.{
  validate_service, validate_patch, validate_candidate,
}
use golden_path_control_plan.Domain.Validation.Accepts.{
  IsValidService, IsValidPatch, IsValidCandidate,
}
use golden_path_control_plan.Domain.Validation.Laws.{service_iff, patch_iff, candidate_iff}
use golden_path_control_plan.Domain.Transitions.{can_transition_to}
use golden_path_control_plan.Errors.{validation, err}
use golden_path_control_plan.Effects.{Env, World, App, pure, raise, ◌>>=◌, continue}
use golden_path_control_plan.Auth.{Principal}
use golden_path_control_plan.ControlPlane.{
  register_service, update_registered_service, submit_candidate, is_engineer, require_requester,
  judge,
}

-- A call that is refused as invalid, and reads and writes nothing
abbrev pub IsRefused : {A : Type 0} → App A → World → Type 0
IsRefused m w = (e : String) × (m w ≡ (err (validation e), w))

module _ (env : Env) (p : Principal) (r : String) (w : World) where
  -- A service whose input is not valid is not registered: the client gets a validation error, and no
  -- clock, no identifier and no table is touched.
  pub register_service-refuses :
      (input : ServiceInput)
      → ¬ IsValidService env.parsers input
      → IsRefused (register_service env p r input) w
  unfolding register_service ◌>>=◌ continue raise
  register_service-refuses input bad = elim (Option-cases (validate_service env.parsers input)) [
    | inl e ↦ absurd (bad ((service_iff env.parsers input).0 e))
    | inr (m, e) ↦ (m, rw e refl)
  ]

  -- A patch that is not valid is not applied: the client gets a validation error, and no clock, no
  -- identifier and no table is touched.
  pub update_registered_service-refuses :
      (id : Uuid) (patch : ServicePatch)
      → ¬ IsValidPatch env.parsers patch
      → IsRefused (update_registered_service env p r id patch) w
  unfolding update_registered_service ◌>>=◌ continue raise
  update_registered_service-refuses id patch bad =
      elim (Option-cases (validate_patch env.parsers patch)) [
        | inl e ↦ absurd (bad ((patch_iff env.parsers patch).0 e))
        | inr (m, e) ↦ (m, rw e refl)
      ]

  -- A deployment candidate that is not valid, or that an engineer submits in another's name, is
  -- refused with a validation error, and no clock, no identifier and no table is touched.
  pub submit_candidate-refuses :
      (input : DeploymentCandidateInput)
      → (¬ IsValidCandidate env.parsers input)
        ⊎ ((is_engineer p.role ≡ true) × (p.subject ≢ input.requested_by))
      → IsRefused (submit_candidate env p r input) w
  unfolding submit_candidate require_requester ◌>>=◌ continue raise pure
  submit_candidate-refuses input bad = elim (Option-cases (validate_candidate env.parsers input)) [
    | inl e ↦ elim bad [
      | inl n ↦ absurd (n ((candidate_iff env.parsers input).0 e))
      | inr (engineer, differ) ↦
          let other : str_eq p.subject input.requested_by ≡ false =
            ground (arith, eq_iff p.subject input.requested_by) in
          (
            "deployment_candidate.requested_by must match authenticated subject",
            rw (e, engineer, other) refl,
          )
    ]
    | inr (m, e) ↦ (m, rw e refl)
  ]

pub judge_lem :
    (s : ReadinessSnapshot)
    → (((judge s).status ≡ approved) ↔ (s.state ≡ ready))
      × ((judge s).snapshot ≡ some s)
      × (can_transition_to pending (judge s).status ≡ true)
unfolding judge can_transition_to
judge_lem s = ground arith
