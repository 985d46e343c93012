-- ===== src/Domain/Transitions.antt =====
-- The state machine of a deployment candidate: `CanTransitionTo` of internal/domain/models.go.
use golden_path_control_plan.Prelude.{Bool, true, false, ◌||◌}
use golden_path_control_plan.Domain.Models.{CandidateStatus, pending, approved, rejected}

abbrev is_approved : CandidateStatus → Bool
is_approved approved = true
is_approved _ = false

abbrev is_rejected : CandidateStatus → Bool
is_rejected rejected = true
is_rejected _ = false

unfoldable pub can_transition_to : CandidateStatus → CandidateStatus → Bool
can_transition_to pending next = is_approved next || is_rejected next
can_transition_to approved next = false
can_transition_to rejected next = false
