-- ===== src/Api/Errors.antt =====
-- How `writeError` of internal/api/server.go answers the errors of the control plane.
use golden_path_control_plan.Prelude.{String, ◌≡◌, ◌↔◌, ◌⊎◌, inr, refl, none, arith}
use golden_path_control_plan.Domain.Models.{Uuid, CandidateStatus}
use golden_path_control_plan.Errors.{
  Error, not_found, lost_row, validation, state_conflict, unique_violation, constraint_violation,
  not_encodable, unavailable, unsupported_job,
}
use golden_path_control_plan.Httpx.{Response, respond_error}
use golden_path_control_plan.Api.{write_error}
use golden_path_control_plan.Api.Requests.{Server, Payload}

-- The client's input is at fault.
abbrev pub IsInvalid : Error → Type 0
IsInvalid e = (text : String) × (e ≡ validation text)

-- The state of what the request is about does not allow it.
abbrev pub IsConflict : Error → Type 0
IsConflict e =
    (e ≡ lost_row)
    ⊎ ((e ≡ unique_violation) ⊎ ((id : Uuid) × ((s : CandidateStatus) × (e ≡ state_conflict id s))))

-- The database, or the program, failed.
abbrev pub IsInternal : Error → Type 0
IsInternal constraint_violation = Unit {0}
IsInternal not_encodable = Unit {0}
IsInternal unavailable = Unit {0}
IsInternal (unsupported_job t) = Unit {0}
IsInternal _ = ⊥

-- An envelope that tells the client neither what failed nor why
abbrev pub TellsNothing : String → Response Payload → Type 0
TellsNothing id r =
    r ≡ respond_error id 500 "internal_error" "The server could not complete the request." none

module _ (server : Server) (id : String) where
  -- An error is answered with 404 exactly if what was asked for was not found, with 400 exactly if
  -- the input was not valid, with 409 exactly if the state conflicts, and with 500 exactly if it is
  -- one of the database or of the program; then the answer tells nothing of the error.
  pub write_error-status :
      (e : Error)
      → let r = write_error server id e in
        ((r.status ≡ 404) ↔ (e ≡ not_found))
        × ((r.status ≡ 400) ↔ IsInvalid e)
        × ((r.status ≡ 409) ↔ IsConflict e)
        × ((r.status ≡ 500) ↔ IsInternal e)
        × (r.status ≡ 500 → TellsNothing id r)
  unfolding write_error respond_error
  write_error-status not_found = ground arith
  write_error-status lost_row = ground arith
  write_error-status (validation t) =
      (ground arith, (λ h. (t, refl), λ h. refl), ground arith, ground arith, ground arith)
  write_error-status (state_conflict c s) = (
    ground arith,
    ground arith,
    (λ h. inr (inr (c, (s, refl))), λ h. refl),
    ground arith,
    ground arith,
  )
  write_error-status unique_violation = ground arith
  write_error-status constraint_violation = ground arith
  write_error-status not_encodable = ground arith
  write_error-status unavailable = ground arith
  write_error-status (unsupported_job t) = ground arith
