-- ===== src/Errors.antt =====
-- The errors that the program tells apart: internal/app/errors.go, the two of
-- internal/postgres/postgres.go, and those of the database, by what `errors.Is` and `errors.As`
-- see of them (every wrapping of the source uses `%w`).
use golden_path_control_plan.Prelude.{String, ◌≡◌, refl, ◌⊎◌, inl, inr}
use golden_path_control_plan.Domain.Models.{Uuid, CandidateStatus}

pub data Error : Type 0 where
  -- postgres.ErrNotFound, and postgres.ErrStateConflict
  not_found : Error
  lost_row : Error
  -- app.ValidationError, with its text
  validation : String → Error
  -- app.StateConflictError, with what its text names: a candidate and its terminal status
  state_conflict : Uuid → CandidateStatus → Error
  -- a `pgconn.PgError`: Code 23505, and that of another constraint
  unique_violation : Error
  constraint_violation : Error
  -- a value that its column's type does not hold
  not_encodable : Error
  -- the connection failed, or the context ended
  unavailable : Error
  -- the worker met a job type that it does not know
  unsupported_job : String → Error

pub data Result {ℓ} (A : Type ℓ) : Type ℓ where
  ok : A → Result A
  err : Error → Result A

pub Result-cases {ℓ} :
    {A : Type ℓ} (r : Result A) → ((a : A) × (r ≡ ok a)) ⊎ ((e : Error) × (r ≡ err e))
Result-cases (ok a) = inl (a, refl)
Result-cases (err e) = inr (e, refl)
