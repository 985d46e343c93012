-- ===== src/Api.antt =====
-- internal/api/server.go: the handlers of the HTTP API over the control plane, behind the checks of
-- the token and of the role. The router is chi's: a request comes with the endpoint that it matched.
-- Logging and metrics are in Observed.
pub mod Requests
pub mod Errors
pub mod Refusals
pub mod Refines
pub mod Invariants
pub mod Observed
use golden_path_control_plan.Prelude.{
  ℕ, String, Bool, true, false, Option, none, some, List, [], ◌∷◌, any, str_eq, if◌then◌else◌, pos,
  ℤ,
}
use golden_path_control_plan.Fallible.{Fallible, done, failed}
use golden_path_control_plan.Domain.Models.{Uuid, Role, engineer, platform_admin, AuditEvent, Job}
use golden_path_control_plan.Domain.Inputs.{ServiceInput, ServicePatch, DeploymentCandidateInput}
use golden_path_control_plan.Errors.{
  Error, not_found, lost_row, validation, state_conflict, unique_violation, Result, ok, err,
}
use golden_path_control_plan.Effects.{Env, World, App, exec, nothing}
use golden_path_control_plan.Auth.{Instant, Principal, role_text, parse_bearer_token}
use golden_path_control_plan.ControlPlane.{
  register_service, update_registered_service, queue_service_evaluation, submit_candidate,
  evaluate_deployment_candidate,
}
use golden_path_control_plan.Postgres.Readiness.{get_latest_scorecard}
use golden_path_control_plan.Postgres.Audit.{list_audit_events}
use golden_path_control_plan.Postgres.Candidates.{get_deployment_candidate}
use golden_path_control_plan.Httpx.{
  Response, Document, decode_json, write_json, respond_error, Reply, identified,
}
use Requests.{
  Server, Endpoint, healthz, readyz, guarded, Guarded, post_service, patch_service, post_evaluation,
  get_scorecard, post_candidate, post_candidate_evaluation, get_candidate, get_audit_events,
  Request, Payload, service, job_accepted, scorecard, candidate, items, status_text,
}

abbrev pub Handler : Type 0
Handler = World → Response Payload × World

-- The arguments of `authorize` in NewHandler
unfoldable pub allowed_roles : Guarded → List Role
allowed_roles (get_audit_events _ _ _) = platform_admin ∷ []
allowed_roles _ = engineer ∷ platform_admin ∷ []

abbrev pub same_role : Role → Role → Bool
same_role a b = str_eq (role_text a) (role_text b)

abbrev pub given : Fallible Uuid → Fallible (Option Uuid)
given (done u) = done (some u)
given (failed e) = failed e

-- writeError; no operation returns ErrUnauthorized, which has its own case.
unfoldable pub write_error : Server → String → Error → Response Payload
write_error server id not_found =
    respond_error id 404 "not_found" "Requested resource was not found."
      (some (server.env.error_text not_found))
write_error server id (validation e) = respond_error id 400 "validation_failed" e none
write_error server id (state_conflict c s) =
    respond_error id 409 "state_conflict" (server.env.error_text (state_conflict c s)) none
write_error server id lost_row =
    respond_error id 409 "state_conflict" (server.env.error_text lost_row) none
write_error server id unique_violation =
    respond_error id 409 "conflict" "Resource already exists or violates a uniqueness constraint."
      (some server.unique_message)
write_error server id e =
    respond_error id 500 "internal_error" "The server could not complete the request." none

-- `if err != nil { s.writeError(…); return }`, and else the answer
unfoldable pub answer_with :
    {A : Type 0} → Server → String → ℕ → (A → Payload) → Result A × World → Response Payload × World
unfolding write_error
answer_with server id status f (ok a, w) = (write_json status (f a), w)
answer_with server id status f (err e, w) = (write_error server id e, w)

module _ (server : Server) (id : String) where
  unfoldable pub with_json : {A : Type 0} → Fallible A → (A → Handler) → Handler
  with_json (done a) next w = next a w
  with_json (failed e) next w =
      (respond_error id 400 "invalid_json" "Request body must be valid JSON." (some e), w)

  -- parseUUIDParam
  unfoldable pub with_uuid : String → Fallible Uuid → (Uuid → Handler) → Handler
  with_uuid code (done u) next w = next u w
  with_uuid code (failed e) next w = (respond_error id 400 code e none, w)

  abbrev pub with_resource_id : Fallible (Option Uuid) → (Option Uuid → Handler) → Handler
  with_resource_id (done r) next w = next r w
  with_resource_id (failed e) next w =
      (respond_error id 400 "invalid_resource_id" "resource_id must be a valid UUID." none, w)

  abbrev pub with_limit : Fallible ℤ → (ℤ → Handler) → Handler
  with_limit (done n) next w = next n w
  with_limit (failed e) next w =
      (respond_error id 400 "invalid_limit" "limit must be an integer." none, w)

  unfoldable pub parse_resource_id : String → Fallible (Option Uuid)
  parse_resource_id value = if str_eq value "" then done none else given (server.parse_uuid value)

  unfoldable pub parse_limit : String → Fallible ℤ
  parse_limit value = if str_eq value "" then done (pos 20) else server.os.atoi value

  unfoldable pub alive : Response Payload
  alive = write_json 200 (status_text "ok")

  -- readyz, after the ping
  abbrev pub readiness : Result (Unit {0}) × World → Response Payload × World
  readiness (ok _, w) = (write_json 200 (status_text "ready"), w)
  readiness (err e, w) = (
    respond_error id 503 "database_unavailable" "Database ping failed."
        (some (server.env.error_text e)),
    w,
  )

  unfoldable pub handle : Guarded → Principal → Handler
  unfolding with_json with_uuid answer_with decode_json
  handle (post_service document) principal = with_json (decode_json document) λ input w.
      answer_with server id 201 service (register_service server.env principal id input w)
  handle (patch_service service_id document) principal =
      with_uuid "invalid_service_id" (server.parse_uuid service_id) λ u.
        with_json (decode_json document) λ patch w.
          answer_with server id 200 service
            (update_registered_service server.env principal id u patch w)
  handle (post_evaluation service_id key) principal =
      with_uuid "invalid_service_id" (server.parse_uuid service_id) λ u w.
        answer_with server id 202 (λ job. job_accepted job.id job.status job.idempotency_key)
          (queue_service_evaluation server.env principal id server.job_max_attempts u key w)
  handle (get_scorecard service_id) principal =
      with_uuid "invalid_service_id" (server.parse_uuid service_id)
        λ u w. answer_with server id 200 scorecard (get_latest_scorecard server.env u w)
  handle (post_candidate document) principal = with_json (decode_json document) λ input w.
      answer_with server id 201 candidate (submit_candidate server.env principal id input w)
  handle (post_candidate_evaluation candidate_id) principal =
      with_uuid "invalid_candidate_id" (server.parse_uuid candidate_id) λ u w.
        answer_with server id 200 candidate
          (evaluate_deployment_candidate server.env principal id u w)
  handle (get_candidate candidate_id) principal =
      with_uuid "invalid_candidate_id" (server.parse_uuid candidate_id)
        λ u w. answer_with server id 200 candidate (get_deployment_candidate server.env u w)
  handle (get_audit_events resource_type resource_id limit) principal =
      with_resource_id (parse_resource_id resource_id) λ r.
        with_limit (parse_limit limit)
          λ n w. answer_with server id 200 items (list_audit_events server.env resource_type r n w)

  unfoldable pub ready : Handler
  ready w = readiness (exec server.env nothing w)

  -- authorize
  unfoldable pub authorize : List Role → Principal → Handler → Handler
  authorize roles principal next w =
      if any (same_role principal.role) roles
      then next w
      else (respond_error id 403 "forbidden" "Caller is not authorized for this endpoint." none, w)

  abbrev pub validated_as : Fallible Principal → (Principal → Handler) → Handler
  validated_as (done p) next w = next p w
  validated_as (failed e) next w =
      (respond_error id 401 "unauthorized" "Bearer token validation failed." (some e), w)

  abbrev pub with_token : Option String → (String → Handler) → Handler
  with_token (some raw) next w = next raw w
  with_token none next w = (
    respond_error id 401 "missing_bearer_token" "Authorization header must contain a Bearer token."
        none,
    w,
  )

  -- authMiddleware, at the instant of the validation
  unfoldable pub authenticate : Instant → String → (Principal → Handler) → Handler
  authenticate t authorization next =
      with_token (parse_bearer_token server.os authorization)
        λ raw. validated_as (server.validator.validate t raw) next

  -- The routes of NewHandler
  unfoldable pub route : Instant → String → Endpoint → Handler
  unfolding alive ready authorize authenticate handle allowed_roles
  route t authorization healthz w = (alive, w)
  route t authorization readyz w = ready w
  route t authorization (guarded g) w =
      authenticate t authorization (λ p. authorize (allowed_roles g) p (handle g p)) w

unfoldable pub serve : Server → Instant → Request → World → Reply Payload × World
unfolding identified route
serve server t request =
    identified server.env request.sent_id
      λ id. route server id t request.authorization request.endpoint

-- Requests one after another, each at the instant at which its token is validated
unfoldable pub serve_all : Server → List (Instant × Request) → World → World
serve_all server [] w = w
serve_all server ((t, request) ∷ rest) w = serve_all server rest (serve server t request w).1
