-- ===== src/Api/Refines.antt =====
-- What the handlers of internal/api/server.go make of the operations of the control plane: an
-- abstract reading of each endpoint, in which a request means one operation or nothing, and the
-- proof that the handlers implement it.
use golden_path_control_plan.Prelude.{
  Bool, true, false, str_eq, if◌then◌else◌, Bool-cases, pos, ℕ, ℤ, String, ◌≡◌, ◌⊎◌, inl, inr, refl,
  ap, Option, none, some,
}
use golden_path_control_plan.Fallible.{Fallible, done, failed}
use golden_path_control_plan.Domain.Models.{Uuid}
use golden_path_control_plan.Errors.{Error, Result, ok, err}
use golden_path_control_plan.Effects.{World, App}
use golden_path_control_plan.Auth.{Principal}
use golden_path_control_plan.ControlPlane.{
  register_service, update_registered_service, queue_service_evaluation, submit_candidate,
  evaluate_deployment_candidate,
}
use golden_path_control_plan.Postgres.Readiness.{get_latest_scorecard}
use golden_path_control_plan.Postgres.Audit.{list_audit_events}
use golden_path_control_plan.Postgres.Candidates.{get_deployment_candidate}
use golden_path_control_plan.Httpx.{Response, decode_json, write_json, respond_error}
use golden_path_control_plan.Api
use golden_path_control_plan.Api.{
  Handler, handle, with_json, with_uuid, with_resource_id, with_limit, parse_resource_id,
  parse_limit, answer_with, write_error,
}
use golden_path_control_plan.Api.Requests.{
  Server, Guarded, post_service, patch_service, post_evaluation, get_scorecard, post_candidate,
  post_candidate_evaluation, get_candidate, get_audit_events, Payload, service, job_accepted,
  scorecard, candidate, items,
}

-- An operation, and the status of its success
pub record Command : Type 0 where
  pub success : ℕ
  pub run : App Payload

abbrev pub mapped : {A : Type 0} → (A → Payload) → Result A × World → Result Payload × World
mapped f (ok a, w) = (ok (f a), w)
mapped f (err e, w) = (err e, w)

abbrev pub command : {A : Type 0} → ℕ → (A → Payload) → App A → Option Command
command status f m = some (record { success = status; run = λ w. mapped f (m w) })

abbrev pub given : {A : Type 0} → Fallible A → (A → Option Command) → Option Command
given (done a) f = f a
given (failed e) f = none

-- A body that is one document that decodes, and nothing after it
abbrev pub with_body : {A : Type 0} → Fallible A → Bool → (A → Option Command) → Option Command
with_body (done a) true f = f a
with_body (done a) false f = none
with_body (failed e) at_end f = none

-- A resource to look for, or any if the text is empty
abbrev pub with_filter : Server → String → (Option Uuid → Option Command) → Option Command
with_filter server text f =
    if str_eq text "" then f none else given (server.parse_uuid text) (λ u. f (some u))

-- A number of events, 20 if the text is empty
abbrev pub with_number : Server → String → (ℤ → Option Command) → Option Command
with_number server text f = if str_eq text "" then f (pos 20) else given (server.os.atoi text) f

-- What a request for an endpoint means, if it is well-formed
unfoldable pub meaning : Server → String → Guarded → Principal → Option Command
meaning server id (post_service document) p =
    with_body document.first document.at_end
      λ input. command 201 service (register_service server.env p id input)
meaning server id (patch_service service_id document) p = given (server.parse_uuid service_id) λ u.
    with_body document.first document.at_end
      λ patch. command 200 service (update_registered_service server.env p id u patch)
meaning server id (post_evaluation service_id key) p = given (server.parse_uuid service_id) λ u.
    command 202 (λ job. job_accepted job.id job.status job.idempotency_key)
      (queue_service_evaluation server.env p id server.job_max_attempts u key)
meaning server id (get_scorecard service_id) p =
    given (server.parse_uuid service_id)
      λ u. command 200 scorecard (get_latest_scorecard server.env u)
meaning server id (post_candidate document) p =
    with_body document.first document.at_end
      λ input. command 201 candidate (submit_candidate server.env p id input)
meaning server id (post_candidate_evaluation candidate_id) p =
    given (server.parse_uuid candidate_id)
      λ u. command 200 candidate (evaluate_deployment_candidate server.env p id u)
meaning server id (get_candidate candidate_id) p =
    given (server.parse_uuid candidate_id)
      λ u. command 200 candidate (get_deployment_candidate server.env u)
meaning server id (get_audit_events resource_type resource_id limit) p =
    with_filter server resource_id λ r.
      with_number server limit
        λ n. command 200 items (list_audit_events server.env resource_type r n)

-- A response that carries out a command: what the operation returns is sent with the status of
-- success, and its error as the answer of that error; the world is the one that it leaves.
abbrev pub Answers : Server → String → Command → World → Response Payload × World → Type 0
Answers server id c w (r, w') =
    ((a : Payload) × ((c.run w ≡ (ok a, w')) × (r ≡ write_json c.success a)))
    ⊎ ((e : Error) × ((c.run w ≡ (err e, w')) × (r ≡ write_error server id e)))

abbrev pub Implements : Server → String → Option Command → World → Response Payload × World → Type 0
Implements server id none w (r, w') = (r.status ≡ 400) × (w' ≡ w)
Implements server id (some c) w r = Answers server id c w r

module _ (server : Server) (id : String) where
  answered :
      {A : Type 0} (status : ℕ) (f : A → Payload) (m : App A) (w : World)
      → Implements server id (command status f m) w (answer_with server id status f (m w))
  unfolding answer_with
  answered status f m w = go status f m w (m w) refl
    where
      go :
          {A : Type 0} (status : ℕ) (f : A → Payload) (m : App A) (w : World) (r : Result A × World)
          → m w ≡ r
          → Implements server id (command status f m) w (answer_with server id status f r)
      go status f m w (ok a, w') e = inl (f a, (ap (mapped f) e, refl))
      go status f m w (err x, w') e = inr (x, (ap (mapped f) e, refl))

  module _ {A : Type 0} (w : World) (meant : A → Option Command) (next : A → Handler)
      (implements : (a : A) → Implements server id (meant a) w (next a w)) where
    json :
        (first : Fallible A) (at_end : Bool)
        → Implements server id
            (with_body first at_end meant)
            w
            (with_json server id (decode_json record { first = first; at_end = at_end }) next w)
    unfolding with_json respond_error decode_json
    json (done a) true = implements a
    json (done a) false = (refl, refl)
    json (failed e) true = (refl, refl)
    json (failed e) false = (refl, refl)

  module _ (w : World) (meant : Uuid → Option Command) (next : Uuid → Handler)
      (implements : (u : Uuid) → Implements server id (meant u) w (next u w)) where
    uuid :
        (code : String) (r : Fallible Uuid)
        → Implements server id (given r meant) w (with_uuid server id code r next w)
    unfolding with_uuid respond_error
    uuid code (done u) = implements u
    uuid code (failed e) = (refl, refl)

  module _ (w : World) (meant : Option Uuid → Option Command) (next : Option Uuid → Handler)
      (implements : (u : Option Uuid) → Implements server id (meant u) w (next u w)) where
    parsed_id :
        (r : Fallible Uuid)
        → Implements server id
            (given r (λ u. meant (some u)))
            w
            (with_resource_id server id (Api.given r) next w)
    unfolding respond_error
    parsed_id (done u) = implements (some u)
    parsed_id (failed e) = (refl, refl)

    resource_id :
        (text : String)
        → Implements server id
            (with_filter server text meant)
            w
            (with_resource_id server id (parse_resource_id server id text) next w)
    unfolding parse_resource_id
    resource_id text = elim (Bool-cases (str_eq text "")) [
      | inl e ↦ rw e (implements none)
      | inr e ↦ rw e (parsed_id (server.parse_uuid text))
    ]

  module _ (w : World) (meant : ℤ → Option Command) (next : ℤ → Handler)
      (implements : (n : ℤ) → Implements server id (meant n) w (next n w)) where
    parsed_number :
        (r : Fallible ℤ) → Implements server id (given r meant) w (with_limit server id r next w)
    unfolding respond_error
    parsed_number (done n) = implements n
    parsed_number (failed e) = (refl, refl)

    limit :
        (text : String)
        → Implements server id
            (with_number server text meant)
            w
            (with_limit server id (parse_limit server id text) next w)
    unfolding parse_limit
    limit text = elim (Bool-cases (str_eq text "")) [
      | inl e ↦ rw e (implements (pos 20))
      | inr e ↦ rw e (parsed_number (server.os.atoi text))
    ]

  pub handle-Implements :
      (g : Guarded) (p : Principal) (w : World)
      → Implements server id (meaning server id g p) w (handle server id g p w)
  unfolding handle meaning
  handle-Implements (post_service d) p w =
      json w _ _ (λ i. answered 201 service (register_service server.env p id i) w) d.first d.at_end
  handle-Implements (patch_service i d) p w =
      uuid w _ _
        (λ u.
          json w _ _
            (λ patch. answered 200 service (update_registered_service server.env p id u patch) w)
            d.first d.at_end)
        "invalid_service_id" (server.parse_uuid i)
  handle-Implements (post_evaluation i key) p w =
      uuid w _ _
        (λ u.
          answered 202 _ (queue_service_evaluation server.env p id server.job_max_attempts u key) w)
        "invalid_service_id" (server.parse_uuid i)
  handle-Implements (get_scorecard i) p w =
      uuid w _ _ (λ u. answered 200 scorecard (get_latest_scorecard server.env u) w)
        "invalid_service_id" (server.parse_uuid i)
  handle-Implements (post_candidate d) p w =
      json w _ _ (λ i. answered 201 candidate (submit_candidate server.env p id i) w) d.first
        d.at_end
  handle-Implements (post_candidate_evaluation i) p w =
      uuid w _ _ (λ u. answered 200 candidate (evaluate_deployment_candidate server.env p id u) w)
        "invalid_candidate_id" (server.parse_uuid i)
  handle-Implements (get_candidate i) p w =
      uuid w _ _ (λ u. answered 200 candidate (get_deployment_candidate server.env u) w)
        "invalid_candidate_id" (server.parse_uuid i)
  handle-Implements (get_audit_events t i n) p w =
      let listed = λ (r : Option Uuid) (l : ℤ). list_audit_events server.env t r l in
      let meant = λ (r : Option Uuid) (l : ℤ). command 200 items (listed r l) in
      let answer =
        λ (r : Option Uuid) (l : ℤ) (v : World). answer_with server id 200 items (listed r l v) in
      resource_id w (λ r. with_number server n (meant r))
        (λ r. with_limit server id (parse_limit server id n) (answer r))
        (λ r. limit w (meant r) (answer r) (λ l. answered 200 items (listed r l) w) n) i
