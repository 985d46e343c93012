-- ===== src/Api/Observed.antt =====
-- The chain of middleware in NewHandler of internal/api/server.go around the routes, and what it
-- records of an answer.
use golden_path_control_plan.Prelude.{
  ℕ, String, Option, none, some, List, [], ◌∷◌, map, ◌≡◌, refl, ap,
}
use golden_path_control_plan.Effects.{World}
use golden_path_control_plan.Auth.{Instant}
use golden_path_control_plan.Httpx.{Response, Reply, ensure_request_id}
use golden_path_control_plan.Httpx.Recorder.{
  ResponseWriter, Sent, set_header, connection, recording, send_json, Incoming, Line, Observed,
  Writing, logging_middleware, metrics_middleware,
}
use golden_path_control_plan.Api.{Handler, route, serve, serve_all}
use golden_path_control_plan.Api.Requests.{Server, Request, Payload}

module _ {W : Type 0} (writer : ResponseWriter Payload W) where
  abbrev sent : W → Observed → Response Payload × World → W × Observed
  sent w o (response, world) = (send_json writer response w, record o { world = world })

  -- A handler, which writes its answer
  unfoldable pub answer : Handler → Writing W
  answer handler w o = sent w o (handler o.world)

-- The writer that a request comes with
abbrev pub unsent : Sent Payload
unsent = record { header_id = ""; status = none; values = [] }

module _ (server : Server) (t : Instant) (request : Request) (incoming : Incoming) where
  -- The middleware around the routes, for the identifier of a request
  unfoldable pub observe : String → Writing (Sent Payload)
  unfolding metrics_middleware logging_middleware answer recording
  observe id = metrics_middleware incoming (
      logging_middleware incoming id (
        answer (recording (recording connection))
          (route server id t request.authorization request.endpoint)))

  -- NewHandler, with RequestIDMiddleware around the rest
  unfoldable pub serve_http : Writing (Sent Payload)
  unfolding observe set_header ensure_request_id
  serve_http s o =
      let (id, world) = ensure_request_id server.env request.sent_id o.world in
      observe id (set_header id s) (record o { world = world })

abbrev pub Arrival : Type 0
Arrival = Instant × Request × Incoming

abbrev pub requests_of : List Arrival → List (Instant × Request)
requests_of [] = []
requests_of ((t, request, incoming) ∷ rest) = (t, request) ∷ requests_of rest

-- A list of what came, put before what came earlier with the latest first
abbrev pub onto : {A : Type 0} → List A → List A → List A
onto [] ys = ys
onto (x ∷ xs) ys = onto xs (x ∷ ys)

abbrev pub got : Sent Payload → String × Option ℕ
got s = (s.header_id, s.status)

abbrev pub noted : Line → String × Option ℕ
noted l = (l.request_id, some l.status)

abbrev pub total_of : String × String × ℕ → Option ℕ
total_of (route, method, status) = some status

-- What the client gets of a reply
abbrev pub seen : Reply Payload → Sent Payload
seen reply = record {
  header_id = reply.header_id;
  status = some reply.response.status;
  values = reply.response.body ∷ [];
}

abbrev pub status_of : Sent Payload → Option ℕ
status_of s = s.status

module _ (server : Server) where
  -- The answers to requests one after another
  unfoldable pub serve_all_http : List Arrival → Observed → List (Sent Payload) × Observed
  unfolding serve_http
  serve_all_http [] o = ([], o)
  serve_all_http ((t, request, incoming) ∷ rest) o =
      let (s, o1) = serve_http server t request incoming unsent o in
      let (ss, o2) = serve_all_http rest o1 in (s ∷ ss, o2)

  -- The replies of the routes to requests one after another
  unfoldable pub replies : List (Instant × Request) → World → List (Reply Payload)
  replies [] w = []
  replies ((t, request) ∷ rest) w =
      let (reply, w') = serve server t request w in reply ∷ replies rest w'

  -- The middleware changes nothing of what the routes answer and of what they make of the database: of
  -- requests that come one after another each client gets the status, the body and the identifier of
  -- the reply of the routes. The log has one line each, in their order, with the identifier and the status that
  -- the client gets, and the metrics count each once under the status that the client gets.
  pub serve_all_http_lem :
      (arrivals : List Arrival) (o : Observed)
      → let (answers, o') = serve_all_http arrivals o in
        (answers ≡ map seen (replies (requests_of arrivals) o.world))
        × (o'.world ≡ serve_all server (requests_of arrivals) o.world)
        × (map noted o'.lines ≡ onto (map got answers) (map noted o.lines))
        × (map total_of o'.requests_total
            ≡ onto (map status_of answers) (map total_of o.requests_total))
  unfolding serve_all_http serve_all replies serve send_json
  serve_all_http_lem [] o = (refl, refl, refl, refl)
  serve_all_http_lem ((t, request, incoming) ∷ rest) o =
      let (s, o1) = serve_http server t request incoming unsent o in
      let (answers, world, lines, totals) = serve_all_http_lem rest o1 in
      (ap (λ ss. s ∷ ss) answers, world, lines, totals)
