-- ===== src/Httpx/Recorder.antt =====
-- internal/httpx/middleware.go: the recorder of the status of an answer, and the middleware of the log;
-- and the middleware of the metrics in internal/api/server.go, which has a recorder of its own with
-- the same code.
use golden_path_control_plan.Prelude.{
  ℕ, String, Option, none, some, List, ◌∷◌, str_eq, if◌then◌else◌,
}
use golden_path_control_plan.Effects.{World}
use golden_path_control_plan.Httpx.{Response, Body}

-- `http.ResponseWriter`, as far as the handlers use it
pub record ResponseWriter (A W : Type 0) : Type 0 where
  pub write_header : ℕ → W → W
  pub write : Body A → W → W

-- What net/http sends: the header `X-Request-Id`, the first status that is written, or 200 if the body
-- comes before it, and the values of the body, the latest first
pub record Sent (A : Type 0) : Type 0 where
  pub header_id : String
  pub status : Option ℕ
  pub values : List (Body A)

abbrev pub first_of : Option ℕ → ℕ → ℕ
first_of none status = status
first_of (some earlier) status = earlier

unfoldable pub set_header : {A : Type 0} → String → Sent A → Sent A
set_header id s = record s { header_id = id }

abbrev pub connection : {A : Type 0} → ResponseWriter A (Sent A)
connection = record {
  write_header = λ status s. record s { status = some (first_of s.status status) };
  write = λ body s. record s { status = some (first_of s.status 200); values = body ∷ s.values };
}

-- A writer in which the status is noted
pub record StatusRecorder (W : Type 0) : Type 0 where
  pub response_writer : W
  pub status : ℕ

unfoldable pub new_recorder : {W : Type 0} → W → StatusRecorder W
new_recorder w = record { response_writer = w; status = 200 }

module _ {A W : Type 0} (writer : ResponseWriter A W) where
  unfoldable pub record_header : ℕ → StatusRecorder W → StatusRecorder W
  record_header status r = record {
    response_writer = writer.write_header status r.response_writer;
    status = status;
  }

  -- Its other methods are those of the writer in it.
  unfoldable pub recording : ResponseWriter A (StatusRecorder W)
  unfolding record_header
  recording = record {
    write_header = record_header;
    write = λ body r. record r { response_writer = writer.write body r.response_writer };
  }

  -- `WriteJSON` of an answer
  unfoldable pub send_json : Response A → W → W
  send_json response w = writer.write response.body (writer.write_header response.status w)

-- What is known of a request besides its headers; the pattern of the route is chi's, and missing
-- outside a router.
pub record Incoming : Type 0 where
  pub method : String
  pub path : String
  pub remote_addr : String
  pub pattern : Option String

abbrev pub pattern_or : String → Option String → String
pattern_or path none = path
pattern_or path (some pattern) = if str_eq pattern "" then path else pattern

unfoldable pub route_pattern : Incoming → String
route_pattern r = pattern_or r.path r.pattern

-- A line of the log, without the duration
pub record Line : Type 0 where
  pub request_id : String
  pub method : String
  pub route : String
  pub path : String
  pub status : ℕ
  pub remote_addr : String

-- The world with the lines of the log, the increments of `HTTPRequestsTotal` under its labels, and the
-- labels under which a latency is observed; the latest first
pub record Observed : Type 0 where
  pub world : World
  pub lines : List Line
  pub requests_total : List (String × String × ℕ)
  pub latencies : List (String × String)

abbrev pub Writing : Type 0 → Type 0
Writing W = W → Observed → W × Observed

module _ {W : Type 0} (request : Incoming) where
  abbrev logged : String → StatusRecorder W × Observed → W × Observed
  logged id (r, o) =
      let line : Line = record {
        request_id = id;
        method = request.method;
        route = route_pattern request;
        path = request.path;
        status = r.status;
        remote_addr = request.remote_addr;
      } in
      (r.response_writer, record o { lines = line ∷ o.lines })

  abbrev counted : StatusRecorder W × Observed → W × Observed
  counted (r, o) =
      let route = route_pattern request in
      (
        r.response_writer,
        record o {
          requests_total = (route, request.method, r.status) ∷ o.requests_total;
          latencies = (route, request.method) ∷ o.latencies;
        },
      )

  unfoldable pub logging_middleware : String → Writing (StatusRecorder W) → Writing W
  unfolding new_recorder
  logging_middleware id next w o = logged id (next (new_recorder w) o)

  unfoldable pub metrics_middleware : Writing (StatusRecorder W) → Writing W
  unfolding new_recorder
  metrics_middleware next w o = counted (next (new_recorder w) o)
