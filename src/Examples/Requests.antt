-- ===== src/Examples/Requests.antt =====
-- Requests to the HTTP API on the example world.
use golden_path_control_plan.Prelude.{
  ◌≡◌, ◌↔◌, ◌⊎◌, refl, true, some, map, List, [], ◌∷◌, str_eq, if◌then◌else◌,
}
use golden_path_control_plan.Fallible.{done, failed}
use golden_path_control_plan.Errors.{not_found}
use golden_path_control_plan.Auth.{Instant, Principal}
use golden_path_control_plan.Auth.Validators.{hmac_validator}
use golden_path_control_plan.Auth.Laws.{token_validator}
use golden_path_control_plan.Httpx.{ensure_request_id}
use golden_path_control_plan.Api.{handle, serve, serve_all, write_error}
use golden_path_control_plan.Api.Requests.{
  Server, Request, guarded, post_service, post_evaluation, get_audit_events,
}
use golden_path_control_plan.Api.Errors.{
  IsInvalid, IsConflict, IsInternal, TellsNothing, write_error-status,
}
use golden_path_control_plan.Api.Refusals.{Admitted, serve-Served}
use golden_path_control_plan.Api.Invariants.{serve_all-Gate}
use golden_path_control_plan.Httpx.Recorder.{Observed}
use golden_path_control_plan.Api.Observed.{
  Arrival, requests_of, onto, got, noted, total_of, seen, status_of, replies, serve_all_http,
  serve_all_http_lem,
}
use golden_path_control_plan.System.Gate.{Gate}
use golden_path_control_plan.Examples.Data.{env, input, start}
use golden_path_control_plan.Examples.Settings.{os}
use golden_path_control_plan.Examples.Access.{jwt, oidc, hmac_settings}
use golden_path_control_plan.Examples.Runs.{database-Gate}
use golden_path_control_plan.Examples.Sessions.{busy, busy-PeersKeepGate}

abbrev server : Server
server = record {
  env = env;
  os = os;
  job_max_attempts = 5;
  validator = token_validator os jwt oidc (hmac_validator hmac_settings);
  parse_uuid = λ s. if str_eq s "1" then done 1 else failed "invalid UUID";
  unique_message = "duplicate key value";
}

abbrev reading : Request
reading = record {
  sent_id = "";
  authorization = "Bearer h.c.s";
  endpoint = guarded (get_audit_events "" "" "");
}

abbrev requests : List (Instant × Request)
requests =
    (
      100000000000005,
      record {
        sent_id = "first";
        authorization = "Bearer h.c.s";
        endpoint = guarded (post_service record { first = done input; at_end = true });
      },
    )
    ∷ (
      100000000000006,
      record {
        sent_id = "second";
        authorization = "Bearer h.c.s";
        endpoint = guarded (post_evaluation "1" "");
      },
    )
    ∷ (100000000000007, reading)
    ∷ []

write_error-status_example :
    let r = write_error server "first" not_found in
    ((r.status ≡ 404) ↔ (not_found ≡ not_found))
    × ((r.status ≡ 400) ↔ IsInvalid not_found)
    × ((r.status ≡ 409) ↔ IsConflict not_found)
    × ((r.status ≡ 500) ↔ IsInternal not_found)
    × (r.status ≡ 500 → TellsNothing "first" r)
write_error-status_example = write_error-status server "first" not_found

serve-Served_example :
    let (id, w1) = ensure_request_id env "" start in
    let (reply, w') = serve server 100000000000005 reading start in
    ((p : Principal) × (Admitted server 100000000000005 "Bearer h.c.s" (get_audit_events "" "" "") p
        × ((reply.response, w') ≡ handle server id (get_audit_events "" "" "") p w1)))
    ⊎ (((p : Principal)
          → ¬ Admitted server 100000000000005 "Bearer h.c.s" (get_audit_events "" "" "") p)
        × ((reply.response.status ≡ 401) ⊎ (reply.response.status ≡ 403))
        × (w'.db ≡ start.db)
        × (w'.exchanges ≡ start.exchanges))
serve-Served_example =
    serve-Served server 100000000000005 reading (get_audit_events "" "" "") start refl

-- Beside the session that submits a candidate of its own
abbrev busy_server : Server
busy_server = record server { env = busy }

serve_all-Gate_example : Gate (serve_all busy_server requests start).db
serve_all-Gate_example = serve_all-Gate busy_server busy-PeersKeepGate requests start database-Gate

-- The same requests with what else is known of them
abbrev arrivals : List Arrival
arrivals =
    (
      100000000000005,
      record {
        sent_id = "first";
        authorization = "Bearer h.c.s";
        endpoint = guarded (post_service record { first = done input; at_end = true });
      },
      record {
        method = "POST";
        path = "/v1/services";
        remote_addr = "10.0.0.1:4711";
        pattern = some "/v1/services";
      },
    )
    ∷ (
      100000000000007,
      reading,
      record {
        method = "GET";
        path = "/v1/audit-events";
        remote_addr = "10.0.0.1:4711";
        pattern = some "/v1/audit-events";
      },
    )
    ∷ []

abbrev unobserved : Observed
unobserved = record { world = start; lines = []; requests_total = []; latencies = [] }

serve_all_http_lem_example :
    let (answers, o') = serve_all_http server arrivals unobserved in
    (answers ≡ map seen (replies server (requests_of arrivals) start))
    × (o'.world ≡ serve_all server (requests_of arrivals) start)
    × (map noted o'.lines ≡ onto (map got answers) [])
    × (map total_of o'.requests_total ≡ onto (map status_of answers) [])
serve_all_http_lem_example = serve_all_http_lem server arrivals unobserved
