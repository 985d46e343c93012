-- ===== src/Api/Invariants.antt =====
-- The invariants of the database under the requests of internal/api/server.go.
use golden_path_control_plan.Prelude.{
  Bool, true, false, str_eq, Bool-cases, pos, ℤ, String, ◌≡◌, inl, inr, refl, subst, sym, arith,
  List, [], ◌∷◌, Option, none, some,
}
use golden_path_control_plan.Fallible.{Fallible, done, failed}
use golden_path_control_plan.Domain.Models.{Uuid}
use golden_path_control_plan.Errors.{Result, ok, err}
use golden_path_control_plan.Effects.{World, App, exec, nothing}
use golden_path_control_plan.Effects.Tables.{Database}
use golden_path_control_plan.Effects.Rules.{Keeps, Preserves, Keeps-bind, Keeps-pure, Keeps-exec}
use golden_path_control_plan.Auth.{Instant, Principal}
use golden_path_control_plan.Postgres.Readiness.{get_latest_scorecard, select_check_results}
use golden_path_control_plan.Postgres.Audit.{list_audit_events, select_audit_events}
use golden_path_control_plan.Postgres.Keeps.{
  nothing-Preserves, get_service-Keeps, get_latest_snapshot-Keeps, get_deployment_candidate-Keeps,
}
use golden_path_control_plan.System.Statements.{
  StatementsKeep, register-Keeps, update-Keeps, queue-Keeps, submit-Keeps,
}
use golden_path_control_plan.System.Gate.{Gate}
use golden_path_control_plan.System.Gate.Evaluation.{PeersKeepGate}
use golden_path_control_plan.System.Gate.Runs.{statements-Gate}
use golden_path_control_plan.Httpx.{Response, identified, ensure_request_id}
use golden_path_control_plan.Api.{handle, ready, readiness, route, serve, serve_all}
use golden_path_control_plan.Api.Requests.{
  Server, Endpoint, healthz, readyz, guarded, Guarded, post_service, patch_service, post_evaluation,
  get_scorecard, post_candidate, post_candidate_evaluation, get_candidate, get_audit_events,
  Request, Payload, items,
}
use golden_path_control_plan.Api.Refines.{
  Command, command, mapped, given, with_body, with_filter, with_number, meaning, Implements,
  handle-Implements,
}
use golden_path_control_plan.Api.Refusals.{route-Served, ensure_request_id-untouched}

module _ (P : Database → Type 0) where
  mapped-same : {A : Type 0} (f : A → Payload) (r : Result A × World) → (mapped f r).1 ≡ r.1
  mapped-same f (ok a, w) = refl
  mapped-same f (err e, w) = refl

  mapped-Keeps :
      {A : Type 0} (f : A → Payload) (m : App A) → Keeps P m → Keeps P (λ w. mapped f (m w))
  mapped-Keeps f m k = record {
    at = λ w p. subst (λ v. P v.db) (sym (mapped-same f (m w))) (k.at w p);
  }

  reads-Preserves : {A : Type 0} (f : Database → A) → Preserves P (λ k db. ok (f db, db))
  reads-Preserves f = record { at = λ k db p a db' e. subst P (ground arith) p }

  abbrev Kept : Option Command → Type 0
  Kept none = Unit {0}
  Kept (some c) = Keeps P c.run

  given-Kept :
      {A : Type 0} (r : Fallible A) (f : A → Option Command)
      → ((a : A) → Kept (f a))
      → Kept (given r f)
  given-Kept (done a) f h = h a
  given-Kept (failed e) f h = tt

  body-Kept :
      {A : Type 0} (r : Fallible A) (at_end : Bool) (f : A → Option Command)
      → ((a : A) → Kept (f a))
      → Kept (with_body r at_end f)
  body-Kept (done a) true f h = h a
  body-Kept (done a) false f h = tt
  body-Kept (failed e) true f h = tt
  body-Kept (failed e) false f h = tt

  module _ (server : Server) (s : StatementsKeep server.env P) where
    filter-Kept :
        (text : String) (f : Option Uuid → Option Command)
        → ((r : Option Uuid) → Kept (f r))
        → Kept (with_filter server text f)
    filter-Kept text f h = elim (Bool-cases (str_eq text "")) [
      | inl e ↦ rw e (h none)
      | inr e ↦ rw e (given-Kept (server.parse_uuid text) _ λ u. h (some u))
    ]

    number-Kept :
        (text : String) (f : ℤ → Option Command)
        → ((n : ℤ) → Kept (f n))
        → Kept (with_number server text f)
    number-Kept text f h = elim (Bool-cases (str_eq text "")) [
      | inl e ↦ rw e (h (pos 20))
      | inr e ↦ rw e (given-Kept (server.os.atoi text) f h)
    ]

    get_latest_scorecard-Keeps : (id : Uuid) → Keeps P (get_latest_scorecard server.env id)
    unfolding get_latest_scorecard select_check_results
    get_latest_scorecard-Keeps id = Keeps-bind _ _ (get_service-Keeps server.env s.peers id) λ v.
        Keeps-bind _ _ (get_latest_snapshot-Keeps server.env s.peers id) λ t.
          Keeps-bind _ _ (Keeps-exec server.env _ s.peers (reads-Preserves _)) λ c. Keeps-pure _

    list_audit_events-Keeps :
        (t : String) (r : Option Uuid) (n : ℤ) → Keeps P (list_audit_events server.env t r n)
    unfolding list_audit_events select_audit_events
    list_audit_events-Keeps t r n = Keeps-exec server.env _ s.peers (reads-Preserves _)

    meaning-Kept : (id : String) (g : Guarded) (p : Principal) → Kept (meaning server id g p)
    unfolding meaning
    meaning-Kept id (post_service d) p =
        body-Kept d.first d.at_end _ λ i. mapped-Keeps _ _ (register-Keeps server.env P s p id i)
    meaning-Kept id (patch_service i d) p = given-Kept (server.parse_uuid i) _ λ u.
        body-Kept d.first d.at_end _
          λ patch. mapped-Keeps _ _ (update-Keeps server.env P s p id u patch)
    meaning-Kept id (post_evaluation i key) p =
        given-Kept (server.parse_uuid i) _
          λ u. mapped-Keeps _ _ (queue-Keeps server.env P s p id server.job_max_attempts u key)
    meaning-Kept id (get_scorecard i) p =
        given-Kept (server.parse_uuid i) _ λ u. mapped-Keeps _ _ (get_latest_scorecard-Keeps u)
    meaning-Kept id (post_candidate d) p =
        body-Kept d.first d.at_end _ λ i. mapped-Keeps _ _ (submit-Keeps server.env P s p id i)
    meaning-Kept id (post_candidate_evaluation i) p =
        given-Kept (server.parse_uuid i) _ λ u. mapped-Keeps _ _ (s.evaluates p id u)
    meaning-Kept id (get_candidate i) p =
        given-Kept (server.parse_uuid i) _
          λ u. mapped-Keeps _ _ (get_deployment_candidate-Keeps server.env s.peers u)
    meaning-Kept id (get_audit_events t i n) p = filter-Kept i _ λ r.
        number-Kept n (λ l. command 200 items (list_audit_events server.env t r l))
          λ l. mapped-Keeps items _ (list_audit_events-Keeps t r l)

    Implements-Kept :
        (id : String) (c : Option Command) (w : World) (r : Response Payload × World)
        → Kept c
        → Implements server id c w r
        → P w.db
        → P r.1.db
    Implements-Kept id none w r k (h, e) p = subst (λ v. P v.db) (sym e) p
    Implements-Kept id (some c) w r k (inl (a, (e, h))) p = subst (λ x. P x.1.db) e (k.at w p)
    Implements-Kept id (some c) w r k (inr (a, (e, h))) p = subst (λ x. P x.1.db) e (k.at w p)

    handle-Kept :
        (id : String) (g : Guarded) (p : Principal) (w : World)
        → P w.db
        → P (handle server id g p w).1.db
    handle-Kept id g p w v =
        Implements-Kept id (meaning server id g p) w (handle server id g p w) (meaning-Kept id g p)
          (handle-Implements server id g p w) v

    readiness-same : (id : String) (r : Result (Unit {0}) × World) → (readiness server id r).1 ≡ r.1
    readiness-same id (ok a, w) = refl
    readiness-same id (err e, w) = refl

    ready-Kept : (id : String) (w : World) → P w.db → P (ready server id w).1.db
    unfolding ready
    ready-Kept id w p =
        subst (λ v. P v.db) (sym (readiness-same id (exec server.env nothing w)))
          ((Keeps-exec server.env nothing s.peers nothing-Preserves).at w p)

    healthz-Kept :
        (id : String) (t : Instant) (a : String) (w : World)
        → P w.db
        → P (route server id t a healthz w).1.db
    unfolding route
    healthz-Kept id t a w v = v

    readyz-Kept :
        (id : String) (t : Instant) (a : String) (w : World)
        → P w.db
        → P (route server id t a readyz w).1.db
    unfolding route
    readyz-Kept id t a w v = ready-Kept id w v

    route-Kept :
        (id : String) (t : Instant) (authorization : String) (e : Endpoint) (w : World)
        → P w.db
        → P (route server id t authorization e w).1.db
    route-Kept id t authorization healthz w v = healthz-Kept id t authorization w v
    route-Kept id t authorization readyz w v = readyz-Kept id t authorization w v
    route-Kept id t authorization (guarded g) w v =
        elim (route-Served server id t g w authorization) [
          | inl (p, (a, q)) ↦ subst (λ r. P r.1.db) (sym q) (handle-Kept id g p w v)
          | inr (n, (h, q)) ↦ subst (λ u. P u.db) (sym q) v
        ]

    serve-Kept :
        (t : Instant) (request : Request) (w : World) → P w.db → P (serve server t request w).1.db
    unfolding serve identified
    serve-Kept t request w v =
        let (id, w1) = ensure_request_id server.env request.sent_id w in
        let (d, x) = ensure_request_id-untouched server.env request.sent_id w in
        route-Kept id t request.authorization request.endpoint w1 (subst P (sym d) v)

    pub serve_all-Kept :
        (requests : List (Instant × Request)) (w : World)
        → P w.db
        → P (serve_all server requests w).db
    unfolding serve_all
    serve_all-Kept [] w v = v
    serve_all-Kept ((t, request) ∷ rest) w v = serve_all-Kept rest _ (serve-Kept t request w v)

-- Let other sessions keep the gate, delete no candidate and no snapshot and leave each stored one to
-- its service and, a snapshot, as it is; they may add candidates and snapshots.
-- Then after any sequence of HTTP requests, whoever sends them and whatever they carry, each approved
-- candidate names a stored snapshot that is of its own service and is ready, and no two candidates
-- have the same identifier, if this held before.
pub serve_all-Gate :
    (server : Server)
    → PeersKeepGate server.env
    → (requests : List (Instant × Request)) (w : World) → Gate w.db
    → Gate (serve_all server requests w).db
serve_all-Gate server peers = serve_all-Kept Gate server (statements-Gate server.env peers)
