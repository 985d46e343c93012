-- ===== src/Runtime/Serving.antt =====
-- cmd/api/main.go: the process of the HTTP API, from its start to its end.
use golden_path_control_plan.Prelude.{String, Option, none, some, ◌∷◌, ◌≡◌}
use golden_path_control_plan.Fallible.{Fallible, done, failed}
use golden_path_control_plan.Config.Redaction.{Fields, end, field, text}
use golden_path_control_plan.Auth.Libraries.{Oidc}
use golden_path_control_plan.Runtime.{Runtime, bootstrap, close}
use golden_path_control_plan.Runtime.Process.{Host, Machine}
use golden_path_control_plan.Runtime.Resources.{IsBalanced, bootstrap-IsBalanced}

-- How the process ends: `main` returns, or calls `os.Exit(1)`, which runs nothing that is deferred.
pub data Exit : Type 0 where
  succeeded exited : Exit

module _ {S : Type 0} (host : Host S) (oidc : Oidc) where
  abbrev log_event : String → Fields → Machine S → Machine S
  log_event event fields m = record m { log = (event, fields) ∷ m.log }

  -- After `ListenAndServe`, which has returned with an error other than `http.ErrServerClosed`, or not;
  -- the error of `Close` is dropped.
  unfoldable pub finish : Runtime host oidc → Option String → Machine S → Exit × Machine S
  unfolding close
  finish r none m = (succeeded, (close host oidc r m).1)
  finish r (some e) m = (exited, log_event "api_server_failed" (field "error" (text e) end) m)

  -- `ListenAndServe` on the settings of a runtime
  module _ (listen_and_serve : Runtime host oidc → Option String) where
    unfoldable pub serve_until_closed : Runtime host oidc → Machine S → Exit × Machine S
    unfolding finish
    serve_until_closed r m =
        finish r (listen_and_serve r)
          (log_event "api_listening" (field "addr" (text r.config.http_addr) end) m)

    abbrev started : Fallible (Runtime host oidc) × Machine S → Exit × Machine S
    started (done r, m) = serve_until_closed r m
    started (failed e, m) = (exited, m)

    -- `main`; what is printed is left out.
    unfoldable pub main : oidc.Context → Machine S → Exit × Machine S
    unfolding serve_until_closed
    main ctx m = started (bootstrap host oidc ctx m)

    -- What was taken has been given back.
    abbrev pub IsReleased : Machine S → Exit × Machine S → Type 0
    IsReleased m (succeeded, m') = (m'.pools ≡ m.pools) × (m'.providers ≡ m.providers)
    IsReleased m (exited, m') = Unit {0}

    finish-IsReleased :
        (r : Runtime host oidc) (e : Option String) (m m' : Machine S)
        → IsBalanced host oidc m (done r, m')
        → IsReleased m (finish r e m')
    unfolding finish
    finish-IsReleased r none m m' h = (h.1, h.2)
    finish-IsReleased r (some e) m m' h = tt

    started-IsReleased :
        (m : Machine S) (x : Fallible (Runtime host oidc) × Machine S)
        → IsBalanced host oidc m x
        → IsReleased m (started x)
    unfolding serve_until_closed
    started-IsReleased m (failed e, m') h = tt
    started-IsReleased m (done r, m') h = finish-IsReleased r (listen_and_serve r) m _ h

    -- A process of the API that ends well has closed its pool and stopped its provider of traces.
    pub main-IsReleased : (ctx : oidc.Context) (m : Machine S) → IsReleased m (main ctx m)
    unfolding main
    main-IsReleased ctx m = started-IsReleased m _ (bootstrap-IsBalanced host oidc ctx m)
