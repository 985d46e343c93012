-- ===== src/Cli/Laws.antt =====
-- The requests of cmd/cli/main.go to the API, and the bearer tokens that they carry.
use golden_path_control_plan.Prelude.{
  leb→le, String, ◌<>◌, Option, none, some, ◌∷◌, ◌≡◌, ◌≢◌, refl, ◌↔◌, ◌⊎◌, inl, inr, ◌<◌, true,
  arith, IsCompact, eq_iff, str_eq, Bool-cases, leb,
}
use golden_path_control_plan.Stateful.{◌>>=◌, continue}
use golden_path_control_plan.Fallible.{Fallible, done, failed, Fallible-cases}
use golden_path_control_plan.Config.Settings.{Platform}
use golden_path_control_plan.Auth.{parse_bearer_token}
use golden_path_control_plan.Auth.Bearer.{parse_bearer_token-header}
use golden_path_control_plan.Cli.Shell.{
  Content, HttpRequest, HttpResponse, Tools, Terminal, send, print_line, value_of,
}
use golden_path_control_plan.Cli.Requests.{base_url, bearer_token, api_request, report, do_request}

-- A response that arrives whole and is no error
abbrev pub IsSuccess : Fallible HttpResponse → Type 0
IsSuccess (done r) = (r.broken ≡ none) × (r.status < 400)
IsSuccess (failed e) = ⊥

broken-cases : (o : Option String) → (o ≡ none) ⊎ ((e : String) × (o ≡ some e))
broken-cases none = inl refl
broken-cases (some e) = inr (e, refl)

module _ (os : Platform) where
  report_iff :
      (r : HttpResponse) (s : Terminal) → ((report os r s).0 ≡ done tt) ↔ IsSuccess (done r)
  unfolding report ◌>>=◌ continue print_line
  report_iff r s = elim (broken-cases r.broken) [
    | inl whole ↦ rw whole elim (Bool-cases (leb 400 r.status)) [
      | inl bad ↦ rw bad ((λ h. cc), λ h. absurd (omega (arith, leb→le 400 r.status bad)))
      | inr good ↦ rw good ground arith
    ]
    | inr (e, cut) ↦ rw cut ((λ h. cc), λ h. cc)
  ]

  report-sends : (r : HttpResponse) (s : Terminal) → (report os r s).1.sent ≡ s.sent
  unfolding report ◌>>=◌ continue print_line
  report-sends r s = elim (broken-cases r.broken) [
    | inl whole ↦ rw whole refl
    | inr (e, cut) ↦ rw cut refl
  ]

  module _ (tools : Tools) (method path : String) (content : Content) where
    abbrev pub IsAllowed : Type 0
    IsAllowed = (bearer_token os ≢ "") × (tools.bad_request method (base_url os <> path) ≡ none)

    -- The request is made if there is a token and its URL can be read.
    refused_lem :
        (s : Terminal)
        → (((do_request os tools method path content s).0 ≢ done tt)
            × ((do_request os tools method path content s).1 ≡ s)
            × ¬ IsAllowed)
          ⊎ (IsAllowed
              × (do_request os tools method path content s
                  ≡ (send tools (api_request os method path content) >>= report os) s))
    unfolding do_request ◌>>=◌ continue
    refused_lem s = elim (Bool-cases (str_eq (bearer_token os) "")) [
      | inl e ↦ inl (rw e (λ h. cc), rw e refl, λ h. h.0 ((eq_iff (bearer_token os) "").0 e))
      | inr f ↦ elim (broken-cases (tools.bad_request method (base_url os <> path))) [
        | inl g ↦ inr ((λ h. cc ((eq_iff (bearer_token os) "").1 h), g), rw (f, g) refl)
        | inr (e, bad) ↦ inl (rw (f, bad) (λ h. cc), rw (f, bad) refl, λ h. cc (h.1))
      ]
    ]

    abbrev pub sent_request : HttpRequest
    sent_request = api_request os method path content

    answered_iff :
        (s : Terminal)
        → (((send tools sent_request >>= report os) s).0 ≡ done tt)
          ↔ IsSuccess (tools.network s.sent sent_request)
    unfolding ◌>>=◌ continue send
    answered_iff s = elim (Fallible-cases (tools.network s.sent sent_request)) [
      | inl (r, e) ↦ rw e (report_iff r _)
      | inr (x, e) ↦ rw e ((λ h. cc), λ h. absurd h)
    ]

    answered-sends :
        (s : Terminal) → ((send tools sent_request >>= report os) s).1.sent ≡ sent_request ∷ s.sent
    unfolding ◌>>=◌ continue send
    answered-sends s = elim (Fallible-cases (tools.network s.sent sent_request)) [
      | inl (r, e) ↦ rw e (report-sends r _)
      | inr (x, e) ↦ rw e refl
    ]

    -- What the API reads as the request's token
    abbrev pub read_token : Option String
    read_token = parse_bearer_token os (value_of "Authorization" sent_request.headers)

    carried :
        os.equal_fold "Bearer" "Bearer" ≡ true
        → IsCompact (bearer_token os)
        → bearer_token os ≢ ""
        → read_token ≡ some (bearer_token os)
    unfolding api_request
    carried fold compact filled = parse_bearer_token-header os (bearer_token os) fold filled compact

    -- Let the token have no space inside. A command sends no request where it has no token or the URL
    -- cannot be read, and one otherwise, from whose header the API reads this token. It succeeds exactly
    -- if it sends its request, the response arrives whole, and its status is below 400.
    pub do_request-Sends :
        (s : Terminal)
        → os.equal_fold "Bearer" "Bearer" ≡ true
        → IsCompact (bearer_token os)
        → let r = do_request os tools method path content s in
          ((¬ IsAllowed × (r.1 ≡ s))
            ⊎ (IsAllowed
                × (r.1.sent ≡ sent_request ∷ s.sent)
                × (read_token ≡ some (bearer_token os))))
          × ((r.0 ≡ done tt) ↔ (IsAllowed × IsSuccess (tools.network s.sent sent_request)))
    do_request-Sends s fold compact = elim (refused_lem s) [
      | inl (fails, stays, bars) ↦
          (inl (bars, stays), (λ h. absurd (fails h), λ h. absurd (bars h.0)))
      | inr (allowed, e) ↦ rw e (
        inr (allowed, answered-sends s, carried fold compact allowed.0),
        (λ h. (allowed, (answered_iff s).0 h), λ h. (answered_iff s).1 h.1),
      )
    ]
