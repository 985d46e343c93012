-- ===== src/Api/Refusals.antt =====
-- Who is served by the routes of internal/api/server.go that need a token.
use golden_path_control_plan.Prelude.{
  arith, ap, ◌∙◌, String, String, ◌≡◌, ◌⊎◌, inl, inr, refl, true, false, Bool-cases, Option-cases,
  none, some, [], ◌∷◌, any, str_eq,
}
use golden_path_control_plan.Fallible.{done, failed, Fallible-cases}
use golden_path_control_plan.Domain.Models.{Role, engineer, platform_admin, unknown_role}
use golden_path_control_plan.Effects.{Env, World}
use golden_path_control_plan.Auth.{Instant, Principal, is_known, role_text, parse_bearer_token}
use golden_path_control_plan.Httpx.{Response, identified, respond_error, ensure_request_id}
use golden_path_control_plan.Api.{
  Handler, handle, authorize, authenticate, route, serve, allowed_roles, same_role,
}
use golden_path_control_plan.Api.Requests.{
  Server, Guarded, guarded, post_service, patch_service, post_evaluation, get_scorecard,
  post_candidate, post_candidate_evaluation, get_candidate, get_audit_events, Payload, Request,
}

-- The roles that an endpoint is meant for: the trail is for administrators.
abbrev pub MayUse : Role → Guarded → Type 0
MayUse r (get_audit_events _ _ _) = r ≡ platform_admin
MayUse r _ = (r ≡ engineer) ⊎ (r ≡ platform_admin)

-- The header carries a token that the validator accepts as that of a principal who may use the
-- endpoint.
abbrev pub Admitted : Server → Instant → String → Guarded → Principal → Type 0
Admitted server t authorization g p =
    (raw : String) × (parse_bearer_token server.os authorization ≡ some raw)
    × (server.validator.validate t raw ≡ done p)
    × MayUse p.role g

roles-MayUse_any : (r : Role) → is_known r ≡ true → (r ≡ engineer) ⊎ (r ≡ platform_admin)
roles-MayUse_any engineer k = inl refl
roles-MayUse_any platform_admin k = inr refl
roles-MayUse_any (unknown_role t) k = cc

admin-MayUse :
    (r : Role) → is_known r ≡ true → same_role r platform_admin ≡ true → r ≡ platform_admin
unfolding role_text
admin-MayUse engineer k h = cc
admin-MayUse platform_admin k h = refl
admin-MayUse (unknown_role t) k h = cc

roles-MayUse :
    (r : Role) (g : Guarded)
    → is_known r ≡ true
    → any (same_role r) (allowed_roles g) ≡ true
    → MayUse r g
unfolding allowed_roles
roles-MayUse r (get_audit_events a b c) k h = admin-MayUse r k (ground arith)
roles-MayUse r (post_service d) k h = roles-MayUse_any r k
roles-MayUse r (patch_service i d) k h = roles-MayUse_any r k
roles-MayUse r (post_evaluation i d) k h = roles-MayUse_any r k
roles-MayUse r (get_scorecard i) k h = roles-MayUse_any r k
roles-MayUse r (post_candidate d) k h = roles-MayUse_any r k
roles-MayUse r (post_candidate_evaluation i) k h = roles-MayUse_any r k
roles-MayUse r (get_candidate i) k h = roles-MayUse_any r k

either :
    (r : Role)
    → (r ≡ engineer) ⊎ (r ≡ platform_admin)
    → any (same_role r) (engineer ∷ platform_admin ∷ []) ≡ true
unfolding role_text
either r (inl h) = rw h refl
either r (inr h) = rw h refl

MayUse-roles : (r : Role) (g : Guarded) → MayUse r g → any (same_role r) (allowed_roles g) ≡ true
unfolding allowed_roles role_text
MayUse-roles r (get_audit_events a b c) h = rw h refl
MayUse-roles r (post_service d) h = either r h
MayUse-roles r (patch_service i d) h = either r h
MayUse-roles r (post_evaluation i d) h = either r h
MayUse-roles r (get_scorecard i) h = either r h
MayUse-roles r (post_candidate d) h = either r h
MayUse-roles r (post_candidate_evaluation i) h = either r h
MayUse-roles r (get_candidate i) h = either r h

pub ensure_request_id-untouched :
    (env : Env) (sent : String) (w : World)
    → let w' = (ensure_request_id env sent w).1 in (w'.db ≡ w.db) × (w'.exchanges ≡ w.exchanges)
unfolding ensure_request_id
ensure_request_id-untouched env sent w = elim (Bool-cases (str_eq sent "")) [
  | inl h ↦ rw h (refl, refl)
  | inr h ↦ rw h (refl, refl)
]

-- A refusal: its status, and the world as it was
abbrev pub Refuses : Response Payload × World → World → Type 0
Refuses (r, w') w = ((r.status ≡ 401) ⊎ (r.status ≡ 403)) × (w' ≡ w)

module _ (server : Server) (id : String) (t : Instant) (g : Guarded) (w : World) where
  -- What the route of an endpoint comes to
  abbrev pub Served : String → Response Payload × World → Type 0
  Served authorization r =
      ((p : Principal) × (Admitted server t authorization g p × (r ≡ handle server id g p w)))
      ⊎ (((p : Principal) → ¬ Admitted server t authorization g p) × Refuses r w)

  next : Principal → Handler
  next p = authorize server id (allowed_roles g) p (handle server id g p)

  no_token :
      (authorization : String)
      → parse_bearer_token server.os authorization ≡ none
      → Refuses (route server id t authorization (guarded g) w) w
  unfolding route authenticate respond_error
  no_token authorization n = rw n (inl refl, refl)

  bad_token :
      (authorization raw e : String)
      → parse_bearer_token server.os authorization ≡ some raw
      → server.validator.validate t raw ≡ failed e
      → Refuses (route server id t authorization (guarded g) w) w
  unfolding route authenticate respond_error
  bad_token authorization raw e n v = rw (n, v) (inl refl, refl)

  good_token :
      (authorization raw : String) (p : Principal)
      → parse_bearer_token server.os authorization ≡ some raw
      → server.validator.validate t raw ≡ done p
      → route server id t authorization (guarded g) w ≡ next p w
  unfolding route authenticate next
  good_token authorization raw p n v = rw (n, v) refl

  not_allowed :
      (p : Principal) → any (same_role p.role) (allowed_roles g) ≡ false → Refuses (next p w) w
  unfolding next authorize respond_error
  not_allowed p h = rw h (inr refl, refl)

  allowed :
      (p : Principal)
      → any (same_role p.role) (allowed_roles g) ≡ true
      → next p w ≡ handle server id g p w
  unfolding next authorize
  allowed p h = rw h refl

  by_role :
      (authorization raw : String) (p : Principal)
      → parse_bearer_token server.os authorization ≡ some raw
      → server.validator.validate t raw ≡ done p
      → Served authorization (next p w)
  by_role authorization raw p n v = elim (Bool-cases (any (same_role p.role) (allowed_roles g))) [
    | inl h ↦ inl (
      p,
      (
        (raw, n, v, roles-MayUse p.role g (server.validator.is_known_role t raw p v) h),
        allowed p h,
      ),
    )
    | inr h ↦ inr (
      λ q (raw', n', v', m).
          let same : q.role ≡ p.role = cc (n, n', v, v') in
          cc (ap (λ r. any (same_role r) (allowed_roles g)) same, MayUse-roles q.role g m, h),
      not_allowed p h,
    )
  ]

  pub route-Served :
      (authorization : String)
      → Served authorization (route server id t authorization (guarded g) w)
  route-Served authorization = elim (Option-cases (parse_bearer_token server.os authorization)) [
    | inl n ↦ inr (λ q (raw, n', v, m). cc, no_token authorization n)
    | inr (raw, n) ↦ elim (Fallible-cases (server.validator.validate t raw)) [
      | inl (p, v) ↦ rw (good_token authorization raw p n v) (by_role authorization raw p n v)
      | inr (e, v) ↦ inr (
        λ q (raw', n', v', m). let same : raw' ≡ raw = cc (n, n') in cc,
        bad_token authorization raw e n v,
      )
    ]
  ]

-- A request to an endpoint that needs a token either carries one of a principal who may use the
-- endpoint, an administrator for the audit trail and an engineer or administrator elsewhere, and is
-- handled for this principal; or it carries none, is answered with 401 or 403, and leaves the
-- database alone: not even an exchange with it takes place.
pub serve-Served :
    (server : Server) (t : Instant) (request : Request) (g : Guarded) (w : World)
    → request.endpoint ≡ guarded g
    → let (id, w1) = ensure_request_id server.env request.sent_id w in
      let (reply, w') = serve server t request w in
      ((p : Principal) × (Admitted server t request.authorization g p
          × ((reply.response, w') ≡ handle server id g p w1)))
      ⊎ (((p : Principal) → ¬ Admitted server t request.authorization g p)
          × ((reply.response.status ≡ 401) ⊎ (reply.response.status ≡ 403))
          × (w'.db ≡ w.db)
          × (w'.exchanges ≡ w.exchanges))
unfolding serve identified
serve-Served server t request g w e = rw e (
    let (id, w1) = ensure_request_id server.env request.sent_id w in
    let (d, x) = ensure_request_id-untouched server.env request.sent_id w in
    elim (route-Served server id t g w1 request.authorization) [
      | inl (p, (a, q)) ↦ inl (p, (a, q))
      | inr (n, (s, q)) ↦ inr (n, s, ap (λ v. v.db) q ∙ d, ap (λ v. v.exchanges) q ∙ x)
    ])
