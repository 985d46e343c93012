-- ===== src/System/Gate/Verdicts.antt =====
-- What `EvaluateDeploymentCandidate` of internal/app/controlplane.go decides of the stored evidence.
use golden_path_control_plan.Prelude.{
  ◌≤◌, ◌≡◌, ◌≢◌, ◌⊎◌, inl, inr, refl, subst, Bool, true, false, none, some, List, [], ◌∷◌, arith,
  All, All-imply, ltb, ◌==◌, filter, Bool-cases, Option-cases,
}
use golden_path_control_plan.Domain.Models.{Uuid, ReadinessSnapshot, ready, approved, rejected}
use golden_path_control_plan.Errors.{ok}
use golden_path_control_plan.Effects.{
  Env, World, delivered, exec, perform, answer, ◌>>=◌, continue, pure, arrive,
}
use golden_path_control_plan.Postgres.Readiness.{
  get_latest_snapshot, select_latest_snapshot, latest,
}
use golden_path_control_plan.ControlPlane.{attempt, Ruling, ruling, judge, no_evidence}
use golden_path_control_plan.System.Gate.{Member}
use golden_path_control_plan.System.Gate.Statements.{latest-Member, Member-filter}

-- A stored snapshot of the service, which none of the service is later than
abbrev pub IsLatest : List ReadinessSnapshot → Uuid → ReadinessSnapshot → Type 0
IsLatest ss service_id s =
    Member s ss
    × (s.service_id ≡ service_id)
    × All (λ t. (t.service_id == service_id) ≡ true → t.evaluated_at ≤ s.evaluated_at) ss

-- What the evidence of a service calls for
abbrev pub IsVerdict : List ReadinessSnapshot → Uuid → Ruling → Type 0
IsVerdict ss service_id g =
    ((s : ReadinessSnapshot) × IsLatest ss service_id s
      × (g.snapshot ≡ some s)
      × (((s.state ≡ ready) × (g.status ≡ approved)) ⊎ ((s.state ≢ ready) × (g.status ≡ rejected))))
    ⊎ (All (λ t. (t.service_id == service_id) ≡ false) ss
        × (g.snapshot ≡ none)
        × (g.status ≡ rejected))

latest-none : (ss : List ReadinessSnapshot) → latest ss ≡ none → ss ≡ []
unfolding latest
latest-none [] e = refl
latest-none (x ∷ xs) e = elim (Option-cases (latest xs)) [
  | inl none_there ↦ absurd (cc (rw none_there at e))
  | inr (t, there) ↦ elim (Bool-cases (ltb x.evaluated_at t.evaluated_at)) [
    | inl later ↦ absurd (cc (rw (there, later) at e))
    | inr earlier ↦ absurd (cc (rw (there, earlier) at e))
  ]
]

latest-All :
    (ss : List ReadinessSnapshot) (s : ReadinessSnapshot)
    → latest ss ≡ some s
    → All (λ t. t.evaluated_at ≤ s.evaluated_at) ss
unfolding latest
latest-All [] s e = tt
latest-All (x ∷ xs) s e = elim (Option-cases (latest xs)) [
  | inl none_there ↦
      let same : x ≡ s = cc (rw none_there at e) in
      rw (latest-none xs none_there, same) (omega arith, tt)
  | inr (t, there) ↦
      let rest = latest-All xs t there in
      elim (Bool-cases (ltb x.evaluated_at t.evaluated_at)) [
        | inl later ↦
            let same : t ≡ s = cc (rw (there, later) at e) in
            subst (λ u. All (λ y. y.evaluated_at ≤ u.evaluated_at) (x ∷ xs)) same
              (ground arith, rest)
        | inr earlier ↦
            let same : x ≡ s = cc (rw (there, earlier) at e) in
            subst (λ u. All (λ y. y.evaluated_at ≤ u.evaluated_at) (x ∷ xs)) same
              (omega arith, All-imply xs (λ y h. ground arith) rest)
      ]
]

filter-All :
    {A : Type 0} (P : A → Type 0) (p : A → Bool) (xs : List A)
    → All P (filter p xs)
    → All (λ x. p x ≡ true → P x) xs
filter-All P p [] h = tt
filter-All P p (x ∷ xs) h = elim (Bool-cases (p x)) [
  | inl e ↦ let (a, rest) = rw e at h in (λ q. a, filter-All P p xs rest)
  | inr e ↦ (λ q. absurd (cc (e, q)), filter-All P p xs (rw e at h))
]

empty-All : {A : Type 0} (p : A → Bool) (xs : List A) → filter p xs ≡ [] → All (λ x. p x ≡ false) xs
empty-All p [] h = tt
empty-All p (x ∷ xs) h = elim (Bool-cases (p x)) [
  | inl e ↦ absurd (cc (rw e at h))
  | inr e ↦ (e, empty-All p xs (rw e at h))
]

judge-verdict :
    (s : ReadinessSnapshot)
    → ((judge s).snapshot ≡ some s)
      × (((s.state ≡ ready) × ((judge s).status ≡ approved))
          ⊎ ((s.state ≢ ready) × ((judge s).status ≡ rejected)))
unfolding judge
judge-verdict s = ground arith

module _ (service_id : Uuid) (ss : List ReadinessSnapshot) where
  abbrev of_service : ReadinessSnapshot → Bool
  of_service t = t.service_id == service_id

  latest-IsLatest :
      (s : ReadinessSnapshot) → latest (filter of_service ss) ≡ some s → IsLatest ss service_id s
  latest-IsLatest s e =
      let (member, own) =
        Member-filter of_service s ss (latest-Member (filter of_service ss) s e) in
      (
        member,
        ground arith,
        filter-All (λ t. t.evaluated_at ≤ s.evaluated_at) of_service ss (latest-All _ s e),
      )

module _ (env : Env) (service_id : Uuid) (w : World)
    (answered : env.delivery w.exchanges ≡ delivered) where
  abbrev pub stored : List ReadinessSnapshot
  stored = (env.peers w.exchanges w.db).snapshots

  -- Let the database answer. The part of an evaluation that looks for the evidence for a service and
  -- rules on it succeeds: if no snapshot of the service is stored, it rejects without one; and else
  -- it names a stored snapshot of the service which none of the service is later than, and approves if this
  -- one is ready and rejects if it is not.
  pub get_latest_snapshot-IsVerdict :
      (g : Ruling) × ((w' : World) × (((attempt (get_latest_snapshot env service_id) >>= ruling) w
            ≡ (ok g, w'))
          × IsVerdict stored service_id g))
  unfolding get_latest_snapshot select_latest_snapshot exec perform answer attempt ruling ◌>>=◌
      continue pure
  get_latest_snapshot-IsVerdict =
      elim (Option-cases (latest (filter (of_service service_id stored) stored))) [
        | inl e ↦ (
          no_evidence,
          (
            arrive env w,
            (
              rw (answered, e) refl,
              inr (empty-All (of_service service_id stored) stored (latest-none _ e), refl, refl),
            ),
          ),
        )
        | inr (s, e) ↦ (
          judge s,
          (
            arrive env w,
            (
              rw (answered, e) refl,
              inl (
                s,
                latest-IsLatest service_id stored s e,
                (judge-verdict s).0,
                (judge-verdict s).1,
              ),
            ),
          ),
        )
      ]
