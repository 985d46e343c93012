-- ===== src/System/Gate/Statements.antt =====
-- The gate of promotion under the statements of internal/postgres that touch it.
use golden_path_control_plan.Prelude.{
  All-update_where-if, ℕ, String, ◌≡◌, refl, sym, ap, ◌∙◌, subst, inl, inr, Bool, true, false,
  Option, some, List, [], ◌∷◌, ◌++◌, arith, Distinct, All-append, Distinct-append,
  Distinct-update_where, All-every, All-both, any-false-All, ltb, ◌==◌, Bool-cases, Option-cases,
  any, filter, find?, update_where, All,
}
use golden_path_control_plan.Domain.Models.{
  Uuid, Time, DeploymentCandidate, ReadinessSnapshot, CandidateStatus,
}
use golden_path_control_plan.Domain.Inputs.{DeploymentCandidateInput}
use golden_path_control_plan.Errors.{Result, ok}
use golden_path_control_plan.Effects.Tables.{Database}
use golden_path_control_plan.Effects.Rules.{Preserves}
use golden_path_control_plan.Effects.Triple.{Establishes}
use golden_path_control_plan.Postgres.Readiness.{
  insert_snapshot, latest, select_latest_snapshot, snapshots_of, or_not_found,
}
use golden_path_control_plan.Postgres.Candidates.{
  insert_candidate, update_candidate, decidable, decide, find_candidate, select_candidate,
}
use golden_path_control_plan.Postgres.Keeps.{reading-eq}
use golden_path_control_plan.ControlPlane.Entities.{new_candidate}
use golden_path_control_plan.System.Gate.{Member, HasReady, same_candidate, Gate, Owner, Grounds}

Member-append : {A : Type 0} (a : A) (xs ys : List A) → Member a xs → Member a (xs ++ ys)
unfolding Member
Member-append a [] ys m = absurd m
Member-append a (x ∷ xs) ys (inl e) = inl e
Member-append a (x ∷ xs) ys (inr m) = inr (Member-append a xs ys m)

pub Member-filter :
    {A : Type 0} (p : A → Bool) (a : A) (xs : List A)
    → Member a (filter p xs)
    → Member a xs × (p a ≡ true)
unfolding Member
Member-filter p a [] m = absurd m
Member-filter p a (x ∷ xs) m = elim (Bool-cases (p x)) [
  | inl e ↦ elim (rw e at m) [
    | inl q ↦ (inl q, subst (λ z. p z ≡ true) q e)
    | inr n ↦ let (r, h) = Member-filter p a xs n in (inr r, h)
  ]
  | inr e ↦ let (r, h) = Member-filter p a xs (rw e at m) in (inr r, h)
]

pub latest-Member :
    (ss : List ReadinessSnapshot) (s : ReadinessSnapshot) → latest ss ≡ some s → Member s ss
unfolding latest Member
latest-Member [] s e = cc
latest-Member (x ∷ xs) s e = elim (Option-cases (latest xs)) [
  | inl none_there ↦ inl (cc (rw none_there at e))
  | inr (t, there) ↦ elim (Bool-cases (ltb x.evaluated_at t.evaluated_at)) [
    | inl later ↦ inr (latest-Member xs s (cc (rw (there, later) at e)))
    | inr earlier ↦ inl (cc (rw (there, earlier) at e))
  ]
]

find?-owner :
    (id : Uuid) (cs : List DeploymentCandidate) (r : DeploymentCandidate)
    → Distinct same_candidate cs
    → find? (λ c. c.id == id) cs ≡ some r
    → ((any (λ d. d.id == r.id) cs ≡ true)
        × All (λ d. (r.id == d.id) ≡ true → d.service_id ≡ r.service_id) cs)
      × (r.id ≡ id)
unfolding Distinct
find?-owner id [] r d e = cc
find?-owner id (x ∷ xs) r d e = elim (Bool-cases (x.id == id)) [
  | inl h ↦
      let same : x ≡ r = cc (rw h at e) in
      rw (sym same) (
        (
          ground arith,
          (
            λ _. refl,
            All-both {Q = λ _. Unit} xs (λ y n u q. absurd (ground arith))
                (any-false-All (same_candidate x) xs d.0) (All-every xs λ y. tt),
          ),
        ),
        ground arith,
      )
  | inr h ↦
      let ((stored, rest), same) = find?-owner id xs r d.1 (rw h at e) in
      ((ground arith, (λ q. absurd (ground arith), rest)), same)
]

HasReady-more :
    (ss ts : List ReadinessSnapshot) (c : DeploymentCandidate)
    → HasReady ss c
    → HasReady (ss ++ ts) c
HasReady-more ss ts c h = record {
  snapshot = h.snapshot;
  named = h.named;
  kept = Member-append h.snapshot ss ts h.kept;
  own = h.own;
  state = h.state;
}

pub insert_snapshot-Gate : (s : ReadinessSnapshot) → Preserves Gate (insert_snapshot s)
unfolding insert_snapshot
insert_snapshot-Gate s = record {
  at = λ k db v a db' e.
      let rows : db'.candidates ≡ db.candidates = ground arith in
      let more : db'.snapshots ≡ db.snapshots ++ s ∷ [] = ground arith in
      record {
        ids = rw rows v.ids;
        approvals =
            rw (rows, more)
              (All-both {Q = λ _. Unit} db.candidates
                (λ c h u q. HasReady-more db.snapshots (s ∷ []) c (h q)) v.approvals
                (All-every db.candidates λ c. tt));
      };
}

pub insert_candidate-Gate :
    (id : Uuid) (at : Time) (input : DeploymentCandidateInput)
    → Preserves Gate (insert_candidate (new_candidate id at input))
unfolding insert_candidate new_candidate
insert_candidate-Gate id now input = record {
  at = λ k db v a db' e.
      let c = new_candidate id now input in
      let rows : db'.candidates ≡ db.candidates ++ c ∷ [] = ground arith in
      let fresh : any (λ d. d.id == c.id) db.candidates ≡ false = ground arith in
      let same : db'.snapshots ≡ db.snapshots = ground arith in
      record {
        ids = rw rows (Distinct-append same_candidate db.candidates c v.ids fresh);
        approvals = rw (rows, same) (All-append _ db.candidates (c ∷ []) v.approvals (λ q. cc, tt));
      };
}

pub update_candidate-Gate :
    (id service_id : Uuid) (status : CandidateStatus) (reason : String) (snapshot_id : Option Uuid)
    (at : Time)
    → Establishes
        (λ db. Gate db × (Owner id service_id db × Grounds service_id status snapshot_id db))
        (update_candidate id status reason snapshot_id at)
        (λ n. Gate)
unfolding update_candidate decide
update_candidate-Gate id service_id status reason snapshot_id now k db
      (v, ((stored, owner), reasons)) n db' e =
    let f = decide status reason snapshot_id now in
    let rows : db'.candidates ≡ update_where (decidable id) f db.candidates = ground arith in
    let same : db'.snapshots ≡ db.snapshots = ground arith in
    record {
      ids = rw rows (
          Distinct-update_where same_candidate (decidable id) f db.candidates (λ c d. refl)
            (λ c d. refl) v.ids);
      approvals =
          rw (rows, same)
            (All-update_where-if _ (λ c. c.service_id ≡ service_id) (decidable id) f db.candidates
              (λ c old own q.
                let (s, (named, (kept, (of_service, is_ready)))) = reasons q in
                record {
                  snapshot = s;
                  named = named;
                  kept = kept;
                  own = of_service ∙ sym own;
                  state = is_ready;
                })
              (All-both {Q = λ _. Unit} db.candidates (λ c h u q. h (ground arith)) owner
                (All-every db.candidates λ c. tt))
              v.approvals);
    }

pub select_candidate-Owner :
    (id : Uuid)
    → Establishes Gate (select_candidate id) (λ c db. Gate db × Owner c.id c.service_id db)
unfolding select_candidate find_candidate
select_candidate-Owner id k db v c db' e =
    let (found, same) = reading-eq (find_candidate id db) db c db' e in
    elim (Option-cases (find? (λ d. d.id == id) db.candidates)) [
      | inl none_there ↦ absurd (cc (rw none_there at found))
      | inr (r, there) ↦
          let joined : ◌≡◌ {A = Result DeploymentCandidate}
              (ok (record r {
                promotion_decision = find? (λ p. p.candidate_id == r.id) db.decisions;
              }))
              (ok c) =
            rw there at found in
          let row : record r {
            promotion_decision = find? (λ p. p.candidate_id == r.id) db.decisions;
          }
              ≡ c =
            cc in
          subst (λ t. Gate t × Owner c.id c.service_id t) same
            (
              v,
              subst (λ t. Owner t.id t.service_id db) row
                  (find?-owner id db.candidates r v.ids there).0,
            )
    ]

pub select_latest_snapshot-Member :
    (service_id : Uuid) (k : ℕ) (db db' : Database) (s : ReadinessSnapshot)
    → select_latest_snapshot service_id k db ≡ ok (s, db')
    → (Member s db'.snapshots × (s.service_id ≡ service_id)) × (db ≡ db')
unfolding select_latest_snapshot
select_latest_snapshot-Member service_id k db db' s e =
    let (found, same) =
      reading-eq (or_not_found (latest (snapshots_of service_id db))) db s db' e in
    elim (Option-cases (latest (snapshots_of service_id db))) [
      | inl none_there ↦ absurd (cc (rw none_there at found))
      | inr (t, there) ↦
          let these : t ≡ s = cc (rw there at found) in
          let (member, own) =
            Member-filter (λ x. x.service_id == service_id) s db.snapshots
              (latest-Member _ s (there ∙ ap some these)) in
          ((subst (λ d. Member s d.snapshots) same member, ground arith), same)
    ]
