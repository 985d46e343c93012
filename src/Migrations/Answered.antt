-- ===== src/Migrations/Answered.antt =====
-- Exchanges of internal/migrations that are answered, and the records that they leave.
use golden_path_control_plan.Prelude.{
  ℕ, String, ◌<>◌, true, ◌≡◌, refl, some, List, any, All, str_eq,
}
use golden_path_control_plan.Fallible.{done}
use golden_path_control_plan.Effects.{delivered}
use golden_path_control_plan.Migrations.{or_empty, accepted, lock, create_table}
use golden_path_control_plan.Migrations.Connection.{
  Failure, failure, QueryError, error_text, Link, Session, Query, counted, exchange, exchange_or,
  replied,
}
use golden_path_control_plan.Migrations.Triples.{Triple}

-- Every exchange is answered, and every script runs.

pub record Works {S : Type 0} (link : Link S) : Type 0 where
  pub answered : (k : ℕ) → link.delivery k ≡ delivered
  pub runs : (contents : String) (s : S) → (s' : S) × (link.run_script contents s ≡ done s')

abbrev pub IsIn : List String → String → Type 0
IsIn vs v = any (str_eq v) vs ≡ true

-- The table is there, records all of some versions, and none but the expected ones.
pub record Records {S : Type 0} (expected ds : List String) (s : Session S) : Type 0 where
  pub rows : List String
  pub table : s.recorded ≡ some rows
  pub all_of : All (IsIn rows) ds
  pub none_but : All (IsIn expected) rows

abbrev pub Never : {S : Type 0} → Session S → Type 0
Never s = ⊥

-- An exchange that is answered
pub answered_lem :
    {S A : Type 0} (link : Link S)
    → ((k : ℕ) → link.delivery k ≡ delivered)
    → (wrap : QueryError → Failure) (query : Query S A) (s : Session S)
    → exchange_or link wrap query s ≡ replied wrap (counted s) (query (counted s))
unfolding exchange_or
answered_lem link answered wrap query s = rw (answered s.exchanges) refl

pub accepted_lem : {S : Type 0} (s : Session S) → accepted s ≡ done (tt, s)
unfolding accepted
accepted_lem s = refl

pub lock_lem : {S : Type 0} (s : Session S) → lock s ≡ done (tt, record s { locked = true })
unfolding lock
lock_lem s = refl

pub create_table_lem :
    {S : Type 0} (s : Session S)
    → create_table s ≡ done (tt, record s { recorded = some (or_empty s.recorded) })
unfolding create_table
create_table_lem s = refl

module _ {S : Type 0} (link : Link S) (works : Works link) where
  pub Triple-answered :
      {A : Type 0} {P : Session S → Type 0} {Q : A → Session S → Type 0} (what : String)
      (query : Query S A)
      → ((s : Session S)
          → P s
          → (a : A) × ((s' : Session S) × ((query (counted s) ≡ done (a, s')) × Q a s')))
      → Triple P (exchange link what query) Q Never
  unfolding exchange
  Triple-answered what query h = record {
    at = λ s p.
        let (a, (s', (e, q))) = h s p in
        rw (answered_lem link works.answered (λ x. failure (what <> error_text x)) query s, e) q;
  }
