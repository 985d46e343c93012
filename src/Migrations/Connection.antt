-- ===== src/Migrations/Connection.antt =====
-- A connection to the database as internal/migrations sees it.
use golden_path_control_plan.Prelude.{ℕ, suc, String, ◌<>◌, Bool, Option, List}
use golden_path_control_plan.Fallible.{Fallible, done, failed}
use golden_path_control_plan.Effects.{Delivery, delivered, refused, reply_lost}

-- An entry of the embedded directory `sql`
pub record File : Type 0 where
  pub name : String
  pub is_dir : Bool
  pub contents : String

-- ErrSchemaUninitialized, ErrSchemaBehind with the missing versions, ErrSchemaAhead with the unknown
-- version, and any other error by its text
pub data Failure : Type 0 where
  schema_uninitialized : Failure
  schema_behind : List String → Failure
  schema_ahead : String → Failure
  failure : String → Failure

-- An error of the driver: a `pgconn.PgError` with the code 3D000, or another by its text
pub data QueryError : Type 0 where
  no_database : QueryError
  other_error : String → QueryError

-- What the repository does not hold: what becomes of each exchange, with the error of one that fails;
-- what a script makes of the schema `S`, which is all that the database holds beside the table
-- schema_migrations, or its error; and the database's order of texts.
pub record Link (S : Type 0) : Type 0 where
  pub delivery : ℕ → Delivery
  pub refusal : ℕ → QueryError
  pub run_script : String → S → Fallible S
  pub text_le : String → String → Bool

-- `recorded` is the table schema_migrations, or `none` while there is no such table. The advisory lock
-- keeps other processes from applying migrations meanwhile.
pub record Session (S : Type 0) : Type 0 where
  pub recorded : Option (List String)
  pub schema : S
  pub locked : Bool
  pub exchanges : ℕ

pub data Outcome (A : Type 0) : Type 0 where
  finished : A → Outcome A
  stopped : Failure → Outcome A

abbrev pub Migrating : Type 0 → Type 0 → Type 0
Migrating S A = Session S → Outcome A × Session S

module _ {S A : Type 0} where
  unfoldable pub pure : A → Migrating S A
  pure a s = (finished a, s)

  unfoldable pub stop : Failure → Migrating S A
  stop e s = (stopped e, s)

module _ {S A B : Type 0} where
  abbrev pub continue : Outcome A × Session S → (A → Migrating S B) → Outcome B × Session S
  continue (finished a, s) f = f a s
  continue (stopped e, s) f = (stopped e, s)

  infixl 10 ◌>>=◌ ◌>>◌
  unfoldable pub ◌>>=◌ : Migrating S A → (A → Migrating S B) → Migrating S B
  (m >>= f) s = continue (m s) f

  abbrev pub ◌>>◌ : Migrating S A → Migrating S B → Migrating S B
  m >> n = m >>= λ _. n

-- What a statement makes of the database: a result, or an error's text
abbrev pub Query : Type 0 → Type 0 → Type 0
Query S A = Session S → Fallible (A × Session S)

abbrev pub error_text : QueryError → String
error_text no_database = "database does not exist"
error_text (other_error e) = e

abbrev pub counted : {S : Type 0} → Session S → Session S
counted s = record s { exchanges = suc s.exchanges }

module _ {S A : Type 0} where
  -- What was done by a statement, whose reply may get lost
  abbrev pub replied :
      (QueryError → Failure) → Session S → Fallible (A × Session S) → Outcome A × Session S
  replied wrap s (done (a, s')) = (finished a, s')
  replied wrap s (failed e) = (stopped (wrap (other_error e)), s)

  abbrev pub lost : Failure → Outcome A × Session S → Outcome A × Session S
  lost e (r, s) = (stopped e, s)

  abbrev pub delivered_by :
      Delivery → (QueryError → Failure) → QueryError → Query S A → Session S → Outcome A × Session S
  delivered_by delivered wrap e query s = replied wrap s (query s)
  delivered_by refused wrap e query s = (stopped (wrap e), s)
  delivered_by reply_lost wrap e query s = lost (wrap e) (replied wrap s (query s))

  -- One exchange, with what its error is wrapped in
  unfoldable pub exchange_or : Link S → (QueryError → Failure) → Query S A → Migrating S A
  exchange_or link wrap query s =
      delivered_by (link.delivery s.exchanges) wrap (link.refusal s.exchanges) query (counted s)

  unfoldable pub exchange : Link S → String → Query S A → Migrating S A
  unfolding exchange_or
  exchange link what query = exchange_or link (λ e. failure (what <> error_text e)) query
