-- ===== src/Effects.antt =====
-- What a call of the program can do beside computing: read a clock, draw an identifier, and talk
-- to the database. `Env` holds what the repository does not: the clocks, the generator of
-- identifiers, the parsers, the network, and the other sessions of the database.
pub mod Tables
pub mod Rules
pub mod Triple
use golden_path_control_plan.Prelude.{ℕ, suc, ◌+◌, String, Bool}
use golden_path_control_plan.Domain.Models.{Uuid, Time}
use golden_path_control_plan.Domain.Parsers.{Parsers}
use golden_path_control_plan.Errors.{Error, unavailable, Result, ok, err}
use Tables.{Database}

-- What becomes of one exchange with the database: it is answered, it never arrives, or the
-- database carries it out and the answer is lost.
pub data Delivery : Type 0 where
  delivered refused reply_lost : Delivery

pub record Env : Type 0 where
  pub parsers : Parsers
  -- the k-th `uuid.New`, and the `String` method of an identifier
  pub uuid : ℕ → Uuid
  pub uuid_text : Uuid → String
  -- the k-th `time.Now`, and `NOW()` in the k-th exchange
  pub clock : ℕ → Time
  pub db_clock : ℕ → Time
  pub delivery : ℕ → Delivery
  -- what other sessions commit before the k-th exchange, and the jobs that they hold locked in it
  pub peers : ℕ → Database → Database
  pub locked : ℕ → Uuid → Bool
  -- the `Error` method of an error, and the database's order of texts
  pub error_text : Error → String
  pub text_le : String → String → Bool

-- The database, and how much of each source of `Env` has been used.
pub record World : Type 0 where
  pub db : Database
  pub draws : ℕ
  pub reads : ℕ
  pub exchanges : ℕ

abbrev pub App {ℓ} : Type ℓ → Type ℓ
App A = World → Result A × World

-- An SQL statement, given the number of its exchange: a failing one changes nothing.
abbrev pub Statement : Type 0 → Type 0
Statement A = ℕ → Database → Result (A × Database)

module _ {ℓ} {A : Type ℓ} where
  unfoldable pub pure : A → App A
  pure a w = (ok a, w)

  unfoldable pub raise : Error → App A
  raise e w = (err e, w)

module _ {ℓ κ} {A : Type ℓ} {B : Type κ} where
  unfoldable pub continue : Result A → (A → App B) → App B
  continue (ok a) f w = f a w
  continue (err e) f w = (err e, w)

  infixl 10 ◌>>=◌ ◌>>◌
  unfoldable pub ◌>>=◌ : App A → (A → App B) → App B
  unfolding continue
  ◌>>=◌ m f w = let (r, w') = m w in continue r f w'

  abbrev pub ◌>>◌ : App A → App B → App B
  m >> n = m >>= λ _. n

unfoldable pub now : Env → App Time
now env w = (ok (env.clock w.reads), record w { reads = suc w.reads })

unfoldable pub new_uuid : Env → App Uuid
new_uuid env w = (ok (env.uuid w.draws), record w { draws = suc w.draws })

-- n identifiers at once: the k-th of them is `env.uuid (draws + k)`.
unfoldable pub new_uuids : Env → ℕ → App (ℕ → Uuid)
new_uuids env n w = (ok (λ k. env.uuid (w.draws + k)), record w { draws = w.draws + n })

-- Other sessions act, and the next exchange begins.
unfoldable pub arrive : Env → World → World
arrive env w = record w { db = env.peers w.exchanges w.db; exchanges = suc w.exchanges }

-- The next exchange of a transaction begins: its rows are its own until it ends.
unfoldable pub proceed : World → World
proceed w = record w { exchanges = suc w.exchanges }

module _ {A : Type 0} where
  -- The world after a statement that was carried out.
  unfoldable pub answer : Result (A × Database) → App A
  answer (ok (a, db')) w = (ok a, record w { db = db' })
  answer (err e) w = (err e, w)

  unfoldable pub lose_reply : Result A × World → Result A × World
  lose_reply (r, w) = (err unavailable, w)

  unfoldable pub perform : Delivery → Result (A × Database) → App A
  unfolding answer lose_reply
  perform delivered r w = answer r w
  perform refused r w = (err unavailable, w)
  perform reply_lost r w = lose_reply (answer r w)

  -- A statement in a transaction of its own, and one of a transaction that has begun.
  unfoldable pub exec : Env → Statement A → App A
  unfolding perform arrive
  exec env statement w =
      let k = w.exchanges in
      perform (env.delivery k) (statement k (env.peers k w.db)) (arrive env w)

  unfoldable pub exec_in : Env → Statement A → App A
  unfolding perform proceed
  exec_in env statement w =
      let k = w.exchanges in perform (env.delivery k) (statement k w.db) (proceed w)

  -- COMMIT, after a body that returned: a lost reply leaves the work done.
  unfoldable pub commit : Delivery → Database → A → App A
  commit delivered before a w = (ok a, w)
  commit refused before a w = (err unavailable, record w { db = before })
  commit reply_lost before a w = (err unavailable, w)

  -- ROLLBACK, after a body that failed.
  unfoldable pub settle : Env → Database → Result A → World → Result A × World
  unfolding commit proceed
  settle env before (ok a) w = commit (env.delivery w.exchanges) before a (proceed w)
  settle env before (err e) w = (err e, record (proceed w) { db = before })

  unfoldable pub atomic : Env → App A → App A
  unfolding settle
  atomic env body w = let (r, w') = body w in settle env w.db r w'

-- An exchange that touches no row: BEGIN, or the end of a batch.
unfoldable pub nothing : Statement (Unit {0})
nothing k db = ok (tt, db)

unfoldable pub transaction : {A : Type 0} → Env → App A → App A
unfolding exec nothing atomic ◌>>=◌
transaction env body = do exec env nothing; atomic env body
