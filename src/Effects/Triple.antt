-- ===== src/Effects/Triple.antt =====
-- Pre- and postconditions of calls: what holds of the database, and of the result, after a call
-- that returns, and what holds of the database after one that fails.
use golden_path_control_plan.Prelude.{ℕ, ◌≡◌, refl, ap, subst}
use golden_path_control_plan.Errors.{Error, Result, ok, err}
use golden_path_control_plan.Effects.{
  Env, World, App, Statement, Delivery, delivered, refused, reply_lost, pure, raise, ◌>>=◌,
  continue, now, new_uuid, new_uuids, perform, exec, exec_in, commit, settle, atomic, nothing,
  transaction, arrive, proceed, answer, lose_reply,
}
use golden_path_control_plan.Effects.Rules.{Keeps, PeersKeep}
use golden_path_control_plan.Effects.Tables.{Database}

abbrev pub Pred : Type 1
Pred = Database → Type 0

abbrev pub Outcome : {A : Type 0} → (A → Pred) → Pred → Result A × World → Type 0
Outcome Q E (ok a, w) = Q a w.db
Outcome Q E (err e, w) = E w.db

pub record Triple (P : Pred) {A : Type 0} (m : App A) (Q : A → Pred) (E : Pred) : Type 0 where
  pub at : (w : World) → P w.db → Outcome Q E (m w)

-- What a statement that succeeds makes true
abbrev pub Establishes : {A : Type 0} → Pred → Statement A → (A → Pred) → Type 0
Establishes {A} P s Q =
    (k : ℕ) (db : Database) → P db → (a : A) (db' : Database) → s k db ≡ ok (a, db') → Q a db'

module _ {P E : Pred} {A : Type 0} {Q : A → Pred} where
  pub Triple-pure : (a : A) → ((db : Database) → P db → Q a db) → Triple P (pure a) Q E
  unfolding pure
  Triple-pure a h = record { at = λ w p. h w.db p }

  pub Triple-raise : (e : Error) → ((db : Database) → P db → E db) → Triple P (raise e) Q E
  unfolding raise
  Triple-raise e h = record { at = λ w p. h w.db p }

  -- A weaker precondition serves.
  pub Triple-from :
      {P' : Pred} {m : App A} → ((db : Database) → P db → P' db) → Triple P' m Q E → Triple P m Q E
  Triple-from h t = record { at = λ w p. t.at w (h w.db p) }

module _ {P R E : Pred} (env : Env) where
  pub Triple-now : ((db : Database) → P db → R db) → Triple P (now env) (λ _. R) E
  unfolding now
  Triple-now h = record { at = λ w p. h w.db p }

  pub Triple-new_uuid : ((db : Database) → P db → R db) → Triple P (new_uuid env) (λ _. R) E
  unfolding new_uuid
  Triple-new_uuid h = record { at = λ w p. h w.db p }

  pub Triple-new_uuids :
      (n : ℕ) → ((db : Database) → P db → R db) → Triple P (new_uuids env n) (λ _. R) E
  unfolding new_uuids
  Triple-new_uuids n h = record { at = λ w p. h w.db p }

module _ {A B : Type 0} (R : A → Pred) (Q : B → Pred) (E : Pred) where
  continue-Outcome :
      (r : Result A) (w : World) (f : A → App B)
      → ((a : A) → Triple (R a) (f a) Q E)
      → Outcome R E (r, w)
      → Outcome Q E (continue r f w)
  unfolding continue
  continue-Outcome (ok a) w f h o = (h a).at w o
  continue-Outcome (err e) w f h o = o

module _ {P E : Pred} {A B : Type 0} {R : A → Pred} {Q : B → Pred} where
  pub Triple-bind :
      {m : App A} {f : A → App B}
      → Triple P m R E
      → ((a : A) → Triple (R a) (f a) Q E)
      → Triple P (m >>= f) Q E
  unfolding ◌>>=◌
  Triple-bind {m} {f} hm hf = record {
    at = λ w p. let (r, w') = m w in continue-Outcome R Q E r w' f hf (hm.at w p);
  }

module _ {A : Type 0} (Q : A → Pred) (E : Pred) where
  answer-Outcome :
      (r : Result (A × Database)) (w : World)
      → E w.db
      → ((a : A) (db : Database) → r ≡ ok (a, db) → Q a db)
      → Outcome Q E (answer r w)
  unfolding answer
  answer-Outcome (ok (a, db)) w e q = q a db refl
  answer-Outcome (err x) w e q = e

  lost-Outcome :
      (r : Result (A × Database)) (w : World)
      → E w.db
      → ((a : A) (db : Database) → r ≡ ok (a, db) → Q a db)
      → ((a : A) (db : Database) → Q a db → E db)
      → Outcome Q E (lose_reply (answer r w))
  unfolding answer lose_reply
  lost-Outcome (ok (a, db)) w e q qe = qe a db (q a db refl)
  lost-Outcome (err x) w e q qe = e

  -- A failed exchange may have been carried out, so `Q` has to imply `E`.
  perform-Outcome :
      (d : Delivery) (r : Result (A × Database)) (w : World)
      → E w.db
      → ((a : A) (db : Database) → r ≡ ok (a, db) → Q a db)
      → ((a : A) (db : Database) → Q a db → E db)
      → Outcome Q E (perform d r w)
  unfolding perform
  perform-Outcome delivered r w e q qe = answer-Outcome r w e q
  perform-Outcome refused r w e q qe = e
  perform-Outcome reply_lost r w e q qe = lost-Outcome r w e q qe

  commit-Outcome :
      (d : Delivery) (before : Database) (a : A) (w : World)
      → E before
      → Q a w.db
      → ((b : A) (db : Database) → Q b db → E db)
      → Outcome Q E (commit d before a w)
  unfolding commit
  commit-Outcome delivered before a w e q qe = q
  commit-Outcome refused before a w e q qe = e
  commit-Outcome reply_lost before a w e q qe = qe a w.db q

  settle-Outcome :
      (env : Env) (before : Database) (r : Result A) (w : World) (E' : Pred)
      → E before
      → Outcome Q E' (r, w)
      → ((b : A) (db : Database) → Q b db → E db)
      → Outcome Q E (settle env before r w)
  unfolding settle
  settle-Outcome env before (ok a) w E' e o qe =
      commit-Outcome (env.delivery w.exchanges) before a (proceed w) e o qe
  settle-Outcome env before (err x) w E' e o qe = e

module _ {P E : Pred} {A : Type 0} {Q : A → Pred} (env : Env)
    (weaken : (db : Database) → P db → E db) (imply : (a : A) (db : Database) → Q a db → E db) where
  pub Triple-exec :
      {s : Statement A} → PeersKeep env P → Establishes P s Q → Triple P (exec env s) Q E
  unfolding exec
  Triple-exec {s} peers h = record {
    at = λ w p.
        let q = peers w.exchanges w.db p in
        perform-Outcome Q E (env.delivery w.exchanges) (s w.exchanges (env.peers w.exchanges w.db))
          (arrive env w) (weaken _ q) (h w.exchanges (env.peers w.exchanges w.db) q) imply;
  }

  pub Triple-exec_in : {s : Statement A} → Establishes P s Q → Triple P (exec_in env s) Q E
  unfolding exec_in
  Triple-exec_in {s} h = record {
    at = λ w p.
        perform-Outcome Q E (env.delivery w.exchanges) (s w.exchanges w.db) (proceed w) (weaken _ p)
          (h w.exchanges w.db p) imply;
  }

  Triple-atomic : {m : App A} {E' : Pred} → Triple P m Q E' → Triple P (atomic env m) Q E
  unfolding atomic
  Triple-atomic {m} {E'} h = record {
    at = λ w p.
        let (r, w') = m w in settle-Outcome Q E env w.db r w' E' (weaken _ p) (h.at w p) imply;
  }

abbrev db_of : Result (Unit {0} × Database) → Database → Database
db_of (ok (_, db)) other = db
db_of (err e) other = other

module _ {P E : Pred} {A : Type 0} {Q : A → Pred} (env : Env) where
  pub Triple-transaction :
      {m : App A} {E' : Pred}
      → PeersKeep env P
      → ((db : Database) → P db → E db)
      → ((a : A) (db : Database) → Q a db → E db)
      → Triple P m Q E'
      → Triple P (transaction env m) Q E
  unfolding transaction nothing
  Triple-transaction {m} {E'} peers weaken imply h =
      Triple-bind {m = exec env nothing} {f = λ _. atomic env m}
        (Triple-exec env weaken (λ _. weaken) {s = nothing} peers
          (λ k db p a db' e. subst P (ap (λ r. db_of r db) e) p))
        (λ _. Triple-atomic env weaken imply h)

module _ (P : Pred) {A : Type 0} where
  same : (r : Result A × World) → Outcome (λ _. P) P r → P r.1.db
  same (ok a, w) o = o
  same (err e, w) o = o

  outcome : (r : Result A × World) → P r.1.db → Outcome (λ _. P) P r
  outcome (ok a, w) p = p
  outcome (err e, w) p = p

module _ {P : Pred} {A : Type 0} {m : App A} where
  pub Triple-Keeps : Triple P m (λ _. P) P → Keeps P m
  Triple-Keeps t = record { at = λ w p. same P (m w) (t.at w p) }

  pub Keeps-Triple : Keeps P m → Triple P m (λ _. P) P
  Keeps-Triple t = record { at = λ w p. outcome P (m w) (t.at w p) }

module _ {A : Type 0} {m : App A} where
  -- A fact about a result, apart from the database
  pub Triple-given :
      {F : Type 0} {P' : Pred} {Q : A → Pred} {E : Pred}
      → (F → Triple P' m Q E)
      → Triple (λ db. P' db × F) m Q E
  Triple-given h = record { at = λ w p. (h p.1).at w p.0 }

module _ {A : Type 0} (Q : A → Pred) (E : Pred) where
  -- What holds after a call whose error is a value
  abbrev pub After : Result A → Pred
  After (ok a) db = Q a db
  After (err e) db = E db

  pub attempt-Outcome : (x : Result A × World) → Outcome Q E x → After x.0 x.1.db
  attempt-Outcome (ok a, w) o = o
  attempt-Outcome (err e, w) o = o

  failed-Outcome :
      (E' : Pred)
      → ((db : Database) → E db → E' db)
      → (x : Result A × World) → Outcome Q E x
      → Outcome Q E' x
  failed-Outcome E' h (ok a, w) o = o
  failed-Outcome E' h (err e, w) o = h w.db o

module _ {P E : Pred} {A : Type 0} {Q : A → Pred} {m : App A} where
  -- A weaker postcondition of failure serves.
  pub Triple-failing :
      {E' : Pred} → ((db : Database) → E db → E' db) → Triple P m Q E → Triple P m Q E'
  Triple-failing {E'} h t = record { at = λ w p. failed-Outcome Q E E' h (m w) (t.at w p) }
