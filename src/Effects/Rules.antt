-- ===== src/Effects/Rules.antt =====
-- Invariants of the database under what a call does, one rule for each way to build a call. The
-- other sessions are assumed to keep the invariant too.
use golden_path_control_plan.Prelude.{ℕ, ◌≡◌, refl, arith}
use golden_path_control_plan.Errors.{Error, Result, ok, err}
use golden_path_control_plan.Effects.{
  Env, World, App, Statement, Delivery, delivered, refused, reply_lost, pure, raise, ◌>>=◌,
  continue, now, new_uuid, new_uuids, perform, exec, exec_in, commit, settle, atomic, nothing,
  transaction, arrive, proceed, answer,
}
use golden_path_control_plan.Effects.Tables.{Database}

pub record Keeps (P : Database → Type 0) {A : Type 0} (m : App A) : Type 0 where
  pub at : (w : World) → P w.db → P (m w).1.db

-- A statement that succeeds keeps `P`.
pub record Preserves (P : Database → Type 0) {A : Type 0} (s : Statement A) : Type 0 where
  pub at : (k : ℕ) (db : Database) → P db → (a : A) (db' : Database) → s k db ≡ ok (a, db') → P db'

-- What the other sessions commit keeps `P`.
abbrev pub PeersKeep : Env → (Database → Type 0) → Type 0
PeersKeep env P = (k : ℕ) (db : Database) → P db → P (env.peers k db)

module _ {P : Database → Type 0} {A : Type 0} where
  pub Keeps-pure : (a : A) → Keeps P (pure a)
  unfolding pure
  Keeps-pure a = record { at = λ w h. h }

  pub Keeps-raise : (e : Error) → Keeps P (raise {A = A} e)
  unfolding raise
  Keeps-raise e = record { at = λ w h. h }

module _ {P : Database → Type 0} (env : Env) where
  pub Keeps-now : Keeps P (now env)
  unfolding now
  Keeps-now = record { at = λ w h. h }

  pub Keeps-new_uuid : Keeps P (new_uuid env)
  unfolding new_uuid
  Keeps-new_uuid = record { at = λ w h. h }

  pub Keeps-new_uuids : (n : ℕ) → Keeps P (new_uuids env n)
  unfolding new_uuids
  Keeps-new_uuids n = record { at = λ w h. h }

module _ {P : Database → Type 0} {A B : Type 0} where
  continue-Keeps :
      (r : Result A) (w : World) (f : A → App B)
      → ((a : A) → r ≡ ok a → Keeps P (f a))
      → P w.db
      → P (continue r f w).1.db
  unfolding continue
  continue-Keeps (ok a) w f h p = (h a refl).at w p
  continue-Keeps (err e) w f h p = p

  pub Keeps-bind :
      (m : App A) (f : A → App B) → Keeps P m → ((a : A) → Keeps P (f a)) → Keeps P (m >>= f)
  unfolding ◌>>=◌
  Keeps-bind m f hm hf = record {
    at = λ w h. let (r, w') = m w in continue-Keeps r w' f (λ a _. hf a) (hm.at w h);
  }

module _ {P : Database → Type 0} (env : Env) {A : Type 0} where
  answer-Keeps :
      (r : Result (A × Database)) (w : World)
      → P w.db
      → ((a : A) (db : Database) → r ≡ ok (a, db) → P db)
      → P (answer r w).1.db
  unfolding answer
  answer-Keeps (ok (a, db)) w h s = s a db refl
  answer-Keeps (err e) w h s = h

  perform-Keeps :
      (d : Delivery) (r : Result (A × Database)) (w : World)
      → P w.db
      → ((a : A) (db : Database) → r ≡ ok (a, db) → P db)
      → P (perform d r w).1.db
  unfolding perform
  perform-Keeps delivered r w h s = answer-Keeps r w h s
  perform-Keeps refused r w h s = h
  perform-Keeps reply_lost r w h s = answer-Keeps r w h s

  pub Keeps-exec : (s : Statement A) → PeersKeep env P → Preserves P s → Keeps P (exec env s)
  unfolding exec
  Keeps-exec s peers h = record {
    at = λ w p.
        let q = peers w.exchanges w.db p in
        perform-Keeps (env.delivery w.exchanges) (s w.exchanges (env.peers w.exchanges w.db))
          (arrive env w) q (h.at w.exchanges (env.peers w.exchanges w.db) q);
  }

  pub Keeps-exec_in : (s : Statement A) → Preserves P s → Keeps P (exec_in env s)
  unfolding exec_in
  Keeps-exec_in s h = record {
    at = λ w p.
        perform-Keeps (env.delivery w.exchanges) (s w.exchanges w.db) (proceed w) p
          (h.at w.exchanges w.db p);
  }

module _ (P : Database → Type 0) (env : Env) {A : Type 0} where
  commit-Keeps :
      (d : Delivery) (before : Database) (a : A) (w : World)
      → P before
      → P w.db
      → P (commit d before a w).1.db
  unfolding commit
  commit-Keeps delivered before a w p q = q
  commit-Keeps refused before a w p q = p
  commit-Keeps reply_lost before a w p q = q

  settle-Keeps :
      (before : Database) (r : Result A) (w : World)
      → P before
      → P w.db
      → P (settle env before r w).1.db
  unfolding settle
  settle-Keeps before (ok a) w p q =
      commit-Keeps (env.delivery w.exchanges) before a (proceed w) p q
  settle-Keeps before (err e) w p q = p

module _ {P : Database → Type 0} (env : Env) where
  Keeps-nothing : PeersKeep env P → Keeps P (exec env nothing)
  unfolding nothing
  Keeps-nothing peers = Keeps-exec env _ peers (record { at = λ k db p a db' e. ground arith })

module _ {P : Database → Type 0} (env : Env) {A : Type 0} where
  -- The body of a transaction keeps `P`, statement by statement.
  Keeps-atomic : (m : App A) → Keeps P m → Keeps P (atomic env m)
  unfolding atomic
  Keeps-atomic m h = record {
    at = λ w p. let (r, w') = m w in settle-Keeps P env w.db r w' p (h.at w p);
  }

  pub Keeps-transaction : (m : App A) → PeersKeep env P → Keeps P m → Keeps P (transaction env m)
  unfolding transaction
  Keeps-transaction m peers h = Keeps-bind _ _ (Keeps-nothing env peers) (λ _. Keeps-atomic m h)
