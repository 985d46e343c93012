-- ===== src/Migrations/Triples.antt =====
-- Pre- and postconditions of what internal/migrations does over a connection.
use golden_path_control_plan.Prelude.{String, ◌≡◌, refl}
use golden_path_control_plan.Fallible.{Fallible, done, failed}
use golden_path_control_plan.Effects.{Delivery, delivered, refused, reply_lost}
use golden_path_control_plan.Migrations.Connection.{
  Failure, QueryError, Link, Session, Outcome, finished, stopped, Migrating, pure, stop, ◌>>=◌,
  continue, Query, counted, replied, delivered_by, exchange_or, exchange,
}

abbrev Pred : Type 0 → Type 1
Pred S = Session S → Type 0

-- What holds after a call that finishes, and after one that stops
abbrev pub Ends : {S A : Type 0} → (A → Pred S) → Pred S → Outcome A × Session S → Type 0
Ends Q E (finished a, s) = Q a s
Ends Q E (stopped e, s) = E s

pub record Triple {S A : Type 0} (P : Pred S) (m : Migrating S A) (Q : A → Pred S) (E : Pred S)
    : Type 0 where
  pub at : (s : Session S) → P s → Ends Q E (m s)

module _ {S A : Type 0} {P E : Pred S} {Q : A → Pred S} where
  pub Triple-pure : (a : A) → ((s : Session S) → P s → Q a s) → Triple P (pure a) Q E
  unfolding pure
  Triple-pure a h = record { at = h }

  pub Triple-stop : (e : Failure) → ((s : Session S) → P s → E s) → Triple P (stop e) Q E
  unfolding stop
  Triple-stop e h = record { at = h }

module _ {S A B : Type 0} {E : Pred S} {R : A → Pred S} {Q : B → Pred S} where
  continued :
      (r : Outcome A × Session S) (f : A → Migrating S B)
      → ((a : A) → Triple (R a) (f a) Q E)
      → Ends R E r
      → Ends Q E (continue r f)
  continued (finished a, s) f h o = (h a).at s o
  continued (stopped e, s) f h o = o

  pub Triple-bind :
      {P : Pred S} {m : Migrating S A} {f : A → Migrating S B}
      → Triple P m R E
      → ((a : A) → Triple (R a) (f a) Q E)
      → Triple P (m >>= f) Q E
  unfolding ◌>>=◌
  Triple-bind {m = m} {f = f} hm hf = record { at = λ s p. continued (m s) f hf (hm.at s p) }

module _ {S A : Type 0} {P E : Pred S} {Q : A → Pred S} (link : Link S)
    (count : (s : Session S) → P s → P (counted s)) (weaken : (s : Session S) → P s → E s)
    (imply : (a : A) (s : Session S) → Q a s → E s) where
  delivered_Ends :
      (d : Delivery) (wrap : QueryError → Failure) (e : QueryError) (query : Query S A)
      (s : Session S)
      → ((a : A) (s' : Session S) → query s ≡ done (a, s') → Q a s')
      → E s
      → Ends Q E (delivered_by d wrap e query s)
  delivered_Ends delivered wrap e query s h x = go (query s) refl
    where
      go : (r : Fallible (A × Session S)) → query s ≡ r → Ends Q E (replied wrap s r)
      go (done (a, s')) q = h a s' q
      go (failed t) q = x
  delivered_Ends refused wrap e query s h x = x
  delivered_Ends reply_lost wrap e query s h x = go (query s) refl
    where
      go : (r : Fallible (A × Session S)) → query s ≡ r → E (replied wrap s r).1
      go (done (a, s')) q = imply a s' (h a s' q)
      go (failed t) q = x

  pub Triple-exchange_or :
      (wrap : QueryError → Failure) (query : Query S A)
      → ((s : Session S) → P s → (a : A) (s' : Session S) → query s ≡ done (a, s') → Q a s')
      → Triple P (exchange_or link wrap query) Q E
  unfolding exchange_or
  Triple-exchange_or wrap query h = record {
    at = λ s p.
        delivered_Ends (link.delivery s.exchanges) wrap (link.refusal s.exchanges) query (counted s)
          (h (counted s) (count s p)) (weaken (counted s) (count s p));
  }

  pub Triple-exchange :
      (what : String) (query : Query S A)
      → ((s : Session S) → P s → (a : A) (s' : Session S) → query s ≡ done (a, s') → Q a s')
      → Triple P (exchange link what query) Q E
  unfolding exchange
  Triple-exchange what query h = Triple-exchange_or _ query h
