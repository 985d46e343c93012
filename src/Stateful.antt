-- ===== src/Stateful.antt =====
-- Calls that change a state and may fail with the text of an error.
use golden_path_control_plan.Prelude.{String, Option, ◌≡◌, refl, subst}
use golden_path_control_plan.Fallible.{Fallible, done, failed, insist, prefixed}

abbrev pub Stateful {ℓ κ} : Type ℓ → Type κ → Type (ℓ ⊔ κ)
Stateful S A = S → Fallible A × S

module _ {ℓ κ} {S : Type 0} {A : Type ℓ} {B : Type κ} where
  unfoldable pub continue : Fallible A → (A → Stateful S B) → Stateful S B
  continue (done a) f s = f a s
  continue (failed e) f s = (failed e, s)

  infixl 10 ◌>>=◌ ◌>>◌
  unfoldable pub ◌>>=◌ : Stateful S A → (A → Stateful S B) → Stateful S B
  unfolding continue
  ◌>>=◌ m f s = let (r, s') = m s in continue r f s'

  abbrev pub ◌>>◌ : Stateful S A → Stateful S B → Stateful S B
  m >> n = m >>= λ _. n

module _ {S : Type 0} where
  abbrev pub lift {ℓ} : {A : Type ℓ} → Fallible A → Stateful S A
  lift r s = (r, s)

  abbrev pub check : Option String → Stateful S (Unit {0})
  check c = lift (insist c)

  abbrev pub settled {ℓ} : {A : Type ℓ} → (S → S) → Fallible A × S → Fallible A × S
  settled cleanup (done a, s) = (done a, s)
  settled cleanup (failed e, s) = (failed e, cleanup s)

  -- A call whose failure is followed by a clean-up
  unfoldable pub or_clean {ℓ} : {A : Type ℓ} → (S → S) → Stateful S A → Stateful S A
  or_clean cleanup m s = settled cleanup (m s)

abbrev pub After : {S A : Type 0} → (A → S → Type 0) → (S → Type 0) → Fallible A × S → Type 0
After Q E (done a, s) = Q a s
After Q E (failed e, s) = E s

-- From a state with `P` the call returns with `Q` or fails with `E`.
pub record Leads {S A : Type 0} (P : S → Type 0) (m : Stateful S A) (Q : A → S → Type 0)
    (E : S → Type 0) : Type 0 where
  pub at : (s : S) → P s → After Q E (m s)

module _ {S A B : Type 0} {Q : B → S → Type 0} {E : S → Type 0} where
  continue-After :
      (R : A → S → Type 0) (x : Fallible A × S) (f : A → Stateful S B)
      → After R E x
      → ((a : A) → Leads (R a) (f a) Q E)
      → After Q E (continue x.0 f x.1)
  unfolding continue
  continue-After R (done a, s) f h k = (k a).at s h
  continue-After R (failed e, s) f h k = h

  pub Leads->>= :
      {P : S → Type 0} {R : A → S → Type 0} {m : Stateful S A} {f : A → Stateful S B}
      → Leads P m R E
      → ((a : A) → Leads (R a) (f a) Q E)
      → Leads P (m >>= f) Q E
  unfolding ◌>>=◌
  Leads->>= {R} {m} {f} h k = record { at = λ s p. continue-After R (m s) f (h.at s p) k }

module _ {S A : Type 0} (P E : S → Type 0) where
  lift-After : (r : Fallible A) (s : S) → P s → E s → After (λ a s'. (r ≡ done a) × P s') E (r, s)
  lift-After (done a) s p e = (refl, p)
  lift-After (failed x) s p e = e

  kept-After : (r : Fallible A) (s : S) → P s → E s → After (λ _. P) E (r, s)
  kept-After (done a) s p e = p
  kept-After (failed x) s p e = e

module _ {S A : Type 0} (Q : A → S → Type 0) (E : S → Type 0) where
  -- The text before an error changes nothing else.
  pub prefixed-After :
      (prefix : String) (x : Fallible A × S) → After Q E x → After Q E (prefixed prefix x.0, x.1)
  prefixed-After prefix (done a, s) h = h
  prefixed-After prefix (failed e, s) h = h

module _ {S A : Type 0} {P : S → Type 0} where
  -- A call that leaves the state alone returns what it returns.
  pub Leads-lift :
      {E : S → Type 0} (r : Fallible A)
      → ((s : S) → P s → E s)
      → Leads P (lift r) (λ a s. (r ≡ done a) × P s) E
  Leads-lift {E} r h = record { at = λ s p. lift-After P E r s p (h s p) }

  pub Leads-keep :
      {E : S → Type 0} (r : Fallible A) → ((s : S) → P s → E s) → Leads P (lift r) (λ _. P) E
  Leads-keep {E} r h = record { at = λ s p. kept-After P E r s p (h s p) }

  -- A fact, apart from the state
  pub Leads-given :
      {F : Type 0} {m : Stateful S A} {Q : A → S → Type 0} {E : S → Type 0}
      → (F → Leads P m Q E)
      → Leads (λ s. F × P s) m Q E
  Leads-given h = record { at = λ s p. (h p.0).at s p.1 }

module _ {S A : Type 0} (Q : A → S → Type 0) (E F : S → Type 0) (cleanup : S → S) where
  settled-After :
      (x : Fallible A × S)
      → ((s : S) → F s → E (cleanup s))
      → After Q F x
      → After Q E (settled cleanup x)
  settled-After (done a, s) h k = k
  settled-After (failed e, s) h k = h s k

module _ {S A : Type 0} {Q : A → S → Type 0} {E F : S → Type 0} (cleanup : S → S) where
  pub Leads-or_clean :
      {P : S → Type 0} {m : Stateful S A}
      → ((s : S) → F s → E (cleanup s))
      → Leads P m Q F
      → Leads P (or_clean cleanup m) Q E
  unfolding or_clean
  Leads-or_clean {m} h k = record { at = λ s p. settled-After Q E F cleanup (m s) h (k.at s p) }

module _ {S A : Type 0} where
  done-After :
      (Q : A → S → Type 0) (E : S → Type 0) (x : Fallible A × S) (a : A)
      → After Q E x
      → x.0 ≡ done a
      → Q a x.1
  done-After Q E (done b, s) a h e = subst (λ r. After Q E (r, s)) e h
  done-After Q E (failed t, s) a h e = cc

  -- What is true after a call that returned
  pub Leads-done :
      {P : S → Type 0} {m : Stateful S A} {Q : A → S → Type 0} {E : S → Type 0}
      → Leads P m Q E
      → (s : S) → P s
      → (a : A) → (m s).0 ≡ done a
      → Q a (m s).1
  Leads-done {m} {Q} {E} h s p a e = done-After Q E (m s) a (h.at s p) e
