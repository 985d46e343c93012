-- ===== src/Fallible.antt =====
-- A result, or the text of an error: what a Go function with results `(T, error)` returns where
-- its callers do nothing with the error but pass its text on.
use golden_path_control_plan.Prelude.{
  String, ◌<>◌, Option, none, some, ◌≡◌, refl, subst, ◌⊎◌, inl, inr,
}

pub data Fallible {ℓ} (A : Type ℓ) : Type ℓ where
  done : A → Fallible A
  failed : String → Fallible A

pub Fallible-cases :
    {A : Type 0} (m : Fallible A) → ((a : A) × (m ≡ done a)) ⊎ ((e : String) × (m ≡ failed e))
Fallible-cases (done a) = inl (a, refl)
Fallible-cases (failed e) = inr (e, refl)

module _ {ℓ κ} {A : Type ℓ} {B : Type κ} where
  infixl 10 ◌>>=◌ ◌>>◌
  unfoldable pub ◌>>=◌ : Fallible A → (A → Fallible B) → Fallible B
  done a >>= f = f a
  failed e >>= f = failed e

  abbrev pub ◌>>◌ : Fallible A → Fallible B → Fallible B
  m >> n = m >>= λ _. n

abbrev Holds : {A : Type 0} → (A → Type 0) → Fallible A → Type 0
Holds P (done a) = P a
Holds P (failed e) = Unit {0}

-- What holds of the value that a call returns, if it returns one
pub record Yields {A : Type 0} (m : Fallible A) (P : A → Type 0) : Type 0 where
  pub holds : Holds P m

pub Yields-at :
    {A : Type 0} {m : Fallible A} {P : A → Type 0} (a : A) → Yields m P → m ≡ done a → P a
Yields-at {A} {m} {P} a y h = subst (Holds P) h y.holds

pub Yields-done : {A : Type 0} {P : A → Type 0} {a : A} → P a → Yields (done a) P
Yields-done p = record { holds = p }

pub Yields-failed : {A : Type 0} {P : A → Type 0} {e : String} → Yields (failed e) P
Yields-failed = record { holds = tt }

module _ {A B : Type 0} {Q : B → Type 0} where
  bind :
      (P : A → Type 0) (m : Fallible A) {f : A → Fallible B}
      → Yields m P
      → ((a : A) → P a → Yields (f a) Q)
      → Yields (m >>= f) Q
  unfolding ◌>>=◌
  bind P (done a) hm hf = hf a hm.holds
  bind P (failed e) hm hf = Yields-failed

  pub Yields->>= :
      {P : A → Type 0} {m : Fallible A} {f : A → Fallible B}
      → Yields m P
      → ((a : A) → P a → Yields (f a) Q)
      → Yields (m >>= f) Q
  Yields->>= {P} {m} hm hf = bind P m hm hf

  -- A call of which only this is needed, that it returned the value.
  pub Yields-any :
      (m : Fallible A) {f : A → Fallible B}
      → ((a : A) → m ≡ done a → Yields (f a) Q)
      → Yields (m >>= f) Q
  unfolding ◌>>=◌
  Yields-any (done a) hf = hf a refl
  Yields-any (failed e) hf = Yields-failed

-- fmt.Errorf(prefix + "%w", err)
abbrev pub prefixed {ℓ} : {A : Type ℓ} → String → Fallible A → Fallible A
prefixed p (done a) = done a
prefixed p (failed e) = failed (p <> e)

-- `if err := …; err != nil { return err }`, for a check that returns its error's text.
abbrev pub insist : Option String → Fallible (Unit {0})
insist none = done tt
insist (some e) = failed e

-- Behind a check that the rest of the chain relies on
pub Yields-insist :
    {B : Type 0} {Q : B → Type 0} (c : Option String) {n : Fallible B}
    → (c ≡ none → Yields n Q)
    → Yields (insist c >> n) Q
unfolding ◌>>=◌
Yields-insist none h = h refl
Yields-insist (some e) h = Yields-failed

pub prefixed-done :
    {A : Type 0} (p : String) (r : Fallible A) (a : A) → prefixed p r ≡ done a → r ≡ done a
prefixed-done p (done b) a h = h
prefixed-done p (failed e) a h = cc

weaken :
    {A : Type 0} {P Q : A → Type 0} (m : Fallible A)
    → ((a : A) → P a → Q a)
    → Yields m P
    → Yields m Q
weaken (done a) h y = record { holds = h a y.holds }
weaken (failed e) h y = Yields-failed

pub Yields-weaken :
    {A : Type 0} {m : Fallible A} {P Q : A → Type 0}
    → ((a : A) → P a → Q a)
    → Yields m P
    → Yields m Q
Yields-weaken {m = m} h y = weaken m h y
