-- ===== src/Prelude/Members.antt =====
-- What holds of all members of a list, of none, and of no two.
use Prim.Native.Nat.{ℕ, zero, suc, ◌+◌, ◌≤◌}
use mathlib.Core.Path.{◌≡◌, refl, ◌∙◌, ap, sym, subst}
use mathlib.Core.Logic.{inl, inr}
use mathlib.Core.Bool.{Bool, true, false, ◌||◌}
use mathlib.Core.Option.{some}
use mathlib.Core.List.{List, [], ◌∷◌, ◌++◌, map}
use native.Mathlib.Omega.{arith}
use golden_path_control_plan.Prelude.Tests.{Bool-cases}
use golden_path_control_plan.Prelude.Lists.{
  length, any, All, find?, update_where, filter, insert_by, sort_by, take,
}

module _ {A : Type 0} (P : A → Type 0) where
  pub All-append : (xs ys : List A) → All P xs → All P ys → All P (xs ++ ys)
  All-append [] ys hx hy = hy
  All-append (x ∷ xs) ys hx hy = (hx.0, All-append xs ys hx.1 hy)

  pub All-update_where :
      (p : A → Bool) (f : A → A) (xs : List A)
      → ((x : A) → P x → P (f x))
      → All P xs
      → All P (update_where p f xs)
  All-update_where p f [] h a = tt
  All-update_where p f (x ∷ xs) h a = (ground (arith, h x), All-update_where p f xs h a.1)

  pub find?-All : (p : A → Bool) (xs : List A) (x : A) → All P xs → find? p xs ≡ some x → P x
  find?-All p [] x a e = cc
  find?-All p (y ∷ xs) x a e = ground (arith, find?-All p xs x a.1)

pub update_where-none :
    {A : Type 0} (p : A → Bool) (f : A → A) (xs : List A)
    → any p xs ≡ false
    → update_where p f xs ≡ xs
update_where-none p f [] h = refl
update_where-none p f (x ∷ xs) h = ground (arith, update_where-none p f xs)

module _ {A : Type 0} where
  pub any-append : (p : A → Bool) (xs ys : List A) → any p (xs ++ ys) ≡ (any p xs || any p ys)
  any-append p [] ys = refl
  any-append p (x ∷ xs) ys = ground (arith, any-append p xs ys)

  pub any-update_where :
      (p q : A → Bool) (f : A → A) (xs : List A)
      → ((x : A) → p (f x) ≡ p x)
      → any p (update_where q f xs) ≡ any p xs
  any-update_where p q f [] h = refl
  any-update_where p q f (x ∷ xs) h = ground (arith, any-update_where p q f xs h, h x)

  pub All-map :
      (P Q : A → Type 0) (f : A → A) (xs : List A)
      → ((x : A) → P x → Q (f x))
      → All P xs
      → All Q (map f xs)
  All-map P Q f [] h a = tt
  All-map P Q f (x ∷ xs) h a = (h x a.0, All-map P Q f xs h a.1)

  -- What the test gives holds of all that pass it.
  pub All-filter :
      (P Q : A → Type 0) (p : A → Bool) (xs : List A)
      → ((x : A) → P x → p x ≡ true → Q x)
      → All P xs
      → All Q (filter p xs)
  All-filter P Q p [] h a = tt
  All-filter P Q p (x ∷ xs) h a = elim (Bool-cases (p x)) [
    | inl e ↦ rw e (h x a.0 e, All-filter P Q p xs h a.1)
    | inr e ↦ rw e (All-filter P Q p xs h a.1)
  ]

  pub All-take : (P : A → Type 0) (n : ℕ) (xs : List A) → All P xs → All P (take n xs)
  All-take P zero xs a = tt
  All-take P (suc n) [] a = tt
  All-take P (suc n) (x ∷ xs) a = (a.0, All-take P n xs a.1)

  pub All-insert_by :
      (P : A → Type 0) (le : A → A → Bool) (y : A) (xs : List A)
      → P y
      → All P xs
      → All P (insert_by le y xs)
  All-insert_by P le y [] h a = (h, tt)
  All-insert_by P le y (x ∷ xs) h a = elim (Bool-cases (le y x)) [
    | inl e ↦ rw e (h, a)
    | inr e ↦ rw e (a.0, All-insert_by P le y xs h a.1)
  ]

  pub All-sort_by :
      (P : A → Type 0) (le : A → A → Bool) (xs : List A) → All P xs → All P (sort_by le xs)
  All-sort_by P le [] a = tt
  All-sort_by P le (x ∷ xs) a = All-insert_by P le x (sort_by le xs) a.0 (All-sort_by P le xs a.1)

  -- A member of a list all of whose members have a property, found by a test.
  pub any-All :
      (P : A → Type 0) (p : A → Bool) (xs : List A)
      → All P xs
      → any p xs ≡ true
      → (x : A) × (P x × (p x ≡ true))
  any-All P p [] a e = cc
  any-All P p (x ∷ xs) a e = elim (Bool-cases (p x)) [
    | inl q ↦ (x, (a.0, q))
    | inr q ↦ any-All P p xs a.1 (ground arith)
  ]

  pub any-cong : (p q : A → Bool) (xs : List A) → ((x : A) → p x ≡ q x) → any p xs ≡ any q xs
  any-cong p q [] h = refl
  any-cong p q (x ∷ xs) h = ground (arith, h x, any-cong p q xs h)

  -- No two members are the same by the test.
  unfoldable pub Distinct : (A → A → Bool) → List A → Type 0
  Distinct same [] = Unit
  Distinct same (x ∷ xs) = (any (same x) xs ≡ false) × Distinct same xs

module _ {A : Type 0} (same : A → A → Bool) where
  pub Distinct-append :
      (xs : List A) (y : A)
      → Distinct same xs
      → any (λ x. same x y) xs ≡ false
      → Distinct same (xs ++ y ∷ [])
  unfolding Distinct
  Distinct-append [] y d e = (refl, tt)
  Distinct-append (x ∷ xs) y d e = (
    ground (arith, any-append (same x) xs (y ∷ []), d.0),
    Distinct-append xs y d.1 (ground arith),
  )

  pub Distinct-update_where :
      (q : A → Bool) (f : A → A) (xs : List A)
      → ((x y : A) → same (f x) y ≡ same x y)
      → ((x y : A) → same x (f y) ≡ same x y)
      → Distinct same xs
      → Distinct same (update_where q f xs)
  unfolding Distinct
  Distinct-update_where q f [] h g d = tt
  Distinct-update_where q f (x ∷ xs) h g d = (
    elim (Bool-cases (q x)) [
      | inl e ↦ rw e (
          any-cong (same (f x)) (same x) (update_where q f xs) (h x)
          ∙ any-update_where (same x) q f xs (g x)
          ∙ d.0)
      | inr e ↦ rw e (any-update_where (same x) q f xs (g x) ∙ d.0)
    ],
    Distinct-update_where q f xs h g d.1,
  )

module _ {A : Type 0} where
  pub All-every : {P : A → Type 0} (xs : List A) → ((x : A) → P x) → All P xs
  All-every [] h = tt
  All-every (x ∷ xs) h = (h x, All-every xs h)

  pub All-both :
      {P Q R : A → Type 0} (xs : List A)
      → ((x : A) → P x → Q x → R x)
      → All P xs
      → All Q xs
      → All R xs
  All-both [] h a b = tt
  All-both (x ∷ xs) h a b = (h x a.0 b.0, All-both xs h a.1 b.1)

  pub any-false-All : (p : A → Bool) (xs : List A) → any p xs ≡ false → All (λ x. p x ≡ false) xs
  any-false-All p [] e = tt
  any-false-All p (x ∷ xs) e = (ground arith, any-false-All p xs (ground arith))

  pub length-filter-or :
      (p q : A → Bool) (xs : List A)
      → length (filter (λ x. p x || q x) xs) ≤ length (filter p xs) + length (filter q xs)
  length-filter-or p q [] = omega arith
  length-filter-or p q (x ∷ xs) = ground (arith, length-filter-or p q xs)

  pub filter-none : (p : A → Bool) (xs : List A) → any p xs ≡ false → filter p xs ≡ []
  filter-none p [] e = refl
  filter-none p (x ∷ xs) e = ground (arith, filter-none p xs)

  pub length-map : (f : A → A) (xs : List A) → length (map f xs) ≡ length xs
  length-map f [] = refl
  length-map f (x ∷ xs) = omega (arith, length-map f xs)

  pub All-update_where-if :
      (P C : A → Type 0) (p : A → Bool) (f : A → A) (xs : List A)
      → ((x : A) → P x → C x → P (f x))
      → All (λ x. p x ≡ true → C x) xs
      → All P xs
      → All P (update_where p f xs)
  All-update_where-if P C p f [] h c a = tt
  All-update_where-if P C p f (x ∷ xs) h c a = (
    elim (Bool-cases (p x)) [ inl e ↦ rw e (h x a.0 (c.0 e)) | inr e ↦ rw e a.0 ],
    All-update_where-if P C p f xs h c.1 a.1,
  )

  -- What a test finds stays found when members are added behind it, and when others are replaced.
  pub find?-append :
      (p : A → Bool) (xs ys : List A) (a : A) → find? p xs ≡ some a → find? p (xs ++ ys) ≡ some a
  find?-append p [] ys a e = cc
  find?-append p (x ∷ xs) ys a e = ground (arith, find?-append p xs ys a)

  pub find?-update_where :
      (p q : A → Bool) (f : A → A) (xs : List A) (a : A)
      → ((x : A) → p (f x) ≡ p x)
      → q a ≡ false
      → find? p xs ≡ some a
      → find? p (update_where q f xs) ≡ some a
  find?-update_where p q f [] a h n e = cc
  find?-update_where p q f (x ∷ xs) a h n e = elim (Bool-cases (p x)) [
    | inl r ↦
        let first : x ≡ a = ground arith in
        let kept : q x ≡ false = subst (λ z. q z ≡ false) (sym first) n in
        rw (kept, r) (ap some first)
    | inr r ↦ ground (arith, h x, find?-update_where p q f xs a h n)
  ]

pub All-imply :
    {A : Type 0} {P Q : A → Type 0} (xs : List A) → ((x : A) → P x → Q x) → All P xs → All Q xs
All-imply [] h a = tt
All-imply (x ∷ xs) h (p, ps) = (h x p, All-imply xs h ps)

-- A member in the middle, brought to the front
pub All-middle :
    {A : Type 0} (P : A → Type 0) (xs ys : List A) (y : A)
    → All P (xs ++ (y ∷ ys))
    → P y × All P (xs ++ ys)
All-middle P [] ys y h = h
All-middle P (x ∷ xs) ys y (p, ps) = let (q, qs) = All-middle P xs ys y ps in (q, (p, qs))
