-- ===== src/Migrations/Compatible.antt =====
-- EnsureCompatible of internal/migrations, and what Apply makes of it.
use golden_path_control_plan.Prelude.{
  any-cong, suc, eq_iff, ℕ, String, Bool, true, false, not, ◌||◌, ◌≡◌, ◌↔◌, refl, sym, ap, ◌∙◌,
  subst, Option, none, some, List, [], ◌∷◌, ◌++◌, any, All, All-imply, str_eq, arith, find?, filter,
  insert_by, sort_by,
}
use golden_path_control_plan.Effects.{delivered}
use golden_path_control_plan.Migrations.{
  or_empty, accepted, schema_migrations_table_exists, applied_versions, compare_versions,
  ensure_compatible, apply, migration_entries, versions, names,
}
use golden_path_control_plan.Migrations.Connection.{
  File, Failure, schema_uninitialized, Link, Session, Outcome, finished, stopped, exchange,
  exchange_or, pure, stop, ◌>>=◌,
}
use golden_path_control_plan.Migrations.Triples.{Ends}
use golden_path_control_plan.Migrations.Answered.{Works, IsIn, Records}
use golden_path_control_plan.Migrations.Applied.{apply-Records}

any-insert_by :
    {A : Type 0} (p : A → Bool) (le : A → A → Bool) (a : A) (xs : List A)
    → any p (insert_by le a xs) ≡ (p a || any p xs)
any-insert_by p le a [] = refl
any-insert_by p le a (x ∷ xs) = ground (arith, any-insert_by p le a xs)

any-sort_by :
    {A : Type 0} (p : A → Bool) (le : A → A → Bool) (xs : List A) → any p (sort_by le xs) ≡ any p xs
any-sort_by p le [] = refl
any-sort_by p le (x ∷ xs) =
    ground (arith, any-insert_by p le x (sort_by le xs), any-sort_by p le xs)

-- No member passes the test exactly if all fail it.
none-find? : {A : Type 0} (p : A → Bool) (xs : List A) → (find? p xs ≡ none) ↔ (any p xs ≡ false)
none-find? p [] = (λ h. refl, λ h. refl)
none-find? p (x ∷ xs) = ground (arith, none-find? p xs)

empty-filter : {A : Type 0} (p : A → Bool) (xs : List A) → (filter p xs ≡ []) ↔ (any p xs ≡ false)
empty-filter p [] = (λ h. refl, λ h. refl)
empty-filter p (x ∷ xs) = ground (arith, empty-filter p xs)

All-any :
    {A : Type 0} (p : A → Bool) (xs : List A)
    → (any (λ x. not (p x)) xs ≡ false) ↔ All (λ x. p x ≡ true) xs
All-any p [] = (λ h. tt, λ h. refl)
All-any p (x ∷ xs) = ground (arith, All-any p xs)

module _ {S : Type 0} (link : Link S) where
  -- What the comparison asks for
  abbrev pub SameVersions : List String → List String → Type 0
  SameVersions expected rows = All (IsIn expected) rows × All (IsIn rows) expected

  compare_versions_iff :
      (expected applied : List String) (s : Session S)
      → ((compare_versions link expected applied s).0 ≡ finished tt) ↔ (
          (any (λ v. not (any (str_eq v) expected)) applied ≡ false)
          × (any (λ v. not (any (str_eq v) applied)) expected ≡ false))
  unfolding compare_versions pure stop
  compare_versions_iff expected applied s = ground (
    arith,
    none-find? (λ v. not (any (str_eq v) expected)) applied,
    empty-filter (λ v. not (any (str_eq v) applied)) expected,
  )

  compare_versions-SameVersions :
      (expected rows : List String) (s : Session S)
      → ((compare_versions link expected (sort_by link.text_le rows) s).0 ≡ finished tt)
        ↔ SameVersions expected rows
  compare_versions-SameVersions expected rows s =
      let known : String → Bool = λ v. not (any (str_eq v) expected) in
      let sorted_rows = sort_by link.text_le rows in
      let i = compare_versions_iff expected sorted_rows s in
      let e = any-sort_by known link.text_le rows in
      let c : any (λ v. not (any (str_eq v) sorted_rows)) expected
          ≡ any (λ v. not (any (str_eq v) rows)) expected =
        any-cong _ _ expected (λ v. ap not (any-sort_by (str_eq v) link.text_le rows)) in
      (
        λ h.
            let (a, b) = i.0 h in
            ((All-any _ rows).0 (sym e ∙ a), (All-any _ expected).0 (sym c ∙ b)),
        λ h. i.1 (e ∙ (All-any _ rows).1 h.0, c ∙ (All-any _ expected).1 h.1),
      )

  applied_versions_lem :
      ((k : ℕ) → link.delivery k ≡ delivered)
      → (s : Session S) → (rows : List String) → s.recorded ≡ some rows
      → (s' : Session S) × (applied_versions link s ≡ (finished (sort_by link.text_le rows), s'))
  unfolding applied_versions schema_migrations_table_exists accepted exchange exchange_or ◌>>=◌ pure
  applied_versions_lem answered s rows e = (
    record s { exchanges = suc (suc (suc s.exchanges)) },
    rw (answered s.exchanges, answered (suc s.exchanges), e, answered (suc (suc s.exchanges))) refl,
  )

  applied_versions-missing :
      ((k : ℕ) → link.delivery k ≡ delivered)
      → (s : Session S) → s.recorded ≡ none
      → (applied_versions link s).0 ≡ stopped schema_uninitialized
  unfolding applied_versions schema_migrations_table_exists accepted exchange exchange_or ◌>>=◌ stop
  applied_versions-missing answered s e =
      rw (answered s.exchanges, answered (suc s.exchanges), e) refl

  ensure_lem :
      (files : List File) (s s' : Session S) (rows : List String)
      → applied_versions link s ≡ (finished rows, s')
      → ensure_compatible link files s ≡ compare_versions link (versions files) rows s'
  unfolding ensure_compatible ◌>>=◌
  ensure_lem files s s' rows e = rw e refl

  ensure-stops :
      (files : List File) (s : Session S) (e : Failure)
      → (applied_versions link s).0 ≡ stopped e
      → (ensure_compatible link files s).0 ≡ stopped e
  unfolding ensure_compatible ◌>>=◌
  ensure-stops files s e h = rw h refl

  -- Where every exchange is answered, EnsureCompatible succeeds exactly if the table of migrations is
  -- there, each version that it records is one of the binary, and it records each version of the
  -- binary.
  pub ensure_compatible_iff :
      ((k : ℕ) → link.delivery k ≡ delivered)
      → (files : List File) (s : Session S)
      → ((ensure_compatible link files s).0 ≡ finished tt)
        ↔ ((rows : List String) × ((s.recorded ≡ some rows) × SameVersions (versions files) rows))
  ensure_compatible_iff answered files s = go s.recorded refl
    where
      go :
          (o : Option (List String))
          → s.recorded ≡ o
          → ((ensure_compatible link files s).0 ≡ finished tt) ↔ (
              (rows : List String) × ((s.recorded ≡ some rows)
                × SameVersions (versions files) rows))
      go none e = (
        λ h.
            let x =
              ensure-stops files s schema_uninitialized (applied_versions-missing answered s e) in
            cc,
        λ (rows, (h, v)). cc,
      )
      go (some rows) e =
          let (s', h) = applied_versions_lem answered s rows e in
          let same = ap (λ r. r.0) (ensure_lem files s s' _ h) in
          let i = compare_versions-SameVersions (versions files) rows s' in
          (
            λ x. (rows, (e, i.0 (sym same ∙ x))),
            λ (rows', (e', v)).
                let r : rows' ≡ rows = cc in same ∙ i.1 (subst (SameVersions (versions files)) r v),
          )

  names-IsIn :
      (fs gs : List File)
      → All (λ g. IsIn (names fs) g.name) gs
      → (f : File) → All (λ g. IsIn (f.name ∷ names fs) g.name) gs
  names-IsIn fs gs h f = All-imply gs (λ g k. ground arith) h

  entries-IsIn : (fs : List File) → All (λ f. IsIn (names fs) f.name) fs
  entries-IsIn [] = tt
  entries-IsIn (f ∷ fs) =
      (ground (arith, eq_iff f.name f.name), names-IsIn fs fs (entries-IsIn fs) f)

  without_nil : (P : String → Type 0) (xs : List String) → All P (xs ++ []) → All P xs
  without_nil P [] h = tt
  without_nil P (x ∷ xs) (p, ps) = (p, without_nil P xs ps)

  finishes :
      (Q : Session S → Type 0) (r : Outcome (Unit {0}) × Session S)
      → Ends (λ _. Q) (λ _. ⊥) r
      → (r.0 ≡ finished tt) × Q r.1
  finishes Q (finished a, s) q = (refl, q)
  finishes Q (stopped e, s) q = elim q [ ]

  -- Where every exchange is answered and every script runs, Apply finishes on a database that records
  -- no version which the binary does not have, and EnsureCompatible then succeeds.
  pub apply-ensure_compatible :
      Works link
      → (files : List File) (s : Session S) → All (IsIn (versions files)) (or_empty s.recorded)
      → ((apply link files s).0 ≡ finished tt)
        × ((ensure_compatible link files (apply link files s).1).0 ≡ finished tt)
  unfolding versions
  apply-ensure_compatible works files s k =
      let expected = names (migration_entries files) in
      let t = apply-Records link works expected files (entries-IsIn (migration_entries files)) in
      let (f, r) = finishes (Records expected (expected ++ [])) (apply link files s) (t.at s k) in
      let all = without_nil (IsIn r.rows) expected r.all_of in
      (
        f,
        (ensure_compatible_iff works.answered files (apply link files s).1).1
            (r.rows, (r.table, (r.none_but, all))),
      )
