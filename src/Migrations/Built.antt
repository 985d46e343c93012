-- ===== src/Migrations/Built.antt =====
-- The schema is what the recorded migrations build, whatever fails in internal/migrations.
use golden_path_control_plan.Prelude.{
  String, Bool-cases, false, ◌≡◌, refl, sym, ap, ◌∙◌, subst, ◌⊎◌, inl, inr, Option, none, some,
  List, [], ◌∷◌, ◌++◌, any, Distinct, Distinct-append, any-cong, str_eq, eq_iff, arith,
}
use golden_path_control_plan.Fallible.{Fallible, done, failed}
use golden_path_control_plan.Migrations.{
  or_empty, rows_of, with_schema, inserted, insert_version, execute,
}
use golden_path_control_plan.Migrations.Connection.{File, Link, Session}

-- A file is one of a list.
abbrev pub IsOf : File → List File → Type 0
IsOf f [] = ⊥
IsOf f (g ∷ gs) = (g ≡ f) ⊎ IsOf f gs

-- The scripts of the recorded files, run one after another on `origin`, give the schema.
pub data Built {S : Type 0} (link : Link S) (files : List File) (origin : S)
    : List String → S → Type 0 where
  untouched : Built link files origin [] origin
  extended :
      (vs : List String) (s s' : S) (f : File)
      → Built link files origin vs s
      → IsOf f files
      → link.run_script f.contents s ≡ done s'
      → Built link files origin (vs ++ (f.name ∷ [])) s'

new : (v : String) (vs : List String) → any (str_eq v) vs ≡ false → any (λ w. str_eq w v) vs ≡ false
new v vs h = any-cong _ _ vs (λ w. ground (arith, eq_iff w v, eq_iff v w)) ∙ h

module _ {S : Type 0} (link : Link S) (files : List File) (origin : S) where
  -- The schema is built by what is recorded, and nothing is recorded twice.
  pub record Sound (s : Session S) : Type 0 where
    pub built : Built link files origin (or_empty s.recorded) s.schema
    pub once : Distinct str_eq (or_empty s.recorded)

  -- In a transaction, after the script of a file
  pub record Between (f : File) (s : Session S) : Type 0 where
    pub before : S
    pub built : Built link files origin (or_empty s.recorded) before
    pub once : Distinct str_eq (or_empty s.recorded)
    pub ran : link.run_script f.contents before ≡ done s.schema

  -- An exchange that reads, or that changes neither the records nor the schema
  pub same-Sound :
      (s s' : Session S)
      → or_empty s'.recorded ≡ or_empty s.recorded
      → s'.schema ≡ s.schema
      → Sound s
      → Sound s'
  same-Sound s s' r c v = record { built = rw (r, c) v.built; once = rw r v.once }

  pub execute-Between :
      (f : File) (s : Session S)
      → Sound s
      → (a : Unit {0}) (s' : Session S) → execute link f.contents s ≡ done (a, s')
      → Between f s'
  unfolding execute
  execute-Between f s v a s' e = go (link.run_script f.contents s.schema) refl e
    where
      go :
          (r : Fallible S)
          → link.run_script f.contents s.schema ≡ r
          → with_schema s r ≡ done (a, s')
          → Between f s'
      go (done c) q e =
          let same : record s { schema = c } ≡ s' = ground arith in
          subst (Between f) same
            record { before = s.schema; built = v.built; once = v.once; ran = q }
      go (failed t) q e = cc

  pub insert_version-Sound :
      (f : File)
      → IsOf f files
      → (s : Session S) → Between f s
      → (a : Unit {0}) (s' : Session S) → insert_version f.name s ≡ done (a, s')
      → Sound s'
  unfolding insert_version
  insert_version-Sound f m s v a s' e = go s.recorded refl e
    where
      go :
          (o : Option (List String))
          → s.recorded ≡ o
          → inserted f.name s (rows_of o) ≡ done (a, s')
          → Sound s'
      go none q e = cc
      go (some vs) q e = elim (Bool-cases (any (str_eq f.name) vs)) [
        | inl h ↦ ground arith
        | inr h ↦
            let same : record s { recorded = some (vs ++ (f.name ∷ [])) } ≡ s' = ground arith in
            subst Sound same (record {
              built = extended vs v.before s.schema f (rw (sym (ap or_empty q)) v.built) m v.ran;
              once =
                  Distinct-append str_eq vs f.name (rw (sym (ap or_empty q)) v.once)
                    (new f.name vs h);
            })
      ]
