-- ===== src/Migrations/Recovery.antt =====
-- Apply of internal/migrations keeps the schema what the recorded migrations build, whatever fails.
use golden_path_control_plan.Prelude.{
  String, ◌<>◌, Bool, true, false, ◌≡◌, refl, subst, inl, inr, Option, none, some, List, [], ◌∷◌,
  All, arith, if◌then◌else◌,
}
use golden_path_control_plan.Fallible.{done}
use golden_path_control_plan.Effects.{Delivery, delivered, refused, reply_lost}
use golden_path_control_plan.Migrations.{
  or_empty, rows_of, reads, is_recorded, accepted, lock, unlock, create_table, select_exists,
  committed, closed, undone, in_transaction, record_file, apply_file, migration_applied,
  apply_files, released, under_lock, apply, migration_entries,
}
use golden_path_control_plan.Migrations.Connection.{
  File, Failure, Link, Session, Outcome, finished, stopped, Migrating, Query, counted, exchange,
  pure, error_text, failure,
}
use golden_path_control_plan.Migrations.Triples.{
  Ends, Triple, Triple-pure, Triple-bind, Triple-exchange,
}
use golden_path_control_plan.Migrations.Built.{
  IsOf, Sound, same-Sound, execute-Between, insert_version-Sound,
}

module _ {S : Type 0} (link : Link S) (files : List File) (origin : S) where
  abbrev Good : Session S → Type 0
  Good = Sound link files origin

  abbrev Open : Session S → Type 0
  Open s = Unit {0}

  -- What keeps the schema built, whether it finishes or stops
  abbrev Keeps : {A : Type 0} → Migrating S A → Type 0
  Keeps m = Triple Good m (λ _. Good) Good

  exchange-Keeps :
      {A : Type 0} (what : String) (query : Query S A)
      → ((s : Session S) → Good s → (a : A) (s' : Session S) → query s ≡ done (a, s') → Good s')
      → Keeps (exchange link what query)
  exchange-Keeps what query h =
      Triple-exchange link (λ s v. same-Sound link files origin s (counted s) refl refl v)
        (λ s v. v) (λ a s v. v) what query h

  record_file-Between :
      (f : File) → IsOf f files → Triple Good (record_file link f) (λ _. Good) Open
  unfolding record_file
  record_file-Between f m =
      Triple-bind
        (Triple-exchange link (λ s v. same-Sound link files origin s (counted s) refl refl v)
          (λ s v. tt) (λ a s v. tt) _ _ (execute-Between link files origin f))
        (λ _.
          Triple-exchange link
            (λ s v. record { before = v.before; built = v.built; once = v.once; ran = v.ran })
            (λ s v. tt) (λ a s v. tt) _ _ (insert_version-Sound link files origin f m))

  committed-Sound :
      (d : Delivery) (e : Failure) (before s : Session S)
      → Good before
      → Good s
      → Ends (λ _. Good) Good (committed d e before s)
  committed-Sound delivered e before s v u = same-Sound link files origin s (counted s) refl refl u
  committed-Sound refused e before s v u =
      same-Sound link files origin before (undone before s) refl refl v
  committed-Sound reply_lost e before s v u = same-Sound link files origin s (counted s) refl refl u

  closed-Sound :
      (commit : Session S → Outcome (Unit {0}) × Session S) (before : Session S)
      (r : Outcome (Unit {0}) × Session S)
      → ((s : Session S) → Good s → Ends (λ _. Good) Good (commit s))
      → Good before
      → Ends (λ _. Good) Open r
      → Ends (λ _. Good) Good (closed commit before r)
  closed-Sound commit before (finished a, s) h v o = h s o
  closed-Sound commit before (stopped e, s) h v o =
      same-Sound link files origin before (undone before s) refl refl v

  in_transaction-Sound :
      (name : String) (before : Session S) (body : Migrating S (Unit {0}))
      → Good before
      → Ends (λ _. Good) Open (body before)
      → Ends (λ _. Good) Good (in_transaction link name body before)
  unfolding in_transaction
  in_transaction-Sound name before body v o =
      closed-Sound _ before (body before)
        (λ s u.
          committed-Sound (link.delivery s.exchanges)
            (failure
              ("migrations: commit " <> name <> ": " <> error_text (link.refusal s.exchanges)))
            before s v u)
        v o

  accepted-Keeps : (what : String) → Keeps (exchange link what accepted)
  unfolding accepted
  accepted-Keeps what =
      exchange-Keeps what _ λ s v a s' e. let same : s ≡ s' = ground arith in subst Good same v

  lock-Keeps : (what : String) → Keeps (exchange link what lock)
  unfolding lock
  lock-Keeps what = exchange-Keeps what _ λ s v a s' e.
      let same : record s { locked = true } ≡ s' = ground arith in
      subst Good same (same-Sound link files origin s (record s { locked = true }) refl refl v)

  unlock-Keeps : (what : String) → Keeps (exchange link what unlock)
  unfolding unlock
  unlock-Keeps what = exchange-Keeps what _ λ s v a s' e.
      let same : record s { locked = false } ≡ s' = ground arith in
      subst Good same (same-Sound link files origin s (record s { locked = false }) refl refl v)

  create_table-Keeps : (what : String) → Keeps (exchange link what create_table)
  unfolding create_table
  create_table-Keeps what = exchange-Keeps what _ λ s v a s' e.
      let same : record s { recorded = some (or_empty s.recorded) } ≡ s' = ground arith in
      subst Good same (
        same-Sound link files origin s (record s { recorded = some (or_empty s.recorded) }) refl
          refl v)

  select_exists-same :
      (version : String) (s : Session S) (a : Bool) (s' : Session S)
      → select_exists version s ≡ done (a, s')
      → s ≡ s'
  unfolding select_exists
  select_exists-same version s a s' e = go s.recorded refl e
    where
      go :
          (o : Option (List String))
          → s.recorded ≡ o
          → reads (is_recorded version (rows_of o)) s ≡ done (a, s')
          → s ≡ s'
      go none q e = cc
      go (some vs) q e = ground arith

  migration_applied-Keeps : (version : String) → Keeps (migration_applied link version)
  unfolding migration_applied
  migration_applied-Keeps version =
      exchange-Keeps _ _ λ s v a s' e. subst Good (select_exists-same version s a s' e) v

  apply_file-Keeps : (f : File) → IsOf f files → Keeps (apply_file link f)
  unfolding apply_file
  apply_file-Keeps f m = Triple-bind (accepted-Keeps _) (λ _. record {
    at = λ s v.
        in_transaction-Sound f.name s (record_file link f) v ((record_file-Between f m).at s v);
  })

  unless-Keeps :
      (applied : Bool) (f : File)
      → IsOf f files
      → Keeps (if applied then pure tt else apply_file link f)
  unless-Keeps true f m = Triple-pure tt (λ s v. v)
  unless-Keeps false f m = apply_file-Keeps f m

  apply_files-Keeps : (fs : List File) → All (λ f. IsOf f files) fs → Keeps (apply_files link fs)
  unfolding apply_files
  apply_files-Keeps [] h = Triple-pure tt (λ s v. v)
  apply_files-Keeps (f ∷ fs) (m, ms) =
      Triple-bind (migration_applied-Keeps f.name)
        λ applied. Triple-bind (unless-Keeps applied f m) λ _. apply_files-Keeps fs ms

  left-Sound : {A : Type 0} (r : Outcome A × Session S) → Ends (λ _. Good) Good r → Good r.1
  left-Sound (finished a, s) o = o
  left-Sound (stopped e, s) o = o

  released-Sound :
      (r : Outcome (Unit {0})) (q : Outcome (Unit {0}) × Session S)
      → Good q.1
      → Ends (λ _. Good) Good (released r q)
  released-Sound (finished a) (x, s) v = v
  released-Sound (stopped e) (x, s) v = v

  under_lock-Keeps : (body : Migrating S (Unit {0})) → Keeps body → Keeps (under_lock link body)
  unfolding under_lock
  under_lock-Keeps body k = record {
    at = λ s v.
        released-Sound (body s).0 (exchange link "" unlock (body s).1)
          (left-Sound _ ((unlock-Keeps "").at (body s).1 (left-Sound (body s) (k.at s v))));
  }

IsOf-All : (f : File) (fs gs : List File) → All (λ g. IsOf g fs) gs → All (λ g. IsOf g (f ∷ fs)) gs
IsOf-All f fs [] h = tt
IsOf-All f fs (g ∷ gs) (m, ms) = (inr m, IsOf-All f fs gs ms)

IsOf-each : (fs : List File) → All (λ f. IsOf f fs) fs
IsOf-each [] = tt
IsOf-each (f ∷ fs) = (inl refl, IsOf-All f fs fs (IsOf-each fs))

-- If the schema is what the scripts of the recorded migrations build from some origin, in the order of
-- their records, and no version is recorded twice, then this still holds after Apply, whether it
-- finishes or stops: whichever exchange or script fails, and also where the reply to a COMMIT is lost.
pub apply-Sound :
    {S : Type 0} (link : Link S) (files : List File) (origin : S) (s : Session S)
    → Sound link (migration_entries files) origin s
    → Sound link (migration_entries files) origin (apply link files s).1
unfolding apply
apply-Sound link files origin s v =
    let fs = migration_entries files in
    left-Sound link fs origin _ (
      (Triple-bind (accepted-Keeps link fs origin "migrations: acquire connection: ") λ _.
          Triple-bind (lock-Keeps link fs origin _) λ _. under_lock-Keeps link fs origin _ (
            Triple-bind (accepted-Keeps link fs origin _) λ _.
              Triple-bind (accepted-Keeps link fs origin _) λ _.
                Triple-bind (create_table-Keeps link fs origin _)
                  λ _. apply_files-Keeps link fs origin fs (IsOf-each fs))).at
        s v)
