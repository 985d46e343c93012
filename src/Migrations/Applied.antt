-- ===== src/Migrations/Applied.antt =====
-- Apply of internal/migrations records every migration when the database answers.
mod Statements
use golden_path_control_plan.Prelude.{
  All-imply, All-middle, String, ◌<>◌, Bool, true, false, ◌≡◌, refl, some, List, [], ◌∷◌, ◌++◌, any,
  any-append, All, All-append, str_eq, eq_iff, arith, if◌then◌else◌,
}
use golden_path_control_plan.Fallible.{done}
use golden_path_control_plan.Migrations.{
  or_empty, accepted, lock, unlock, create_table, select_exists, insert_version, execute, committed,
  closed, in_transaction, record_file, apply_file, migration_applied, apply_files, released,
  under_lock, apply, migration_entries, names,
}
use golden_path_control_plan.Migrations.Connection.{
  File, failure, error_text, Link, Session, Outcome, finished, stopped, Migrating, Query, counted,
  exchange, pure,
}
use golden_path_control_plan.Migrations.Triples.{Ends, Triple, Triple-pure, Triple-bind}
use golden_path_control_plan.Migrations.Answered.{
  Works, IsIn, Records, Never, answered_lem, accepted_lem, lock_lem, create_table_lem,
  Triple-answered,
}
use Statements.{migration_applied-Found, unless-Records}

module _ {S : Type 0} (link : Link S) (works : Works link) (expected : List String) where
  front :
      (ds : List String) (f : File) (fs : List File) (s : Session S)
      → Records expected (names fs ++ (f.name ∷ ds)) s
      → Records expected (f.name ∷ (names fs ++ ds)) s
  front ds f fs s r = record {
    rows = r.rows;
    table = r.table;
    all_of = All-middle (IsIn r.rows) (names fs) ds f.name r.all_of;
    none_but = r.none_but;
  }

  relaxed :
      {P Q R : Session S → Type 0} {m : Migrating S (Unit {0})}
      → ((s : Session S) → Q s → R s)
      → Triple P m (λ _. Q) Never
      → Triple P m (λ _. R) Never
  relaxed {m = m} h t = record { at = λ s p. go (m s) h (t.at s p) }
    where
      go :
          {Q R : Session S → Type 0} (r : Outcome (Unit {0}) × Session S)
          → ((s : Session S) → Q s → R s)
          → Ends (λ _. Q) Never r
          → Ends (λ _. R) Never r
      go (finished a, s) h o = h s o
      go (stopped e, s) h o = o

  apply_files-Records :
      (ds : List String) (fs : List File)
      → All (λ f. IsIn expected f.name) fs
      → Triple
          (Records expected ds)
          (apply_files link fs)
          (λ _. Records expected (names fs ++ ds))
          Never
  unfolding apply_files
  apply_files-Records ds [] h = Triple-pure tt λ s r. r
  apply_files-Records ds (f ∷ fs) (m, ms) =
      Triple-bind (migration_applied-Found link works expected ds f.name) λ applied.
        Triple-bind (unless-Records link works expected ds f applied m)
          λ _. relaxed (front ds f fs) (apply_files-Records (f.name ∷ ds) fs ms)

  plain :
      (P : Session S → Type 0) (what : String) (query : Query S (Unit {0}))
      (result : Session S → Session S)
      → ((s : Session S) → query s ≡ done (tt, result s))
      → (Q : Session S → Type 0) → ((s : Session S) → P s → Q (result (counted s)))
      → Triple P (exchange link what query) (λ _. Q) Never
  plain P what query result e Q h =
      Triple-answered link works what query
        λ s p. (tt, (result (counted s), (e (counted s), h s p)))

  -- What is recorded is expected, if the table is there.
  abbrev pub Known : Session S → Type 0
  Known s = All (IsIn expected) (or_empty s.recorded)

  released-Records :
      (ds : List String) (r : Outcome (Unit {0}) × Session S)
      → Ends (λ _. Records expected ds) Never r
      → Ends (λ _. Records expected ds) Never (released r.0 (exchange link "" unlock r.1))
  unfolding unlock exchange
  released-Records ds (finished a, s) r =
      rw (answered_lem link works.answered (λ x. failure ("" <> error_text x)) unlock s)
        record { rows = r.rows; table = r.table; all_of = r.all_of; none_but = r.none_but }
  released-Records ds (stopped e, s) r = r

  under_lock-Records :
      (P : Session S → Type 0) (ds : List String) (body : Migrating S (Unit {0}))
      → Triple P body (λ _. Records expected ds) Never
      → Triple P (under_lock link body) (λ _. Records expected ds) Never
  unfolding under_lock
  under_lock-Records P ds body t = record { at = λ s p. released-Records ds (body s) (t.at s p) }

  pub apply-Records :
      (files : List File)
      → All (λ f. IsIn expected f.name) (migration_entries files)
      → Triple Known
          (apply link files)
          (λ _. Records expected (names (migration_entries files) ++ []))
          Never
  unfolding apply
  apply-Records files h =
      Triple-bind (plain Known _ accepted (λ s. s) accepted_lem Known (λ s k. k)) λ _.
        Triple-bind (plain Known _ lock (λ s. record s { locked = true }) lock_lem Known (λ s k. k))
          λ _. under_lock-Records Known _ _ (
            Triple-bind (plain Known _ accepted (λ s. s) accepted_lem Known (λ s k. k)) λ _.
              Triple-bind (plain Known _ accepted (λ s. s) accepted_lem Known (λ s k. k)) λ _.
                Triple-bind
                  (plain Known _ create_table
                    (λ s. record s { recorded = some (or_empty s.recorded) }) create_table_lem
                    (Records expected [])
                    (λ s k. record {
                      rows = or_empty s.recorded;
                      table = refl;
                      all_of = tt;
                      none_but = k;
                    }))
                  λ _. apply_files-Records [] (migration_entries files) h)
