-- ===== src/Migrations/Applied/Statements.antt =====
-- What each statement of Apply in internal/migrations leaves recorded when the database answers.
use golden_path_control_plan.Prelude.{
  All-imply, String, ◌<>◌, Bool, true, false, ◌≡◌, refl, some, List, [], ◌∷◌, ◌++◌, any, any-append,
  All-append, str_eq, eq_iff, arith, if◌then◌else◌,
}
use golden_path_control_plan.Migrations.{
  accepted, select_exists, insert_version, execute, committed, closed, in_transaction, record_file,
  apply_file, migration_applied,
}
use golden_path_control_plan.Migrations.Connection.{
  File, failure, error_text, Link, Session, Outcome, finished, stopped, counted, exchange, pure,
}
use golden_path_control_plan.Migrations.Triples.{Ends, Triple, Triple-pure, Triple-bind}
use golden_path_control_plan.Migrations.Answered.{Works, IsIn, Records, Never, Triple-answered}

module _ {S : Type 0} (link : Link S) (works : Works link) (expected : List String) where
  abbrev pub Found : List String → String → Bool → Session S → Type 0
  Found ds v applied s = (r : Records expected ds s) × (any (str_eq v) r.rows ≡ applied)

  pub migration_applied-Found :
      (ds : List String) (v : String)
      → Triple (Records expected ds) (migration_applied link v) (Found ds v) Never
  unfolding migration_applied select_exists
  migration_applied-Found ds v = Triple-answered link works _ _ λ s r. (
    any (str_eq v) r.rows,
    (
      counted s,
      (
        rw r.table refl,
        (record { rows = r.rows; table = r.table; all_of = r.all_of; none_but = r.none_but }, refl),
      ),
    ),
  )

  execute-Found :
      (ds : List String) (v : String) (what contents : String)
      → Triple
          (Found ds v false)
          (exchange link what (execute link contents))
          (λ _. Found ds v false)
          Never
  unfolding execute
  execute-Found ds v what contents = Triple-answered link works what _ λ s (r, n).
      let (c, e) = works.runs contents s.schema in
      (
        tt,
        (
          record (counted s) { schema = c },
          (
            rw e refl,
            (
              record { rows = r.rows; table = r.table; all_of = r.all_of; none_but = r.none_but },
              n,
            ),
          ),
        ),
      )

  more : (rows : List String) (v w : String) → IsIn rows w → IsIn (rows ++ (v ∷ [])) w
  more rows v w h = ground (arith, any-append (str_eq w) rows (v ∷ []))

  last-IsIn : (rows : List String) (v : String) → IsIn (rows ++ (v ∷ [])) v
  last-IsIn rows v = ground (arith, any-append (str_eq v) rows (v ∷ []), eq_iff v v)

  insert_version-Records :
      (ds : List String) (v : String) (what : String)
      → IsIn expected v
      → Triple
          (Found ds v false)
          (exchange link what (insert_version v))
          (λ _. Records expected (v ∷ ds))
          Never
  unfolding insert_version
  insert_version-Records ds v what m = Triple-answered link works what _ λ s (r, n). (
    tt,
    (
      record (counted s) { recorded = some (r.rows ++ (v ∷ [])) },
      (
        rw (r.table, n) refl,
        record {
          rows = r.rows ++ (v ∷ []);
          table = refl;
          all_of = (last-IsIn r.rows v, All-imply ds (λ w h. more r.rows v w h) r.all_of);
          none_but = All-append (IsIn expected) r.rows (v ∷ []) r.none_but (m, tt);
        },
      ),
    ),
  )

  finish :
      (name : String) (before : Session S) (Q : Session S → Type 0)
      (r : Outcome (Unit {0}) × Session S)
      → ((s : Session S) → Q s → Q (counted s))
      → Ends (λ _. Q) Never r
      → Ends
          (λ _. Q)
          Never
          (closed
            (λ s.
              committed
                (link.delivery s.exchanges)
                (failure
                  ("migrations: commit " <> name <> ": " <> error_text (link.refusal s.exchanges)))
                before
                s)
            before
            r)
  finish name before Q (finished a, s) h o = rw (works.answered s.exchanges) (h s o)
  finish name before Q (stopped e, s) h o = o

  counted-Records :
      (ds : List String) (s : Session S) → Records expected ds s → Records expected ds (counted s)
  counted-Records ds s r = record {
    rows = r.rows;
    table = r.table;
    all_of = r.all_of;
    none_but = r.none_but;
  }

  record_file-Records :
      (ds : List String) (f : File)
      → IsIn expected f.name
      → Triple
          (Found ds f.name false)
          (record_file link f)
          (λ _. Records expected (f.name ∷ ds))
          Never
  unfolding record_file
  record_file-Records ds f m =
      Triple-bind (execute-Found ds f.name _ f.contents) λ _. insert_version-Records ds f.name _ m

  in_transaction-Records :
      (ds : List String) (f : File)
      → IsIn expected f.name
      → Triple
          (Found ds f.name false)
          (in_transaction link f.name (record_file link f))
          (λ _. Records expected (f.name ∷ ds))
          Never
  unfolding in_transaction
  in_transaction-Records ds f m = record {
    at = λ s p.
        finish f.name s (Records expected (f.name ∷ ds)) (record_file link f s)
          (counted-Records (f.name ∷ ds)) ((record_file-Records ds f m).at s p);
  }

  pub unless-Records :
      (ds : List String) (f : File) (applied : Bool)
      → IsIn expected f.name
      → Triple
          (Found ds f.name applied)
          (if applied then pure tt else apply_file link f)
          (λ _. Records expected (f.name ∷ ds))
          Never
  unfolding apply_file accepted counted-Records
  unless-Records ds f true m = Triple-pure tt λ s (r, a). record {
    rows = r.rows;
    table = r.table;
    all_of = (a, r.all_of);
    none_but = r.none_but;
  }
  unless-Records ds f false m =
      Triple-bind
        (Triple-answered link works _ _
          λ s (r, a). (tt, (counted s, (refl, (counted-Records ds s r, a)))))
        λ _. in_transaction-Records ds f m
