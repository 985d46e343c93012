-- ===== src/Examples/Upgrades.antt =====
-- Migrations on a database whose schema is the list of the scripts that have run.
use golden_path_control_plan.Prelude.{
  ◌≡◌, ◌↔◌, refl, String, true, false, none, some, List, [], ◌∷◌, Distinct, if◌then◌else◌, ◌==◌,
}
use golden_path_control_plan.Fallible.{done}
use golden_path_control_plan.Effects.{delivered, reply_lost}
use golden_path_control_plan.Migrations.{
  versions, migration_entries, is_migration, apply, ensure_compatible,
}
use golden_path_control_plan.Migrations.Connection.{File, Link, Session, finished, other_error}
use golden_path_control_plan.Migrations.Built.{untouched, Sound}
use golden_path_control_plan.Migrations.Recovery.{apply-Sound}
use golden_path_control_plan.Migrations.Answered.{Works}
use golden_path_control_plan.Migrations.Compatible.{
  SameVersions, ensure_compatible_iff, apply-ensure_compatible,
}

abbrev pub files : List File
files =
    record { name = "0002_indexes.sql"; is_dir = false; contents = "CREATE INDEX" }
    ∷ record { name = "0001_init.sql"; is_dir = false; contents = "CREATE TABLE" }
    ∷ record { name = "README.md"; is_dir = false; contents = "" }
    ∷ []

abbrev pub link : Link (List String)
link = record {
  delivery = λ k. delivered;
  refusal = λ k. other_error "connection reset";
  run_script = λ script schema. done (script ∷ schema);
  text_le = λ a b. true;
}

-- The reply to the first COMMIT is lost.
abbrev unreliable : Link (List String)
unreliable = record link { delivery = λ k. if k == 9 then reply_lost else delivered }

abbrev fresh : Session (List String)
fresh = record { recorded = none; schema = []; locked = false; exchanges = 0 }

fresh-Sound : Sound unreliable (migration_entries files) [] fresh
unfolding Distinct
fresh-Sound = record { built = untouched; once = tt }

apply-Sound_example : Sound unreliable (migration_entries files) [] (apply unreliable files fresh).1
apply-Sound_example = apply-Sound unreliable files [] fresh fresh-Sound

ensure_compatible_iff_example :
    ((ensure_compatible link files fresh).0 ≡ finished tt)
    ↔ ((rows : List String) × ((none ≡ some rows) × SameVersions link (versions files) rows))
ensure_compatible_iff_example = ensure_compatible_iff link (λ k. refl) files fresh

pub link-Works : Works link
link-Works = record { answered = λ k. refl; runs = λ script schema. (script ∷ schema, refl) }

apply-ensure_compatible_example :
    ((apply link files fresh).0 ≡ finished tt)
    × ((ensure_compatible link files (apply link files fresh).1).0 ≡ finished tt)
apply-ensure_compatible_example = apply-ensure_compatible link link-Works files fresh tt

sorted_versions : versions files ≡ ("0001_init.sql" ∷ "0002_indexes.sql" ∷ [])
unfolding versions migration_entries is_migration
sorted_versions = refl
