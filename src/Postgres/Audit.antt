-- ===== src/Postgres/Audit.antt =====
-- internal/postgres/audit.go: the audit trail. The details go to a JSONB column and back; the
-- model keeps them as they are.
use golden_path_control_plan.Prelude.{
  ℕ, ◌==◌, String, str_eq, Bool, true, ◌&&◌, ◌||◌, Option, none, some, List, [], ◌∷◌, ◌++◌,
  if◌then◌else◌, any, filter, sort_by, take, leb, ℤ, pos, pos_part, ltb_ℤ,
}
use golden_path_control_plan.Domain.Models.{Uuid, AuditEvent}
use golden_path_control_plan.Errors.{ok, err, unique_violation}
use golden_path_control_plan.Effects.{Env, App, Statement, exec}

unfoldable pub insert_audit_row : AuditEvent → Statement (Unit {0})
insert_audit_row e k db =
    if any (λ f. f.id == e.id) db.audit_events
    then err unique_violation
    else ok (tt, record db { audit_events = db.audit_events ++ e ∷ [] })

unfoldable pub insert_audit_event : Env → AuditEvent → App (Unit {0})
insert_audit_event env e = exec env (insert_audit_row e)

unfoldable pub clamp_limit : ℤ → ℕ
clamp_limit limit =
    if ltb_ℤ limit (pos 1) then 20 else if ltb_ℤ (pos 100) limit then 100 else pos_part limit

abbrev pub is_resource : Option Uuid → Uuid → Bool
is_resource none id = true
is_resource (some resource_id) id = id == resource_id

abbrev pub event_matches : String → Option Uuid → AuditEvent → Bool
event_matches resource_type resource_id e =
    (str_eq resource_type "" || str_eq e.resource_type resource_type)
    && is_resource resource_id e.resource_id

-- ORDER BY created_at DESC LIMIT $3
unfoldable pub select_audit_events : String → Option Uuid → ℕ → Statement (List AuditEvent)
select_audit_events resource_type resource_id limit k db = ok (
  take limit (
      sort_by (λ e f. leb f.created_at e.created_at)
        (filter (event_matches resource_type resource_id) db.audit_events)),
  db,
)

unfoldable pub list_audit_events : Env → String → Option Uuid → ℤ → App (List AuditEvent)
unfolding clamp_limit
list_audit_events env resource_type resource_id limit =
    exec env (select_audit_events resource_type resource_id (clamp_limit limit))
