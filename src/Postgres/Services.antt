-- ===== src/Postgres/Services.antt =====
-- The services of internal/postgres/services.go: create, update and read.
use golden_path_control_plan.Prelude.{
  ℕ, ◌^◌, ◌-◌, ◌==◌, str_eq, Bool, not, ◌&&◌, ◌||◌, Option, none, some, [], ◌∷◌, ◌++◌,
  if◌then◌else◌, any, find?, update_where, pos, ltb_ℤ, leb_ℤ, float_lt, float_le, float_zero,
  float_hundred,
}
use golden_path_control_plan.Domain.Models.{Uuid, Service, SloPolicy}
use golden_path_control_plan.Domain.Inputs.{ServicePatch, SloPolicyInput}
use golden_path_control_plan.Domain.Validation.{tier_out_of_range}
use golden_path_control_plan.Errors.{
  Result, ok, err, not_found, unique_violation, constraint_violation, not_encodable,
}
use golden_path_control_plan.Effects.{
  Env, App, Statement, ◌>>=◌, ◌>>◌, now, exec, exec_in, transaction,
}
use golden_path_control_plan.Effects.Tables.{Database}

abbrev pub has_service : Uuid → Database → Bool
has_service id db = any (λ s. s.id == id) db.services

-- the largest INTEGER
abbrev pub int4_max : ℕ
int4_max = 2 ^ 31 - 1

-- the columns' types and the constraints of `slo_policies`
abbrev pub policy_violates : SloPolicy → Bool
policy_violates p =
    not (
      float_lt float_zero p.availability_target_percent
      && float_le p.availability_target_percent float_hundred)
    || leb_ℤ p.latency_target_milliseconds (pos 0)

abbrev pub latency_too_large : SloPolicy → Bool
latency_too_large p = ltb_ℤ (pos int4_max) p.latency_target_milliseconds

unfoldable pub insert_service : Service → Statement (Unit {0})
insert_service s k db =
    if tier_out_of_range s.tier
    then err constraint_violation
    else if has_service s.id db || any (λ t. str_eq t.name s.name) db.services
    then err unique_violation
    else ok (tt, record db { services = db.services ++ s ∷ [] })

unfoldable pub insert_slo_policy : SloPolicy → Statement (Unit {0})
insert_slo_policy p k db =
    if latency_too_large p
    then err not_encodable
    else if policy_violates p
    then err constraint_violation
    else if any (λ q. q.id == p.id || q.service_id == p.service_id) db.slo_policies
    then err unique_violation
    else if not (has_service p.service_id db)
    then err constraint_violation
    else ok (tt, record db { slo_policies = db.slo_policies ++ p ∷ [] })

-- the columns that `UPDATE services` sets
unfoldable pub set_columns : Service → Service → Service
set_columns s row = record row {
  description = s.description;
  owner_email = s.owner_email;
  repository_url = s.repository_url;
  runbook_url = s.runbook_url;
  health_endpoint_url = s.health_endpoint_url;
  observability_url = s.observability_url;
  deployment_pipeline = s.deployment_pipeline;
  has_ci = s.has_ci;
  has_tracing = s.has_tracing;
  has_metrics = s.has_metrics;
  language = s.language;
  tier = s.tier;
  lifecycle = s.lifecycle;
  updated_at = s.updated_at;
}

-- A constraint is met or broken only where a row is there to be updated.
unfoldable pub update_service_row : Service → Statement (Unit {0})
update_service_row s k db =
    if tier_out_of_range s.tier && has_service s.id db
    then err constraint_violation
    else ok (
      tt,
      record db { services = update_where (λ row. row.id == s.id) (set_columns s) db.services },
    )

unfoldable pub set_policy_columns : SloPolicy → SloPolicy → SloPolicy
set_policy_columns p row = record row {
  availability_target_percent = p.availability_target_percent;
  latency_target_milliseconds = p.latency_target_milliseconds;
  time_window = p.time_window;
  updated_at = p.updated_at;
}

unfoldable pub update_slo_policy_row : Uuid → SloPolicy → Statement (Unit {0})
update_slo_policy_row service_id p k db =
    if latency_too_large p
    then err not_encodable
    else if policy_violates p && any (λ row. row.service_id == service_id) db.slo_policies
    then err constraint_violation
    else ok (
      tt,
      record db {
        slo_policies =
            update_where (λ row. row.service_id == service_id) (set_policy_columns p)
              db.slo_policies;
      },
    )

-- `scanService` sets the policy's service.
abbrev pub join_policy : Service → Option SloPolicy → Result Service
join_policy s none = err not_found
join_policy s (some p) = ok (record s { slo_policy = record p { service_id = s.id } })

abbrev pub join_service : Option Service → Database → Result Service
join_service none db = err not_found
join_service (some s) db = join_policy s (find? (λ p. p.service_id == s.id) db.slo_policies)

-- The row of the query of `GetService`.
unfoldable pub find_service : Uuid → Database → Result Service
find_service id db = join_service (find? (λ s. s.id == id) db.services) db

abbrev pub reading {ℓ} : {A : Type ℓ} → Result A → Database → Result (A × Database)
reading (ok a) db = ok (a, db)
reading (err e) db = err e

unfoldable pub select_service : Uuid → Statement Service
select_service id k db = reading (find_service id db) db

unfoldable pub get_service : Env → Uuid → App Service
get_service env id = exec env (select_service id)

unfoldable pub create_service : Env → Service → App Service
unfolding get_service
create_service env s = do
  transaction env (do
    exec_in env (insert_service s)
    exec_in env (insert_slo_policy (record s.slo_policy { service_id = s.id })))
  get_service env s.id

-- `if patch.Field != nil { service.Field = *patch.Field }`
abbrev pub given_or {ℓ} : {A : Type ℓ} → A → Option A → A
given_or a none = a
given_or a (some b) = b

abbrev pub apply_slo_patch : SloPolicy → Option SloPolicyInput → SloPolicy
apply_slo_patch p none = p
apply_slo_patch p (some i) = record p {
  availability_target_percent = i.availability_target_percent;
  latency_target_milliseconds = i.latency_target_milliseconds;
  time_window = i.window;
}

unfoldable pub apply_service_patch : Service → ServicePatch → Service
apply_service_patch s p = record s {
  description = given_or s.description p.description;
  owner_email = given_or s.owner_email p.owner_email;
  repository_url = given_or s.repository_url p.repository_url;
  runbook_url = given_or s.runbook_url p.runbook_url;
  health_endpoint_url = given_or s.health_endpoint_url p.health_endpoint_url;
  observability_url = given_or s.observability_url p.observability_url;
  deployment_pipeline = given_or s.deployment_pipeline p.deployment_pipeline;
  has_ci = given_or s.has_ci p.has_ci;
  has_tracing = given_or s.has_tracing p.has_tracing;
  has_metrics = given_or s.has_metrics p.has_metrics;
  language = given_or s.language p.language;
  tier = given_or s.tier p.tier;
  lifecycle = given_or s.lifecycle p.lifecycle;
  slo_policy = apply_slo_patch s.slo_policy p.slo_policy;
}

unfoldable pub update_service : Env → Uuid → ServicePatch → App Service
unfolding get_service
update_service env id patch = do
  found ← get_service env id
  at ← now env
  let patched = apply_service_patch found patch
  let current = record patched {
    updated_at = at;
    slo_policy = record patched.slo_policy { updated_at = at };
  }
  transaction env (do
    exec_in env (update_service_row current)
    exec_in env (update_slo_policy_row current.id current.slo_policy))
  get_service env current.id
