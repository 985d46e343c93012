-- ===== src/System/Services/Steps.antt =====
-- The invariant of the stored services under the operations that write them.
use golden_path_control_plan.Prelude.{ℕ, ◌≡◌, subst, Option, none, some}
use golden_path_control_plan.Domain.Models.{Uuid, Time, Service, SloPolicy}
use golden_path_control_plan.Domain.Inputs.{ServiceInput, ServicePatch, SloPolicyInput}
use golden_path_control_plan.Domain.Parsers.{Parsers}
use golden_path_control_plan.Domain.Validation.{validate_service, validate_patch}
use golden_path_control_plan.Domain.Validation.Accepts.{
  IsValidService, IsValidPatch, IsFilled, IsEmail, IsWebUrl, IsTier, IsValidSlo, Given, as_input,
}
use golden_path_control_plan.Domain.Validation.Laws.{service_iff, patch_iff}
use golden_path_control_plan.Errors.{ok}
use golden_path_control_plan.Effects.{Env, Statement}
use golden_path_control_plan.Effects.Tables.{Database}
use golden_path_control_plan.Effects.Rules.{
  Keeps, Preserves, PeersKeep, Keeps-now, Keeps-bind, Keeps-exec_in, Keeps-transaction,
}
use golden_path_control_plan.Effects.Triple.{
  Triple, Establishes, Triple-bind, Triple-exec, Triple-Keeps, Keeps-Triple, Triple-given,
}
use golden_path_control_plan.Postgres.Services.{
  given_or, apply_slo_patch, get_service, select_service, update_service, create_service,
  apply_service_patch, find_service,
}
use golden_path_control_plan.Postgres.Keeps.{reading-eq, get_service-Keeps}
use golden_path_control_plan.ControlPlane.Entities.{new_service}
use golden_path_control_plan.System.Services.{
  Sound, IsSoundRow, insert_service-Sound, insert_slo_policy-Sound, update_service_row-Sound,
  update_slo_policy_row-Sound, find_service-valid,
}

given_or-Given :
    {A : Type 0} (P : A → Type 0) {a : A} (o : Option A) → P a → Given P o → P (given_or a o)
given_or-Given P none p g = p
given_or-Given P (some b) p g = g

abbrev as_slo_input : SloPolicy → SloPolicyInput
as_slo_input p = record {
  availability_target_percent = p.availability_target_percent;
  latency_target_milliseconds = p.latency_target_milliseconds;
  window = p.time_window;
}

patched_slo :
    (p : SloPolicy) (o : Option SloPolicyInput)
    → IsValidSlo (as_slo_input p)
    → Given IsValidSlo o
    → IsValidSlo (as_slo_input (apply_slo_patch p o))
patched_slo p none v g = v
patched_slo p (some i) v g = g

module _ (parsers : Parsers) where
  Sound-of_tables :
      (db db' : Database)
      → db'.services ≡ db.services
      → db'.slo_policies ≡ db.slo_policies
      → Sound parsers db
      → Sound parsers db'
  Sound-of_tables db db' s p v = record { rows = rw s v.rows; policies = rw p v.policies }

  -- A statement that writes another table
  pub Sound-of_frame :
      {A : Type 0} (s : Statement A)
      → ((k : ℕ) (db db' : Database) (a : A)
          → s k db ≡ ok (a, db')
          → (db'.services ≡ db.services) × (db'.slo_policies ≡ db.slo_policies))
      → Preserves (Sound parsers) s
  Sound-of_frame s h = record {
    at = λ k db v a db' e.
        let (rows, policies) = h k db db' a e in Sound-of_tables db db' rows policies v;
  }

  -- A valid service to which a valid patch is applied is valid.
  pub patched-IsValidService :
      (s : Service) (p : ServicePatch)
      → IsValidService parsers (as_input s)
      → IsValidPatch parsers p
      → IsValidService parsers (as_input (apply_service_patch s p))
  unfolding apply_service_patch
  patched-IsValidService s p v g = record {
    name = v.name;
    description = given_or-Given IsFilled p.description v.description g.description;
    owner_email = given_or-Given (IsEmail parsers) p.owner_email v.owner_email g.owner_email;
    repository_url =
        given_or-Given (IsWebUrl parsers) p.repository_url v.repository_url g.repository_url;
    runbook_url = given_or-Given (IsWebUrl parsers) p.runbook_url v.runbook_url g.runbook_url;
    health_endpoint_url =
        given_or-Given (IsWebUrl parsers) p.health_endpoint_url v.health_endpoint_url
          g.health_endpoint_url;
    observability_url =
        given_or-Given (IsWebUrl parsers) p.observability_url v.observability_url
          g.observability_url;
    deployment_pipeline =
        given_or-Given IsFilled p.deployment_pipeline v.deployment_pipeline g.deployment_pipeline;
    language = given_or-Given IsFilled p.language v.language g.language;
    tier = given_or-Given IsTier p.tier v.tier g.tier;
    lifecycle = given_or-Given IsFilled p.lifecycle v.lifecycle g.lifecycle;
    slo_policy = patched_slo s.slo_policy p.slo_policy v.slo_policy g.slo_policy;
  }

  stamped-IsSoundRow :
      (s : Service) (at : Time)
      → IsValidService parsers (as_input s)
      → IsSoundRow parsers
          (record s { updated_at = at; slo_policy = record s.slo_policy { updated_at = at } })
  stamped-IsSoundRow s at v = assumption

  new_service-IsSoundRow :
      (input : ServiceInput) (id policy_id : Uuid) (at : Time)
      → IsValidService parsers input
      → IsSoundRow parsers (new_service id policy_id at input)
  unfolding new_service
  new_service-IsSoundRow input id policy_id at v = assumption

  select_service-valid :
      (id : Uuid)
      → Establishes
          (Sound parsers)
          (select_service id)
          (λ s db. Sound parsers db × IsValidService parsers (as_input s))
  unfolding select_service
  select_service-valid id k db v s db' e =
      let (found, same) = reading-eq (find_service id db) db s db' e in
      (subst (Sound parsers) same v, (find_service-valid parsers id db s v found).0)

  new_service-window :
      (input : ServiceInput) (id policy_id : Uuid) (at : Time)
      → IsValidService parsers input
      → IsFilled (new_service id policy_id at input).slo_policy.time_window
  unfolding new_service
  new_service-window input id policy_id at v = v.slo_policy.window

module _ (env : Env) (peers : PeersKeep env (Sound env.parsers)) where
  abbrev S : Database → Type 0
  S = Sound env.parsers

  get_service-valid :
      (id : Uuid)
      → Triple S (get_service env id) (λ s db. S db × IsValidService env.parsers (as_input s)) S
  unfolding get_service
  get_service-valid id =
      Triple-exec env (λ db v. v) (λ s db q. q.0) peers (select_service-valid env.parsers id)

  pub update_service-Sound :
      (id : Uuid) (patch : ServicePatch)
      → validate_patch env.parsers patch ≡ none
      → Keeps S (update_service env id patch)
  unfolding update_service
  update_service-Sound id patch accepted = Triple-Keeps (
      Triple-bind (get_service-valid id) λ s. Triple-given λ valid. Keeps-Triple (
        let after =
          patched-IsValidService env.parsers s patch valid
            ((patch_iff env.parsers patch).0 accepted) in
        Keeps-bind _ _ (Keeps-now env) λ at.
          Keeps-bind _ _
            (Keeps-transaction env _ peers (
              Keeps-bind _ _
                (Keeps-exec_in env _ (
                  update_service_row-Sound env.parsers _
                    (stamped-IsSoundRow env.parsers (apply_service_patch s patch) at after)))
                (λ _.
                  Keeps-exec_in env _
                    (update_slo_policy_row-Sound env.parsers _ _ after.slo_policy.window))))
            (λ _. get_service-Keeps env peers _)))

  pub create_service-Sound :
      (input : ServiceInput) (id policy_id : Uuid) (at : Time)
      → validate_service env.parsers input ≡ none
      → Keeps S (create_service env (new_service id policy_id at input))
  unfolding create_service
  create_service-Sound input id policy_id at accepted =
      let v = (service_iff env.parsers input).0 accepted in
      Keeps-bind _ _
        (Keeps-transaction env _ peers (
          Keeps-bind _ _
            (Keeps-exec_in env _ (
              insert_service-Sound env.parsers _
                (new_service-IsSoundRow env.parsers input id policy_id at v)))
            (λ _. Keeps-exec_in env _ (
              insert_slo_policy-Sound env.parsers _
                (new_service-window env.parsers input id policy_id at v)))))
        (λ _. get_service-Keeps env peers _)
