-- ===== src/System/Services.antt =====
-- The invariant of the stored services, and the statements of internal/postgres that write them.
pub mod Steps
pub mod Runs
use golden_path_control_plan.Prelude.{
  ℕ, ◌≡◌, ◌⊎◌, inl, inr, false, some, [], ◌∷◌, ◌++◌, arith, All, All-append, All-update_where,
  find?-All, update_where-none, find?, update_where, any, pos, ◌≤ℤ◌, ◌==◌, Option-cases, Bool-cases,
}
use golden_path_control_plan.Domain.Models.{Uuid, Service, SloPolicy}
use golden_path_control_plan.Domain.Parsers.{Parsers}
use golden_path_control_plan.Domain.Validation.Accepts.{
  IsFilled, IsEmail, IsWebUrl, IsTier, IsPercent, IsValidService, as_input,
}
use golden_path_control_plan.Errors.{ok}
use golden_path_control_plan.Effects.Tables.{Database}
use golden_path_control_plan.Effects.Rules.{Preserves}
use golden_path_control_plan.Postgres.Services.{
  insert_service, insert_slo_policy, set_columns, update_service_row, set_policy_columns,
  update_slo_policy_row, policy_violates, join_policy, find_service,
}

module _ (parsers : Parsers) where
  pub record IsSoundRow (s : Service) : Type 0 where
    pub name : IsFilled s.name
    pub description : IsFilled s.description
    pub owner_email : IsEmail parsers s.owner_email
    pub repository_url : IsWebUrl parsers s.repository_url
    pub runbook_url : IsWebUrl parsers s.runbook_url
    pub health_endpoint_url : IsWebUrl parsers s.health_endpoint_url
    pub observability_url : IsWebUrl parsers s.observability_url
    pub deployment_pipeline : IsFilled s.deployment_pipeline
    pub language : IsFilled s.language
    pub tier : IsTier s.tier
    pub lifecycle : IsFilled s.lifecycle

pub record IsSoundPolicy (p : SloPolicy) : Type 0 where
  pub availability : IsPercent p.availability_target_percent
  pub latency : pos 1 ≤ℤ p.latency_target_milliseconds
  pub window : IsFilled p.time_window

pub record ServicesSound (parsers : Parsers) (db : Database) : Type 0 where
  pub rows : All (IsSoundRow parsers) db.services
  pub policies : All IsSoundPolicy db.slo_policies

module _ (s : Service) (k : ℕ) (db db' : Database) where
  insert_service-tables :
      insert_service s k db ≡ ok (tt, db')
      → (db'.services ≡ db.services ++ s ∷ []) × (db'.slo_policies ≡ db.slo_policies)
  unfolding insert_service
  insert_service-tables e = ground arith

  update_service_row-tables :
      update_service_row s k db ≡ ok (tt, db')
      → (db'.services ≡ update_where (λ row. row.id == s.id) (set_columns s) db.services)
        × (db'.slo_policies ≡ db.slo_policies)
  unfolding update_service_row
  update_service_row-tables e = ground arith

module _ (p : SloPolicy) (k : ℕ) (db db' : Database) where
  insert_slo_policy-tables :
      insert_slo_policy p k db ≡ ok (tt, db')
      → (db'.services ≡ db.services)
        × (db'.slo_policies ≡ db.slo_policies ++ p ∷ [])
        × (policy_violates p ≡ false)
  unfolding insert_slo_policy
  insert_slo_policy-tables e = ground arith

  -- A policy that breaks a constraint is refused, or no row is there to take it.
  update_slo_policy_row-tables :
      (id : Uuid)
      → update_slo_policy_row id p k db ≡ ok (tt, db')
      → (db'.services ≡ db.services)
        × (((db'.slo_policies ≡ db.slo_policies))
            ⊎ ((policy_violates p ≡ false)
                × (db'.slo_policies
                    ≡ update_where
                        (λ row. row.service_id == id)
                        (set_policy_columns p)
                        db.slo_policies)))
  unfolding update_slo_policy_row
  update_slo_policy_row-tables id e = elim (Bool-cases (policy_violates p)) [
    | inl bad ↦ elim (Bool-cases (any (λ row. row.service_id == id) db.slo_policies)) [
      | inl there ↦ absurd (ground (arith))
      | inr absent ↦ ground (
        arith,
        update_where-none (λ row. row.service_id == id) (set_policy_columns p) db.slo_policies
            absent,
      )
    ]
    | inr good ↦ ground arith
  ]

-- The constraints of the table give the rest.
sound_policy :
    (p : SloPolicy) → policy_violates p ≡ false → IsFilled p.time_window → IsSoundPolicy p
sound_policy p h w = ground arith

joined :
    {parsers : Parsers} (row : Service) (p : SloPolicy) (s : Service)
    → IsSoundRow parsers row
    → IsSoundPolicy p
    → join_policy row (some p) ≡ ok s
    → IsValidService parsers (as_input s) × IsPercent s.slo_policy.availability_target_percent
joined row p s h g e = ground arith

module _ (parsers : Parsers) where
  abbrev pub Sound : Database → Type 0
  Sound = ServicesSound parsers

  pub insert_service-Sound :
      (s : Service) → IsSoundRow parsers s → Preserves Sound (insert_service s)
  insert_service-Sound s h = record {
    at = λ k db v a db' e.
        let (rows, policies) = insert_service-tables s k db db' e in
        record {
          rows = rw rows (All-append _ db.services (s ∷ []) v.rows (h, tt));
          policies = rw policies v.policies;
        };
  }

  pub update_service_row-Sound :
      (s : Service) → IsSoundRow parsers s → Preserves Sound (update_service_row s)
  unfolding set_columns
  update_service_row-Sound s h = record {
    at = λ k db v a db' e.
        let (rows, policies) = update_service_row-tables s k db db' e in
        record {
          rows = rw rows (
              All-update_where _ (λ row. row.id == s.id) (set_columns s) db.services
                (λ row r. record {
                  name = r.name;
                  description = h.description;
                  owner_email = h.owner_email;
                  repository_url = h.repository_url;
                  runbook_url = h.runbook_url;
                  health_endpoint_url = h.health_endpoint_url;
                  observability_url = h.observability_url;
                  deployment_pipeline = h.deployment_pipeline;
                  language = h.language;
                  tier = h.tier;
                  lifecycle = h.lifecycle;
                })
                v.rows);
          policies = rw policies v.policies;
        };
  }

  pub insert_slo_policy-Sound :
      (p : SloPolicy) → IsFilled p.time_window → Preserves Sound (insert_slo_policy p)
  insert_slo_policy-Sound p h = record {
    at = λ k db v a db' e.
        let (rows, policies, met) = insert_slo_policy-tables p k db db' e in
        record {
          rows = rw rows v.rows;
          policies =
              rw policies
                (All-append _ db.slo_policies (p ∷ []) v.policies (sound_policy p met h, tt));
        };
  }

  set_policy_columns-Sound :
      (p row : SloPolicy) → IsSoundPolicy p → IsSoundPolicy (set_policy_columns p row)
  unfolding set_policy_columns
  set_policy_columns-Sound p row h = record {
    availability = h.availability;
    latency = h.latency;
    window = h.window;
  }

  pub update_slo_policy_row-Sound :
      (id : Uuid) (p : SloPolicy)
      → IsFilled p.time_window
      → Preserves Sound (update_slo_policy_row id p)
  update_slo_policy_row-Sound id p h = record {
    at = λ k db v a db' e.
        let (rows, policies) = update_slo_policy_row-tables p k db db' id e in
        record {
          rows = rw rows v.rows;
          policies = elim policies [
            | inl same ↦ rw same v.policies
            | inr (met, new) ↦ rw new (
                All-update_where _ (λ row. row.service_id == id) (set_policy_columns p)
                  db.slo_policies (λ row _. set_policy_columns-Sound p row (sound_policy p met h))
                  v.policies)
          ];
        };
  }

  -- Where the stored services are valid, a service that is read with its policy is valid, and its
  -- percentage is above 0 and at most 100.
  pub find_service-valid :
      (id : Uuid) (db : Database) (s : Service)
      → Sound db
      → find_service id db ≡ ok s
      → IsValidService parsers (as_input s) × IsPercent s.slo_policy.availability_target_percent
  unfolding find_service
  find_service-valid id db s v e = elim (Option-cases (find? (λ t. t.id == id) db.services)) [
    | inl none_there ↦ cc (rw none_there at e)
    | inr (row, there) ↦ elim (Option-cases (find? (λ p. p.service_id == row.id) db.slo_policies)) [
      | inl none_there ↦ cc (rw (there, none_there) at e)
      | inr (p, also) ↦
          joined row p s (find?-All _ _ db.services row v.rows there)
            (find?-All _ _ db.slo_policies p v.policies also) (rw (there, also) at e)
    ]
  ]
