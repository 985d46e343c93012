-- ===== src/Domain/Validation/Accepts.antt =====
-- What the `Validate` methods of internal/domain/models.go let through, said without their code.
use golden_path_control_plan.Prelude.{
  String, ◌≡◌, ◌≢◌, ◌⊎◌, true, Option, none, some, trim_space, ℤ, pos, ◌≤ℤ◌, Float64, is_nan,
  float_le, float_lt, float_zero, float_hundred,
}
use golden_path_control_plan.Domain.Models.{Service, uuid_nil}
use golden_path_control_plan.Domain.Inputs.{
  SloPolicyInput, ServiceInput, ServicePatch, DeploymentCandidateInput,
}
use golden_path_control_plan.Domain.Parsers.{Parsers, scheme}

-- More than white space
abbrev pub IsFilled : String → Type 0
IsFilled v = trim_space v ≢ ""

abbrev pub IsTier : ℤ → Type 0
IsTier t = (pos 0 ≤ℤ t) × (t ≤ℤ pos 3)

-- 0 < x <= 100
abbrev pub IsPercent : Float64 → Type 0
IsPercent x = (float_lt float_zero x ≡ true) × (float_le x float_hundred ≡ true)

-- A NaN fails neither comparison of the source, so it passes.
pub record IsValidSlo (i : SloPolicyInput) : Type 0 where
  pub availability :
      (is_nan i.availability_target_percent ≡ true) ⊎ IsPercent i.availability_target_percent
  pub latency : pos 1 ≤ℤ i.latency_target_milliseconds
  pub window : IsFilled i.window

-- A given field meets the condition.
abbrev pub Given {ℓ} : {A : Type ℓ} → (A → Type 0) → Option A → Type 0
Given P none = Unit
Given P (some a) = P a

abbrev pub NamesAField : ServicePatch → Type 0
NamesAField p =
    (p.description ≢ none)
    ⊎ (p.owner_email ≢ none)
    ⊎ (p.repository_url ≢ none)
    ⊎ (p.runbook_url ≢ none)
    ⊎ (p.health_endpoint_url ≢ none)
    ⊎ (p.observability_url ≢ none)
    ⊎ (p.deployment_pipeline ≢ none)
    ⊎ (p.has_ci ≢ none)
    ⊎ (p.has_tracing ≢ none)
    ⊎ (p.has_metrics ≢ none)
    ⊎ (p.language ≢ none)
    ⊎ (p.tier ≢ none)
    ⊎ (p.lifecycle ≢ none)
    ⊎ (p.slo_policy ≢ none)

abbrev pub IsEnvironment : String → Type 0
IsEnvironment e = (e ≡ "development") ⊎ (e ≡ "staging") ⊎ (e ≡ "production")

module _ (parsers : Parsers) where
  abbrev pub IsEmail : String → Type 0
  IsEmail v = IsFilled v × (parsers.parse_address v ≡ none)

  abbrev pub IsWebUrl : String → Type 0
  IsWebUrl v =
      IsFilled v
      × ((parsers.parse_request_uri v ≡ scheme "http")
          ⊎ (parsers.parse_request_uri v ≡ scheme "https"))

  pub record IsValidService (i : ServiceInput) : Type 0 where
    pub name : IsFilled i.name
    pub description : IsFilled i.description
    pub owner_email : IsEmail i.owner_email
    pub repository_url : IsWebUrl i.repository_url
    pub runbook_url : IsWebUrl i.runbook_url
    pub health_endpoint_url : IsWebUrl i.health_endpoint_url
    pub observability_url : IsWebUrl i.observability_url
    pub deployment_pipeline : IsFilled i.deployment_pipeline
    pub language : IsFilled i.language
    pub tier : IsTier i.tier
    pub lifecycle : IsFilled i.lifecycle
    pub slo_policy : IsValidSlo i.slo_policy

  pub record IsValidPatch (p : ServicePatch) : Type 0 where
    pub some_field : NamesAField p
    pub description : Given IsFilled p.description
    pub owner_email : Given IsEmail p.owner_email
    pub repository_url : Given IsWebUrl p.repository_url
    pub runbook_url : Given IsWebUrl p.runbook_url
    pub health_endpoint_url : Given IsWebUrl p.health_endpoint_url
    pub observability_url : Given IsWebUrl p.observability_url
    pub tier : Given IsTier p.tier
    pub deployment_pipeline : Given IsFilled p.deployment_pipeline
    pub language : Given IsFilled p.language
    pub lifecycle : Given IsFilled p.lifecycle
    pub slo_policy : Given IsValidSlo p.slo_policy

  pub record IsValidCandidate (i : DeploymentCandidateInput) : Type 0 where
    pub service_id : i.service_id ≢ uuid_nil
    pub environment : IsEnvironment (trim_space i.environment)
    pub version : IsFilled i.version
    pub commit_sha : IsFilled i.commit_sha
    pub requested_by : IsEmail i.requested_by

-- A stored service, read back as the input that it would be.
abbrev pub as_input : Service → ServiceInput
as_input s = record {
  name = s.name;
  description = s.description;
  owner_email = s.owner_email;
  repository_url = s.repository_url;
  runbook_url = s.runbook_url;
  health_endpoint_url = s.health_endpoint_url;
  observability_url = s.observability_url;
  deployment_pipeline = s.deployment_pipeline;
  has_ci = s.has_ci;
  has_tracing = s.has_tracing;
  has_metrics = s.has_metrics;
  language = s.language;
  tier = s.tier;
  lifecycle = s.lifecycle;
  slo_policy = record {
    availability_target_percent = s.slo_policy.availability_target_percent;
    latency_target_milliseconds = s.slo_policy.latency_target_milliseconds;
    window = s.slo_policy.time_window;
  };
}
