-- ===== src/Domain/Validation.antt =====
-- The `Validate` methods of internal/domain/models.go. A check returns `none` for a nil error, and
-- else the error's text; in a `do` block the first error ends the chain.
pub mod Accepts
pub mod Laws
use golden_path_control_plan.Prelude.{
  String, ◌<>◌, Bool, true, false, ◌&&◌, ◌||◌, Option, none, some, is_blank, trim_space, str_eq,
  ◌==◌, if◌then◌else◌, ℤ, pos, ltb_ℤ, leb_ℤ, float_le, float_lt, float_zero, float_hundred,
}
use golden_path_control_plan.Domain.Models.{uuid_nil}
use golden_path_control_plan.Domain.Inputs.{
  SloPolicyInput, ServiceInput, ServicePatch, DeploymentCandidateInput,
}
use golden_path_control_plan.Domain.Parsers.{Parsers, Uri, malformed, scheme}

abbrev pub Check : Type 0
Check = Option String

infixl 5 ◌>>◌
abbrev pub ◌>>◌ : Check → Check → Check
none >> rest = rest
some e >> rest = some e

-- An early return: the error's text if the test holds.
abbrev pub fail_if : Bool → String → Check
fail_if true e = some e
fail_if false e = none

-- fmt.Errorf(prefix + "%w", err)
abbrev pub wrap : String → Check → Check
wrap prefix none = none
wrap prefix (some e) = some (prefix <> e)

-- `if in.Field != nil { … }`
unfoldable pub if_given {ℓ} : {A : Type ℓ} → Option A → (A → Check) → Check
if_given none check = none
if_given (some a) check = check a

abbrev pub is_nil {ℓ} : {A : Type ℓ} → Option A → Bool
is_nil none = true
is_nil (some a) = false

unfoldable pub validate_slo : SloPolicyInput → Check
validate_slo i = do
  fail_if
      (float_le i.availability_target_percent float_zero
        || float_lt float_hundred i.availability_target_percent)
      "slo_policy.availability_target_percent must be between 0 and 100"
  fail_if (leb_ℤ i.latency_target_milliseconds (pos 0))
      "slo_policy.latency_target_milliseconds must be greater than zero"
  fail_if (is_blank i.window) "slo_policy.window is required"

abbrev pub tier_out_of_range : ℤ → Bool
tier_out_of_range tier = ltb_ℤ tier (pos 0) || ltb_ℤ (pos 3) tier

-- the `switch` on the environment
abbrev pub is_environment : String → Bool
is_environment e = str_eq e "development" || str_eq e "staging" || str_eq e "production"

unfoldable pub is_empty_patch : ServicePatch → Bool
is_empty_patch p =
    is_nil p.description
    && is_nil p.owner_email
    && is_nil p.repository_url
    && is_nil p.runbook_url
    && is_nil p.health_endpoint_url
    && is_nil p.observability_url
    && is_nil p.deployment_pipeline
    && is_nil p.has_ci
    && is_nil p.has_tracing
    && is_nil p.has_metrics
    && is_nil p.language
    && is_nil p.tier
    && is_nil p.lifecycle
    && is_nil p.slo_policy

module _ (parsers : Parsers) where
  unfoldable pub validate_email : String → Check
  validate_email value = do
    fail_if (is_blank value) "is required"
    wrap "must be a valid email: " (parsers.parse_address value)

  abbrev pub check_uri : String → Uri → Check
  check_uri field (malformed e) = some (field <> " must be a valid URL: " <> e)
  check_uri field (scheme s) =
      fail_if (if str_eq s "http" || str_eq s "https" then false else true)
        (field <> " must use http or https")

  unfoldable pub validate_url : String → String → Check
  validate_url field value = do
    fail_if (is_blank value) (field <> " is required")
    check_uri field (parsers.parse_request_uri value)

  unfoldable pub validate_service : ServiceInput → Check
  validate_service i = do
    fail_if (is_blank i.name) "service.name is required"
    fail_if (is_blank i.description) "service.description is required"
    wrap "service.owner_email: " (validate_email i.owner_email)
    validate_url "service.repository_url" i.repository_url
    validate_url "service.runbook_url" i.runbook_url
    validate_url "service.health_endpoint_url" i.health_endpoint_url
    validate_url "service.observability_url" i.observability_url
    fail_if (is_blank i.deployment_pipeline) "service.deployment_pipeline is required"
    fail_if (is_blank i.language) "service.language is required"
    fail_if (tier_out_of_range i.tier) "service.tier must be between 0 and 3"
    fail_if (is_blank i.lifecycle) "service.lifecycle is required"
    validate_slo i.slo_policy

  unfoldable pub validate_patch : ServicePatch → Check
  validate_patch p = do
    fail_if (is_empty_patch p) "service patch must include at least one field"
    if_given p.description (λ v. fail_if (is_blank v) "service.description must not be empty")
    if_given p.owner_email (λ v. wrap "service.owner_email: " (validate_email v))
    if_given p.repository_url (validate_url "service.repository_url")
    if_given p.runbook_url (validate_url "service.runbook_url")
    if_given p.health_endpoint_url (validate_url "service.health_endpoint_url")
    if_given p.observability_url (validate_url "service.observability_url")
    if_given p.tier (λ v. fail_if (tier_out_of_range v) "service.tier must be between 0 and 3")
    if_given p.deployment_pipeline
        (λ v. fail_if (is_blank v) "service.deployment_pipeline must not be empty")
    if_given p.language (λ v. fail_if (is_blank v) "service.language must not be empty")
    if_given p.lifecycle (λ v. fail_if (is_blank v) "service.lifecycle must not be empty")
    if_given p.slo_policy validate_slo

  unfoldable pub validate_candidate : DeploymentCandidateInput → Check
  validate_candidate i = do
    fail_if (i.service_id == uuid_nil) "deployment_candidate.service_id is required"
    fail_if (if is_environment (trim_space i.environment) then false else true)
        "deployment_candidate.environment must be one of development|staging|production"
    fail_if (is_blank i.version) "deployment_candidate.version is required"
    fail_if (is_blank i.commit_sha) "deployment_candidate.commit_sha is required"
    wrap "deployment_candidate.requested_by: " (validate_email i.requested_by)
