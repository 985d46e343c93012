-- ===== src/Domain/Validation/Laws.antt =====
-- The `Validate` methods of internal/domain/models.go against `Accepts`.
use golden_path_control_plan.Prelude.{
  String, ◌≡◌, ◌↔◌, ◌⊎◌, refl, true, false, ◌||◌, Option, none, some, arith, eq_iff, trim_space,
  is_blank, ℤ, Float64, is_nan, float_le, float_lt, float_zero, float_hundred,
}
use golden_path_control_plan.Domain.Inputs.{
  SloPolicyInput, ServiceInput, ServicePatch, DeploymentCandidateInput,
}
use golden_path_control_plan.Domain.Parsers.{Parsers, Uri, malformed, scheme}
use golden_path_control_plan.Domain.Validation.{
  Check, ◌>>◌, fail_if, wrap, if_given, validate_slo, tier_out_of_range, validate_email, check_uri,
  validate_url, validate_service, is_empty_patch, validate_patch, validate_candidate,
}
use golden_path_control_plan.Domain.Validation.Accepts.{
  IsFilled, IsTier, IsPercent, IsValidSlo, Given, IsEmail, IsWebUrl, IsValidService, IsValidPatch,
  NamesAField, IsValidCandidate,
}

pub >>-eq-none : (c d : Check) → ((c >> d) ≡ none) ↔ ((c ≡ none) × (d ≡ none))
>>-eq-none none d = (λ h. (refl, h), λ h. h.1)
>>-eq-none (some e) d = (λ h. cc, λ h. h.0)

pub wrap-eq-none : (p : String) (c : Check) → (wrap p c ≡ none) ↔ (c ≡ none)
wrap-eq-none p none = (λ h. refl, λ h. refl)
wrap-eq-none p (some e) = (λ h. cc, λ h. cc)

pub IsFilled-iff : (v e : String) → (fail_if (is_blank v) e ≡ none) ↔ IsFilled v
IsFilled-iff v e = (
  λ h b. ground (arith, eq_iff (trim_space v) ""),
  λ h. ground (arith, eq_iff (trim_space v) "", h),
)

pub IsTier-iff : (t : ℤ) (e : String) → (fail_if (tier_out_of_range t) e ≡ none) ↔ IsTier t
IsTier-iff t e = ground arith

IsPercent-iff :
    (x : Float64) (e : String)
    → (fail_if (float_le x float_zero || float_lt float_hundred x) e ≡ none)
      ↔ ((is_nan x ≡ true) ⊎ IsPercent x)
unfolding float_le float_lt
IsPercent-iff x e = ground arith

pub slo_iff : (i : SloPolicyInput) → (validate_slo i ≡ none) ↔ IsValidSlo i
unfolding validate_slo
slo_iff i = ground (
  arith,
  IsPercent-iff i.availability_target_percent
      "slo_policy.availability_target_percent must be between 0 and 100",
  eq_iff (trim_space i.window) "",
)

module _ (parsers : Parsers) where
  pub IsEmail-iff : (v : String) → (validate_email parsers v ≡ none) ↔ IsEmail parsers v
  unfolding validate_email
  IsEmail-iff v = ground (arith, eq_iff (trim_space v) "")

  pub wrapped-IsEmail_iff :
      (v : String)
      → (wrap "service.owner_email: " (validate_email parsers v) ≡ none) ↔ IsEmail parsers v
  wrapped-IsEmail_iff v = ground (arith, IsEmail-iff v)

  uri_iff :
      (f : String) (u : Uri)
      → (check_uri parsers f u ≡ none) ↔ ((u ≡ scheme "http") ⊎ (u ≡ scheme "https"))
  uri_iff f (malformed e) = ground arith
  uri_iff f (scheme s) = ground (arith, eq_iff s "http", eq_iff s "https")

  pub url_iff : (f v : String) → (validate_url parsers f v ≡ none) ↔ IsWebUrl parsers v
  unfolding validate_url
  url_iff f v = ground (arith, eq_iff (trim_space v) "", uri_iff f (parsers.parse_request_uri v))

  -- `Validate` accepts the input of a service exactly if its name, description, pipeline, language and
  -- lifecycle are filled, its owner is an address, its four URLs are http or https, its tier lies
  -- between 0 and 3, and its policy has a percentage that is above 0 and at most 100 or not a number,
  -- a positive latency and a filled window.
  pub service_iff :
      (i : ServiceInput) → (validate_service parsers i ≡ none) ↔ IsValidService parsers i
  unfolding validate_service
  service_iff i = ground (
    arith,
    eq_iff (trim_space i.name) "",
    eq_iff (trim_space i.description) "",
    IsEmail-iff i.owner_email,
    url_iff "service.repository_url" i.repository_url,
    url_iff "service.runbook_url" i.runbook_url,
    url_iff "service.health_endpoint_url" i.health_endpoint_url,
    url_iff "service.observability_url" i.observability_url,
    eq_iff (trim_space i.deployment_pipeline) "",
    eq_iff (trim_space i.language) "",
    eq_iff (trim_space i.lifecycle) "",
    slo_iff i.slo_policy,
  )

  -- `Validate` accepts the input of a deployment candidate exactly if it names a service, its
  -- environment without surrounding space is one of the three, its version and commit are filled, and
  -- its requester is an address.
  pub candidate_iff :
      (i : DeploymentCandidateInput)
      → (validate_candidate parsers i ≡ none) ↔ IsValidCandidate parsers i
  unfolding validate_candidate
  candidate_iff i = ground (
    arith,
    eq_iff (trim_space i.environment) "development",
    eq_iff (trim_space i.environment) "staging",
    eq_iff (trim_space i.environment) "production",
    eq_iff (trim_space i.version) "",
    eq_iff (trim_space i.commit_sha) "",
    IsEmail-iff i.requested_by,
  )

Given-iff :
    {A : Type 0} (o : Option A) (check : A → Check) (P : A → Type 0)
    → ((a : A) → (check a ≡ none) ↔ P a)
    → (if_given o check ≡ none) ↔ Given P o
unfolding if_given
Given-iff none check P h = (λ _. tt, λ _. refl)
Given-iff (some a) check P h = h a

is_empty_patch-NamesAField : (p : ServicePatch) → (is_empty_patch p ≡ false) ↔ NamesAField p
unfolding is_empty_patch
is_empty_patch-NamesAField p = ground arith

seq_iff :
    (c d : Check) {P Q : Type 0} → (c ≡ none) ↔ P → (d ≡ none) ↔ Q → ((c >> d) ≡ none) ↔ (P × Q)
seq_iff none d p q = (λ h. (p.0 refl, q.0 h), λ r. q.1 r.1)
seq_iff (some e) d p q = (λ h. cc, λ r. absurd (cc (p.1 r.0)))

some_field_iff :
    (p : ServicePatch) (e : String) → (fail_if (is_empty_patch p) e ≡ none) ↔ NamesAField p
some_field_iff p e = ground (arith, is_empty_patch-NamesAField p)

module _ (parsers : Parsers) where
  Given-url_iff :
      (o : Option String) (f : String)
      → (if_given o (validate_url parsers f) ≡ none) ↔ Given (IsWebUrl parsers) o
  Given-url_iff o f = Given-iff o _ (IsWebUrl parsers) (url_iff parsers f)

  Given-IsFilled_iff :
      (o : Option String) (e : String)
      → (if_given o (λ v. fail_if (is_blank v) e) ≡ none) ↔ Given IsFilled o
  Given-IsFilled_iff o e = Given-iff o _ IsFilled (λ v. IsFilled-iff v e)

  patch_parts :
      (p : ServicePatch)
      → (validate_patch parsers p ≡ none) ↔ (
          NamesAField p
          × (Given IsFilled p.description
              × (Given (IsEmail parsers) p.owner_email
                  × (Given (IsWebUrl parsers) p.repository_url
                      × (Given (IsWebUrl parsers) p.runbook_url
                          × (Given (IsWebUrl parsers) p.health_endpoint_url
                              × (Given (IsWebUrl parsers) p.observability_url
                                  × (Given IsTier p.tier
                                      × (Given IsFilled p.deployment_pipeline
                                          × (Given IsFilled p.language
                                              × (Given IsFilled p.lifecycle
                                                  × Given IsValidSlo p.slo_policy)))))))))))
  unfolding validate_patch
  patch_parts p = seq_iff _ _ (some_field_iff p _) (
      seq_iff _ _ (Given-IsFilled_iff p.description _) (
        seq_iff _ _ (Given-iff p.owner_email _ (IsEmail parsers) (wrapped-IsEmail_iff parsers)) (
          seq_iff _ _ (Given-url_iff p.repository_url _) (
            seq_iff _ _ (Given-url_iff p.runbook_url _) (
              seq_iff _ _ (Given-url_iff p.health_endpoint_url _) (
                seq_iff _ _ (Given-url_iff p.observability_url _) (
                  seq_iff _ _ (Given-iff p.tier _ IsTier (λ t. IsTier-iff t _)) (
                    seq_iff _ _ (Given-IsFilled_iff p.deployment_pipeline _) (
                      seq_iff _ _ (Given-IsFilled_iff p.language _) (
                        seq_iff _ _ (Given-IsFilled_iff p.lifecycle _)
                          (Given-iff p.slo_policy _ IsValidSlo slo_iff)))))))))))

  -- `Validate` accepts a patch exactly if it has some field, and each field that it has is one that
  -- the input of a service may have.
  pub patch_iff : (p : ServicePatch) → (validate_patch parsers p ≡ none) ↔ IsValidPatch parsers p
  patch_iff p =
      (λ h. let t = (patch_parts p).0 h in assumption t, λ v. (patch_parts p).1 (assumption))
