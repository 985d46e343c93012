-- ===== src/Examples/Runs.antt =====
-- Runs of the control plane on the example world.
use golden_path_control_plan.Prelude.{
  inl, refl, ◌≡◌, arith, none, trim_space, float_lt, float_le, Distinct,
}
use golden_path_control_plan.Domain.Validation.{
  validate_service, validate_email, validate_url, validate_slo, validate_patch, if_given,
  is_empty_patch,
}
use golden_path_control_plan.Domain.Validation.Accepts.{IsValidService, IsValidPatch, IsPercent}
use golden_path_control_plan.Domain.Validation.Laws.{service_iff, patch_iff}
use golden_path_control_plan.System.{run}
use golden_path_control_plan.System.Services.{IsSoundRow, IsSoundPolicy, ServicesSound}
use golden_path_control_plan.System.Services.Runs.{run-ServicesSound}
use golden_path_control_plan.System.Jobs.{JobsSound}
use golden_path_control_plan.System.Jobs.Runs.{run-JobsSound}
use golden_path_control_plan.System.Candidates.{Decided, run-Decided}
use golden_path_control_plan.System.Gate.{Gate, Member}
use golden_path_control_plan.System.Trail.{Recorded, run-Recorded}
use golden_path_control_plan.Examples.Data.{
  snapshot, parsers, env, input, with_metrics, service, decided, event, database, start, operations,
}

input-accepted : validate_service parsers input ≡ none
unfolding validate_service validate_email validate_url validate_slo trim_space float_lt float_le
input-accepted = refl

patch-accepted : validate_patch parsers with_metrics ≡ none
unfolding validate_patch if_given is_empty_patch trim_space
patch-accepted = refl

pub input-IsValid : IsValidService parsers input
input-IsValid = (service_iff parsers input).0 input-accepted

patch-IsValid : IsValidPatch parsers with_metrics
patch-IsValid = (patch_iff parsers with_metrics).0 patch-accepted

service-IsSoundRow : IsSoundRow parsers service
service-IsSoundRow = let v = input-IsValid in assumption

pub service-IsPercent : IsPercent service.slo_policy.availability_target_percent
unfolding float_lt float_le
service-IsPercent = (refl, refl)

policy-IsSoundPolicy : IsSoundPolicy service.slo_policy
policy-IsSoundPolicy = record {
  availability = service-IsPercent;
  latency = input-IsValid.slo_policy.latency;
  window = input-IsValid.slo_policy.window;
}

database-ServicesSound : ServicesSound parsers database
database-ServicesSound = record {
  rows = (service-IsSoundRow, tt);
  policies = (policy-IsSoundPolicy, tt);
}

pub database-JobsSound : JobsSound database
unfolding Distinct
database-JobsSound = record {
  ids = (refl, (refl, tt));
  keys = (refl, (refl, tt));
  each = (
    record { attempts = omega arith; retries = omega arith; locked = refl },
    (record { attempts = omega arith; retries = omega arith; locked = refl }, tt),
  );
}

database-Decided : Decided decided database
database-Decided = record { stored = refl; decided = refl }

run-ServicesSound_example : ServicesSound parsers (run env 5 operations start).db
run-ServicesSound_example =
    run-ServicesSound env (λ k db v. v) 5 operations start database-ServicesSound

run-JobsSound_example : JobsSound (run env 5 operations start).db
run-JobsSound_example = run-JobsSound env (λ k db v. v) 5 operations start database-JobsSound

run-Decided_example : Decided decided (run env 5 operations start).db
run-Decided_example = run-Decided env decided (λ k db v. v) 5 operations start database-Decided

run-Recorded_example : Recorded event (run env 5 operations start).db
run-Recorded_example = run-Recorded env event (λ k db v. v) 5 operations start refl

pub database-Gate : Gate database
unfolding Distinct Member
database-Gate = record {
  ids = (refl, (refl, tt));
  approvals = (
    λ h. cc,
    (
      λ h. record { snapshot = snapshot; named = refl; kept = inl refl; own = refl; state = refl },
      tt,
    ),
  );
}
