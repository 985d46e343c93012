-- ===== src/Effects/Tables.antt =====
-- The tables of internal/migrations/sql/0001_init.sql. A row of `services` has no policy and
-- one of `deployment_candidates` no decision: those fields hold nothing that a query reads, since
-- each query joins the other table in. A NULL `lock_owner` reads as the empty text.
use golden_path_control_plan.Prelude.{List, []}
use golden_path_control_plan.Domain.Models.{
  Service, SloPolicy, ReadinessSnapshot, ReadinessCheckResult, DeploymentCandidate,
  PromotionDecision, AuditEvent, Job,
}

pub record Database : Type 0 where
  pub services : List Service
  pub slo_policies : List SloPolicy
  pub jobs : List Job
  pub snapshots : List ReadinessSnapshot
  pub check_results : List ReadinessCheckResult
  pub candidates : List DeploymentCandidate
  pub decisions : List PromotionDecision
  pub audit_events : List AuditEvent

abbrev pub empty_database : Database
empty_database = record {
  services = [];
  slo_policies = [];
  jobs = [];
  snapshots = [];
  check_results = [];
  candidates = [];
  decisions = [];
  audit_events = [];
}
