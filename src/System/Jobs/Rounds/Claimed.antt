-- ===== src/System/Jobs/Rounds/Claimed.antt =====
-- What a claim of internal/postgres/jobs.go returns, and what it leaves, if the database answers.
use golden_path_control_plan.Prelude.{
  ℕ, suc, ◌-◌, String, ◌≡◌, refl, Bool, List, map, Distinct-update_where, filter, update_where,
}
use golden_path_control_plan.Domain.Models.{Time, Job}
use golden_path_control_plan.Errors.{ok}
use golden_path_control_plan.Effects.{
  Env, World, delivered, arrive, exec, perform, answer, ◌>>=◌, continue, now,
}
use golden_path_control_plan.Effects.Rules.{PeersKeep}
use golden_path_control_plan.Postgres.Jobs.{claim, claim_jobs, is_among, lease_job, pick}
use golden_path_control_plan.System.Jobs.{same_id}
use golden_path_control_plan.System.Jobs.Settled.{
  Apart, Ready, leased-held, leased-owned, leased-differ,
}

module _ (env : Env) (worker_id : String) where
  -- What a claim returns, and what it leaves
  abbrev chosen : World → ℕ → Time → Job → Bool
  chosen w n lease = is_among (
      pick (env.locked w.exchanges) (env.db_clock w.exchanges) (env.clock w.reads - lease) n
        (env.peers w.exchanges w.db).jobs)

  -- The jobs that a claim returns from a world
  abbrev pub leased : World → ℕ → Time → List Job
  leased w n lease =
      map (lease_job (env.db_clock w.exchanges) worker_id)
        (filter (chosen w n lease) (env.peers w.exchanges w.db).jobs)

  abbrev pub leased_world : World → ℕ → Time → World
  leased_world w n lease =
      let met = env.peers w.exchanges w.db in
      record (arrive env w) {
        reads = suc w.reads;
        db = record met {
          jobs =
              update_where (chosen w n lease) (lease_job (env.db_clock w.exchanges) worker_id)
                met.jobs;
        };
      }

  pub claim_jobs_lem :
      (answered : (k : ℕ) → env.delivery k ≡ delivered) (w : World) (n : ℕ) (lease : Time)
      → claim_jobs env worker_id n lease w ≡ (ok (leased w n lease), leased_world w n lease)
  unfolding claim_jobs ◌>>=◌ continue now exec perform answer claim arrive
  claim_jobs_lem answered w n lease = rw (answered w.exchanges) refl

  lease_job-keeps_id : (at : Time) (j : Job) → (lease_job at worker_id j).id ≡ j.id
  unfolding lease_job
  lease_job-keeps_id at j = refl

  pub claimed-Ready :
      (peers_apart : PeersKeep env Apart) (w : World) (n : ℕ) (lease : Time)
      → Apart w.db
      → Ready worker_id (leased w n lease) (leased_world w n lease).db
  claimed-Ready peers_apart w n lease d =
      let at = env.db_clock w.exchanges in
      let met = (env.peers w.exchanges w.db).jobs in
      let d' = peers_apart w.exchanges w.db d in
      record {
        apart =
            Distinct-update_where same_id (chosen w n lease) (lease_job at worker_id) met
              (λ i j. rw (lease_job-keeps_id at i) refl) (λ i j. rw (lease_job-keeps_id at j) refl)
              d';
        held = leased-held (chosen w n lease) at worker_id met;
        owned = leased-owned (chosen w n lease) at worker_id (filter (chosen w n lease) met);
        differ = leased-differ (chosen w n lease) at worker_id met d';
      }
