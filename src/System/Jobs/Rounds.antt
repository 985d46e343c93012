-- ===== src/System/Jobs/Rounds.antt =====
-- What a round of internal/jobs/worker.go leaves of the jobs that it claimed.
mod Claimed
use golden_path_control_plan.Prelude.{
  ap, All-both, any-false-All, ℕ, suc, ◌+◌, ◌-◌, String, ◌≡◌, refl, sym, subst, Bool, true, false,
  List, [], ◌∷◌, map, arith, Distinct, Distinct-update_where, All-imply, any, filter, update_where,
  All,
}
use golden_path_control_plan.Domain.Models.{Uuid, Time, Job}
use golden_path_control_plan.Errors.{Result, ok, err}
use golden_path_control_plan.Effects.{
  Env, World, Statement, delivered, arrive, exec, perform, answer, ◌>>=◌, continue, now, pure,
}
use golden_path_control_plan.Effects.Tables.{Database}
use golden_path_control_plan.Effects.Rules.{Keeps, Preserves, PeersKeep}
use golden_path_control_plan.Postgres.Jobs.{
  claim, claim_jobs, complete_row, fail_row, is_held, is_among, complete, fail_job, lease_job, pick,
  backoff,
}
use golden_path_control_plan.System.Jobs.{same_id}
use golden_path_control_plan.System.Jobs.Settled.{
  Settled, Held, Apart, AllSettled, complete-Settles, fail_job-Settles, stays-settled, Ready,
  Marked, updated-Marked, leased-held, leased-owned, leased-differ, is_settled_as,
}
use golden_path_control_plan.System.Jobs.Marks.{mark_job_completed_lem, mark_job_failed-fail_job}
use golden_path_control_plan.ControlPlane.{attempt, process_service_evaluation_job}
use golden_path_control_plan.ControlPlane.Keeps.{process_service_evaluation_job-Keeps}
use golden_path_control_plan.Postgres.Frames.{
  insert_audit_row-frame, insert_snapshot-frame, insert_check_result-frame,
}
use golden_path_control_plan.Postgres.Keeps.{save_readiness_evaluation-Keeps}
use golden_path_control_plan.Worker.Keeps.{process_job-Keeps, process_jobs-Keeps}
use golden_path_control_plan.Worker.{mark, process_job, process_jobs, run_once}
use Claimed.{leased, leased_world, claim_jobs_lem, claimed-Ready}

module _ (k : ℕ) (db db' : Database) (n : ℕ) where
  complete_row-eq :
      (env : Env) (worker_id : String) (id : Uuid)
      → complete_row env id worker_id k db ≡ ok (n, db')
      → db'.jobs ≡ update_where (is_held id worker_id) (complete (env.db_clock k)) db.jobs
  unfolding complete_row
  complete_row-eq env worker_id id e = ground arith

  fail_row-eq :
      (id : Uuid) (owner m : String) (t at : Time)
      → fail_row id owner m t at k db ≡ ok (n, db')
      → db'.jobs ≡ update_where (is_held id owner) (fail_job m t at) db.jobs
  unfolding fail_row
  fail_row-eq id owner m t at e = ground arith

module _ (env : Env) (worker_id : String) (answered : (k : ℕ) → env.delivery k ≡ delivered)
    (peers_apart : PeersKeep env Apart)
    (peers_held : (id : Uuid) → PeersKeep env (Held worker_id id))
    (peers_settled : (id : Uuid) → PeersKeep env (Settled id)) where
  mark-Marked :
      (j : Job) (r : Result (Unit {0})) (w : World)
      → j.lock_owner ≡ worker_id
      → Apart w.db
      → Held worker_id j.id w.db
      → Marked worker_id j.id (env.peers w.exchanges w.db) (mark env worker_id j r w)
  unfolding mark arrive
  mark-Marked j (ok u) w o d h =
      let d' = peers_apart w.exchanges w.db d in
      let h' = peers_held j.id w.exchanges w.db h in
      rw ((mark_job_completed_lem env w (answered _) j.id worker_id d').0 h')
        (updated-Marked worker_id (complete-Settles _) j.id _ d' h' _ refl)
  mark-Marked j (err e) w o d h =
      let d' = peers_apart w.exchanges w.db d in
      let h' = peers_held j.id w.exchanges w.db h in
      rw
        ((mark_job_failed-fail_job env w (answered _) j e d').0
          (subst (λ v. any (is_held j.id v) (env.peers w.exchanges w.db).jobs ≡ true) (sym o) h'))
        (updated-Marked worker_id
          (fail_job-Settles (env.error_text e) (env.clock w.reads + backoff j.attempts)
            (env.clock w.reads))
          j.id _ d' h' _
          (ap
            (λ v.
              update_where (is_held j.id v)
                (fail_job (env.error_text e) (env.clock w.reads + backoff j.attempts)
                  (env.clock w.reads))
                (env.peers w.exchanges w.db).jobs)
            o))

  after-Held :
      (j : Job) (js : List Job) (before : Database) (after : Result (Unit {0}) × World)
      → Marked worker_id j.id before after
      → any (same_id j) js ≡ false
      → All (λ i. Held worker_id i.id before) js
      → All (λ i. Held worker_id i.id after.1.db) js
  after-Held j js before after m n a =
      All-both js (λ i e h. m.others i.id e h) (any-false-All (same_id j) js n) a

  module _
      (processing : (Q : List Job → Type 0)
        → PeersKeep env (λ db. Q db.jobs)
        → (j : Job) → Keeps (λ db. Q db.jobs) (process_job env worker_id j))
      (settling : (id : Uuid) (js : List Job)
        → Keeps (Settled id) (process_jobs env worker_id js)) where
    processed-Ready :
        (j : Job) (js : List Job) (w : World)
        → Ready worker_id js w.db
        → Ready worker_id js (process_job env worker_id j w).1.db
    processed-Ready j js w r = record {
      apart = (processing (Distinct same_id) peers_apart j).at w r.apart;
      held =
          All-imply js
            (λ i h.
              (processing (λ jobs. any (is_held i.id worker_id) jobs ≡ true) (peers_held i.id) j).at
                w h)
            r.held;
      owned = r.owned;
      differ = r.differ;
    }

    mark-Ready :
        (j : Job) (js : List Job) (r : Result (Unit {0})) (w : World)
        → Ready worker_id (j ∷ js) w.db
        → Marked worker_id j.id (env.peers w.exchanges w.db) (mark env worker_id j r w)
        → Ready worker_id js (mark env worker_id j r w).1.db
    unfolding Distinct
    mark-Ready j js r w ready m = record {
      apart = m.apart;
      held =
          after-Held j js _ _ m ready.differ.0
            (All-imply js (λ i h. peers_held i.id w.exchanges w.db h) ready.held.1);
      owned = ready.owned.1;
      differ = ready.differ.1;
    }

    -- After the first job of a round comes the rest of the round.
    round-step :
        (j : Job) (js : List Job) (w : World)
        → let (r, w1) = process_job env worker_id j w in
          let m = mark env worker_id j r w1 in
          m.0 ≡ ok tt → process_jobs env worker_id (j ∷ js) w ≡ process_jobs env worker_id js m.1
    unfolding process_jobs ◌>>=◌ continue attempt
    round-step j js w e =
        let (r, w1) = process_job env worker_id j w in
        let (x, w2) = mark env worker_id j r w1 in
        ap (λ y. continue y (λ _. process_jobs env worker_id js) w2) e

    loop-Settles :
        (js : List Job) (w : World)
        → Ready worker_id js w.db
        → AllSettled js (process_jobs env worker_id js w)
    unfolding process_jobs pure
    loop-Settles [] w r = (refl, tt)
    loop-Settles (j ∷ js) w ready =
        let (r, w1) = process_job env worker_id j w in
        let ready' = processed-Ready j (j ∷ js) w ready in
        let m = mark-Marked j r w1 ready.owned.0 ready'.apart ready'.held.0 in
        let (x, w2) = mark env worker_id j r w1 in
        let (succeeds, all) = loop-Settles js w2 (mark-Ready j js r w1 ready' m) in
        subst (AllSettled (j ∷ js)) (sym (round-step j js w m.succeeds))
          (succeeds, ((settling j.id js).at w2 m.settled, all))

  -- A statement that writes another table
  module _ (Q : List Job → Type 0) where
    elsewhere :
        {A : Type 0} (s : Statement A)
        → ((k : ℕ) (db db' : Database) (a : A) → s k db ≡ ok (a, db') → db'.jobs ≡ db.jobs)
        → Preserves (λ db. Q db.jobs) s
    elsewhere s h = record { at = λ k db q a db' e. rw (h k db db' a e) q }

    processing :
        PeersKeep env (λ db. Q db.jobs)
        → (j : Job) → Keeps (λ db. Q db.jobs) (process_service_evaluation_job env j worker_id)
    processing peers j =
        process_service_evaluation_job-Keeps env peers
          (λ e. elsewhere _ λ k db db' a q. ap (λ d. d.jobs) (insert_audit_row-frame k db db' e q))
          j worker_id
          (λ s draw at.
            save_readiness_evaluation-Keeps env peers _ _
              (elsewhere _ λ k db db' a q. ap (λ d. d.jobs) (insert_snapshot-frame k db db' _ q))
              (λ c.
                elsewhere _
                  λ k db db' a q. ap (λ d. d.jobs) (insert_check_result-frame k db db' c q)))

  settling : (id : Uuid) (js : List Job) → Keeps (Settled id) (process_jobs env worker_id js)
  unfolding complete_row fail_row
  settling id js =
      process_jobs-Keeps env (peers_settled id) worker_id
        (processing (λ jobs. any (is_settled_as id) jobs ≡ true) (peers_settled id))
        (λ i. record {
          at = λ k db h n db' e.
              rw (complete_row-eq k db db' n env worker_id i e)
                (stays-settled _ (complete-Settles _) id db.jobs h);
        })
        (λ i owner m t at. record {
          at = λ k db h n db' e.
              rw (fail_row-eq k db db' n i owner m t at e)
                (stays-settled _ (fail_job-Settles _ _ _) id db.jobs h);
        })
        js

  -- Let the database answer every exchange, and let other sessions keep the identifiers of the queue
  -- different, leave the jobs that the worker holds in its hands, and those that are completed or failed
  -- as completed or failed. Then a round of the worker succeeds, whatever becomes of its jobs, and each
  -- job that it claimed is completed or failed after it.
  pub run_once-Settles :
      (w : World) (n : ℕ) (lease : Time)
      → Apart w.db
      → (js : List Job) × ((claim_jobs env worker_id n lease w).0 ≡ ok js)
        × AllSettled js (run_once env worker_id n lease w)
  unfolding run_once ◌>>=◌ continue
  run_once-Settles w n lease d = (
    leased env worker_id w n lease,
    rw (claim_jobs_lem env worker_id answered w n lease) refl,
    rw (claim_jobs_lem env worker_id answered w n lease) (
        loop-Settles (λ Q peers j. process_job-Keeps env worker_id (processing Q peers) j) settling
          (leased env worker_id w n lease) (leased_world env worker_id w n lease)
          (claimed-Ready env worker_id peers_apart w n lease d)),
  )
