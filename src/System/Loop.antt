-- ===== src/System/Loop.antt =====
-- The loop of internal/jobs/worker.go as a run of the whole control plane.
use golden_path_control_plan.Prelude.{
  ℕ, zero, suc, String, ◌≡◌, refl, List, [], ◌∷◌, ◌++◌, false, pos, leb_ℤ, arith,
}
use golden_path_control_plan.Config.Sound.{IsPositive}
use golden_path_control_plan.Effects.{Env, World}
use golden_path_control_plan.Worker.{
  Worker, Wake, tick, context_done, returned, waiting, round, run_loop,
}
use golden_path_control_plan.Worker
use golden_path_control_plan.System.{Operation, work, step, run}

abbrev pub times {ℓ} : {A : Type ℓ} → ℕ → A → List A
times zero a = []
times (suc n) a = a ∷ times n a

module _ (env : Env) (job_max_attempts : ℕ) (worker : Worker) where
  abbrev pub a_round : Operation
  a_round = work worker.id worker.batch_size worker.lease

  -- What the control plane is like after so many rounds
  abbrev pub rounds : ℕ → World → World
  rounds n w = run env job_max_attempts (times n a_round) w

  loop-waiting :
      (n : ℕ) (w : World) → run_loop env worker (times n tick) w ≡ (waiting, rounds (suc n) w)
  unfolding run_loop run step
  loop-waiting zero w = refl
  loop-waiting (suc n) w = loop-waiting n (round env worker w)

  loop-returned :
      (n : ℕ) (e : String) (wakes : List Wake) (w : World)
      → run_loop env worker (times n tick ++ context_done e ∷ wakes) w
        ≡ (returned e, rounds (suc n) w)
  unfolding run_loop run step
  loop-returned zero e wakes w = refl
  loop-returned (suc n) e wakes w = loop-returned n e wakes (round env worker w)

  -- With a positive interval, the worker that has met ticks only is waiting, having run a round at the
  -- start and one for each tick; and it returns as soon as its context is done, after as many rounds,
  -- whether they fail or not. What it leaves is what these rounds leave, one after another.
  pub run-Stops :
      (n : ℕ) (e : String) (wakes : List Wake) (w : World)
      → IsPositive worker.poll_interval
      → (Worker.run env worker (times n tick) w ≡ (waiting, rounds (suc n) w))
        × (Worker.run env worker (times n tick ++ context_done e ∷ wakes) w
            ≡ (returned e, rounds (suc n) w))
  unfolding Worker.run
  run-Stops n e wakes w h =
      let positive : leb_ℤ worker.poll_interval (pos 0) ≡ false = ground arith in
      rw positive (loop-waiting n w, loop-returned n e wakes w)
