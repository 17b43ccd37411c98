-- ===== src/Scheduler/Creation.antt =====
-- Submission and scheduling in pallets/compute-pool-scheduler/src/lib.rs start the life of a task.
use deep_brain_chain.Prelude.{
  ℕ, ◌≡◌, Option, none, some, arith, true, false, ◌==◌, List, Returns, Returns-bind, of_Returns,
}
use deep_brain_chain.Frame.Origin.{Origin, root, signed, unsigned}
use deep_brain_chain.Scheduler.{
  Config, State, TaskDimensions, TaskPriority, PoolScore, submit_task, choose_pool, preferred_pool,
  assign_task, select_best_pool_for_task, schedule_compute,
}
use deep_brain_chain.Scheduler.Lifecycle.{running, phase, create, Life, still, Life-one}
use deep_brain_chain.Scheduler.Refinement.{phase_at}

module _ {W L : Type 0} (cfg : Config W L) where
  choose-tasks :
      (keys : List ℕ) (d : TaskDimensions) (preferred : Option ℕ) (s : State W L)
      → Returns
          (λ r. (r.1.tasks ≡ s.tasks) × (r.1.next_task_id ≡ s.next_task_id))
          (choose_pool cfg keys d preferred s)
  unfolding choose_pool preferred_pool select_best_pool_for_task
  choose-tasks keys d none s = ground arith
  choose-tasks keys d (some id) s = ground arith

  -- A new identifier starts a life.
  started-Life :
      (s : State W L) (j : ℕ)
      → s.tasks s.next_task_id ≡ none
      → (j == s.next_task_id) ≡ true
      → Life (phase_at s j) (phase running false)
  started-Life s j e n =
      let same : j ≡ s.next_task_id = ground arith in rw (same, e) (Life-one create)

  pub kept-Life : (s : State W L) (j : ℕ) → Life (phase_at s j) (phase_at s j)
  kept-Life s j = still

  assign-Life :
      (user now : ℕ) (d : TaskDimensions) (priority : TaskPriority) (chosen : ℕ × PoolScore)
      (s : State W L) (j : ℕ)
      → s.tasks s.next_task_id ≡ none
      → Returns
          (λ t. Life (phase_at s j) (phase_at t j))
          (assign_task cfg user now d priority chosen s)
  unfolding assign_task
  assign-Life user now d priority chosen s j e = ground (arith, started-Life s j e, kept-Life s j)

  pub submit-Life :
      (o : Origin) (now : ℕ) (keys : List ℕ) (d : TaskDimensions) (priority : TaskPriority)
      (preferred : Option ℕ) (s : State W L) (j : ℕ)
      → s.tasks s.next_task_id ≡ none
      → Returns
          (λ t. Life (phase_at s j) (phase_at t j))
          (submit_task cfg o now keys d priority preferred s)
  unfolding submit_task
  submit-Life root now keys d priority preferred s j e = tt
  submit-Life unsigned now keys d priority preferred s j e = tt
  submit-Life (signed who) now keys d priority preferred s j e = ground (
    arith,
    Returns-bind (λ t. Life (phase_at s j) (phase_at t j)) (choose_pool cfg keys d preferred s)
        (λ r. assign_task cfg who now d priority r.0 r.1)
        (λ r f. assigned r.0 r.1 (of_Returns _ _ (choose-tasks keys d preferred s) f)),
  )
    where
      assigned :
          (chosen : ℕ × PoolScore) (t : State W L)
          → (t.tasks ≡ s.tasks) × (t.next_task_id ≡ s.next_task_id)
          → Returns
              (λ u. Life (phase_at s j) (phase_at u j))
              (assign_task cfg who now d priority chosen t)
      assigned chosen t (same, next) =
          rw (← same) (assign-Life who now d priority chosen t j (rw (same, next) e))

  pub schedule-Life :
      (now : ℕ) (keys : List ℕ) (user : ℕ) (d : TaskDimensions) (s : State W L) (j : ℕ)
      → s.tasks s.next_task_id ≡ none
      → Life (phase_at s j) (phase_at (schedule_compute cfg now keys user d s).1 j)
  unfolding schedule_compute
  schedule-Life now keys user d s j e = ground (arith, started-Life s j e, kept-Life s j)
