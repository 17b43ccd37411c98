-- ===== src/Scheduler/Hook.antt =====
-- The block hook of pallets/compute-pool-scheduler/src/lib.rs, and its interface `TaskComputeScheduler`.
use deep_brain_chain.Prelude.{
  ℕ, ◌+◌, ◌/◌, min, Bool, true, false, ◌&&◌, Option, none, some, List, [], ◌∷◌, ◌++◌, Result, ok,
  err, insert, update, ltb, if◌then◌else◌, u32_max, u64_max, checked_add, saturating_add, try_push,
}
use deep_brain_chain.Scheduler.Types.{
  normal, pending, computing, TaskDimensions, ComputePool, ComputeTask, Config, ScheduleError,
  no_active_pool, task_id_overflow, pool_task_limit, State, is_active, is_proof_submitted,
  is_completed, is_terminal,
}
use deep_brain_chain.Scheduler.Scores.{entries}
use deep_brain_chain.Scheduler.Outcomes.{finalize_verification, mark_task_failed}
use deep_brain_chain.Scheduler.Tasks.{new_task}

module _ {W L : Type 0} (cfg : Config W L) where
  -- The two lists of the block hook: proofs whose verification timed out, and tasks that ran out of
  -- time.
  unfoldable pub is_unverified : ℕ → ℕ → ComputeTask → State W L → Bool
  is_unverified now task_id task s =
      is_proof_submitted task.status && (elim (s.proof_submitted_at task_id) [
        | none ↦ false
        | some proof_at ↦ ltb (saturating_add u32_max proof_at cfg.verification_timeout) now
      ])

  unfoldable pub is_expired : ℕ → ComputeTask → Bool
  is_expired now task = ltb (saturating_add u32_max task.submitted_at cfg.task_timeout) now

  unfoldable pub collect : ℕ → List ℕ → State W L → List ℕ × List ℕ → List ℕ × List ℕ
  unfolding is_unverified is_expired
  collect now [] s found = found
  collect now (task_id ∷ ids) s found = collect now ids s (elim (s.tasks task_id) [
    | none ↦ found
    | some task ↦
        if is_terminal task.status
        then found
        else if is_unverified now task_id task s
        then (found.0 ++ task_id ∷ [], found.1)
        else if is_expired now task
        then (found.0, found.1 ++ task_id ∷ [])
        else found
  ])

  unfoldable pub collect_pools : ℕ → List ℕ → State W L → List ℕ × List ℕ → List ℕ × List ℕ
  collect_pools now [] s found = found
  collect_pools now (pool_id ∷ keys) s found =
      collect_pools now keys s (collect now (s.pool_tasks pool_id) s found)

  unfoldable pub approve_all : ℕ → List ℕ → State W L → State W L
  approve_all now [] s = s
  approve_all now (task_id ∷ ids) s = approve_all now ids (elim (s.tasks task_id) [
    | none ↦ s
    | some task ↦ (finalize_verification cfg now task_id task.pool_id true s).1
  ])

  unfoldable pub fail_all : List ℕ → State W L → State W L
  fail_all [] s = s
  fail_all (task_id ∷ ids) s = fail_all ids (mark_task_failed cfg task_id true s).1

  -- `keys` are the pools that have a list of tasks, in the order of storage. Errors are dropped, and
  -- what was written before them stays.
  unfoldable pub on_initialize : List ℕ → ℕ → State W L → State W L
  on_initialize keys now s =
      let found = collect_pools now keys s ([], []) in fail_all found.1 (approve_all now found.0 s)

  -- One round of the search for a pool; the best score starts at 0.
  abbrev better_pool : ℕ × ComputePool → Option (ℕ × ComputePool) × ℕ → Option (ℕ × ComputePool) × ℕ
  better_pool entry best =
      let score = min (entry.1.reputation + entry.1.success_rate) u32_max / 2 in
      if is_active entry.1.status && ltb best.1 score then (some entry, score) else best

  unfoldable pub best_pool :
      List (ℕ × ComputePool) → Option (ℕ × ComputePool) × ℕ → Option (ℕ × ComputePool) × ℕ
  best_pool [] best = best
  best_pool (entry ∷ rest) best = best_pool rest (better_pool entry best)

  -- `TaskComputeScheduler::schedule_compute`, which returns its error with what it wrote so far.
  unfoldable pub schedule_compute :
      ℕ → List ℕ → ℕ → TaskDimensions → State W L → Result ScheduleError (ℕ × ℕ × ℕ) × State W L
  schedule_compute now keys user dimensions s =
      elim (best_pool (entries 50 keys s.pools) (none, 0)).0 [
        | none ↦ (err no_active_pool, s)
        | some (pool_id, pool) ↦ elim (checked_add u64_max s.next_task_id 1) [
          | none ↦ (err task_id_overflow, s)
          | some next_task_id ↦
              let task_id = s.next_task_id in
              let task =
                new_task cfg task_id user pool_id dimensions normal pending now
                  (some pool.price_per_task) in
              let created = record s {
                next_task_id = next_task_id;
                tasks = insert s.tasks task_id task;
                active_task_count =
                    update s.active_task_count pool_id
                      (saturating_add u32_max (s.active_task_count pool_id) 1);
              } in
              elim (try_push cfg.max_tasks_per_pool (s.pool_tasks pool_id) task_id) [
                | none ↦ (err pool_task_limit, created)
                | some ids ↦ (
                  ok (task_id, pool.owner, pool.price_per_task),
                  record created {
                    pool_tasks = update s.pool_tasks pool_id ids;
                    tasks =
                        insert (insert s.tasks task_id task) task_id
                          (record task { status = computing });
                  },
                )
              ]
        ]
      ]

  unfoldable pub is_task_completed : ℕ → State W L → Bool
  is_task_completed task_id s = elim (s.tasks task_id) [
    | none ↦ false
    | some task ↦ is_completed task.status
  ]
