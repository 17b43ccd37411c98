-- ===== src/Scheduler/Hooks.antt =====
-- The block hook and `schedule_compute` of pallets/compute-pool-scheduler/src/lib.rs keep the pallet valid.
use deep_brain_chain.Prelude.{
  ℕ, ◌+◌, ◌≤◌, ◌<◌, ◌≡◌, Option, none, arith, true, Option-cases, Bool-cases, inl, inr, List, [],
  ◌∷◌, u64_max, ltb, leb, try_push,
}
use deep_brain_chain.Frame.Currency.{IsLawful}
use deep_brain_chain.Frame.Completion.{ReleasesNothing}
use deep_brain_chain.Frame.Escrow.{held-skip}
use deep_brain_chain.Scheduler.{
  Config, State, ComputeTask, TaskDimensions, collect_pools, approve_all, fail_all, on_initialize,
  entries, best_pool, schedule_compute, finalize_verification,
}
use deep_brain_chain.Scheduler.Reserves.{owed_by_escrow}
use deep_brain_chain.Scheduler.Endings.{finalize-Keeps, mark_failed-Keeps}
use deep_brain_chain.Scheduler.Agreement.{finalize-Agrees, mark_failed-Agrees}
use deep_brain_chain.Scheduler.Claims.{IsValid, Keeps-IsValid, open-IsUnclaimed}

module _ {W L : Type 0} (cfg : Config W L) (lawful : IsLawful cfg.currency) where
  open cfg use {currency}

  pub fail_all-IsValid :
      (ids : List ℕ) (s : State W L) → IsValid cfg s → IsValid cfg (fail_all cfg ids s)
  unfolding fail_all
  fail_all-IsValid [] s v = v
  fail_all-IsValid (id ∷ ids) s v = fail_all-IsValid ids _ (
      Keeps-IsValid cfg lawful s _ v
        (mark_failed-Keeps cfg lawful id true s v.safe
          (λ t e h. open-IsUnclaimed s id t v.agrees e h))
        (mark_failed-Agrees cfg id true s v.agrees))

  module _ (quiet : ReleasesNothing currency cfg.on_task_completed) where
    approve-IsValid :
        (now id pool : ℕ) (s : State W L)
        → IsValid cfg s
        → IsValid cfg (finalize_verification cfg now id pool true s).1
    approve-IsValid now id pool s v =
        Keeps-IsValid cfg lawful s _ v
          (finalize-Keeps cfg lawful quiet now id pool true s v.safe (λ h. ground arith))
          (finalize-Agrees cfg now id pool true s v.agrees)

    pub approve_all-IsValid :
        (now : ℕ) (ids : List ℕ) (s : State W L)
        → IsValid cfg s
        → IsValid cfg (approve_all cfg now ids s)
    unfolding approve_all
    approve_all-IsValid now [] s v = v
    approve_all-IsValid now (id ∷ ids) s v = elim (Option-cases (s.tasks id)) [
      | inl e ↦ rw (e, approve_all) (approve_all-IsValid now ids s v)
      | inr (t, e) ↦
          rw (e, approve_all) (approve_all-IsValid now ids _ (approve-IsValid now id t.pool_id s v))
    ]

    pub on_initialize-IsValid :
        (keys : List ℕ) (now : ℕ) (s : State W L)
        → IsValid cfg s
        → IsValid cfg (on_initialize cfg keys now s)
    unfolding on_initialize
    on_initialize-IsValid keys now s v =
        let found = collect_pools cfg now keys s ([], []) in
        fail_all-IsValid found.1 _ (approve_all-IsValid now found.0 s v)

  -- A task that has no escrow: its identifier is used up.
  scheduled-IsValid :
      (s : State W L) (tasks : ℕ → Option ComputeTask) (lists : ℕ → List ℕ) (counts : ℕ → ℕ)
      → IsValid cfg s
      → ((k : ℕ) → s.next_task_id + 1 ≤ k → tasks k ≡ none)
      → ((k : ℕ) → k < s.next_task_id → tasks k ≡ s.tasks k)
      → IsValid cfg (record s {
        next_task_id = s.next_task_id + 1;
        tasks = tasks;
        active_task_count = counts;
        pool_tasks = lists;
      })
  scheduled-IsValid s tasks lists counts v above below =
      Keeps-IsValid cfg lawful s _ v
        (record {
          fresh = record {
            pools = v.safe.fresh.pools;
            escrows = λ k h. v.safe.fresh.escrows k (omega arith);
            stakes = v.safe.fresh.stakes;
          };
          covers = λ a. omega (
            arith,
            held-skip owed_by_escrow s.task_escrow s.next_task_id a
                (v.safe.fresh.escrows s.next_task_id (omega arith)),
          );
        })
        (record {
          new_tasks = above;
          new_rewards = λ k h. v.agrees.new_rewards k (omega arith);
          linked = λ k. elim (Bool-cases (ltb k s.next_task_id)) [
            | inl h ↦ rw (below k (ground arith)) (v.agrees.linked k)
            | inr h ↦ rw (v.safe.fresh.escrows k (ground arith)) tt
          ];
        })

  pub schedule-IsValid :
      (now : ℕ) (keys : List ℕ) (user : ℕ) (d : TaskDimensions) (s : State W L)
      → IsValid cfg s
      → IsValid cfg (schedule_compute cfg now keys user d s).1
  unfolding schedule_compute
  schedule-IsValid now keys user d s v =
      elim (Option-cases (best_pool cfg (entries 50 keys s.pools) (none, 0)).0) [
        | inl b ↦ rw (b, schedule_compute) v
        | inr ((id, p), b) ↦ elim (Bool-cases (leb (s.next_task_id + 1) u64_max)) [
          | inr h ↦ rw (b, h, schedule_compute) v
          | inl h ↦
              elim (Option-cases
                (try_push cfg.max_tasks_per_pool (s.pool_tasks id) s.next_task_id)) [
                  | inl q ↦
                      rw (b, h, q, schedule_compute)
                        (scheduled-IsValid s _ _ _ v (λ k g. ground (arith, v.agrees.new_tasks k))
                          (λ k g. ground arith))
                  | inr (ids, q) ↦
                      rw (b, h, q, schedule_compute)
                        (scheduled-IsValid s _ _ _ v (λ k g. ground (arith, v.agrees.new_tasks k))
                          (λ k g. ground arith))
                ]
        ]
      ]
