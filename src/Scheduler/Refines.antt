-- ===== src/Scheduler/Refines.antt =====
-- Every history of pallets/compute-pool-scheduler/src/lib.rs is a life of each of its tasks.
use deep_brain_chain.Prelude.{ℕ, ◌≡◌, arith, Bool, true, Returns, of_Returns}
use deep_brain_chain.Frame.Origin.{Origin}
use deep_brain_chain.Frame.Currency.{IsLawful}
use deep_brain_chain.Frame.Completion.{ReleasesNothing}
use deep_brain_chain.Scheduler.{
  Config, State, register_pool, update_pool_config, deregister_pool, stake_to_pool,
  unstake_from_pool, claim_reward,
}
use deep_brain_chain.Scheduler.Claims.{IsValid}
use deep_brain_chain.Scheduler.Submission.{IsCapped}
use deep_brain_chain.Scheduler.Steps.{
  Call, register, reconfigure, deregister, stake, unstake, submit, prove, verify, claim, dispute,
  initialize, schedule, dispatch, Reach, here, next, Reach-IsValid_pools,
}
use deep_brain_chain.Scheduler.Lifecycle.{Life, still, Life-trans, Life-disputed, phase, settled}
use deep_brain_chain.Scheduler.Refinement.{phase_at}
use deep_brain_chain.Scheduler.Verdicts.{verify-Life, submit_proof-Life, dispute-Life}
use deep_brain_chain.Scheduler.Deadlines.{on_initialize-Life}
use deep_brain_chain.Scheduler.Creation.{submit-Life, schedule-Life, kept-Life}

module _ {W L : Type 0} (cfg : Config W L) where
  dispatch-Life :
      (o : Origin) (now : ℕ) (c : Call) (s : State W L) (j : ℕ)
      → IsValid cfg s
      → Returns (λ t. Life (phase_at s j) (phase_at t j)) (dispatch cfg o now c s)
  unfolding dispatch register_pool update_pool_config deregister_pool stake_to_pool
      unstake_from_pool claim_reward
  dispatch-Life o now (register model memory nvlink efficiency price) s j v =
      ground (arith, kept-Life cfg s j)
  dispatch-Life o now (reconfigure id model memory nvlink efficiency price) s j v =
      ground (arith, kept-Life cfg s j)
  dispatch-Life o now (deregister id) s j v = ground (arith, kept-Life cfg s j)
  dispatch-Life o now (stake id amount) s j v = ground (arith, kept-Life cfg s j)
  dispatch-Life o now (unstake id amount) s j v = ground (arith, kept-Life cfg s j)
  dispatch-Life o now (submit keys d priority preferred) s j v =
      submit-Life cfg o now keys d priority preferred s j
        (v.agrees.new_tasks s.next_task_id (omega arith))
  dispatch-Life o now (prove id hash) s j v = submit_proof-Life cfg o now id hash s j
  dispatch-Life o now (verify id result) s j v = verify-Life cfg o now id result s j
  dispatch-Life o now (claim id) s j v = ground (arith, kept-Life cfg s j)
  dispatch-Life o now (dispute id) s j v = dispute-Life cfg o id s j
  dispatch-Life o now (initialize keys) s j v = on_initialize-Life cfg keys now s j
  dispatch-Life o now (schedule keys user d) s j v =
      schedule-Life cfg now keys user d s j (v.agrees.new_tasks s.next_task_id (omega arith))

module _ {W L : Type 0} (cfg : Config W L) (lawful : IsLawful cfg.currency)
    (capped : IsCapped cfg.currency)
    (quiet : ReleasesNothing cfg.currency cfg.on_task_completed) where
  -- From a valid state, every history of the pallet moves each task only along its specified life: it is
  -- created running, a proof makes it wait, a verification settles it, a deadline rejects it, and a
  -- first dispute reverses the result. The currency is lawful and below its largest number, the
  -- handler releases no reserve, and no dispute comes after the claim of its task.
  pub Reach-Life :
      {s t : State W L} (j : ℕ) → IsValid cfg s → Reach cfg s t → Life (phase_at s j) (phase_at t j)
  Reach-Life j v here = still
  Reach-Life {s} j v (next {t} {u} r o now c timely e) = Life-trans (Reach-Life j v r) (
      of_Returns (λ x. Life (phase_at t j) (phase_at x j)) (dispatch cfg o now c t)
        (dispatch-Life cfg o now c t j (Reach-IsValid_pools cfg lawful capped quiet v r)) e)

  -- From a valid state in which a task was disputed, no history of the pallet changes the stage and
  -- the result of the task again, under the same conditions.
  pub Reach-disputed :
      {s t : State W L} (j : ℕ) (b : Bool)
      → IsValid cfg s
      → phase_at s j ≡ phase (settled b) true
      → Reach cfg s t
      → phase_at t j ≡ phase (settled b) true
  Reach-disputed j b v e r = Life-disputed b (Reach-Life j v r) e
