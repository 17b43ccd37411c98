-- ===== src/Scheduler/Steps.antt =====
-- Histories of pallets/compute-pool-scheduler/src/lib.rs: its calls, its block hook and the tasks that
-- other pallets schedule.
use deep_brain_chain.Prelude.{ℕ, ◌≡◌, Option, Bool, List, ok, Result, Returns, of_Returns}
use deep_brain_chain.Frame.Origin.{Origin}
use deep_brain_chain.Frame.Currency.{IsLawful}
use deep_brain_chain.Frame.Completion.{ReleasesNothing}
use deep_brain_chain.Scheduler.{
  Config, State, TaskDimensions, TaskPriority, Error, register_pool, update_pool_config,
  deregister_pool, stake_to_pool, unstake_from_pool, submit_task, submit_proof, verify_proof,
  claim_reward, dispute_verification, on_initialize, schedule_compute,
}
use deep_brain_chain.Scheduler.Reserves.{IsUnclaimed}
use deep_brain_chain.Scheduler.Claims.{
  IsValid, Returns-IsValid, submit_proof-IsValid, verify-IsValid, claim-IsValid,
}
use deep_brain_chain.Scheduler.Pools.{
  register-Agrees, update_config-Agrees, deregister-Agrees, stake-Agrees, unstake-Agrees,
  register-Keeps, update_config-Keeps, deregister-Keeps, stake-Keeps, unstake-Keeps,
}
use deep_brain_chain.Scheduler.Disputes.{dispute-IsValid}
use deep_brain_chain.Scheduler.Submission.{IsCapped, submit-IsValid}
use deep_brain_chain.Scheduler.Hooks.{on_initialize-IsValid, schedule-IsValid}

-- A call of the pallet. `keys` are the pools in the order of storage.
pub data Call : Type 0 where
  register : (gpu_model : List ℕ) (gpu_memory : ℕ) (nvlink : Bool) (efficiency price : ℕ) → Call
  reconfigure :
      (id : ℕ) (gpu_model : List ℕ) (gpu_memory : ℕ) (nvlink : Bool) (efficiency price : ℕ) → Call
  deregister : (id : ℕ) → Call
  stake : (id amount : ℕ) → Call
  unstake : (id amount : ℕ) → Call
  submit :
      (keys : List ℕ) (dimensions : TaskDimensions) (priority : TaskPriority) (preferred : Option ℕ)
      → Call
  prove : (task_id proof_hash : ℕ) → Call
  verify : (task_id : ℕ) (result : Bool) → Call
  claim : (task_id : ℕ) → Call
  dispute : (task_id : ℕ) → Call
  initialize : (keys : List ℕ) → Call
  schedule : (keys : List ℕ) (user : ℕ) (dimensions : TaskDimensions) → Call

module _ {W L : Type 0} (cfg : Config W L) where
  unfoldable pub dispatch : Origin → ℕ → Call → State W L → Result Error (State W L)
  dispatch o now (register model memory nvlink efficiency price) s =
      register_pool cfg o model memory nvlink efficiency price s
  dispatch o now (reconfigure id model memory nvlink efficiency price) s =
      update_pool_config cfg o id model memory nvlink efficiency price s
  dispatch o now (deregister id) s = deregister_pool cfg o id s
  dispatch o now (stake id amount) s = stake_to_pool cfg o id amount s
  dispatch o now (unstake id amount) s = unstake_from_pool cfg o id amount s
  dispatch o now (submit keys d priority preferred) s =
      submit_task cfg o now keys d priority preferred s
  dispatch o now (prove id hash) s = submit_proof cfg o now id hash s
  dispatch o now (verify id result) s = verify_proof cfg o now id result s
  dispatch o now (claim id) s = claim_reward cfg o id s
  dispatch o now (dispute id) s = dispute_verification cfg o id s
  dispatch o now (initialize keys) s = ok (on_initialize cfg keys now s)
  dispatch o now (schedule keys user d) s = ok (schedule_compute cfg now keys user d s).1

  -- A dispute comes before the claim.
  abbrev pub IsTimely : Call → State W L → Type 0
  IsTimely (dispute id) s = IsUnclaimed (s.task_escrow id)
  IsTimely _ s = Unit

  pub data Reach (s : State W L) : State W L → Type 0 where
    here : Reach s s
    next :
        {t u : State W L}
        → Reach s t
        → (o : Origin) (now : ℕ) (c : Call) → IsTimely c t
        → dispatch o now c t ≡ ok u
        → Reach s u

module _ {W L : Type 0} (cfg : Config W L) (lawful : IsLawful cfg.currency) where
  open cfg use {currency}

  module _ (capped : IsCapped currency)
      (quiet : ReleasesNothing currency cfg.on_task_completed) where
    -- A call, a block hook or a scheduled task keeps the pallet valid, when a dispute comes before the
    -- claim.
    pub dispatch-IsValid :
        (o : Origin) (now : ℕ) (c : Call) (s : State W L)
        → IsValid cfg s
        → IsTimely cfg c s
        → Returns (IsValid cfg) (dispatch cfg o now c s)
    unfolding dispatch
    dispatch-IsValid o now (register model memory nvlink efficiency price) s v q =
        Returns-IsValid cfg lawful s _ v
          (register-Keeps cfg lawful o model memory nvlink efficiency price s v.safe.fresh)
          (register-Agrees cfg o model memory nvlink efficiency price s v.agrees)
    dispatch-IsValid o now (reconfigure id model memory nvlink efficiency price) s v q =
        Returns-IsValid cfg lawful s _ v
          (update_config-Keeps cfg lawful o id model memory nvlink efficiency price s v.safe.fresh)
          (update_config-Agrees cfg o id model memory nvlink efficiency price s v.agrees)
    dispatch-IsValid o now (deregister id) s v q =
        Returns-IsValid cfg lawful s _ v (deregister-Keeps cfg lawful o id s v.safe)
          (deregister-Agrees cfg o id s v.agrees)
    dispatch-IsValid o now (stake id amount) s v q =
        Returns-IsValid cfg lawful s _ v (stake-Keeps cfg lawful o id amount s v.safe.fresh)
          (stake-Agrees cfg o id amount s v.agrees)
    dispatch-IsValid o now (unstake id amount) s v q =
        Returns-IsValid cfg lawful s _ v (unstake-Keeps cfg lawful o id amount s v.safe)
          (unstake-Agrees cfg o id amount s v.agrees)
    dispatch-IsValid o now (submit keys d priority preferred) s v q =
        submit-IsValid cfg lawful capped o now keys d priority preferred s v
    dispatch-IsValid o now (prove id hash) s v q = submit_proof-IsValid cfg lawful o now id hash s v
    dispatch-IsValid o now (verify id result) s v q =
        verify-IsValid cfg lawful quiet o now id result s v
    dispatch-IsValid o now (claim id) s v q = claim-IsValid cfg lawful o id s v
    dispatch-IsValid o now (dispute id) s v q = dispute-IsValid cfg lawful o id s v q
    dispatch-IsValid o now (initialize keys) s v q =
        on_initialize-IsValid cfg lawful quiet keys now s v
    dispatch-IsValid o now (schedule keys user d) s v q =
        schedule-IsValid cfg lawful now keys user d s v

-- From a valid state of the pools, every history of calls by any origin at any block, of block hooks
-- and of scheduled tasks leads to a valid one: every account's reserve covers the deposits of its pools,
-- its unclaimed escrows and its stakes, and tasks, rewards and escrows agree. The currency is lawful and
-- below its largest number, the handler of completed tasks releases no reserve, and no dispute comes
-- after the claim of its task.
pub Reach-IsValid_pools :
    {W L : Type 0} (cfg : Config W L) {s t : State W L}
    → IsLawful cfg.currency
    → IsCapped cfg.currency
    → ReleasesNothing cfg.currency cfg.on_task_completed
    → IsValid cfg s
    → Reach cfg s t
    → IsValid cfg t
Reach-IsValid_pools cfg lawful capped quiet v here = v
Reach-IsValid_pools cfg lawful capped quiet v (next {t} {u} r o now c timely e) =
    of_Returns (IsValid cfg) (dispatch cfg o now c t)
      (dispatch-IsValid cfg lawful capped quiet o now c t
        (Reach-IsValid_pools cfg lawful capped quiet v r) timely)
      e
