-- ===== src/Scheduler/Outcomes.antt =====
-- How a task of pallets/compute-pool-scheduler/src/lib.rs ends: the verdict on a proof, failure, the release
-- of the escrow and the slash of the pool. The block hook drops the errors of these functions and keeps
-- what they wrote, so an error carries the state.
use deep_brain_chain.Prelude.{
  ℕ, ◌-◌, ◌*◌, ◌/◌, min, Bool, true, false, not, Option, none, some, [], ◌∷◌, Result, ok, err,
  retain, ltb, ◌==◌, if◌then◌else◌, insert, remove, update, u32_max, u128_max, saturating_add,
}
use deep_brain_chain.Scheduler.Types.{
  Config, State, ComputePool, ComputeTask, ReputationInfo, verifying, completed, failed,
  is_terminal, Error, task_not_found, pool_not_found, proof_not_submitted, task_status_changed,
  proof_verified, reward_available, task_timed_out, pool_slashed,
}

abbrev pub Outcome : Type 0 → Type 0 → Type 0
Outcome W L = Result Error (Unit {0}) × State W L

-- `?` between two such functions.
abbrev pub and_then : {W L : Type 0} → Outcome W L → (State W L → Outcome W L) → Outcome W L
and_then (ok u, s) f = f s
and_then (err e, s) f = (err e, s)

-- A dispatchable keeps what was written only if there is no error.
abbrev pub commit : {W L : Type 0} → Outcome W L → Result Error (State W L)
commit (ok u, s) = ok s
commit (err e, s) = err e

-- The pool's own record of one more task.
abbrev pub rated : Bool → ComputePool → ComputePool
rated success pool =
    let total = saturating_add u32_max pool.total_tasks 1 in
    let done =
      if success then saturating_add u32_max pool.completed_tasks 1 else pool.completed_tasks in
    record pool {
      total_tasks = total;
      completed_tasks = done;
      failed_tasks =
          if success then pool.failed_tasks else saturating_add u32_max pool.failed_tasks 1;
      success_rate =
          if ltb 0 total then min (min (done * 100) u32_max / total) 100 else pool.success_rate;
      reputation =
          if success
          then min (saturating_add u32_max pool.reputation 1) 100
          else pool.reputation - 2;
    }

-- The owner's record.
abbrev pub rated_miner : Bool → ReputationInfo → ReputationInfo
rated_miner success rep = record rep {
  total_tasks = saturating_add u32_max rep.total_tasks 1;
  successful_tasks =
      if success then saturating_add u32_max rep.successful_tasks 1 else rep.successful_tasks;
  failed_tasks = if success then rep.failed_tasks else saturating_add u32_max rep.failed_tasks 1;
  reputation =
      if success then min (saturating_add u32_max rep.reputation 1) 100 else rep.reputation - 2;
}

module _ {W L : Type 0} (cfg : Config W L) where
  open cfg use {currency}

  unfoldable pub update_reputation : ℕ → Bool → State W L → State W L
  update_reputation pool_id success s = elim (s.pools pool_id) [
    | none ↦ s
    | some pool ↦ record s {
      pools = insert s.pools pool_id (rated success pool);
      miner_reputation =
          update s.miner_reputation pool.owner
            (rated_miner success (s.miner_reputation pool.owner));
    }
  ]

  unfoldable pub decrement_pool_activity : ℕ → ℕ → State W L → State W L
  decrement_pool_activity pool_id task_id s = record s {
    active_task_count = update s.active_task_count pool_id (s.active_task_count pool_id - 1);
    pool_tasks =
        update s.pool_tasks pool_id (retain (λ id. not (id == task_id)) (s.pool_tasks pool_id));
  }

  unfoldable pub release_escrow : ℕ → State W L → State W L
  release_escrow task_id s = elim (s.task_escrow task_id) [
    | none ↦ record s { rewards = remove s.rewards task_id }
    | some escrow ↦ record s {
      rewards = remove s.rewards task_id;
      task_escrow = remove s.task_escrow task_id;
      ledger =
          currency.unreserve escrow.user
            (saturating_add u128_max escrow.reward_amount escrow.task_deposit) s.ledger;
    }
  ]

  unfoldable pub slash_pool : ℕ → State W L → Outcome W L
  slash_pool pool_id s = elim (s.pools pool_id) [
    | none ↦ (err pool_not_found, s)
    | some pool ↦
        let slash_amount =
          if ltb cfg.failure_slash pool.deposit_held
          then cfg.failure_slash
          else pool.deposit_held in
        let actual_slashed = slash_amount - currency.unslashed pool.owner slash_amount s.ledger in
        if pool.deposit_held == 0 then (ok tt, s) else (
          ok tt,
          record s {
            ledger = currency.slash_reserved pool.owner slash_amount s.ledger;
            pools =
                insert s.pools pool_id
                  (record pool { deposit_held = pool.deposit_held - actual_slashed });
            events =
                if actual_slashed == 0
                then s.events
                else pool_slashed pool_id actual_slashed ∷ s.events;
          },
        )
  ]

  -- The status passes through `verifying`; the model writes both.
  unfoldable pub record_result : ℕ → ComputeTask → Bool → State W L → State W L
  record_result task_id task result s =
      let status = if result then completed else failed in
      record s {
        tasks =
            insert (insert s.tasks task_id (record task { status = verifying })) task_id
              (record task { status = status; verification_result = some result });
        events =
            task_status_changed task_id status
            ∷ proof_verified task_id result
            ∷ task_status_changed task_id verifying
            ∷ s.events;
      }

  -- The reward of an approved task, if it has one.
  unfoldable pub offer_reward : ℕ → Option ℕ → State W L → State W L
  offer_reward task_id none s = s
  offer_reward task_id (some amount) s = record s {
    rewards = insert s.rewards task_id amount;
    events = reward_available task_id amount ∷ s.events;
  }

  -- The call of the handler, whose result is ignored.
  unfoldable pub notify_completed : ℕ → ℕ → ℕ → ComputePool → State W L → State W L
  notify_completed now task_id proof_hash pool s =
      let told =
        cfg.on_task_completed.on_task_completed now pool.owner task_id proof_hash [] 0 0
          (s.handler, s.ledger) in
      record s { handler = told.1.0; ledger = told.1.1 }

  -- The end of the verification of a task that exists and has a proof.
  unfoldable pub settle_result : ℕ → ℕ → ℕ → ComputeTask → ℕ → Bool → State W L → Outcome W L
  settle_result now task_id pool_id task proof_hash true s =
      let t = offer_reward task_id task.reward_amount s in
      elim (t.pools task.pool_id) [
        | none ↦ (err pool_not_found, t)
        | some pool ↦ (ok tt, notify_completed now task_id proof_hash pool t)
      ]
  settle_result now task_id pool_id task proof_hash false s =
      slash_pool pool_id (release_escrow task_id s)

  unfoldable pub finalize_verification : ℕ → ℕ → ℕ → Bool → State W L → Outcome W L
  finalize_verification now task_id pool_id result s = elim (s.tasks task_id) [
    | none ↦ (err proof_not_submitted, s)
    | some task ↦ elim task.proof_hash [
      | none ↦ (err proof_not_submitted, s)
      | some proof_hash ↦
          let rated_state =
            update_reputation pool_id result
              (decrement_pool_activity pool_id task_id (record_result task_id task result s)) in
          settle_result now task_id pool_id task proof_hash result (record rated_state {
            proof_submitted_at = remove rated_state.proof_submitted_at task_id;
          })
    ]
  ]

  unfoldable pub mark_task_failed : ℕ → Bool → State W L → Outcome W L
  mark_task_failed task_id timed_out s = elim (s.tasks task_id) [
    | none ↦ (err task_not_found, s)
    | some task ↦
        let marked = update_reputation task.pool_id false (
          decrement_pool_activity task.pool_id task_id (record s {
            tasks =
                insert s.tasks task_id
                  (record task { status = failed; verification_result = some false });
          })) in
        let slashed = slash_pool task.pool_id (
          release_escrow task_id
            (record marked { proof_submitted_at = remove marked.proof_submitted_at task_id })) in
        if is_terminal task.status
        then (ok tt, s)
        else and_then slashed (λ t. (
          ok tt,
          record t {
            events =
                task_status_changed task_id failed
                ∷ (if timed_out then task_timed_out task_id ∷ t.events else t.events);
          },
        ))
  ]
