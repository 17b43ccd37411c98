-- ===== src/Scheduler/Tasks.antt =====
-- The calls on tasks of pallets/compute-pool-scheduler/src/lib.rs, from submission to dispute.
use deep_brain_chain.Prelude.{
  ℕ, Bool, true, false, not, ◌&&◌, Option, none, some, List, ◌∷◌, Result, ok, err, ◌>>=◌, ◌>>◌,
  guard, or_fail, insert, remove, update, is_some, leb, ltb, ◌==◌, if◌then◌else◌, u32_max, u64_max,
  u128_max, checked_add, saturating_add, try_push,
}
use deep_brain_chain.Frame.Origin.{Origin, ensure_signed}
use deep_brain_chain.Scheduler.Types.{
  TaskPriority, TaskStatus, pending, assigned, computing, proof_submitted, completed, failed,
  TaskDimensions, PoolScore, ComputeTask, Config, task_submitted, task_assigned,
  task_status_changed, proof_submitted_by, reward_claimed, verification_disputed, Error, bad_origin,
  pool_not_found, pool_inactive, invalid_dimensions, task_not_found, no_available_pool,
  invalid_task_state, not_task_user, not_assigned_pool_owner, invalid_proof, reward_not_available,
  reward_already_claimed, task_expired, dispute_not_allowed, too_many_active_tasks,
  insufficient_balance, arithmetic_overflow, dispute_already_filed, self_verification_not_allowed,
  proof_not_submitted, State, is_active, is_computing, is_proof_submitted, is_completed,
  is_terminal, is_approved, is_rejected,
}
use deep_brain_chain.Scheduler.Scores.{
  calculate_reward, calculate_pool_score, select_best_pool_for_task,
}
use deep_brain_chain.Scheduler.Outcomes.{
  Outcome, and_then, commit, update_reputation, release_escrow, slash_pool, offer_reward,
  finalize_verification,
}

module _ {W L : Type 0} (cfg : Config W L) where
  open cfg use {currency}

  -- The pool that the user asks for.
  unfoldable pub preferred_pool :
      ℕ → TaskDimensions → State W L → Result Error ((ℕ × PoolScore) × State W L)
  preferred_pool pool_id dimensions s = do
    pool ← or_fail (s.pools pool_id) pool_not_found
    guard (is_active pool.status) pool_inactive
    guard (ltb (s.active_task_count pool_id) cfg.max_tasks_per_pool) too_many_active_tasks
    guard (leb dimensions.k pool.gpu_memory) no_available_pool
    let score = calculate_pool_score pool pool.price_per_task pool.price_per_task
    ok (
      (pool_id, score),
      record s { pools = insert s.pools pool_id (record pool { score = score }) },
    )

  unfoldable pub choose_pool :
      List ℕ → TaskDimensions → Option ℕ → State W L → Result Error ((ℕ × PoolScore) × State W L)
  unfolding preferred_pool
  choose_pool keys dimensions none s = select_best_pool_for_task cfg keys dimensions s
  choose_pool keys dimensions (some pool_id) s = preferred_pool pool_id dimensions s

  abbrev pub new_task :
      ℕ → ℕ → ℕ → TaskDimensions → TaskPriority → TaskStatus → ℕ → Option ℕ → ComputeTask
  new_task id user pool_id dimensions priority status now reward = record {
    task_id = id;
    user = user;
    pool_id = pool_id;
    dimensions = dimensions;
    priority = priority;
    status = status;
    submitted_at = now;
    proof_hash = none;
    verification_result = none;
    reward_amount = reward;
    disputed = false;
  }

  -- The rest of `submit_task` on the chosen pool: the escrow, and the task on its way to `computing`.
  unfoldable pub assign_task :
      ℕ → ℕ → TaskDimensions → TaskPriority → ℕ × PoolScore → State W L → Result Error (State W L)
  assign_task user now dimensions priority chosen s = do
    pool ← or_fail (s.pools chosen.0) pool_not_found
    guard (ltb (s.active_task_count chosen.0) cfg.max_tasks_per_pool) too_many_active_tasks
    reward ← calculate_reward dimensions pool.price_per_task pool.has_nvlink pool.nvlink_efficiency
    ledger ←
        or_fail (currency.reserve user (saturating_add u128_max reward cfg.task_deposit) s.ledger)
          insufficient_balance
    ids ←
        or_fail (try_push cfg.max_tasks_per_pool (s.pool_tasks chosen.0) s.next_task_id)
          too_many_active_tasks
    let task_id = s.next_task_id
    next_task_id ← or_fail (checked_add u64_max task_id 1) arithmetic_overflow
    ok (record s {
      tasks =
          insert s.tasks task_id
            (new_task task_id user chosen.0 dimensions priority computing now (some reward));
      pool_tasks = update s.pool_tasks chosen.0 ids;
      active_task_count =
          update s.active_task_count chosen.0
            (saturating_add u32_max (s.active_task_count chosen.0) 1);
      task_escrow = insert s.task_escrow task_id (record {
        user = user;
        pool_owner = pool.owner;
        reward_amount = reward;
        task_deposit = cfg.task_deposit;
        claimed = false;
      });
      next_task_id = next_task_id;
      ledger = ledger;
      events =
          task_status_changed task_id computing
          ∷ task_status_changed task_id assigned
          ∷ task_assigned task_id chosen.0 chosen.1.final_score
          ∷ task_status_changed task_id pending
          ∷ task_submitted task_id user
          ∷ s.events;
    })

  -- `keys` are the pools in the order of storage.
  unfoldable pub submit_task :
      Origin
      → ℕ
      → List ℕ
      → TaskDimensions
      → TaskPriority
      → Option ℕ
      → State W L
      → Result Error (State W L)
  unfolding choose_pool assign_task
  submit_task origin now keys dimensions priority preferred_pool_id s = do
    user ← ensure_signed bad_origin origin
    guard (ltb 0 dimensions.m && (ltb 0 dimensions.n && ltb 0 dimensions.k)) invalid_dimensions
    chosen ← choose_pool keys dimensions preferred_pool_id s
    assign_task user now dimensions priority chosen.0 chosen.1

  unfoldable pub submit_proof : Origin → ℕ → ℕ → ℕ → State W L → Result Error (State W L)
  submit_proof origin now task_id proof_hash s = do
    sender ← ensure_signed bad_origin origin
    guard (not (proof_hash == 0)) invalid_proof
    task ← or_fail (s.tasks task_id) task_not_found
    guard (is_computing task.status) invalid_task_state
    pool ← or_fail (s.pools task.pool_id) pool_not_found
    guard (pool.owner == sender) not_assigned_pool_owner
    guard (leb now (saturating_add u32_max task.submitted_at cfg.task_timeout)) task_expired
    ok (record s {
      tasks =
          insert s.tasks task_id
            (record task { proof_hash = some proof_hash; status = proof_submitted });
      proof_submitted_at = insert s.proof_submitted_at task_id now;
      events =
          task_status_changed task_id proof_submitted
          ∷ proof_submitted_by task_id task.pool_id
          ∷ s.events;
    })

  unfoldable pub verify_proof : Origin → ℕ → ℕ → Bool → State W L → Result Error (State W L)
  verify_proof origin now task_id result s = do
    sender ← ensure_signed bad_origin origin
    task ← or_fail (s.tasks task_id) task_not_found
    guard (is_proof_submitted task.status) invalid_task_state
    guard (is_some task.proof_hash) proof_not_submitted
    pool ← or_fail (s.pools task.pool_id) pool_not_found
    guard (not (pool.owner == sender)) self_verification_not_allowed
    commit (finalize_verification cfg now task_id task.pool_id result s)

  unfoldable pub claim_reward : Origin → ℕ → State W L → Result Error (State W L)
  claim_reward origin task_id s = do
    sender ← ensure_signed bad_origin origin
    task ← or_fail (s.tasks task_id) task_not_found
    guard (is_completed task.status) invalid_task_state
    guard (is_approved task.verification_result) reward_not_available
    pool ← or_fail (s.pools task.pool_id) pool_not_found
    guard (pool.owner == sender) not_assigned_pool_owner
    reward ← or_fail (s.rewards task_id) reward_not_available
    escrow ← or_fail (s.task_escrow task_id) reward_not_available
    guard (not escrow.claimed) reward_already_claimed
    moved ←
        or_fail (currency.repatriate_reserved escrow.user sender reward s.ledger)
          insufficient_balance
    guard (moved.0 == 0) insufficient_balance
    ok (record s {
      ledger = currency.unreserve escrow.user escrow.task_deposit moved.1;
      task_escrow = insert s.task_escrow task_id (record escrow { claimed = true });
      rewards = remove s.rewards task_id;
      events = reward_claimed task_id sender reward ∷ s.events;
    })

  -- A dispute of an approved task.
  unfoldable pub overturn_approval : ℕ → ComputeTask → State W L → Outcome W L
  overturn_approval task_id task s =
      let overturned = record s {
        tasks =
            insert s.tasks task_id
              (record task { status = failed; verification_result = some false; disputed = true });
      } in
      and_then
        (slash_pool cfg task.pool_id
          (release_escrow cfg task_id (update_reputation cfg task.pool_id false overturned)))
        (λ t. (ok tt, record t { events = task_status_changed task_id failed ∷ t.events }))

  -- A dispute of a rejected or failed task.
  unfoldable pub overturn_rejection : ℕ → ComputeTask → State W L → State W L
  overturn_rejection task_id task s =
      let overturned = record s {
        tasks =
            insert s.tasks task_id (record task {
              status = completed;
              verification_result = some true;
              disputed = true;
            });
      } in
      let t =
        update_reputation cfg task.pool_id true
          (offer_reward cfg task_id task.reward_amount overturned) in
      record t { events = task_status_changed task_id completed ∷ t.events }

  unfoldable pub dispute_verification : Origin → ℕ → State W L → Result Error (State W L)
  unfolding overturn_approval overturn_rejection
  dispute_verification origin task_id s = do
    sender ← ensure_signed bad_origin origin
    task ← or_fail (s.tasks task_id) task_not_found
    guard (task.user == sender) not_task_user
    guard (is_terminal task.status) dispute_not_allowed
    guard (not task.disputed) dispute_already_filed
    t ←
        (if is_approved task.verification_result
          then commit (overturn_approval task_id task s)
          else if is_rejected task.verification_result
          then ok (overturn_rejection task_id task s)
          else err dispute_not_allowed)
    ok (record t { events = verification_disputed task_id sender ∷ t.events })
