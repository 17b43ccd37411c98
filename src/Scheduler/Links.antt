-- ===== src/Scheduler/Links.antt =====
-- Tasks, offered rewards and escrows of pallets/compute-pool-scheduler/src/lib.rs agree with each other.
use deep_brain_chain.Prelude.{
  ℕ, ◌+◌, ◌≤◌, ◌<◌, ◌≡◌, Option, none, some, arith, true, false, insert, remove, u128_max,
}
use deep_brain_chain.Scheduler.{ComputeTask, TaskEscrow, is_terminal}

abbrev pub IsReward : Option ℕ → ℕ → Type 0
IsReward none v = Unit
IsReward (some r) v = r ≡ v

-- An escrow stands behind a task with the same reward, which is the one on offer. What it binds does
-- not saturate, and it is claimed only for a task that ended.
abbrev pub Linked : Option ComputeTask → Option ℕ → Option TaskEscrow → Type 0
Linked t r none = Unit
Linked none r (some x) = true ≡ false
Linked (some t) r (some x) =
    (x.reward_amount + x.task_deposit ≤ u128_max)
    × ((x.claimed ≡ true → is_terminal t.status ≡ true)
        × ((t.reward_amount ≡ some x.reward_amount) × IsReward r x.reward_amount))

pub record IsLinked (tasks : ℕ → Option ComputeTask) (rewards : ℕ → Option ℕ)
    (escrows : ℕ → Option TaskEscrow) (next : ℕ) : Type 0 where
  pub new_tasks : (k : ℕ) → next ≤ k → tasks k ≡ none
  pub new_rewards : (k : ℕ) → next ≤ k → rewards k ≡ none
  pub linked : (k : ℕ) → Linked (tasks k) (rewards k) (escrows k)

pub task-lt :
    {tasks : ℕ → Option ComputeTask} {rewards : ℕ → Option ℕ} {escrows : ℕ → Option TaskEscrow}
    {next : ℕ} (k : ℕ) (t : ComputeTask)
    → IsLinked tasks rewards escrows next
    → tasks k ≡ some t
    → k < next
task-lt k t v e = grind (arith, v.new_tasks k)

-- A task is written again: it stays ended if it ended, and keeps its reward.
pub rewrite_task-IsLinked :
    {tasks : ℕ → Option ComputeTask} {rewards : ℕ → Option ℕ} {escrows : ℕ → Option TaskEscrow}
    {next : ℕ} (id : ℕ) (t u : ComputeTask)
    → IsLinked tasks rewards escrows next
    → tasks id ≡ some t
    → u.reward_amount ≡ t.reward_amount
    → (is_terminal t.status ≡ true → is_terminal u.status ≡ true)
    → IsLinked (insert tasks id u) rewards escrows next
rewrite_task-IsLinked id t u v e same ended = record {
  new_tasks = λ k h. ground (arith, v.new_tasks k h, task-lt id t v e);
  new_rewards = v.new_rewards;
  linked = λ k. ground (arith, v.linked k);
}

pub offer-IsLinked :
    {tasks : ℕ → Option ComputeTask} {rewards : ℕ → Option ℕ} {escrows : ℕ → Option TaskEscrow}
    {next : ℕ} (id reward : ℕ) (t : ComputeTask)
    → IsLinked tasks rewards escrows next
    → tasks id ≡ some t
    → t.reward_amount ≡ some reward
    → IsLinked tasks (insert rewards id reward) escrows next
offer-IsLinked id reward t v e same = record {
  new_tasks = v.new_tasks;
  new_rewards = λ k h. ground (arith, v.new_rewards k h, task-lt id t v e);
  linked = λ k. ground (arith, v.linked k);
}

-- The escrow and the reward of a task are removed.
pub remove-IsLinked :
    {tasks : ℕ → Option ComputeTask} {rewards : ℕ → Option ℕ} {escrows : ℕ → Option TaskEscrow}
    {next : ℕ} (id : ℕ)
    → IsLinked tasks rewards escrows next
    → IsLinked tasks (remove rewards id) (remove escrows id) next
remove-IsLinked id v = record {
  new_tasks = v.new_tasks;
  new_rewards = λ k h. ground (arith, v.new_rewards k h);
  linked = λ k. ground (arith, v.linked k);
}
