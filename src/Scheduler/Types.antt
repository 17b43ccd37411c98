-- ===== src/Scheduler/Types.antt =====
-- The data, the storage and the parameters of pallets/compute-pool-scheduler/src/lib.rs.
use deep_brain_chain.Prelude.{ℕ, Bool, true, false, Option, none, some, List}
use deep_brain_chain.Frame.Currency.{Currency}
use deep_brain_chain.Frame.Completion.{TaskCompletionHandler}

pub data PoolStatus : Type 0 where
  active inactive deregistered : PoolStatus

pub data TaskPriority : Type 0 where
  low normal high critical : TaskPriority

pub data TaskStatus : Type 0 where
  pending assigned computing proof_submitted verifying completed failed : TaskStatus

pub record TaskDimensions : Type 0 where
  pub m : ℕ
  pub n : ℕ
  pub k : ℕ

pub record PoolScore : Type 0 where
  pub reputation_score : ℕ
  pub success_rate_score : ℕ
  pub price_score : ℕ
  pub nvlink_score : ℕ
  pub final_score : ℕ

pub record ComputePool : Type 0 where
  pub pool_id : ℕ
  pub owner : ℕ
  pub gpu_model : List ℕ
  pub gpu_memory : ℕ
  pub has_nvlink : Bool
  pub nvlink_efficiency : ℕ
  pub price_per_task : ℕ
  pub reputation : ℕ
  pub success_rate : ℕ
  pub total_tasks : ℕ
  pub completed_tasks : ℕ
  pub failed_tasks : ℕ
  pub status : PoolStatus
  pub deposit_held : ℕ
  pub score : PoolScore

pub record ComputeTask : Type 0 where
  pub task_id : ℕ
  pub user : ℕ
  pub pool_id : ℕ
  pub dimensions : TaskDimensions
  pub priority : TaskPriority
  pub status : TaskStatus
  pub submitted_at : ℕ
  pub proof_hash : Option ℕ
  pub verification_result : Option Bool
  pub reward_amount : Option ℕ
  pub disputed : Bool

pub record ReputationInfo : Type 0 where
  pub reputation : ℕ
  pub total_tasks : ℕ
  pub successful_tasks : ℕ
  pub failed_tasks : ℕ

pub record TaskEscrow : Type 0 where
  pub user : ℕ
  pub pool_owner : ℕ
  pub reward_amount : ℕ
  pub task_deposit : ℕ
  pub claimed : Bool

-- The constants of `trait Config`, its currency and its handler of completed tasks.
pub record Config (W L : Type 0) : Type 1 where
  pub currency : Currency L
  pub on_task_completed : TaskCompletionHandler W L
  pub pool_deposit : ℕ
  pub task_deposit : ℕ
  pub failure_slash : ℕ
  pub task_timeout : ℕ
  pub max_tasks_per_pool : ℕ
  pub initial_reputation : ℕ
  pub verification_timeout : ℕ

pub data Event : Type 0 where
  pool_registered : (pool_id owner : ℕ) → Event
  pool_config_updated : (pool_id : ℕ) → Event
  pool_deregistered : (pool_id owner : ℕ) → Event
  task_submitted : (task_id user : ℕ) → Event
  task_assigned : (task_id pool_id final_score : ℕ) → Event
  task_status_changed : (task_id : ℕ) → TaskStatus → Event
  proof_submitted_by : (task_id pool_id : ℕ) → Event
  proof_verified : (task_id : ℕ) → Bool → Event
  reward_available : (task_id amount : ℕ) → Event
  reward_claimed : (task_id pool_owner amount : ℕ) → Event
  verification_disputed : (task_id user : ℕ) → Event
  task_timed_out : (task_id : ℕ) → Event
  pool_slashed : (pool_id amount : ℕ) → Event
  staked : (who pool_id amount : ℕ) → Event
  unstaked : (who pool_id amount : ℕ) → Event
  stake_slashed : (pool_id amount : ℕ) → Event

-- The errors of the pallet, of origins and of checked arithmetic.
pub data Error : Type 0 where
  bad_origin overflow : Error
  pool_already_exists pool_not_found not_pool_owner pool_inactive : Error
  invalid_nvlink_efficiency invalid_dimensions task_not_found no_available_pool : Error
  invalid_task_state not_task_user not_assigned_pool_owner invalid_proof : Error
  reward_not_available reward_already_claimed task_expired dispute_not_allowed : Error
  too_many_active_tasks active_tasks_exist insufficient_balance arithmetic_overflow : Error
  insufficient_stake stake_not_found dispute_already_filed : Error
  self_verification_not_allowed proof_not_submitted : Error

-- The texts that `schedule_compute` returns.
pub data ScheduleError : Type 0 where
  no_active_pool task_id_overflow pool_task_limit : ScheduleError

-- `handler` is the storage of the pallet that is told of completed tasks.
pub record State (W L : Type 0) : Type 0 where
  pub next_pool_id : ℕ
  pub next_task_id : ℕ
  pub pools : ℕ → Option ComputePool
  pub pool_by_owner : ℕ → Option ℕ
  pub tasks : ℕ → Option ComputeTask
  pub pool_tasks : ℕ → List ℕ
  pub active_task_count : ℕ → ℕ
  pub miner_reputation : ℕ → ReputationInfo
  pub rewards : ℕ → Option ℕ
  pub task_escrow : ℕ → Option TaskEscrow
  pub pool_stakes : ℕ → ℕ → ℕ
  pub total_pool_stake : ℕ → ℕ
  pub proof_submitted_at : ℕ → Option ℕ
  pub ledger : L
  pub handler : W
  pub events : List Event

abbrev pub is_active : PoolStatus → Bool
is_active active = true
is_active _ = false

abbrev pub is_computing : TaskStatus → Bool
is_computing computing = true
is_computing _ = false

abbrev pub is_proof_submitted : TaskStatus → Bool
is_proof_submitted proof_submitted = true
is_proof_submitted _ = false

abbrev pub is_completed : TaskStatus → Bool
is_completed completed = true
is_completed _ = false

abbrev pub is_deregistered : PoolStatus → Bool
is_deregistered deregistered = true
is_deregistered _ = false

abbrev pub is_terminal : TaskStatus → Bool
is_terminal completed = true
is_terminal failed = true
is_terminal _ = false

-- `verification_result == Some(true)` and `== Some(false)`.
abbrev pub is_approved : Option Bool → Bool
is_approved none = false
is_approved (some b) = b

abbrev pub is_rejected : Option Bool → Bool
is_rejected (some false) = true
is_rejected _ = false
