-- ===== src/Zk/Types.antt =====
-- The data, the storage and the parameters of pallets/zk-compute/src/lib.rs.
use deep_brain_chain.Prelude.{ℕ, Bool, true, false, Option, List}
use deep_brain_chain.Frame.Currency.{Currency}

pub data ZkVerificationStatus : Type 0 where
  pending verified failed : ZkVerificationStatus

-- `(u32, u32, u32)`
abbrev pub Dimensions : Type 0
Dimensions = ℕ × ℕ × ℕ

pub record ZkTask : Type 0 where
  pub task_id : ℕ
  pub miner : ℕ
  pub proof : List ℕ
  pub dimensions : Dimensions
  pub status : ZkVerificationStatus
  pub base_reward : ℕ
  pub multiplier_q100 : ℕ
  pub submitted_at : ℕ
  pub submission_deposit : ℕ
  pub reward_claimed : Bool

-- The constants of `trait Config`, its currency and its verifier. `account_id` is the account that
-- `PalletId::into_account_truncating` gives. The runtime's `TaskId` is a `u64`, its block number a
-- `u32` and its balance a `u128`.
pub record Config (L : Type 0) : Type 0 where
  pub currency : Currency L
  pub verifier : List ℕ → Dimensions → Bool
  pub max_proof_size : ℕ
  pub max_pending_tasks : ℕ
  pub max_verified_tasks : ℕ
  pub max_pending_per_miner : ℕ
  pub base_reward : ℕ
  pub submission_deposit : ℕ
  pub verification_timeout : ℕ
  pub initial_miner_score : ℕ
  pub min_miner_score_to_submit : ℕ
  pub max_miner_score : ℕ
  pub score_on_success : ℕ
  pub score_penalty_on_failure : ℕ
  pub account_id : ℕ

pub data Event : Type 0 where
  proof_submitted : (task_id miner nonce : ℕ) → Dimensions → Event
  proof_verified_by_ocw : (task_id : ℕ) → Bool → Event
  proof_verified : (task_id verifier : ℕ) → ZkVerificationStatus → Event
  reward_claimed_by : (task_id miner reward : ℕ) → Event
  miner_score_updated : (miner score : ℕ) → Event
  deposit_slashed : (task_id miner amount : ℕ) → Event

-- `currency_error` is whatever error the currency returns.
pub data Error : Type 0 where
  bad_origin currency_error task_not_found task_id_overflow proof_too_large : Error
  invalid_dimensions invalid_multiplier invalid_task_status reward_already_claimed : Error
  task_not_verified not_task_miner arithmetic_overflow nonce_already_used : Error
  too_many_pending_tasks too_many_verified_tasks too_many_pending_tasks_for_miner : Error
  insufficient_miner_score balance_transfer_failed : Error

pub record State (L : Type 0) : Type 0 where
  pub next_task_id : ℕ
  pub tasks : ℕ → Option ZkTask
  pub pending_tasks : List ℕ
  pub verified_tasks : List ℕ
  pub miner_scores : ℕ → Option ℕ
  pub used_nonces : ℕ → ℕ → Bool
  pub miner_pending_count : ℕ → ℕ
  pub ledger : L
  pub events : List Event

abbrev pub is_pending : ZkVerificationStatus → Bool
is_pending pending = true
is_pending _ = false

abbrev pub is_verified : ZkVerificationStatus → Bool
is_verified verified = true
is_verified _ = false

-- The pallet's calls, as far as `validate_unsigned` tells them apart.
pub data Call : Type 0 where
  submit_unsigned : (task_id : ℕ) → Bool → Call
  other_call : Call

pub record ValidTransaction : Type 0 where
  pub priority : ℕ
  pub provides : ℕ
  pub longevity : ℕ
  pub propagate : Bool

pub data Validity : Type 0 where
  bad_proof stale invalid_call : Validity
  valid : ValidTransaction → Validity
