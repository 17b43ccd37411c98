-- ===== src/TaskMode/Types.antt =====
-- The data, the storage and the parameters of pallets/task-mode/src/lib.rs.
use deep_brain_chain.Prelude.{ℕ, ◌+◌, ◌*◌, ◌≤◌, ◌<◌, Bool, true, false, Option, List}
use deep_brain_chain.Frame.Currency.{Currency}

pub data TaskOrderStatus : Type 0 where
  pending in_progress completed settled : TaskOrderStatus

pub record TaskDefinition : Type 0 where
  pub model_id : List ℕ
  pub version : List ℕ
  pub admin : ℕ
  pub input_price_usd_per_1k : ℕ
  pub output_price_usd_per_1k : ℕ
  pub max_tokens_per_request : ℕ
  pub policy_cid : List ℕ
  pub is_active : Bool

pub record TaskOrder : Type 0 where
  pub order_id : ℕ
  pub task_id : ℕ
  pub customer : ℕ
  pub miner : ℕ
  pub input_tokens : ℕ
  pub output_tokens : ℕ
  pub dbc_price_snapshot : ℕ
  pub total_dbc_charged : ℕ
  pub dbc_burned : ℕ
  pub miner_payout : ℕ
  pub created_at : ℕ
  pub status : TaskOrderStatus
  pub attestation_hash : Option ℕ

pub record EraTaskStats : Type 0 where
  pub total_charged : ℕ
  pub total_burned : ℕ
  pub total_miner_payout : ℕ
  pub completed_orders : ℕ

-- The constants of `trait Config` and its currency. `percent_mul p x` is `Percent * x` of
-- sp-arithmetic.
pub record Config (L : Type 0) : Type 0 where
  pub currency : Currency L
  pub percent_mul : ℕ → ℕ → ℕ
  pub treasury_account : ℕ
  pub burn_percentage : ℕ
  pub miner_payout_percentage : ℕ
  pub task_mode_reward_percentage : ℕ
  pub era_duration : ℕ
  pub max_model_id_len : ℕ
  pub max_policy_cid_len : ℕ
  pub order_timeout : ℕ

-- What sp-arithmetic documents: the product is rounded to the nearest integer, a half downwards.
pub record IsPercentMul (mul : ℕ → ℕ → ℕ) : Type 0 where
  pub not_above : (p x : ℕ) → 100 * mul p x < p * x + 50
  pub not_below : (p x : ℕ) → p * x ≤ 100 * mul p x + 50

-- What `DbcPriceProvider` answers in a call: `get_dbc_price` and `get_dbc_amount_by_value`.
pub record Oracle : Type 0 where
  pub price : Option ℕ
  pub amount_by_value : ℕ → Option ℕ

pub data Event : Type 0 where
  task_definition_created : (task_id admin : ℕ) → Event
  task_definition_updated : (task_id : ℕ) → Event
  task_order_created : (order_id customer miner total_dbc : ℕ) → Event
  task_order_completed : (order_id attestation_hash : ℕ) → Event
  task_order_settled : (order_id burned miner_payout : ℕ) → Event
  task_order_expired : (order_id customer refunded : ℕ) → Event

pub data Error : Type 0 where
  bad_origin task_definition_not_found task_definition_inactive task_order_not_found : Error
  invalid_order_status token_count_exceeds_limit insufficient_balance : Error
  price_oracle_unavailable arithmetic_overflow not_authorized order_not_expired : Error

pub record State (L : Type 0) : Type 0 where
  pub next_task_id : ℕ
  pub next_order_id : ℕ
  pub task_definitions : ℕ → Option TaskDefinition
  pub task_orders : ℕ → Option TaskOrder
  pub era_stats : ℕ → EraTaskStats
  pub miner_task_stats : ℕ → ℕ → ℕ × ℕ
  pub ledger : L
  pub events : List Event

-- `matches!(status, InProgress)` and the like.
abbrev pub is_in_progress : TaskOrderStatus → Bool
is_in_progress in_progress = true
is_in_progress _ = false

abbrev pub is_completed : TaskOrderStatus → Bool
is_completed completed = true
is_completed _ = false

abbrev pub is_cancellable : TaskOrderStatus → Bool
is_cancellable pending = true
is_cancellable in_progress = true
is_cancellable _ = false
