-- ===== src/TaskMode.antt =====
-- pallets/task-mode/src/lib.rs: task definitions, the orders that customers pay for by a reserve, their
-- settlement between treasury and miner, and the statistics of an era.
mod Types
pub mod Pricing
pub mod Orders
pub mod Steps
pub mod Settlement
mod Tests
pub use Types.*
use deep_brain_chain.Prelude.{
  ℕ, ◌+◌, ◌-◌, ◌*◌, ◌/◌, min, Bool, true, false, ◌||◌, Option, none, some, List, [], ◌∷◌, Result,
  ok, err, ◌>>=◌, ◌>>◌, guard, or_fail, update, update₂, insert, leb, ltb, ◌==◌, if◌then◌else◌,
  u32_max, u64_max, u128_max, checked_add, checked_sub, checked_mul, saturating_add, length,
  try_into,
}
use deep_brain_chain.Frame.Origin.{Origin, ensure_signed}

-- `Option::unwrap_or` on the fields of `update_task_definition`.
abbrev or_keep {ℓ} : {A : Type ℓ} → Option A → A → A
or_keep none old = old
or_keep (some v) old = v

-- One side's price: tokens times the price, divided by 1000.
part_usd_value : ℕ → ℕ → Result Error ℕ
part_usd_value tokens price_per_1k = do
  product ← or_fail (checked_mul u128_max tokens price_per_1k) arithmetic_overflow
  ok (product / 1000)

pub calculate_order_usd_value : ℕ → ℕ → ℕ → ℕ → Result Error ℕ
unfolding part_usd_value
calculate_order_usd_value input_tokens output_tokens input_price output_price = do
  input_part ← part_usd_value input_tokens input_price
  output_part ← part_usd_value output_tokens output_price
  total ← or_fail (checked_add u128_max input_part output_part) arithmetic_overflow
  guard (leb total u64_max) arithmetic_overflow
  ok total

module _ {L : Type 0} (cfg : Config L) where
  open cfg use {currency, percent_mul}

  pub calculate_revenue_split : ℕ → Result Error (ℕ × ℕ)
  calculate_revenue_split total = do
    let burned = percent_mul cfg.burn_percentage total
    let miner_percent_cut = percent_mul cfg.miner_payout_percentage total
    charged_check ← or_fail (checked_add u128_max burned miner_percent_cut) arithmetic_overflow
    guard (leb charged_check total) arithmetic_overflow
    miner_payout ← or_fail (checked_sub total burned) arithmetic_overflow
    ok (burned, miner_payout)

  pub block_to_era : ℕ → ℕ
  block_to_era block = if cfg.era_duration == 0 then 0 else min (block / cfg.era_duration) u32_max

  pub split_era_rewards : ℕ → Result Error (ℕ × ℕ)
  split_era_rewards total_era_rewards = do
    let task_reward_pool = percent_mul cfg.task_mode_reward_percentage total_era_rewards
    rental_reward_pool ←
        or_fail (checked_sub total_era_rewards task_reward_pool) arithmetic_overflow
    ok (task_reward_pool, rental_reward_pool)

  pub miner_reward_share : ℕ → ℕ → ℕ → State L → Option ℕ
  unfolding split_era_rewards
  miner_reward_share era_index miner total_era_rewards s =
      elim (split_era_rewards total_era_rewards) [
        | err e ↦ none
        | ok pools ↦
            if (s.era_stats era_index).total_miner_payout == 0
            then none
            else if (s.miner_task_stats era_index miner).0 == 0
            then none
            else elim (checked_mul u128_max pools.0 (s.miner_task_stats era_index miner).0) [
              | none ↦ none
              | some product ↦ some (product / (s.era_stats era_index).total_miner_payout)
            ]
      ]

  unfoldable pub create_task_definition :
      Origin → List ℕ → List ℕ → ℕ → ℕ → ℕ → List ℕ → State L → Result Error (State L)
  create_task_definition origin model_id version input_price output_price max_tokens policy_cid s =
      do
        admin ← ensure_signed bad_origin origin
        guard (leb (length model_id) cfg.max_model_id_len) arithmetic_overflow
        guard (leb (length version) cfg.max_model_id_len) arithmetic_overflow
        guard (leb (length policy_cid) cfg.max_policy_cid_len) arithmetic_overflow
        let task_id = s.next_task_id
        next_task_id ← or_fail (checked_add u64_max task_id 1) arithmetic_overflow
        bounded_model_id ← or_fail (try_into cfg.max_model_id_len model_id) arithmetic_overflow
        bounded_version ← or_fail (try_into cfg.max_model_id_len version) arithmetic_overflow
        bounded_policy_cid ←
            or_fail (try_into cfg.max_policy_cid_len policy_cid) arithmetic_overflow
        ok (record s {
          next_task_id = next_task_id;
          task_definitions = insert s.task_definitions task_id (record {
            model_id = bounded_model_id;
            version = bounded_version;
            admin = admin;
            input_price_usd_per_1k = input_price;
            output_price_usd_per_1k = output_price;
            max_tokens_per_request = max_tokens;
            policy_cid = bounded_policy_cid;
            is_active = true;
          });
          events = task_definition_created task_id admin ∷ s.events;
        })

  pub update_task_definition :
      Origin → ℕ → Option ℕ → Option ℕ → Option ℕ → Option Bool → State L → Result Error (State L)
  update_task_definition origin task_id input_price output_price max_tokens is_active s = do
    who ← ensure_signed bad_origin origin
    def ← or_fail (s.task_definitions task_id) task_definition_not_found
    guard (def.admin == who) not_authorized
    ok (record s {
      task_definitions = insert s.task_definitions task_id (record def {
        input_price_usd_per_1k = or_keep input_price def.input_price_usd_per_1k;
        output_price_usd_per_1k = or_keep output_price def.output_price_usd_per_1k;
        max_tokens_per_request = or_keep max_tokens def.max_tokens_per_request;
        is_active = or_keep is_active def.is_active;
      });
      events = task_definition_updated task_id ∷ s.events;
    })

  -- The order is inserted as pending and then mutated to be in progress; the model writes both.
  pub create_task_order : Origin → ℕ → Oracle → ℕ → ℕ → ℕ → ℕ → State L → Result Error (State L)
  create_task_order origin now oracle task_id miner input_tokens output_tokens s = do
    customer ← ensure_signed bad_origin origin
    task ← or_fail (s.task_definitions task_id) task_definition_not_found
    guard task.is_active task_definition_inactive
    total_tokens ← or_fail (checked_add u64_max input_tokens output_tokens) arithmetic_overflow
    guard (leb total_tokens task.max_tokens_per_request) token_count_exceeds_limit
    dbc_price_snapshot ← or_fail oracle.price price_oracle_unavailable
    usd_value ←
        calculate_order_usd_value input_tokens output_tokens task.input_price_usd_per_1k
          task.output_price_usd_per_1k
    total_dbc_charged ← or_fail (oracle.amount_by_value usd_value) price_oracle_unavailable
    split ← calculate_revenue_split total_dbc_charged
    ledger ← or_fail (currency.reserve customer total_dbc_charged s.ledger) insufficient_balance
    let order_id = s.next_order_id
    next_order_id ← or_fail (checked_add u64_max order_id 1) arithmetic_overflow
    let order : TaskOrder = record {
      order_id = order_id;
      task_id = task_id;
      customer = customer;
      miner = miner;
      input_tokens = input_tokens;
      output_tokens = output_tokens;
      dbc_price_snapshot = dbc_price_snapshot;
      total_dbc_charged = total_dbc_charged;
      dbc_burned = split.0;
      miner_payout = split.1;
      created_at = now;
      status = pending;
      attestation_hash = none;
    }
    ok (record s {
      next_order_id = next_order_id;
      task_orders =
          insert (insert s.task_orders order_id order) order_id
            (record order { status = in_progress });
      ledger = ledger;
      events = task_order_created order_id customer miner total_dbc_charged ∷ s.events;
    })

  pub mark_order_completed : Origin → ℕ → ℕ → State L → Result Error (State L)
  mark_order_completed origin order_id attestation_hash s = do
    who ← ensure_signed bad_origin origin
    order ← or_fail (s.task_orders order_id) task_order_not_found
    guard (who == order.miner) not_authorized
    guard (is_in_progress order.status) invalid_order_status
    ok (record s {
      task_orders =
          insert s.task_orders order_id
            (record order { status = completed; attestation_hash = some attestation_hash });
      events = task_order_completed order_id attestation_hash ∷ s.events;
    })

  -- The statistics of an era after one more settled order.
  abbrev add_stats : TaskOrder → EraTaskStats → EraTaskStats
  add_stats order stats = record {
    total_charged = saturating_add u128_max stats.total_charged order.total_dbc_charged;
    total_burned = saturating_add u128_max stats.total_burned order.dbc_burned;
    total_miner_payout = saturating_add u128_max stats.total_miner_payout order.miner_payout;
    completed_orders = saturating_add u64_max stats.completed_orders 1;
  }

  pub settle_task_order : Origin → ℕ → Option ℕ → State L → Result Error (State L)
  settle_task_order origin order_id attestation_hash s = do
    caller ← ensure_signed bad_origin origin
    order ← or_fail (s.task_orders order_id) task_order_not_found
    guard (is_completed order.status) invalid_order_status
    task ← or_fail (s.task_definitions order.task_id) task_definition_not_found
    guard (caller == order.customer || (caller == order.miner || caller == task.admin))
        not_authorized
    burned ←
        or_fail
          (currency.repatriate_reserved order.customer cfg.treasury_account order.dbc_burned
            s.ledger)
          insufficient_balance
    paid ←
        or_fail
          (currency.repatriate_reserved order.customer order.miner order.miner_payout burned.1)
          insufficient_balance
    let era = block_to_era order.created_at
    let mine = s.miner_task_stats era order.miner
    ok (record s {
      task_orders = insert s.task_orders order_id (record order {
        status = settled;
        attestation_hash = elim attestation_hash [
          | none ↦ order.attestation_hash
          | some hash ↦ some hash
        ];
      });
      era_stats = update s.era_stats era (add_stats order (s.era_stats era));
      miner_task_stats =
          update₂ s.miner_task_stats era order.miner
            (saturating_add u128_max mine.0 order.miner_payout, saturating_add u64_max mine.1 1);
      ledger = paid.1;
      events = task_order_settled order_id order.dbc_burned order.miner_payout ∷ s.events;
    })

  pub cancel_expired_order : Origin → ℕ → ℕ → State L → Result Error (State L)
  cancel_expired_order origin now order_id s = do
    who ← ensure_signed bad_origin origin
    order ← or_fail (s.task_orders order_id) task_order_not_found
    guard (is_cancellable order.status) invalid_order_status
    deadline ← or_fail (checked_add u32_max order.created_at cfg.order_timeout) arithmetic_overflow
    guard (ltb deadline now) order_not_expired
    ok (record s {
      task_orders = insert s.task_orders order_id (record order { status = settled });
      ledger = currency.unreserve order.customer order.total_dbc_charged s.ledger;
      events = task_order_expired order_id order.customer order.total_dbc_charged ∷ s.events;
    })

  -- `TaskBillingProvider::calculate_billing`; the model's name is not read.
  pub calculate_billing : Oracle → ℕ → ℕ → Option ℕ
  calculate_billing oracle input_tokens output_tokens = elim oracle.price [
    | none ↦ none
    | some dbc_price ↦
        if dbc_price == 0 then none else elim (checked_add u64_max input_tokens output_tokens) [
          | none ↦ none
          | some total_tokens ↦ checked_mul u128_max (total_tokens / 1000) dbc_price
        ]
  ]

  pub get_revenue_split : ℕ → ℕ × ℕ
  get_revenue_split total = (percent_mul 15 total, percent_mul 85 total)
