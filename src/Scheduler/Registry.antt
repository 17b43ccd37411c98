-- ===== src/Scheduler/Registry.antt =====
-- Registration and stakes of the pools of pallets/compute-pool-scheduler/src/lib.rs.
use deep_brain_chain.Prelude.{
  ℕ, ◌-◌, min, Bool, not, List, [], ◌∷◌, Result, ok, ◌>>=◌, ◌>>◌, guard, or_fail, insert, remove,
  update, update₂, is_some, leb, ltb, ◌==◌, u64_max, u128_max, checked_add, saturating_add,
}
use deep_brain_chain.Frame.Origin.{Origin, ensure_signed}
use deep_brain_chain.Scheduler.Types.{
  active, ComputePool, Config, pool_registered, pool_config_updated, pool_deregistered, staked,
  unstaked, Error, bad_origin, pool_already_exists, pool_not_found, not_pool_owner, pool_inactive,
  invalid_dimensions, active_tasks_exist, insufficient_balance, arithmetic_overflow,
  stake_not_found, State, is_deregistered,
}
use deep_brain_chain.Scheduler.Scores.{ensure_nvlink}

abbrev pub new_pool : ℕ → ℕ → List ℕ → ℕ → Bool → ℕ → ℕ → ℕ → ℕ → ComputePool
new_pool id owner gpu_model gpu_memory has_nvlink nvlink_efficiency price reputation deposit =
    record {
      pool_id = id;
      owner = owner;
      gpu_model = gpu_model;
      gpu_memory = gpu_memory;
      has_nvlink = has_nvlink;
      nvlink_efficiency = nvlink_efficiency;
      price_per_task = price;
      reputation = reputation;
      success_rate = 100;
      total_tasks = 0;
      completed_tasks = 0;
      failed_tasks = 0;
      status = active;
      deposit_held = deposit;
      score = record {
        reputation_score = 0;
        success_rate_score = 0;
        price_score = 0;
        nvlink_score = 0;
        final_score = 0;
      };
    }

module _ {W L : Type 0} (cfg : Config W L) where
  open cfg use {currency}

  unfoldable pub register_pool :
      Origin → List ℕ → ℕ → Bool → ℕ → ℕ → State W L → Result Error (State W L)
  register_pool origin gpu_model gpu_memory has_nvlink nvlink_efficiency price_per_task s = do
    owner ← ensure_signed bad_origin origin
    guard (not (is_some (s.pool_by_owner owner))) pool_already_exists
    guard (ltb 0 gpu_memory) invalid_dimensions
    guard (not (price_per_task == 0)) insufficient_balance
    ensure_nvlink has_nvlink nvlink_efficiency
    ledger ← or_fail (currency.reserve owner cfg.pool_deposit s.ledger) insufficient_balance
    let pool_id = s.next_pool_id
    let reputation = min cfg.initial_reputation 100
    next_pool_id ← or_fail (checked_add u64_max pool_id 1) arithmetic_overflow
    ok (record s {
      pools = insert s.pools pool_id (
          new_pool pool_id owner gpu_model gpu_memory has_nvlink nvlink_efficiency price_per_task
            reputation cfg.pool_deposit);
      pool_by_owner = insert s.pool_by_owner owner pool_id;
      miner_reputation = update s.miner_reputation owner (record {
        reputation = reputation;
        total_tasks = 0;
        successful_tasks = 0;
        failed_tasks = 0;
      });
      active_task_count = update s.active_task_count pool_id 0;
      next_pool_id = next_pool_id;
      ledger = ledger;
      events = pool_registered pool_id owner ∷ s.events;
    })

  unfoldable pub update_pool_config :
      Origin → ℕ → List ℕ → ℕ → Bool → ℕ → ℕ → State W L → Result Error (State W L)
  update_pool_config origin pool_id gpu_model gpu_memory has_nvlink nvlink_efficiency price s = do
    sender ← ensure_signed bad_origin origin
    guard (ltb 0 gpu_memory) invalid_dimensions
    guard (not (price == 0)) insufficient_balance
    ensure_nvlink has_nvlink nvlink_efficiency
    pool ← or_fail (s.pools pool_id) pool_not_found
    guard (pool.owner == sender) not_pool_owner
    guard (not (is_deregistered pool.status)) pool_inactive
    ok (record s {
      pools = insert s.pools pool_id (record pool {
        gpu_model = gpu_model;
        gpu_memory = gpu_memory;
        has_nvlink = has_nvlink;
        nvlink_efficiency = nvlink_efficiency;
        price_per_task = price;
      });
      events = pool_config_updated pool_id ∷ s.events;
    })

  unfoldable pub deregister_pool : Origin → ℕ → State W L → Result Error (State W L)
  deregister_pool origin pool_id s = do
    sender ← ensure_signed bad_origin origin
    pool ← or_fail (s.pools pool_id) pool_not_found
    guard (pool.owner == sender) not_pool_owner
    guard (s.active_task_count pool_id == 0) active_tasks_exist
    ok (record s {
      pools = remove s.pools pool_id;
      pool_tasks = update s.pool_tasks pool_id [];
      active_task_count = update s.active_task_count pool_id 0;
      pool_by_owner = remove s.pool_by_owner pool.owner;
      ledger = currency.unreserve pool.owner pool.deposit_held s.ledger;
      events = pool_deregistered pool_id pool.owner ∷ s.events;
    })

  unfoldable pub stake_to_pool : Origin → ℕ → ℕ → State W L → Result Error (State W L)
  stake_to_pool origin pool_id amount s = do
    who ← ensure_signed bad_origin origin
    guard (is_some (s.pools pool_id)) pool_not_found
    ledger ← or_fail (currency.reserve who amount s.ledger) insufficient_balance
    ok (record s {
      ledger = ledger;
      pool_stakes =
          update₂ s.pool_stakes pool_id who
            (saturating_add u128_max (s.pool_stakes pool_id who) amount);
      total_pool_stake =
          update s.total_pool_stake pool_id
            (saturating_add u128_max (s.total_pool_stake pool_id) amount);
      events = staked who pool_id amount ∷ s.events;
    })

  unfoldable pub unstake_from_pool : Origin → ℕ → ℕ → State W L → Result Error (State W L)
  unstake_from_pool origin pool_id amount s = do
    who ← ensure_signed bad_origin origin
    let current_stake = s.pool_stakes pool_id who
    guard (leb amount current_stake) stake_not_found
    ok (record s {
      ledger = currency.unreserve who amount s.ledger;
      pool_stakes = update₂ s.pool_stakes pool_id who (current_stake - amount);
      total_pool_stake = update s.total_pool_stake pool_id (s.total_pool_stake pool_id - amount);
      events = unstaked who pool_id amount ∷ s.events;
    })
