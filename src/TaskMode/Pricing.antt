-- ===== src/TaskMode/Pricing.antt =====
-- The arithmetic of pallets/task-mode/src/lib.rs: prices, the revenue split and reward shares.
use native.Mathlib.Nat.{mul-le-mul_right, add-mul, div-le_of_le-mul, mul_comm}
use deep_brain_chain.Prelude.{
  ℕ, ◌<◌, ◌+◌, ◌-◌, ◌*◌, ◌/◌, ◌≤◌, ◌≡◌, some, arith, ok, u64_max, u128_max,
}
use deep_brain_chain.TaskMode.{
  Config, State, IsPercentMul, calculate_order_usd_value, part_usd_value, calculate_revenue_split,
  split_era_rewards, miner_reward_share,
}

-- An order whose exact price, tokens times prices per thousand on both sides, is at most what a `u64`
-- holds never overflows: the value succeeds and lies below the exact price by less than two units.
pub calculate_order_usd_value_lem :
    (input output price_in price_out : ℕ)
    → input * price_in + output * price_out ≤ 1000 * u64_max
    → (v : ℕ) × (calculate_order_usd_value input output price_in price_out ≡ ok v)
      × (1000 * v ≤ input * price_in + output * price_out)
      × (input * price_in + output * price_out < 1000 * v + 2000)
unfolding calculate_order_usd_value part_usd_value
calculate_order_usd_value_lem input output price_in price_out fits =
    (input * price_in / 1000 + output * price_out / 1000, ground arith, omega arith, omega arith)

-- Two shares of at most 100 percent together never exceed the whole, rounding included.
shares-le : (mul : ℕ → ℕ → ℕ) (p q x : ℕ) → IsPercentMul mul → p + q ≤ 100 → mul p x + mul q x ≤ x
shares-le mul p q x h le =
    omega (arith, h.not_above p x, h.not_above q x, mul-le-mul_right x le, add-mul p q x)

product-le : (k m n : ℕ) → m ≤ n → k * m ≤ n * k
product-le k m n le = grind (arith, mul-le-mul_right k le, mul_comm k m)

module _ {L : Type 0} (cfg : Config L) (rounding : IsPercentMul cfg.percent_mul) where
  -- With percentages of at most 100 together, the revenue split succeeds on every `u128` total, and
  -- the burned part and the miner's payout add up to the total.
  pub calculate_revenue_split_lem :
      (total : ℕ)
      → cfg.burn_percentage + cfg.miner_payout_percentage ≤ 100
      → total ≤ u128_max
      → (burned : ℕ) × (payout : ℕ) × (calculate_revenue_split cfg total ≡ ok (burned, payout))
        × (burned + payout ≡ total)
        × (cfg.percent_mul cfg.miner_payout_percentage total ≤ payout)
  unfolding calculate_revenue_split
  calculate_revenue_split_lem total le fits =
      let burned = cfg.percent_mul cfg.burn_percentage total in
      let whole =
        shares-le cfg.percent_mul cfg.burn_percentage cfg.miner_payout_percentage total rounding
          le in
      (burned, total - burned, ground (arith, whole), ground (arith, whole), ground (arith, whole))

module _ {L : Type 0} (cfg : Config L) where
  -- What a miner is assigned of an era's rewards never exceeds the pool for task rewards, when the
  -- miner's settled payouts are within those of the era.
  pub miner_reward_share-le :
      (era miner total : ℕ) (s : State L)
      → (s.miner_task_stats era miner).0 ≤ (s.era_stats era).total_miner_payout
      → (share : ℕ) → miner_reward_share cfg era miner total s ≡ some share
      → share ≤ cfg.percent_mul cfg.task_mode_reward_percentage total
  unfolding miner_reward_share split_era_rewards
  miner_reward_share-le era miner total s within share e =
      let pool = cfg.percent_mul cfg.task_mode_reward_percentage total in
      ground (
        arith,
        div-le_of_le-mul ((s.era_stats era).total_miner_payout)
            {m = pool * (s.miner_task_stats era miner).0} {n = pool}
            (product-le pool (s.miner_task_stats era miner).0 (s.era_stats era).total_miner_payout
              within),
      )
