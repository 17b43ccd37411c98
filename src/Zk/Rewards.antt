-- ===== src/Zk/Rewards.antt =====
-- The arithmetic of pallets/zk-compute/src/lib.rs: the volume of a task and its reward.
use native.Mathlib.Nat.{mul-le-mul}
use deep_brain_chain.Prelude.{
  ℕ, ◌*◌, ◌/◌, ◌≤◌, ◌<◌, ◌≡◌, ◌≢◌, ◌↔◌, some, arith, ok, err, true, leb, if◌then◌else◌, u32_max,
  u128_max,
}
use deep_brain_chain.Zk.{
  Dimensions, ZkTask, arithmetic_overflow, checked_volume, valid_dimensions, calculate_reward,
}

-- Each side of a computation is a `u32`.
abbrev pub IsU32 : Dimensions → Type 0
IsU32 (m, n, k) = (m ≤ u32_max) × (n ≤ u32_max) × (k ≤ u32_max)

abbrev pub volume : Dimensions → ℕ
volume (m, n, k) = m * n * k

area-le : (m n : ℕ) → m ≤ u32_max → n ≤ u32_max → m * n ≤ u32_max * u32_max
area-le m n h k = mul-le-mul h k

volume-le : (d : Dimensions) → IsU32 d → volume d ≤ u32_max * u32_max * u32_max
volume-le (m, n, k) h = mul-le-mul (area-le m n h.0 h.1) h.2

checked_volume-volume : (d : Dimensions) → IsU32 d → checked_volume d ≡ some (volume d)
unfolding checked_volume
checked_volume-volume (m, n, k) h = ground (arith, area-le m n h.0 h.1, volume-le (m, n, k) h)

-- The overflow guard never refuses: dimensions that fit their `u32`s are valid exactly when none of
-- them is zero.
pub valid_dimensions_iff :
    (m n k : ℕ)
    → IsU32 (m, n, k)
    → (valid_dimensions (m, n, k) ≡ true) ↔ ((m ≢ 0) × (n ≢ 0) × (k ≢ 0))
unfolding valid_dimensions
valid_dimensions_iff m n k h = ground (arith, checked_volume-volume (m, n, k) h)

grows : (x y : ℕ) → 0 < y → x ≤ x * y
grows x y h = grind arith

abbrev pub numerator : ZkTask → ℕ
numerator task = task.base_reward * volume task.dimensions * task.multiplier_q100

-- With a positive multiplier, the reward is the base reward times the volume times the multiplier,
-- divided by 10^8 and rounded down, exactly when that product fits a `u128`, and otherwise the
-- overflow error: the checks on the way refuse nothing else.
pub calculate_reward_lem :
    (task : ZkTask)
    → IsU32 task.dimensions
    → 0 < task.multiplier_q100
    → calculate_reward task ≡ (
        if leb (numerator task) u128_max
        then ok (numerator task / 100_000_000)
        else err arithmetic_overflow)
unfolding calculate_reward
calculate_reward_lem task h pos =
    rw (checked_volume-volume task.dimensions h)
      (ground (arith, grows (task.base_reward * volume task.dimensions) task.multiplier_q100 pos))
