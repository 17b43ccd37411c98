-- ===== src/Scheduler/Scores.antt =====
-- The arithmetic of pallets/compute-pool-scheduler/src/lib.rs: rewards, scores, and the choice of a pool.
use deep_brain_chain.Prelude.{
  ℕ, zero, suc, ◌-◌, ◌*◌, ◌/◌, min, Bool, ◌&&◌, Option, none, some, List, [], ◌∷◌, Result, ok,
  ◌>>=◌, guard, or_fail, leb, ltb, ◌==◌, if◌then◌else◌, insert, u32_max, u128_max, checked_mul,
  saturating_add,
}
use deep_brain_chain.Scheduler.Types.{
  Config, State, ComputePool, TaskDimensions, PoolScore, Error, overflow, no_available_pool,
  invalid_nvlink_efficiency, is_active,
}

unfoldable pub ensure_nvlink : Bool → ℕ → Result Error (Unit {0})
ensure_nvlink has_nvlink nvlink_efficiency =
    if has_nvlink
    then guard (leb 120 nvlink_efficiency && leb nvlink_efficiency 150) invalid_nvlink_efficiency
    else guard (nvlink_efficiency == 100) invalid_nvlink_efficiency

abbrev max : ℕ → ℕ → ℕ
max a b = if leb a b then b else a

unfoldable pub calculate_reward : TaskDimensions → ℕ → Bool → ℕ → Result Error ℕ
calculate_reward dimensions price_per_task has_nvlink nvlink_efficiency = do
  area ← or_fail (checked_mul u128_max dimensions.m dimensions.n) overflow
  complexity ← or_fail (checked_mul u128_max area dimensions.k) overflow
  reward ← or_fail (checked_mul u128_max price_per_task (max 1 (complexity / 1_000_000))) overflow
  if has_nvlink
      then (do
        product ← or_fail (checked_mul u128_max reward nvlink_efficiency) overflow
        ok (product / 100))
      else ok reward

abbrev pub normalized_price_score : ℕ → ℕ → ℕ → ℕ
normalized_price_score price min_price max_price =
    if max_price == min_price
    then 100
    else 100 - min ((price - min_price) * 100) u128_max / (max_price - min_price)

abbrev pub nvlink_score_of : ComputePool → ℕ
nvlink_score_of pool =
    if pool.has_nvlink then min (min pool.nvlink_efficiency 150 * 100) u32_max / 150 else 0

abbrev saturating_mul : ℕ → ℕ → ℕ
saturating_mul a b = min (a * b) u32_max

unfoldable pub calculate_pool_score : ComputePool → ℕ → ℕ → PoolScore
calculate_pool_score pool min_price max_price =
    let reputation_component = saturating_mul (min pool.reputation 100) 40 in
    let success_component = saturating_mul (min pool.success_rate 100) 30 in
    let price_component =
      saturating_mul (normalized_price_score pool.price_per_task min_price max_price) 20 in
    let nvlink_component = saturating_mul (nvlink_score_of pool) 10 in
    record {
      reputation_score = reputation_component;
      success_rate_score = success_component;
      price_score = price_component;
      nvlink_score = nvlink_component;
      final_score =
          saturating_add u32_max
            (saturating_add u32_max (saturating_add u32_max reputation_component success_component)
              price_component)
            nvlink_component;
    }

-- The first entries of the map of pools, in the order in which storage iterates over its keys.
unfoldable pub entries : ℕ → List ℕ → (ℕ → Option ComputePool) → List (ℕ × ComputePool)
entries zero keys pools = []
entries (suc n) [] pools = []
entries (suc n) (id ∷ keys) pools = elim (pools id) [
  | none ↦ entries (suc n) keys pools
  | some pool ↦ (id, pool) ∷ entries n keys pools
]

-- `u128::MAX` and 0 are the starts of the two searches.
unfoldable pub min_price_of : List (ℕ × ComputePool) → ℕ → ℕ
min_price_of [] low = low
min_price_of ((id, pool) ∷ rest) low =
    min_price_of rest (if ltb pool.price_per_task low then pool.price_per_task else low)

unfoldable pub max_price_of : List (ℕ × ComputePool) → ℕ → ℕ
max_price_of [] high = high
max_price_of ((id, pool) ∷ rest) high =
    max_price_of rest (if ltb high pool.price_per_task then pool.price_per_task else high)

-- One round of the search: a later pool replaces the best one only with a higher score.
abbrev better : Option (ℕ × PoolScore) → ℕ → PoolScore → Option (ℕ × PoolScore)
better none id score = some (id, score)
better (some current) id score =
    if leb score.final_score current.1.final_score then some current else some (id, score)

unfoldable pub best_of :
    List (ℕ × ComputePool) → ℕ → ℕ → Option (ℕ × PoolScore) → Option (ℕ × PoolScore)
best_of [] low high best = best
best_of ((id, pool) ∷ rest) low high best =
    best_of rest low high (better best id (calculate_pool_score pool low high))

module _ {W L : Type 0} (cfg : Config W L) where
  -- What a pool must have to be chosen for a task with the dimension `k`.
  abbrev pub is_candidate : ℕ → State W L → ℕ → ComputePool → Bool
  is_candidate k s id pool =
      is_active pool.status
      && (ltb (s.active_task_count id) cfg.max_tasks_per_pool && leb k pool.gpu_memory)

  unfoldable pub candidates : ℕ → State W L → List (ℕ × ComputePool) → List (ℕ × ComputePool)
  candidates k s [] = []
  candidates k s ((id, pool) ∷ rest) =
      let others = candidates k s rest in
      if is_candidate k s id pool then (id, pool) ∷ others else others

  -- `keys` are the pools in the order in which storage iterates over them.
  unfoldable pub select_best_pool_for_task :
      List ℕ → TaskDimensions → State W L → Result Error ((ℕ × PoolScore) × State W L)
  select_best_pool_for_task keys dimensions s = do
    let found = candidates dimensions.k s (entries 50 keys s.pools)
    best ←
        or_fail (best_of found (min_price_of found u128_max) (max_price_of found 0) none)
          no_available_pool
    ok (
      best,
      record s {
        pools = elim (s.pools best.0) [
          | none ↦ s.pools
          | some pool ↦ insert s.pools best.0 (record pool { score = best.1 })
        ];
      },
    )
