-- ===== src/Scheduler/Ranking.antt =====
-- The scores of pallets/compute-pool-scheduler/src/lib.rs and the pool that they choose.
use native.Mathlib.Nat.{mul-add}
use mathlib.Core.List.{Memᴰ}
use deep_brain_chain.Prelude.{
  sym, ap, ◌∙◌, ℕ, ◌+◌, ◌-◌, ◌*◌, ◌/◌, ◌≤◌, ◌≡◌, refl, Option, none, some, arith, Bool, true,
  if◌then◌else◌, Option-cases, Bool-cases, inl, inr, ok, leb, Returns, List, [], ◌∷◌, u128_max, ◌⊎◌,
  zero, suc,
}
use deep_brain_chain.Scheduler.{
  Config, State, ComputePool, TaskDimensions, PoolScore, calculate_pool_score, calculate_reward,
  ensure_nvlink, best_of, candidates, entries, is_candidate, select_best_pool_for_task,
  min_price_of, max_price_of,
}

-- A score is the sum of its four parts, at most 4000, 3000, 2000 and 1000: no multiplication or addition
-- saturates, and the whole is at most 10000.
pub calculate_pool_score-le :
    (p : ComputePool) (low high : ℕ)
    → let r = calculate_pool_score p low high in
      (r.final_score ≡ r.reputation_score + r.success_rate_score + r.price_score + r.nvlink_score)
      × (r.reputation_score ≤ 4000)
      × (r.success_rate_score ≤ 3000)
      × (r.price_score ≤ 2000)
      × (r.nvlink_score ≤ 1000)
unfolding calculate_pool_score
calculate_pool_score-le p low high =
    (ground arith, ground arith, ground arith, ground arith, ground arith)

pub mul-ge : (a b : ℕ) → 1 ≤ b → a ≤ a * b
mul-ge a zero h = elim h [ ]
mul-ge a (suc b) h = omega arith

abbrev max_of : ℕ → ℕ → ℕ
max_of a b = if leb a b then b else a

-- A whole percentage from 100 on takes nothing away.
percent-ge : (a e : ℕ) → 100 ≤ e → a ≤ a * e / 100
percent-ge a e h =
    let whole : a * 100 + a * (e - 100) ≡ a * e =
      sym (mul-add a 100 (e - 100)) ∙ ap (λ x. a * x) (omega arith) in
    omega (arith, whole)

-- With an efficiency that registration accepts, a task earns at least the pool's price.
pub calculate_reward-ge :
    (d : TaskDimensions) (price efficiency : ℕ) (nvlink : Bool)
    → ensure_nvlink nvlink efficiency ≡ ok tt
    → Returns (λ r. price ≤ r) (calculate_reward d price nvlink efficiency)
unfolding calculate_reward ensure_nvlink
calculate_reward-ge d price efficiency nvlink h =
    let base = price * max_of 1 (d.m * d.n * d.k / 1_000_000) in
    ground
      (arith, mul-ge price (max_of 1 (d.m * d.n * d.k / 1_000_000)), percent-ge base efficiency)

abbrev score_of : ℕ → ℕ → ComputePool → ℕ
score_of low high p = (calculate_pool_score p low high).final_score

-- No entry of the list has a higher score.
abbrev pub IsTop : ℕ → ℕ → List (ℕ × ComputePool) → ℕ → Type 0
IsTop low high xs v = (id : ℕ) (p : ComputePool) → Memᴰ (id, p) xs → score_of low high p ≤ v

-- The identifier and the score of an entry.
abbrev pub IsEntry : ℕ → ℕ → List (ℕ × ComputePool) → ℕ × PoolScore → Type 0
IsEntry low high xs r =
    (p : ComputePool) × Memᴰ (r.0, p) xs × (r.1 ≡ calculate_pool_score p low high)

IsTop-cons :
    (low high v id : ℕ) (p : ComputePool) (xs : List (ℕ × ComputePool))
    → score_of low high p ≤ v
    → IsTop low high xs v
    → IsTop low high ((id, p) ∷ xs) v
IsTop-cons low high v id p xs h all j q (Memᴰ.head e) = rw (ap (λ (x : ℕ × ComputePool). x.1) e) h
IsTop-cons low high v id p xs h all j q (Memᴰ.tail m) = all j q m

best_of-some :
    (xs : List (ℕ × ComputePool)) (low high : ℕ) (b : ℕ × PoolScore)
    → (r : ℕ × PoolScore) × (best_of xs low high (some b) ≡ some r)
      × (b.1.final_score ≤ r.1.final_score)
      × IsTop low high xs r.1.final_score
      × ((r ≡ b) ⊎ IsEntry low high xs r)
unfolding best_of
best_of-some [] low high b = (b, refl, omega arith, λ id p m. elim m [ ], inl refl)
best_of-some ((id, p) ∷ rest) low high b =
    let new = calculate_pool_score p low high in
    elim (Bool-cases (leb new.final_score b.1.final_score)) [
      | inl h ↦
          let (r, e, ge, all, from) = best_of-some rest low high b in
          (
            r,
            rw h e,
            ge,
            IsTop-cons low high r.1.final_score id p rest (ground arith) all,
            elim from [ inl q ↦ inl q | inr (q, m, f) ↦ inr (q, Memᴰ.tail m, f) ],
          )
      | inr h ↦
          let (r, e, ge, all, from) = best_of-some rest low high (id, new) in
          (
            r,
            rw h e,
            ground arith,
            IsTop-cons low high r.1.final_score id p rest ge all,
            inr (elim from [
              | inl q ↦ rw q (p, Memᴰ.head refl, refl)
              | inr (q, m, f) ↦ (q, Memᴰ.tail m, f)
            ]),
          )
    ]

-- The search of a list with an entry finds one of the highest score.
best_of-IsTop :
    (xs : List (ℕ × ComputePool)) (low high : ℕ) (r : ℕ × PoolScore)
    → best_of xs low high none ≡ some r
    → IsEntry low high xs r × IsTop low high xs r.1.final_score
unfolding best_of
best_of-IsTop [] low high r e = absurd (ground arith)
best_of-IsTop ((id, p) ∷ rest) low high r e =
    let (q, f, ge, all, from) = best_of-some rest low high (id, calculate_pool_score p low high) in
    let same : q ≡ r = ground (arith, e, f) in
    rw (← same) (
      elim from [ inl g ↦ rw g (p, Memᴰ.head refl, refl) | inr (p', m, g) ↦ (p', Memᴰ.tail m, g) ],
      IsTop-cons low high q.1.final_score id p rest ge all,
    )

entries-some :
    (n : ℕ) (keys : List ℕ) (pools : ℕ → Option ComputePool) (id : ℕ) (p : ComputePool)
    → Memᴰ (id, p) (entries n keys pools)
    → pools id ≡ some p
unfolding entries
entries-some zero keys pools id p m = elim m [ ]
entries-some (suc n) [] pools id p m = elim m [ ]
entries-some (suc n) (k ∷ keys) pools id p m = elim (Option-cases (pools k)) [
  | inl h ↦ entries-some (suc n) keys pools id p (rw (h, entries) at m)
  | inr (q, h) ↦ elim (rw (h, entries) at m) [
    | Memᴰ.head e ↦ rw (ap (λ (x : ℕ × ComputePool). x.0) e, ap (λ (x : ℕ × ComputePool). x.1) e) h
    | Memᴰ.tail r ↦ entries-some n keys pools id p r
  ]
]

module _ {W L : Type 0} (cfg : Config W L) where
  candidates-is_candidate :
      (k : ℕ) (s : State W L) (xs : List (ℕ × ComputePool)) (id : ℕ) (p : ComputePool)
      → Memᴰ (id, p) (candidates cfg k s xs)
      → Memᴰ (id, p) xs × (is_candidate cfg k s id p ≡ true)
  unfolding candidates
  candidates-is_candidate k s [] id p m = elim m [ ]
  candidates-is_candidate k s ((j, q) ∷ rest) id p m =
      elim (Bool-cases (is_candidate cfg k s j q)) [
        | inl h ↦ elim (rw h at m) [
          | Memᴰ.head e ↦ (
            Memᴰ.head e,
            rw (ap (λ (x : ℕ × ComputePool). x.0) e, ap (λ (x : ℕ × ComputePool). x.1) e) h,
          )
          | Memᴰ.tail r ↦ let (n, c) = candidates-is_candidate k s rest id p r in (Memᴰ.tail n, c)
        ]
        | inr h ↦ let (n, c) = candidates-is_candidate k s rest id p (rw h at m) in (Memᴰ.tail n, c)
      ]

  -- The pools among which a task's pool is chosen.
  abbrev pub choices : List ℕ → TaskDimensions → State W L → List (ℕ × ComputePool)
  choices keys d s = candidates cfg d.k s (entries 50 keys s.pools)

  -- An automatic choice that succeeds takes a registered pool that is active, below its limit of tasks
  -- and large enough, gives it its score, and no pool that could have been chosen has a higher one.
  pub select-IsBest :
      (keys : List ℕ) (d : TaskDimensions) (s t : State W L) (chosen : ℕ × PoolScore)
      → select_best_pool_for_task cfg keys d s ≡ ok (chosen, t)
      → let found = choices keys d s in
        let low = min_price_of found u128_max in
        let high = max_price_of found 0 in
        (p : ComputePool) × (s.pools chosen.0 ≡ some p)
        × (is_candidate cfg d.k s chosen.0 p ≡ true)
        × (chosen.1 ≡ calculate_pool_score p low high)
        × (t.pools chosen.0 ≡ some (record p { score = chosen.1 }))
        × IsTop low high found chosen.1.final_score
  unfolding select_best_pool_for_task
  select-IsBest keys d s t chosen e =
      let found = choices keys d s in
      let low = min_price_of found u128_max in
      let high = max_price_of found 0 in
      elim (Option-cases (best_of found low high none)) [
        | inl b ↦ absurd (ground (arith, e, b))
        | inr (r, b) ↦
            let same : r ≡ chosen = ground (arith, e, b) in
            let ((p, m, score), top) = best_of-IsTop found low high r b in
            let (n, c) = candidates-is_candidate d.k s (entries 50 keys s.pools) r.0 p m in
            let stored = entries-some 50 keys s.pools r.0 p n in
            rw (← same) (p, stored, c, score, ground (arith, e, b, stored), top)
      ]
