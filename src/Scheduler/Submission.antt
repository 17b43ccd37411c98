-- ===== src/Scheduler/Submission.antt =====
-- Submission of tasks in pallets/compute-pool-scheduler/src/lib.rs keeps the pallet valid.
use deep_brain_chain.Prelude.{
  ℕ, ◌<◌, ◌≡◌, refl, Option, none, some, arith, Option-cases, inl, inr, insert, Returns, u128_max,
  List, of_Returns, Returns-bind,
}
use deep_brain_chain.Frame.Origin.{Origin, root, signed, unsigned}
use deep_brain_chain.Frame.Currency.{Currency, IsLawful}
use deep_brain_chain.Frame.Escrow.{held-push}
use deep_brain_chain.Scheduler.{
  Config, State, ComputePool, TaskDimensions, TaskPriority, PoolScore, submit_task, choose_pool,
  preferred_pool, assign_task, select_best_pool_for_task, calculate_pool_score, best_of, candidates,
  entries, min_price_of, max_price_of,
}
use deep_brain_chain.Scheduler.Reserves.{IsFresh, Keeps, rewrite_pool-Keeps, Returns-Keeps}
use deep_brain_chain.Scheduler.Agreement.{Agrees, Returns-Agrees}
use deep_brain_chain.Scheduler.Claims.{IsValid, Keeps-IsValid, Returns-IsValid}

-- No account can reserve the largest number of the type, since the whole issuance is one such number.
abbrev pub IsCapped : {L : Type 0} → Currency L → Type 0
IsCapped {L} c = (who v : ℕ) (l l' : L) → c.reserve who v l ≡ some l' → v < u128_max

module _ {W L : Type 0} (cfg : Config W L) (lawful : IsLawful cfg.currency) where
  open cfg use {currency}

  -- A pool is chosen: its score is written.
  scored-IsValid :
      (id : ℕ) (p : ComputePool) (score : PoolScore) (s : State W L)
      → IsValid cfg s
      → s.pools id ≡ some p
      → IsValid cfg (record s { pools = insert s.pools id (record p { score = score }) })
  scored-IsValid id p score s v e =
      Keeps-IsValid cfg lawful s _ v
        (rewrite_pool-Keeps cfg s id p (record p { score = score }) s.miner_reputation v.safe.fresh
          e refl refl)
        v.agrees

  select-IsValid :
      (keys : List ℕ) (d : TaskDimensions) (s : State W L)
      → IsValid cfg s
      → Returns (λ r. IsValid cfg r.1) (select_best_pool_for_task cfg keys d s)
  unfolding select_best_pool_for_task
  select-IsValid keys d s v =
      let found = candidates cfg d.k s (entries 50 keys s.pools) in
      elim (Option-cases
        (best_of found (min_price_of found u128_max) (max_price_of found 0) none)) [
          | inl b ↦ rw (b, select_best_pool_for_task) tt
          | inr (best, b) ↦ elim (Option-cases (s.pools best.0)) [
            | inl e ↦ rw (b, e, select_best_pool_for_task) v
            | inr (p, e) ↦
                rw (b, e, select_best_pool_for_task) (scored-IsValid best.0 p best.1 s v e)
          ]
        ]

  choose-IsValid :
      (keys : List ℕ) (d : TaskDimensions) (preferred : Option ℕ) (s : State W L)
      → IsValid cfg s
      → Returns (λ r. IsValid cfg r.1) (choose_pool cfg keys d preferred s)
  unfolding choose_pool preferred_pool
  choose-IsValid keys d none s v = select-IsValid keys d s v
  choose-IsValid keys d (some id) s v = elim (Option-cases (s.pools id)) [
    | inl e ↦ ground arith
    | inr (p, e) ↦ ground (
      arith,
      scored-IsValid id p (calculate_pool_score p p.price_per_task p.price_per_task) s v e,
    )
  ]

  assign-Keeps :
      (user now : ℕ) (d : TaskDimensions) (priority : TaskPriority) (chosen : ℕ × PoolScore)
      (s : State W L)
      → IsFresh s
      → Returns (Keeps cfg s) (assign_task cfg user now d priority chosen s)
  unfolding assign_task
  assign-Keeps user now d priority chosen s f =
      Returns-Keeps cfg s _ (λ k. ground (arith, f.pools k)) (λ k. ground (arith, f.escrows k))
        (λ k a. ground (arith, f.stakes k a))
        (λ a. grind (arith, lawful.reserve_reserved, held-push))

  assign-Agrees :
      IsCapped currency
      → (user now : ℕ) (d : TaskDimensions) (priority : TaskPriority) (chosen : ℕ × PoolScore)
        (s : State W L)
      → Agrees s
      → Returns Agrees (assign_task cfg user now d priority chosen s)
  unfolding assign_task
  assign-Agrees capped user now d priority chosen s v =
      Returns-Agrees _ (λ k. ground (arith, v.new_tasks k)) (λ k. ground (arith, v.new_rewards k))
        (λ k. grind (arith, v.linked k, v.new_tasks, v.new_rewards, capped))

  pub submit-IsValid :
      IsCapped currency
      → (o : Origin) (now : ℕ) (keys : List ℕ) (d : TaskDimensions) (priority : TaskPriority)
        (preferred : Option ℕ) (s : State W L)
      → IsValid cfg s
      → Returns (IsValid cfg) (submit_task cfg o now keys d priority preferred s)
  unfolding submit_task
  submit-IsValid capped root now keys d priority preferred s v = tt
  submit-IsValid capped unsigned now keys d priority preferred s v = tt
  submit-IsValid capped (signed who) now keys d priority preferred s v = ground (
    arith,
    Returns-bind (IsValid cfg) (choose_pool cfg keys d preferred s)
        (λ r. assign_task cfg who now d priority r.0 r.1)
        (λ r e.
          assigned-IsValid capped who now d priority r.0 r.1
            (of_Returns _ _ (choose-IsValid keys d preferred s v) e)),
  )
    where
      assigned-IsValid :
          IsCapped currency
          → (user now : ℕ) (d : TaskDimensions) (priority : TaskPriority) (chosen : ℕ × PoolScore)
            (t : State W L)
          → IsValid cfg t
          → Returns (IsValid cfg) (assign_task cfg user now d priority chosen t)
      assigned-IsValid capped user now d priority chosen t v =
          Returns-IsValid cfg lawful t _ v (assign-Keeps user now d priority chosen t v.safe.fresh)
            (assign-Agrees capped user now d priority chosen t v.agrees)
