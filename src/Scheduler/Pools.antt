-- ===== src/Scheduler/Pools.antt =====
-- The calls on pools and stakes of pallets/compute-pool-scheduler/src/lib.rs keep the reserves in line.
use deep_brain_chain.Prelude.{
  ℕ, ◌<◌, arith, Bool, Option-cases, inl, inr, Returns, List, saturating_add, u128_max,
}
use deep_brain_chain.Frame.Origin.{Origin, root, signed, unsigned}
use deep_brain_chain.Frame.Currency.{IsLawful}
use deep_brain_chain.Frame.Escrow.{held-insert, held-push, held-remove, bound-le-held}
use deep_brain_chain.Scheduler.{
  Config, State, register_pool, update_pool_config, deregister_pool, stake_to_pool,
  unstake_from_pool,
}
use deep_brain_chain.Scheduler.Reserves.{
  IsSafe, Keeps, pool-lt, owed_by_pool, staked_below-update, staked_below-update_above,
  staked_below-suc, Returns-Keeps, IsFresh,
}
use deep_brain_chain.Scheduler.Agreement.{Agrees}

module _ {W L : Type 0} (cfg : Config W L) (lawful : IsLawful cfg.currency) where
  open cfg use {currency}

  pub register-Keeps :
      (o : Origin) (model : List ℕ) (memory : ℕ) (nvlink : Bool) (efficiency price : ℕ)
      (s : State W L)
      → IsFresh s
      → Returns (Keeps cfg s) (register_pool cfg o model memory nvlink efficiency price s)
  unfolding register_pool
  register-Keeps o model memory nvlink efficiency price s f =
      Returns-Keeps cfg s _ (λ k. ground (arith, f.pools k)) (λ k. ground (arith, f.escrows k))
        (λ k a. ground (arith, f.stakes k a))
        (λ a. grind (
          arith,
          lawful.reserve_reserved,
          held-push,
          staked_below-suc s.pool_stakes s.next_pool_id a (f.stakes s.next_pool_id a (omega arith)),
        ))

  pub update_config-Keeps :
      (o : Origin) (id : ℕ) (model : List ℕ) (memory : ℕ) (nvlink : Bool) (efficiency price : ℕ)
      (s : State W L)
      → IsFresh s
      → Returns (Keeps cfg s) (update_pool_config cfg o id model memory nvlink efficiency price s)
  unfolding update_pool_config
  update_config-Keeps o id model memory nvlink efficiency price s f =
      elim (Option-cases (s.pools id)) [
        | inl e ↦ ground arith
        | inr (p, e) ↦
            Returns-Keeps cfg s _ (λ k. ground (arith, f.pools k, pool-lt cfg s id p f e))
              (λ k. ground (arith, f.escrows k)) (λ k a. ground (arith, f.stakes k a))
              (λ a. grind (
                arith,
                pool-lt cfg s id p f e,
                held-insert owed_by_pool s.pools s.next_pool_id id a,
              ))
      ]

  pub deregister-Keeps :
      (o : Origin) (id : ℕ) (s : State W L)
      → IsSafe cfg s
      → Returns (Keeps cfg s) (deregister_pool cfg o id s)
  unfolding deregister_pool
  deregister-Keeps o id s v = elim (Option-cases (s.pools id)) [
    | inl e ↦ ground arith
    | inr (p, e) ↦
        Returns-Keeps cfg s _ (λ k. ground (arith, v.fresh.pools k))
          (λ k. ground (arith, v.fresh.escrows k)) (λ k a. ground (arith, v.fresh.stakes k a))
          (λ a. ground (
            arith,
            v.backed a,
            pool-lt cfg s id p v.fresh e,
            held-remove owed_by_pool s.pools s.next_pool_id id a,
            bound-le-held owed_by_pool s.pools s.next_pool_id id a,
            lawful.unreserve_reserved p.owner p.deposit_held a s.ledger,
          ))
  ]

  pub stake-Keeps :
      (o : Origin) (id amount : ℕ) (s : State W L)
      → IsFresh s
      → Returns (Keeps cfg s) (stake_to_pool cfg o id amount s)
  unfolding stake_to_pool
  stake-Keeps root id amount s f = tt
  stake-Keeps unsigned id amount s f = tt
  stake-Keeps (signed who) id amount s f = elim (Option-cases (s.pools id)) [
    | inl e ↦ ground arith
    | inr (p, e) ↦ elim (Option-cases (currency.reserve who amount s.ledger)) [
      | inl h ↦ ground arith
      | inr (l, h) ↦
          Returns-Keeps cfg s _ (λ k. ground (arith, f.pools k)) (λ k. ground (arith, f.escrows k))
            (λ k a. ground (arith, f.stakes k a, pool-lt cfg s id p f e))
            (λ a. ground (
              arith,
              lawful.reserve_reserved who amount a s.ledger h,
              pool-lt cfg s id p f e,
              staked_below-update s.pool_stakes s.next_pool_id id who
                  (saturating_add u128_max (s.pool_stakes id who) amount) a,
            ))
    ]
  ]

  -- A stake below the next identifier.
  pub stake-lt :
      (s : State W L) (id who : ℕ) → IsFresh s → 0 < s.pool_stakes id who → id < s.next_pool_id
  stake-lt s id who f h = grind (arith, f.stakes id who)

  pub unstake-Keeps :
      (o : Origin) (id amount : ℕ) (s : State W L)
      → IsSafe cfg s
      → Returns (Keeps cfg s) (unstake_from_pool cfg o id amount s)
  unfolding unstake_from_pool
  unstake-Keeps o id amount s v =
      Returns-Keeps cfg s _ (λ k. ground (arith, v.fresh.pools k))
        (λ k. ground (arith, v.fresh.escrows k)) (λ k a. ground (arith, v.fresh.stakes k a))
        (λ a. grind (
          arith,
          v.backed a,
          lawful.unreserve_reserved,
          stake-lt s id,
          λ (who : ℕ) (w : ℕ). staked_below-update s.pool_stakes s.next_pool_id id who w a,
          staked_below-update_above s.pool_stakes s.next_pool_id id,
        ))

module _ {W L : Type 0} (cfg : Config W L) where
  pub register-Agrees :
      (o : Origin) (model : List ℕ) (memory : ℕ) (nvlink : Bool) (efficiency price : ℕ)
      (s : State W L)
      → Agrees s
      → Returns Agrees (register_pool cfg o model memory nvlink efficiency price s)
  unfolding register_pool
  register-Agrees o model memory nvlink efficiency price s v = ground (arith, v)

  pub update_config-Agrees :
      (o : Origin) (id : ℕ) (model : List ℕ) (memory : ℕ) (nvlink : Bool) (efficiency price : ℕ)
      (s : State W L)
      → Agrees s
      → Returns Agrees (update_pool_config cfg o id model memory nvlink efficiency price s)
  unfolding update_pool_config
  update_config-Agrees o id model memory nvlink efficiency price s v = ground (arith, v)

  pub deregister-Agrees :
      (o : Origin) (id : ℕ) (s : State W L) → Agrees s → Returns Agrees (deregister_pool cfg o id s)
  unfolding deregister_pool
  deregister-Agrees o id s v = ground (arith, v)

  pub stake-Agrees :
      (o : Origin) (id amount : ℕ) (s : State W L)
      → Agrees s
      → Returns Agrees (stake_to_pool cfg o id amount s)
  unfolding stake_to_pool
  stake-Agrees o id amount s v = ground (arith, v)

  pub unstake-Agrees :
      (o : Origin) (id amount : ℕ) (s : State W L)
      → Agrees s
      → Returns Agrees (unstake_from_pool cfg o id amount s)
  unfolding unstake_from_pool
  unstake-Agrees o id amount s v = ground (arith, v)
