-- ===== src/Scheduler/Overturned.antt =====
-- What a dispute of an approved task takes in pallets/compute-pool-scheduler/src/lib.rs.
use deep_brain_chain.Prelude.{
  ℕ, ◌+◌, ◌-◌, min, ◌≡◌, none, some, arith, true, false, ◌==◌, if◌then◌else◌, ltb, Returns,
  saturating_add, u128_max, is_ok,
}
use deep_brain_chain.Frame.Origin.{signed}
use deep_brain_chain.Frame.Currency.{IsLawful, at}
use deep_brain_chain.Scheduler.{
  Config, State, ComputePool, ComputeTask, TaskEscrow, dispute_verification, overturn_approval,
  release_escrow, slash_pool, update_reputation, is_approved, is_terminal,
}

-- An approved task that its user may dispute, its pool, and its escrow, claimed or not.
pub record IsOverturnable {W L : Type 0} (s : State W L) (who id : ℕ) : Type 0 where
  pub task : ComputeTask
  pub pool : ComputePool
  pub escrow : TaskEscrow
  pub has_task : s.tasks id ≡ some task
  pub is_user : (task.user == who) ≡ true
  pub is_done : is_terminal task.status ≡ true
  pub is_first : task.disputed ≡ false
  pub is_good : is_approved task.verification_result ≡ true
  pub has_pool : s.pools task.pool_id ≡ some pool
  pub has_escrow : s.task_escrow id ≡ some escrow

module _ {W L : Type 0} (cfg : Config W L) (lawful : IsLawful cfg.currency) where
  open cfg use {currency}

  -- The slash of a pool.
  abbrev slash_of : ComputePool → ℕ
  slash_of p = if ltb cfg.failure_slash p.deposit_held then cfg.failure_slash else p.deposit_held

  -- The first dispute of an approved task by its user succeeds. Whether the reward was claimed before or
  -- not, it moves the reward and the deposit of the escrow, as far as the user's reserve has them, from
  -- that reserve to the user's free balance, takes the penalty or the deposit of the pool from the
  -- reserve of the pool's owner, gives no one else anything, and removes the escrow.
  pub dispute-unreserves :
      (who id : ℕ) (s : State W L) (d : IsOverturnable s who id)
      → (is_ok (dispute_verification cfg (signed who) id s) ≡ true)
        × Returns (λ t. t.task_escrow id ≡ none) (dispute_verification cfg (signed who) id s)
        × ((a : ℕ)
            → Returns
                (λ t.
                  currency.reserved t.ledger a
                  ≡ currency.reserved s.ledger a
                    - at d.escrow.user
                        (saturating_add u128_max d.escrow.reward_amount d.escrow.task_deposit)
                        a
                    - at d.pool.owner (slash_of d.pool) a)
                (dispute_verification cfg (signed who) id s))
        × ((a : ℕ)
            → Returns
                (λ t.
                  currency.free t.ledger a
                  ≡ currency.free s.ledger a
                    + at d.escrow.user
                        (min
                          (saturating_add u128_max d.escrow.reward_amount d.escrow.task_deposit)
                          (currency.reserved s.ledger d.escrow.user))
                        a)
                (dispute_verification cfg (signed who) id s))
  unfolding dispute_verification overturn_approval update_reputation release_escrow slash_pool
  dispute-unreserves who id s d = (
    ground
        (arith, d.has_task, d.is_user, d.is_done, d.is_first, d.is_good, d.has_pool, d.has_escrow),
    ground
        (arith, d.has_task, d.is_user, d.is_done, d.is_first, d.is_good, d.has_pool, d.has_escrow),
    λ a. ground (
      arith,
      d.has_task,
      d.is_user,
      d.is_done,
      d.is_first,
      d.is_good,
      d.has_pool,
      d.has_escrow,
      lawful.unreserve_reserved d.escrow.user
          (saturating_add u128_max d.escrow.reward_amount d.escrow.task_deposit) a s.ledger,
      lawful.slash_reserved_reserved d.pool.owner (slash_of d.pool) a (
          currency.unreserve d.escrow.user
            (saturating_add u128_max d.escrow.reward_amount d.escrow.task_deposit) s.ledger),
    ),
    λ a. ground (
      arith,
      d.has_task,
      d.is_user,
      d.is_done,
      d.is_first,
      d.is_good,
      d.has_pool,
      d.has_escrow,
      lawful.unreserve_free d.escrow.user
          (saturating_add u128_max d.escrow.reward_amount d.escrow.task_deposit) a s.ledger,
      lawful.slash_reserved_free d.pool.owner (slash_of d.pool) a (
          currency.unreserve d.escrow.user
            (saturating_add u128_max d.escrow.reward_amount d.escrow.task_deposit) s.ledger),
    ),
  )
