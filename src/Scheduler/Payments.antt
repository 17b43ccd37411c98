-- ===== src/Scheduler/Payments.antt =====
-- Who is paid by the claims of pallets/compute-pool-scheduler/src/lib.rs, and what deposits and stakes give back.
use deep_brain_chain.Prelude.{
  ℕ, ◌+◌, ◌-◌, ◌≤◌, ◌≡◌, some, arith, true, false, ◌==◌, Option-cases, inl, inr, update, update₂,
  ◌∷◌, ok, u128_max,
}
use deep_brain_chain.Frame.Origin.{signed}
use deep_brain_chain.Frame.Currency.{IsLawful, at}
use deep_brain_chain.Frame.Escrow.{bound-le-held}
use deep_brain_chain.Scheduler.{
  Config, State, ComputePool, ComputeTask, TaskEscrow, claim_reward, stake_to_pool,
  unstake_from_pool, is_completed, is_approved, unstaked,
}
use deep_brain_chain.Scheduler.Reserves.{owed_by_escrow, escrow-lt}
use deep_brain_chain.Scheduler.Claims.{IsValid, claimed}

-- What a claim needs of the state: an approved task, its pool with the claimant as owner, an offered
-- reward and an escrow that nobody claimed.
pub record IsClaimable {W L : Type 0} (s : State W L) (who id : ℕ) : Type 0 where
  pub task : ComputeTask
  pub pool : ComputePool
  pub escrow : TaskEscrow
  pub reward : ℕ
  pub has_task : s.tasks id ≡ some task
  pub is_done : is_completed task.status ≡ true
  pub is_good : is_approved task.verification_result ≡ true
  pub has_pool : s.pools task.pool_id ≡ some pool
  pub is_owner : (pool.owner == who) ≡ true
  pub has_reward : s.rewards id ≡ some reward
  pub has_escrow : s.task_escrow id ≡ some escrow
  pub is_open : escrow.claimed ≡ false

module _ {W L : Type 0} (cfg : Config W L) (lawful : IsLawful cfg.currency) where
  open cfg use {currency}

  -- A claimant is paid the escrowed reward out of the user's reserve, and the user's deposit is free again.
  pub record IsClaimed (id who : ℕ) (x : TaskEscrow) (s t : State W L) : Type 0 where
    pub marked : t.task_escrow id ≡ some (record x { claimed = true })
    pub reserves :
        (a : ℕ)
        → currency.reserved t.ledger a + at x.user (x.reward_amount + x.task_deposit) a
          ≡ currency.reserved s.ledger a
    pub balances :
        (a : ℕ)
        → currency.free t.ledger a
          ≡ currency.free s.ledger a + (at who x.reward_amount a + at x.user x.task_deposit a)

  -- In a valid state the user's reserve holds the whole escrow.
  escrow-le-reserved :
      (id : ℕ) (t : ComputeTask) (x : TaskEscrow) (s : State W L)
      → IsValid cfg s
      → s.tasks id ≡ some t
      → s.task_escrow id ≡ some x
      → x.claimed ≡ false
      → x.reward_amount + x.task_deposit ≤ currency.reserved s.ledger x.user
  escrow-le-reserved id t x s v e f c = ground (
    arith,
    v.safe.backed x.user,
    v.agrees.linked id,
    escrow-lt cfg s id x v.safe.fresh f,
    bound-le-held owed_by_escrow s.task_escrow s.next_task_id id x.user,
  )

  -- In a valid state and with a lawful currency, a claim that its state allows succeeds, unless the
  -- currency refuses the transfer as such; it pays the owner of the pool the whole reward out of the
  -- user's reserve, gives the user the deposit back and marks the escrow.
  pub claim-IsClaimed :
      (who id : ℕ) (s : State W L) (rest : ℕ) (l : L)
      → IsValid cfg s
      → (c : IsClaimable s who id)
      → currency.repatriate_reserved c.escrow.user who c.reward s.ledger ≡ some (rest, l)
      → (t : State W L) × ((claim_reward cfg (signed who) id s ≡ ok t)
          × IsClaimed id who c.escrow s t)
  unfolding claim_reward
  claim-IsClaimed who id s rest l v c paid =
      let whole = escrow-le-reserved id c.task c.escrow s v c.has_task c.has_escrow c.is_open in
      let same : c.reward ≡ c.escrow.reward_amount =
        ground (arith, v.agrees.linked id, c.has_task, c.has_escrow, c.has_reward) in
      let moved : (rest == 0) ≡ true =
        ground
          (arith, whole, same, lawful.repatriate_rest c.escrow.user who c.reward s.ledger paid) in
      (
        claimed cfg lawful id who c.reward c.escrow l s,
        (
          ground (
            arith, c.has_task, c.is_done, c.is_good, c.has_pool, c.is_owner, c.has_reward,
            c.has_escrow, c.is_open, moved,
          ),
          record {
            marked = ground arith;
            reserves = λ a. ground (
              arith,
              whole,
              same,
              lawful.repatriate_reserved_reserved c.escrow.user who c.reward a s.ledger paid,
              lawful.unreserve_reserved c.escrow.user c.escrow.task_deposit a l,
            );
            balances = λ a. ground (
              arith,
              whole,
              same,
              lawful.repatriate_reserved_free c.escrow.user who c.reward a s.ledger paid,
              lawful.repatriate_reserved_reserved c.escrow.user who c.reward c.escrow.user s.ledger
                  paid,
              lawful.unreserve_free c.escrow.user c.escrow.task_deposit a l,
            );
          },
        ),
      )

  pub record IsRestored (s u : State W L) : Type 0 where
    pub reserves : (a : ℕ) → currency.reserved u.ledger a ≡ currency.reserved s.ledger a
    pub balances : (a : ℕ) → currency.free u.ledger a ≡ currency.free s.ledger a
    pub stakes : (k a : ℕ) → u.pool_stakes k a ≡ s.pool_stakes k a
    pub totals : (k : ℕ) → u.total_pool_stake k ≡ s.total_pool_stake k

  abbrev withdrawn : ℕ → ℕ → ℕ → State W L → State W L
  withdrawn who id amount t = record t {
    ledger = currency.unreserve who amount t.ledger;
    pool_stakes = update₂ t.pool_stakes id who (t.pool_stakes id who - amount);
    total_pool_stake = update t.total_pool_stake id (t.total_pool_stake id - amount);
    events = unstaked who id amount ∷ t.events;
  }

  -- A stake that succeeds, on an amount that the counters of the type hold, and its withdrawal: the
  -- withdrawal succeeds, and the reserves, the free balances, the stake and the pool's total are what
  -- they were before.
  pub unstake-stake :
      (who id amount : ℕ) (s t : State W L)
      → s.pool_stakes id who + amount ≤ u128_max
      → s.total_pool_stake id + amount ≤ u128_max
      → stake_to_pool cfg (signed who) id amount s ≡ ok t
      → (u : State W L) × (unstake_from_pool cfg (signed who) id amount t ≡ ok u) × IsRestored s u
  unfolding stake_to_pool unstake_from_pool
  unstake-stake who id amount s t small small_total e =
      elim (Option-cases (currency.reserve who amount s.ledger)) [
        | inl h ↦ absurd (ground arith)
        | inr (l, h) ↦ (
          withdrawn who id amount t,
          ground arith,
          record {
            reserves = λ a. ground (
              arith,
              lawful.reserve_reserved who amount a s.ledger h,
              lawful.unreserve_reserved who amount a l,
            );
            balances = λ a. ground (
              arith,
              lawful.reserve_reserved who amount who s.ledger h,
              lawful.reserve_free who amount a s.ledger h,
              lawful.unreserve_free who amount a l,
            );
            stakes = λ k a. ground arith;
            totals = λ k. ground arith;
          },
        )
      ]
