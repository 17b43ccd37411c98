-- ===== src/Zk/Claims.antt =====
-- What a claimed reward of pallets/zk-compute/src/lib.rs pays, and that it is paid once.
use deep_brain_chain.Prelude.{
  ℕ, Result-cases, ◌+◌, ◌≤◌, ◌≡◌, some, none, Option, arith, ok, Bool, true, false, Option-cases,
  inl, inr,
}
use deep_brain_chain.Frame.Origin.{signed}
use deep_brain_chain.Frame.Currency.{IsLawful, at, allow_death}
use deep_brain_chain.Frame.Escrow.{bound-le-held}
use deep_brain_chain.Zk.{Config, State, ZkTask, verified, claim_reward, calculate_reward}
use deep_brain_chain.Zk.Deposits.{owed, IsValid, lt_of_some}

abbrev pub is_claimed : Option ZkTask → Bool
is_claimed none = false
is_claimed (some t) = t.reward_claimed

module _ {L : Type 0} (cfg : Config L) where
  open cfg use {currency}

  -- A claimed reward: the pallet's account pays the computed reward to the miner, and the deposit
  -- moves back from the miner's reserve, in full.
  pub record IsRewarded (id reward : ℕ) (task : ZkTask) (s t : State L) : Type 0 where
    pub free :
        (a : ℕ)
        → currency.free t.ledger a + at cfg.account_id reward a
          ≡ currency.free s.ledger a
            + at task.miner reward a
            + at task.miner task.submission_deposit a
    pub reserved :
        (a : ℕ)
        → currency.reserved t.ledger a + at task.miner task.submission_deposit a
          ≡ currency.reserved s.ledger a
    pub marked : t.tasks id ≡ some (record task { reward_claimed = true })

  deposit_reserved :
      (s : State L) (id : ℕ) (task : ZkTask)
      → IsValid cfg s
      → s.tasks id ≡ some task
      → task.status ≡ verified
      → task.reward_claimed ≡ false
      → task.submission_deposit ≤ currency.reserved s.ledger task.miner
  deposit_reserved s id task v e w c = ground (
    arith,
    v.backed task.miner,
    lt_of_some cfg s id task v e,
    bound-le-held owed s.tasks s.next_task_id id task.miner,
  )

  -- A claim that succeeds from a valid state was made by the miner of a verified, unclaimed task,
  -- and pays the computed reward and the whole deposit.
  pub claim-IsRewarded :
      (lawful : IsLawful currency) (who id : ℕ) (s t : State L) (task : ZkTask)
      → IsValid cfg s
      → s.tasks id ≡ some task
      → claim_reward cfg (signed who) id s ≡ ok t
      → (reward : ℕ) × (who ≡ task.miner)
        × (task.status ≡ verified)
        × (task.reward_claimed ≡ false)
        × (calculate_reward task ≡ ok reward)
        × IsRewarded id reward task s t
  unfolding claim_reward
  claim-IsRewarded lawful who id s t task v e h = elim (Result-cases (calculate_reward task)) [
    | inl (x, overflow) ↦ absurd (ground arith)
    | inr (reward, computed) ↦
        elim (Option-cases
          (currency.transfer cfg.account_id task.miner reward allow_death s.ledger)) [
            | inl stuck ↦ absurd (ground arith)
            | inr (l, moved) ↦ (
              reward,
              ground arith,
              ground arith,
              ground arith,
              computed,
              record {
                free = λ a. ground (
                  arith,
                  deposit_reserved s id task v e,
                  lawful.transfer_free cfg.account_id task.miner reward a allow_death s.ledger
                      moved,
                  lawful.transfer_reserved cfg.account_id task.miner reward task.miner allow_death
                      s.ledger moved,
                  lawful.unreserve_free task.miner task.submission_deposit a l,
                );
                reserved = λ a. ground (
                  arith,
                  deposit_reserved s id task v e,
                  lawful.transfer_reserved cfg.account_id task.miner reward a allow_death s.ledger
                      moved,
                  lawful.unreserve_reserved task.miner task.submission_deposit a l,
                );
                marked = ground arith;
              },
            )
          ]
  ]
