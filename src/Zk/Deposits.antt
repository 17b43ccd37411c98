-- ===== src/Zk/Deposits.antt =====
-- The deposits and the bookkeeping of pallets/zk-compute/src/lib.rs: reserves, queue and counts agree
-- with the tasks.
use deep_brain_chain.Prelude.{
  ℕ, ◌≤◌, ◌<◌, ◌≡◌, some, none, Option, arith, Returns, not, ◌&&◌, ◌||◌, List, if◌then◌else◌,
  u32_max,
}
use deep_brain_chain.Frame.Origin.{Origin}
use deep_brain_chain.Frame.Currency.{IsLawful, at}
use deep_brain_chain.Frame.Escrow.{held, held-push}
use deep_brain_chain.Zk.{Config, State, ZkTask, Dimensions, is_pending, is_verified, submit_proof}
use deep_brain_chain.Zk.Removal.{count, count-append_one}

-- A deposit stays reserved while the task is pending, and until the reward is claimed.
abbrev pub owed : ZkTask → ℕ → ℕ
owed t a =
    if is_pending t.status || (is_verified t.status && not t.reward_claimed)
    then at t.miner t.submission_deposit a
    else 0

-- Counts the pending tasks of a miner.
abbrev pub waits : ZkTask → ℕ → ℕ
waits t a = if is_pending t.status then at t.miner 1 a else 0

abbrev pub is_open : Option ZkTask → ℕ
is_open none = 0
is_open (some t) = if is_pending t.status then 1 else 0

module _ {L : Type 0} (cfg : Config L) where
  open cfg use {currency}

  pub record IsValid (s : State L) : Type 0 where
    pub fresh : (k : ℕ) → s.next_task_id ≤ k → s.tasks k ≡ none
    pub backed : (a : ℕ) → held owed s.tasks s.next_task_id a ≤ currency.reserved s.ledger a
    pub queued : (k : ℕ) → count k s.pending_tasks ≡ is_open (s.tasks k)
    pub counted : (a : ℕ) → held waits s.tasks s.next_task_id a ≡ s.miner_pending_count a
    pub limited : (a : ℕ) → s.miner_pending_count a ≤ cfg.max_pending_per_miner

pub lt_of_some :
    {L : Type 0} (cfg : Config L) (s : State L) (k : ℕ) (t : ZkTask)
    → IsValid cfg s
    → s.tasks k ≡ some t
    → k < s.next_task_id
lt_of_some cfg s k t v e = grind (arith, v.fresh k)

module _ {L : Type 0} (cfg : Config L) (lawful : IsLawful cfg.currency) where
  open cfg use {currency}

  pub submit-fresh :
      (o : Origin) (now : ℕ) (p : List ℕ) (d : Dimensions) (q n : ℕ) (s : State L) (k : ℕ)
      → IsValid cfg s
      → Returns (λ t. t.next_task_id ≤ k → t.tasks k ≡ none) (submit_proof cfg o now p d q n s)
  unfolding submit_proof
  submit-fresh o now p d q n s k v = grind (arith, v.fresh k)

  pub submit-backed :
      (o : Origin) (now : ℕ) (p : List ℕ) (d : Dimensions) (q n : ℕ) (s : State L) (a : ℕ)
      → IsValid cfg s
      → Returns
          (λ t. held owed t.tasks t.next_task_id a ≤ currency.reserved t.ledger a)
          (submit_proof cfg o now p d q n s)
  unfolding submit_proof
  submit-backed o now p d q n s a v = grind (arith, v.backed a, lawful.reserve_reserved, held-push)

  pub submit-queued :
      (o : Origin) (now : ℕ) (p : List ℕ) (d : Dimensions) (q n : ℕ) (s : State L) (k : ℕ)
      → IsValid cfg s
      → Returns
          (λ t. count k t.pending_tasks ≡ is_open (t.tasks k))
          (submit_proof cfg o now p d q n s)
  unfolding submit_proof
  submit-queued o now p d q n s k v =
      grind (arith, v.queued k, v.fresh k, count-append_one k s.next_task_id s.pending_tasks)

  pub submit-counted :
      (o : Origin) (now : ℕ) (p : List ℕ) (d : Dimensions) (q n : ℕ) (s : State L) (a : ℕ)
      → cfg.max_pending_per_miner ≤ u32_max
      → IsValid cfg s
      → Returns
          (λ t. held waits t.tasks t.next_task_id a ≡ t.miner_pending_count a)
          (submit_proof cfg o now p d q n s)
  unfolding submit_proof
  submit-counted o now p d q n s a small v = grind (arith, v.counted a, held-push)

  pub submit-limited :
      (o : Origin) (now : ℕ) (p : List ℕ) (d : Dimensions) (q n : ℕ) (s : State L) (a : ℕ)
      → cfg.max_pending_per_miner ≤ u32_max
      → IsValid cfg s
      → Returns
          (λ t. t.miner_pending_count a ≤ cfg.max_pending_per_miner)
          (submit_proof cfg o now p d q n s)
  unfolding submit_proof
  submit-limited o now p d q n s a small v = grind (arith, v.limited a)
