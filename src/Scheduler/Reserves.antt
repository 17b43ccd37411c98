-- ===== src/Scheduler/Reserves.antt =====
-- The reserves behind pools, escrows and stakes of pallets/compute-pool-scheduler/src/lib.rs, and what
-- the functions that end a task do to them.
use native.Mathlib.Numerals.{add-one}
use deep_brain_chain.Prelude.{
  ℕ, zero, suc, ◌+◌, ◌≤◌, ◌<◌, ◌≡◌, refl, Option, none, some, arith, Bool, false, ◌==◌,
  if◌then◌else◌, saturating_add, u128_max, Option-cases, Bool-cases, inl, inr, update₂, insert, [],
  Returns, Result, ok, err,
}
use deep_brain_chain.Frame.Currency.{IsLawful, at}
use deep_brain_chain.Frame.Completion.{ReleasesNothing}
use deep_brain_chain.Frame.Escrow.{held, held-insert, held-remove, bound-le-held}
use deep_brain_chain.Scheduler.{
  Config, State, ComputePool, ComputeTask, ReputationInfo, TaskEscrow, update_reputation,
  decrement_pool_activity, release_escrow, record_result, offer_reward, notify_completed, rated,
}

-- A pool binds its deposit at its owner; an escrow binds the reward and the deposit at the user, until it
-- is claimed.
abbrev pub owed_by_pool : ComputePool → ℕ → ℕ
owed_by_pool pool a = at pool.owner pool.deposit_held a

abbrev pub owed_by_escrow : TaskEscrow → ℕ → ℕ
owed_by_escrow e a =
    if e.claimed then 0 else at e.user (saturating_add u128_max e.reward_amount e.task_deposit) a

abbrev pub IsUnclaimed : Option TaskEscrow → Type 0
IsUnclaimed none = Unit
IsUnclaimed (some e) = e.claimed ≡ false

-- The stakes of an account on the pools below `n`.
pub staked_below : (ℕ → ℕ → ℕ) → ℕ → ℕ → ℕ
staked_below stakes zero a = 0
staked_below stakes (suc n) a = staked_below stakes n a + stakes n a

abbrev pub held_by : {W L : Type 0} → State W L → ℕ → ℕ
held_by s a =
    held owed_by_pool s.pools s.next_pool_id a
    + (held owed_by_escrow s.task_escrow s.next_task_id a
        + staked_below s.pool_stakes s.next_pool_id a)

pub record IsFresh {W L : Type 0} (s : State W L) : Type 0 where
  pub pools : (k : ℕ) → s.next_pool_id ≤ k → s.pools k ≡ none
  pub escrows : (k : ℕ) → s.next_task_id ≤ k → s.task_escrow k ≡ none
  pub stakes : (k a : ℕ) → s.next_pool_id ≤ k → s.pool_stakes k a ≡ 0

pub staked_below-update_above :
    (stakes : ℕ → ℕ → ℕ) (n k who v a : ℕ)
    → n ≤ k
    → staked_below (update₂ stakes k who v) n a ≡ staked_below stakes n a
unfolding staked_below
staked_below-update_above stakes zero k who v a h = refl
staked_below-update_above stakes (suc n) k who v a h =
    ground (arith, staked_below-update_above stakes n k who v a)

pub staked_below-update :
    (stakes : ℕ → ℕ → ℕ) (n k who v a : ℕ)
    → k < n
    → staked_below (update₂ stakes k who v) n a + at who (stakes k who) a
      ≡ staked_below stakes n a + at who v a
unfolding staked_below
staked_below-update stakes zero k who v a h = elim h [ ]
staked_below-update stakes (suc n) k who v a h = elim (Bool-cases (n == k)) [
  | inl e ↦ ground (arith, staked_below-update_above stakes n k who v a)
  | inr e ↦ ground (arith, staked_below-update stakes n k who v a)
]

pub staked_below-suc :
    (stakes : ℕ → ℕ → ℕ) (n a : ℕ)
    → stakes n a ≡ 0
    → staked_below stakes (n + 1) a ≡ staked_below stakes n a
unfolding staked_below
staked_below-suc stakes n a e = rw add-one (ground arith)

pub staked_below-zero : (stakes : ℕ → ℕ → ℕ) (a : ℕ) → staked_below stakes 0 a ≡ 0
unfolding staked_below
staked_below-zero stakes a = refl

module _ {W L : Type 0} (cfg : Config W L) where
  open cfg use {currency}

  abbrev pub IsBacked : State W L → Type 0
  IsBacked s = (a : ℕ) → held_by s a ≤ currency.reserved s.ledger a

  -- What an account's reserve loses is bound no more.
  abbrev pub Covers : State W L → State W L → ℕ → Type 0
  Covers s t a =
      currency.reserved s.ledger a + held_by t a ≤ currency.reserved t.ledger a + held_by s a

  pub record IsSafe (s : State W L) : Type 0 where
    pub fresh : IsFresh s
    pub backed : IsBacked s

  pub record Keeps (s t : State W L) : Type 0 where
    pub fresh : IsFresh t
    pub covers : (a : ℕ) → Covers s t a

  pub Keeps-IsSafe : (s t : State W L) → IsSafe s → Keeps s t → IsSafe t
  Keeps-IsSafe s t v k = record {
    fresh = k.fresh;
    backed = λ a. omega (arith, v.backed a, k.covers a);
  }

  pub Keeps-trans : (s t u : State W L) → Keeps s t → Keeps t u → Keeps s u
  Keeps-trans s t u p q = record {
    fresh = q.fresh;
    covers = λ a. omega (arith, p.covers a, q.covers a);
  }

  -- What does not touch pools, escrows, stakes and the ledger.
  pub Keeps-refl : (s : State W L) → IsFresh s → Keeps s s
  Keeps-refl s f = record { fresh = f; covers = λ a. omega arith }

  pub pool-lt :
      (s : State W L) (k : ℕ) (p : ComputePool)
      → IsFresh s
      → s.pools k ≡ some p
      → k < s.next_pool_id
  pool-lt s k p f e = grind (arith, f.pools k)

  pub escrow-lt :
      (s : State W L) (k : ℕ) (x : TaskEscrow)
      → IsFresh s
      → s.task_escrow k ≡ some x
      → k < s.next_task_id
  escrow-lt s k x f e = grind (arith, f.escrows k)

  -- A pool is written again, with the owner and the deposit that it had.
  pub rewrite_pool-Keeps :
      (s : State W L) (id : ℕ) (p q : ComputePool) (rep : ℕ → ReputationInfo)
      → IsFresh s
      → s.pools id ≡ some p
      → q.owner ≡ p.owner
      → q.deposit_held ≡ p.deposit_held
      → Keeps s (record s { pools = insert s.pools id q; miner_reputation = rep })
  rewrite_pool-Keeps s id p q rep f e same_owner same_deposit = record {
    fresh = record {
      pools = λ k h. ground (arith, f.pools k h, pool-lt s id p f e);
      escrows = f.escrows;
      stakes = f.stakes;
    };
    covers = λ a.
        ground (arith, pool-lt s id p f e, held-insert owed_by_pool s.pools s.next_pool_id id a q);
  }

  pub update_reputation-Keeps :
      (id : ℕ) (b : Bool) (s : State W L) → IsFresh s → Keeps s (update_reputation cfg id b s)
  unfolding update_reputation
  update_reputation-Keeps id b s f = elim (Option-cases (s.pools id)) [
    | inl e ↦ rw (e, update_reputation) (Keeps-refl s f)
    | inr (p, e) ↦ rw (e, update_reputation) (rewrite_pool-Keeps s id p (rated b p) _ f e refl refl)
  ]

  pub decrement-Keeps :
      (pool task : ℕ) (s : State W L)
      → IsFresh s
      → Keeps s (decrement_pool_activity cfg pool task s)
  unfolding decrement_pool_activity
  decrement-Keeps pool task s f = record {
    fresh = record { pools = f.pools; escrows = f.escrows; stakes = f.stakes };
    covers = λ a. omega arith;
  }

  pub record_result-Keeps :
      (id : ℕ) (task : ComputeTask) (b : Bool) (s : State W L)
      → IsFresh s
      → Keeps s (record_result cfg id task b s)
  unfolding record_result
  record_result-Keeps id task b s f = record {
    fresh = record { pools = f.pools; escrows = f.escrows; stakes = f.stakes };
    covers = λ a. omega arith;
  }

  pub offer_reward-Keeps :
      (id : ℕ) (amount : Option ℕ) (s : State W L)
      → IsFresh s
      → Keeps s (offer_reward cfg id amount s)
  unfolding offer_reward
  offer_reward-Keeps id none s f = Keeps-refl s f
  offer_reward-Keeps id (some v) s f = record {
    fresh = record { pools = f.pools; escrows = f.escrows; stakes = f.stakes };
    covers = λ a. omega arith;
  }

  pub notify-Keeps :
      ReleasesNothing currency cfg.on_task_completed
      → (now id hash : ℕ) (pool : ComputePool) (s : State W L) → IsFresh s
      → Keeps s (notify_completed cfg now id hash pool s)
  unfolding notify_completed
  notify-Keeps quiet now id hash pool s f = record {
    fresh = record { pools = f.pools; escrows = f.escrows; stakes = f.stakes };
    covers = λ a. omega (arith, quiet now pool.owner id hash [] 0 0 a s.handler s.ledger);
  }

  -- A call whose successful results keep each entry and cover each account.
  pub Returns-Keeps :
      {E : Type 0} (s : State W L) (m : Result E (State W L))
      → ((k : ℕ) → Returns (λ t. t.next_pool_id ≤ k → t.pools k ≡ none) m)
      → ((k : ℕ) → Returns (λ t. t.next_task_id ≤ k → t.task_escrow k ≡ none) m)
      → ((k a : ℕ) → Returns (λ t. t.next_pool_id ≤ k → t.pool_stakes k a ≡ 0) m)
      → ((a : ℕ) → Returns (λ t. Covers s t a) m)
      → Returns (Keeps s) m
  Returns-Keeps s (ok t) p e st c = record {
    fresh = record { pools = p; escrows = e; stakes = st };
    covers = c;
  }
  Returns-Keeps s (err x) p e st c = tt

  module _ (lawful : IsLawful currency) where
    -- The escrow of the task is given back, if nobody claimed it.
    pub release_escrow-Keeps :
        (id : ℕ) (s : State W L)
        → IsSafe s
        → IsUnclaimed (s.task_escrow id)
        → Keeps s (release_escrow cfg id s)
    unfolding release_escrow
    release_escrow-Keeps id s v open_escrow = elim (Option-cases (s.task_escrow id)) [
      | inl e ↦
          rw (e, release_escrow)
            (record {
              fresh = record {
                pools = v.fresh.pools;
                escrows = v.fresh.escrows;
                stakes = v.fresh.stakes;
              };
              covers = λ a. omega arith;
            })
      | inr (x, e) ↦
          rw (e, release_escrow)
            (record {
              fresh = record {
                pools = v.fresh.pools;
                escrows = λ k h. ground (arith, v.fresh.escrows k h);
                stakes = v.fresh.stakes;
              };
              covers = λ a. ground (
                arith,
                v.backed a,
                bound-le-held owed_by_escrow s.task_escrow s.next_task_id id a,
                held-remove owed_by_escrow s.task_escrow s.next_task_id id a,
                escrow-lt s id x v.fresh e,
                lawful.unreserve_reserved x.user
                    (saturating_add u128_max x.reward_amount x.task_deposit) a s.ledger,
              );
            })
    ]
