-- ===== src/Scheduler/Endings.antt =====
-- What the end of a task does to the reserves behind pools, escrows and stakes: the functions of
-- pallets/compute-pool-scheduler/src/lib.rs that finish a verification, fail a task and slash a pool.
use deep_brain_chain.Prelude.{
  ℕ, ◌-◌, ◌≤◌, ◌≡◌, refl, Option, some, arith, Bool, true, false, ◌==◌, if◌then◌else◌, ltb,
  Option-cases, Bool-cases, inl, inr, insert, List, ok, err,
}
use deep_brain_chain.Frame.Currency.{IsLawful}
use deep_brain_chain.Frame.Completion.{ReleasesNothing}
use deep_brain_chain.Frame.Escrow.{held-insert, bound-le-held}
use deep_brain_chain.Scheduler.{
  Config, State, ComputePool, ComputeTask, update_reputation, decrement_pool_activity,
  release_escrow, slash_pool, record_result, offer_reward, settle_result, finalize_verification,
  mark_task_failed, is_terminal, and_then, Outcome, failed, Event,
}
use deep_brain_chain.Scheduler.Reserves.{
  owed_by_pool, IsFresh, IsSafe, Keeps, Keeps-IsSafe, Keeps-trans, Keeps-refl, pool-lt, IsUnclaimed,
  update_reputation-Keeps, decrement-Keeps, record_result-Keeps, offer_reward-Keeps, notify-Keeps,
  release_escrow-Keeps,
}

module _ {W L : Type 0} (cfg : Config W L) (lawful : IsLawful cfg.currency) where
  open cfg use {currency}

  -- A slash that the deposit covers takes the whole amount, since the reserve holds the deposit.
  pub unslashed_zero :
      (s : State W L) (id v : ℕ) (p : ComputePool)
      → IsSafe cfg s
      → s.pools id ≡ some p
      → v ≤ p.deposit_held
      → currency.unslashed p.owner v s.ledger ≡ 0
  unslashed_zero s id v p safe e h = ground (
    arith,
    lawful.slash_reserved_unslashed p.owner v s.ledger,
    safe.backed p.owner,
    pool-lt cfg s id p safe.fresh e,
    bound-le-held owed_by_pool s.pools s.next_pool_id id p.owner,
  )

  slash-Keeps :
      (s : State W L) (id v : ℕ) (p q : ComputePool) (events : List Event)
      → IsSafe cfg s
      → s.pools id ≡ some p
      → v ≤ p.deposit_held
      → q.owner ≡ p.owner
      → q.deposit_held ≡ p.deposit_held - v
      → Keeps cfg s (record s {
        ledger = currency.slash_reserved p.owner v s.ledger;
        pools = insert s.pools id q;
        events = events;
      })
  slash-Keeps s id v p q events safe e h same_owner less = record {
    fresh = record {
      pools = λ k l. ground (arith, safe.fresh.pools k l, pool-lt cfg s id p safe.fresh e);
      escrows = safe.fresh.escrows;
      stakes = safe.fresh.stakes;
    };
    covers = λ a. ground (
      arith,
      safe.backed a,
      pool-lt cfg s id p safe.fresh e,
      held-insert owed_by_pool s.pools s.next_pool_id id a q,
      bound-le-held owed_by_pool s.pools s.next_pool_id id a,
      lawful.slash_reserved_reserved p.owner v a s.ledger,
    );
  }

  abbrev amount_of : ComputePool → ℕ
  amount_of p = if ltb cfg.failure_slash p.deposit_held then cfg.failure_slash else p.deposit_held

  amount-le : (p : ComputePool) → amount_of p ≤ p.deposit_held
  amount-le p = ground arith

  pub slash_pool-Keeps :
      (id : ℕ) (s : State W L) → IsSafe cfg s → Keeps cfg s (slash_pool cfg id s).1
  unfolding slash_pool
  slash_pool-Keeps id s safe = elim (Option-cases (s.pools id)) [
    | inl e ↦ rw (e, slash_pool) (Keeps-refl cfg s safe.fresh)
    | inr (p, e) ↦ elim (Bool-cases (p.deposit_held == 0)) [
      | inl z ↦ rw (e, z, slash_pool) (Keeps-refl cfg s safe.fresh)
      | inr z ↦
          rw (e, z, slash_pool)
            (slash-Keeps s id (amount_of p) p _ _ safe e (amount-le p) refl
              (rw (unslashed_zero s id (amount_of p) p safe e (amount-le p)) (omega arith)))
    ]
  ]

  -- A step after a step.
  pub after-Keeps :
      (s t u : State W L)
      → IsSafe cfg s
      → Keeps cfg s t
      → (IsSafe cfg t → Keeps cfg t u)
      → Keeps cfg s u
  after-Keeps s t u v k next = Keeps-trans cfg s t u k (next (Keeps-IsSafe cfg s t v k))

  -- The bookkeeping before the end of a task leaves the escrows as they are.
  pub update_reputation-escrows :
      (id : ℕ) (b : Bool) (s : State W L)
      → (update_reputation cfg id b s).task_escrow ≡ s.task_escrow
  unfolding update_reputation
  update_reputation-escrows id b s = elim (Option-cases (s.pools id)) [
    | inl e ↦ rw (e, update_reputation) refl
    | inr (p, e) ↦ rw (e, update_reputation) refl
  ]

  pub book-Keeps :
      (pool id : ℕ) (b : Bool) (s t : State W L) (at_times : ℕ → Option ℕ)
      → IsSafe cfg s
      → Keeps cfg s t
      → Keeps cfg s (record (update_reputation cfg pool b (decrement_pool_activity cfg pool id t)) {
        proof_submitted_at = at_times;
      })
  book-Keeps pool id b s t at_times v k =
      let done =
        update_reputation-Keeps cfg pool b (decrement_pool_activity cfg pool id t)
          (decrement-Keeps cfg pool id t k.fresh).fresh in
      let all =
        Keeps-trans cfg s t _ k
          (Keeps-trans cfg t _ _ (decrement-Keeps cfg pool id t k.fresh) done) in
      record {
        fresh = record {
          pools = all.fresh.pools;
          escrows = all.fresh.escrows;
          stakes = all.fresh.stakes;
        };
        covers = all.covers;
      }

  -- Release and slash, on which failures end.
  pub release_and_slash-Keeps :
      (pool id : ℕ) (s : State W L)
      → IsSafe cfg s
      → IsUnclaimed (s.task_escrow id)
      → Keeps cfg s (slash_pool cfg pool (release_escrow cfg id s)).1
  release_and_slash-Keeps pool id s v u =
      after-Keeps s (release_escrow cfg id s) _ v (release_escrow-Keeps cfg lawful id s v u)
        (slash_pool-Keeps pool (release_escrow cfg id s))

  pub and_then-Keeps :
      (s : State W L) (m : Outcome W L) (f : State W L → Outcome W L)
      → Keeps cfg s m.1
      → ((t : State W L) → IsFresh t → Keeps cfg t (f t).1)
      → Keeps cfg s (and_then m f).1
  and_then-Keeps s (ok u, t) f k next = Keeps-trans cfg s t _ k (next t k.fresh)
  and_then-Keeps s (err e, t) f k next = k

  module _ (quiet : ReleasesNothing currency cfg.on_task_completed) where
    settle_result-Keeps :
        (now id pool : ℕ) (task : ComputeTask) (hash : ℕ) (b : Bool) (s : State W L)
        → IsSafe cfg s
        → (b ≡ false → IsUnclaimed (s.task_escrow id))
        → Keeps cfg s (settle_result cfg now id pool task hash b s).1
    unfolding settle_result
    settle_result-Keeps now id pool task hash true s v u =
        let offered = offer_reward-Keeps cfg id task.reward_amount s v.fresh in
        elim (Option-cases ((offer_reward cfg id task.reward_amount s).pools task.pool_id)) [
          | inl e ↦ rw (e, settle_result) offered
          | inr (p, e) ↦
              rw (e, settle_result)
                (Keeps-trans cfg s _ _ offered
                  (notify-Keeps cfg quiet now id hash p _ offered.fresh))
        ]
    settle_result-Keeps now id pool task hash false s v u =
        release_and_slash-Keeps pool id s v (u refl)

    -- A rejection gives the escrow of the task back; an approval does not touch it.
    pub finalize-Keeps :
        (now id pool : ℕ) (b : Bool) (s : State W L)
        → IsSafe cfg s
        → (b ≡ false → IsUnclaimed (s.task_escrow id))
        → Keeps cfg s (finalize_verification cfg now id pool b s).1
    unfolding finalize_verification decrement_pool_activity record_result
    finalize-Keeps now id pool b s v u = elim (Option-cases (s.tasks id)) [
      | inl e ↦ rw (e, finalize_verification) (Keeps-refl cfg s v.fresh)
      | inr (task, e) ↦ elim (Option-cases task.proof_hash) [
        | inl h ↦ rw (e, h, finalize_verification) (Keeps-refl cfg s v.fresh)
        | inr (hash, h) ↦
            let recorded = record_result cfg id task b s in
            rw (e, h, finalize_verification)
              (after-Keeps s _ _ v
                (book-Keeps pool id b s recorded _ v (record_result-Keeps cfg id task b s v.fresh))
                (λ safe. settle_result-Keeps now id pool task hash b _ safe (λ rejected.
                  rw
                    (update_reputation-escrows pool b
                      (decrement_pool_activity cfg pool id recorded))
                    (u rejected))))
      ]
    ]

  -- A task that runs out of time gives its escrow back.
  pub mark_failed-Keeps :
      (id : ℕ) (timed_out : Bool) (s : State W L)
      → IsSafe cfg s
      → ((task : ComputeTask)
          → s.tasks id ≡ some task
          → is_terminal task.status ≡ false
          → IsUnclaimed (s.task_escrow id))
      → Keeps cfg s (mark_task_failed cfg id timed_out s).1
  unfolding mark_task_failed decrement_pool_activity
  mark_failed-Keeps id timed_out s v u = elim (Option-cases (s.tasks id)) [
    | inl e ↦ rw (e, mark_task_failed) (Keeps-refl cfg s v.fresh)
    | inr (task, e) ↦ elim (Bool-cases (is_terminal task.status)) [
      | inl t ↦ rw (e, t, mark_task_failed) (Keeps-refl cfg s v.fresh)
      | inr t ↦
          let marked = record s {
            tasks =
                insert s.tasks id
                  (record task { status = failed; verification_result = some false });
          } in
          rw (e, t, mark_task_failed)
            (and_then-Keeps s _ _
              (after-Keeps s _ _ v
                (book-Keeps task.pool_id id false s marked _ v (record {
                  fresh = record {
                    pools = v.fresh.pools;
                    escrows = v.fresh.escrows;
                    stakes = v.fresh.stakes;
                  };
                  covers = λ a. omega arith;
                }))
                (λ safe. release_and_slash-Keeps task.pool_id id _ safe (
                  rw
                    (update_reputation-escrows task.pool_id false
                      (decrement_pool_activity cfg task.pool_id id marked))
                    (u task e t))))
              (λ r f. record {
                fresh = record { pools = f.pools; escrows = f.escrows; stakes = f.stakes };
                covers = λ a. omega arith;
              }))
    ]
  ]
