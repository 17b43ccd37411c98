-- ===== src/Scheduler/Disputes.antt =====
-- Disputes in pallets/compute-pool-scheduler/src/lib.rs, while the escrow of the task is unclaimed.
use deep_brain_chain.Prelude.{
  ℕ, ◌≡◌, refl, Option, some, arith, Bool, true, false, if◌then◌else◌, Option-cases, inl, inr,
  insert, ok, err, Returns, ◌∷◌, Result, ◌>>=◌,
}
use deep_brain_chain.Frame.Origin.{Origin, root, signed, unsigned}
use deep_brain_chain.Frame.Currency.{IsLawful}
use deep_brain_chain.Scheduler.{
  Config, State, ComputeTask, dispute_verification, Outcome, commit, and_then, update_reputation,
  release_escrow, slash_pool, offer_reward, overturn_approval, overturn_rejection, completed,
  failed, Event, verification_disputed, Error,
}
use deep_brain_chain.Scheduler.Reserves.{
  IsFresh, Keeps, Keeps-trans, IsUnclaimed, update_reputation-Keeps, offer_reward-Keeps,
}
use deep_brain_chain.Scheduler.Endings.{
  release_and_slash-Keeps, after-Keeps, update_reputation-escrows,
}
use deep_brain_chain.Scheduler.Links.{rewrite_task-IsLinked}
use deep_brain_chain.Scheduler.Agreement.{
  release_and_slash-Agrees, update_reputation-Agrees, offer_reward-Agrees,
}
use deep_brain_chain.Scheduler.Claims.{IsValid, Keeps-IsValid, commit-IsValid}

module _ {W L : Type 0} (cfg : Config W L) (lawful : IsLawful cfg.currency) where
  -- The task as its dispute leaves it.
  abbrev overturned_task : Bool → ComputeTask → ComputeTask
  overturned_task result t = record t {
    status = if result then completed else failed;
    verification_result = some result;
    disputed = true;
  }

  abbrev overturned : ℕ → Bool → ComputeTask → State W L → State W L
  overturned id result t s = record s { tasks = insert s.tasks id (overturned_task result t) }

  -- What writes tasks and events only.
  same_reserves-Keeps :
      (s : State W L) (tasks : ℕ → Option ComputeTask)
      → IsFresh s
      → Keeps cfg s (record s { tasks = tasks })
  same_reserves-Keeps s tasks f = record {
    fresh = record { pools = f.pools; escrows = f.escrows; stakes = f.stakes };
    covers = λ a. omega arith;
  }

  pub emit-IsValid :
      (e : Event) (s : State W L) → IsValid cfg s → IsValid cfg (record s { events = e ∷ s.events })
  emit-IsValid e s v = record {
    safe = record {
      fresh = record {
        pools = v.safe.fresh.pools;
        escrows = v.safe.fresh.escrows;
        stakes = v.safe.fresh.stakes;
      };
      backed = v.safe.backed;
    };
    agrees = v.agrees;
  }

  Returns-emit :
      (m : Result Error (State W L)) (e : Event)
      → Returns (IsValid cfg) m
      → Returns (IsValid cfg) (m >>= λ t. ok (record t { events = e ∷ t.events }))
  Returns-emit (ok t) e v = emit-IsValid e t v
  Returns-emit (err x) e v = tt

  and_then-IsValid :
      (m : Outcome W L) (f : State W L → Outcome W L)
      → IsValid cfg m.1
      → ((t : State W L) → IsValid cfg t → IsValid cfg (f t).1)
      → IsValid cfg (and_then m f).1
  and_then-IsValid (ok u, t) f v next = next t v
  and_then-IsValid (err e, t) f v next = v

  overturn_approval-IsValid :
      (id : ℕ) (t : ComputeTask) (s : State W L)
      → IsValid cfg s
      → s.tasks id ≡ some t
      → IsUnclaimed (s.task_escrow id)
      → IsValid cfg (overturn_approval cfg id t s).1
  unfolding overturn_approval
  overturn_approval-IsValid id t s v e u =
      let written = overturned id false t s in
      let marked = same_reserves-Keeps s written.tasks v.safe.fresh in
      let rated = update_reputation cfg t.pool_id false written in
      and_then-IsValid (slash_pool cfg t.pool_id (release_escrow cfg id rated)) _
        (Keeps-IsValid cfg lawful s _ v
          (after-Keeps cfg lawful s rated _ v.safe
            (Keeps-trans cfg s written rated marked
              (update_reputation-Keeps cfg t.pool_id false written marked.fresh))
            (λ safe.
              release_and_slash-Keeps cfg lawful t.pool_id id rated safe
                (rw (update_reputation-escrows cfg lawful t.pool_id false written) u)))
          (release_and_slash-Agrees cfg t.pool_id id rated (
            update_reputation-Agrees cfg t.pool_id false written
              (rewrite_task-IsLinked id t _ v.agrees e refl (λ h. refl)))))
        (λ r w. emit-IsValid _ r w)

  overturn_rejection-IsValid :
      (id : ℕ) (t : ComputeTask) (s : State W L)
      → IsValid cfg s
      → s.tasks id ≡ some t
      → IsValid cfg (overturn_rejection cfg id t s)
  unfolding overturn_rejection
  overturn_rejection-IsValid id t s v e =
      let written = overturned id true t s in
      let marked = same_reserves-Keeps s written.tasks v.safe.fresh in
      let offered = offer_reward cfg id t.reward_amount written in
      let kept = offer_reward-Keeps cfg id t.reward_amount written marked.fresh in
      emit-IsValid _ (update_reputation cfg t.pool_id true offered) (
        Keeps-IsValid cfg lawful s _ v
          (Keeps-trans cfg s written _ marked (
            Keeps-trans cfg written offered _ kept
              (update_reputation-Keeps cfg t.pool_id true offered kept.fresh)))
          (update_reputation-Agrees cfg t.pool_id true offered (
            offer_reward-Agrees cfg id (overturned_task true t) written
              (rewrite_task-IsLinked id t _ v.agrees e refl (λ h. refl)) (ground arith))))

  pub dispute-IsValid :
      (o : Origin) (id : ℕ) (s : State W L)
      → IsValid cfg s
      → IsUnclaimed (s.task_escrow id)
      → Returns (IsValid cfg) (dispute_verification cfg o id s)
  unfolding dispute_verification
  dispute-IsValid root id s v u = tt
  dispute-IsValid unsigned id s v u = tt
  dispute-IsValid (signed who) id s v u = elim (Option-cases (s.tasks id)) [
    | inl e ↦ ground arith
    | inr (t, e) ↦ ground (
      arith,
      Returns-emit (commit (overturn_approval cfg id t s)) (verification_disputed id who)
          (commit-IsValid cfg lawful _ (overturn_approval-IsValid id t s v e u)),
      emit-IsValid (verification_disputed id who) _ (overturn_rejection-IsValid id t s v e),
    )
  ]
