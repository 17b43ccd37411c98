-- ===== src/Scheduler/Agreement.antt =====
-- The functions of pallets/compute-pool-scheduler/src/lib.rs that end a task keep tasks, offered rewards
-- and escrows in agreement.
use deep_brain_chain.Prelude.{
  ℕ, ◌≤◌, ◌≡◌, refl, none, some, arith, Bool, true, false, ◌==◌, if◌then◌else◌, Option-cases,
  Bool-cases, inl, inr, insert, ok, err, Result, Returns,
}
use deep_brain_chain.Scheduler.{
  Config, State, ComputeTask, update_reputation, decrement_pool_activity, release_escrow,
  slash_pool, record_result, offer_reward, notify_completed, settle_result, finalize_verification,
  mark_task_failed, is_terminal, and_then, Outcome, failed, completed,
}
use deep_brain_chain.Scheduler.Links.{
  IsLinked, Linked, task-lt, rewrite_task-IsLinked, offer-IsLinked, remove-IsLinked,
}

abbrev pub Agrees : {W L : Type 0} → State W L → Type 0
Agrees s = IsLinked s.tasks s.rewards s.task_escrow s.next_task_id

-- A call whose successful results agree at each identifier.
pub Returns-Agrees :
    {W L E : Type 0} (m : Result E (State W L))
    → ((k : ℕ) → Returns (λ t. t.next_task_id ≤ k → t.tasks k ≡ none) m)
    → ((k : ℕ) → Returns (λ t. t.next_task_id ≤ k → t.rewards k ≡ none) m)
    → ((k : ℕ) → Returns (λ t. Linked (t.tasks k) (t.rewards k) (t.task_escrow k)) m)
    → Returns Agrees m
Returns-Agrees (ok t) n r l = record { new_tasks = n; new_rewards = r; linked = l }
Returns-Agrees (err e) n r l = tt

module _ {W L : Type 0} (cfg : Config W L) where
  pub update_reputation-Agrees :
      (id : ℕ) (b : Bool) (s : State W L) → Agrees s → Agrees (update_reputation cfg id b s)
  unfolding update_reputation
  update_reputation-Agrees id b s v = elim (Option-cases (s.pools id)) [
    | inl e ↦ rw (e, update_reputation) v
    | inr (p, e) ↦ rw (e, update_reputation) v
  ]

  pub update_reputation-task :
      (id : ℕ) (b : Bool) (s : State W L) → (update_reputation cfg id b s).tasks ≡ s.tasks
  unfolding update_reputation
  update_reputation-task id b s = elim (Option-cases (s.pools id)) [
    | inl e ↦ rw (e, update_reputation) refl
    | inr (p, e) ↦ rw (e, update_reputation) refl
  ]

  pub slash_pool-Agrees : (id : ℕ) (s : State W L) → Agrees s → Agrees (slash_pool cfg id s).1
  unfolding slash_pool
  slash_pool-Agrees id s v = elim (Option-cases (s.pools id)) [
    | inl e ↦ rw (e, slash_pool) v
    | inr (p, e) ↦ elim (Bool-cases (p.deposit_held == 0)) [
      | inl z ↦ rw (e, z, slash_pool) v
      | inr z ↦ rw (e, z, slash_pool) v
    ]
  ]

  pub release_escrow-Agrees : (id : ℕ) (s : State W L) → Agrees s → Agrees (release_escrow cfg id s)
  unfolding release_escrow
  release_escrow-Agrees id s v = elim (Option-cases (s.task_escrow id)) [
    | inl e ↦
        rw (e, release_escrow)
          (record {
            new_tasks = v.new_tasks;
            new_rewards = λ k h. ground (arith, v.new_rewards k h);
            linked = λ k. ground (arith, v.linked k);
          })
    | inr (x, e) ↦ rw (e, release_escrow) (remove-IsLinked id v)
  ]

  -- `t` is the task before its result was written.
  pub offer_reward-Agrees :
      (id : ℕ) (t : ComputeTask) (s : State W L)
      → Agrees s
      → s.tasks id ≡ some t
      → Agrees (offer_reward cfg id t.reward_amount s)
  unfolding offer_reward
  offer_reward-Agrees id t s v e = elim (Option-cases t.reward_amount) [
    | inl h ↦ rw h v
    | inr (r, h) ↦ rw h (offer-IsLinked id r t v e h)
  ]

  pub and_then-Agrees :
      (m : Outcome W L) (f : State W L → Outcome W L)
      → Agrees m.1
      → ((t : State W L) → Agrees t → Agrees (f t).1)
      → Agrees (and_then m f).1
  and_then-Agrees (ok u, t) f v next = next t v
  and_then-Agrees (err e, t) f v next = v

  pub release_and_slash-Agrees :
      (pool id : ℕ) (s : State W L)
      → Agrees s
      → Agrees (slash_pool cfg pool (release_escrow cfg id s)).1
  release_and_slash-Agrees pool id s v =
      slash_pool-Agrees pool (release_escrow cfg id s) (release_escrow-Agrees id s v)

  abbrev pub with_result : Bool → ComputeTask → ComputeTask
  with_result b task = record task {
    status = if b then completed else failed;
    verification_result = some b;
  }

  record_result-Agrees :
      (id : ℕ) (task : ComputeTask) (b : Bool) (s : State W L)
      → Agrees s
      → s.tasks id ≡ some task
      → Agrees (record_result cfg id task b s)
  unfolding record_result
  record_result-Agrees id task b s v e = record {
    new_tasks = λ k h. ground (arith, v.new_tasks k h, task-lt id task v e);
    new_rewards = v.new_rewards;
    linked = λ k. ground (arith, v.linked k);
  }

  settle_result-Agrees :
      (now id pool : ℕ) (t u : ComputeTask) (hash : ℕ) (b : Bool) (s : State W L)
      → Agrees s
      → s.tasks id ≡ some u
      → u.reward_amount ≡ t.reward_amount
      → Agrees (settle_result cfg now id pool t hash b s).1
  unfolding settle_result notify_completed
  settle_result-Agrees now id pool t u hash true s v e same =
      let offered : Agrees (offer_reward cfg id t.reward_amount s) =
        rw (← same) (offer_reward-Agrees id u s v e) in
      elim (Option-cases ((offer_reward cfg id t.reward_amount s).pools t.pool_id)) [
        | inl h ↦ rw (h, settle_result) offered
        | inr (p, h) ↦ rw (h, settle_result) offered
      ]
  settle_result-Agrees now id pool t u hash false s v e same = release_and_slash-Agrees pool id s v

  pub finalize-Agrees :
      (now id pool : ℕ) (b : Bool) (s : State W L)
      → Agrees s
      → Agrees (finalize_verification cfg now id pool b s).1
  unfolding finalize_verification record_result decrement_pool_activity
  finalize-Agrees now id pool b s v = elim (Option-cases (s.tasks id)) [
    | inl e ↦ rw (e, finalize_verification) v
    | inr (task, e) ↦ elim (Option-cases task.proof_hash) [
      | inl h ↦ rw (e, h, finalize_verification) v
      | inr (hash, h) ↦
          let rated = decrement_pool_activity cfg pool id (record_result cfg id task b s) in
          rw (e, h, finalize_verification)
            (settle_result-Agrees now id pool task (with_result b task) hash b _
              (update_reputation-Agrees pool b rated (record_result-Agrees id task b s v e))
              (rw (update_reputation-task pool b rated) (ground arith)) refl)
    ]
  ]

  pub mark_failed-Agrees :
      (id : ℕ) (timed_out : Bool) (s : State W L)
      → Agrees s
      → Agrees (mark_task_failed cfg id timed_out s).1
  unfolding mark_task_failed decrement_pool_activity
  mark_failed-Agrees id timed_out s v = elim (Option-cases (s.tasks id)) [
    | inl e ↦ rw (e, mark_task_failed) v
    | inr (task, e) ↦ elim (Bool-cases (is_terminal task.status)) [
      | inl t ↦ rw (e, t, mark_task_failed) v
      | inr t ↦
          let failing = record task { status = failed; verification_result = some false } in
          let marked =
            decrement_pool_activity cfg task.pool_id id
              (record s { tasks = insert s.tasks id failing }) in
          rw (e, t, mark_task_failed)
            (and_then-Agrees _ _
              (release_and_slash-Agrees task.pool_id id _ (
                update_reputation-Agrees task.pool_id false marked
                  (rewrite_task-IsLinked id task failing v e refl (λ h. refl))))
              (λ r w. w))
    ]
  ]
