-- ===== src/Scheduler/Refinement.antt =====
-- What the functions of pallets/compute-pool-scheduler/src/lib.rs that end a task do to the life of each task.
use deep_brain_chain.Prelude.{
  ℕ, ◌≡◌, refl, Option, none, some, arith, Bool, true, false, ◌==◌, ==_refl, Option-cases,
  Bool-cases, inl, inr, insert, ok, err, ◌⊎◌, ◌∙◌, ap,
}
use deep_brain_chain.Scheduler.{
  Config, State, ComputeTask, decrement_pool_activity, release_escrow, slash_pool, record_result,
  offer_reward, notify_completed, settle_result, finalize_verification, mark_task_failed,
  is_terminal, and_then, Outcome, failed, completed, TaskStatus, pending, assigned, computing,
  proof_submitted, verifying,
}
use deep_brain_chain.Scheduler.Agreement.{update_reputation-task, with_result}
use deep_brain_chain.Scheduler.Lifecycle.{
  running, waiting, settled, Phase, phase, stage_of, phase_of, settle, expire, Life, still,
  Life-one,
}

-- The phase of a task in a state.
abbrev pub phase_at : {W L : Type 0} → State W L → ℕ → Phase
phase_at s j = phase_of (s.tasks j)

-- A task that has not ended runs or waits.
open_stage :
    (status : TaskStatus) (result : Option Bool)
    → is_terminal status ≡ false
    → (stage_of status result ≡ running) ⊎ (stage_of status result ≡ waiting)
open_stage pending r h = inl refl
open_stage assigned r h = inl refl
open_stage computing r h = inl refl
open_stage proof_submitted r h = inr refl
open_stage verifying r h = inr refl
open_stage completed r h = cc
open_stage failed r h = cc

module _ {W L : Type 0} (cfg : Config W L) where
  pub slash_pool-task : (id : ℕ) (s : State W L) → (slash_pool cfg id s).1.tasks ≡ s.tasks
  unfolding slash_pool
  slash_pool-task id s = elim (Option-cases (s.pools id)) [
    | inl e ↦ rw (e, slash_pool) refl
    | inr (p, e) ↦ elim (Bool-cases (p.deposit_held == 0)) [
      | inl z ↦ rw (e, z, slash_pool) refl
      | inr z ↦ rw (e, z, slash_pool) refl
    ]
  ]

  pub release_escrow-task : (id : ℕ) (s : State W L) → (release_escrow cfg id s).tasks ≡ s.tasks
  unfolding release_escrow
  release_escrow-task id s = elim (Option-cases (s.task_escrow id)) [
    | inl e ↦ rw (e, release_escrow) refl
    | inr (x, e) ↦ rw (e, release_escrow) refl
  ]

  pub offer_reward-task :
      (id : ℕ) (amount : Option ℕ) (s : State W L) → (offer_reward cfg id amount s).tasks ≡ s.tasks
  unfolding offer_reward
  offer_reward-task id none s = refl
  offer_reward-task id (some v) s = refl

  pub and_then-task :
      (m : Outcome W L) (f : State W L → Outcome W L)
      → ((t : State W L) → (f t).1.tasks ≡ t.tasks)
      → (and_then m f).1.tasks ≡ m.1.tasks
  and_then-task (ok u, t) f h = h t
  and_then-task (err e, t) f h = refl

  settle_result-task :
      (now id pool : ℕ) (t : ComputeTask) (hash : ℕ) (b : Bool) (s : State W L)
      → (settle_result cfg now id pool t hash b s).1.tasks ≡ s.tasks
  unfolding settle_result notify_completed
  settle_result-task now id pool t hash true s =
      elim (Option-cases ((offer_reward cfg id t.reward_amount s).pools t.pool_id)) [
        | inl h ↦ rw (h, settle_result) (offer_reward-task id t.reward_amount s)
        | inr (p, h) ↦ rw (h, settle_result) (offer_reward-task id t.reward_amount s)
      ]
  settle_result-task now id pool t hash false s =
      slash_pool-task pool (release_escrow cfg id s) ∙ release_escrow-task id s

  -- A verification writes the result into the task, or nothing.
  pub finalize-task :
      (now id pool : ℕ) (b : Bool) (s : State W L) (t : ComputeTask)
      → s.tasks id ≡ some t
      → ((finalize_verification cfg now id pool b s).1.tasks ≡ s.tasks)
        ⊎ ((j : ℕ)
            → (finalize_verification cfg now id pool b s).1.tasks j
              ≡ insert s.tasks id (with_result cfg b t) j)
  unfolding finalize_verification record_result decrement_pool_activity
  finalize-task now id pool b s t e = elim (Option-cases t.proof_hash) [
    | inl h ↦ inl (rw (e, h, finalize_verification) refl)
    | inr (hash, h) ↦
        let rated = decrement_pool_activity cfg pool id (record_result cfg id t b s) in
        inr (λ j.
          rw (e, h, finalize_verification)
            (ap (λ (m : ℕ → Option ComputeTask). m j)
                (settle_result-task now id pool t hash b _
                  ∙ update_reputation-task cfg pool b rated)
              ∙ ground arith))
  ]

  abbrev pub IsWaiting : Bool → ComputeTask → Type 0
  IsWaiting b t =
      (stage_of t.status t.verification_result ≡ waiting)
      ⊎ (stage_of t.status t.verification_result ≡ settled b)

  with_result-stage :
      (b : Bool) (t : ComputeTask)
      → phase_of (some (with_result cfg b t)) ≡ phase (settled b) t.disputed
  with_result-stage true t = refl
  with_result-stage false t = refl

  with_result-Life :
      (b : Bool) (t : ComputeTask)
      → IsWaiting b t
      → Life (phase_of (some t)) (phase_of (some (with_result cfg b t)))
  with_result-Life b t w =
      rw (with_result-stage b t) (elim w [ inl e ↦ rw e (Life-one settle) | inr e ↦ rw e still ])

  -- A task is written: the others live on as they are.
  pub write-Life :
      (s : State W L) (id j : ℕ) (t u : ComputeTask)
      → s.tasks id ≡ some t
      → Life (phase_of (some t)) (phase_of (some u))
      → Life (phase_at s j) (phase_of (insert s.tasks id u j))
  write-Life s id j t u e l = elim (Bool-cases (j == id)) [
    | inr n ↦ rw n still
    | inl n ↦ let same : j ≡ id = ground arith in rw (same, e, ==_refl id) l
  ]

  -- A verification settles a task whose proof waits. A second one with the same result changes nothing.
  pub finalize-Life :
      (now id pool j : ℕ) (b : Bool) (s : State W L) (t : ComputeTask)
      → s.tasks id ≡ some t
      → IsWaiting b t
      → Life (phase_at s j) (phase_at (finalize_verification cfg now id pool b s).1 j)
  finalize-Life now id pool j b s t e w = elim (finalize-task now id pool b s t e) [
    | inl h ↦ rw h still
    | inr h ↦ rw (h j) (write-Life s id j t (with_result cfg b t) e (with_result-Life b t w))
  ]

  release_and_slash-task :
      (pool id : ℕ) (s : State W L)
      → (slash_pool cfg pool (release_escrow cfg id s)).1.tasks ≡ s.tasks
  release_and_slash-task pool id s =
      slash_pool-task pool (release_escrow cfg id s) ∙ release_escrow-task id s

  abbrev failing : ComputeTask → ComputeTask
  failing t = record t { status = failed; verification_result = some false }

  failing-Life :
      (t : ComputeTask)
      → is_terminal t.status ≡ false
      → Life (phase_of (some t)) (phase_of (some (failing t)))
  failing-Life t open_task = elim (open_stage t.status t.verification_result open_task) [
    | inl e ↦ rw e (Life-one expire)
    | inr e ↦ rw e (Life-one settle)
  ]

  mark_failed-task :
      (id j : ℕ) (timed_out : Bool) (s : State W L) (t : ComputeTask)
      → s.tasks id ≡ some t
      → is_terminal t.status ≡ false
      → (mark_task_failed cfg id timed_out s).1.tasks j ≡ insert s.tasks id (failing t) j
  unfolding mark_task_failed decrement_pool_activity
  mark_failed-task id j timed_out s t e h =
      let marked =
        decrement_pool_activity cfg t.pool_id id
          (record s { tasks = insert s.tasks id (failing t) }) in
      rw (e, h, mark_task_failed)
        (ap (λ (m : ℕ → Option ComputeTask). m j)
          (and_then-task _ _ (λ r. refl)
            ∙ release_and_slash-task t.pool_id id _
            ∙ update_reputation-task cfg t.pool_id false marked))

  -- A task that times out fails, unless it ended before.
  pub mark_failed-Life :
      (id j : ℕ) (timed_out : Bool) (s : State W L)
      → Life (phase_at s j) (phase_at (mark_task_failed cfg id timed_out s).1 j)
  unfolding mark_task_failed
  mark_failed-Life id j timed_out s = elim (Option-cases (s.tasks id)) [
    | inl e ↦ rw (e, mark_task_failed) still
    | inr (t, e) ↦ elim (Bool-cases (is_terminal t.status)) [
      | inl h ↦ rw (e, h, mark_task_failed) still
      | inr h ↦
          rw (mark_failed-task id j timed_out s t e h)
            (write-Life s id j t (failing t) e (failing-Life t h))
    ]
  ]
