-- ===== src/Scheduler/Verdicts.antt =====
-- Proofs, verifications and disputes of pallets/compute-pool-scheduler/src/lib.rs move a task along its life.
use deep_brain_chain.Prelude.{
  ℕ, ◌≡◌, refl, Option, some, arith, Bool, true, false, not, if◌then◌else◌, Option-cases, inl, inr,
  insert, ok, err, ◌∷◌, ◌∙◌, Returns, Result, ◌>>=◌,
}
use deep_brain_chain.Frame.Origin.{Origin, root, signed, unsigned}
use deep_brain_chain.Scheduler.{
  Config, State, ComputeTask, Outcome, Error, Event, commit, update_reputation, release_escrow,
  slash_pool, offer_reward, submit_proof, verify_proof, dispute_verification, overturn_approval,
  overturn_rejection, finalize_verification, is_terminal, is_proof_submitted, is_computing,
  is_approved, completed, failed, TaskStatus, computing, proof_submitted, verification_disputed,
}
use deep_brain_chain.Scheduler.Agreement.{update_reputation-task}
use deep_brain_chain.Scheduler.Lifecycle.{
  running, waiting, settled, Phase, stage_of, phase_of, prove, overturn, Life, Life-one,
}
use deep_brain_chain.Scheduler.Refinement.{
  phase_at, slash_pool-task, release_escrow-task, offer_reward-task, and_then-task, write-Life,
  finalize-Life,
}

pub submitted_stage :
    (status : TaskStatus) (result : Option Bool)
    → is_proof_submitted status ≡ true
    → stage_of status result ≡ waiting
submitted_stage proof_submitted r h = refl
submitted_stage _ r h = cc

computing_stage :
    (status : TaskStatus) (result : Option Bool)
    → is_computing status ≡ true
    → stage_of status result ≡ running
computing_stage computing r h = refl
computing_stage _ r h = cc

ended_stage :
    (status : TaskStatus) (result : Option Bool)
    → is_terminal status ≡ true
    → stage_of status result ≡ settled (is_approved result)
ended_stage completed r h = refl
ended_stage failed r h = refl
ended_stage _ r h = cc

module _ {W L : Type 0} (cfg : Config W L) where
  -- Both tasks of a dispute.
  abbrev overturned : Bool → ComputeTask → ComputeTask
  overturned result t = record t {
    status = if result then completed else failed;
    verification_result = some result;
    disputed = true;
  }

  overturn_approval-task :
      (id : ℕ) (t : ComputeTask) (s : State W L)
      → (overturn_approval cfg id t s).1.tasks ≡ insert s.tasks id (overturned false t)
  unfolding overturn_approval
  overturn_approval-task id t s =
      let written = record s { tasks = insert s.tasks id (overturned false t) } in
      and_then-task cfg
        (slash_pool cfg t.pool_id
          (release_escrow cfg id (update_reputation cfg t.pool_id false written)))
        _ (λ r. refl)
      ∙ slash_pool-task cfg t.pool_id _
      ∙ release_escrow-task cfg id _
      ∙ update_reputation-task cfg t.pool_id false written

  overturn_rejection-task :
      (id : ℕ) (t : ComputeTask) (s : State W L)
      → (overturn_rejection cfg id t s).tasks ≡ insert s.tasks id (overturned true t)
  unfolding overturn_rejection
  overturn_rejection-task id t s =
      let written = record s { tasks = insert s.tasks id (overturned true t) } in
      update_reputation-task cfg t.pool_id true (offer_reward cfg id t.reward_amount written)
      ∙ offer_reward-task cfg id t.reward_amount written

  overturned-Life :
      (b : Bool) (t : ComputeTask)
      → is_terminal t.status ≡ true
      → t.disputed ≡ false
      → is_approved t.verification_result ≡ not b
      → Life (phase_of (some t)) (phase_of (some (overturned b t)))
  overturned-Life true t ended first verdict =
      rw (ended_stage t.status t.verification_result ended, verdict, first) (Life-one overturn)
  overturned-Life false t ended first verdict =
      rw (ended_stage t.status t.verification_result ended, verdict, first) (Life-one overturn)

  commit-Life :
      (m : Outcome W L) (s : State W L) (j : ℕ)
      → Life (phase_at s j) (phase_at m.1 j)
      → Returns (λ t. Life (phase_at s j) (phase_at t j)) (commit m)
  commit-Life (ok u, t) s j l = l
  commit-Life (err e, t) s j l = tt

  pub verify-Life :
      (o : Origin) (now id : ℕ) (b : Bool) (s : State W L) (j : ℕ)
      → Returns (λ t. Life (phase_at s j) (phase_at t j)) (verify_proof cfg o now id b s)
  unfolding verify_proof
  verify-Life o now id b s j = elim (Option-cases (s.tasks id)) [
    | inl e ↦ ground arith
    | inr (t, e) ↦ ground (
      arith,
      λ (h : is_proof_submitted t.status ≡ true).
          commit-Life (finalize_verification cfg now id t.pool_id b s) s j (
            finalize-Life cfg now id t.pool_id j b s t e
              (inl (submitted_stage t.status t.verification_result h))),
    )
  ]

  pub submit_proof-Life :
      (o : Origin) (now id hash : ℕ) (s : State W L) (j : ℕ)
      → Returns (λ t. Life (phase_at s j) (phase_at t j)) (submit_proof cfg o now id hash s)
  unfolding submit_proof
  submit_proof-Life o now id hash s j = elim (Option-cases (s.tasks id)) [
    | inl e ↦ ground arith
    | inr (t, e) ↦ ground (
      arith,
      λ (h : is_computing t.status ≡ true).
          write-Life cfg s id j t (record t { proof_hash = some hash; status = proof_submitted }) e
            (proven-Life hash t h),
    )
  ]
    where
      proven-Life :
          (hash : ℕ) (t : ComputeTask)
          → is_computing t.status ≡ true
          → Life
              (phase_of (some t))
              (phase_of (some (record t { proof_hash = some hash; status = proof_submitted })))
      proven-Life hash t h = rw (computing_stage t.status t.verification_result h) (Life-one prove)

  Returns-emit :
      (m : Result Error (State W L)) (e : Event) (p : Phase) (j : ℕ)
      → Returns (λ t. Life p (phase_at t j)) m
      → Returns (λ t. Life p (phase_at t j)) (m >>= λ t. ok (record t { events = e ∷ t.events }))
  Returns-emit (ok t) e p j l = l
  Returns-emit (err x) e p j l = tt

  pub dispute-Life :
      (o : Origin) (id : ℕ) (s : State W L) (j : ℕ)
      → Returns (λ t. Life (phase_at s j) (phase_at t j)) (dispute_verification cfg o id s)
  unfolding dispute_verification
  dispute-Life root id s j = tt
  dispute-Life unsigned id s j = tt
  dispute-Life (signed who) id s j = elim (Option-cases (s.tasks id)) [
    | inl e ↦ ground arith
    | inr (t, e) ↦ ground (
      arith,
      λ (h : is_terminal t.status ≡ true) (d : t.disputed ≡ false)
            (v : is_approved t.verification_result ≡ true).
          Returns-emit (commit (overturn_approval cfg id t s)) (verification_disputed id who)
            (phase_at s j) j
            (commit-Life (overturn_approval cfg id t s) s j (
              rw (overturn_approval-task id t s)
                (write-Life cfg s id j t (overturned false t) e (overturned-Life false t h d v)))),
      λ (h : is_terminal t.status ≡ true) (d : t.disputed ≡ false)
            (v : is_approved t.verification_result ≡ false).
          the_life t e h d v,
    )
  ]
    where
      the_life :
          (t : ComputeTask)
          → s.tasks id ≡ some t
          → is_terminal t.status ≡ true
          → t.disputed ≡ false
          → is_approved t.verification_result ≡ false
          → Life (phase_at s j) (phase_at (overturn_rejection cfg id t s) j)
      the_life t e h d v =
          rw (overturn_rejection-task id t s)
            (write-Life cfg s id j t (overturned true t) e (overturned-Life true t h d v))
