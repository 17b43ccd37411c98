-- ===== src/Zk/History.antt =====
-- The history of verified tasks of pallets/zk-compute/src/lib.rs, which no call shortens.
use deep_brain_chain.Prelude.{
  ℕ, ◌∷◌, [], ◌+◌, ◌≤◌, ◌≡◌, some, arith, err, Returns, of_Returns, Bool, true, false, length,
  length-append, Option-cases, inl, inr, ltb, if◌then◌else◌, u32_max,
}
use deep_brain_chain.Frame.Origin.{Origin, root, signed, unsigned}
use deep_brain_chain.Zk.{
  Config, State, ZkTask, is_pending, too_many_verified_tasks, submit_proof, verify_task,
  apply_verdict, claim_reward, submit_verification_unsigned, settle_unsigned, record_verdict,
}
use deep_brain_chain.Zk.Steps.{
  Extrinsic, submit, verify, claim, report, dispatch, Reach, here, next,
}

abbrev pub history : {L : Type 0} → State L → ℕ
history s = length s.verified_tasks

module _ {L : Type 0} (cfg : Config L) where
  apply_verdict-history :
      (who id : ℕ) (task : ZkTask) (passed : Bool) (s : State L)
      → Returns (λ t. history s ≤ history t) (apply_verdict cfg who id task passed s)
  unfolding apply_verdict
  apply_verdict-history who id task true s = grind (arith, length-append)
  apply_verdict-history who id task false s = grind arith

  settle_unsigned-history :
      (id : ℕ) (task : ZkTask) (passed : Bool) (s : State L)
      → history s
        ≤ history (settle_unsigned cfg id task passed (record_verdict cfg id task passed s))
  unfolding settle_unsigned record_verdict
  settle_unsigned-history id task true s = ground (arith, length-append s.verified_tasks (id ∷ []))
  settle_unsigned-history id task false s = ground arith

  dispatch-history :
      (o : Origin) (now : ℕ) (c : Extrinsic) (s : State L)
      → Returns (λ t. history s ≤ history t) (dispatch cfg o now c s)
  unfolding dispatch submit_proof verify_task claim_reward submit_verification_unsigned
  dispatch-history o now (submit p d q n) s = grind arith
  dispatch-history root now (verify id) s = tt
  dispatch-history unsigned now (verify id) s = tt
  dispatch-history (signed who) now (verify id) s = elim (Option-cases (s.tasks id)) [
    | inl e ↦ ground arith
    | inr (task, e) ↦ ground (
      arith,
      apply_verdict-history who id task
          (if ltb (task.submitted_at + cfg.verification_timeout) now
            then false
            else cfg.verifier task.proof task.dimensions)
          s,
    )
  ]
  dispatch-history o now (claim id) s = grind arith
  dispatch-history o now (report id passed) s = elim (Option-cases (s.tasks id)) [
    | inl e ↦ ground arith
    | inr (task, e) ↦ ground (arith, settle_unsigned-history id task passed s)
  ]

  Reach-history : (s t : State L) → Reach cfg s t → history s ≤ history t
  Reach-history s t here = omega arith
  Reach-history s t (next {t = u} o now c r e) = omega (
    arith,
    Reach-history s u r,
    of_Returns (λ w. history u ≤ history w) _ (dispatch-history o now c u) e,
  )

  verify_full :
      (who now id : ℕ) (s : State L) (task : ZkTask)
      → cfg.max_verified_tasks ≤ history s
      → s.tasks id ≡ some task
      → is_pending task.status ≡ true
      → task.submitted_at + cfg.verification_timeout ≤ u32_max
      → now ≤ task.submitted_at + cfg.verification_timeout
      → cfg.verifier task.proof task.dimensions ≡ true
      → verify_task cfg (signed who) now id s ≡ err too_many_verified_tasks
  unfolding verify_task apply_verdict
  verify_full who now id s task full e p small in_time good = ground arith

  -- Once the history of verified tasks is full it stays full, and then `verify_task` refuses every
  -- pending task whose proof is good, as long as its time has not run out.
  pub full_history_refuses :
      (who now id : ℕ) (s t : State L) (task : ZkTask)
      → cfg.max_verified_tasks ≤ length s.verified_tasks
      → Reach cfg s t
      → t.tasks id ≡ some task
      → is_pending task.status ≡ true
      → task.submitted_at + cfg.verification_timeout ≤ u32_max
      → now ≤ task.submitted_at + cfg.verification_timeout
      → cfg.verifier task.proof task.dimensions ≡ true
      → verify_task cfg (signed who) now id t ≡ err too_many_verified_tasks
  full_history_refuses who now id s t task full r =
      verify_full who now id t task (omega (arith, Reach-history s t r))
