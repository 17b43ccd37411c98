-- ===== src/Zk/Once.antt =====
-- A reward of pallets/zk-compute/src/lib.rs is claimed at most once.
use deep_brain_chain.Prelude.{
  ℕ, ltb, ◌+◌, if◌then◌else◌, ◌≢◌, ◌≤◌, ◌≡◌, some, none, Option, arith, ok, is_ok, Returns,
  of_Returns, Bool, true, false, ◌&&◌, List, Option-cases, inl, inr, u32_max,
}
use deep_brain_chain.Frame.Origin.{Origin, root, unsigned, signed}
use deep_brain_chain.Frame.Currency.{IsLawful}
use deep_brain_chain.Zk.{
  Config, State, Dimensions, ZkTask, is_verified, submit_proof, verify_task, apply_verdict,
  claim_reward, submit_verification_unsigned, settle_unsigned, record_verdict,
}
use deep_brain_chain.Zk.Deposits.{IsValid}
use deep_brain_chain.Zk.Steps.{
  Extrinsic, submit, verify, claim, report, dispatch, Reach, here, next, Reach-IsValid_tasks,
}

-- The task is verified and its reward claimed.
abbrev pub is_paid : Option ZkTask → Bool
is_paid none = false
is_paid (some t) = is_verified t.status && t.reward_claimed

module _ {L : Type 0} (cfg : Config L) where
  apply_verdict-others :
      (who id : ℕ) (task : ZkTask) (passed : Bool) (s : State L) (k : ℕ)
      → k ≢ id
      → Returns (λ t. t.tasks k ≡ s.tasks k) (apply_verdict cfg who id task passed s)
  unfolding apply_verdict
  apply_verdict-others who id task true s k ne = grind arith
  apply_verdict-others who id task false s k ne = grind arith

  settle_unsigned-others :
      (id : ℕ) (task : ZkTask) (passed : Bool) (s : State L) (k : ℕ)
      → k ≢ id
      → (settle_unsigned cfg id task passed (record_verdict cfg id task passed s)).tasks k
        ≡ s.tasks k
  unfolding settle_unsigned record_verdict
  settle_unsigned-others id task true s k ne = ground arith
  settle_unsigned-others id task false s k ne = ground arith

  verify-keeps_paid :
      (o : Origin) (now id : ℕ) (s : State L) (k : ℕ)
      → is_paid (s.tasks k) ≡ true
      → Returns (λ t. is_paid (t.tasks k) ≡ true) (verify_task cfg o now id s)
  unfolding verify_task
  verify-keeps_paid root now id s k h = tt
  verify-keeps_paid unsigned now id s k h = tt
  verify-keeps_paid (signed who) now id s k h = elim (Option-cases (s.tasks id)) [
    | inl e ↦ ground arith
    | inr (task, e) ↦ grind (
      arith,
      apply_verdict-others who id task
          (if ltb (task.submitted_at + cfg.verification_timeout) now
            then false
            else cfg.verifier task.proof task.dimensions)
          s k,
    )
  ]

  report-keeps_paid :
      (o : Origin) (id : ℕ) (passed : Bool) (s : State L) (k : ℕ)
      → is_paid (s.tasks k) ≡ true
      → Returns (λ t. is_paid (t.tasks k) ≡ true) (submit_verification_unsigned cfg o id passed s)
  unfolding submit_verification_unsigned
  report-keeps_paid root id passed s k h = tt
  report-keeps_paid (signed who) id passed s k h = tt
  report-keeps_paid unsigned id passed s k h = elim (Option-cases (s.tasks id)) [
    | inl e ↦ ground arith
    | inr (task, e) ↦ grind (arith, settle_unsigned-others id task passed s k)
  ]

  claim-keeps_paid :
      (o : Origin) (id : ℕ) (s : State L) (k : ℕ)
      → is_paid (s.tasks k) ≡ true
      → Returns (λ t. is_paid (t.tasks k) ≡ true) (claim_reward cfg o id s)
  unfolding claim_reward
  claim-keeps_paid o id s k h = elim (Option-cases (s.tasks id)) [
    | inl e ↦ ground arith
    | inr (task, e) ↦ grind arith
  ]

  submit-keeps_paid :
      (o : Origin) (now : ℕ) (p : List ℕ) (d : Dimensions) (q n : ℕ) (s : State L) (k : ℕ)
      → IsValid cfg s
      → is_paid (s.tasks k) ≡ true
      → Returns (λ t. is_paid (t.tasks k) ≡ true) (submit_proof cfg o now p d q n s)
  unfolding submit_proof
  submit-keeps_paid o now p d q n s k v h = grind (arith, v.fresh k)

  dispatch-keeps_paid :
      (o : Origin) (now : ℕ) (c : Extrinsic) (s : State L) (k : ℕ)
      → IsValid cfg s
      → is_paid (s.tasks k) ≡ true
      → Returns (λ t. is_paid (t.tasks k) ≡ true) (dispatch cfg o now c s)
  unfolding dispatch
  dispatch-keeps_paid o now (submit p d q n) s k v h = submit-keeps_paid o now p d q n s k v h
  dispatch-keeps_paid o now (verify id) s k v h = verify-keeps_paid o now id s k h
  dispatch-keeps_paid o now (claim id) s k v h = claim-keeps_paid o id s k h
  dispatch-keeps_paid o now (report id passed) s k v h = report-keeps_paid o id passed s k h

  claim-is_paid :
      (o : Origin) (id : ℕ) (s : State L)
      → Returns (λ t. is_paid (t.tasks id) ≡ true) (claim_reward cfg o id s)
  unfolding claim_reward
  claim-is_paid o id s = elim (Option-cases (s.tasks id)) [
    | inl e ↦ ground arith
    | inr (task, e) ↦ grind arith
  ]

  claim_paid :
      (o : Origin) (id : ℕ) (s : State L)
      → is_paid (s.tasks id) ≡ true
      → is_ok (claim_reward cfg o id s) ≡ false
  unfolding claim_reward
  claim_paid o id s h = elim (Option-cases (s.tasks id)) [
    | inl e ↦ ground arith
    | inr (task, e) ↦ grind arith
  ]

module _ {L : Type 0} (cfg : Config L) (lawful : IsLawful cfg.currency)
    (small : cfg.max_pending_per_miner ≤ u32_max) where
  Reach-keeps_paid :
      (s t : State L) (k : ℕ)
      → IsValid cfg s
      → is_paid (s.tasks k) ≡ true
      → Reach cfg s t
      → is_paid (t.tasks k) ≡ true
  Reach-keeps_paid s t k v h here = h
  Reach-keeps_paid s t k v h (next {t = u} o now c r e) =
      of_Returns (λ w. is_paid (w.tasks k) ≡ true) _
        (dispatch-keeps_paid cfg o now c u k (Reach-IsValid_tasks cfg lawful small v r)
          (Reach-keeps_paid s u k v h r))
        e

  -- After a claim that succeeded, from a valid state, no later claim of the same task succeeds,
  -- whoever makes it and whatever calls came between.
  pub claim_once :
      (o o' : Origin) (id : ℕ) (s t u : State L)
      → IsValid cfg t
      → claim_reward cfg o id s ≡ ok t
      → Reach cfg t u
      → is_ok (claim_reward cfg o' id u) ≡ false
  claim_once o o' id s t u v e r = claim_paid cfg o' id u (
      Reach-keeps_paid t u id v
        (of_Returns (λ w. is_paid (w.tasks id) ≡ true) _ (claim-is_paid cfg o id s) e) r)
