-- ===== src/Zk/Unsigned.antt =====
-- The unsigned call, its validation and the off-chain worker of pallets/zk-compute/src/lib.rs.
use deep_brain_chain.Prelude.{
  ℕ, ◌<◌, is_ok-value, ◌≡◌, ◌↔◌, refl, some, arith, ok, is_ok, Bool, true, false, if◌then◌else◌,
  List, [], ◌∷◌, Option-cases, Bool-cases, inl, inr,
}
use deep_brain_chain.Frame.Origin.{unsigned}
use deep_brain_chain.Zk.{
  Config, State, ZkTask, Call, submit_unsigned, other_call, valid, ValidTransaction, is_pending,
  verified, failed, submit_verification_unsigned, settle_unsigned, record_verdict,
  validate_unsigned, ocw_verify, ocw_verify_pending_tasks,
}
use deep_brain_chain.Zk.Removal.{count}
use deep_brain_chain.Zk.Deposits.{IsValid, is_open}

-- The priority, the tag and the longevity of an accepted transaction.
abbrev pub ticket : ℕ → ValidTransaction
ticket id = record { priority = 100; provides = id; longevity = 5; propagate = true }

module _ {L : Type 0} (cfg : Config L) where
  -- The pool admits the unsigned call exactly when its dispatch on the same state succeeds.
  pub validate_iff_submit :
      (id : ℕ) (passed : Bool) (s : State L)
      → (validate_unsigned cfg (submit_unsigned id passed) s ≡ valid (ticket id))
        ↔ (is_ok (submit_verification_unsigned cfg unsigned id passed s) ≡ true)
  unfolding validate_unsigned submit_verification_unsigned
  validate_iff_submit id passed s = elim (Option-cases (s.tasks id)) [
    | inl e ↦ (ground arith, ground arith)
    | inr (task, e) ↦ (ground arith, ground arith)
  ]

  settle_unsigned-tasks :
      (id : ℕ) (task : ZkTask) (passed : Bool) (s : State L)
      → (settle_unsigned cfg id task passed (record_verdict cfg id task passed s)).tasks id
        ≡ some (record task { status = if passed then verified else failed })
  unfolding settle_unsigned record_verdict
  settle_unsigned-tasks id task true s = ground arith
  settle_unsigned-tasks id task false s = ground arith

  submit_unsigned-ok :
      (id : ℕ) (task : ZkTask) (passed : Bool) (s : State L)
      → s.tasks id ≡ some task
      → is_pending task.status ≡ true
      → is_ok (submit_verification_unsigned cfg unsigned id passed s) ≡ true
  unfolding submit_verification_unsigned
  submit_unsigned-ok id task passed s e p = ground arith

  submit_unsigned-status :
      (id : ℕ) (task : ZkTask) (passed : Bool) (s t : State L)
      → s.tasks id ≡ some task
      → submit_verification_unsigned cfg unsigned id passed s ≡ ok t
      → t.tasks id ≡ some (record task { status = if passed then verified else failed })
  unfolding submit_verification_unsigned
  submit_unsigned-status id task passed s t e h =
      ground (arith, settle_unsigned-tasks id task passed s)

  -- Any pending task takes the verdict that an unsigned call claims: the verifier is not consulted,
  -- the deadline is not tested, and the call is neither signed nor tied to the off-chain worker.
  pub submit_unsigned_decides :
      (id : ℕ) (task : ZkTask) (passed : Bool) (s : State L)
      → s.tasks id ≡ some task
      → is_pending task.status ≡ true
      → (validate_unsigned cfg (submit_unsigned id passed) s ≡ valid (ticket id))
        × ((t : State L) × (submit_verification_unsigned cfg unsigned id passed s ≡ ok t)
            × (t.tasks id ≡ some (record task { status = if passed then verified else failed })))
  submit_unsigned_decides id task passed s e p =
      let done = submit_unsigned-ok id task passed s e p in
      let (t, h) = is_ok-value _ done in
      (
        (validate_iff_submit id passed s).1 done,
        (t, h, submit_unsigned-status id task passed s t e h),
      )

  -- What the worker may submit: the verifier's verdict on a pending task.
  abbrev pub IsHonest : State L → Call → Type 0
  IsHonest s (submit_unsigned id passed) =
      (task : ZkTask) × (s.tasks id ≡ some task)
      × (is_pending task.status ≡ true)
      × (passed ≡ cfg.verifier task.proof task.dimensions)
  IsHonest s other_call = ⊥

  abbrev pub AllHonest : State L → List Call → Type 0
  AllHonest s [] = Unit
  AllHonest s (c ∷ cs) = IsHonest s c × AllHonest s cs

  ocw_verify-AllHonest : (ids : List ℕ) (s : State L) → AllHonest s (ocw_verify cfg ids s)
  unfolding ocw_verify
  ocw_verify-AllHonest [] s = tt
  ocw_verify-AllHonest (id ∷ ids) s = elim (Option-cases (s.tasks id)) [
    | inl e ↦ rw (e, ocw_verify) (ocw_verify-AllHonest ids s)
    | inr (task, e) ↦ elim (Bool-cases (is_pending task.status)) [
      | inl p ↦ rw (e, ocw_verify, p) ((task, e, p, refl), ocw_verify-AllHonest ids s)
      | inr p ↦ rw (e, ocw_verify, p) (ocw_verify-AllHonest ids s)
    ]
  ]

  abbrev pub call_ids : List Call → List ℕ
  call_ids [] = []
  call_ids (submit_unsigned id passed ∷ cs) = id ∷ call_ids cs
  call_ids (other_call ∷ cs) = call_ids cs

  ocw_verify-ids :
      (ids : List ℕ) (s : State L)
      → ((k : ℕ) → 0 < count k ids → is_open (s.tasks k) ≡ 1)
      → call_ids (ocw_verify cfg ids s) ≡ ids
  unfolding ocw_verify
  ocw_verify-ids [] s all = refl
  ocw_verify-ids (id ∷ ids) s all =
      let rest = ocw_verify-ids ids s (λ k h. all k (omega arith)) in ground (arith, rest, all id)

  -- From a valid state, the off-chain worker submits one call for each queued task, in the order of
  -- the queue, and each names a pending task and carries the verifier's verdict on its proof.
  pub ocw_verify_pending_tasks_lem :
      (s : State L)
      → IsValid cfg s
      → (call_ids (ocw_verify_pending_tasks cfg s) ≡ s.pending_tasks)
        × AllHonest s (ocw_verify_pending_tasks cfg s)
  unfolding ocw_verify_pending_tasks
  ocw_verify_pending_tasks_lem s v = (
    ocw_verify-ids s.pending_tasks s (λ k h. open_of_queued k h),
    ocw_verify-AllHonest s.pending_tasks s,
  )
    where
      open_of_queued : (k : ℕ) → 0 < count k s.pending_tasks → is_open (s.tasks k) ≡ 1
      open_of_queued k h = ground (arith, v.queued k)
