-- ===== src/Zk/Verdicts.antt =====
-- The two verification calls of pallets/zk-compute/src/lib.rs keep deposits and bookkeeping in step.
use deep_brain_chain.Prelude.{
  ℕ, ltb, ◌+◌, ◌≤◌, ◌≡◌, refl, some, none, Option, arith, Returns, Bool, true, false, Option-cases,
  inl, inr, if◌then◌else◌, of_Returns, Returns-bind,
}
use deep_brain_chain.Frame.Origin.{Origin, root, signed, unsigned}
use deep_brain_chain.Frame.Currency.{IsLawful, at}
use deep_brain_chain.Frame.Escrow.{held, held-insert}
use deep_brain_chain.Zk.{
  Config, State, ZkTask, is_pending, verified, failed, verify_task, submit_verification_unsigned,
  settle_verdict, apply_verdict, settle_unsigned, record_verdict,
}
use deep_brain_chain.Zk.Removal.{count, count-remove_from}
use deep_brain_chain.Zk.Deposits.{owed, waits, is_open, IsValid, lt_of_some}

module _ {L : Type 0} (cfg : Config L) (lawful : IsLawful cfg.currency) where
  open cfg use {currency}

  -- The state after the verdict is recorded, but before the deposit of a failed task has moved: the
  -- reserve still covers it beside what the tasks bind.
  record IsRecorded (task : ZkTask) (passed : Bool) (s : State L) : Type 0 where
    pub fresh : (k : ℕ) → s.next_task_id ≤ k → s.tasks k ≡ none
    pub backed :
        (a : ℕ)
        → held owed s.tasks s.next_task_id a
            + (if passed then 0 else at task.miner task.submission_deposit a)
          ≤ currency.reserved s.ledger a
    pub queued : (k : ℕ) → count k s.pending_tasks ≡ is_open (s.tasks k)
    pub counted : (a : ℕ) → held waits s.tasks s.next_task_id a ≡ s.miner_pending_count a
    pub limited : (a : ℕ) → s.miner_pending_count a ≤ cfg.max_pending_per_miner

  module _ (id : ℕ) (task : ZkTask) (s : State L) (v : IsValid cfg s)
      (found : s.tasks id ≡ some task) (open_task : is_pending task.status ≡ true)
      (passed : Bool) where
    recorded-fresh :
        (k : ℕ) → s.next_task_id ≤ k → (record_verdict cfg id task passed s).tasks k ≡ none
    unfolding record_verdict
    recorded-fresh k h = ground (arith, v.fresh k, lt_of_some cfg s id task v found)

    recorded-backed :
        (a : ℕ)
        → let t = record_verdict cfg id task passed s in
          held owed t.tasks t.next_task_id a
            + (if passed then 0 else at task.miner task.submission_deposit a)
          ≤ currency.reserved t.ledger a
    unfolding record_verdict
    recorded-backed a = ground (
      arith,
      v.backed a,
      lt_of_some cfg s id task v found,
      held-insert owed s.tasks s.next_task_id id a
          (record task { status = if passed then verified else failed }),
    )

    recorded-queued :
        (k : ℕ)
        → let t = record_verdict cfg id task passed s in
          count k t.pending_tasks ≡ is_open (t.tasks k)
    unfolding record_verdict
    recorded-queued k =
        ground (arith, v.queued k, v.queued id, count-remove_from k id s.pending_tasks)

    recorded-counted :
        (a : ℕ)
        → let t = record_verdict cfg id task passed s in
          held waits t.tasks t.next_task_id a ≡ t.miner_pending_count a
    unfolding record_verdict
    recorded-counted a = ground (
      arith,
      v.counted a,
      lt_of_some cfg s id task v found,
      held-insert waits s.tasks s.next_task_id id a
          (record task { status = if passed then verified else failed }),
    )

    recorded-limited :
        (a : ℕ)
        → (record_verdict cfg id task passed s).miner_pending_count a ≤ cfg.max_pending_per_miner
    unfolding record_verdict
    recorded-limited a = ground (arith, v.limited a)

    record_verdict-IsRecorded : IsRecorded task passed (record_verdict cfg id task passed s)
    unfolding record_verdict
    record_verdict-IsRecorded = record {
      fresh = recorded-fresh;
      backed = recorded-backed;
      queued = recorded-queued;
      counted = recorded-counted;
      limited = recorded-limited;
    }

  -- The second half of both calls leaves the tasks, the queue and the counts alone.
  record SameBooks (s t : State L) : Type 0 where
    pub tasks : t.tasks ≡ s.tasks
    pub next_task_id : t.next_task_id ≡ s.next_task_id
    pub pending_tasks : t.pending_tasks ≡ s.pending_tasks
    pub miner_pending_count : t.miner_pending_count ≡ s.miner_pending_count

  settled-IsValid :
      (task : ZkTask) (passed : Bool) (s t : State L)
      → IsRecorded task passed s
      → SameBooks s t
      → ((a : ℕ)
          → currency.reserved s.ledger a
            ≤ currency.reserved t.ledger a
              + (if passed then 0 else at task.miner task.submission_deposit a))
      → IsValid cfg t
  settled-IsValid task passed s t r same kept = record {
    fresh = rw (same.tasks, same.next_task_id) r.fresh;
    backed = λ a. rw (same.tasks, same.next_task_id) (omega (arith, r.backed a, kept a));
    queued = rw (same.tasks, same.pending_tasks) r.queued;
    counted = rw (same.tasks, same.next_task_id, same.miner_pending_count) r.counted;
    limited = rw same.miner_pending_count r.limited;
  }

  settle_verdict-SameBooks :
      (id : ℕ) (task : ZkTask) (passed : Bool) (s : State L)
      → Returns (λ t. SameBooks s t) (settle_verdict cfg id task passed s)
  unfolding settle_verdict
  settle_verdict-SameBooks id task true s = grind arith
  settle_verdict-SameBooks id task false s = grind arith

  abbrev moves : ZkTask → State L → Option (ℕ × L)
  moves task s =
      currency.repatriate_reserved task.miner cfg.account_id task.submission_deposit s.ledger

  settle_verdict-reserved :
      (id : ℕ) (task : ZkTask) (passed : Bool) (s : State L) (a : ℕ)
      → Returns
          (λ t.
            currency.reserved s.ledger a
            ≤ currency.reserved t.ledger a
              + (if passed then 0 else at task.miner task.submission_deposit a))
          (settle_verdict cfg id task passed s)
  unfolding settle_verdict
  settle_verdict-reserved id task true s a = grind arith
  settle_verdict-reserved id task false s a = elim (Option-cases (moves task s)) [
    | inl stuck ↦ ground arith
    | inr ((rest, l), moved) ↦ ground (
      arith,
      lawful.repatriate_reserved_reserved task.miner cfg.account_id task.submission_deposit a
          s.ledger moved,
    )
  ]

  settle_unsigned-SameBooks :
      (id : ℕ) (task : ZkTask) (passed : Bool) (s : State L)
      → SameBooks s (settle_unsigned cfg id task passed s)
  unfolding settle_unsigned
  settle_unsigned-SameBooks id task true s = ground arith
  settle_unsigned-SameBooks id task false s = ground arith

  settle_unsigned-reserved :
      (id : ℕ) (task : ZkTask) (passed : Bool) (s : State L) (a : ℕ)
      → currency.reserved s.ledger a
        ≤ currency.reserved (settle_unsigned cfg id task passed s).ledger a
          + (if passed then 0 else at task.miner task.submission_deposit a)
  unfolding settle_unsigned
  settle_unsigned-reserved id task true s a = ground arith
  settle_unsigned-reserved id task false s a = elim (Option-cases (moves task s)) [
    | inl stuck ↦ ground arith
    | inr ((rest, l), moved) ↦ ground (
      arith,
      lawful.repatriate_reserved_reserved task.miner cfg.account_id task.submission_deposit a
          s.ledger moved,
    )
  ]

  events-IsValid :
      (u t : State L) → SameBooks u t → t.ledger ≡ u.ledger → IsValid cfg u → IsValid cfg t
  events-IsValid u t same e v = record {
    fresh = rw (same.tasks, same.next_task_id) v.fresh;
    backed = rw (same.tasks, same.next_task_id, e) v.backed;
    queued = rw (same.tasks, same.pending_tasks) v.queued;
    counted = rw (same.tasks, same.next_task_id, same.miner_pending_count) v.counted;
    limited = rw same.miner_pending_count v.limited;
  }

  apply_verdict-IsValid :
      (verifier id : ℕ) (task : ZkTask) (passed : Bool) (s : State L)
      → IsValid cfg s
      → s.tasks id ≡ some task
      → is_pending task.status ≡ true
      → Returns (λ t. IsValid cfg t) (apply_verdict cfg verifier id task passed s)
  unfolding apply_verdict
  apply_verdict-IsValid verifier id task passed s v found open_task =
      Returns-bind (λ t. IsValid cfg t) (settle_verdict cfg id task passed before) _
        λ t settled.
          let same =
            of_Returns (λ u. SameBooks before u) _ (settle_verdict-SameBooks id task passed before)
              settled in
          let kept = λ (a : ℕ).
            of_Returns
              (λ u.
                currency.reserved before.ledger a
                ≤ currency.reserved u.ledger a
                  + (if passed then 0 else at task.miner task.submission_deposit a))
              _ (settle_verdict-reserved id task passed before a) settled in
          events-IsValid t _
            (record {
              tasks = refl;
              next_task_id = refl;
              pending_tasks = refl;
              miner_pending_count = refl;
            })
            refl
            (settled-IsValid task passed before t
              (record_verdict-IsRecorded id task s v found open_task passed) same kept)
    where
      before : State L
      before = record_verdict cfg id task passed s

  pub verify_task-IsValid :
      (o : Origin) (now id : ℕ) (s : State L)
      → IsValid cfg s
      → Returns (λ t. IsValid cfg t) (verify_task cfg o now id s)
  unfolding verify_task
  verify_task-IsValid root now id s v = tt
  verify_task-IsValid unsigned now id s v = tt
  verify_task-IsValid (signed who) now id s v = elim (Option-cases (s.tasks id)) [
    | inl e ↦ ground arith
    | inr (task, found) ↦ ground (
      arith,
      apply_verdict-IsValid who id task
          (if ltb (task.submitted_at + cfg.verification_timeout) now
            then false
            else cfg.verifier task.proof task.dimensions)
          s v found,
    )
  ]

  unsigned_verdict :
      (id : ℕ) (task : ZkTask) (passed : Bool) (s : State L)
      → IsValid cfg s
      → s.tasks id ≡ some task
      → is_pending task.status ≡ true
      → IsValid cfg (settle_unsigned cfg id task passed (record_verdict cfg id task passed s))
  unsigned_verdict id task passed s v found open_task =
      settled-IsValid task passed before (settle_unsigned cfg id task passed before)
        (record_verdict-IsRecorded id task s v found open_task passed)
        (settle_unsigned-SameBooks id task passed before)
        (settle_unsigned-reserved id task passed before)
    where
      before : State L
      before = record_verdict cfg id task passed s

  pub submit_verification_unsigned-IsValid :
      (o : Origin) (id : ℕ) (passed : Bool) (s : State L)
      → IsValid cfg s
      → Returns (λ t. IsValid cfg t) (submit_verification_unsigned cfg o id passed s)
  unfolding submit_verification_unsigned
  submit_verification_unsigned-IsValid root id passed s v = tt
  submit_verification_unsigned-IsValid (signed who) id passed s v = tt
  submit_verification_unsigned-IsValid unsigned id passed s v = elim (Option-cases (s.tasks id)) [
    | inl e ↦ ground arith
    | inr (task, found) ↦ ground (arith, unsigned_verdict id task passed s v found)
  ]
