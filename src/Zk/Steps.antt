-- ===== src/Zk/Steps.antt =====
-- Sequences of calls of pallets/zk-compute/src/lib.rs, and the invariant that they keep.
use deep_brain_chain.Prelude.{
  ℕ, ◌≤◌, ◌≡◌, none, arith, ok, Result, Returns, of_Returns, Bool, List, Option-cases, inl, inr,
  u32_max,
}
use deep_brain_chain.Frame.Origin.{Origin}
use deep_brain_chain.Frame.Currency.{IsLawful}
use deep_brain_chain.Frame.Escrow.{held, held-insert}
use deep_brain_chain.Zk.{
  Config, State, Dimensions, Error, submit_proof, verify_task, claim_reward,
  submit_verification_unsigned,
}
use deep_brain_chain.Zk.Removal.{count}
use deep_brain_chain.Zk.Deposits.{
  owed, waits, is_open, IsValid, lt_of_some, submit-fresh, submit-backed, submit-queued,
  submit-counted, submit-limited,
}
use deep_brain_chain.Zk.Verdicts.{verify_task-IsValid, submit_verification_unsigned-IsValid}

pub data Extrinsic : Type 0 where
  submit : (proof : List ℕ) → Dimensions → (multiplier_q100 nonce : ℕ) → Extrinsic
  verify claim : (task_id : ℕ) → Extrinsic
  report : (task_id : ℕ) → Bool → Extrinsic

unfoldable pub dispatch :
    {L : Type 0} → Config L → Origin → ℕ → Extrinsic → State L → Result Error (State L)
dispatch cfg o now (submit p d q n) s = submit_proof cfg o now p d q n s
dispatch cfg o now (verify id) s = verify_task cfg o now id s
dispatch cfg o now (claim id) s = claim_reward cfg o id s
dispatch cfg o now (report id passed) s = submit_verification_unsigned cfg o id passed s

pub data Reach {L : Type 0} (cfg : Config L) (s : State L) : State L → Type 0 where
  here : Reach cfg s s
  next :
      {t u : State L} (o : Origin) (now : ℕ) (c : Extrinsic)
      → Reach cfg s t
      → dispatch cfg o now c t ≡ ok u
      → Reach cfg s u

module _ {L : Type 0} (cfg : Config L) (lawful : IsLawful cfg.currency) where
  open cfg use {currency}

  claim-fresh :
      (o : Origin) (id : ℕ) (s : State L) (k : ℕ)
      → IsValid cfg s
      → Returns (λ t. t.next_task_id ≤ k → t.tasks k ≡ none) (claim_reward cfg o id s)
  unfolding claim_reward
  claim-fresh o id s k v = elim (Option-cases (s.tasks id)) [
    | inl e ↦ ground arith
    | inr (task, e) ↦ grind (arith, v.fresh k, lt_of_some cfg s id task v e)
  ]

  claim-backed :
      (o : Origin) (id : ℕ) (s : State L) (a : ℕ)
      → IsValid cfg s
      → Returns
          (λ t. held owed t.tasks t.next_task_id a ≤ currency.reserved t.ledger a)
          (claim_reward cfg o id s)
  unfolding claim_reward
  claim-backed o id s a v = elim (Option-cases (s.tasks id)) [
    | inl e ↦ ground arith
    | inr (task, e) ↦ grind (
      arith,
      v.backed a,
      lt_of_some cfg s id task v e,
      lawful.transfer_reserved,
      lawful.unreserve_reserved,
      held-insert owed s.tasks s.next_task_id id a,
    )
  ]

  claim-queued :
      (o : Origin) (id : ℕ) (s : State L) (k : ℕ)
      → IsValid cfg s
      → Returns (λ t. count k t.pending_tasks ≡ is_open (t.tasks k)) (claim_reward cfg o id s)
  unfolding claim_reward
  claim-queued o id s k v = elim (Option-cases (s.tasks id)) [
    | inl e ↦ ground arith
    | inr (task, e) ↦ grind (arith, v.queued k)
  ]

  claim-counted :
      (o : Origin) (id : ℕ) (s : State L) (a : ℕ)
      → IsValid cfg s
      → Returns
          (λ t. held waits t.tasks t.next_task_id a ≡ t.miner_pending_count a)
          (claim_reward cfg o id s)
  unfolding claim_reward
  claim-counted o id s a v = elim (Option-cases (s.tasks id)) [
    | inl e ↦ ground arith
    | inr (task, e) ↦ grind (
      arith,
      v.counted a,
      lt_of_some cfg s id task v e,
      held-insert waits s.tasks s.next_task_id id a,
    )
  ]

  claim-limited :
      (o : Origin) (id : ℕ) (s : State L) (a : ℕ)
      → IsValid cfg s
      → Returns (λ t. t.miner_pending_count a ≤ cfg.max_pending_per_miner) (claim_reward cfg o id s)
  unfolding claim_reward
  claim-limited o id s a v = grind (arith, v.limited a)

  submit-IsValid :
      (o : Origin) (now : ℕ) (p : List ℕ) (d : Dimensions) (q n : ℕ) (s t : State L)
      → cfg.max_pending_per_miner ≤ u32_max
      → IsValid cfg s
      → submit_proof cfg o now p d q n s ≡ ok t
      → IsValid cfg t
  submit-IsValid o now p d q n s t small v e = record {
    fresh = λ k.
        of_Returns (λ u. u.next_task_id ≤ k → u.tasks k ≡ none) _
          (submit-fresh cfg lawful o now p d q n s k v) e;
    backed = λ a.
        of_Returns (λ u. held owed u.tasks u.next_task_id a ≤ currency.reserved u.ledger a) _
          (submit-backed cfg lawful o now p d q n s a v) e;
    queued = λ k.
        of_Returns (λ u. count k u.pending_tasks ≡ is_open (u.tasks k)) _
          (submit-queued cfg lawful o now p d q n s k v) e;
    counted = λ a.
        of_Returns (λ u. held waits u.tasks u.next_task_id a ≡ u.miner_pending_count a) _
          (submit-counted cfg lawful o now p d q n s a small v) e;
    limited = λ a.
        of_Returns (λ u. u.miner_pending_count a ≤ cfg.max_pending_per_miner) _
          (submit-limited cfg lawful o now p d q n s a small v) e;
  }

  claim-IsValid :
      (o : Origin) (id : ℕ) (s t : State L)
      → IsValid cfg s
      → claim_reward cfg o id s ≡ ok t
      → IsValid cfg t
  claim-IsValid o id s t v e = record {
    fresh =
        λ k. of_Returns (λ u. u.next_task_id ≤ k → u.tasks k ≡ none) _ (claim-fresh o id s k v) e;
    backed = λ a.
        of_Returns (λ u. held owed u.tasks u.next_task_id a ≤ currency.reserved u.ledger a) _
          (claim-backed o id s a v) e;
    queued = λ k.
        of_Returns (λ u. count k u.pending_tasks ≡ is_open (u.tasks k)) _ (claim-queued o id s k v)
          e;
    counted = λ a.
        of_Returns (λ u. held waits u.tasks u.next_task_id a ≡ u.miner_pending_count a) _
          (claim-counted o id s a v) e;
    limited = λ a.
        of_Returns (λ u. u.miner_pending_count a ≤ cfg.max_pending_per_miner) _
          (claim-limited o id s a v) e;
  }

  pub dispatch-IsValid :
      (o : Origin) (now : ℕ) (c : Extrinsic) (s t : State L)
      → cfg.max_pending_per_miner ≤ u32_max
      → IsValid cfg s
      → dispatch cfg o now c s ≡ ok t
      → IsValid cfg t
  unfolding dispatch
  dispatch-IsValid o now (submit p d q n) s t small v e = submit-IsValid o now p d q n s t small v e
  dispatch-IsValid o now (verify id) s t small v e =
      of_Returns (λ u. IsValid cfg u) _ (verify_task-IsValid cfg lawful o now id s v) e
  dispatch-IsValid o now (claim id) s t small v e = claim-IsValid o id s t v e
  dispatch-IsValid o now (report id passed) s t small v e =
      of_Returns (λ u. IsValid cfg u) _
        (submit_verification_unsigned-IsValid cfg lawful o id passed s v) e

  -- After every history, every miner's reserve covers the deposits of the miner's pending and
  -- unclaimed tasks, the queue holds every pending task exactly once and no other, each miner's
  -- count is the number of the miner's pending tasks and within its limit, and no identifier from
  -- the next one on is in use.
  pub Reach-IsValid_tasks :
      {s t : State L}
      → cfg.max_pending_per_miner ≤ u32_max
      → IsValid cfg s
      → Reach cfg s t
      → IsValid cfg t
  Reach-IsValid_tasks small v here = v
  Reach-IsValid_tasks small v (next {t} {u} o now c r e) =
      dispatch-IsValid o now c t u small (Reach-IsValid_tasks small v r) e
