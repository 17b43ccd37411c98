-- ===== src/Zk.antt =====
-- pallets/zk-compute/src/lib.rs: proofs of computation that a miner submits against a deposit, that
-- are verified on chain or by the off-chain worker, and the reward for a verified one.
mod Types
pub mod Removal
pub mod Rewards
pub mod Deposits
pub mod Verdicts
pub mod Steps
pub mod Claims
pub mod Unsigned
pub mod Once
pub mod History
mod Tests
pub use Types.*
use deep_brain_chain.Prelude.{
  ℕ, suc, ◌+◌, ◌-◌, ◌*◌, ◌/◌, min, ◌≡◌, Bool, true, false, not, ◌&&◌, ◌||◌, Option, none, some,
  List, [], ◌∷◌, ◌++◌, arith, Result, ok, err, ◌>>=◌, ◌>>◌, guard, or_fail, update, update₂, insert,
  is_some, leb, ltb, ◌==◌, if◌then◌else◌, u32_max, u64_max, u128_max, checked_add, checked_mul,
  saturating_add, length, retain, contains, try_into, try_push,
}
use deep_brain_chain.Frame.Currency.{Currency, ExistenceRequirement, allow_death}
use deep_brain_chain.Frame.Origin.{Origin, ensure_signed, ensure_none}
use Removal.{remove_from}

-- `(m as u128).checked_mul(n).and_then(|v| v.checked_mul(k))`
pub checked_volume : Dimensions → Option ℕ
checked_volume (m, n, k) = elim (checked_mul u128_max m n) [
  | none ↦ none
  | some v ↦ checked_mul u128_max v k
]

pub valid_dimensions : Dimensions → Bool
unfolding checked_volume
valid_dimensions (m, n, k) =
    if m == 0 || (n == 0 || k == 0) then false else is_some (checked_volume (m, n, k))

pub calculate_reward : ZkTask → Result Error ℕ
unfolding checked_volume
calculate_reward task = do
  volume ← or_fail (checked_volume task.dimensions) arithmetic_overflow
  scaled ← or_fail (checked_mul u128_max task.base_reward volume) arithmetic_overflow
  numerator ← or_fail (checked_mul u128_max scaled task.multiplier_q100) arithmetic_overflow
  ok (numerator / 100_000_000)

module _ {L : Type 0} (cfg : Config L) where
  open cfg use {currency}

  pub current_miner_score : ℕ → State L → ℕ
  current_miner_score miner s = elim (s.miner_scores miner) [
    | none ↦ cfg.initial_miner_score
    | some score ↦ score
  ]

  abbrev put_score : ℕ → ℕ → State L → State L
  put_score miner score s = record s {
    miner_scores = insert s.miner_scores miner score;
    events = miner_score_updated miner score ∷ s.events;
  }

  pub increase_score : ℕ → State L → State L
  unfolding current_miner_score
  increase_score miner s =
      put_score miner
        (min (saturating_add u32_max (current_miner_score miner s) cfg.score_on_success)
          cfg.max_miner_score)
        s

  pub decrease_score : ℕ → State L → State L
  unfolding current_miner_score
  decrease_score miner s =
      put_score miner (current_miner_score miner s - cfg.score_penalty_on_failure) s

  pub submit_proof : Origin → ℕ → List ℕ → Dimensions → ℕ → ℕ → State L → Result Error (State L)
  submit_proof origin now proof dimensions multiplier_q100 nonce s = do
    miner ← ensure_signed bad_origin origin
    guard (valid_dimensions dimensions) invalid_dimensions
    guard (leb 120 multiplier_q100 && leb multiplier_q100 150) invalid_multiplier
    guard (not (s.used_nonces miner nonce)) nonce_already_used
    guard (leb cfg.min_miner_score_to_submit (current_miner_score miner s)) insufficient_miner_score
    let pending_count = s.miner_pending_count miner
    guard (ltb pending_count cfg.max_pending_per_miner) too_many_pending_tasks_for_miner
    bounded_proof ← or_fail (try_into cfg.max_proof_size proof) proof_too_large
    ledger ← or_fail (currency.reserve miner cfg.submission_deposit s.ledger) currency_error
    let task_id = s.next_task_id
    next_task_id ← or_fail (checked_add u64_max task_id 1) task_id_overflow
    queue ← or_fail (try_push cfg.max_pending_tasks s.pending_tasks task_id) too_many_pending_tasks
    ok (record s {
      pending_tasks = queue;
      tasks = insert s.tasks task_id (record {
        task_id = task_id;
        miner = miner;
        proof = bounded_proof;
        dimensions = dimensions;
        status = pending;
        base_reward = cfg.base_reward;
        multiplier_q100 = multiplier_q100;
        submitted_at = now;
        submission_deposit = cfg.submission_deposit;
        reward_claimed = false;
      });
      next_task_id = next_task_id;
      used_nonces = update₂ s.used_nonces miner nonce true;
      miner_pending_count =
          update s.miner_pending_count miner (saturating_add u32_max pending_count 1);
      ledger = ledger;
      events = proof_submitted task_id miner nonce dimensions ∷ s.events;
    })

  -- What both verification calls write first: the status, the queue and the miner's count.
  pub record_verdict : ℕ → ZkTask → Bool → State L → State L
  record_verdict task_id task passed s = record s {
    tasks = insert s.tasks task_id (record task { status = if passed then verified else failed });
    pending_tasks = remove_from task_id s.pending_tasks;
    miner_pending_count =
        update s.miner_pending_count task.miner (s.miner_pending_count task.miner - 1);
  }

  -- The event of a slashed deposit, whose amount is the deposit less what `repatriate_reserved`
  -- returns.
  slash_events : ℕ → ZkTask → ℕ → List Event → List Event
  slash_events task_id task moved events =
      let slashed = task.submission_deposit - moved in
      if slashed == 0 then events else deposit_slashed task_id task.miner slashed ∷ events

  settle_verdict : ℕ → ZkTask → Bool → State L → Result Error (State L)
  unfolding increase_score decrease_score slash_events
  settle_verdict task_id task true s = do
    history ←
        or_fail (try_push cfg.max_verified_tasks s.verified_tasks task_id) too_many_verified_tasks
    ok (increase_score task.miner (record s { verified_tasks = history }))
  settle_verdict task_id task false s = do
    let t = decrease_score task.miner s
    moved ←
        or_fail
          (currency.repatriate_reserved task.miner cfg.account_id task.submission_deposit t.ledger)
          currency_error
    ok (record t { ledger = moved.1; events = slash_events task_id task moved.0 t.events })

  -- The rest of `verify_task`, from the new status on.
  pub apply_verdict : ℕ → ℕ → ZkTask → Bool → State L → Result Error (State L)
  unfolding record_verdict settle_verdict
  apply_verdict verifier task_id task passed s = do
    t ← settle_verdict task_id task passed (record_verdict task_id task passed s)
    ok (record t {
      events = proof_verified task_id verifier (if passed then verified else failed) ∷ t.events;
    })

  pub verify_task : Origin → ℕ → ℕ → State L → Result Error (State L)
  verify_task origin now task_id s = do
    verifier ← ensure_signed bad_origin origin
    task ← or_fail (s.tasks task_id) task_not_found
    guard (is_pending task.status) invalid_task_status
    deadline ←
        or_fail (checked_add u32_max task.submitted_at cfg.verification_timeout) arithmetic_overflow
    let passed = if ltb deadline now then false else cfg.verifier task.proof task.dimensions
    apply_verdict verifier task_id task passed s

  pub claim_reward : Origin → ℕ → State L → Result Error (State L)
  claim_reward origin task_id s = do
    miner ← ensure_signed bad_origin origin
    task ← or_fail (s.tasks task_id) task_not_found
    guard (task.miner == miner) not_task_miner
    guard (is_verified task.status) task_not_verified
    guard (not task.reward_claimed) reward_already_claimed
    reward ← calculate_reward task
    ledger ←
        or_fail (currency.transfer cfg.account_id task.miner reward allow_death s.ledger)
          balance_transfer_failed
    ok (record s {
      ledger = currency.unreserve task.miner task.submission_deposit ledger;
      tasks = insert s.tasks task_id (record task { reward_claimed = true });
      events = reward_claimed_by task_id miner reward ∷ s.events;
    })

  -- The currency's and the history's refusals are dropped here.
  settle_unsigned : ℕ → ZkTask → Bool → State L → State L
  unfolding increase_score decrease_score
  settle_unsigned task_id task true s =
      increase_score task.miner (elim (try_push cfg.max_verified_tasks s.verified_tasks task_id) [
        | none ↦ s
        | some history ↦ record s { verified_tasks = history }
      ])
  settle_unsigned task_id task false s =
      let t = decrease_score task.miner s in
      elim (currency.repatriate_reserved task.miner cfg.account_id task.submission_deposit
        t.ledger) [ none ↦ t | some moved ↦ record t { ledger = moved.1 } ]

  pub submit_verification_unsigned : Origin → ℕ → Bool → State L → Result Error (State L)
  unfolding record_verdict settle_unsigned
  submit_verification_unsigned origin task_id passed s = do
    ensure_none bad_origin origin
    task ← or_fail (s.tasks task_id) task_not_found
    guard (is_pending task.status) invalid_task_status
    let t = settle_unsigned task_id task passed (record_verdict task_id task passed s)
    ok (record t { events = proof_verified_by_ocw task_id passed ∷ t.events })

  pub validate_unsigned : Call → State L → Validity
  validate_unsigned (submit_unsigned task_id passed) s = elim (s.tasks task_id) [
    | none ↦ bad_proof
    | some task ↦
        if not (is_pending task.status)
        then stale
        else valid (record { priority = 100; provides = task_id; longevity = 5; propagate = true })
  ]
  validate_unsigned other_call s = invalid_call

  -- The unsigned calls that the off-chain worker submits, in the order of the queue.
  pub ocw_verify : List ℕ → State L → List Call
  ocw_verify [] s = []
  ocw_verify (task_id ∷ ids) s =
      let rest = ocw_verify ids s in
      elim (s.tasks task_id) [
        | none ↦ rest
        | some task ↦
            if is_pending task.status
            then submit_unsigned task_id (cfg.verifier task.proof task.dimensions) ∷ rest
            else rest
      ]

  pub ocw_verify_pending_tasks : State L → List Call
  unfolding ocw_verify
  ocw_verify_pending_tasks s = ocw_verify s.pending_tasks s
