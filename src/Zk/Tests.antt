-- ===== src/Zk/Tests.antt =====
-- Runs of pallets/zk-compute/src/lib.rs, and its theorems at concrete states. Account 1 is the miner
-- and 50 the pallet's account; a proof is good if it has one byte.
use deep_brain_chain.Prelude.{
  ℕ, ◌==◌, ◌≡◌, refl, some, none, arith, ok, err, is_ok, false, List, [], ◌∷◌, after, length,
}
use deep_brain_chain.Frame.Origin.{signed, unsigned}
use deep_brain_chain.Frame.Ledger.{Ledger, ledger_currency, ledger_currency-IsLawful, start_ledger}
use deep_brain_chain.Frame.Escrow.{held-zero}
use deep_brain_chain.Zk.{
  Config, State, ZkTask, pending, verified, failed, too_many_verified_tasks, submit_unsigned, valid,
  valid_dimensions, current_miner_score, submit_proof, verify_task, apply_verdict, claim_reward,
  calculate_reward, submit_verification_unsigned, validate_unsigned,
}
use deep_brain_chain.Zk.Removal.{remove_from}
use deep_brain_chain.Zk.Deposits.{IsValid, owed, waits}
use deep_brain_chain.Zk.Steps.{
  submit, verify, claim, here, next, dispatch, dispatch-IsValid, Reach-IsValid_tasks,
}
use deep_brain_chain.Zk.Claims.{IsRewarded, claim-IsRewarded}
use deep_brain_chain.Zk.Once.{claim_once}
use deep_brain_chain.Zk.History.{full_history_refuses}
use deep_brain_chain.Zk.Unsigned.{ticket, submit_unsigned_decides}

abbrev cfg : Config Ledger
cfg = record {
  currency = ledger_currency;
  verifier = λ proof d. length proof == 1;
  max_proof_size = 8;
  max_pending_tasks = 3;
  max_verified_tasks = 1;
  max_pending_per_miner = 2;
  base_reward = 1000000;
  submission_deposit = 100;
  verification_timeout = 20;
  initial_miner_score = 50;
  min_miner_score_to_submit = 10;
  max_miner_score = 100;
  score_on_success = 5;
  score_penalty_on_failure = 10;
  account_id = 50;
}

abbrev start : State Ledger
start = record {
  next_task_id = 0;
  tasks = λ k. none;
  pending_tasks = [];
  verified_tasks = [];
  miner_scores = λ a. none;
  used_nonces = λ a n. false;
  miner_pending_count = λ a. 0;
  ledger = start_ledger;
  events = [];
}

abbrev proof : List ℕ
proof = 7 ∷ []

abbrev submitted : State Ledger
unfolding submit_proof valid_dimensions current_miner_score
submitted = after start (submit_proof cfg (signed 1) 10 proof (2, 3, 5) 120 1 start)

abbrev checked : State Ledger
unfolding submit_proof valid_dimensions current_miner_score verify_task apply_verdict remove_from
checked = after submitted (verify_task cfg (signed 4) 12 0 submitted)

abbrev paid : State Ledger
unfolding submit_proof valid_dimensions current_miner_score verify_task apply_verdict remove_from
    claim_reward calculate_reward
paid = after checked (claim_reward cfg (signed 1) 0 checked)

paid_balances : (paid.ledger.free 1 ≡ 1036) × (paid.ledger.reserved 1 ≡ 0)
unfolding submit_proof valid_dimensions current_miner_score verify_task apply_verdict remove_from
    claim_reward calculate_reward
paid_balances = (refl, refl)

start-IsValid : IsValid cfg start
start-IsValid = record {
  fresh = λ k h. refl;
  backed = λ a. omega (arith, held-zero owed start.tasks a);
  queued = λ k. refl;
  counted = λ a. held-zero waits start.tasks a;
  limited = λ a. omega arith;
}

submit_runs : dispatch cfg (signed 1) 10 (submit proof (2, 3, 5) 120 1) start ≡ ok submitted
unfolding dispatch submit_proof valid_dimensions current_miner_score
submit_runs = refl

verify_runs : dispatch cfg (signed 4) 12 (verify 0) submitted ≡ ok checked
unfolding dispatch submit_proof valid_dimensions current_miner_score verify_task apply_verdict
    remove_from
verify_runs = refl

claim_runs : claim_reward cfg (signed 1) 0 checked ≡ ok paid
unfolding submit_proof valid_dimensions current_miner_score verify_task apply_verdict remove_from
    claim_reward calculate_reward
claim_runs = refl

submitted-IsValid : IsValid cfg submitted
submitted-IsValid =
    dispatch-IsValid cfg ledger_currency-IsLawful (signed 1) 10 (submit proof (2, 3, 5) 120 1) start
      submitted (omega arith) start-IsValid submit_runs

checked-IsValid : IsValid cfg checked
checked-IsValid =
    dispatch-IsValid cfg ledger_currency-IsLawful (signed 4) 12 (verify 0) submitted checked
      (omega arith) submitted-IsValid verify_runs

paid-IsValid : IsValid cfg paid
unfolding dispatch
paid-IsValid =
    dispatch-IsValid cfg ledger_currency-IsLawful (signed 1) 15 (claim 0) checked paid (omega arith)
      checked-IsValid claim_runs

Reach-IsValid_tasks_example : IsValid cfg checked
Reach-IsValid_tasks_example =
    Reach-IsValid_tasks cfg ledger_currency-IsLawful (omega arith) start-IsValid (
      next (signed 4) 12 (verify 0)
        (next (signed 1) 10 (submit proof (2, 3, 5) 120 1) here submit_runs) verify_runs)

abbrev task : ZkTask
task = record {
  task_id = 0;
  miner = 1;
  proof = proof;
  dimensions = (2, 3, 5);
  status = pending;
  base_reward = 1000000;
  multiplier_q100 = 120;
  submitted_at = 10;
  submission_deposit = 100;
  reward_claimed = false;
}

abbrev checked_task : ZkTask
checked_task = record task { status = verified }

claim-IsRewarded_example :
    (reward : ℕ) × (1 ≡ checked_task.miner)
    × (checked_task.status ≡ verified)
    × (checked_task.reward_claimed ≡ false)
    × (calculate_reward checked_task ≡ ok reward)
    × IsRewarded cfg 0 reward checked_task checked paid
unfolding submit_proof valid_dimensions current_miner_score verify_task apply_verdict remove_from
claim-IsRewarded_example =
    claim-IsRewarded cfg ledger_currency-IsLawful 1 0 checked paid checked_task checked-IsValid refl
      claim_runs

claim_once_example : is_ok (claim_reward cfg (signed 1) 0 paid) ≡ false
claim_once_example =
    claim_once cfg ledger_currency-IsLawful (omega arith) (signed 1) (signed 1) 0 checked paid paid
      paid-IsValid claim_runs here

submit_unsigned_decides_example :
    (validate_unsigned cfg (submit_unsigned 0 false) submitted ≡ valid (ticket 0))
    × ((t : State Ledger) × (submit_verification_unsigned cfg unsigned 0 false submitted ≡ ok t)
        × (t.tasks 0 ≡ some (record task { status = failed })))
unfolding submit_proof valid_dimensions current_miner_score
submit_unsigned_decides_example = submit_unsigned_decides cfg 0 task false submitted refl refl

-- The history has room for one task; a second one is then refused.
abbrev full : State Ledger
unfolding submit_proof valid_dimensions current_miner_score verify_task apply_verdict remove_from
full = after checked (submit_proof cfg (signed 1) 13 proof (2, 3, 5) 120 2 checked)

full_history_refuses_example : verify_task cfg (signed 4) 14 1 full ≡ err too_many_verified_tasks
unfolding submit_proof valid_dimensions current_miner_score verify_task apply_verdict remove_from
    dispatch
full_history_refuses_example =
    full_history_refuses cfg 4 14 1 checked full (record task { task_id = 1; submitted_at = 13 })
      (omega arith) (next (signed 1) 13 (submit proof (2, 3, 5) 120 2) here refl) refl refl
      (omega arith) (omega arith) refl
