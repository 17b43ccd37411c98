-- ===== src/Scheduler/Tests.antt =====
-- Runs of pallets/compute-pool-scheduler/src/lib.rs, and its theorems at concrete states. Account 1 owns a
-- pool, 2 is a user, 3 verifies and 4 stakes.
use deep_brain_chain.Prelude.{
  min, ◌-◌, is_ok, Returns, insert, ℕ, ◌+◌, ◌≤◌, ◌≡◌, refl, some, none, arith, ok, [], ◌∷◌, after,
  true, false,
}
use deep_brain_chain.Frame.Origin.{signed}
use deep_brain_chain.Frame.Currency.{at}
use deep_brain_chain.Frame.Ledger.{Ledger, ledger_currency, ledger_currency-IsLawful, start_ledger}
use deep_brain_chain.Frame.Completion.{TaskCompletionHandler, ReleasesNothing}
use deep_brain_chain.Frame.Escrow.{held-zero}
use deep_brain_chain.Scheduler.{
  Config, State, ComputePool, TaskDimensions, normal, register_pool, ensure_nvlink, submit_task,
  choose_pool, assign_task, select_best_pool_for_task, entries, candidates, best_of, min_price_of,
  max_price_of, calculate_pool_score, calculate_reward, submit_proof, verify_proof,
  finalize_verification, record_result, decrement_pool_activity, update_reputation, settle_result,
  offer_reward, notify_completed, claim_reward, stake_to_pool, unstake_from_pool,
  dispute_verification, overturn_approval, release_escrow, slash_pool, is_candidate, new_pool,
}
use deep_brain_chain.Scheduler.Claims.{IsValid}
use deep_brain_chain.Scheduler.Reserves.{staked_below-zero}
use deep_brain_chain.Scheduler.Submission.{IsCapped}
use deep_brain_chain.Scheduler.Payments.{
  IsClaimable, IsClaimed, claim-IsClaimed, IsRestored, unstake-stake,
}
use deep_brain_chain.Scheduler.Overturned.{IsOverturnable, dispute-unreserves}
use deep_brain_chain.Scheduler.Ranking.{calculate_reward-ge, select-IsBest, choices, IsTop}
use deep_brain_chain.Scheduler.Lifecycle.{Life}
use deep_brain_chain.Scheduler.Refinement.{phase_at}
use deep_brain_chain.Scheduler.Refines.{Reach-Life}
use deep_brain_chain.Scheduler.Steps.{
  register, submit, prove, verify, claim, dispute, stake, dispatch, Reach, here, next,
  Reach-IsValid_pools,
}

-- The handler counts the tasks that it is told of.
abbrev counter : TaskCompletionHandler ℕ Ledger
counter = record {
  CompletionError = Unit {0};
  on_task_completed = λ now attester task hash model input output (w, l). (ok w, (w + 1, l));
}

counter-ReleasesNothing : ReleasesNothing ledger_currency counter
counter-ReleasesNothing now attester task hash model input output a w l = omega arith

ledger_currency-IsCapped : IsCapped ledger_currency
ledger_currency-IsCapped who v l l' e = ground arith

abbrev cfg : Config ℕ Ledger
cfg = record {
  currency = ledger_currency;
  on_task_completed = counter;
  pool_deposit = 100;
  task_deposit = 10;
  failure_slash = 30;
  task_timeout = 50;
  max_tasks_per_pool = 2;
  initial_reputation = 50;
  verification_timeout = 5;
}

abbrev start : State ℕ Ledger
start = record {
  next_pool_id = 0;
  next_task_id = 0;
  pools = λ k. none;
  pool_by_owner = λ a. none;
  tasks = λ k. none;
  pool_tasks = λ k. [];
  active_task_count = λ k. 0;
  miner_reputation =
      λ a. record { reputation = 0; total_tasks = 0; successful_tasks = 0; failed_tasks = 0 };
  rewards = λ k. none;
  task_escrow = λ k. none;
  pool_stakes = λ k a. 0;
  total_pool_stake = λ k. 0;
  proof_submitted_at = λ k. none;
  ledger = start_ledger;
  handler = 0;
  events = [];
}

start-IsValid : IsValid cfg start
start-IsValid = record {
  safe = record {
    fresh = record { pools = λ k h. refl; escrows = λ k h. refl; stakes = λ k a h. refl };
    backed = λ a. grind (arith, held-zero, staked_below-zero);
  };
  agrees = record { new_tasks = λ k h. refl; new_rewards = λ k h. refl; linked = λ k. tt };
}

-- A pool of 64 with efficiency 120, at 20 a task.
abbrev registered : State ℕ Ledger
unfolding register_pool ensure_nvlink
registered = after start (register_pool cfg (signed 1) [] 64 true 120 20 start)

abbrev new_pool_of : State ℕ Ledger → ComputePool
new_pool_of s = elim (s.pools 0) [ none ↦ new_pool 0 0 [] 0 false 0 0 0 0 | some p ↦ p ]

abbrev dimensions : TaskDimensions
dimensions = record { m = 1000; n = 1000; k = 3 }

-- The reward is 20 * 3 * 120 / 100.
abbrev submitted : State ℕ Ledger
unfolding register_pool ensure_nvlink submit_task choose_pool select_best_pool_for_task entries
    candidates best_of min_price_of max_price_of calculate_pool_score assign_task calculate_reward
submitted =
    after registered (submit_task cfg (signed 2) 7 (0 ∷ []) dimensions normal none registered)

submitted_reserve : submitted.ledger.reserved 2 ≡ 82
unfolding submitted register_pool ensure_nvlink submit_task choose_pool select_best_pool_for_task
    entries candidates best_of min_price_of max_price_of calculate_pool_score assign_task
    calculate_reward
submitted_reserve = refl

abbrev proven : State ℕ Ledger
unfolding register_pool ensure_nvlink submit_task choose_pool select_best_pool_for_task entries
    candidates best_of min_price_of max_price_of calculate_pool_score assign_task calculate_reward
    submit_proof
proven = after submitted (submit_proof cfg (signed 1) 9 0 77 submitted)

abbrev approved : State ℕ Ledger
unfolding register_pool ensure_nvlink submit_task choose_pool select_best_pool_for_task entries
    candidates best_of min_price_of max_price_of calculate_pool_score assign_task calculate_reward
    submit_proof verify_proof finalize_verification record_result decrement_pool_activity
    update_reputation settle_result offer_reward notify_completed
approved = after proven (verify_proof cfg (signed 3) 10 0 true proven)

abbrev paid : State ℕ Ledger
unfolding register_pool ensure_nvlink submit_task choose_pool select_best_pool_for_task entries
    candidates best_of min_price_of max_price_of calculate_pool_score assign_task calculate_reward
    submit_proof verify_proof finalize_verification record_result decrement_pool_activity
    update_reputation settle_result offer_reward notify_completed claim_reward
paid = after approved (claim_reward cfg (signed 1) 0 approved)

-- The miner has the reward and the user the deposit.
paid_balances :
    (paid.ledger.free 1 ≡ 972) × (paid.ledger.free 2 ≡ 928) × (paid.ledger.reserved 2 ≡ 0)
unfolding register_pool ensure_nvlink submit_task choose_pool select_best_pool_for_task entries
    candidates best_of min_price_of max_price_of calculate_pool_score assign_task calculate_reward
    submit_proof verify_proof finalize_verification record_result decrement_pool_activity
    update_reputation settle_result offer_reward notify_completed claim_reward
paid_balances = (refl, refl, refl)

to_paid : Reach cfg start paid
unfolding dispatch register_pool ensure_nvlink submit_task choose_pool select_best_pool_for_task
    entries candidates best_of min_price_of max_price_of calculate_pool_score assign_task
    calculate_reward submit_proof verify_proof finalize_verification record_result
    decrement_pool_activity update_reputation settle_result offer_reward notify_completed
    claim_reward
to_paid =
    next
      (next
        (next
          (next (next here (signed 1) 1 (register [] 64 true 120 20) tt refl) (signed 2) 7
            (submit (0 ∷ []) dimensions normal none) tt refl)
          (signed 1) 9 (prove 0 77) tt refl)
        (signed 3) 10 (verify 0 true) tt refl)
      (signed 1) 11 (claim 0) tt refl

Reach-IsValid_pools_example : IsValid cfg paid
Reach-IsValid_pools_example =
    Reach-IsValid_pools cfg ledger_currency-IsLawful ledger_currency-IsCapped
      counter-ReleasesNothing start-IsValid to_paid

to_approved : Reach cfg start approved
unfolding dispatch register_pool ensure_nvlink submit_task choose_pool select_best_pool_for_task
    entries candidates best_of min_price_of max_price_of calculate_pool_score assign_task
    calculate_reward submit_proof verify_proof finalize_verification record_result
    decrement_pool_activity update_reputation settle_result offer_reward notify_completed
to_approved =
    next
      (next
        (next (next here (signed 1) 1 (register [] 64 true 120 20) tt refl) (signed 2) 7
          (submit (0 ∷ []) dimensions normal none) tt refl)
        (signed 1) 9 (prove 0 77) tt refl)
      (signed 3) 10 (verify 0 true) tt refl

approved-IsValid : IsValid cfg approved
approved-IsValid =
    Reach-IsValid_pools cfg ledger_currency-IsLawful ledger_currency-IsCapped
      counter-ReleasesNothing start-IsValid to_approved

selected : State ℕ Ledger
unfolding register_pool ensure_nvlink
selected = record registered {
  pools = insert registered.pools 0 (record (new_pool_of registered) {
    score = calculate_pool_score (new_pool_of registered) 20 20;
  });
}

approved-IsClaimable : IsClaimable approved 1 0
unfolding register_pool ensure_nvlink submit_task choose_pool select_best_pool_for_task entries
    candidates best_of min_price_of max_price_of calculate_pool_score assign_task calculate_reward
    submit_proof verify_proof finalize_verification record_result decrement_pool_activity
    update_reputation settle_result offer_reward notify_completed
approved-IsClaimable = record {
  task = _;
  pool = _;
  escrow = _;
  reward = _;
  has_task = refl;
  is_done = refl;
  is_good = refl;
  has_pool = refl;
  is_owner = refl;
  has_reward = refl;
  has_escrow = refl;
  is_open = refl;
}

claim-IsClaimed_example :
    (t : State ℕ Ledger) × ((claim_reward cfg (signed 1) 0 approved ≡ ok t)
      × IsClaimed cfg ledger_currency-IsLawful 0 1 approved-IsClaimable.escrow approved t)
unfolding approved-IsClaimable register_pool ensure_nvlink submit_task choose_pool
    select_best_pool_for_task entries candidates best_of min_price_of max_price_of
    calculate_pool_score assign_task calculate_reward submit_proof verify_proof
    finalize_verification record_result decrement_pool_activity update_reputation settle_result
    offer_reward notify_completed
claim-IsClaimed_example =
    claim-IsClaimed cfg ledger_currency-IsLawful 1 0 approved 0 _ approved-IsValid
      approved-IsClaimable refl

-- The dispute of a task whose reward was claimed: the user has nothing else in reserve.
paid-IsOverturnable : IsOverturnable paid 2 0
unfolding register_pool ensure_nvlink submit_task choose_pool select_best_pool_for_task entries
    candidates best_of min_price_of max_price_of calculate_pool_score assign_task calculate_reward
    submit_proof verify_proof finalize_verification record_result decrement_pool_activity
    update_reputation settle_result offer_reward notify_completed claim_reward
paid-IsOverturnable = record {
  task = _;
  pool = _;
  escrow = _;
  has_task = refl;
  is_user = refl;
  is_done = refl;
  is_first = refl;
  is_good = refl;
  has_pool = refl;
  has_escrow = refl;
}

staked_state : State ℕ Ledger
unfolding stake_to_pool register_pool ensure_nvlink submit_task choose_pool
    select_best_pool_for_task entries candidates best_of min_price_of max_price_of
    calculate_pool_score assign_task calculate_reward
staked_state = after registered (stake_to_pool cfg (signed 4) 0 300 registered)

unstake-stake_example :
    (u : State ℕ Ledger) × (unstake_from_pool cfg (signed 4) 0 300 staked_state ≡ ok u)
    × IsRestored cfg ledger_currency-IsLawful registered u
unfolding staked_state stake_to_pool register_pool ensure_nvlink submit_task choose_pool
    select_best_pool_for_task entries candidates best_of min_price_of max_price_of
    calculate_pool_score assign_task calculate_reward
unstake-stake_example =
    unstake-stake cfg ledger_currency-IsLawful 4 0 300 registered staked_state (omega arith)
      (omega arith) refl

dispute-unreserves_example :
    (is_ok (dispute_verification cfg (signed 2) 0 paid) ≡ true)
    × Returns (λ t. t.task_escrow 0 ≡ none) (dispute_verification cfg (signed 2) 0 paid)
    × ((a : ℕ)
        → Returns
            (λ t. t.ledger.reserved a ≡ paid.ledger.reserved a - at 2 82 a - at 1 30 a)
            (dispute_verification cfg (signed 2) 0 paid))
    × ((a : ℕ)
        → Returns
            (λ t. t.ledger.free a ≡ paid.ledger.free a + at 2 (min 82 (paid.ledger.reserved 2)) a)
            (dispute_verification cfg (signed 2) 0 paid))
unfolding paid-IsOverturnable register_pool ensure_nvlink submit_task choose_pool
    select_best_pool_for_task entries candidates best_of min_price_of max_price_of
    calculate_pool_score assign_task calculate_reward submit_proof verify_proof
    finalize_verification record_result decrement_pool_activity update_reputation settle_result
    offer_reward notify_completed claim_reward
dispute-unreserves_example =
    dispute-unreserves cfg ledger_currency-IsLawful 2 0 paid paid-IsOverturnable

select-IsBest_example :
    (p : ComputePool) × (registered.pools 0 ≡ some p)
    × (is_candidate cfg 3 registered 0 p ≡ true)
    × (calculate_pool_score (new_pool_of registered) 20 20 ≡ calculate_pool_score p 20 20)
    × (selected.pools 0
        ≡ some (record p { score = calculate_pool_score (new_pool_of registered) 20 20 }))
    × IsTop 20 20 (choices cfg (0 ∷ []) dimensions registered) 7800
unfolding selected register_pool ensure_nvlink select_best_pool_for_task entries candidates best_of
    min_price_of max_price_of calculate_pool_score
select-IsBest_example =
    select-IsBest cfg (0 ∷ []) dimensions registered selected
      (0, calculate_pool_score (new_pool_of registered) 20 20) refl

calculate_reward-ge_example : Returns (λ r. 20 ≤ r) (calculate_reward dimensions 20 true 120)
unfolding ensure_nvlink
calculate_reward-ge_example = calculate_reward-ge dimensions 20 120 true refl

Reach-Life_example : Life (phase_at start 0) (phase_at paid 0)
Reach-Life_example =
    Reach-Life cfg ledger_currency-IsLawful ledger_currency-IsCapped counter-ReleasesNothing 0
      start-IsValid to_paid

-- The user disputes the approval.
abbrev disputed_state : State ℕ Ledger
unfolding register_pool ensure_nvlink submit_task choose_pool select_best_pool_for_task entries
    candidates best_of min_price_of max_price_of calculate_pool_score assign_task calculate_reward
    submit_proof verify_proof finalize_verification record_result decrement_pool_activity
    update_reputation settle_result offer_reward notify_completed dispute_verification
    overturn_approval release_escrow slash_pool
disputed_state = after approved (dispute_verification cfg (signed 2) 0 approved)

to_disputed : Reach cfg approved disputed_state
unfolding dispatch register_pool ensure_nvlink submit_task choose_pool select_best_pool_for_task
    entries candidates best_of min_price_of max_price_of calculate_pool_score assign_task
    calculate_reward submit_proof verify_proof finalize_verification record_result
    decrement_pool_activity update_reputation settle_result offer_reward notify_completed
    dispute_verification overturn_approval release_escrow slash_pool
to_disputed = next here (signed 2) 12 (dispute 0) refl refl

disputed_state-IsValid : IsValid cfg disputed_state
disputed_state-IsValid =
    Reach-IsValid_pools cfg ledger_currency-IsLawful ledger_currency-IsCapped
      counter-ReleasesNothing approved-IsValid to_disputed

-- And then stakes.
abbrev later : State ℕ Ledger
unfolding stake_to_pool register_pool ensure_nvlink submit_task choose_pool
    select_best_pool_for_task entries candidates best_of min_price_of max_price_of
    calculate_pool_score assign_task calculate_reward submit_proof verify_proof
    finalize_verification record_result decrement_pool_activity update_reputation settle_result
    offer_reward notify_completed dispute_verification overturn_approval release_escrow slash_pool
later = after disputed_state (stake_to_pool cfg (signed 4) 0 300 disputed_state)

to_later : Reach cfg disputed_state later
unfolding dispatch stake_to_pool register_pool ensure_nvlink submit_task choose_pool
    select_best_pool_for_task entries candidates best_of min_price_of max_price_of
    calculate_pool_score assign_task calculate_reward submit_proof verify_proof
    finalize_verification record_result decrement_pool_activity update_reputation settle_result
    offer_reward notify_completed dispute_verification overturn_approval release_escrow slash_pool
to_later = next here (signed 4) 20 (stake 0 300) tt refl
