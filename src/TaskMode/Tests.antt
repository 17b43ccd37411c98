-- ===== src/TaskMode/Tests.antt =====
-- Runs of pallets/task-mode/src/lib.rs, and its theorems at concrete states. Account 1 is the
-- customer, 2 the miner, 5 the admin and 9 the treasury.
use deep_brain_chain.Prelude.{
  is_ok, Option, false, ℕ, ◌+◌, ◌*◌, ◌/◌, ◌<◌, ◌≡◌, refl, some, none, arith, [], ◌∷◌, after,
}
use deep_brain_chain.Frame.Origin.{Origin, signed}
use deep_brain_chain.Frame.Currency.{at}
use deep_brain_chain.Frame.Ledger.{Ledger, ledger_currency, ledger_currency-IsLawful, start_ledger}
use deep_brain_chain.Frame.Escrow.{held-zero}
use deep_brain_chain.TaskMode.{
  Config, State, TaskOrder, Oracle, IsPercentMul, create_task_definition, create_task_order,
  mark_order_completed, settle_task_order, cancel_expired_order, calculate_order_usd_value,
  part_usd_value, calculate_revenue_split, block_to_era, settled, completed, in_progress,
}
use deep_brain_chain.TaskMode.Orders.{owed}
use deep_brain_chain.TaskMode.Steps.{
  define, order, complete, settle, dispatch, Reach, here, next, IsValid, Reach-IsValid_orders,
}
use deep_brain_chain.TaskMode.Settlement.{IsPaid, settle-IsPaid, cancel-IsRefunded, Reach-settled}

abbrev percent : ℕ → ℕ → ℕ
percent p x = (p * x + 49) / 100

percent-IsPercentMul : IsPercentMul percent
percent-IsPercentMul = record { not_above = λ p x. omega arith; not_below = λ p x. omega arith }

abbrev cfg : Config Ledger
cfg = record {
  currency = ledger_currency;
  percent_mul = percent;
  treasury_account = 9;
  burn_percentage = 15;
  miner_payout_percentage = 85;
  task_mode_reward_percentage = 60;
  era_duration = 100;
  max_model_id_len = 16;
  max_policy_cid_len = 16;
  order_timeout = 50;
}

-- One unit of the price is one unit of the currency.
abbrev oracle : Oracle
oracle = record { price = some 1; amount_by_value = λ v. some v }

abbrev start : State Ledger
start = record {
  next_task_id = 0;
  next_order_id = 0;
  task_definitions = λ k. none;
  task_orders = λ k. none;
  era_stats = λ e. record {
    total_charged = 0;
    total_burned = 0;
    total_miner_payout = 0;
    completed_orders = 0;
  };
  miner_task_stats = λ e m. (0, 0);
  ledger = start_ledger;
  events = [];
}

abbrev defined : State Ledger
unfolding create_task_definition
defined = after start (create_task_definition cfg (signed 5) (1 ∷ []) (1 ∷ []) 10 20 9000 [] start)

-- 3000 tokens at 10 and 2000 at 20 per thousand: 70 units.
abbrev ordered : State Ledger
unfolding create_task_definition create_task_order calculate_order_usd_value part_usd_value
    calculate_revenue_split
ordered = after defined (create_task_order cfg (signed 1) 7 oracle 0 2 3000 2000 defined)

abbrev completed_state : State Ledger
unfolding create_task_definition create_task_order calculate_order_usd_value part_usd_value
    calculate_revenue_split mark_order_completed
completed_state = after ordered (mark_order_completed cfg (signed 2) 0 77 ordered)

abbrev settled_state : State Ledger
unfolding create_task_definition create_task_order calculate_order_usd_value part_usd_value
    calculate_revenue_split mark_order_completed settle_task_order block_to_era
settled_state = after completed_state (settle_task_order cfg (signed 1) 0 none completed_state)

abbrev cancelled : State Ledger
unfolding create_task_definition create_task_order calculate_order_usd_value part_usd_value
    calculate_revenue_split cancel_expired_order
cancelled = after ordered (cancel_expired_order cfg (signed 4) 58 0 ordered)

settled_balances :
    (settled_state.ledger.free 2 ≡ 1060)
    × (settled_state.ledger.free 9 ≡ 1010)
    × (settled_state.ledger.free 1 ≡ 930)
    × (settled_state.ledger.reserved 1 ≡ 0)
unfolding create_task_definition create_task_order calculate_order_usd_value part_usd_value
    calculate_revenue_split mark_order_completed settle_task_order block_to_era
settled_balances = (refl, refl, refl, refl)

start-IsValid : IsValid cfg start
start-IsValid = record {
  fresh = λ k h. refl;
  backed = λ a. omega (arith, held-zero owed start.task_orders a);
  divided = λ k. tt;
  balanced = λ era. (λ h. refl, omega arith);
  shared = λ era m. omega arith;
}

ordered-Reach : Reach cfg start ordered
unfolding dispatch create_task_definition create_task_order calculate_order_usd_value part_usd_value
    calculate_revenue_split
ordered-Reach =
    next (next here (signed 5) 0 oracle (define (1 ∷ []) (1 ∷ []) 10 20 9000 []) refl) (signed 1) 7
      oracle (order 0 2 3000 2000) refl

completed-Reach : Reach cfg ordered completed_state
unfolding dispatch create_task_definition create_task_order calculate_order_usd_value part_usd_value
    calculate_revenue_split mark_order_completed
completed-Reach = next here (signed 2) 9 oracle (complete 0 77) refl

completed-IsValid : IsValid cfg completed_state
completed-IsValid =
    Reach-IsValid_orders cfg ledger_currency-IsLawful
      (Reach-IsValid_orders cfg ledger_currency-IsLawful start-IsValid ordered-Reach)
      completed-Reach

abbrev the_order : TaskOrder
the_order = record {
  order_id = 0;
  task_id = 0;
  customer = 1;
  miner = 2;
  input_tokens = 3000;
  output_tokens = 2000;
  dbc_price_snapshot = 1;
  total_dbc_charged = 70;
  dbc_burned = 10;
  miner_payout = 60;
  created_at = 7;
  status = completed;
  attestation_hash = some 77;
}

Reach-IsValid_orders_example : IsValid cfg ordered
Reach-IsValid_orders_example =
    Reach-IsValid_orders cfg ledger_currency-IsLawful start-IsValid ordered-Reach

settle-IsPaid_example : IsPaid cfg 0 the_order completed_state settled_state
unfolding create_task_definition create_task_order calculate_order_usd_value part_usd_value
    calculate_revenue_split mark_order_completed settle_task_order block_to_era
settle-IsPaid_example =
    settle-IsPaid cfg ledger_currency-IsLawful (signed 1) 0 none completed_state settled_state
      the_order completed-IsValid refl refl

cancel-IsRefunded_example :
    (7 + 50 < 58)
    × ((a : ℕ)
        → (cancelled.ledger.free a ≡ ordered.ledger.free a + at 1 70 a)
          × (cancelled.ledger.reserved a + at 1 70 a ≡ ordered.ledger.reserved a))
unfolding create_task_definition create_task_order calculate_order_usd_value part_usd_value
    calculate_revenue_split cancel_expired_order
cancel-IsRefunded_example =
    cancel-IsRefunded cfg ledger_currency-IsLawful (signed 4) 58 0 ordered cancelled
      (record the_order { status = in_progress; attestation_hash = none })
      (Reach-IsValid_orders cfg ledger_currency-IsLawful start-IsValid ordered-Reach) refl refl

Reach-settled_example :
    (settled_state.task_orders 0 ≡ some (record the_order { status = settled }))
    × ((o : Origin) (now : ℕ) (hash : Option ℕ)
        → (is_ok (settle_task_order cfg o 0 hash settled_state) ≡ false)
          × (is_ok (cancel_expired_order cfg o now 0 settled_state) ≡ false))
unfolding create_task_definition create_task_order calculate_order_usd_value part_usd_value
    calculate_revenue_split mark_order_completed settle_task_order block_to_era dispatch
Reach-settled_example =
    Reach-settled cfg ledger_currency-IsLawful {s = settled_state} {t = settled_state} 0
      (record the_order { status = settled })
      (Reach-IsValid_orders cfg ledger_currency-IsLawful completed-IsValid
        (next here (signed 1) 9 oracle (settle 0 none) refl))
      refl refl here
