-- ===== src/Chain/Tests.antt =====
-- A run across the pallets on one ledger: an account registers a node, attests a task, and the
-- confirmed attestation is settled by x402-settlement, after a task was defined and ordered.
use native.Mathlib.Nat.{mul-le-mul_right}
use deep_brain_chain.Prelude.{
  min, ℕ, ◌+◌, ◌*◌, ◌/◌, ◌≤◌, ◌≡◌, refl, some, none, arith, Bool, true, false, [], ◌∷◌, after,
}
use deep_brain_chain.Frame.Origin.{Origin, root, signed, unsigned}
use deep_brain_chain.Frame.Ledger.{Ledger, ledger_currency, ledger_currency-IsLawful, start_ledger}
use deep_brain_chain.Frame.Escrow.{held-zero}
use deep_brain_chain.X402
use deep_brain_chain.X402.Settler.{x402_settler}
use deep_brain_chain.TaskMode
use deep_brain_chain.Attestation
use deep_brain_chain.Chain.{
  Chain, orders_config, attestations_config, orders_of, attestations_of, by_order, by_attestation,
  Reach, here, next, IsSolvent,
}
use deep_brain_chain.Chain.Solvency.{Reach-IsSolvent}

abbrev settling : X402.Config Ledger
settling = record {
  currency = ledger_currency;
  facilitator_account = 9;
  max_signature_len = 64;
  facilitator_public_key = 0;
  settlement_delay = 5;
  payment_intent_ttl = 100;
  encode_account = λ a. a ∷ [];
  encode_u128 = λ a. a ∷ [];
  encode_u64 = λ a. a ∷ [];
  encode_h256 = λ a. a ∷ [];
  sr25519_verify = λ sig message key. true;
  from_low_u64_be = λ a. a;
}

abbrev intents : X402.State Ledger
intents = record {
  next_intent_id = 0;
  payment_intents = λ k. none;
  nonce_used = λ a n. none;
  replay_fingerprint_used = λ f. none;
  settlement_receipts = λ k. none;
  pending_intent_ids = [];
  ledger = start_ledger;
  events = [];
}

abbrev is_root : Origin → Bool
is_root root = true
is_root (signed who) = false
is_root unsigned = false

abbrev attesting : Attestation.Config (X402.State Ledger) Ledger
attesting = record {
  currency = ledger_currency;
  on_attestation_confirmed = x402_settler settling;
  is_admin = is_root;
  percent_of = λ p x. min p 100 * x / 100;
  attestation_deposit = 200;
  challenge_window = 10;
  slash_percent = 25;
  heartbeat_interval = 5;
  max_model_id_len = 8;
  max_gpu_uuid_len = 8;
  max_models_per_agent = 4;
}

share-le : (p x : ℕ) → p ≤ 100 → p * x / 100 ≤ x
share-le p x le = omega (arith, mul-le-mul_right x le)

abbrev attestations : Attestation.State (X402.State Ledger) Ledger
attestations = record {
  next_attestation_id = 0;
  attestations = λ k. none;
  nodes = λ a. none;
  attester_task_count = λ a k. 0;
  agent_capabilities = λ a. none;
  model_providers = λ m a. false;
  ledger = start_ledger;
  settler = intents;
  events = [];
}

abbrev percent : ℕ → ℕ → ℕ
percent p x = (p * x + 49) / 100

abbrev ordering : TaskMode.Config Ledger
ordering = record {
  currency = ledger_currency;
  percent_mul = percent;
  treasury_account = 9;
  burn_percentage = 15;
  miner_payout_percentage = 85;
  task_mode_reward_percentage = 60;
  era_duration = 100;
  max_model_id_len = 16;
  max_policy_cid_len = 16;
  order_timeout = 50;
}

-- One unit of the price is one unit of the currency.
abbrev oracle : TaskMode.Oracle
oracle = record { price = some 1; amount_by_value = λ v. some v }

abbrev orders : TaskMode.State Ledger
orders = record {
  next_task_id = 0;
  next_order_id = 0;
  task_definitions = λ k. none;
  task_orders = λ k. none;
  era_stats = λ e. record {
    total_charged = 0;
    total_burned = 0;
    total_miner_payout = 0;
    completed_orders = 0;
  };
  miner_task_stats = λ e m. (0, 0);
  ledger = start_ledger;
  events = [];
}

abbrev start : Chain Ledger
start = record {
  ledger = start_ledger;
  intents = intents;
  orders = orders;
  attestations = attestations;
}

start-IsSolvent : IsSolvent settling ordering attesting start
start-IsSolvent = record {
  intents_fresh = λ k h. refl;
  intents_tracked = record { listed = λ k. refl; bounded = omega arith };
  orders_fresh = λ k h. refl;
  divided = λ k. tt;
  balanced = λ era. (λ h. refl, omega arith);
  shared = λ era m. omega arith;
  attestations_fresh = λ k h. refl;
  indexed = λ m a. refl;
  covered = λ a. omega (
    arith,
    held-zero X402.Escrow.owed intents.payment_intents a,
    held-zero TaskMode.Orders.owed orders.task_orders a,
    held-zero Attestation.Deposits.owed attestations.attestations a,
  );
}

-- The state after a call of task-mode, and after one of agent-attestation.
abbrev with_orders : Chain Ledger → TaskMode.State Ledger → Chain Ledger
with_orders c u = record c { ledger = u.ledger; orders = u }

abbrev with_attestations :
    Chain Ledger → Attestation.State (X402.State Ledger) Ledger → Chain Ledger
with_attestations c u = record c { ledger = u.ledger; intents = u.settler; attestations = u }

abbrev orders_run : Chain Ledger → Origin → ℕ → TaskMode.Steps.Call → TaskMode.State Ledger
unfolding TaskMode.Steps.dispatch
orders_run c o now call = after (orders_of settling ordering attesting c) (
    TaskMode.Steps.dispatch (orders_config settling ordering attesting) o now oracle call
      (orders_of settling ordering attesting c))

abbrev attestations_run :
    Chain Ledger
    → Origin
    → ℕ
    → Attestation.Steps.Call
    → Attestation.State (X402.State Ledger) Ledger
unfolding Attestation.Steps.dispatch
attestations_run c o now call = after (attestations_of settling ordering attesting c) (
    Attestation.Steps.dispatch (attestations_config settling ordering attesting) o now call
      (attestations_of settling ordering attesting c))

abbrev defined : Chain Ledger
unfolding TaskMode.Steps.dispatch TaskMode.create_task_definition
defined =
    with_orders start
      (orders_run start (signed 5) 0 (TaskMode.Steps.define (1 ∷ []) (1 ∷ []) 10 20 9000 []))

abbrev registered : Chain Ledger
unfolding TaskMode.Steps.dispatch TaskMode.create_task_definition Attestation.Steps.dispatch
    Attestation.register_node
registered =
    with_attestations defined
      (attestations_run defined (signed 1) 2 (Attestation.Steps.register (5 ∷ []) 80))

abbrev submitted : Chain Ledger
unfolding TaskMode.Steps.dispatch TaskMode.create_task_definition Attestation.Steps.dispatch
    Attestation.register_node Attestation.submit_attestation
submitted =
    with_attestations registered
      (attestations_run registered (signed 1) 3 (Attestation.Steps.submit 7 70 (4 ∷ []) 10 20))

abbrev settled : Chain Ledger
unfolding TaskMode.Steps.dispatch TaskMode.create_task_definition Attestation.Steps.dispatch
    Attestation.register_node Attestation.submit_attestation Attestation.confirm_attestation
    X402.settle_for_attestation
settled =
    with_attestations submitted (attestations_run submitted root 14 (Attestation.Steps.confirm 0))

-- The confirmation wrote a receipt in x402-settlement.
settled_receipt : (settled.intents.next_intent_id ≡ 1) × (settled.ledger.reserved 1 ≡ 0)
unfolding TaskMode.Steps.dispatch TaskMode.create_task_definition Attestation.Steps.dispatch
    Attestation.register_node Attestation.submit_attestation Attestation.confirm_attestation
    X402.settle_for_attestation
settled_receipt = (refl, refl)

settled-Reach : Reach settling ordering attesting start settled
unfolding TaskMode.Steps.dispatch TaskMode.create_task_definition Attestation.Steps.dispatch
    Attestation.register_node Attestation.submit_attestation Attestation.confirm_attestation
    X402.settle_for_attestation
settled-Reach =
    next
      (next
        (next
          (next here (
            by_order _ (signed 5) 0 oracle (TaskMode.Steps.define (1 ∷ []) (1 ∷ []) 10 20 9000 [])
              refl refl))
          (by_attestation _
            (Attestation.Steps.call (signed 1) 2 (Attestation.Steps.register (5 ∷ []) 80) refl)
            refl))
        (by_attestation _
          (Attestation.Steps.call (signed 1) 3 (Attestation.Steps.submit 7 70 (4 ∷ []) 10 20) refl)
          refl))
      (by_attestation _ (Attestation.Steps.call root 14 (Attestation.Steps.confirm 0) refl) refl)

Reach-IsSolvent_example : IsSolvent settling ordering attesting settled
Reach-IsSolvent_example =
    Reach-IsSolvent settling ordering attesting ledger_currency-IsLawful
      (λ p x. share-le (min p 100) x (omega arith)) start-IsSolvent settled-Reach
