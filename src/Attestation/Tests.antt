-- ===== src/Attestation/Tests.antt =====
-- Runs of pallets/agent-attestation/src/lib.rs, settled by pallets/x402-settlement/src/lib.rs, and the
-- theorems at concrete states. Account 1 is an attester, 3 a challenger; root administers.
use native.Mathlib.Nat.{mul-le-mul_right}
use deep_brain_chain.Prelude.{
  min, ℕ, ◌*◌, ◌/◌, ◌≤◌, ◌≡◌, refl, some, none, arith, Bool, true, false, [], ◌∷◌, after,
}
use deep_brain_chain.Frame.Origin.{Origin, root, signed, unsigned}
use deep_brain_chain.Frame.Ledger.{Ledger, ledger_currency, ledger_currency-IsLawful, start_ledger}
use deep_brain_chain.Frame.Escrow.{held-zero}
use deep_brain_chain.X402
use deep_brain_chain.X402.Settler.{x402_settler, x402_settler-KeepsReserves}
use deep_brain_chain.Attestation.{
  Config, State, Attestation, pending, slashed, register_node, submit_attestation,
  challenge_attestation, resolve_challenge, slash_attester, defend_attester, update_capability,
}
use deep_brain_chain.Attestation.Deposits.{owed}
use deep_brain_chain.Attestation.Steps.{
  register, submit, challenge, resolve, serve, dispatch, Step, call, here, next, IsValid, IsSound,
  Reach-IsValid_attestations,
}
use deep_brain_chain.Attestation.Verdicts.{IsJudged, resolve-IsJudged, Reach-final_verdict}
use deep_brain_chain.Attestation.Once.{IsUnique}

abbrev settling : X402.Config Ledger
settling = record {
  currency = ledger_currency;
  facilitator_account = 9;
  max_signature_len = 64;
  facilitator_public_key = 0;
  settlement_delay = 5;
  payment_intent_ttl = 100;
  encode_account = λ a. a ∷ [];
  encode_u128 = λ a. a ∷ [];
  encode_u64 = λ a. a ∷ [];
  encode_h256 = λ a. a ∷ [];
  sr25519_verify = λ sig message key. true;
  from_low_u64_be = λ a. a;
}

abbrev intents : X402.State Ledger
intents = record {
  next_intent_id = 0;
  payment_intents = λ k. none;
  nonce_used = λ a n. none;
  replay_fingerprint_used = λ f. none;
  settlement_receipts = λ k. none;
  pending_intent_ids = [];
  ledger = start_ledger;
  events = [];
}

abbrev is_root : Origin → Bool
is_root root = true
is_root (signed who) = false
is_root unsigned = false

abbrev cfg : Config (X402.State Ledger) Ledger
cfg = record {
  currency = ledger_currency;
  on_attestation_confirmed = x402_settler settling;
  is_admin = is_root;
  percent_of = λ p x. min p 100 * x / 100;
  attestation_deposit = 200;
  challenge_window = 10;
  slash_percent = 25;
  heartbeat_interval = 5;
  max_model_id_len = 8;
  max_gpu_uuid_len = 8;
  max_models_per_agent = 4;
}

share-le : (p x : ℕ) → p ≤ 100 → p * x / 100 ≤ x
share-le p x le = omega (arith, mul-le-mul_right x le)

cfg-IsSound : IsSound cfg
cfg-IsSound = record {
  lawful = ledger_currency-IsLawful;
  share = λ p x. share-le (min p 100) x (omega arith);
  keeps = x402_settler-KeepsReserves settling ledger_currency-IsLawful;
}

abbrev start : State (X402.State Ledger) Ledger
start = record {
  next_attestation_id = 0;
  attestations = λ k. none;
  nodes = λ a. none;
  attester_task_count = λ a k. 0;
  agent_capabilities = λ a. none;
  model_providers = λ m a. false;
  ledger = start_ledger;
  settler = intents;
  events = [];
}

abbrev registered : State (X402.State Ledger) Ledger
unfolding register_node
registered = after start (register_node cfg (signed 1) 2 (5 ∷ []) 80 start)

abbrev submitted : State (X402.State Ledger) Ledger
unfolding register_node submit_attestation
submitted = after registered (submit_attestation cfg (signed 1) 3 7 70 (4 ∷ []) 10 20 registered)

abbrev challenged : State (X402.State Ledger) Ledger
unfolding register_node submit_attestation challenge_attestation
challenged = after submitted (challenge_attestation cfg (signed 3) 13 0 submitted)

abbrev guilty_state : State (X402.State Ledger) Ledger
unfolding register_node submit_attestation challenge_attestation resolve_challenge slash_attester
    defend_attester
guilty_state = after challenged (resolve_challenge cfg root 0 true challenged)

abbrev serving : State (X402.State Ledger) Ledger
unfolding register_node update_capability
serving =
    after registered (update_capability cfg (signed 1) 3 ((4 ∷ []) ∷ []) 2 10 (0 ∷ []) registered)

guilty_balances : (guilty_state.ledger.free 1 ≡ 950) × (guilty_state.ledger.reserved 1 ≡ 0)
unfolding register_node submit_attestation challenge_attestation resolve_challenge slash_attester
    defend_attester
guilty_balances = (refl, refl)

start-IsValid : IsValid cfg start
start-IsValid = record {
  fresh = λ k h. refl;
  backed = λ a. omega (arith, held-zero owed start.attestations a);
  indexed = λ m a. refl;
}

start-IsUnique : IsUnique start
start-IsUnique = record { counted = λ k x e. absurd (cc); unique = λ j k x y e f g h. absurd (cc) }

register-Step : Step cfg start registered
unfolding dispatch register_node
register-Step = call (signed 1) 2 (register (5 ∷ []) 80) refl

submit-Step : Step cfg registered submitted
unfolding dispatch register_node submit_attestation
submit-Step = call (signed 1) 3 (submit 7 70 (4 ∷ []) 10 20) refl

challenge-Step : Step cfg submitted challenged
unfolding dispatch register_node submit_attestation challenge_attestation
challenge-Step = call (signed 3) 13 (challenge 0) refl

resolve-Step : Step cfg challenged guilty_state
unfolding dispatch register_node submit_attestation challenge_attestation resolve_challenge
    slash_attester defend_attester
resolve-Step = call root 14 (resolve 0 true) refl

challenged-IsValid : IsValid cfg challenged
challenged-IsValid =
    Reach-IsValid_attestations cfg cfg-IsSound start-IsValid
      (next (next (next here register-Step) submit-Step) challenge-Step)

serving-IsValid : IsValid cfg serving
unfolding dispatch register_node update_capability
serving-IsValid =
    Reach-IsValid_attestations cfg cfg-IsSound start-IsValid (
      next (next here register-Step) (call (signed 1) 3 (serve ((4 ∷ []) ∷ []) 2 10 (0 ∷ [])) refl))

abbrev the_attestation : Attestation
the_attestation = record {
  id = 0;
  attester = 1;
  task_id = 7;
  result_hash = 70;
  model_id = 4 ∷ [];
  input_tokens = 10;
  output_tokens = 20;
  deposit = 200;
  status = pending;
  submitted_at = 3;
  challenge_end = 13;
  challenger = none;
}

Reach-IsValid_attestations_example : IsValid cfg guilty_state
Reach-IsValid_attestations_example =
    Reach-IsValid_attestations cfg cfg-IsSound challenged-IsValid (next here resolve-Step)

resolve-IsJudged_example :
    IsJudged cfg true (record the_attestation { challenger = some 3 }) challenged guilty_state
unfolding register_node submit_attestation challenge_attestation resolve_challenge slash_attester
    defend_attester
resolve-IsJudged_example =
    resolve-IsJudged cfg cfg-IsSound root 0 true challenged guilty_state
      (record the_attestation { challenger = some 3 }) challenged-IsValid refl refl

Reach-final_verdict_example :
    guilty_state.attestations 0
    ≡ some (record the_attestation { status = slashed; challenger = some 3 })
unfolding register_node submit_attestation challenge_attestation resolve_challenge slash_attester
    defend_attester
Reach-final_verdict_example =
    Reach-final_verdict cfg cfg-IsSound {s = guilty_state} {t = guilty_state} 0
      (record the_attestation { status = slashed; challenger = some 3 })
      (Reach-IsValid_attestations cfg cfg-IsSound challenged-IsValid (next here resolve-Step)) refl
      refl here
