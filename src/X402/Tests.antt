-- ===== src/X402/Tests.antt =====
-- Runs of pallets/x402-settlement/src/lib.rs, and its theorems at concrete states. Account 1 is the
-- merchant, 2 the miner and 9 the facilitator.
use deep_brain_chain.Prelude.{
  ℕ, ◌↔◌, false, ◌≡◌, refl, some, none, arith, ok, err, true, List, [], ◌∷◌, is_ok, after,
  replicate,
}
use deep_brain_chain.Frame.Origin.{Origin, signed}
use deep_brain_chain.Frame.Ledger.{
  Ledger, ledger_currency, ledger_currency-IsLawful, start_ledger, credit, release,
}
use deep_brain_chain.Frame.Escrow.{held-zero}
use deep_brain_chain.X402.{
  Config, State, PaymentIntent, verified, settled, submit_payment_intent, verify_settlement,
  finalize_settlement, fail_payment_intent, verify_facilitator_signature, on_initialize, expire_all,
  expire, drop_expired, invalid_nonce,
}
use deep_brain_chain.X402.Escrow.{Conserves, owed}
use deep_brain_chain.X402.Steps.{
  submit, verify, finalize, dispatch, Step, call, here, next, IsValid, Step-Conserves, Step-IsValid,
  Reach-IsValid,
}
use deep_brain_chain.X402.Lifecycle.{Evolves, Step-Evolves}
use deep_brain_chain.X402.Replay.{no_replay}
use deep_brain_chain.X402.Refund.{IsRefunded, fail-IsRefunded}
use deep_brain_chain.X402.Settlement.{
  IsSettleable, IsPaid, finalize_iff_IsSettleable, finalize-IsPaid,
}

abbrev cfg : Config Ledger
cfg = record {
  currency = ledger_currency;
  facilitator_account = 9;
  max_signature_len = 64;
  facilitator_public_key = 0;
  settlement_delay = 5;
  payment_intent_ttl = 100;
  encode_account = λ a. a ∷ [];
  encode_u128 = λ a. a ∷ [];
  encode_u64 = λ a. a ∷ [];
  encode_h256 = λ a. a ∷ [];
  sr25519_verify = λ sig message key. true;
  from_low_u64_be = λ a. a;
}

abbrev start : State Ledger
start = record {
  next_intent_id = 0;
  payment_intents = λ k. none;
  nonce_used = λ a n. none;
  replay_fingerprint_used = λ f. none;
  settlement_receipts = λ k. none;
  pending_intent_ids = [];
  ledger = start_ledger;
  events = [];
}

abbrev signature : List ℕ
signature = replicate 64 0

abbrev submitted : State Ledger
unfolding submit_payment_intent verify_facilitator_signature
submitted = after start (submit_payment_intent cfg (signed 1) 10 2 300 7 99 signature start)

abbrev checked : State Ledger
unfolding submit_payment_intent verify_facilitator_signature verify_settlement
checked = after submitted (verify_settlement cfg (signed 9) 12 0 submitted)

abbrev paid : State Ledger
unfolding submit_payment_intent verify_facilitator_signature verify_settlement finalize_settlement
paid = after checked (finalize_settlement cfg (signed 2) 17 0 checked)

submit_runs : submit_payment_intent cfg (signed 1) 10 2 300 7 99 signature start ≡ ok submitted
unfolding submit_payment_intent verify_facilitator_signature
submit_runs = refl

paid_balances :
    (paid.ledger.free 2 ≡ 1300) × (paid.ledger.free 1 ≡ 700) × (paid.ledger.reserved 1 ≡ 0)
unfolding submit_payment_intent verify_facilitator_signature verify_settlement finalize_settlement
paid_balances = (refl, refl, refl)

-- Expiry gives the reserve back.
expired_balance : (on_initialize cfg 110 submitted).ledger.free 1 ≡ 1000
unfolding submit_payment_intent verify_facilitator_signature on_initialize expire_all expire
    drop_expired
expired_balance = refl

start-IsValid : IsValid cfg start
start-IsValid = record {
  fresh = λ k h. refl;
  backed = λ a. omega (arith, held-zero owed start.payment_intents a);
  tracked = record { listed = λ k. refl; bounded = omega arith };
}

submit-Step : Step cfg start submitted
unfolding dispatch submit_payment_intent verify_facilitator_signature
submit-Step = call (signed 1) 10 (submit 2 300 7 99 signature) refl

verify-Step : Step cfg submitted checked
unfolding dispatch submit_payment_intent verify_facilitator_signature verify_settlement
verify-Step = call (signed 9) 12 (verify 0) refl

finalize-Step : Step cfg checked paid
unfolding dispatch submit_payment_intent verify_facilitator_signature verify_settlement
    finalize_settlement
finalize-Step = call (signed 2) 17 (finalize 0) refl

submitted-IsValid : IsValid cfg submitted
submitted-IsValid =
    Step-IsValid cfg ledger_currency-IsLawful start submitted start-IsValid submit-Step

checked-IsValid : IsValid cfg checked
checked-IsValid =
    Step-IsValid cfg ledger_currency-IsLawful submitted checked submitted-IsValid verify-Step

Step-Conserves_example : Conserves cfg checked paid 1
Step-Conserves_example =
    Step-Conserves cfg ledger_currency-IsLawful checked paid checked-IsValid finalize-Step 1

Reach-IsValid_example : IsValid cfg paid
Reach-IsValid_example =
    Reach-IsValid cfg ledger_currency-IsLawful start-IsValid
      (next (next (next here submit-Step) verify-Step) finalize-Step)

Step-Evolves_example : Evolves (submitted.payment_intents 0) (checked.payment_intents 0)
Step-Evolves_example = Step-Evolves cfg submitted checked submitted-IsValid verify-Step 0

abbrev settled_intent : PaymentIntent
settled_intent = record {
  intent_id = 0;
  merchant = 1;
  miner = 2;
  amount = 300;
  nonce = 7;
  replay_fingerprint = 99;
  facilitator_signature = signature;
  status = settled;
  created_at = 10;
  verified_at = some 12;
  settled_at = some 17;
  expires_at = 110;
}

paid-IsValid : IsValid cfg paid
paid-IsValid = Step-IsValid cfg ledger_currency-IsLawful checked paid checked-IsValid finalize-Step

no_replay_example :
    ((now miner amount fp : ℕ) (sig : List ℕ)
      → submit_payment_intent cfg (signed 1) now miner amount 7 fp sig checked ≡ err invalid_nonce)
    × ((o : Origin) (now miner amount nonce : ℕ) (sig : List ℕ)
        → is_ok (submit_payment_intent cfg o now miner amount nonce 99 sig checked) ≡ false)
no_replay_example =
    no_replay cfg 1 10 2 300 7 99 signature start submitted checked submit_runs
      (next here verify-Step)

abbrev checked_intent : PaymentIntent
checked_intent = record settled_intent { status = verified; settled_at = none }

abbrev moved_ledger : Ledger
unfolding submit_payment_intent verify_facilitator_signature
moved_ledger = credit 2 300 (release 1 300 submitted.ledger)

finalize_iff_IsSettleable_example :
    ((t : State Ledger) × (finalize_settlement cfg (signed 2) 17 0 checked ≡ ok t))
    ↔ IsSettleable cfg 2 17 checked_intent
unfolding submit_payment_intent verify_facilitator_signature verify_settlement
finalize_iff_IsSettleable_example =
    finalize_iff_IsSettleable cfg 2 17 0 0 checked moved_ledger checked_intent refl refl

finalize-IsPaid_example : IsPaid cfg 17 0 checked_intent checked paid
unfolding submit_payment_intent verify_facilitator_signature verify_settlement finalize_settlement
finalize-IsPaid_example =
    finalize-IsPaid cfg ledger_currency-IsLawful (signed 2) 17 0 checked paid checked_intent
      checked-IsValid refl refl

fail-IsRefunded_example :
    (t : State Ledger) × (fail_payment_intent cfg (signed 9) 0 checked ≡ ok t)
    × IsRefunded cfg 0 checked_intent checked t
unfolding submit_payment_intent verify_facilitator_signature verify_settlement
fail-IsRefunded_example =
    fail-IsRefunded cfg ledger_currency-IsLawful 0 checked checked_intent checked-IsValid refl refl
