-- ===== src/X402/Refund.antt =====
-- How the merchant gets the reserve back in pallets/x402-settlement/src/lib.rs, and when only the
-- facilitator can give it back.
use deep_brain_chain.Prelude.{
  ℕ, ◌∙◌, is_ok, is_ok-value, ◌+◌, ◌≤◌, ◌≡◌, ◌≢◌, some, arith, ok, Returns, of_Returns, true, ◌||◌,
}
use deep_brain_chain.Frame.Origin.{Origin, signed}
use deep_brain_chain.Frame.Currency.{IsLawful, at}
use deep_brain_chain.X402.{
  Config, State, PaymentIntent, verified, failed, is_pending, is_verified, on_initialize,
  submit_payment_intent, verify_settlement, finalize_settlement, fail_payment_intent,
}
use deep_brain_chain.X402.Tracking.{on_initialize-intents}
use deep_brain_chain.X402.Steps.{
  amount-le-reserved, Call, submit, verify, finalize, fail, dispatch, IsValid,
}

module _ {L : Type 0} (cfg : Config L) where
  open cfg use {currency}

  -- The merchant has the whole amount back, nobody else's balances move, and the intent is failed.
  pub record IsRefunded (id : ℕ) (i : PaymentIntent) (s t : State L) : Type 0 where
    pub free :
        (a : ℕ) → currency.free t.ledger a ≡ currency.free s.ledger a + at i.merchant i.amount a
    pub reserved :
        (a : ℕ)
        → currency.reserved t.ledger a + at i.merchant i.amount a ≡ currency.reserved s.ledger a
    pub intent : t.payment_intents id ≡ some (record i { status = failed })

  refunds :
      (lawful : IsLawful currency) (o : Origin) (id : ℕ) (s t : State L) (i : PaymentIntent)
      → IsValid cfg s
      → s.payment_intents id ≡ some i
      → fail_payment_intent cfg o id s ≡ ok t
      → IsRefunded id i s t
  unfolding fail_payment_intent
  refunds lawful o id s t i v e h = record {
    free = λ a. ground (
      arith,
      amount-le-reserved cfg s id i v e (ground arith),
      lawful.unreserve_free i.merchant i.amount a s.ledger,
    );
    reserved = λ a. ground (
      arith,
      amount-le-reserved cfg s id i v e (ground arith),
      lawful.unreserve_reserved i.merchant i.amount a s.ledger,
    );
    intent = ground arith;
  }

  accepts :
      (id : ℕ) (s : State L) (i : PaymentIntent)
      → s.payment_intents id ≡ some i
      → (is_pending i.status || is_verified i.status) ≡ true
      → is_ok (fail_payment_intent cfg (signed cfg.facilitator_account) id s) ≡ true
  unfolding fail_payment_intent
  accepts id s i e live = ground arith

  -- The facilitator can fail every pending or verified intent of a valid state, also after its
  -- expiry, and the merchant is then refunded in full.
  pub fail-IsRefunded :
      (lawful : IsLawful currency) (id : ℕ) (s : State L) (i : PaymentIntent)
      → IsValid cfg s
      → s.payment_intents id ≡ some i
      → (is_pending i.status || is_verified i.status) ≡ true
      → (t : State L) × (fail_payment_intent cfg (signed cfg.facilitator_account) id s ≡ ok t)
        × IsRefunded id i s t
  fail-IsRefunded lawful id s i v e live =
      let (t, h) = is_ok-value _ (accepts id s i e live) in
      (t, h, refunds lawful (signed cfg.facilitator_account) id s t i v e h)

  dispatch-keeps_expired :
      (o : Origin) (now id : ℕ) (c : Call) (s : State L) (i : PaymentIntent)
      → IsValid cfg s
      → s.payment_intents id ≡ some i
      → i.status ≡ verified
      → i.expires_at ≤ now
      → c ≢ fail id
      → Returns (λ t. t.payment_intents id ≡ some i) (dispatch cfg o now c s)
  unfolding dispatch submit_payment_intent verify_settlement finalize_settlement fail_payment_intent
  dispatch-keeps_expired o now id (submit miner amount nonce fp sig) s i v e w x ne =
      grind (arith, v.fresh id)
  dispatch-keeps_expired o now id (verify k) s i v e w x ne = grind arith
  dispatch-keeps_expired o now id (finalize k) s i v e w x ne = grind arith
  dispatch-keeps_expired o now id (fail k) s i v e w x ne = grind arith

  -- Once a verified intent has expired it stays as it is, with its amount reserved, through every
  -- call but `fail_payment_intent` on it, and through the block hook: neither the parties nor time
  -- release the funds.
  pub expired_verified_stays :
      (o : Origin) (now id : ℕ) (c : Call) (s t : State L) (i : PaymentIntent)
      → IsValid cfg s
      → s.payment_intents id ≡ some i
      → i.status ≡ verified
      → i.expires_at ≤ now
      → c ≢ fail id
      → dispatch cfg o now c s ≡ ok t
      → (t.payment_intents id ≡ some i) × ((on_initialize cfg now s).payment_intents id ≡ some i)
  expired_verified_stays o now id c s t i v e w x ne h = (
    of_Returns (λ u. u.payment_intents id ≡ some i) _
        (dispatch-keeps_expired o now id c s i v e w x ne) h,
    on_initialize-intents cfg now s v.tracked id ∙ ground arith,
  )
