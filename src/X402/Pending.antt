-- ===== src/X402/Pending.antt =====
-- Every call of pallets/x402-settlement/src/lib.rs keeps the list of pending intents exact.
use deep_brain_chain.Prelude.{
  ℕ, ap, ◌∷◌, Option, ◌&&◌, ◌≤◌, ◌≡◌, refl, some, none, arith, Returns, not, ◌==◌, List, [],
  Option-cases, inl, inr, contains-append_one, contains-retain, length, length-append,
  length-retain-le, contains,
}
use deep_brain_chain.Frame.Origin.{Origin}
use deep_brain_chain.X402.{
  Config, State, PaymentIntent, drop_expired, expire_all, on_initialize, max_pending,
  submit_payment_intent, verify_settlement, finalize_settlement, fail_payment_intent,
  settle_for_attestation,
}
use deep_brain_chain.X402.Escrow.{IsFresh}
use deep_brain_chain.X402.Tracking.{
  IsTracked, is_open, expired_at, on_initialize-intents, drop_expired-parts, expire_all-ids,
  expire_all-out, is_due,
}

module _ {L : Type 0} (cfg : Config L) where
  pub submit-listed :
      (o : Origin) (now miner amount nonce fp : ℕ) (sig : List ℕ) (s : State L) (k : ℕ)
      → IsFresh s
      → IsTracked s
      → Returns
          (λ t. contains k t.pending_intent_ids ≡ is_open (t.payment_intents k))
          (submit_payment_intent cfg o now miner amount nonce fp sig s)
  unfolding submit_payment_intent
  submit-listed o now miner amount nonce fp sig s k fresh h =
      grind
        (arith, h.listed k, fresh k, contains-append_one k s.next_intent_id s.pending_intent_ids)

  pub submit-bounded :
      (o : Origin) (now miner amount nonce fp : ℕ) (sig : List ℕ) (s : State L)
      → Returns
          (λ t. length t.pending_intent_ids ≤ max_pending)
          (submit_payment_intent cfg o now miner amount nonce fp sig s)
  unfolding submit_payment_intent
  submit-bounded o now miner amount nonce fp sig s = grind (arith, length-append)

  pub verify-listed :
      (o : Origin) (now id : ℕ) (s : State L) (k : ℕ)
      → IsTracked s
      → Returns
          (λ t. contains k t.pending_intent_ids ≡ is_open (t.payment_intents k))
          (verify_settlement cfg o now id s)
  unfolding verify_settlement
  verify-listed o now id s k h = elim (Option-cases (s.payment_intents id)) [
    | inl e ↦ ground arith
    | inr (i, e) ↦
        grind (arith, h.listed k, contains-retain k (λ j. not (j == id)) s.pending_intent_ids)
  ]

  pub verify-bounded :
      (o : Origin) (now id : ℕ) (s : State L)
      → IsTracked s
      → Returns (λ t. length t.pending_intent_ids ≤ max_pending) (verify_settlement cfg o now id s)
  unfolding verify_settlement
  verify-bounded o now id s h =
      grind (arith, h.bounded, length-retain-le (λ j. not (j == id)) s.pending_intent_ids)

  pub finalize-listed :
      (o : Origin) (now id : ℕ) (s : State L) (k : ℕ)
      → IsTracked s
      → Returns
          (λ t. contains k t.pending_intent_ids ≡ is_open (t.payment_intents k))
          (finalize_settlement cfg o now id s)
  unfolding finalize_settlement
  finalize-listed o now id s k h = elim (Option-cases (s.payment_intents id)) [
    | inl e ↦ ground arith
    | inr (i, e) ↦ grind (arith, h.listed k)
  ]

  pub finalize-bounded :
      (o : Origin) (now id : ℕ) (s : State L)
      → IsTracked s
      → Returns
          (λ t. length t.pending_intent_ids ≤ max_pending)
          (finalize_settlement cfg o now id s)
  unfolding finalize_settlement
  finalize-bounded o now id s h = grind (arith, h.bounded)

  pub fail-listed :
      (o : Origin) (id : ℕ) (s : State L) (k : ℕ)
      → IsTracked s
      → Returns
          (λ t. contains k t.pending_intent_ids ≡ is_open (t.payment_intents k))
          (fail_payment_intent cfg o id s)
  unfolding fail_payment_intent
  fail-listed o id s k h = elim (Option-cases (s.payment_intents id)) [
    | inl e ↦ ground arith
    | inr (i, e) ↦
        grind (arith, h.listed k, contains-retain k (λ j. not (j == id)) s.pending_intent_ids)
  ]

  pub fail-bounded :
      (o : Origin) (id : ℕ) (s : State L)
      → IsTracked s
      → Returns (λ t. length t.pending_intent_ids ≤ max_pending) (fail_payment_intent cfg o id s)
  unfolding fail_payment_intent
  fail-bounded o id s h =
      grind (arith, h.bounded, length-retain-le (λ j. not (j == id)) s.pending_intent_ids)

  expired_at-closed :
      (now : ℕ) (o : Option PaymentIntent)
      → is_open (expired_at now o) ≡ (is_open o && not (is_due now o))
  expired_at-closed now none = refl
  expired_at-closed now (some i) = ground arith

  on_initialize-listed :
      (now : ℕ) (s : State L) (k : ℕ)
      → IsTracked s
      → contains k (on_initialize cfg now s).pending_intent_ids
        ≡ is_open ((on_initialize cfg now s).payment_intents k)
  unfolding on_initialize
  on_initialize-listed now s k h =
      let t = (expire_all cfg now s.pending_intent_ids (s, [])).0 in
      let out = (expire_all cfg now s.pending_intent_ids (s, [])).1 in
      ground (
        arith,
        h.listed k,
        on_initialize-intents cfg now s h k,
        (drop_expired-parts cfg t out k).1,
        expire_all-ids cfg now s.pending_intent_ids s [],
        expire_all-out cfg now k s.pending_intent_ids s [],
        expired_at-closed now (s.payment_intents k),
      )

  drop_expired-bounded :
      (t : State L) (out : List ℕ)
      → length (drop_expired cfg (t, out)).pending_intent_ids ≤ length t.pending_intent_ids
  unfolding drop_expired
  drop_expired-bounded t [] = omega arith
  drop_expired-bounded t (o ∷ out) =
      length-retain-le (λ i. not (contains i (o ∷ out))) t.pending_intent_ids

  pub on_initialize-IsTracked :
      (now : ℕ) (s : State L) → IsTracked s → IsTracked (on_initialize cfg now s)
  unfolding on_initialize
  on_initialize-IsTracked now s h = record {
    listed = λ k. on_initialize-listed now s k h;
    bounded =
        let t = (expire_all cfg now s.pending_intent_ids (s, [])).0 in
        let out = (expire_all cfg now s.pending_intent_ids (s, [])).1 in
        omega (
          arith,
          h.bounded,
          drop_expired-bounded t out,
          ap length (expire_all-ids cfg now s.pending_intent_ids s []),
        );
  }

  pub settle-IsTracked :
      (now merchant miner amount : ℕ) (s : State L)
      → IsTracked s
      → IsTracked (settle_for_attestation cfg now merchant miner amount s).1
  unfolding settle_for_attestation
  settle-IsTracked now merchant miner amount s h = record {
    listed = λ k. ground (arith, h.listed k);
    bounded = ground (arith, h.bounded);
  }
