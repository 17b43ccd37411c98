-- ===== src/X402/Steps.antt =====
-- Sequences of calls, block starts and attestation payments on
-- pallets/x402-settlement/src/lib.rs, and the invariant that they keep.
use deep_brain_chain.Prelude.{
  ℕ, true, ◌||◌, contains, length, ◌≤◌, ◌≡◌, some, none, arith, ok, Result, Returns, of_Returns,
  List, Option-cases, inl, inr,
}
use deep_brain_chain.Frame.Origin.{Origin}
use deep_brain_chain.Frame.Currency.{IsLawful}
use deep_brain_chain.Frame.Escrow.{bound-le-held}
use deep_brain_chain.X402.{
  Config, State, is_pending, is_verified, max_pending, PaymentIntent, on_initialize, Error,
  submit_payment_intent, verify_settlement, finalize_settlement, fail_payment_intent,
  settle_for_attestation,
}
use deep_brain_chain.X402.Escrow.{
  owed, IsFresh, IsBacked, Conserves, Conserves-IsBacked, lt_of_some, submit-Conserves,
  verify-Conserves, finalize-Conserves, fail-Conserves, settle-Conserves,
}
use deep_brain_chain.X402.Expiry.{on_initialize-Keeps}
use deep_brain_chain.X402.Tracking.{IsTracked, is_open}
use deep_brain_chain.X402.Pending.{
  submit-listed, verify-listed, finalize-listed, fail-listed, submit-bounded, verify-bounded,
  finalize-bounded, fail-bounded, on_initialize-IsTracked, settle-IsTracked,
}

-- A call of the pallet, at the block `now`.
pub data Call : Type 0 where
  submit : (miner amount nonce replay_fingerprint : ℕ) → List ℕ → Call
  verify finalize fail : (intent_id : ℕ) → Call

unfoldable pub dispatch :
    {L : Type 0} → Config L → Origin → ℕ → Call → State L → Result Error (State L)
dispatch cfg o now (submit miner amount nonce fp sig) s =
    submit_payment_intent cfg o now miner amount nonce fp sig s
dispatch cfg o now (verify id) s = verify_settlement cfg o now id s
dispatch cfg o now (finalize id) s = finalize_settlement cfg o now id s
dispatch cfg o now (fail id) s = fail_payment_intent cfg o id s

pub data Step {L : Type 0} (cfg : Config L) (s t : State L) : Type 0 where
  call : (o : Origin) (now : ℕ) (c : Call) → dispatch cfg o now c s ≡ ok t → Step cfg s t
  begin_block : (now : ℕ) → t ≡ on_initialize cfg now s → Step cfg s t
  attest :
      (now merchant miner amount : ℕ)
      → t ≡ (settle_for_attestation cfg now merchant miner amount s).1
      → Step cfg s t

pub data Reach {L : Type 0} (cfg : Config L) (s : State L) : State L → Type 0 where
  here : Reach cfg s s
  next : {t u : State L} → Reach cfg s t → Step cfg t u → Reach cfg s u

pub record IsValid {L : Type 0} (cfg : Config L) (s : State L) : Type 0 where
  pub fresh : IsFresh s
  pub backed : IsBacked cfg s
  pub tracked : IsTracked s

module _ {L : Type 0} (cfg : Config L) (lawful : IsLawful cfg.currency) where
  dispatch-Conserves :
      (o : Origin) (now : ℕ) (c : Call) (s : State L) (a : ℕ)
      → IsValid cfg s
      → Returns (λ t. Conserves cfg s t a) (dispatch cfg o now c s)
  unfolding dispatch
  dispatch-Conserves o now (submit miner amount nonce fp sig) s a v =
      submit-Conserves cfg lawful o now miner amount nonce fp sig s a
  dispatch-Conserves o now (verify id) s a v = verify-Conserves cfg lawful o now id s a v.fresh
  dispatch-Conserves o now (finalize id) s a v =
      finalize-Conserves cfg lawful o now id s a v.fresh v.backed
  dispatch-Conserves o now (fail id) s a v = fail-Conserves cfg lawful o id s a v.fresh v.backed

  dispatch-fresh :
      (o : Origin) (now : ℕ) (c : Call) (s : State L) (k : ℕ)
      → IsFresh s
      → Returns (λ t. t.next_intent_id ≤ k → t.payment_intents k ≡ none) (dispatch cfg o now c s)
  unfolding dispatch submit_payment_intent verify_settlement finalize_settlement fail_payment_intent
  dispatch-fresh o now (submit miner amount nonce fp sig) s k h = grind (arith, h k)
  dispatch-fresh o now (verify id) s k h = elim (Option-cases (s.payment_intents id)) [
    | inl e ↦ ground arith
    | inr (i, e) ↦ grind (arith, h k, lt_of_some s id i h e)
  ]
  dispatch-fresh o now (finalize id) s k h = elim (Option-cases (s.payment_intents id)) [
    | inl e ↦ ground arith
    | inr (i, e) ↦ grind (arith, h k, lt_of_some s id i h e)
  ]
  dispatch-fresh o now (fail id) s k h = elim (Option-cases (s.payment_intents id)) [
    | inl e ↦ ground arith
    | inr (i, e) ↦ grind (arith, h k, lt_of_some s id i h e)
  ]

  dispatch-listed :
      (o : Origin) (now : ℕ) (c : Call) (s : State L) (k : ℕ)
      → IsValid cfg s
      → Returns
          (λ t. contains k t.pending_intent_ids ≡ is_open (t.payment_intents k))
          (dispatch cfg o now c s)
  unfolding dispatch
  dispatch-listed o now (submit miner amount nonce fp sig) s k v =
      submit-listed cfg o now miner amount nonce fp sig s k v.fresh v.tracked
  dispatch-listed o now (verify id) s k v = verify-listed cfg o now id s k v.tracked
  dispatch-listed o now (finalize id) s k v = finalize-listed cfg o now id s k v.tracked
  dispatch-listed o now (fail id) s k v = fail-listed cfg o id s k v.tracked

  dispatch-bounded :
      (o : Origin) (now : ℕ) (c : Call) (s : State L)
      → IsTracked s
      → Returns (λ t. length t.pending_intent_ids ≤ max_pending) (dispatch cfg o now c s)
  unfolding dispatch
  dispatch-bounded o now (submit miner amount nonce fp sig) s h =
      submit-bounded cfg o now miner amount nonce fp sig s
  dispatch-bounded o now (verify id) s h = verify-bounded cfg o now id s h
  dispatch-bounded o now (finalize id) s h = finalize-bounded cfg o now id s h
  dispatch-bounded o now (fail id) s h = fail-bounded cfg o id s h

  pub settle-IsFresh :
      (now merchant miner amount : ℕ) (s : State L)
      → IsFresh s
      → IsFresh (settle_for_attestation cfg now merchant miner amount s).1
  unfolding settle_for_attestation
  settle-IsFresh now merchant miner amount s h k = grind (arith, h k)

  -- In every step from a valid state, a call, a block start or an attestation payment, each
  -- account's reserve moves exactly as what its pending and verified intents bind; given a lawful
  -- currency.
  pub Step-Conserves :
      (s t : State L) → IsValid cfg s → Step cfg s t → (a : ℕ) → Conserves cfg s t a
  Step-Conserves s t v (call o now c e) a =
      of_Returns (λ u. Conserves cfg s u a) _ (dispatch-Conserves o now c s a v) e
  Step-Conserves s t v (begin_block now e) a =
      rw e ((on_initialize-Keeps cfg lawful now s v.fresh v.backed).conserves a)
  Step-Conserves s t v (attest now merchant miner amount e) a =
      rw e (settle-Conserves cfg lawful now merchant miner amount s a v.fresh)

  Step-IsFresh : (s t : State L) → IsValid cfg s → Step cfg s t → IsFresh t
  Step-IsFresh s t v (call o now c e) k =
      of_Returns (λ u. u.next_intent_id ≤ k → u.payment_intents k ≡ none) _
        (dispatch-fresh o now c s k v.fresh) e
  Step-IsFresh s t v (begin_block now e) k =
      rw e ((on_initialize-Keeps cfg lawful now s v.fresh v.backed).fresh k)
  Step-IsFresh s t v (attest now merchant miner amount e) k =
      rw e (settle-IsFresh now merchant miner amount s v.fresh k)

  Step-IsTracked : (s t : State L) → IsValid cfg s → Step cfg s t → IsTracked t
  Step-IsTracked s t v (call o now c e) = record {
    listed = λ k.
        of_Returns (λ u. contains k u.pending_intent_ids ≡ is_open (u.payment_intents k)) _
          (dispatch-listed o now c s k v) e;
    bounded =
        of_Returns (λ u. length u.pending_intent_ids ≤ max_pending) _
          (dispatch-bounded o now c s v.tracked) e;
  }
  Step-IsTracked s t v (begin_block now e) = rw e (on_initialize-IsTracked cfg now s v.tracked)
  Step-IsTracked s t v (attest now merchant miner amount e) =
      rw e (settle-IsTracked cfg now merchant miner amount s v.tracked)

  pub Step-IsValid : (s t : State L) → IsValid cfg s → Step cfg s t → IsValid cfg t
  Step-IsValid s t v st = record {
    fresh = Step-IsFresh s t v st;
    backed = Conserves-IsBacked cfg s t v.backed (Step-Conserves s t v st);
    tracked = Step-IsTracked s t v st;
  }

  -- After every history of calls, block starts and attestation payments from a valid state,
  -- identifiers from the counter on are unused, every account's reserve covers what its pending and
  -- verified intents bind, and the list of pending intents holds exactly those within its bound;
  -- given a lawful currency.
  pub Reach-IsValid : {s t : State L} → IsValid cfg s → Reach cfg s t → IsValid cfg t
  Reach-IsValid v here = v
  Reach-IsValid v (next {t} {u} r st) = Step-IsValid t u (Reach-IsValid v r) st

-- The merchant's reserve covers a live intent of a valid state.
pub amount-le-reserved :
    {L : Type 0} (cfg : Config L) (s : State L) (id : ℕ) (i : PaymentIntent)
    → IsValid cfg s
    → s.payment_intents id ≡ some i
    → (is_pending i.status || is_verified i.status) ≡ true
    → i.amount ≤ cfg.currency.reserved s.ledger i.merchant
amount-le-reserved cfg s id i v e live = ground (
  arith,
  v.backed i.merchant,
  lt_of_some s id i v.fresh e,
  bound-le-held owed s.payment_intents s.next_intent_id id i.merchant,
)
