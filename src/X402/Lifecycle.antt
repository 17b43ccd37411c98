-- ===== src/X402/Lifecycle.antt =====
-- The life of one payment intent, and of a merchant's nonces, over any history of
-- pallets/x402-settlement/src/lib.rs.
use deep_brain_chain.Prelude.{
  ℕ, ◌⊎◌, ◌≡◌, refl, some, none, Option, arith, Returns, of_Returns, Bool, true, false, List,
  Option-cases, inl, inr,
}
use deep_brain_chain.Frame.Origin.{Origin}
use deep_brain_chain.Frame.Currency.{IsLawful}
use deep_brain_chain.X402.{
  Config, State, PaymentIntent, PaymentIntentStatus, pending, verified, settled, failed,
  submit_payment_intent, verify_settlement, finalize_settlement, fail_payment_intent,
  settle_for_attestation,
}
use deep_brain_chain.X402.Tracking.{expired_at, on_initialize-intents}
use deep_brain_chain.X402.Steps.{
  Call, submit, verify, finalize, fail, dispatch, Step, call, begin_block, attest, Reach, here,
  next, IsValid, Reach-IsValid,
}

-- The moves between statuses that the calls make.
abbrev pub allowed : PaymentIntentStatus → PaymentIntentStatus → Bool
allowed pending verified = true
allowed pending failed = true
allowed verified settled = true
allowed verified failed = true
allowed _ _ = false

abbrev pub is_final : PaymentIntentStatus → Bool
is_final settled = true
is_final failed = true
is_final _ = false

-- What was agreed when the intent was submitted.
pub record SameTerms (i j : PaymentIntent) : Type 0 where
  pub intent_id : j.intent_id ≡ i.intent_id
  pub merchant : j.merchant ≡ i.merchant
  pub miner : j.miner ≡ i.miner
  pub amount : j.amount ≡ i.amount
  pub nonce : j.nonce ≡ i.nonce
  pub replay_fingerprint : j.replay_fingerprint ≡ i.replay_fingerprint
  pub facilitator_signature : j.facilitator_signature ≡ i.facilitator_signature
  pub created_at : j.created_at ≡ i.created_at
  pub expires_at : j.expires_at ≡ i.expires_at

-- What may become of an entry in one step: it stays as it is, or it moves to another status on the
-- same terms; an entry that appears is pending; none disappears.
abbrev pub Evolves : Option PaymentIntent → Option PaymentIntent → Type 0
Evolves none none = Unit
Evolves none (some j) = j.status ≡ pending
Evolves (some i) none = ⊥
Evolves (some i) (some j) = (j ≡ i) ⊎ ((allowed i.status j.status ≡ true) × SameTerms i j)

expired_at-Evolves : (now : ℕ) (o : Option PaymentIntent) → Evolves o (expired_at now o)
expired_at-Evolves now none = tt
expired_at-Evolves now (some i) = ground arith

Evolves-refl : (o : Option PaymentIntent) → Evolves o o
Evolves-refl none = tt
Evolves-refl (some i) = inl refl

Evolves-final :
    (i : PaymentIntent) (p : Option PaymentIntent)
    → is_final i.status ≡ true
    → Evolves (some i) p
    → p ≡ some i
Evolves-final i none f e = elim e [ ]
Evolves-final i (some j) f e = ground arith

module _ {L : Type 0} (cfg : Config L) where
  submit-Evolves :
      (o : Origin) (now miner amount nonce fp : ℕ) (sig : List ℕ) (s : State L) (k : ℕ)
      → IsValid cfg s
      → Returns
          (λ t. Evolves (s.payment_intents k) (t.payment_intents k))
          (submit_payment_intent cfg o now miner amount nonce fp sig s)
  unfolding submit_payment_intent
  submit-Evolves o now miner amount nonce fp sig s k v =
      grind (arith, v.fresh k, Evolves-refl (s.payment_intents k))

  verify-Evolves :
      (o : Origin) (now id : ℕ) (s : State L) (k : ℕ)
      → Returns
          (λ t. Evolves (s.payment_intents k) (t.payment_intents k))
          (verify_settlement cfg o now id s)
  unfolding verify_settlement
  verify-Evolves o now id s k = elim (Option-cases (s.payment_intents id)) [
    | inl e ↦ ground arith
    | inr (i, e) ↦ grind (arith, Evolves-refl (s.payment_intents k))
  ]

  finalize-Evolves :
      (o : Origin) (now id : ℕ) (s : State L) (k : ℕ)
      → Returns
          (λ t. Evolves (s.payment_intents k) (t.payment_intents k))
          (finalize_settlement cfg o now id s)
  unfolding finalize_settlement
  finalize-Evolves o now id s k = elim (Option-cases (s.payment_intents id)) [
    | inl e ↦ ground arith
    | inr (i, e) ↦ elim (Option-cases i.verified_at) [
      | inl unset ↦ ground arith
      | inr (at, set) ↦ grind (arith, Evolves-refl (s.payment_intents k))
    ]
  ]

  fail-Evolves :
      (o : Origin) (id : ℕ) (s : State L) (k : ℕ)
      → Returns
          (λ t. Evolves (s.payment_intents k) (t.payment_intents k))
          (fail_payment_intent cfg o id s)
  unfolding fail_payment_intent
  fail-Evolves o id s k = elim (Option-cases (s.payment_intents id)) [
    | inl e ↦ ground arith
    | inr (i, e) ↦ grind (arith, Evolves-refl (s.payment_intents k))
  ]

  dispatch-Evolves :
      (o : Origin) (now : ℕ) (c : Call) (s : State L) (k : ℕ)
      → IsValid cfg s
      → Returns (λ t. Evolves (s.payment_intents k) (t.payment_intents k)) (dispatch cfg o now c s)
  unfolding dispatch
  dispatch-Evolves o now (submit miner amount nonce fp sig) s k v =
      submit-Evolves o now miner amount nonce fp sig s k v
  dispatch-Evolves o now (verify id) s k v = verify-Evolves o now id s k
  dispatch-Evolves o now (finalize id) s k v = finalize-Evolves o now id s k
  dispatch-Evolves o now (fail id) s k v = fail-Evolves o id s k

  settle-intents :
      (now merchant miner amount : ℕ) (s : State L)
      → (settle_for_attestation cfg now merchant miner amount s).1.payment_intents
        ≡ s.payment_intents
  unfolding settle_for_attestation
  settle-intents now merchant miner amount s = ground arith

  -- In every step from a valid state, every intent stays as it is or moves along the allowed transitions on unchanged
  -- terms, and an intent that appears is pending.
  pub Step-Evolves :
      (s t : State L)
      → IsValid cfg s
      → Step cfg s t
      → (k : ℕ) → Evolves (s.payment_intents k) (t.payment_intents k)
  Step-Evolves s t v (call o now c e) k =
      of_Returns (λ u. Evolves (s.payment_intents k) (u.payment_intents k)) _
        (dispatch-Evolves o now c s k v) e
  Step-Evolves s t v (begin_block now e) k =
      rw (e, on_initialize-intents cfg now s v.tracked k)
        (expired_at-Evolves now (s.payment_intents k))
  Step-Evolves s t v (attest now merchant miner amount e) k =
      rw (e, settle-intents now merchant miner amount s) (Evolves-refl (s.payment_intents k))

module _ {L : Type 0} (cfg : Config L) (lawful : IsLawful cfg.currency) where
  -- In every history from a valid state, an intent that is settled or failed is never changed
  -- again; given a lawful currency.
  pub Reach-final :
      (s t : State L) (k : ℕ) (i : PaymentIntent)
      → IsValid cfg s
      → s.payment_intents k ≡ some i
      → is_final i.status ≡ true
      → Reach cfg s t
      → t.payment_intents k ≡ some i
  Reach-final s t k i v e f here = e
  Reach-final s t k i v e f (next {t = u} r st) =
      let before = Reach-final s u k i v e f r in
      Evolves-final i (t.payment_intents k) f
        (rw before at (Step-Evolves cfg u t (Reach-IsValid cfg lawful v r) st k))
