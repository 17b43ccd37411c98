-- ===== src/X402/Escrow.antt =====
-- The funds behind the payment intents (pallets/x402-settlement/src/lib.rs).
use deep_brain_chain.Prelude.{
  ℕ, ◌+◌, ◌≤◌, ◌<◌, ◌≡◌, none, some, arith, Returns, ◌||◌, if◌then◌else◌, List, Option-cases, inl,
  inr,
}
use deep_brain_chain.Frame.Currency.{IsLawful, at, keep_alive}
use deep_brain_chain.Frame.Escrow.{held, held-skip, held-push, held-insert, bound-le-held}
use deep_brain_chain.Frame.Origin.{Origin}
use deep_brain_chain.X402.{
  settled, settle_for_attestation, Config, State, PaymentIntent, is_pending, is_verified,
  submit_payment_intent, verify_settlement, finalize_settlement, fail_payment_intent,
}

-- What an intent binds of an account: its amount at the merchant, until it is settled or failed.
abbrev pub owed : PaymentIntent → ℕ → ℕ
owed i a = if is_pending i.status || is_verified i.status then at i.merchant i.amount a else 0

abbrev pub held_by : {L : Type 0} → State L → ℕ → ℕ
held_by s a = held owed s.payment_intents s.next_intent_id a

abbrev pub IsFresh : {L : Type 0} → State L → Type 0
IsFresh s = (k : ℕ) → s.next_intent_id ≤ k → s.payment_intents k ≡ none

pub lt_of_some :
    {L : Type 0} (s : State L) (k : ℕ) (i : PaymentIntent)
    → IsFresh s
    → s.payment_intents k ≡ some i
    → k < s.next_intent_id
lt_of_some s k i fresh e = grind (arith, fresh k)

-- Every account's reserve covers what its intents bind.
abbrev pub IsBacked : {L : Type 0} → Config L → State L → Type 0
IsBacked cfg s = (a : ℕ) → held_by s a ≤ cfg.currency.reserved s.ledger a

-- The reserve of the account changes as the intents bind it.
abbrev pub Conserves : {L : Type 0} → Config L → State L → State L → ℕ → Type 0
Conserves cfg s t a =
    cfg.currency.reserved t.ledger a + held_by s a ≡ cfg.currency.reserved s.ledger a + held_by t a

-- The reserve still covers the intents after a call that conserves.
pub Conserves-IsBacked :
    {L : Type 0} (cfg : Config L) (s t : State L)
    → IsBacked cfg s
    → ((a : ℕ) → Conserves cfg s t a)
    → IsBacked cfg t
Conserves-IsBacked cfg s t backed h a = omega (arith, backed a, h a)

module _ {L : Type 0} (cfg : Config L) (lawful : IsLawful cfg.currency) where
  open cfg use {currency}

  pub submit-Conserves :
      (o : Origin) (now miner amount nonce fp : ℕ) (sig : List ℕ) (s : State L) (a : ℕ)
      → Returns
          (λ t. Conserves cfg s t a)
          (submit_payment_intent cfg o now miner amount nonce fp sig s)
  unfolding submit_payment_intent
  submit-Conserves o now miner amount nonce fp sig s a =
      grind (arith, lawful.reserve_reserved, held-push)

  pub verify-Conserves :
      (o : Origin) (now id : ℕ) (s : State L) (a : ℕ)
      → IsFresh s
      → Returns (λ t. Conserves cfg s t a) (verify_settlement cfg o now id s)
  unfolding verify_settlement
  verify-Conserves o now id s a fresh = elim (Option-cases (s.payment_intents id)) [
    | inl e ↦ ground arith
    | inr (i, e) ↦
        grind (
          arith,
          lt_of_some s id i fresh e,
          held-insert owed s.payment_intents s.next_intent_id id a,
        )
  ]

  pub finalize-Conserves :
      (o : Origin) (now id : ℕ) (s : State L) (a : ℕ)
      → IsFresh s
      → IsBacked cfg s
      → Returns (λ t. Conserves cfg s t a) (finalize_settlement cfg o now id s)
  unfolding finalize_settlement
  finalize-Conserves o now id s a fresh backed = elim (Option-cases (s.payment_intents id)) [
    | inl e ↦ ground arith
    | inr (i, e) ↦ elim (Option-cases i.verified_at) [
      | inl unset ↦ ground arith
      | inr (v, set) ↦
          elim (Option-cases (currency.repatriate_reserved i.merchant i.miner i.amount s.ledger)) [
            | inl stuck ↦ ground arith
            | inr ((rest, l'), moved) ↦ ground (
              arith,
              backed a,
              lt_of_some s id i fresh e,
              lawful.repatriate_reserved_reserved i.merchant i.miner i.amount a s.ledger moved,
              bound-le-held owed s.payment_intents s.next_intent_id id a,
              held-insert owed s.payment_intents s.next_intent_id id a
                  (record i { status = settled; settled_at = some now }),
            )
          ]
    ]
  ]

  pub fail-Conserves :
      (o : Origin) (id : ℕ) (s : State L) (a : ℕ)
      → IsFresh s
      → IsBacked cfg s
      → Returns (λ t. Conserves cfg s t a) (fail_payment_intent cfg o id s)
  unfolding fail_payment_intent
  fail-Conserves o id s a fresh backed = elim (Option-cases (s.payment_intents id)) [
    | inl e ↦ ground arith
    | inr (i, e) ↦ grind (
      arith,
      backed a,
      lt_of_some s id i fresh e,
      lawful.unreserve_reserved i.merchant i.amount a s.ledger,
      bound-le-held owed s.payment_intents s.next_intent_id id a,
      held-insert owed s.payment_intents s.next_intent_id id a,
    )
  ]

  pub settle-Conserves :
      (now merchant miner amount : ℕ) (s : State L) (a : ℕ)
      → IsFresh s
      → Conserves cfg s (settle_for_attestation cfg now merchant miner amount s).1 a
  unfolding settle_for_attestation
  settle-Conserves now merchant miner amount s a fresh = grind (
    arith,
    held-skip owed s.payment_intents s.next_intent_id a,
    fresh s.next_intent_id,
    lawful.transfer_reserved merchant miner amount a keep_alive s.ledger,
  )
