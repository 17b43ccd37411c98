-- ===== src/X402/Settlement.antt =====
-- When `finalize_settlement` of pallets/x402-settlement/src/lib.rs pays, and what it pays.
use deep_brain_chain.Prelude.{
  ℕ, ◌↔◌, is_ok-value, ◌+◌, ◌≤◌, ◌<◌, ◌≡◌, ◌⊎◌, some, arith, ok, true, is_ok, Option-cases, inl,
  inr, saturating_add, u32_max,
}
use deep_brain_chain.Frame.Origin.{Origin, signed}
use deep_brain_chain.Frame.Currency.{IsLawful, at}
use deep_brain_chain.X402.{Config, State, PaymentIntent, verified, settled, finalize_settlement}
use deep_brain_chain.X402.Steps.{amount-le-reserved, IsValid}

module _ {L : Type 0} (cfg : Config L) where
  open cfg use {currency}

  -- The conditions under which a call settles the intent.
  pub record IsSettleable (caller now : ℕ) (i : PaymentIntent) : Type 0 where
    pub checked : i.status ≡ verified
    pub unexpired : now < i.expires_at
    pub party : (caller ≡ i.merchant) ⊎ ((caller ≡ i.miner) ⊎ (caller ≡ cfg.facilitator_account))
    pub verified_at : ℕ
    pub stamped : i.verified_at ≡ some verified_at
    pub matured : saturating_add u32_max verified_at cfg.settlement_delay ≤ now

  settleable :
      (caller now id : ℕ) (s t : State L) (i : PaymentIntent)
      → s.payment_intents id ≡ some i
      → finalize_settlement cfg (signed caller) now id s ≡ ok t
      → IsSettleable caller now i
  unfolding finalize_settlement
  settleable caller now id s t i e h = elim (Option-cases i.verified_at) [
    | inl unset ↦ absurd (ground arith)
    | inr (v, set) ↦ record {
      checked = ground arith;
      unexpired = ground arith;
      party = ground arith;
      verified_at = v;
      stamped = set;
      matured = ground arith;
    }
  ]

  settles :
      (caller now id rest : ℕ) (s : State L) (l : L) (i : PaymentIntent)
      → s.payment_intents id ≡ some i
      → IsSettleable caller now i
      → currency.repatriate_reserved i.merchant i.miner i.amount s.ledger ≡ some (rest, l)
      → is_ok (finalize_settlement cfg (signed caller) now id s) ≡ true
  unfolding finalize_settlement
  settles caller now id rest s l i e c moved =
      let v = c.verified_at in let set : i.verified_at ≡ some v = c.stamped in ground arith

  -- Of an existing intent and with a currency that accepts the payment, a signed call of
  -- `finalize_settlement` succeeds exactly when the intent is verified and unexpired, the caller is
  -- its merchant, its miner or the facilitator, and the settlement delay since its verification has
  -- passed.
  pub finalize_iff_IsSettleable :
      (caller now id rest : ℕ) (s : State L) (l : L) (i : PaymentIntent)
      → s.payment_intents id ≡ some i
      → currency.repatriate_reserved i.merchant i.miner i.amount s.ledger ≡ some (rest, l)
      → ((t : State L) × (finalize_settlement cfg (signed caller) now id s ≡ ok t))
        ↔ IsSettleable caller now i
  finalize_iff_IsSettleable caller now id rest s l i e moved = (
    λ (t, h). settleable caller now id s t i e h,
    λ c. is_ok-value _ (settles caller now id rest s l i e c moved),
  )

  -- What a settlement does from a valid state: the miner's free balance grows by the full amount,
  -- the merchant's reserve falls by it, no other balance moves, the intent is settled, and the receipt
  -- names the parties and the amount.
  pub record IsPaid (now id : ℕ) (i : PaymentIntent) (s t : State L) : Type 0 where
    pub free : (a : ℕ) → currency.free t.ledger a ≡ currency.free s.ledger a + at i.miner i.amount a
    pub reserved :
        (a : ℕ)
        → currency.reserved t.ledger a + at i.merchant i.amount a ≡ currency.reserved s.ledger a
    pub intent : t.payment_intents id ≡ some (record i { status = settled; settled_at = some now })
    pub receipt :
        t.settlement_receipts id
        ≡ some (record {
          intent_id = id;
          merchant = i.merchant;
          miner = i.miner;
          amount = i.amount;
          settled_at = now;
          tx_hash = cfg.from_low_u64_be id;
        })

  -- From a valid state and with a lawful currency, a settlement that succeeds moves the intent's
  -- full amount from the merchant's reserve to the miner's free balance and no other balance, marks
  -- the intent settled and stores its receipt.
  pub finalize-IsPaid :
      (lawful : IsLawful currency) (o : Origin) (now id : ℕ) (s t : State L) (i : PaymentIntent)
      → IsValid cfg s
      → s.payment_intents id ≡ some i
      → finalize_settlement cfg o now id s ≡ ok t
      → IsPaid now id i s t
  unfolding finalize_settlement
  finalize-IsPaid lawful o now id s t i v e h = elim (Option-cases i.verified_at) [
    | inl unset ↦ absurd (grind arith)
    | inr (w, set) ↦
        elim (Option-cases (currency.repatriate_reserved i.merchant i.miner i.amount s.ledger)) [
          | inl stuck ↦ absurd (grind arith)
          | inr ((rest, l), moved) ↦ record {
            free = λ a. ground (
              arith,
              amount-le-reserved cfg s id i v e (ground arith),
              lawful.repatriate_reserved_free i.merchant i.miner i.amount a s.ledger moved,
            );
            reserved = λ a. ground (
              arith,
              amount-le-reserved cfg s id i v e (ground arith),
              lawful.repatriate_reserved_reserved i.merchant i.miner i.amount a s.ledger moved,
            );
            intent = ground arith;
            receipt = ground arith;
          }
        ]
  ]
