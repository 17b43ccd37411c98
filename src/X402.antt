-- ===== src/X402.antt =====
-- pallets/x402-settlement/src/lib.rs: payment intents that a merchant funds by a reserve, that the
-- facilitator verifies, and that are then settled to the miner, failed, or expired.
mod Types
pub mod Escrow
pub mod Expiry
pub mod Tracking
pub mod Settler
pub mod Pending
pub mod Steps
pub mod Lifecycle
pub mod Replay
pub mod Settlement
pub mod Refund
mod Tests
pub use Types.*
use deep_brain_chain.Prelude.{
  ℕ, Bool, true, false, not, ◌&&◌, ◌||◌, Option, none, some, List, [], ◌∷◌, ◌++◌, Result, ok, err,
  ◌>>=◌, ◌>>◌, guard, or_fail, update₂, insert, is_some, leb, ltb, ◌==◌, if◌then◌else◌, u32_max,
  u64_max, checked_add, saturating_add, length, retain, contains, try_into, try_push,
}
use deep_brain_chain.Frame.Currency.{Currency, keep_alive}
use deep_brain_chain.Frame.Origin.{Origin, ensure_signed}

module _ {L : Type 0} (cfg : Config L) where
  open cfg use {currency}

  pub verify_facilitator_signature : ℕ → ℕ → ℕ → ℕ → ℕ → List ℕ → Bool
  verify_facilitator_signature merchant miner amount nonce replay_fingerprint signature_bytes =
      if not (length signature_bytes == 64)
      then false
      else cfg.sr25519_verify signature_bytes message cfg.facilitator_public_key
    where
      message : List ℕ
      message =
          cfg.encode_account merchant
          ++ (cfg.encode_account miner
              ++ (cfg.encode_u128 amount
                  ++ (cfg.encode_u64 nonce ++ cfg.encode_h256 replay_fingerprint)))

  pub submit_payment_intent : Origin → ℕ → ℕ → ℕ → ℕ → ℕ → List ℕ → State L → Result Error (State L)
  submit_payment_intent origin now miner amount nonce replay_fingerprint facilitator_signature s =
      do
        merchant ← ensure_signed bad_origin origin
        guard (not (is_some (s.nonce_used merchant nonce))) invalid_nonce
        guard (not (is_some (s.replay_fingerprint_used replay_fingerprint))) fingerprint_used
        signature_bytes ←
            or_fail (try_into cfg.max_signature_len facilitator_signature) arithmetic_overflow
        guard
            (verify_facilitator_signature merchant miner amount nonce replay_fingerprint
              signature_bytes)
            invalid_facilitator_signature
        ledger ← or_fail (currency.reserve merchant amount s.ledger) insufficient_balance
        let intent_id = s.next_intent_id
        next_intent_id ← or_fail (checked_add u64_max intent_id 1) arithmetic_overflow
        ids ← or_fail (try_push max_pending s.pending_intent_ids intent_id) too_many_pending_intents
        ok (record s {
          next_intent_id = next_intent_id;
          nonce_used = update₂ s.nonce_used merchant nonce (some true);
          replay_fingerprint_used = insert s.replay_fingerprint_used replay_fingerprint true;
          pending_intent_ids = ids;
          payment_intents = insert s.payment_intents intent_id (record {
            intent_id = intent_id;
            merchant = merchant;
            miner = miner;
            amount = amount;
            nonce = nonce;
            replay_fingerprint = replay_fingerprint;
            facilitator_signature = signature_bytes;
            status = pending;
            created_at = now;
            verified_at = none;
            settled_at = none;
            expires_at = saturating_add u32_max now cfg.payment_intent_ttl;
          });
          ledger = ledger;
          events = payment_intent_submitted intent_id merchant miner amount nonce ∷ s.events;
        })

  pub verify_settlement : Origin → ℕ → ℕ → State L → Result Error (State L)
  verify_settlement origin now intent_id s = do
    facilitator ← ensure_signed bad_origin origin
    guard (facilitator == cfg.facilitator_account) not_authorized
    intent ← or_fail (s.payment_intents intent_id) payment_intent_not_found
    guard (is_pending intent.status) invalid_payment_intent_status
    guard (ltb now intent.expires_at) intent_expired
    ok (record s {
      payment_intents =
          insert s.payment_intents intent_id
            (record intent { status = verified; verified_at = some now });
      pending_intent_ids = retain (λ id. not (id == intent_id)) s.pending_intent_ids;
      events = payment_intent_verified intent_id facilitator ∷ s.events;
    })

  pub finalize_settlement : Origin → ℕ → ℕ → State L → Result Error (State L)
  finalize_settlement origin now intent_id s = do
    caller ← ensure_signed bad_origin origin
    intent ← or_fail (s.payment_intents intent_id) payment_intent_not_found
    guard (is_verified intent.status) invalid_payment_intent_status
    guard (ltb now intent.expires_at) intent_expired
    guard
        (caller == intent.merchant || (caller == intent.miner || caller == cfg.facilitator_account))
        not_authorized
    verified_at ← or_fail intent.verified_at invalid_payment_intent_status
    guard (leb (saturating_add u32_max verified_at cfg.settlement_delay) now)
        settlement_delay_not_met
    moved ←
        or_fail (currency.repatriate_reserved intent.merchant intent.miner intent.amount s.ledger)
          insufficient_balance
    ok (record s {
      payment_intents =
          insert s.payment_intents intent_id
            (record intent { status = settled; settled_at = some now });
      settlement_receipts = insert s.settlement_receipts intent_id (record {
        intent_id = intent_id;
        merchant = intent.merchant;
        miner = intent.miner;
        amount = intent.amount;
        settled_at = now;
        tx_hash = cfg.from_low_u64_be intent_id;
      });
      ledger = moved.1;
      events =
          payment_intent_settled intent_id intent.merchant intent.miner intent.amount ∷ s.events;
    })

  pub fail_payment_intent : Origin → ℕ → State L → Result Error (State L)
  fail_payment_intent origin intent_id s = do
    facilitator ← ensure_signed bad_origin origin
    guard (facilitator == cfg.facilitator_account) not_authorized
    intent ← or_fail (s.payment_intents intent_id) payment_intent_not_found
    guard (is_pending intent.status || is_verified intent.status) invalid_payment_intent_status
    ok (record s {
      payment_intents = insert s.payment_intents intent_id (record intent { status = failed });
      pending_intent_ids = retain (λ id. not (id == intent_id)) s.pending_intent_ids;
      ledger = currency.unreserve intent.merchant intent.amount s.ledger;
      events = payment_intent_failed intent_id ∷ s.events;
    })

  -- One round of the loop in `on_initialize`, on the storage and `expired_ids`.
  pub expire : ℕ → ℕ → State L × List ℕ → State L × List ℕ
  expire now id (s, expired_ids) = elim (s.payment_intents id) [
    | none ↦ (s, expired_ids)
    | some intent ↦
        if leb intent.expires_at now && is_pending intent.status
        then (
          record s {
            payment_intents = insert s.payment_intents id (record intent { status = failed });
            ledger = currency.unreserve intent.merchant intent.amount s.ledger;
            events = payment_intent_expired id intent.merchant intent.amount ∷ s.events;
          },
          expired_ids ++ id ∷ [],
        )
        else (s, expired_ids)
  ]

  pub expire_all : ℕ → List ℕ → State L × List ℕ → State L × List ℕ
  expire_all now [] acc = acc
  expire_all now (id ∷ ids) acc = expire_all now ids (expire now id acc)

  -- `if !expired_ids.is_empty() { retain }`
  pub drop_expired : State L × List ℕ → State L
  drop_expired (s, []) = s
  drop_expired (s, id ∷ ids) = record s {
    pending_intent_ids = retain (λ i. not (contains i (id ∷ ids))) s.pending_intent_ids;
  }

  pub on_initialize : ℕ → State L → State L
  unfolding expire_all drop_expired
  on_initialize now s = drop_expired (expire_all now s.pending_intent_ids (s, []))

  -- `AttestationSettler::settle_for_attestation`. Its caller drops the error inside a dispatchable,
  -- so that the identifier stays consumed when the transfer fails.
  unfoldable pub settle_for_attestation : ℕ → ℕ → ℕ → ℕ → State L → Result SettleError ℕ × State L
  settle_for_attestation now merchant miner amount s =
      elim (checked_add u64_max s.next_intent_id 1) [
        | none ↦ (err intent_id_overflow, s)
        | some next_id ↦ elim (currency.transfer merchant miner amount keep_alive s.ledger) [
          | none ↦ (err transfer_failed, record s { next_intent_id = next_id })
          | some ledger ↦ (
            ok s.next_intent_id,
            record s {
              next_intent_id = next_id;
              settlement_receipts = insert s.settlement_receipts s.next_intent_id (record {
                intent_id = s.next_intent_id;
                merchant = merchant;
                miner = miner;
                amount = amount;
                settled_at = now;
                tx_hash = cfg.from_low_u64_be s.next_intent_id;
              });
              ledger = ledger;
              events = payment_intent_settled s.next_intent_id merchant miner amount ∷ s.events;
            },
          )
        ]
      ]
