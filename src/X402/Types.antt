-- ===== src/X402/Types.antt =====
-- The data, the storage and the parameters of pallets/x402-settlement/src/lib.rs.
use deep_brain_chain.Prelude.{ℕ, Bool, true, false, Option, List}
use deep_brain_chain.Frame.Currency.{Currency}

pub data PaymentIntentStatus : Type 0 where
  pending verified settled failed : PaymentIntentStatus

pub record PaymentIntent : Type 0 where
  pub intent_id : ℕ
  pub merchant : ℕ
  pub miner : ℕ
  pub amount : ℕ
  pub nonce : ℕ
  pub replay_fingerprint : ℕ
  pub facilitator_signature : List ℕ
  pub status : PaymentIntentStatus
  pub created_at : ℕ
  pub verified_at : Option ℕ
  pub settled_at : Option ℕ
  pub expires_at : ℕ

pub record SettlementReceipt : Type 0 where
  pub intent_id : ℕ
  pub merchant : ℕ
  pub miner : ℕ
  pub amount : ℕ
  pub settled_at : ℕ
  pub tx_hash : ℕ

-- The constants of `trait Config`, its currency, and what the code calls of other crates: the SCALE
-- encodings of the message's parts, `sr25519_verify(signature, message, key)`, and
-- `H256::from_low_u64_be`.
pub record Config (L : Type 0) : Type 0 where
  pub currency : Currency L
  pub facilitator_account : ℕ
  pub max_signature_len : ℕ
  pub facilitator_public_key : ℕ
  pub settlement_delay : ℕ
  pub payment_intent_ttl : ℕ
  pub encode_account : ℕ → List ℕ
  pub encode_u128 : ℕ → List ℕ
  pub encode_u64 : ℕ → List ℕ
  pub encode_h256 : ℕ → List ℕ
  pub sr25519_verify : List ℕ → List ℕ → ℕ → Bool
  pub from_low_u64_be : ℕ → ℕ

pub data Event : Type 0 where
  payment_intent_submitted : (intent_id merchant miner amount nonce : ℕ) → Event
  payment_intent_verified : (intent_id facilitator : ℕ) → Event
  payment_intent_settled : (intent_id merchant miner amount : ℕ) → Event
  payment_intent_failed : (intent_id : ℕ) → Event
  payment_intent_expired : (intent_id merchant amount : ℕ) → Event

pub data Error : Type 0 where
  bad_origin invalid_nonce fingerprint_used invalid_facilitator_signature : Error
  payment_intent_not_found invalid_payment_intent_status insufficient_balance : Error
  settlement_delay_not_met not_authorized arithmetic_overflow intent_expired : Error
  too_many_pending_intents : Error

-- The storage items, the currency's ledger, and the events, newest first.
pub record State (L : Type 0) : Type 0 where
  pub next_intent_id : ℕ
  pub payment_intents : ℕ → Option PaymentIntent
  pub nonce_used : ℕ → ℕ → Option Bool
  pub replay_fingerprint_used : ℕ → Option Bool
  pub settlement_receipts : ℕ → Option SettlementReceipt
  pub pending_intent_ids : List ℕ
  pub ledger : L
  pub events : List Event

-- `ConstU32<10000>`
abbrev pub max_pending : ℕ
max_pending = 10000

-- `matches!(status, Pending)` and the like
abbrev pub is_pending : PaymentIntentStatus → Bool
is_pending pending = true
is_pending _ = false

abbrev pub is_verified : PaymentIntentStatus → Bool
is_verified verified = true
is_verified _ = false

-- The errors of `settle_for_attestation`, two literal texts in the source.
pub data SettleError : Type 0 where
  intent_id_overflow transfer_failed : SettleError
