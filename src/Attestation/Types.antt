-- ===== src/Attestation/Types.antt =====
-- The data, the storage and the parameters of pallets/agent-attestation/src/lib.rs.
use deep_brain_chain.Prelude.{ℕ, ◌≤◌, Bool, true, false, Option, List}
use deep_brain_chain.Frame.Currency.{Currency}
use deep_brain_chain.Frame.Origin.{Origin}
use deep_brain_chain.Frame.Settler.{AttestationSettler}

pub data AttestationStatus : Type 0 where
  pending confirmed slashed defended : AttestationStatus

pub record Attestation : Type 0 where
  pub id : ℕ
  pub attester : ℕ
  pub task_id : ℕ
  pub result_hash : ℕ
  pub model_id : List ℕ
  pub input_tokens : ℕ
  pub output_tokens : ℕ
  pub deposit : ℕ
  pub status : AttestationStatus
  pub submitted_at : ℕ
  pub challenge_end : ℕ
  pub challenger : Option ℕ

pub record NodeRegistration : Type 0 where
  pub owner : ℕ
  pub gpu_uuid : List ℕ
  pub tflops : ℕ
  pub registered_at : ℕ
  pub last_heartbeat : ℕ
  pub is_active : Bool

pub record AgentCapability : Type 0 where
  pub owner : ℕ
  pub model_ids : List (List ℕ)
  pub max_concurrent : ℕ
  pub price_per_token : ℕ
  pub region : List ℕ
  pub updated_at : ℕ

-- The constants of `trait Config`, its currency, its settler and its privileged origin.
-- `percent_of p x` is `Perbill::from_percent(p) * x` of sp-arithmetic.
pub record Config (W L : Type 0) : Type 1 where
  pub currency : Currency L
  pub on_attestation_confirmed : AttestationSettler W L
  pub is_admin : Origin → Bool
  pub percent_of : ℕ → ℕ → ℕ
  pub attestation_deposit : ℕ
  pub challenge_window : ℕ
  pub slash_percent : ℕ
  pub heartbeat_interval : ℕ
  pub max_model_id_len : ℕ
  pub max_gpu_uuid_len : ℕ
  pub max_models_per_agent : ℕ

-- A `Perbill` is at most one.
abbrev pub IsShare : (ℕ → ℕ → ℕ) → Type 0
IsShare mul = (p x : ℕ) → mul p x ≤ x

pub data Event : Type 0 where
  node_registered : (who tflops : ℕ) → Event
  heartbeat_received : (who block : ℕ) → Event
  attestation_submitted : (id attester task_id result_hash : ℕ) → Event
  attestation_challenged : (id challenger : ℕ) → Event
  attestation_confirmed : (id : ℕ) → Event
  agent_capability_updated : (who model_count : ℕ) → Event
  attestation_slashed : (id attester slash_amount : ℕ) → Event
  attestation_defended : (id : ℕ) → Event

pub data Error : Type 0 where
  bad_origin node_already_registered node_not_registered heartbeat_too_early : Error
  attestation_not_found already_challenged challenge_window_expired : Error
  challenge_window_not_expired not_attester invalid_status insufficient_deposit : Error
  arithmetic_overflow invalid_model_id too_many_models invalid_region : Error
  duplicate_attestation : Error

-- The texts that `on_task_completed` returns.
pub data CompletionError : Type 0 where
  attestation_id_overflow model_id_too_long reserve_failed : CompletionError

-- `settler` is the storage of the settling pallet.
pub record State (W L : Type 0) : Type 0 where
  pub next_attestation_id : ℕ
  pub attestations : ℕ → Option Attestation
  pub nodes : ℕ → Option NodeRegistration
  pub attester_task_count : ℕ → ℕ → ℕ
  pub agent_capabilities : ℕ → Option AgentCapability
  pub model_providers : List ℕ → ℕ → Bool
  pub ledger : L
  pub settler : W
  pub events : List Event

abbrev pub is_pending : AttestationStatus → Bool
is_pending pending = true
is_pending _ = false
