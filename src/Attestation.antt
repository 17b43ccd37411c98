-- ===== src/Attestation.antt =====
-- pallets/agent-attestation/src/lib.rs: nodes and their heartbeats, attestations of task results with a
-- deposit and a challenge window, and the models that agents serve.
mod Types
pub mod Deposits
pub mod Providers
pub mod Steps
pub mod Verdicts
pub mod Once
pub mod Handler
mod Tests
pub use Types.*
use deep_brain_chain.Prelude.{
  ℕ, ◌+◌, ◌-◌, Bool, true, false, not, ◌&&◌, Option, none, some, List, [], ◌∷◌, Result, ok, err,
  ◌>>=◌, ◌>>◌, guard, or_fail, update₂, insert, is_some, leb, ltb, ◌==◌, if◌then◌else◌, u32_max,
  u64_max, checked_add, saturating_add, length, try_into, retain,
}
use deep_brain_chain.Frame.Origin.{Origin, ensure_signed, ensure_root}
use deep_brain_chain.Frame.Settler.{AttestationSettler}

-- Equality of storage keys.
abbrev pub same_bytes : List ℕ → List ℕ → Bool
same_bytes [] [] = true
same_bytes [] (y ∷ ys) = false
same_bytes (x ∷ xs) [] = false
same_bytes (x ∷ xs) (y ∷ ys) = x == y && same_bytes xs ys

-- `ModelProviders::remove` and `ModelProviders::insert` of one key.
abbrev pub set_provider : List ℕ → ℕ → Bool → (List ℕ → ℕ → Bool) → List ℕ → ℕ → Bool
set_provider model who b f m a = if same_bytes m model && a == who then b else f m a

-- The loops of `update_capability` over the models of the old and of the new capability.
abbrev pub set_providers : List (List ℕ) → ℕ → Bool → (List ℕ → ℕ → Bool) → List ℕ → ℕ → Bool
set_providers [] who b f = f
set_providers (model ∷ models) who b f = set_providers models who b (set_provider model who b f)

-- The conversion of the model names to bounded ones, which stops at the first that is too long.
abbrev pub bounded_models : ℕ → List (List ℕ) → Result Error (List (List ℕ))
bounded_models top [] = ok []
bounded_models top (m ∷ ms) = do
  bounded ← or_fail (try_into top m) invalid_model_id
  rest ← bounded_models top ms
  ok (bounded ∷ rest)

-- `is_active` of a node, false where there is none.
abbrev pub is_active_node : Option NodeRegistration → Bool
is_active_node none = false
is_active_node (some n) = n.is_active

module _ {W L : Type 0} (cfg : Config W L) where
  open cfg use {currency}

  unfoldable pub register_node : Origin → ℕ → List ℕ → ℕ → State W L → Result Error (State W L)
  register_node origin now gpu_uuid tflops s = do
    who ← ensure_signed bad_origin origin
    guard (not (is_some (s.nodes who))) node_already_registered
    gpu_uuid_bounded ← or_fail (try_into cfg.max_gpu_uuid_len gpu_uuid) arithmetic_overflow
    ok (record s {
      nodes = insert s.nodes who (record {
        owner = who;
        gpu_uuid = gpu_uuid_bounded;
        tflops = tflops;
        registered_at = now;
        last_heartbeat = now;
        is_active = true;
      });
      events = node_registered who tflops ∷ s.events;
    })

  pub heartbeat : Origin → ℕ → State W L → Result Error (State W L)
  heartbeat origin now s = do
    who ← ensure_signed bad_origin origin
    node ← or_fail (s.nodes who) node_not_registered
    guard (leb (saturating_add u32_max node.last_heartbeat cfg.heartbeat_interval) now)
        heartbeat_too_early
    ok (record s {
      nodes = insert s.nodes who (record node { last_heartbeat = now; is_active = true });
      events = heartbeat_received who now ∷ s.events;
    })

  -- The pending attestation of a result.
  abbrev pub new_attestation : ℕ → ℕ → ℕ → ℕ → ℕ → List ℕ → ℕ → ℕ → Attestation
  new_attestation id now attester task_id result_hash model_id input_tokens output_tokens = record {
    id = id;
    attester = attester;
    task_id = task_id;
    result_hash = result_hash;
    model_id = model_id;
    input_tokens = input_tokens;
    output_tokens = output_tokens;
    deposit = cfg.attestation_deposit;
    status = pending;
    submitted_at = now;
    challenge_end = saturating_add u32_max now cfg.challenge_window;
    challenger = none;
  }

  unfoldable pub submit_attestation :
      Origin → ℕ → ℕ → ℕ → List ℕ → ℕ → ℕ → State W L → Result Error (State W L)
  submit_attestation origin now task_id result_hash model_id input_tokens output_tokens s = do
    attester ← ensure_signed bad_origin origin
    guard (is_some (s.nodes attester)) node_not_registered
    guard (s.attester_task_count attester task_id == 0) duplicate_attestation
    ledger ←
        or_fail (currency.reserve attester cfg.attestation_deposit s.ledger) insufficient_deposit
    model_id_bounded ← or_fail (try_into cfg.max_model_id_len model_id) arithmetic_overflow
    let id = s.next_attestation_id
    next_id ← or_fail (checked_add u64_max id 1) arithmetic_overflow
    ok (record s {
      next_attestation_id = next_id;
      attestations = insert s.attestations id (
          new_attestation id now attester task_id result_hash model_id_bounded input_tokens
            output_tokens);
      attester_task_count =
          update₂ s.attester_task_count attester task_id
            (saturating_add u32_max (s.attester_task_count attester task_id) 1);
      ledger = ledger;
      events = attestation_submitted id attester task_id result_hash ∷ s.events;
    })

  pub challenge_attestation : Origin → ℕ → ℕ → State W L → Result Error (State W L)
  challenge_attestation origin now attestation_id s = do
    challenger ← ensure_signed bad_origin origin
    att ← or_fail (s.attestations attestation_id) attestation_not_found
    guard (is_pending att.status) invalid_status
    guard (not (is_some att.challenger)) already_challenged
    guard (leb now att.challenge_end) challenge_window_expired
    ok (record s {
      attestations =
          insert s.attestations attestation_id (record att { challenger = some challenger });
      events = attestation_challenged attestation_id challenger ∷ s.events;
    })

  -- The result of the settlement is ignored, an error included.
  unfoldable pub confirm_attestation : Origin → ℕ → ℕ → State W L → Result Error (State W L)
  confirm_attestation origin now attestation_id s = do
    guard (cfg.is_admin origin) bad_origin
    att ← or_fail (s.attestations attestation_id) attestation_not_found
    guard (is_pending att.status) invalid_status
    guard (not (is_some att.challenger)) already_challenged
    guard (ltb att.challenge_end now) challenge_window_not_expired
    let settlement =
        cfg.on_attestation_confirmed.settle_for_attestation now att.attester att.attester
          att.deposit attestation_id
          (s.settler, currency.unreserve att.attester att.deposit s.ledger)
    ok (record s {
      attestations = insert s.attestations attestation_id (record att { status = confirmed });
      ledger = settlement.1.1;
      settler = settlement.1.0;
      events = attestation_confirmed attestation_id ∷ s.events;
    })

  -- The two outcomes of a challenge.
  slash_attester : ℕ → Attestation → State W L → State W L
  slash_attester attestation_id att s =
      let slash_amount = cfg.percent_of cfg.slash_percent att.deposit in
      record s {
        attestations = insert s.attestations attestation_id (record att { status = slashed });
        ledger =
            currency.unreserve att.attester (att.deposit - slash_amount)
              (currency.slash_reserved att.attester slash_amount s.ledger);
        events = attestation_slashed attestation_id att.attester slash_amount ∷ s.events;
      }

  defend_attester : ℕ → Attestation → State W L → State W L
  defend_attester attestation_id att s = record s {
    attestations = insert s.attestations attestation_id (record att { status = defended });
    ledger = currency.unreserve att.attester att.deposit s.ledger;
    events = attestation_defended attestation_id ∷ s.events;
  }

  pub resolve_challenge : Origin → ℕ → Bool → State W L → Result Error (State W L)
  unfolding slash_attester defend_attester
  resolve_challenge origin attestation_id attester_is_guilty s = do
    ensure_root bad_origin origin
    att ← or_fail (s.attestations attestation_id) attestation_not_found
    guard (is_pending att.status) invalid_status
    guard (is_some att.challenger) invalid_status
    ok (
        if attester_is_guilty
        then slash_attester attestation_id att s
        else defend_attester attestation_id att s)

  -- The providers without those of the capability that an update replaces.
  abbrev pub without_old : ℕ → State W L → List ℕ → ℕ → Bool
  without_old who s = elim (s.agent_capabilities who) [
    | none ↦ s.model_providers
    | some old ↦ set_providers old.model_ids who false s.model_providers
  ]

  pub update_capability :
      Origin → ℕ → List (List ℕ) → ℕ → ℕ → List ℕ → State W L → Result Error (State W L)
  update_capability origin now model_ids max_concurrent price_per_token region s = do
    who ← ensure_signed bad_origin origin
    guard (is_some (s.nodes who)) node_not_registered
    models ← bounded_models cfg.max_model_id_len model_ids
    listed ← or_fail (try_into cfg.max_models_per_agent models) too_many_models
    bounded_region ← or_fail (try_into 16 region) invalid_region
    ok (record s {
      model_providers = set_providers listed who true (without_old who s);
      agent_capabilities = insert s.agent_capabilities who (record {
        owner = who;
        model_ids = listed;
        max_concurrent = max_concurrent;
        price_per_token = price_per_token;
        region = bounded_region;
        updated_at = now;
      });
      events = agent_capability_updated who (length listed) ∷ s.events;
    })

  -- `keys` are the accounts in the order in which storage iterates over them.
  pub get_providers_for_model : List ℕ → List ℕ → State W L → List ℕ
  get_providers_for_model keys model_id s =
      retain (λ a. s.model_providers model_id a && is_active_node (s.nodes a)) keys

  -- The handler of completed tasks returns its error with what it has written so far.
  pub on_task_completed :
      ℕ → ℕ → ℕ → ℕ → List ℕ → ℕ → ℕ → State W L → Result CompletionError ℕ × State W L
  on_task_completed now attester task_id result_hash model_id input_tokens output_tokens s =
      elim (checked_add u64_max s.next_attestation_id 1) [
        | none ↦ (err attestation_id_overflow, s)
        | some next_id ↦ elim (try_into cfg.max_model_id_len model_id) [
          | none ↦ (err model_id_too_long, record s { next_attestation_id = next_id })
          | some model_id_bounded ↦
              elim (currency.reserve attester cfg.attestation_deposit s.ledger) [
                | none ↦ (err reserve_failed, record s { next_attestation_id = next_id })
                | some ledger ↦ (
                  ok s.next_attestation_id,
                  record s {
                    next_attestation_id = next_id;
                    attestations = insert s.attestations s.next_attestation_id (
                        new_attestation s.next_attestation_id now attester task_id result_hash
                          model_id_bounded input_tokens output_tokens);
                    attester_task_count =
                        update₂ s.attester_task_count attester task_id
                          (saturating_add u32_max (s.attester_task_count attester task_id) 1);
                    ledger = ledger;
                    events =
                        attestation_submitted s.next_attestation_id attester task_id result_hash
                        ∷ s.events;
                  },
                )
              ]
        ]
      ]
