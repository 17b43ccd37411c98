-- ===== src/Attestation/Providers.antt =====
-- The index of providers per model (`ModelProviders`) of pallets/agent-attestation/src/lib.rs.
use deep_brain_chain.Prelude.{
  ℕ, ◌≡◌, refl, some, none, arith, Returns, Bool, true, false, ◌&&◌, ◌||◌, ◌==◌, if◌then◌else◌,
  List, [], ◌∷◌, Option, Option-cases, Result-cases, inl, inr, contains, contains-retain,
}
use deep_brain_chain.Frame.Origin.{Origin, root, signed, unsigned}
use deep_brain_chain.Attestation.{
  Config, State, AgentCapability, same_bytes, set_provider, set_providers, update_capability,
  get_providers_for_model, is_active_node, bounded_models,
}

abbrev pub serves : List ℕ → List (List ℕ) → Bool
serves m [] = false
serves m (x ∷ xs) = same_bytes m x || serves m xs

abbrev pub models_of : Option AgentCapability → List (List ℕ)
models_of none = []
models_of (some c) = c.model_ids

-- An account is listed at exactly the models of its capability.
abbrev pub IsIndexed : {W L : Type 0} → State W L → Type 0
IsIndexed s =
    (m : List ℕ) (a : ℕ) → s.model_providers m a ≡ serves m (models_of (s.agent_capabilities a))

pub set_providers_lem :
    (models : List (List ℕ)) (who : ℕ) (b : Bool) (f : List ℕ → ℕ → Bool) (m : List ℕ) (a : ℕ)
    → set_providers models who b f m a ≡ (if serves m models && a == who then b else f m a)
set_providers_lem [] who b f m a = refl
set_providers_lem (x ∷ xs) who b f m a =
    ground (arith, set_providers_lem xs who b (set_provider x who b f) m a)

module _ {W L : Type 0} (cfg : Config W L) where
  -- An update replaces what the account is listed at by what it now serves, and nothing else.
  pub update-IsIndexed :
      (o : Origin) (now : ℕ) (models : List (List ℕ)) (jobs price : ℕ) (region : List ℕ)
      (s : State W L) (m : List ℕ) (a : ℕ)
      → IsIndexed s
      → Returns
          (λ t. t.model_providers m a ≡ serves m (models_of (t.agent_capabilities a)))
          (update_capability cfg o now models jobs price region s)
  unfolding update_capability
  update-IsIndexed root now models jobs price region s m a h = tt
  update-IsIndexed unsigned now models jobs price region s m a h = tt
  update-IsIndexed (signed who) now models jobs price region s m a h =
      elim (Result-cases (bounded_models cfg.max_model_id_len models)) [
        | inl (x, e) ↦ ground arith
        | inr (listed, e) ↦ elim (Option-cases (s.agent_capabilities who)) [
          | inl u ↦ ground (arith, h m a, set_providers_lem listed who true s.model_providers m a)
          | inr (old, u) ↦ ground (
            arith,
            h m a,
            set_providers_lem listed who true
                (set_providers old.model_ids who false s.model_providers) m a,
            set_providers_lem old.model_ids who false s.model_providers m a,
          )
        ]
      ]

  -- The providers found for a model are the accounts that storage lists whose capability names the
  -- model and whose node is active, once the index agrees with the capabilities.
  pub get_providers_for_model_lem :
      (keys model : List ℕ) (s : State W L)
      → IsIndexed s
      → (a : ℕ)
      → contains a (get_providers_for_model cfg keys model s) ≡ (
          contains a keys
          && (serves model (models_of (s.agent_capabilities a)) && is_active_node (s.nodes a)))
  unfolding get_providers_for_model
  get_providers_for_model_lem keys model s h a = ground (
    arith,
    h model a,
    contains-retain a (λ x. s.model_providers model x && is_active_node (s.nodes x)) keys,
  )
