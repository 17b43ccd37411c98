-- ===== src/Attestation/Once.antt =====
-- One attestation per account and task in pallets/agent-attestation/src/lib.rs: what its calls keep,
-- and what `on_task_completed` looks at.
use deep_brain_chain.Prelude.{
  ℕ, ◌≤◌, ◌<◌, ◌≡◌, ◌↔◌, some, arith, is_ok, Returns, of_Returns, true, List, length, Option-cases,
  Result-cases, is_some, inl, inr, u64_max,
}
use deep_brain_chain.Frame.Origin.{Origin, root, signed, unsigned}
use deep_brain_chain.Attestation.{
  Config, State, Attestation, register_node, heartbeat, submit_attestation, challenge_attestation,
  confirm_attestation, resolve_challenge, slash_attester, defend_attester, update_capability,
  on_task_completed,
}
use deep_brain_chain.Attestation.Steps.{
  Call, register, beat, submit, challenge, confirm, resolve, serve, dispatch,
}

-- No two attestations have one account and one task, and every one of them is counted.
pub record IsUnique {W L : Type 0} (s : State W L) : Type 0 where
  pub counted :
      (k : ℕ) (x : Attestation)
      → s.attestations k ≡ some x
      → 1 ≤ s.attester_task_count x.attester x.task_id
  pub unique :
      (j k : ℕ) (x y : Attestation)
      → s.attestations j ≡ some x
      → s.attestations k ≡ some y
      → x.attester ≡ y.attester
      → x.task_id ≡ y.task_id
      → j ≡ k

module _ {W L : Type 0} (cfg : Config W L) where
  submit-counted :
      (o : Origin) (now task hash : ℕ) (model : List ℕ) (input output : ℕ) (s : State W L) (k : ℕ)
      (x : Attestation)
      → IsUnique s
      → Returns
          (λ t. t.attestations k ≡ some x → 1 ≤ t.attester_task_count x.attester x.task_id)
          (submit_attestation cfg o now task hash model input output s)
  unfolding submit_attestation
  submit-counted root now task hash model input output s k x u = tt
  submit-counted unsigned now task hash model input output s k x u = tt
  submit-counted (signed who) now task hash model input output s k x u =
      grind (arith, u.counted k x)

  submit_unique :
      (o : Origin) (now task hash : ℕ) (model : List ℕ) (input output : ℕ) (s : State W L) (j k : ℕ)
      (x y : Attestation)
      → IsUnique s
      → Returns
          (λ t.
            t.attestations j ≡ some x
            → t.attestations k ≡ some y
            → x.attester ≡ y.attester
            → x.task_id ≡ y.task_id
            → j ≡ k)
          (submit_attestation cfg o now task hash model input output s)
  unfolding submit_attestation
  submit_unique root now task hash model input output s j k x y u = tt
  submit_unique unsigned now task hash model input output s j k x y u = tt
  submit_unique (signed who) now task hash model input output s j k x y u =
      grind (arith, u.counted j x, u.counted k y, u.unique j k x y)

  dispatch-counted :
      (o : Origin) (now : ℕ) (c : Call) (s : State W L) (k : ℕ) (x : Attestation)
      → IsUnique s
      → Returns
          (λ t. t.attestations k ≡ some x → 1 ≤ t.attester_task_count x.attester x.task_id)
          (dispatch cfg o now c s)
  unfolding dispatch register_node heartbeat update_capability challenge_attestation
      confirm_attestation resolve_challenge slash_attester defend_attester
  dispatch-counted o now (register uuid tflops) s k x u = ground (arith, u.counted k x)
  dispatch-counted o now beat s k x u = ground (arith, u.counted k x)
  dispatch-counted o now (submit task hash model input output) s k x u =
      submit-counted o now task hash model input output s k x u
  dispatch-counted o now (challenge id) s k x u = elim (Option-cases (s.attestations id)) [
    | inl e ↦ ground arith
    | inr (y, e) ↦ ground (arith, u.counted k x, u.counted id y e)
  ]
  dispatch-counted o now (confirm id) s k x u = elim (Option-cases (s.attestations id)) [
    | inl e ↦ ground arith
    | inr (y, e) ↦ ground (arith, u.counted k x, u.counted id y e)
  ]
  dispatch-counted o now (resolve id guilty) s k x u = elim (Option-cases (s.attestations id)) [
    | inl e ↦ ground arith
    | inr (y, e) ↦ ground (arith, u.counted k x, u.counted id y e)
  ]
  dispatch-counted o now (serve models jobs price region) s k x u = ground (arith, u.counted k x)

  dispatch_unique :
      (o : Origin) (now : ℕ) (c : Call) (s : State W L) (j k : ℕ) (x y : Attestation)
      → IsUnique s
      → Returns
          (λ t.
            t.attestations j ≡ some x
            → t.attestations k ≡ some y
            → x.attester ≡ y.attester
            → x.task_id ≡ y.task_id
            → j ≡ k)
          (dispatch cfg o now c s)
  unfolding dispatch register_node heartbeat update_capability challenge_attestation
      confirm_attestation resolve_challenge slash_attester defend_attester
  dispatch_unique o now (register uuid tflops) s j k x y u = ground (arith, u.unique j k x y)
  dispatch_unique o now beat s j k x y u = ground (arith, u.unique j k x y)
  dispatch_unique o now (submit task hash model input output) s j k x y u =
      submit_unique o now task hash model input output s j k x y u
  dispatch_unique o now (challenge id) s j k x y u = elim (Option-cases (s.attestations id)) [
    | inl e ↦ ground arith
    | inr (z, e) ↦ ground (arith, u.unique j k x y, u.unique id k z y e, u.unique j id x z)
  ]
  dispatch_unique o now (confirm id) s j k x y u = elim (Option-cases (s.attestations id)) [
    | inl e ↦ ground arith
    | inr (z, e) ↦ ground (arith, u.unique j k x y, u.unique id k z y e, u.unique j id x z)
  ]
  dispatch_unique o now (resolve id guilty) s j k x y u = elim (Option-cases (s.attestations id)) [
    | inl e ↦ ground arith
    | inr (z, e) ↦ ground (arith, u.unique j k x y, u.unique id k z y e, u.unique j id x z)
  ]
  dispatch_unique o now (serve models jobs price region) s j k x y u =
      ground (arith, u.unique j k x y)

  -- Every call of the pallet keeps one attestation per account and task.
  pub dispatch-IsUnique :
      (o : Origin) (now : ℕ) (c : Call) (s : State W L)
      → IsUnique s
      → Returns IsUnique (dispatch cfg o now c s)
  dispatch-IsUnique o now c s u = elim (Result-cases (dispatch cfg o now c s)) [
    | inl (e, failed) ↦ rw failed tt
    | inr (t, run) ↦ rw run (record {
      counted = λ k x.
          of_Returns
            (λ t. t.attestations k ≡ some x → 1 ≤ t.attester_task_count x.attester x.task_id) _
            (dispatch-counted o now c s k x u) run;
      unique = λ j k x y.
          of_Returns
            (λ t.
              t.attestations j ≡ some x
              → t.attestations k ≡ some y
              → x.attester ≡ y.attester
              → x.task_id ≡ y.task_id
              → j ≡ k)
            _ (dispatch_unique o now c s j k x y u) run;
    })
  ]

  -- A completed task becomes an attestation exactly when the counter is not exhausted, the model's
  -- name fits and the deposit can be reserved: neither the registration of the account nor an
  -- earlier attestation of the same task is looked at.
  pub completed_iff :
      (now attester task hash : ℕ) (model : List ℕ) (input output : ℕ) (s : State W L)
      → (is_ok (on_task_completed cfg now attester task hash model input output s).0 ≡ true) ↔ (
          (s.next_attestation_id < u64_max)
          × (length model ≤ cfg.max_model_id_len)
          × (is_some (cfg.currency.reserve attester cfg.attestation_deposit s.ledger) ≡ true))
  unfolding on_task_completed
  completed_iff now attester task hash model input output s = ground arith
