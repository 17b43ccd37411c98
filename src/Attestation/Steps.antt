-- ===== src/Attestation/Steps.antt =====
-- Histories of pallets/agent-attestation/src/lib.rs: its calls, and tasks that another pallet reports as
-- completed.
use deep_brain_chain.Prelude.{
  ℕ, ◌≤◌, ◌≡◌, none, arith, ok, Result, Returns, of_Returns, Bool, List, Option-cases, inl, inr,
}
use deep_brain_chain.Frame.Origin.{Origin}
use deep_brain_chain.Frame.Currency.{IsLawful}
use deep_brain_chain.Frame.Settler.{KeepsReserves}
use deep_brain_chain.Attestation.{
  Config, State, Error, IsShare, register_node, heartbeat, submit_attestation,
  challenge_attestation, confirm_attestation, resolve_challenge, slash_attester, defend_attester,
  update_capability, on_task_completed,
}
use deep_brain_chain.Attestation.Deposits.{
  IsFresh, IsBacked, Conserves, lt_of_some, submit-Conserves, challenge-Conserves,
  confirm-Conserves, resolve-Conserves, completed-Conserves,
}
use deep_brain_chain.Attestation.Providers.{IsIndexed, serves, models_of, update-IsIndexed}

-- A call of the pallet.
pub data Call : Type 0 where
  register : (gpu_uuid : List ℕ) (tflops : ℕ) → Call
  beat : Call
  submit : (task_id result_hash : ℕ) (model_id : List ℕ) (input_tokens output_tokens : ℕ) → Call
  challenge confirm : (attestation_id : ℕ) → Call
  resolve : (attestation_id : ℕ) (attester_is_guilty : Bool) → Call
  serve : (model_ids : List (List ℕ)) (max_concurrent price_per_token : ℕ) (region : List ℕ) → Call

unfoldable pub dispatch :
    {W L : Type 0} → Config W L → Origin → ℕ → Call → State W L → Result Error (State W L)
dispatch cfg o now (register uuid tflops) s = register_node cfg o now uuid tflops s
dispatch cfg o now beat s = heartbeat cfg o now s
dispatch cfg o now (submit task hash model input output) s =
    submit_attestation cfg o now task hash model input output s
dispatch cfg o now (challenge id) s = challenge_attestation cfg o now id s
dispatch cfg o now (confirm id) s = confirm_attestation cfg o now id s
dispatch cfg o now (resolve id guilty) s = resolve_challenge cfg o id guilty s
dispatch cfg o now (serve models jobs price region) s =
    update_capability cfg o now models jobs price region s

pub data Step {W L : Type 0} (cfg : Config W L) (s t : State W L) : Type 0 where
  call : (o : Origin) (now : ℕ) (c : Call) → dispatch cfg o now c s ≡ ok t → Step cfg s t
  completed :
      (now attester task hash : ℕ) (model : List ℕ) (input output : ℕ)
      → t ≡ (on_task_completed cfg now attester task hash model input output s).1
      → Step cfg s t

pub data Reach {W L : Type 0} (cfg : Config W L) (s : State W L) : State W L → Type 0 where
  here : Reach cfg s s
  next : {t u : State W L} → Reach cfg s t → Step cfg t u → Reach cfg s u

-- Attestations up to the counter and no further, every reserve covers the pending deposits, and the
-- index of providers agrees with the capabilities.
pub record IsValid {W L : Type 0} (cfg : Config W L) (s : State W L) : Type 0 where
  pub fresh : IsFresh s
  pub backed : IsBacked cfg s
  pub indexed : IsIndexed s

-- What the pallet relies on: a lawful currency, a slash share of at most the whole, and a settler
-- that leaves the reserves alone.
pub record IsSound {W L : Type 0} (cfg : Config W L) : Type 0 where
  pub lawful : IsLawful cfg.currency
  pub share : IsShare cfg.percent_of
  pub keeps : KeepsReserves cfg.currency cfg.on_attestation_confirmed

module _ {W L : Type 0} (cfg : Config W L) (sound : IsSound cfg) where
  dispatch-Conserves :
      (o : Origin) (now : ℕ) (c : Call) (s : State W L) (a : ℕ)
      → IsValid cfg s
      → Returns (λ t. Conserves cfg s t a) (dispatch cfg o now c s)
  unfolding dispatch register_node heartbeat update_capability
  dispatch-Conserves o now (register uuid tflops) s a v = ground arith
  dispatch-Conserves o now beat s a v = ground arith
  dispatch-Conserves o now (submit task hash model input output) s a v =
      submit-Conserves cfg sound.lawful o now task hash model input output s a
  dispatch-Conserves o now (challenge id) s a v =
      challenge-Conserves cfg sound.lawful o now id s a v.fresh
  dispatch-Conserves o now (confirm id) s a v =
      confirm-Conserves cfg sound.lawful sound.keeps o now id s a v.fresh v.backed
  dispatch-Conserves o now (resolve id guilty) s a v =
      resolve-Conserves cfg sound.lawful sound.share o id guilty s a v.fresh v.backed
  dispatch-Conserves o now (serve models jobs price region) s a v = ground arith

  -- Every call and every completed task moves each account's reserve exactly as it moves the
  -- deposits of the account's pending attestations, given a lawful currency, a slash of at most the
  -- whole deposit and a settler that leaves the reserves alone.
  pub Step-Conserves_deposits :
      (s t : State W L) → IsValid cfg s → Step cfg s t → (a : ℕ) → Conserves cfg s t a
  Step-Conserves_deposits s t v (call o now c e) a =
      of_Returns (λ u. Conserves cfg s u a) _ (dispatch-Conserves o now c s a v) e
  Step-Conserves_deposits s t v (completed now attester task hash model input output e) a =
      rw e
        (completed-Conserves cfg sound.lawful now attester task hash model input output s a v.fresh)

module _ {W L : Type 0} (cfg : Config W L) where
  dispatch-fresh :
      (o : Origin) (now : ℕ) (c : Call) (s : State W L) (k : ℕ)
      → IsFresh s
      → Returns (λ t. t.next_attestation_id ≤ k → t.attestations k ≡ none) (dispatch cfg o now c s)
  unfolding dispatch register_node heartbeat update_capability submit_attestation
      challenge_attestation confirm_attestation resolve_challenge slash_attester defend_attester
  dispatch-fresh o now (register uuid tflops) s k h = ground (arith, h k)
  dispatch-fresh o now beat s k h = ground (arith, h k)
  dispatch-fresh o now (submit task hash model input output) s k h = grind (arith, h k)
  dispatch-fresh o now (challenge id) s k h = elim (Option-cases (s.attestations id)) [
    | inl e ↦ ground arith
    | inr (x, e) ↦ grind (arith, h k, lt_of_some s id x h e)
  ]
  dispatch-fresh o now (confirm id) s k h = elim (Option-cases (s.attestations id)) [
    | inl e ↦ ground arith
    | inr (x, e) ↦ grind (arith, h k, lt_of_some s id x h e)
  ]
  dispatch-fresh o now (resolve id guilty) s k h = elim (Option-cases (s.attestations id)) [
    | inl e ↦ ground arith
    | inr (x, e) ↦ grind (arith, h k, lt_of_some s id x h e)
  ]
  dispatch-fresh o now (serve models jobs price region) s k h = ground (arith, h k)

  completed-IsFresh :
      (now attester task hash : ℕ) (model : List ℕ) (input output : ℕ) (s : State W L)
      → IsFresh s
      → IsFresh (on_task_completed cfg now attester task hash model input output s).1
  unfolding on_task_completed
  completed-IsFresh now attester task hash model input output s h k = grind (arith, h k)

  dispatch-IsIndexed :
      (o : Origin) (now : ℕ) (c : Call) (s : State W L) (m : List ℕ) (a : ℕ)
      → IsIndexed s
      → Returns
          (λ t. t.model_providers m a ≡ serves m (models_of (t.agent_capabilities a)))
          (dispatch cfg o now c s)
  unfolding dispatch register_node heartbeat submit_attestation challenge_attestation
      confirm_attestation resolve_challenge slash_attester defend_attester
  dispatch-IsIndexed o now (register uuid tflops) s m a h = ground (arith, h m a)
  dispatch-IsIndexed o now beat s m a h = ground (arith, h m a)
  dispatch-IsIndexed o now (submit task hash model input output) s m a h = ground (arith, h m a)
  dispatch-IsIndexed o now (challenge id) s m a h = ground (arith, h m a)
  dispatch-IsIndexed o now (confirm id) s m a h = ground (arith, h m a)
  dispatch-IsIndexed o now (resolve id guilty) s m a h = ground (arith, h m a)
  dispatch-IsIndexed o now (serve models jobs price region) s m a h =
      update-IsIndexed cfg o now models jobs price region s m a h

  completed-IsIndexed :
      (now attester task hash : ℕ) (model : List ℕ) (input output : ℕ) (s : State W L)
      → IsIndexed s
      → IsIndexed (on_task_completed cfg now attester task hash model input output s).1
  unfolding on_task_completed
  completed-IsIndexed now attester task hash model input output s h m a = ground (arith, h m a)

module _ {W L : Type 0} (cfg : Config W L) (sound : IsSound cfg) where
  Step-IsFresh : (s t : State W L) → IsValid cfg s → Step cfg s t → IsFresh t
  Step-IsFresh s t v (call o now c e) k =
      of_Returns (λ x. x.next_attestation_id ≤ k → x.attestations k ≡ none) _
        (dispatch-fresh cfg o now c s k v.fresh) e
  Step-IsFresh s t v (completed now attester task hash model input output e) k =
      rw e (completed-IsFresh cfg now attester task hash model input output s v.fresh k)

  Step-IsIndexed : (s t : State W L) → IsValid cfg s → Step cfg s t → IsIndexed t
  Step-IsIndexed s t v (call o now c e) m a =
      of_Returns (λ x. x.model_providers m a ≡ serves m (models_of (x.agent_capabilities a))) _
        (dispatch-IsIndexed cfg o now c s m a v.indexed) e
  Step-IsIndexed s t v (completed now attester task hash model input output e) m a =
      rw e (completed-IsIndexed cfg now attester task hash model input output s v.indexed m a)

  -- Fresh identifiers, covered deposits and an index of providers that agrees with the capabilities
  -- hold after every history of calls and completed tasks.
  pub Reach-IsValid_attestations : {s t : State W L} → IsValid cfg s → Reach cfg s t → IsValid cfg t
  Reach-IsValid_attestations v here = v
  Reach-IsValid_attestations v (next {t} {u} r st) =
      let w = Reach-IsValid_attestations v r in
      record {
        fresh = Step-IsFresh t u w st;
        backed = λ a. omega (arith, w.backed a, Step-Conserves_deposits cfg sound t u w st a);
        indexed = Step-IsIndexed t u w st;
      }

module _ {W L : Type 0} (cfg : Config W L) where
  open cfg use {on_attestation_confirmed}

  -- What becomes of the settler's storage: it stays, or it is the outcome of one settlement.
  pub data SettlerMoves (s t : State W L) : Type 0 where
    stays : t.settler ≡ s.settler → SettlerMoves s t
    settles :
        (now party amount id : ℕ) (l : L)
        → t.settler
          ≡ (on_attestation_confirmed.settle_for_attestation now party party amount id
              (s.settler, l)).1.0
        → SettlerMoves s t

  confirm-SettlerMoves :
      (o : Origin) (now id : ℕ) (s t : State W L)
      → confirm_attestation cfg o now id s ≡ ok t
      → SettlerMoves s t
  unfolding confirm_attestation
  confirm-SettlerMoves o now id s t run = elim (Option-cases (s.attestations id)) [
    | inl e ↦ absurd (ground arith)
    | inr (x, e) ↦
        settles now x.attester x.deposit id (cfg.currency.unreserve x.attester x.deposit s.ledger)
          (ground arith)
  ]

  pub Step-SettlerMoves : (s t : State W L) → Step cfg s t → SettlerMoves s t
  unfolding dispatch register_node heartbeat update_capability submit_attestation
      challenge_attestation resolve_challenge slash_attester defend_attester on_task_completed
  Step-SettlerMoves s t (call o now (confirm id) e) = confirm-SettlerMoves o now id s t e
  Step-SettlerMoves s t (call o now (register uuid tflops) e) = stays (ground arith)
  Step-SettlerMoves s t (call o now beat e) = stays (ground arith)
  Step-SettlerMoves s t (call o now (submit task hash model input output) e) = stays (ground arith)
  Step-SettlerMoves s t (call o now (challenge id) e) = stays (ground arith)
  Step-SettlerMoves s t (call o now (resolve id guilty) e) = stays (ground arith)
  Step-SettlerMoves s t (call o now (serve models jobs price region) e) = stays (ground arith)
  Step-SettlerMoves s t (completed now attester task hash model input output e) =
      stays (ground arith)
