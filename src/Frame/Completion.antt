-- ===== src/Frame/Completion.antt =====
-- The interface `TaskCompletionHandler` of pallets/support/src/traits.rs.
use deep_brain_chain.Prelude.{ℕ, ◌≤◌, List, Result}
use deep_brain_chain.Frame.Currency.{Currency}

-- A pallet that is told of completed tasks, with its own storage `W` and the shared ledger.
-- `on_task_completed now attester task_id result_hash model_id input_tokens output_tokens`.
pub record TaskCompletionHandler (W L : Type 0) : Type 1 where
  pub CompletionError : Type 0
  pub on_task_completed :
      ℕ → ℕ → ℕ → ℕ → List ℕ → ℕ → ℕ → W × L → Result CompletionError ℕ × (W × L)

-- The handler may reserve more, and releases nothing.
abbrev pub ReleasesNothing : {W L : Type 0} → Currency L → TaskCompletionHandler W L → Type 0
ReleasesNothing {W} {L} c handler =
    (now attester task hash : ℕ) (model : List ℕ) (input output a : ℕ) (w : W) (l : L)
    → c.reserved l a
      ≤ c.reserved
          ((handler.on_task_completed now attester task hash model input output (w, l)).1.1) a
