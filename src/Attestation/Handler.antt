-- ===== src/Attestation/Handler.antt =====
-- pallets/agent-attestation/src/lib.rs as the handler of completed tasks: its implementation of
-- `TaskCompletionHandler` of pallets/support/src/traits.rs.
use deep_brain_chain.Prelude.{arith}
use deep_brain_chain.Frame.Currency.{IsLawful}
use deep_brain_chain.Frame.Completion.{TaskCompletionHandler, ReleasesNothing}
use deep_brain_chain.Attestation.{Config, State, CompletionError, on_task_completed}

module _ {W L : Type 0} (cfg : Config W L) where
  -- The pallet runs on the shared ledger.
  abbrev pub attestation_handler : TaskCompletionHandler (State W L) L
  attestation_handler = record {
    CompletionError = CompletionError;
    on_task_completed = λ now attester task hash model input output (w, l).
        let r =
          on_task_completed cfg now attester task hash model input output
            (record w { ledger = l }) in
        (r.0, (r.1, r.1.ledger));
  }

  -- With a lawful currency, the attestation that a completed task starts never lowers an account's reserve:
  -- the pallet is a handler of completed tasks that the scheduler accepts.
  pub attestation_handler-ReleasesNothing :
      (lawful : IsLawful cfg.currency) → ReleasesNothing cfg.currency attestation_handler
  unfolding on_task_completed
  attestation_handler-ReleasesNothing lawful now attester task hash model input output a w l =
      grind (arith, lawful.reserve_reserved attester cfg.attestation_deposit a l)
