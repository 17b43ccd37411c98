-- ===== src/X402/Settler.antt =====
-- pallets/x402-settlement/src/lib.rs as the settler of attestations: its implementation of
-- `AttestationSettler` of pallets/support/src/traits.rs.
use deep_brain_chain.Prelude.{arith}
use deep_brain_chain.Frame.Currency.{IsLawful, keep_alive}
use deep_brain_chain.Frame.Settler.{AttestationSettler, KeepsReserves}
use deep_brain_chain.X402.{Config, State, SettleError, settle_for_attestation}

module _ {L : Type 0} (cfg : Config L) where
  -- The pallet runs on the shared ledger.
  abbrev pub x402_settler : AttestationSettler (State L) L
  x402_settler = record {
    SettleError = SettleError;
    settle_for_attestation = λ now merchant miner amount id (w, l).
        let r = settle_for_attestation cfg now merchant miner amount (record w { ledger = l }) in
        (r.0, (r.1, r.1.ledger));
  }

  pub x402_settler-KeepsReserves :
      (lawful : IsLawful cfg.currency) → KeepsReserves cfg.currency x402_settler
  unfolding settle_for_attestation
  x402_settler-KeepsReserves lawful now merchant miner amount id a w l =
      grind (arith, lawful.transfer_reserved merchant miner amount a keep_alive l)
