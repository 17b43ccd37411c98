-- ===== src/Frame/Settler.antt =====
-- The interfaces between pallets of pallets/support/src/traits.rs: `AttestationSettler`.
use deep_brain_chain.Prelude.{ℕ, ◌≡◌, Result}
use deep_brain_chain.Frame.Currency.{Currency}

-- A pallet that settles confirmed attestations, with its own storage `W` and the shared ledger.
-- `settle_for_attestation now merchant miner amount attestation_id`.
pub record AttestationSettler (W L : Type 0) : Type 1 where
  pub SettleError : Type 0
  pub settle_for_attestation : ℕ → ℕ → ℕ → ℕ → ℕ → W × L → Result SettleError ℕ × (W × L)

-- The settler moves free balances only.
abbrev pub KeepsReserves : {W L : Type 0} → Currency L → AttestationSettler W L → Type 0
KeepsReserves {W} {L} c settler =
    (now merchant miner amount id a : ℕ) (w : W) (l : L)
    → c.reserved ((settler.settle_for_attestation now merchant miner amount id (w, l)).1.1) a
      ≡ c.reserved l a
