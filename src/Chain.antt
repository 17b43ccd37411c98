-- ===== src/Chain.antt =====
-- One ledger under pallets/x402-settlement/src/lib.rs, pallets/task-mode/src/lib.rs and
-- pallets/agent-attestation/src/lib.rs, with the settlement of confirmed attestations by the first: the
-- pallets hold their reserves side by side in the same account.
pub mod Solvency
mod Tests
use deep_brain_chain.Prelude.{ℕ, ◌+◌, ◌≤◌, ◌≡◌, refl, arith, ok, of_Returns}
use deep_brain_chain.Frame.Origin.{Origin}
use deep_brain_chain.Frame.Currency.{IsLawful, Currency}
use deep_brain_chain.X402
use deep_brain_chain.X402.Settler.{x402_settler, x402_settler-KeepsReserves}
use deep_brain_chain.TaskMode
use deep_brain_chain.Attestation

-- The pallets' own storage beside the ledger that they share; the copies of the ledger in the
-- pallets' states are not read.
pub record Chain (L : Type 0) : Type 0 where
  pub ledger : L
  pub intents : X402.State L
  pub orders : TaskMode.State L
  pub attestations : Attestation.State (X402.State L) L

module _ {L : Type 0} (xcfg : X402.Config L) (tcfg : TaskMode.Config L)
    (acfg : Attestation.Config (X402.State L) L) where
  open xcfg use {currency}

  -- All pallets use one currency, and x402-settlement settles the attestations.
  abbrev pub orders_config : TaskMode.Config L
  orders_config = record tcfg { currency = currency }

  abbrev pub attestations_config : Attestation.Config (X402.State L) L
  attestations_config = record acfg {
    currency = currency;
    on_attestation_confirmed = x402_settler xcfg;
  }

  -- A pallet's state on the shared ledger.
  abbrev pub intents_of : Chain L → X402.State L
  intents_of c = record (c.intents) { ledger = c.ledger }

  abbrev pub orders_of : Chain L → TaskMode.State L
  orders_of c = record (c.orders) { ledger = c.ledger }

  abbrev pub attestations_of : Chain L → Attestation.State (X402.State L) L
  attestations_of c = record (c.attestations) { ledger = c.ledger; settler = c.intents }

  pub data Step (c d : Chain L) : Type 0 where
    by_intent :
        (u : X402.State L)
        → X402.Steps.Step xcfg (intents_of c) u
        → d ≡ record c { ledger = u.ledger; intents = u }
        → Step c d
    by_order :
        (u : TaskMode.State L) (o : Origin) (now : ℕ) (oracle : TaskMode.Oracle)
        (call : TaskMode.Steps.Call)
        → TaskMode.Steps.dispatch orders_config o now oracle call (orders_of c) ≡ ok u
        → d ≡ record c { ledger = u.ledger; orders = u }
        → Step c d
    by_attestation :
        (u : Attestation.State (X402.State L) L)
        → Attestation.Steps.Step attestations_config (attestations_of c) u
        → d ≡ record c { ledger = u.ledger; intents = u.settler; attestations = u }
        → Step c d

  pub data Reach (c : Chain L) : Chain L → Type 0 where
    here : Reach c c
    next : {d e : Chain L} → Reach c d → Step d e → Reach c e

  -- What all three pallets bind of an account.
  abbrev pub held_by : Chain L → ℕ → ℕ
  held_by c a =
      X402.Escrow.held_by c.intents a
      + (TaskMode.Orders.held_by c.orders a + Attestation.Deposits.held_by c.attestations a)

  -- Each pallet's own invariant, and every account's reserve covers what the pallets bind of it
  -- together.
  pub record IsSolvent (c : Chain L) : Type 0 where
    pub intents_fresh : X402.Escrow.IsFresh c.intents
    pub intents_tracked : X402.Tracking.IsTracked c.intents
    pub orders_fresh : TaskMode.Orders.IsFresh c.orders
    pub divided : (k : ℕ) → TaskMode.Orders.IsDivided (c.orders.task_orders k)
    pub balanced : (era : ℕ) → TaskMode.Orders.IsBalanced (c.orders.era_stats era)
    pub shared :
        (era miner : ℕ)
        → (c.orders.miner_task_stats era miner).0 ≤ (c.orders.era_stats era).total_miner_payout
    pub attestations_fresh : Attestation.Deposits.IsFresh c.attestations
    pub indexed : Attestation.Providers.IsIndexed c.attestations
    pub covered : (a : ℕ) → held_by c a ≤ currency.reserved c.ledger a

  pub intents_of-IsValid : (c : Chain L) → IsSolvent c → X402.Steps.IsValid xcfg (intents_of c)
  intents_of-IsValid c v = record {
    fresh = v.intents_fresh;
    backed = λ a. omega (arith, v.covered a);
    tracked = record { listed = v.intents_tracked.listed; bounded = v.intents_tracked.bounded };
  }

  pub orders_of-IsValid :
      (c : Chain L) → IsSolvent c → TaskMode.Steps.IsValid orders_config (orders_of c)
  orders_of-IsValid c v = record {
    fresh = v.orders_fresh;
    backed = λ a. omega (arith, v.covered a);
    divided = v.divided;
    balanced = v.balanced;
    shared = v.shared;
  }

  pub attestations_of-IsValid :
      (c : Chain L)
      → IsSolvent c
      → Attestation.Steps.IsValid attestations_config (attestations_of c)
  attestations_of-IsValid c v = record {
    fresh = v.attestations_fresh;
    backed = λ a. omega (arith, v.covered a);
    indexed = v.indexed;
  }
