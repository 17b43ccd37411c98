-- ===== src/Chain/Solvency.antt =====
-- The shared reserves of the three pallets over any history.
use deep_brain_chain.Prelude.{ℕ, ◌≡◌, refl, arith, ok, of_Returns}
use deep_brain_chain.Frame.Origin.{Origin}
use deep_brain_chain.Frame.Currency.{IsLawful}
use deep_brain_chain.X402
use deep_brain_chain.X402.Settler.{x402_settler-KeepsReserves}
use deep_brain_chain.TaskMode
use deep_brain_chain.Attestation
use deep_brain_chain.Chain.{
  Chain, orders_config, attestations_config, intents_of, orders_of, attestations_of, Step,
  by_intent, by_order, by_attestation, Reach, here, next, IsSolvent, intents_of-IsValid,
  orders_of-IsValid, attestations_of-IsValid,
}

module _ {L : Type 0} (xcfg : X402.Config L) (tcfg : TaskMode.Config L)
    (acfg : Attestation.Config (X402.State L) L) (lawful : IsLawful xcfg.currency) where
  by_intent-IsSolvent :
      (c : Chain L) (u : X402.State L)
      → IsSolvent xcfg tcfg acfg c
      → X402.Steps.Step xcfg (intents_of xcfg tcfg acfg c) u
      → IsSolvent xcfg tcfg acfg (record c { ledger = u.ledger; intents = u })
  by_intent-IsSolvent c u v st =
      let before = intents_of-IsValid xcfg tcfg acfg c v in
      let after = X402.Steps.Step-IsValid xcfg lawful (intents_of xcfg tcfg acfg c) u before st in
      record {
        intents_fresh = after.fresh;
        intents_tracked = after.tracked;
        orders_fresh = v.orders_fresh;
        divided = v.divided;
        balanced = v.balanced;
        shared = v.shared;
        attestations_fresh = v.attestations_fresh;
        indexed = v.indexed;
        covered = λ a. omega (
          arith,
          v.covered a,
          X402.Steps.Step-Conserves xcfg lawful (intents_of xcfg tcfg acfg c) u before st a,
        );
      }

  by_order-IsSolvent :
      (c : Chain L) (u : TaskMode.State L) (o : Origin) (now : ℕ) (oracle : TaskMode.Oracle)
      (call : TaskMode.Steps.Call)
      → IsSolvent xcfg tcfg acfg c
      → TaskMode.Steps.dispatch
          (orders_config xcfg tcfg acfg)
          o
          now
          oracle
          call
          (orders_of xcfg tcfg acfg c)
        ≡ ok u
      → IsSolvent xcfg tcfg acfg (record c { ledger = u.ledger; orders = u })
  by_order-IsSolvent c u o now oracle call v run =
      let cfg = orders_config xcfg tcfg acfg in
      let s = orders_of xcfg tcfg acfg c in
      let before = orders_of-IsValid xcfg tcfg acfg c v in
      let after =
        TaskMode.Steps.Reach-IsValid_orders cfg lawful before
          (TaskMode.Steps.next TaskMode.Steps.here o now oracle call run) in
      record {
        intents_fresh = v.intents_fresh;
        intents_tracked = v.intents_tracked;
        orders_fresh = after.fresh;
        divided = after.divided;
        balanced = after.balanced;
        shared = after.shared;
        attestations_fresh = v.attestations_fresh;
        indexed = v.indexed;
        covered = λ a. omega (
          arith,
          v.covered a,
          of_Returns (λ t. TaskMode.Orders.Conserves cfg s t a) _
              (TaskMode.Steps.dispatch-Conserves cfg lawful o now oracle call s a before) run,
        );
      }

  -- What a settlement leaves of the intents.
  record IsUntouched (s t : X402.State L) : Type 0 where
    fresh : X402.Escrow.IsFresh t
    tracked : X402.Tracking.IsTracked t
    held : (a : ℕ) → X402.Escrow.held_by t a ≡ X402.Escrow.held_by s a

  settler-IsUntouched :
      (c : Chain L) (u : Attestation.State (X402.State L) L)
      → IsSolvent xcfg tcfg acfg c
      → Attestation.Steps.SettlerMoves
          (attestations_config xcfg tcfg acfg)
          (attestations_of xcfg tcfg acfg c)
          u
      → IsUntouched (c.intents) (u.settler)
  settler-IsUntouched c u v (Attestation.Steps.stays e) =
      rw e (record { fresh = v.intents_fresh; tracked = v.intents_tracked; held = λ a. refl })
  settler-IsUntouched c u v (Attestation.Steps.settles now party amount id l e) =
      let s : X402.State L = record (c.intents) { ledger = l } in
      rw e (record {
        fresh = X402.Steps.settle-IsFresh xcfg lawful now party party amount s v.intents_fresh;
        tracked =
            X402.Pending.settle-IsTracked xcfg now party party amount s
              (record { listed = v.intents_tracked.listed; bounded = v.intents_tracked.bounded });
        held = λ a. omega (
          arith,
          X402.Escrow.settle-Conserves xcfg lawful now party party amount s a v.intents_fresh,
          x402_settler-KeepsReserves xcfg lawful now party party amount id a (c.intents) l,
        );
      })

  by_attestation-IsSolvent :
      (share : Attestation.IsShare acfg.percent_of) (c : Chain L)
      (u : Attestation.State (X402.State L) L)
      → IsSolvent xcfg tcfg acfg c
      → Attestation.Steps.Step
          (attestations_config xcfg tcfg acfg)
          (attestations_of xcfg tcfg acfg c)
          u
      → IsSolvent xcfg tcfg acfg
          (record c { ledger = u.ledger; intents = u.settler; attestations = u })
  by_attestation-IsSolvent share c u v st =
      let cfg = attestations_config xcfg tcfg acfg in
      let s = attestations_of xcfg tcfg acfg c in
      let before = attestations_of-IsValid xcfg tcfg acfg c v in
      let sound : Attestation.Steps.IsSound cfg = record {
        lawful = lawful;
        share = share;
        keeps = x402_settler-KeepsReserves xcfg lawful;
      } in
      let after =
        Attestation.Steps.Reach-IsValid_attestations cfg sound before
          (Attestation.Steps.next Attestation.Steps.here st) in
      let same = settler-IsUntouched c u v (Attestation.Steps.Step-SettlerMoves cfg s u st) in
      record {
        intents_fresh = same.fresh;
        intents_tracked = same.tracked;
        orders_fresh = v.orders_fresh;
        divided = v.divided;
        balanced = v.balanced;
        shared = v.shared;
        attestations_fresh = after.fresh;
        indexed = after.indexed;
        covered = λ a. omega (
          arith,
          v.covered a,
          same.held a,
          Attestation.Steps.Step-Conserves_deposits cfg sound s u before st a,
        );
      }

  Step-IsSolvent :
      (share : Attestation.IsShare acfg.percent_of) (c d : Chain L)
      → IsSolvent xcfg tcfg acfg c
      → Step xcfg tcfg acfg c d
      → IsSolvent xcfg tcfg acfg d
  Step-IsSolvent share c d v (by_intent u st e) = rw e (by_intent-IsSolvent c u v st)
  Step-IsSolvent share c d v (by_order u o now oracle call run e) =
      rw e (by_order-IsSolvent c u o now oracle call v run)
  Step-IsSolvent share c d v (by_attestation u st e) =
      rw e (by_attestation-IsSolvent share c u v st)

  -- Payment intents, task orders and attestations that hold reserves of the same accounts, with the
  -- settlement of confirmed attestations between them, keep every reserve at no less than all of them
  -- bind of it together, and each its own invariant, over every interleaving of their calls and block
  -- starts; given a lawful currency and a slash of at most the whole deposit.
  pub Reach-IsSolvent :
      (share : Attestation.IsShare acfg.percent_of) {c d : Chain L}
      → IsSolvent xcfg tcfg acfg c
      → Reach xcfg tcfg acfg c d
      → IsSolvent xcfg tcfg acfg d
  Reach-IsSolvent share v here = v
  Reach-IsSolvent share v (next {d} {e} r st) =
      Step-IsSolvent share d e (Reach-IsSolvent share v r) st
