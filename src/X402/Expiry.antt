-- ===== src/X402/Expiry.antt =====
-- The block hook of pallets/x402-settlement/src/lib.rs: what `on_initialize` expires, and the funds
-- that it gives back.
use deep_brain_chain.Prelude.{ℕ, refl, arith, List, [], ◌∷◌, Option-cases, inl, inr}
use deep_brain_chain.Frame.Currency.{IsLawful}
use deep_brain_chain.Frame.Escrow.{held-insert, bound-le-held}
use deep_brain_chain.X402.{Config, State, expire, expire_all, drop_expired, on_initialize}
use deep_brain_chain.X402.Escrow.{
  IsFresh, IsBacked, Conserves, Conserves-IsBacked, owed, lt_of_some,
}

module _ {L : Type 0} (cfg : Config L) where
  -- What every call and every round of the loop keeps, and by how much the reserves move.
  pub record Keeps (s t : State L) : Type 0 where
    pub fresh : IsFresh t
    pub backed : IsBacked cfg t
    pub conserves : (a : ℕ) → Conserves cfg s t a

  pub Keeps-trans : {s t u : State L} → Keeps s t → Keeps t u → Keeps s u
  Keeps-trans {s} {t} {u} h k = record {
    fresh = k.fresh;
    backed = k.backed;
    conserves = λ a. omega (arith, h.conserves a, k.conserves a);
  }

module _ {L : Type 0} (cfg : Config L) (lawful : IsLawful cfg.currency) where
  open cfg use {currency}

  expire-IsFresh :
      (now id : ℕ) (s : State L) (ids : List ℕ) → IsFresh s → IsFresh (expire cfg now id (s, ids)).0
  unfolding expire
  expire-IsFresh now id s ids fresh k = elim (Option-cases (s.payment_intents id)) [
    | inl e ↦ grind (arith, fresh k)
    | inr (i, e) ↦ grind (arith, fresh k, lt_of_some s id i fresh e)
  ]

  expire-Conserves :
      (now id : ℕ) (s : State L) (ids : List ℕ) (a : ℕ)
      → IsFresh s
      → IsBacked cfg s
      → Conserves cfg s (expire cfg now id (s, ids)).0 a
  unfolding expire
  expire-Conserves now id s ids a fresh backed = elim (Option-cases (s.payment_intents id)) [
    | inl e ↦ ground arith
    | inr (i, e) ↦ grind (
      arith,
      backed a,
      lt_of_some s id i fresh e,
      lawful.unreserve_reserved i.merchant i.amount a s.ledger,
      bound-le-held owed s.payment_intents s.next_intent_id id a,
      held-insert owed s.payment_intents s.next_intent_id id a,
    )
  ]

  expire-Keeps :
      (now id : ℕ) (s : State L) (ids : List ℕ)
      → IsFresh s
      → IsBacked cfg s
      → Keeps cfg s (expire cfg now id (s, ids)).0
  expire-Keeps now id s ids fresh backed = record {
    fresh = expire-IsFresh now id s ids fresh;
    backed =
        Conserves-IsBacked cfg s (expire cfg now id (s, ids)).0 backed
          λ a. expire-Conserves now id s ids a fresh backed;
    conserves = λ a. expire-Conserves now id s ids a fresh backed;
  }

  expire_all-Keeps :
      (now : ℕ) (ids : List ℕ) (s : State L) (out : List ℕ)
      → IsFresh s
      → IsBacked cfg s
      → Keeps cfg s (expire_all cfg now ids (s, out)).0
  unfolding expire_all
  expire_all-Keeps now [] s out fresh backed = record {
    fresh = fresh;
    backed = backed;
    conserves = λ a. refl;
  }
  expire_all-Keeps now (id ∷ ids) s out fresh backed =
      let (t, out') = expire cfg now id (s, out) in
      let k = expire-Keeps now id s out fresh backed in
      Keeps-trans cfg k (expire_all-Keeps now ids t out' k.fresh k.backed)

  drop_expired-Keeps :
      (s : State L) (acc : State L × List ℕ)
      → Keeps cfg s acc.0
      → Keeps cfg s (drop_expired cfg acc)
  unfolding drop_expired
  drop_expired-Keeps s (t, []) k = k
  drop_expired-Keeps s (t, id ∷ ids) k = record {
    fresh = k.fresh;
    backed = k.backed;
    conserves = k.conserves;
  }

  pub on_initialize-Keeps :
      (now : ℕ) (s : State L) → IsFresh s → IsBacked cfg s → Keeps cfg s (on_initialize cfg now s)
  unfolding on_initialize
  on_initialize-Keeps now s fresh backed =
      drop_expired-Keeps s _ (expire_all-Keeps now s.pending_intent_ids s [] fresh backed)
