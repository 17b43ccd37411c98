-- ===== src/X402/Tracking.antt =====
-- The list of pending intents (`PendingIntentIds`) of pallets/x402-settlement/src/lib.rs, and what
-- the block hook does to every intent.
use deep_brain_chain.Prelude.{
  ℕ, ◌∙◌, ◌≤◌, ◌≡◌, refl, Option, none, some, arith, Bool, false, not, ◌||◌, ◌&&◌, if◌then◌else◌,
  ◌==◌, leb, List, [], ◌∷◌, Option-cases, inl, inr, contains, contains-append_one, contains-retain,
  length,
}
use deep_brain_chain.X402.{
  Config, State, PaymentIntent, failed, is_pending, expire, expire_all, drop_expired, on_initialize,
  max_pending,
}

abbrev pub is_open : Option PaymentIntent → Bool
is_open none = false
is_open (some i) = is_pending i.status

-- The list holds the pending intents and no others, within its bound.
pub record IsTracked {L : Type 0} (s : State L) : Type 0 where
  pub listed : (k : ℕ) → contains k s.pending_intent_ids ≡ is_open (s.payment_intents k)
  pub bounded : length s.pending_intent_ids ≤ max_pending

-- A pending intent whose time has come is failed; nothing else changes.
abbrev pub expired_at : ℕ → Option PaymentIntent → Option PaymentIntent
expired_at now none = none
expired_at now (some i) =
    if leb i.expires_at now && is_pending i.status
    then some (record i { status = failed })
    else some i

abbrev pub is_due : ℕ → Option PaymentIntent → Bool
is_due now none = false
is_due now (some i) = leb i.expires_at now && is_pending i.status

module _ {L : Type 0} (cfg : Config L) where
  expire-intents :
      (now id k : ℕ) (s : State L) (out : List ℕ)
      → (expire cfg now id (s, out)).0.payment_intents k
        ≡ (if k == id then expired_at now (s.payment_intents k) else s.payment_intents k)
  unfolding expire
  expire-intents now id k s out = elim (Option-cases (s.payment_intents id)) [
    | inl e ↦ ground arith
    | inr (i, e) ↦ ground arith
  ]

  expire-ids :
      (now id : ℕ) (s : State L) (out : List ℕ)
      → (expire cfg now id (s, out)).0.pending_intent_ids ≡ s.pending_intent_ids
  unfolding expire
  expire-ids now id s out = ground arith

  expire_all-intents :
      (now k : ℕ) (ids : List ℕ) (s : State L) (out : List ℕ)
      → (expire_all cfg now ids (s, out)).0.payment_intents k
        ≡ (if contains k ids then expired_at now (s.payment_intents k) else s.payment_intents k)
  unfolding expire_all
  expire_all-intents now k [] s out = refl
  expire_all-intents now k (id ∷ ids) s out =
      let (t, out') = expire cfg now id (s, out) in
      ground (arith, expire-intents now id k s out, expire_all-intents now k ids t out')

  expire-out :
      (now id k : ℕ) (s : State L) (out : List ℕ)
      → contains k (expire cfg now id (s, out)).1
        ≡ (contains k out || (k == id && is_due now (s.payment_intents id)))
  unfolding expire
  expire-out now id k s out = elim (Option-cases (s.payment_intents id)) [
    | inl e ↦ ground arith
    | inr (i, e) ↦ ground (arith, contains-append_one k id out)
  ]

  pub expire_all-out :
      (now k : ℕ) (ids : List ℕ) (s : State L) (out : List ℕ)
      → contains k (expire_all cfg now ids (s, out)).1
        ≡ (contains k out || (contains k ids && is_due now (s.payment_intents k)))
  unfolding expire_all
  expire_all-out now k [] s out = ground arith
  expire_all-out now k (id ∷ ids) s out =
      let (t, out') = expire cfg now id (s, out) in
      ground (
        arith,
        expire-intents now id k s out,
        expire-out now id k s out,
        expire_all-out now k ids t out',
      )

  pub drop_expired-parts :
      (t : State L) (out : List ℕ) (k : ℕ)
      → ((drop_expired cfg (t, out)).payment_intents k ≡ t.payment_intents k)
        × (contains k (drop_expired cfg (t, out)).pending_intent_ids
            ≡ (contains k t.pending_intent_ids && not (contains k out)))
  unfolding drop_expired
  drop_expired-parts t [] k = ground arith
  drop_expired-parts t (o ∷ out) k = (
    refl,
    ground (arith, contains-retain k (λ i. not (contains i (o ∷ out))) t.pending_intent_ids),
  )

  pub expire_all-ids :
      (now : ℕ) (ids : List ℕ) (s : State L) (out : List ℕ)
      → (expire_all cfg now ids (s, out)).0.pending_intent_ids ≡ s.pending_intent_ids
  unfolding expire_all
  expire_all-ids now [] s out = refl
  expire_all-ids now (id ∷ ids) s out =
      let (t, out') = expire cfg now id (s, out) in
      expire_all-ids now ids t out' ∙ expire-ids now id s out

  -- When the list holds exactly the pending intents, the block hook fails exactly the pending
  -- intents whose time has come, and changes no other.
  pub on_initialize-intents :
      (now : ℕ) (s : State L)
      → IsTracked s
      → (k : ℕ) → (on_initialize cfg now s).payment_intents k ≡ expired_at now (s.payment_intents k)
  unfolding on_initialize
  on_initialize-intents now s tracked k = elim (Option-cases (s.payment_intents k)) [
    | inl e ↦ grind (
      arith,
      (drop_expired-parts t out k).0,
      tracked.listed k,
      expire_all-intents now k s.pending_intent_ids s [],
    )
    | inr (i, e) ↦ grind (
      arith,
      (drop_expired-parts t out k).0,
      tracked.listed k,
      expire_all-intents now k s.pending_intent_ids s [],
    )
  ]
    where
      t : State L
      t = (expire_all cfg now s.pending_intent_ids (s, [])).0

      out : List ℕ
      out = (expire_all cfg now s.pending_intent_ids (s, [])).1
