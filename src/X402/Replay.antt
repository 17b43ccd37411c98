-- ===== src/X402/Replay.antt =====
-- Protection against replayed payments in pallets/x402-settlement/src/lib.rs.
use deep_brain_chain.Prelude.{
  ℕ, ◌∷◌, ◌∙◌, is_ok, ◌≡◌, refl, arith, ok, err, Returns, of_Returns, true, false, List, [],
  is_some,
}
use deep_brain_chain.Frame.Origin.{Origin, signed}
use deep_brain_chain.X402.{
  Config, State, invalid_nonce, on_initialize, expire, expire_all, drop_expired,
  submit_payment_intent, verify_settlement, finalize_settlement, fail_payment_intent,
  settle_for_attestation,
}
use deep_brain_chain.X402.Steps.{
  Call, submit, verify, finalize, fail, dispatch, Step, call, begin_block, attest, Reach, here,
  next,
}

-- What was used before is used after.
record Remembers {L : Type 0} (s t : State L) : Type 0 where
  nonces : (a n : ℕ) → is_some (s.nonce_used a n) ≡ true → is_some (t.nonce_used a n) ≡ true
  fingerprints :
      (f : ℕ)
      → is_some (s.replay_fingerprint_used f) ≡ true
      → is_some (t.replay_fingerprint_used f) ≡ true

module _ {L : Type 0} (cfg : Config L) where
  dispatch-nonces :
      (o : Origin) (now : ℕ) (c : Call) (s : State L) (a n : ℕ)
      → is_some (s.nonce_used a n) ≡ true
      → Returns (λ t. is_some (t.nonce_used a n) ≡ true) (dispatch cfg o now c s)
  unfolding dispatch submit_payment_intent verify_settlement finalize_settlement fail_payment_intent
  dispatch-nonces o now (submit miner amount nonce fp sig) s a n h = grind arith
  dispatch-nonces o now (verify id) s a n h = grind arith
  dispatch-nonces o now (finalize id) s a n h = grind arith
  dispatch-nonces o now (fail id) s a n h = grind arith

  dispatch-fingerprints :
      (o : Origin) (now : ℕ) (c : Call) (s : State L) (f : ℕ)
      → is_some (s.replay_fingerprint_used f) ≡ true
      → Returns (λ t. is_some (t.replay_fingerprint_used f) ≡ true) (dispatch cfg o now c s)
  unfolding dispatch submit_payment_intent verify_settlement finalize_settlement fail_payment_intent
  dispatch-fingerprints o now (submit miner amount nonce fp sig) s f h = grind arith
  dispatch-fingerprints o now (verify id) s f h = grind arith
  dispatch-fingerprints o now (finalize id) s f h = grind arith
  dispatch-fingerprints o now (fail id) s f h = grind arith

  expire-used :
      (now id : ℕ) (s : State L) (out : List ℕ)
      → let t = (expire cfg now id (s, out)).0 in
        (t.nonce_used ≡ s.nonce_used) × (t.replay_fingerprint_used ≡ s.replay_fingerprint_used)
  unfolding expire
  expire-used now id s out = ground arith

  expire_all-used :
      (now : ℕ) (ids : List ℕ) (s : State L) (out : List ℕ)
      → let t = (expire_all cfg now ids (s, out)).0 in
        (t.nonce_used ≡ s.nonce_used) × (t.replay_fingerprint_used ≡ s.replay_fingerprint_used)
  unfolding expire_all
  expire_all-used now [] s out = (refl, refl)
  expire_all-used now (id ∷ ids) s out =
      let (t, out') = expire cfg now id (s, out) in
      let (e, f) = expire-used now id s out in
      let (g, h) = expire_all-used now ids t out' in (g ∙ e, h ∙ f)

  drop_expired-used :
      (t : State L) (out : List ℕ)
      → let u = drop_expired cfg (t, out) in
        (u.nonce_used ≡ t.nonce_used) × (u.replay_fingerprint_used ≡ t.replay_fingerprint_used)
  unfolding drop_expired
  drop_expired-used t [] = (refl, refl)
  drop_expired-used t (o ∷ out) = (refl, refl)

  on_initialize-used :
      (now : ℕ) (s : State L)
      → let t = on_initialize cfg now s in
        (t.nonce_used ≡ s.nonce_used) × (t.replay_fingerprint_used ≡ s.replay_fingerprint_used)
  unfolding on_initialize
  on_initialize-used now s =
      let (t, out) = expire_all cfg now s.pending_intent_ids (s, []) in
      let (e, f) = expire_all-used now s.pending_intent_ids s [] in
      let (g, h) = drop_expired-used t out in (g ∙ e, h ∙ f)

  settle-used :
      (now merchant miner amount : ℕ) (s : State L)
      → let t = (settle_for_attestation cfg now merchant miner amount s).1 in
        (t.nonce_used ≡ s.nonce_used) × (t.replay_fingerprint_used ≡ s.replay_fingerprint_used)
  unfolding settle_for_attestation
  settle-used now merchant miner amount s = ground arith

  Step-Remembers : (s t : State L) → Step cfg s t → Remembers s t
  Step-Remembers s t (call o now c e) = record {
    nonces = λ a n h.
        of_Returns (λ u. is_some (u.nonce_used a n) ≡ true) _ (dispatch-nonces o now c s a n h) e;
    fingerprints = λ f h.
        of_Returns (λ u. is_some (u.replay_fingerprint_used f) ≡ true) _
          (dispatch-fingerprints o now c s f h) e;
  }
  Step-Remembers s t (begin_block now e) = record {
    nonces = λ a n h. rw (e, (on_initialize-used now s).0) h;
    fingerprints = λ f h. rw (e, (on_initialize-used now s).1) h;
  }
  Step-Remembers s t (attest now merchant miner amount e) = record {
    nonces = λ a n h. rw (e, (settle-used now merchant miner amount s).0) h;
    fingerprints = λ f h. rw (e, (settle-used now merchant miner amount s).1) h;
  }

  Reach-Remembers : (s t : State L) → Reach cfg s t → Remembers s t
  Reach-Remembers s t here = record { nonces = λ a n h. h; fingerprints = λ f h. h }
  Reach-Remembers s t (next {t = u} r st) =
      let before = Reach-Remembers s u r in
      let last = Step-Remembers u t st in
      record {
        nonces = λ a n h. last.nonces a n (before.nonces a n h);
        fingerprints = λ f h. last.fingerprints f (before.fingerprints f h);
      }

  submit-uses :
      (merchant now miner amount nonce fp : ℕ) (sig : List ℕ) (s t : State L)
      → submit_payment_intent cfg (signed merchant) now miner amount nonce fp sig s ≡ ok t
      → (is_some (t.nonce_used merchant nonce) ≡ true)
        × (is_some (t.replay_fingerprint_used fp) ≡ true)
  unfolding submit_payment_intent
  submit-uses merchant now miner amount nonce fp sig s t e = ground arith

  submit_used_nonce :
      (merchant now miner amount nonce fp : ℕ) (sig : List ℕ) (s : State L)
      → is_some (s.nonce_used merchant nonce) ≡ true
      → submit_payment_intent cfg (signed merchant) now miner amount nonce fp sig s
        ≡ err invalid_nonce
  unfolding submit_payment_intent
  submit_used_nonce merchant now miner amount nonce fp sig s h = ground arith

  submit_used_fingerprint :
      (o : Origin) (now miner amount nonce fp : ℕ) (sig : List ℕ) (s : State L)
      → is_some (s.replay_fingerprint_used fp) ≡ true
      → is_ok (submit_payment_intent cfg o now miner amount nonce fp sig s) ≡ false
  unfolding submit_payment_intent
  submit_used_fingerprint o now miner amount nonce fp sig s h = grind arith

  -- After an accepted intent and any history, a second intent with the merchant's nonce is refused
  -- for its nonce, and one with the fingerprint is refused whoever sends it.
  pub no_replay :
      (merchant now miner amount nonce fp : ℕ) (sig : List ℕ) (s t u : State L)
      → submit_payment_intent cfg (signed merchant) now miner amount nonce fp sig s ≡ ok t
      → Reach cfg t u
      → ((now' miner' amount' fp' : ℕ) (sig' : List ℕ)
          → submit_payment_intent cfg (signed merchant) now' miner' amount' nonce fp' sig' u
            ≡ err invalid_nonce)
        × ((o : Origin) (now' miner' amount' nonce' : ℕ) (sig' : List ℕ)
            → is_ok (submit_payment_intent cfg o now' miner' amount' nonce' fp sig' u) ≡ false)
  no_replay merchant now miner amount nonce fp sig s t u e r =
      let used = submit-uses merchant now miner amount nonce fp sig s t e in
      let kept = Reach-Remembers t u r in
      (
        λ now' miner' amount' fp' sig'.
            submit_used_nonce merchant now' miner' amount' nonce fp' sig' u
              (kept.nonces merchant nonce used.0),
        λ o now' miner' amount' nonce' sig'.
            submit_used_fingerprint o now' miner' amount' nonce' fp sig' u
              (kept.fingerprints fp used.1),
      )
