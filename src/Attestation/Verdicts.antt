-- ===== src/Attestation/Verdicts.antt =====
-- How attestations of pallets/agent-attestation/src/lib.rs end: confirmation or challenge, the outcome of
-- a challenge, and that an ending is final.
use deep_brain_chain.Prelude.{
  ℕ, ◌+◌, ◌-◌, ◌≤◌, ◌≡◌, some, none, arith, ok, is_ok, Returns, of_Returns, Bool, true, false, not,
  List, Option-cases, inl, inr, if◌then◌else◌,
}
use deep_brain_chain.Frame.Origin.{Origin, signed}
use deep_brain_chain.Frame.Currency.{at}
use deep_brain_chain.Attestation.{
  Config, State, Attestation, is_pending, register_node, heartbeat, submit_attestation,
  challenge_attestation, confirm_attestation, resolve_challenge, slash_attester, defend_attester,
  update_capability, on_task_completed,
}
use deep_brain_chain.Attestation.Deposits.{lt_of_some, deposit-le-reserved, IsFresh}
use deep_brain_chain.Attestation.Steps.{
  Call, register, beat, submit, challenge, confirm, resolve, serve, dispatch, call, completed,
  Reach, here, next, IsValid, IsSound, Reach-IsValid_attestations,
}

module _ {W L : Type 0} (cfg : Config W L) where
  open cfg use {currency}

  -- At every block, an unchallenged pending attestation is either open to a challenge by any account or
  -- ready for the confirmation by an admin, and never both.
  pub challenge_xor_confirm :
      (admin : Origin) (who now id : ℕ) (s : State W L) (x : Attestation)
      → cfg.is_admin admin ≡ true
      → s.attestations id ≡ some x
      → is_pending x.status ≡ true
      → x.challenger ≡ none
      → is_ok (challenge_attestation cfg (signed who) now id s)
        ≡ not (is_ok (confirm_attestation cfg admin now id s))
  unfolding challenge_attestation confirm_attestation
  challenge_xor_confirm admin who now id s x a e live unset = ground arith

  -- What the outcome of a challenge leaves of the attester's balances: the deposit leaves the
  -- reserve, and all but the slashed part comes back.
  pub record IsJudged (guilty : Bool) (x : Attestation) (s t : State W L) : Type 0 where
    pub reserved :
        (a : ℕ)
        → currency.reserved t.ledger a + at x.attester x.deposit a ≡ currency.reserved s.ledger a
    pub free :
        (a : ℕ)
        → currency.free t.ledger a
          ≡ currency.free s.ledger a
            + at x.attester
                (if guilty
                  then x.deposit - cfg.percent_of cfg.slash_percent x.deposit
                  else x.deposit)
                a

  -- In a valid state, a challenge that is resolved takes the whole deposit out of the reserve; a
  -- guilty attester gets back what the slash leaves, and an innocent one everything.
  pub resolve-IsJudged :
      (sound : IsSound cfg) (o : Origin) (id : ℕ) (guilty : Bool) (s t : State W L)
      (x : Attestation)
      → IsValid cfg s
      → s.attestations id ≡ some x
      → resolve_challenge cfg o id guilty s ≡ ok t
      → IsJudged guilty x s t
  unfolding resolve_challenge slash_attester defend_attester
  resolve-IsJudged sound o id guilty s t x v e h =
      let slash = cfg.percent_of cfg.slash_percent x.deposit in
      let l = currency.slash_reserved x.attester slash s.ledger in
      let covered : x.deposit ≤ currency.reserved s.ledger x.attester =
        deposit-le-reserved cfg sound.lawful s id x v.fresh v.backed e (ground arith) in
      record {
        reserved = λ a. ground (
          arith,
          covered,
          sound.share cfg.slash_percent x.deposit,
          sound.lawful.slash_reserved_reserved x.attester slash a s.ledger,
          sound.lawful.unreserve_reserved x.attester (x.deposit - slash) a l,
          sound.lawful.unreserve_reserved x.attester x.deposit a s.ledger,
        );
        free = λ a. ground (
          arith,
          covered,
          sound.share cfg.slash_percent x.deposit,
          sound.lawful.slash_reserved_reserved x.attester slash x.attester s.ledger,
          sound.lawful.slash_reserved_free x.attester slash a s.ledger,
          sound.lawful.unreserve_free x.attester (x.deposit - slash) a l,
          sound.lawful.unreserve_free x.attester x.deposit a s.ledger,
        );
      }

  dispatch-final :
      (o : Origin) (now : ℕ) (c : Call) (s : State W L) (k : ℕ) (x : Attestation)
      → IsFresh s
      → s.attestations k ≡ some x
      → is_pending x.status ≡ false
      → Returns (λ t. t.attestations k ≡ some x) (dispatch cfg o now c s)
  unfolding dispatch register_node heartbeat update_capability submit_attestation
      challenge_attestation confirm_attestation resolve_challenge slash_attester defend_attester
  dispatch-final o now (register uuid tflops) s k x f e h = ground arith
  dispatch-final o now beat s k x f e h = ground arith
  dispatch-final o now (submit task hash model input output) s k x f e h =
      grind (arith, f k, lt_of_some s k x f e)
  dispatch-final o now (challenge id) s k x f e h = elim (Option-cases (s.attestations id)) [
    | inl u ↦ ground arith
    | inr (y, u) ↦ ground arith
  ]
  dispatch-final o now (confirm id) s k x f e h = elim (Option-cases (s.attestations id)) [
    | inl u ↦ ground arith
    | inr (y, u) ↦ ground arith
  ]
  dispatch-final o now (resolve id guilty) s k x f e h = elim (Option-cases (s.attestations id)) [
    | inl u ↦ ground arith
    | inr (y, u) ↦ ground arith
  ]
  dispatch-final o now (serve models jobs price region) s k x f e h = ground arith

  completed-final :
      (now attester task hash : ℕ) (model : List ℕ) (input output : ℕ) (s : State W L) (k : ℕ)
      (x : Attestation)
      → IsFresh s
      → s.attestations k ≡ some x
      → (on_task_completed cfg now attester task hash model input output s).1.attestations k
        ≡ some x
  unfolding on_task_completed
  completed-final now attester task hash model input output s k x f e =
      grind (arith, f k, lt_of_some s k x f e)

  -- A confirmed, slashed or defended attestation is never changed again, whatever calls and
  -- completed tasks follow.
  pub Reach-final_verdict :
      (sound : IsSound cfg) {s t : State W L} (k : ℕ) (x : Attestation)
      → IsValid cfg s
      → s.attestations k ≡ some x
      → is_pending x.status ≡ false
      → Reach cfg s t
      → t.attestations k ≡ some x
  Reach-final_verdict sound k x v e h here = e
  Reach-final_verdict sound k x v e h (next {t} {u} r (call o now c run)) =
      of_Returns (λ y. y.attestations k ≡ some x) _
        (dispatch-final o now c t k x (Reach-IsValid_attestations cfg sound v r).fresh
          (Reach-final_verdict sound k x v e h r) h)
        run
  Reach-final_verdict sound k x v e h
        (next {t} {u} r (completed now attester task hash model input output q)) =
      rw q (
        completed-final now attester task hash model input output t k x
          (Reach-IsValid_attestations cfg sound v r).fresh (Reach-final_verdict sound k x v e h r))
