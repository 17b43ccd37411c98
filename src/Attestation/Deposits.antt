-- ===== src/Attestation/Deposits.antt =====
-- The deposits behind the attestations of pallets/agent-attestation/src/lib.rs.
use deep_brain_chain.Prelude.{
  ℕ, ◌+◌, ◌-◌, ◌≤◌, ◌<◌, ◌≡◌, some, none, arith, Returns, Bool, List, Option-cases, inl, inr,
  if◌then◌else◌, true,
}
use deep_brain_chain.Frame.Origin.{Origin}
use deep_brain_chain.Frame.Currency.{IsLawful, at}
use deep_brain_chain.Frame.Escrow.{held, held-skip, held-push, held-insert, bound-le-held}
use deep_brain_chain.Frame.Settler.{KeepsReserves}
use deep_brain_chain.Attestation.{
  Config, State, Attestation, is_pending, confirmed, IsShare, submit_attestation,
  challenge_attestation, confirm_attestation, slash_attester, defend_attester, resolve_challenge,
  on_task_completed,
}

-- What an attestation binds of an account: its deposit at the attester, while it is pending.
abbrev pub owed : Attestation → ℕ → ℕ
owed x a = if is_pending x.status then at x.attester x.deposit a else 0

abbrev pub held_by : {W L : Type 0} → State W L → ℕ → ℕ
held_by s a = held owed s.attestations s.next_attestation_id a

abbrev pub IsFresh : {W L : Type 0} → State W L → Type 0
IsFresh s = (k : ℕ) → s.next_attestation_id ≤ k → s.attestations k ≡ none

pub lt_of_some :
    {W L : Type 0} (s : State W L) (k : ℕ) (x : Attestation)
    → IsFresh s
    → s.attestations k ≡ some x
    → k < s.next_attestation_id
lt_of_some s k x fresh e = grind (arith, fresh k)

abbrev pub IsBacked : {W L : Type 0} → Config W L → State W L → Type 0
IsBacked cfg s = (a : ℕ) → held_by s a ≤ cfg.currency.reserved s.ledger a

-- The reserve of the account changes as the attestations bind it.
abbrev pub Conserves : {W L : Type 0} → Config W L → State W L → State W L → ℕ → Type 0
Conserves cfg s t a =
    cfg.currency.reserved t.ledger a + held_by s a ≡ cfg.currency.reserved s.ledger a + held_by t a

module _ {W L : Type 0} (cfg : Config W L) (lawful : IsLawful cfg.currency) where
  open cfg use {currency}

  pub submit-Conserves :
      (o : Origin) (now task hash : ℕ) (model : List ℕ) (input output : ℕ) (s : State W L) (a : ℕ)
      → Returns
          (λ t. Conserves cfg s t a)
          (submit_attestation cfg o now task hash model input output s)
  unfolding submit_attestation
  submit-Conserves o now task hash model input output s a =
      grind (arith, lawful.reserve_reserved, held-push)

  pub challenge-Conserves :
      (o : Origin) (now id : ℕ) (s : State W L) (a : ℕ)
      → IsFresh s
      → Returns (λ t. Conserves cfg s t a) (challenge_attestation cfg o now id s)
  unfolding challenge_attestation
  challenge-Conserves o now id s a fresh = elim (Option-cases (s.attestations id)) [
    | inl e ↦ ground arith
    | inr (x, e) ↦ grind (
      arith,
      lt_of_some s id x fresh e,
      held-insert owed s.attestations s.next_attestation_id id a,
    )
  ]

  pub confirm-Conserves :
      (keeps : KeepsReserves currency cfg.on_attestation_confirmed) (o : Origin) (now id : ℕ)
      (s : State W L) (a : ℕ)
      → IsFresh s
      → IsBacked cfg s
      → Returns (λ t. Conserves cfg s t a) (confirm_attestation cfg o now id s)
  unfolding confirm_attestation
  confirm-Conserves keeps o now id s a fresh backed = elim (Option-cases (s.attestations id)) [
    | inl e ↦ ground arith
    | inr (x, e) ↦ ground (
      arith,
      backed a,
      lt_of_some s id x fresh e,
      keeps now x.attester x.attester x.deposit id a s.settler
          (currency.unreserve x.attester x.deposit s.ledger),
      lawful.unreserve_reserved x.attester x.deposit a s.ledger,
      bound-le-held owed s.attestations s.next_attestation_id id a,
      held-insert owed s.attestations s.next_attestation_id id a (record x { status = confirmed }),
    )
  ]

  -- Either outcome of a challenge releases the whole deposit.
  released :
      (share : IsShare cfg.percent_of) (x : Attestation) (l : _) (a : ℕ)
      → x.deposit ≤ currency.reserved l x.attester
      → currency.reserved
            (currency.unreserve x.attester
              (x.deposit - cfg.percent_of cfg.slash_percent x.deposit)
              (currency.slash_reserved x.attester (cfg.percent_of cfg.slash_percent x.deposit) l))
            a
          + at x.attester x.deposit a
        ≡ currency.reserved l a
  released share x l a le = ground (
    arith,
    share cfg.slash_percent x.deposit,
    lawful.slash_reserved_reserved x.attester (cfg.percent_of cfg.slash_percent x.deposit) a l,
    lawful.unreserve_reserved x.attester (x.deposit - cfg.percent_of cfg.slash_percent x.deposit) a
        (currency.slash_reserved x.attester (cfg.percent_of cfg.slash_percent x.deposit) l),
  )

  pub deposit-le-reserved :
      (s : State W L) (id : ℕ) (x : Attestation)
      → IsFresh s
      → IsBacked cfg s
      → s.attestations id ≡ some x
      → is_pending x.status ≡ true
      → x.deposit ≤ currency.reserved s.ledger x.attester
  deposit-le-reserved s id x fresh backed e live = ground (
    arith,
    backed x.attester,
    lt_of_some s id x fresh e,
    bound-le-held owed s.attestations s.next_attestation_id id x.attester,
  )

  pub resolve-Conserves :
      (share : IsShare cfg.percent_of) (o : Origin) (id : ℕ) (guilty : Bool) (s : State W L) (a : ℕ)
      → IsFresh s
      → IsBacked cfg s
      → Returns (λ t. Conserves cfg s t a) (resolve_challenge cfg o id guilty s)
  unfolding resolve_challenge slash_attester defend_attester
  resolve-Conserves share o id guilty s a fresh backed = elim (Option-cases (s.attestations id)) [
    | inl e ↦ ground arith
    | inr (x, e) ↦ grind (
      arith,
      lt_of_some s id x fresh e,
      deposit-le-reserved s id x fresh backed e,
      released share x s.ledger a,
      lawful.unreserve_reserved x.attester x.deposit a s.ledger,
      held-insert owed s.attestations s.next_attestation_id id a,
    )
  ]

  pub completed-Conserves :
      (now attester task hash : ℕ) (model : List ℕ) (input output : ℕ) (s : State W L) (a : ℕ)
      → IsFresh s
      → Conserves cfg s (on_task_completed cfg now attester task hash model input output s).1 a
  unfolding on_task_completed
  completed-Conserves now attester task hash model input output s a fresh = grind (
    arith,
    lawful.reserve_reserved,
    fresh s.next_attestation_id,
    held-skip owed s.attestations s.next_attestation_id a,
    held-push owed s.attestations s.next_attestation_id a,
  )
