-- ===== src/Scheduler/Claims.antt =====
-- Proofs, claims and disputes of pallets/compute-pool-scheduler/src/lib.rs keep the pallet valid.
use deep_brain_chain.Prelude.{
  ℕ, ◌+◌, ◌≤◌, ◌≡◌, refl, some, arith, Bool, true, false, Option-cases, inl, inr, insert, remove,
  ok, err, Returns, ◌∷◌, u128_max, Result,
}
use deep_brain_chain.Frame.Origin.{Origin, root, signed, unsigned}
use deep_brain_chain.Frame.Currency.{IsLawful}
use deep_brain_chain.Frame.Completion.{ReleasesNothing}
use deep_brain_chain.Frame.Escrow.{held-insert, bound-le-held}
use deep_brain_chain.Scheduler.{
  Config, State, ComputeTask, TaskEscrow, submit_proof, verify_proof, claim_reward, Outcome, commit,
  finalize_verification, is_terminal, is_proof_submitted, is_computing, is_completed,
  proof_submitted, task_status_changed, proof_submitted_by, reward_claimed,
}
use deep_brain_chain.Scheduler.Reserves.{
  IsSafe, Keeps, Keeps-IsSafe, owed_by_escrow, Covers, escrow-lt, IsUnclaimed,
}
use deep_brain_chain.Scheduler.Endings.{finalize-Keeps}
use deep_brain_chain.Scheduler.Links.{rewrite_task-IsLinked}
use deep_brain_chain.Scheduler.Agreement.{Agrees, finalize-Agrees}

-- The pallet's invariant: its reserves are there, and tasks, rewards and escrows agree.
pub record IsValid {W L : Type 0} (cfg : Config W L) (s : State W L) : Type 0 where
  pub safe : IsSafe cfg s
  pub agrees : Agrees s

-- An escrow of a task that has not ended is unclaimed.
pub open-IsUnclaimed :
    {W L : Type 0} (s : State W L) (id : ℕ) (t : ComputeTask)
    → Agrees s
    → s.tasks id ≡ some t
    → is_terminal t.status ≡ false
    → IsUnclaimed (s.task_escrow id)
open-IsUnclaimed s id t v e open_task = ground (arith, v.linked id)

module _ {W L : Type 0} (cfg : Config W L) (lawful : IsLawful cfg.currency) where
  open cfg use {currency}

  pub Keeps-IsValid : (s t : State W L) → IsValid cfg s → Keeps cfg s t → Agrees t → IsValid cfg t
  Keeps-IsValid s t v k g = record { safe = Keeps-IsSafe cfg s t v.safe k; agrees = g }

  pub Returns-IsValid :
      {E : Type 0} (s : State W L) (m : Result E (State W L))
      → IsValid cfg s
      → Returns (Keeps cfg s) m
      → Returns Agrees m
      → Returns (IsValid cfg) m
  Returns-IsValid s (ok t) v k g = Keeps-IsValid s t v k g
  Returns-IsValid s (err e) v k g = tt

  pub commit-IsValid : (m : Outcome W L) → IsValid cfg m.1 → Returns (IsValid cfg) (commit m)
  commit-IsValid (ok u, s) v = v
  commit-IsValid (err e, s) v = tt

  -- The state with the proof of a task.
  abbrev proven : ℕ → ℕ → ℕ → ComputeTask → State W L → State W L
  proven id hash now t s = record s {
    tasks = insert s.tasks id (record t { proof_hash = some hash; status = proof_submitted });
    proof_submitted_at = insert s.proof_submitted_at id now;
    events = task_status_changed id proof_submitted ∷ proof_submitted_by id t.pool_id ∷ s.events;
  }

  pub submit_proof-IsValid :
      (o : Origin) (now id hash : ℕ) (s : State W L)
      → IsValid cfg s
      → Returns (IsValid cfg) (submit_proof cfg o now id hash s)
  unfolding submit_proof
  submit_proof-IsValid o now id hash s v = elim (Option-cases (s.tasks id)) [
    | inl e ↦ ground arith
    | inr (t, e) ↦ ground (arith, written t e)
  ]
    where
      written :
          (t : ComputeTask)
          → s.tasks id ≡ some t
          → is_computing t.status ≡ true
          → IsValid cfg (proven id hash now t s)
      written t e computes =
          Keeps-IsValid s (proven id hash now t s) v
            (record {
              fresh = record {
                pools = v.safe.fresh.pools;
                escrows = v.safe.fresh.escrows;
                stakes = v.safe.fresh.stakes;
              };
              covers = λ a. omega arith;
            })
            (rewrite_task-IsLinked id t _ v.agrees e refl (ground arith))

  pub verify-IsValid :
      ReleasesNothing currency cfg.on_task_completed
      → (o : Origin) (now id : ℕ) (b : Bool) (s : State W L) → IsValid cfg s
      → Returns (IsValid cfg) (verify_proof cfg o now id b s)
  unfolding verify_proof
  verify-IsValid quiet o now id b s v = elim (Option-cases (s.tasks id)) [
    | inl e ↦ ground arith
    | inr (t, e) ↦ ground (arith, finalized t e)
  ]
    where
      finalized :
          (t : ComputeTask)
          → s.tasks id ≡ some t
          → is_proof_submitted t.status ≡ true
          → Returns (IsValid cfg) (commit (finalize_verification cfg now id t.pool_id b s))
      finalized t e submitted = commit-IsValid _ (
          Keeps-IsValid s _ v
            (finalize-Keeps cfg lawful quiet now id t.pool_id b s v.safe
              (λ _. open-IsUnclaimed s id t v.agrees e (ground arith)))
            (finalize-Agrees cfg now id t.pool_id b s v.agrees))

  -- The state after a claim, on the ledger that the payment left.
  abbrev pub claimed : ℕ → ℕ → ℕ → TaskEscrow → L → State W L → State W L
  claimed id who reward x l s = record s {
    ledger = currency.unreserve x.user x.task_deposit l;
    task_escrow = insert s.task_escrow id (record x { claimed = true });
    rewards = remove s.rewards id;
    events = reward_claimed id who reward ∷ s.events;
  }

  -- The payment takes the reward and the deposit that the escrow bound.
  claimed-Covers :
      (id who reward rest : ℕ) (x : TaskEscrow) (l : L) (s : State W L) (a : ℕ)
      → IsSafe cfg s
      → s.task_escrow id ≡ some x
      → x.claimed ≡ false
      → reward ≡ x.reward_amount
      → x.reward_amount + x.task_deposit ≤ u128_max
      → currency.repatriate_reserved x.user who reward s.ledger ≡ some (rest, l)
      → Covers cfg s (claimed id who reward x l s) a
  claimed-Covers id who reward rest x l s a safe e c same small paid = ground (
    arith,
    safe.backed a,
    escrow-lt cfg s id x safe.fresh e,
    held-insert owed_by_escrow s.task_escrow s.next_task_id id a (record x { claimed = true }),
    bound-le-held owed_by_escrow s.task_escrow s.next_task_id id a,
    lawful.repatriate_reserved_reserved x.user who reward a s.ledger paid,
    lawful.unreserve_reserved x.user x.task_deposit a l,
  )

  claimed-IsValid :
      (id who reward rest : ℕ) (t : ComputeTask) (x : TaskEscrow) (l : L) (s : State W L)
      → IsValid cfg s
      → s.tasks id ≡ some t
      → is_completed t.status ≡ true
      → s.rewards id ≡ some reward
      → s.task_escrow id ≡ some x
      → x.claimed ≡ false
      → currency.repatriate_reserved x.user who reward s.ledger ≡ some (rest, l)
      → IsValid cfg (claimed id who reward x l s)
  claimed-IsValid id who reward rest t x l s v e done offered f open_escrow paid =
      Keeps-IsValid s (claimed id who reward x l s) v
        (record {
          fresh = record {
            pools = v.safe.fresh.pools;
            escrows = λ k h.
                ground (arith, v.safe.fresh.escrows k h, escrow-lt cfg s id x v.safe.fresh f);
            stakes = v.safe.fresh.stakes;
          };
          covers = λ a.
              claimed-Covers id who reward rest x l s a v.safe f open_escrow
                (ground (arith, v.agrees.linked id)) (ground (arith, v.agrees.linked id)) paid;
        })
        (record {
          new_tasks = v.agrees.new_tasks;
          new_rewards = λ k h. ground (arith, v.agrees.new_rewards k h);
          linked = λ k. ground (arith, v.agrees.linked k);
        })

  pub claim-IsValid :
      (o : Origin) (id : ℕ) (s : State W L)
      → IsValid cfg s
      → Returns (IsValid cfg) (claim_reward cfg o id s)
  unfolding claim_reward
  claim-IsValid root id s v = tt
  claim-IsValid unsigned id s v = tt
  claim-IsValid (signed who) id s v = elim (Option-cases (s.tasks id)) [
    | inl e ↦ ground arith
    | inr (t, e) ↦ elim (Option-cases (s.rewards id)) [
      | inl g ↦ ground arith
      | inr (r, g) ↦ elim (Option-cases (s.task_escrow id)) [
        | inl f ↦ ground arith
        | inr (x, f) ↦ elim (Option-cases (currency.repatriate_reserved x.user who r s.ledger)) [
          | inl p ↦ ground arith
          | inr ((rest, l), p) ↦ ground (
            arith,
            λ (done : is_completed t.status ≡ true) (c : x.claimed ≡ false).
                claimed-IsValid id who r rest t x l s v e done g f c p,
          )
        ]
      ]
    ]
  ]
