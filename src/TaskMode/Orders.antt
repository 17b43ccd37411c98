-- ===== src/TaskMode/Orders.antt =====
-- The orders of pallets/task-mode/src/lib.rs over any history: the reserves behind them, their
-- division, and the statistics of the eras.
use deep_brain_chain.Prelude.{
  ℕ, ◌+◌, ◌≤◌, ◌<◌, ◌≡◌, some, none, arith, Returns, Bool, true, false, if◌then◌else◌, Option,
  Option-cases, inl, inr, u128_max,
}
use deep_brain_chain.Frame.Origin.{Origin}
use deep_brain_chain.Frame.Currency.{IsLawful, at}
use deep_brain_chain.Frame.Escrow.{held, held-push, held-insert, bound-le-held}
use deep_brain_chain.TaskMode.{
  Config, State, TaskOrder, TaskOrderStatus, settled, EraTaskStats, Oracle, create_task_order,
  mark_order_completed, settle_task_order, cancel_expired_order, calculate_revenue_split,
}

-- A settled order, or one that was cancelled: the code marks both alike.
abbrev pub is_settled : TaskOrderStatus → Bool
is_settled settled = true
is_settled _ = false

-- What an order binds of an account: its price at the customer, until it is settled or cancelled.
abbrev pub owed : TaskOrder → ℕ → ℕ
owed o a = if is_settled o.status then 0 else at o.customer o.total_dbc_charged a

abbrev pub held_by : {L : Type 0} → State L → ℕ → ℕ
held_by s a = held owed s.task_orders s.next_order_id a

abbrev pub IsFresh : {L : Type 0} → State L → Type 0
IsFresh s = (k : ℕ) → s.next_order_id ≤ k → s.task_orders k ≡ none

abbrev pub IsBacked : {L : Type 0} → Config L → State L → Type 0
IsBacked cfg s = (a : ℕ) → held_by s a ≤ cfg.currency.reserved s.ledger a

-- The reserve of the account changes as the orders bind it.
abbrev pub Conserves : {L : Type 0} → Config L → State L → State L → ℕ → Type 0
Conserves cfg s t a =
    cfg.currency.reserved t.ledger a + held_by s a ≡ cfg.currency.reserved s.ledger a + held_by t a

-- The two parts of an order's price are the price.
abbrev pub IsDivided : Option TaskOrder → Type 0
IsDivided none = Unit
IsDivided (some o) = o.dbc_burned + o.miner_payout ≡ o.total_dbc_charged

-- An era's statistics agree as long as its charges have not saturated.
abbrev pub IsBalanced : EraTaskStats → Type 0
IsBalanced e =
    (e.total_charged < u128_max → e.total_burned + e.total_miner_payout ≡ e.total_charged)
    × (e.total_miner_payout ≤ u128_max)

pub lt_of_some :
    {L : Type 0} (s : State L) (k : ℕ) (o : TaskOrder)
    → IsFresh s
    → s.task_orders k ≡ some o
    → k < s.next_order_id
lt_of_some s k o fresh e = grind (arith, fresh k)

-- The order as the settlement writes it.
abbrev pub settled_order : Option ℕ → TaskOrder → TaskOrder
settled_order hash r = record r {
  status = settled;
  attestation_hash = elim hash [ none ↦ r.attestation_hash | some h ↦ some h ];
}

module _ {L : Type 0} (cfg : Config L) where
  -- A split that succeeds divides the whole total.
  pub split-IsDivided :
      (total : ℕ) → Returns (λ parts. parts.0 + parts.1 ≡ total) (calculate_revenue_split cfg total)
  unfolding calculate_revenue_split
  split-IsDivided total = ground arith

module _ {L : Type 0} (cfg : Config L) (lawful : IsLawful cfg.currency) where
  open cfg use {currency}

  pub create-Conserves :
      (o : Origin) (now : ℕ) (oracle : Oracle) (task_id miner input output : ℕ) (s : State L)
      (a : ℕ)
      → Returns
          (λ t. Conserves cfg s t a)
          (create_task_order cfg o now oracle task_id miner input output s)
  unfolding create_task_order
  create-Conserves o now oracle task_id miner input output s a =
      grind (arith, lawful.reserve_reserved, held-push, held-insert)

  pub complete-Conserves :
      (o : Origin) (id hash : ℕ) (s : State L) (a : ℕ)
      → IsFresh s
      → Returns (λ t. Conserves cfg s t a) (mark_order_completed cfg o id hash s)
  unfolding mark_order_completed
  complete-Conserves o id hash s a fresh = elim (Option-cases (s.task_orders id)) [
    | inl e ↦ ground arith
    | inr (r, e) ↦
        grind
          (arith, lt_of_some s id r fresh e, held-insert owed s.task_orders s.next_order_id id a)
  ]

  pub cancel-Conserves :
      (o : Origin) (now id : ℕ) (s : State L) (a : ℕ)
      → IsFresh s
      → IsBacked cfg s
      → Returns (λ t. Conserves cfg s t a) (cancel_expired_order cfg o now id s)
  unfolding cancel_expired_order
  cancel-Conserves o now id s a fresh backed = elim (Option-cases (s.task_orders id)) [
    | inl e ↦ ground arith
    | inr (r, e) ↦ grind (
      arith,
      backed a,
      lt_of_some s id r fresh e,
      lawful.unreserve_reserved r.customer r.total_dbc_charged a s.ledger,
      bound-le-held owed s.task_orders s.next_order_id id a,
      held-insert owed s.task_orders s.next_order_id id a,
    )
  ]

  pub settle-Conserves :
      (o : Origin) (id : ℕ) (hash : Option ℕ) (s : State L) (a : ℕ)
      → IsFresh s
      → IsBacked cfg s
      → ((k : ℕ) → IsDivided (s.task_orders k))
      → Returns (λ t. Conserves cfg s t a) (settle_task_order cfg o id hash s)
  unfolding settle_task_order
  settle-Conserves o id hash s a fresh backed divided = elim (Option-cases (s.task_orders id)) [
    | inl e ↦ ground arith
    | inr (r, e) ↦
        elim (Option-cases
          (currency.repatriate_reserved r.customer cfg.treasury_account r.dbc_burned s.ledger)) [
            | inl stuck ↦ ground arith
            | inr ((rest, l), burned) ↦
                elim (Option-cases
                  (currency.repatriate_reserved r.customer r.miner r.miner_payout l)) [
                    | inl stuck ↦ ground arith
                    | inr ((rest', l'), paid) ↦ ground (
                      arith,
                      backed a,
                      rw e at (divided id),
                      lt_of_some s id r fresh e,
                      lawful.repatriate_reserved_reserved r.customer cfg.treasury_account
                          r.dbc_burned a s.ledger burned,
                      lawful.repatriate_reserved_reserved r.customer r.miner r.miner_payout a l
                          paid,
                      bound-le-held owed s.task_orders s.next_order_id id a,
                      held-insert owed s.task_orders s.next_order_id id a (settled_order hash r),
                    )
                  ]
          ]
  ]
