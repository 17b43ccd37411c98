-- ===== src/TaskMode/Settlement.antt =====
-- What `settle_task_order` and `cancel_expired_order` of pallets/task-mode/src/lib.rs do with the
-- customer's reserve.
use deep_brain_chain.Prelude.{
  ℕ, ◌+◌, ◌≤◌, ◌<◌, ◌≡◌, refl, some, arith, ok, is_ok, Returns, of_Returns, true, false, Option,
  Option-cases, inl, inr,
}
use deep_brain_chain.Frame.Origin.{Origin}
use deep_brain_chain.Frame.Currency.{IsLawful, at}
use deep_brain_chain.Frame.Escrow.{bound-le-held}
use deep_brain_chain.TaskMode.{
  Config, State, TaskOrder, Oracle, settle_task_order, settled, cancel_expired_order,
  create_task_definition, update_task_definition, create_task_order, mark_order_completed,
}
use deep_brain_chain.TaskMode.Orders.{is_settled, settled_order, owed, lt_of_some, IsFresh}
use deep_brain_chain.TaskMode.Steps.{
  Call, define, redefine, order, complete, settle, cancel, dispatch, Reach, here, next, IsValid,
  Reach-IsValid_orders,
}

module _ {L : Type 0} (cfg : Config L) where
  open cfg use {currency}

  total-le-reserved :
      (s : State L) (id : ℕ) (r : TaskOrder)
      → IsValid cfg s
      → s.task_orders id ≡ some r
      → is_settled r.status ≡ false
      → r.total_dbc_charged ≤ currency.reserved s.ledger r.customer
  total-le-reserved s id r v e live = ground (
    arith,
    v.backed r.customer,
    lt_of_some s id r v.fresh e,
    bound-le-held owed s.task_orders s.next_order_id id r.customer,
  )

  -- A settlement hands the whole price out: the burned part to the treasury, the payout to the
  -- miner, from the customer's reserve; no other balance moves.
  pub record IsPaid (id : ℕ) (r : TaskOrder) (s t : State L) : Type 0 where
    pub free :
        (a : ℕ)
        → currency.free t.ledger a
          ≡ currency.free s.ledger a
            + at cfg.treasury_account r.dbc_burned a
            + at r.miner r.miner_payout a
    pub reserved :
        (a : ℕ)
        → currency.reserved t.ledger a + at r.customer r.total_dbc_charged a
          ≡ currency.reserved s.ledger a
    pub order : (u : TaskOrder) × (t.task_orders id ≡ some u) × (u.status ≡ settled)

  -- In a valid state, a settlement that succeeds pays the treasury the burned part and the miner the
  -- payout in full out of the customer's reserve, which falls by the whole price, and marks the order
  -- settled.
  pub settle-IsPaid :
      (lawful : IsLawful currency) (o : Origin) (id : ℕ) (hash : Option ℕ) (s t : State L)
      (r : TaskOrder)
      → IsValid cfg s
      → s.task_orders id ≡ some r
      → settle_task_order cfg o id hash s ≡ ok t
      → IsPaid id r s t
  unfolding settle_task_order
  settle-IsPaid lawful o id hash s t r v e h =
      elim (Option-cases
        (currency.repatriate_reserved r.customer cfg.treasury_account r.dbc_burned s.ledger)) [
          | inl stuck ↦ absurd (grind arith)
          | inr ((rest, l), burned) ↦
              elim (Option-cases
                (currency.repatriate_reserved r.customer r.miner r.miner_payout l)) [
                  | inl stuck ↦ absurd (grind arith)
                  | inr ((rest', l'), paid) ↦ record {
                    free = λ a. ground (
                      arith,
                      total-le-reserved s id r v e (ground arith),
                      rw e at (v.divided id),
                      lawful.repatriate_reserved_reserved r.customer cfg.treasury_account
                          r.dbc_burned r.customer s.ledger burned,
                      lawful.repatriate_reserved_free r.customer cfg.treasury_account r.dbc_burned a
                          s.ledger burned,
                      lawful.repatriate_reserved_free r.customer r.miner r.miner_payout a l paid,
                    );
                    reserved = λ a. ground (
                      arith,
                      total-le-reserved s id r v e (ground arith),
                      rw e at (v.divided id),
                      lawful.repatriate_reserved_reserved r.customer cfg.treasury_account
                          r.dbc_burned a s.ledger burned,
                      lawful.repatriate_reserved_reserved r.customer r.miner r.miner_payout a l
                          paid,
                    );
                    order = (settled_order hash r, ground arith, refl);
                  }
                ]
        ]

  -- In a valid state, a cancellation that succeeds comes after the order's deadline, gives the whole
  -- price back to the customer, and moves no other balance.
  pub cancel-IsRefunded :
      (lawful : IsLawful currency) (o : Origin) (now id : ℕ) (s t : State L) (r : TaskOrder)
      → IsValid cfg s
      → s.task_orders id ≡ some r
      → cancel_expired_order cfg o now id s ≡ ok t
      → (r.created_at + cfg.order_timeout < now)
        × ((a : ℕ)
            → (currency.free t.ledger a
                ≡ currency.free s.ledger a + at r.customer r.total_dbc_charged a)
              × (currency.reserved t.ledger a + at r.customer r.total_dbc_charged a
                  ≡ currency.reserved s.ledger a))
  unfolding cancel_expired_order
  cancel-IsRefunded lawful o now id s t r v e h = (
    ground arith,
    λ a. (
      ground (
        arith,
        total-le-reserved s id r v e (ground arith),
        lawful.unreserve_free r.customer r.total_dbc_charged a s.ledger,
      ),
      ground (
        arith,
        total-le-reserved s id r v e (ground arith),
        lawful.unreserve_reserved r.customer r.total_dbc_charged a s.ledger,
      ),
    ),
  )

  dispatch-settled :
      (o : Origin) (now : ℕ) (oracle : Oracle) (c : Call) (s : State L) (k : ℕ) (r : TaskOrder)
      → IsFresh s
      → s.task_orders k ≡ some r
      → is_settled r.status ≡ true
      → Returns (λ t. t.task_orders k ≡ some r) (dispatch cfg o now oracle c s)
  unfolding dispatch create_task_definition update_task_definition create_task_order
      mark_order_completed settle_task_order cancel_expired_order
  dispatch-settled o now oracle (define model version input output max policy) s k r f e h =
      ground arith
  dispatch-settled o now oracle (redefine id input output max active) s k r f e h = ground arith
  dispatch-settled o now oracle (order id miner input output) s k r f e h =
      grind (arith, f k, lt_of_some s k r f e)
  dispatch-settled o now oracle (complete id hash) s k r f e h =
      elim (Option-cases (s.task_orders id)) [ inl u ↦ ground arith | inr (x, u) ↦ ground arith ]
  dispatch-settled o now oracle (settle id hash) s k r f e h =
      elim (Option-cases (s.task_orders id)) [ inl u ↦ ground arith | inr (x, u) ↦ ground arith ]
  dispatch-settled o now oracle (cancel id) s k r f e h = elim (Option-cases (s.task_orders id)) [
    | inl u ↦ ground arith
    | inr (x, u) ↦ ground arith
  ]

  Reach-stays :
      (lawful : IsLawful currency) {s t : State L} (k : ℕ) (r : TaskOrder)
      → IsValid cfg s
      → s.task_orders k ≡ some r
      → is_settled r.status ≡ true
      → Reach cfg s t
      → t.task_orders k ≡ some r
  Reach-stays lawful k r v e h here = e
  Reach-stays lawful k r v e h (next {t} {u} past o now oracle c run) =
      of_Returns (λ x. x.task_orders k ≡ some r) _
        (dispatch-settled o now oracle c t k r (Reach-IsValid_orders cfg lawful v past).fresh
          (Reach-stays lawful k r v e h past) h)
        run

  settled-refuses :
      (o : Origin) (now k : ℕ) (hash : Option ℕ) (t : State L) (r : TaskOrder)
      → t.task_orders k ≡ some r
      → is_settled r.status ≡ true
      → (is_ok (settle_task_order cfg o k hash t) ≡ false)
        × (is_ok (cancel_expired_order cfg o now k t) ≡ false)
  unfolding settle_task_order cancel_expired_order
  settled-refuses o now k hash t r e h = (ground (arith, e, h), ground (arith, e, h))

  -- After a settlement or a cancellation, whatever is called later, the order stays as it is and every
  -- further settlement or cancellation of it is refused, whoever asks and when: it is neither paid nor
  -- refunded twice.
  pub Reach-settled :
      (lawful : IsLawful currency) {s t : State L} (k : ℕ) (r : TaskOrder)
      → IsValid cfg s
      → s.task_orders k ≡ some r
      → is_settled r.status ≡ true
      → Reach cfg s t
      → (t.task_orders k ≡ some r)
        × ((o : Origin) (now : ℕ) (hash : Option ℕ)
            → (is_ok (settle_task_order cfg o k hash t) ≡ false)
              × (is_ok (cancel_expired_order cfg o now k t) ≡ false))
  Reach-settled lawful {t = t} k r v e h past =
      let stays = Reach-stays lawful k r v e h past in
      (stays, λ o now hash. settled-refuses o now k hash t r stays h)
