-- ===== src/TaskMode/Steps.antt =====
-- Histories of calls of pallets/task-mode/src/lib.rs and the invariant that they keep.
use deep_brain_chain.Prelude.{
  ℕ, ◌≤◌, ◌≡◌, none, arith, ok, Result, Returns, of_Returns, Bool, List, Option, Option-cases, inl,
  inr,
}
use deep_brain_chain.Frame.Origin.{Origin}
use deep_brain_chain.Frame.Currency.{IsLawful}
use deep_brain_chain.TaskMode.{
  Config, State, Oracle, Error, create_task_definition, update_task_definition, create_task_order,
  mark_order_completed, settle_task_order, cancel_expired_order,
}
use deep_brain_chain.TaskMode.Orders.{
  IsFresh, IsBacked, Conserves, IsDivided, IsBalanced, lt_of_some, create-Conserves,
  complete-Conserves, settle-Conserves, cancel-Conserves, split-IsDivided,
}

-- A call of the pallet.
pub data Call : Type 0 where
  define :
      (model_id version : List ℕ) (input_price output_price max_tokens : ℕ) (policy_cid : List ℕ)
      → Call
  redefine :
      (task_id : ℕ) (input_price output_price max_tokens : Option ℕ) (is_active : Option Bool)
      → Call
  order : (task_id miner input_tokens output_tokens : ℕ) → Call
  complete : (order_id attestation_hash : ℕ) → Call
  settle : (order_id : ℕ) (attestation_hash : Option ℕ) → Call
  cancel : (order_id : ℕ) → Call

unfoldable pub dispatch :
    {L : Type 0} → Config L → Origin → ℕ → Oracle → Call → State L → Result Error (State L)
dispatch cfg o now oracle (define model version input output max policy) s =
    create_task_definition cfg o model version input output max policy s
dispatch cfg o now oracle (redefine id input output max active) s =
    update_task_definition cfg o id input output max active s
dispatch cfg o now oracle (order id miner input output) s =
    create_task_order cfg o now oracle id miner input output s
dispatch cfg o now oracle (complete id hash) s = mark_order_completed cfg o id hash s
dispatch cfg o now oracle (settle id hash) s = settle_task_order cfg o id hash s
dispatch cfg o now oracle (cancel id) s = cancel_expired_order cfg o now id s

pub data Reach {L : Type 0} (cfg : Config L) (s : State L) : State L → Type 0 where
  here : Reach cfg s s
  next :
      {t u : State L}
      → Reach cfg s t
      → (o : Origin) (now : ℕ) (oracle : Oracle) (c : Call) → dispatch cfg o now oracle c t ≡ ok u
      → Reach cfg s u

-- Orders up to the counter and no further; every reserve covers its orders; every price is
-- divided; the statistics of every era agree, and no miner's share is above its era's.
pub record IsValid {L : Type 0} (cfg : Config L) (s : State L) : Type 0 where
  pub fresh : IsFresh s
  pub backed : IsBacked cfg s
  pub divided : (k : ℕ) → IsDivided (s.task_orders k)
  pub balanced : (era : ℕ) → IsBalanced (s.era_stats era)
  pub shared :
      (era miner : ℕ) → (s.miner_task_stats era miner).0 ≤ (s.era_stats era).total_miner_payout

module _ {L : Type 0} (cfg : Config L) (lawful : IsLawful cfg.currency) where
  -- From a valid state and with a lawful currency, every call that succeeds moves each account's
  -- reserve exactly as it moves what the account's open orders bind.
  pub dispatch-Conserves :
      (o : Origin) (now : ℕ) (oracle : Oracle) (c : Call) (s : State L) (a : ℕ)
      → IsValid cfg s
      → Returns (λ t. Conserves cfg s t a) (dispatch cfg o now oracle c s)
  unfolding dispatch create_task_definition update_task_definition
  dispatch-Conserves o now oracle (define model version input output max policy) s a v =
      ground arith
  dispatch-Conserves o now oracle (redefine id input output max active) s a v = ground arith
  dispatch-Conserves o now oracle (order id miner input output) s a v =
      create-Conserves cfg lawful o now oracle id miner input output s a
  dispatch-Conserves o now oracle (complete id hash) s a v =
      complete-Conserves cfg lawful o id hash s a v.fresh
  dispatch-Conserves o now oracle (settle id hash) s a v =
      settle-Conserves cfg lawful o id hash s a v.fresh v.backed v.divided
  dispatch-Conserves o now oracle (cancel id) s a v =
      cancel-Conserves cfg lawful o now id s a v.fresh v.backed

module _ {L : Type 0} (cfg : Config L) where
  dispatch-fresh :
      (o : Origin) (now : ℕ) (oracle : Oracle) (c : Call) (s : State L) (k : ℕ)
      → IsFresh s
      → Returns (λ t. t.next_order_id ≤ k → t.task_orders k ≡ none) (dispatch cfg o now oracle c s)
  unfolding dispatch create_task_definition update_task_definition create_task_order
      mark_order_completed settle_task_order cancel_expired_order
  dispatch-fresh o now oracle (define model version input output max policy) s k h =
      grind (arith, h k)
  dispatch-fresh o now oracle (redefine id input output max active) s k h = grind (arith, h k)
  dispatch-fresh o now oracle (order id miner input output) s k h = grind (arith, h k)
  dispatch-fresh o now oracle (complete id hash) s k h = elim (Option-cases (s.task_orders id)) [
    | inl e ↦ ground arith
    | inr (r, e) ↦ grind (arith, h k, lt_of_some s id r h e)
  ]
  dispatch-fresh o now oracle (settle id hash) s k h = elim (Option-cases (s.task_orders id)) [
    | inl e ↦ ground arith
    | inr (r, e) ↦ grind (arith, h k, lt_of_some s id r h e)
  ]
  dispatch-fresh o now oracle (cancel id) s k h = elim (Option-cases (s.task_orders id)) [
    | inl e ↦ ground arith
    | inr (r, e) ↦ grind (arith, h k, lt_of_some s id r h e)
  ]

  dispatch-IsDivided :
      (o : Origin) (now : ℕ) (oracle : Oracle) (c : Call) (s : State L) (k : ℕ)
      → ((j : ℕ) → IsDivided (s.task_orders j))
      → Returns (λ t. IsDivided (t.task_orders k)) (dispatch cfg o now oracle c s)
  unfolding dispatch create_task_definition update_task_definition create_task_order
      mark_order_completed settle_task_order cancel_expired_order
  dispatch-IsDivided o now oracle (define model version input output max policy) s k h =
      grind (arith, h k)
  dispatch-IsDivided o now oracle (redefine id input output max active) s k h = grind (arith, h k)
  dispatch-IsDivided o now oracle (order id miner input output) s k h =
      grind (arith, h k, split-IsDivided cfg)
  dispatch-IsDivided o now oracle (complete id hash) s k h =
      elim (Option-cases (s.task_orders id)) [
        | inl e ↦ ground arith
        | inr (r, e) ↦ grind (arith, h k, h id)
      ]
  dispatch-IsDivided o now oracle (settle id hash) s k h = elim (Option-cases (s.task_orders id)) [
    | inl e ↦ ground arith
    | inr (r, e) ↦ grind (arith, h k, h id)
  ]
  dispatch-IsDivided o now oracle (cancel id) s k h = elim (Option-cases (s.task_orders id)) [
    | inl e ↦ ground arith
    | inr (r, e) ↦ grind (arith, h k, h id)
  ]

  dispatch-IsBalanced :
      (o : Origin) (now : ℕ) (oracle : Oracle) (c : Call) (s : State L) (era : ℕ)
      → IsValid cfg s
      → Returns (λ t. IsBalanced (t.era_stats era)) (dispatch cfg o now oracle c s)
  unfolding dispatch create_task_definition update_task_definition create_task_order
      mark_order_completed settle_task_order cancel_expired_order
  dispatch-IsBalanced o now oracle (define model version input output max policy) s era v =
      ground (arith, v.balanced era)
  dispatch-IsBalanced o now oracle (redefine id input output max active) s era v =
      ground (arith, v.balanced era)
  dispatch-IsBalanced o now oracle (order id miner input output) s era v =
      ground (arith, v.balanced era)
  dispatch-IsBalanced o now oracle (complete id hash) s era v = ground (arith, v.balanced era)
  dispatch-IsBalanced o now oracle (settle id hash) s era v =
      elim (Option-cases (s.task_orders id)) [
        | inl e ↦ ground arith
        | inr (r, e) ↦ ground (arith, v.balanced era, rw e at (v.divided id))
      ]
  dispatch-IsBalanced o now oracle (cancel id) s era v = ground (arith, v.balanced era)

  dispatch-shared :
      (o : Origin) (now : ℕ) (oracle : Oracle) (c : Call) (s : State L) (era miner : ℕ)
      → IsValid cfg s
      → Returns
          (λ t. (t.miner_task_stats era miner).0 ≤ (t.era_stats era).total_miner_payout)
          (dispatch cfg o now oracle c s)
  unfolding dispatch create_task_definition update_task_definition create_task_order
      mark_order_completed settle_task_order cancel_expired_order
  dispatch-shared o now oracle (define model version input output max policy) s era m v =
      ground (arith, v.shared era m)
  dispatch-shared o now oracle (redefine id input output max active) s era m v =
      ground (arith, v.shared era m)
  dispatch-shared o now oracle (order id miner input output) s era m v =
      ground (arith, v.shared era m)
  dispatch-shared o now oracle (complete id hash) s era m v = ground (arith, v.shared era m)
  dispatch-shared o now oracle (settle id hash) s era m v =
      ground (arith, v.shared era m, v.balanced era)
  dispatch-shared o now oracle (cancel id) s era m v = ground (arith, v.shared era m)

-- After every history from a valid state, of calls by any origin at any block and any answer of the
-- price oracle, order identifiers from the counter on are unused, every customer's reserve covers
-- the open orders, each order's burned part and payout are its price, an era's totals agree until
-- its charges saturate, and no miner's payouts exceed the era's; given a lawful currency.
pub Reach-IsValid_orders :
    {L : Type 0} (cfg : Config L) {s t : State L}
    → IsLawful cfg.currency
    → IsValid cfg s
    → Reach cfg s t
    → IsValid cfg t
Reach-IsValid_orders cfg lawful v here = v
Reach-IsValid_orders cfg lawful v (next {t} {u} r o now oracle c e) =
    let w = Reach-IsValid_orders cfg lawful v r in
    record {
      fresh = λ k.
          of_Returns (λ x. x.next_order_id ≤ k → x.task_orders k ≡ none) _
            (dispatch-fresh cfg o now oracle c t k w.fresh) e;
      backed = λ a. omega (
        arith,
        w.backed a,
        of_Returns (λ x. Conserves cfg t x a) _ (dispatch-Conserves cfg lawful o now oracle c t a w)
            e,
      );
      divided = λ k.
          of_Returns (λ x. IsDivided (x.task_orders k)) _
            (dispatch-IsDivided cfg o now oracle c t k w.divided) e;
      balanced = λ era.
          of_Returns (λ x. IsBalanced (x.era_stats era)) _
            (dispatch-IsBalanced cfg o now oracle c t era w) e;
      shared = λ era m.
          of_Returns (λ x. (x.miner_task_stats era m).0 ≤ (x.era_stats era).total_miner_payout) _
            (dispatch-shared cfg o now oracle c t era m w) e;
    }
