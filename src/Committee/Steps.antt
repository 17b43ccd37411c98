-- ===== src/Committee/Steps.antt =====
-- Histories of pallets/committee/src: its calls, and the changes that other pallets make through
-- `ManageCommittee`. A change of the total stake without the reserve, which accompanies a slash that
-- another pallet carries out, is left to the callers' models.
use deep_brain_chain.Prelude.{
  ℕ, ◌+◌, ◌≤◌, ◌≡◌, arith, Bool, true, false, ok, Result, Returns, of_Returns, inl, inr, List,
  Option-cases,
}
use deep_brain_chain.Frame.Origin.{Origin, root, signed, unsigned}
use deep_brain_chain.Frame.Currency.{IsLawful}
use deep_brain_chain.Support.ItemList.{add_item, rm_item}
use deep_brain_chain.Committee.{
  Config, State, Error, CommitteeStakeParamsInfo, change_reserve_of, do_change_reserved,
  do_change_used_stake, set_committee_stake_params, add_committee, enter_normal,
  committee_set_box_pubkey, committee_add_stake, committee_reduce_stake, claim_reward, chill,
  undo_chill, exit_committee, add_reward,
}
use deep_brain_chain.Committee.Lists.{
  IsArranged, added-IsArranged, entered-IsArranged, promoted-IsArranged, returned-IsArranged,
  chilled-IsArranged, left-IsArranged, do_change_status-IsArranged,
}

-- A call of the pallet.
pub data Call : Type 0 where
  set_params : CommitteeStakeParamsInfo → Call
  add : (member : ℕ) → Call
  set_box_pubkey : List ℕ → Call
  add_stake reduce_stake : (amount : ℕ) → Call
  claim stop resume exit : Call

unfoldable pub dispatch : {L : Type 0} → Config L → Origin → Call → State L → Result Error (State L)
dispatch cfg o (set_params p) s = set_committee_stake_params cfg o p s
dispatch cfg o (add member) s = add_committee cfg o member s
dispatch cfg o (set_box_pubkey key) s = committee_set_box_pubkey cfg o key s
dispatch cfg o (add_stake amount) s = committee_add_stake cfg o amount s
dispatch cfg o (reduce_stake amount) s = committee_reduce_stake cfg o amount s
dispatch cfg o claim s = claim_reward cfg o s
dispatch cfg o stop s = chill cfg o s
dispatch cfg o resume s = undo_chill cfg o s
dispatch cfg o exit s = exit_committee cfg o s

pub data Step {L : Type 0} (cfg : Config L) (s t : State L) : Type 0 where
  call : (o : Origin) (c : Call) → dispatch cfg o c s ≡ ok t → Step cfg s t
  use_stake :
      (who amount : ℕ) (is_add : Bool)
      → do_change_used_stake cfg who amount is_add s ≡ ok t
      → Step cfg s t
  change_stake :
      (who amount : ℕ) (is_add : Bool)
      → do_change_reserved cfg who amount is_add true s ≡ ok t
      → Step cfg s t
  reward : (who amount : ℕ) → t ≡ add_reward cfg who amount s → Step cfg s t

pub data Reach {L : Type 0} (cfg : Config L) (s : State L) : State L → Type 0 where
  here : Reach cfg s s
  next : {t u : State L} → Reach cfg s t → Step cfg t u → Reach cfg s u

abbrev pub IsBacked : {L : Type 0} → Config L → State L → Type 0
IsBacked cfg s = (a : ℕ) → (s.committee_stake a).staked_amount ≤ cfg.currency.reserved s.ledger a

-- The reserve of the account changes as its stake does.
abbrev pub Conserves : {L : Type 0} → Config L → State L → State L → ℕ → Type 0
Conserves cfg s t a =
    cfg.currency.reserved t.ledger a + (s.committee_stake a).staked_amount
    ≡ cfg.currency.reserved s.ledger a + (t.committee_stake a).staked_amount

-- Ordered and disjoint lists, and stakes that the reserves cover.
pub record IsValid {L : Type 0} (cfg : Config L) (s : State L) : Type 0 where
  pub arranged : IsArranged s.committee
  pub backed : IsBacked cfg s

module _ {L : Type 0} (cfg : Config L) where
  pub change-committee :
      (who amount : ℕ) (is_add reserve : Bool) (s : State L)
      → Returns
          (λ t. t.committee ≡ s.committee)
          (do_change_reserved cfg who amount is_add reserve s)
  unfolding do_change_reserved change_reserve_of
  change-committee who amount is_add reserve s = ground arith

  dispatch-IsArranged :
      (o : Origin) (c : Call) (s : State L)
      → IsArranged s.committee
      → Returns (λ t. IsArranged t.committee) (dispatch cfg o c s)
  unfolding dispatch set_committee_stake_params add_committee enter_normal committee_set_box_pubkey
      committee_add_stake committee_reduce_stake claim_reward chill undo_chill exit_committee
  dispatch-IsArranged root (set_params p) s v = v
  dispatch-IsArranged root (add member) s v = ground (arith, added-IsArranged s.committee v member)
  dispatch-IsArranged root (set_box_pubkey key) s v = tt
  dispatch-IsArranged root (add_stake amount) s v = tt
  dispatch-IsArranged root (reduce_stake amount) s v = tt
  dispatch-IsArranged root claim s v = tt
  dispatch-IsArranged root stop s v = tt
  dispatch-IsArranged root resume s v = tt
  dispatch-IsArranged root exit s v = tt
  dispatch-IsArranged unsigned c s v = ground arith
  dispatch-IsArranged (signed who) (set_params p) s v = tt
  dispatch-IsArranged (signed who) (add member) s v = tt
  dispatch-IsArranged (signed who) (set_box_pubkey key) s v =
      ground (arith, entered-IsArranged s.committee v who)
  dispatch-IsArranged (signed who) (add_stake amount) s v =
      ground (arith, promoted-IsArranged s.committee v who)
  dispatch-IsArranged (signed who) (reduce_stake amount) s v =
      ground (arith, change-committee who amount false true s)
  dispatch-IsArranged (signed who) claim s v = ground arith
  dispatch-IsArranged (signed who) stop s v = ground (arith, chilled-IsArranged s.committee v who)
  dispatch-IsArranged (signed who) resume s v =
      let l = s.committee in
      ground (
        arith,
        returned-IsArranged l v who,
        do_change_status-IsArranged cfg who
            (record l { chill_list = rm_item l.chill_list who; normal = add_item l.normal who })
            (s.committee_stake who) s,
      )
  dispatch-IsArranged (signed who) exit s v = ground (arith, left-IsArranged s.committee v who)

module _ {L : Type 0} (cfg : Config L) (lawful : IsLawful cfg.currency) where
  open cfg use {currency}

  change-Conserves :
      (who amount : ℕ) (is_add : Bool) (s : State L) (a : ℕ)
      → IsBacked cfg s
      → Returns (λ t. Conserves cfg s t a) (do_change_reserved cfg who amount is_add true s)
  unfolding do_change_reserved change_reserve_of
  change-Conserves who amount true s a backed =
      elim (Option-cases (currency.reserve who amount s.ledger)) [
        | inl e ↦ ground arith
        | inr (l, e) ↦ ground (arith, lawful.reserve_reserved who amount a s.ledger e)
      ]
  change-Conserves who amount false s a backed =
      ground (arith, backed a, lawful.unreserve_reserved who amount a s.ledger)

  dispatch-Conserves :
      (o : Origin) (c : Call) (s : State L) (a : ℕ)
      → IsBacked cfg s
      → Returns (λ t. Conserves cfg s t a) (dispatch cfg o c s)
  unfolding dispatch set_committee_stake_params add_committee enter_normal committee_set_box_pubkey
      committee_add_stake committee_reduce_stake claim_reward chill undo_chill exit_committee
  dispatch-Conserves root c s a backed = ground arith
  dispatch-Conserves unsigned c s a backed = ground arith
  dispatch-Conserves (signed who) (set_params p) s a backed = tt
  dispatch-Conserves (signed who) (add member) s a backed = tt
  dispatch-Conserves (signed who) (set_box_pubkey key) s a backed =
      elim (Option-cases s.committee_stake_params) [
        | inl e ↦ ground arith
        | inr (p, e) ↦ ground (arith, change-Conserves who p.stake_baseline true s a backed)
      ]
  dispatch-Conserves (signed who) (add_stake amount) s a backed =
      ground (arith, change-Conserves who amount true s a backed)
  dispatch-Conserves (signed who) (reduce_stake amount) s a backed =
      ground (arith, change-Conserves who amount false s a backed)
  dispatch-Conserves (signed who) claim s a backed =
      elim (Option-cases
        (currency.deposit_into_existing who (s.committee_stake who).can_claim_reward s.ledger)) [
          | inl e ↦ ground arith
          | inr (l, e) ↦ ground (
            arith,
            lawful.deposit_reserved who ((s.committee_stake who).can_claim_reward) a s.ledger e,
          )
        ]
  dispatch-Conserves (signed who) stop s a backed = ground arith
  dispatch-Conserves (signed who) resume s a backed = ground arith
  dispatch-Conserves (signed who) exit s a backed = ground (
    arith,
    backed a,
    lawful.unreserve_reserved who ((s.committee_stake who).staked_amount) a s.ledger,
  )

  used-Conserves :
      (who amount : ℕ) (is_add : Bool) (s : State L) (a : ℕ)
      → Returns (λ t. Conserves cfg s t a) (do_change_used_stake cfg who amount is_add s)
  unfolding do_change_used_stake
  used-Conserves who amount is_add s a = ground arith

  used-IsArranged :
      (who amount : ℕ) (is_add : Bool) (s : State L)
      → IsArranged s.committee
      → Returns (λ t. IsArranged t.committee) (do_change_used_stake cfg who amount is_add s)
  unfolding do_change_used_stake
  used-IsArranged who amount is_add s v = grind (arith, do_change_status-IsArranged cfg)

  Step-Conserves_stake :
      (s t : State L) → IsBacked cfg s → Step cfg s t → (a : ℕ) → Conserves cfg s t a
  unfolding add_reward
  Step-Conserves_stake s t backed (call o c e) a =
      of_Returns (λ u. Conserves cfg s u a) _ (dispatch-Conserves o c s a backed) e
  Step-Conserves_stake s t backed (use_stake who amount is_add e) a =
      of_Returns (λ u. Conserves cfg s u a) _ (used-Conserves who amount is_add s a) e
  Step-Conserves_stake s t backed (change_stake who amount is_add e) a =
      of_Returns (λ u. Conserves cfg s u a) _ (change-Conserves who amount is_add s a backed) e
  Step-Conserves_stake s t backed (reward who amount e) a = rw e (ground arith)

  Step-IsArranged : (s t : State L) → IsArranged s.committee → Step cfg s t → IsArranged t.committee
  unfolding add_reward
  Step-IsArranged s t v (call o c e) =
      of_Returns (λ u. IsArranged u.committee) _ (dispatch-IsArranged cfg o c s v) e
  Step-IsArranged s t v (use_stake who amount is_add e) =
      of_Returns (λ u. IsArranged u.committee) _ (used-IsArranged who amount is_add s v) e
  Step-IsArranged s t v (change_stake who amount is_add e) =
      rw
        (of_Returns (λ u. u.committee ≡ s.committee) _
          (change-committee cfg who amount is_add true s) e)
        v
  Step-IsArranged s t v (reward who amount e) = rw e v

  -- Over every history of calls, of stake used and returned, of stake changes with their reserve,
  -- and of rewards, the four lists stay ordered and disjoint and every account's reserve covers its
  -- stake.
  pub Reach-IsValid_committee : {s t : State L} → IsValid cfg s → Reach cfg s t → IsValid cfg t
  Reach-IsValid_committee v here = v
  Reach-IsValid_committee v (next {t} {u} r st) =
      let w = Reach-IsValid_committee v r in
      record {
        arranged = Step-IsArranged t u w.arranged st;
        backed = λ a. omega (arith, w.backed a, Step-Conserves_stake t u w.backed st a);
      }
