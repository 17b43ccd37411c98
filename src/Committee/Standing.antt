-- ===== src/Committee/Standing.antt =====
-- The standing of an account in the committee of pallets/committee/src, and the moves between standings.
use deep_brain_chain.Prelude.{
  ℕ, ◌≡◌, arith, ◌==◌, Bool, true, false, if◌then◌else◌, contains, Returns, of_Returns,
}
use deep_brain_chain.Frame.Origin.{Origin, root, signed, unsigned}
use deep_brain_chain.Support.ItemList.{add_item, rm_item, contains-add_item, contains-rm_item}
use deep_brain_chain.Committee.{
  CommitteeList, CommitteeStakeInfo, Config, State, do_change_used_stake,
  do_change_status_when_stake_changed, set_committee_stake_params, add_committee, enter_normal,
  committee_set_box_pubkey, committee_add_stake, committee_reduce_stake, claim_reward, chill,
  undo_chill, exit_committee, add_reward,
}
use deep_brain_chain.Committee.Lists.{
  IsArranged, is_normal_lem, is_chill_lem, is_waiting_puk_lem, is_fulfilling_lem, is_committee_lem,
  returned-IsArranged,
}
use deep_brain_chain.Committee.Steps.{
  Call, set_params, add, set_box_pubkey, add_stake, reduce_stake, claim, stop, resume, exit,
  dispatch, Step, call, use_stake, change_stake, reward, change-committee,
}

pub data Standing : Type 0 where
  absent waiting normal fulfilling chilled : Standing

abbrev pub standing : CommitteeList → ℕ → Standing
standing l a =
    if contains a l.normal
    then normal
    else if contains a l.chill_list
    then chilled
    else if contains a l.waiting_box_pubkey
    then waiting
    else if contains a l.fulfilling_list
    then fulfilling
    else absent

-- What a step does to one account.
pub data Cause : Type 0 where
  added keyed staked stopped resumed exited shifted nothing : Cause

-- A call changes its sender, or the account that root adds.
abbrev pub cause_of_call : Origin → Call → ℕ → Cause
cause_of_call root (add member) a = if a == member then added else nothing
cause_of_call (signed who) (set_box_pubkey key) a = if a == who then keyed else nothing
cause_of_call (signed who) (add_stake amount) a = if a == who then staked else nothing
cause_of_call (signed who) stop a = if a == who then stopped else nothing
cause_of_call (signed who) resume a = if a == who then resumed else nothing
cause_of_call (signed who) exit a = if a == who then exited else nothing
cause_of_call _ _ a = nothing

-- Stake that is used or returned changes the member whose it is.
abbrev pub cause : {L : Type 0} {cfg : Config L} {s t : State L} → Step cfg s t → ℕ → Cause
cause (call o c e) a = cause_of_call o c a
cause (use_stake who amount is_add e) a = if a == who then shifted else nothing
cause (change_stake who amount is_add e) a = nothing
cause (reward who amount e) a = nothing

abbrev is_same : Standing → Standing → Bool
is_same absent absent = true
is_same waiting waiting = true
is_same normal normal = true
is_same fulfilling fulfilling = true
is_same chilled chilled = true
is_same _ _ = false

-- The moves of each cause. A key, a further stake and a use of stake may also leave the standing as it is,
-- and a chilled member may chill again.
abbrev pub may_become : Cause → Standing → Standing → Bool
may_become added absent waiting = true
may_become keyed waiting normal = true
may_become keyed x y = is_same x y
may_become staked fulfilling normal = true
may_become staked x y = is_same x y
may_become stopped normal chilled = true
may_become stopped fulfilling chilled = true
may_become stopped chilled chilled = true
may_become resumed chilled normal = true
may_become resumed chilled fulfilling = true
may_become exited chilled absent = true
may_become shifted normal fulfilling = true
may_become shifted fulfilling normal = true
may_become shifted x y = is_same x y
may_become nothing x y = is_same x y
may_become _ _ _ = false

Moves : Cause → CommitteeList → CommitteeList → ℕ → Type 0
Moves c l m a = may_become c (standing l a) (standing m a) ≡ true

Moves-refl : (l : CommitteeList) (a : ℕ) → Moves nothing l l a
unfolding Moves
Moves-refl l a = ground arith

module _ {L : Type 0} (cfg : Config L) where
  do_change_status_shifts :
      (who a : ℕ) (l : CommitteeList) (stake : CommitteeStakeInfo) (s : State L)
      → IsArranged l
      → may_become
          (if a == who then shifted else nothing)
          (standing l a)
          (standing (do_change_status_when_stake_changed cfg who l stake s) a)
        ≡ true
  unfolding do_change_status_when_stake_changed
  do_change_status_shifts who a l stake s v = ground (
    arith,
    v.exclusive a,
    is_normal_lem l v who,
    is_fulfilling_lem l v who,
    contains-rm_item l.fulfilling_list who a v.fulfilling_list,
    contains-rm_item l.normal who a v.normal,
    contains-add_item l.normal who a,
    contains-add_item l.fulfilling_list who a,
  )

  used-Moves :
      (who amount : ℕ) (is_add : Bool) (s : State L) (a : ℕ)
      → IsArranged s.committee
      → Returns
          (λ t. Moves (if a == who then shifted else nothing) s.committee t.committee a)
          (do_change_used_stake cfg who amount is_add s)
  unfolding do_change_used_stake Moves
  used-Moves who amount is_add s a v =
      grind (arith, Moves-refl s.committee a, do_change_status_shifts who a s.committee)

  dispatch-Moves :
      (o : Origin) (c : Call) (s : State L) (a : ℕ)
      → IsArranged s.committee
      → Returns (λ t. Moves (cause_of_call o c a) s.committee t.committee a) (dispatch cfg o c s)
  unfolding dispatch set_committee_stake_params add_committee enter_normal committee_set_box_pubkey
      committee_add_stake committee_reduce_stake claim_reward chill undo_chill exit_committee Moves
  dispatch-Moves root (set_params p) s a v = Moves-refl s.committee a
  dispatch-Moves root (add member) s a v = ground (
    arith,
    is_committee_lem s.committee v member,
    contains-add_item s.committee.waiting_box_pubkey member a,
  )
  dispatch-Moves root (set_box_pubkey key) s a v = tt
  dispatch-Moves root (add_stake amount) s a v = tt
  dispatch-Moves root (reduce_stake amount) s a v = tt
  dispatch-Moves root claim s a v = tt
  dispatch-Moves root stop s a v = tt
  dispatch-Moves root resume s a v = tt
  dispatch-Moves root exit s a v = tt
  dispatch-Moves unsigned c s a v = ground arith
  dispatch-Moves (signed who) (set_params p) s a v = tt
  dispatch-Moves (signed who) (add member) s a v = tt
  dispatch-Moves (signed who) (set_box_pubkey key) s a v = ground (
    arith,
    v.exclusive a,
    Moves-refl s.committee a,
    is_waiting_puk_lem s.committee v who,
    contains-rm_item s.committee.waiting_box_pubkey who a v.waiting_box_pubkey,
    contains-add_item s.committee.normal who a,
  )
  dispatch-Moves (signed who) (add_stake amount) s a v = ground (
    arith,
    v.exclusive a,
    Moves-refl s.committee a,
    is_fulfilling_lem s.committee v who,
    contains-rm_item s.committee.fulfilling_list who a v.fulfilling_list,
    contains-add_item s.committee.normal who a,
  )
  dispatch-Moves (signed who) (reduce_stake amount) s a v =
      ground (arith, Moves-refl s.committee a, change-committee cfg who amount false true s)
  dispatch-Moves (signed who) claim s a v = ground (arith, Moves-refl s.committee a)
  dispatch-Moves (signed who) stop s a v = ground (
    arith,
    v.exclusive a,
    Moves-refl s.committee a,
    is_committee_lem s.committee v who,
    is_chill_lem s.committee v who,
    is_waiting_puk_lem s.committee v who,
    contains-rm_item s.committee.normal who a v.normal,
    contains-rm_item s.committee.fulfilling_list who a v.fulfilling_list,
    contains-add_item s.committee.chill_list who a,
  )
  dispatch-Moves (signed who) resume s a v =
      let l = s.committee in
      let back : CommitteeList = record l {
        chill_list = rm_item l.chill_list who;
        normal = add_item l.normal who;
      } in
      ground (
        arith,
        v.exclusive a,
        is_chill_lem l v who,
        returned-IsArranged l v who,
        contains-rm_item l.chill_list who a v.chill_list,
        contains-add_item l.normal who a,
        do_change_status_shifts who a back (s.committee_stake who) s,
      )
  dispatch-Moves (signed who) exit s a v = ground (
    arith,
    v.exclusive a,
    is_chill_lem s.committee v who,
    contains-rm_item s.committee.chill_list who a v.chill_list,
  )

  -- In every step, every account moves in the committee as the step causes it: root's addition makes an
  -- absent account wait for its key, only the account's own key makes a waiting one normal, its own
  -- stake a fulfilling one normal, its own call chills a normal or fulfilling one, brings a chilled one
  -- back, or lets a chilled one leave, and stake of its own that is used or returned moves it between
  -- normal and fulfilling; everything else leaves every standing as it is. Given ordered, disjoint
  -- lists.
  pub Step-Moves :
      (s t : State L)
      → IsArranged s.committee
      → (step : Step cfg s t) → (a : ℕ)
      → may_become (cause step a) (standing s.committee a) (standing t.committee a) ≡ true
  unfolding Moves add_reward
  Step-Moves s t v (call o c e) a =
      of_Returns (λ u. Moves (cause_of_call o c a) s.committee u.committee a) _
        (dispatch-Moves o c s a v) e
  Step-Moves s t v (use_stake who amount is_add e) a =
      of_Returns (λ u. Moves (if a == who then shifted else nothing) s.committee u.committee a) _
        (used-Moves who amount is_add s a v) e
  Step-Moves s t v (change_stake who amount is_add e) a =
      rw
        (of_Returns (λ u. u.committee ≡ s.committee) _
          (change-committee cfg who amount is_add true s) e)
        (Moves-refl s.committee a)
  Step-Moves s t v (reward who amount e) a = rw e (Moves-refl s.committee a)
