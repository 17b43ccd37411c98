-- ===== src/Committee.antt =====
-- pallets/committee/src (lib.rs, traits.rs): the members of the committee in four ordered lists, their stake,
-- and the interface `ManageCommittee` through which other pallets use the stake.
mod Types
pub mod Lists
pub mod Steps
pub mod Exit
pub mod Standing
mod Tests
unfoldable pub use Types.*
use deep_brain_chain.Prelude.{
  ℕ, ◌+◌, ◌-◌, ◌%◌, ◌^◌, Bool, true, false, not, ◌&&◌, ◌||◌, Option, none, some, List, [], ◌∷◌,
  Result, ok, err, ◌>>=◌, ◌>>◌, guard, or_fail, map_err, update, leb, ◌==◌, if◌then◌else◌, u128_max,
  checked_add, checked_sub, saturating_add,
}
use deep_brain_chain.Frame.Origin.{Origin, ensure_signed, ensure_root}
use deep_brain_chain.Support.ItemList.{add_item, rm_item}

-- `CommitteeStakeParams` where it is not set.
abbrev pub or_default : Option CommitteeStakeParamsInfo → CommitteeStakeParamsInfo
or_default none = record { stake_baseline = 0; stake_per_order = 0; min_free_stake_percent = 0 }
or_default (some p) = p

-- A stake that a call would change by the amount.
abbrev changed_stake : Bool → ℕ → ℕ → Option ℕ
changed_stake is_add stake amount =
    if is_add then checked_add u128_max stake amount else checked_sub stake amount

module _ {L : Type 0} (cfg : Config L) where
  open cfg use {currency}

  -- The free part of the stake is above the given share of all of it.
  abbrev pub is_free_stake_enough : CommitteeStakeParamsInfo → ℕ → ℕ → Bool
  is_free_stake_enough p staked used =
      leb p.stake_baseline staked
      && leb (cfg.perbill_mul p.min_free_stake_percent staked) (staked - used)

  pub check_stake_health : ℕ → ℕ → Bool → State L → Result (Unit {0}) (Unit {0})
  check_stake_health who amount is_add s = do
    params ← or_fail s.committee_stake_params tt
    let stake = s.committee_stake who
    staked ← or_fail (changed_stake is_add stake.staked_amount amount) tt
    guard (leb params.stake_baseline staked) tt
    guard (leb (cfg.perbill_mul params.min_free_stake_percent staked) (staked - stake.used_stake))
        tt
    ok tt

  -- The reserve that goes with a change of the stake.
  change_reserve_of : ℕ → ℕ → Bool → Bool → L → Result (Unit {0}) L
  change_reserve_of who amount is_add false l = ok l
  change_reserve_of who amount true true l = do
    guard (currency.can_reserve who amount l) tt
    or_fail (currency.reserve who amount l) tt
  change_reserve_of who amount false true l = ok (currency.unreserve who amount l)

  pub do_change_reserved : ℕ → ℕ → Bool → Bool → State L → Result (Unit {0}) (State L)
  unfolding change_reserve_of
  do_change_reserved who amount is_add change_reserve s = do
    let stake = s.committee_stake who
    staked ← or_fail (changed_stake is_add stake.staked_amount amount) tt
    ledger ← change_reserve_of who amount is_add change_reserve s.ledger
    ok (record s {
      ledger = ledger;
      committee_stake = update s.committee_stake who (record stake { staked_amount = staked });
    })

  -- The lists after the status has followed the stake; unchanged where the code returns false.
  pub do_change_status_when_stake_changed :
      ℕ → CommitteeList → CommitteeStakeInfo → State L → CommitteeList
  do_change_status_when_stake_changed who l stake s =
      let enough =
        is_free_stake_enough (or_default s.committee_stake_params) stake.staked_amount
          stake.used_stake in
      if enough && is_fulfilling l who
      then record l {
        fulfilling_list = rm_item l.fulfilling_list who;
        normal = add_item l.normal who;
      }
      else if not enough && is_normal l who
      then record l {
        normal = rm_item l.normal who;
        fulfilling_list = add_item l.fulfilling_list who;
      }
      else l

  pub do_change_used_stake : ℕ → ℕ → Bool → State L → Result (Unit {0}) (State L)
  do_change_used_stake who amount is_add s = do
    let stake = s.committee_stake who
    used ← or_fail (changed_stake is_add stake.used_stake amount) tt
    let after_change = record stake { used_stake = used }
    ok (record s {
      committee = do_change_status_when_stake_changed who s.committee after_change s;
      committee_stake = update s.committee_stake who after_change;
    })

  pub set_committee_stake_params :
      Origin → CommitteeStakeParamsInfo → State L → Result Error (State L)
  set_committee_stake_params origin stake_params s = do
    ensure_root bad_origin origin
    ok (record s { committee_stake_params = some stake_params })

  pub add_committee : Origin → ℕ → State L → Result Error (State L)
  add_committee origin member s = do
    ensure_root bad_origin origin
    guard (not (is_committee s.committee member)) account_already_exist
    let l = s.committee
    ok (record s {
      committee = record l { waiting_box_pubkey = add_item l.waiting_box_pubkey member };
      events = committee_added member ∷ s.events;
    })

  -- The member that waits stakes the baseline and becomes normal.
  enter_normal : ℕ → CommitteeStakeParamsInfo → State L → Result Error (State L)
  enter_normal who params s = do
    map_err (check_stake_health who params.stake_baseline true s) balance_not_enough
    t ← map_err (do_change_reserved who params.stake_baseline true true s) balance_not_enough
    let l = s.committee
    ok (record t {
      committee = record l {
        waiting_box_pubkey = rm_item l.waiting_box_pubkey who;
        normal = add_item l.normal who;
      };
    })

  pub committee_set_box_pubkey : Origin → List ℕ → State L → Result Error (State L)
  unfolding enter_normal
  committee_set_box_pubkey origin box_pubkey s = do
    who ← ensure_signed bad_origin origin
    params ← or_fail s.committee_stake_params get_stake_params_failed
    t ←
        (if is_waiting_puk s.committee who
          then enter_normal who params s
          else if is_normal s.committee who
          then ok s
          else err status_not_allowed)
    ok (record t {
      committee_stake =
          update t.committee_stake who (record (t.committee_stake who) { box_pubkey = box_pubkey });
      events =
          committee_set_box_pubkey_event who box_pubkey
          ∷ stake_added who params.stake_baseline
          ∷ t.events;
    })

  pub committee_add_stake : Origin → ℕ → State L → Result Error (State L)
  committee_add_stake origin amount s = do
    who ← ensure_signed bad_origin origin
    guard (is_committee s.committee who) not_committee
    map_err (check_stake_health who amount true s) balance_not_enough
    t ← map_err (do_change_reserved who amount true true s) balance_not_enough
    let l = s.committee
    ok (record t {
      committee =
          if is_fulfilling l who
          then record l {
            fulfilling_list = rm_item l.fulfilling_list who;
            normal = add_item l.normal who;
          }
          else l;
      events = stake_added who amount ∷ s.events;
    })

  pub committee_reduce_stake : Origin → ℕ → State L → Result Error (State L)
  committee_reduce_stake origin amount s = do
    who ← ensure_signed bad_origin origin
    guard (is_normal s.committee who) not_in_normal_list
    map_err (check_stake_health who amount false s) balance_not_enough
    t ← map_err (do_change_reserved who amount false true s) change_reserved_failed
    ok (record t { events = stake_reduced who amount ∷ s.events })

  -- The sum of claimed rewards is not checked: it wraps.
  pub claim_reward : Origin → State L → Result Error (State L)
  claim_reward origin s = do
    who ← ensure_signed bad_origin origin
    let stake = s.committee_stake who
    guard (not (stake.can_claim_reward == 0)) nothing_to_claim
    ledger ←
        or_fail (currency.deposit_into_existing who stake.can_claim_reward s.ledger)
          claim_reward_failed
    ok (record s {
      committee_stake = update s.committee_stake who (record stake {
        claimed_reward = (stake.claimed_reward + stake.can_claim_reward) % 2 ^ 128;
        can_claim_reward = 0;
      });
      ledger = ledger;
      events = reward_claimed who stake.can_claim_reward ∷ s.events;
    })

  pub chill : Origin → State L → Result Error (State L)
  chill origin s = do
    who ← ensure_signed bad_origin origin
    guard (is_committee s.committee who) not_committee
    let l = s.committee
    if is_chill l who
        then ok s
        else (guard (not (is_waiting_puk l who)) pubkey_not_set
            >> ok (record s {
              committee = record l {
                normal = rm_item l.normal who;
                fulfilling_list = rm_item l.fulfilling_list who;
                chill_list = add_item l.chill_list who;
              };
              events = chilled who ∷ s.events;
            }))

  pub undo_chill : Origin → State L → Result Error (State L)
  undo_chill origin s = do
    who ← ensure_signed bad_origin origin
    guard (is_chill s.committee who) not_in_chill_list
    let l = s.committee
    let back = record l { chill_list = rm_item l.chill_list who; normal = add_item l.normal who }
    ok (record s {
      committee = do_change_status_when_stake_changed who back (s.committee_stake who) s;
      events = undone_chill who ∷ s.events;
    })

  pub exit_committee : Origin → State L → Result Error (State L)
  exit_committee origin s = do
    who ← ensure_signed bad_origin origin
    let stake = s.committee_stake who
    guard (stake.used_stake == 0) job_not_done
    guard (is_chill s.committee who) status_not_feat
    let l = s.committee
    ok (record s {
      committee = record l { chill_list = rm_item l.chill_list who };
      ledger = currency.unreserve who stake.staked_amount s.ledger;
      committee_stake = update s.committee_stake who (record stake { staked_amount = 0 });
      events = exit_from_candidacy who ∷ s.events;
    })

  -- `ManageCommittee`: what other pallets call.
  pub is_valid_committee : ℕ → State L → Bool
  is_valid_committee who s = is_normal s.committee who

  pub available_committee : State L → Option (List ℕ)
  available_committee s = elim s.committee.normal [ [] ↦ none | a ∷ rest ↦ some (a ∷ rest) ]

  pub stake_per_order : State L → Option ℕ
  stake_per_order s = elim s.committee_stake_params [
    | none ↦ none
    | some p ↦ some p.stake_per_order
  ]

  pub add_reward : ℕ → ℕ → State L → State L
  add_reward who reward s =
      let stake = s.committee_stake who in
      record s {
        committee_stake = update s.committee_stake who (record stake {
          can_claim_reward = saturating_add u128_max stake.can_claim_reward reward;
        });
      }
