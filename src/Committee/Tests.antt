-- ===== src/Committee/Tests.antt =====
-- Runs of pallets/committee/src, and its theorems at concrete states. Account 1 is the member.
use deep_brain_chain.Prelude.{◌*◌, ◌/◌, ◌≡◌, refl, some, arith, true, [], ◌∷◌, after}
use deep_brain_chain.Frame.Origin.{root, signed}
use deep_brain_chain.Frame.Ledger.{Ledger, ledger_currency, ledger_currency-IsLawful, start_ledger}
use deep_brain_chain.Support.ItemList.{binary_search, add_item, rm_item}
use deep_brain_chain.Committee.{
  Config, State, is_normal, is_chill, is_waiting_puk, is_fulfilling, is_committee,
  check_stake_health, change_reserve_of, do_change_reserved, add_committee, enter_normal,
  committee_set_box_pubkey, chill, exit_committee,
}
use deep_brain_chain.Committee.Steps.{
  add, set_box_pubkey, stop, exit, dispatch, call, Reach, here, next, IsValid,
  Reach-IsValid_committee,
}
use deep_brain_chain.Committee.Exit.{IsReleased, exit-IsReleased}
use deep_brain_chain.Committee.Standing.{exited, standing, may_become, Step-Moves}

abbrev cfg : Config Ledger
cfg = record { currency = ledger_currency; perbill_mul = λ p x. p * x / 1_000_000_000 }

abbrev start : State Ledger
start = record {
  committee = record {
    normal = [];
    chill_list = [];
    waiting_box_pubkey = [];
    fulfilling_list = [];
  };
  committee_stake_params =
      some (record {
        stake_baseline = 200;
        stake_per_order = 10;
        min_free_stake_percent = 400_000_000;
      });
  committee_stake = λ a. record {
    box_pubkey = [];
    staked_amount = 0;
    used_stake = 0;
    can_claim_reward = 0;
    claimed_reward = 0;
  };
  ledger = start_ledger;
  events = [];
}

abbrev added : State Ledger
unfolding add_committee is_committee is_normal is_chill is_waiting_puk is_fulfilling binary_search
    add_item
added = after start (add_committee cfg root 1 start)

abbrev staked : State Ledger
unfolding add_committee is_committee is_normal is_chill is_waiting_puk is_fulfilling binary_search
    add_item rm_item committee_set_box_pubkey enter_normal check_stake_health do_change_reserved
    change_reserve_of
staked = after added (committee_set_box_pubkey cfg (signed 1) (8 ∷ []) added)

abbrev stopped : State Ledger
unfolding add_committee is_committee is_normal is_chill is_waiting_puk is_fulfilling binary_search
    add_item rm_item committee_set_box_pubkey enter_normal check_stake_health do_change_reserved
    change_reserve_of chill
stopped = after staked (chill cfg (signed 1) staked)

abbrev left : State Ledger
unfolding add_committee is_committee is_normal is_chill is_waiting_puk is_fulfilling binary_search
    add_item rm_item committee_set_box_pubkey enter_normal check_stake_health do_change_reserved
    change_reserve_of chill exit_committee
left = after stopped (exit_committee cfg (signed 1) stopped)

balances :
    (staked.ledger.reserved 1 ≡ 200)
    × (stopped.committee.chill_list ≡ 1 ∷ [])
    × (left.ledger.free 1 ≡ 1000)
unfolding add_committee is_committee is_normal is_chill is_waiting_puk is_fulfilling binary_search
    add_item rm_item committee_set_box_pubkey enter_normal check_stake_health do_change_reserved
    change_reserve_of chill exit_committee
balances = (refl, refl, refl)

start-IsValid : IsValid cfg start
start-IsValid = record {
  arranged = record {
    normal = tt;
    chill_list = tt;
    waiting_box_pubkey = tt;
    fulfilling_list = tt;
    exclusive = λ a. omega arith;
  };
  backed = λ a. omega arith;
}

stopped-Reach : Reach cfg start stopped
unfolding dispatch add_committee is_committee is_normal is_chill is_waiting_puk is_fulfilling
    binary_search add_item rm_item committee_set_box_pubkey enter_normal check_stake_health
    do_change_reserved change_reserve_of chill
stopped-Reach =
    next
      (next (next here (call root (add 1) refl)) (call (signed 1) (set_box_pubkey (8 ∷ [])) refl))
      (call (signed 1) stop refl)

stopped-IsValid : IsValid cfg stopped
stopped-IsValid = Reach-IsValid_committee cfg ledger_currency-IsLawful start-IsValid stopped-Reach

Reach-IsValid_committee_example : IsValid cfg stopped
Reach-IsValid_committee_example =
    Reach-IsValid_committee cfg ledger_currency-IsLawful start-IsValid stopped-Reach

exit-IsReleased_example : IsReleased cfg 1 stopped left
unfolding add_committee is_committee is_normal is_chill is_waiting_puk is_fulfilling binary_search
    add_item rm_item committee_set_box_pubkey enter_normal check_stake_health do_change_reserved
    change_reserve_of chill exit_committee
exit-IsReleased_example =
    exit-IsReleased cfg ledger_currency-IsLawful 1 stopped left stopped-IsValid refl

Step-Moves_example :
    may_become exited (standing stopped.committee 1) (standing left.committee 1) ≡ true
unfolding dispatch add_committee is_committee is_normal is_chill is_waiting_puk is_fulfilling
    binary_search add_item rm_item committee_set_box_pubkey enter_normal check_stake_health
    do_change_reserved change_reserve_of chill exit_committee
Step-Moves_example =
    Step-Moves cfg stopped left stopped-IsValid.arranged (call (signed 1) exit refl) 1
