-- ===== src/Committee/Types.antt =====
-- The data and the storage of pallets/committee/src (lib.rs and types.rs).
use deep_brain_chain.Prelude.{ℕ, Bool, ◌||◌, Option, List}
use deep_brain_chain.Frame.Currency.{Currency}
use deep_brain_chain.Support.ItemList.{binary_search, is_found}

pub record CommitteeList : Type 0 where
  pub normal : List ℕ
  pub chill_list : List ℕ
  pub waiting_box_pubkey : List ℕ
  pub fulfilling_list : List ℕ

unfoldable pub is_normal : CommitteeList → ℕ → Bool
is_normal l who = is_found (binary_search l.normal who)

unfoldable pub is_chill : CommitteeList → ℕ → Bool
is_chill l who = is_found (binary_search l.chill_list who)

unfoldable pub is_waiting_puk : CommitteeList → ℕ → Bool
is_waiting_puk l who = is_found (binary_search l.waiting_box_pubkey who)

unfoldable pub is_fulfilling : CommitteeList → ℕ → Bool
is_fulfilling l who = is_found (binary_search l.fulfilling_list who)

unfoldable pub is_committee : CommitteeList → ℕ → Bool
unfolding is_normal is_chill is_waiting_puk is_fulfilling
is_committee l who =
    is_normal l who || (is_chill l who || (is_waiting_puk l who || is_fulfilling l who))

-- `min_free_stake_percent` is a `Perbill`, in its parts.
pub record CommitteeStakeParamsInfo : Type 0 where
  pub stake_baseline : ℕ
  pub stake_per_order : ℕ
  pub min_free_stake_percent : ℕ

pub record CommitteeStakeInfo : Type 0 where
  pub box_pubkey : List ℕ
  pub staked_amount : ℕ
  pub used_stake : ℕ
  pub can_claim_reward : ℕ
  pub claimed_reward : ℕ

-- The currency of `trait Config`, and `Perbill * Balance` of sp-arithmetic.
pub record Config (L : Type 0) : Type 0 where
  pub currency : Currency L
  pub perbill_mul : ℕ → ℕ → ℕ

pub data Event : Type 0 where
  pay_tx_fee : (who amount : ℕ) → Event
  committee_fulfill : (amount : ℕ) → Event
  committee_exit : (who : ℕ) → Event
  committee_added : (member : ℕ) → Event
  chilled : (who : ℕ) → Event
  undone_chill : (who : ℕ) → Event
  exit_from_candidacy : (who : ℕ) → Event
  committee_set_box_pubkey_event : (who : ℕ) → List ℕ → Event
  stake_added : (who amount : ℕ) → Event
  stake_reduced : (who amount : ℕ) → Event
  reward_claimed : (who amount : ℕ) → Event

pub data Error : Type 0 where
  bad_origin pubkey_not_set not_committee account_already_exist not_in_chill_list : Error
  job_not_done claim_reward_failed get_stake_params_failed nothing_to_claim : Error
  balance_not_enough status_not_allowed not_in_normal_list status_not_feat : Error
  change_reserved_failed no_reward_can_claim stake_for_committee_failed stake_not_enough : Error

pub record State (L : Type 0) : Type 0 where
  pub committee : CommitteeList
  pub committee_stake_params : Option CommitteeStakeParamsInfo
  pub committee_stake : ℕ → CommitteeStakeInfo
  pub ledger : L
  pub events : List Event
