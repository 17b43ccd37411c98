-- ===== src/Support/Machines.antt =====
-- The lists of machines in pallets/support/src/live_machine.rs, and of one stash account and of one committee
-- member in pallets/support/src/verify_online.rs.
use deep_brain_chain.Prelude.{
  ℕ, ◌+◌, ◌-◌, ◌≡◌, refl, ◌∙◌, arith, Bool-cases, inl, inr, Returns, err, Bool, false, not, ◌&&◌,
  ◌||◌, Option, none, some, List, contains, Result, ok, ◌>>◌, guard, ◌==◌, if◌then◌else◌,
  saturating_add, checked_add, u64_max, u128_max, ◌≤◌,
}
use deep_brain_chain.Support.ItemList.{
  IsSorted, binary_search, is_found, add_item, rm_item, contains-rm_item, rm_item-IsSorted,
  binary_search_lem, add_item-IsSorted, contains-add_item,
}
use deep_brain_chain.Support.Online.{VerifyErr, not_submit_hash, already_submit_raw}

pub record LiveMachine : Type 0 where
  pub bonding_machine : List ℕ
  pub confirmed_machine : List ℕ
  pub booked_machine : List ℕ
  pub online_machine : List ℕ
  pub fulfilling_machine : List ℕ
  pub refused_machine : List ℕ
  pub rented_machine : List ℕ
  pub offline_machine : List ℕ
  pub refused_mut_hardware_machine : List ℕ

-- Also `bond_machine`, which has the same body.
pub on_bonding : ℕ → LiveMachine → LiveMachine
on_bonding id l = record l { bonding_machine = add_item l.bonding_machine id }

pub add_machine_info : ℕ → LiveMachine → LiveMachine
add_machine_info id l = record l {
  bonding_machine = rm_item l.bonding_machine id;
  confirmed_machine = add_item l.confirmed_machine id;
}

pub on_add_server_room : ℕ → LiveMachine → LiveMachine
on_add_server_room id l =
    if is_found (binary_search l.bonding_machine id) then add_machine_info id l else l

pub on_offline_change_hardware : ℕ → LiveMachine → LiveMachine
on_offline_change_hardware id l = record l {
  online_machine = rm_item l.online_machine id;
  bonding_machine = add_item l.bonding_machine id;
}

-- Also `machine_offline`, which has the same body.
pub on_offline : ℕ → LiveMachine → LiveMachine
on_offline id l = record l {
  online_machine = rm_item l.online_machine id;
  rented_machine = rm_item l.rented_machine id;
  offline_machine = add_item l.offline_machine id;
}

pub on_exit : ℕ → LiveMachine → LiveMachine
on_exit id l = record l { online_machine = rm_item l.online_machine id }

pub live_refuse_machine : ℕ → LiveMachine → LiveMachine
live_refuse_machine id l = record l {
  booked_machine = rm_item l.booked_machine id;
  refused_machine = add_item l.refused_machine id;
}

pub live_revert_book : ℕ → LiveMachine → LiveMachine
live_revert_book id l = record l {
  booked_machine = rm_item l.booked_machine id;
  confirmed_machine = add_item l.confirmed_machine id;
}

pub live_machine_exit : ℕ → LiveMachine → LiveMachine
live_machine_exit id l = record l {
  online_machine = rm_item l.online_machine id;
  rented_machine = rm_item l.rented_machine id;
}

pub clean : ℕ → LiveMachine → LiveMachine
clean id l = record {
  bonding_machine = rm_item l.bonding_machine id;
  confirmed_machine = rm_item l.confirmed_machine id;
  booked_machine = rm_item l.booked_machine id;
  online_machine = rm_item l.online_machine id;
  fulfilling_machine = rm_item l.fulfilling_machine id;
  refused_machine = rm_item l.refused_machine id;
  rented_machine = rm_item l.rented_machine id;
  offline_machine = rm_item l.offline_machine id;
  refused_mut_hardware_machine = rm_item l.refused_mut_hardware_machine id;
}

-- What a member has to do, by the stage of its machines.
pub record OcCommitteeMachineList : Type 0 where
  pub booked_machine : List ℕ
  pub hashed_machine : List ℕ
  pub confirmed_machine : List ℕ
  pub online_machine : List ℕ

pub member_submit_hash : ℕ → OcCommitteeMachineList → OcCommitteeMachineList
member_submit_hash id l = record l {
  booked_machine = rm_item l.booked_machine id;
  hashed_machine = add_item l.hashed_machine id;
}

unfoldable pub member_submit_raw :
    ℕ → OcCommitteeMachineList → Result VerifyErr OcCommitteeMachineList
member_submit_raw id l = do
  guard (is_found (binary_search l.hashed_machine id)) not_submit_hash
  guard (not (is_found (binary_search l.confirmed_machine id))) already_submit_raw
  ok (record l {
    hashed_machine = rm_item l.hashed_machine id;
    confirmed_machine = add_item l.confirmed_machine id;
  })

-- Also `online_cleanup`, which has the same body.
pub member_revert_book : ℕ → OcCommitteeMachineList → OcCommitteeMachineList
member_revert_book id l = record l {
  booked_machine = rm_item l.booked_machine id;
  hashed_machine = rm_item l.hashed_machine id;
  confirmed_machine = rm_item l.confirmed_machine id;
}

pub record StashMachine : Type 0 where
  pub total_machine : List ℕ
  pub online_machine : List ℕ
  pub total_calc_points : ℕ
  pub total_gpu_num : ℕ
  pub total_rented_gpu : ℕ
  pub total_earned_reward : ℕ
  pub total_claimed_reward : ℕ
  pub can_claim_reward : ℕ
  pub total_rent_fee : ℕ
  pub total_burn_fee : ℕ

-- Also `bond_machine`, which has the same body.
pub new_bonding : ℕ → StashMachine → StashMachine
new_bonding id s = record s { total_machine = add_item s.total_machine id }

-- Also `change_rent_fee`, with its arguments in the other order.
pub update_rent_fee : ℕ → ℕ → StashMachine → StashMachine
update_rent_fee rent_fee burn_fee s = record s {
  total_rent_fee = saturating_add u128_max s.total_rent_fee rent_fee;
  total_burn_fee = saturating_add u128_max s.total_burn_fee burn_fee;
}

pub stash_claim_reward : StashMachine → Option (ℕ × StashMachine)
stash_claim_reward s = elim (checked_add u128_max s.total_claimed_reward s.can_claim_reward) [
  | none ↦ none
  | some total ↦
      some (s.can_claim_reward, record s { can_claim_reward = 0; total_claimed_reward = total })
]

pub stash_refuse_machine : ℕ → StashMachine → StashMachine
stash_refuse_machine id s = record s { total_machine = rm_item s.total_machine id }

pub machine_online : ℕ → ℕ → ℕ → StashMachine → StashMachine
machine_online id gpu_num calc_point s = record s {
  online_machine = add_item s.online_machine id;
  total_gpu_num = saturating_add u64_max s.total_gpu_num gpu_num;
  total_calc_points = saturating_add u64_max s.total_calc_points calc_point;
}

pub machine_exit : ℕ → ℕ → ℕ → ℕ → StashMachine → StashMachine
machine_exit id calc_point gpu_count rented_gpu_count s = record s {
  total_machine = rm_item s.total_machine id;
  online_machine = rm_item s.online_machine id;
  total_calc_points = s.total_calc_points - calc_point;
  total_gpu_num = s.total_gpu_num - gpu_count;
  total_rented_gpu = s.total_rented_gpu - rented_gpu_count;
}

-- Every list of live machines is ordered.
pub record IsOrdered (l : LiveMachine) : Type 0 where
  pub bonding : IsSorted l.bonding_machine
  pub confirmed : IsSorted l.confirmed_machine
  pub booked : IsSorted l.booked_machine
  pub online : IsSorted l.online_machine
  pub fulfilling : IsSorted l.fulfilling_machine
  pub refused : IsSorted l.refused_machine
  pub rented : IsSorted l.rented_machine
  pub offline : IsSorted l.offline_machine
  pub refused_mut_hardware : IsSorted l.refused_mut_hardware_machine

-- Some list has the machine.
abbrev pub is_listed : ℕ → LiveMachine → Bool
is_listed a l =
    contains a l.bonding_machine
    || (contains a l.confirmed_machine
        || (contains a l.booked_machine
            || (contains a l.online_machine
                || (contains a l.fulfilling_machine
                    || (contains a l.refused_machine
                        || (contains a l.rented_machine
                            || (contains a l.offline_machine
                                || contains a l.refused_mut_hardware_machine)))))))

-- From ordered lists, `clean` takes a machine out of all of them, and every other machine stays where it is
-- listed.
pub clean_lem :
    (id a : ℕ) (l : LiveMachine)
    → IsOrdered l
    → is_listed a (clean id l) ≡ (not (a == id) && is_listed a l)
unfolding clean
clean_lem id a l v = ground (
  arith,
  contains-rm_item l.bonding_machine id a v.bonding,
  contains-rm_item l.confirmed_machine id a v.confirmed,
  contains-rm_item l.booked_machine id a v.booked,
  contains-rm_item l.online_machine id a v.online,
  contains-rm_item l.fulfilling_machine id a v.fulfilling,
  contains-rm_item l.refused_machine id a v.refused,
  contains-rm_item l.rented_machine id a v.rented,
  contains-rm_item l.offline_machine id a v.offline,
  contains-rm_item l.refused_mut_hardware_machine id a v.refused_mut_hardware,
)

-- With the total of a stash below the largest number, what a machine adds when it comes online is what its
-- exit takes away: the stash is as before, and its ordered lists hold the machine no more.
pub machine_exit-online :
    (id gpu_num calc_point : ℕ) (s : StashMachine) (a : ℕ)
    → IsSorted s.online_machine
    → contains id s.online_machine ≡ false
    → s.total_gpu_num + gpu_num ≤ u64_max
    → s.total_calc_points + calc_point ≤ u64_max
    → let t = machine_exit id calc_point gpu_num 0 (machine_online id gpu_num calc_point s) in
      (t.total_gpu_num ≡ s.total_gpu_num)
      × (t.total_calc_points ≡ s.total_calc_points)
      × (contains a t.online_machine ≡ contains a s.online_machine)
unfolding machine_exit machine_online
machine_exit-online id gpu_num calc_point s a sorted fresh gpus points = (
  ground (arith, gpus),
  ground (arith, points),
  ground (
    arith,
    fresh,
    contains-rm_item (add_item s.online_machine id) id a
        (add_item-IsSorted s.online_machine id sorted),
    contains-add_item s.online_machine id a,
  ),
)

-- What a hash and an upload do to the member's list of hashed machines.
pub member_submit_hash-hashed :
    (id a : ℕ) (l : OcCommitteeMachineList)
    → IsSorted l.hashed_machine
    → IsSorted (member_submit_hash id l).hashed_machine
      × (contains a (member_submit_hash id l).hashed_machine
          ≡ (a == id || contains a l.hashed_machine))
unfolding member_submit_hash
member_submit_hash-hashed id a l sorted =
    (add_item-IsSorted l.hashed_machine id sorted, contains-add_item l.hashed_machine id a)

pub member_submit_raw-hashed :
    (id a : ℕ) (l : OcCommitteeMachineList)
    → IsSorted l.hashed_machine
    → Returns
        (λ k.
          IsSorted k.hashed_machine
          × (contains a k.hashed_machine ≡ (not (a == id) && contains a l.hashed_machine)))
        (member_submit_raw id l)
unfolding member_submit_raw
member_submit_raw-hashed id a l sorted =
    elim (Bool-cases (is_found (binary_search l.hashed_machine id))) [
      | inr e ↦ rw e tt
      | inl e ↦ elim (Bool-cases (is_found (binary_search l.confirmed_machine id))) [
        | inl f ↦ rw (e, f) tt
        | inr f ↦
            rw (e, f)
              (
                rm_item-IsSorted l.hashed_machine id sorted,
                contains-rm_item l.hashed_machine id a sorted,
              )
      ]
    ]

-- Without a hash for the machine, the member's upload is refused.
pub member_submit_raw-refused :
    (id : ℕ) (l : OcCommitteeMachineList)
    → IsSorted l.hashed_machine
    → contains id l.hashed_machine ≡ false
    → member_submit_raw id l ≡ err not_submit_hash
unfolding member_submit_raw
member_submit_raw-refused id l sorted without =
    let e : is_found (binary_search l.hashed_machine id) ≡ false =
      binary_search_lem l.hashed_machine id sorted ∙ without in
    rw (e, member_submit_raw) refl
