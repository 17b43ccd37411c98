-- ===== src/Support/Tests.antt =====
-- Runs of pallets/support/src, and its theorems at concrete states. Members are accounts 1, 2 and 3.
use deep_brain_chain.Prelude.{◌≡◌, refl, arith, [], ◌∷◌, some, true, false, Returns}
use deep_brain_chain.Support.Online.{
  OcMachineCommitteeList, CommitteeUploadInfo, no_support, submitting_hash, submit_hash, submit_raw,
  summary_unruly, summary_confirmation, stripped, is_submitting_raw, is_summarizing,
}
use deep_brain_chain.Support.Online.Majority.{majority, summary_confirmation-majority}
use deep_brain_chain.Support.Online.Members.{IsOrderly, submit_hash-IsOrderly, submit_raw-IsOrderly}
use deep_brain_chain.Support.Machines.{LiveMachine, IsOrdered}
use deep_brain_chain.Support.ItemList.{binary_search, add_item, rm_item}

add_runs : add_item (1 ∷ 4 ∷ []) 3 ≡ 1 ∷ 3 ∷ 4 ∷ []
unfolding add_item binary_search
add_runs = refl

rm_runs : rm_item (1 ∷ 3 ∷ 4 ∷ []) 3 ≡ 1 ∷ 4 ∷ []
unfolding rm_item binary_search
rm_runs = refl

-- Members 1, 2 and 3 are booked, 1 and 2 submitted a hash, and 1 an upload.
abbrev members : OcMachineCommitteeList
members = record {
  book_time = 10;
  booked_committee = 1 ∷ 2 ∷ 3 ∷ [];
  hashed_committee = 1 ∷ 2 ∷ [];
  confirm_start_time = 21610;
  confirmed_committee = 1 ∷ [];
  onlined_committee = [];
  status = submitting_hash;
}

members-IsOrderly : IsOrderly members
members-IsOrderly = record {
  booked = ((omega arith, (omega arith, tt)), ((omega arith, tt), (tt, tt)));
  hashed = ((omega arith, tt), (tt, tt));
  submitted = (tt, tt);
  hashed_booked = λ a m. ground (arith, m);
  submitted_hashed = λ a m. ground (arith, m);
}

submit_hash-IsOrderly_example :
    Returns
      (λ k.
        IsOrderly k
        × (is_submitting_raw k.status ≡ true
            → is_submitting_raw members.status ≡ false
            → k.hashed_committee ≡ k.booked_committee))
      (submit_hash 3 members)
submit_hash-IsOrderly_example = submit_hash-IsOrderly 3 members members-IsOrderly

submit_raw-IsOrderly_example :
    Returns
      (λ k.
        IsOrderly k
        × (is_summarizing k.status ≡ true
            → is_summarizing members.status ≡ false
            → k.confirmed_committee ≡ k.hashed_committee))
      (submit_raw 22000 2 members)
submit_raw-IsOrderly_example = submit_raw-IsOrderly 22000 2 members members-IsOrderly

-- Two of three agree.
abbrev upload : CommitteeUploadInfo
upload = record no_support { machine_id = 7; gpu_num = 4; is_support = true }

abbrev voted : OcMachineCommitteeList
voted = record members { hashed_committee = 1 ∷ 2 ∷ 3 ∷ []; confirmed_committee = 1 ∷ 2 ∷ 3 ∷ [] }

summary_confirmation-majority_example :
    summary_confirmation voted (upload ∷ no_support ∷ upload ∷ [])
    ≡ some (
        majority
          (summary_unruly voted)
          (1 ∷ 2 ∷ 3 ∷ [])
          (stripped (upload ∷ no_support ∷ upload ∷ [])))
summary_confirmation-majority_example =
    summary_confirmation-majority voted (upload ∷ no_support ∷ upload ∷ [])
      ((omega arith, (omega arith, tt)), ((omega arith, tt), (tt, tt))) refl (omega arith)

abbrev machines : LiveMachine
machines = record {
  bonding_machine = 7 ∷ [];
  confirmed_machine = [];
  booked_machine = 8 ∷ [];
  online_machine = 7 ∷ 9 ∷ [];
  fulfilling_machine = [];
  refused_machine = [];
  rented_machine = [];
  offline_machine = [];
  refused_mut_hardware_machine = [];
}

machines-IsOrdered : IsOrdered machines
machines-IsOrdered = record {
  bonding = (tt, tt);
  confirmed = tt;
  booked = (tt, tt);
  online = ((omega arith, tt), (tt, tt));
  fulfilling = tt;
  refused = tt;
  rented = tt;
  offline = tt;
  refused_mut_hardware = tt;
}
