-- ===== src/OnlineCommittee/Tests.antt =====
-- Examples of the two phases of a verification, of its summaries, and of the reviews of slashes.
use deep_brain_chain.Prelude.{
  after, ok, not, ◌||◌, ℕ, suc, ◌-◌, ◌<◌, ◌≤◌, List, ◌≡◌, refl, arith, true, false, none, some, [],
  ◌∷◌, is_ok, ltb, ◌==◌, if◌then◌else◌,
}
use deep_brain_chain.Frame.Origin.{signed}
use deep_brain_chain.Support.ItemList.{IsSorted, binary_search, add_item, rm_item}
use deep_brain_chain.Support.Online.{submit_raw, CommitteeUploadInfo, submitting_raw, no_support}
use deep_brain_chain.Support.Machines.{member_submit_raw}
use deep_brain_chain.OnlineCommittee
use deep_brain_chain.OnlineCommittee.{
  Outside, State, submit_confirm_raw, OcPendingSlashInfo, OcPendingSlashReviewInfo, pending,
}
use deep_brain_chain.OnlineCommittee.Slash.{
  on_initialize, punish_applicant, check_and_exec_pending_review, check_and_exec_pending_slash,
}
use deep_brain_chain.OnlineCommittee.Slash.Reviews.{reviewed, on_initialize_review_lem}
use deep_brain_chain.OnlineCommittee.Booking.{VerifySequence, default_members, get_work_index}
use deep_brain_chain.OnlineCommittee.Booking.Draw.{IsFair, IsLot, get_work_index-IsLot}
use deep_brain_chain.OnlineCommittee.Booking.Staff.{AreStaffed, IsListed}
use deep_brain_chain.OnlineCommittee.Steps.{
  dispatch, raw, call, begin_block, start, step, here, next,
}
use deep_brain_chain.OnlineCommittee.Steps.Total.{Reach-Ends}
use deep_brain_chain.OnlineCommittee.Steps.Once.{submit_confirm_raw-once}
use deep_brain_chain.OnlineCommittee.Summaries.{default_ops, on_finalize}

-- The other pallets agree to everything and count the amounts they were asked for.
abbrev others : Outside ℕ
others = record {
  change_used_stake = λ who amount is_add o. (true, o);
  change_total_stake = λ who amount is_add change_reserve o. (true, o);
  stake_per_order = λ o. some 10;
  controller_stash = λ who o. some who;
  can_reserve = λ who amount o. true;
  change_staked_balance = λ who amount is_add o. (true, o);
  exec_slash = λ who amount o. (true, o);
  slash_and_reward = λ who amount rewarded o. (true, o);
  unreserve = λ who amount o. o;
  confirm_machine = λ valid info o. (true, o);
  refuse_machine = λ valid id o. (some (id, 100), o);
  booked_machine = λ id o. (true, o);
  available_committee = λ o. some (1 ∷ 2 ∷ 3 ∷ 5 ∷ []);
  random_u32 = λ bound o. (bound - 1, suc o);
  revert_booked_machine = λ id o. (true, o);
  cancel_slash_origin = λ o. true;
  hash = λ info. info.machine_id;
}

abbrev upload : CommitteeUploadInfo
upload = record no_support { machine_id = 7; rand_str = 5; is_support = true }

-- The stash of a refused machine waits for its slash.
abbrev slash : OcPendingSlashInfo
slash = record {
  machine_id = 7;
  machine_stash = some 4;
  stash_slash_amount = 100;
  inconsistent_committee = 3 ∷ [];
  unruly_committee = [];
  reward_committee = 1 ∷ 2 ∷ [];
  committee_stake = 10;
  slash_time = 5;
  slash_exec_time = 28805;
  book_result = OnlineCommittee.online_refused;
  slash_result = pending;
}

abbrev review : OcPendingSlashReviewInfo
review = record {
  applicant = 4;
  staked_amount = 10;
  apply_time = 20;
  expire_time = 28805;
  reason = [];
}

-- A machine with two votes for it and one against it.
abbrev voted : State ℕ
voted = record {
  committee_machine = λ who. record {
    booked_machine = [];
    hashed_machine = 7 ∷ [];
    confirmed_machine = [];
    online_machine = [];
  };
  machine_committee = λ id. record default_members {
    booked_committee = 1 ∷ 2 ∷ 3 ∷ [];
    hashed_committee = 1 ∷ 2 ∷ 3 ∷ [];
    confirmed_committee = 1 ∷ 2 ∷ 3 ∷ [];
    status = submitting_raw;
  };
  machine_submited_hash = λ id. [];
  committee_ops = λ who id. record default_ops {
    confirm_hash = 7;
    machine_info = if who == 3 then no_support else upload;
  };
  next_slash_id = 1;
  pending_slash = λ id. some slash;
  pending_slash_review = λ id. some review;
  unhandled_slash = 0 ∷ [];
  outside = 0;
  events = [];
}

voted-AreStaffed : AreStaffed voted.machine_committee
voted-AreStaffed id =
    let sorted : IsSorted (1 ∷ 2 ∷ 3 ∷ []) =
      ((omega arith, (omega arith, tt)), ((omega arith, tt), (tt, tt))) in
    (
      record {
        booked = sorted;
        hashed = sorted;
        submitted = sorted;
        hashed_booked = λ a e. e;
        submitted_hashed = λ a e. e;
      },
      omega arith,
    )

-- Member 1 uploads, and the next block begins.
abbrev uploaded : State ℕ
uploaded = after voted (submit_confirm_raw others (signed 1) 22000 upload voted)

abbrev later : State ℕ
later = on_initialize others (λ s. []) 22001 uploaded

is_uploaded : submit_confirm_raw others (signed 1) 22000 upload voted ≡ ok uploaded
unfolding submit_confirm_raw submit_raw member_submit_raw binary_search add_item rm_item
is_uploaded = refl

submit_confirm_raw-once_example :
    ((7 == 7) ≡ true)
    × ((uploaded.committee_ops 1 7).machine_info ≡ record upload { rand_str = 0 })
    × ((time : ℕ) (other : CommitteeUploadInfo)
        → other.machine_id ≡ 7
        → is_ok (submit_confirm_raw others (signed 1) time other later) ≡ false)
submit_confirm_raw-once_example =
    submit_confirm_raw-once others 1 22000 upload voted uploaded later voted-AreStaffed (tt, tt)
      is_uploaded (step start (begin_block (λ s. []) 22001 refl))

-- The review of block 20 is executed by the hook of block 21.
on_initialize_review_lem_example :
    let u = check_and_exec_pending_review others 21 [] voted in
    (on_initialize others (λ s. 0 ∷ []) 21 voted
      ≡ check_and_exec_pending_slash others 21
          (check_and_exec_pending_review others 21 [] (reviewed others 21 0 review slash u)))
    × ((on_initialize others (λ s. 0 ∷ []) 21 voted).pending_slash_review 0 ≡ (
        if ltb 28805 21 || not (punish_applicant others review slash u.outside).0
        then some review
        else none))
on_initialize_review_lem_example =
    on_initialize_review_lem others (λ s. 0 ∷ []) 21 0 voted review slash [] [] refl refl refl refl
      refl

available-IsSorted : IsSorted (1 ∷ 2 ∷ 3 ∷ 5 ∷ [])
available-IsSorted = (
  (omega arith, (omega arith, (omega arith, tt))),
  ((omega arith, (omega arith, tt)), ((omega arith, tt), (tt, tt))),
)

others-IsFair : IsFair others
others-IsFair n o h = omega (arith, h)

others-IsListed : IsListed others
others-IsListed o c e = let same : c ≡ 1 ∷ 2 ∷ 3 ∷ 5 ∷ [] = cc in rw same available-IsSorted

is_call : dispatch others (signed 1) 22000 (raw upload) voted ≡ ok uploaded
unfolding dispatch
is_call = is_uploaded

-- At the end of block 30000 machines 7 and 8 are booked, and 9 waits for its members.
Reach-Ends_example :
    (u : State ℕ) × (on_finalize others (λ o. 7 ∷ 8 ∷ []) (λ o. 9 ∷ []) 30000 uploaded ≡ some u)
Reach-Ends_example =
    Reach-Ends others others-IsFair others-IsListed voted-AreStaffed
      (next here (call (signed 1) 22000 (raw upload) is_call)) (λ o. 7 ∷ 8 ∷ []) (λ o. 9 ∷ []) 30000

get_work_index-IsLot_example :
    (3 ≤ 4
      → (ws : List VerifySequence) × ((u : ℕ) × (get_work_index others 0 ≡ some (some ws, u))
          × IsLot 3 0 (1 ∷ 2 ∷ 3 ∷ 5 ∷ []) ws))
    × (4 < 3 → get_work_index others 0 ≡ some (none, 0))
get_work_index-IsLot_example =
    get_work_index-IsLot others 0 (1 ∷ 2 ∷ 3 ∷ 5 ∷ []) others-IsFair refl available-IsSorted
