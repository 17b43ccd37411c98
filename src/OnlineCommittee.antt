-- ===== src/OnlineCommittee.antt =====
-- pallets/online-committee/src: the members of a committee commit to what they found on a machine and reveal
-- it, and the slashes that follow are reviewed and executed.
use deep_brain_chain.Prelude.{
  ℕ, ◌+◌, ◌≡◌, Bool, true, false, not, ◌&&◌, ◌||◌, Option, none, some, List, [], ◌∷◌, ◌++◌, Result,
  ok, err, ◌>>=◌, ◌>>◌, guard, or_fail, insert, remove, update, update₂, is_some, leb, ltb, ◌==◌,
  if◌then◌else◌,
}
use deep_brain_chain.Frame.Origin.{Origin, ensure_signed}
use deep_brain_chain.Support.ItemList.{binary_search, is_found, add_item, rm_item}
use deep_brain_chain.Support.Online.{
  OcMachineCommitteeList, CommitteeUploadInfo, VerifyErr, not_in_book_list, time_not_allow,
  already_submit_hash, already_submit_raw, not_submit_hash, submit_hash, submit_raw, is_empty,
}
use deep_brain_chain.Support.Machines.{
  OcCommitteeMachineList, member_submit_hash, member_submit_raw,
}
pub mod Booking
pub mod Slash
pub mod Steps
pub mod Summaries
mod Tests

pub data OcMachineStatus : Type 0 where
  booked hashed confirmed : OcMachineStatus

pub data OcBookResultType : Type 0 where
  online_succeed online_refused no_consensus : OcBookResultType

pub data OcSlashResult : Type 0 where
  pending canceled executed : OcSlashResult

pub record OcCommitteeOps : Type 0 where
  pub staked_dbc : ℕ
  pub verify_time : List ℕ
  pub confirm_hash : ℕ
  pub hash_time : ℕ
  pub confirm_time : ℕ
  pub machine_status : OcMachineStatus
  pub machine_info : CommitteeUploadInfo

pub record OcPendingSlashInfo : Type 0 where
  pub machine_id : ℕ
  pub machine_stash : Option ℕ
  pub stash_slash_amount : ℕ
  pub inconsistent_committee : List ℕ
  pub unruly_committee : List ℕ
  pub reward_committee : List ℕ
  pub committee_stake : ℕ
  pub slash_time : ℕ
  pub slash_exec_time : ℕ
  pub book_result : OcBookResultType
  pub slash_result : OcSlashResult

pub record OcPendingSlashReviewInfo : Type 0 where
  pub applicant : ℕ
  pub staked_amount : ℕ
  pub apply_time : ℕ
  pub expire_time : ℕ
  pub reason : List ℕ

-- The operations of other pallets on their state: whether one succeeded, and the state after it, which a
-- block hook keeps in both cases.
pub record Outside (O : Type 0) : Type 0 where
  pub change_used_stake : ℕ → ℕ → Bool → O → Bool × O
  pub change_total_stake : ℕ → ℕ → Bool → Bool → O → Bool × O
  pub stake_per_order : O → Option ℕ
  pub controller_stash : ℕ → O → Option ℕ
  pub can_reserve : ℕ → ℕ → O → Bool
  pub change_staked_balance : ℕ → ℕ → Bool → O → Bool × O
  pub exec_slash : ℕ → ℕ → O → Bool × O
  pub slash_and_reward : List ℕ → ℕ → List ℕ → O → Bool × O
  pub unreserve : ℕ → ℕ → O → O
  pub confirm_machine : List ℕ → CommitteeUploadInfo → O → Bool × O
  pub refuse_machine : List ℕ → ℕ → O → Option (ℕ × ℕ) × O
  pub booked_machine : ℕ → O → Bool × O
  pub available_committee : O → Option (List ℕ)
  -- A number below the bound, by lot.
  pub random_u32 : ℕ → O → ℕ × O
  pub revert_booked_machine : ℕ → O → Bool × O
  pub cancel_slash_origin : Origin → Bool
  -- `CommitteeUploadInfo::hash`, by blake2.
  pub hash : CommitteeUploadInfo → ℕ

pub data Event : Type 0 where
  add_confirm_hash : (committee hash : ℕ) → Event
  add_confirm_raw : (committee machine_id : ℕ) → Event
  machine_distributed : (machine_id committee : ℕ) → Event

-- `of_verify` are the errors of `VerifyErr`, which the code turns into those of the same names.
pub data Error : Type 0 where
  bad_origin unknown get_stake_amount_failed already_applied not_slashed balance_not_enough : Error
  overflow info_not_feat_hash duplicate_hash not_all_hash_submited : Error
  not_pending_review_slash expired_apply : Error
  of_verify : VerifyErr → Error
  review_time_not_allow : Error

pub record State (O : Type 0) : Type 0 where
  pub committee_machine : ℕ → OcCommitteeMachineList
  pub machine_committee : ℕ → OcMachineCommitteeList
  pub machine_submited_hash : ℕ → List ℕ
  pub committee_ops : ℕ → ℕ → OcCommitteeOps
  pub next_slash_id : ℕ
  pub pending_slash : ℕ → Option OcPendingSlashInfo
  pub pending_slash_review : ℕ → Option OcPendingSlashReviewInfo
  pub unhandled_slash : List ℕ
  pub outside : O
  pub events : List Event

-- `map_err(Into::into)`
abbrev pub into_error : {A : Type 0} → Result VerifyErr A → Result Error A
into_error (ok a) = ok a
into_error (err e) = err (of_verify e)

pub ops_submit_hash : ℕ → ℕ → OcCommitteeOps → OcCommitteeOps
ops_submit_hash time hash ops = record ops {
  machine_status = hashed;
  confirm_hash = hash;
  hash_time = time;
}

pub ops_submit_raw : ℕ → CommitteeUploadInfo → OcCommitteeOps → OcCommitteeOps
ops_submit_raw time info ops = record ops {
  confirm_time = time;
  machine_status = confirmed;
  machine_info = record info { rand_str = 0 };
}

abbrev pub is_refused : OcBookResultType → Bool
is_refused online_refused = true
is_refused _ = false

pub applicant_is_stash : Option ℕ → OcPendingSlashInfo → Bool
applicant_is_stash stash info = elim info.machine_stash [
  | none ↦ false
  | some machine_stash ↦
      is_refused info.book_result && (elim stash [ none ↦ false | some s ↦ machine_stash == s ])
]

pub applicant_is_committee : ℕ → OcPendingSlashInfo → Bool
applicant_is_committee applicant info =
    is_found (binary_search info.inconsistent_committee applicant)

abbrev is_zero : ℕ → Bool
is_zero n = n == 0

-- `?` between two operations of other pallets.
abbrev pub and_then : {O : Type 0} → Bool × O → (O → Bool × O) → Bool × O
and_then (true, o) f = f o
and_then (false, o) f = (false, o)

module _ {O : Type 0} (out : Outside O) where
  pub submit_confirm_hash : Origin → ℕ → ℕ → ℕ → State O → Result Error (State O)
  submit_confirm_hash origin now machine_id hash s = do
    committee ← ensure_signed bad_origin origin
    let hashes = s.machine_submited_hash machine_id
    guard (not (is_found (binary_search hashes hash))) duplicate_hash
    members ← into_error (submit_hash committee (s.machine_committee machine_id))
    ok (record s {
      machine_submited_hash = update s.machine_submited_hash machine_id (add_item hashes hash);
      machine_committee = update s.machine_committee machine_id members;
      committee_machine =
          update s.committee_machine committee
            (member_submit_hash machine_id (s.committee_machine committee));
      committee_ops =
          update₂ s.committee_ops committee machine_id
            (ops_submit_hash now hash (s.committee_ops committee machine_id));
      events = add_confirm_hash committee hash ∷ s.events;
    })

  pub submit_confirm_raw : Origin → ℕ → CommitteeUploadInfo → State O → Result Error (State O)
  submit_confirm_raw origin now info s = do
    committee ← ensure_signed bad_origin origin
    let machine_id = info.machine_id
    let ops = s.committee_ops committee machine_id
    guard (out.hash info == ops.confirm_hash) info_not_feat_hash
    machines ← into_error (member_submit_raw machine_id (s.committee_machine committee))
    members ← into_error (submit_raw now committee (s.machine_committee machine_id))
    ok (record s {
      committee_machine = update s.committee_machine committee machines;
      machine_committee = update s.machine_committee machine_id members;
      committee_ops = update₂ s.committee_ops committee machine_id (ops_submit_raw now info ops);
      events = add_confirm_raw committee machine_id ∷ s.events;
    })

  pub apply_slash_review : Origin → ℕ → ℕ → List ℕ → State O → Result Error (State O)
  apply_slash_review origin now id reason s = do
    applicant ← ensure_signed bad_origin origin
    slash ← or_fail (s.pending_slash id) unknown
    stake_amount ← or_fail (out.stake_per_order s.outside) get_stake_amount_failed
    guard (not (is_some (s.pending_slash_review id))) already_applied
    guard (ltb now slash.slash_exec_time) review_time_not_allow
    stash ← or_fail (out.controller_stash applicant s.outside) unknown
    let is_slashed_stash = applicant_is_stash (some stash) slash
    let is_slashed_committee = applicant_is_committee applicant slash
    guard (is_slashed_stash || is_slashed_committee) not_slashed
    let slashed = if is_slashed_stash then stash else applicant
    guard (out.can_reserve slashed stake_amount s.outside) balance_not_enough
    let paid =
        if is_slashed_stash
        then out.change_staked_balance slashed stake_amount true s.outside
        else and_then (out.change_total_stake slashed stake_amount true true s.outside)
            (out.change_used_stake slashed stake_amount true)
    guard paid.0 (if is_slashed_stash then balance_not_enough else overflow)
    ok (record s {
      outside = paid.1;
      pending_slash_review = insert s.pending_slash_review id (record {
        applicant = slashed;
        staked_amount = stake_amount;
        apply_time = now;
        expire_time = slash.slash_exec_time;
        reason = reason;
      });
    })
