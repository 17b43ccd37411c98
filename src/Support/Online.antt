-- ===== src/Support/Online.antt =====
-- pallets/support/src/verify_online.rs: the committee that verifies a machine, its members' records, and the
-- summary of their votes in pallets/support/src/utils.rs.
use deep_brain_chain.Prelude.{
  ℕ, u32_add, zero, suc, ◌+◌, ◌≡◌, refl, ◌*◌, Bool, true, false, not, ◌&&◌, ◌||◌, Option, none,
  some, List, [], ◌∷◌, length, Result, ok, err, ◌>>=◌, ◌>>◌, guard, leb, ◌==◌, if◌then◌else◌,
}
use deep_brain_chain.Support.ItemList.{binary_search, is_found, add_item, rm_item, expand_to_order}
pub mod Members
pub mod Majority

abbrev pub one_hour : ℕ
one_hour = 600

abbrev pub submit_raw_start : ℕ
submit_raw_start = 36 * one_hour

abbrev pub submit_hash_end : ℕ
submit_hash_end = 36 * one_hour

abbrev pub submit_raw_end_after : ℕ
submit_raw_end_after = 48 * one_hour

pub data VerifyErr : Type 0 where
  not_in_book_list time_not_allow already_submit_hash already_submit_raw not_submit_hash : VerifyErr
  overflow : VerifyErr

pub data VerifyResult : Type 0 where
  confirmed refused no_consensus : VerifyResult

pub data OcVerifyStatus : Type 0 where
  submitting_hash submitting_raw summarizing finished : OcVerifyStatus

-- A byte string is a number here: the code only compares them.
pub record CommitteeUploadInfo : Type 0 where
  pub machine_id : ℕ
  pub gpu_type : ℕ
  pub gpu_num : ℕ
  pub cuda_core : ℕ
  pub gpu_mem : ℕ
  pub calc_point : ℕ
  pub sys_disk : ℕ
  pub data_disk : ℕ
  pub cpu_type : ℕ
  pub cpu_core_num : ℕ
  pub cpu_rate : ℕ
  pub mem_num : ℕ
  pub rand_str : ℕ
  pub is_support : Bool

pub record Summary : Type 0 where
  pub valid_vote : List ℕ
  pub invalid_vote : List ℕ
  pub unruly : List ℕ
  pub info : Option CommitteeUploadInfo
  pub verify_result : VerifyResult

pub record OcMachineCommitteeList : Type 0 where
  pub book_time : ℕ
  pub booked_committee : List ℕ
  pub hashed_committee : List ℕ
  pub confirm_start_time : ℕ
  pub confirmed_committee : List ℕ
  pub onlined_committee : List ℕ
  pub status : OcVerifyStatus

abbrev pub is_submitting_hash : OcVerifyStatus → Bool
is_submitting_hash submitting_hash = true
is_submitting_hash _ = false

abbrev pub is_submitting_raw : OcVerifyStatus → Bool
is_submitting_raw submitting_raw = true
is_submitting_raw _ = false

abbrev pub is_summarizing : OcVerifyStatus → Bool
is_summarizing summarizing = true
is_summarizing _ = false

abbrev pub is_empty : List ℕ → Bool
is_empty [] = true
is_empty (x ∷ xs) = false

pub should_slash_committee : Summary → Bool
should_slash_committee s =
    not (is_empty s.unruly)
    || (elim s.verify_result [ no_consensus ↦ false | _ ↦ not (is_empty s.invalid_vote) ])

pub submit_hash_ended : ℕ → OcMachineCommitteeList → Bool
submit_hash_ended now l = leb (u32_add l.book_time submit_hash_end) now

pub submit_raw_ended : ℕ → OcMachineCommitteeList → Bool
submit_raw_ended now l = leb (u32_add l.book_time submit_raw_end_after) now

-- The members' list, when a member submits a hash.
pub submit_hash : ℕ → OcMachineCommitteeList → Result VerifyErr OcMachineCommitteeList
submit_hash committee l = do
  guard (is_found (binary_search l.booked_committee committee)) not_in_book_list
  guard (not (is_found (binary_search l.hashed_committee committee))) already_submit_hash
  let hashed = add_item l.hashed_committee committee
  ok (record l {
    hashed_committee = hashed;
    status = if length l.booked_committee == length hashed then submitting_raw else l.status;
  })

pub can_submit_raw : ℕ → OcMachineCommitteeList → Bool
can_submit_raw now l = is_submitting_hash l.status && leb (u32_add l.book_time submit_raw_start) now

unfoldable pub submit_raw : ℕ → ℕ → OcMachineCommitteeList → Result VerifyErr OcMachineCommitteeList
submit_raw time committee l = do
  guard (is_submitting_raw l.status || leb l.confirm_start_time time) time_not_allow
  guard (is_submitting_raw l.status || leb time (u32_add l.book_time submit_raw_end_after))
      time_not_allow
  guard (is_found (binary_search l.hashed_committee committee)) not_submit_hash
  let submitted = add_item l.confirmed_committee committee
  ok (record l {
    confirmed_committee = submitted;
    status = if length submitted == length l.hashed_committee then summarizing else l.status;
  })

pub can_summary : ℕ → OcMachineCommitteeList → Bool
can_summary now l =
    is_summarizing l.status
    || (is_submitting_raw l.status && leb (u32_add l.book_time submit_raw_end_after) now)

-- The loop over the booked members.
pub unruly_of : List ℕ → List ℕ → List ℕ → List ℕ
unruly_of [] submitted unruly = unruly
unruly_of (a ∷ booked) submitted unruly =
    unruly_of booked submitted
      (if is_found (binary_search submitted a) then unruly else add_item unruly a)

pub summary_unruly : OcMachineCommitteeList → List ℕ
summary_unruly l = unruly_of l.booked_committee l.confirmed_committee []

pub after_summary : Summary → OcMachineCommitteeList → OcMachineCommitteeList
after_summary s l = elim s.verify_result [
  | confirmed ↦ record l { status = finished; onlined_committee = s.valid_vote }
  | no_consensus ↦ l
  | refused ↦ record l { status = finished }
]

abbrev is_same : Bool → Bool → Bool
is_same true b = b
is_same false b = not b

-- Equality of two uploads, as the derived one.
pub same : CommitteeUploadInfo → CommitteeUploadInfo → Bool
same a b =
    a.machine_id == b.machine_id
    && (a.gpu_type == b.gpu_type
        && (a.gpu_num == b.gpu_num
            && (a.cuda_core == b.cuda_core
                && (a.gpu_mem == b.gpu_mem
                    && (a.calc_point == b.calc_point
                        && (a.sys_disk == b.sys_disk
                            && (a.data_disk == b.data_disk
                                && (a.cpu_type == b.cpu_type
                                    && (a.cpu_core_num == b.cpu_core_num
                                        && (a.cpu_rate == b.cpu_rate
                                            && (a.mem_num == b.mem_num
                                                && (a.rand_str == b.rand_str
                                                    && is_same a.is_support b.is_support))))))))))))

-- An upload against the machine counts as that alone.
abbrev pub no_support : CommitteeUploadInfo
no_support = record {
  machine_id = 0;
  gpu_type = 0;
  gpu_num = 0;
  cuda_core = 0;
  gpu_mem = 0;
  calc_point = 0;
  sys_disk = 0;
  data_disk = 0;
  cpu_type = 0;
  cpu_core_num = 0;
  cpu_rate = 0;
  mem_num = 0;
  rand_str = 0;
  is_support = false;
}

pub stripped : List CommitteeUploadInfo → List CommitteeUploadInfo
stripped [] = []
stripped (info ∷ infos) = (if info.is_support then info else no_support) ∷ stripped infos

pub contains_info : CommitteeUploadInfo → List CommitteeUploadInfo → Bool
contains_info a [] = false
contains_info a (b ∷ infos) = same a b || contains_info a infos

-- The size of the set of the uploads.
pub uniq_len : List CommitteeUploadInfo → ℕ
uniq_len [] = 0
uniq_len (a ∷ infos) = if contains_info a infos then uniq_len infos else uniq_len infos + 1

-- The least upload is the greatest one: all are the same as the first.
pub all_same : CommitteeUploadInfo → List CommitteeUploadInfo → Bool
all_same a [] = true
all_same a (b ∷ infos) = same a b && all_same a infos

abbrev pub nth {ℓ} : {A : Type ℓ} → List A → ℕ → Option A
nth [] i = none
nth (x ∷ xs) zero = some x
nth (x ∷ xs) (suc i) = nth xs i

-- The members of the two same uploads out of three, and the third; none if there are fewer.
pub two_of_three : List ℕ → List CommitteeUploadInfo → Option (ℕ × ℕ × ℕ × CommitteeUploadInfo)
two_of_three (c₀ ∷ c₁ ∷ c₂ ∷ cs) (i₀ ∷ i₁ ∷ i₂ ∷ infos) =
    if same i₀ i₁
    then some (c₀, c₁, c₂, i₀)
    else if same i₀ i₂
    then some (c₀, c₂, c₁, i₀)
    else some (c₁, c₂, c₀, i₁)
two_of_three _ _ = none

-- The branches of the summary, on the stripped uploads. Where the code would panic there is none.
pub summarize : List ℕ → List ℕ → List CommitteeUploadInfo → Option Summary
summarize unruly [] infos = some (record {
  valid_vote = [];
  invalid_vote = [];
  unruly = unruly;
  info = none;
  verify_result = no_consensus;
})
summarize unruly (c ∷ cs) [] = none
summarize unruly (c ∷ cs) (i ∷ infos) =
    if all_same i infos
    then some (record {
      valid_vote = c ∷ cs;
      invalid_vote = [];
      unruly = unruly;
      info = if i.is_support then some i else none;
      verify_result = if i.is_support then confirmed else refused;
    })
    else if uniq_len (i ∷ infos) == length (i ∷ infos)
    then some (record {
      valid_vote = [];
      invalid_vote = c ∷ cs;
      unruly = unruly;
      info = none;
      verify_result = no_consensus;
    })
    else elim (two_of_three (c ∷ cs) (i ∷ infos)) [
      | none ↦ none
      | some (valid₁, valid₂, invalid, valid) ↦ some (record {
        valid_vote =
            if valid.is_support
            then valid₁ ∷ valid₂ ∷ []
            else expand_to_order [] (valid₁ ∷ valid₂ ∷ []);
        invalid_vote = invalid ∷ [];
        unruly = unruly;
        info = if valid.is_support then some valid else none;
        verify_result = if valid.is_support then confirmed else refused;
      })
    ]

pub summary_confirmation : OcMachineCommitteeList → List CommitteeUploadInfo → Option Summary
summary_confirmation l infos = summarize (summary_unruly l) l.confirmed_committee (stripped infos)
