-- ===== src/OnlineCommittee/Summaries.antt =====
-- pallets/online-committee/src/lib.rs: how a machine is given to members of the committee, and what follows
-- from the summary of their votes.
use deep_brain_chain.Prelude.{
  ℕ, u32_add, zero, suc, ◌+◌, ◌-◌, ◌*◌, ◌/◌, ◌≡◌, refl, arith, Bool, true, false, not, ◌&&◌, ◌||◌,
  Option, none, some, List, [], ◌∷◌, length, u64_max, insert, update, update₂, ltb, leb, ◌==◌,
  if◌then◌else◌,
}
use deep_brain_chain.Support.ItemList.{add_item}
use deep_brain_chain.Support.Online.{
  CommitteeUploadInfo, OcMachineCommitteeList, Summary, VerifyResult, confirmed, refused,
  no_consensus, submitting_hash, submitting_raw, submit_raw_start, one_hour, can_submit_raw,
  can_summary, summary_confirmation, after_summary, should_slash_committee, no_support,
}
use deep_brain_chain.Support.Machines.{member_revert_book}
use deep_brain_chain.OnlineCommittee
use deep_brain_chain.OnlineCommittee.Booking.{default_members, distribute_machines}
use deep_brain_chain.OnlineCommittee.Slash.{free_members}
use deep_brain_chain.OnlineCommittee.{
  Outside, State, OcCommitteeOps, OcMachineStatus, booked, OcPendingSlashInfo, pending,
  OcBookResultType, online_succeed, online_refused, machine_distributed,
}
pub mod Total

abbrev two_days : ℕ
two_days = 2 * (24 * one_hour)

pub into_book_result : VerifyResult → OcBookResultType
into_book_result confirmed = online_succeed
into_book_result refused = online_refused
into_book_result no_consensus = OnlineCommittee.no_consensus

abbrev pub default_ops : OcCommitteeOps
default_ops = record {
  staked_dbc = 0;
  verify_time = [];
  confirm_hash = 0;
  hash_time = 0;
  confirm_time = 0;
  machine_status = booked;
  machine_info = no_support;
}

-- The slash that follows a summary.
pub slash_of_summary : ℕ → ℕ → Option ℕ → ℕ → Summary → ℕ → OcPendingSlashInfo
slash_of_summary now machine_id machine_stash amount summary stake = record {
  machine_id = machine_id;
  machine_stash = machine_stash;
  stash_slash_amount = amount;
  inconsistent_committee = summary.invalid_vote;
  unruly_committee = summary.unruly;
  reward_committee = summary.valid_vote;
  committee_stake = stake;
  slash_time = now;
  slash_exec_time = u32_add now two_days;
  book_result = into_book_result summary.verify_result;
  slash_result = pending;
}

module _ {O : Type 0} (out : Outside O) where
  pub get_new_slash_id : State O → ℕ × State O
  get_new_slash_id s =
      let id = s.next_slash_id in
      (id, record s { next_slash_id = if id == u64_max then 0 else id + 1 })

  pub add_summary_slash : ℕ → Option ℕ → ℕ → Summary → ℕ → ℕ → State O → State O
  add_summary_slash machine_id machine_stash amount summary stake now s =
      let (id, t) = get_new_slash_id s in
      record t {
        pending_slash =
            insert t.pending_slash id
              (slash_of_summary now machine_id machine_stash amount summary stake);
        unhandled_slash = add_item t.unhandled_slash id;
      }

  -- The loop over the booked members.
  pub revert_members : ℕ → List ℕ → State O → State O
  revert_members machine_id [] s = s
  revert_members machine_id (a ∷ members) s = revert_members machine_id members (record s {
    committee_ops = update₂ s.committee_ops a machine_id default_ops;
    committee_machine =
        update s.committee_machine a (member_revert_book machine_id (s.committee_machine a));
  })

  pub revert_book : ℕ → State O → State O
  revert_book machine_id s =
      let t = revert_members machine_id (s.machine_committee machine_id).booked_committee s in
      record t { machine_committee = update t.machine_committee machine_id default_members }

  pub clean_members : ℕ → List ℕ → State O → State O
  clean_members machine_id [] s = s
  clean_members machine_id (a ∷ members) s = clean_members machine_id members (record s {
    committee_ops = update₂ s.committee_ops a machine_id default_ops;
    machine_submited_hash = update s.machine_submited_hash machine_id [];
    committee_machine =
        update s.committee_machine a (member_revert_book machine_id (s.committee_machine a));
  })

  pub add_online : ℕ → List ℕ → State O → State O
  add_online machine_id [] s = s
  add_online machine_id (a ∷ valid) s =
      let machines = s.committee_machine a in
      add_online machine_id valid (record s {
        committee_machine =
            update s.committee_machine a
              (record machines { online_machine = add_item machines.online_machine machine_id });
      })

  -- The branches on the verdict: whether the summary goes on, and the state. A panic is none.
  pub settle_verdict : ℕ → Summary → ℕ → State O → Option (Bool × State O)
  settle_verdict machine_id summary stake s = elim summary.verify_result [
    | confirmed ↦ elim summary.info [
      | none ↦ none
      | some info ↦
          let done = out.confirm_machine summary.valid_vote info s.outside in
          let t = record s { outside = done.1 } in
          some (done.0, if done.0 then add_online machine_id summary.valid_vote t else t)
    ]
    | refused ↦ some (true, s)
    | no_consensus ↦
        let t = revert_book machine_id s in
        let done = out.revert_booked_machine machine_id t.outside in
        let freed = if done.0 then free_members out summary.invalid_vote stake done.1 else done.1 in
        some (done.0, record t { outside = freed })
  ]

  -- A slash if there is someone to slash, and the stake of the valid votes back at once if not.
  pub add_slash_or_free : ℕ → ℕ → Option (ℕ × ℕ) → Summary → ℕ → State O → State O
  add_slash_or_free now machine_id (some (stash, amount)) summary stake s =
      add_summary_slash machine_id (some stash) amount summary stake now s
  add_slash_or_free now machine_id none summary stake s =
      if should_slash_committee summary
      then add_summary_slash machine_id none 0 summary stake now s
      else record s { outside = free_members out summary.valid_vote stake s.outside }

  -- What follows the verdict; `bookers` are the members booked before it.
  pub conclude : ℕ → ℕ → List ℕ → Option (ℕ × ℕ) → Summary → ℕ → State O → State O
  conclude now machine_id bookers stash_slash summary stake s =
      let t = add_slash_or_free now machine_id stash_slash summary stake s in
      clean_members machine_id bookers (record t {
        machine_committee =
            update t.machine_committee machine_id
              (after_summary summary (t.machine_committee machine_id));
      })

  pub submitted_infos : ℕ → List ℕ → State O → List CommitteeUploadInfo
  submitted_infos machine_id [] s = []
  submitted_infos machine_id (a ∷ members) s =
      (s.committee_ops a machine_id).machine_info ∷ submitted_infos machine_id members s

  pub refuse : ℕ → Summary → State O → Option (ℕ × ℕ) × State O
  refuse machine_id summary s = elim summary.verify_result [
    | refused ↦
        let (slash, o) = out.refuse_machine summary.valid_vote machine_id s.outside in
        (slash, record s { outside = o })
    | _ ↦ (none, s)
  ]

  pub summary_raw : ℕ → ℕ → ℕ → State O → Option (State O)
  summary_raw machine_id now stake s =
      let members = s.machine_committee machine_id in
      let infos = submitted_infos machine_id members.confirmed_committee s in
      if can_submit_raw now members
      then some (record s {
        machine_committee =
            update s.machine_committee machine_id (record members { status = submitting_raw });
      })
      else if not (can_summary now members)
      then some s
      else elim (summary_confirmation members infos) [
        | none ↦ none
        | some summary ↦
            let (stash_slash, t) = refuse machine_id summary s in
            elim (settle_verdict machine_id summary stake t) [
              | none ↦ none
              | some (done, u) ↦ some (
                  if done
                  then conclude now machine_id members.booked_committee stash_slash summary stake u
                  else u)
            ]
      ]

  -- `ids` are the booked machines that online-profile lists.
  pub summarize_all : ℕ → ℕ → List ℕ → State O → Option (State O)
  summarize_all now stake [] s = some s
  summarize_all now stake (id ∷ ids) s = elim (summary_raw id now stake s) [
    | none ↦ none
    | some t ↦ summarize_all now stake ids t
  ]

  pub statistic_result : (O → List ℕ) → ℕ → State O → Option (State O)
  statistic_result booked_machine now s =
      let stake : ℕ = elim (out.stake_per_order s.outside) [ none ↦ 0 | some stake ↦ stake ] in
      summarize_all now stake (booked_machine s.outside) s

  pub on_finalize : (O → List ℕ) → (O → List ℕ) → ℕ → State O → Option (State O)
  on_finalize booked_machine confirmed_machine now s =
      elim (statistic_result booked_machine now s) [
        | none ↦ none
        | some t ↦ distribute_machines out confirmed_machine now t
      ]
