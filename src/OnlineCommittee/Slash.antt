-- ===== src/OnlineCommittee/Slash.antt =====
-- pallets/online-committee/src/slash.rs: how slashes and their reviews are executed, and how a slash is
-- canceled, in pallets/online-committee/src/lib.rs.
use deep_brain_chain.Prelude.{
  ℕ, ◌≡◌, Bool, true, false, not, ◌&&◌, ◌||◌, Option, none, some, List, [], ◌∷◌, ◌++◌, Result, ok,
  err, ◌>>=◌, ◌>>◌, guard, or_fail, insert, remove, is_some, ltb, ◌==◌, if◌then◌else◌,
}
use deep_brain_chain.Frame.Origin.{Origin}
use deep_brain_chain.Support.ItemList.{add_item, rm_item, expand_to_order}
use deep_brain_chain.Support.Online.{is_empty}
use deep_brain_chain.OnlineCommittee.{
  Outside, State, Error, bad_origin, unknown, get_stake_amount_failed, not_pending_review_slash,
  expired_apply, OcPendingSlashInfo, OcPendingSlashReviewInfo, OcBookResultType, executed, canceled,
  is_refused, and_then,
}
pub mod Members
pub mod Reviews

module _ {O : Type 0} (out : Outside O) where
  -- A member's stake for a slash or a release; an error ends the loop and keeps what was written.
  pub change_committee_stake : List ℕ → ℕ → Bool → O → Bool × O
  change_committee_stake [] amount is_slash o = (true, o)
  change_committee_stake (a ∷ rest) amount is_slash o =
      let total = if is_slash then out.change_total_stake a amount false false o else (true, o) in
      let used = out.change_used_stake a amount false total.1 in
      let others = change_committee_stake rest amount is_slash used.1 in
      if total.0 then (if used.0 then others else (false, used.1)) else (false, total.1)

  -- What a review that is not canceled costs its applicant.
  pub punish_applicant : OcPendingSlashReviewInfo → OcPendingSlashInfo → O → Bool × O
  punish_applicant review slash o =
      and_then
        (elim slash.machine_stash [
          | none ↦ change_committee_stake (review.applicant ∷ []) review.staked_amount true o
          | some stash ↦
              if is_refused slash.book_result && stash == review.applicant
              then and_then (out.exec_slash stash review.staked_amount o) (
                  out.slash_and_reward (stash ∷ []) slash.stash_slash_amount slash.reward_committee)
              else (true, o)
        ])
        (out.slash_and_reward (review.applicant ∷ []) review.staked_amount [])

  pub do_a_pending_review : ℕ → ℕ → State O → State O
  do_a_pending_review now id s = elim (s.pending_slash_review id) [
    | none ↦ s
    | some review ↦ elim (s.pending_slash id) [
      | none ↦ s
      | some slash ↦
          let done = punish_applicant review slash s.outside in
          if ltb review.expire_time now
          then s
          else if done.0
          then record s {
            outside = done.1;
            pending_slash_review = remove s.pending_slash_review id;
          }
          else record s { outside = done.1 }
    ]
  ]

  -- `ids` are the reviews in the order of storage.
  pub check_and_exec_pending_review : ℕ → List ℕ → State O → State O
  check_and_exec_pending_review now [] s = s
  check_and_exec_pending_review now (id ∷ ids) s =
      check_and_exec_pending_review now ids (do_a_pending_review now id s)

  -- The members of a slash that lose their stake, and those that get it back.
  pub slashed_and_released : OcPendingSlashInfo → List ℕ × List ℕ
  slashed_and_released info =
      if not (info.stash_slash_amount == 0)
      then (info.unruly_committee ++ info.inconsistent_committee, info.reward_committee)
      else if is_empty info.reward_committee
      then (info.unruly_committee, info.inconsistent_committee)
      else (info.unruly_committee ++ info.inconsistent_committee, info.reward_committee)

  -- The calls of a slash that is due.
  pub execute_slash : OcPendingSlashInfo → O → Bool × O
  execute_slash info o =
      let (slashed, released) = slashed_and_released info in
      let stash_done = if info.stash_slash_amount == 0 then (true, o) else elim info.machine_stash [
        | none ↦ (true, o)
        | some stash ↦
            and_then (out.exec_slash stash info.stash_slash_amount o)
              (out.slash_and_reward (stash ∷ []) info.stash_slash_amount info.reward_committee)
      ] in
      and_then stash_done (λ o₁.
        and_then (change_committee_stake slashed info.committee_stake true o₁) (λ o₂.
          and_then (change_committee_stake released info.committee_stake false o₂)
            (out.slash_and_reward slashed info.committee_stake [])))

  -- The list of unhandled slashes is written once, after the loop, and no other pallet writes it.
  pub do_a_slash : ℕ → ℕ → State O → State O
  do_a_slash now id s = elim (s.pending_slash id) [
    | none ↦ s
    | some info ↦
        let done = execute_slash info s.outside in
        if ltb now info.slash_exec_time
        then s
        else if done.0
        then record s {
          outside = done.1;
          unhandled_slash = rm_item s.unhandled_slash id;
          pending_slash = insert s.pending_slash id (record info { slash_result = executed });
        }
        else record s { outside = done.1 }
  ]

  pub do_slashes : ℕ → List ℕ → State O → State O
  do_slashes now [] s = s
  do_slashes now (id ∷ ids) s = do_slashes now ids (do_a_slash now id s)

  pub check_and_exec_pending_slash : ℕ → State O → State O
  check_and_exec_pending_slash now s = do_slashes now s.unhandled_slash s

  -- `keys` gives the reviews in the order of storage.
  pub on_initialize : (State O → List ℕ) → ℕ → State O → State O
  on_initialize keys now s =
      check_and_exec_pending_slash now (check_and_exec_pending_review now (keys s) s)

  -- `let _ =` before a call: its error is dropped and what it wrote stays.
  abbrev attempt : Bool × O → O
  attempt r = r.1

  pub is_slashed_stash : ℕ → OcPendingSlashInfo → Bool
  is_slashed_stash applicant info =
      is_refused info.book_result
      && (elim info.machine_stash [ none ↦ false | some stash ↦ stash == applicant ])

  pub slash_members : List ℕ → ℕ → O → O
  slash_members [] amount o = o
  slash_members (a ∷ rest) amount o =
      let o₁ = attempt (out.change_total_stake a amount false false o) in
      slash_members rest amount (attempt (out.change_used_stake a amount false o₁))

  pub free_members : List ℕ → ℕ → O → O
  free_members [] amount o = o
  free_members (a ∷ rest) amount o =
      free_members rest amount (attempt (out.change_used_stake a amount false o))

  -- The members that a canceled slash takes its amount from, and those that it gives it to.
  pub judged_again : OcPendingSlashInfo → List ℕ × List ℕ
  judged_again info = (
    expand_to_order info.reward_committee info.unruly_committee,
    if is_refused info.book_result
        then (elim info.machine_stash [
          | none ↦ info.inconsistent_committee
          | some stash ↦ add_item info.inconsistent_committee stash
        ])
        else info.inconsistent_committee,
  )

  -- What the applicant gets back of the stake for the review.
  pub return_review_stake : OcPendingSlashReviewInfo → OcPendingSlashInfo → ℕ → O → O
  return_review_stake review info stake o =
      if is_slashed_stash review.applicant info
      then attempt (out.change_staked_balance review.applicant stake false o)
      else let o₁ = out.unreserve review.applicant review.staked_amount o in
        let o₂ = attempt (out.change_total_stake review.applicant stake false true o₁) in
        attempt (out.change_used_stake review.applicant stake false o₂)

  pub return_stash_stake : OcPendingSlashReviewInfo → OcPendingSlashInfo → O → O
  return_stash_stake review info o =
      if is_slashed_stash review.applicant info
      then attempt (out.change_staked_balance review.applicant info.stash_slash_amount false o)
      else o

  pub do_cancel_slash : ℕ → ℕ → State O → Result Error (State O)
  do_cancel_slash now id s = do
    info ← or_fail (s.pending_slash id) unknown
    review ← or_fail (s.pending_slash_review id) unknown
    stake ← or_fail (out.stake_per_order s.outside) get_stake_amount_failed
    guard (ltb now review.expire_time) expired_apply
    let (should_slash, should_reward) = judged_again info
    let returned = return_review_stake review info stake s.outside
    let rewarded = attempt (out.slash_and_reward should_slash stake should_reward returned)
    let restored = return_stash_stake review info rewarded
    ok (record s {
      outside = free_members should_reward stake (slash_members should_slash stake restored);
      unhandled_slash = rm_item s.unhandled_slash id;
      pending_slash = insert s.pending_slash id (record info { slash_result = canceled });
      pending_slash_review = remove s.pending_slash_review id;
    })

  pub cancel_slash : Origin → ℕ → ℕ → State O → Result Error (State O)
  cancel_slash origin now id s = do
    guard (out.cancel_slash_origin origin) bad_origin
    guard (is_some (s.pending_slash_review id)) not_pending_review_slash
    do_cancel_slash now id s
