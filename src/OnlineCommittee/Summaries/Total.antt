-- ===== src/OnlineCommittee/Summaries/Total.antt =====
-- The summaries of pallets/online-committee/src/lib.rs come to an end without a panic.
use deep_brain_chain.Prelude.{
  ℕ, ◌≡◌, ◌⊎◌, refl, arith, Bool, true, false, Option, some, none, List, [], ◌∷◌, length,
  Bool-cases, inl, inr, if◌then◌else◌,
}
use deep_brain_chain.Support.Online.{
  CommitteeUploadInfo, Summary, summary_unruly, stripped, can_submit_raw, can_summary,
  summary_confirmation, after_summary, should_slash_committee, confirmed, refused, no_consensus,
  submitting_raw,
}
use deep_brain_chain.Support.Online.Members.{
  IsStaffed-length, after_summary-IsStaffed, same-IsStaffed,
}
use deep_brain_chain.Support.Online.Majority.{
  majority, majority-info, summary_confirmation-majority,
}
use deep_brain_chain.OnlineCommittee.{Outside, State}
use deep_brain_chain.OnlineCommittee.Booking.{default_members}
use deep_brain_chain.OnlineCommittee.Booking.Draw.{IsFair}
use deep_brain_chain.OnlineCommittee.Booking.Staff.{
  AreStaffed, Ends, IsListed, distribute_machines-Ends, update-AreStaffed,
  default_members-IsStaffed,
}
use deep_brain_chain.OnlineCommittee.Summaries.{
  revert_members, revert_book, clean_members, add_online, settle_verdict, conclude, submitted_infos,
  refuse, summary_raw, summarize_all, statistic_result, on_finalize, add_slash_or_free,
  add_summary_slash, get_new_slash_id,
}

module _ {O : Type 0} (out : Outside O) where
  revert_members-members :
      (id : ℕ) (members : List ℕ) (s : State O)
      → (revert_members out id members s).machine_committee ≡ s.machine_committee
  unfolding revert_members
  revert_members-members id [] s = refl
  revert_members-members id (a ∷ members) s = revert_members-members id members _

  clean_members-members :
      (id : ℕ) (members : List ℕ) (s : State O)
      → (clean_members out id members s).machine_committee ≡ s.machine_committee
  unfolding clean_members
  clean_members-members id [] s = refl
  clean_members-members id (a ∷ members) s = clean_members-members id members _

  add_online-members :
      (id : ℕ) (members : List ℕ) (s : State O)
      → (add_online out id members s).machine_committee ≡ s.machine_committee
  unfolding add_online
  add_online-members id [] s = refl
  add_online-members id (a ∷ members) s = add_online-members id members _

  submitted_infos-length :
      (id : ℕ) (members : List ℕ) (s : State O)
      → length members ≡ length (submitted_infos out id members s)
  unfolding submitted_infos
  submitted_infos-length id [] s = refl
  submitted_infos-length id (a ∷ members) s = ground (arith, submitted_infos-length id members s)

  revert_book-AreStaffed :
      (id : ℕ) (s : State O)
      → AreStaffed s.machine_committee
      → AreStaffed (revert_book out id s).machine_committee
  unfolding revert_book
  revert_book-AreStaffed id s fine =
      rw (revert_members-members id (s.machine_committee id).booked_committee s)
        (update-AreStaffed s.machine_committee id default_members fine default_members-IsStaffed)

  -- A result that is there, and its state.
  abbrev Settles : Option (Bool × State O) → Type 0
  Settles r = (done : Bool) × (t : State O) × (r ≡ some (done, t)) × AreStaffed t.machine_committee

  settle_verdict-Settles :
      (id stake : ℕ) (summary : Summary) (s : State O)
      → ((summary.verify_result ≡ confirmed)
          × ((i : CommitteeUploadInfo) × (summary.info ≡ some i)))
        ⊎ ((summary.verify_result ≡ refused) ⊎ (summary.verify_result ≡ no_consensus))
      → AreStaffed s.machine_committee
      → Settles (settle_verdict out id summary stake s)
  unfolding settle_verdict
  settle_verdict-Settles id stake summary s (inl (e, (i, f))) fine =
      elim (Bool-cases (out.confirm_machine summary.valid_vote i s.outside).0) [
        | inl g ↦ rw (e, f, g) (true, _, refl, rw (add_online-members id summary.valid_vote) fine)
        | inr g ↦ rw (e, f, g) (false, _, refl, fine)
      ]
  settle_verdict-Settles id stake summary s (inr (inl e)) fine = rw e (true, s, refl, fine)
  settle_verdict-Settles id stake summary s (inr (inr e)) fine =
      rw e (_, _, refl, revert_book-AreStaffed id s fine)

  add_slash_or_free-members :
      (now id : ℕ) (slash : Option (ℕ × ℕ)) (summary : Summary) (stake : ℕ) (s : State O)
      → (add_slash_or_free out now id slash summary stake s).machine_committee ≡ s.machine_committee
  unfolding add_slash_or_free add_summary_slash get_new_slash_id
  add_slash_or_free-members now id none summary stake s =
      elim (Bool-cases (should_slash_committee summary)) [ inl e ↦ rw e refl | inr e ↦ rw e refl ]
  add_slash_or_free-members now id (some slash) summary stake s = refl

  conclude-AreStaffed :
      (now id : ℕ) (bookers : List ℕ) (slash : Option (ℕ × ℕ)) (summary : Summary) (stake : ℕ)
      → (s : State O) → AreStaffed s.machine_committee
      → AreStaffed (conclude out now id bookers slash summary stake s).machine_committee
  unfolding conclude
  conclude-AreStaffed now id bookers slash summary stake s fine =
      rw (clean_members-members id bookers, add_slash_or_free-members now id slash summary stake s)
        (update-AreStaffed s.machine_committee id (after_summary summary (s.machine_committee id))
          fine (after_summary-IsStaffed 3 summary (s.machine_committee id) (fine id)))

  refuse-members :
      (id : ℕ) (summary : Summary) (s : State O)
      → (refuse out id summary s).1.machine_committee ≡ s.machine_committee
  unfolding refuse
  refuse-members id summary s = ground arith

  if-AreStaffed :
      (b : Bool) (t u : State O)
      → AreStaffed t.machine_committee
      → AreStaffed u.machine_committee
      → AreStaffed (if b then t else u).machine_committee
  if-AreStaffed true t u here there = here
  if-AreStaffed false t u here there = there

  summary_raw-Ends :
      (id now stake : ℕ) (s : State O)
      → AreStaffed s.machine_committee
      → Ends out (summary_raw out id now stake s)
  unfolding summary_raw
  summary_raw-Ends id now stake s fine =
      elim (Bool-cases (can_submit_raw now (s.machine_committee id))) [
        | inl e ↦ rw e (
          _,
          refl,
          update-AreStaffed s.machine_committee id
              (record (s.machine_committee id) { status = submitting_raw }) fine
              (same-IsStaffed 3 (s.machine_committee id) _ refl refl refl (fine id)),
        )
        | inr e ↦ elim (Bool-cases (can_summary now (s.machine_committee id))) [
          | inr f ↦ rw (e, f) (s, refl, fine)
          | inl f ↦
              let members = s.machine_committee id in
              let infos = submitted_infos out id members.confirmed_committee s in
              let summary =
                majority (summary_unruly members) members.confirmed_committee (stripped infos) in
              let counted : summary_confirmation members infos ≡ some summary =
                summary_confirmation-majority members infos (fine id).0.submitted
                  (submitted_infos-length id members.confirmed_committee s)
                  (IsStaffed-length 3 members (fine id)) in
              let t = (refuse out id summary s).1 in
              let (done, u, settled, fine_u) =
                settle_verdict-Settles id stake summary t
                  (majority-info (summary_unruly members) members.confirmed_committee
                    (stripped infos))
                  (rw (refuse-members id summary s) fine) in
              rw (e, f, counted, settled)
                (
                  _,
                  refl,
                  if-AreStaffed done _ u
                      (conclude-AreStaffed now id members.booked_committee
                        (refuse out id summary s).0 summary stake u fine_u)
                      fine_u,
                )
        ]
      ]

  summarize_all-Ends :
      (now stake : ℕ) (ids : List ℕ) (s : State O)
      → AreStaffed s.machine_committee
      → Ends out (summarize_all out now stake ids s)
  unfolding summarize_all
  summarize_all-Ends now stake [] s fine = (s, refl, fine)
  summarize_all-Ends now stake (id ∷ ids) s fine =
      let (t, e, fine_t) = summary_raw-Ends id now stake s fine in
      rw (e, summarize_all) (summarize_all-Ends now stake ids t fine_t)

  statistic_result-Ends :
      (booked_machine : O → List ℕ) (now : ℕ) (s : State O)
      → AreStaffed s.machine_committee
      → Ends out (statistic_result out booked_machine now s)
  unfolding statistic_result
  statistic_result-Ends booked_machine now s fine =
      summarize_all-Ends now _ (booked_machine s.outside) s fine

  pub on_finalize-Ends :
      (booked_machine confirmed_machine : O → List ℕ) (now : ℕ) (s : State O)
      → IsFair out
      → IsListed out
      → AreStaffed s.machine_committee
      → Ends out (on_finalize out booked_machine confirmed_machine now s)
  unfolding on_finalize
  on_finalize-Ends booked_machine confirmed_machine now s fair listed fine =
      let (t, e, fine_t) = statistic_result-Ends booked_machine now s fine in
      rw (e, on_finalize) (distribute_machines-Ends out confirmed_machine now t fair listed fine_t)
