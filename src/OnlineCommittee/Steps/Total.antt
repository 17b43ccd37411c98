-- ===== src/OnlineCommittee/Steps/Total.antt =====
-- No history of pallets/online-committee/src makes its block hook panic.
use deep_brain_chain.Prelude.{
  ℕ, ◌≡◌, arith, some, List, Returns, of_Returns, Returns-map, ◌==◌, Result-cases, Bool-cases, inl,
  inr,
}
use deep_brain_chain.Frame.Origin.{Origin, root, signed, unsigned}
use deep_brain_chain.Support.ItemList.{is_found, binary_search}
use deep_brain_chain.Support.Online.{CommitteeUploadInfo, submit_hash, submit_raw}
use deep_brain_chain.Support.Machines.{member_submit_raw}
use deep_brain_chain.Support.Online.Members.{
  submit_hash-IsOrderly, submit_raw-IsOrderly, submit_hash-booked, submit_raw-booked,
}
use deep_brain_chain.OnlineCommittee.{
  Outside, State, submit_confirm_hash, submit_confirm_raw, apply_slash_review,
}
use deep_brain_chain.OnlineCommittee.Slash.{cancel_slash, on_initialize}
use deep_brain_chain.OnlineCommittee.Slash.Members.{
  HasSameMembers, cancel_slash-members, on_initialize-members,
}
use deep_brain_chain.OnlineCommittee.Booking.Draw.{IsFair}
use deep_brain_chain.OnlineCommittee.Booking.Staff.{AreStaffed, update-AreStaffed, IsListed}
use deep_brain_chain.OnlineCommittee.Summaries.{on_finalize}
use deep_brain_chain.OnlineCommittee.Summaries.Total.{on_finalize-Ends}
use deep_brain_chain.OnlineCommittee.Steps.{
  Call, hash, raw, apply, cancel, dispatch, Step, call, begin_block, others, Reach, here, next,
  end_block,
}

module _ {O : Type 0} (out : Outside O) where
  pub apply-members :
      (o : Origin) (now id : ℕ) (reason : List ℕ) (s : State O)
      → Returns (λ t. HasSameMembers s t) (apply_slash_review out o now id reason s)
  unfolding apply_slash_review
  apply-members o now id reason s = ground arith

  same-AreStaffed :
      (s t : State O)
      → HasSameMembers s t
      → AreStaffed s.machine_committee
      → AreStaffed t.machine_committee
  same-AreStaffed s t (e, f) fine = rw e fine

  hash-AreStaffed :
      (o : Origin) (now id h : ℕ) (s : State O)
      → AreStaffed s.machine_committee
      → Returns (λ t. AreStaffed t.machine_committee) (submit_confirm_hash out o now id h s)
  unfolding submit_confirm_hash
  hash-AreStaffed root now id h s fine = tt
  hash-AreStaffed unsigned now id h s fine = tt
  hash-AreStaffed (signed who) now id h s fine =
      let l = s.machine_committee id in
      elim (Bool-cases (is_found (binary_search (s.machine_submited_hash id) h))) [
        | inl e ↦ rw e tt
        | inr e ↦ elim (Result-cases (submit_hash who l)) [
          | inl (x, f) ↦ rw (e, f) tt
          | inr (k, f) ↦
              let (v, opens) =
                of_Returns _ (submit_hash who l) (submit_hash-IsOrderly who l (fine id).0) f in
              let b = of_Returns _ (submit_hash who l) (submit_hash-booked who l) f in
              rw (e, f) (update-AreStaffed s.machine_committee id k fine (v, rw b ((fine id).1)))
        ]
      ]

  pub raw-AreStaffed :
      (o : Origin) (now : ℕ) (info : CommitteeUploadInfo) (s : State O)
      → AreStaffed s.machine_committee
      → Returns (λ t. AreStaffed t.machine_committee) (submit_confirm_raw out o now info s)
  unfolding submit_confirm_raw
  raw-AreStaffed root now info s fine = tt
  raw-AreStaffed unsigned now info s fine = tt
  raw-AreStaffed (signed who) now info s fine =
      let id = info.machine_id in
      let l = s.machine_committee id in
      elim (Bool-cases (out.hash info == (s.committee_ops who id).confirm_hash)) [
        | inr e ↦ rw e tt
        | inl e ↦ elim (Result-cases (member_submit_raw id (s.committee_machine who))) [
          | inl (x, g) ↦ rw (e, g) tt
          | inr (machines, g) ↦ elim (Result-cases (submit_raw now who l)) [
            | inl (x, f) ↦ rw (e, g, f) tt
            | inr (k, f) ↦
                let (v, starts) =
                  of_Returns _ (submit_raw now who l) (submit_raw-IsOrderly now who l (fine id).0)
                    f in
                let b = of_Returns _ (submit_raw now who l) (submit_raw-booked now who l) f in
                rw (e, g, f)
                  (update-AreStaffed s.machine_committee id k fine (v, rw (b.0) ((fine id).1)))
          ]
        ]
      ]

  dispatch-AreStaffed :
      (o : Origin) (now : ℕ) (c : Call) (s : State O)
      → AreStaffed s.machine_committee
      → Returns (λ t. AreStaffed t.machine_committee) (dispatch out o now c s)
  unfolding dispatch
  dispatch-AreStaffed o now (hash id h) s fine = hash-AreStaffed o now id h s fine
  dispatch-AreStaffed o now (raw info) s fine = raw-AreStaffed o now info s fine
  dispatch-AreStaffed o now (apply id reason) s fine =
      Returns-map (apply_slash_review out o now id reason s)
        (λ t same. same-AreStaffed s t same fine) (apply-members o now id reason s)
  dispatch-AreStaffed o now (cancel id) s fine =
      Returns-map (cancel_slash out o now id s) (λ t same. same-AreStaffed s t same fine)
        (cancel_slash-members out o now id s)

  pub Step-AreStaffed :
      (s t : State O)
      → Step out s t
      → AreStaffed s.machine_committee
      → AreStaffed t.machine_committee
  Step-AreStaffed s t (call o now c e) fine =
      of_Returns (λ u. AreStaffed u.machine_committee) _ (dispatch-AreStaffed o now c s fine) e
  Step-AreStaffed s t (begin_block keys now e) fine =
      rw e (
        same-AreStaffed s (on_initialize out keys now s) (on_initialize-members out keys now s)
          fine)
  Step-AreStaffed s t (others o e) fine = rw e fine

  pub Reach-AreStaffed :
      {s t : State O}
      → IsFair out
      → IsListed out
      → AreStaffed s.machine_committee
      → Reach out s t
      → AreStaffed t.machine_committee
  Reach-AreStaffed fair listed fine here = fine
  Reach-AreStaffed fair listed fine (next {t} {u} past step) =
      Step-AreStaffed t u step (Reach-AreStaffed fair listed fine past)
  Reach-AreStaffed fair listed fine
        (end_block {t} {u} booked_machine confirmed_machine now past e) =
      let (r, f, fine_r) =
        on_finalize-Ends out booked_machine confirmed_machine now t fair listed
          (Reach-AreStaffed fair listed fine past) in
      let same : u ≡ r = cc in rw same fine_r

  -- From a state where the lists of the members of every machine are orderly and at most three are booked,
  -- no history of calls, block hooks and changes in the other pallets leads to a
  -- state where the hook at the end of a block panics: its summaries and its distribution return a
  -- state, whatever the other pallets answer, given that the lot is below its bound and that committee
  -- lists the available members in order.
  pub Reach-Ends :
      {s t : State O}
      → IsFair out
      → IsListed out
      → AreStaffed s.machine_committee
      → Reach out s t
      → (booked_machine confirmed_machine : O → List ℕ) (now : ℕ)
      → (u : State O) × (on_finalize out booked_machine confirmed_machine now t ≡ some u)
  Reach-Ends {t = t} fair listed fine past booked_machine confirmed_machine now =
      let (u, e, fine_u) =
        on_finalize-Ends out booked_machine confirmed_machine now t fair listed
          (Reach-AreStaffed fair listed fine past) in
      (u, e)
