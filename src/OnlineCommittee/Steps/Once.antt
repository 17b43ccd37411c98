-- ===== src/OnlineCommittee/Steps/Once.antt =====
-- An upload in pallets/online-committee/src/lib.rs is the member's only one for the machine up to the end of
-- the block.
use deep_brain_chain.Prelude.{
  ℕ, ◌≡◌, ◌∙◌, ap, refl, arith, ==_refl, true, false, ◌==◌, ok, Returns, of_Returns, Result-cases,
  Bool-cases, inl, inr, contains, is_ok,
}
use deep_brain_chain.Frame.Origin.{signed}
use deep_brain_chain.Support.ItemList.{IsSorted}
use deep_brain_chain.Support.Online.{CommitteeUploadInfo, submit_raw}
use deep_brain_chain.Support.Machines.{
  member_submit_raw, member_submit_raw-hashed, member_submit_raw-refused,
}
use deep_brain_chain.Support.Online.Members.{submit_raw-hashed, submit_raw-booked}
use deep_brain_chain.OnlineCommittee.{Outside, State, submit_confirm_raw, ops_submit_raw}
use deep_brain_chain.OnlineCommittee.Booking.Staff.{AreStaffed}
use deep_brain_chain.OnlineCommittee.Steps.{Within}
use deep_brain_chain.OnlineCommittee.Steps.Total.{raw-AreStaffed}
use deep_brain_chain.OnlineCommittee.Steps.Spent.{IsSpent, Within-IsSpent}

module _ {O : Type 0} (out : Outside O) where
  -- What an accepted upload shows of the member and leaves.
  accepted :
      (who now : ℕ) (info : CommitteeUploadInfo) (s : State O)
      → AreStaffed s.machine_committee
      → IsSorted (s.committee_machine who).hashed_machine
      → Returns
          (λ t.
            ((out.hash info == (s.committee_ops who info.machine_id).confirm_hash) ≡ true)
            × ((t.committee_ops who info.machine_id).machine_info ≡ record info { rand_str = 0 })
            × IsSpent who info.machine_id t)
          (submit_confirm_raw out (signed who) now info s)
  unfolding submit_confirm_raw ops_submit_raw
  accepted who now info s fine sorted =
      let id = info.machine_id in
      let l = s.machine_committee id in
      elim (Bool-cases (out.hash info == (s.committee_ops who id).confirm_hash)) [
        | inr e ↦ rw e tt
        | inl e ↦ elim (Result-cases (member_submit_raw id (s.committee_machine who))) [
          | inl (x, g) ↦ rw (e, g) tt
          | inr (machines, g) ↦ elim (Result-cases (submit_raw now who l)) [
            | inl (x, f) ↦ rw (e, g, f) tt
            | inr (k, f) ↦
                let (so, c) =
                  of_Returns _ (member_submit_raw id (s.committee_machine who))
                    (member_submit_raw-hashed id id (s.committee_machine who) sorted) g in
                let same =
                  (of_Returns _ (submit_raw now who l) (submit_raw-booked now who l) f).1 in
                let has =
                  of_Returns _ (submit_raw now who l)
                    (submit_raw-hashed now who l (fine id).0.hashed) f in
                rw (e, g, f, ==_refl who, ==_refl id)
                  (
                    refl,
                    refl,
                    record {
                      ordered = rw (==_refl who) so;
                      used = rw (==_refl who) (c ∙ ground (arith, ==_refl id));
                      counted = rw (==_refl id) (ap (contains who) same ∙ has);
                    },
                  )
          ]
        ]
      ]

  refused :
      (who time : ℕ) (other : CommitteeUploadInfo) (s : State O)
      → IsSpent who other.machine_id s
      → is_ok (submit_confirm_raw out (signed who) time other s) ≡ false
  unfolding submit_confirm_raw
  refused who time other s v =
      let e =
        member_submit_raw-refused other.machine_id (s.committee_machine who) v.ordered v.used in
      ground (arith, e)

  -- An upload that is accepted has the hash that its member committed to, and is stored without its salt.
  -- From then up to the end of the block, after any calls of anyone, the member's own hashes included,
  -- the start of a block and any change in the other pallets, every further upload of the member for the
  -- machine is refused, whatever its content. Given orderly lists of at most three members for every
  -- machine, and that the member's list of hashed machines is in order.
  pub submit_confirm_raw-once :
      (who now : ℕ) (info : CommitteeUploadInfo) (s t u : State O)
      → AreStaffed s.machine_committee
      → IsSorted (s.committee_machine who).hashed_machine
      → submit_confirm_raw out (signed who) now info s ≡ ok t
      → Within out t u
      → ((out.hash info == (s.committee_ops who info.machine_id).confirm_hash) ≡ true)
        × ((t.committee_ops who info.machine_id).machine_info ≡ record info { rand_str = 0 })
        × ((time : ℕ) (other : CommitteeUploadInfo)
            → other.machine_id ≡ info.machine_id
            → is_ok (submit_confirm_raw out (signed who) time other u) ≡ false)
  submit_confirm_raw-once who now info s t u fine sorted e past =
      let (matches, stored, spent) =
        of_Returns _ (submit_confirm_raw out (signed who) now info s)
          (accepted who now info s fine sorted) e in
      let fine_t =
        of_Returns _ (submit_confirm_raw out (signed who) now info s)
          (raw-AreStaffed out (signed who) now info s fine) e in
      let later = (Within-IsSpent out who info.machine_id past fine_t spent).1 in
      (matches, stored, λ time other same. refused who time other u (rw same later))
