-- ===== src/OnlineCommittee/Steps/Spent.antt =====
-- A hash that was used for an upload in pallets/online-committee/src/lib.rs stays used up to the end of the
-- block.
use deep_brain_chain.Prelude.{
  ℕ, ◌≡◌, ◌∙◌, sym, ap, refl, arith, true, false, ◌==◌, Returns, of_Returns, Result-cases,
  Bool-cases, inl, inr, update, contains,
}
use deep_brain_chain.Frame.Origin.{Origin, root, signed, unsigned}
use deep_brain_chain.Support.ItemList.{IsSorted, is_found, binary_search}
use deep_brain_chain.Support.Online.{
  CommitteeUploadInfo, OcMachineCommitteeList, submit_hash, submit_raw,
}
use deep_brain_chain.Support.Machines.{
  OcCommitteeMachineList, member_submit_hash, member_submit_raw, member_submit_hash-hashed,
  member_submit_raw-hashed,
}
use deep_brain_chain.Support.Online.Members.{submit_hash-hashed, submit_raw-booked}
use deep_brain_chain.OnlineCommittee.{Outside, State, submit_confirm_hash, submit_confirm_raw}
use deep_brain_chain.OnlineCommittee.Slash.{on_initialize}
use deep_brain_chain.OnlineCommittee.Slash.Members.{
  HasSameMembers, cancel_slash-members, on_initialize-members,
}
use deep_brain_chain.OnlineCommittee.Booking.Staff.{AreStaffed}
use deep_brain_chain.OnlineCommittee.Steps.{
  hash, raw, apply, cancel, dispatch, Step, call, begin_block, others, Within, start, step,
}
use deep_brain_chain.OnlineCommittee.Steps.Total.{apply-members, Step-AreStaffed}

-- The member has used its hash for the machine, and may not submit another.
pub record IsSpent {O : Type 0} (who id : ℕ) (s : State O) : Type 0 where
  pub ordered : IsSorted (s.committee_machine who).hashed_machine
  pub used : contains id (s.committee_machine who).hashed_machine ≡ false
  pub counted : contains who (s.machine_committee id).hashed_committee ≡ true

apart_false : true ≡ false → ⊥
apart_false e = cc

module _ {O : Type 0} (out : Outside O) where
  same-IsSpent :
      (who id : ℕ) (s t : State O) → HasSameMembers s t → IsSpent who id s → IsSpent who id t
  same-IsSpent who id s t (e, f) v = record {
    ordered = rw f v.ordered;
    used = rw f v.used;
    counted = rw e v.counted;
  }

  -- Another list of the members of `m` and of the machines of `w` keeps the hash spent.
  update-IsSpent :
      (who id w m : ℕ) (s t : State O) (l : OcMachineCommitteeList)
      (machines : OcCommitteeMachineList)
      → t.machine_committee ≡ update s.machine_committee m l
      → t.committee_machine ≡ update s.committee_machine w machines
      → IsSpent who id s
      → ((id == m) ≡ true → contains who l.hashed_committee ≡ true)
      → ((who == w) ≡ true
          → IsSorted machines.hashed_machine × (contains id machines.hashed_machine ≡ false))
      → IsSpent who id t
  update-IsSpent who id w m s t l machines e f v kept spent = record {
    ordered =
        rw f (elim (Bool-cases (who == w)) [ inl g ↦ rw g (spent g).0 | inr g ↦ rw g v.ordered ]);
    used = rw f (elim (Bool-cases (who == w)) [ inl g ↦ rw g (spent g).1 | inr g ↦ rw g v.used ]);
    counted = rw e (elim (Bool-cases (id == m)) [ inl g ↦ rw g (kept g) | inr g ↦ rw g v.counted ]);
  }

  hash-IsSpent :
      (who id : ℕ) (o : Origin) (now m h : ℕ) (s : State O)
      → AreStaffed s.machine_committee
      → IsSorted (s.committee_machine who).hashed_machine
      → IsSpent who id s
      → Returns (λ t. IsSpent who id t) (submit_confirm_hash out o now m h s)
  unfolding submit_confirm_hash
  hash-IsSpent who id root now m h s fine sorted v = tt
  hash-IsSpent who id unsigned now m h s fine sorted v = tt
  hash-IsSpent who id (signed w) now m h s fine sorted v =
      let l = s.machine_committee m in
      elim (Bool-cases (is_found (binary_search (s.machine_submited_hash m) h))) [
        | inl e ↦ rw e tt
        | inr e ↦ elim (Result-cases (submit_hash w l)) [
          | inl (x, f) ↦ rw (e, f) tt
          | inr (k, f) ↦
              let (fresh, stays) =
                of_Returns _ (submit_hash w l) (submit_hash-hashed w who l (fine m).0.hashed) f in
              let here : (id == m) ≡ true → contains who l.hashed_committee ≡ true =
                λ g. (let p : m ≡ id = ground (arith, g) in rw p v.counted) in
              rw (e, f)
                (update-IsSpent who id w m s _ k (member_submit_hash m (s.committee_machine w)) refl
                  refl v (λ g. stays (here g))
                  (λ g.
                    let p : w ≡ who = ground (arith, g) in
                    let apart : (id == m) ≡ false = elim (Bool-cases (id == m)) [
                      | inl q ↦ absurd (apart_false (sym (here q) ∙ rw (← p) fresh))
                      | inr q ↦ q
                    ] in
                    let (so, c) =
                      member_submit_hash-hashed m id (s.committee_machine w) (rw p v.ordered) in
                    (so, c ∙ rw apart (rw p v.used))))
        ]
      ]

  raw-IsSpent :
      (who id : ℕ) (o : Origin) (now : ℕ) (info : CommitteeUploadInfo) (s : State O)
      → IsSpent who id s
      → Returns (λ t. IsSpent who id t) (submit_confirm_raw out o now info s)
  unfolding submit_confirm_raw
  raw-IsSpent who id root now info s v = tt
  raw-IsSpent who id unsigned now info s v = tt
  raw-IsSpent who id (signed w) now info s v =
      let m = info.machine_id in
      let l = s.machine_committee m in
      elim (Bool-cases (out.hash info == (s.committee_ops w m).confirm_hash)) [
        | inr e ↦ rw e tt
        | inl e ↦ elim (Result-cases (member_submit_raw m (s.committee_machine w))) [
          | inl (x, g) ↦ rw (e, g) tt
          | inr (machines, g) ↦ elim (Result-cases (submit_raw now w l)) [
            | inl (x, f) ↦ rw (e, g, f) tt
            | inr (k, f) ↦
                let same = (of_Returns _ (submit_raw now w l) (submit_raw-booked now w l) f).1 in
                rw (e, g, f)
                  (update-IsSpent who id w m s _ k machines refl refl v
                    (λ q.
                      let p : m ≡ id = ground (arith, q) in ap (contains who) same ∙ rw p v.counted)
                    (λ q.
                      let p : w ≡ who = ground (arith, q) in
                      let (so, c) =
                        of_Returns _ (member_submit_raw m (s.committee_machine w))
                          (member_submit_raw-hashed m id (s.committee_machine w) (rw p v.ordered))
                          g in
                      let old : contains id (s.committee_machine w).hashed_machine ≡ false =
                        rw p v.used in
                      (so, c ∙ ground (arith, old))))
          ]
        ]
      ]

  Step-IsSpent :
      (who id : ℕ) (s t : State O)
      → Step out s t
      → AreStaffed s.machine_committee
      → IsSpent who id s
      → IsSpent who id t
  unfolding dispatch
  Step-IsSpent who id s t (call o now (hash m h) e) fine v =
      of_Returns (λ u. IsSpent who id u) _ (hash-IsSpent who id o now m h s fine v.ordered v) e
  Step-IsSpent who id s t (call o now (raw info) e) fine v =
      of_Returns (λ u. IsSpent who id u) _ (raw-IsSpent who id o now info s v) e
  Step-IsSpent who id s t (call o now (apply slash_id reason) e) fine v =
      same-IsSpent who id s t
        (of_Returns (λ u. HasSameMembers s u) _ (apply-members out o now slash_id reason s) e) v
  Step-IsSpent who id s t (call o now (cancel slash_id) e) fine v =
      same-IsSpent who id s t
        (of_Returns (λ u. HasSameMembers s u) _ (cancel_slash-members out o now slash_id s) e) v
  Step-IsSpent who id s t (begin_block keys now e) fine v = rw e (
      same-IsSpent who id s (on_initialize out keys now s) (on_initialize-members out keys now s) v)
  Step-IsSpent who id s t (others o e) fine v =
      rw e (same-IsSpent who id s (record s { outside = o }) (refl, refl) v)

  pub Within-IsSpent :
      (who id : ℕ) {s t : State O}
      → Within out s t
      → AreStaffed s.machine_committee
      → IsSpent who id s
      → AreStaffed t.machine_committee × IsSpent who id t
  Within-IsSpent who id start fine v = (fine, v)
  Within-IsSpent who id (step {t} {u} past last) fine v =
      let (fine_t, v_t) = Within-IsSpent who id past fine v in
      (Step-AreStaffed out t u last fine_t, Step-IsSpent who id t u last fine_t v_t)
