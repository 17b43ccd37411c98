-- ===== src/OnlineCommittee/Slash/Members.antt =====
-- The slashes and reviews of pallets/online-committee/src/slash.rs leave the verifications alone.
use deep_brain_chain.Prelude.{ℕ, ◌≡◌, refl, ◌∙◌, arith, List, [], ◌∷◌, Returns}
use deep_brain_chain.Frame.Origin.{Origin}
use deep_brain_chain.OnlineCommittee.{Outside, State}
use deep_brain_chain.OnlineCommittee.Slash.{
  do_a_pending_review, check_and_exec_pending_review, do_a_slash, do_slashes,
  check_and_exec_pending_slash, on_initialize, do_cancel_slash, cancel_slash,
}

-- The members of every machine and the machines of every member are the same.
abbrev pub HasSameMembers : {O : Type 0} → State O → State O → Type 0
HasSameMembers s t =
    (t.machine_committee ≡ s.machine_committee) × (t.committee_machine ≡ s.committee_machine)

pub chained :
    {O : Type 0} (s t u : State O) → HasSameMembers s t → HasSameMembers t u → HasSameMembers s u
chained s t u (a, b) (c, d) = (c ∙ a, d ∙ b)

module _ {O : Type 0} (out : Outside O) where
  do_a_pending_review-members :
      (now id : ℕ) (s : State O) → HasSameMembers s (do_a_pending_review out now id s)
  unfolding do_a_pending_review
  do_a_pending_review-members now id s = (ground arith, ground arith)

  check-members :
      (now : ℕ) (ids : List ℕ) (s : State O)
      → HasSameMembers s (check_and_exec_pending_review out now ids s)
  unfolding check_and_exec_pending_review
  check-members now [] s = (refl, refl)
  check-members now (id ∷ ids) s =
      let t = do_a_pending_review out now id s in
      chained s t (check_and_exec_pending_review out now ids t)
        (do_a_pending_review-members now id s) (check-members now ids t)

  do_a_slash-members : (now id : ℕ) (s : State O) → HasSameMembers s (do_a_slash out now id s)
  unfolding do_a_slash
  do_a_slash-members now id s = (ground arith, ground arith)

  do_slashes-members :
      (now : ℕ) (ids : List ℕ) (s : State O) → HasSameMembers s (do_slashes out now ids s)
  unfolding do_slashes
  do_slashes-members now [] s = (refl, refl)
  do_slashes-members now (id ∷ ids) s =
      let t = do_a_slash out now id s in
      chained s t (do_slashes out now ids t) (do_a_slash-members now id s)
        (do_slashes-members now ids t)

  pub on_initialize-members :
      (keys : State O → List ℕ) (now : ℕ) (s : State O)
      → HasSameMembers s (on_initialize out keys now s)
  unfolding on_initialize check_and_exec_pending_slash
  on_initialize-members keys now s =
      let t = check_and_exec_pending_review out now (keys s) s in
      chained s t (do_slashes out now t.unhandled_slash t) (check-members now (keys s) s)
        (do_slashes-members now t.unhandled_slash t)

  pub cancel_slash-members :
      (o : Origin) (now id : ℕ) (s : State O)
      → Returns (λ t. HasSameMembers s t) (cancel_slash out o now id s)
  unfolding cancel_slash do_cancel_slash
  cancel_slash-members o now id s = ground arith
