-- ===== src/OnlineCommittee/Slash/Reviews.antt =====
-- When a review of a slash is executed, in pallets/online-committee/src/slash.rs.
use deep_brain_chain.Prelude.{
  ℕ, ◌≡◌, refl, arith, ==_refl, false, not, ◌||◌, ◌++◌, remove, some, none, List, [], ◌∷◌, ltb,
  ◌==◌, Bool-cases, inl, inr, if◌then◌else◌, ap, ◌∙◌, contains,
}
use deep_brain_chain.OnlineCommittee.{Outside, State, OcPendingSlashReviewInfo, OcPendingSlashInfo}
use deep_brain_chain.OnlineCommittee.Slash.{
  do_a_pending_review, check_and_exec_pending_review, punish_applicant, do_a_slash, do_slashes,
  check_and_exec_pending_slash, on_initialize,
}

module _ {O : Type 0} (out : Outside O) where
  do_a_slash-reviews :
      (now i : ℕ) (s : State O)
      → (do_a_slash out now i s).pending_slash_review ≡ s.pending_slash_review
  unfolding do_a_slash
  do_a_slash-reviews now i s = ground arith

  do_slashes-reviews :
      (now : ℕ) (ids : List ℕ) (s : State O)
      → (do_slashes out now ids s).pending_slash_review ≡ s.pending_slash_review
  unfolding do_slashes
  do_slashes-reviews now [] s = refl
  do_slashes-reviews now (i ∷ ids) s =
      do_slashes-reviews now ids (do_a_slash out now i s) ∙ do_a_slash-reviews now i s

  do_a_pending_review-slashes :
      (now i : ℕ) (s : State O) → (do_a_pending_review out now i s).pending_slash ≡ s.pending_slash
  unfolding do_a_pending_review
  do_a_pending_review-slashes now i s = ground arith

  do_a_pending_review-other :
      (now i id : ℕ) (s : State O)
      → (id == i) ≡ false
      → (do_a_pending_review out now i s).pending_slash_review id ≡ s.pending_slash_review id
  unfolding do_a_pending_review
  do_a_pending_review-other now i id s other = ground (arith, other)

  check-other :
      (now : ℕ) (ids : List ℕ) (id : ℕ) (s : State O)
      → contains id ids ≡ false
      → ((check_and_exec_pending_review out now ids s).pending_slash_review id
          ≡ s.pending_slash_review id)
        × ((check_and_exec_pending_review out now ids s).pending_slash ≡ s.pending_slash)
  unfolding check_and_exec_pending_review
  check-other now [] id s fresh = (refl, refl)
  check-other now (i ∷ ids) id s fresh =
      let rest = check-other now ids id (do_a_pending_review out now i s) (ground (arith, fresh)) in
      (
        rest.0 ∙ do_a_pending_review-other now i id s (ground (arith, fresh)),
        rest.1 ∙ do_a_pending_review-slashes now i s,
      )

  check-append :
      (now : ℕ) (ids others : List ℕ) (s : State O)
      → check_and_exec_pending_review out now (ids ++ others) s
        ≡ check_and_exec_pending_review out now others (check_and_exec_pending_review out now ids s)
  unfolding check_and_exec_pending_review
  check-append now [] others s = refl
  check-append now (i ∷ ids) others s =
      check-append now ids others (do_a_pending_review out now i s)

  -- The state after the review of a slash: before its deadline, the applicant is punished and the review
  -- is gone if that succeeded; after it, nothing is done.
  pub reviewed : ℕ → ℕ → OcPendingSlashReviewInfo → OcPendingSlashInfo → State O → State O
  reviewed now id r slash s =
      let (done, o) = punish_applicant out r slash s.outside in
      if ltb r.expire_time now then s else record s {
        outside = o;
        pending_slash_review =
            if done then remove s.pending_slash_review id else s.pending_slash_review;
      }

  reviewed-review :
      (now id : ℕ) (r : OcPendingSlashReviewInfo) (slash : OcPendingSlashInfo) (s : State O)
      → s.pending_slash_review id ≡ some r
      → (reviewed now id r slash s).pending_slash_review id ≡ (
          if ltb r.expire_time now || not (punish_applicant out r slash s.outside).0
          then some r
          else none)
  unfolding reviewed
  reviewed-review now id r slash s has = ground (arith, has, ==_refl id)

  do_a_pending_review-reviewed :
      (now id : ℕ) (s : State O) (r : OcPendingSlashReviewInfo) (slash : OcPendingSlashInfo)
      → s.pending_slash_review id ≡ some r
      → s.pending_slash id ≡ some slash
      → do_a_pending_review out now id s ≡ reviewed now id r slash s
  unfolding do_a_pending_review reviewed
  do_a_pending_review-reviewed now id s r slash has has_slash =
      elim (Bool-cases (ltb r.expire_time now)) [
        | inl late ↦ rw (has, has_slash, late, do_a_pending_review) refl
        | inr early ↦ elim (Bool-cases (punish_applicant out r slash s.outside).0) [
          | inl done ↦ rw (has, has_slash, early, done, do_a_pending_review) refl
          | inr stuck ↦ rw (has, has_slash, early, stuck, do_a_pending_review) refl
        ]
      ]

  on_initialize-reviews :
      (keys : State O → List ℕ) (now : ℕ) (s : State O)
      → (on_initialize out keys now s).pending_slash_review
        ≡ (check_and_exec_pending_review out now (keys s) s).pending_slash_review
  unfolding on_initialize check_and_exec_pending_slash
  on_initialize-reviews keys now s =
      let t = check_and_exec_pending_review out now (keys s) s in
      do_slashes-reviews now t.unhandled_slash t

  -- A pending review of a pending slash, listed once among the reviews of the hook. The hook first works
  -- through the reviews before it. Then, when the deadline has not passed, it executes the review: the
  -- applicant is punished, the outcome in the other pallets stays, and the review is removed if the
  -- punishment succeeded; when the deadline has passed, it does nothing. Then it works through the
  -- other reviews and the slashes, and at its end the review is still there exactly when the deadline
  -- has passed or the punishment failed.
  pub on_initialize_review_lem :
      (keys : State O → List ℕ) (now id : ℕ) (s : State O)
      → (r : OcPendingSlashReviewInfo) (slash : OcPendingSlashInfo) (before others : List ℕ)
      → keys s ≡ before ++ id ∷ others
      → contains id before ≡ false
      → contains id others ≡ false
      → s.pending_slash_review id ≡ some r
      → s.pending_slash id ≡ some slash
      → let u = check_and_exec_pending_review out now before s in
        (on_initialize out keys now s
          ≡ check_and_exec_pending_slash out now
              (check_and_exec_pending_review out now others (reviewed now id r slash u)))
        × ((on_initialize out keys now s).pending_slash_review id ≡ (
            if ltb r.expire_time now || not (punish_applicant out r slash u.outside).0
            then some r
            else none))
  unfolding on_initialize check_and_exec_pending_review
  on_initialize_review_lem keys now id s r slash before others listed once only has has_slash =
      let u = check_and_exec_pending_review out now before s in
      let same = check-other now before id s once in
      let has_u : u.pending_slash_review id ≡ some r = same.0 ∙ has in
      let slash_u : u.pending_slash id ≡ some slash = ap (λ f. f id) same.1 ∙ has_slash in
      let step = do_a_pending_review-reviewed now id u r slash has_u slash_u in
      let all : check_and_exec_pending_review out now (keys s) s
          ≡ check_and_exec_pending_review out now others (reviewed now id r slash u) =
        ap (λ ids. check_and_exec_pending_review out now ids s) listed
        ∙ check-append now before (id ∷ others) s
        ∙ ap (check_and_exec_pending_review out now others) step in
      (
        ap (check_and_exec_pending_slash out now) all,
        ap (λ f. f id) (on_initialize-reviews keys now s)
            ∙ ap (λ t. t.pending_slash_review id) all
            ∙ (check-other now others id (reviewed now id r slash u) only).0
            ∙ reviewed-review now id r slash u has_u,
      )
