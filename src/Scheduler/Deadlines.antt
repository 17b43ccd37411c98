-- ===== src/Scheduler/Deadlines.antt =====
-- The block hook of pallets/compute-pool-scheduler/src/lib.rs moves each task along its life.
use deep_brain_chain.Prelude.{
  ℕ, ◌≡◌, refl, some, arith, true, ◌==◌, Option-cases, Bool-cases, inl, inr, Each, Each-append_one,
  Each-map, List, [], ◌∷◌,
}
use deep_brain_chain.Scheduler.{
  Config, State, ComputeTask, finalize_verification, approve_all, fail_all, on_initialize,
  collect_pools, collect, is_unverified, is_expired, is_terminal,
}
use deep_brain_chain.Scheduler.Agreement.{with_result}
use deep_brain_chain.Scheduler.Lifecycle.{Life, still, Life-trans}
use deep_brain_chain.Scheduler.Refinement.{
  phase_at, IsWaiting, finalize-task, finalize-Life, mark_failed-Life,
}
use deep_brain_chain.Scheduler.Verdicts.{submitted_stage}

module _ {W L : Type 0} (cfg : Config W L) where
  pub fail_all-Life :
      (ids : List ℕ) (s : State W L) (j : ℕ) → Life (phase_at s j) (phase_at (fail_all cfg ids s) j)
  unfolding fail_all
  fail_all-Life [] s j = still
  fail_all-Life (id ∷ ids) s j =
      Life-trans (mark_failed-Life cfg id j true s) (fail_all-Life ids _ j)

  -- The proof of the task waits, or its task was approved.
  abbrev IsDue : State W L → ℕ → Type 0
  IsDue s id = (t : ComputeTask) → s.tasks id ≡ some t → IsWaiting cfg true t

  finalize-IsDue :
      (now id pool k : ℕ) (s : State W L) (t : ComputeTask)
      → s.tasks id ≡ some t
      → IsDue s k
      → IsDue (finalize_verification cfg now id pool true s).1 k
  finalize-IsDue now id pool k s t e due u f = elim (finalize-task cfg now id pool true s t e) [
    | inl h ↦ due u (rw h at f)
    | inr h ↦ elim (Bool-cases (k == id)) [
      | inl n ↦
          let same : with_result cfg true t ≡ u = ground (arith, f, h k, n) in
          rw (← same) (inr refl)
      | inr n ↦ due u (rw (h k, n) at f)
    ]
  ]

  pub approve_all-Life :
      (now : ℕ) (ids : List ℕ) (s : State W L) (j : ℕ)
      → Each (IsDue s) ids
      → Life (phase_at s j) (phase_at (approve_all cfg now ids s) j)
  unfolding approve_all
  approve_all-Life now [] s j due = still
  approve_all-Life now (id ∷ ids) s j due = elim (Option-cases (s.tasks id)) [
    | inl e ↦ rw (e, approve_all) (approve_all-Life now ids s j due.1)
    | inr (t, e) ↦
        let r = (finalize_verification cfg now id t.pool_id true s).1 in
        rw (e, approve_all)
          (Life-trans (finalize-Life cfg now id t.pool_id j true s t e (due.0 t e)) (
            approve_all-Life now ids r j (
              Each-map (IsDue s) (IsDue r) ids (λ k d. finalize-IsDue now id t.pool_id k s t e d)
                due.1)))
  ]

  unverified-IsDue :
      (now id : ℕ) (s : State W L) (t : ComputeTask)
      → s.tasks id ≡ some t
      → is_unverified cfg now id t s ≡ true
      → IsDue s id
  unfolding is_unverified
  unverified-IsDue now id s t e u v f =
      let same : t ≡ v = ground (arith, e, f) in
      rw (← same) (inl (submitted_stage t.status t.verification_result (ground (arith, u))))

  collect-IsDue :
      (now : ℕ) (ids : List ℕ) (s : State W L) (found : List ℕ × List ℕ)
      → Each (IsDue s) found.0
      → Each (IsDue s) (collect cfg now ids s found).0
  unfolding collect
  collect-IsDue now [] s found due = due
  collect-IsDue now (id ∷ ids) s found due = elim (Option-cases (s.tasks id)) [
    | inl e ↦ rw (e, collect) (collect-IsDue now ids s found due)
    | inr (t, e) ↦ elim (Bool-cases (is_terminal t.status)) [
      | inl h ↦ rw (e, h, collect) (collect-IsDue now ids s found due)
      | inr h ↦ elim (Bool-cases (is_unverified cfg now id t s)) [
        | inl u ↦
            rw (e, h, u, collect)
              (collect-IsDue now ids s _
                (Each-append_one (IsDue s) found.0 id due (unverified-IsDue now id s t e u)))
        | inr u ↦ elim (Bool-cases (is_expired cfg now t)) [
          | inl x ↦ rw (e, h, u, x, collect) (collect-IsDue now ids s _ due)
          | inr x ↦ rw (e, h, u, x, collect) (collect-IsDue now ids s _ due)
        ]
      ]
    ]
  ]

  collect_pools-IsDue :
      (now : ℕ) (keys : List ℕ) (s : State W L) (found : List ℕ × List ℕ)
      → Each (IsDue s) found.0
      → Each (IsDue s) (collect_pools cfg now keys s found).0
  unfolding collect_pools
  collect_pools-IsDue now [] s found due = due
  collect_pools-IsDue now (id ∷ keys) s found due =
      collect_pools-IsDue now keys s _ (collect-IsDue now (s.pool_tasks id) s found due)

  pub on_initialize-Life :
      (keys : List ℕ) (now : ℕ) (s : State W L) (j : ℕ)
      → Life (phase_at s j) (phase_at (on_initialize cfg keys now s) j)
  unfolding on_initialize
  on_initialize-Life keys now s j =
      let found = collect_pools cfg now keys s ([], []) in
      Life-trans (approve_all-Life now found.0 s j (collect_pools-IsDue now keys s ([], []) tt))
        (fail_all-Life found.1 (approve_all cfg now found.0 s) j)
