-- ===== src/OnlineCommittee/Booking/Staff.antt =====
-- The distribution of machines in pallets/online-committee/src/lib.rs comes to an end without a panic, and
-- books at most three members for each.
use deep_brain_chain.Prelude.{
  ℕ, u32_add, ◌⊎◌, suc, ◌+◌, ◌≤◌, ◌<◌, ◌≡◌, refl, arith, true, Option, some, none, List, [], ◌∷◌,
  length, update, ltb, ◌==◌, Bool-cases, Option-cases, ==_refl, inl, inr,
}
use deep_brain_chain.Support.ItemList.{IsSorted}
use deep_brain_chain.Support.Online.{OcMachineCommitteeList, submit_raw_start}
use deep_brain_chain.Support.Online.Members.{IsStaffed, book-IsStaffed}
use deep_brain_chain.OnlineCommittee.{Outside, State}
use deep_brain_chain.OnlineCommittee.Booking.{
  VerifySequence, default_members, book_one, book_all, get_work_index, distribute_one,
  distribute_all, distribute_machines,
}
use deep_brain_chain.OnlineCommittee.Booking.Draw.{
  IsFair, get_work_index-IsLot, get_work_index-none,
}

-- For every machine, the lists of its members are orderly and at most three are booked.
abbrev pub AreStaffed : (ℕ → OcMachineCommitteeList) → Type 0
AreStaffed f = (id : ℕ) → IsStaffed 3 (f id)

pub update-AreStaffed :
    (f : ℕ → OcMachineCommitteeList) (k : ℕ) (l : OcMachineCommitteeList)
    → AreStaffed f
    → IsStaffed 3 l
    → AreStaffed (update f k l)
update-AreStaffed f k l fine here id = elim (Bool-cases (id == k)) [
  | inl e ↦ rw e here
  | inr e ↦ rw e (fine id)
]

pub default_members-IsStaffed : {n : ℕ} → IsStaffed n default_members
default_members-IsStaffed = (
  record {
    booked = tt;
    hashed = tt;
    submitted = tt;
    hashed_booked = λ a e. e;
    submitted_hashed = λ a e. e;
  },
  omega arith,
)

-- While a machine is given out, at most `n` members are booked for it.
HasRoom : ℕ → ℕ → (ℕ → OcMachineCommitteeList) → Type 0
HasRoom n k f = AreStaffed f × IsStaffed n (f k)

update-HasRoom :
    (n k : ℕ) (f : ℕ → OcMachineCommitteeList) (l : OcMachineCommitteeList)
    → AreStaffed f
    → n ≤ 3
    → IsStaffed n l
    → HasRoom n k (update f k l)
unfolding HasRoom
update-HasRoom n k f l fine le (v, few) =
    (update-AreStaffed f k l fine (v, omega (arith, le, few)), rw (==_refl k) (v, few))

HasRoom-AreStaffed : (n k : ℕ) (f : ℕ → OcMachineCommitteeList) → HasRoom n k f → AreStaffed f
unfolding HasRoom
HasRoom-AreStaffed n k f room = room.0

module _ {O : Type 0} (out : Outside O) where
  book_one-HasRoom :
      (n id start now who : ℕ) (index : List ℕ) (s : State O)
      → n < 3
      → HasRoom n id s.machine_committee
      → HasRoom (suc n) id (book_one out id start now who index s).1.machine_committee
  unfolding book_one HasRoom
  book_one-HasRoom n id start now who index s lt (fine, (v, le)) =
      let weaker : HasRoom (suc n) id s.machine_committee = (fine, (v, omega (arith, le))) in
      elim (Option-cases (out.stake_per_order s.outside)) [
        | inl e ↦ rw (e, book_one) weaker
        | inr (stake, e) ↦ elim (Bool-cases (out.change_used_stake who stake true s.outside).0) [
          | inr f ↦ rw (e, f, book_one) weaker
          | inl f ↦
              rw (e, f, book_one)
                (update-HasRoom (suc n) id s.machine_committee _ fine (omega (arith, lt))
                  (book-IsStaffed n who now start (s.machine_committee id) (v, le)))
        ]
      ]

  book_all-AreStaffed :
      (n id start now : ℕ) (ws : List VerifySequence) (s : State O)
      → n + length ws ≤ 3
      → HasRoom n id s.machine_committee
      → AreStaffed (book_all out id start now ws s).machine_committee
  unfolding book_all HasRoom
  book_all-AreStaffed n id start now [] s le room = room.0
  book_all-AreStaffed n id start now (w ∷ ws) s le room =
      book_all-AreStaffed (suc n) id start now ws (book_one out id start now w.who w.index s).1
        (omega (arith, le))
        (book_one-HasRoom n id start now w.who w.index s (omega (arith, le)) room)

  -- The available members that committee gives are in order.
  abbrev pub IsListed : Type 0
  IsListed = (o : O) (c : List ℕ) → out.available_committee o ≡ some c → IsSorted c

  -- A call that returns, and keeps the members of every machine staffed.
  abbrev pub Ends : Option (State O) → Type 0
  Ends r = (t : State O) × (r ≡ some t) × AreStaffed t.machine_committee

  -- The draw gives three members or none.
  get_work_index-cases :
      (o : O)
      → IsFair out
      → IsListed
      → ((u : O) × (get_work_index out o ≡ some (none, u)))
        ⊎ ((ws : List VerifySequence) × (u : O) × (get_work_index out o ≡ some (some ws, u))
            × (length ws ≡ 3))
  get_work_index-cases o fair listed = elim (Option-cases (out.available_committee o)) [
    | inl e ↦ inl (o, get_work_index-none out o e)
    | inr (c, e) ↦
        let lot = get_work_index-IsLot out o c fair e (listed o c e) in
        elim (Bool-cases (ltb (length c) 3)) [
          | inl few ↦ inl (o, lot.1 (ground (arith, few)))
          | inr enough ↦
              let (ws, (u, d, three)) = lot.0 (ground (arith, enough)) in
              inr (ws, u, d, three.count)
        ]
  ]

  distribute_one-Ends :
      (now id : ℕ) (s : State O)
      → IsFair out
      → IsListed
      → AreStaffed s.machine_committee
      → Ends (distribute_one out now id s)
  unfolding distribute_one
  distribute_one-Ends now id s fair listed fine =
      let t : State O = record s {
        machine_committee = update s.machine_committee id default_members;
      } in
      let room : HasRoom 0 id t.machine_committee =
        update-HasRoom 0 id s.machine_committee default_members fine (omega arith)
          default_members-IsStaffed in
      elim (get_work_index-cases s.outside fair listed) [
        | inl (u, e) ↦
            rw (e, distribute_one) (_, refl, HasRoom-AreStaffed 0 id t.machine_committee room)
        | inr (ws, u, e, three) ↦
            rw (e, distribute_one)
              (
                _,
                refl,
                book_all-AreStaffed 0 id (u32_add now submit_raw_start) now ws
                    (record t { outside = u }) (omega (arith, three)) room,
              )
      ]

  distribute_all-Ends :
      (now : ℕ) (ids : List ℕ) (s : State O)
      → IsFair out
      → IsListed
      → AreStaffed s.machine_committee
      → Ends (distribute_all out now ids s)
  unfolding distribute_all
  distribute_all-Ends now [] s fair listed fine = (s, refl, fine)
  distribute_all-Ends now (id ∷ ids) s fair listed fine =
      let (t, e, fine_t) = distribute_one-Ends now id s fair listed fine in
      rw (e, distribute_all) (distribute_all-Ends now ids t fair listed fine_t)

  pub distribute_machines-Ends :
      (confirmed_machine : O → List ℕ) (now : ℕ) (s : State O)
      → IsFair out
      → IsListed
      → AreStaffed s.machine_committee
      → Ends (distribute_machines out confirmed_machine now s)
  unfolding distribute_machines
  distribute_machines-Ends confirmed_machine now s fair listed fine =
      distribute_all-Ends now (confirmed_machine s.outside) s fair listed fine
