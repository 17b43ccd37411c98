-- ===== src/OnlineCommittee/Booking.antt =====
-- pallets/online-committee/src/lib.rs: a machine is given to three members of the committee, drawn by lot.
use deep_brain_chain.Prelude.{
  ℕ, u32_add, zero, suc, ◌+◌, ◌*◌, ◌/◌, ◌≡◌, Bool, true, false, not, Option, none, some, List, [],
  ◌∷◌, length, update, update₂, ltb, ◌==◌, if◌then◌else◌, is_some, ◌&&◌,
}
use deep_brain_chain.Support.ItemList.{add_item, remove_at}
use deep_brain_chain.Support.Online.{OcMachineCommitteeList, submitting_hash, submit_raw_start, nth}
use deep_brain_chain.OnlineCommittee.{Outside, State, OcCommitteeOps, booked, machine_distributed}
pub mod Draw
pub mod Staff

abbrev pub default_members : OcMachineCommitteeList
default_members = record {
  book_time = 0;
  booked_committee = [];
  hashed_committee = [];
  confirm_start_time = 0;
  confirmed_committee = [];
  onlined_committee = [];
  status = submitting_hash;
}

-- When one member may use the machine, for the slots of its `index`, of nine in 36 hours.
abbrev pub start_times : ℕ → List ℕ → List ℕ
start_times now [] = []
start_times now (x ∷ index) = u32_add now (x * submit_raw_start / 9) ∷ start_times now index

pub record VerifySequence : Type 0 where
  pub who : ℕ
  pub index : List ℕ

-- `(i..9).step_by(3)` for `i` below 3.
abbrev pub slots : ℕ → List ℕ
slots i = i ∷ (i + 3) ∷ (i + 6) ∷ []

module _ {O : Type 0} (out : Outside O) where
  -- An error leaves nothing but what the other pallet wrote.
  pub book_one : ℕ → ℕ → ℕ → ℕ → List ℕ → State O → Bool × State O
  book_one machine_id confirm_start now who index s = elim (out.stake_per_order s.outside) [
    | none ↦ (false, s)
    | some stake ↦
        let used = out.change_used_stake who stake true s.outside in
        let members = s.machine_committee machine_id in
        let machines = s.committee_machine who in
        if not used.0 then (false, record s { outside = used.1 }) else (
          true,
          record s {
            outside = used.1;
            machine_committee = update s.machine_committee machine_id (record members {
              booked_committee = add_item members.booked_committee who;
              book_time = now;
              confirm_start_time = confirm_start;
            });
            committee_machine =
                update s.committee_machine who (record machines {
                  booked_machine = add_item machines.booked_machine machine_id;
                });
            committee_ops =
                update₂ s.committee_ops who machine_id (record (s.committee_ops who machine_id) {
                  staked_dbc = stake;
                  verify_time = start_times now index;
                  machine_status = booked;
                });
            events = machine_distributed machine_id who ∷ s.events;
          },
        )
  ]

  -- The loop that draws `k` members for the slots from `i`. An index out of range, where the code panics,
  -- is none.
  pub draw : ℕ → ℕ → List ℕ → O → Option (List VerifySequence × O)
  draw zero i committee o = some ([], o)
  draw (suc k) i committee o =
      let (lucky_index, o₁) = out.random_u32 (length committee) o in
      elim (nth committee lucky_index) [
        | none ↦ none
        | some who ↦ elim (draw k (suc i) (remove_at committee lucky_index) o₁) [
          | none ↦ none
          | some (rest, o₂) ↦ some (record { who = who; index = slots i } ∷ rest, o₂)
        ]
      ]

  pub get_work_index : O → Option (Option (List VerifySequence) × O)
  get_work_index o = elim (out.available_committee o) [
    | none ↦ some (none, o)
    | some committee ↦
        if ltb (length committee) 3 then some (none, o) else elim (draw 3 0 committee o) [
          | none ↦ none
          | some (sequence, o₁) ↦ some (some sequence, o₁)
        ]
  ]

  pub book_all : ℕ → ℕ → ℕ → List VerifySequence → State O → State O
  book_all machine_id confirm_start now [] s = s
  book_all machine_id confirm_start now (w ∷ ws) s =
      book_all machine_id confirm_start now ws
        (book_one machine_id confirm_start now w.who w.index s).1

  -- What is done with one machine.
  pub distribute_one : ℕ → ℕ → State O → Option (State O)
  distribute_one now machine_id s =
      let t = record s {
        machine_committee = update s.machine_committee machine_id default_members;
      } in
      elim (get_work_index t.outside) [
        | none ↦ none
        | some (none, o) ↦ some (record t { outside = o })
        | some (some sequence, o) ↦
            let u =
              book_all machine_id (u32_add now submit_raw_start) now sequence
                (record t { outside = o }) in
            some (record u { outside = (out.booked_machine machine_id u.outside).1 })
      ]

  pub distribute_all : ℕ → List ℕ → State O → Option (State O)
  distribute_all now [] s = some s
  distribute_all now (id ∷ ids) s = elim (distribute_one now id s) [
    | none ↦ none
    | some t ↦ distribute_all now ids t
  ]

  -- `confirmed_machine` are the machines that online-profile lists as confirmed.
  pub distribute_machines : (O → List ℕ) → ℕ → State O → Option (State O)
  distribute_machines confirmed_machine now s = distribute_all now (confirmed_machine s.outside) s
