-- ===== src/OnlineCommittee/Booking/Draw.antt =====
-- The lot that gives a machine to members in pallets/online-committee/src/lib.rs.
use deep_brain_chain.Prelude.{
  ℕ, zero, suc, ◌≤◌, ◌<◌, ◌≡◌, ap, refl, arith, Bool, true, false, not, ◌&&◌, ◌||◌, none, some,
  List, [], ◌∷◌, length, contains, ltb, ◌==◌, ==_refl,
}
use deep_brain_chain.Support.ItemList.{remove_at, IsSorted, Above, Above-contains}
use deep_brain_chain.Support.Online.{nth}
use deep_brain_chain.OnlineCommittee.{Outside}
use deep_brain_chain.OnlineCommittee.Booking.{VerifySequence, slots, draw, get_work_index}

Above-remove_at : (x i : ℕ) (xs : List ℕ) → Above x xs → Above x (remove_at xs i)
Above-remove_at x i [] h = h
Above-remove_at x zero (y ∷ ys) (lt, h) = h
Above-remove_at x (suc i) (y ∷ ys) (lt, h) = (lt, Above-remove_at x i ys h)

-- The member at an index, and the others.
record IsTaken (c : List ℕ) (i : ℕ) : Type 0 where
  who : ℕ
  there : nth c i ≡ some who
  member : contains who c ≡ true
  shorter : suc (length (remove_at c i)) ≡ length c
  others : (b : ℕ) → contains b (remove_at c i) ≡ (not (b == who) && contains b c)
  sorted : IsSorted (remove_at c i)

take_at : (c : List ℕ) (i : ℕ) → IsSorted c → i < length c → IsTaken c i
take_at [] i s lt = absurd (omega (arith, lt))
take_at (x ∷ xs) zero (above, s) lt = record {
  who = x;
  there = refl;
  member = ground (arith, ==_refl x);
  shorter = refl;
  others = λ b. ground (arith, Above-contains x b xs above);
  sorted = s;
}
take_at (x ∷ xs) (suc i) (above, s) lt =
    let t = take_at xs i s (omega (arith, lt)) in
    let gt = Above-contains x t.who xs above t.member in
    record {
      who = t.who;
      there = t.there;
      member = ground (arith, t.member);
      shorter = ground (arith, t.shorter);
      others = λ b. ground (arith, t.others b, gt);
      sorted = (Above-remove_at x i xs above, t.sorted);
    }

abbrev pub drawn : ℕ → List VerifySequence → Bool
drawn b [] = false
drawn b (w ∷ ws) = b == w.who || drawn b ws

abbrev pub AreDistinct : List VerifySequence → Type 0
AreDistinct [] = Unit
AreDistinct (w ∷ ws) = (drawn w.who ws ≡ false) × AreDistinct ws

-- The first member has the slots from `i`, and so on.
abbrev pub HaveSlots : ℕ → List VerifySequence → Type 0
HaveSlots i [] = Unit
HaveSlots i (w ∷ ws) = (w.index ≡ slots i) × HaveSlots (suc i) ws

-- `k` different members of the committee, with the slots from `i`.
pub record IsLot (k i : ℕ) (c : List ℕ) (ws : List VerifySequence) : Type 0 where
  pub count : length ws ≡ k
  pub distinct : AreDistinct ws
  pub have_slots : HaveSlots i ws
  pub members : (b : ℕ) → drawn b ws ≡ true → contains b c ≡ true

module _ {O : Type 0} (out : Outside O) where
  -- What the lot gives is below the bound.
  abbrev pub IsFair : Type 0
  IsFair = (n : ℕ) (o : O) → 0 < n → (out.random_u32 n o).0 < n

  draw-IsLot :
      (k i : ℕ) (c : List ℕ) (o : O)
      → IsFair
      → IsSorted c
      → k ≤ length c
      → (ws : List VerifySequence) × (u : O) × (draw out k i c o ≡ some (ws, u)) × IsLot k i c ws
  unfolding draw
  draw-IsLot zero i c o fair s le =
      ([], o, refl, record { count = refl; distinct = tt; have_slots = tt; members = λ b. cc })
  draw-IsLot (suc k) i c o fair s le =
      let lucky = out.random_u32 (length c) o in
      let t = take_at c lucky.0 s (fair (length c) o (omega (arith, le))) in
      let (ws, u, e, lot) =
        draw-IsLot k (suc i) (remove_at c lucky.0) lucky.1 fair t.sorted
          (omega (arith, le, t.shorter)) in
      (
        record { who = t.who; index = slots i } ∷ ws,
        u,
        rw (t.there, e, draw) refl,
        record {
          count = ap suc lot.count;
          distinct =
              (ground (arith, ==_refl t.who, t.others t.who, lot.members t.who), lot.distinct);
          have_slots = (refl, lot.have_slots);
          members = λ b d. ground (arith, d, t.member, t.others b, lot.members b);
        },
      )

  -- With at least three members available, in order, and a fair lot, the draw comes to an end without a
  -- panic and gives three different available members, who share the nine slots; with fewer it gives
  -- none.
  pub get_work_index-IsLot :
      (o : O) (c : List ℕ)
      → IsFair
      → out.available_committee o ≡ some c
      → IsSorted c
      → (3 ≤ length c
          → (ws : List VerifySequence) × ((u : O) × (get_work_index out o ≡ some (some ws, u))
              × IsLot 3 0 c ws))
        × (length c < 3 → get_work_index out o ≡ some (none, o))
  unfolding get_work_index
  get_work_index-IsLot o c fair e s = (
    λ le.
        let (ws, u, d, lot) = draw-IsLot 3 0 c o fair s le in
        let few : ltb (length c) 3 ≡ false = ground (arith, le) in
        (ws, (u, rw (e, few, d, get_work_index) refl, lot)),
    λ lt.
        let few : ltb (length c) 3 ≡ true = ground (arith, lt) in rw (e, few, get_work_index) refl,
  )

  pub get_work_index-none :
      (o : O) → out.available_committee o ≡ none → get_work_index out o ≡ some (none, o)
  unfolding get_work_index
  get_work_index-none o e = rw (e, get_work_index) refl
