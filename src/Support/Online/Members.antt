-- ===== src/Support/Online/Members.antt =====
-- The members that verify a machine, in pallets/support/src/verify_online.rs.
use deep_brain_chain.Prelude.{
  ℕ, suc, u32_add, ◌≤◌, ◌<◌, ◌≡◌, refl, arith, ==_refl, true, false, not, ◌&&◌, ◌||◌, List, [], ◌∷◌,
  length, contains, leb, Returns, ◌==◌, Bool-cases, inl, inr,
}
use deep_brain_chain.Support.ItemList.{
  IsSorted, binary_search, is_found, binary_search_lem, add_item, length-add_item,
  contains-add_item, add_item-IsSorted, Above-contains,
}
use deep_brain_chain.Support.Online.{
  OcMachineCommitteeList, Summary, after_summary, submit_hash, submit_raw, unruly_of,
  summary_unruly, is_submitting_raw, is_summarizing, submit_raw_end_after,
}

-- Every item of the first list is in the second.
abbrev pub IsSubset : List ℕ → List ℕ → Type 0
IsSubset xs ys = (a : ℕ) → contains a xs ≡ true → contains a ys ≡ true

-- The lists of the members are ordered; only booked members submit hashes, and only members with a
-- hash submit an upload.
pub record IsOrderly (l : OcMachineCommitteeList) : Type 0 where
  pub booked : IsSorted l.booked_committee
  pub hashed : IsSorted l.hashed_committee
  pub submitted : IsSorted l.confirmed_committee
  pub hashed_booked : IsSubset l.hashed_committee l.booked_committee
  pub submitted_hashed : IsSubset l.confirmed_committee l.hashed_committee

-- An ordered list that is in another one is no longer, and it is the same when it is as long.
subset-equal :
    (xs ys : List ℕ)
    → IsSorted xs
    → IsSorted ys
    → IsSubset xs ys
    → (length xs ≤ length ys) × (length xs ≡ length ys → xs ≡ ys)
subset-equal [] [] sx sy h = (omega arith, λ e. refl)
subset-equal [] (y ∷ ys) sx sy h = (omega arith, λ e. absurd (omega arith))
subset-equal (x ∷ xs) [] sx sy h = absurd (ground (arith, ==_refl x, h x))
subset-equal (x ∷ xs) (y ∷ ys) (ax, sx) (ay, sy) h = elim (Bool-cases (x == y)) [
  | inl e ↦
      let sub : IsSubset xs ys = λ a m. ground (arith, e, m, h a, Above-contains x a xs ax) in
      let (le, eq) = subset-equal xs ys sx sy sub in
      let head : x ≡ y = ground (arith, e) in
      (omega (arith, le), λ n. rw (head, eq (omega (arith, n))) refl)
  | inr e ↦
      let here : contains x ys ≡ true = ground (arith, e, ==_refl x, h x) in
      let above : y < x = Above-contains y x ys ay here in
      let sub : IsSubset (x ∷ xs) ys =
        λ a m. ground (arith, above, m, h a, here, Above-contains x a xs ax) in
      let (le, eq) = subset-equal (x ∷ xs) ys (ax, sx) sy sub in
      (omega (arith, le), λ n. absurd (omega (arith, n, le)))
]

-- One more item of the larger list.
add_item-IsSubset :
    (xs ys : List ℕ) (a : ℕ) → IsSubset xs ys → contains a ys ≡ true → IsSubset (add_item xs a) ys
add_item-IsSubset xs ys a sub has b m = ground (arith, m, has, sub b, contains-add_item xs a b)

IsSubset-add_item : (xs ys : List ℕ) (a : ℕ) → IsSubset xs ys → IsSubset xs (add_item ys a)
IsSubset-add_item xs ys a sub b m = ground (arith, m, sub b, contains-add_item ys a b)

-- A hash that is accepted keeps the lists orderly, and when it opens the submission of uploads, every
-- booked member has submitted a hash.
pub submit_hash-IsOrderly :
    (who : ℕ) (l : OcMachineCommitteeList)
    → IsOrderly l
    → Returns
        (λ k.
          IsOrderly k
          × (is_submitting_raw k.status ≡ true
              → is_submitting_raw l.status ≡ false
              → k.hashed_committee ≡ k.booked_committee))
        (submit_hash who l)
unfolding submit_hash
submit_hash-IsOrderly who l v =
    elim (Bool-cases (is_found (binary_search l.booked_committee who))) [
      | inr e ↦ rw e tt
      | inl e ↦ elim (Bool-cases (is_found (binary_search l.hashed_committee who))) [
        | inl f ↦ rw (e, f) tt
        | inr f ↦
            let has : contains who l.booked_committee ≡ true =
              rw (← binary_search_lem l.booked_committee who v.booked) e in
            let sub =
              add_item-IsSubset l.hashed_committee l.booked_committee who v.hashed_booked has in
            let sorted = add_item-IsSorted l.hashed_committee who v.hashed in
            let all =
              subset-equal (add_item l.hashed_committee who) l.booked_committee sorted v.booked
                sub in
            rw (e, f)
              (
                record {
                  booked = v.booked;
                  hashed = sorted;
                  submitted = v.submitted;
                  hashed_booked = sub;
                  submitted_hashed =
                      IsSubset-add_item l.confirmed_committee l.hashed_committee who
                        v.submitted_hashed;
                },
                λ opens before. all.1 (ground (arith, opens, before)),
              )
      ]
    ]

-- An upload that is accepted keeps the lists orderly, and when it starts the summary, every member with
-- a hash has submitted an upload.
pub submit_raw-IsOrderly :
    (time who : ℕ) (l : OcMachineCommitteeList)
    → IsOrderly l
    → Returns
        (λ k.
          IsOrderly k
          × (is_summarizing k.status ≡ true
              → is_summarizing l.status ≡ false
              → k.confirmed_committee ≡ k.hashed_committee))
        (submit_raw time who l)
unfolding submit_raw
submit_raw-IsOrderly time who l v =
    elim (Bool-cases (is_found (binary_search l.hashed_committee who))) [
      | inr e ↦ ground (arith, e)
      | inl e ↦
          let has : contains who l.hashed_committee ≡ true =
            rw (← binary_search_lem l.hashed_committee who v.hashed) e in
          let sub =
            add_item-IsSubset l.confirmed_committee l.hashed_committee who v.submitted_hashed has in
          let sorted = add_item-IsSorted l.confirmed_committee who v.submitted in
          let all =
            subset-equal (add_item l.confirmed_committee who) l.hashed_committee sorted v.hashed
              sub in
          elim (Bool-cases (is_submitting_raw l.status || leb l.confirm_start_time time)) [
            | inr g ↦ rw g tt
            | inl g ↦
                elim (Bool-cases (
                  is_submitting_raw l.status
                  || leb time (u32_add l.book_time submit_raw_end_after))) [
                    | inr k ↦ rw (g, k) tt
                    | inl k ↦
                        rw (g, k, e)
                          (
                            record {
                              booked = v.booked;
                              hashed = v.hashed;
                              submitted = sorted;
                              hashed_booked = v.hashed_booked;
                              submitted_hashed = sub;
                            },
                            λ starts before. all.1 (ground (arith, starts, before)),
                          )
                  ]
          ]
    ]

-- The loop adds the members of its list without an upload.
unruly_of_lem :
    (booked submitted unruly : List ℕ) (a : ℕ)
    → IsSorted submitted
    → contains a (unruly_of booked submitted unruly)
      ≡ (contains a unruly || (contains a booked && not (contains a submitted)))
unfolding unruly_of
unruly_of_lem [] submitted unruly a sorted = ground arith
unruly_of_lem (b ∷ booked) submitted unruly a sorted = ground (
  arith,
  unruly_of_lem booked submitted unruly a sorted,
  unruly_of_lem booked submitted (add_item unruly b) a sorted,
  contains-add_item unruly b a,
  binary_search_lem submitted b sorted,
)

-- In orderly lists, the summary finds unruly exactly the booked members without an upload.
pub summary_unruly_lem :
    (l : OcMachineCommitteeList) (a : ℕ)
    → IsOrderly l
    → contains a (summary_unruly l)
      ≡ (contains a l.booked_committee && not (contains a l.confirmed_committee))
unfolding summary_unruly
summary_unruly_lem l a v = unruly_of_lem l.booked_committee l.confirmed_committee [] a v.submitted

-- At most `n` members are booked.
abbrev pub IsStaffed : ℕ → OcMachineCommitteeList → Type 0
IsStaffed n l = IsOrderly l × (length l.booked_committee ≤ n)

-- Only the lists of the members count.
pub same-IsStaffed :
    (n : ℕ) (l k : OcMachineCommitteeList)
    → l.booked_committee ≡ k.booked_committee
    → l.hashed_committee ≡ k.hashed_committee
    → l.confirmed_committee ≡ k.confirmed_committee
    → IsStaffed n l
    → IsStaffed n k
same-IsStaffed n l k b h c (v, le) = (
  record {
    booked = rw b at v.booked;
    hashed = rw h at v.hashed;
    submitted = rw c at v.submitted;
    hashed_booked = rw (h, b) at v.hashed_booked;
    submitted_hashed = rw (c, h) at v.submitted_hashed;
  },
  rw b at le,
)

-- No more members submit than are booked.
pub IsStaffed-length :
    (n : ℕ) (l : OcMachineCommitteeList) → IsStaffed n l → length l.confirmed_committee ≤ n
IsStaffed-length n l (v, le) =
    let few =
      subset-equal l.confirmed_committee l.hashed_committee v.submitted v.hashed
        v.submitted_hashed in
    let more =
      subset-equal l.hashed_committee l.booked_committee v.hashed v.booked v.hashed_booked in
    omega (arith, few.0, more.0, le)

pub book-IsStaffed :
    (n who time start : ℕ) (l : OcMachineCommitteeList)
    → IsStaffed n l
    → IsStaffed (suc n) (record l {
      booked_committee = add_item l.booked_committee who;
      book_time = time;
      confirm_start_time = start;
    })
book-IsStaffed n who time start l (v, le) = (
  record {
    booked = add_item-IsSorted l.booked_committee who v.booked;
    hashed = v.hashed;
    submitted = v.submitted;
    hashed_booked = IsSubset-add_item l.hashed_committee l.booked_committee who v.hashed_booked;
    submitted_hashed = v.submitted_hashed;
  },
  omega (arith, le, length-add_item l.booked_committee who),
)

pub submit_hash-booked :
    (who : ℕ) (l : OcMachineCommitteeList)
    → Returns (λ k. k.booked_committee ≡ l.booked_committee) (submit_hash who l)
unfolding submit_hash
submit_hash-booked who l = ground arith

pub submit_raw-booked :
    (time who : ℕ) (l : OcMachineCommitteeList)
    → Returns
        (λ k. (k.booked_committee ≡ l.booked_committee) × (k.hashed_committee ≡ l.hashed_committee))
        (submit_raw time who l)
unfolding submit_raw
submit_raw-booked time who l = ground arith

pub after_summary-IsStaffed :
    (n : ℕ) (s : Summary) (l : OcMachineCommitteeList)
    → IsStaffed n l
    → IsStaffed n (after_summary s l)
unfolding after_summary
after_summary-IsStaffed n s l v =
    same-IsStaffed n l (after_summary s l) (ground arith) (ground arith) (ground arith) v

-- A hash is taken from a member without one, and no member's hash is lost.
pub submit_hash-hashed :
    (who a : ℕ) (l : OcMachineCommitteeList)
    → IsSorted l.hashed_committee
    → Returns
        (λ k.
          (contains who l.hashed_committee ≡ false)
          × (contains a l.hashed_committee ≡ true → contains a k.hashed_committee ≡ true))
        (submit_hash who l)
unfolding submit_hash
submit_hash-hashed who a l sorted = ground (
  arith,
  binary_search_lem l.hashed_committee who sorted,
  contains-add_item l.hashed_committee who a,
)

-- An upload is taken from a member with a hash.
pub submit_raw-hashed :
    (time who : ℕ) (l : OcMachineCommitteeList)
    → IsSorted l.hashed_committee
    → Returns (λ k. contains who l.hashed_committee ≡ true) (submit_raw time who l)
unfolding submit_raw
submit_raw-hashed time who l sorted =
    ground (arith, binary_search_lem l.hashed_committee who sorted)
