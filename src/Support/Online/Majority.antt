-- ===== src/Support/Online/Majority.antt =====
-- The summary of the votes on a machine, in pallets/support/src/utils.rs, is the rule of the majority.
use deep_brain_chain.Prelude.{
  ℕ, ◌+◌, ◌*◌, ◌≤◌, ◌<◌, ◌≡◌, ◌⊎◌, inl, inr, Bool-cases, Option-cases, refl, arith, Bool, true,
  false, not, Option, none, some, List, [], ◌∷◌, length, ltb, if◌then◌else◌,
}
use deep_brain_chain.Support.ItemList.{IsSorted, expand_to_order, add_item, binary_search}
use deep_brain_chain.Support.Online.{
  CommitteeUploadInfo, Summary, confirmed, refused, no_consensus, same, contains_info, uniq_len,
  all_same, two_of_three, summarize, OcMachineCommitteeList, summary_confirmation, summary_unruly,
  stripped,
}

pub same_refl : (a : CommitteeUploadInfo) → same a a ≡ true
unfolding same
same_refl a = ground arith

pub same_sym : (a b : CommitteeUploadInfo) → same a b ≡ true → same b a ≡ true
unfolding same
same_sym a b h = ground (arith, h)

pub same_trans : (a b c : CommitteeUploadInfo) → same a b ≡ true → same b c ≡ true → same a c ≡ true
unfolding same
same_trans a b c h k = ground (arith, h, k)

-- The specification: an upload that more than half of the members submitted wins; the members who
-- submitted it are on its side.
pub count : CommitteeUploadInfo → List CommitteeUploadInfo → ℕ
count a [] = 0
count a (b ∷ infos) = (if same a b then 1 else 0) + count a infos

pub winner : List CommitteeUploadInfo → List CommitteeUploadInfo → Option CommitteeUploadInfo
winner infos [] = none
winner infos (a ∷ rest) =
    if ltb (length infos) (2 * count a infos) then some a else winner infos rest

pub side : Bool → CommitteeUploadInfo → List ℕ → List CommitteeUploadInfo → List ℕ
side with a (c ∷ cs) (b ∷ infos) =
    let rest = side with a cs infos in
    if (if same a b then with else not with) then c ∷ rest else rest
side with a _ _ = []

pub majority : List ℕ → List ℕ → List CommitteeUploadInfo → Summary
majority unruly cs infos = elim (winner infos infos) [
  | none ↦ record {
    valid_vote = [];
    invalid_vote = cs;
    unruly = unruly;
    info = none;
    verify_result = no_consensus;
  }
  | some a ↦ record {
    valid_vote = side true a cs infos;
    invalid_vote = side false a cs infos;
    unruly = unruly;
    info = if a.is_support then some a else none;
    verify_result = if a.is_support then confirmed else refused;
  }
]

-- A machine is confirmed with an upload.
pub majority-info :
    (unruly cs : List ℕ) (infos : List CommitteeUploadInfo)
    → (((majority unruly cs infos).verify_result ≡ confirmed)
        × ((i : CommitteeUploadInfo) × ((majority unruly cs infos).info ≡ some i)))
      ⊎ (((majority unruly cs infos).verify_result ≡ refused)
          ⊎ ((majority unruly cs infos).verify_result ≡ no_consensus))
unfolding majority
majority-info unruly cs infos = elim (Option-cases (winner infos infos)) [
  | inl e ↦ inr (inr (rw (e, majority) refl))
  | inr (a, e) ↦ elim (Bool-cases a.is_support) [
    | inl f ↦ inl (rw (e, f, majority) refl, (a, rw (e, f, majority) refl))
    | inr f ↦ inr (inl (rw (e, f, majority) refl))
  ]
]

expand_pair : (a b : ℕ) → a < b → expand_to_order [] (a ∷ b ∷ []) ≡ a ∷ b ∷ []
unfolding expand_to_order add_item binary_search
expand_pair a b lt = ground arith

-- The branches, on the stripped uploads.
pub summarize-majority :
    (unruly cs : List ℕ) (infos : List CommitteeUploadInfo)
    → IsSorted cs
    → length cs ≡ length infos
    → length cs ≤ 3
    → summarize unruly cs infos ≡ some (majority unruly cs infos)
unfolding summarize majority winner count side all_same uniq_len contains_info two_of_three
summarize-majority unruly [] [] sorted one few = refl
summarize-majority unruly [] (i ∷ infos) sorted one few = absurd (omega arith)
summarize-majority unruly (c ∷ cs) [] sorted one few = absurd (omega arith)
summarize-majority unruly (c ∷ []) (i ∷ []) sorted one few = ground (arith, same_refl i)
summarize-majority unruly (c ∷ []) (i ∷ j ∷ infos) sorted one few = absurd (omega arith)
summarize-majority unruly (c ∷ d ∷ cs) (i ∷ []) sorted one few = absurd (omega arith)
summarize-majority unruly (c ∷ d ∷ []) (i ∷ j ∷ []) sorted one few =
    ground (arith, same_refl i, same_refl j, same_sym i j, same_sym j i)
summarize-majority unruly (c ∷ d ∷ []) (i ∷ j ∷ k ∷ infos) sorted one few = absurd (omega arith)
summarize-majority unruly (c ∷ d ∷ e ∷ cs) (i ∷ j ∷ []) sorted one few = absurd (omega arith)
summarize-majority unruly (c ∷ d ∷ e ∷ []) (i ∷ j ∷ k ∷ []) sorted one few = ground (
  arith,
  same_refl i,
  same_refl j,
  same_refl k,
  same_sym i j,
  same_sym j i,
  same_sym i k,
  same_sym k i,
  same_sym j k,
  same_sym k j,
  same_trans i j k,
  same_trans j i k,
  same_trans i k j,
  expand_pair c d,
  expand_pair c e,
  expand_pair d e,
)
summarize-majority unruly (c ∷ d ∷ e ∷ []) (i ∷ j ∷ k ∷ l ∷ infos) sorted one few =
    absurd (omega arith)
summarize-majority unruly (c ∷ d ∷ e ∷ f ∷ cs) (i ∷ j ∷ k ∷ infos) sorted one few =
    absurd (omega arith)

length-stripped : (infos : List CommitteeUploadInfo) → length (stripped infos) ≡ length infos
unfolding stripped
length-stripped [] = refl
length-stripped (i ∷ infos) = ground (arith, length-stripped infos)

-- At most three members in order, each with an upload: the summary never panics, it finds the booked
-- members without an upload unruly, and it is the rule of the majority on the uploads, of which one
-- against the machine counts as that alone. An upload that more than half of the members share is valid with
-- the members who submitted it, invalid are exactly the others, and the machine is confirmed or
-- refused as the upload says; without such an upload there is no consensus and all are invalid.
pub summary_confirmation-majority :
    (l : OcMachineCommitteeList) (infos : List CommitteeUploadInfo)
    → IsSorted l.confirmed_committee
    → length l.confirmed_committee ≡ length infos
    → length l.confirmed_committee ≤ 3
    → summary_confirmation l infos
      ≡ some (majority (summary_unruly l) l.confirmed_committee (stripped infos))
unfolding summary_confirmation
summary_confirmation-majority l infos sorted one few =
    summarize-majority (summary_unruly l) l.confirmed_committee (stripped infos) sorted
      (omega (arith, one, length-stripped infos)) few
