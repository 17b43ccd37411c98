-- ===== src/Zk/Removal.antt =====
-- `remove_from_pending` of pallets/zk-compute/src/lib.rs: `position` and `swap_remove` on the queue.
use deep_brain_chain.Prelude.{
  ℕ, zero, suc, ◌+◌, ◌≤◌, ◌<◌, ◌≡◌, refl, Option, none, some, List, [], ◌∷◌, ◌++◌, arith, ◌==◌,
  if◌then◌else◌, length, Option-cases, inl, inr,
}

-- `iter().position(|id| *id == a)`
abbrev pub position : ℕ → List ℕ → Option ℕ
position a [] = none
position a (x ∷ xs) =
    let rest = position a xs in
    if x == a then some 0 else elim rest [ none ↦ none | some i ↦ some (suc i) ]

-- The last element in front of the others: what `swap_remove(0)` leaves of a vector whose tail is
-- this list.
abbrev pub last_first : List ℕ → List ℕ
last_first [] = []
last_first (x ∷ xs) = elim (last_first xs) [ [] ↦ x ∷ [] | l ∷ rest ↦ l ∷ x ∷ rest ]

-- `Vec::swap_remove`: the last element takes the place of the one at the index.
abbrev pub swap_remove : List ℕ → ℕ → List ℕ
swap_remove [] i = []
swap_remove (x ∷ xs) zero = last_first xs
swap_remove (x ∷ xs) (suc i) = x ∷ swap_remove xs i

unfoldable pub remove_from : ℕ → List ℕ → List ℕ
remove_from a queue = elim (position a queue) [ none ↦ queue | some i ↦ swap_remove queue i ]

-- How often an identifier stands in a list.
abbrev pub count : ℕ → List ℕ → ℕ
count a [] = 0
count a (x ∷ xs) = (if x == a then 1 else 0) + count a xs

pub count-append_one :
    (a y : ℕ) (xs : List ℕ) → count a (xs ++ y ∷ []) ≡ count a xs + (if y == a then 1 else 0)
count-append_one a y [] = omega arith
count-append_one a y (x ∷ xs) = omega (arith, count-append_one a y xs)

count-last_first : (a : ℕ) (xs : List ℕ) → count a (last_first xs) ≡ count a xs
count-last_first a [] = refl
count-last_first a (x ∷ xs) = ground (arith, count-last_first a xs)

length-last_first : (xs : List ℕ) → length (last_first xs) ≡ length xs
length-last_first [] = refl
length-last_first (x ∷ xs) = ground (arith, length-last_first xs)

count-swap_remove :
    (a b i : ℕ) (xs : List ℕ)
    → position b xs ≡ some i
    → count a (swap_remove xs i) + (if b == a then 1 else 0) ≡ count a xs
count-swap_remove a b i [] e = cc
count-swap_remove a b zero (x ∷ xs) e = ground (arith, count-last_first a xs)
count-swap_remove a b (suc i) (x ∷ xs) e = ground (arith, count-swap_remove a b i xs)

position-none : (a : ℕ) (xs : List ℕ) → position a xs ≡ none → count a xs ≡ 0
position-none a [] e = refl
position-none a (x ∷ xs) e = ground (arith, position-none a xs)

-- Removal takes away one occurrence of the identifier, if there is one, and nothing else.
pub count-remove_from :
    (a b : ℕ) (xs : List ℕ)
    → 0 < count b xs
    → count a (remove_from b xs) + (if b == a then 1 else 0) ≡ count a xs
unfolding remove_from
count-remove_from a b xs h = elim (Option-cases (position b xs)) [
  | inl e ↦ ground (arith, position-none b xs e)
  | inr (i, e) ↦ ground (arith, count-swap_remove a b i xs e)
]

length-swap_remove-le : (i : ℕ) (xs : List ℕ) → length (swap_remove xs i) ≤ length xs
length-swap_remove-le i [] = omega arith
length-swap_remove-le zero (x ∷ xs) = omega (arith, length-last_first xs)
length-swap_remove-le (suc i) (x ∷ xs) = omega (arith, length-swap_remove-le i xs)

pub length-remove_from-le : (a : ℕ) (xs : List ℕ) → length (remove_from a xs) ≤ length xs
unfolding remove_from
length-remove_from-le a xs = elim (Option-cases (position a xs)) [
  | inl e ↦ ground arith
  | inr (i, e) ↦ ground (arith, length-swap_remove-le i xs)
]
