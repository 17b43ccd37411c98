-- ===== src/Support/ItemList.antt =====
-- The ordered lists of pallets/support/src/primitives.rs (`ItemList`). `binary_search` of a slice is the
-- standard library's; on an ordered list of different items it answers with the only index there is.
use deep_brain_chain.Prelude.{
  ℕ, zero, suc, ◌<◌, ◌≡◌, refl, arith, Bool, true, false, not, ◌&&◌, ◌||◌, ltb, ◌==◌, if◌then◌else◌,
  List, [], ◌∷◌, contains, length, ◌≤◌,
}

-- `Result<usize, usize>`
pub data Search : Type 0 where
  found missing : ℕ → Search

abbrev shifted : Search → Search
shifted (found i) = found (suc i)
shifted (missing i) = missing (suc i)

unfoldable pub binary_search : List ℕ → ℕ → Search
binary_search [] a = missing 0
binary_search (x ∷ xs) a =
    let rest = binary_search xs a in
    if ltb x a then shifted rest else if x == a then found 0 else missing 0

abbrev pub is_found : Search → Bool
is_found (found i) = true
is_found (missing i) = false

-- `Vec::insert` and `Vec::remove`.
abbrev insert_at : List ℕ → ℕ → ℕ → List ℕ
insert_at xs zero a = a ∷ xs
insert_at [] (suc i) a = a ∷ []
insert_at (x ∷ xs) (suc i) a = x ∷ insert_at xs i a

abbrev pub remove_at : List ℕ → ℕ → List ℕ
remove_at [] i = []
remove_at (x ∷ xs) zero = xs
remove_at (x ∷ xs) (suc i) = x ∷ remove_at xs i

unfoldable pub add_item : List ℕ → ℕ → List ℕ
add_item xs a = elim (binary_search xs a) [ found i ↦ xs | missing i ↦ insert_at xs i a ]

unfoldable pub rm_item : List ℕ → ℕ → List ℕ
rm_item xs a = elim (binary_search xs a) [ found i ↦ remove_at xs i | missing i ↦ xs ]

unfoldable pub expand_to_order : List ℕ → List ℕ → List ℕ
expand_to_order xs [] = xs
expand_to_order xs (a ∷ news) = expand_to_order (add_item xs a) news

-- Every item is above the bound.
abbrev pub Above : ℕ → List ℕ → Type 0
Above a [] = Unit
Above a (x ∷ xs) = (a < x) × Above a xs

-- Ascending, without repetition.
abbrev pub IsSorted : List ℕ → Type 0
IsSorted [] = Unit
IsSorted (x ∷ xs) = Above x xs × IsSorted xs

pub Above-contains : (a b : ℕ) (xs : List ℕ) → Above a xs → contains b xs ≡ true → a < b
Above-contains a b [] h e = cc
Above-contains a b (x ∷ xs) (lt, above) e = ground (arith, Above-contains a b xs above)

Above-Above : (a b : ℕ) (xs : List ℕ) → a < b → Above b xs → Above a xs
Above-Above a b [] lt h = tt
Above-Above a b (x ∷ xs) lt (below, h) = (omega arith, Above-Above a b xs lt h)

-- In an ordered list, the search finds exactly the items.
pub binary_search_lem :
    (xs : List ℕ) (a : ℕ) → IsSorted xs → is_found (binary_search xs a) ≡ contains a xs
unfolding binary_search
binary_search_lem [] a h = refl
binary_search_lem (x ∷ xs) a (above, sorted) =
    ground (arith, binary_search_lem xs a sorted, Above-contains x a xs above)

add_item-cons : (x a : ℕ) (xs : List ℕ) → x < a → add_item (x ∷ xs) a ≡ x ∷ add_item xs a
unfolding add_item binary_search
add_item-cons x a xs lt = ground arith

rm_item-cons : (x a : ℕ) (xs : List ℕ) → x < a → rm_item (x ∷ xs) a ≡ x ∷ rm_item xs a
unfolding rm_item binary_search
rm_item-cons x a xs lt = ground arith

pub contains-add_item :
    (xs : List ℕ) (a b : ℕ) → contains b (add_item xs a) ≡ ((b == a) || contains b xs)
unfolding add_item binary_search
contains-add_item [] a b = ground arith
contains-add_item (x ∷ xs) a b = ground (arith, contains-add_item xs a b)

pub contains-rm_item :
    (xs : List ℕ) (a b : ℕ)
    → IsSorted xs
    → contains b (rm_item xs a) ≡ (not (b == a) && contains b xs)
unfolding rm_item binary_search
contains-rm_item [] a b h = ground arith
contains-rm_item (x ∷ xs) a b (above, sorted) =
    ground (arith, contains-rm_item xs a b sorted, Above-contains x b xs above)

Above-add_item : (xs : List ℕ) (a b : ℕ) → b < a → Above b xs → Above b (add_item xs a)
unfolding add_item binary_search
Above-add_item [] a b lt h = ground arith
Above-add_item (x ∷ xs) a b lt (below, h) = ground (arith, Above-add_item xs a b lt h)

Above-rm_item : (xs : List ℕ) (a b : ℕ) → Above b xs → Above b (rm_item xs a)
unfolding rm_item binary_search
Above-rm_item [] a b h = ground arith
Above-rm_item (x ∷ xs) a b (below, h) = ground (arith, Above-rm_item xs a b h)

pub add_item-IsSorted : (xs : List ℕ) (a : ℕ) → IsSorted xs → IsSorted (add_item xs a)
unfolding add_item binary_search
add_item-IsSorted [] a h = ground arith
add_item-IsSorted (x ∷ xs) a (above, sorted) =
    ground (arith, add_item-IsSorted xs a sorted, Above-add_item xs a x, Above-Above a x xs)

pub rm_item-IsSorted : (xs : List ℕ) (a : ℕ) → IsSorted xs → IsSorted (rm_item xs a)
unfolding rm_item binary_search
rm_item-IsSorted [] a h = ground arith
rm_item-IsSorted (x ∷ xs) a (above, sorted) =
    ground (arith, rm_item-IsSorted xs a sorted, Above-rm_item xs a x above)

-- Adding a list of items to an ordered list, in any order and with repetitions, gives an ordered
-- list of exactly the old and the new items.
pub expand_to_order_lem :
    (xs news : List ℕ)
    → IsSorted xs
    → IsSorted (expand_to_order xs news)
      × ((b : ℕ) → contains b (expand_to_order xs news) ≡ (contains b news || contains b xs))
unfolding expand_to_order
expand_to_order_lem xs [] h = (h, λ b. refl)
expand_to_order_lem xs (a ∷ news) h =
    let rest = expand_to_order_lem (add_item xs a) news (add_item-IsSorted xs a h) in
    (rest.0, λ b. ground (arith, rest.1 b, contains-add_item xs a b))

pub length-add_item : (xs : List ℕ) (a : ℕ) → length (add_item xs a) ≤ suc (length xs)
unfolding add_item binary_search
length-add_item [] a = ground arith
length-add_item (x ∷ xs) a = ground (arith, length-add_item xs a)
