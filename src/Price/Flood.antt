-- ===== src/Price/Flood.antt =====
-- Anyone can set the average price of pallets/dbc-price-ocw/src/lib.rs.
use deep_brain_chain.Prelude.{
  ℕ, zero, suc, ◌-◌, ◌*◌, ◌≤◌, ◌≡◌, refl, ap, ◌∙◌, some, arith, List, [], ◌∷◌, ◌++◌, length,
  length-append, after, replicate, Each, u64_max,
}
use deep_brain_chain.Frame.Origin.{unsigned}
use deep_brain_chain.Price.{
  State, submit_price_unsigned, max_len, submit_unsigned, validate_unsigned, valid, price_ticket,
}
use deep_brain_chain.Price.Window.{Implements, submit-Implements, window, average, drop}
use deep_brain_chain.Price.Amounts.{saturating_total-equal}

-- The same price, submitted `n` times without a signature.
pub flooded : ℕ → ℕ → State → State
flooded zero v s = s
flooded (suc n) v s = flooded n v (after s (submit_price_unsigned unsigned v s))

append_nil : (xs : List ℕ) → xs ++ [] ≡ xs
append_nil [] = refl
append_nil (x ∷ xs) = ap (λ zs. x ∷ zs) (append_nil xs)

append_assoc : (xs : List ℕ) (v : ℕ) (ys : List ℕ) → (xs ++ v ∷ []) ++ ys ≡ xs ++ v ∷ ys
append_assoc [] v ys = refl
append_assoc (x ∷ xs) v ys = ap (λ zs. x ∷ zs) (append_assoc xs v ys)

flooded-Implements :
    (n v : ℕ) (s : State) (h : List ℕ)
    → Implements s h
    → Implements (flooded n v s) (h ++ replicate n v)
unfolding flooded submit_price_unsigned
flooded-Implements zero v s h i = rw (append_nil h) i
flooded-Implements (suc n) v s h i =
    rw (← append_assoc h v (replicate n v))
      (flooded-Implements n v _ (h ++ v ∷ []) (submit-Implements v s h i))

drop-prefix : (h xs : List ℕ) → drop (length h) (h ++ xs) ≡ xs
drop-prefix [] xs = refl
drop-prefix (x ∷ h) xs = drop-prefix h xs

window-full : (h xs : List ℕ) → length xs ≡ max_len → window (h ++ xs) ≡ xs
unfolding window
window-full h xs full =
    let n : length (h ++ xs) - max_len ≡ length h = omega (arith, length-append h xs, full) in
    rw n (drop-prefix h xs)

length-replicate : (n v : ℕ) → length (replicate n v) ≡ n
length-replicate zero v = refl
length-replicate (suc n) v = ap suc (length-replicate n v)

Each-replicate : (n v : ℕ) → Each (λ x. x ≡ v) (replicate n v)
Each-replicate zero v = tt
Each-replicate (suc n) v = (refl, Each-replicate n v)

-- `validate_unsigned` finds the submission of any price valid, always with the same tag; and whatever was
-- submitted before, 64 such calls in turn make their price the average, when 64 of it fit a `u64`.
pub flooded-average :
    (v : ℕ) (s : State) (h : List ℕ)
    → Implements s h
    → max_len * v ≤ u64_max
    → (validate_unsigned (submit_unsigned v) ≡ valid price_ticket)
      × ((flooded max_len v s).avg_price ≡ some v)
unfolding validate_unsigned average
flooded-average v s h i small =
    let full : length (replicate max_len v) ≡ max_len = length-replicate max_len v in
    let same = (flooded-Implements max_len v s h i).same_average in
    let total =
      saturating_total-equal v (replicate max_len v) (Each-replicate max_len v) full small in
    let w : window (h ++ replicate max_len v) ≡ replicate max_len v =
      window-full h (replicate max_len v) full in
    (refl, same ∙ rw (w, full, total) refl)
