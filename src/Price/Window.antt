-- ===== src/Price/Window.antt =====
-- The prices of pallets/dbc-price-ocw/src/lib.rs are the last 64 that were accepted.
use deep_brain_chain.Prelude.{
  ℕ, zero, suc, ◌-◌, ◌/◌, ◌≤◌, ◌≡◌, refl, ap, true, false, Option, none, some, arith, inl, inr,
  Bool-cases, List, [], ◌∷◌, ◌++◌, length, length-append, Result, ok, Returns, of_Returns, leb, ltb,
  ◌==◌, if◌then◌else◌,
}
use deep_brain_chain.Frame.Origin.{Origin, root, signed, unsigned}
use deep_brain_chain.Price.{
  State, Error, Call, submit_unsigned, submit_by_root, add_url, set_frequency, rm_url, max_len,
  pop_front, add_price, saturating_total, add_avg_price, submit_price_unsigned,
  submit_price_by_root, add_price_url, set_price_update_frequency, rm_price_url_by_index,
  unwrap_or_default,
}

unfoldable pub dispatch : Origin → Call → State → Result Error State
dispatch o (submit_unsigned price) s = submit_price_unsigned o price s
dispatch o (submit_by_root price) s = submit_price_by_root o price s
dispatch o (add_url url) s = add_price_url o url s
dispatch o (set_frequency frequency) s = set_price_update_frequency o frequency s
dispatch o (rm_url index) s = rm_price_url_by_index o index s

-- The price that an accepted call adds to the history.
abbrev pub priced : Call → List ℕ → List ℕ
priced (submit_unsigned price) h = h ++ price ∷ []
priced (submit_by_root price) h = h ++ price ∷ []
priced _ h = h

-- A history of accepted calls, and its prices.
pub data Reach (s : State) : List ℕ → State → Type 0 where
  here : Reach s [] s
  next :
      {h : List ℕ} {t u : State}
      → Reach s h t
      → (o : Origin) (c : Call) → dispatch o c t ≡ ok u
      → Reach s (priced c h) u

-- The specification: the last 64 prices of the history, and their average once there are so many.
abbrev pub drop {ℓ} : {A : Type ℓ} → ℕ → List A → List A
drop zero xs = xs
drop (suc n) [] = []
drop (suc n) (x ∷ xs) = drop n xs

unfoldable pub window : List ℕ → List ℕ
window h = drop (length h - max_len) h

unfoldable pub average : List ℕ → Option ℕ
average w = if length w == max_len then some (saturating_total 0 w / max_len) else none

pub record Implements (s : State) (h : List ℕ) : Type 0 where
  pub same_prices : s.prices ≡ window h
  pub same_average : s.avg_price ≡ average (window h)

length-drop : (n : ℕ) (xs : List ℕ) → length (drop n xs) ≡ length xs - n
length-drop zero xs = omega arith
length-drop (suc n) [] = omega arith
length-drop (suc n) (x ∷ xs) = omega (arith, length-drop n xs)

drop-append : (n p : ℕ) (h : List ℕ) → n ≤ length h → drop n (h ++ p ∷ []) ≡ drop n h ++ p ∷ []
drop-append zero p h le = refl
drop-append (suc n) p [] le = absurd (omega arith)
drop-append (suc n) p (x ∷ h) le = drop-append n p h (omega arith)

pop_front-drop : (n : ℕ) (xs : List ℕ) → pop_front (drop n xs) ≡ drop (suc n) xs
pop_front-drop zero [] = refl
pop_front-drop zero (x ∷ xs) = refl
pop_front-drop (suc n) [] = refl
pop_front-drop (suc n) (x ∷ xs) = pop_front-drop n xs

-- The window moves on by one price.
window-append :
    (p : ℕ) (h : List ℕ)
    → (if leb max_len (length (window h)) then pop_front (window h) else window h) ++ p ∷ []
      ≡ window (h ++ p ∷ [])
unfolding window
window-append p h = elim (Bool-cases (leb max_len (length h))) [
  | inl e ↦
      let more : length (h ++ p ∷ []) - max_len ≡ suc (length h - max_len) =
        ground (arith, e, length-append h (p ∷ [])) in
      let full : leb max_len (length (window h)) ≡ true =
        rw (length-drop (length h - max_len) h) (ground (arith, e)) in
      rw (full, more, drop-append (suc (length h - max_len)) p h (ground (arith, e)))
        (ap (λ w. w ++ p ∷ []) (pop_front-drop (length h - max_len) h))
  | inr e ↦
      let before : length h - max_len ≡ 0 = ground (arith, e) in
      let after : length (h ++ p ∷ []) - max_len ≡ 0 =
        ground (arith, e, length-append h (p ∷ [])) in
      let part : leb max_len (length (window h)) ≡ false = rw before e in
      rw (part, before, after) refl
]

length-window : (h : List ℕ) → length (window h) ≡ length h - (length h - max_len)
unfolding window
length-window h = length-drop (length h - max_len) h

-- Below a full window there is no average.
average-none :
    (p : ℕ) (h : List ℕ)
    → (length (window (h ++ p ∷ [])) == max_len) ≡ false
    → average (window h) ≡ none
unfolding average
average-none p h e =
    ground (arith, e, length-window h, length-window (h ++ p ∷ []), length-append h (p ∷ []))

pub submit-Implements :
    (p : ℕ) (s : State) (h : List ℕ)
    → Implements s h
    → Implements (add_avg_price (add_price p s)) (h ++ p ∷ [])
unfolding add_avg_price add_price average
submit-Implements p s h v =
    let w = window (h ++ p ∷ []) in
    let prices : (add_price p s).prices ≡ w = rw v.same_prices (window-append p h) in
    elim (Bool-cases (length w == max_len)) [
      | inl e ↦ record { same_prices = rw (prices, e) refl; same_average = rw (prices, e) refl }
      | inr e ↦ record {
        same_prices = rw (prices, e) refl;
        same_average = rw (prices, e) (rw v.same_average (average-none p h e));
      }
    ]

kept-Implements :
    {s : State} {h : List ℕ}
    → s.prices ≡ window h
    → s.avg_price ≡ average (window h)
    → Implements s h
kept-Implements p a = record { same_prices = p; same_average = a }

dispatch-Implements :
    (o : Origin) (c : Call) (s : State) (h : List ℕ)
    → Implements s h
    → Returns (λ t. Implements t (priced c h)) (dispatch o c s)
unfolding dispatch submit_price_unsigned submit_price_by_root add_price_url
    set_price_update_frequency rm_price_url_by_index
dispatch-Implements o (submit_unsigned p) s h v = ground (arith, submit-Implements p s h v)
dispatch-Implements o (submit_by_root p) s h v = ground (arith, submit-Implements p s h v)
dispatch-Implements root (add_url url) s h v = kept-Implements v.same_prices v.same_average
dispatch-Implements (signed who) (add_url url) s h v = tt
dispatch-Implements unsigned (add_url url) s h v = tt
dispatch-Implements root (set_frequency f) s h v = elim (Bool-cases (f == 0)) [
  | inl e ↦ rw e v
  | inr e ↦ rw e (kept-Implements v.same_prices v.same_average)
]
dispatch-Implements (signed who) (set_frequency f) s h v = tt
dispatch-Implements unsigned (set_frequency f) s h v = tt
dispatch-Implements root (rm_url i) s h v =
    elim (Bool-cases (ltb i (length (unwrap_or_default s.price_url)))) [
      | inl e ↦ rw e (kept-Implements v.same_prices v.same_average)
      | inr e ↦ rw e tt
    ]
dispatch-Implements (signed who) (rm_url i) s h v = tt
dispatch-Implements unsigned (rm_url i) s h v = tt

-- After every history of calls from a state without prices, the pallet stores the last 64 prices that
-- were accepted, in their order, and their saturating average once there are 64 of them.
pub Reach-Implements : {s t : State} {h : List ℕ} → Implements s [] → Reach s h t → Implements t h
Reach-Implements v here = v
Reach-Implements {s} v (next {h} {t} {u} r o c e) =
    of_Returns (λ x. Implements x (priced c h)) (dispatch o c t)
      (dispatch-Implements o c t h (Reach-Implements v r)) e
