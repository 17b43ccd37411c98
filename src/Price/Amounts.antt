-- ===== src/Price/Amounts.antt =====
-- The average price of pallets/dbc-price-ocw/src/lib.rs, the amounts computed from it, and the fixed-point
-- prices of pallets/dbc-price-ocw/src/parse_price.rs.
use native.Mathlib.Nat.{div-lt_iff_lt-mul, div-mul-le_self, lt-div-mul-add, suc-mul}
use deep_brain_chain.Prelude.{
  ℕ, ◌+◌, ◌*◌, ◌/◌, ◌^◌, ◌≤◌, ◌<◌, ◌≡◌, some, none, arith, List, [], ◌∷◌, length, u64_max, Each,
  Each-map,
}
use deep_brain_chain.Price.{
  State, max_len, saturating_total, get_dbc_amount_by_value, fixed_point, one_token,
}

-- A sum of numbers from `low` to `high` that cannot saturate.
saturating_total-bounds :
    (a low high : ℕ) (xs : List ℕ)
    → Each (λ x. (low ≤ x) × (x ≤ high)) xs
    → a + length xs * high ≤ u64_max
    → (a + length xs * low ≤ saturating_total a xs) × (saturating_total a xs ≤ a + length xs * high)
unfolding saturating_total
saturating_total-bounds a low high [] each small = (omega arith, omega arith)
saturating_total-bounds a low high (x ∷ xs) ((ge, le), each) small = ground (
  arith,
  suc-mul (length xs) high,
  suc-mul (length xs) low,
  saturating_total-bounds (a + x) low high xs each,
)

-- For a value that fits a `u64`, there is an amount of tokens exactly when there is a price and it is not
-- zero. The amount is then the value at the price, rounded down: at the price it is worth no more than
-- 10^15 times the value, and one more unit would be worth more.
pub get_dbc_amount_by_value_lem :
    (value : ℕ) (s : State)
    → value ≤ u64_max
    → (s.avg_price ≡ none → get_dbc_amount_by_value value s ≡ none)
      × (s.avg_price ≡ some 0 → get_dbc_amount_by_value value s ≡ none)
      × ((price : ℕ)
          → s.avg_price ≡ some price
          → 0 < price
          → (amount : ℕ) × (get_dbc_amount_by_value value s ≡ some amount)
            × (amount * price ≤ value * one_token)
            × (value * one_token < (amount + 1) * price))
unfolding get_dbc_amount_by_value
get_dbc_amount_by_value_lem value s small = (
  λ e. ground (arith, e),
  λ e. ground (arith, e),
  λ price e pos. (
    value * one_token / price,
    ground (arith, e),
    div-mul-le_self (value * one_token) price,
    omega (arith, lt-div-mul-add {a = value * one_token} {b = price} pos),
  ),
)

-- A price with at most 14 digits after the point, whose fraction times a million fits a `u64`, becomes
-- the price in millionths, rounded down.
pub fixed_point_lem :
    (integer fraction len : ℕ)
    → len < 15
    → fraction * 1_000_000 ≤ u64_max
    → (integer + 1) * 1_000_000 ≤ u64_max
    → fraction < 10 ^ len
    → (p : ℕ) × (fixed_point integer fraction len ≡ some p)
      × (p * 10 ^ len ≤ (integer * 10 ^ len + fraction) * 1_000_000)
      × ((integer * 10 ^ len + fraction) * 1_000_000 < (p + 1) * 10 ^ len)
unfolding fixed_point
fixed_point_lem integer fraction len short small fits proper =
    let q = fraction * 1_000_000 / 10 ^ len in
    let below : q * 10 ^ len ≤ fraction * 1_000_000 =
      div-mul-le_self (fraction * 1_000_000) (10 ^ len) in
    let above : fraction * 1_000_000 < q * 10 ^ len + 10 ^ len = lt-div-mul-add (omega arith) in
    let part : q < 1_000_000 =
      (div-lt_iff_lt-mul {k = 10 ^ len} {x = fraction * 1_000_000} {y = 1_000_000} (omega arith)).1
        (omega arith) in
    (
      integer * 1_000_000 + q,
      ground (arith, short, small, fits, part),
      omega (arith, below),
      omega (arith, above),
    )

-- With 14 digits after the point, a fraction from 0.18446744073710 on saturates: whatever it is, it
-- counts as 184467 millionths.
pub fixed_point-saturates :
    (integer fraction : ℕ)
    → u64_max < fraction * 1_000_000
    → (integer + 1) * 1_000_000 ≤ u64_max
    → fixed_point integer fraction 14 ≡ some (integer * 1_000_000 + 184_467)
unfolding fixed_point
fixed_point-saturates integer fraction large fits = ground (arith, large, fits)

-- The average of a full list of equal prices is that price.
pub saturating_total-equal :
    (v : ℕ) (xs : List ℕ)
    → Each (λ x. x ≡ v) xs
    → length xs ≡ max_len
    → max_len * v ≤ u64_max
    → saturating_total 0 xs / max_len ≡ v
saturating_total-equal v xs each full small =
    let (ge, le) =
      saturating_total-bounds 0 v v xs
        (Each-map (λ x. x ≡ v) (λ x. (v ≤ x) × (x ≤ v)) xs
          (λ x e. (omega (arith, e), omega (arith, e))) each)
        (rw full (omega (arith, small))) in
    omega (arith, rw full at ge, rw full at le)
