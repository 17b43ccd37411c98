-- ===== src/Price.antt =====
-- pallets/dbc-price-ocw/src/lib.rs: the prices that the off-chain workers submit, their average, and the
-- amounts of tokens for a value in US dollars.
use deep_brain_chain.Prelude.{
  ℕ, zero, suc, ◌+◌, ◌-◌, ◌*◌, ◌/◌, ◌%◌, ◌^◌, min, Bool, true, false, not, ◌&&◌, Option, none, some,
  List, [], ◌∷◌, ◌++◌, length, Result, ok, err, ◌>>=◌, ◌>>◌, guard, leb, ltb, ◌==◌, if◌then◌else◌,
  saturating_add, checked_mul, u64_max, u128_max,
}
use deep_brain_chain.Frame.Origin.{Origin, ensure_root, ensure_none}
pub mod Window
pub mod Amounts
pub mod Flood
mod Tests

pub data Event : Type 0 where
  add_new_price add_average_price : ℕ → Event

-- Of the pallet's errors, those of its calls.
pub data Error : Type 0 where
  bad_origin index_out_of_range : Error

pub record State : Type 0 where
  pub price_update_frequency : ℕ
  pub prices : List ℕ
  pub price_url : Option (List (List ℕ))
  pub avg_price : Option ℕ
  pub events : List Event

abbrev pub max_len : ℕ
max_len = 64

-- `VecDeque::pop_front`
abbrev pub pop_front : List ℕ → List ℕ
pop_front [] = []
pop_front (x ∷ xs) = xs

-- The price that was submitted is kept.
pub add_price : ℕ → State → State
add_price price s =
    let prices = if leb max_len (length s.prices) then pop_front s.prices else s.prices in
    record s { prices = prices ++ price ∷ []; events = add_new_price price ∷ s.events }

-- `fold(0, saturating_add)`
pub saturating_total : ℕ → List ℕ → ℕ
saturating_total a [] = a
saturating_total a (b ∷ rest) = saturating_total (saturating_add u64_max a b) rest

pub add_avg_price : State → State
add_avg_price s =
    let avg_price = saturating_total 0 s.prices / max_len in
    if length s.prices == max_len
    then record s { avg_price = some avg_price; events = add_average_price avg_price ∷ s.events }
    else s

pub submit_price_unsigned : Origin → ℕ → State → Result Error State
submit_price_unsigned origin price s = do
  ensure_none bad_origin origin
  ok (add_avg_price (add_price price s))

pub submit_price_by_root : Origin → ℕ → State → Result Error State
submit_price_by_root origin price s = do
  ensure_root bad_origin origin
  ok (add_avg_price (add_price price s))

abbrev pub unwrap_or_default : Option (List (List ℕ)) → List (List ℕ)
unwrap_or_default none = []
unwrap_or_default (some urls) = urls

pub add_price_url : Origin → List ℕ → State → Result Error State
add_price_url origin new_url s = do
  ensure_root bad_origin origin
  ok (record s { price_url = some (unwrap_or_default s.price_url ++ new_url ∷ []) })

pub set_price_update_frequency : Origin → ℕ → State → Result Error State
set_price_update_frequency origin frequency s = do
  ensure_root bad_origin origin
  ok (if frequency == 0 then s else record s { price_update_frequency = frequency })

-- `Vec::remove`, below the length.
abbrev remove_at {ℓ} : {A : Type ℓ} → ℕ → List A → List A
remove_at i [] = []
remove_at zero (x ∷ xs) = xs
remove_at (suc i) (x ∷ xs) = x ∷ remove_at i xs

abbrev non_empty : List (List ℕ) → Option (List (List ℕ))
non_empty [] = none
non_empty (x ∷ xs) = some (x ∷ xs)

pub rm_price_url_by_index : Origin → ℕ → State → Result Error State
rm_price_url_by_index origin index s = do
  ensure_root bad_origin origin
  guard (ltb index (length (unwrap_or_default s.price_url))) index_out_of_range
  ok (record s { price_url = non_empty (remove_at index (unwrap_or_default s.price_url)) })

pub data Call : Type 0 where
  submit_unsigned submit_by_root : (price : ℕ) → Call
  add_url : (url : List ℕ) → Call
  set_frequency : (frequency : ℕ) → Call
  rm_url : (index : ℕ) → Call

pub record ValidTransaction : Type 0 where
  pub priority : ℕ
  -- The bytes of the tag, after the prefix "dbc-price".
  pub provides : List ℕ
  pub longevity : ℕ
  pub propagate : Bool

pub data Validity : Type 0 where
  valid : ValidTransaction → Validity
  invalid_call : Validity

-- The bytes of "submit_price_unsigned".
abbrev price_tag : List ℕ
price_tag =
    115 ∷ 117 ∷ 98 ∷ 109 ∷ 105 ∷ 116 ∷ 95 ∷ 112 ∷ 114 ∷ 105 ∷ 99 ∷ 101 ∷ 95 ∷ 117 ∷ 110 ∷ 115 ∷ 105
    ∷ 103 ∷ 110 ∷ 101 ∷ 100 ∷ []

-- One tag for all prices, so that the pool of transactions holds one such call at a time.
abbrev pub price_ticket : ValidTransaction
price_ticket = record { priority = 100; provides = price_tag; longevity = 3; propagate = true }

pub validate_unsigned : Call → Validity
validate_unsigned (submit_unsigned price) = valid price_ticket
validate_unsigned _ = invalid_call

-- Whether the off-chain worker asks for a price in a block.
pub asks_price : ℕ → State → Bool
asks_price block_number s = elim s.price_url [
  | none ↦ false
  | some urls ↦ not (s.price_update_frequency == 0) && block_number % s.price_update_frequency == 0
]

abbrev one_token : ℕ
one_token = 1_000_000_000_000_000

-- `checked_mul(one)?.checked_div(price)`
abbrev amount_of : ℕ → ℕ → Option ℕ
amount_of value price = elim (checked_mul u128_max value one_token) [
  | none ↦ none
  | some product ↦ if price == 0 then none else some (product / price)
]

pub get_dbc_price : State → Option ℕ
get_dbc_price s = s.avg_price

pub get_dbc_amount_by_value : ℕ → State → Option ℕ
get_dbc_amount_by_value value s = elim s.avg_price [
  | none ↦ none
  | some dbc_price ↦ amount_of value dbc_price
]

-- The price of DLC is fixed here; pallets/dlc-price-ocw has the same code with its own average.
pub get_dlc_amount_by_value : ℕ → State → Option ℕ
get_dlc_amount_by_value value s = amount_of value 3000

-- The fixed-point number of `parse_price` for a JSON number with an integer part, a fraction and the
-- length of the fraction.
pub fixed_point : ℕ → ℕ → ℕ → Option ℕ
fixed_point integer fraction fraction_length =
    if leb 15 fraction_length
    then none
    else some (
        saturating_add u64_max (min (integer * 1_000_000) u64_max)
          (min (fraction * 1_000_000) u64_max / 10 ^ fraction_length))
