-- ===== src/Price/Tests.antt =====
-- Runs of pallets/dbc-price-ocw/src/lib.rs, and its theorems at concrete states.
use deep_brain_chain.Prelude.{ℕ, ◌+◌, ◌*◌, ◌≤◌, ◌<◌, ◌≡◌, refl, Option, some, none, arith, [], ◌∷◌}
use deep_brain_chain.Frame.Origin.{root, unsigned}
use deep_brain_chain.Price.{
  State, add_price, add_avg_price, submit_price_unsigned, submit_price_by_root, add_price_url,
  rm_price_url_by_index, submit_unsigned, submit_by_root, add_url, rm_url, validate_unsigned, valid,
  price_ticket, get_dbc_amount_by_value, add_new_price, fixed_point, max_len,
}
use deep_brain_chain.Price.Window.{
  Implements, window, average, dispatch, Reach, here, next, Reach-Implements,
}
use deep_brain_chain.Price.Amounts.{get_dbc_amount_by_value_lem, fixed_point-saturates}
use deep_brain_chain.Price.Flood.{flooded, flooded-average}

abbrev start : State
start = record {
  price_update_frequency = 10;
  prices = [];
  price_url = none;
  avg_price = none;
  events = [];
}

start-Implements : Implements start []
unfolding window average
start-Implements = record { same_prices = refl; same_average = refl }

abbrev priced_state : State
priced_state = record start {
  prices = 3200 ∷ 3300 ∷ [];
  events = add_new_price 3300 ∷ add_new_price 3200 ∷ [];
}

to_priced : Reach start (3200 ∷ 3300 ∷ []) priced_state
unfolding dispatch submit_price_unsigned submit_price_by_root add_price add_avg_price add_price_url
    rm_price_url_by_index
to_priced =
    next
      (next (next (next here unsigned (submit_unsigned 3200) refl) root (add_url (1 ∷ [])) refl)
        root (submit_by_root 3300) refl)
      root (rm_url 0) refl

Reach-Implements_example : Implements priced_state (3200 ∷ 3300 ∷ [])
Reach-Implements_example = Reach-Implements start-Implements to_priced

flooded-average_example :
    (validate_unsigned (submit_unsigned 7) ≡ valid price_ticket)
    × ((flooded max_len 7 start).avg_price ≡ some 7)
flooded-average_example = flooded-average 7 start [] start-Implements (omega arith)

-- 10 dollars at 0.0033 dollars.
get_dbc_amount_by_value_lem_example :
    (◌≡◌ {A = Option ℕ} (some 3300) none
      → get_dbc_amount_by_value 10_000_000 (record start { avg_price = some 3300 }) ≡ none)
    × (◌≡◌ {A = Option ℕ} (some 3300) (some 0)
        → get_dbc_amount_by_value 10_000_000 (record start { avg_price = some 3300 }) ≡ none)
    × ((price : ℕ)
        → ◌≡◌ {A = Option ℕ} (some 3300) (some price)
        → 0 < price
        → (amount : ℕ) × (get_dbc_amount_by_value 10_000_000
              (record start { avg_price = some 3300 })
            ≡ some amount)
          × (amount * price ≤ 10_000_000 * 1_000_000_000_000_000)
          × (10_000_000 * 1_000_000_000_000_000 < (amount + 1) * price))
get_dbc_amount_by_value_lem_example =
    get_dbc_amount_by_value_lem 10_000_000 (record start { avg_price = some 3300 }) (omega arith)

-- 0.51234567890123
fixed_point-saturates_example : fixed_point 0 51234567890123 14 ≡ some 184_467
fixed_point-saturates_example = fixed_point-saturates 0 51234567890123 (omega arith) (omega arith)
