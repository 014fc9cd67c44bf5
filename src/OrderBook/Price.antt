-- ===== src/OrderBook/Price.antt =====
-- price_to_index, pl_to_price and price_invalid of include/service/OrderBook.hpp.
use electronic_exchange_simu.Prelude.{ℕ, Bool, true, false, if◌then◌else◌}
use electronic_exchange_simu.Prelude.Int.{ℤ, pos, negsuc, ◌+ℤ◌, ◌-ℤ◌, ◌*ℤ◌, tdiv, ltb_ℤ, to_size_t}
use electronic_exchange_simu.OrderBook.State.{OrderBook}

unfoldable pub price_to_index : OrderBook → ℤ → ℕ
price_to_index b price = to_size_t (tdiv price b.min_step -ℤ b.price_index_offset)

-- The source's size_t result is read back as int64_t by sendResponse, which restores the sign.
unfoldable pub pl_to_price : OrderBook → ℕ → ℤ
pl_to_price b i = (pos i +ℤ b.price_index_offset) *ℤ pos b.min_step

-- 1 below the array, -1 above it, 0 otherwise.
unfoldable pub price_code : OrderBook → ℤ → ℤ
price_code b price =
    if ltb_ℤ (tdiv price b.min_step) b.price_index_offset
    then pos 1
    else if ltb_ℤ (b.price_index_offset +ℤ pos b.max_price_levels) (tdiv price b.min_step)
    then negsuc 0
    else pos 0

-- An int as a condition.
abbrev pub truthy : ℤ → Bool
truthy (pos n) = if ltb_ℤ (pos 0) (pos n) then true else false
truthy (negsuc n) = true

unfoldable pub price_invalid : OrderBook → ℤ → Bool
unfolding price_code
price_invalid b price = truthy (price_code b price)
