-- ===== src/OrderBook/Indices.antt =====
-- Prices and the indices of their levels, and the identifiers of orders.
use electronic_exchange_simu.Prelude.{
  ℕ, ◌*◌, ◌/◌, ◌^◌, ◌≤◌, ◌<◌, ◌≡◌, ap, ap₂, ◌∙◌, arith, false, if◌then◌else◌,
}
use electronic_exchange_simu.Prelude.Int.{
  ℤ, pos, negsuc, pos_part, neg_part, sub_ℕ, ◌+ℤ◌, ◌-ℤ◌, ◌*ℤ◌, tdiv, ltb_ℤ, to_size_t,
}
use native.Mathlib.Nat.{mul-div_cancel}
use electronic_exchange_simu.OrderBook.State.{OrderBook, combined_order_id, order_half, client_half}
use electronic_exchange_simu.OrderBook.Price.{
  price_to_index, pl_to_price, price_code, price_invalid, truthy,
}

-- The halves of a combined id are the two 32-bit ids that it was made of.
combined_order_id-halves :
    (client_id order_id : ℕ)
    → client_id < 2 ^ 32
    → order_id < 2 ^ 32
    → (client_half (combined_order_id client_id order_id) ≡ client_id)
      × (order_half (combined_order_id client_id order_id) ≡ order_id)
unfolding combined_order_id
combined_order_id-halves client_id order_id h k = omega arith

-- The parts of a product by a natural number, and of a quotient.
pos_part-*ℤ : (a : ℤ) (d : ℕ) → pos_part (a *ℤ pos d) ≡ pos_part a * d
unfolding ◌*ℤ◌
pos_part-*ℤ (pos n) d = ground arith
pos_part-*ℤ (negsuc n) d = ground arith

neg_part-*ℤ : (a : ℤ) (d : ℕ) → neg_part (a *ℤ pos d) ≡ neg_part a * d
unfolding ◌*ℤ◌
neg_part-*ℤ (pos n) d = ground arith
neg_part-*ℤ (negsuc n) d = ground arith

sub_parts : (a : ℤ) → sub_ℕ (pos_part a) (neg_part a) ≡ a
sub_parts (pos n) = ground arith
sub_parts (negsuc n) = ground arith

-- Dividing a multiple.
tdiv-*ℤ : (a : ℤ) (d : ℕ) → 0 < d → tdiv (a *ℤ pos d) d ≡ a
unfolding tdiv
tdiv-*ℤ a d h =
    ap₂ sub_ℕ (ap (λ n. n / d) (pos_part-*ℤ a d) ∙ mul-div_cancel (pos_part a) h)
      (ap (λ n. n / d) (neg_part-*ℤ a d) ∙ mul-div_cancel (neg_part a) h)
    ∙ sub_parts a

sub_cancel : (i : ℕ) (o : ℤ) → (pos i +ℤ o) -ℤ o ≡ pos i
unfolding ◌+ℤ◌ ◌-ℤ◌
sub_cancel i o = ground arith

-- The price of a level leads back to the level, for a positive price step and an index that fits 64
-- bits.
pub price_to_index-pl_to_price :
    (b : OrderBook) (i : ℕ) → 0 < b.min_step → i < 2 ^ 64 → price_to_index b (pl_to_price b i) ≡ i
unfolding price_to_index pl_to_price
price_to_index-pl_to_price b i h k =
    rw (tdiv-*ℤ (pos i +ℤ b.price_index_offset) b.min_step h, sub_cancel i b.price_index_offset)
      (omega arith)

-- The test on an index below the array, above it or in it, and what it bounds.
accepted :
    (q o : ℤ) (n : ℕ)
    → ltb_ℤ q o ≡ false
    → ltb_ℤ (o +ℤ pos n) q ≡ false
    → n < 2 ^ 63
    → to_size_t (q -ℤ o) ≤ n
unfolding ◌+ℤ◌ ◌-ℤ◌
accepted q o n h k small = ground arith

price_invalid-tests :
    (b : OrderBook) (p : ℤ)
    → price_invalid b p ≡ false
    → (ltb_ℤ (tdiv p b.min_step) b.price_index_offset ≡ false)
      × (ltb_ℤ (b.price_index_offset +ℤ pos b.max_price_levels) (tdiv p b.min_step) ≡ false)
unfolding price_invalid price_code
price_invalid-tests b p e = ground arith

-- A price that is accepted has its level at most one past the last, where the number of levels is
-- below 2 ^ 63.
pub price_to_index-accepted :
    (b : OrderBook) (p : ℤ)
    → b.max_price_levels < 2 ^ 63
    → price_invalid b p ≡ false
    → price_to_index b p ≤ b.max_price_levels
unfolding price_to_index
price_to_index-accepted b p small e =
    let (low, high) = price_invalid-tests b p e in
    accepted (tdiv p b.min_step) b.price_index_offset b.max_price_levels low high small

at_end :
    (n : ℕ) (o : ℤ)
    → truthy (
        if ltb_ℤ (pos n +ℤ o) o
        then pos 1
        else if ltb_ℤ (o +ℤ pos n) (pos n +ℤ o)
        then negsuc 0
        else pos 0)
      ≡ false
unfolding ◌+ℤ◌
at_end n o = ground arith

-- The price one step above the last level is accepted, and its level is one past the array, where
-- the price step is positive and the number of levels is below 2 ^ 63.
pub price_invalid-past_the_end :
    (b : OrderBook)
    → 0 < b.min_step
    → b.max_price_levels < 2 ^ 63
    → let p = pl_to_price b b.max_price_levels in
      (price_invalid b p ≡ false) × (price_to_index b p ≡ b.max_price_levels)
unfolding price_invalid price_code pl_to_price
price_invalid-past_the_end b h small = (
  rw (tdiv-*ℤ (pos b.max_price_levels +ℤ b.price_index_offset) b.min_step h)
      (at_end b.max_price_levels b.price_index_offset),
  price_to_index-pl_to_price b b.max_price_levels h (omega arith),
)
