-- ===== src/OrderBook/Quiet.antt =====
-- The levels and the matching of src/OrderBook.cpp act alike on a book in recover mode.
use electronic_exchange_simu.Prelude.{
  ℕ, zero, suc, true, Option, none, some, List, [], ◌∷◌, ◌≡◌, refl, ap, ◌∙◌, arith, Option-cases,
  inl, inr, length,
}
use electronic_exchange_simu.Prelude.Int.{ℤ}
use electronic_exchange_simu.Wire.{Side, RejectCode, ExecType}
use electronic_exchange_simu.OrderBook.State.{Order, OrderBook, opposite, set_level}
use electronic_exchange_simu.OrderBook.Price.{pl_to_price}
use electronic_exchange_simu.OrderBook.Response.{send_response}
use electronic_exchange_simu.OrderBook.Levels.{
  link_best, remove_price_level, get_or_create_price_level,
}
use electronic_exchange_simu.OrderBook.Match.{
  Matching, report_fill, fill_one, drop_maker, match_level, next_level, match_step, match_loop,
  finish_match, match_order,
}

-- The book in recover mode, with the responses forgotten.
abbrev pub quiet : OrderBook → OrderBook
quiet b = record b { recover_mode = true; journal = [] }

pub send_response-quiet :
    (b : OrderBook) (e : ExecType) (id x : ℕ) (s : Side) (p : ℤ) (q r : ℕ) (c : RejectCode)
    → quiet (send_response b e id x s p q r c) ≡ quiet b
unfolding send_response
send_response-quiet b e id x s p q r c = ground arith

report_fill-quiet :
    (b : OrderBook) (t m : Order) (s : Side) (p : ℤ) (q : ℕ)
    → quiet (report_fill b t m s p q) ≡ report_fill (quiet b) t m s p q
unfolding report_fill
report_fill-quiet b t m s p q = ground arith

link_best-quiet :
    (b : OrderBook) (s : Side) (i j : Option ℕ)
    → quiet (link_best b s i j) ≡ link_best (quiet b) s i j
unfolding link_best
link_best-quiet b s none j = refl
link_best-quiet b s (some i) j = refl

pub remove_price_level-quiet :
    (b : OrderBook) (i : ℕ) (s : Side)
    → quiet (remove_price_level b i s) ≡ remove_price_level (quiet b) i s
unfolding remove_price_level
remove_price_level-quiet b i s = ground arith

pub get_or_create_price_level-quiet :
    (b : OrderBook) (i : ℕ) (s : Side)
    → quiet (get_or_create_price_level b i s) ≡ get_or_create_price_level (quiet b) i s
unfolding get_or_create_price_level
get_or_create_price_level-quiet b i s = ground arith

-- The same for the loop state of a level.
abbrev quiet_matching : Matching → Matching
quiet_matching m = record m { book = quiet m.book }

fill_one-quiet :
    (s : Side) (p : ℤ) (maker : Order) (rest : List Order) (m : Matching)
    → quiet_matching (fill_one s p maker rest m) ≡ fill_one s p maker rest (quiet_matching m)
unfolding fill_one
fill_one-quiet s p maker rest m = ground arith

match_level-quiet :
    (s : Side) (p : ℤ) (os : List Order) (m : Matching)
    → quiet_matching (match_level s p os m) ≡ match_level s p os (quiet_matching m)
unfolding match_level drop_maker
match_level-quiet s p [] m = refl
match_level-quiet s p (maker ∷ rest) m = ground (
  arith,
  fill_one-quiet s p maker rest m,
  match_level-quiet s p rest (drop_maker maker rest (fill_one s p maker rest m)),
)

match_step-quiet :
    (s : Side) (i : ℕ) (t : Order) (b : OrderBook)
    → let (t', b') = match_step s i t b in (t', quiet b') ≡ match_step s i t (quiet b)
unfolding match_step pl_to_price
match_step-quiet s i t b =
    let m : Matching = record { taker = t; level = b.price_array i; book = b } in
    let after = match_level s (pl_to_price b i) (b.price_array i).orders m in
    rw (← match_level-quiet s (pl_to_price b i) (b.price_array i).orders m)
      (ground (arith, remove_price_level-quiet (set_level after.book i after.level) i (opposite s)))

match_loop-quiet :
    (fuel : ℕ) (s : Side) (px : ℕ) (t : Order) (b : OrderBook)
    → let (t', b') = match_loop fuel s px t b in (t', quiet b') ≡ match_loop fuel s px t (quiet b)
unfolding match_loop next_level
match_loop-quiet zero s px t b = refl
match_loop-quiet (suc fuel) s px t b = elim (Option-cases (next_level s px t b)) [
  | inl e ↦ rw (e, match_loop)
  | inr (i, e) ↦
      rw (e, match_loop)
        (match_loop-quiet fuel s px (match_step s i t b).0 (match_step s i t b).1
          ∙ ap (λ r. match_loop fuel s px r.0 r.1) (match_step-quiet s i t b))
]

finish_match-quiet :
    (s : Side) (px : ℕ) (t : Order) (b : OrderBook)
    → quiet (finish_match s px t b) ≡ finish_match s px t (quiet b)
unfolding finish_match
finish_match-quiet s px t b = ground (arith, get_or_create_price_level-quiet b px s)

pub match_order-quiet :
    (t : Order) (s : Side) (px : ℕ) (b : OrderBook)
    → quiet (match_order t s px b) ≡ match_order t s px (quiet b)
unfolding match_order
match_order-quiet t s px b =
    let fuel = suc (length (b.active_levels (opposite s))) in
    let (t', b') = match_loop fuel s px t b in
    finish_match-quiet s px t' b'
    ∙ ap (λ r. finish_match s px r.0 r.1) (match_loop-quiet fuel s px t b)
