-- ===== src/MarketData/Rebuild.antt =====
-- src/MarketDataServer.cpp: what the snapshot of a book makes of a client's L2 book.
use electronic_exchange_simu.Prelude.{
  ℕ, ◌==◌, ◌&&◌, ◌||◌, Bool, true, false, Option, none, some, List, [], ◌∷◌, ◌++◌, ◌≡◌, refl, ap,
  ap₂, ◌∙◌, if◌then◌else◌, ==_iff, Bool-cases, inl, inr,
}
use electronic_exchange_simu.Prelude.Int.{ℤ, pos, eq_ℤ, eq_ℤ_iff}
use electronic_exchange_simu.Wire.{Side, buy, sell, no_side, side_eq}
use electronic_exchange_simu.OrderBook.Handlers.{is_some}
use electronic_exchange_simu.Feed.L2Book.{L2Book, L2Update, update_l2, apply_l2, quantity}
use electronic_exchange_simu.Feed.L3Book.{L3PriceLevel, level_or_new}
use electronic_exchange_simu.Feed.Latest.{
  AllTrading, AllTrading-append, or_else, said, value_or, last_update, last_update-append,
  quantity-apply_l2,
}
use electronic_exchange_simu.MarketData.ServerBook.{ServerBook}
use electronic_exchange_simu.MarketData.Server.{MdMessage, l2_batch, l3_batch, MarketDataServer}
use electronic_exchange_simu.MarketData.Snapshots.{
  level_updates, first_one, all_but_first, top_updates, rest_updates, send_top_of_book, send_rest,
  send_l2_snapshot, send_to,
}
use electronic_exchange_simu.MarketData.Keys.{has_key}
use electronic_exchange_simu.MarketData.Keyed.{IsKeyed}

-- A client's L2 book after the messages that were sent to it, the newest first in the list.
abbrev pub after_messages : ℕ → L2Book → List (ℕ × MdMessage) → L2Book
after_messages me c [] = c
after_messages me c ((to, l2_batch k n t us) ∷ older) =
    if to == me then apply_l2 (after_messages me c older) us else after_messages me c older
after_messages me c ((to, l3_batch k n t us) ∷ older) = after_messages me c older

abbrev pub total_at : ServerBook → Side → ℤ → ℕ
total_at b s p = (level_or_new (b.md.book.levels s p)).total_qty

combine :
    (v : ℕ) (g h : Bool) (x y : Option ℕ)
    → x ≡ (if g then some v else none)
    → y ≡ (if h then some v else none)
    → or_else y x ≡ (if g || h then some v else none)
combine v true true x y e k = rw (e, k)
combine v true false x y e k = rw (e, k)
combine v false true x y e k = rw (e, k)
combine v false false x y e k = rw (e, k)

nothing : (a : Bool) (v : ℕ) → none ≡ (if a && false then some v else none)
nothing true v = refl
nothing false v = refl

distributes : (a x y : Bool) → (a && x) || (a && y) ≡ (a && (if x then true else y))
distributes true true y = refl
distributes true false y = refl
distributes false x y = refl

or_nothing : (a : Bool) → (a || false) ≡ a
or_nothing true = refl
or_nothing false = refl

one_side :
    (s : Side)
    → side_eq s no_side ≡ false
    → (f : Side → Bool) → ((side_eq buy s && f buy) || (side_eq sell s && f sell)) ≡ f s
one_side buy h f = or_nothing (f buy)
one_side sell h f = refl
one_side no_side h f = cc

side_eq-true : (s t : Side) → side_eq s t ≡ true → s ≡ t
side_eq-true buy buy h = refl
side_eq-true sell sell h = refl
side_eq-true no_side no_side h = refl
side_eq-true buy sell h = cc
side_eq-true buy no_side h = cc
side_eq-true sell buy h = cc
side_eq-true sell no_side h = cc
side_eq-true no_side buy h = cc
side_eq-true no_side sell h = cc

level_updates-AllTrading :
    (b : ServerBook) (side : Side) (ps : List ℤ)
    → side_eq side no_side ≡ false
    → AllTrading (level_updates b side ps)
level_updates-AllTrading b side [] h = tt
level_updates-AllTrading b side (p ∷ ps) h = (h, level_updates-AllTrading b side ps h)

first_or_rest :
    (qs : List ℤ) (p : ℤ) (v : ℕ)
    → value_or
        (if has_key p (all_but_first qs) then some v else none)
        (value_or (if has_key p (first_one qs) then some v else none) 0)
      ≡ (if has_key p qs then v else 0)
first_or_rest [] p v = refl
first_or_rest (q ∷ qs) p v = three (eq_ℤ q p) (has_key p qs)
  where
    three :
        (a h : Bool)
        → value_or
            (if h then some v else none)
            (value_or (if (if a then true else false) then some v else none) 0)
          ≡ (if (if a then true else h) then v else 0)
    three true true = refl
    three true false = refl
    three false true = refl
    three false false = refl

total_or_0 :
    (o : Option L3PriceLevel)
    → (if is_some o then (level_or_new o).total_qty else 0) ≡ (level_or_new o).total_qty
total_or_0 none = refl
total_or_0 (some l) = refl

module _ (b : ServerBook) (s : Side) (p : ℤ) (trading : side_eq s no_side ≡ false) where
  -- The batch gives the level's total at p if h.
  abbrev Says : List L2Update → Bool → Type 0
  Says us h = last_update us s p ≡ (if h then some (total_at b s p) else none)

  Says-append :
      (xs ys : List L2Update) (g h : Bool) → Says xs g → Says ys h → Says (xs ++ ys) (g || h)
  Says-append xs ys g h e k =
      last_update-append xs ys s p
      ∙ combine (total_at b s p) g h (last_update xs s p) (last_update ys s p) e k

  level_updates-Says :
      (side : Side) (ps : List ℤ) → Says (level_updates b side ps) (side_eq side s && has_key p ps)
  level_updates-Says side [] = nothing (side_eq side s) (total_at b s p)
  level_updates-Says side (q ∷ qs) =
      combine (total_at b s p) (side_eq side s && eq_ℤ q p) (side_eq side s && has_key p qs)
        (said side q (total_at b side q) s p) (last_update (level_updates b side qs) s p) own
        (level_updates-Says side qs)
      ∙ ap (λ h. if h then some (total_at b s p) else none)
          (distributes (side_eq side s) (eq_ℤ q p) (has_key p qs))
    where
      own :
          said side q (total_at b side q) s p
          ≡ (if side_eq side s && eq_ℤ q p then some (total_at b s p) else none)
      own = elim (Bool-cases (side_eq side s)) [
        | inl same ↦ elim (Bool-cases (eq_ℤ q p)) [
          | inl here ↦
              rw (same, here)
                (ap₂ (λ x y. some (total_at b x y)) (side_eq-true side s same)
                  ((eq_ℤ_iff q p).0 here))
          | inr other ↦ rw (same, other)
        ]
        | inr apart ↦ rw apart
      ]

  top_Says :
      Says
        (level_updates b buy (first_one (b.keys buy))
          ++ level_updates b sell (first_one (b.keys sell)))
        (has_key p (first_one (b.keys s)))
  top_Says =
      Says-append (level_updates b buy (first_one (b.keys buy)))
        (level_updates b sell (first_one (b.keys sell))) _ _
        (level_updates-Says buy (first_one (b.keys buy)))
        (level_updates-Says sell (first_one (b.keys sell)))
      ∙ ap (λ h. if h then some (total_at b s p) else none)
          (one_side s trading (λ t. has_key p (first_one (b.keys t))))

  rest_Says : Says (rest_updates b) (has_key p (all_but_first (b.keys s)))
  unfolding rest_updates
  rest_Says =
      Says-append (level_updates b buy (all_but_first (b.keys buy)))
        (level_updates b sell (all_but_first (b.keys sell))) _ _
        (level_updates-Says buy (all_but_first (b.keys buy)))
        (level_updates-Says sell (all_but_first (b.keys sell)))
      ∙ ap (λ h. if h then some (total_at b s p) else none)
          (one_side s trading (λ t. has_key p (all_but_first (b.keys t))))

  quantity_cleared : (c : L2Book) → quantity (update_l2 c no_side (pos 0) 0) s p ≡ 0
  unfolding update_l2
  quantity_cleared c = by_side s trading
    where
      by_side :
          (t : Side) → side_eq t no_side ≡ false → quantity (update_l2 c no_side (pos 0) 0) t p ≡ 0
      by_side buy h = refl
      by_side sell h = refl
      by_side no_side h = refl

  -- The first batch leaves the best levels, and the second one adds the others.
  quantity_top :
      (c : L2Book)
      → quantity (apply_l2 c (top_updates b)) s p
        ≡ value_or (if has_key p (first_one (b.keys s)) then some (total_at b s p) else none) 0
  unfolding top_updates apply_l2
  quantity_top c =
      quantity-apply_l2 (update_l2 c no_side (pos 0) 0)
        (level_updates b buy (first_one (b.keys buy))
          ++ level_updates b sell (first_one (b.keys sell)))
        s p
        (AllTrading-append (level_updates b buy (first_one (b.keys buy)))
          (level_updates b sell (first_one (b.keys sell)))
          (level_updates-AllTrading b buy (first_one (b.keys buy)) refl)
          (level_updates-AllTrading b sell (first_one (b.keys sell)) refl))
        trading
      ∙ ap₂ value_or top_Says (quantity_cleared c)

  rest-AllTrading : AllTrading (rest_updates b)
  unfolding rest_updates
  rest-AllTrading =
      AllTrading-append (level_updates b buy (all_but_first (b.keys buy)))
        (level_updates b sell (all_but_first (b.keys sell)))
        (level_updates-AllTrading b buy (all_but_first (b.keys buy)) refl)
        (level_updates-AllTrading b sell (all_but_first (b.keys sell)) refl)

  quantity_both :
      IsKeyed b
      → (c : L2Book)
      → quantity (apply_l2 (apply_l2 c (top_updates b)) (rest_updates b)) s p ≡ total_at b s p
  quantity_both keyed c =
      quantity-apply_l2 (apply_l2 c (top_updates b)) (rest_updates b) s p rest-AllTrading trading
      ∙ (ap₂ value_or rest_Says (quantity_top c)
          ∙ (first_or_rest (b.keys s) p (total_at b s p)
              ∙ (ap (λ h. if h then total_at b s p else 0) (keyed.exact s p trading)
                  ∙ total_or_0 (b.md.book.levels s p))))

sent_messages :
    (srv : MarketDataServer) (client symbol_id : ℕ) (b : ServerBook) (c : L2Book)
    (us : List L2Update)
    → after_messages client c
        (send_rest
          (send_to srv client (l2_batch symbol_id 0 0 (top_updates b)))
          client
          symbol_id
          us).sent
      ≡ apply_l2 (apply_l2 (after_messages client c srv.sent) (top_updates b)) us
unfolding apply_l2
sent_messages srv client symbol_id b c [] = rw ((==_iff client client).1 refl) refl
sent_messages srv client symbol_id b c (u ∷ us) = rw ((==_iff client client).1 refl) refl

-- A client that applies the messages of an L2 snapshot, whatever its book and the older messages,
-- has at every price of both sides the total of the server's level, and 0 where there is none. The
-- side is Buy or Sell, and the keys of the server's book are those of its levels, each once and in
-- order.
pub send_l2_snapshot_rebuilds :
    (srv : MarketDataServer) (client symbol_id : ℕ) (b : ServerBook) (c : L2Book) (s : Side) (p : ℤ)
    → side_eq s no_side ≡ false
    → IsKeyed b
    → quantity (after_messages client c (send_l2_snapshot srv client symbol_id b).sent) s p
      ≡ total_at b s p
unfolding send_l2_snapshot send_top_of_book
send_l2_snapshot_rebuilds srv client symbol_id b c s p trading keyed =
    ap (λ x. quantity x s p) (sent_messages srv client symbol_id b c (rest_updates b))
    ∙ quantity_both b s p trading keyed (after_messages client c srv.sent)
