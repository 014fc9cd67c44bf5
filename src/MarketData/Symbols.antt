-- ===== src/MarketData/Symbols.antt =====
-- src/MarketDataServer.cpp: the books of a server by symbol, after one of them is put.
use electronic_exchange_simu.Prelude.{
  ℕ, ◌==◌, Bool, true, false, some, List, [], ◌∷◌, ◌≡◌, refl, ap, ◌∙◌, arith, if◌then◌else◌, ==_iff,
}
use electronic_exchange_simu.Wire.{OrderResponse}
use electronic_exchange_simu.MarketData.ServerBook.{ServerBook}
use electronic_exchange_simu.MarketData.Server.{
  MarketDataServer, find_book, put_book, set_book, book_or_new, book_of, updated, update_server,
  publish_l3_update,
}

-- The books by symbol, after one is put.
pub find_book-put_book :
    (j k : ℕ) (b : ServerBook) (m : List (ℕ × ServerBook))
    → find_book j (put_book k b m) ≡ (if k == j then some b else find_book j m)
unfolding find_book put_book
find_book-put_book j k b [] = refl
find_book-put_book j k b ((i, c) ∷ m) = ground (arith, find_book-put_book j k b m)

pub book_of-set_book :
    (s : MarketDataServer) (k : ℕ) (b : ServerBook) (j : ℕ)
    → book_of (set_book s k b) j ≡ (if k == j then b else book_of s j)
book_of-set_book s k b j = ap book_or_new (find_book-put_book j k b s.books) ∙ pushed (k == j)
  where
    pushed :
        (t : Bool)
        → book_or_new (if t then some b else find_book j s.books) ≡ (if t then b else book_of s j)
    pushed true = refl
    pushed false = refl

pub book_of-update_server :
    (s : MarketDataServer) (k : ℕ) (r : OrderResponse) (j : ℕ)
    → book_of (update_server s k r) j ≡ (if k == j then updated (book_of s k) r else book_of s j)
unfolding update_server publish_l3_update
book_of-update_server s k r j = book_of-set_book s k (updated (book_of s k) r) j

-- Only the book of one symbol has changed.
abbrev pub Elsewhere : ℕ → MarketDataServer → MarketDataServer → Type 0
Elsewhere k s s' = (j : ℕ) → (k == j) ≡ false → book_of s' j ≡ book_of s j

pub set_book-Elsewhere :
    (k : ℕ) (s : MarketDataServer) (b : ServerBook) → Elsewhere k s (set_book s k b)
set_book-Elsewhere k s b j e = rw (book_of-set_book s k b j, e) refl

pub update_server-Elsewhere :
    (k : ℕ) (s : MarketDataServer) (r : OrderResponse) → Elsewhere k s (update_server s k r)
update_server-Elsewhere k s r j e = rw (book_of-update_server s k r j, e) refl

pub Elsewhere-trans :
    (k : ℕ) (s t u : MarketDataServer) → Elsewhere k s t → Elsewhere k t u → Elsewhere k s u
Elsewhere-trans k s t u h g j e = g j e ∙ h j e

pub book_of-set_book_self :
    (s : MarketDataServer) (k : ℕ) (b : ServerBook) → book_of (set_book s k b) k ≡ b
book_of-set_book_self s k b = rw (book_of-set_book s k b k, (==_iff k k).1 refl) refl

pub book_of-update_server_self :
    (s : MarketDataServer) (k : ℕ) (r : OrderResponse)
    → book_of (update_server s k r) k ≡ updated (book_of s k) r
book_of-update_server_self s k r = rw (book_of-update_server s k r k, (==_iff k k).1 refl) refl
