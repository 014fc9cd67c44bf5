-- ===== src/Ring/Order/Flights.antt =====
-- src/SHMRingBuffer.cpp: one reservation among those in flight.
use electronic_exchange_simu.Prelude.{
  ℕ, ◌+◌, ◌≡◌, refl, sym, subst, ◌∙◌, Option, some, none, List, [], ◌∷◌, ◌++◌, length, map,
}
use electronic_exchange_simu.Ring.Memory.{Memory}
use electronic_exchange_simu.Ring.Slots.{after}
use electronic_exchange_simu.Ring.Held.{Bytes, slot_size, Held}
use electronic_exchange_simu.Ring.System.{Flight}
use electronic_exchange_simu.Ring.Order.{slot, slot_of, HasSize, Consecutive}

slot_size_lem : (n : ℕ) (c : Option Bytes) → HasSize n c → slot_size (slot_of n c) ≡ n
slot_size_lem n none h = refl
slot_size_lem n (some bytes) h = h

-- The producer's write to its slot.
abbrev pub with_content : Flight → Bytes → Flight
with_content f bytes = record f { content = some bytes }

module _ (cap : ℕ) (m : Memory) (f : Flight) (ys : List Flight) (to : ℕ) where
  -- The flight f stands at position `at`, behind the flights xs and before ys.
  pub record Stands (p k end : ℕ) (xs : List Flight) : Type 0 where
    pub at : ℕ
    pub before : Held cap m p (map slot xs) at
    pub own : Held cap m at (map slot (f ∷ ys)) to
    pub number : ℕ
    pub tokens : Consecutive cap at number end (f ∷ ys)
    pub sized : slot_size (slot f) ≡ f.token.size

  pub stands :
      (p k end : ℕ) (xs : List Flight)
      → Held cap m p (map slot (xs ++ f ∷ ys)) to
      → Consecutive cap p k end (xs ++ f ∷ ys)
      → Stands p k end xs
  stands p k end [] h t = record {
    at = p;
    before = refl;
    own = h;
    number = k;
    tokens = t;
    sized = slot_size_lem f.token.size f.content t.2;
  }
  stands p k end (x ∷ xs) h t =
      let rest : Stands (after cap p (slot_size (slot x))) (k + 1) end xs =
        stands (after cap p (slot_size (slot x))) (k + 1) end xs h.2 t.3 in
      record {
        at = rest.at;
        before = (h.0, h.1, rest.before);
        own = rest.own;
        number = rest.number;
        tokens = rest.tokens;
        sized = rest.sized;
      }

  pub Consecutive-with_content :
      (p k end : ℕ) (xs : List Flight) (bytes : Bytes)
      → length bytes ≡ f.token.size
      → Consecutive cap p k end (xs ++ f ∷ ys)
      → Consecutive cap p k end (xs ++ with_content f bytes ∷ ys)
  Consecutive-with_content p k end [] bytes e t = (
    t.0,
    t.1,
    e,
    subst (λ n. Consecutive cap (after cap p n) (k + 1) end ys)
        (slot_size_lem f.token.size f.content t.2 ∙ sym e) t.3,
  )
  Consecutive-with_content p k end (x ∷ xs) bytes e t = (
    t.0,
    t.1,
    t.2,
    Consecutive-with_content (after cap p (slot_size (slot x))) (k + 1) end xs bytes e t.3,
  )
