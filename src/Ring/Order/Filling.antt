-- ===== src/Ring/Order/Filling.antt =====
-- src/SHMRingBuffer.cpp: a producer's write to its slot keeps the invariant.
use electronic_exchange_simu.Prelude.{
  ℕ, ◌+◌, ◌%◌, ◌≤◌, ◌<◌, ◌≡◌, sym, subst, ap, inl, inr, ◌∙◌, List, ◌∷◌, ◌++◌, length, map, arith,
}
use mathlib.Core.List.{map-append}
use native.Mathlib.Nat.{mod-lt}
use electronic_exchange_simu.Ring.Memory.{Memory, copy, copy_frame, load32_agree, read-copy}
use electronic_exchange_simu.Ring.Shm.{ShmRing, fill}
use electronic_exchange_simu.Ring.Slots.{base, after}
use electronic_exchange_simu.Ring.Held.{
  Bytes, Slot, written, slot_size, HasHeader, Held, Held-le, Held-append, Held_before, Held_behind,
  Writes,
}
use electronic_exchange_simu.Ring.Claims.{IsLaid-pos, outside}
use electronic_exchange_simu.Ring.System.{Flight, System}
use electronic_exchange_simu.Ring.Order.{slot, Inv}
use electronic_exchange_simu.Ring.Order.Bounds.{cons-le-tail}
use electronic_exchange_simu.Ring.Order.Flights.{
  with_content, Stands, stands, Consecutive-with_content,
}

module _ (cap : ℕ) (pos : 0 < cap) (m : Memory) (p : ℕ) (bytes : Bytes) where
  abbrev filled : Memory
  filled = copy m (base cap p (length bytes) + 4) bytes

  filled-Writes : Writes cap pos m filled p (length bytes)
  filled-Writes i apart = sym (
      copy_frame m (base cap p (length bytes) + 4) bytes i (
        outside (base cap p (length bytes) + 4) (base cap p (length bytes) + 4 + length bytes) i
          (λ lo hi. apart (inr (omega arith, omega arith)))))

  -- The body lies behind the header, and before the marker.
  filled-HasHeader :
      after cap p (length bytes) ≤ p + cap
      → HasHeader cap m p (length bytes)
      → HasHeader cap filled p (length bytes)
  filled-HasHeader room h = record {
    not_empty = h.not_empty;
    fits = h.fits;
    marked = λ w.
        load32_agree filled m (p % cap) (λ i lo hi.
          copy_frame m (base cap p (length bytes) + 4) bytes i (inr (ground (arith, mod-lt p pos))))
        ∙ h.marked w;
    sized =
        load32_agree filled m (base cap p (length bytes))
          (λ i lo hi. copy_frame m (base cap p (length bytes) + 4) bytes i (inl (omega arith)))
        ∙ h.sized;
  }

module _ (cap : ℕ) (s : System) (inv : Inv cap s) (xs : List Flight) (f : Flight)
    (ys : List Flight) where
  module _ (bytes : Bytes) (among : s.flights ≡ xs ++ f ∷ ys)
      (sized : length bytes ≡ f.token.size) where
    place : Stands cap s.ring.m_data f ys s.ring.prod_head s.ring.prod_tail inv.oldest s.claimed xs
    place =
        stands cap s.ring.m_data f ys s.ring.prod_head s.ring.prod_tail inv.oldest s.claimed xs
          (rw among at inv.reserved) (rw among at inv.tokens)

    abbrev p : ℕ
    p = place.at

    payload_at : f.token.payload ≡ base cap p (length bytes) + 4
    payload_at = rw sized (ap (λ t. t.payload) place.tokens.1)

    size_at : slot_size (slot f) ≡ length bytes
    size_at = place.sized ∙ sym sized

    pos : 0 < cap
    pos = IsLaid-pos cap s.ring inv.laid

    abbrev m' : Memory
    m' = filled cap pos s.ring.m_data p bytes

    filled_ring : ShmRing
    filled_ring = record s.ring { m_data = m' }

    fill_at : fill s.ring f.token bytes ≡ filled_ring
    unfolding fill filled_ring
    fill_at = ap (λ q. record s.ring { m_data = copy s.ring.m_data q bytes }) payload_at

    own_header : HasHeader cap s.ring.m_data p (length bytes)
    own_header = subst (λ n. HasHeader cap s.ring.m_data p n) size_at place.own.0

    rest_behind : Held cap s.ring.m_data (after cap p (length bytes)) (map slot ys) s.ring.prod_head
    rest_behind =
        subst (λ n. Held cap s.ring.m_data (after cap p n) (map slot ys) s.ring.prod_head) size_at
          place.own.2

    -- The slot lies within one capacity from the consumer's head.
    within :
        (s.ring.prod_tail ≤ p)
        × (after cap p (length bytes) ≤ s.ring.prod_head)
        × (s.ring.prod_head ≤ s.ring.cons_head + cap)
        × (s.ring.cons_head ≤ s.ring.prod_tail)
    within = (
      Held-le cap s.ring.m_data s.ring.prod_tail (map slot xs) p place.before,
      Held-le cap s.ring.m_data (after cap p (length bytes)) (map slot ys) s.ring.prod_head
          rest_behind,
      inv.room,
      cons-le-tail cap s inv,
    )

    written_before :
        (q : ℕ) (ss : List Slot) (to : ℕ)
        → to ≤ p
        → after cap p (length bytes) ≤ q + cap
        → Held cap s.ring.m_data q ss to
        → Held cap m' q ss to
    written_before =
        Held_before cap pos s.ring.m_data m' p (length bytes) own_header.fits
          (filled-Writes cap pos s.ring.m_data p bytes)

    written_reserved :
        Held cap m' s.ring.prod_tail (map slot (xs ++ with_content f bytes ∷ ys)) s.ring.prod_head
    written_reserved =
        subst (λ ss. Held cap m' s.ring.prod_tail ss s.ring.prod_head)
          (sym (map-append slot xs (with_content f bytes ∷ ys)))
          (Held-append cap m' s.ring.prod_tail (map slot xs) (written bytes ∷ map slot ys) p
            s.ring.prod_head
            (written_before s.ring.prod_tail (map slot xs) p (omega arith) (omega (arith, within))
              place.before)
            (
              filled-HasHeader cap pos s.ring.m_data p bytes (omega (arith, within)) own_header,
              read-copy s.ring.m_data (base cap p (length bytes) + 4) bytes,
              Held_behind cap pos s.ring.m_data m' p (length bytes) own_header.fits
                  (filled-Writes cap pos s.ring.m_data p bytes) (after cap p (length bytes))
                  (map slot ys) s.ring.prod_head (omega arith) (omega (arith, within)) rest_behind,
            ))

    filled-Inv :
        Inv cap (record s { ring = filled_ring; flights = xs ++ with_content f bytes ∷ ys })
    unfolding filled_ring
    filled-Inv = record {
      queue = inv.queue;
      oldest = inv.oldest;
      laid = record {
        exponent = inv.laid.exponent;
        power = inv.laid.power;
        small = inv.laid.small;
        masked = inv.laid.masked;
      };
      committed =
          written_before s.ring.cons_head (map written inv.queue) s.ring.prod_tail within.0
            (omega (arith, within)) inv.committed;
      reserved = written_reserved;
      room = inv.room;
      far = inv.far;
      tokens =
          Consecutive-with_content cap s.ring.m_data f ys s.ring.prod_head s.ring.prod_tail
            inv.oldest s.claimed xs bytes sized (rw among at inv.tokens);
      taken = inv.taken;
      in_order = inv.in_order;
      history = inv.history;
    }

    pub filling-Inv :
        Inv cap
          (record s { ring = fill s.ring f.token bytes; flights = xs ++ with_content f bytes ∷ ys })
    filling-Inv = rw fill_at filled-Inv
