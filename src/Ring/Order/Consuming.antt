-- ===== src/Ring/Order/Consuming.antt =====
-- src/SHMRingBuffer.cpp: acquire and release keep the invariant.
use electronic_exchange_simu.Prelude.{
  ℕ, ◌≡◌, refl, sym, subst, ◌∙◌, Option, some, none, List, [], ◌∷◌, ◌++◌, length, map, arith,
}
use mathlib.Core.List.{append_assoc}
use electronic_exchange_simu.Ring.Memory.{read}
use electronic_exchange_simu.Ring.Shm.{ShmRing, AcquireToken, acquire, release}
use electronic_exchange_simu.Ring.Slots.{after}
use electronic_exchange_simu.Ring.Held.{Bytes, written, Held, Held-le, after_lt}
use electronic_exchange_simu.Ring.Acquired.{acquired_at, acquire_empty, acquire_head}
use electronic_exchange_simu.Ring.System.{System, take_slot}
use electronic_exchange_simu.Ring.Order.{Inv, Holds, bytes_of}
use electronic_exchange_simu.Ring.Order.Bounds.{tail-le-head}

-- What acquire hands out: the oldest message, if there is one.
abbrev pub oldest_token : ℕ → ℕ → List Bytes → Option AcquireToken
oldest_token cap p [] = none
oldest_token cap p (bytes ∷ queue) = some (acquired_at cap p (length bytes))

Holds-oldest_token : (cap p : ℕ) (queue : List Bytes) → Holds cap p (oldest_token cap p queue) queue
Holds-oldest_token cap p [] = tt
Holds-oldest_token cap p (bytes ∷ queue) = refl

module _ (cap : ℕ) (s : System) (inv : Inv cap s) where
  acquire_from :
      (queue : List Bytes)
      → Held cap s.ring.m_data s.ring.cons_head (map written queue) s.ring.prod_tail
      → acquire cap s.ring ≡ (oldest_token cap s.ring.cons_head queue, s.ring)
  acquire_from [] h = acquire_empty cap s.ring h
  acquire_from (bytes ∷ queue) h =
      acquire_head cap s.ring (length bytes) inv.laid h.0
        (Held-le cap s.ring.m_data (after cap s.ring.cons_head (length bytes)) (map written queue)
          s.ring.prod_tail h.2)
        (omega (arith, inv.far, tail-le-head cap s inv))

  -- acquire returns the slot of the oldest message that is committed and not released.
  pub acquire_lem : acquire cap s.ring ≡ (oldest_token cap s.ring.cons_head inv.queue, s.ring)
  acquire_lem = acquire_from inv.queue inv.committed

  holding :
      (held : Option AcquireToken)
      → Holds cap s.ring.cons_head held inv.queue
      → Inv cap (record s { held = held })
  holding held h = record {
    queue = inv.queue;
    oldest = inv.oldest;
    laid = inv.laid;
    committed = inv.committed;
    reserved = inv.reserved;
    room = inv.room;
    far = inv.far;
    tokens = inv.tokens;
    taken = h;
    in_order = inv.in_order;
    history = inv.history;
  }

  pub acquiring-Inv : Inv cap (take_slot s (acquire cap s.ring))
  acquiring-Inv = rw acquire_lem (
      holding (oldest_token cap s.ring.cons_head inv.queue)
        (Holds-oldest_token cap s.ring.cons_head inv.queue))

  abbrev released_system : ShmRing → Bytes → System
  released_system r bytes = record s { ring = r; held = none; received = s.received ++ bytes ∷ [] }

  released-Inv :
      (queue : List Bytes) (t : AcquireToken)
      → Held cap s.ring.m_data s.ring.cons_head (map written queue) s.ring.prod_tail
      → Holds cap s.ring.cons_head (some t) queue
      → bytes_of s.sent ≡ s.received ++ queue
      → Inv cap (
          released_system
            (record s.ring { cons_head = t.new_cons_head })
            (read s.ring.m_data t.payload t.size))
  released-Inv [] t h holds history = absurd holds
  released-Inv (bytes ∷ queue) t h holds history =
      rw (holds, h.1)
        record {
          queue = queue;
          oldest = inv.oldest;
          laid = record {
            exponent = inv.laid.exponent;
            power = inv.laid.power;
            small = inv.laid.small;
            masked = inv.laid.masked;
          };
          committed = h.2;
          reserved = inv.reserved;
          room = omega (arith, inv.room, after_lt cap s.ring.cons_head (length bytes));
          far = inv.far;
          tokens = inv.tokens;
          taken = tt;
          in_order = inv.in_order;
          history = history ∙ sym (append_assoc s.received (bytes ∷ []) queue);
        }

  pub releasing-Inv :
      (t : AcquireToken)
      → s.held ≡ some t
      → Inv cap (released_system (release s.ring t) (read s.ring.m_data t.payload t.size))
  unfolding release
  releasing-Inv t e =
      released-Inv inv.queue t inv.committed
        (subst (λ held. Holds cap s.ring.cons_head held inv.queue) e inv.taken) inv.history
