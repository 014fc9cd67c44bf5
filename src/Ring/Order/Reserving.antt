-- ===== src/Ring/Order/Reserving.antt =====
-- src/SHMRingBuffer.cpp: reserve keeps the invariant.
use electronic_exchange_simu.Prelude.{
  ℕ, ◌+◌, ◌*◌, ◌^◌, ◌≤◌, ◌<◌, ◌≡◌, refl, sym, subst, true, false, Option, some, none, List, [], ◌∷◌,
  ◌++◌, map, arith, Bool, ap, ◌∙◌, if◌then◌else◌,
}
use mathlib.Core.List.{map-append}
use native.Mathlib.Nat.{mod-lt}
use electronic_exchange_simu.Ring.Memory.{Memory}
use electronic_exchange_simu.Ring.Shm.{ShmRing, ReserveToken, claim}
use electronic_exchange_simu.Ring.Slots.{after}
use electronic_exchange_simu.Ring.Held.{
  Slot, written, blank, slot_size, Held, Held-append, Held_before,
}
use electronic_exchange_simu.Ring.Claims.{
  IsLaid-pos, token_at, accepts, claim_lem, put, put-HasHeader, put-Writes,
}
use electronic_exchange_simu.Ring.System.{Flight, System}
use electronic_exchange_simu.Ring.Order.{slot, Consecutive, Inv}
use electronic_exchange_simu.Ring.Order.Bounds.{cons-le-tail, tail-le-head}

module _ (cap : ℕ) where
  Consecutive-append :
      (m : ℕ → ℕ) (p k end : ℕ) (fs : List Flight) (to n : ℕ)
      → Held cap m p (map slot fs) to
      → Consecutive cap p k end fs
      → Consecutive cap p k
          (end + 1)
          (fs ++ record { number = end; token = token_at cap to n; content = none } ∷ [])
  Consecutive-append m p k end [] to n at h = (
    sym h,
    subst (λ q. token_at cap to n ≡ token_at cap q n) (sym at) refl,
    tt,
    ap (λ t. t + 1) h,
  )
  Consecutive-append m p k end (f ∷ fs) to n at h = (
    h.0,
    h.1,
    h.2,
    Consecutive-append m (after cap p (slot_size (slot f))) (k + 1) end fs to n at.2 h.3,
  )

  some-injective : {a b : ReserveToken × ShmRing} → some a ≡ some b → a ≡ b
  some-injective e = cc

  module _ (s : System) (inv : Inv cap s) (seen n : ℕ) (old : seen ≤ s.ring.cons_head) where
    abbrev reserved_ring : ShmRing
    reserved_ring = record s.ring {
      prod_head = after cap s.ring.prod_head n;
      m_data = put cap s.ring.m_data s.ring.prod_head n;
    }

    abbrev reserved_system : ReserveToken → ShmRing → System
    reserved_system t r = record s {
      ring = r;
      flights = s.flights ++ record { number = s.claimed; token = t; content = none } ∷ [];
      claimed = s.claimed + 1;
    }

    abbrev made : Option (ReserveToken × ShmRing)
    made = some (token_at cap s.ring.prod_head n, reserved_ring)

    reserved-Inv :
        0 < n
        → 4 + n ≤ cap
        → after cap s.ring.prod_head n ≤ seen + cap
        → s.ring.prod_head + 2 * cap < 2 ^ 64
        → Inv cap (reserved_system (token_at cap s.ring.prod_head n) reserved_ring)
    reserved-Inv nonempty fits room far = record {
      queue = inv.queue;
      oldest = inv.oldest;
      laid = record {
        exponent = inv.laid.exponent;
        power = inv.laid.power;
        small = inv.laid.small;
        masked = inv.laid.masked;
      };
      committed =
          before s.ring.cons_head (map written inv.queue) s.ring.prod_tail (tail-le-head cap s inv)
            (omega arith) inv.committed;
      reserved =
          subst (λ ss. Held cap m' s.ring.prod_tail ss (after cap head n))
            (sym (map-append slot s.flights _))
            (Held-append cap m' s.ring.prod_tail (map slot s.flights) (blank n ∷ []) head
              (after cap head n)
              (before s.ring.prod_tail (map slot s.flights) head (omega arith)
                (omega (arith, cons-le-tail cap s inv)) inv.reserved)
              (
                put-HasHeader cap s.ring.m_data head n pos nonempty fits inv.laid.small
                    (omega (arith, cons-le-tail cap s inv, tail-le-head cap s inv)),
                tt,
                refl,
              ));
      room = omega arith;
      far = ground (arith, mod-lt head pos);
      tokens =
          Consecutive-append s.ring.m_data s.ring.prod_tail inv.oldest s.claimed s.flights head n
            inv.reserved inv.tokens;
      taken = inv.taken;
      in_order = inv.in_order;
      history = inv.history;
    }
      where
        head : ℕ
        head = s.ring.prod_head

        m' : Memory
        m' = put cap s.ring.m_data head n

        pos : 0 < cap
        pos = IsLaid-pos cap s.ring inv.laid

        before :
            (p : ℕ) (ss : List Slot) (to : ℕ)
            → to ≤ head
            → after cap head n ≤ p + cap
            → Held cap s.ring.m_data p ss to
            → Held cap m' p ss to
        before =
            Held_before cap pos s.ring.m_data m' head n fits
              (put-Writes cap s.ring.m_data head n pos)

    -- The outcome of the claim decides what the step has done.
    outcome :
        {t : ReserveToken} {r : ShmRing} (c : Bool)
        → accepts cap s.ring.prod_head seen n ≡ c
        → s.ring.prod_head + 2 * cap < 2 ^ 64
        → (if c then made else none) ≡ some (t, r)
        → Inv cap (reserved_system t r)
    outcome {t} {r} true ok far e =
        subst (λ z. Inv cap (reserved_system z.0 z.1)) (some-injective e)
          (reserved-Inv (ground arith) (ground arith) (ground arith) far)
    outcome false ok far e = cc

    pub reserving-Inv :
        {t : ReserveToken} {r : ShmRing}
        → n + 4 < 2 ^ 64
        → s.ring.prod_head + 2 * cap < 2 ^ 64
        → claim cap s.ring seen n ≡ some (t, r)
        → Inv cap (reserved_system t r)
    reserving-Inv small far e = outcome (accepts cap s.ring.prod_head seen n) refl far (
        sym (
          claim_lem cap s.ring seen n inv.laid
            (omega (arith, cons-le-tail cap s inv, tail-le-head cap s inv)) small far)
        ∙ e)
