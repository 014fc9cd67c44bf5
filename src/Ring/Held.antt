-- ===== src/Ring/Held.antt =====
-- src/SHMRingBuffer.cpp: what stands in the bytes of the ring between two positions, and that a
-- write to one slot leaves the slots before and behind it alone.
use electronic_exchange_simu.Prelude.{
  ℕ, ◌+◌, ◌%◌, ◌≤◌, ◌<◌, ◌≡◌, refl, sym, ◌∙◌, inl, inr, true, List, [], ◌∷◌, ◌++◌, arith, length,
  subst,
}
use native.Mathlib.Nat.{mod-lt}
use electronic_exchange_simu.Ring.Memory.{Memory, load32, read, load32_agree, read_agree}
use electronic_exchange_simu.Ring.Shm.{wrap_marker}
use electronic_exchange_simu.Ring.Slots.{wraps, base, after, Touches, Touches-apart}

abbrev pub Bytes : Type 0
Bytes = List ℕ

-- A reserved slot: with its message, or not yet written to.
pub data Slot : Type 0 where
  written : Bytes → Slot
  blank : ℕ → Slot

abbrev pub slot_size : Slot → ℕ
slot_size (written bytes) = length bytes
slot_size (blank n) = n

module _ (cap : ℕ) where
  pub record HasHeader (m : Memory) (p n : ℕ) : Type 0 where
    pub not_empty : 0 < n
    pub fits : 4 + n ≤ cap
    pub marked : wraps cap p n ≡ true → load32 m (p % cap) ≡ wrap_marker
    pub sized : load32 m (base cap p n) ≡ n

  abbrev pub HasContent : Memory → ℕ → Slot → Type 0
  HasContent m p (written bytes) = read m (base cap p (length bytes) + 4) (length bytes) ≡ bytes
  HasContent m p (blank n) = Unit

  -- The slots stand one behind the other from position p to position `to`.
  abbrev pub Held : Memory → ℕ → List Slot → ℕ → Type 0
  Held m p [] to = p ≡ to
  Held m p (s ∷ ss) to =
      HasHeader m p (slot_size s) × HasContent m p s × Held m (after cap p (slot_size s)) ss to

  pub after_lt : (p n : ℕ) → p + 4 ≤ after cap p n
  after_lt p n = ground arith

  pub Held-le : (m : Memory) (p : ℕ) (ss : List Slot) (to : ℕ) → Held m p ss to → p ≤ to
  Held-le m p [] to h = omega (arith, h)
  Held-le m p (s ∷ ss) to h =
      omega (arith, after_lt p (slot_size s), Held-le m (after cap p (slot_size s)) ss to h.2)

  pub Held-append :
      (m : Memory) (p : ℕ) (xs ys : List Slot) (mid to : ℕ)
      → Held m p xs mid
      → Held m mid ys to
      → Held m p (xs ++ ys) to
  Held-append m p [] ys mid to h k = subst (λ q. Held m q ys to) (sym h) k
  Held-append m p (x ∷ xs) ys mid to h k =
      (h.0, h.1, Held-append m (after cap p (slot_size x)) xs ys mid to h.2 k)

  pub Held-split :
      (m : Memory) (p : ℕ) (xs ys : List Slot) (to : ℕ)
      → Held m p (xs ++ ys) to
      → (mid : ℕ) × Held m p xs mid × Held m mid ys to
  Held-split m p [] ys to h = (p, refl, h)
  Held-split m p (x ∷ xs) ys to h =
      let (mid, before, behind) = Held-split m (after cap p (slot_size x)) xs ys to h.2 in
      (mid, (h.0, h.1, before), behind)

  module _ (pos : 0 < cap) (m m' : Memory) where
    -- The slot at p reads the bytes that it touches, and no others.
    abbrev Agrees : ℕ → ℕ → Type 0
    Agrees p n = (i : ℕ) → Touches cap p n i → m i ≡ m' i

    marker_touched :
        (p n i : ℕ) → wraps cap p n ≡ true → p % cap ≤ i → i < p % cap + 4 → Touches cap p n i
    marker_touched p n i w lo hi = inl (ground (arith, mod-lt p pos), lo, hi)

    body_touched : (p n i : ℕ) → base cap p n ≤ i → i < base cap p n + (4 + n) → Touches cap p n i
    body_touched p n i lo hi = inr (lo, hi)

    pub HasHeader-agree : (p n : ℕ) → Agrees p n → HasHeader m p n → HasHeader m' p n
    HasHeader-agree p n same h = record {
      not_empty = h.not_empty;
      fits = h.fits;
      marked = λ w.
          sym (load32_agree m m' (p % cap) (λ i lo hi. same i (marker_touched p n i w lo hi)))
          ∙ h.marked w;
      sized =
          sym (
            load32_agree m m' (base cap p n)
              (λ i lo hi. same i (body_touched p n i lo (omega arith))))
          ∙ h.sized;
    }

    pub HasContent-agree :
        (p : ℕ) (s : Slot) → Agrees p (slot_size s) → HasContent m p s → HasContent m' p s
    HasContent-agree p (blank n) same h = tt
    HasContent-agree p (written bytes) same h =
        sym (
          read_agree m m' (base cap p (length bytes) + 4) (length bytes)
            (λ i lo hi. same i (body_touched p (length bytes) i (omega arith) (omega arith))))
        ∙ h

    -- The memories differ in the slot of k bytes at q only.
    abbrev pub Writes : ℕ → ℕ → Type 0
    Writes q k = (i : ℕ) → (Touches cap q k i → ⊥) → m i ≡ m' i

    module _ (q k : ℕ) (fitk : 4 + k ≤ cap) (writes : Writes q k) where
      pub Held_before :
          (p : ℕ) (ss : List Slot) (to : ℕ)
          → to ≤ q
          → after cap q k ≤ p + cap
          → Held m p ss to
          → Held m' p ss to
      Held_before p [] to le room h = h
      Held_before p (s ∷ ss) to le room h = (
        HasHeader-agree p (slot_size s) same h.0,
        HasContent-agree p s same h.1,
        Held_before next ss to le (omega (arith, after_lt p (slot_size s))) h.2,
      )
        where
          next : ℕ
          next = after cap p (slot_size s)

          same : Agrees p (slot_size s)
          same i t = writes i (
              Touches-apart cap p (slot_size s) q k i pos h.0.fits fitk
                (omega (arith, Held-le m next ss to h.2)) room t)

      pub Held_behind :
          (p : ℕ) (ss : List Slot) (to : ℕ)
          → after cap q k ≤ p
          → to ≤ q + cap
          → Held m p ss to
          → Held m' p ss to
      Held_behind p [] to le room h = h
      Held_behind p (s ∷ ss) to le room h = (
        HasHeader-agree p (slot_size s) same h.0,
        HasContent-agree p s same h.1,
        Held_behind next ss to (omega (arith, after_lt p (slot_size s))) room h.2,
      )
        where
          next : ℕ
          next = after cap p (slot_size s)

          same : Agrees p (slot_size s)
          same i t = writes i λ tq.
              Touches-apart cap q k p (slot_size s) i pos fitk h.0.fits le
                (omega (arith, Held-le m next ss to h.2)) tq t
