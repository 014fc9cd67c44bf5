-- ===== src/OrderBook/Nearest.antt =====
-- Neighbours and extremes in a finite set of level indices, and how they change as an index comes
-- or goes: what the pointers `better`, `worse` and `best_levels_` stand for. A set is its test.
use electronic_exchange_simu.Prelude.{
  ℕ, ◌<◌, Bool, true, false, not, Option, none, some, ◌≡◌, ap, ◌≢◌, arith, update,
}

-- Below (`true`) or above (`false`).
abbrev pub Lt : Bool → ℕ → ℕ → Type 0
Lt true j k = j < k
Lt false j k = k < j

-- The nearest member of `K` that lies in the direction `d` from `k`.
abbrev pub IsNearest : Bool → (ℕ → Bool) → ℕ → Option ℕ → Type 0
IsNearest d K k none = (j : ℕ) → K j ≡ true → ¬ Lt d j k
IsNearest d K k (some p) = (K p ≡ true) × Lt d p k × ((j : ℕ) → K j ≡ true → Lt d j k → ¬ Lt d p j)

-- The member of `K` furthest in the direction `d`.
abbrev pub IsExtreme : Bool → (ℕ → Bool) → Option ℕ → Type 0
IsExtreme d K none = (j : ℕ) → K j ≡ false
IsExtreme d K (some p) = (K p ≡ true) × ((j : ℕ) → K j ≡ true → ¬ Lt d j p)

-- Being neighbours is symmetric.
pub IsNearest-symm :
    (d : Bool) (K : ℕ → Bool) (i k : ℕ)
    → K i ≡ true
    → IsNearest d K i (some k)
    → IsNearest (not d) K k (some i)
IsNearest-symm true K i k h n = grind arith
IsNearest-symm false K i k h n = grind arith

-- `i` goes: its neighbour behind inherits its neighbour ahead.
pub erase_next :
    (d : Bool) (K : ℕ → Bool) (i k : ℕ) (r : Option ℕ)
    → IsNearest d K i r
    → IsNearest (not d) K i (some k)
    → IsNearest d (update K i false) k r
erase_next true K i k none h n = grind arith
erase_next true K i k (some x) h n = grind arith
erase_next false K i k none h n = grind arith
erase_next false K i k (some x) h n = grind arith

-- The others keep theirs.
pub erase_other :
    (d : Bool) (K : ℕ → Bool) (i k : ℕ) (r : Option ℕ)
    → r ≢ some i
    → IsNearest d K k r
    → IsNearest d (update K i false) k r
erase_other true K i k none ne n = grind arith
erase_other true K i k (some x) ne n = grind arith
erase_other false K i k none ne n = grind arith
erase_other false K i k (some x) ne n = grind arith

-- `i` comes: it is the neighbour ahead of its neighbour behind.
pub insert_next :
    (d : Bool) (K : ℕ → Bool) (i k : ℕ)
    → IsNearest (not d) K i (some k)
    → IsNearest d (update K i true) k (some i)
insert_next true K i k n = grind arith
insert_next false K i k n = grind arith

-- It has the neighbours that the set has beside it.
pub insert_self :
    (d : Bool) (K : ℕ → Bool) (i : ℕ) (r : Option ℕ)
    → IsNearest d K i r
    → IsNearest d (update K i true) i r
insert_self true K i none n = grind arith
insert_self true K i (some x) n = grind arith
insert_self false K i none n = grind arith
insert_self false K i (some x) n = grind arith

-- The others keep theirs.
pub insert_other :
    (d : Bool) (K : ℕ → Bool) (i k : ℕ) (r behind : Option ℕ)
    → K k ≡ true
    → K i ≡ false
    → behind ≢ some k
    → IsNearest (not d) K i behind
    → IsNearest d K k r
    → IsNearest d (update K i true) k r
insert_other true K i k none none hk hi ne m n = grind arith
insert_other true K i k none (some y) hk hi ne m n = grind arith
insert_other true K i k (some x) none hk hi ne m n = grind arith
insert_other true K i k (some x) (some y) hk hi ne m n = grind arith
insert_other false K i k none none hk hi ne m n = grind arith
insert_other false K i k none (some y) hk hi ne m n = grind arith
insert_other false K i k (some x) none hk hi ne m n = grind arith
insert_other false K i k (some x) (some y) hk hi ne m n = grind arith

-- The extreme goes, or another one.
pub IsExtreme-erase :
    (d : Bool) (K : ℕ → Bool) (i : ℕ) (behind : Option ℕ)
    → IsNearest d K i none
    → IsNearest (not d) K i behind
    → IsExtreme d (update K i false) behind
IsExtreme-erase true K i none n m = grind arith
IsExtreme-erase true K i (some x) n m = grind arith
IsExtreme-erase false K i none n m = grind arith
IsExtreme-erase false K i (some x) n m = grind arith

pub IsExtreme-erase_other :
    (d : Bool) (K : ℕ → Bool) (i p q : ℕ)
    → IsNearest d K i (some q)
    → IsExtreme d K (some p)
    → IsExtreme d (update K i false) (some p)
IsExtreme-erase_other true K i p q n x = grind arith
IsExtreme-erase_other false K i p q n x = grind arith

pub IsExtreme-insert :
    (d : Bool) (K : ℕ → Bool) (i : ℕ)
    → IsNearest d K i none
    → IsExtreme d (update K i true) (some i)
IsExtreme-insert true K i n = grind arith
IsExtreme-insert false K i n = grind arith

pub IsExtreme-insert_other :
    (d : Bool) (K : ℕ → Bool) (i p q : ℕ)
    → IsNearest d K i (some q)
    → IsExtreme d K (some p)
    → IsExtreme d (update K i true) (some p)
IsExtreme-insert_other true K i p q n x = grind arith
IsExtreme-insert_other false K i p q n x = grind arith

nearest_eq :
    (d : Bool) (K : ℕ → Bool) (i k p : ℕ)
    → IsNearest d K i (some p)
    → IsNearest d K i (some k)
    → p ≡ k
nearest_eq true K i k p n m = grind arith
nearest_eq false K i k p n m = grind arith

-- There is one nearest member at most.
pub nearest_unique :
    (d : Bool) (K : ℕ → Bool) (i k : ℕ) (r : Option ℕ)
    → IsNearest d K i r
    → IsNearest d K i (some k)
    → r ≡ some k
nearest_unique true K i k none n m = grind arith
nearest_unique true K i k (some p) n m = ap some (nearest_eq true K i k p n m)
nearest_unique false K i k none n m = grind arith
nearest_unique false K i k (some p) n m = ap some (nearest_eq false K i k p n m)

pub nearest-mem :
    (d : Bool) (K : ℕ → Bool) (i k : ℕ) → IsNearest d K i (some k) → (K k ≡ true) × (k ≢ i)
nearest-mem true K i k n = grind arith
nearest-mem false K i k n = grind arith
