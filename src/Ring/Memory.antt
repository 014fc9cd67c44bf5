-- ===== src/Ring/Memory.antt =====
-- src/SHMRingBuffer.cpp: the bytes of the mapped region after the header (`m_data`), with the
-- loads and stores of a uint32_t and the copies of a payload that the ring makes there.
use electronic_exchange_simu.Prelude.{
  ℕ, zero, suc, ◌+◌, ◌*◌, ◌/◌, ◌%◌, ◌^◌, ◌≤◌, ◌<◌, ◌≡◌, refl, ap₂, ◌⊎◌, List, [], ◌∷◌, arith,
  length, update,
}

abbrev pub Memory : Type 0
Memory = ℕ → ℕ

-- *reinterpret_cast<uint32_t*>(m_data + o), little-endian.
unfoldable pub load32 : Memory → ℕ → ℕ
load32 m o = m o + 0x100 * m (o + 1) + 0x10000 * m (o + 2) + 0x1000000 * m (o + 3)

unfoldable pub store32 : Memory → ℕ → ℕ → Memory
store32 m o v =
    update
      (update (update (update m o (v % 0x100)) (o + 1) (v / 0x100 % 0x100)) (o + 2)
        (v / 0x10000 % 0x100))
      (o + 3) (v / 0x1000000 % 0x100)

-- memcpy of a payload to offset o.
unfoldable pub copy : Memory → ℕ → List ℕ → Memory
copy m o [] = m
copy m o (b ∷ bs) = copy (update m o b) (o + 1) bs

-- The n bytes from offset o.
unfoldable pub read : Memory → ℕ → ℕ → List ℕ
read m o zero = []
read m o (suc n) = m o ∷ read m (o + 1) n

pub store32_frame : (m : Memory) (o v i : ℕ) → (i < o) ⊎ (o + 4 ≤ i) → store32 m o v i ≡ m i
unfolding store32
store32_frame m o v i h = ground arith

pub load32-store32 : (m : Memory) (o v : ℕ) → v < 2 ^ 32 → load32 (store32 m o v) o ≡ v
unfolding load32 store32
load32-store32 m o v h = ground arith

pub copy_frame :
    (m : Memory) (o : ℕ) (bs : List ℕ) (i : ℕ) → (i < o) ⊎ (o + length bs ≤ i) → copy m o bs i ≡ m i
unfolding copy
copy_frame m o [] i h = refl
copy_frame m o (b ∷ bs) i h = ground (arith, copy_frame (update m o b) (o + 1) bs i)

pub read-copy : (m : Memory) (o : ℕ) (bs : List ℕ) → read (copy m o bs) o (length bs) ≡ bs
unfolding copy read
read-copy m o [] = refl
read-copy m o (b ∷ bs) =
    ap₂ ◌∷◌ (ground (arith, copy_frame (update m o b) (o + 1) bs o))
      (read-copy (update m o b) (o + 1) bs)

-- What is read depends on the bytes that are read.
pub load32_agree :
    (m n : Memory) (o : ℕ) → ((i : ℕ) → o ≤ i → i < o + 4 → m i ≡ n i) → load32 m o ≡ load32 n o
unfolding load32
load32_agree m n o h = omega (
  arith,
  h o (omega arith) (omega arith),
  h (o + 1) (omega arith) (omega arith),
  h (o + 2) (omega arith) (omega arith),
  h (o + 3) (omega arith) (omega arith),
)

pub read_agree :
    (m n : Memory) (o k : ℕ) → ((i : ℕ) → o ≤ i → i < o + k → m i ≡ n i) → read m o k ≡ read n o k
unfolding read
read_agree m n o zero h = refl
read_agree m n o (suc k) h =
    ap₂ ◌∷◌ (h o (omega arith) (omega arith))
      (read_agree m n (o + 1) k (λ i p q. h i (omega arith) (omega arith)))
