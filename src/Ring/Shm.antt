-- ===== src/Ring/Shm.antt =====
-- include/ipc/SHMRingBuffer.hpp and src/SHMRingBuffer.cpp: the ring, its two-phase writes and
-- reads, and the attachment of a process to it. Positions are uint64_t counters that only grow; a
-- payload pointer is its offset in `m_data`.
use electronic_exchange_simu.Prelude.{
  ℕ, ◌+◌, ◌-◌, ◌%◌, ◌^◌, Bool, ◌||◌, not, List, Option, some, none, length, bit_and, ltb, ◌==◌,
  if◌then◌else◌, add64, sub64,
}
use electronic_exchange_simu.Ring.Memory.{Memory, load32, store32, copy}

-- The ASCII of "RING".
abbrev pub shm_ring_magic : ℕ
shm_ring_magic = 0x52494E47

abbrev pub wrap_marker : ℕ
wrap_marker = 0xFFFFFFFF

-- The header, and the bytes behind it.
pub record ShmRing : Type 0 where
  pub magic : ℕ
  pub ready : ℕ
  pub prod_head : ℕ
  pub prod_tail : ℕ
  pub cons_head : ℕ
  pub capacity : ℕ
  pub mask : ℕ
  pub m_data : Memory

pub record ReserveToken : Type 0 where
  pub payload : ℕ
  pub size : ℕ
  pub old_prod_head : ℕ
  pub new_prod_head : ℕ

pub record AcquireToken : Type 0 where
  pub payload : ℕ
  pub size : ℕ
  pub new_cons_head : ℕ

-- What the creator writes over a segment of zeros.
abbrev pub create : ℕ → ShmRing
create m_capacity = record {
  magic = shm_ring_magic;
  ready = 1;
  prod_head = 0;
  prod_tail = 0;
  cons_head = 0;
  capacity = m_capacity;
  mask = m_capacity - 1;
  m_data = λ _. 0;
}

-- The wait for the creator and the check of its magic number.
pub data Attached : Type 0 where
  waiting magic_mismatch : Attached
  attached : ShmRing → Attached

unfoldable pub attach : ShmRing → Attached
attach r =
    if not (r.ready == 1)
    then Attached.waiting
    else if not (r.magic == shm_ring_magic)
    then Attached.magic_mismatch
    else Attached.attached r

-- The caller's write to the slot.
unfoldable pub fill : ShmRing → ReserveToken → List ℕ → ShmRing
fill r token bytes = record r { m_data = copy r.m_data token.payload bytes }

-- `none` while the loop waits for earlier reservations.
unfoldable pub commit : ShmRing → ReserveToken → Option ShmRing
commit r token =
    if not (r.prod_tail == token.old_prod_head)
    then none
    else some (record r { prod_tail = token.new_prod_head })

pub data Enqueued : Type 0 where
  refused : Enqueued
  spinning : ReserveToken → ShmRing → Enqueued
  enqueued : ShmRing → Enqueued

unfoldable pub finish : ReserveToken → ShmRing → Option ShmRing → Enqueued
finish token r none = Enqueued.spinning token r
finish token r (some done) = Enqueued.enqueued done

unfoldable pub write_reserved : List ℕ → Option (ReserveToken × ShmRing) → Enqueued
write_reserved bytes none = Enqueued.refused
write_reserved bytes (some (token, r)) =
    let written = fill r token bytes in finish token written (commit written token)

unfoldable pub release : ShmRing → AcquireToken → ShmRing
release r token = record r { cons_head = token.new_cons_head }

unfoldable pub release_acquired : Option AcquireToken × ShmRing → Option AcquireToken × ShmRing
release_acquired (none, r) = (none, r)
release_acquired (some token, r) = (some token, release r token)

module _ (m_capacity : ℕ) where
  -- One round of the loop of reserve, with the consumer's head that it loaded, and the writes after
  -- the exchange of prod_head has succeeded.
  unfoldable pub claim : ShmRing → ℕ → ℕ → Option (ReserveToken × ShmRing)
  claim r current_cons_head size =
      if size == 0
      then none
      else let required_space = add64 4 size in
        if ltb m_capacity required_space
        then none
        else let tail_offset = bit_and r.prod_head r.mask in
          let space_to_end = sub64 m_capacity tail_offset in
          let wrapped = ltb space_to_end required_space in
          let new_prod_head =
            if wrapped
            then add64 (add64 r.prod_head space_to_end) required_space
            else add64 r.prod_head required_space in
          if ltb m_capacity (sub64 new_prod_head current_cons_head)
          then none
          else let marked =
              if wrapped then store32 r.m_data tail_offset wrap_marker else r.m_data in
            let payload_hdr = if wrapped then 0 else tail_offset in
            some (
              record {
                payload = payload_hdr + 4;
                size = size;
                old_prod_head = r.prod_head;
                new_prod_head = new_prod_head;
              },
              record r {
                prod_head = new_prod_head;
                m_data = store32 marked payload_hdr (size % 2 ^ 32);
              },
            )

  -- With no other producer between its loads and its exchange.
  unfoldable pub reserve : ShmRing → ℕ → Option (ReserveToken × ShmRing)
  reserve r size = claim r r.cons_head size

  -- `none` is a null pointer.
  unfoldable pub enqueue : ShmRing → Option (List ℕ) → Enqueued
  enqueue r none = Enqueued.refused
  enqueue r (some bytes) = write_reserved bytes (reserve r (length bytes))

  is_corrupt : ℕ → Bool
  is_corrupt len = len == 0 || ltb m_capacity len

  -- The slot behind a wrap marker, at the start of the bytes.
  acquire_wrapped : ShmRing → ℕ → Option AcquireToken × ShmRing
  acquire_wrapped r new_head =
      if new_head == r.prod_tail
      then (none, record r { cons_head = new_head })
      else let len = load32 r.m_data 0 in
        if is_corrupt len then (none, r) else (
          some (record { payload = 4; size = len; new_cons_head = add64 (add64 new_head 4) len }),
          r,
        )

  unfoldable pub acquire : ShmRing → Option AcquireToken × ShmRing
  unfolding is_corrupt acquire_wrapped
  acquire r =
      if r.cons_head == r.prod_tail
      then (none, r)
      else let head_offset = bit_and r.cons_head r.mask in
        let len = load32 r.m_data head_offset in
        if len == wrap_marker
        then acquire_wrapped r (add64 r.cons_head (sub64 m_capacity head_offset))
        else if is_corrupt len
        then (none, r)
        else (
          some (record {
            payload = head_offset + 4;
            size = len;
            new_cons_head = add64 (add64 r.cons_head 4) len;
          }),
          r,
        )

  -- The pointer and the size that it stores are those of the token.
  unfoldable pub dequeue : ShmRing → Option AcquireToken × ShmRing
  dequeue r = release_acquired (acquire r)

unfoldable pub get_reserved_depth : ShmRing → ℕ
get_reserved_depth r = sub64 r.prod_head r.cons_head

unfoldable pub get_uncommitted_depth : ShmRing → ℕ
get_uncommitted_depth r = sub64 r.prod_head r.prod_tail
