-- ===== src/Log/Reader.antt =====
-- class MmapReader of src/mmap_log.cpp.
use electronic_exchange_simu.Prelude.{
  ℕ, zero, suc, ◌+◌, ◌*◌, ◌/◌, ◌%◌, ◌^◌, ltb, ◌==◌, ◌||◌, not, Bool, true, false, Option, none,
  some, if◌then◌else◌,
}
use electronic_exchange_simu.Log.Files.{
  Disk, has_file, published_at, payload_at, eof_marker, header_size,
}

-- `mapped` tells whether mapped_addr_ is set.
pub record MmapReader : Type 0 where
  pub current_file_index : ℕ
  pub mapped : Bool
  pub current_offset : ℕ

-- What read_next gives: the payload at the pointer, none where none was written, and the length.
pub record LogRecord (A : Type 0) : Type 0 where
  pub data_at : Option A
  pub len : ℕ

module _ {A : Type 0} (d : Disk A) (file_size : ℕ) where
  -- MmapReader::open_file; every file of a log has the size that its writer gave it.
  unfoldable pub open_reader : MmapReader → ℕ → MmapReader
  open_reader r i =
      if has_file d i
      then record { current_file_index = i; mapped = true; current_offset = 0 }
      else record r { current_file_index = i; mapped = false }

  -- The mapped file at the current offset.
  unfoldable pub remap : MmapReader → MmapReader
  unfolding open_reader
  remap r = if r.mapped then r else open_reader r r.current_file_index

  -- MmapReader::read_next: the result and the reader. Each recursive call goes to the next file, so
  -- one more than the number of files that are left is enough fuel.
  unfoldable pub read_next : ℕ → MmapReader → Option (LogRecord A) × MmapReader
  unfolding remap open_reader
  read_next zero r = (none, r)
  read_next (suc fuel) r0 =
      let r = remap r0 in
      let i = r.current_file_index in
      let o = r.current_offset in
      let len = published_at d i o in
      let next_file = read_next fuel (open_reader r (suc i)) in
      if not r.mapped || ltb file_size (o + header_size)
      then (none, r)
      else if len == 0
      then (none, r)
      else if len == eof_marker
      then next_file
      else (
        some (record { data_at = payload_at d i o; len = len }),
        record r { current_offset = o + header_size + len },
      )

  unfoldable pub seek : MmapReader → ℕ → Bool × MmapReader
  unfolding open_reader
  seek r offset =
      let i = offset / 2 ^ 32 % 2 ^ 32 in
      let o = offset % 2 ^ 32 in
      let r1 = if not (i == r.current_file_index) || not r.mapped then open_reader r i else r in
      if not r1.mapped || ltb file_size o
      then (false, r1)
      else (true, record r1 { current_offset = o })

unfoldable pub get_offset : MmapReader → ℕ
get_offset r = r.current_file_index * 2 ^ 32 + r.current_offset
