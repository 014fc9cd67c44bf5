-- ===== src/Log/Writer.antt =====
-- class MmapWriter of src/mmap_log.cpp.
use electronic_exchange_simu.Prelude.{
  ℕ, zero, suc, ◌+◌, ◌-◌, ◌*◌, ◌^◌, ltb, ◌==◌, ◌||◌, Option, none, some, List, [], ◌∷◌,
  if◌then◌else◌, update,
}
use electronic_exchange_simu.Log.Files.{
  LogFile, Disk, file_or_zeros, published_at, eof_marker, invalid_offset, header_size,
}

-- The mapped file is the one of `current_file_index`; `rollovers` are the calls of rollover_cb_,
-- newest first.
pub record MmapWriter (A : Type 0) : Type 0 where
  pub disk : Disk A
  pub max_file_size : ℕ
  pub current_file_index : ℕ
  pub current_offset : ℕ
  pub rollovers : List (ℕ × ℕ)

-- A payload pointer, by the file and the offset of the header before it.
pub record LogPointer : Type 0 where
  pub file : ℕ
  pub offset : ℕ

module _ {A : Type 0} where
  abbrev pub set_file : MmapWriter A → ℕ → LogFile A → MmapWriter A
  set_file w i f = record w { disk = update w.disk i (some f) }

  -- MmapWriter::open_file, which makes the file where there is none; failures of the system calls
  -- throw in the program and are left out.
  unfoldable pub open_file : MmapWriter A → ℕ → MmapWriter A
  open_file w i = record w {
    disk = update w.disk i (some (file_or_zeros (w.disk i)));
    current_file_index = i;
    current_offset = 0;
  }

  abbrev pub publish : MmapWriter A → ℕ → ℕ → ℕ → MmapWriter A
  publish w i o n =
      let f = file_or_zeros (w.disk i) in
      set_file w i (record f { published_length = update f.published_length o n })

  -- The file is left for the next one if the record does not fit it.
  unfoldable pub make_room : MmapWriter A → ℕ → MmapWriter A
  unfolding open_file
  make_room w len =
      let i = w.current_file_index in
      let rolled = open_file (publish w i w.current_offset eof_marker) (suc i) in
      if ltb (w.max_file_size - header_size) (w.current_offset + header_size + len)
      then record rolled { rollovers = (i, suc i) ∷ rolled.rollovers }
      else w

  unfoldable pub reserve_room : MmapWriter A → ℕ → LogPointer × ℕ × MmapWriter A
  reserve_room w len =
      let i = w.current_file_index in
      let o = w.current_offset in
      let f = file_or_zeros (w.disk i) in
      let w1 = set_file w i (record f {
        reserved_length = update f.reserved_length o len;
        published_length = update f.published_length o 0;
      }) in
      (
        record { file = i; offset = o },
        i * 2 ^ 32 + o,
        record w1 { current_offset = o + header_size + len },
      )

  -- The pointer, the global offset and the writer; none for nullptr.
  unfoldable pub reserve : MmapWriter A → ℕ → Option (LogPointer × ℕ × MmapWriter A)
  unfolding make_room reserve_room
  reserve w len =
      if len == 0 || len == eof_marker then none else some (reserve_room (make_room w len) len)

  unfoldable pub write_payload : MmapWriter A → LogPointer → A → MmapWriter A
  write_payload w ptr a =
      let f = file_or_zeros (w.disk ptr.file) in
      set_file w ptr.file (record f { payload = update f.payload ptr.offset (some a) })

  unfoldable pub commit : MmapWriter A → LogPointer → MmapWriter A
  commit w ptr =
      publish w ptr.file ptr.offset ((file_or_zeros (w.disk ptr.file)).reserved_length ptr.offset)

  unfoldable pub append : MmapWriter A → A → ℕ → ℕ × MmapWriter A
  unfolding reserve write_payload commit
  append w a len = elim (reserve w len) [
    | none ↦ (invalid_offset, w)
    | some (ptr, offset, w1) ↦ (offset, commit (write_payload w1 ptr a) ptr)
  ]

  -- The constructor's search for the end of the last file. Each round but the last advances by more
  -- than a header, so the size of the file is enough fuel.
  unfoldable pub fast_forward : ℕ → MmapWriter A → MmapWriter A
  unfolding open_file
  fast_forward zero w = w
  fast_forward (suc fuel) w =
      let len = published_at w.disk w.current_file_index w.current_offset in
      let rest =
        fast_forward fuel (record w { current_offset = w.current_offset + header_size + len }) in
      if ltb w.max_file_size (w.current_offset + header_size)
      then w
      else if len == 0
      then w
      else if len == eof_marker
      then open_file w (suc w.current_file_index)
      else rest

  -- The constructor on a directory whose highest file index is the last argument.
  unfoldable pub make_writer : Disk A → ℕ → Option ℕ → MmapWriter A
  unfolding fast_forward
  make_writer d max_file_size last = elim last [
    | none ↦ open_file (start d max_file_size) 0
    | some i ↦ fast_forward max_file_size (open_file (start d max_file_size) i)
  ]
    where
      start : Disk A → ℕ → MmapWriter A
      start d max_file_size = record {
        disk = d;
        max_file_size = max_file_size;
        current_file_index = 0;
        current_offset = 0;
        rollovers = [];
      }
