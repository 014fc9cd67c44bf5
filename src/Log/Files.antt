-- ===== src/Log/Files.antt =====
-- The files of a log directory. A file is its record headers and payloads by the offset of the
-- header; what is written nowhere is 0, since ftruncate fills a new file with zeros.
use electronic_exchange_simu.Prelude.{ℕ, Bool, true, false, Option, none, some}

abbrev pub eof_marker : ℕ
eof_marker = 0xFFFFFFFF

abbrev pub invalid_offset : ℕ
invalid_offset = 0xFFFFFFFFFFFFFFFF

-- sizeof(RecordHeader), two uint32_t.
abbrev pub header_size : ℕ
header_size = 8

pub record LogFile (A : Type 0) : Type 0 where
  pub reserved_length : ℕ → ℕ
  pub published_length : ℕ → ℕ
  pub payload : ℕ → Option A

abbrev pub Disk : Type 0 → Type 0
Disk A = ℕ → Option (LogFile A)

module _ {A : Type 0} where
  abbrev pub file_or_zeros : Option (LogFile A) → LogFile A
  file_or_zeros none = record {
    reserved_length = λ o. 0;
    published_length = λ o. 0;
    payload = λ o. none;
  }
  file_or_zeros (some f) = f

  abbrev pub is_file : Option (LogFile A) → Bool
  is_file none = false
  is_file (some f) = true

  abbrev pub has_file : Disk A → ℕ → Bool
  has_file d i = is_file (d i)

  abbrev pub published_at : Disk A → ℕ → ℕ → ℕ
  published_at d i o = (file_or_zeros (d i)).published_length o

  abbrev pub payload_at : Disk A → ℕ → ℕ → Option A
  payload_at d i o = (file_or_zeros (d i)).payload o
