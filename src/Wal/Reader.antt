-- ===== src/Wal/Reader.antt =====
-- include/aether/wal/wal_reader.hpp and src/wal/wal_reader.cpp: `WalReader`.
use aether_stream.Common.{
  ℕ, zero, suc, ◌+◌, ◌-◌, ◌%◌, Bool, false, not, ◌==◌, ltb, leb, ◌&&◌, ◌||◌, if◌then◌else◌, Option,
  none, some, take, drop,
}
use aether_stream.Core.Status.{Status, StatusCode, status_error, status_ok, is_ok, code_eq}
use aether_stream.Core.Expected.{Expected, value, error, of_status}
use aether_stream.Core.Types.{u64_mod}
use aether_stream.Core.Config.{FilePath}
use aether_stream.Io.Os.{Os}
use aether_stream.Io.Mmap
use aether_stream.Io.Mmap.{MmapFile, bytes}
use aether_stream.Wal.Record.{
  Bytes, WalRecordHeader, WalRecordView, deserialize_header, wal_record_header_size,
  validate_header_shape, record_total_size, is_zero_filled,
}
use aether_stream.Wal.Checksum.{validate_record_checksum}

pub record WalReader : Type 0 where
  pub file : MmapFile
  pub current_offset : ℕ
  pub records_read : ℕ

abbrev pub reader_on : MmapFile → WalReader
reader_on file = record { file = file; current_offset = 0; records_read = 0 }

-- `WalReader::open(path)`.
unfoldable pub open_reader : (os : Os) → FilePath → os.World → Expected WalReader × os.World
open_reader os path w =
    let (file, w') = Mmap.open_existing os path false w in
    elim file [ error s ↦ (of_status s, w') | value f ↦ (value (reader_on f), w') ]

unfoldable pub valid : WalReader → Bool
valid r = Mmap.valid r.file

abbrev pub fits_size_t : ℕ → Bool
fits_size_t v = leb v (u64_mod - 1)

abbrev pub end_of_log : Expected WalRecordView
end_of_log = of_status (status_error StatusCode.empty "")

abbrev pub partial_record : Expected WalRecordView
partial_record = of_status (status_error StatusCode.empty "partial wal record")

-- A record that was read, and the reader behind it.
abbrev pub accept : WalReader → WalRecordHeader → Bytes → ℕ → Expected WalRecordView × WalReader
accept r header payload total_size = (
  value (record { header = header; payload = payload; offset = r.current_offset }),
  record r {
    current_offset = (r.current_offset + total_size) % u64_mod;
    records_read = (r.records_read + 1) % u64_mod;
  },
)

-- The part of `next` behind the decoding of the header, on the bytes that are left.
unfoldable pub next_record :
    WalReader → Bytes → ℕ → WalRecordHeader → Expected WalRecordView × WalReader
next_record r tail remaining header =
    let header_status = validate_header_shape header in
    let total_size = record_total_size header in
    let payload = take header.payload_size (drop wal_record_header_size tail) in
    if header.magic == 0 && is_zero_filled tail
    then (end_of_log, r)
    else if not (is_ok header_status)
    then (of_status header_status, r)
    else if ltb total_size header.header_size || ltb remaining total_size
    then (partial_record, r)
    else if not (fits_size_t total_size)
    then (
      of_status (status_error StatusCode.corrupted_record "wal record too large for this platform"),
      r,
    )
    else if not (validate_record_checksum header payload)
    then (of_status (status_error StatusCode.corrupted_record "wal checksum mismatch"), r)
    else accept r header payload total_size

abbrev pub next_header :
    WalReader → Bytes → ℕ → Expected WalRecordHeader → Expected WalRecordView × WalReader
next_header r tail remaining (error s) = (of_status s, r)
next_header r tail remaining (value header) = next_record r tail remaining header

unfoldable pub next : WalReader → Expected WalRecordView × WalReader
unfolding valid next_record
next r =
    let file_size = r.file.size in
    let remaining = file_size - r.current_offset in
    let tail = take remaining (drop r.current_offset (bytes r.file)) in
    if not (valid r)
    then (of_status (status_error StatusCode.invalid_argument "wal reader is not open"), r)
    else if leb file_size r.current_offset
    then (end_of_log, r)
    else if not (fits_size_t r.current_offset) || not (fits_size_t remaining)
    then (
      of_status (status_error StatusCode.invalid_argument "wal offset too large for this platform"),
      r,
    )
    else if ltb remaining wal_record_header_size
    then (if is_zero_filled tail then end_of_log else partial_record, r)
    else next_header r tail remaining (deserialize_header (take wal_record_header_size tail))

unfoldable pub reset : WalReader → Status × WalReader
reset r =
    if not (valid r)
    then (status_error StatusCode.invalid_argument "wal reader is not open", r)
    else (status_ok, record r { current_offset = 0; records_read = 0 })

-- `replay(visitor)`. The visitor has a state of its own. The fuel bounds the rounds of the loop;
-- `none` means that it ran out.
module _ {ℓ} {V : Type ℓ} (visitor : V → WalRecordView → Status × V) where
  -- One round, on what `next` gave; `rest` is the rounds behind it.
  abbrev pub replay_round :
      V
      → (V → WalReader → Option (Status × V × WalReader))
      → Expected WalRecordView × WalReader
      → Option (Status × V × WalReader)
  replay_round v rest (value view, r) =
      let visited = visitor v view in
      let again = rest visited.1 r in
      if not (is_ok visited.0) then some (visited.0, visited.1, r) else again
  replay_round v rest (error s, r) =
      some (if code_eq s.code StatusCode.empty then status_ok else s, v, r)

  unfoldable pub replay_loop : ℕ → V → WalReader → Option (Status × V × WalReader)
  replay_loop zero v r = none
  replay_loop (suc fuel) v r = replay_round v (replay_loop fuel) (next r)

  -- Each round that goes on moves the offset, so the bytes left bound the rounds.
  unfoldable pub replay : V → WalReader → Option (Status × V × WalReader)
  replay v r = replay_loop (suc (r.file.size - r.current_offset)) v r
