-- ===== src/Wal/Writer.antt =====
-- include/aether/wal/wal_writer.hpp and src/wal/wal_writer.cpp: `WalWriter`.
use aether_stream.Common.{
  ℕ, ◌+◌, ◌-◌, ◌%◌, Bool, true, false, not, ◌==◌, ltb, leb, if◌then◌else◌, ◌||◌, ◌++◌, length, take,
  drop, is_empty,
}
use aether_stream.Core.Status.{Status, StatusCode, status_error, status_ok, is_ok}
use aether_stream.Core.Expected.{Expected, value, error, of_status}
use aether_stream.Core.Types.{u64_mod, u32_mod, max_payload_size}
use aether_stream.Core.Config.{FilePath, WalConfig, validate_wal}
use aether_stream.Io.Os.{Os}
use aether_stream.Io.Mmap
use aether_stream.Io.Mmap.{MmapFile, no_file, bytes, with_bytes}
use aether_stream.Wal.Record.{
  Bytes, WalRecordHeader, default_header, serialize_header, wal_record_header_size,
}
use aether_stream.Wal.Checksum.{compute_record_checksum}
use aether_stream.Wal.Message.{MessageView, validate_message_view}

pub record WalWriter : Type 0 where
  pub file : MmapFile
  pub current_offset : ℕ
  pub next_sequence : ℕ
  pub records_written : ℕ
  pub flush_on_append : Bool

-- `WalWriter{}`, and the private constructor.
abbrev pub writer_on : MmapFile → Bool → WalWriter
writer_on file flush_on_append = record {
  file = file;
  current_offset = 0;
  next_sequence = 0;
  records_written = 0;
  flush_on_append = flush_on_append;
}

abbrev pub no_writer : WalWriter
no_writer = writer_on no_file false

-- `fits_size_t`; `std::size_t` has 64 bits.
abbrev pub fits_size_t : ℕ → Bool
fits_size_t v = leb v (u64_mod - 1)

unfoldable pub valid : WalWriter → Bool
valid w = Mmap.valid w.file

unfoldable pub remaining_space : WalWriter → ℕ
unfolding valid
remaining_space w =
    if not (valid w)
    then 0
    else if leb w.current_offset w.file.size
    then w.file.size - w.current_offset
    else 0

-- `memcpy` of some bytes to an offset. The room for them is tested before.
abbrev pub copy_to : Bytes → ℕ → Bytes → Bytes
copy_to mapped offset source =
    take offset mapped ++ (source ++ drop (offset + length source) mapped)

-- The header that `append` writes, with its timestamp.
unfoldable pub record_header : WalWriter → MessageView → ℕ → WalRecordHeader
record_header w message stamp =
    let header = record default_header {
      payload_size = length message.payload % u32_mod;
      sequence = w.next_sequence;
      timestamp_ns = stamp;
      flags = message.header.flags;
    } in
    record header { checksum = compute_record_checksum header message.payload }

-- The two copies of `append`: the header, and the payload unless it is empty.
unfoldable pub store_record : WalWriter → WalRecordHeader → Bytes → WalWriter
store_record w header payload =
    let with_header = copy_to (bytes w.file) w.current_offset (serialize_header header) in
    let mapped =
      if not (is_empty payload)
      then copy_to with_header (w.current_offset + wal_record_header_size) payload
      else with_header in
    record w { file = with_bytes w.file mapped }

-- The end of a successful `append`.
abbrev pub advance : WalWriter → ℕ → WalWriter
advance w total_size = record w {
  current_offset = (w.current_offset + total_size) % u64_mod;
  next_sequence = (w.next_sequence + 1) % u64_mod;
  records_written = (w.records_written + 1) % u64_mod;
}

module _ (os : Os) where
  open os use {World, steady_now}

  -- `WalWriter::create(path, file_size_bytes, flush_on_append)`.
  unfoldable pub create_at : FilePath → ℕ → Bool → World → Expected WalWriter × World
  create_at path file_size_bytes flush_on_append w =
      if is_empty path
      then (of_status (status_error StatusCode.invalid_argument "wal path must not be empty"), w)
      else if ltb file_size_bytes wal_record_header_size
      then (
        of_status (status_error StatusCode.invalid_argument "wal file cannot fit one header"),
        w,
      )
      else if not (fits_size_t file_size_bytes)
      then (
        of_status
            (status_error StatusCode.invalid_argument "wal file size too large for this platform"),
        w,
      )
      else let (file, w') = Mmap.create os path file_size_bytes true w in
        elim file [
          | error s ↦ (of_status s, w')
          | value f ↦ (value (writer_on f flush_on_append), w')
        ]

  -- `WalWriter::create(config)`.
  unfoldable pub create : WalConfig → World → Expected WalWriter × World
  unfolding create_at
  create config w =
      let status = validate_wal config in
      if not (is_ok status)
      then (of_status status, w)
      else create_at config.path config.file_size_bytes config.flush_on_commit w

  unfoldable pub flush : WalWriter → World → Status × World
  unfolding valid
  flush writer w =
      if not (valid writer)
      then (status_error StatusCode.invalid_argument "wal writer is not open", w)
      else Mmap.flush os writer.file w

  -- The part of `append` behind the copies.
  abbrev pub finish_append : WalWriter → ℕ → World → Status × WalWriter × World
  finish_append writer total_size w =
      if writer.flush_on_append
      then (let (flushed, w') = flush writer w in
          if not (is_ok flushed)
          then (flushed, writer, w')
          else (status_ok, advance writer total_size, w'))
      else (status_ok, advance writer total_size, w)

  -- The timestamp of a record: the message's, or the clock's if that is zero.
  abbrev pub timestamp : MessageView → World → ℕ × World
  timestamp message w =
      if not (message.header.timestamp_ns == 0)
      then (message.header.timestamp_ns, w)
      else steady_now w

  -- The part of `append` behind its tests.
  abbrev pub write_record : WalWriter → MessageView → ℕ → World → Status × WalWriter × World
  write_record writer message total_size w =
      let (stamp, w') = timestamp message w in
      finish_append (store_record writer (record_header writer message stamp) message.payload)
        total_size w'

  abbrev pub refuse : WalWriter → World → Status → Status × WalWriter × World
  refuse writer w s = (s, writer, w)

  unfoldable pub append : WalWriter → MessageView → World → Status × WalWriter × World
  append writer message w =
      let deny = refuse writer w in
      let payload_size = length message.payload in
      let total_size = (wal_record_header_size + payload_size) % u64_mod in
      let message_status = validate_message_view message in
      if not (valid writer)
      then deny (status_error StatusCode.invalid_argument "wal writer is not open")
      else if not (is_ok message_status)
      then deny message_status
      else if not (fits_size_t payload_size)
      then deny (status_error StatusCode.invalid_argument "payload too large")
      else if ltb max_payload_size payload_size
      then deny (status_error StatusCode.invalid_argument "payload too large")
      else if ltb (u64_mod - 1 - wal_record_header_size) payload_size
      then deny (status_error StatusCode.invalid_argument "wal record size overflow")
      else if ltb (remaining_space writer) total_size
      then deny
          (status_error StatusCode.out_of_space "wal file does not have enough remaining space")
      else if not (fits_size_t writer.current_offset) || not (fits_size_t total_size)
      then deny (status_error StatusCode.invalid_argument "wal offset too large for this platform")
      else write_record writer message total_size w
