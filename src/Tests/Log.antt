-- ===== src/Tests/Log.antt =====
-- Runs of the log, its writer and reader, and of the persistent broker.
use aether_stream.Common.{
  replicate, ℕ, ◌+◌, ◌≤◌, ◌<◌, ◌≡◌, ◌⊎◌, inr, refl, true, some, [], ◌∷◌, ◌++◌, arith, Bool,
}
use aether_stream.Core.Status.{Status, StatusCode, status_ok, status_error}
use aether_stream.Core.Expected.{value}
use aether_stream.Metrics.Counters
use aether_stream.Metrics.Counters.{Counters, zero_counters}
use aether_stream.Io.Mmap
use aether_stream.Io.Mmap.{bytes}
use aether_stream.Wal.Record.{
  WalRecordHeader, WalRecordView, default_header, serialize_header, read_header,
}
use aether_stream.Wal.Codec.{read_header-serialize_header}
use aether_stream.Wal.Checksum.{compute_record_checksum, compute_record_checksum-eq-crc32, crc32}
use aether_stream.Wal.Reader.{WalReader, reader_on, replay}
use aether_stream.Wal.Writer.{append, remaining_space, timestamp}
use aether_stream.Wal.Log.{views_from}
use aether_stream.Wal.Log.Replay.{visit_all}
use aether_stream.Wal.Log.Write.{entry_of}
use aether_stream.Wal.Log.Outcome.{Appended, append_lem}
use aether_stream.Wal.Log.Total.{replay_ends}
use aether_stream.Wal.Log.Session.{append_each, append_each-replay, all_ok, entries_for}
use aether_stream.Ring.Queue
use aether_stream.Persistent.{PersistentBroker, try_publish, try_consume, wal_message}
use aether_stream.Persistent.Replay.{replay_on}
use aether_stream.Persistent.Refusals.{try_publish_refused}
use aether_stream.Persistent.Laws.{Stands, Published, try_publish_room, logged_consume_refines}
use aether_stream.Persistent.Recover.{recover, replay_on_lem}
use aether_stream.Broker.Laws.{pop_status}
use aether_stream.Tests.Data.{
  bool_file, bool_file-HoldsLog, bool_header, four-IsCapacity, test_os, test_file,
  test_file-HoldsLog, test_writer, test_writer-Wrote, test_message, test_message-IsMessage,
  bool_copyable, test_persistent, test_persistent-Stands, small_writer, small_persistent,
  small_persistent-Stands,
}

-- A visitor that counts and takes all.
abbrev counting : ℕ → WalRecordView → Status × ℕ
counting n view = (status_ok, n + 1)

abbrev counting_values : ℕ → Bool → WalRecordHeader → Status × ℕ
counting_values n x h = (status_ok, n + 1)

-- The remaining space of the file of 128 bytes.
space_test : remaining_space test_writer ≡ 128
unfolding remaining_space Mmap.valid
space_test = refl

small_space_test : remaining_space small_writer ≡ 40
unfolding remaining_space Mmap.valid
small_space_test = refl

read_header-serialize_header_example :
    read_header (serialize_header default_header ++ 1 ∷ 2 ∷ []) ≡ default_header
read_header-serialize_header_example =
    read_header-serialize_header default_header (1 ∷ 2 ∷ []) (record {
      magic = omega arith;
      version = omega arith;
      header_size = omega arith;
      payload_size = omega arith;
      sequence = omega arith;
      timestamp_ns = omega arith;
      checksum = omega arith;
      flags = omega arith;
    })

compute_record_checksum-eq-crc32_example :
    compute_record_checksum default_header (1 ∷ 2 ∷ [])
    ≡ crc32 (serialize_header (record default_header { checksum = 0 }) ++ 1 ∷ 2 ∷ [])
compute_record_checksum-eq-crc32_example =
    compute_record_checksum-eq-crc32 default_header (1 ∷ 2 ∷ [])

-- The check value of CRC-32: that of the text "123456789".
crc32_test : crc32 (b'1' ∷ b'2' ∷ b'3' ∷ b'4' ∷ b'5' ∷ b'6' ∷ b'7' ∷ b'8' ∷ b'9' ∷ []) ≡ 0xCBF43926
unfolding crc32
crc32_test = refl

append_lem_example :
    let out = append test_os test_writer test_message 3 in
    Appended test_writer []
      (entry_of test_writer test_message (timestamp test_os test_message 3).0)
      out.0
      out.1
append_lem_example =
    append_lem test_writer [] test_message test_os 3 test_writer-Wrote test_message-IsMessage
      (omega (arith, space_test)) (omega arith)

-- Two messages of 43 bytes each fit the file.
append_each-replay_example :
    let ms = test_message ∷ test_message ∷ [] in
    let out = append_each test_os test_writer ms 3 in
    let shown = visit_all counting 0 (views_from 0 (entries_for 0 ms)) in
    (out.0 ≡ all_ok ms)
    × ((r : WalReader) × (replay counting 0 (reader_on out.1.file) ≡ some (shown.0, shown.1, r)))
append_each-replay_example =
    append_each-replay test_os counting 0 test_file (test_message ∷ test_message ∷ []) 3
      test_file-HoldsLog
      (
        (test_message-IsMessage, omega arith, omega arith),
        ((test_message-IsMessage, omega arith, omega arith), tt),
      )
      (omega arith)

try_publish_room_example :
    let m = wal_message 4 bool_copyable test_os true 0 in
    let out = try_publish 4 bool_copyable test_os test_persistent true 0 3 in
    Published four-IsCapacity bool_copyable test_os test_persistent [] [] true
      (entry_of test_writer m (timestamp test_os m 3).0)
      out.0
      out.1
try_publish_room_example =
    try_publish_room four-IsCapacity bool_copyable test_os test_persistent [] [] true 0 3
      test_persistent-Stands (omega arith) (omega arith) (omega arith) (omega (arith, space_test))
      (omega arith)

try_publish_refused_example :
    let out = try_publish 4 bool_copyable test_os small_persistent true 0 3 in
    ((4 ≤ 0)
      × (out ≡ (
        status_error StatusCode.full "broker queue is full",
        record small_persistent { counters = Counters.record_publish_failed_full zero_counters },
        3,
      )))
    ⊎ ((0 < 4)
        × (out ≡ (
          status_error StatusCode.out_of_space "wal file does not have enough remaining space",
          record small_persistent { counters = Counters.record_wal_failure zero_counters },
          3,
        )))
try_publish_refused_example =
    try_publish_refused four-IsCapacity bool_copyable test_os small_persistent [] [] true 0 3
      small_persistent-Stands (omega arith) (omega arith) (inr (omega (arith, small_space_test)))

logged_consume_refines_example :
    let (done, out', xs') = Queue.pop {T = Bool} [] true in
    (b' : PersistentBroker Bool) × (try_consume 4 test_persistent true
      ≡ some (pop_status done, out', b'))
    × Stands 4 b' xs' []
logged_consume_refines_example =
    logged_consume_refines four-IsCapacity bool_copyable test_os test_persistent [] [] true
      test_persistent-Stands

replay_on_lem_example :
    let done = recover counting_values 0 zero_counters ((true, bool_header) ∷ []) in
    (world' : ℕ) × (replay_on 4 bool_copyable test_os counting_values 0 zero_counters
        (value (reader_on bool_file), 3)
      ≡ some (done.0, done.1, done.2, world'))
replay_on_lem_example =
    replay_on_lem 4 bool_copyable test_os counting_values bool_file ((true, bool_header) ∷ [])
      (replicate 23 0) 0 zero_counters 3 bool_file-HoldsLog

-- A file of bytes that are no log.
abbrev damaged_reader : WalReader
damaged_reader = reader_on (record small_writer.file { bytes_at = some (replicate 40 7) })

replay_ends_example : (out : Status × ℕ × WalReader) × (replay counting 0 damaged_reader ≡ some out)
replay_ends_example = replay_ends counting 0 damaged_reader (omega arith)
