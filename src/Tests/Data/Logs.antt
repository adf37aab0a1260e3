-- ===== src/Tests/Data/Logs.antt =====
-- A small ring, a small file and an operating system in which all calls succeed.
use aether_stream.Common.{
  ℕ, zero, suc, ◌+◌, ◌≡◌, ◌≢◌, ◌++◌, length-append, refl, true, false, some, List, [], ◌∷◌,
  replicate, arith, codes, ◌==◌,
}
use aether_stream.Core.Status.{StatusCode, status_error}
use aether_stream.Io.Os.{Os}
use aether_stream.Io.Mmap
use aether_stream.Io.Mmap.{MmapFile, bytes}
use aether_stream.Wal.Record.{Bytes, is_zero_filled, serialize_header}
use aether_stream.Wal.Checksum.{AllBytes, compute_record_checksum}
use aether_stream.Wal.Message.{MessageView}
use aether_stream.Wal.Writer.{WalWriter, writer_on, record_header}
use aether_stream.Wal.Log.{
  Entry, IsEntry, IsShaped, IsEntry-IsShaped, encode, encode_all, length-encode,
}
use aether_stream.Wal.Log.Damage.{Ending}
use aether_stream.Wal.Log.Replay.{HoldsLog, EndsIn}
use aether_stream.Wal.Log.Write.{IsMessage, Wrote, entry_of, entry_of-IsEntry}
use aether_stream.Ring.{Ring, init}
use aether_stream.Ring.Repr.{IsCapacity}

pub four-IsCapacity : IsCapacity 4
four-IsCapacity = record { exponent = 2; pow = refl; pos = omega arith; fits = omega arith }

abbrev pub seven : ℕ
seven = 7

abbrev pub nine : ℕ
nine = 9

abbrev pub empty_queue : List ℕ
empty_queue = []

abbrev pub empty_ring : Ring ℕ
empty_ring = init 4

-- The clock is the world.
abbrev pub test_os : Os
test_os = record {
  World = ℕ;
  open_truncated = λ path w. (some 3, w);
  open_present = λ path w. (some 3, w);
  fstat_size = λ fd w. (some 128, w);
  ftruncate = λ fd size w. (true, w);
  msync = λ mapped w. (true, w);
  munmap = λ mapped w. (true, w);
  close_fd = λ fd w. (true, w);
  mmap = λ fd size w. (some (replicate size 0), w);
  steady_now = λ w. (w, w + 1);
}

abbrev pub test_file : MmapFile
test_file = record {
  fd = some 3;
  bytes_at = some (replicate 128 0);
  size = 128;
  path = codes "test.wal";
  flush_on_destroy = true;
}

pub test_file-HoldsLog : HoldsLog test_file [] (bytes test_file)
unfolding Mmap.valid bytes is_zero_filled
test_file-HoldsLog = record {
  is_open = refl;
  whole = refl;
  fits = omega arith;
  split = refl;
  slack = refl;
  entries = tt;
}

abbrev pub test_writer : WalWriter
test_writer = writer_on test_file false

pub test_writer-Wrote : Wrote test_writer []
test_writer-Wrote = record {
  zeros = bytes test_file;
  log = test_file-HoldsLog;
  at = refl;
  next = refl;
  count = refl;
}

-- A message of three bytes that carries its own timestamp.
abbrev pub test_message : MessageView
test_message = record {
  header = record { sequence = 0; timestamp_ns = 77; payload_size = 3; flags = 5 };
  payload = 1 ∷ 2 ∷ 3 ∷ [];
}

pub test_message-IsMessage : IsMessage test_message
test_message-IsMessage = record {
  sized = refl;
  short = omega arith;
  flags_fit = omega arith;
  payload_bytes = (omega arith, (omega arith, (omega arith, tt)));
}

-- A log of that message and, behind it, a record of it with a payload that its checksum does not
-- fit.
abbrev pub test_entry : Entry
test_entry = entry_of test_writer test_message 77

test_entry-IsEntry : IsEntry test_entry
test_entry-IsEntry =
    entry_of-IsEntry test_writer test_message 77 test_message-IsMessage (omega arith) (omega arith)

abbrev pub spoiled_entry : Entry
spoiled_entry = record test_entry { payload = 1 ∷ 2 ∷ 4 ∷ [] }

spoiled_entry-IsShaped : IsShaped spoiled_entry
spoiled_entry-IsShaped =
    let v = IsEntry-IsShaped test_entry test_entry-IsEntry in
    record {
      fits = v.fits;
      magic = v.magic;
      version = v.version;
      header_size = v.header_size;
      payload_size = v.payload_size;
      short = omega arith;
    }

spoiled_checksum :
    spoiled_entry.header.checksum
    ≢ compute_record_checksum spoiled_entry.header spoiled_entry.payload
unfolding record_header compute_record_checksum serialize_header
spoiled_checksum e =
    let ne : (spoiled_entry.header.checksum
          == compute_record_checksum spoiled_entry.header spoiled_entry.payload)
        ≡ false =
      refl in
    ground arith

abbrev pub spoiled_bytes : Bytes
spoiled_bytes = encode spoiled_entry ++ []

abbrev pub spoiled_file : MmapFile
spoiled_file = record test_file {
  bytes_at = some (encode_all (test_entry ∷ []) ++ spoiled_bytes);
  size = 86;
}

pub spoiled_file-EndsIn :
    EndsIn spoiled_file
      (test_entry ∷ [])
      (status_error StatusCode.corrupted_record "wal checksum mismatch")
      spoiled_bytes
unfolding Mmap.valid bytes
spoiled_file-EndsIn = record {
  is_open = refl;
  whole = omega (
    arith,
    length-append (encode_all (test_entry ∷ [])) spoiled_bytes,
    length-append (encode test_entry) [],
    length-append (encode spoiled_entry) [],
    length-encode test_entry,
    length-encode spoiled_entry,
  );
  fits = omega arith;
  split = refl;
  ending = Ending.damaged spoiled_entry [] spoiled_entry-IsShaped spoiled_checksum;
  entries = (test_entry-IsEntry, tt);
}

-- A message of the same header that is too large for the file.
abbrev pub large_message : MessageView
large_message = record {
  header = record { sequence = 0; timestamp_ns = 77; payload_size = 100; flags = 5 };
  payload = replicate 100 9;
}

nines-AllBytes : (n : ℕ) → AllBytes (replicate n 9)
nines-AllBytes zero = tt
nines-AllBytes (suc n) = (omega arith, nines-AllBytes n)

pub large_message-IsMessage : IsMessage large_message
large_message-IsMessage = record {
  sized = refl;
  short = omega arith;
  flags_fit = omega arith;
  payload_bytes = nines-AllBytes 100;
}
