-- ===== src/Tests/Data.antt =====
-- The data of the tests: those of Logs, and brokers of a type of one byte.
mod Logs
pub use Logs.*
use aether_stream.Common.{
  ℕ, zero, suc, ◌+◌, ◌≡◌, ◌≢◌, ◌++◌, length-append, refl, true, false, some, List, [], ◌∷◌,
  replicate, arith, codes, length, Bool, ◌==◌,
}
use aether_stream.Core.Status.{StatusCode, status_ok, status_error}
use aether_stream.Metrics.Counters.{zero_counters}
use aether_stream.Io.Os.{Os}
use aether_stream.Io.Mmap
use aether_stream.Io.Mmap.{MmapFile, bytes}
use aether_stream.Wal.Record.{WalRecordHeader, Bytes, is_zero_filled, serialize_header}
use aether_stream.Wal.Checksum.{AllBytes, compute_record_checksum}
use aether_stream.Wal.Message.{MessageView}
use aether_stream.Wal.Writer.{WalWriter, writer_on, record_header}
use aether_stream.Wal.Log.{
  Entry, IsEntry, IsShaped, IsEntry-IsShaped, encode, encode_all, length-encode,
}
use aether_stream.Wal.Log.Damage.{Ending}
use aether_stream.Wal.Log.Replay.{HoldsLog, EndsIn}
use aether_stream.Wal.Log.Write.{IsMessage, Wrote, entry_of, entry_of-IsEntry}
use aether_stream.Ring.{Ring, init, try_push}
use aether_stream.Ring.Queue
use aether_stream.Ring.Ops.{try_push_refines}
use aether_stream.Ring.Repr.{IsCapacity, init-Holds}
use aether_stream.Broker.{Broker}
use aether_stream.Batch.{BatchBroker}
use aether_stream.Persistent.{PersistentBroker, TriviallyCopyable}
use aether_stream.Persistent.Laws.{Stands}

-- `bool` as a type of one byte.
abbrev pub bool_payload : Bool → Bytes
bool_payload true = 1 ∷ []
bool_payload false = 0 ∷ []

abbrev pub bool_of : Bytes → Bool
bool_of [] = false
bool_of (b ∷ bs) = b == 1

pub length-bool_payload : (x : Bool) → length (bool_payload x) ≡ 1
length-bool_payload true = refl
length-bool_payload false = refl

pub bool_payload-AllBytes : (x : Bool) → AllBytes (bool_payload x)
bool_payload-AllBytes true = (omega arith, tt)
bool_payload-AllBytes false = (omega arith, tt)

pub bool_of-bool_payload : (x : Bool) → bool_of (bool_payload x) ≡ x
bool_of-bool_payload true = refl
bool_of-bool_payload false = refl

abbrev pub bool_copyable : TriviallyCopyable Bool
bool_copyable = record {
  size_of = 1;
  object_payload = bool_payload;
  copy_bytes = bool_of;
  length-object_payload = length-bool_payload;
  object_bytes = bool_payload-AllBytes;
  copy_bytes-object_payload = bool_of-bool_payload;
}

abbrev pub test_broker {ℓ} : {T : Type ℓ} → Broker T
test_broker = record { config_status = status_ok; queue = init 4; counters = zero_counters }

abbrev pub test_batch : BatchBroker ℕ
test_batch = record { config_status = status_ok; queue = init 4; counters = zero_counters }

abbrev pub test_persistent : PersistentBroker Bool
test_persistent = record {
  broker = test_broker;
  writer = test_writer;
  open_status = status_ok;
  counters = zero_counters;
}

pub test_persistent-Stands : Stands 4 test_persistent [] []
test_persistent-Stands = record {
  opened = refl;
  queue_ok = refl;
  queue = init-Holds 4 four-IsCapacity;
  log = test_writer-Wrote;
}

-- The same with a file of 40 bytes.
abbrev pub small_file : MmapFile
small_file = record test_file { bytes_at = some (replicate 40 0); size = 40 }

abbrev pub small_writer : WalWriter
small_writer = writer_on small_file false

small_writer-Wrote : Wrote small_writer []
unfolding Mmap.valid bytes is_zero_filled
small_writer-Wrote = record {
  zeros = replicate 40 0;
  log = record {
    is_open = refl;
    whole = refl;
    fits = omega arith;
    split = refl;
    slack = refl;
    entries = tt;
  };
  at = refl;
  next = refl;
  count = refl;
}

abbrev pub small_persistent : PersistentBroker Bool
small_persistent = record test_persistent { writer = small_writer }

pub small_persistent-Stands : Stands 4 small_persistent [] []
small_persistent-Stands = record {
  opened = refl;
  queue_ok = refl;
  queue = init-Holds 4 four-IsCapacity;
  log = small_writer-Wrote;
}

-- A log of one `bool`.
abbrev bool_message : MessageView
bool_message = record {
  header = record { sequence = 0; timestamp_ns = 0; payload_size = 1; flags = 0 };
  payload = bool_payload true;
}

abbrev pub bool_header : WalRecordHeader
bool_header = record_header test_writer bool_message 77

abbrev bool_entry : Entry
bool_entry = entry_of test_writer bool_message 77

bool_message-IsMessage : IsMessage bool_message
bool_message-IsMessage = record {
  sized = refl;
  short = omega arith;
  flags_fit = omega arith;
  payload_bytes = (omega arith, tt);
}

abbrev pub bool_file : MmapFile
bool_file = record test_file {
  bytes_at = some (encode_all (bool_entry ∷ []) ++ replicate 23 0);
  size = 64;
}

pub bool_file-HoldsLog : HoldsLog bool_file (bool_entry ∷ []) (replicate 23 0)
unfolding Mmap.valid bytes is_zero_filled
bool_file-HoldsLog = record {
  is_open = refl;
  whole = omega (
    arith,
    length-append (encode_all (bool_entry ∷ [])) (replicate 23 0),
    length-append (encode bool_entry) [],
    length-encode bool_entry,
  );
  fits = omega arith;
  split = refl;
  slack = refl;
  entries = (
    entry_of-IsEntry test_writer bool_message 77 bool_message-IsMessage (omega arith) (omega arith),
    tt,
  );
}
