-- ===== src/Persistent.antt =====
-- include/aether/persistent_broker.hpp: `PersistentBroker<T, Capacity>`, a broker whose values go
-- to a log before they go to the queue.
pub mod Observers
pub mod Laws
pub mod Refusals
pub mod Open
pub mod Counts
pub mod Replay
pub mod Recover
use aether_stream.Common.{
  ℕ, ◌-◌, ◌%◌, ◌≤◌, ◌≡◌, Bool, true, false, not, ◌==◌, leb, ◌&&◌, if◌then◌else◌, Option, none, some,
  length,
}
use aether_stream.Core.Types.{u32_mod, max_payload_size}
use aether_stream.Core.Status.{Status, StatusCode, status_error, status_ok, is_ok, code_eq}
use aether_stream.Core.Expected.{Expected, value, error}
use aether_stream.Core.Config.{FilePath, BrokerConfig, WalConfig, default_queue_config}
use aether_stream.Core.Validate.{
  validate_queue_config_for_capacity, validate_wal_config_for_payload,
}
use aether_stream.Metrics.Counters
use aether_stream.Metrics.Counters.{Counters, Snapshot, zero_counters}
use aether_stream.Io.Os.{Os}
use aether_stream.Io.Mmap
use aether_stream.Wal.Record.{Bytes, WalRecordHeader, WalRecordView}
use aether_stream.Wal.Checksum.{AllBytes}
use aether_stream.Wal.Message.{MessageView}
use aether_stream.Wal.Writer
use aether_stream.Wal.Writer.{WalWriter, no_writer}
use aether_stream.Wal.Reader
use aether_stream.Wal.Reader.{WalReader, open_reader}
use aether_stream.Broker
use aether_stream.Broker.{Broker, default_broker}

-- `std::is_trivially_copyable_v<T>`: the bytes of an object, and the object that `memcpy` makes of
-- them.
pub record TriviallyCopyable {ℓ} (T : Type ℓ) : Type ℓ where
  pub size_of : ℕ
  pub object_payload : T → Bytes
  pub copy_bytes : Bytes → T
  pub length-object_payload : (x : T) → length (object_payload x) ≡ size_of
  pub object_bytes : (x : T) → AllBytes (object_payload x)
  pub copy_bytes-object_payload : (x : T) → copy_bytes (object_payload x) ≡ x

pub record PersistentBroker {ℓ} (T : Type ℓ) : Type ℓ where
  pub broker : Broker T
  pub writer : WalWriter
  pub open_status : Status
  pub counters : Counters

-- `writer_ = std::move(other)`: member by member, and the old file is closed.
abbrev pub assign_writer : (os : Os) → WalWriter → WalWriter → os.World → WalWriter × os.World
assign_writer os w other world =
    let (file, world') = Mmap.move_assign os w.file other.file world in
    (record other { file = file }, world')

module _ {ℓ} {T : Type ℓ} (cap : ℕ) where
  -- The default constructor.
  unfoldable pub make : PersistentBroker T
  make = record {
    broker = default_broker cap;
    writer = no_writer;
    open_status = status_error StatusCode.invalid_argument "persistent broker is not open";
    counters = zero_counters;
  }

  unfoldable pub valid : PersistentBroker T → Bool
  valid b = is_ok b.open_status && Writer.valid b.writer

  -- The status that `open` keeps and returns.
  abbrev pub keep {ω} :
      {W : Type ω} → PersistentBroker T → Status → W → Status × PersistentBroker T × W
  keep b s w = (s, record b { open_status = s }, w)

  module _ (t : TriviallyCopyable T) (os : Os) where
    open os use {World}

    abbrev pub take_writer :
        PersistentBroker T → Expected WalWriter × World → Status × PersistentBroker T × World
    take_writer b (error s, w) = keep b s w
    take_writer b (value writer, w) =
        let (writer', w') = assign_writer os b.writer writer w in
        keep (record b { writer = writer' }) status_ok w'

    -- `open(const BrokerConfig&)`.
    unfoldable pub open_broker :
        PersistentBroker T → BrokerConfig → World → Status × PersistentBroker T × World
    open_broker b config w =
        let queue_status = validate_queue_config_for_capacity config.queue cap in
        let wal_status = validate_wal_config_for_payload config.wal t.size_of in
        if Writer.valid b.writer
        then keep b (status_error StatusCode.invalid_argument "persistent broker is already open") w
        else if not (is_ok queue_status)
        then keep b queue_status w
        else if not config.enable_wal
        then keep b
            (status_error StatusCode.invalid_argument
              "persistent broker requires WAL to be enabled")
            w
        else if not (is_ok wal_status)
        then keep b wal_status w
        else take_writer b (Writer.create os config.wal w)

    -- `open(const WalConfig&)`.
    unfoldable pub open_wal :
        PersistentBroker T → WalConfig → World → Status × PersistentBroker T × World
    unfolding open_broker
    open_wal b wal_config w =
        open_broker b
          (record {
            queue = record default_queue_config { capacity = cap };
            wal = wal_config;
            enable_wal = true;
          })
          w

    -- `append_to_wal`: the message that it builds, and the append.
    abbrev pub wal_message : T → ℕ → MessageView
    wal_message x flags = record {
      header = record {
        sequence = 0;
        timestamp_ns = 0;
        payload_size = t.size_of % u32_mod;
        flags = flags;
      };
      payload = t.object_payload x;
    }

    -- The part of `try_publish` behind the append, with the offset from before it.
    abbrev pub publish_logged :
        PersistentBroker T
        → T
        → ℕ
        → Status × WalWriter × World
        → Status × PersistentBroker T × World
    publish_logged b x before (wal_status, writer, w) =
        let after = writer.current_offset in
        let logged =
          Counters.record_wal_write b.counters (if leb before after then after - before else 0) in
        let (publish_status, queue) = Broker.try_publish cap b.broker x in
        if not (is_ok wal_status)
        then (
          wal_status,
          record b { writer = writer; counters = Counters.record_wal_failure b.counters },
          w,
        )
        else if not (is_ok publish_status)
        then (
          status_error StatusCode.unknown "queue publish failed after WAL append",
          record b {
            broker = queue;
            writer = writer;
            counters = Counters.record_wal_failure logged;
          },
          w,
        )
        else (
          status_ok,
          record b { broker = queue; writer = writer; counters = Counters.record_published logged },
          w,
        )

    -- `try_publish` of a value, copied or moved.
    unfoldable pub try_publish :
        PersistentBroker T → T → ℕ → World → Status × PersistentBroker T × World
    try_publish b x flags w =
        if not (valid b)
        then (
          b.open_status,
          record b { counters = Counters.record_publish_failed_invalid b.counters },
          w,
        )
        else if Broker.full cap b.broker
        then (
          status_error StatusCode.full "broker queue is full",
          record b { counters = Counters.record_publish_failed_full b.counters },
          w,
        )
        else publish_logged b x b.writer.current_offset
            (Writer.append os b.writer (wal_message x flags) w)

    abbrev pub flush_answer :
        PersistentBroker T → Status × World → Status × PersistentBroker T × World
    flush_answer b (s, w) = (
      s,
      record b {
        counters =
            if is_ok s
            then Counters.record_wal_flush b.counters
            else Counters.record_wal_failure b.counters;
      },
      w,
    )

    unfoldable pub flush : PersistentBroker T → World → Status × PersistentBroker T × World
    flush b w =
        if not (valid b)
        then (b.open_status, record b { counters = Counters.record_wal_failure b.counters }, w)
        else flush_answer b (Writer.flush os b.writer w)

  -- `try_consume(out)`; `none` is undefined behaviour of the ring.
  abbrev pub consume_answer :
      PersistentBroker T → Status × T × Broker T → Status × T × PersistentBroker T
  consume_answer b (s, out, queue) = (
    s,
    out,
    record b {
      broker = queue;
      counters =
          if is_ok s
          then Counters.record_consumed b.counters
          else if code_eq s.code StatusCode.empty
          then Counters.record_consume_failed_empty b.counters
          else b.counters;
    },
  )

  unfoldable pub try_consume : PersistentBroker T → T → Option (Status × T × PersistentBroker T)
  try_consume b out =
      if not (valid b)
      then some (
        b.open_status,
        out,
        record b { counters = Counters.record_consume_failed_invalid b.counters },
      )
      else elim (Broker.try_consume cap b.broker out) [
        | none ↦ none
        | some r ↦ some (consume_answer b r)
      ]
