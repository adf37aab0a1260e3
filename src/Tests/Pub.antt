-- ===== src/Tests/Pub.antt =====
-- aether_pub and `open` on concrete inputs.
use aether_stream.Common.{
  ℕ, zero, suc, ◌+◌, ◌≡◌, refl, sym, ap, ◌∙◌, Bool, true, false, ◌==◌, some, List, [], length,
  replicate, arith,
}
use aether_stream.Core.Status.{is_ok}
use aether_stream.Core.Expected.{value}
use aether_stream.Core.Config.{BrokerConfig, default_queue_config, default_wal_config}
use aether_stream.Core.Config
use aether_stream.Core.Validate
use aether_stream.Core.Types
use aether_stream.Io.Os.{Os}
use aether_stream.Io.Mmap
use aether_stream.Metrics.Counters.{zero_counters}
use aether_stream.Metrics.Counters
use aether_stream.Wal.Record.{WalRecordHeader, is_zero_filled}
use aether_stream.Wal.Reader.{reader_on}
use aether_stream.Wal.Writer
use aether_stream.Wal.Log.Create.{NewFilesAreZero}
use aether_stream.Persistent.Replay.{replay_on}
use aether_stream.Persistent.{make, open_wal, open_broker, valid, try_publish, try_consume, flush}
use aether_stream.Persistent.Open.{Opened, open_wal_lem, reopen_lem, already_open}
use aether_stream.Cli.Options.{PubOptions, default_pub, default_sub}
use aether_stream.Apps.Sub.{OrderEvent}
use aether_stream.Apps.Sub.Recovery
use aether_stream.Apps.Sub.Recovery.{events_of, behind_replay, visit_event, none_seen, all_replayed}
use aether_stream.Apps.Pub.{publish_all, config_of, queue_capacity}
use aether_stream.Apps.Pub.Steps.{Clock64, made, queue_capacity-IsCapacity}
use aether_stream.Apps.Pub.Run.{Written, publish_all_lem, publish_all-replay}
use aether_stream.Tests.Data.{
  bool_copyable, test_os, four-IsCapacity, test_persistent, test_persistent-Stands,
}

-- A system that counts the reads of its clock, which stands still.
abbrev still_os : Os
still_os = record {
  World = ℕ;
  open_truncated = λ path w. (some 3, w);
  open_present = λ path w. (some 3, w);
  fstat_size = λ fd w. (some 128, w);
  ftruncate = λ fd size w. (true, w);
  msync = λ mapped w. (true, w);
  munmap = λ mapped w. (true, w);
  close_fd = λ fd w. (true, w);
  mmap = λ fd size w. (some (replicate size 0), w);
  steady_now = λ w. (7, w + 1);
}

length-replicate : (n : ℕ) → length {A = ℕ} (replicate n 0) ≡ n
length-replicate zero = refl
length-replicate (suc n) = ap suc (length-replicate n)

is_zero_filled-replicate : (n : ℕ) → is_zero_filled (replicate n 0) ≡ true
unfolding is_zero_filled
is_zero_filled-replicate zero = refl
is_zero_filled-replicate (suc n) = is_zero_filled-replicate n

still_os-NewFilesAreZero : NewFilesAreZero still_os
still_os-NewFilesAreZero = record {
  shown = λ path size fd w l opened resized mapped.
      let e : replicate size 0 ≡ l = cc in
      (
        ap length (sym e) ∙ length-replicate size,
        ap is_zero_filled (sym e) ∙ is_zero_filled-replicate size,
      );
}

still_os-Clock64 : Clock64 still_os
still_os-Clock64 = record { fits = λ w. omega arith }

-- The second of two messages is `true`.
abbrev second : OrderEvent → Bool
second event = event.id == 2

abbrev two_messages : PubOptions
two_messages = record default_pub { messages = 2; wal_size_bytes = 100 }

opens :
    is_ok
      (open_wal queue_capacity bool_copyable still_os
        (make queue_capacity)
        (config_of bool_copyable second still_os two_messages)
        5).0
    ≡ true
unfolding make open_wal open_broker Validate.validate_queue_config_for_capacity
    Config.validate_queue Validate.validate_wal_config_for_payload Config.validate_wal Writer.create
    Mmap.create Writer.valid Mmap.valid Types.is_power_of_two
opens = refl

publish_all_lem_example :
    (rs : List (Bool × WalRecordHeader)) × (events_of rs ≡ made bool_copyable still_os second 0 2)
    × Written bool_copyable second still_os two_messages rs
        (publish_all bool_copyable second still_os two_messages 5)
publish_all_lem_example =
    publish_all_lem bool_copyable second still_os two_messages 5 still_os-NewFilesAreZero
      still_os-Clock64 (omega arith) (omega arith) (omega arith) refl opens

publish_all-replay_example :
    let written = (publish_all bool_copyable second still_os two_messages 5).2.writer.file in
    (end : ℕ) × (behind_replay bool_copyable still_os default_sub (
        replay_on {T = Bool} 65536 bool_copyable still_os
          (visit_event 10)
          none_seen
          zero_counters
          (value (reader_on written), 9))
      ≡ some (
        0,
        Recovery.summary (all_replayed default_sub (made bool_copyable still_os second 0 2)),
        end,
      ))
publish_all-replay_example =
    publish_all-replay bool_copyable second still_os two_messages 5 9 default_sub
      still_os-NewFilesAreZero still_os-Clock64 (omega arith) (omega arith) (omega arith) refl opens

open_wal_lem_example :
    Opened queue_capacity-IsCapacity bool_copyable still_os default_wal_config 5
      (open_wal queue_capacity bool_copyable still_os (make queue_capacity) default_wal_config 5)
open_wal_lem_example =
    open_wal_lem queue_capacity-IsCapacity bool_copyable still_os default_wal_config 5
      still_os-NewFilesAreZero

-- The configurations of two further calls of `open`.
abbrev four_config : BrokerConfig
four_config = record {
  queue = record default_queue_config { capacity = 4 };
  wal = default_wal_config;
  enable_wal = true;
}

reopen_lem_example :
    let (s, b', w') = open_broker 4 bool_copyable test_os test_persistent four_config 3 in
    (s ≡ already_open)
    × (b'.broker ≡ test_persistent.broker)
    × (b'.writer ≡ test_persistent.writer)
    × (w' ≡ 3)
    × (valid 4 b' ≡ false)
    × (try_publish 4 bool_copyable test_os b' true 0 3 ≡ (
      already_open,
      record b' { counters = Counters.record_publish_failed_invalid b'.counters },
      3,
    ))
    × (try_consume 4 b' true
        ≡ some (
          already_open,
          true,
          record b' { counters = Counters.record_consume_failed_invalid b'.counters },
        ))
    × ((flush 4 bool_copyable test_os b' 3).0 ≡ already_open)
    × (open_broker 4 bool_copyable test_os b' four_config 3 ≡ (already_open, b', 3))
reopen_lem_example =
    reopen_lem four-IsCapacity bool_copyable test_os test_persistent [] [] four_config four_config
      true 0 3 test_persistent-Stands
