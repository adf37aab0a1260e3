-- ===== src/Metrics/Counters.antt =====
-- include/aether/metrics/counters.hpp and snapshot.hpp: the counters of a broker. Each is a
-- 64-bit atomic, so that an increment wraps.
use aether_stream.Common.{ℕ, ◌+◌, ◌%◌}
use aether_stream.Core.Types.{u64_mod}

-- `BrokerMetricsSnapshot`.
pub record Snapshot : Type 0 where
  pub published : ℕ
  pub consumed : ℕ
  pub publish_failed_full : ℕ
  pub consume_failed_empty : ℕ
  pub publish_failed_invalid : ℕ
  pub consume_failed_invalid : ℕ
  pub wal_bytes_written : ℕ
  pub wal_records_written : ℕ
  pub wal_flushes : ℕ
  pub wal_failures : ℕ
  pub recovered_records : ℕ
  pub recovery_failures : ℕ

-- `BrokerCounters`: the atomics, by the names of the snapshot.
pub record Counters : Type 0 where
  pub published : ℕ
  pub consumed : ℕ
  pub publish_failed_full : ℕ
  pub consume_failed_empty : ℕ
  pub publish_failed_invalid : ℕ
  pub consume_failed_invalid : ℕ
  pub wal_bytes_written : ℕ
  pub wal_records_written : ℕ
  pub wal_flushes : ℕ
  pub wal_failures : ℕ
  pub recovered_records : ℕ
  pub recovery_failures : ℕ

-- `fetch_add` of 64 bits.
abbrev pub fetch_add : ℕ → ℕ → ℕ
fetch_add counter n = (counter + n) % u64_mod

abbrev pub increment : ℕ → ℕ
increment counter = fetch_add counter 1

-- The counters of a new broker.
abbrev pub zero_counters : Counters
zero_counters = record {
  published = 0;
  consumed = 0;
  publish_failed_full = 0;
  consume_failed_empty = 0;
  publish_failed_invalid = 0;
  consume_failed_invalid = 0;
  wal_bytes_written = 0;
  wal_records_written = 0;
  wal_flushes = 0;
  wal_failures = 0;
  recovered_records = 0;
  recovery_failures = 0;
}

unfoldable pub record_published : Counters → Counters
record_published c = record c { published = increment c.published }

unfoldable pub record_consumed : Counters → Counters
record_consumed c = record c { consumed = increment c.consumed }

unfoldable pub record_publish_failed_full : Counters → Counters
record_publish_failed_full c = record c { publish_failed_full = increment c.publish_failed_full }

unfoldable pub record_consume_failed_empty : Counters → Counters
record_consume_failed_empty c = record c { consume_failed_empty = increment c.consume_failed_empty }

unfoldable pub record_publish_failed_invalid : Counters → Counters
record_publish_failed_invalid c = record c {
  publish_failed_invalid = increment c.publish_failed_invalid;
}

unfoldable pub record_consume_failed_invalid : Counters → Counters
record_consume_failed_invalid c = record c {
  consume_failed_invalid = increment c.consume_failed_invalid;
}

unfoldable pub record_wal_write : Counters → ℕ → Counters
record_wal_write c bytes = record c {
  wal_records_written = increment c.wal_records_written;
  wal_bytes_written = fetch_add c.wal_bytes_written bytes;
}

unfoldable pub record_wal_flush : Counters → Counters
record_wal_flush c = record c { wal_flushes = increment c.wal_flushes }

unfoldable pub record_wal_failure : Counters → Counters
record_wal_failure c = record c { wal_failures = increment c.wal_failures }

unfoldable pub record_recovered_record : Counters → Counters
record_recovered_record c = record c { recovered_records = increment c.recovered_records }

unfoldable pub record_recovery_failure : Counters → Counters
record_recovery_failure c = record c { recovery_failures = increment c.recovery_failures }

unfoldable pub snapshot : Counters → Snapshot
snapshot c = record {
  published = c.published;
  consumed = c.consumed;
  publish_failed_full = c.publish_failed_full;
  consume_failed_empty = c.consume_failed_empty;
  publish_failed_invalid = c.publish_failed_invalid;
  consume_failed_invalid = c.consume_failed_invalid;
  wal_bytes_written = c.wal_bytes_written;
  wal_records_written = c.wal_records_written;
  wal_flushes = c.wal_flushes;
  wal_failures = c.wal_failures;
  recovered_records = c.recovered_records;
  recovery_failures = c.recovery_failures;
}

unfoldable pub reset : Counters → Counters
reset c = record c {
  published = 0;
  consumed = 0;
  publish_failed_full = 0;
  consume_failed_empty = 0;
  publish_failed_invalid = 0;
  consume_failed_invalid = 0;
  wal_bytes_written = 0;
  wal_records_written = 0;
  wal_flushes = 0;
  wal_failures = 0;
  recovered_records = 0;
  recovery_failures = 0;
}
