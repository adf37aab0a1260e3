-- ===== src/Persistent/Observers.antt =====
-- include/aether/persistent_broker.hpp: the observers of `PersistentBroker<T, Capacity>`.
use aether_stream.Common.{ℕ, Bool}
use aether_stream.Core.Status.{Status}
use aether_stream.Metrics.Counters
use aether_stream.Metrics.Counters.{Snapshot}
use aether_stream.Wal.Writer
use aether_stream.Broker
use aether_stream.Broker.{BrokerDurabilityMode}
use aether_stream.Persistent.{PersistentBroker}

module _ {ℓ} {T : Type ℓ} (cap : ℕ) (b : PersistentBroker T) where
  unfoldable pub open_status : Status
  open_status = b.open_status

  unfoldable pub empty : Bool
  empty = Broker.empty cap b.broker

  unfoldable pub full : Bool
  full = Broker.full cap b.broker

  unfoldable pub size_approx : ℕ
  size_approx = Broker.size_approx cap b.broker

  -- `static constexpr`.
  unfoldable pub capacity : ℕ
  capacity = cap

  unfoldable pub wal_current_offset : ℕ
  wal_current_offset = b.writer.current_offset

  unfoldable pub wal_remaining_space : ℕ
  wal_remaining_space = Writer.remaining_space b.writer

  unfoldable pub wal_next_sequence : ℕ
  wal_next_sequence = b.writer.next_sequence

  unfoldable pub wal_records_written : ℕ
  wal_records_written = b.writer.records_written

  unfoldable pub durability_mode : BrokerDurabilityMode
  durability_mode = BrokerDurabilityMode.wal_before_queue

  unfoldable pub metrics_snapshot : Snapshot
  metrics_snapshot = Counters.snapshot b.counters

  unfoldable pub snapshot : Snapshot
  snapshot = metrics_snapshot

  unfoldable pub reset_metrics : PersistentBroker T
  reset_metrics = record b { counters = Counters.reset b.counters }
