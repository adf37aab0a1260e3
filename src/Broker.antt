-- ===== src/Broker.antt =====
-- include/aether/broker.hpp: `Broker<T, Capacity>`, the ring behind statuses and counters.
pub mod Laws
use aether_stream.Common.{ℕ, Bool, true, false, not, if◌then◌else◌, Option, none, some, String}
use aether_stream.Core.Status.{Status, StatusCode, status_error, status_ok, is_ok}
use aether_stream.Core.Config.{QueueConfig}
use aether_stream.Core.Validate.{validate_queue_config_for_capacity}
use aether_stream.Metrics.Counters
use aether_stream.Metrics.Counters.{Counters, Snapshot, zero_counters}
use aether_stream.Ring.{Ring, init, try_push, try_pop}
use aether_stream.Ring

-- `enum class BrokerDurabilityMode`.
pub data BrokerDurabilityMode : Type 0 where
  in_memory wal_before_queue : BrokerDurabilityMode

unfoldable pub broker_durability_mode_name : BrokerDurabilityMode → String
broker_durability_mode_name in_memory = "in_memory"
broker_durability_mode_name wal_before_queue = "wal_before_queue"

pub record Broker {ℓ} (T : Type ℓ) : Type ℓ where
  pub config_status : Status
  pub queue : Ring T
  pub counters : Counters

module _ {ℓ} {T : Type ℓ} (cap : ℕ) where
  -- The default constructor, and the one from a configuration.
  unfoldable pub default_broker : Broker T
  default_broker = record { config_status = status_ok; queue = init cap; counters = zero_counters }

  unfoldable pub make_broker : QueueConfig → Broker T
  make_broker config = record {
    config_status = validate_queue_config_for_capacity config cap;
    queue = init cap;
    counters = zero_counters;
  }

  -- What a publishing call does with the answer of the queue.
  abbrev pub publish_answer : Broker T → Bool × Ring T → Status × Broker T
  publish_answer b (true, queue) =
      (status_ok, record b { queue = queue; counters = Counters.record_published b.counters })
  publish_answer b (false, queue) = (
    status_error StatusCode.full "broker queue is full",
    record b { queue = queue; counters = Counters.record_publish_failed_full b.counters },
  )

  -- `try_publish` of a value, copied or moved.
  unfoldable pub try_publish : Broker T → T → Status × Broker T
  try_publish b value =
      if not (is_ok b.config_status)
      then (
        b.config_status,
        record b { counters = Counters.record_publish_failed_invalid b.counters },
      )
      else publish_answer b (try_push cap b.queue value)

  -- `try_emplace`, with the value that its arguments construct.
  unfoldable pub try_emplace : Broker T → T → Status × Broker T
  try_emplace b value =
      if not (is_ok b.config_status)
      then (
        b.config_status,
        record b { counters = Counters.record_publish_failed_invalid b.counters },
      )
      else publish_answer b (Ring.try_emplace cap b.queue value)

  abbrev pub consume_answer : Broker T → Bool × T × Ring T → Status × T × Broker T
  consume_answer b (true, out, queue) =
      (status_ok, out, record b { queue = queue; counters = Counters.record_consumed b.counters })
  consume_answer b (false, out, queue) = (
    status_error StatusCode.empty "broker queue is empty",
    out,
    record b { queue = queue; counters = Counters.record_consume_failed_empty b.counters },
  )

  -- `try_consume(out)`: the status, `out` after the call and the broker; `none` is undefined
  -- behaviour of the ring.
  unfoldable pub try_consume : Broker T → T → Option (Status × T × Broker T)
  try_consume b out =
      if not (is_ok b.config_status)
      then some (
        b.config_status,
        out,
        record b { counters = Counters.record_consume_failed_invalid b.counters },
      )
      else elim (try_pop cap b.queue out) [ none ↦ none | some r ↦ some (consume_answer b r) ]

  unfoldable pub valid : Broker T → Bool
  valid b = is_ok b.config_status

  unfoldable pub empty : Broker T → Bool
  empty b = Ring.empty cap b.queue

  unfoldable pub full : Broker T → Bool
  full b = Ring.full cap b.queue

  unfoldable pub size_approx : Broker T → ℕ
  size_approx b = Ring.size_approx cap b.queue

  unfoldable pub metrics_snapshot : Broker T → Snapshot
  metrics_snapshot b = Counters.snapshot b.counters

  unfoldable pub reset_metrics : Broker T → Broker T
  reset_metrics b = record b { counters = Counters.reset b.counters }

abbrev pub durability_mode : BrokerDurabilityMode
durability_mode = in_memory
