-- ===== src/Batch.antt =====
-- include/aether/batch_broker.hpp: `BatchBroker<T, Capacity>`, a broker with calls for many values.
pub mod Laws
use aether_stream.Common.{
  ℕ, Bool, true, false, not, ◌==◌, if◌then◌else◌, Option, none, some, List, [], ◌∷◌, is_empty,
}
use aether_stream.Core.Status.{Status, StatusCode, status_error, status_ok, is_ok}
use aether_stream.Core.Config.{QueueConfig}
use aether_stream.Core.Validate.{validate_queue_config_for_capacity}
use aether_stream.Metrics.Counters
use aether_stream.Metrics.Counters.{Counters, Snapshot, zero_counters}
use aether_stream.Ring
use aether_stream.Ring.{Ring, init, try_push, try_pop, next_size}

pub record BatchBroker {ℓ} (T : Type ℓ) : Type ℓ where
  pub config_status : Status
  pub queue : Ring T
  pub counters : Counters

module _ {ℓ} {T : Type ℓ} (cap : ℕ) where
  unfoldable pub default_broker : BatchBroker T
  default_broker = record { config_status = status_ok; queue = init cap; counters = zero_counters }

  unfoldable pub make_broker : QueueConfig → BatchBroker T
  make_broker config = record {
    config_status = validate_queue_config_for_capacity config cap;
    queue = init cap;
    counters = zero_counters;
  }

  unfoldable pub valid : BatchBroker T → Bool
  valid b = is_ok b.config_status

  -- The broker after a push that was made, and after one that was refused.
  abbrev pub after_push : BatchBroker T → Ring T → BatchBroker T
  after_push b queue = record b { queue = queue; counters = Counters.record_published b.counters }

  abbrev pub after_full : BatchBroker T → Ring T → BatchBroker T
  after_full b queue = record b {
    queue = queue;
    counters = Counters.record_publish_failed_full b.counters;
  }

  abbrev pub after_pop : BatchBroker T → Ring T → BatchBroker T
  after_pop b queue = record b { queue = queue; counters = Counters.record_consumed b.counters }

  -- `try_publish` of a value, copied or moved.
  unfoldable pub try_publish : BatchBroker T → T → Status × BatchBroker T
  try_publish b value =
      if not (is_ok b.config_status)
      then (
        b.config_status,
        record b { counters = Counters.record_publish_failed_invalid b.counters },
      )
      else let (done, queue) = try_push cap b.queue value in
        if not done
        then (status_error StatusCode.full "batch broker queue is full", after_full b queue)
        else (status_ok, after_push b queue)

  -- `try_consume(out)`; `none` is undefined behaviour of the ring.
  unfoldable pub try_consume : BatchBroker T → T → Option (Status × T × BatchBroker T)
  try_consume b out =
      if not (is_ok b.config_status)
      then some (
        b.config_status,
        out,
        record b { counters = Counters.record_consume_failed_invalid b.counters },
      )
      else elim (try_pop cap b.queue out) [
        | none ↦ none
        | some (done, out', queue) ↦
            if not done
            then some (
              status_error StatusCode.empty "batch broker queue is empty",
              out',
              record b {
                queue = queue;
                counters = Counters.record_consume_failed_empty b.counters;
              },
            )
            else some (status_ok, out', after_pop b queue)
      ]

  -- The loop of `try_publish_batch`.
  unfoldable pub publish_loop : BatchBroker T → List T → ℕ → ℕ × BatchBroker T
  publish_loop b [] published = (published, b)
  publish_loop b (message ∷ messages) published =
      let (done, queue) = try_push cap b.queue message in
      let rest = publish_loop (after_push b queue) messages (next_size published) in
      if not done then (published, after_full b queue) else rest

  unfoldable pub try_publish_batch : BatchBroker T → List T → ℕ × BatchBroker T
  unfolding publish_loop
  try_publish_batch b messages =
      if is_empty messages
      then (0, b)
      else if not (is_ok b.config_status)
      then (0, record b { counters = Counters.record_publish_failed_invalid b.counters })
      else publish_loop b messages 0

  -- The loop of `try_consume_batch`: the count, the span after the call and the broker.
  unfoldable pub consume_loop : BatchBroker T → List T → ℕ → Option (ℕ × List T × BatchBroker T)
  consume_loop b [] consumed = some (consumed, [], b)
  consume_loop b (value ∷ out) consumed = elim (try_pop cap b.queue value) [
    | none ↦ none
    | some (done, value', queue) ↦
        let rest = consume_loop (after_pop b queue) out (next_size consumed) in
        if not done
        then some (consumed, value' ∷ out, record b { queue = queue })
        else elim rest [ none ↦ none | some (n, out', b') ↦ some (n, value' ∷ out', b') ]
  ]

  -- What stands behind the loop.
  abbrev pub after_loop : ℕ × List T × BatchBroker T → ℕ × List T × BatchBroker T
  after_loop (consumed, out, b) =
      if consumed == 0
      then (consumed, out, record b { counters = Counters.record_consume_failed_empty b.counters })
      else (consumed, out, b)

  unfoldable pub try_consume_batch : BatchBroker T → List T → Option (ℕ × List T × BatchBroker T)
  unfolding consume_loop
  try_consume_batch b out =
      if is_empty out
      then some (0, out, b)
      else if not (is_ok b.config_status)
      then some (0, out, record b { counters = Counters.record_consume_failed_invalid b.counters })
      else elim (consume_loop b out 0) [ none ↦ none | some r ↦ some (after_loop r) ]

  unfoldable pub empty : BatchBroker T → Bool
  empty b = Ring.empty cap b.queue

  unfoldable pub full : BatchBroker T → Bool
  full b = Ring.full cap b.queue

  unfoldable pub size_approx : BatchBroker T → ℕ
  size_approx b = Ring.size_approx cap b.queue

  unfoldable pub metrics_snapshot : BatchBroker T → Snapshot
  metrics_snapshot b = Counters.snapshot b.counters

  unfoldable pub reset_metrics : BatchBroker T → BatchBroker T
  reset_metrics b = record b { counters = Counters.reset b.counters }
