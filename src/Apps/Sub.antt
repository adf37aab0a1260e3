-- ===== src/Apps/Sub.antt =====
-- apps/aether_sub.cpp: the local demo, which publishes events into a broker and consumes them.
pub mod Publishing
pub mod Local
pub mod Recovery
use aether_stream.Common.{
  ℕ, zero, suc, ◌+◌, ◌-◌, ◌*◌, ◌%◌, ◌<◌, ◌≤◌, ◌≡◌, refl, sym, ap, ap₂, ◌∙◌, Bool, true, false, not,
  ◌==◌, ltb, leb, if◌then◌else◌, Option, none, some, List, [], ◌∷◌, ◌++◌, append_assoc, append-nil,
  length, length-append, take, arith, Bool-cases, inl, inr,
}
use aether_stream.Core.Types.{u64_mod, u32_mod}
use aether_stream.Core.Status.{Status, StatusCode, is_ok, status_ok}
use aether_stream.Core.Expected.{Expected, value, error}
use aether_stream.Metrics.Counters
use aether_stream.Metrics.Counters.{Counters, zero_counters}
use aether_stream.Ring.Queue
use aether_stream.Ring.Repr.{IsCapacity, cap_bounds, Holds, init-Holds}
use aether_stream.Broker.{Broker, default_broker, try_publish, try_consume, metrics_snapshot}
use aether_stream.Broker.Laws.{
  full_status, push_status, try_publish_refines, try_consume_refines, count_push, count_pop,
  pop_status,
}
use aether_stream.Cli.Options.{SubOptions}

-- The price is a multiple of 0.25, which a double holds exactly: the model counts the quarters.
pub record OrderEvent : Type 0 where
  pub id : ℕ
  pub price_quarters : ℕ
  pub quantity : ℕ

abbrev pub no_event : OrderEvent
no_event = record { id = 0; price_quarters = 0; quantity = 0 }

unfoldable pub make_event : ℕ → OrderEvent
make_event i = record {
  id = (i + 1) % u64_mod;
  price_quarters = 100 * 4 + i % 100;
  quantity = (1 + i % 1000) % u32_mod;
}

pub record Summary : Type 0 where
  pub printed : List OrderEvent
  pub produced : ℕ
  pub consumed : ℕ
  pub suppressed : ℕ
  pub published_metric : ℕ
  pub consumed_metric : ℕ
  pub full_metric : ℕ
  pub empty_metric : ℕ

pub data Output : Type 0 where
  not_published : Status → Output
  not_consumed : (printed : List OrderEvent) → Status → Output
  summary : Summary → Output

module _ (cap : ℕ) where
  -- The publishing loop, on the rounds left: the status that it stops at, if any, and the broker.
  unfoldable pub publish_loop : ℕ → ℕ → Broker OrderEvent → Option Status × Broker OrderEvent
  publish_loop zero i b = (none, b)
  publish_loop (suc rounds) i b =
      let (status, b') = try_publish cap b (make_event i) in
      let rest = publish_loop rounds (i + 1) b' in
      if not (is_ok status) then (some status, b') else rest

  module _ (limit : ℕ) where
    -- The consuming loop: also the events that it has printed, and its count. `none` is undefined
    -- behaviour of the broker.
    unfoldable pub consume_loop :
        ℕ
        → ℕ
        → List OrderEvent
        → Broker OrderEvent
        → Option (Option Status × List OrderEvent × ℕ × Broker OrderEvent)
    consume_loop zero consumed printed b = some (none, printed, consumed, b)
    consume_loop (suc rounds) consumed printed b = elim (try_consume cap b no_event) [
      | none ↦ none
      | some (status, event, b') ↦
          let printed' = if ltb consumed limit then printed ++ event ∷ [] else printed in
          let rest = consume_loop rounds (consumed + 1) printed' b' in
          if not (is_ok status) then some (some status, printed, consumed, b') else rest
    ]

  -- What `run_local` prints behind the consuming loop, and the exit code.
  abbrev pub report :
      SubOptions → Option Status × List OrderEvent × ℕ × Broker OrderEvent → ℕ × Output
  report options (some status, printed, consumed, b) = (1, not_consumed printed status)
  report options (none, printed, consumed, b) =
      let metrics = metrics_snapshot cap b in
      (
        0,
        summary (record {
          printed = printed;
          produced = options.messages;
          consumed = consumed;
          suppressed = if ltb options.limit consumed then consumed - options.limit else 0;
          published_metric = metrics.published;
          consumed_metric = metrics.consumed;
          full_metric = metrics.publish_failed_full;
          empty_metric = metrics.consume_failed_empty;
        }),
      )

  abbrev pub behind_publish : SubOptions → Option Status × Broker OrderEvent → Option (ℕ × Output)
  behind_publish options (some status, b) = some (1, not_published status)
  behind_publish options (none, b) = elim (consume_loop options.limit options.messages 0 [] b) [
    | none ↦ none
    | some end ↦ some (report options end)
  ]

  -- `run_local<Capacity>`: the exit code and the output.
  unfoldable pub run_local : SubOptions → Option (ℕ × Output)
  run_local options = behind_publish options (publish_loop options.messages 0 (default_broker cap))

-- `dispatch_local`; its default case is that of a capacity that the parser refuses.
unfoldable pub dispatch_local : SubOptions → Option (Option (ℕ × Output))
unfolding run_local
dispatch_local options =
    if options.capacity == 64
    then some (run_local 64 options)
    else if options.capacity == 256
    then some (run_local 256 options)
    else if options.capacity == 1024
    then some (run_local 1024 options)
    else if options.capacity == 4096
    then some (run_local 4096 options)
    else if options.capacity == 65536
    then some (run_local 65536 options)
    else none
