-- ===== src/Tests/Brokers.antt =====
-- Runs of the three brokers.
use aether_stream.Common.{
  ℕ, ◌≡◌, refl, some, List, [], ◌∷◌, ◌++◌, length, take, drop, ltb, if◌then◌else◌, min, is_empty,
}
use aether_stream.Core.Status.{status_ok}
use aether_stream.Metrics.Counters
use aether_stream.Metrics.Counters.{Counters, zero_counters}
use aether_stream.Ring.Queue
use aether_stream.Ring.Repr.{Holds, init-Holds}
use aether_stream.Broker
use aether_stream.Broker.{Broker}
use aether_stream.Broker.Laws.{
  try_publish_refines, try_consume_refines, push_status, pop_status, count_push, count_pop,
}
use aether_stream.Batch.{BatchBroker, try_publish_batch, try_consume_batch}
use aether_stream.Batch.Laws.{times, fitting, try_publish_batch_lem, try_consume_batch_lem}
use aether_stream.Tests.Data.{four-IsCapacity, test_broker, test_batch, seven, nine, empty_queue}

try_publish_refines_example :
    let (status, b') = Broker.try_publish 4 test_broker seven in
    let (done, q') = Queue.push 4 empty_queue seven in
    (status ≡ push_status done)
    × Holds 4 b'.queue q'
    × (b'.counters ≡ count_push done zero_counters)
    × (b'.config_status ≡ status_ok)
try_publish_refines_example =
    try_publish_refines four-IsCapacity test_broker seven refl (init-Holds 4 four-IsCapacity)

try_consume_refines_example :
    let (done, out', q') = Queue.pop empty_queue nine in
    (b' : Broker ℕ) × (Broker.try_consume 4 test_broker nine ≡ some (pop_status done, out', b'))
    × Holds 4 b'.queue q'
    × (b'.counters ≡ count_pop done zero_counters)
    × (b'.config_status ≡ status_ok)
try_consume_refines_example =
    try_consume_refines four-IsCapacity test_broker empty_queue nine refl
      (init-Holds 4 four-IsCapacity)

abbrev two : List ℕ
two = 8 ∷ 9 ∷ []

abbrev six : List ℕ
six = 1 ∷ 2 ∷ 3 ∷ 4 ∷ 5 ∷ 6 ∷ []

try_publish_batch_lem_example :
    let (n, b') = try_publish_batch 4 test_batch six in
    (n ≡ fitting 4 empty_queue six)
    × Holds 4 b'.queue (empty_queue ++ take n six)
    × (b'.counters ≡ (
        if ltb n (length six)
        then Counters.record_publish_failed_full (times n Counters.record_published zero_counters)
        else times n Counters.record_published zero_counters))
    × (b'.config_status ≡ status_ok)
try_publish_batch_lem_example =
    try_publish_batch_lem four-IsCapacity test_batch six refl (init-Holds 4 four-IsCapacity)

try_consume_batch_lem_example :
    let n = min (length two) (length empty_queue) in
    (b' : BatchBroker ℕ) × (try_consume_batch 4 test_batch two
      ≡ some (n, take n empty_queue ++ drop n two, b'))
    × Holds 4 b'.queue (drop n empty_queue)
    × (b'.counters ≡ (
        if is_empty empty_queue
        then Counters.record_consume_failed_empty zero_counters
        else times n Counters.record_consumed zero_counters))
    × (b'.config_status ≡ status_ok)
try_consume_batch_lem_example =
    try_consume_batch_lem four-IsCapacity test_batch empty_queue 8 (9 ∷ []) refl
      (init-Holds 4 four-IsCapacity)
