-- ===== src/Tests/Ring.antt =====
-- Runs of the ring and its threads.
use aether_stream.Common.{
  ℕ, ◌≤◌, ◌≡◌, refl, true, false, Option, some, none, List, [], ◌∷◌, ◌++◌, length, arith,
}
use aether_stream.Ring.{init, try_push, destroy_remaining}
use aether_stream.Ring.Queue
use aether_stream.Ring.Repr.{Holds, init-Holds}
use aether_stream.Ring.Ops.{try_push_refines}
use aether_stream.Ring.Run.{
  Call, pushes, pops, run, run_queue, run_refines, destroy_remaining_lem, AllFree,
}
use aether_stream.Ring.Run
use aether_stream.Ring.Threads
use aether_stream.Ring.Threads.{
  System, Producer, Consumer, start, Turn, producer_turn, consumer_turn,
}
use aether_stream.Ring.Threads.Moves.{own_producer, own_consumer}
use aether_stream.Ring.Threads.Progress.{EndsIn, calls_end}
use aether_stream.Ring.Threads.Safety.{run_threads_safe, run_threads_at_rest}
use aether_stream.Tests.Data.{four-IsCapacity, seven, empty_ring}

-- Five pushes, of which the last finds the ring full, and two pops.
abbrev test_calls : List (Call ℕ)
test_calls = pushes 1 ∷ pushes 2 ∷ pushes 3 ∷ pushes 4 ∷ pushes 5 ∷ pops 0 ∷ pops 0 ∷ []

run_refines_example : Run.run 4 (init 4) test_calls ≡ some (run_queue 4 [] test_calls)
run_refines_example = run_refines 4 four-IsCapacity test_calls

run_queue_test :
    run_queue 4 [] test_calls
    ≡ (true, none)
      ∷ (true, none)
      ∷ (true, none)
      ∷ (true, none)
      ∷ (false, none)
      ∷ (true, some 1)
      ∷ (true, some 2)
      ∷ []
unfolding run_queue Queue.push Queue.pop
run_queue_test = refl

destroy_remaining_lem_example :
    (buf : List (Option ℕ)) × (destroy_remaining 4 (try_push 4 empty_ring seven).1 ≡ some buf)
    × AllFree 4 buf
unfolding Queue.push
destroy_remaining_lem_example =
    destroy_remaining_lem four-IsCapacity (7 ∷ [])
      (try_push_refines four-IsCapacity seven (init-Holds 4 four-IsCapacity)).1

-- A push between the loads of a pop, whose load of `head` then sees it.
abbrev test_turns : List (Turn ℕ)
test_turns =
    consumer_turn
    ∷ producer_turn 5
    ∷ producer_turn 5
    ∷ producer_turn 5
    ∷ producer_turn 5
    ∷ consumer_turn
    ∷ consumer_turn
    ∷ consumer_turn
    ∷ []

run_threads_safe_example :
    (s : System ℕ) × (q : List ℕ) × (Threads.run 4 (start 4) test_turns ≡ some s)
    × (s.taken ++ q ≡ s.pushed)
    × (length q ≤ 4)
run_threads_safe_example = run_threads_safe four-IsCapacity test_turns

-- One whole push.
abbrev pushing : List (Turn ℕ)
pushing = producer_turn 5 ∷ producer_turn 5 ∷ producer_turn 5 ∷ producer_turn 5 ∷ []

abbrev pushed_system : System ℕ
pushed_system = record {
  ring = record { buffer = some 5 ∷ none ∷ none ∷ none ∷ []; head = 1; tail = 0 };
  producer = Producer.resting;
  consumer = Consumer.resting;
  pushed = 5 ∷ [];
  taken = [];
}

pushing_test : Threads.run 4 (start 4) pushing ≡ some pushed_system
unfolding Threads.run Threads.produce
pushing_test = refl

run_threads_at_rest_example : (q : List ℕ) × Holds 4 pushed_system.ring q × ([] ++ q ≡ 5 ∷ [])
run_threads_at_rest_example =
    run_threads_at_rest four-IsCapacity pushing pushed_system pushing_test refl refl

-- Both threads within a call, and a schedule that gives each three accesses more.
abbrev calling : List (Turn ℕ)
calling = producer_turn 5 ∷ consumer_turn ∷ []

abbrev calling_system : System ℕ
calling_system = record (start 4) {
  producer = Producer.loaded_head 5 0;
  consumer = Consumer.loaded_tail 0;
}

calling_test : Threads.run 4 (start 4) calling ≡ some calling_system
unfolding Threads.run Threads.produce Threads.consume
calling_test = refl

abbrev in_turns : List (Turn ℕ)
in_turns =
    producer_turn 6
    ∷ consumer_turn
    ∷ producer_turn 6
    ∷ producer_turn 6
    ∷ consumer_turn
    ∷ consumer_turn
    ∷ producer_turn 6
    ∷ []

calls_end_example :
    EndsIn four-IsCapacity calling_system in_turns own_producer
      (λ (s : System ℕ). s.producer ≡ Producer.resting)
    × EndsIn four-IsCapacity calling_system in_turns own_consumer
        (λ (s : System ℕ). s.consumer ≡ Consumer.resting)
calls_end_example =
    calls_end four-IsCapacity calling in_turns calling_system calling_test (omega arith)
      (omega arith)
