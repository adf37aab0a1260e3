-- ===== src/Tests/ZeroCopy.antt =====
-- Runs of the zero-copy queue.
use aether_stream.Common.{
  ℕ, ◌≤◌, ◌≡◌, refl, true, false, Option, some, none, List, [], ◌∷◌, ◌++◌, length,
}
use aether_stream.ZeroCopy.{no_reservation, make}
use aether_stream.ZeroCopy.Protocol.{
  closed, Call, reserves, constructs, commits, cancels, consumes, answer, Reply,
}
use aether_stream.ZeroCopy.Session.{run, run_spec, finish}
use aether_stream.ZeroCopy.Refine.{sessions_refine, sessions_finish}
use aether_stream.Ring.Queue
use aether_stream.Ring.Run.{AllFree}
use aether_stream.Ring.Repr.{Holds}
use aether_stream.Ring.Threads.{Consumer}
use aether_stream.ZeroCopy.Threads
use aether_stream.ZeroCopy.Threads.{
  System, Request, Reserver, Turn, producer_turn, consumer_turn, start,
}
use aether_stream.ZeroCopy.Threads.Inv.{is_active}
use aether_stream.ZeroCopy.Threads.Safety.{reservations_safe, reservations_at_rest}
use aether_stream.Tests.Data.{four-IsCapacity}

-- A value that is replaced and committed, one that is cancelled, and one that is left uncommitted.
abbrev zero_copy_calls : List (Call ℕ)
zero_copy_calls =
    reserves
    ∷ constructs 1
    ∷ constructs 2
    ∷ reserves
    ∷ consumes 0
    ∷ commits
    ∷ reserves
    ∷ constructs 3
    ∷ cancels
    ∷ commits
    ∷ consumes 0
    ∷ reserves
    ∷ constructs 4
    ∷ []

sessions_refine_example :
    run 4 (make 4) no_reservation zero_copy_calls
    ≡ run_spec 4 (record { queue = []; pending = closed }) zero_copy_calls
sessions_refine_example = sessions_refine four-IsCapacity zero_copy_calls

abbrev zero_copy_replies : List (Reply ℕ)
zero_copy_replies =
    (true, none)
    ∷ (true, none)
    ∷ (true, none)
    ∷ (false, none)
    ∷ (false, some 0)
    ∷ (true, none)
    ∷ (true, none)
    ∷ (true, none)
    ∷ (true, none)
    ∷ (false, none)
    ∷ (true, some 2)
    ∷ (true, none)
    ∷ (true, none)
    ∷ []

run_spec_test :
    run_spec 4 (record { queue = []; pending = closed }) zero_copy_calls ≡ some zero_copy_replies
unfolding run_spec answer Queue.pop
run_spec_test = refl

sessions_finish_example :
    (buffer : List (Option ℕ)) × (finish 4 (make 4) no_reservation zero_copy_calls ≡ some buffer)
    × AllFree 4 buffer
sessions_finish_example =
    sessions_finish four-IsCapacity zero_copy_calls (zero_copy_replies, run_spec_test)

abbrev asks : Request ℕ → Turn ℕ
asks request = producer_turn request

-- A reservation whose value is replaced and committed, with the consumer's loads around the store of
-- the head, and one that is cancelled.
abbrev zero_copy_turns : List (Turn ℕ)
zero_copy_turns =
    asks Request.reserves
    ∷ asks Request.reserves
    ∷ asks Request.reserves
    ∷ asks Request.reserves
    ∷ asks (Request.constructs 1)
    ∷ asks Request.reserves
    ∷ asks (Request.constructs 2)
    ∷ asks (Request.constructs 2)
    ∷ consumer_turn
    ∷ asks Request.commits
    ∷ consumer_turn
    ∷ asks Request.commits
    ∷ consumer_turn
    ∷ asks Request.reserves
    ∷ asks Request.reserves
    ∷ asks Request.reserves
    ∷ consumer_turn
    ∷ asks Request.reserves
    ∷ asks (Request.constructs 3)
    ∷ asks Request.cancels
    ∷ asks Request.cancels
    ∷ []

zero_copy_turns-held : Threads.never_strays 4 (start 4) zero_copy_turns ≡ true
unfolding Threads.never_strays Threads.produce Threads.consume aether_stream.Ring.Threads.consume
zero_copy_turns-held = refl

reservations_safe_example :
    (s : System ℕ) × (q : List ℕ) × (Threads.run 4 (start 4) zero_copy_turns ≡ some s)
    × (s.taken ++ q ≡ s.committed)
    × (length q ≤ 4)
    × (s.active ≡ is_active s.producer)
reservations_safe_example = reservations_safe four-IsCapacity zero_copy_turns zero_copy_turns-held

abbrev rested_system : System ℕ
rested_system = record {
  ring = record { buffer = none ∷ none ∷ none ∷ none ∷ []; head = 1; tail = 1 };
  active = false;
  producer = Reserver.resting;
  consumer = Consumer.resting;
  committed = 2 ∷ [];
  taken = 2 ∷ [];
}

zero_copy_turns_test : Threads.run 4 (start 4) zero_copy_turns ≡ some rested_system
unfolding Threads.run Threads.produce Threads.consume aether_stream.Ring.Threads.consume
zero_copy_turns_test = refl

reservations_at_rest_example :
    (false ≡ false) × ((q : List ℕ) × Holds 4 rested_system.ring q × (2 ∷ [] ++ q ≡ 2 ∷ []))
reservations_at_rest_example =
    reservations_at_rest four-IsCapacity zero_copy_turns rested_system zero_copy_turns_test refl
      refl
