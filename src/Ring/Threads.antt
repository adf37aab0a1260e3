-- ===== src/Ring/Threads.antt =====
-- include/aether/spsc_ring_buffer.hpp under two threads: `try_emplace` and `try_pop` taken apart
-- into their accesses of the shared memory, which may interleave in any order. Each counter is
-- written by one thread, and the release store of it is read by an acquire load, so an access
-- sees all that stands before the store it reads from: the model has one memory, and what a
-- thread has loaded may be out of date when it is used.
pub mod Inv
pub mod Step
pub mod Safety
pub mod Moves
pub mod Progress
use aether_stream.Common.{
  ℕ, ◌+◌, Bool, true, false, ◌==◌, leb, if◌then◌else◌, Option, none, some, List, [], ◌∷◌, ◌++◌,
  get_elem?, set,
}
use aether_stream.Ring.{Ring, slot_index, sub_size, next_size, init}

-- Where the producer stands in `try_emplace(value)`, with its local variables.
pub data Producer {ℓ} (T : Type ℓ) : Type ℓ where
  resting : Producer T
  loaded_head : (value : T) (head : ℕ) → Producer T
  loaded_both : (value : T) (head tail : ℕ) → Producer T
  constructed : (head : ℕ) → Producer T

-- Where the consumer stands in `try_pop(out)`.
pub data Consumer {ℓ} (T : Type ℓ) : Type ℓ where
  resting : Consumer T
  loaded_tail : (tail : ℕ) → Consumer T
  loaded_both : (tail head : ℕ) → Consumer T
  destroyed : (tail : ℕ) → Consumer T

-- The shared ring and both threads. `pushed` and `taken` record the values that were constructed
-- in a slot and moved out of one, in order.
pub record System {ℓ} (T : Type ℓ) : Type ℓ where
  pub ring : Ring T
  pub producer : Producer T
  pub consumer : Consumer T
  pub pushed : List T
  pub taken : List T

module _ {ℓ} {T : Type ℓ} (cap : ℕ) where
  abbrev pub start : System T
  start = record {
    ring = init cap;
    producer = Producer.resting;
    consumer = Consumer.resting;
    pushed = [];
    taken = [];
  }

  -- `construct_at` in a slot; over a live object it would be lost, or be in the consumer's hands.
  abbrev pub construct_in : System T → T → ℕ → Option (Option T) → Option (System T)
  construct_in s value head (some none) = some (record s {
    ring = record s.ring { buffer = set s.ring.buffer (slot_index cap head) (some value) };
    producer = Producer.constructed head;
    pushed = s.pushed ++ value ∷ [];
  })
  construct_in s value head _ = none

  -- The producer's next access; a resting producer begins a call with the value given. `none` is
  -- a construction in a slot that holds an object.
  unfoldable pub produce : System T → Producer T → T → Option (System T)
  produce s Producer.resting x = some (record s { producer = Producer.loaded_head x s.ring.head })
  produce s (Producer.loaded_head value head) x =
      some (record s { producer = Producer.loaded_both value head s.ring.tail })
  produce s (Producer.loaded_both value head tail) x =
      if leb cap (sub_size head tail)
      then some (record s { producer = Producer.resting })
      else construct_in s value head (get_elem? s.ring.buffer (slot_index cap head))
  produce s (Producer.constructed head) x =
      some
        (record s { ring = record s.ring { head = next_size head }; producer = Producer.resting })

  -- Moving the object out of a slot and ending its lifetime; a slot without one is no such slot.
  abbrev pub take_from : System T → ℕ → Option (Option T) → Option (System T)
  take_from s tail (some (some x)) = some (record s {
    ring = record s.ring { buffer = set s.ring.buffer (slot_index cap tail) none };
    consumer = Consumer.destroyed tail;
    taken = s.taken ++ x ∷ [];
  })
  take_from s tail _ = none

  -- The consumer's next access. `none` is a read of a slot that holds no object.
  unfoldable pub consume : System T → Consumer T → Option (System T)
  consume s Consumer.resting = some (record s { consumer = Consumer.loaded_tail s.ring.tail })
  consume s (Consumer.loaded_tail tail) =
      some (record s { consumer = Consumer.loaded_both tail s.ring.head })
  consume s (Consumer.loaded_both tail head) =
      if tail == head
      then some (record s { consumer = Consumer.resting })
      else take_from s tail (get_elem? s.ring.buffer (slot_index cap tail))
  consume s (Consumer.destroyed tail) =
      some
        (record s { ring = record s.ring { tail = next_size tail }; consumer = Consumer.resting })

-- Whose access is next, with the value of the producer's next call.
pub data Turn {ℓ} (T : Type ℓ) : Type ℓ where
  producer_turn : T → Turn T
  consumer_turn : Turn T

module _ {ℓ} {T : Type ℓ} (cap : ℕ) where
  -- One access of one thread.
  abbrev pub step : System T → Turn T → Option (System T)
  step s (producer_turn x) = produce cap s s.producer x
  step s consumer_turn = consume cap s s.consumer

  -- The accesses of both threads in the order of a schedule.
  unfoldable pub run : System T → List (Turn T) → Option (System T)
  run s [] = some s
  run s (turn ∷ turns) = elim (step s turn) [ none ↦ none | some s' ↦ run s' turns ]
