-- ===== src/ZeroCopy/Threads.antt =====
-- include/aether/zero_copy_spsc.hpp under two threads: `try_reserve` and the calls on a reservation
-- taken apart into their accesses of the shared memory, which may interleave with those of
-- `try_consume` in any order. As for the ring there is one memory. The client of the producer
-- holds one reservation variable.
pub mod Inv
pub mod Step
pub mod Safety
use aether_stream.Common.{
  ℕ, Bool, true, false, not, ◌&&◌, leb, if◌then◌else◌, Option, none, some, List, [], ◌∷◌, ◌++◌,
  get_elem?, set,
}
use aether_stream.Ring.{Ring, slot_index, sub_size, next_size, init}
use aether_stream.Ring.Threads
use aether_stream.Ring.Threads.{Consumer, Producer}

-- What the producer's client calls next.
pub data Request {ℓ} (T : Type ℓ) : Type ℓ where
  reserves : Request T
  constructs : T → Request T
  commits : Request T
  cancels : Request T

-- Where the producer stands, with its local variables: between the accesses of `try_reserve`, with
-- a reservation of the slot of `head`, within a second `construct`, with the value that the slot
-- holds, or before the store of the flag that ends `commit` and `cancel`.
pub data Reserver {ℓ} (T : Type ℓ) : Type ℓ where
  resting : Reserver T
  claimed : Reserver T
  loaded_head : (head : ℕ) → Reserver T
  loaded_both : (head tail : ℕ) → Reserver T
  reserved : (head : ℕ) → Reserver T
  emptied : (head : ℕ) (value : T) → Reserver T
  filled : (head : ℕ) (value : T) → Reserver T
  releasing : Reserver T

-- The shared queue and both threads. `committed` and `taken` record the values in order.
pub record System {ℓ} (T : Type ℓ) : Type ℓ where
  pub ring : Ring T
  pub active : Bool
  pub producer : Reserver T
  pub consumer : Consumer T
  pub committed : List T
  pub taken : List T

module _ {ℓ} {T : Type ℓ} where
  -- The part of the system that `try_consume` works on, as a ring's system.
  abbrev pub ring_system : System T → Producer T → List T → Threads.System T
  ring_system s producer pushed = record {
    ring = s.ring;
    producer = producer;
    consumer = s.consumer;
    pushed = pushed;
    taken = s.taken;
  }

  abbrev pub with_consumed : System T → Option (Threads.System T) → Option (System T)
  with_consumed s none = none
  with_consumed s (some r) =
      some (record s { ring = r.ring; consumer = r.consumer; taken = r.taken })

module _ {ℓ} {T : Type ℓ} (cap : ℕ) where
  abbrev pub start : System T
  start = record {
    ring = init cap;
    active = false;
    producer = resting;
    consumer = Consumer.resting;
    committed = [];
    taken = [];
  }

  -- `construct_at` in a slot without an object, and `destroy_at` in one with an object.
  abbrev pub construct_in : System T → ℕ → T → Option (Option T) → Option (System T)
  construct_in s head value (some none) = some (record s {
    ring = record s.ring { buffer = set s.ring.buffer (slot_index cap head) (some value) };
    producer = filled head value;
  })
  construct_in s head value _ = none

  abbrev pub destroy_in : System T → ℕ → Reserver T → Option (Option T) → Option (System T)
  destroy_in s head next (some (some x)) = some (record s {
    ring = record s.ring { buffer = set s.ring.buffer (slot_index cap head) none };
    producer = next;
  })
  destroy_in s head next _ = none

  abbrev pub slot_of : System T → ℕ → Option (Option T)
  slot_of s head = get_elem? s.ring.buffer (slot_index cap head)

  -- The compare-and-exchange of `try_reserve` by a client that has a reservation: a second one is
  -- a fault.
  abbrev pub claim_again : System T → Option (System T)
  claim_again s = if s.active then some s else none

  -- The store of `head` in `commit`, and the store of the flag that ends it, `cancel` and a
  -- `try_reserve` that finds no room.
  abbrev pub commit_held : System T → ℕ → T → System T
  commit_held s head value = record s {
    ring = record s.ring { head = next_size head };
    producer = releasing;
    committed = s.committed ++ value ∷ [];
  }

  abbrev pub release : System T → System T
  release s = record s { active = false; producer = resting }

  -- The producer's next access; the request counts where a call ends. `none` is undefined
  -- behaviour, as `construct_at` on the null pointer of an empty reservation is, or a second
  -- reservation.
  unfoldable pub produce : System T → Reserver T → Request T → Option (System T)
  produce s resting reserves =
      some (if s.active then s else record s { active = true; producer = claimed })
  produce s resting (constructs x) = none
  produce s resting commits = some s
  produce s resting cancels = some s
  produce s claimed request = some (record s { producer = loaded_head s.ring.head })
  produce s (loaded_head head) request = some (record s { producer = loaded_both head s.ring.tail })
  produce s (loaded_both head tail) request =
      some
        (if leb cap (sub_size head tail) then release s else record s { producer = reserved head })
  produce s (reserved head) reserves = claim_again s
  produce s (reserved head) (constructs x) = construct_in s head x (slot_of s head)
  produce s (reserved head) commits = some s
  produce s (reserved head) cancels = some (release s)
  produce s (emptied head value) request = construct_in s head value (slot_of s head)
  produce s (filled head value) reserves = claim_again s
  produce s (filled head value) (constructs x) = destroy_in s head (emptied head x) (slot_of s head)
  produce s (filled head value) commits = some (commit_held s head value)
  produce s (filled head value) cancels = destroy_in s head releasing (slot_of s head)
  produce s releasing request = some (release s)

  -- The consumer's next access: `try_consume` is word for word the body of `SpscRingBuffer::try_pop`.
  unfoldable pub consume : System T → Option (System T)
  consume s = with_consumed s (Threads.consume cap (ring_system s Producer.resting []) s.consumer)

-- Whose access is next, with the request of the producer's client.
pub data Turn {ℓ} (T : Type ℓ) : Type ℓ where
  producer_turn : Request T → Turn T
  consumer_turn : Turn T

-- The client asks an empty reservation to construct.
abbrev pub is_stray {ℓ} : {T : Type ℓ} → Reserver T → Turn T → Bool
is_stray resting (producer_turn (constructs x)) = true
is_stray _ _ = false

module _ {ℓ} {T : Type ℓ} (cap : ℕ) where
  abbrev pub step : System T → Turn T → Option (System T)
  step s (producer_turn request) = produce cap s s.producer request
  step s consumer_turn = consume cap s

  -- The accesses of both threads in the order of a schedule.
  unfoldable pub run : System T → List (Turn T) → Option (System T)
  run s [] = some s
  run s (turn ∷ turns) = elim (step s turn) [ none ↦ none | some s' ↦ run s' turns ]

  -- What the source leaves to the client: along a schedule, no empty reservation is asked to
  -- construct.
  unfoldable pub never_strays : System T → List (Turn T) → Bool
  never_strays s [] = true
  never_strays s (turn ∷ turns) =
      not (is_stray s.producer turn)
      && elim (step s turn) [ none ↦ true | some s' ↦ never_strays s' turns ]
