-- ===== src/Ring/Threads/Inv.antt =====
-- The invariant of the two threads. A value counts as queued once it is constructed and until it
-- is moved out, so the ring is compared with the queue as if the stores of the counters that are
-- still to come had been made.
use aether_stream.Common.{ℕ, ◌+◌, ◌-◌, ◌%◌, ◌≤◌, ◌<◌, ◌≡◌, List, [], ◌++◌, length, refl, arith}
use aether_stream.Core.Types.{u64_mod}
use aether_stream.Ring.{Ring, next_size}
use aether_stream.Ring.Repr.{IsCapacity, Holds, init-Holds}
use aether_stream.Ring.Threads.{Producer, Consumer, System, start}

module _ {ℓ} {T : Type ℓ} where
  -- The counters with the pending store of each thread made.
  abbrev pub head_after : Producer T → ℕ → ℕ
  head_after (Producer.constructed h) head = next_size head
  head_after _ head = head

  abbrev pub tail_after : Consumer T → ℕ → ℕ
  tail_after (Consumer.destroyed t) tail = next_size tail
  tail_after _ tail = tail

  -- How many stores of a thread are pending.
  abbrev pub pending_push : Producer T → ℕ
  pending_push (Producer.constructed h) = 1
  pending_push _ = 0

  abbrev pub pending_pop : Consumer T → ℕ
  pending_pop (Consumer.destroyed t) = 1
  pending_pop _ = 0

  abbrev pub settled : Ring T → Producer T → Consumer T → Ring T
  settled r p c = record r { head = head_after p r.head; tail = tail_after c r.tail }

  -- What the producer has loaded: its own counter, and a tail that may be old, `n` behind the
  -- head; `used` slots at most are taken.
  abbrev pub ProducerKnows : ℕ → ℕ → ℕ → Producer T → Type 0
  ProducerKnows cap head used Producer.resting = Unit {0}
  ProducerKnows cap head used (Producer.loaded_head x h) = (h ≡ head) × Unit {0}
  ProducerKnows cap head used (Producer.loaded_both x h t) =
      (n : ℕ) × (h ≡ head) × ((t + n) % u64_mod ≡ head) × (n ≤ cap) × (used ≤ n) × (t < u64_mod)
  ProducerKnows cap head used (Producer.constructed h) = (h ≡ head) × Unit {0}

  -- What the consumer has loaded: its own counter, and a head that may be old, `m` ahead of the
  -- tail; at least `m` values are published.
  abbrev pub ConsumerKnows : ℕ → ℕ → Consumer T → Type 0
  ConsumerKnows tail published Consumer.resting = Unit {0}
  ConsumerKnows tail published (Consumer.loaded_tail t) = (t ≡ tail) × Unit {0}
  ConsumerKnows tail published (Consumer.loaded_both t h) =
      (m : ℕ) × (t ≡ tail) × ((t + m) % u64_mod ≡ h) × (m ≤ published)
  ConsumerKnows tail published (Consumer.destroyed t) = (t ≡ tail) × Unit {0}

  -- More free slots, or more published values, leave true what a thread knows.
  pub ProducerKnows-mono :
      (cap head : ℕ) {a b : ℕ} (p : Producer T)
      → b ≤ a
      → ProducerKnows cap head a p
      → ProducerKnows cap head b p
  ProducerKnows-mono cap head Producer.resting le k = k
  ProducerKnows-mono cap head (Producer.loaded_head x h) le k = k
  ProducerKnows-mono cap head (Producer.loaded_both x h t) le (n, p1, p2, p3, p4, p5) =
      (n, p1, p2, p3, omega arith, p5)
  ProducerKnows-mono cap head (Producer.constructed h) le k = k

  pub ConsumerKnows-mono :
      (tail : ℕ) {a b : ℕ} (c : Consumer T)
      → a ≤ b
      → ConsumerKnows tail a c
      → ConsumerKnows tail b c
  ConsumerKnows-mono tail Consumer.resting le k = k
  ConsumerKnows-mono tail (Consumer.loaded_tail t) le k = k
  ConsumerKnows-mono tail (Consumer.loaded_both t h) le (m, p1, p2, p3) = (m, p1, p2, omega arith)
  ConsumerKnows-mono tail (Consumer.destroyed t) le k = k

  pub record Inv (cap : ℕ) (r : Ring T) (p : Producer T) (c : Consumer T) (q : List T)
      : Type ℓ where
    pub holds : Holds cap (settled r p c) q
    pub head_fits : r.head < u64_mod
    pub tail_fits : r.tail < u64_mod
    pub room : length q + pending_pop c ≤ cap
    pub published : pending_push p ≤ length q
    pub distance : (r.tail + (length q - pending_push p + pending_pop c)) % u64_mod ≡ r.head
    pub producer_knows : ProducerKnows cap r.head (length q + pending_pop c) p
    pub consumer_knows : ConsumerKnows r.tail (length q - pending_push p) c

  -- The invariant of a whole system, with the values constructed and taken so far.
  pub record SystemInv (cap : ℕ) (s : System T) : Type ℓ where
    pub queue : List T
    pub inv : Inv cap s.ring s.producer s.consumer queue
    pub history : s.taken ++ queue ≡ s.pushed

  pub start-SystemInv : (cap : ℕ) → IsCapacity cap → SystemInv cap (start cap)
  start-SystemInv cap c = record {
    queue = [];
    inv = record {
      holds = init-Holds cap c;
      head_fits = omega arith;
      tail_fits = omega arith;
      room = omega arith;
      published = omega arith;
      distance = refl;
      producer_knows = tt;
      consumer_knows = tt;
    };
    history = refl;
  }
