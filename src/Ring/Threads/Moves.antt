-- ===== src/Ring/Threads/Moves.antt =====
-- How an access brings its own call to an end, and leaves the other thread's call where it is.
use aether_stream.Common.{
  ℕ, ◌+◌, ◌≤◌, ◌<◌, ◌≡◌, inl, inr, Option, some, none, List, [], ◌∷◌, refl, arith, leb, ◌==◌,
  Bool-cases,
}
use aether_stream.Ring.{sub_size}
use aether_stream.Ring.Threads.{
  Producer, Consumer, System, produce, consume, Turn, producer_turn, consumer_turn, construct_in,
  take_from, step,
}

module _ {ℓ} {T : Type ℓ} where
  -- The accesses that a call still takes at most.
  abbrev pub producer_left : Producer T → ℕ
  producer_left Producer.resting = 0
  producer_left (Producer.loaded_head x h) = 3
  producer_left (Producer.loaded_both x h t) = 2
  producer_left (Producer.constructed h) = 1

  abbrev pub consumer_left : Consumer T → ℕ
  consumer_left Consumer.resting = 0
  consumer_left (Consumer.loaded_tail t) = 3
  consumer_left (Consumer.loaded_both t h) = 2
  consumer_left (Consumer.destroyed t) = 1

  pub producer_left-le : (p : Producer T) → producer_left p ≤ 3
  producer_left-le Producer.resting = omega arith
  producer_left-le (Producer.loaded_head x h) = omega arith
  producer_left-le (Producer.loaded_both x h t) = omega arith
  producer_left-le (Producer.constructed h) = omega arith

  pub consumer_left-le : (c : Consumer T) → consumer_left c ≤ 3
  consumer_left-le Consumer.resting = omega arith
  consumer_left-le (Consumer.loaded_tail t) = omega arith
  consumer_left-le (Consumer.loaded_both t h) = omega arith
  consumer_left-le (Consumer.destroyed t) = omega arith

  pub producer_rests : (p : Producer T) → producer_left p ≡ 0 → p ≡ Producer.resting
  producer_rests Producer.resting e = refl
  producer_rests (Producer.loaded_head x h) e = absurd (omega arith)
  producer_rests (Producer.loaded_both x h t) e = absurd (omega arith)
  producer_rests (Producer.constructed h) e = absurd (omega arith)

  pub consumer_rests : (c : Consumer T) → consumer_left c ≡ 0 → c ≡ Consumer.resting
  consumer_rests Consumer.resting e = refl
  consumer_rests (Consumer.loaded_tail t) e = absurd (omega arith)
  consumer_rests (Consumer.loaded_both t h) e = absurd (omega arith)
  consumer_rests (Consumer.destroyed t) e = absurd (omega arith)

  -- The accesses of a thread in a schedule.
  abbrev pub own_producer : Turn T → ℕ
  own_producer (producer_turn x) = 1
  own_producer consumer_turn = 0

  abbrev pub own_consumer : Turn T → ℕ
  own_consumer (producer_turn x) = 0
  own_consumer consumer_turn = 1

  abbrev pub count : (Turn T → ℕ) → List (Turn T) → ℕ
  count own [] = 0
  count own (turn ∷ turns) = own turn + count own turns

  -- What holds behind an access that is no fault: it brings its own call on, and leaves the other
  -- where it is.
  abbrev pub ProducerMoved : System T → ℕ → Option (System T) → Type 0
  ProducerMoved s n none = Unit {0}
  ProducerMoved s n (some s') = producer_left s'.producer + n ≤ producer_left s.producer

  abbrev pub ConsumerMoved : System T → ℕ → Option (System T) → Type 0
  ConsumerMoved s n none = Unit {0}
  ConsumerMoved s n (some s') = consumer_left s'.consumer + n ≤ consumer_left s.consumer

  module _ (cap : ℕ) where
    constructs :
        (s : System T) (x : T) (h : ℕ) (slot : Option (Option T))
        → producer_left s.producer ≡ 2
        → ProducerMoved s 1 (construct_in cap s x h slot)
    constructs s x h none e = tt
    constructs s x h (some (some y)) e = tt
    constructs s x h (some none) e = omega (arith, e)

    constructs_aside :
        (s : System T) (x : T) (h : ℕ) (slot : Option (Option T))
        → ConsumerMoved s 0 (construct_in cap s x h slot)
    constructs_aside s x h none = tt
    constructs_aside s x h (some (some y)) = tt
    constructs_aside s x h (some none) = omega arith

    takes :
        (s : System T) (t : ℕ) (slot : Option (Option T))
        → consumer_left s.consumer ≡ 2
        → ConsumerMoved s 1 (take_from cap s t slot)
    takes s t none e = tt
    takes s t (some none) e = tt
    takes s t (some (some y)) e = omega (arith, e)

    takes_aside :
        (s : System T) (t : ℕ) (slot : Option (Option T))
        → ProducerMoved s 0 (take_from cap s t slot)
    takes_aside s t none = tt
    takes_aside s t (some none) = tt
    takes_aside s t (some (some y)) = omega arith

    produce_moves :
        (s : System T) (p : Producer T) (x : T)
        → producer_left s.producer ≡ producer_left p
        → 0 < producer_left p
        → ProducerMoved s 1 (produce cap s p x)
    unfolding produce
    produce_moves s Producer.resting x e pos = absurd (omega arith)
    produce_moves s (Producer.loaded_head y h) x e pos = omega (arith, e)
    produce_moves s (Producer.loaded_both y h t) x e pos =
        elim (Bool-cases (leb cap (sub_size h t))) [
          | inl is_full ↦ rw is_full (omega (arith, e))
          | inr room ↦ rw room (constructs s y h _ e)
        ]
    produce_moves s (Producer.constructed h) x e pos = omega (arith, e)

    produce_aside : (s : System T) (p : Producer T) (x : T) → ConsumerMoved s 0 (produce cap s p x)
    unfolding produce
    produce_aside s Producer.resting x = omega arith
    produce_aside s (Producer.loaded_head y h) x = omega arith
    produce_aside s (Producer.loaded_both y h t) x = elim (Bool-cases (leb cap (sub_size h t))) [
      | inl is_full ↦ rw is_full (omega arith)
      | inr room ↦ rw room (constructs_aside s y h _)
    ]
    produce_aside s (Producer.constructed h) x = omega arith

    consume_moves :
        (s : System T) (c : Consumer T)
        → consumer_left s.consumer ≡ consumer_left c
        → 0 < consumer_left c
        → ConsumerMoved s 1 (consume cap s c)
    unfolding consume
    consume_moves s Consumer.resting e pos = absurd (omega arith)
    consume_moves s (Consumer.loaded_tail t) e pos = omega (arith, e)
    consume_moves s (Consumer.loaded_both t h) e pos = elim (Bool-cases (t == h)) [
      | inl same ↦ rw same (omega (arith, e))
      | inr ne ↦ rw ne (takes s t _ e)
    ]
    consume_moves s (Consumer.destroyed t) e pos = omega (arith, e)

    consume_aside : (s : System T) (c : Consumer T) → ProducerMoved s 0 (consume cap s c)
    unfolding consume
    consume_aside s Consumer.resting = omega arith
    consume_aside s (Consumer.loaded_tail t) = omega arith
    consume_aside s (Consumer.loaded_both t h) = elim (Bool-cases (t == h)) [
      | inl same ↦ rw same (omega arith)
      | inr ne ↦ rw ne (takes_aside s t _)
    ]
    consume_aside s (Consumer.destroyed t) = omega arith

    pub producer_steps :
        (s : System T) (turn : Turn T)
        → 0 < producer_left s.producer
        → ProducerMoved s (own_producer turn) (step cap s turn)
    producer_steps s (producer_turn x) pos = produce_moves s s.producer x refl pos
    producer_steps s consumer_turn pos = consume_aside s s.consumer

    pub consumer_steps :
        (s : System T) (turn : Turn T)
        → 0 < consumer_left s.consumer
        → ConsumerMoved s (own_consumer turn) (step cap s turn)
    consumer_steps s (producer_turn x) pos = produce_aside s s.producer x
    consumer_steps s consumer_turn pos = consume_moves s s.consumer refl pos
