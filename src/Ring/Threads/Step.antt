-- ===== src/Ring/Threads/Step.antt =====
-- Every access of either thread keeps the invariant, and none is a fault.
use aether_stream.Common.{
  ℕ, suc, ◌+◌, ◌-◌, ◌<◌, ◌≡◌, some, none, List, [], ◌∷◌, ◌++◌, length, length-append, refl, arith,
  false, leb, ◌==◌, get_elem?, set,
}
use aether_stream.Ring.{Ring, next_size, sub_size, slot_index}
use aether_stream.Ring.Repr.{IsCapacity, cap_bounds}
use aether_stream.Ring.Ops.{
  produce-Holds, consume-Holds, head_slot_free, tail_slot_live, retract-Holds,
}
use aether_stream.Ring.Threads.{Producer, Consumer}
use aether_stream.Ring.Threads.Inv.{
  Inv, ProducerKnows-mono, ConsumerKnows-mono, pending_pop, pending_push,
}

module _ {ℓ} {T : Type ℓ} {cap : ℕ} (ok : IsCapacity cap) where
  module _ {r : Ring T} {c : Consumer T} {q : List T} where
    pub load_head-Inv :
        (x : T) → Inv cap r Producer.resting c q → Inv cap r (Producer.loaded_head x r.head) c q
    load_head-Inv x v = record {
      holds = v.holds;
      head_fits = v.head_fits;
      tail_fits = v.tail_fits;
      room = v.room;
      published = v.published;
      distance = v.distance;
      producer_knows = (refl, tt);
      consumer_knows = v.consumer_knows;
    }

    pub load_tail-Inv :
        (x : T) (h : ℕ)
        → Inv cap r (Producer.loaded_head x h) c q
        → Inv cap r (Producer.loaded_both x h r.tail) c q
    load_tail-Inv x h v = record {
      holds = v.holds;
      head_fits = v.head_fits;
      tail_fits = v.tail_fits;
      room = v.room;
      published = v.published;
      distance = v.distance;
      producer_knows = (
        length q + pending_pop c,
        v.producer_knows.0,
        omega (arith, v.distance),
        v.room,
        omega arith,
        v.tail_fits,
      );
      consumer_knows = v.consumer_knows;
    }

    pub give_up-Inv :
        (x : T) (h t : ℕ)
        → Inv cap r (Producer.loaded_both x h t) c q
        → Inv cap r Producer.resting c q
    give_up-Inv x h t v = record {
      holds = v.holds;
      head_fits = v.head_fits;
      tail_fits = v.tail_fits;
      room = v.room;
      published = v.published;
      distance = v.distance;
      producer_knows = tt;
      consumer_knows = v.consumer_knows;
    }

    -- The test on a tail that may be old leaves room for one more value.
    pub room_left :
        (x : T) (h t : ℕ)
        → Inv cap r (Producer.loaded_both x h t) c q
        → leb cap (sub_size h t) ≡ false
        → length q + pending_pop c < cap
    room_left x h t v e =
        let (n, p1, p2, p3, p4, p5) = v.producer_knows in ground (arith, cap_bounds ok)

    pub construct-Inv :
        (x : T) (t : ℕ)
        → Inv cap r (Producer.loaded_both x r.head t) c q
        → length q + pending_pop c < cap
        → (get_elem? r.buffer (slot_index cap r.head) ≡ some none)
          × Inv cap
              (record r { buffer = set r.buffer (slot_index cap r.head) (some x) })
              (Producer.constructed r.head)
              c
              (q ++ x ∷ [])
    construct-Inv x t v room =
        let len : length (q ++ x ∷ []) ≡ length q + 1 = length-append q (x ∷ []) in
        (
          head_slot_free ok v.holds (omega arith),
          record {
            holds = produce-Holds ok x v.holds (omega arith);
            head_fits = v.head_fits;
            tail_fits = v.tail_fits;
            room = omega arith;
            published = omega arith;
            distance = omega (arith, v.distance);
            producer_knows = (refl, tt);
            consumer_knows = ConsumerKnows-mono r.tail c (omega arith) v.consumer_knows;
          },
        )

    -- The value that is constructed and not published can be taken off again.
    pub retract-Inv :
        (x : T)
        → Inv cap r (Producer.constructed r.head) c (q ++ x ∷ [])
        → (get_elem? r.buffer (slot_index cap r.head) ≡ some (some x))
          × Inv cap
              (record r { buffer = set r.buffer (slot_index cap r.head) none })
              Producer.resting
              c
              q
    retract-Inv x v =
        let len : length (q ++ x ∷ []) ≡ length q + 1 = length-append q (x ∷ []) in
        let (live, kept) = retract-Holds ok x v.head_fits v.holds in
        (
          live,
          record {
            holds = kept;
            head_fits = v.head_fits;
            tail_fits = v.tail_fits;
            room = omega (arith, v.room, len);
            published = omega arith;
            distance = omega (arith, v.distance, len);
            producer_knows = tt;
            consumer_knows = ConsumerKnows-mono r.tail c (omega (arith, len)) v.consumer_knows;
          },
        )

    pub publish-Inv :
        Inv cap r (Producer.constructed r.head) c q
        → Inv cap (record r { head = next_size r.head }) Producer.resting c q
    publish-Inv v = record {
      holds = v.holds;
      head_fits = omega arith;
      tail_fits = v.tail_fits;
      room = v.room;
      published = omega arith;
      distance = omega (arith, v.distance, v.published);
      producer_knows = tt;
      consumer_knows = ConsumerKnows-mono r.tail c (omega arith) v.consumer_knows;
    }

  module _ {r : Ring T} {p : Producer T} {q : List T} where
    pub load_own_tail-Inv :
        Inv cap r p Consumer.resting q → Inv cap r p (Consumer.loaded_tail r.tail) q
    load_own_tail-Inv v = record {
      holds = v.holds;
      head_fits = v.head_fits;
      tail_fits = v.tail_fits;
      room = v.room;
      published = v.published;
      distance = v.distance;
      producer_knows = v.producer_knows;
      consumer_knows = (refl, tt);
    }

    pub load_their_head-Inv :
        (t : ℕ)
        → Inv cap r p (Consumer.loaded_tail t) q
        → Inv cap r p (Consumer.loaded_both t r.head) q
    load_their_head-Inv t v = record {
      holds = v.holds;
      head_fits = v.head_fits;
      tail_fits = v.tail_fits;
      room = v.room;
      published = v.published;
      distance = v.distance;
      producer_knows = v.producer_knows;
      consumer_knows = (
        length q - pending_push p,
        v.consumer_knows.0,
        omega (arith, v.distance, v.consumer_knows.0),
        omega arith,
      );
    }

    pub find_empty-Inv :
        (t h : ℕ) → Inv cap r p (Consumer.loaded_both t h) q → Inv cap r p Consumer.resting q
    find_empty-Inv t h v = record {
      holds = v.holds;
      head_fits = v.head_fits;
      tail_fits = v.tail_fits;
      room = v.room;
      published = v.published;
      distance = v.distance;
      producer_knows = v.producer_knows;
      consumer_knows = tt;
    }

    -- The test on a head that may be old shows a value that is published.
    pub value_published :
        (t h : ℕ)
        → Inv cap r p (Consumer.loaded_both t h) q
        → (t == h) ≡ false
        → pending_push p < length q
    value_published t h v e = let (m, p1, p2, p3) = v.consumer_knows in ground arith

    pub retire-Inv :
        Inv cap r p (Consumer.destroyed r.tail) q
        → Inv cap (record r { tail = next_size r.tail }) p Consumer.resting q
    retire-Inv v = record {
      holds = v.holds;
      head_fits = v.head_fits;
      tail_fits = omega arith;
      room = omega (arith, v.room);
      published = v.published;
      distance = omega (arith, v.distance);
      producer_knows = ProducerKnows-mono cap r.head p (omega arith) v.producer_knows;
      consumer_knows = tt;
    }

  pub take-Inv :
      {r : Ring T} {p : Producer T} {x : T} {q : List T} (h : ℕ)
      → Inv cap r p (Consumer.loaded_both r.tail h) (x ∷ q)
      → pending_push p < suc (length q)
      → (get_elem? r.buffer (slot_index cap r.tail) ≡ some (some x))
        × Inv cap
            (record r { buffer = set r.buffer (slot_index cap r.tail) none })
            p
            (Consumer.destroyed r.tail)
            q
  take-Inv {r} {p} h v has = (
    tail_slot_live ok v.holds,
    record {
      holds = consume-Holds ok v.holds;
      head_fits = v.head_fits;
      tail_fits = v.tail_fits;
      room = omega (arith, v.room);
      published = omega arith;
      distance = omega (arith, v.distance);
      producer_knows = ProducerKnows-mono cap r.head p (omega arith) v.producer_knows;
      consumer_knows = (refl, tt);
    },
  )
