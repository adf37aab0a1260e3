-- ===== src/ZeroCopy/Consumes.antt =====
-- Consuming does what the protocol says.
use aether_stream.Common.{
  ℕ, ◌≡◌, ◌≢◌, refl, ap, true, false, none, some, List, [], ◌∷◌, Option, Bool, arith, get_elem?,
  set, ◌==◌,
}
use aether_stream.Ring.{Ring, slot_index, next_size, try_pop}
use aether_stream.Ring.Queue
use aether_stream.Ring.Repr.{IsCapacity, tail-eq-head_iff}
use aether_stream.Ring.Ops.{try_pop_refines, consume-Holds, tail_slot_live}
use aether_stream.ZeroCopy.{ZeroCopySpsc, Reservation, try_consume, with_popped}
use aether_stream.ZeroCopy.Protocol.{Pending, closed, reserved, filled, consumes, answer}
use aether_stream.ZeroCopy.Repr.{Owns, Idle, Open, Full, StandsFor, sub_size_eq, head_eq}
use aether_stream.ZeroCopy.Session.{step, after_consume}
use aether_stream.ZeroCopy.Steps.{Does}

module _ {ℓ} {T : Type ℓ} {cap : ℕ} (c : IsCapacity cap) where
  -- What a pop did to the ring, the protocol sees.
  consumes_popped :
      (s : ZeroCopySpsc T) (r : Reservation) (q : List T) (p : Pending T) (out : T) (ring : Ring T)
      → let (done, out', q') = Queue.pop q out in
        try_pop cap s.ring out ≡ some (done, out', ring)
        → StandsFor cap (record s { ring = ring }) r q' p
        → Does c (step cap s r (consumes out)) (answer cap q p (consumes out))
  unfolding step answer try_consume
  consumes_popped s r q p out ring e h = (
    record s { ring = ring },
    r,
    ap (λ (k : Option (Bool × T × Ring T)). after_consume r (with_popped cap s k)) e,
    h,
  )

  popped_empty :
      (ring : Ring T) (out : T)
      → ring.tail ≡ ring.head
      → try_pop cap ring out ≡ some (false, out, ring)
  unfolding try_pop
  popped_empty ring out e = ground arith

  -- The ring behind a pop of a live slot.
  abbrev shorter : Ring T → Ring T
  shorter ring = record ring {
    buffer = set ring.buffer (slot_index cap ring.tail) none;
    tail = next_size ring.tail;
  }

  popped_live :
      (ring : Ring T) (out y : T)
      → ring.tail ≢ ring.head
      → get_elem? ring.buffer (slot_index cap ring.tail) ≡ some (some y)
      → try_pop cap ring out ≡ some (true, y, shorter ring)
  unfolding try_pop
  popped_live ring out y ne live =
      let e : (ring.tail == ring.head) ≡ false = ground arith in rw (e, live)

  Owns-shorter :
      {s : ZeroCopySpsc T} {r : Reservation} {b : Bool}
      → Owns cap s r b
      → Owns cap (record s { ring = shorter s.ring }) r b
  Owns-shorter o = record {
    active = o.active;
    attached = o.attached;
    index = o.index;
    ptr = o.ptr;
    built = o.built;
  }

  pub consumes_closed :
      (s : ZeroCopySpsc T) (r : Reservation) (q : List T) (out : T)
      → Idle cap s r q
      → Does c (step cap s r (consumes out)) (answer cap q closed (consumes out))
  consumes_closed s r q out i =
      let (ring, e, h) = try_pop_refines c q out i.holds in
      consumes_popped s r q closed out ring e (record {
        inactive = i.inactive;
        detached = i.detached;
        unbuilt = i.unbuilt;
        nowhere = i.nowhere;
        holds = h;
      })

  pub consumes_reserved :
      (s : ZeroCopySpsc T) (r : Reservation) (q : List T) (out : T)
      → Open cap s r q
      → Does c (step cap s r (consumes out)) (answer cap q reserved (consumes out))
  unfolding Queue.pop
  consumes_reserved s r [] out o =
      consumes_popped s r [] reserved out s.ring
        (popped_empty s.ring out ((tail-eq-head_iff c o.holds).1 refl)) o
  consumes_reserved s r (y ∷ q) out o =
      consumes_popped s r (y ∷ q) reserved out (shorter s.ring)
        (popped_live s.ring out y (λ e. ground (arith, (tail-eq-head_iff c o.holds).0 e))
          (tail_slot_live c o.holds))
        (record {
          owns = Owns-shorter o.owns;
          room = ground (arith, o.room);
          holds = consume-Holds c o.holds;
        })

  pub consumes_filled :
      (s : ZeroCopySpsc T) (r : Reservation) (q : List T) (out x : T)
      → Full cap s r q x
      → Does c (step cap s r (consumes out)) (answer cap q (filled x) (consumes out))
  unfolding Queue.pop
  consumes_filled s r [] out x f =
      consumes_popped s r [] (filled x) out s.ring
        (popped_empty s.ring out
          (omega (arith, head_eq c [] x f.head_fits f.holds, f.holds.tail_fits)))
        f
  consumes_filled s r (y ∷ q) out x f =
      consumes_popped s r (y ∷ q) (filled x) out (shorter s.ring)
        (popped_live s.ring out y
          (λ e. omega (arith, sub_size_eq c (y ∷ q) x f.head_fits f.holds, f.holds.tail_fits))
          (tail_slot_live c f.holds))
        (record {
          owns = Owns-shorter f.owns;
          head_fits = f.head_fits;
          holds = consume-Holds c f.holds;
        })
