-- ===== src/Ring/Ops.antt =====
-- `try_push`, `try_pop` and the observers against the bounded queue.
use native.Mathlib.Nat.{mod-add-mod, mod-lt, add-mod_right}
use aether_stream.Common.{
  ℕ, suc, ◌+◌, ◌%◌, ◌<◌, ◌≡◌, ◌≢◌, refl, sym, ap, ◌∙◌, true, false, none, some, List, [], ◌∷◌, ◌++◌,
  arith, length, get_elem?, set, ◌==◌, leb, add-mod-ne, get_elem?-set_self, get_elem?-set_ne,
  get_elem?-snoc_last, get_elem?-snoc_ne, get_elem?_of_ge, length-set, length-append, Bool-cases,
  dec_lt, ℕ_discrete, inl, inr,
}
use aether_stream.Core.Types.{u64_mod}
use aether_stream.Ring.{
  Ring, slot_index, sub_size, next_size, try_push, try_pop, empty, full, size_approx,
}
use aether_stream.Ring.Queue
use aether_stream.Ring.Repr.{
  IsCapacity, slot_index-eq-mod, slot_index-wrap, wrap-mod, Holds, sub_size-eq-length,
  tail-eq-head_iff,
}

-- Offsets below the capacity that differ name slots that differ, in either order.
pub offset_ne : (cap t i j : ℕ) → i < cap → j < cap → i ≢ j → (t + i) % cap ≢ (t + j) % cap
offset_ne cap t i j p q ne e = elim (dec_lt i j) [
  | yes lt ↦ add-mod-ne cap t i j lt q e
  | no ge ↦ add-mod-ne cap t j i (omega arith) p (sym e)
]

-- A whole round comes back to the start.
round : (cap t i : ℕ) → suc i ≡ cap → (t + suc i) % cap ≡ (t + 0) % cap
round cap t i e = rw (e, add-mod_right t cap) (ap (λ (s : ℕ). s % cap) (omega arith))

-- The slots behind `tail` after it has moved on, which may wrap.
next_slot : {cap : ℕ} → IsCapacity cap → (t i : ℕ) → (next_size t + i) % cap ≡ (t + suc i) % cap
next_slot {cap} c t i =
    sym (mod-add-mod (next_size t) cap i)
    ∙ ap (λ (s : ℕ). (s + i) % cap) (wrap-mod c (t + 1))
    ∙ mod-add-mod (t + 1) cap i
    ∙ ap (λ (s : ℕ). s % cap) (let e : t + 1 + i ≡ t + suc i = omega arith in e)

module _ {ℓ} {T : Type ℓ} {cap : ℕ} (c : IsCapacity cap) where
  -- The producer's slot is the one behind the last value.
  pub head_slot :
      {r : Ring T} {q : List T} → Holds cap r q → slot_index cap r.head ≡ (r.tail + length q) % cap
  head_slot {r} {q} h = rw (← h.count) (slot_index-wrap c (r.tail + length q))

  -- The consumer's slot is that of the first value.
  pub tail_slot : (r : Ring T) → slot_index cap r.tail ≡ (r.tail + 0) % cap
  tail_slot r = slot_index-eq-mod c r.tail ∙ ap (λ (t : ℕ). t % cap) (omega arith)

  -- While the queue is not full, the producer's slot holds no object.
  pub head_slot_free :
      {r : Ring T} {q : List T}
      → Holds cap r q
      → length q < cap
      → get_elem? r.buffer (slot_index cap r.head) ≡ some none
  head_slot_free {r} {q} h room =
      rw (head_slot h, h.slots (length q) room, get_elem?_of_ge q (length q) (omega arith))

  -- While the queue is not empty, the consumer's slot holds its first value.
  pub tail_slot_live :
      {r : Ring T} {x : T} {q : List T}
      → Holds cap r (x ∷ q)
      → get_elem? r.buffer (slot_index cap r.tail) ≡ some (some x)
  tail_slot_live {r} h = rw (tail_slot r, h.slots 0 (omega (arith, h.bounded)))

  -- Writing the producer's slot and moving `head` on adds a value at the end.
  pub produce-Holds :
      {r : Ring T} {q : List T} (x : T)
      → Holds cap r q
      → length q < cap
      → Holds cap
          (record r {
            buffer = set r.buffer (slot_index cap r.head) (some x);
            head = next_size r.head;
          })
          (q ++ x ∷ [])
  produce-Holds {r} {q} x h room = record {
    storage = length-set r.buffer _ (some x) ∙ h.storage;
    head_fits = omega arith;
    tail_fits = h.tail_fits;
    count = omega (arith, h.count, length-append q (x ∷ []));
    bounded = omega (arith, length-append q (x ∷ []));
    slots = λ i lt. rw (head_slot h) (elim (ℕ_discrete (length q) i) [
      | yes e ↦
          rw (← e, get_elem?-snoc_last q x)
            (get_elem?-set_self r.buffer ((r.tail + length q) % cap) (some x)
              (omega (arith, h.storage, mod-lt (r.tail + length q) {m = cap} (omega arith))))
      | no ne ↦
          get_elem?-set_ne r.buffer ((r.tail + length q) % cap) ((r.tail + i) % cap) (some x)
            (offset_ne cap r.tail (length q) i room lt ne)
          ∙ h.slots i lt
          ∙ ap some (sym (get_elem?-snoc_ne q x i (λ e. ne (sym e))))
    ]);
  }

  -- Ending the life of the consumer's slot and moving `tail` on drops the first value.
  pub consume-Holds :
      {r : Ring T} {x : T} {q : List T}
      → Holds cap r (x ∷ q)
      → Holds cap
          (record r { buffer = set r.buffer (slot_index cap r.tail) none; tail = next_size r.tail })
          q
  consume-Holds {r} {x} {q} h = record {
    storage = length-set r.buffer _ none ∙ h.storage;
    head_fits = h.head_fits;
    tail_fits = omega arith;
    count = omega (arith, h.count);
    bounded = omega (arith, h.bounded);
    slots = λ i lt.
        rw (next_slot c r.tail i, tail_slot r)
          (elim (dec_lt (suc i) cap) [
            | yes below ↦
                get_elem?-set_ne r.buffer ((r.tail + 0) % cap) ((r.tail + suc i) % cap) none
                  (offset_ne cap r.tail 0 (suc i) (omega arith) below (omega arith))
                ∙ h.slots (suc i) below
            | no last ↦
                let e : (r.tail + suc i) % cap ≡ (r.tail + 0) % cap =
                  round cap r.tail i (omega arith) in
                rw (e, get_elem?_of_ge q i (omega (arith, h.bounded)))
                  (get_elem?-set_self r.buffer ((r.tail + 0) % cap) none
                    (omega (arith, h.storage, mod-lt (r.tail + 0) {m = cap} (omega arith))))
          ]);
  }

  -- The slot behind `head` when a value stands in it that `head` has not moved past.
  unpublished_slot :
      {r : Ring T} (q : List T) (x : T)
      → r.head < u64_mod
      → Holds cap (record r { head = next_size r.head }) (q ++ x ∷ [])
      → slot_index cap r.head ≡ (r.tail + length q) % cap
  unpublished_slot {r} q x fits h =
      let e : (r.tail + length q) % u64_mod ≡ r.head =
        omega (arith, h.count, length-append q (x ∷ [])) in
      rw (← e) (slot_index-wrap c (r.tail + length q))

  -- That slot holds the last value, and ending its life takes it off again.
  pub retract-Holds :
      {r : Ring T} {q : List T} (x : T)
      → r.head < u64_mod
      → Holds cap (record r { head = next_size r.head }) (q ++ x ∷ [])
      → (get_elem? r.buffer (slot_index cap r.head) ≡ some (some x))
        × Holds cap (record r { buffer = set r.buffer (slot_index cap r.head) none }) q
  retract-Holds {r} {q} x fits h =
      let more = length-append q (x ∷ []) in
      let room : length q < cap = omega (arith, h.bounded, more) in
      let there = unpublished_slot q x fits h in
      (
        rw (there, h.slots (length q) room, get_elem?-snoc_last q x) refl,
        record {
          storage = length-set r.buffer _ none ∙ h.storage;
          head_fits = fits;
          tail_fits = h.tail_fits;
          count = omega (arith, h.count, more);
          bounded = omega (arith, room);
          slots = λ i lt. rw there (elim (ℕ_discrete (length q) i) [
            | yes e ↦
                rw (← e, get_elem?_of_ge q (length q) (omega arith))
                  (get_elem?-set_self r.buffer ((r.tail + length q) % cap) none (
                    omega (
                      arith,
                      h.storage,
                      mod-lt (r.tail + length q) {m = cap} (omega (arith, room)),
                    )))
            | no ne ↦
                get_elem?-set_ne r.buffer ((r.tail + length q) % cap) ((r.tail + i) % cap) none
                  (offset_ne cap r.tail (length q) i room lt ne)
                ∙ h.slots i lt
                ∙ ap some (get_elem?-snoc_ne q x i (λ e. ne (sym e)))
          ]);
        },
      )

  pub full-eq :
      {r : Ring T} {q : List T}
      → Holds cap r q
      → leb cap (sub_size r.head r.tail) ≡ leb cap (length q)
  full-eq h = ap (leb cap) (sub_size-eq-length c h)

  -- `try_push` answers as the bounded queue does, and leaves the ring holding its queue. So it
  -- pushes at the end when there is room, and changes nothing when there is none.
  pub try_push_refines :
      {r : Ring T} {q : List T} (x : T)
      → Holds cap r q
      → let (done, r') = try_push cap r x in
        let (done', q') = Queue.push cap q x in (done ≡ done') × Holds cap r' q'
  unfolding try_push Queue.push
  try_push_refines {r} {q} x h = elim (Bool-cases (leb cap (length q))) [
    | inl is_full ↦ rw (full-eq h, is_full) (refl, h)
    | inr room ↦ rw (full-eq h, room) (refl, produce-Holds x h (ground arith))
  ]

  -- `try_pop` never reads a slot that holds no object: it answers as the bounded queue does, puts
  -- the oldest value into `out` or leaves `out` alone, and the ring holds the queue that is left.
  pub try_pop_refines :
      {r : Ring T} (q : List T) (out : T)
      → Holds cap r q
      → let (done, out', q') = Queue.pop q out in
        (r' : Ring T) × (try_pop cap r out ≡ some (done, out', r')) × Holds cap r' q'
  unfolding try_pop Queue.pop
  try_pop_refines {r} [] out h =
      let e : r.tail ≡ r.head = (tail-eq-head_iff c h).1 refl in (r, ground arith, h)
  try_pop_refines {r} (x ∷ q) out h =
      let ne : (r.tail == r.head) ≡ false = ground (arith, (tail-eq-head_iff c h).0) in
      (_, rw (ne, tail_slot_live h), consume-Holds h)

  -- The observers read the length of the queue off the counters, wrapped or not.
  pub observers_lem :
      {r : Ring T} {q : List T}
      → Holds cap r q
      → (size_approx cap r ≡ length q)
        × (empty cap r ≡ (length q == 0))
        × (full cap r ≡ leb cap (length q))
  unfolding size_approx empty full
  observers_lem {r} {q} h = (
    sub_size-eq-length c h,
    ground (arith, (tail-eq-head_iff c h).0, (tail-eq-head_iff c h).1),
    full-eq h,
  )

  -- The two cases of a push, with the ring that it leaves.
  pub try_push_full :
      {r : Ring T} {q : List T} (x : T)
      → Holds cap r q
      → leb cap (length q) ≡ true
      → try_push cap r x ≡ (false, r)
  unfolding try_push
  try_push_full x h is_full = rw (full-eq h, is_full)

  pub try_push_room :
      {r : Ring T} {q : List T} (x : T)
      → Holds cap r q
      → leb cap (length q) ≡ false
      → (r' : Ring T) × (try_push cap r x ≡ (true, r')) × Holds cap r' (q ++ x ∷ [])
  unfolding try_push
  try_push_room x h room = (_, rw (full-eq h, room), produce-Holds x h (ground arith))
