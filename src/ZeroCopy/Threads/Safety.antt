-- ===== src/ZeroCopy/Threads/Safety.antt =====
-- What holds of every interleaving of the two threads of the zero-copy queue.
use aether_stream.Common.{
  ℕ, ◌≤◌, ◌≡◌, inl, inr, false, true, Option-cases, Option, some, none, List, [], ◌∷◌, ◌++◌, length,
  length-append, refl, arith, ◌==◌, Bool-cases, sym, ap, ◌∙◌, get_elem?, subst,
}
use aether_stream.Ring.{slot_index}
use aether_stream.Ring.Repr.{IsCapacity, Holds}
use aether_stream.Ring.Threads
use aether_stream.Ring.Threads.{Producer, Consumer}
use aether_stream.Ring.Threads.Inv.{Inv, pending_pop}
use aether_stream.Ring.Threads.Inv
use aether_stream.Ring.Threads.Safety.{consume-Consumes}
use aether_stream.ZeroCopy.Threads.{
  Reserver, System, start, consume, with_consumed, ring_system, Turn, producer_turn, consumer_turn,
  step, run, constructs, is_stray, never_strays, produce,
}
use aether_stream.ZeroCopy.Threads.Inv.{
  as_producer, is_active, with_value, SystemInv, start-SystemInv, Knows-mono, last_queued,
}
use aether_stream.ZeroCopy.Threads.Step.{Goes, system, produce-Goes}

module _ {ℓ} {T : Type ℓ} {cap : ℕ} (ok : IsCapacity cap) where
  -- The consumer does not look at what the producer does.
  take_frame :
      (s : System T) (p : Producer T) (pushed : List T) (t : ℕ) (slot : Option (Option T))
      → with_consumed s (Threads.take_from cap (ring_system s p pushed) t slot)
        ≡ with_consumed s (Threads.take_from cap (ring_system s Producer.resting []) t slot)
  take_frame s p pushed t none = refl
  take_frame s p pushed t (some none) = refl
  take_frame s p pushed t (some (some x)) = refl

  consume_frame :
      (s : System T) (p : Producer T) (pushed : List T) (c : Consumer T)
      → with_consumed s (Threads.consume cap (ring_system s p pushed) c)
        ≡ with_consumed s (Threads.consume cap (ring_system s Producer.resting []) c)
  unfolding Threads.consume
  consume_frame s p pushed Consumer.resting = refl
  consume_frame s p pushed (Consumer.loaded_tail t) = refl
  consume_frame s p pushed (Consumer.loaded_both t h) = elim (Bool-cases (t == h)) [
    | inl same ↦ rw same refl
    | inr ne ↦ rw ne (take_frame s p pushed t (get_elem? s.ring.buffer (slot_index cap t)))
  ]
  consume_frame s p pushed (Consumer.destroyed t) = refl

  consume-Goes : (s : System T) → SystemInv cap s → Goes ok (consume cap s)
  unfolding consume
  consume-Goes s v =
      let p = as_producer s.producer in
      let pushed = with_value s.committed s.producer in
      let (r, c, taken, e, sys, same, less) =
        consume-Consumes ok s.ring p s.consumer pushed s.taken v.ring in
      (
        system ok r s.active s.producer c s.committed taken,
        sym (consume_frame s p pushed s.consumer) ∙ ap (with_consumed s) e,
        record {
          ring = sys;
          knows = rw same (Knows-mono cap s.ring.head s.producer less v.knows);
          flag = v.flag;
        },
      )

  step-Goes :
      (s : System T) (turn : Turn T)
      → is_stray s.producer turn ≡ false
      → SystemInv cap s
      → Goes ok (step cap s turn)
  step-Goes s (producer_turn request) held v =
      produce-Goes ok s.ring s.active s.consumer s.committed s.taken s.producer request held v
  step-Goes s consumer_turn held v = consume-Goes s v

  -- A stray construction is a fault.
  stray_faults :
      (s : System T) (p : Reserver T) (turn : Turn T)
      → s.producer ≡ p
      → is_stray p turn ≡ true
      → step cap s turn ≡ none
  unfolding produce
  stray_faults s Reserver.resting (producer_turn (constructs x)) e stray = rw e
  stray_faults s _ _ e stray = cc

  pub run-Goes :
      (s : System T) (turns : List (Turn T))
      → never_strays cap s turns ≡ true
      → SystemInv cap s
      → Goes ok (run cap s turns)
  unfolding run never_strays
  run-Goes s [] held v = (s, refl, v)
  run-Goes s (turn ∷ turns) held v = elim (Bool-cases (is_stray s.producer turn)) [
    | inl stray ↦ let wrong = rw stray at held in cc
    | inr here ↦
        let (s', e, v') = step-Goes s turn here v in
        let after = rw (here, e) at held in rw (e, run) (run-Goes s' turns after v')
  ]

  -- A schedule that ran without a fault had no stray construction.
  pub run-never_strays :
      (s z : System T) (turns : List (Turn T))
      → run cap s turns ≡ some z
      → never_strays cap s turns ≡ true
  unfolding run never_strays
  run-never_strays s z [] e = refl
  run-never_strays s z (turn ∷ turns) e = elim (Option-cases (step cap s turn)) [
    | inl fault ↦ let wrong = rw (run, fault) at e in cc
    | inr (s', goes) ↦ elim (Bool-cases (is_stray s.producer turn)) [
      | inl stray ↦ cc (stray_faults s s.producer turn refl stray, goes)
      | inr here ↦
          let ran = rw (run, goes) at e in
          rw (here, goes, never_strays) (run-never_strays s' z turns ran)
    ]
  ]

  -- The values committed and not taken, in every state of the producer.
  queued :
      (s : System T) (p : Reserver T)
      → s.producer ≡ p
      → (v : Inv.SystemInv cap (ring_system s (as_producer p) (with_value s.committed p)))
      → (q : List T) × (s.taken ++ q ≡ s.committed) × (length q ≤ cap)
  queued s (Reserver.filled h x) e v =
      let (q, split, history) =
        last_queued s.taken v.queue s.committed x v.history v.inv.published in
      (q, history, omega (arith, v.inv.holds.bounded, ap length split, length-append q (x ∷ [])))
  queued s _ e v = (v.queue, v.history, v.inv.holds.bounded)

  -- However the accesses of the reserving and the consuming thread interleave, and whatever the
  -- client of reservations calls next, if only it never asks an empty reservation to construct: no
  -- value is constructed over a live one, destroyed or moved
  -- from where none lives, and no second reservation is given; the flag is set while a
  -- reservation is out or within a call; and the values taken are those committed, in order, less the
  -- at most `cap` last ones: none that was cancelled, replaced or is not yet committed.
  pub reservations_safe :
      (turns : List (Turn T))
      → never_strays cap (start cap) turns ≡ true
      → (s : System T) × (q : List T) × (run cap (start cap) turns ≡ some s)
        × (s.taken ++ q ≡ s.committed)
        × (length q ≤ cap)
        × (s.active ≡ is_active s.producer)
  reservations_safe turns held =
      let (s, e, v) = run-Goes (start cap) turns held (start-SystemInv cap ok) in
      let (q, history, bounded) = queued s s.producer refl v.ring in
      (s, q, e, history, bounded, v.flag)

  at_rest :
      (s : System T) (p : Reserver T)
      → p ≡ Reserver.resting
      → s.consumer ≡ Consumer.resting
      → (v : Inv.SystemInv cap (ring_system s (as_producer p) (with_value s.committed p)))
      → (q : List T) × Holds cap s.ring q × (s.taken ++ q ≡ s.committed)
  at_rest s Reserver.resting e f v = (
    v.queue,
    (let now = subst (λ c. Inv cap s.ring Producer.resting c v.queue) f v.inv in now.holds),
    v.history,
  )
  at_rest s _ e f v = cc

  -- Whenever both threads of a zero-copy queue rest, after accesses in any order, its slots hold the
  -- values committed that were not taken yet, in order, and no others: every value that was
  -- cancelled or replaced is destroyed. And the flag is free.
  pub reservations_at_rest :
      (turns : List (Turn T)) (s : System T)
      → run cap (start cap) turns ≡ some s
      → s.producer ≡ Reserver.resting
      → s.consumer ≡ Consumer.resting
      → (s.active ≡ false) × ((q : List T) × Holds cap s.ring q × (s.taken ++ q ≡ s.committed))
  reservations_at_rest turns s e p c =
      let (s', e', v) =
        run-Goes (start cap) turns (run-never_strays (start cap) s turns e)
          (start-SystemInv cap ok) in
      let same : s' ≡ s =
        ap (λ (o : Option (System T)). elim o [ none ↦ start cap | some z ↦ z ]) (sym e' ∙ e) in
      let v' = subst (λ (z : System T). SystemInv cap z) same v in
      (v'.flag ∙ ap is_active p, at_rest s s.producer p c v'.ring)
