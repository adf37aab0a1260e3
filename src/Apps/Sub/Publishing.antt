-- ===== src/Apps/Sub/Publishing.antt =====
-- The publishing loop of aether_sub's local demo, with room in the queue and without.
use aether_stream.Common.{
  ℕ, zero, suc, ◌+◌, ◌%◌, ◌<◌, ◌≤◌, ◌≡◌, refl, ◌∙◌, true, false, leb, none, some, List, [], ◌∷◌,
  ◌++◌, append_assoc, append-nil, length, length-append, arith, Bool-cases, inl, inr,
}
use aether_stream.Core.Types.{u64_mod}
use aether_stream.Core.Status.{is_ok, status_ok}
use aether_stream.Metrics.Counters
use aether_stream.Metrics.Counters.{Counters, zero_counters}
use aether_stream.Ring.Queue
use aether_stream.Ring.Repr.{IsCapacity, Holds}
use aether_stream.Broker.{Broker, try_publish}
use aether_stream.Broker.Laws.{full_status, try_publish_refines}
use aether_stream.Apps.Sub.{OrderEvent, make_event, publish_loop}

-- The events from a number on.
abbrev pub events : ℕ → ℕ → List OrderEvent
events i zero = []
events i (suc n) = make_event i ∷ events (i + 1) n

-- A broker that is valid and holds these events, and whose counters are these.
pub record Has (cap : ℕ) (b : Broker OrderEvent) (q : List OrderEvent) (counters : Counters)
    : Type 0 where
  pub valid : is_ok b.config_status ≡ true
  pub holds : Holds cap b.queue q
  pub counts : b.counters ≡ counters

abbrev pub publishes : Counters → ℕ → Counters
publishes k n = record k { published = k.published + n }

module _ {cap : ℕ} (c : IsCapacity cap) where
  publish_one :
      (b : Broker OrderEvent) (q : List OrderEvent) (k : Counters) (x : OrderEvent)
      → Has cap b q k
      → length q < cap
      → k.published + 1 < u64_mod
      → let (status, b') = try_publish cap b x in
        (status ≡ status_ok) × Has cap b' (q ++ x ∷ []) (publishes k 1)
  unfolding Queue.push Counters.record_published
  publish_one b q k x h room fits =
      let free : leb cap (length q) ≡ false = ground (arith, room) in
      let one : (k.published + 1) % u64_mod ≡ k.published + 1 = omega (arith, fits) in
      let (answer, holds, counts, status) =
        rw free at (try_publish_refines c b x h.valid h.holds) in
      (
        answer,
        record { valid = rw status h.valid; holds = holds; counts = counts ∙ rw (h.counts, one) },
      )

  -- With room for all, all are published.
  pub publish_room :
      (rounds i : ℕ) (b : Broker OrderEvent) (q : List OrderEvent) (k : Counters)
      → Has cap b q k
      → length q + rounds ≤ cap
      → k.published + rounds < u64_mod
      → let out = publish_loop cap rounds i b in
        (out.0 ≡ none) × Has cap out.1 (q ++ events i rounds) (publishes k rounds)
  unfolding publish_loop
  publish_room zero i b q k h room fits =
      let e : k.published + 0 ≡ k.published = omega arith in rw (append-nil q, e) (refl, h)
  publish_room (suc rounds) i b q k h room fits =
      let x = make_event i in
      let (answer, h') = publish_one b q k x h (omega (arith, room)) (omega (arith, fits)) in
      let e : k.published + 1 + rounds ≡ k.published + suc rounds = omega arith in
      let size : length (q ++ x ∷ []) ≡ length q + 1 = length-append q (x ∷ []) in
      let rest =
        publish_room rounds (i + 1) (try_publish cap b x).1 (q ++ x ∷ []) (publishes k 1) h'
          (omega (arith, size, room)) (omega (arith, fits)) in
      rw answer (rw (e, append_assoc q (x ∷ []) (events (i + 1) rounds)) at rest)

  -- Without, the loop stops at the first that finds the queue full.
  pub publish_stops :
      (rounds i : ℕ) (b : Broker OrderEvent) (q : List OrderEvent) (k : Counters)
      → Has cap b q k
      → length q ≤ cap
      → cap < length q + rounds
      → k.published + rounds < u64_mod
      → (publish_loop cap rounds i b).0 ≡ some full_status
  unfolding publish_loop Queue.push
  publish_stops zero i b q k h le more fits = absurd (omega arith)
  publish_stops (suc rounds) i b q k h le more fits =
      let x = make_event i in
      elim (Bool-cases (leb cap (length q))) [
        | inl is_full ↦
            let answer = (rw is_full at (try_publish_refines c b x h.valid h.holds)).0 in rw answer
        | inr free ↦
            let (answer, h') = publish_one b q k x h (ground (arith, free)) (omega (arith, fits)) in
            let size : length (q ++ x ∷ []) ≡ length q + 1 = length-append q (x ∷ []) in
            rw answer (
              publish_stops rounds (i + 1) (try_publish cap b x).1 (q ++ x ∷ []) (publishes k 1) h'
                (ground (arith, size, free)) (omega (arith, size, more)) (omega (arith, fits)))
      ]
