-- ===== src/Broker/Laws.antt =====
-- The broker against the bounded queue: its statuses, its queue and its counters on every branch.
use aether_stream.Common.{ℕ, ◌≡◌, refl, true, false, some, List, [], ◌∷◌, Bool, if◌then◌else◌}
use aether_stream.Core.Status.{Status, StatusCode, status_error, status_ok, is_ok}
use aether_stream.Metrics.Counters
use aether_stream.Metrics.Counters.{Counters}
use aether_stream.Ring
use aether_stream.Ring.{Ring}
use aether_stream.Ring.Queue
use aether_stream.Ring.Repr.{IsCapacity, Holds}
use aether_stream.Ring.Ops.{try_push_refines, try_pop_refines}
use aether_stream.Broker.{Broker, try_publish, try_consume, publish_answer}

abbrev pub full_status : Status
full_status = status_error StatusCode.full "broker queue is full"

abbrev pub empty_status : Status
empty_status = status_error StatusCode.empty "broker queue is empty"

-- The statuses and counters that answer to a push or pop of the bounded queue.
abbrev pub push_status : Bool → Status
push_status done = if done then status_ok else full_status

abbrev pub pop_status : Bool → Status
pop_status done = if done then status_ok else empty_status

abbrev pub count_push : Bool → Counters → Counters
count_push done c =
    if done then Counters.record_published c else Counters.record_publish_failed_full c

abbrev pub count_pop : Bool → Counters → Counters
count_pop done c =
    if done then Counters.record_consumed c else Counters.record_consume_failed_empty c

module _ {ℓ} {T : Type ℓ} {cap : ℕ} (c : IsCapacity cap) where
  publish_answer_lem :
      (b : Broker T) (q : List T) (done : Bool) (a : Bool × Ring T)
      → a.0 ≡ done
      → Holds cap a.1 q
      → let (status, b') = publish_answer cap b a in
        (status ≡ push_status done)
        × Holds cap b'.queue q
        × (b'.counters ≡ count_push done b.counters)
        × (b'.config_status ≡ b.config_status)
  publish_answer_lem b q done (true, r) e h = rw (← e) (refl, h, refl, refl)
  publish_answer_lem b q done (false, r) e h = rw (← e) (refl, h, refl, refl)

  -- A valid broker publishes as the bounded queue pushes: it answers ok and counts a published
  -- value with room, answers `full` and counts that without, and holds the queue that results.
  pub try_publish_refines :
      (b : Broker T) {q : List T} (x : T)
      → is_ok b.config_status ≡ true
      → Holds cap b.queue q
      → let (status, b') = try_publish cap b x in
        let (done, q') = Queue.push cap q x in
        (status ≡ push_status done)
        × Holds cap b'.queue q'
        × (b'.counters ≡ count_push done b.counters)
        × (b'.config_status ≡ b.config_status)
  unfolding try_publish
  try_publish_refines b {q} x v h =
      let (e, h') = try_push_refines c x h in
      rw v (publish_answer_lem b _ _ (Ring.try_push cap b.queue x) e h')

  -- A broker whose configuration was refused answers with that refusal, and changes nothing but
  -- the counter of invalid calls, whatever is published.
  pub try_publish_invalid :
      (b : Broker T) (x : T)
      → is_ok b.config_status ≡ false
      → try_publish cap b x ≡ (
        b.config_status,
        record b { counters = Counters.record_publish_failed_invalid b.counters },
      )
  unfolding try_publish
  try_publish_invalid b x v = rw v

  -- A valid broker consumes as the bounded queue pops, without undefined behaviour: the oldest
  -- value goes to `out`, or `empty` is answered and `out` is as it was.
  pub try_consume_refines :
      (b : Broker T) (q : List T) (out : T)
      → is_ok b.config_status ≡ true
      → Holds cap b.queue q
      → let (done, out', q') = Queue.pop q out in
        (b' : Broker T) × (try_consume cap b out ≡ some (pop_status done, out', b'))
        × Holds cap b'.queue q'
        × (b'.counters ≡ count_pop done b.counters)
        × (b'.config_status ≡ b.config_status)
  unfolding try_consume Queue.pop
  try_consume_refines b [] out v h =
      let (r, e, h') = try_pop_refines c [] out h in (_, rw (v, e), h', refl, refl)
  try_consume_refines b (x ∷ q) out v h =
      let (r, e, h') = try_pop_refines c (x ∷ q) out h in (_, rw (v, e), h', refl, refl)
