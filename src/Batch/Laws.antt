-- ===== src/Batch/Laws.antt =====
-- The batch calls against the bounded queue: how many values they move, which, and what they count.
use aether_stream.Common.{
  ℕ, zero, suc, ◌+◌, ◌-◌, ◌≤◌, min, ◌≡◌, refl, ap, ◌∙◌, true, false, some, List, [], ◌∷◌, ◌++◌,
  append_assoc, append-nil, length, length-append, take, drop, leb, ltb, arith, Bool-cases, inl,
  inr, if◌then◌else◌, is_empty, ◌==◌, ltb-zero-suc, ltb-suc-suc,
}
use native.Mathlib.Nat.{add-zero}
use aether_stream.Core.Status.{is_ok}
use aether_stream.Metrics.Counters
use aether_stream.Metrics.Counters.{Counters}
use aether_stream.Ring.{Ring, try_pop, next_size}
use aether_stream.Ring.Queue
use aether_stream.Ring.Repr.{IsCapacity, Holds, cap_bounds}
use aether_stream.Ring.Ops.{try_push_full, try_push_room, try_pop_refines}
use aether_stream.Batch.{
  BatchBroker, publish_loop, try_publish_batch, consume_loop, try_consume_batch, after_push,
  after_pop,
}

-- `n` increments in a row.
abbrev pub times : ℕ → (Counters → Counters) → Counters → Counters
times zero f c = c
times (suc n) f c = times n f (f c)

-- How many messages of a batch fit.
abbrev pub fitting {ℓ} : {T : Type ℓ} → ℕ → List T → List T → ℕ
fitting cap q messages = min (length messages) (cap - length q)

module _ {ℓ} {T : Type ℓ} {cap : ℕ} (c : IsCapacity cap) where
  -- What the loop has done when it stops after `n` more values, started with `k` published.
  record Published (b : BatchBroker T) (q ms : List T) (k n : ℕ) (r : ℕ × BatchBroker T)
      : Type ℓ where
    count : r.0 ≡ k + n
    holds : Holds cap r.1.queue (q ++ take n ms)
    counted : r.1.counters ≡ (
        if ltb n (length ms)
        then Counters.record_publish_failed_full (times n Counters.record_published b.counters)
        else times n Counters.record_published b.counters)
    status : r.1.config_status ≡ b.config_status

  publish_loop-Published :
      (b : BatchBroker T) (q ms : List T) (k n : ℕ)
      → Holds cap b.queue q
      → k ≤ length q
      → n ≡ fitting cap q ms
      → Published b q ms k n (publish_loop cap b ms k)
  unfolding publish_loop
  publish_loop-Published b q [] k n h le e =
      let z : n ≡ 0 = omega arith in
      rw z (record { count = omega arith; holds = rw append-nil h; counted = refl; status = refl })
  publish_loop-Published b q (m ∷ ms) k n h le f = elim (Bool-cases (leb cap (length q))) [
    | inl is_full ↦
        let z : n ≡ 0 = ground arith in
        rw (z, try_push_full c m h is_full)
          (record {
            count = omega arith;
            holds = rw append-nil h;
            counted = rw (ltb-zero-suc (length ms));
            status = refl;
          })
    | inr room ↦
        let (r, e, h') = try_push_room c m h room in
        let len = length-append q (m ∷ []) in
        let s : n ≡ suc (n - 1) = ground arith in
        let k' : next_size k ≡ k + 1 = ground (arith, cap_bounds c) in
        let ih =
          publish_loop-Published (after_push cap b r) (q ++ m ∷ []) ms (k + 1) (n - 1) h'
            (omega arith) (ground arith) in
        rw (s, e, k')
          (record {
            count = omega (arith, ih.count);
            holds = rw (← append_assoc q (m ∷ []) (take (n - 1) ms)) ih.holds;
            counted = rw (ltb-suc-suc (n - 1) (length ms)) ih.counted;
            status = ih.status;
          })
  ]

  -- A valid broker publishes as much of a batch as fits, from its front and in order: it answers
  -- that number, holds those values behind the ones it held, counts each of them, and counts one
  -- refusal exactly when a message was left over.
  pub try_publish_batch_lem :
      (b : BatchBroker T) {q : List T} (ms : List T)
      → is_ok b.config_status ≡ true
      → Holds cap b.queue q
      → let (n, b') = try_publish_batch cap b ms in
        (n ≡ fitting cap q ms)
        × Holds cap b'.queue (q ++ take n ms)
        × (b'.counters ≡ (
            if ltb n (length ms)
            then Counters.record_publish_failed_full (times n Counters.record_published b.counters)
            else times n Counters.record_published b.counters))
        × (b'.config_status ≡ b.config_status)
  unfolding try_publish_batch
  try_publish_batch_lem b {q} [] v h = (omega arith, rw append-nil h, refl, refl)
  try_publish_batch_lem b {q} (m ∷ ms) v h =
      let done = publish_loop-Published b q (m ∷ ms) 0 _ h (omega arith) refl in
      let e : (publish_loop cap b (m ∷ ms) 0).0 ≡ fitting cap q (m ∷ ms) =
        omega (arith, done.count) in
      rw v (e, rw e done.holds, rw e done.counted, done.status)

  -- What the loop of a batch of pops has done when it stops.
  record Consumed (b : BatchBroker T) (q out : List T) (k n : ℕ) (b' : BatchBroker T) : Type ℓ where
    result : consume_loop cap b out k ≡ some (k + n, take n q ++ drop n out, b')
    holds : Holds cap b'.queue (drop n q)
    counted : b'.counters ≡ times n Counters.record_consumed b.counters
    status : b'.config_status ≡ b.config_status

  -- One round that pops a value, and those after it.
  consume_step :
      (b b' : BatchBroker T) (y : T) (q : List T) (x : T) (out : List T) (k m : ℕ) (r : Ring T)
      → try_pop cap b.queue x ≡ some (true, y, r)
      → next_size k ≡ k + 1
      → Consumed (after_pop cap b r) q out (k + 1) m b'
      → Consumed b (y ∷ q) (x ∷ out) k (suc m) b'
  unfolding consume_loop
  consume_step b b' y q x out k m r p k' ih =
      let sum : k + 1 + m ≡ k + suc m = omega arith in
      record {
        result = rw (p, consume_loop, k', ih.result, sum);
        holds = ih.holds;
        counted = ih.counted;
        status = ih.status;
      }

  consume_loop-Consumed :
      (b : BatchBroker T) (q out : List T) (k n : ℕ)
      → Holds cap b.queue q
      → k + length q ≤ cap
      → n ≡ min (length out) (length q)
      → (b' : BatchBroker T) × Consumed b q out k n b'
  unfolding consume_loop Queue.pop
  consume_loop-Consumed b q [] k n h le e =
      let z : n ≡ 0 = omega arith in
      (b, rw z (record { result = rw add-zero; holds = h; counted = refl; status = refl }))
  consume_loop-Consumed b [] (x ∷ out) k n h le e =
      let z : n ≡ 0 = omega arith in
      let (r, p, h') = try_pop_refines c [] x h in
      (
        record b { queue = r },
        rw z (record {
          result = rw (add-zero, p, consume_loop);
          holds = h';
          counted = refl;
          status = refl;
        }),
      )
  consume_loop-Consumed b (y ∷ q) (x ∷ out) k zero h le e = absurd (omega arith)
  consume_loop-Consumed b (y ∷ q) (x ∷ out) k (suc m) h le e =
      let (r, p, h') = try_pop_refines c (y ∷ q) x h in
      let (b', ih) =
        consume_loop-Consumed (after_pop cap b r) q out (k + 1) m h' (omega arith) (omega arith) in
      (b', consume_step b b' y q x out k m r p (omega (arith, cap_bounds c)) ih)

  -- What stands behind the loop, for a count that is known.
  batch_result :
      (b b' : BatchBroker T) (q : List T) (x : T) (out : List T) (n : ℕ)
      → is_ok b.config_status ≡ true
      → n ≡ min (length (x ∷ out)) (length q)
      → Consumed b q (x ∷ out) 0 n b'
      → (b'' : BatchBroker T) × (try_consume_batch cap b (x ∷ out)
          ≡ some (n, take n q ++ drop n (x ∷ out), b''))
        × Holds cap b''.queue (drop n q)
        × (b''.counters ≡ (
            if is_empty q
            then Counters.record_consume_failed_empty b.counters
            else times n Counters.record_consumed b.counters))
        × (b''.config_status ≡ b.config_status)
  unfolding try_consume_batch
  batch_result b b' [] x out n v e done =
      let z : n ≡ 0 = omega arith in
      let none_counted : b'.counters ≡ b.counters = done.counted ∙ rw z in
      (
        record b' { counters = Counters.record_consume_failed_empty b'.counters },
        rw (v, done.result, z),
        done.holds,
        ap Counters.record_consume_failed_empty none_counted,
        done.status,
      )
  batch_result b b' (y ∷ q) x out n v e done =
      let some_counted : (0 + n == 0) ≡ false = ground arith in
      let sum : 0 + n ≡ n = omega arith in
      (b', rw (v, done.result, some_counted, sum), done.holds, done.counted, done.status)

  -- A valid broker consumes as many of its oldest values as the span has places, in order into its
  -- front, and leaves the other places alone; it counts each value, or one failure when there was
  -- none at all.
  pub try_consume_batch_lem :
      (b : BatchBroker T) (q : List T) (x : T) (out : List T)
      → is_ok b.config_status ≡ true
      → Holds cap b.queue q
      → let n = min (length (x ∷ out)) (length q) in
        (b' : BatchBroker T) × (try_consume_batch cap b (x ∷ out)
          ≡ some (n, take n q ++ drop n (x ∷ out), b'))
        × Holds cap b'.queue (drop n q)
        × (b'.counters ≡ (
            if is_empty q
            then Counters.record_consume_failed_empty b.counters
            else times n Counters.record_consumed b.counters))
        × (b'.config_status ≡ b.config_status)
  try_consume_batch_lem b q x out v h =
      let (b', done) = consume_loop-Consumed b q (x ∷ out) 0 _ h (omega (arith, h.bounded)) refl in
      batch_result b b' q x out _ v refl done
