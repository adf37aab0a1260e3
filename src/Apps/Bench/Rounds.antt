-- ===== src/Apps/Bench/Rounds.antt =====
-- What a round of either thread of aether_bench does to the payloads on their way and to the counts.
use aether_stream.Common.{
  ℕ, zero, suc, ◌+◌, ◌%◌, ◌≤◌, ◌<◌, ◌≡◌, ◌⊎◌, inl, inr, refl, sym, ap, subst, ◌∙◌, ltb, leb, some,
  List, [], ◌∷◌, ◌++◌, length, Bool-cases, arith,
}
use aether_stream.Core.Types.{u64_mod}
use aether_stream.Core.Status.{Status, status_ok, is_ok}
use aether_stream.Metrics.Counters
use aether_stream.Metrics.Counters.{Counters, zero_counters}
use aether_stream.Ring.Queue
use aether_stream.Ring.Repr.{IsCapacity, Holds, init-Holds, cap_bounds}
use aether_stream.Broker.{Broker, try_publish, try_consume, default_broker}
use aether_stream.Broker.Laws.{full_status, try_publish_refines, try_consume_refines}
use aether_stream.Apps.Bench.{
  Payload, payload_of, Bench, start, published, produce, consumed, consume,
}

module _ (size : ℕ) where
  -- The payloads of so many messages from one on, and that of the last one before it.
  abbrev pub payloads : ℕ → ℕ → List Payload
  payloads a zero = []
  payloads a (suc n) = payload_of size a ∷ payloads (a + 1) n

  pub length-payloads : (a n : ℕ) → length (payloads a n) ≡ n
  length-payloads a zero = refl
  length-payloads a (suc n) = ap suc (length-payloads (a + 1) n)

  payloads-snoc : (a n : ℕ) → payloads a n ++ payload_of size (a + n) ∷ [] ≡ payloads a (suc n)
  payloads-snoc a zero = let e : a + 0 ≡ a = omega arith in rw e
  payloads-snoc a (suc n) =
      let e : a + suc n ≡ a + 1 + n = omega arith in
      rw e (ap (λ l. payload_of size a ∷ l) (payloads-snoc (a + 1) n))

-- The counters of the broker after so many messages and refusals.
abbrev pub tally : ℕ → ℕ → ℕ → ℕ → Counters
tally sent received full empty = record zero_counters {
  published = sent;
  consumed = received;
  publish_failed_full = full;
  consume_failed_empty = empty;
}

module _ (size : ℕ) {cap messages : ℕ} (c : IsCapacity cap) (small : messages < u64_mod) where
  -- The broker holds the payloads that are sent and not received, and its counters are those of the
  -- threads.
  pub record Flows (s : Bench) : Type 0 where
    pub inside : ℕ
    pub holds : Holds cap s.broker.queue (payloads size s.received inside)
    pub count : s.sent ≡ s.received + inside
    pub below : s.sent ≤ messages
    pub sound : s.broker.config_status ≡ status_ok
    pub counted : s.broker.counters ≡ tally s.sent s.received s.full_retries s.empty_retries

  pub start-Flows : Flows (start size cap messages)
  unfolding default_broker
  start-Flows = record {
    inside = 0;
    holds = init-Holds cap c;
    count = omega arith;
    below = omega arith;
    sound = refl;
    counted = refl;
  }

  -- What the producer's round leaves: also a payload for the consumer, unless all are received.
  abbrev pub Fed : Bench → Bench → Type 0
  Fed s s' =
      Flows s' × (s'.received ≡ s.received) × ((messages ≤ s.received) ⊎ (s.received < s'.sent))

  published-Fed :
      (s : Bench) (f : Flows s) (broker : Broker Payload)
      → s.sent < messages
      → Holds cap broker.queue (payloads size s.received (suc f.inside))
      → broker.counters ≡ Counters.record_published s.broker.counters
      → broker.config_status ≡ s.broker.config_status
      → Fed s (published size cap messages s (status_ok, broker))
  unfolding Counters.record_published
  published-Fed s f broker more h counters config =
      let next : (s.sent + 1) % u64_mod ≡ s.sent + 1 = omega (arith, more, small) in
      (
        record {
          inside = suc f.inside;
          holds = h;
          count = omega (arith, next, f.count);
          below = omega (arith, next, more);
          sound = config ∙ f.sound;
          counted = counters ∙ ap Counters.record_published f.counted;
        },
        refl,
        inr (omega (arith, next, f.count)),
      )

  refused-Fed :
      (s : Bench) (f : Flows s) (broker : Broker Payload)
      → 0 < f.inside
      → Holds cap broker.queue (payloads size s.received f.inside)
      → broker.counters ≡ Counters.record_publish_failed_full s.broker.counters
      → broker.config_status ≡ s.broker.config_status
      → Fed s (published size cap messages s (full_status, broker))
  unfolding Counters.record_publish_failed_full
  refused-Fed s f broker pos h counters config = (
    record {
      inside = f.inside;
      holds = h;
      count = f.count;
      below = f.below;
      sound = config ∙ f.sound;
      counted = counters ∙ ap Counters.record_publish_failed_full f.counted;
    },
    refl,
    inr (omega (arith, f.count, pos)),
  )

  pub produce-Fed : (s : Bench) → Flows s → Fed s (produce size cap messages s)
  unfolding produce Queue.push
  produce-Fed s f = elim (Bool-cases (ltb s.sent messages)) [
    | inr over ↦ rw over (f, refl, ground (arith, over, f.count))
    | inl more ↦
        let x = payload_of size s.sent in
        let r = try_publish cap s.broker x in
        let q = payloads size s.received f.inside in
        let long = length-payloads size s.received f.inside in
        let (answer, h, counters, config) =
          try_publish_refines c s.broker x (ap is_ok f.sound) f.holds in
        let P : Status → Type 0 = λ status. Fed s (published size cap messages s (status, r.1)) in
        rw more (elim (Bool-cases (leb cap (length q))) [
          | inl is_full ↦ subst P (sym (rw is_full at answer)) (
              refused-Fed s f r.1 (ground (arith, is_full, long, cap_bounds c)) (rw is_full at h)
                (rw is_full at counters) config)
          | inr room ↦
              let last : q ++ x ∷ [] ≡ payloads size s.received (suc f.inside) =
                ap (λ n. q ++ payload_of size n ∷ []) f.count
                ∙ payloads-snoc size s.received f.inside in
              subst P (sym (rw room at answer)) (
                published-Fed s f r.1 (ground (arith, more))
                  (subst (Holds cap r.1.queue) last (rw room at h)) (rw room at counters) config)
        ])
  ]

  -- What the consumer's round leaves: one payload less in the queue, which the consumer has, unless
  -- there is none.
  abbrev pub Taken : Bench → Bench → Type 0
  Taken s s' =
      Flows s'
      × (s'.sent ≡ s.sent)
      × (((s'.received ≡ s.received) × (s.sent ≤ s.received) × (s'.payload ≡ s.payload))
          ⊎ ((s'.received ≡ s.received + 1) × (s'.payload ≡ payload_of size s.received)))

  pop_Taken :
      (s : Bench) (n : ℕ)
      → Holds cap s.broker.queue (payloads size s.received n)
      → s.sent ≡ s.received + n
      → s.sent ≤ messages
      → s.broker.config_status ≡ status_ok
      → s.broker.counters ≡ tally s.sent s.received s.full_retries s.empty_retries
      → (s' : Bench) × (consumed size cap messages s (try_consume cap s.broker s.payload) ≡ some s')
        × Taken s s'
  unfolding Queue.pop Counters.record_consumed Counters.record_consume_failed_empty
  pop_Taken s zero h count below sound counted =
      let (broker, e, h', counters, config) =
        try_consume_refines c s.broker [] s.payload (ap is_ok sound) h in
      (
        _,
        ap (consumed size cap messages s) e,
        (
          record {
            inside = 0;
            holds = h';
            count = count;
            below = below;
            sound = config ∙ sound;
            counted = counters ∙ ap Counters.record_consume_failed_empty counted;
          },
          refl,
          inl (refl, omega (arith, count), refl),
        ),
      )
  pop_Taken s (suc n) h count below sound counted =
      let (broker, e, h', counters, config) =
        try_consume_refines c s.broker (payloads size s.received (suc n)) s.payload (ap is_ok sound)
          h in
      let next : (s.received + 1) % u64_mod ≡ s.received + 1 = omega (arith, count, below, small) in
      (
        _,
        ap (consumed size cap messages s) e,
        (
          record {
            inside = n;
            holds = rw next h';
            count = omega (arith, count, next);
            below = below;
            sound = config ∙ sound;
            counted = counters ∙ ap Counters.record_consumed counted;
          },
          refl,
          inr (next, refl),
        ),
      )

  pub consume-Taken :
      (s : Bench) → Flows s → (s' : Bench) × (consume size cap messages s ≡ some s') × Taken s s'
  unfolding consume
  consume-Taken s f = elim (Bool-cases (ltb s.received messages)) [
    | inl more ↦ rw more (pop_Taken s f.inside f.holds f.count f.below f.sound f.counted)
    | inr over ↦ rw over (s, refl, (f, refl, inl (refl, ground (arith, over, f.below), refl)))
  ]
