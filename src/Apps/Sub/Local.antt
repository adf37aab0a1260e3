-- ===== src/Apps/Sub/Local.antt =====
-- What the local demo of aether_sub does with a queue that takes all its messages, and with one
-- that does not.
use aether_stream.Common.{
  ℕ, zero, suc, ◌+◌, ◌-◌, ◌%◌, ◌<◌, ◌≤◌, ◌≡◌, refl, ap, ◌∙◌, ltb, leb, if◌then◌else◌, Option, none,
  some, List, [], ◌∷◌, ◌++◌, append_assoc, append-nil, length, take, arith, Bool-cases, inl, inr,
}
use aether_stream.Core.Types.{u64_mod}
use aether_stream.Core.Status.{Status, status_ok}
use aether_stream.Metrics.Counters
use aether_stream.Metrics.Counters.{Counters, zero_counters}
use aether_stream.Ring.Queue
use aether_stream.Ring.Repr.{IsCapacity, init-Holds}
use aether_stream.Broker.{Broker, default_broker, try_consume, metrics_snapshot}
use aether_stream.Broker.Laws.{full_status, try_consume_refines}
use aether_stream.Cli.Options.{SubOptions}
use aether_stream.Apps.Sub.{
  OrderEvent, no_event, Summary, not_published, summary, publish_loop, consume_loop, report,
  behind_publish, run_local,
}
use aether_stream.Apps.Sub.Publishing.{events, Has, publishes, publish_room, publish_stops}

-- What the demo is to print when the queue takes all messages.
abbrev pub all_consumed : SubOptions → Summary
all_consumed o = record {
  printed = take o.limit (events 0 o.messages);
  produced = o.messages;
  consumed = o.messages;
  suppressed = o.messages - o.limit;
  published_metric = o.messages;
  consumed_metric = o.messages;
  full_metric = 0;
  empty_metric = 0;
}

-- What has been printed after one more value, of which the first `limit` are printed.
module _ {ℓ} {T : Type ℓ} where
  abbrev pub print_event : ℕ → ℕ → List T → T → List T
  print_event limit consumed printed x = if ltb consumed limit then printed ++ x ∷ [] else printed

  pub take-nil : (n : ℕ) → take {A = T} n [] ≡ []
  take-nil zero = refl
  take-nil (suc n) = refl

  pub printed_more :
      (limit consumed : ℕ) (printed : List T) (x : T) (q : List T)
      → print_event limit consumed printed x ++ take (limit - (consumed + 1)) q
        ≡ printed ++ take (limit - consumed) (x ∷ q)
  printed_more limit consumed printed x q = elim (Bool-cases (ltb consumed limit)) [
    | inl below ↦
        let e : limit - consumed ≡ suc (limit - (consumed + 1)) = ground (arith, below) in
        rw (below, e) (append_assoc printed (x ∷ []) (take (limit - (consumed + 1)) q))
    | inr above ↦
        let e : limit - consumed ≡ 0 = ground (arith, above) in
        let e' : limit - (consumed + 1) ≡ 0 = ground (arith, above) in rw (above, e, e')
  ]

module _ {cap : ℕ} (c : IsCapacity cap) where
  abbrev consumes : Counters → ℕ → Counters
  consumes k n = record k { consumed = k.consumed + n }

  abbrev Consumed :
      ℕ
      → List OrderEvent
      → ℕ
      → List OrderEvent
      → Counters
      → Option (Option Status × List OrderEvent × ℕ × Broker OrderEvent)
      → Type 0
  Consumed limit q consumed printed k out =
      (b : Broker OrderEvent) × (n : ℕ) × (out
        ≡ some (none, printed ++ take (limit - consumed) q, n, b))
      × (n ≡ consumed + length q)
      × (b.counters ≡ consumes k (length q))

  consume_step :
      (limit rounds consumed : ℕ) (printed : List OrderEvent) (b b' : Broker OrderEvent)
      (x : OrderEvent)
      → try_consume cap b no_event ≡ some (status_ok, x, b')
      → consume_loop cap limit (suc rounds) consumed printed b
        ≡ consume_loop cap limit rounds (consumed + 1) (print_event limit consumed printed x) b'
  unfolding consume_loop
  consume_step limit rounds consumed printed b b' x e = rw (e, consume_loop)

  consume_one :
      (b : Broker OrderEvent) (x : OrderEvent) (q : List OrderEvent) (k : Counters)
      → Has cap b (x ∷ q) k
      → k.consumed + 1 < u64_mod
      → (b' : Broker OrderEvent) × (try_consume cap b no_event ≡ some (status_ok, x, b'))
        × Has cap b' q (consumes k 1)
  unfolding Queue.pop Counters.record_consumed
  consume_one b x q k h fits =
      let (b', e, holds, counts, status) =
        try_consume_refines c b (x ∷ q) no_event h.valid h.holds in
      let one : (k.consumed + 1) % u64_mod ≡ k.consumed + 1 = omega (arith, fits) in
      (
        b',
        e,
        record { valid = rw status h.valid; holds = holds; counts = counts ∙ rw (h.counts, one) },
      )

  -- As many events as the broker holds are consumed, and the first of them printed.
  consume_all :
      (limit : ℕ) (q : List OrderEvent) (consumed : ℕ) (printed : List OrderEvent)
      (b : Broker OrderEvent) (k : Counters)
      → Has cap b q k
      → k.consumed + length q < u64_mod
      → Consumed limit q consumed printed k (consume_loop cap limit (length q) consumed printed b)
  consume_all limit [] consumed printed b k h fits =
      let e : k.consumed + 0 ≡ k.consumed = omega arith in
      (
        b,
        consumed,
        unfold consume_loop in rw (take-nil (limit - consumed), append-nil printed),
        omega arith,
        rw e h.counts,
      )
  consume_all limit (x ∷ q) consumed printed b k h fits =
      let (b', e, h') = consume_one b x q k h (omega (arith, fits)) in
      let more : k.consumed + 1 + length q ≡ k.consumed + suc (length q) = omega arith in
      let (end, n, out, counted, counts) =
        consume_all limit q (consumed + 1) (print_event limit consumed printed x) b' (consumes k 1)
          h' (omega (arith, fits)) in
      (
        end,
        n,
        consume_step limit (length q) consumed printed b b' x e
            ∙ out
            ∙ ap (λ (l : List OrderEvent). some (none, l, n, end))
                (printed_more limit consumed printed x q),
        omega (arith, counted),
        counts ∙ rw more,
      )

  default-Has : Has cap (default_broker cap) [] zero_counters
  unfolding default_broker
  default-Has = record { valid = refl; holds = init-Holds cap c; counts = refl }

  length-events : (i n : ℕ) → length (events i n) ≡ n
  length-events i zero = refl
  length-events i (suc n) = ap suc (length-events (i + 1) n)

  behind_stopped :
      (o : SubOptions) (p : Option Status × Broker OrderEvent) (s : Status)
      → p.0 ≡ some s
      → behind_publish cap o p ≡ some (1, not_published s)
  behind_stopped o (k, b) s e = ap (λ (k : Option Status). behind_publish cap o (k, b)) e

  behind_room :
      (o : SubOptions) (p : Option Status × Broker OrderEvent)
      (end : Option Status × List OrderEvent × ℕ × Broker OrderEvent)
      → p.0 ≡ none
      → consume_loop cap o.limit o.messages 0 [] p.1 ≡ some end
      → behind_publish cap o p ≡ some (report cap o end)
  behind_room o (k, b) end e out =
      ap (λ (k : Option Status). behind_publish cap o (k, b)) e ∙ rw (out, behind_publish)

  report_eq :
      (o : SubOptions) (n : ℕ) (b : Broker OrderEvent)
      → n ≡ o.messages
      → b.counters ≡ consumes (publishes zero_counters o.messages) o.messages
      → report cap o (none, take (o.limit - 0) (events 0 o.messages), n, b)
        ≡ (0, summary (all_consumed o))
  unfolding metrics_snapshot Counters.snapshot
  report_eq o n b counted counts =
      let e : (if ltb o.limit o.messages then o.messages - o.limit else 0) ≡ o.messages - o.limit =
        ground arith in
      let zero_more : 0 + o.messages ≡ o.messages = omega arith in
      let zero_less : o.limit - 0 ≡ o.limit = omega arith in
      rw (counted, counts, zero_more, zero_less, e)

  run_room :
      (o : SubOptions)
      → o.messages < u64_mod
      → o.messages ≤ cap
      → run_local cap o ≡ some (0, summary (all_consumed o))
  unfolding run_local
  run_room o fits room =
      let p = publish_loop cap o.messages 0 (default_broker cap) in
      let (ok, h) =
        publish_room c o.messages 0 (default_broker cap) [] zero_counters default-Has
          (omega (arith, room)) (omega (arith, fits)) in
      let size = length-events 0 o.messages in
      let (b, n, out, counted, counts) = rw size at (
        consume_all o.limit (events 0 o.messages) 0 [] p.1 (publishes zero_counters o.messages) h
          (omega (arith, size, fits))) in
      behind_room o p _ ok out ∙ ap some (report_eq o n b (omega (arith, counted)) counts)

  run_stops :
      (o : SubOptions)
      → o.messages < u64_mod
      → cap < o.messages
      → run_local cap o ≡ some (1, not_published full_status)
  unfolding run_local
  run_stops o fits more =
      behind_stopped o (publish_loop cap o.messages 0 (default_broker cap)) full_status (
        publish_stops c o.messages 0 (default_broker cap) [] zero_counters default-Has (omega arith)
          (omega (arith, more)) (omega (arith, fits)))

  -- The local demo on a queue that takes all its messages consumes each of them, in order, prints
  -- the first `--limit` and counts all; with more messages than that it stops at the first that
  -- finds the queue full, consumes nothing and exits with 1.
  pub run_local_lem :
      (o : SubOptions)
      → o.messages < u64_mod
      → run_local cap o
        ≡ some (
            if leb o.messages cap
            then (0, summary (all_consumed o))
            else (1, not_published full_status))
  run_local_lem o fits = elim (Bool-cases (leb o.messages cap)) [
    | inl room ↦ rw room (run_room o fits (ground (arith, room)))
    | inr more ↦ rw more (run_stops o fits (ground (arith, more)))
  ]
