-- ===== src/Apps/Bench/Report.antt =====
-- What aether_bench reports: the counters of the broker agree with those of its threads.
use aether_stream.Common.{
  ℕ, zero, suc, ◌+◌, ◌≤◌, ◌<◌, ◌≡◌, refl, ap, ◌∙◌, Bool, true, false, if◌then◌else◌, some, List, [],
  ◌∷◌, ◌++◌, arith,
}
use aether_stream.Common.Schedule.{run_turns, run_turns-cons, run_turns-then}
use aether_stream.Core.Types.{u64_mod}
use aether_stream.Core.Config.{FilePath}
use aether_stream.Metrics.Counters
use aether_stream.Ring.Repr.{IsCapacity}
use aether_stream.Broker
use aether_stream.Cli.Text.{View, supported_capacities, supported_payload_sizes, is_supported}
use aether_stream.Cli.Options.{BenchOptions}
use aether_stream.Cli.Laws.{is_supported-Each, is_supported-TakesCapacity}
use aether_stream.Cli.Tools.{Tool}
use aether_stream.Cli.RoundTrip.{line, Printable, parse_args-line}
use aether_stream.Apps.Bench.{
  Bench, BenchResult, exited, terminated, Thread, producer, consumer, report, start, produce, turn,
  run_rounds, ended, when_ended, run, dispatch_capacity, dispatch, reported, behind_parse,
  bench_main,
}
use aether_stream.Apps.Bench.Rounds.{Flows, start-Flows, produce-Fed, consume-Taken}

-- The producer and the consumer in turn, so many times.
abbrev pub in_turn : ℕ → List Thread
in_turn zero = []
in_turn (suc n) = producer ∷ consumer ∷ in_turn n

-- All messages published and consumed, and as many refusals of the broker as retries.
abbrev pub agreed : ℕ → ℕ → ℕ → BenchResult
agreed messages full empty = record {
  full_retries = full;
  empty_retries = empty;
  metrics = record {
    published = messages;
    consumed = messages;
    publish_failed_full = full;
    consume_failed_empty = empty;
    publish_failed_invalid = 0;
    consume_failed_invalid = 0;
    wal_bytes_written = 0;
    wal_records_written = 0;
    wal_flushes = 0;
    wal_failures = 0;
    recovered_records = 0;
    recovery_failures = 0;
  };
}

module _ (size : ℕ) {cap messages : ℕ} (c : IsCapacity cap) (small : messages < u64_mod) where
  turn-Flows :
      (thread : Thread) (s : Bench)
      → Flows size c small s
      → (s' : Bench) × (turn size cap messages thread s ≡ some s') × Flows size c small s'
  unfolding turn
  turn-Flows producer s f = (_, refl, (produce-Fed size c small s f).0)
  turn-Flows consumer s f = let (s', e, (f', _, _)) = consume-Taken size c small s f in (s', e, f')

  -- After so many rounds of each thread all messages are through.
  in_turn_ends :
      (n : ℕ) (s : Bench)
      → Flows size c small s
      → messages ≤ s.received + n
      → (s' : Bench) × (run_rounds size cap messages (in_turn n) s ≡ some s')
        × Flows size c small s'
        × (messages ≤ s'.received)
  unfolding run_rounds turn run_turns
  in_turn_ends zero s f all = (s, refl, f, omega (arith, all))
  in_turn_ends (suc n) s f all =
      let (fed, same, more) = produce-Fed size c small s f in
      let (s', e, (f', _, taken)) = consume-Taken size c small (produce size cap messages s) fed in
      let (end, e', g, through) = in_turn_ends n s' f' (ground (arith, taken, more, same, all)) in
      (
        end,
        run_turns-cons (turn size cap messages) consumer (in_turn n) (produce size cap messages s)
              s' e
            ∙ e',
        g,
        through,
      )

  through_agreed :
      (s : Bench)
      → Flows size c small s
      → messages ≤ s.received
      → when_ended size cap messages (some s)
        ≡ some (agreed messages s.full_retries s.empty_retries)
  unfolding Broker.metrics_snapshot Counters.snapshot
  through_agreed s f through =
      let over : ended size cap messages s ≡ true = ground (arith, f.count, through) in
      let received : s.received ≡ messages = omega (arith, f.count, f.below, through) in
      let sent : s.sent ≡ messages = omega (arith, f.count, f.below, through) in
      rw (over, f.counted, sent, received)

  -- After any schedule, as many rounds of each thread in turn as there are messages end both
  -- loops.
  pub run-agreed :
      (schedule : List Thread)
      → (full empty : ℕ) × (run size cap messages (schedule ++ in_turn messages)
          ≡ some (agreed messages full empty))
  unfolding run run_rounds
  run-agreed schedule =
      let (s, e, (f, through)) =
        run_turns-then (turn size cap messages) (Flows size c small)
          (λ s. Flows size c small s × (messages ≤ s.received)) (in_turn messages) turn-Flows
          (λ s f.
            let (s', e, g, through) = in_turn_ends messages s f (omega arith) in
            (s', e, (g, through)))
          schedule (start size cap messages) (start-Flows size c small) in
      (
        s.full_retries,
        s.empty_retries,
        ap (when_ended size cap messages) e ∙ through_agreed s f through,
      )

-- The switches of `main` run the instance of a supported size.
dispatch_capacity-run :
    (size capacity messages : ℕ) (schedule : List Thread)
    → is_supported capacity supported_capacities ≡ true
    → dispatch_capacity size capacity messages schedule ≡ run size capacity messages schedule
unfolding dispatch_capacity
dispatch_capacity-run size capacity messages schedule =
    is_supported-Each
      (λ n. dispatch_capacity size n messages schedule ≡ run size n messages schedule) capacity
      supported_capacities (refl, (refl, (refl, (refl, (refl, tt)))))

dispatch-run :
    (o : BenchOptions) (schedule : List Thread)
    → is_supported o.payload_size supported_payload_sizes ≡ true
    → is_supported o.capacity supported_capacities ≡ true
    → dispatch o schedule ≡ run o.payload_size o.capacity o.messages schedule
unfolding dispatch
dispatch-run o schedule size capacity =
    is_supported-Each
      (λ n.
        dispatch (record o { payload_size = n }) schedule
        ≡ dispatch_capacity n o.capacity o.messages schedule)
      o.payload_size supported_payload_sizes (refl, (refl, (refl, (refl, (refl, tt))))) size
    ∙ dispatch_capacity-run o.payload_size o.capacity o.messages schedule capacity

supported-IsCapacity : (n : ℕ) → is_supported n supported_capacities ≡ true → IsCapacity n
supported-IsCapacity n h =
    let (k, pow, low, high) = is_supported-TakesCapacity n h in
    record { exponent = k; pow = pow; pos = omega arith; fits = omega arith }

-- aether_bench, called with options that an argument can give, no help asked for, ends under every
-- schedule of its threads that goes on with as many rounds of each in turn as there are messages.
-- If the directory for its results can be made, the exit code is 0, and it reports that all messages
-- were published and consumed, nothing else was counted, and the broker refused for a full and for an
-- empty queue as often as the threads retried; if not, the exception of `create_directories`
-- terminates it before it has reported anything.
pub bench_main_lem :
    (creates : FilePath → Bool) (program : View) (o : BenchOptions) (schedule : List Thread)
    → Printable Tool.bench o
    → o.help ≡ false
    → (full empty : ℕ) × (bench_main creates
          (program ∷ line Tool.bench o)
          (schedule ++ in_turn o.messages)
        ≡ some (
            if creates o.output_dir
            then exited 0
                (report o.messages o.payload_size o.capacity (agreed o.messages full empty))
            else terminated))
unfolding bench_main
bench_main_lem creates program o schedule printable no_help =
    let (path, small, size, capacity) = printable in
    let (full, empty, e) =
      run-agreed o.payload_size (supported-IsCapacity o.capacity capacity) small schedule in
    (
      full,
      empty,
      ap (λ r. behind_parse creates r (schedule ++ in_turn o.messages))
            (parse_args-line Tool.bench program o printable)
          ∙ simp no_help (
              ap (reported creates o)
                (dispatch-run o (schedule ++ in_turn o.messages) size capacity ∙ e)),
    )
