-- ===== src/Apps/Bench.antt =====
-- apps/aether_bench.cpp: one thread publishes payloads into a broker and the other consumes them. A
-- schedule says which thread makes its next round, which is one pass of its loop. The times that
-- it measures, and the file that repeats what it prints, are left out; that the directory of that
-- file cannot be made is not.
pub mod Rounds
pub mod Report
use aether_stream.Common.{
  ℕ, ◌+◌, ◌%◌, Bool, not, ◌==◌, ltb, ◌&&◌, if◌then◌else◌, Option, none, some, List, [], ◌∷◌, set,
  replicate, String,
}
use aether_stream.Common.Schedule.{run_turns}
use aether_stream.Core.Types.{u64_mod}
use aether_stream.Core.Status.{Status, StatusCode, code_eq, is_ok}
use aether_stream.Core.Config.{FilePath}
use aether_stream.Core.Expected.{Expected, value, error}
use aether_stream.Metrics.Counters
use aether_stream.Metrics.Counters.{Snapshot, zero_counters}
use aether_stream.Broker.{Broker, default_broker, try_publish, try_consume, metrics_snapshot}
use aether_stream.Cli.Text.{View}
use aether_stream.Cli.Options.{BenchOptions}
use aether_stream.Cli.Parse.{parse_bench_args}
use aether_stream.Cli.Help.{bench_help}

-- `Payload<N>`: its bytes.
abbrev pub Payload : Type 0
Payload = List ℕ

abbrev pub no_payload : ℕ → Payload
no_payload size = replicate size 0

-- The payload of a message: the low byte of its number, then zeros.
abbrev pub payload_of : ℕ → ℕ → Payload
payload_of size i = set (no_payload size) 0 (i % 256)

-- `Result`, without the times.
pub record BenchResult : Type 0 where
  pub full_retries : ℕ
  pub empty_retries : ℕ
  pub metrics : Snapshot

-- `Result{}`.
unfoldable pub no_result : BenchResult
unfolding Counters.snapshot
no_result = record {
  full_retries = 0;
  empty_retries = 0;
  metrics = Counters.snapshot zero_counters;
}

-- The broker, the atomics, and the variables of the two threads: the number of each, and the
-- consumer's payload.
pub record Bench : Type 0 where
  pub broker : Broker Payload
  pub full_retries : ℕ
  pub empty_retries : ℕ
  pub sent : ℕ
  pub received : ℕ
  pub payload : Payload

pub data Thread : Type 0 where
  producer consumer : Thread

-- What `main` prints.
pub data Output : Type 0 where
  failed : Status → Output
  help_text : String → Output
  report : (messages payload_size capacity : ℕ) (result : BenchResult) → Output

module _ (size cap messages : ℕ) where
  abbrev pub start : Bench
  start = record {
    broker = default_broker cap;
    full_retries = 0;
    empty_retries = 0;
    sent = 0;
    received = 0;
    payload = no_payload size;
  }

  abbrev pub published : Bench → Status × Broker Payload → Bench
  published s (status, broker) =
      if is_ok status
      then record s { broker = broker; sent = (s.sent + 1) % u64_mod }
      else if code_eq status.code StatusCode.full
      then record s { broker = broker; full_retries = (s.full_retries + 1) % u64_mod }
      else record s { broker = broker }

  -- A round of the producer; a thread whose loop has ended rests.
  unfoldable pub produce : Bench → Bench
  produce s =
      if ltb s.sent messages
      then published s (try_publish cap s.broker (payload_of size s.sent))
      else s

  abbrev pub consumed : Bench → Option (Status × Payload × Broker Payload) → Option Bench
  consumed s none = none
  consumed s (some (status, payload, broker)) = some (
      if is_ok status
      then record s { broker = broker; received = (s.received + 1) % u64_mod; payload = payload }
      else if code_eq status.code StatusCode.empty
      then record s {
        broker = broker;
        empty_retries = (s.empty_retries + 1) % u64_mod;
        payload = payload;
      }
      else record s { broker = broker; payload = payload })

  -- A round of the consumer; `none` is undefined behaviour of the ring.
  unfoldable pub consume : Bench → Option Bench
  consume s =
      if ltb s.received messages then consumed s (try_consume cap s.broker s.payload) else some s

  unfoldable pub turn : Thread → Bench → Option Bench
  turn producer s = some (produce s)
  turn consumer s = consume s

  -- The rounds of a schedule.
  unfoldable pub run_rounds : List Thread → Bench → Option Bench
  unfolding turn
  run_rounds schedule s = run_turns turn schedule s

  -- Both loops have ended, so that `join` returns.
  abbrev pub ended : Bench → Bool
  ended s = not (ltb s.sent messages) && not (ltb s.received messages)

  abbrev pub result_of : Bench → BenchResult
  result_of s = record {
    full_retries = s.full_retries;
    empty_retries = s.empty_retries;
    metrics = metrics_snapshot cap s.broker;
  }

  abbrev pub when_ended : Option Bench → Option BenchResult
  when_ended none = none
  when_ended (some s) = if ended s then some (result_of s) else none

  -- `run<PayloadSize, Capacity>` under a schedule, when that is long enough for both joins.
  unfoldable pub run : List Thread → Option BenchResult
  run schedule = when_ended (run_rounds schedule start)

-- `dispatch_capacity<PayloadSize>`.
unfoldable pub dispatch_capacity : ℕ → ℕ → ℕ → List Thread → Option BenchResult
dispatch_capacity size capacity messages schedule =
    if capacity == 64
    then run size 64 messages schedule
    else if capacity == 256
    then run size 256 messages schedule
    else if capacity == 1024
    then run size 1024 messages schedule
    else if capacity == 4096
    then run size 4096 messages schedule
    else if capacity == 65536
    then run size 65536 messages schedule
    else some no_result

unfoldable pub dispatch : BenchOptions → List Thread → Option BenchResult
dispatch options schedule =
    let on : ℕ → Option BenchResult =
      λ size. dispatch_capacity size options.capacity options.messages schedule in
    if options.payload_size == 8
    then on 8
    else if options.payload_size == 32
    then on 32
    else if options.payload_size == 64
    then on 64
    else if options.payload_size == 256
    then on 256
    else if options.payload_size == 1024
    then on 1024
    else some no_result

-- How the program ends: `main` returns a code behind what it has printed, or an exception leaves
-- `main`, which terminates the program.
pub data Ending : Type 0 where
  exited : (code : ℕ) → Output → Ending
  terminated : Ending

-- `std::filesystem::create_directories`: whether it returns for a path; if not, it throws.
module _ (creates : FilePath → Bool) where
  -- Behind the run the directory is made, and only then the result is printed.
  abbrev pub reported : BenchOptions → Option BenchResult → Option Ending
  reported options none = none
  reported options (some result) = some (
      if creates options.output_dir
      then exited 0 (report options.messages options.payload_size options.capacity result)
      else terminated)

  -- The part of `main` behind the parser.
  abbrev pub behind_parse : Option (Expected BenchOptions) → List Thread → Option Ending
  behind_parse none schedule = none
  behind_parse (some (error s)) schedule = some (exited 2 (failed s))
  behind_parse (some (value options)) schedule =
      if options.help
      then some (exited 0 (help_text bench_help))
      else reported options (dispatch options schedule)

  -- `main`; `none` where the schedule or the rounds of the parser are too few.
  unfoldable pub bench_main : List View → List Thread → Option Ending
  bench_main args schedule = behind_parse (parse_bench_args args) schedule
