-- ===== src/Tests/Tools.antt =====
-- The stress tool and aether_bench under short schedules.
use aether_stream.Common.{
  ℕ, Bool, ◌≤◌, ◌≡◌, refl, true, false, some, List, [], ◌∷◌, ◌++◌, codes, arith,
}
use aether_stream.Cli.Text.{View, is_supported}
use aether_stream.Tools.Stress.{
  Options, Stress, Thread, producer, consumer, start, run, ended, passed, stress_main,
}
use aether_stream.Tools.Stress.Passes.{in_turn, stress_safe}
use aether_stream.Tools.Stress.Main.{line, stress_main_passes}
use aether_stream.Cli.Text.{starts_with}
use aether_stream.Cli.Options.{BenchOptions, default_bench}
use aether_stream.Cli.Tools.{Tool}
use aether_stream.Cli.RoundTrip
use aether_stream.Cli.RoundTrip.{Printable}
use aether_stream.Apps.Bench
use aether_stream.Apps.Bench.{report, exited, bench_main}
use aether_stream.Apps.Bench.Report.{agreed, bench_main_lem}
use aether_stream.Apps.Bench.Report
use aether_stream.Tests.Data.{four-IsCapacity}

abbrev three_rounds : List Thread
three_rounds = consumer ∷ producer ∷ producer ∷ []

stress_safe_example :
    (s : Stress) × (run 4 5 three_rounds (start 4 5) ≡ some s)
    × (s.failed ≡ false)
    × (s.expected ≤ s.value)
    × (s.value ≤ 5)
    × (passed 4 5 s ≡ ended 4 5 s)
stress_safe_example = stress_safe four-IsCapacity (omega arith) three_rounds

supports : is_supported 64 (64 ∷ 256 ∷ 1024 ∷ 4096 ∷ 65536 ∷ []) ≡ true
unfolding is_supported
supports = refl

stress_main_passes_example :
    let o : Options = record { messages = 5; capacity = 64 } in
    stress_main (line (codes "stress_spsc") o) (three_rounds ++ in_turn 5) ≡ some 0
stress_main_passes_example =
    stress_main_passes (codes "stress_spsc") 5 64 three_rounds (omega arith) (omega arith) supports

abbrev bench_options : BenchOptions
bench_options = record default_bench { messages = 5; payload_size = 8; capacity = 64 }

bench_options-Printable : Printable Tool.bench bench_options
unfolding is_supported starts_with
bench_options-Printable = (refl, omega arith, refl, refl)

-- The consumer starts before there is anything to consume.
abbrev bench_rounds : List Bench.Thread
bench_rounds = Bench.consumer ∷ Bench.producer ∷ Bench.producer ∷ []

-- A directory that can be made.
abbrev makes_all : View → Bool
makes_all path = true

bench_main_lem_example :
    (full empty : ℕ) × (bench_main makes_all
        (codes "aether_bench" ∷ RoundTrip.line Tool.bench bench_options)
        (bench_rounds ++ Report.in_turn 5)
      ≡ some (exited 0 (report 5 8 64 (agreed 5 full empty))))
bench_main_lem_example =
    bench_main_lem makes_all (codes "aether_bench") bench_options bench_rounds
      bench_options-Printable refl
