-- ===== src/Tools/Stress/Main.antt =====
-- `main` of the stress tool, from the arguments to the exit code.
use aether_stream.Common.{
  ℕ, ◌^◌, ◌≤◌, ◌<◌, ◌≡◌, refl, ap, ◌∙◌, true, ◌==◌, some, List, [], ◌∷◌, ◌++◌, codes, arith, false,
}
use aether_stream.Core.Types.{u64_mod}
use aether_stream.Ring.Repr.{IsCapacity}
use aether_stream.Cli.Text.{View, view_eq, is_supported, supported_capacities}
use aether_stream.Cli.Numbers.{from_chars-Spells}
use aether_stream.Cli.Decimal.{decimal, decimal-Spells}
use aether_stream.Cli.Laws.{is_supported-Each}
use aether_stream.Cli.RoundTrip.{supported_capacity-lt}
use aether_stream.Tools.Stress.{
  Options, Thread, ParseResult, default_options, parse_u64, parse_args, parse_from, run_stress,
  exit_code, dispatch, behind_parse, stress_main,
}
use aether_stream.Tools.Stress.Passes.{in_turn, stress_passes}

parse_u64-decimal : (n out : ℕ) → n < u64_mod → parse_u64 (decimal n) out ≡ (true, n)
unfolding parse_u64
parse_u64-decimal n out fits = rw (from_chars-Spells (decimal n) n (decimal-Spells n fits))

-- The arguments that set both options.
abbrev pub line : View → Options → List View
line program o =
    program ∷ codes "--messages" ∷ decimal o.messages ∷ codes "--capacity" ∷ decimal o.capacity ∷ []

parse_args-line :
    (program : View) (messages capacity : ℕ)
    → 0 < messages
    → messages < u64_mod
    → capacity < u64_mod
    → let o : Options = record { messages = messages; capacity = capacity } in
      parse_args (line program o) default_options ≡ (ParseResult.ok, o)
unfolding parse_args parse_from view_eq
parse_args-line program messages capacity pos m c =
    let some_messages : (messages == 0) ≡ false = ground arith in
    rw (
      parse_u64-decimal messages default_options.messages m,
      some_messages,
      parse_u64-decimal capacity 0 c,
    )

-- Each instance of the tool passes, so that the switch of `main` exits with 0.
dispatch_passes :
    (messages capacity : ℕ) (schedule : List Thread)
    → messages < u64_mod
    → is_supported capacity supported_capacities ≡ true
    → dispatch (record { messages = messages; capacity = capacity }) (schedule ++ in_turn messages)
      ≡ some 0
unfolding dispatch
dispatch_passes messages capacity schedule small =
    let passes : (cap : ℕ)
        → IsCapacity cap
        → exit_code (run_stress cap messages (schedule ++ in_turn messages)) ≡ some 0 =
      λ cap c. ap exit_code (stress_passes c small schedule) in
    let is : (cap k : ℕ) → cap ≡ 2 ^ k → 1 ≤ k → k ≤ 63 → IsCapacity cap =
      λ cap k pow pos fits. record { exponent = k; pow = pow; pos = pos; fits = fits } in
    is_supported-Each
      (λ n.
        dispatch (record { messages = messages; capacity = n }) (schedule ++ in_turn messages)
        ≡ some 0)
      capacity supported_capacities
      (
        passes 64 (is 64 6 refl (omega arith) (omega arith)),
        (
          passes 256 (is 256 8 refl (omega arith) (omega arith)),
          (
            passes 1024 (is 1024 10 refl (omega arith) (omega arith)),
            (
              passes 4096 (is 4096 12 refl (omega arith) (omega arith)),
              (passes 65536 (is 65536 16 refl (omega arith) (omega arith)), tt),
            ),
          ),
        ),
      )

-- The stress tool, called with a positive number of messages and a supported capacity, both below
-- `2 ^ 64`, exits with 0 under every schedule of its threads that goes on with so many rounds of
-- each in turn.
pub stress_main_passes :
    (program : View) (messages capacity : ℕ) (schedule : List Thread)
    → 0 < messages
    → messages < u64_mod
    → is_supported capacity supported_capacities ≡ true
    → let o : Options = record { messages = messages; capacity = capacity } in
      stress_main (line program o) (schedule ++ in_turn messages) ≡ some 0
unfolding stress_main
stress_main_passes program messages capacity schedule pos small supported =
    ap (λ r. behind_parse r (schedule ++ in_turn messages))
      (parse_args-line program messages capacity pos small
        (supported_capacity-lt capacity supported))
    ∙ dispatch_passes messages capacity schedule small supported
