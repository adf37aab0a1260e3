-- ===== src/Tools/Stress.antt =====
-- tools/stress_spsc.cpp: one thread pushes the numbers below a bound, the other pops them and checks
-- their order. A schedule says which thread makes its next round, which is one pass of its loop;
-- Ring/Threads has the accesses inside a call.
pub mod Rounds
pub mod Passes
pub mod Main
use aether_stream.Common.{
  ℕ, ◌+◌, ◌%◌, Bool, true, false, not, ◌==◌, ltb, ◌&&◌, ◌||◌, if◌then◌else◌, Option, none, some,
  List, [], ◌∷◌, length, is_empty, codes,
}
use aether_stream.Common.Schedule.{run_turns}
use aether_stream.Core.Types.{u64_mod}
use aether_stream.Ring.{Ring, init, try_push, try_pop, empty}
use aether_stream.Cli.Text.{View, view_eq, from_chars}
use aether_stream.Utils.{SpinWait, make, wait, reset}

pub record Options : Type 0 where
  pub messages : ℕ
  pub capacity : ℕ

abbrev pub default_options : Options
default_options = record { messages = 10000000; capacity = 65536 }

-- `parse_u64(text, out)` of the tool: its result, and `out` behind it, where a number is stored even
-- if text follows it.
abbrev pub whole_number : ℕ → Option (ℕ × View) → Bool × ℕ
whole_number out none = (false, out)
whole_number out (some (n, rest)) = (is_empty rest, n)

unfoldable pub parse_u64 : View → ℕ → Bool × ℕ
parse_u64 text out = whole_number out (from_chars text)

pub data ParseResult : Type 0 where
  ok help error : ParseResult

-- `parse_args` from an index on: the result, and the options as it leaves them.
unfoldable pub parse_from : List View → Options → ParseResult × Options
parse_from [] options = (ParseResult.ok, options)
parse_from (arg ∷ []) options =
    if view_eq arg (codes "--help")
    then (ParseResult.help, options)
    else (ParseResult.error, options)
parse_from (arg ∷ next ∷ args) options =
    let with_messages : ℕ → ParseResult × Options =
      λ n. parse_from args (record options { messages = n }) in
    let with_capacity : ℕ → ParseResult × Options =
      λ n. parse_from args (record options { capacity = n }) in
    if view_eq arg (codes "--help")
    then (ParseResult.help, options)
    else if view_eq arg (codes "--messages")
    then (let (done, n) = parse_u64 next options.messages in
        if not done || n == 0
        then (ParseResult.error, record options { messages = n })
        else with_messages n)
    else if view_eq arg (codes "--capacity")
    then (let (done, n) = parse_u64 next 0 in
        if not done then (ParseResult.error, options) else with_capacity n)
    else (ParseResult.error, options)

-- `parse_args`; the first argument is the name of the program.
unfoldable pub parse_args : List View → Options → ParseResult × Options
unfolding parse_from
parse_args [] options = (ParseResult.ok, options)
parse_args (program ∷ args) options = parse_from args options

-- The ring, the atomics, and the variables of the two threads: `value` and `expected`.
pub record Stress : Type 0 where
  pub queue : Ring ℕ
  pub failed : Bool
  pub consumed : ℕ
  pub push_retries : ℕ
  pub pop_retries : ℕ
  pub value : ℕ
  pub expected : ℕ
  pub producer_spin : SpinWait
  pub consumer_spin : SpinWait

-- Whose round it is.
pub data Thread : Type 0 where
  producer consumer : Thread

module _ (cap messages : ℕ) where
  abbrev pub start : Stress
  start = record {
    queue = init cap;
    failed = false;
    consumed = 0;
    push_retries = 0;
    pop_retries = 0;
    value = 0;
    expected = 0;
    producer_spin = make 64 true;
    consumer_spin = make 64 true;
  }

  -- The tests of the two loops.
  abbrev pub producing : Stress → Bool
  producing s = ltb s.value messages && not s.failed

  abbrev pub consuming : Stress → Bool
  consuming s = ltb s.expected messages && not s.failed

  abbrev pub pushed : Stress → Bool × Ring ℕ → Stress
  pushed s (true, queue) = record s {
    queue = queue;
    value = (s.value + 1) % u64_mod;
    producer_spin = reset s.producer_spin;
  }
  pushed s (false, queue) = record s {
    queue = queue;
    push_retries = (s.push_retries + 1) % u64_mod;
    producer_spin = (wait s.producer_spin).1;
  }

  -- A round of the producer; a thread whose loop has ended rests.
  unfoldable pub produce : Stress → Stress
  produce s = if producing s then pushed s (try_push cap s.queue s.value) else s

  abbrev pub popped : Stress → Bool × ℕ × Ring ℕ → Stress
  popped s (true, value, queue) =
      if not (value == s.expected) then record s { queue = queue; failed = true } else record s {
        queue = queue;
        expected = (s.expected + 1) % u64_mod;
        consumed = (s.expected + 1) % u64_mod;
        consumer_spin = reset s.consumer_spin;
      }
  popped s (false, value, queue) = record s {
    queue = queue;
    pop_retries = (s.pop_retries + 1) % u64_mod;
    consumer_spin = (wait s.consumer_spin).1;
  }

  abbrev pub popped_any : Stress → Option (Bool × ℕ × Ring ℕ) → Option Stress
  popped_any s none = none
  popped_any s (some r) = some (popped s r)

  -- A round of the consumer; `none` is undefined behaviour of the ring.
  unfoldable pub consume : Stress → Option Stress
  consume s = if consuming s then popped_any s (try_pop cap s.queue 0) else some s

  unfoldable pub turn : Thread → Stress → Option Stress
  turn producer s = some (produce s)
  turn consumer s = consume s

  -- The rounds of a schedule.
  unfoldable pub run : List Thread → Stress → Option Stress
  unfolding turn
  run schedule s = run_turns turn schedule s

  -- Both loops have ended, so that `join` returns.
  abbrev pub ended : Stress → Bool
  ended s = not (producing s) && not (consuming s)

  -- The verdict behind the joins.
  unfoldable pub passed : Stress → Bool
  passed s = not s.failed && s.consumed == messages && empty cap s.queue

-- `run_stress` under a schedule: the verdict, when that is long enough for both joins.
abbrev pub verdict : ℕ → ℕ → Option Stress → Option Bool
verdict cap messages none = none
verdict cap messages (some s) = if ended cap messages s then some (passed cap messages s) else none

unfoldable pub run_stress : ℕ → ℕ → List Thread → Option Bool
run_stress cap messages schedule =
    verdict cap messages (run cap messages schedule (start cap messages))

abbrev pub exit_code : Option Bool → Option ℕ
exit_code none = none
exit_code (some true) = some 0
exit_code (some false) = some 1

-- The `switch` of `main`.
unfoldable pub dispatch : Options → List Thread → Option ℕ
unfolding run_stress
dispatch options schedule =
    let code : ℕ → Option ℕ = λ cap. exit_code (run_stress cap options.messages schedule) in
    if options.capacity == 64
    then code 64
    else if options.capacity == 256
    then code 256
    else if options.capacity == 1024
    then code 1024
    else if options.capacity == 4096
    then code 4096
    else if options.capacity == 65536
    then code 65536
    else some 1

-- The part of `main` behind `parse_args`.
abbrev pub behind_parse : ParseResult × Options → List Thread → Option ℕ
behind_parse (ParseResult.ok, options) schedule = dispatch options schedule
behind_parse (ParseResult.help, options) schedule = some 0
behind_parse (ParseResult.error, options) schedule = some 1

-- `main`: the exit code.
unfoldable pub stress_main : List View → List Thread → Option ℕ
stress_main args schedule = behind_parse (parse_args args default_options) schedule
