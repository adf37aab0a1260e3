-- ===== src/Cli/Parse.antt =====
-- src/cli/args.cpp, lines 124 to 349: the five parsers. Each is one loop over the arguments, whose
-- rounds read one option; the options of a round are the parser's own.
use aether_stream.Common.{
  ℕ, zero, suc, ◌+◌, Bool, true, not, ltb, ◌||◌, if◌then◌else◌, Option, none, some, List, length,
  codes,
}
use aether_stream.Core.Expected.{Expected, value, error, of_status}
use aether_stream.Cli.Text.{
  View, at, cursor_value, matches, parse_u64, parse_size, view_eq, is_supported, invalid,
  supported_capacities, supported_payload_sizes,
}
use aether_stream.Cli.Options.{
  BenchOptions, default_bench, PubOptions, default_pub, SubOptions, default_sub, ReplayOptions,
  default_replay, InspectWalOptions, default_inspect_wal,
}

abbrev pub is_help : View → Bool
is_help arg = view_eq arg (codes "--help") || view_eq arg (codes "-h")

module _ {ℓ} {O : Type ℓ} where
  -- `auto v = cursor.value(i, arg)`, and what is done with it.
  abbrev pub with_value : (View → Expected O) → Expected View × ℕ → Expected O × ℕ
  with_value use_it (error s, i) = (of_status s, i)
  with_value use_it (value v, i) = (use_it v, i)

  abbrev pub use_number : (ℕ → Expected O) → Expected ℕ → Expected O
  use_number use_it (error s) = of_status s
  use_number use_it (value n) = use_it n

  -- `auto n = parse(v.value())`, and what is done with it.
  abbrev pub with_number : (View → Expected ℕ) → (ℕ → Expected O) → View → Expected O
  with_number parse use_it v = use_number use_it (parse v)

  -- Behind a round: the parser returns its failure, or goes on with the next argument.
  abbrev pub go_on : (ℕ → O → Option (Expected O)) → Expected O × ℕ → Option (Expected O)
  go_on rest (error s, i) = some (error s)
  go_on rest (value options, i) = rest (i + 1) options

  -- The loop of a parser from an index on: `read` is a round, which may move the index. `none`
  -- means that the fuel, the rounds left, ran out.
  unfoldable pub parse_loop :
      (O → List View → ℕ → Expected O × ℕ) → ℕ → List View → ℕ → O → Option (Expected O)
  parse_loop read zero args i options = if ltb i (length args) then none else some (value options)
  parse_loop read (suc fuel) args i options =
      let rest = parse_loop read fuel args in
      if ltb i (length args) then go_on rest (read options args i) else some (value options)

-- A round of `parse_bench_args`.
unfoldable pub read_bench : BenchOptions → List View → ℕ → Expected BenchOptions × ℕ
read_bench o args i =
    let arg = at args i in
    let got = cursor_value args i in
    if is_help arg
    then (value (record o { help = true }), i)
    else if matches arg (codes "--messages")
    then with_value (with_number parse_u64 (λ n. value (record o { messages = n }))) got
    else if matches arg (codes "--payload-size")
    then with_value
        (with_number parse_size (λ n.
          if not (is_supported n supported_payload_sizes)
          then invalid "unsupported payload size"
          else value (record o { payload_size = n })))
        got
    else if matches arg (codes "--capacity")
    then with_value
        (with_number parse_size (λ n.
          if not (is_supported n supported_capacities)
          then invalid "unsupported capacity"
          else value (record o { capacity = n })))
        got
    else if matches arg (codes "--output-dir")
    then with_value (λ v. value (record o { output_dir = v })) got
    else (invalid "unknown option", i)

unfoldable pub read_pub : PubOptions → List View → ℕ → Expected PubOptions × ℕ
read_pub o args i =
    let arg = at args i in
    let got = cursor_value args i in
    if is_help arg
    then (value (record o { help = true }), i)
    else if view_eq arg (codes "--flush-on-commit")
    then (value (record o { flush_on_commit = true }), i)
    else if matches arg (codes "--wal")
    then with_value (λ v. value (record o { wal_path = v })) got
    else if matches arg (codes "--messages")
    then with_value (with_number parse_u64 (λ n. value (record o { messages = n }))) got
    else if matches arg (codes "--wal-size")
    then with_value (with_number parse_u64 (λ n. value (record o { wal_size_bytes = n }))) got
    else (invalid "unknown option", i)

unfoldable pub read_sub : SubOptions → List View → ℕ → Expected SubOptions × ℕ
read_sub o args i =
    let arg = at args i in
    let got = cursor_value args i in
    if is_help arg
    then (value (record o { help = true }), i)
    else if matches arg (codes "--wal")
    then with_value (λ v. value (record o { wal_path = v })) got
    else if matches arg (codes "--messages")
    then with_value (with_number parse_u64 (λ n. value (record o { messages = n }))) got
    else if matches arg (codes "--limit")
    then with_value (with_number parse_u64 (λ n. value (record o { limit = n }))) got
    else if matches arg (codes "--capacity")
    then with_value
        (with_number parse_size (λ n.
          if not (is_supported n supported_capacities)
          then invalid "unsupported capacity"
          else value (record o { capacity = n })))
        got
    else (invalid "unknown option", i)

unfoldable pub read_replay : ReplayOptions → List View → ℕ → Expected ReplayOptions × ℕ
read_replay o args i =
    let arg = at args i in
    let got = cursor_value args i in
    if is_help arg
    then (value (record o { help = true }), i)
    else if matches arg (codes "--wal")
    then with_value (λ v. value (record o { wal_path = v })) got
    else if matches arg (codes "--limit")
    then with_value (with_number parse_u64 (λ n. value (record o { limit = n }))) got
    else if matches arg (codes "--payload-preview-bytes")
    then with_value (with_number parse_size (λ n. value (record o { payload_preview_bytes = n })))
        got
    else (invalid "unknown option", i)

unfoldable pub read_inspect_wal : InspectWalOptions → List View → ℕ → Expected InspectWalOptions × ℕ
read_inspect_wal o args i =
    let arg = at args i in
    let got = cursor_value args i in
    if is_help arg
    then (value (record o { help = true }), i)
    else if view_eq arg (codes "--verbose")
    then (value (record o { verbose = true }), i)
    else if matches arg (codes "--wal")
    then with_value (λ v. value (record o { wal_path = v })) got
    else if matches arg (codes "--limit")
    then with_value (with_number parse_u64 (λ n. value (record o { limit = n }))) got
    else (invalid "unknown option", i)

-- The parsers begin behind the name of the program. The arguments bound the rounds.
unfoldable pub parse_bench_args : List View → Option (Expected BenchOptions)
unfolding parse_loop
parse_bench_args args = parse_loop read_bench (length args) args 1 default_bench

unfoldable pub parse_pub_args : List View → Option (Expected PubOptions)
unfolding parse_loop
parse_pub_args args = parse_loop read_pub (length args) args 1 default_pub

unfoldable pub parse_sub_args : List View → Option (Expected SubOptions)
unfolding parse_loop
parse_sub_args args = parse_loop read_sub (length args) args 1 default_sub

unfoldable pub parse_replay_args : List View → Option (Expected ReplayOptions)
unfolding parse_loop
parse_replay_args args = parse_loop read_replay (length args) args 1 default_replay

unfoldable pub parse_inspect_wal_args : List View → Option (Expected InspectWalOptions)
unfolding parse_loop
parse_inspect_wal_args args = parse_loop read_inspect_wal (length args) args 1 default_inspect_wal
