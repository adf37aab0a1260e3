-- ===== src/Cli/Tools.antt =====
-- The five command-line tools: the options of each and its parser, which ends on any arguments.
use aether_stream.Common.{
  ℕ, ◌<◌, ◌≡◌, refl, Bool, true, false, String, Option, some, List, length, codes, is_empty, arith,
}
use aether_stream.Core.Types.{u64_mod}
use aether_stream.Core.Expected.{Expected, value}
use aether_stream.Cli.Text.{
  View, at, matches, parse_u64, parse_size, supported_capacities, supported_payload_sizes,
  is_supported, view_eq,
}
use aether_stream.Cli.Options.{
  BenchOptions, default_bench, PubOptions, default_pub, SubOptions, default_sub, ReplayOptions,
  default_replay, InspectWalOptions, default_inspect_wal,
}
use aether_stream.Cli.Parse.{
  is_help, read_bench, read_pub, read_sub, read_replay, read_inspect_wal, parse_bench_args,
  parse_pub_args, parse_sub_args, parse_replay_args, parse_inspect_wal_args,
}
use aether_stream.Cli.Numbers.{parse_u64-Bounded, parse_size-Bounded}
use aether_stream.Cli.Loop.{Good, Reads, if-Reads, parse_loop_lem}
use aether_stream.Cli.Laws.{flag-Reads, number-Reads, listed-Reads, text-Reads, unknown-Reads}

pub data Tool : Type 0 where
  bench : Tool
  publish : Tool
  sub : Tool
  replay : Tool
  inspect_wal : Tool

abbrev pub OptionsOf : Tool → Type 0
OptionsOf Tool.bench = BenchOptions
OptionsOf Tool.publish = PubOptions
OptionsOf Tool.sub = SubOptions
OptionsOf Tool.replay = ReplayOptions
OptionsOf Tool.inspect_wal = InspectWalOptions

abbrev pub parse_args : (t : Tool) → List View → Option (Expected (OptionsOf t))
parse_args Tool.bench = parse_bench_args
parse_args Tool.publish = parse_pub_args
parse_args Tool.sub = parse_sub_args
parse_args Tool.replay = parse_replay_args
parse_args Tool.inspect_wal = parse_inspect_wal_args

-- What holds of the options that a tool goes on with: numbers of 64 bits, a capacity and a payload
-- size of those supported, and a path, which only aether_sub can do without.
abbrev pub Supported : (t : Tool) → OptionsOf t → Type 0
Supported Tool.bench o =
    (o.messages < u64_mod)
    × (is_supported o.payload_size supported_payload_sizes ≡ true)
    × (is_supported o.capacity supported_capacities ≡ true)
    × (is_empty o.output_dir ≡ false)
Supported Tool.publish o =
    (o.messages < u64_mod) × (o.wal_size_bytes < u64_mod) × (is_empty o.wal_path ≡ false)
Supported Tool.sub o =
    (o.messages < u64_mod)
    × (o.limit < u64_mod)
    × (is_supported o.capacity supported_capacities ≡ true)
Supported Tool.replay o =
    (o.limit < u64_mod) × (o.payload_preview_bytes < u64_mod) × (is_empty o.wal_path ≡ false)
Supported Tool.inspect_wal o = (o.limit < u64_mod) × (is_empty o.wal_path ≡ false)

module _ (args : List View) (i : ℕ) where
  abbrev is : String → Bool
  is option = matches (at args i) (codes option)

  abbrev flagged : String → Bool
  flagged option = view_eq (at args i) (codes option)

  read_bench-Reads :
      (o : BenchOptions)
      → Supported Tool.bench o
      → Reads (Supported Tool.bench) i (read_bench o args i)
  unfolding read_bench
  read_bench-Reads o p =
      let P = Supported Tool.bench in
      if-Reads P (is_help (at args i)) (flag-Reads P i (record o { help = true }) p) (
        if-Reads P (is "--messages")
          (number-Reads P args i parse_u64 (λ n. value (record o { messages = n }))
            parse_u64-Bounded (λ n fits. (fits, p.1, p.2, p.3)))
          (if-Reads P (is "--payload-size")
            (listed-Reads P args i supported_payload_sizes "unsupported payload size"
              (λ n. record o { payload_size = n }) (λ n listed. (p.0, listed, p.2, p.3)))
            (if-Reads P (is "--capacity")
              (listed-Reads P args i supported_capacities "unsupported capacity"
                (λ n. record o { capacity = n }) (λ n listed. (p.0, p.1, listed, p.3)))
              (if-Reads P (is "--output-dir")
                (text-Reads P args i (λ v. value (record o { output_dir = v }))
                  (λ v filled. (p.0, p.1, p.2, filled)))
                (unknown-Reads P i)))))

  read_pub-Reads :
      (o : PubOptions)
      → Supported Tool.publish o
      → Reads (Supported Tool.publish) i (read_pub o args i)
  unfolding read_pub
  read_pub-Reads o p =
      let P = Supported Tool.publish in
      if-Reads P (is_help (at args i)) (flag-Reads P i (record o { help = true }) p) (
        if-Reads P (flagged "--flush-on-commit")
          (flag-Reads P i (record o { flush_on_commit = true }) p)
          (if-Reads P (is "--wal")
            (text-Reads P args i (λ v. value (record o { wal_path = v }))
              (λ v filled. (p.0, p.1, filled)))
            (if-Reads P (is "--messages")
              (number-Reads P args i parse_u64 (λ n. value (record o { messages = n }))
                parse_u64-Bounded (λ n fits. (fits, p.1, p.2)))
              (if-Reads P (is "--wal-size")
                (number-Reads P args i parse_u64 (λ n. value (record o { wal_size_bytes = n }))
                  parse_u64-Bounded (λ n fits. (p.0, fits, p.2)))
                (unknown-Reads P i)))))

  read_sub-Reads :
      (o : SubOptions) → Supported Tool.sub o → Reads (Supported Tool.sub) i (read_sub o args i)
  unfolding read_sub
  read_sub-Reads o p =
      let P = Supported Tool.sub in
      if-Reads P (is_help (at args i)) (flag-Reads P i (record o { help = true }) p) (
        if-Reads P (is "--wal")
          (text-Reads P args i (λ v. value (record o { wal_path = v })) (λ v filled. p))
          (if-Reads P (is "--messages")
            (number-Reads P args i parse_u64 (λ n. value (record o { messages = n }))
              parse_u64-Bounded (λ n fits. (fits, p.1, p.2)))
            (if-Reads P (is "--limit")
              (number-Reads P args i parse_u64 (λ n. value (record o { limit = n }))
                parse_u64-Bounded (λ n fits. (p.0, fits, p.2)))
              (if-Reads P (is "--capacity")
                (listed-Reads P args i supported_capacities "unsupported capacity"
                  (λ n. record o { capacity = n }) (λ n listed. (p.0, p.1, listed)))
                (unknown-Reads P i)))))

  read_replay-Reads :
      (o : ReplayOptions)
      → Supported Tool.replay o
      → Reads (Supported Tool.replay) i (read_replay o args i)
  unfolding read_replay
  read_replay-Reads o p =
      let P = Supported Tool.replay in
      if-Reads P (is_help (at args i)) (flag-Reads P i (record o { help = true }) p) (
        if-Reads P (is "--wal")
          (text-Reads P args i (λ v. value (record o { wal_path = v }))
            (λ v filled. (p.0, p.1, filled)))
          (if-Reads P (is "--limit")
            (number-Reads P args i parse_u64 (λ n. value (record o { limit = n })) parse_u64-Bounded
              (λ n fits. (fits, p.1, p.2)))
            (if-Reads P (is "--payload-preview-bytes")
              (number-Reads P args i parse_size
                (λ n. value (record o { payload_preview_bytes = n })) parse_size-Bounded
                (λ n fits. (p.0, fits, p.2)))
              (unknown-Reads P i))))

  read_inspect_wal-Reads :
      (o : InspectWalOptions)
      → Supported Tool.inspect_wal o
      → Reads (Supported Tool.inspect_wal) i (read_inspect_wal o args i)
  unfolding read_inspect_wal
  read_inspect_wal-Reads o p =
      let P = Supported Tool.inspect_wal in
      if-Reads P (is_help (at args i)) (flag-Reads P i (record o { help = true }) p) (
        if-Reads P (flagged "--verbose") (flag-Reads P i (record o { verbose = true }) p) (
          if-Reads P (is "--wal")
            (text-Reads P args i (λ v. value (record o { wal_path = v }))
              (λ v filled. (p.0, filled)))
            (if-Reads P (is "--limit")
              (number-Reads P args i parse_u64 (λ n. value (record o { limit = n }))
                parse_u64-Bounded (λ n fits. (fits, p.1)))
              (unknown-Reads P i))))

-- The parser of each tool ends on any arguments, with an error that is not ok or with options. Their
-- numbers fit 64 bits; the payload size of aether_bench is one of those supported, and so is its
-- capacity and that of aether_sub; and the paths are not empty, but that of aether_sub may be.
pub parse_args_lem :
    (t : Tool) (args : List View)
    → (r : Expected (OptionsOf t)) × (parse_args t args ≡ some r) × Good (Supported t) r
unfolding parse_bench_args parse_pub_args parse_sub_args parse_replay_args parse_inspect_wal_args
    is_supported
parse_args_lem Tool.bench args =
    parse_loop_lem (Supported Tool.bench) read_bench args (λ o i p. read_bench-Reads args i o p)
      (length args) 1 default_bench (omega arith, refl, refl, refl) (omega arith)
parse_args_lem Tool.publish args =
    parse_loop_lem (Supported Tool.publish) read_pub args (λ o i p. read_pub-Reads args i o p)
      (length args) 1 default_pub (omega arith, omega arith, refl) (omega arith)
parse_args_lem Tool.sub args =
    parse_loop_lem (Supported Tool.sub) read_sub args (λ o i p. read_sub-Reads args i o p)
      (length args) 1 default_sub (omega arith, omega arith, refl) (omega arith)
parse_args_lem Tool.replay args =
    parse_loop_lem (Supported Tool.replay) read_replay args (λ o i p. read_replay-Reads args i o p)
      (length args) 1 default_replay (omega arith, omega arith, refl) (omega arith)
parse_args_lem Tool.inspect_wal args =
    parse_loop_lem (Supported Tool.inspect_wal) read_inspect_wal args
      (λ o i p. read_inspect_wal-Reads args i o p) (length args) 1 default_inspect_wal
      (omega arith, refl) (omega arith)
